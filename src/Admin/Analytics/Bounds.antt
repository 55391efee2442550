-- ===== src/Admin/Analytics/Bounds.antt =====
-- The parts of a report do not exceed its wholes.
use razor_pay.Prelude.{
  ℤ, pos, is_negative, ◌+ℤ◌, ◌≤ℤ◌, ◌+◌, ◌≤◌, ◌≡◌, String, Bool, true, false, some, List, [], ◌∷◌,
  ◌&&◌, arith, select, exists, All, Bool-cases, inl, inr,
}
use razor_pay.Prelude.Distinct.{count, Distinct}
use razor_pay.Floats.{Float, FloatOps, flt, nought}
use razor_pay.States.{is_recovered}
use razor_pay.Models.{RecoveryCase, RecoveryAttempt}
use razor_pay.Gateway.{lookup}
use razor_pay.Consistency.{same_case}
use razor_pay.Admin.Analytics.{
  CurrencyMetrics, metrics_by_currency, is_given_up, has_gone_through, has_failed,
}
use razor_pay.Admin.Analytics.Tallies.{worth, is_attempt_in}
use razor_pay.Admin.Analytics.Report.{is_in, expected, lookup-metrics_by_currency}

-- What IEEE 754 says of rounding and of differences. A comparison with NaN does not hold.
pub record IsIeee (ops : FloatOps) : Type 0 where
  pub zero : ops.float (pos 0) ≡ nought
  pub keeps_order : (m n : ℤ) → m ≤ℤ n → flt (ops.float n) (ops.float m) ≡ false
  pub keeps_sign : (a b : Float) → flt a b ≡ false → flt (ops.sub a b) nought ≡ false

-- Two tests that exclude one another, both stronger than a third.
count-exclusive :
    {A : Type 0} (p q r : A → Bool) (l : List A)
    → ((x : A) → p x ≡ true → q x ≡ false)
    → ((x : A) → r x ≡ false → p x ≡ false)
    → ((x : A) → r x ≡ false → q x ≡ false)
    → count p l + count q l ≤ count r l
unfolding select
count-exclusive p q r [] k pr qr = omega arith
count-exclusive p q r (x ∷ l) k pr qr =
    ground (arith, k x, pr x, qr x, count-exclusive p q r l k pr qr)

count-exists : {A : Type 0} (q : A → Bool) (l : List A) → exists q l ≡ true → 1 ≤ count q l
unfolding select exists
count-exists q [] h = cc
count-exists q (x ∷ l) h = ground (arith, count-exists q l)

abbrev pub IsAmount : RecoveryCase → Type 0
IsAmount c = is_negative c.amount_at_risk ≡ false

-- A part of amounts comes to no more than the whole.
worth-part :
    (p q : RecoveryCase → Bool) (l : List RecoveryCase)
    → ((c : RecoveryCase) → q c ≡ false → p c ≡ false)
    → All IsAmount l
    → (pos 0 ≤ℤ worth p l) × (worth p l ≤ℤ worth q l)
unfolding worth ◌+ℤ◌
worth-part p q [] k h = ground arith
worth-part p q (c ∷ l) k h = ground (arith, k c, worth-part p q l k h.1)

-- In a report over cases with distinct ids and amounts that are not negative, the entry of a currency
-- counts at least one case, at least as many cases as it counts recovered and given up ones, and at
-- least as many attempts as it counts succeeded and failed ones. What is reported as recovered and as
-- not recovered is not below 0.0, and what is recovered is not above what was attempted. The floats are
-- those of IEEE 754.
pub metrics-stay_within :
    (ops : FloatOps) (cases : List RecoveryCase) (attempts : List RecoveryAttempt)
    (currency : String) (m : CurrencyMetrics)
    → IsIeee ops
    → Distinct same_case cases
    → All IsAmount cases
    → lookup currency (metrics_by_currency ops cases attempts) ≡ some m
    → (m.successful_recovery_cases + m.failed_or_stopped_recovery_cases ≤ m.total_recovery_cases)
      × (1 ≤ m.total_recovery_cases)
      × (m.successful_recovery_attempts + m.failed_recovery_attempts ≤ m.total_recovery_attempts)
      × (flt m.amount_recovered nought ≡ false)
      × (flt m.amount_attempted m.amount_recovered ≡ false)
      × (flt m.amount_unrecovered nought ≡ false)
metrics-stay_within ops cases attempts currency m ieee distinct amounts found =
    let known = lookup-metrics_by_currency ops cases attempts currency distinct in
    let back = λ (c : RecoveryCase). is_in currency c && is_recovered c.status in
    let (positive, part) = worth-part back (is_in currency) cases (λ c e. ground arith) amounts in
    let order = ieee.keeps_order (worth back cases) (worth (is_in currency) cases) part in
    let tries = is_attempt_in currency cases in
    elim (Bool-cases (exists (is_in currency) cases)) [
      | inr none_has ↦ absurd (ground (arith, known))
      | inl has ↦
          let same : expected ops cases attempts currency ≡ m = ground (arith, known) in
          rw (← same) (
            count-exclusive back (λ (c : RecoveryCase). is_in currency c && is_given_up c.status)
                (is_in currency) cases (λ c e. ground arith) (λ c e. ground arith)
                (λ c e. ground arith),
            count-exists (is_in currency) cases has,
            count-exclusive (λ (a : RecoveryAttempt). tries a && has_gone_through a.status)
                (λ (a : RecoveryAttempt). tries a && has_failed a.status) tries attempts
                (λ a e. ground arith) (λ a e. ground arith) (λ a e. ground arith),
            rw (← ieee.zero) (ieee.keeps_order (pos 0) (worth back cases) positive),
            order,
            ieee.keeps_sign _ _ order,
          )
    ]
