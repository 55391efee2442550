-- ===== src/Admin/Analytics/Tallies.antt =====
-- The queries of the report, as counts and sums over the tables.
use text.Mathlib.Text.{◌==◌ as str_eq}
use razor_pay.Prelude.{
  ◌+◌, ◌≡◌, refl, ◌∙◌, ℤ, pos, ◌+ℤ◌, String, Bool, true, false, ◌&&◌, ◌||◌, List, [], ◌∷◌, ◌++◌,
  ◌==◌, arith, map, select, exists, exists-weaken, if◌then◌else◌,
}
use razor_pay.Prelude.Distinct.{count, Distinct}
use razor_pay.Prelude.Counts.{
  count-never, count-ext, count-append, count-select, count-or, count-map,
}
use razor_pay.Models.{RecoveryCase, RecoveryAttempt}
use razor_pay.Consistency.{same_case}
use razor_pay.Admin.Analytics.{joined, total}

-- The sum of the amounts at risk of the cases that fit a test.
unfoldable pub worth : (RecoveryCase → Bool) → List RecoveryCase → ℤ
worth q [] = pos 0
worth q (c ∷ cases) = if q c then c.amount_at_risk +ℤ worth q cases else worth q cases

pub total-select :
    (q : RecoveryCase → Bool) (cases : List RecoveryCase) → total (select q cases) ≡ worth q cases
unfolding total select worth
total-select q [] = refl
total-select q (c ∷ cases) = ground (arith, total-select q cases)

pub total-select-select :
    (p q : RecoveryCase → Bool) (cases : List RecoveryCase)
    → total (select p (select q cases)) ≡ worth (λ c. q c && p c) cases
unfolding total select worth
total-select-select p q [] = refl
total-select-select p q (c ∷ cases) = ground (arith, total-select-select p q cases)

-- The case of an attempt is one of those with a currency.
pub is_attempt_in : String → List RecoveryCase → RecoveryAttempt → Bool
is_attempt_in currency cases a =
    exists (λ (c : RecoveryCase). c.id == a.recovery_case_id && str_eq c.currency currency) cases

-- Where ids are distinct, a join counts each attempt of a case once.
pub count-joined :
    (currency : String) (g : RecoveryAttempt → Bool) (cases : List RecoveryCase)
    (attempts : List RecoveryAttempt)
    → Distinct same_case cases
    → count (λ (p : String × RecoveryAttempt). str_eq p.0 currency && g p.1) (joined cases attempts)
      ≡ count (λ a. is_attempt_in currency cases a && g a) attempts
unfolding joined is_attempt_in exists select
count-joined currency g [] attempts h =
    let none = count-never (λ a. is_attempt_in currency [] a && g a) attempts (λ a. refl) in cc
count-joined currency g (c ∷ cases) attempts h =
    let own : RecoveryAttempt → Bool = λ a. c.id == a.recovery_case_id in
    let mine : RecoveryAttempt → Bool = λ a. own a && (str_eq c.currency currency && g a) in
    let others : RecoveryAttempt → Bool = λ a. is_attempt_in currency cases a && g a in
    let fits : String × RecoveryAttempt → Bool = λ p. str_eq p.0 currency && g p.1 in
    let rows : List (String × RecoveryAttempt) =
      map (λ (a : RecoveryAttempt). (c.currency, a)) (select own attempts) in
    let one : count fits (rows ++ joined cases attempts)
        ≡ count fits rows + count fits (joined cases attempts) =
      count-append fits rows (joined cases attempts) in
    let two =
      count-map fits (λ (a : RecoveryAttempt). (c.currency, a)) (select own attempts)
      ∙ count-select (λ (a : RecoveryAttempt). str_eq c.currency currency && g a) own attempts in
    let three = count-joined currency g cases attempts h.1 in
    let four = count-or mine others attempts apart in
    let five =
      count-ext (λ a. is_attempt_in currency (c ∷ cases) a && g a) (λ a. mine a || others a)
        attempts (λ a. ground arith) in
    omega (arith, one, two, three, four, five)
  where
    alone :
        (a : RecoveryAttempt)
        → c.id == a.recovery_case_id ≡ true
        → is_attempt_in currency cases a ≡ false
    alone a own =
        exists-weaken
          (λ (d : RecoveryCase). d.id == a.recovery_case_id && str_eq d.currency currency)
          (same_case c) cases (λ d e. ground arith) h.0

    apart :
        (a : RecoveryAttempt)
        → c.id == a.recovery_case_id && (str_eq c.currency currency && g a) ≡ true
        → is_attempt_in currency cases a && g a ≡ false
    apart a e = ground (arith, alone a)

-- All attempts of cases with the currency.
pub count-joined_all :
    (currency : String) (cases : List RecoveryCase) (attempts : List RecoveryAttempt)
    → Distinct same_case cases
    → count (λ (p : String × RecoveryAttempt). str_eq p.0 currency) (joined cases attempts)
      ≡ count (is_attempt_in currency cases) attempts
count-joined_all currency cases attempts h =
    count-ext (λ (p : String × RecoveryAttempt). str_eq p.0 currency)
      (λ (p : String × RecoveryAttempt). str_eq p.0 currency && true) (joined cases attempts)
      (λ p. ground arith)
    ∙ count-joined currency (λ a. true) cases attempts h
    ∙ count-ext (λ a. is_attempt_in currency cases a && true) (is_attempt_in currency cases)
        attempts (λ a. ground arith)
