-- ===== src/Admin/Analytics/Groups.antt =====
-- The dictionary that the two loops build, looked up at a currency.
use text.Mathlib.Text.{◌==◌ as str_eq}
use text.Mathlib.TextEquality.{eq_iff}
use razor_pay.Prelude.{
  ◌≡◌, refl, ◌∙◌, String, Bool, Option, none, some, List, [], ◌∷◌, arith, map, exists,
  if◌then◌else◌, Bool-cases, inl, inr, Option-cases,
}
use razor_pay.Models.{RecoveryCase, RecoveryAttempt}
use razor_pay.Floats.{FloatOps}
use razor_pay.Gateway.{lookup, insert}
use razor_pay.Gateway.Charges.{lookup-insert}
use razor_pay.Admin.Analytics.{
  CurrencyMetrics, AttemptRow, groups, case_row, case_metrics, attempt_row, with_attempts,
  put_cases, put_row, put_attempts,
}

abbrev pub among : String → List String → Bool
among k keys = exists (λ j. str_eq j k) keys

-- A GROUP BY has a group for each key.
pub among-groups : (k : String) (keys : List String) → among k (groups keys) ≡ among k keys
unfolding groups exists
among-groups k [] = refl
among-groups k (j ∷ keys) = elim (Bool-cases (among j keys)) [
  | inl t ↦ rw t (ground (arith, eq_iff j k, among-groups k keys, t))
  | inr f ↦ rw f (ground (arith, among-groups k keys))
]

module _ (ops : FloatOps) (cases : List RecoveryCase) where
  pub lookup-put_cases :
      (k : String) (keys : List String) (d : List (String × CurrencyMetrics))
      → lookup k (put_cases ops (map (case_row cases) keys) d)
        ≡ (if among k keys then some (case_metrics ops (case_row cases k)) else lookup k d)
  unfolding put_cases exists
  lookup-put_cases k [] d = refl
  lookup-put_cases k (j ∷ keys) d =
      lookup-put_cases k keys (insert j (case_metrics ops (case_row cases j)) d)
      ∙ ground (arith, eq_iff j k, lookup-insert j k (case_metrics ops (case_row cases j)) d)

-- The change that the second loop makes to an entry.
abbrev pub noted : AttemptRow → Option CurrencyMetrics → Option CurrencyMetrics
noted row none = none
noted row (some m) = some (with_attempts row m)

module _ (pairs : List (String × RecoveryAttempt)) where
  lookup-put_row :
      (k j : String) (d : List (String × CurrencyMetrics)) (o : Option CurrencyMetrics)
      → lookup j d ≡ o
      → lookup k (put_row (attempt_row pairs j) o d)
        ≡ (if str_eq j k then noted (attempt_row pairs j) o else lookup k d)
  lookup-put_row k j d none e = ground (arith, eq_iff j k, e)
  lookup-put_row k j d (some m) e =
      ground (arith, lookup-insert j k (with_attempts (attempt_row pairs j) m) d)

  pub lookup-put_attempts :
      (k : String) (keys : List String) (d : List (String × CurrencyMetrics))
      → lookup k (put_attempts (map (attempt_row pairs) keys) d)
        ≡ (if among k keys then noted (attempt_row pairs k) (lookup k d) else lookup k d)
  unfolding put_attempts exists
  lookup-put_attempts k [] d = refl
  lookup-put_attempts k (j ∷ keys) d =
      let one : lookup k (put_row (attempt_row pairs j) (lookup j d) d)
          ≡ (if str_eq j k then noted (attempt_row pairs j) (lookup j d) else lookup k d) =
        lookup-put_row k j d (lookup j d) refl in
      lookup-put_attempts k keys (put_row (attempt_row pairs j) (lookup j d) d)
      ∙ elim (Bool-cases (str_eq j k)) [
        | inl t ↦
            let e : j ≡ k = (eq_iff j k).0 t in
            elim (Option-cases (lookup k d)) [
              | inl gone ↦ ground (arith, one, e)
              | inr (m, found) ↦ ground (arith, one, e)
            ]
        | inr f ↦ ground (arith, one)
      ]
