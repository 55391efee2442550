-- ===== src/Tests/Reports.antt =====
-- The report and the answers of the model at concrete inputs.
use razor_pay.Prelude.{
  ◌-ℤ◌, arith, All, ℕ, pos, ◌+◌, ◌≡◌, ◌≤◌, refl, Option, some, List, [], ◌∷◌, exists, false,
}
use razor_pay.Errors.{ok}
use razor_pay.States.{RecoveryState, AttemptState}
use razor_pay.Models.{RecoveryCase, RecoveryAttempt}
use razor_pay.Gateway.{lookup}
use razor_pay.Admin.Analytics.{metrics_by_currency}
use razor_pay.Admin.Analytics.Report.{expected, lookup-metrics_by_currency}
use razor_pay.Admin.Analytics.Bounds.{IsIeee, metrics-stay_within}
use razor_pay.Floats.{Float, nan, infinity, minus_infinity, finite, flt, nought}
use razor_pay.Worker.Attempt.{new_attempt}
use razor_pay.Contracts.{Decision, ActionType, DecisionContext}
use razor_pay.Provider.{Attempt, decide, extract_json, is_space}
use razor_pay.Provider.Extract.{extract_json-first_object}
use razor_pay.Provider.Answers.{IsExplained, decide-IsExplained}
use razor_pay.Logger.{Text, LogRecord, log_data, text_line}
use razor_pay.Logger.Lines.{IsSafe, IsHidden, logs-IsSafe}
use razor_pay.Samples.{open_case, stopped_case, exact, difference}

abbrev recovered_case : RecoveryCase
recovered_case = record open_case { id = 22; status = RecoveryState.recovered }

abbrev cases : List RecoveryCase
cases = recovered_case ∷ stopped_case ∷ open_case ∷ []

-- A failed attempt of the recovered case, and one of a case that is not reported.
abbrev attempts : List RecoveryAttempt
attempts = record (new_attempt 9 22 1) { status = AttemptState.failed } ∷ new_attempt 10 99 1 ∷ []

lookup-metrics_by_currency_example :
    lookup "USD" (metrics_by_currency exact cases attempts)
    ≡ some (expected exact cases attempts "USD")
unfolding exists
lookup-metrics_by_currency_example =
    lookup-metrics_by_currency exact cases attempts "USD" (refl, (refl, (refl, tt)))

exact-IsIeee : IsIeee exact
unfolding flt difference ◌-ℤ◌
exact-IsIeee = record {
  zero = refl;
  keeps_order = λ m n h. ground arith;
  keeps_sign = λ a b h. sign a b h;
}
  where
    sign : (a b : Float) → flt a b ≡ false → flt (difference a b) nought ≡ false
    sign (finite a) (finite b) h = ground arith
    sign (finite a) nan h = refl
    sign (finite a) infinity h = refl
    sign (finite a) minus_infinity h = refl
    sign nan b h = refl
    sign infinity b h = refl
    sign minus_infinity b h = refl

metrics-stay_within_example :
    let m = expected exact cases attempts "USD" in
    (m.successful_recovery_cases + m.failed_or_stopped_recovery_cases ≤ m.total_recovery_cases)
    × (1 ≤ m.total_recovery_cases)
    × (m.successful_recovery_attempts + m.failed_recovery_attempts ≤ m.total_recovery_attempts)
    × (flt m.amount_recovered nought ≡ false)
    × (flt m.amount_attempted m.amount_recovered ≡ false)
    × (flt m.amount_unrecovered nought ≡ false)
unfolding exists
metrics-stay_within_example =
    metrics-stay_within exact cases attempts "USD" (expected exact cases attempts "USD")
      exact-IsIeee (refl, (refl, (refl, tt))) (refl, (refl, (refl, tt)))
      lookup-metrics_by_currency_example

-- "x {y} z}"
abbrev prose : List ℕ
prose = 120 ∷ 32 ∷ 123 ∷ 121 ∷ 125 ∷ 32 ∷ 122 ∷ 125 ∷ []

extract_json-first_object_example : extract_json prose ≡ ok (123 ∷ 121 ∷ 125 ∷ [])
unfolding is_space
extract_json-first_object_example =
    extract_json-first_object 120 (32 ∷ []) (121 ∷ []) (32 ∷ 122 ∷ 125 ∷ []) refl
      ((refl, refl), ((refl, refl), tt)) ((refl, refl), tt)
      ((refl, refl), ((refl, refl), ((refl, refl), tt)))

abbrev abort : Decision
abort = record { action = ActionType.abort; reason = "no"; confidence = 9000 }

abbrev context : DecisionContext
context = record {
  failure_reason = "card_declined";
  attempt_count = 0;
  days_since_failure = pos 0;
  amount = pos 5;
  currency = "USD";
}

abbrev create : DecisionContext → Attempt (Option (List ℕ))
create c = Attempt.returned (some prose)

abbrev validate_json : List ℕ → Attempt Decision
validate_json t = Attempt.returned abort

decide-IsExplained_example :
    IsExplained validate_json (create context) (decide create validate_json (λ a b. a) context)
decide-IsExplained_example = decide-IsExplained create validate_json (λ a b. a) context

-- "sk-a", with the attributes and the exception of a record
abbrev secret : Text
secret = 0x73 ∷ 0x6b ∷ 0x2d ∷ 0x61 ∷ []

abbrev log_record : LogRecord
log_record = record {
  levelname = [];
  name = [];
  msg = secret;
  extra = λ k. some secret;
  exc_info = some secret;
}

logs-IsSafe_example :
    All IsSafe (log_data (λ r. r.msg) [] [] log_record)
    × IsHidden (text_line (λ r. r.msg) log_record)
logs-IsSafe_example = logs-IsSafe (λ r. r.msg) (λ r. r.msg) [] [] log_record
