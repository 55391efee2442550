-- ===== src/Admin/Analytics.antt =====
-- app/domain/operations/service.py: `get_recovery_analytics`. The sums of the database are exact, in
-- ten-thousandths; the arithmetic of floats is a parameter.
mod Groups
mod Tallies
pub mod Report
pub mod Bounds
use text.Mathlib.Text.{◌==◌ as str_eq}
use razor_pay.Prelude.{
  ℕ, ℤ, pos, is_negative, int_eq, ◌+ℤ◌, ◌-ℤ◌, String, Bool, true, false, not, ◌&&◌, ◌||◌, Option,
  none, some, List, [], ◌∷◌, ◌++◌, ◌==◌, ltb, leb, length, map, select, exists, is_some,
  if◌then◌else◌,
}
use razor_pay.Floats.{Float, FloatOps, flt, nought}
use razor_pay.Prelude.Distinct.{count}
use razor_pay.Errors.{http}
use razor_pay.Json.{Json, Fields}
use razor_pay.States.{RecoveryState, AttemptState, is_recovered}
use razor_pay.Models.{RecoveryCase, RecoveryAttempt, EntityId, Db}
use razor_pay.Gateway.{lookup, insert}
use razor_pay.Session.{Env, World, Action, pure, raise, gets, commit, draw_uuid, ◌>>=◌, ◌>>◌}
use razor_pay.Audit.{create_audit_event}

pub record CurrencyMetrics : Type 0 where
  pub total_recovery_cases : ℕ
  pub successful_recovery_cases : ℕ
  pub failed_or_stopped_recovery_cases : ℕ
  pub total_recovery_attempts : ℕ
  pub successful_recovery_attempts : ℕ
  pub failed_recovery_attempts : ℕ
  pub amount_attempted : Float
  pub amount_recovered : Float
  pub amount_unrecovered : Float
  pub recovery_rate : Float
  pub success_rate : Float

-- `status.in_([RecoveryState.STOPPED, RecoveryState.ESCALATED])`
abbrev pub is_given_up : RecoveryState → Bool
is_given_up RecoveryState.stopped = true
is_given_up RecoveryState.escalated = true
is_given_up _ = false

abbrev pub has_gone_through : AttemptState → Bool
has_gone_through AttemptState.succeeded = true
has_gone_through _ = false

abbrev pub has_failed : AttemptState → Bool
has_failed AttemptState.failed = true
has_failed _ = false

-- The WHERE clause of both queries.
abbrev pub is_within : ℕ → ℕ → RecoveryCase → Bool
is_within start_at end_at c = leb start_at c.created_at && ltb c.created_at end_at

abbrev pub has_currency : String → RecoveryCase → Bool
has_currency currency c = str_eq c.currency currency

-- `func.sum(RecoveryCase.amount_at_risk)`
unfoldable pub total : List RecoveryCase → ℤ
total [] = pos 0
total (c ∷ cases) = c.amount_at_risk +ℤ total cases

-- The groups of a GROUP BY, each once.
pub groups : List String → List String
groups [] = []
groups (k ∷ keys) =
    let rest = groups keys in if exists (λ j. str_eq j k) keys then rest else k ∷ rest

-- A row of the first query.
pub record CaseRow : Type 0 where
  pub currency : String
  pub total_cases : ℕ
  pub successful_cases : ℕ
  pub failed_stopped_cases : ℕ
  pub amount_attempted : ℤ
  pub amount_recovered : ℤ

abbrev pub case_row : List RecoveryCase → String → CaseRow
case_row cases currency =
    let rows = select (has_currency currency) cases in
    record {
      currency = currency;
      total_cases = length rows;
      successful_cases = count (λ (c : RecoveryCase). is_recovered c.status) rows;
      failed_stopped_cases = count (λ (c : RecoveryCase). is_given_up c.status) rows;
      amount_attempted = total rows;
      amount_recovered = total (select (λ (c : RecoveryCase). is_recovered c.status) rows);
    }

pub case_rows : List RecoveryCase → List CaseRow
case_rows cases = map (case_row cases) (groups (map (λ (c : RecoveryCase). c.currency) cases))

-- The JOIN of the second query: a row for each attempt of a case, with the case's currency.
pub joined : List RecoveryCase → List RecoveryAttempt → List (String × RecoveryAttempt)
joined [] attempts = []
joined (c ∷ cases) attempts =
    map (λ a. (c.currency, a))
      (select (λ (a : RecoveryAttempt). c.id == a.recovery_case_id) attempts)
    ++ joined cases attempts

pub record AttemptRow : Type 0 where
  pub currency : String
  pub total_attempts : ℕ
  pub successful_attempts : ℕ
  pub failed_attempts : ℕ

abbrev pub attempt_row : List (String × RecoveryAttempt) → String → AttemptRow
attempt_row pairs currency =
    let rows = select (λ (p : String × RecoveryAttempt). str_eq p.0 currency) pairs in
    record {
      currency = currency;
      total_attempts = length rows;
      successful_attempts =
          count (λ (p : String × RecoveryAttempt). has_gone_through p.1.status) rows;
      failed_attempts = count (λ (p : String × RecoveryAttempt). has_failed p.1.status) rows;
    }

pub attempt_rows : List (String × RecoveryAttempt) → List AttemptRow
attempt_rows pairs =
    map (attempt_row pairs) (groups (map (λ (p : String × RecoveryAttempt). p.0) pairs))

module _ (ops : FloatOps) where
  -- The entry of a currency after the first loop.
  abbrev pub case_metrics : CaseRow → CurrencyMetrics
  case_metrics row =
      let amount_attempted = ops.float row.amount_attempted in
      let amount_recovered = ops.float row.amount_recovered in
      record {
        total_recovery_cases = row.total_cases;
        successful_recovery_cases = row.successful_cases;
        failed_or_stopped_recovery_cases = row.failed_stopped_cases;
        total_recovery_attempts = 0;
        successful_recovery_attempts = 0;
        failed_recovery_attempts = 0;
        amount_attempted = amount_attempted;
        amount_recovered = amount_recovered;
        amount_unrecovered = ops.sub amount_attempted amount_recovered;
        recovery_rate =
            if flt nought amount_attempted
            then ops.div amount_recovered amount_attempted
            else nought;
        success_rate =
            if ltb 0 row.total_cases
            then ops.int_div row.successful_cases row.total_cases
            else nought;
      }

  -- The first loop over rows.
  pub put_cases : List CaseRow → List (String × CurrencyMetrics) → List (String × CurrencyMetrics)
  put_cases [] metrics = metrics
  put_cases (row ∷ rows) metrics = put_cases rows (insert row.currency (case_metrics row) metrics)

abbrev pub with_attempts : AttemptRow → CurrencyMetrics → CurrencyMetrics
with_attempts row m = record m {
  total_recovery_attempts = row.total_attempts;
  successful_recovery_attempts = row.successful_attempts;
  failed_recovery_attempts = row.failed_attempts;
}

-- The second loop.
abbrev pub put_row :
    AttemptRow
    → Option CurrencyMetrics
    → List (String × CurrencyMetrics)
    → List (String × CurrencyMetrics)
put_row row none metrics = metrics
put_row row (some m) metrics = insert row.currency (with_attempts row m) metrics

pub put_attempts :
    List AttemptRow → List (String × CurrencyMetrics) → List (String × CurrencyMetrics)
put_attempts [] metrics = metrics
put_attempts (row ∷ rows) metrics =
    put_attempts rows (put_row row (lookup row.currency metrics) metrics)

pub metrics_by_currency :
    FloatOps → List RecoveryCase → List RecoveryAttempt → List (String × CurrencyMetrics)
metrics_by_currency ops cases attempts =
    put_attempts (attempt_rows (joined cases attempts)) (put_cases ops (case_rows cases) [])

-- The payload of the audit event; `isoformat` writes a time.
abbrev pub accessed : (ℕ → String) → ℕ → ℕ → Json
accessed isoformat start_at end_at = Json.obj (
    Fields.field "start_at" (Json.str (isoformat start_at))
      (Fields.field "end_at" (Json.str (isoformat end_at)) Fields.end))

module _ (ops : FloatOps) (env : Env) (isoformat : ℕ → String) where
  pub get_recovery_analytics : ℕ → ℕ → Action (List (String × CurrencyMetrics))
  get_recovery_analytics start_at end_at = if leb end_at start_at then raise (http 400) else (do
    cases ← gets (λ w. select (is_within start_at end_at) w.db.cases)
    attempts ← gets (λ w. w.db.attempts)
    id ← draw_uuid env
    create_audit_event env "ANALYTICS" (EntityId.uuid id) "ANALYTICS_ACCESSED" "ADMIN"
        (accessed isoformat start_at end_at)
    commit
    pure (metrics_by_currency ops cases attempts))
