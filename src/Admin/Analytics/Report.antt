-- ===== src/Admin/Analytics/Report.antt =====
-- What the report says of a currency.
use text.Mathlib.Text.{◌==◌ as str_eq}
use razor_pay.Prelude.{
  ltb, ◌&&◌, ℕ, ◌≡◌, refl, ◌∙◌, String, Bool, false, none, some, List, [], ◌∷◌, arith, map, select,
  exists, leb, if◌then◌else◌,
}
use razor_pay.Prelude.Distinct.{count, Distinct}
use razor_pay.Prelude.Counts.{count-select}
use razor_pay.Floats.{FloatOps, flt, nought}
use razor_pay.Consistency.{same_case}
use razor_pay.Admin.Analytics.Tallies.{
  worth, is_attempt_in, count-joined, count-joined_all, total-select, total-select-select,
}
use razor_pay.Errors.{ok, err, http}
use razor_pay.States.{AttemptState, is_recovered}
use razor_pay.Models.{RecoveryCase, RecoveryAttempt}
use razor_pay.Gateway.{lookup}
use razor_pay.Session.{Env, World, write, ◌>>=◌}
use razor_pay.Audit.{create_audit_event, get_correlation_id}
use razor_pay.Admin.Analytics.{
  CurrencyMetrics, case_row, case_metrics, attempt_row, with_attempts, case_rows, joined,
  attempt_rows, groups, put_cases, metrics_by_currency, is_given_up, has_gone_through, has_failed,
  has_currency, is_within, get_recovery_analytics,
}
use razor_pay.Admin.Analytics.Groups.{among, among-groups, lookup-put_cases, lookup-put_attempts}

abbrev pub is_in : String → RecoveryCase → Bool
is_in currency c = str_eq c.currency currency

-- The report of a currency: counts and exact sums over all cases and attempts, and the floats of them.
abbrev pub expected : FloatOps → List RecoveryCase → List RecoveryAttempt → String → CurrencyMetrics
expected ops cases attempts currency =
    let tries = is_attempt_in currency cases in
    let number = count (is_in currency) cases in
    let recovered = count (λ (c : RecoveryCase). is_in currency c && is_recovered c.status) cases in
    let at_risk = ops.float (worth (is_in currency) cases) in
    let back =
      ops.float (worth (λ (c : RecoveryCase). is_in currency c && is_recovered c.status) cases) in
    record {
      total_recovery_cases = number;
      successful_recovery_cases = recovered;
      failed_or_stopped_recovery_cases =
          count (λ (c : RecoveryCase). is_in currency c && is_given_up c.status) cases;
      total_recovery_attempts = count tries attempts;
      successful_recovery_attempts =
          count (λ (a : RecoveryAttempt). tries a && has_gone_through a.status) attempts;
      failed_recovery_attempts =
          count (λ (a : RecoveryAttempt). tries a && has_failed a.status) attempts;
      amount_attempted = at_risk;
      amount_recovered = back;
      amount_unrecovered = ops.sub at_risk back;
      recovery_rate = if flt nought at_risk then ops.div back at_risk else nought;
      success_rate = if ltb 0 number then ops.int_div recovered number else nought;
    }

-- What the program reports for a currency that it has cases of.
abbrev reported : FloatOps → List RecoveryCase → List RecoveryAttempt → String → CurrencyMetrics
reported ops cases attempts currency =
    with_attempts (attempt_row (joined cases attempts) currency)
      (case_metrics ops (case_row cases currency))

reported-expected :
    (ops : FloatOps) (cases : List RecoveryCase) (attempts : List RecoveryAttempt)
    (currency : String)
    → Distinct same_case cases
    → reported ops cases attempts currency ≡ expected ops cases attempts currency
reported-expected ops cases attempts currency h =
    rw
      (
        count-select (λ (c : RecoveryCase). is_recovered c.status) (is_in currency) cases,
        count-select (λ (c : RecoveryCase). is_given_up c.status) (is_in currency) cases,
        count-joined_all currency cases attempts h,
        joined_count has_gone_through,
        joined_count has_failed,
        total-select-select (λ (c : RecoveryCase). is_recovered c.status) (is_in currency) cases,
        total-select (is_in currency) cases,
      )
      refl
  where
    joined_count :
        (f : AttemptState → Bool)
        → count
            (λ (p : String × RecoveryAttempt). f p.1.status)
            (select (λ (p : String × RecoveryAttempt). str_eq p.0 currency) (joined cases attempts))
          ≡ count (λ (a : RecoveryAttempt). is_attempt_in currency cases a && f a.status) attempts
    joined_count f =
        count-select (λ (p : String × RecoveryAttempt). f p.1.status)
          (λ (p : String × RecoveryAttempt). str_eq p.0 currency) (joined cases attempts)
        ∙ count-joined currency (λ a. f a.status) cases attempts h

among-map :
    {A : Type 0} (f : A → String) (k : String) (xs : List A)
    → among k (map f xs) ≡ exists (λ x. str_eq (f x) k) xs
unfolding exists
among-map f k [] = refl
among-map f k (x ∷ xs) = ground (arith, among-map f k xs)

no_rows :
    (k : String) (pairs : List (String × RecoveryAttempt))
    → exists (λ (p : String × RecoveryAttempt). str_eq p.0 k) pairs ≡ false
    → select (λ (p : String × RecoveryAttempt). str_eq p.0 k) pairs ≡ []
unfolding select exists
no_rows k [] h = refl
no_rows k (p ∷ pairs) h = ground (arith, no_rows k pairs)

reports :
    (ops : FloatOps) (cases : List RecoveryCase) (attempts : List RecoveryAttempt)
    (currency : String)
    → lookup currency (metrics_by_currency ops cases attempts) ≡ (
        if exists (has_currency currency) cases
        then some (reported ops cases attempts currency)
        else none)
unfolding metrics_by_currency case_rows attempt_rows select lookup
reports ops cases attempts currency =
    let pairs = joined cases attempts in
    let first =
      lookup-put_cases ops cases currency (groups (map (λ (c : RecoveryCase). c.currency) cases))
        [] in
    let second =
      lookup-put_attempts pairs currency
        (groups (map (λ (p : String × RecoveryAttempt). p.0) pairs))
        (put_cases ops (case_rows cases) []) in
    let one =
      among-groups currency (map (λ (c : RecoveryCase). c.currency) cases)
      ∙ among-map (λ (c : RecoveryCase). c.currency) currency cases in
    let two =
      among-groups currency (map (λ (p : String × RecoveryAttempt). p.0) pairs)
      ∙ among-map (λ (p : String × RecoveryAttempt). p.0) currency pairs in
    second ∙ ground (arith, first, one, two, no_rows currency pairs)

-- Over cases with distinct ids and any attempts, the report has an entry for a currency exactly if a
-- case has it. The entry counts the cases of that currency, the recovered and the given up ones, and
-- the attempts whose case has that currency, the succeeded and the failed ones; its amounts are the
-- floats of the exact sums at risk and recovered and their difference, and its rates the quotients of
-- the recovered by the whole, or 0.0 if the whole is not positive.
pub lookup-metrics_by_currency :
    (ops : FloatOps) (cases : List RecoveryCase) (attempts : List RecoveryAttempt)
    (currency : String)
    → Distinct same_case cases
    → lookup currency (metrics_by_currency ops cases attempts) ≡ (
        if exists (is_in currency) cases then some (expected ops cases attempts currency) else none)
lookup-metrics_by_currency ops cases attempts currency h =
    rw (← reported-expected ops cases attempts currency h) (reports ops cases attempts currency)

-- A report over a period that is not empty is made of the committed cases of that period, and commits
-- nothing but an audit event; any other period is refused with 400 and commits nothing. The session
-- has just begun.
pub get_recovery_analytics-reads :
    (ops : FloatOps) (env : Env) (isoformat : ℕ → String) (start_at end_at : ℕ) (w : World)
    → w.db ≡ w.saved
    → w.refused ≡ none
    → let (r, w') = get_recovery_analytics ops env isoformat start_at end_at w in
      (r ≡ (
        if leb end_at start_at
        then err (http 400)
        else ok (
            metrics_by_currency ops
              (select (is_within start_at end_at) w.saved.cases)
              w.saved.attempts)))
      × (w'.saved
          ≡ (if leb end_at start_at then w.saved else record w.saved { audits = w'.saved.audits }))
unfolding get_recovery_analytics create_audit_event get_correlation_id write ◌>>=◌
get_recovery_analytics-reads ops env isoformat start_at end_at w same clean = ground arith
