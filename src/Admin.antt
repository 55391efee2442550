-- ===== src/Admin.antt =====
-- app/domain/operations/service.py: `AdminOperationsService`, the mutations of a recovery case.
pub mod Paid
pub mod Budget
pub mod Consistency
pub mod Analytics
pub mod Outcome
use Prim.Native.String.{◌++◌ as str_append}
use razor_pay.Prelude.{
  ℕ, String, Bool, true, false, not, ◌&&◌, ◌||◌, Option, none, some, List, ◌==◌, is_empty, select,
  if◌then◌else◌,
}
use razor_pay.Errors.{Error, http}
use razor_pay.Json.{Json, Fields}
use razor_pay.States.{
  PaymentState, RecoveryState, JobState, is_succeeded, is_active, is_recovered, is_pending,
  is_running, recovery_value,
}
use razor_pay.Models.{Payment, RecoveryCase, RecoveryJob, JobType, EntityId, Db}
use razor_pay.Session.{
  Env, World, Action, pure, raise, gets, or_raise, catch, commit, rollback, begin_after, ◌>>=◌,
  ◌>>◌,
}
use razor_pay.Audit.{create_audit_event}
use razor_pay.Tables.{query_payment, query_case, new_job, set_case_status, cancel_pending_jobs}

-- `except HTTPException` keeps the status code, any other exception becomes 500.
abbrev pub http_error : Error → Error
http_error (http code) = http code
http_error e = http 500

abbrev pub with_http_errors : {A : Type 0} → Action A → Action A
with_http_errors m = catch m (λ e. rollback >> raise (http_error e))

-- `payment and payment.status == PaymentState.SUCCEEDED`
abbrev pub has_succeeded : Option Payment → Bool
has_succeeded none = false
has_succeeded (some p) = is_succeeded p.status

-- `status in [JobState.PENDING, JobState.RUNNING]`, for the jobs of a case
abbrev pub is_live_of : ℕ → RecoveryJob → Bool
is_live_of case_id j = j.recovery_case_id == case_id && (is_pending j.status || is_running j.status)

module _ (env : Env) where
  abbrev pub case_event : RecoveryCase → String → String → String → Action Unit
  case_event case event_type key value =
      create_audit_event env "RECOVERY_CASE" (EntityId.uuid case.id) event_type "ADMIN"
        (Json.obj (Fields.field key (Json.str value) Fields.end))

  pub get_recovery_case : ℕ → Action RecoveryCase
  get_recovery_case case_id = do c ← query_case case_id; or_raise c (http 404)

  -- `if case.status != RECOVERED: case.status = RECOVERED`
  pub mark_recovered : RecoveryCase → Action Unit
  mark_recovered case =
      if not (is_recovered case.status)
      then set_case_status case RecoveryState.recovered
      else pure tt

  -- The case of a payment that has succeeded is recovered, and the request is rejected.
  pub reject_paid : RecoveryCase → String → Action RecoveryCase
  reject_paid case event_type = do
    mark_recovered case
    case_event case event_type "reason" "PAYMENT_SUCCEEDED"
    commit
    raise (http 409)

  -- The rest of `stop_recovery_case`, for a payment that has not succeeded.
  pub stop_unpaid : RecoveryCase → Action RecoveryCase
  stop_unpaid case = if not (is_active case.status) then raise (http 400) else (do
    set_case_status case RecoveryState.stopped
    cancel_pending_jobs case.id
    case_event case "ADMIN_STOP_CASE" "old_status" (recovery_value case.status)
    commit
    pure (record case { status = RecoveryState.stopped }))

  pub stop_recovery_case : ℕ → Action RecoveryCase
  stop_recovery_case case_id = with_http_errors (do
    c ← query_case case_id
    case ← or_raise c (http 404)
    payment ← query_payment case.payment_id
    if has_succeeded payment then reject_paid case "ADMIN_STOP_REJECTED" else stop_unpaid case)

  -- The rest of `force_retry_case`, for a case without active jobs.
  pub requeue : RecoveryCase → Action RecoveryCase
  requeue case = do
    new_job env case.id JobType.evaluate_recovery env.now 3 0
    set_case_status case RecoveryState.opened
    case_event case "ADMIN_RETRY_CASE" "old_status" (recovery_value case.status)
    commit
    pure (record case { status = RecoveryState.opened })

  pub reject_busy : RecoveryCase → Action RecoveryCase
  reject_busy case = do
    case_event case "ADMIN_RETRY_REJECTED" "reason" "ACTIVE_JOBS_EXIST"
    commit
    raise (http 409)

  -- The rest of `force_retry_case`, for a payment that has not succeeded.
  pub retry_unpaid : RecoveryCase → Action RecoveryCase
  retry_unpaid case = if is_recovered case.status then raise (http 400) else (do
    active_jobs ← gets (λ w. select (is_live_of case.id) w.db.jobs)
    if is_empty active_jobs then requeue case else reject_busy case)

  pub force_retry_case : ℕ → Action RecoveryCase
  force_retry_case case_id = with_http_errors (do
    c ← query_case case_id
    case ← or_raise c (http 404)
    payment ← query_payment case.payment_id
    if has_succeeded payment then reject_paid case "ADMIN_RETRY_REJECTED" else retry_unpaid case)
