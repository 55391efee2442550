-- ===== src/Worker/Lease.antt =====
-- What the handlers of the worker share: the rows of a job, its lease, and the job of a payment
-- that has succeeded.
use razor_pay.Prelude.{ℕ, String, if◌then◌else◌}
use razor_pay.Errors.{attribute_error, stale_worker}
use razor_pay.Json.{Json, Fields}
use razor_pay.States.{JobState}
use razor_pay.Models.{Payment, RecoveryCase, RecoveryJob, EntityId}
use razor_pay.Session.{Env, Action, pure, raise, or_raise, commit, ◌>>=◌, ◌>>◌}
use razor_pay.Audit.{create_audit_event}
use razor_pay.Tables.{query_payment, query_case, query_job, set_job_status}
use razor_pay.Claims.{is_locked_by}

-- The payloads of the worker's audit events.
abbrev pub reason : String → Json
reason r = Json.obj (Fields.field "reason" (Json.str r) Fields.end)

abbrev pub status : String → Json
status s = Json.obj (Fields.field "status" (Json.str s) Fields.end)

-- The case and the payment of a job. A missing row is read as an attribute of `None`.
unfoldable pub load_case : ℕ → Action (RecoveryCase × Payment)
load_case case_id = do
  c ← query_case case_id
  case ← or_raise c attribute_error
  p ← query_payment case.payment_id
  payment ← or_raise p attribute_error
  pure (case, payment)

-- The job after the network boundary, if the worker holds its lease still.
unfoldable pub load_leased : ℕ → ℕ → Action RecoveryJob
load_leased worker_id job_id = do
  j ← query_job job_id
  job ← or_raise j stale_worker
  if is_locked_by job.locked_by worker_id then pure job else raise stale_worker

module _ (env : Env) where
  abbrev pub job_event : ℕ → String → Json → Action Unit
  job_event job_id event_type payload =
      create_audit_event env "RECOVERY_JOB" (EntityId.uuid job_id) event_type "WORKER" payload

  -- The job of a payment that has succeeded is cancelled.
  unfoldable pub cancel_job : ℕ → Action Unit
  cancel_job job_id = do
    set_job_status job_id JobState.cancelled
    job_event job_id "JOB_CANCELLED" (reason "payment_already_succeeded")
    commit
