-- ===== src/Tables/Unsaved.antt =====
-- The writes to the tables commit nothing.
use razor_pay.Prelude.{arith, ℕ, String, List, [], ◌∷◌}
use razor_pay.Json.{Json}
use razor_pay.States.{PaymentState, RecoveryState, AttemptState, JobState}
use razor_pay.Models.{
  Customer, Payment, RecoveryCase, RecoveryAttempt, RecoveryDecision, RecoveryJob, JobType,
  IdempotencyRecord, AuditEvent, EntityId,
}
use razor_pay.Session.{Env, pure, draw_uuid, ◌>>=◌}
use razor_pay.Session.Atomic.{
  IsUnsaved, unsaved_rules, IsUnsaved-write, IsUnsaved-modify, IsUnsaved-bind, IsUnsaved-draw_uuid,
}
use razor_pay.Audit.{get_correlation_id, create_audit_event, entity_conflict, add_audit}
use razor_pay.Tables.{
  add_customer, add_payment, add_case, add_attempt, add_job, add_key, add_decision,
  set_payment_status, set_case_status, set_attempt_status, change_job, set_job_status, new_job,
  cancel_jobs, cancel_pending_jobs, customer_conflict, payment_conflict, case_conflict,
  attempt_conflict, job_conflict, key_conflict, index_conflict,
}

pub IsUnsaved-add_customer : (r : Customer) → IsUnsaved (add_customer r)
unfolding add_customer
IsUnsaved-add_customer r = IsUnsaved-write (customer_conflict r) _

pub IsUnsaved-add_payment : (r : Payment) → IsUnsaved (add_payment r)
unfolding add_payment
IsUnsaved-add_payment r = IsUnsaved-write (payment_conflict r) _

pub IsUnsaved-add_case : (r : RecoveryCase) → IsUnsaved (add_case r)
unfolding add_case
IsUnsaved-add_case r = IsUnsaved-write (case_conflict r) _

pub IsUnsaved-add_attempt : (r : RecoveryAttempt) → IsUnsaved (add_attempt r)
unfolding add_attempt
IsUnsaved-add_attempt r = IsUnsaved-write (attempt_conflict r) _

pub IsUnsaved-add_job : (r : RecoveryJob) → IsUnsaved (add_job r)
unfolding add_job
IsUnsaved-add_job r = IsUnsaved-write (job_conflict r) _

pub IsUnsaved-add_key : (r : IdempotencyRecord) → IsUnsaved (add_key r)
unfolding add_key
IsUnsaved-add_key r = IsUnsaved-write (key_conflict r) _

pub IsUnsaved-add_decision : (r : RecoveryDecision) → IsUnsaved (add_decision r)
unfolding add_decision
IsUnsaved-add_decision r = IsUnsaved-modify _

pub IsUnsaved-set_payment_status :
    (i : ℕ) (status : PaymentState) → IsUnsaved (set_payment_status i status)
unfolding set_payment_status
IsUnsaved-set_payment_status i status = IsUnsaved-modify _

pub IsUnsaved-set_case_status :
    (c : RecoveryCase) (status : RecoveryState) → IsUnsaved (set_case_status c status)
unfolding set_case_status
IsUnsaved-set_case_status c status =
    IsUnsaved-write (λ db. index_conflict c.payment_id c.id status db.cases) _

pub IsUnsaved-set_attempt_status :
    (i : ℕ) (status : AttemptState) → IsUnsaved (set_attempt_status i status)
unfolding set_attempt_status
IsUnsaved-set_attempt_status i status = IsUnsaved-modify _

pub IsUnsaved-change_job : (i : ℕ) (f : RecoveryJob → RecoveryJob) → IsUnsaved (change_job i f)
unfolding change_job
IsUnsaved-change_job i f = IsUnsaved-modify _

pub IsUnsaved-set_job_status : (i : ℕ) (status : JobState) → IsUnsaved (set_job_status i status)
unfolding set_job_status
IsUnsaved-set_job_status i status = IsUnsaved-change_job i _

pub IsUnsaved-cancel_jobs : (jobs : List RecoveryJob) → IsUnsaved (cancel_jobs jobs)
unfolding cancel_jobs
IsUnsaved-cancel_jobs [] = search unsaved_rules
IsUnsaved-cancel_jobs (j ∷ jobs) =
    IsUnsaved-bind _ _ (IsUnsaved-set_job_status j.id JobState.cancelled)
      (λ _. IsUnsaved-cancel_jobs jobs)

pub IsUnsaved-cancel_pending_jobs : (case_id : ℕ) → IsUnsaved (cancel_pending_jobs case_id)
unfolding cancel_pending_jobs
IsUnsaved-cancel_pending_jobs case_id = search (unsaved_rules, IsUnsaved-cancel_jobs)

pub IsUnsaved-get_correlation_id : (env : Env) → IsUnsaved (get_correlation_id env)
unfolding get_correlation_id draw_uuid pure ◌>>=◌
IsUnsaved-get_correlation_id env = record { at = λ w. ground arith }

pub IsUnsaved-create_audit_event :
    (env : Env) (entity_type : String) (entity_id : EntityId) (event_type actor_type : String)
    (payload : Json)
    → IsUnsaved (create_audit_event env entity_type entity_id event_type actor_type payload)
unfolding create_audit_event
IsUnsaved-create_audit_event env entity_type entity_id event_type actor_type payload = search (
  unsaved_rules,
  IsUnsaved-get_correlation_id env,
  λ (e : AuditEvent). IsUnsaved-write (λ db. entity_conflict env entity_id) (add_audit e),
)

pub IsUnsaved-new_job :
    (env : Env) (case_id : ℕ) (job_type : JobType) (available_at max_attempts attempt_count : ℕ)
    → IsUnsaved (new_job env case_id job_type available_at max_attempts attempt_count)
unfolding new_job
IsUnsaved-new_job env case_id job_type available_at max_attempts attempt_count =
    IsUnsaved-bind _ _ (IsUnsaved-get_correlation_id env)
      (λ cid. IsUnsaved-bind _ _ (IsUnsaved-draw_uuid env) (λ id. IsUnsaved-add_job _))

pub ruleset table_unsaved = (
  unsaved_rules, IsUnsaved-add_customer, IsUnsaved-add_payment, IsUnsaved-add_case,
  IsUnsaved-add_attempt, IsUnsaved-add_key, IsUnsaved-add_decision, IsUnsaved-set_payment_status,
  IsUnsaved-set_case_status, IsUnsaved-set_attempt_status, IsUnsaved-change_job,
  IsUnsaved-set_job_status, IsUnsaved-cancel_pending_jobs, IsUnsaved-create_audit_event,
  IsUnsaved-new_job,
)
