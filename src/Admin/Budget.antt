-- ===== src/Admin/Budget.antt =====
-- The administrator's operations keep what respects the writes to jobs and attempts.
use razor_pay.Prelude.{ℕ, String, List}
use razor_pay.Models.{RecoveryCase, RecoveryJob, RecoveryAttempt}
use razor_pay.Session.{Env}
use razor_pay.Session.Keeps.{Keeps, keeps_rules}
use razor_pay.Tables.Rules.{
  Keeps-set_case_status, Keeps-cancel_pending_jobs, Keeps-create_audit_event,
}
use razor_pay.Admin.{
  mark_recovered, reject_paid, stop_unpaid, stop_recovery_case, requeue, reject_busy, retry_unpaid,
  force_retry_case,
}
use razor_pay.Budget.{Respects}
use razor_pay.Budget.Services.{Ok, first_job-Keeps, job_status-Keeps}

ruleset case_rules =
    (keeps_rules, Keeps-set_case_status, Keeps-cancel_pending_jobs, Keeps-create_audit_event)

module _ (T : List RecoveryJob → List RecoveryAttempt → Type 0) (laws : Respects T)
    (env : Env) where
  reject_paid-Ok :
      (case : RecoveryCase) (event_type : String)
      → Keeps (Ok T laws) (reject_paid env case event_type)
  unfolding reject_paid mark_recovered
  reject_paid-Ok case event_type = search case_rules depth 9

  stop_unpaid-Ok : (case : RecoveryCase) → Keeps (Ok T laws) (stop_unpaid env case)
  unfolding stop_unpaid
  stop_unpaid-Ok case = search (case_rules, job_status-Keeps T laws) depth 9

  retry_unpaid-Ok : (case : RecoveryCase) → Keeps (Ok T laws) (retry_unpaid env case)
  unfolding retry_unpaid requeue reject_busy
  retry_unpaid-Ok case = search (case_rules, first_job-Keeps T laws env) depth 12

  pub stop_recovery_case-Ok : (case_id : ℕ) → Keeps (Ok T laws) (stop_recovery_case env case_id)
  unfolding stop_recovery_case
  stop_recovery_case-Ok case_id = search (keeps_rules, reject_paid-Ok, stop_unpaid-Ok) depth 9

  pub force_retry_case-Ok : (case_id : ℕ) → Keeps (Ok T laws) (force_retry_case env case_id)
  unfolding force_retry_case
  force_retry_case-Ok case_id = search (keeps_rules, reject_paid-Ok, retry_unpaid-Ok) depth 9
