-- ===== src/Admin/Paid.antt =====
-- The administrator's operations write no payment.
use razor_pay.Prelude.{ℕ, String}
use razor_pay.Models.{RecoveryCase}
use razor_pay.Session.{Env}
use razor_pay.Session.Keeps.{Keeps, keeps_rules}
use razor_pay.Tables.Rules.{
  Keeps-add_job, Keeps-set_case_status, Keeps-set_job_status, Keeps-cancel_pending_jobs,
  Keeps-create_audit_event, Keeps-new_job,
}
use razor_pay.Tables.Paid.{IsPaid}
use razor_pay.Admin.{
  mark_recovered, reject_paid, stop_unpaid, stop_recovery_case, requeue, reject_busy, retry_unpaid,
  force_retry_case,
}

ruleset admin_rules = (
  keeps_rules, Keeps-set_case_status, Keeps-set_job_status, Keeps-cancel_pending_jobs,
  Keeps-create_audit_event, Keeps-new_job, Keeps-add_job,
)

module _ (env : Env) (i : ℕ) where
  reject_paid-Keeps :
      (case : RecoveryCase) (event_type : String)
      → Keeps (IsPaid i) (reject_paid env case event_type)
  unfolding reject_paid mark_recovered
  reject_paid-Keeps case event_type = search admin_rules depth 9

  stop_unpaid-Keeps : (case : RecoveryCase) → Keeps (IsPaid i) (stop_unpaid env case)
  unfolding stop_unpaid
  stop_unpaid-Keeps case = search admin_rules depth 9

  retry_unpaid-Keeps : (case : RecoveryCase) → Keeps (IsPaid i) (retry_unpaid env case)
  unfolding retry_unpaid requeue reject_busy
  retry_unpaid-Keeps case = search admin_rules depth 12

  pub stop_recovery_case-Keeps : (case_id : ℕ) → Keeps (IsPaid i) (stop_recovery_case env case_id)
  unfolding stop_recovery_case
  stop_recovery_case-Keeps case_id =
      search (keeps_rules, reject_paid-Keeps, stop_unpaid-Keeps) depth 9

  pub force_retry_case-Keeps : (case_id : ℕ) → Keeps (IsPaid i) (force_retry_case env case_id)
  unfolding force_retry_case
  force_retry_case-Keeps case_id =
      search (keeps_rules, reject_paid-Keeps, retry_unpaid-Keeps) depth 9
