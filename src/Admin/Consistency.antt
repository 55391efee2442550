-- ===== src/Admin/Consistency.antt =====
-- The administrator's operations keep the tables consistent.
use razor_pay.Prelude.{ℕ, String, [], ◌∷◌}
use razor_pay.Models.{RecoveryCase}
use razor_pay.Session.{Env}
use razor_pay.Admin.{
  mark_recovered, reject_paid, stop_unpaid, stop_recovery_case, requeue, reject_busy, retry_unpaid,
  force_retry_case,
}
use razor_pay.Consistency.{Consistent}
use razor_pay.Consistency.Runs.{Runs, Runs-catch}
use razor_pay.Consistency.Runs.Rules.{Runs-rollback-raise}
use razor_pay.Consistency.Queries.{fact_of, Runs-find_case, services_rules}

module _ (env : Env) where
  reject_paid-Runs :
      (case : RecoveryCase) (event_type : String)
      → Runs Consistent (fact_of case ∷ []) (reject_paid env case event_type)
  unfolding reject_paid mark_recovered
  reject_paid-Runs case event_type = search services_rules depth 10

  stop_unpaid-Runs :
      (case : RecoveryCase) → Runs Consistent (fact_of case ∷ []) (stop_unpaid env case)
  unfolding stop_unpaid
  stop_unpaid-Runs case = search services_rules depth 10

  retry_unpaid-Runs :
      (case : RecoveryCase) → Runs Consistent (fact_of case ∷ []) (retry_unpaid env case)
  unfolding retry_unpaid requeue reject_busy
  retry_unpaid-Runs case = search services_rules depth 12

  pub stop_recovery_case-Runs : (case_id : ℕ) → Runs Consistent [] (stop_recovery_case env case_id)
  unfolding stop_recovery_case
  stop_recovery_case-Runs case_id =
      Runs-catch _ _
        (Runs-find_case case_id _ _
          (λ case. search (services_rules, reject_paid-Runs, stop_unpaid-Runs) depth 10))
        (λ e. Runs-rollback-raise _)

  pub force_retry_case-Runs : (case_id : ℕ) → Runs Consistent [] (force_retry_case env case_id)
  unfolding force_retry_case
  force_retry_case-Runs case_id =
      Runs-catch _ _
        (Runs-find_case case_id _ _
          (λ case. search (services_rules, reject_paid-Runs, retry_unpaid-Runs) depth 10))
        (λ e. Runs-rollback-raise _)
