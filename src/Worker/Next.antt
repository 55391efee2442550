-- ===== src/Worker/Next.antt =====
-- `ExecutionService.process_next_job` of app/workers/executor/execution_service.py.
use razor_pay.Prelude.{ℕ, Bool, false, Option, none, some}
use razor_pay.Errors.{Result}
use razor_pay.Models.{RecoveryJob, JobType, Db}
use razor_pay.Gateway
use razor_pay.Gateway.{ChargeStatus, Receipt}
use razor_pay.Session.{Env, Action, pure, rollback, rollback_on_error, begin_after, ◌>>=◌, ◌>>◌}
use razor_pay.Audit.{adopt_correlation}
use razor_pay.Claims.{claim_job}
use razor_pay.Contracts.{DecisionContext, Decision}
use razor_pay.Worker.Evaluate.{process_evaluate_recovery}
use razor_pay.Worker.Execute.{process_execute_charge}

module _ (env : Env) (worker_id : ℕ) (meanwhile : Db → Db)
    (decide : DecisionContext → Result Decision) where
  unfoldable pub run_job : JobType → RecoveryJob → Action Bool
  run_job JobType.evaluate_recovery job =
      process_evaluate_recovery env worker_id meanwhile decide job
  run_job JobType.execute_charge job = process_execute_charge env worker_id meanwhile job
  run_job (JobType.unknown t) job = rollback >> pure false

  unfoldable pub run_claimed : Option RecoveryJob → Action Bool
  run_claimed none = rollback >> pure false
  run_claimed (some job) = do
    adopt_correlation (Gateway.lookup "correlation_id" job.payload)
    run_job job.job_type job

  -- `ExecutionService.process_next_job`
  unfoldable pub process_next_job : Action Bool
  process_next_job =
      rollback_on_error (do begin_after (λ db. db); job ← claim_job env worker_id; run_claimed job)
