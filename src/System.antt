-- ===== src/System.antt =====
-- The whole program as transactions on shared tables: webhooks, the administrator's requests, and
-- the transactions of any number of workers, in any order. A worker's handler is cut at its network
-- boundaries, so that anything may be committed between its parts.
pub mod Paid
pub mod Budget
pub mod Consistency
use razor_pay.Prelude.{ℕ, String, Option, none, some, List, [], ◌∷◌}
use razor_pay.Errors.{Result, ok, err}
use razor_pay.Models.{RecoveryJob, JobType, Db}
use razor_pay.Gateway.{ChargeStatus, lookup}
use razor_pay.Audit.{adopt_correlation}
use razor_pay.Contracts.{Decision}
use razor_pay.Session.{
  Env, World, Action, pure, begin_after, rollback, rollback_on_error, catch, raise, ◌>>=◌, ◌>>◌,
}
use razor_pay.Webhooks.{WebhookEvent, process_webhook}
use razor_pay.Claims.{claim_job}
use razor_pay.Worker.Evaluate.{begin_evaluate, finalize_evaluate_error, finalize_evaluate_decision}
use razor_pay.Worker.Execute.{begin_charge, finalize_job, finalize_ambiguous}
use razor_pay.Admin.{stop_recovery_case, force_retry_case}

-- A worker is named where it acts; the job, the attempt and what the network answered are any.
pub data Request : Type 0 where
  webhook : WebhookEvent → Request
  stop_case retry_case : ℕ → Request
  begin_job : ℕ → Request
  end_evaluation_error : ℕ → ℕ → String → Request
  end_evaluation : ℕ → ℕ → Decision → Request
  end_charge : ℕ → ℕ → ℕ → ChargeStatus → Request
  end_ambiguous : ℕ → ℕ → ℕ → Request

module _ (env : Env) where
  -- The first transaction of `process_next_job`, by the type of the job.
  unfoldable pub begin_typed : JobType → RecoveryJob → Action Unit
  begin_typed JobType.evaluate_recovery job = begin_evaluate env job >> pure tt
  begin_typed JobType.execute_charge job = begin_charge env job >> pure tt
  begin_typed (JobType.unknown t) job = rollback

  unfoldable pub begin_claimed : Option RecoveryJob → Action Unit
  begin_claimed none = rollback
  begin_claimed (some job) = do
    adopt_correlation (lookup "correlation_id" job.payload)
    begin_typed job.job_type job

  unfoldable pub begin_next : ℕ → Action Unit
  begin_next worker_id =
      rollback_on_error
        (do begin_after (λ db. db); job ← claim_job env worker_id; begin_claimed job)

  -- A request begins with a session of its own (`get_db`).
  unfoldable pub serve : Request → Action Unit
  serve (webhook event) = do begin_after (λ db. db); process_webhook env event; pure tt
  serve (stop_case id) = do begin_after (λ db. db); stop_recovery_case env id; pure tt
  serve (retry_case id) = do begin_after (λ db. db); force_retry_case env id; pure tt
  serve (begin_job worker_id) = begin_next worker_id
  serve (end_evaluation_error worker_id job_id m) =
      finalize_evaluate_error env worker_id (λ db. db) job_id m
  serve (end_evaluation worker_id job_id d) =
      finalize_evaluate_decision env worker_id (λ db. db) job_id d
  serve (end_charge worker_id job_id attempt_id result) =
      finalize_job env worker_id (λ db. db) job_id attempt_id result
  serve (end_ambiguous worker_id job_id attempt_id) =
      finalize_ambiguous env worker_id (λ db. db) job_id attempt_id

-- A history: each request with the surroundings that it meets. An error ends its request only.
pub run : List (Env × Request) → World → World
run [] w = w
run ((env, request) ∷ rest) w = run rest (serve env request w).1
