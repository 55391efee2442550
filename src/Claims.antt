-- ===== src/Claims.antt =====
-- app/persistence/repositories/job_repo.py: claiming a job under a lease.
pub mod Lease
use razor_pay.Prelude.{
  ℕ, ◌-◌, String, Bool, false, ◌&&◌, ◌||◌, Option, none, some, ◌==◌, ltb, select, change, exists,
  if◌then◌else◌,
}
use razor_pay.Errors.{stale_worker}
use razor_pay.States.{JobState, is_pending, is_running}
use razor_pay.Models.{RecoveryJob}
use razor_pay.Session.{Env, Action, pure, raise, gets, modify, flush, ◌>>=◌, ◌>>◌}
use razor_pay.Tables.{change_job, job_has_id}

-- `locked_at < lease_threshold`, which NULL does not satisfy
abbrev pub locked_before : Option ℕ → ℕ → Bool
locked_before none t = false
locked_before (some locked_at) t = ltb locked_at t

-- The WHERE clause of `claim_job`.
unfoldable pub is_claimable : Env → RecoveryJob → Bool
is_claimable env j =
    is_pending j.status
    || (is_running j.status && locked_before j.locked_at (env.now - env.lease_timeout))

abbrev pub claimed : Env → ℕ → RecoveryJob → RecoveryJob
claimed env worker_id j = record j {
  status = JobState.running;
  locked_at = some env.now;
  locked_by = some worker_id;
}

unfoldable pub claim_found : Env → ℕ → Option RecoveryJob → Action (Option RecoveryJob)
claim_found env worker_id none = pure none
claim_found env worker_id (some j) = do
  change_job j.id (claimed env worker_id)
  flush
  pure (some (claimed env worker_id j))

unfoldable pub claim_job : Env → ℕ → Action (Option RecoveryJob)
claim_job env worker_id = do
  job ← gets (λ w. env.pick (select (is_claimable env) w.db.jobs))
  claim_found env worker_id job

abbrev pub is_locked_by : Option ℕ → ℕ → Bool
is_locked_by none worker_id = false
is_locked_by (some owner) worker_id = owner == worker_id

abbrev holds : ℕ → ℕ → RecoveryJob → Bool
holds job_id worker_id j = job_has_id job_id j && is_locked_by j.locked_by worker_id

-- An UPDATE of the row, if the worker holds its lease; no row is an error.
unfoldable pub safe_update_status : ℕ → ℕ → JobState → Option String → Action Unit
safe_update_status job_id worker_id status last_error = do
  matched ← gets (λ w. exists (holds job_id worker_id) w.db.jobs)
  modify λ db. record db {
    jobs =
        change (holds job_id worker_id)
          (λ (j : RecoveryJob). record j { status = status; last_error = last_error }) db.jobs;
  }
  if matched then pure tt else raise stale_worker
