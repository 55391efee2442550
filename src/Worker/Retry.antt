-- ===== src/Worker/Retry.antt =====
-- What the final transactions of a worker write, where it holds the lease.
use text.Mathlib.Text.{◌==◌ as str_eq}
use razor_pay.Prelude.{
  refl, exists-change, ℕ, ◌+◌, ◌<◌, ◌≡◌, String, true, false, some, [], ◌∷◌, ◌++◌, arith, first,
  change, exists,
}
use razor_pay.Errors.{ok}
use razor_pay.States.{JobState}
use razor_pay.Models.{RecoveryJob, RecoveryCase, JobType, Db}
use razor_pay.Session.{Env, World, write, ◌>>=◌}
use razor_pay.Audit.{get_correlation_id}
use razor_pay.Tables.{job_has_id, case_has_id, change_job, new_job, add_job, minutes, pending_job}
use razor_pay.Claims.{is_locked_by}
use razor_pay.Worker.Lease.{load_leased}
use razor_pay.Worker.Evaluate.{finalize_evaluate_error}

abbrev failed_with : String → RecoveryJob → RecoveryJob
failed_with m j = record j { status = JobState.failed; last_error = some m }

-- While a job of this worker has attempts left, a failed evaluation commits its failure and a new
-- pending job of the case, in a quarter of an hour, with the same number of attempts: the count
-- that bounds the retries does not grow. The id drawn for it is new, and the correlation id is set.
pub finalize_evaluate_error-recounts :
    (env : Env) (worker_id : ℕ) (meanwhile : Db → Db) (m : String) (w : World) (job : RecoveryJob)
    (case : RecoveryCase)
    → first (job_has_id job.id) (meanwhile w.saved).jobs ≡ some job
    → is_locked_by job.locked_by worker_id ≡ true
    → first (case_has_id job.recovery_case_id) (meanwhile w.saved).cases ≡ some case
    → job.attempt_count < job.max_attempts
    → str_eq w.correlation "" ≡ false
    → exists (job_has_id (env.uuid4 w.drawn)) (meanwhile w.saved).jobs ≡ false
    → let (r, w') = finalize_evaluate_error env worker_id meanwhile job.id m w in
      (r ≡ ok tt)
      × (w'.saved.jobs
          ≡ change (job_has_id job.id) (failed_with m) (meanwhile w.saved).jobs
            ++ pending_job env
                (env.uuid4 w.drawn)
                case.id
                JobType.evaluate_recovery
                (env.now + minutes 15)
                job.max_attempts
                job.attempt_count
                w.correlation
              ∷ [])
      × (w'.saved.cases ≡ (meanwhile w.saved).cases)
unfolding finalize_evaluate_error load_leased change_job new_job add_job get_correlation_id write
    ◌>>=◌
finalize_evaluate_error-recounts env worker_id meanwhile m w job case mine lease his left set
      fresh =
    ground (
      arith,
      exists-change (job_has_id job.id) (job_has_id (env.uuid4 w.drawn)) (failed_with m)
          (meanwhile w.saved).jobs (λ x. refl),
    )
