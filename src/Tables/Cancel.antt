-- ===== src/Tables/Cancel.antt =====
-- The loops over jobs and cases, as one write each.
use razor_pay.Prelude.{ℕ, ◌≡◌, refl, false, List, [], ◌∷◌, arith, exists, select, change}
use razor_pay.Prelude.Drain.{drain, exists-drain, exists-drain_none}
use razor_pay.Errors.{ok}
use razor_pay.States.{JobState}
use razor_pay.Models.{RecoveryJob}
use razor_pay.Session.{World, ◌>>=◌}
use razor_pay.Tables.{
  job_has_id, set_job_status, change_job, cancel_jobs, cancel_pending_jobs, is_pending_of,
}

abbrev pub cancelled : RecoveryJob → RecoveryJob
cancelled j = record j { status = JobState.cancelled }

abbrev pub job_key : RecoveryJob → ℕ
job_key j = j.id

cancel_jobs_lem :
    (rows : List RecoveryJob) (w : World)
    → cancel_jobs rows w
      ≡ (ok tt, record w { db = record w.db { jobs = drain job_key cancelled rows w.db.jobs } })
unfolding cancel_jobs set_job_status change_job drain ◌>>=◌
cancel_jobs_lem [] w = refl
cancel_jobs_lem (j ∷ rows) w =
    cancel_jobs_lem rows
      (record w { db = record w.db { jobs = change (job_has_id j.id) cancelled w.db.jobs } })

-- The jobs of the table when those of the case that are pending have been cancelled.
pub without_pending : ℕ → List RecoveryJob → List RecoveryJob
without_pending case_id jobs = drain job_key cancelled (select (is_pending_of case_id) jobs) jobs

pub cancel_pending_jobs_lem :
    (case_id : ℕ) (w : World)
    → cancel_pending_jobs case_id w
      ≡ (ok tt, record w { db = record w.db { jobs = without_pending case_id w.db.jobs } })
unfolding cancel_pending_jobs without_pending ◌>>=◌
cancel_pending_jobs_lem case_id w = cancel_jobs_lem (select (is_pending_of case_id) w.db.jobs) w

-- No job of the case is pending any more.
pub exists-without_pending :
    (case_id : ℕ) (jobs : List RecoveryJob)
    → exists (is_pending_of case_id) (without_pending case_id jobs) ≡ false
unfolding without_pending
exists-without_pending case_id jobs =
    exists-drain (is_pending_of case_id) job_key cancelled (λ j. refl) (λ j. ground arith) jobs

-- Nor is a job of another case that had none.
pub exists-without_pending_none :
    (i case_id : ℕ) (jobs : List RecoveryJob)
    → exists (is_pending_of i) jobs ≡ false
    → exists (is_pending_of i) (without_pending case_id jobs) ≡ false
unfolding without_pending
exists-without_pending_none i case_id jobs h =
    exists-drain_none (is_pending_of i) job_key cancelled (λ j. refl) (λ j. ground arith)
      (select (is_pending_of case_id) jobs) jobs h
