-- ===== src/Budget.antt =====
-- The budget of a case: what every job and every attempt of the tables fits, so that no case is
-- charged more than three times. The services start an evaluation with `max_attempts=3` and no
-- attempts, and pass both numbers on from job to job.
pub mod Laws
pub mod Services
pub mod Workers
pub mod Types
pub mod Decisions
pub mod Charges
use razor_pay.Prelude.{
  ℕ, ◌+◌, ◌≤◌, ◌<◌, ◌≡◌, Bool, true, false, ◌&&◌, Option, none, some, List, [], ◌∷◌, ◌++◌, ◌==◌,
  All, exists, change,
}
use razor_pay.Prelude.Distinct.{Distinct}
use razor_pay.Models.{RecoveryJob, RecoveryAttempt, JobType, Db}
use razor_pay.Session.{Env}
use razor_pay.Tables.{job_has_id, attempt_has_id, is_numbered, pending_job}

abbrev pub is_evaluation : JobType → Bool
is_evaluation JobType.evaluate_recovery = true
is_evaluation _ = false

-- The job has begun an attempt.
abbrev pub is_begun : List RecoveryAttempt → Option ℕ → Bool
is_begun attempts none = false
is_begun attempts (some id) = exists (attempt_has_id id) attempts

abbrev pub InBudget : List RecoveryAttempt → RecoveryJob → Type 0
InBudget attempts j =
    (j.max_attempts ≡ 3)
    × (j.attempt_count ≤ 3)
    × (is_begun attempts j.attempt_id ≡ false → j.attempt_count < 3)
    × (is_evaluation j.job_type ≡ true → j.attempt_id ≡ none)

abbrev pub IsNumbered : RecoveryAttempt → Type 0
IsNumbered a = (1 ≤ a.attempt_number) × (a.attempt_number ≤ 3)

abbrev pub same_job : RecoveryJob → RecoveryJob → Bool
same_job j = job_has_id j.id

abbrev pub same_number : RecoveryAttempt → RecoveryAttempt → Bool
same_number a = is_numbered a.recovery_case_id a.attempt_number

-- Every job is in the budget, every attempt has a number from 1 to 3, ids of jobs and numbers of
-- attempts in a case do not repeat.
pub record Fits (jobs : List RecoveryJob) (attempts : List RecoveryAttempt) : Type 0 where
  pub budget : All (InBudget attempts) jobs
  pub ids : Distinct same_job jobs
  pub numbers : All IsNumbered attempts
  pub apart : Distinct same_number attempts

-- A new job of the services, with the numbers that it is given.
abbrev pub IsNew : RecoveryJob → Type 0
IsNew j = (j.max_attempts ≡ 3) × (j.attempt_count < 3) × (j.attempt_id ≡ none)

-- What a write to a job or an attempt leaves alone.
abbrev pub Alike : RecoveryJob → RecoveryJob → Type 0
Alike j k =
    (k.id ≡ j.id)
    × (k.job_type ≡ j.job_type)
    × (k.attempt_id ≡ j.attempt_id)
    × (k.attempt_count ≡ j.attempt_count)
    × (k.max_attempts ≡ j.max_attempts)

abbrev pub AlikeAttempt : RecoveryAttempt → RecoveryAttempt → Type 0
AlikeAttempt a b =
    (b.id ≡ a.id)
    × (b.recovery_case_id ≡ a.recovery_case_id)
    × (b.attempt_number ≡ a.attempt_number)

-- A property of the jobs and the attempts that the services' writes keep: a new row with a new id, a
-- change of a job's status, lease or error, and a change of an attempt's status.
pub record Respects (T : List RecoveryJob → List RecoveryAttempt → Type 0) : Type 0 where
  pub add :
      (jobs : List RecoveryJob) (attempts : List RecoveryAttempt) (r : RecoveryJob)
      → exists (job_has_id r.id) jobs ≡ false
      → IsNew r
      → T jobs attempts
      → T (jobs ++ r ∷ []) attempts
  pub update :
      (jobs : List RecoveryJob) (attempts : List RecoveryAttempt) (q : RecoveryJob → Bool)
      (f : RecoveryJob → RecoveryJob)
      → ((j : RecoveryJob) → Alike j (f j))
      → T jobs attempts
      → T (change q f jobs) attempts
  pub settle :
      (jobs : List RecoveryJob) (attempts : List RecoveryAttempt) (q : RecoveryAttempt → Bool)
      (f : RecoveryAttempt → RecoveryAttempt)
      → ((a : RecoveryAttempt) → AlikeAttempt a (f a))
      → T jobs attempts
      → T jobs (change q f attempts)
