-- ===== src/Budget/Services.antt =====
-- A property of the jobs and the attempts that respects the writes is kept by the transactions of the
-- services, those apart that begin an attempt or act on a decision.
use razor_pay.Prelude.{ℕ, ◌<◌, ◌≡◌, refl, false, Option, none, some, List, arith, exists}
use razor_pay.States.{AttemptState, JobState}
use razor_pay.Models.{RecoveryJob, RecoveryAttempt, JobType, Db}
use razor_pay.Session.{Env}
use razor_pay.Session.Keeps.{Keeps, keeps_rules, Keeps-bind}
use razor_pay.Tables.{
  job_has_id, job_conflict, new_job, change_job, set_job_status, set_attempt_status, pending_job,
}
use razor_pay.Tables.Rules.{
  Keeps-add_job, Keeps-new_job, Keeps-set_attempt_status, Keeps-change_job, Keeps-set_job_status,
  Keeps-create_audit_event,
}
use razor_pay.Claims.{claimed, claim_found, claim_job}
use razor_pay.Worker.Lease.{load_case, load_leased, cancel_job}
use razor_pay.Worker.Evaluate.{begin_evaluate}
use razor_pay.Budget.{Alike, Respects}

module _ (T : List RecoveryJob → List RecoveryAttempt → Type 0) (laws : Respects T) where
  abbrev pub Ok : Db → Type 0
  Ok db = T db.jobs db.attempts

  fresh_id :
      (r : RecoveryJob) (db : Db)
      → job_conflict r db ≡ none
      → exists (job_has_id r.id) db.jobs ≡ false
  fresh_id r db free = ground arith

  pub new_job-Keeps :
      (env : Env) (case_id : ℕ) (t : JobType) (available_at count : ℕ)
      → count < 3
      → Keeps Ok (new_job env case_id t available_at 3 count)
  new_job-Keeps env case_id t available_at count less =
      Keeps-new_job env case_id t available_at 3 count λ id cid.
        let r = pending_job env id case_id t available_at 3 count cid in
        Keeps-add_job r
          λ db free h. laws.add db.jobs db.attempts r (fresh_id r db free) (refl, less, refl) h

  pub first_job-Keeps :
      (env : Env) (case_id : ℕ) (t : JobType) (available_at : ℕ)
      → Keeps Ok (new_job env case_id t available_at 3 0)
  first_job-Keeps env case_id t available_at =
      new_job-Keeps env case_id t available_at 0 (omega arith)

  pub job_status-Keeps : (i : ℕ) (status : JobState) → Keeps Ok (set_job_status i status)
  job_status-Keeps i status =
      Keeps-set_job_status i status
        λ db h. laws.update db.jobs db.attempts _ _ (λ j. (refl, refl, refl, refl, refl)) h

  pub attempt_status-Keeps :
      (i : ℕ) (status : AttemptState) → Keeps Ok (set_attempt_status i status)
  attempt_status-Keeps i status =
      Keeps-set_attempt_status i status
        λ db h. laws.settle db.jobs db.attempts _ _ (λ a. (refl, refl, refl)) h

  pub status_update-Keeps :
      (i : ℕ) (f : RecoveryJob → RecoveryJob)
      → ((j : RecoveryJob) → Alike j (f j))
      → Keeps Ok (change_job i f)
  status_update-Keeps i f k = Keeps-change_job i f λ db h. laws.update db.jobs db.attempts _ f k h

  -- Claims.
  claim_found-Keeps :
      (env : Env) (worker_id : ℕ) (j : Option RecoveryJob) → Keeps Ok (claim_found env worker_id j)
  unfolding claim_found
  claim_found-Keeps env worker_id none = search keeps_rules
  claim_found-Keeps env worker_id (some j) =
      Keeps-bind _ _
        (status_update-Keeps j.id (claimed env worker_id) (λ k. (refl, refl, refl, refl, refl)))
        (λ _. search keeps_rules)

  pub claim_job-Keeps : (env : Env) (worker_id : ℕ) → Keeps Ok (claim_job env worker_id)
  unfolding claim_job
  claim_job-Keeps env worker_id = search (keeps_rules, claim_found-Keeps env worker_id)

  -- The worker's transactions before the network boundary.
  pub cancel_job-Keeps : (env : Env) (job_id : ℕ) → Keeps Ok (cancel_job env job_id)
  unfolding cancel_job
  cancel_job-Keeps env job_id =
      search (keeps_rules, job_status-Keeps, Keeps-create_audit_event) depth 9

  pub load_case-Keeps : (case_id : ℕ) → Keeps Ok (load_case case_id)
  unfolding load_case
  load_case-Keeps case_id = search keeps_rules depth 9

  pub load_leased-Keeps : (worker_id job_id : ℕ) → Keeps Ok (load_leased worker_id job_id)
  unfolding load_leased
  load_leased-Keeps worker_id job_id = search keeps_rules depth 9

  pub begin_evaluate-Keeps : (env : Env) (job : RecoveryJob) → Keeps Ok (begin_evaluate env job)
  unfolding begin_evaluate
  begin_evaluate-Keeps env job = search (keeps_rules, load_case-Keeps, cancel_job-Keeps env) depth 9
