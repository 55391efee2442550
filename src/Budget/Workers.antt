-- ===== src/Budget/Workers.antt =====
-- The worker's final transactions keep the budget.
use razor_pay.Prelude.{ℕ, ◌≡◌, refl, String, true, Option, some, List, arith, first, ltb, All-first}
use razor_pay.Errors.{ok}
use razor_pay.States.{JobState}
use razor_pay.Models.{Payment, RecoveryCase, RecoveryJob, RecoveryAttempt, JobType, Db}
use razor_pay.Gateway.{ChargeStatus}
use razor_pay.Session.{Env, World, ◌>>=◌}
use razor_pay.Session.Keeps.{
  Holds, Keeps, keeps_rules, Keeps-bind, Keeps-bind-ok, Keeps-catch, Keeps-begin_after,
}
use razor_pay.Tables.{job_has_id, new_job}
use razor_pay.Tables.Rules.{
  Keeps-set_payment_status, Keeps-set_case_status, Keeps-create_audit_event,
}
use razor_pay.Worker.Lease.{load_leased}
use razor_pay.Worker.Evaluate.{finalize_evaluate_error}
use razor_pay.Worker.Execute.{
  settle, on_charged, on_charge_failed, finalize_job, finalize_ambiguous,
}
use razor_pay.Budget.{Fits, InBudget, Respects}
use razor_pay.Budget.Services.{
  Ok, new_job-Keeps, job_status-Keeps, attempt_status-Keeps, status_update-Keeps, load_leased-Keeps,
}

-- The job that a worker loads is a row of the table.
pub load_leased-first :
    (worker_id job_id : ℕ) (w : World) (job : RecoveryJob)
    → (load_leased worker_id job_id w).0 ≡ ok job
    → first (job_has_id job_id) w.db.jobs ≡ some job
unfolding load_leased ◌>>=◌
load_leased-first worker_id job_id w job e = ground arith

module _ (T : List RecoveryJob → List RecoveryAttempt → Type 0) (laws : Respects T)
    (within : (jobs : List RecoveryJob) (attempts : List RecoveryAttempt)
      → T jobs attempts
      → Fits jobs attempts)
    (env : Env) (worker_id : ℕ) (meanwhile : Db → Db)
    (kept : (db : Db) → Ok T laws db → Ok T laws (meanwhile db)) where
  pub again-Keeps :
      (case_id : ℕ) (t : JobType) (available_at max count : ℕ)
      → max ≡ 3
      → ltb count max ≡ true
      → Keeps (Ok T laws) (new_job env case_id t available_at max count)
  again-Keeps case_id t available_at max count e less =
      rw e (new_job-Keeps T laws env case_id t available_at count (ground arith))

  loaded :
      (job_id : ℕ) (w : World) (job : RecoveryJob)
      → Holds (Ok T laws) w
      → (load_leased worker_id job_id w).0 ≡ ok job
      → job.max_attempts ≡ 3
  loaded job_id w job h e =
      (All-first (InBudget w.db.attempts) (job_has_id job_id) w.db.jobs
        (within w.db.jobs w.db.attempts h.db).budget
        (load_leased-first worker_id job_id w job e)).0.0

  pub finalize_evaluate_error-Ok :
      (job_id : ℕ) (m : String)
      → Keeps (Ok T laws) (finalize_evaluate_error env worker_id meanwhile job_id m)
  unfolding finalize_evaluate_error
  finalize_evaluate_error-Ok job_id m =
      Keeps-catch _ _
        (Keeps-bind _ _ (Keeps-begin_after meanwhile kept) λ _.
          Keeps-bind-ok _ _ (load_leased-Keeps T laws worker_id job_id) λ w job h e.
            let three = loaded job_id w job h e in
            Keeps-bind _ _
              (status_update-Keeps T laws job.id
                (λ j. record j { status = JobState.failed; last_error = some m })
                (λ j. (refl, refl, refl, refl, refl)))
              λ _.
                search (keeps_rules, again-Keeps, Keeps-set_case_status, Keeps-create_audit_event)
                  depth 10)
        (λ e. search keeps_rules)

  settle-Ok :
      (result : ChargeStatus) (job : RecoveryJob) (a : RecoveryAttempt) (case : RecoveryCase)
      (p : Option Payment)
      → job.max_attempts ≡ 3
      → Keeps (Ok T laws) (settle env worker_id meanwhile result job a case p)
  unfolding settle on_charged on_charge_failed
  settle-Ok ChargeStatus.succeeded job a case p three =
      search
        (
          keeps_rules,
          attempt_status-Keeps T laws,
          Keeps-set_payment_status,
          Keeps-create_audit_event,
          Keeps-set_case_status,
        )
        depth 12
  settle-Ok _ job a case p three =
      search
        (
          keeps_rules,
          attempt_status-Keeps T laws,
          again-Keeps,
          Keeps-create_audit_event,
          Keeps-set_case_status,
        )
        depth 12

  pub finalize_job-Ok :
      (job_id attempt_id : ℕ) (result : ChargeStatus)
      → Keeps (Ok T laws) (finalize_job env worker_id meanwhile job_id attempt_id result)
  unfolding finalize_job
  finalize_job-Ok job_id attempt_id result =
      Keeps-catch _ _
        (Keeps-bind _ _ (Keeps-begin_after meanwhile kept) λ _.
          Keeps-bind-ok _ _ (load_leased-Keeps T laws worker_id job_id) λ w job h e.
            let three = loaded job_id w job h e in
            search (keeps_rules, job_status-Keeps T laws, settle-Ok) depth 12)
        (λ e. search keeps_rules)

  pub finalize_ambiguous-Ok :
      (job_id attempt_id : ℕ)
      → Keeps (Ok T laws) (finalize_ambiguous env worker_id meanwhile job_id attempt_id)
  unfolding finalize_ambiguous
  finalize_ambiguous-Ok job_id attempt_id =
      search
        (
          keeps_rules,
          Keeps-begin_after,
          kept,
          load_leased-Keeps T laws worker_id,
          job_status-Keeps T laws,
          attempt_status-Keeps T laws,
        )
        depth 12
