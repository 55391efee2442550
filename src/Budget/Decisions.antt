-- ===== src/Budget/Decisions.antt =====
-- A decision about an evaluation keeps the budget: the job that it queues has attempts left.
use razor_pay.Prelude.{ℕ, ◌<◌, ◌≡◌, refl, true, some, List, arith, All-first, first, ltb}
use razor_pay.Models.{RecoveryCase, RecoveryJob, RecoveryAttempt, JobType, Db}
use razor_pay.Contracts.{Decision, ActionType}
use razor_pay.Session.{Env, World, begin_after, catch, ◌>>=◌}
use razor_pay.Session.Keeps.{Holds, Keeps, keeps_rules, Keeps-bind-ok, Keeps-catch}
use razor_pay.Tables.{job_has_id}
use razor_pay.Tables.Rules.{Keeps-add_decision, Keeps-set_case_status, Keeps-create_audit_event}
use razor_pay.Worker.Evaluate.{act_on, record_decision, finalize_evaluate_decision}
use razor_pay.Budget.{InBudget, Fits, Respects}
use razor_pay.Budget.Laws.{Fits-Respects}
use razor_pay.Budget.Types.{IsTyped, IsTyped-Respects, Respects-and}
use razor_pay.Budget.Services.{
  Ok, job_status-Keeps, load_case-Keeps, load_leased-Keeps, cancel_job-Keeps,
}
use razor_pay.Budget.Workers.{load_leased-first, again-Keeps}

-- The budget, where `i` is an evaluation.
abbrev pub Both : ℕ → List RecoveryJob → List RecoveryAttempt → Type 0
Both i jobs attempts = Fits jobs attempts × IsTyped true i jobs attempts

pub both : (i : ℕ) → Respects (Both i)
both i = Respects-and Fits (IsTyped true i) Fits-Respects (IsTyped-Respects true i)

-- An evaluation of the table has attempts left.
evaluation_left :
    (i : ℕ) (jobs : List RecoveryJob) (attempts : List RecoveryAttempt) (job : RecoveryJob)
    → Both i jobs attempts
    → first (job_has_id i) jobs ≡ some job
    → (job.max_attempts ≡ 3) × (ltb job.attempt_count job.max_attempts ≡ true)
evaluation_left i jobs attempts job h e =
    let (b, same) = All-first (InBudget attempts) (job_has_id i) jobs h.0.budget e in
    let t = (All-first _ (job_has_id i) jobs h.1.1 e).0 (ground arith) in
    let blank = b.3 t in
    let less : job.attempt_count < 3 = b.2 (rw blank refl) in (b.0, ground arith)

module _ (env : Env) (worker_id : ℕ) (meanwhile : Db → Db) (i : ℕ) where
  act_on-Ok :
      (a : ActionType) (case : RecoveryCase) (job : RecoveryJob)
      → job.max_attempts ≡ 3
      → ltb job.attempt_count job.max_attempts ≡ true
      → Keeps (Ok (Both i) (both i)) (act_on env worker_id meanwhile a case job)
  unfolding act_on
  act_on-Ok ActionType.charge case job three left =
      again-Keeps (Both i) (both i) (λ jobs attempts h. h.0) env worker_id (λ db. db) (λ db h. h)
        case.id JobType.execute_charge env.now job.max_attempts job.attempt_count three left
  act_on-Ok ActionType.abort case job three left = search Keeps-set_case_status
  act_on-Ok ActionType.delay case job three left =
      again-Keeps (Both i) (both i) (λ jobs attempts h. h.0) env worker_id (λ db. db) (λ db h. h)
        case.id JobType.evaluate_recovery _ job.max_attempts job.attempt_count three left

  record_decision-Ok :
      (job : RecoveryJob) (case : RecoveryCase) (d : Decision)
      → job.max_attempts ≡ 3
      → ltb job.attempt_count job.max_attempts ≡ true
      → Keeps (Ok (Both i) (both i)) (record_decision env worker_id meanwhile job case d)
  unfolding record_decision
  record_decision-Ok job case d three left =
      search
        (
          keeps_rules,
          Keeps-add_decision,
          Keeps-create_audit_event,
          job_status-Keeps (Both i) (both i),
          act_on-Ok,
        )
        depth 12

  -- Where the tables that the transaction meets fit the budget and the job is an evaluation, they fit
  -- it afterwards.
  pub finalize_evaluate_decision-Fits :
      (d : Decision) (w : World)
      → Ok (Both i) (both i) (meanwhile w.saved)
      → Holds (Ok Fits Fits-Respects) (finalize_evaluate_decision env worker_id meanwhile i d w).1
  unfolding finalize_evaluate_decision ◌>>=◌ begin_after catch
  finalize_evaluate_decision-Fits d w h =
      let body =
        Keeps-catch _ _
          (Keeps-bind-ok _ _ (load_leased-Keeps (Both i) (both i) worker_id i) λ v job p e.
            let (three, left) =
              evaluation_left i v.db.jobs v.db.attempts job p.db
                (load_leased-first worker_id i v job e) in
            search
              (
                keeps_rules,
                load_case-Keeps (Both i) (both i),
                cancel_job-Keeps (Both i) (both i) env,
                record_decision-Ok,
              )
              depth 12)
          (λ e. search keeps_rules) in
      let end = body.at (begin_after meanwhile w).1 (record { saved = h; db = h }) in
      record { saved = end.saved.0; db = end.db.0 }
