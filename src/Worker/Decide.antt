-- ===== src/Worker/Decide.antt =====
-- What the decision of the provider commits, by its action.
use text.Mathlib.Text.{◌==◌ as str_eq}
use razor_pay.Prelude.{
  ℕ, ◌+◌, ◌≡◌, refl, String, false, true, none, some, List, [], ◌∷◌, ◌++◌, arith, exists, first,
  exists-change,
}
use razor_pay.Errors.{ok}
use razor_pay.States.{JobState, RecoveryState, is_succeeded}
use razor_pay.Models.{Payment, RecoveryCase, RecoveryDecision, RecoveryJob, JobType, Db}
use razor_pay.Contracts.{ActionType, Decision, action_text}
use razor_pay.Session.{Env, World, write, ◌>>=◌}
use razor_pay.Audit.{create_audit_event, get_correlation_id}
use razor_pay.Tables.{
  case_has_id, payment_has_id, job_has_id, change_job, set_job_status, set_case_status, new_job,
  add_job, add_decision, pending_job,
}
use razor_pay.Claims.{is_locked_by}
use razor_pay.Worker.Lease.{load_case, load_leased}
use razor_pay.Worker.Evaluate.{act_on, day, record_decision, finalize_evaluate_decision}
use razor_pay.Worker.Settle.{done, case_becomes}

abbrev pub decision_row : ℕ → Decision → RecoveryDecision
decision_row case_id d = record {
  recovery_case_id = case_id;
  decision_source = "AI";
  action_type = action_text d.action;
  confidence = d.confidence;
  reason = d.reason;
  policy_result = "APPROVED";
}

-- The jobs after an action: it adds a charge at once, none, or another evaluation in a day.
abbrev pub next_jobs :
    Env → ActionType → ℕ → RecoveryJob → ℕ → String → List RecoveryJob → List RecoveryJob
next_jobs env ActionType.charge id j case_id cid jobs =
    jobs
    ++ pending_job env id case_id JobType.execute_charge env.now j.max_attempts j.attempt_count cid
      ∷ []
next_jobs env ActionType.abort id j case_id cid jobs = jobs
next_jobs env ActionType.delay id j case_id cid jobs =
    jobs
    ++ pending_job env id case_id JobType.evaluate_recovery (env.now + day) j.max_attempts
        j.attempt_count cid
      ∷ []

-- The cases after an action: it ends the case or leaves it alone.
abbrev pub next_cases : ActionType → ℕ → List RecoveryCase → List RecoveryCase
next_cases ActionType.abort case_id cases = case_becomes RecoveryState.stopped case_id cases
next_cases _ case_id cases = cases

-- The rows that a worker finds when it returns with the answer of the provider.
pub record Evaluates (worker_id : ℕ) (db : Db) (job : RecoveryJob) (case : RecoveryCase)
    (p : Payment) : Type 0 where
  pub job_found : first (job_has_id job.id) db.jobs ≡ some job
  pub leased : is_locked_by job.locked_by worker_id ≡ true
  pub case_found : first (case_has_id job.recovery_case_id) db.cases ≡ some case
  pub payment_found : first (payment_has_id case.payment_id) db.payments ≡ some p
  pub unpaid : is_succeeded p.status ≡ false

-- The whole of the record.
records :
    (env : Env) (worker_id : ℕ) (meanwhile : Db → Db) (job : RecoveryJob) (case : RecoveryCase)
    (d : Decision) (w : World)
    → w.refused ≡ none
    → str_eq w.correlation "" ≡ false
    → exists (job_has_id (env.uuid4 w.drawn)) w.db.jobs ≡ false
    → let (r, w') = record_decision env worker_id meanwhile job case d w in
      (r ≡ ok tt)
      × (w'.saved ≡ record w.db {
        decisions = w.db.decisions ++ decision_row case.id d ∷ [];
        jobs =
            next_jobs env d.action
              (env.uuid4 w.drawn)
              job
              case.id
              w.correlation
              (done job.id w.db.jobs);
        cases = next_cases d.action case.id w.db.cases;
        audits = w'.saved.audits;
      })
unfolding record_decision act_on add_decision set_job_status set_case_status new_job add_job
    change_job create_audit_event get_correlation_id write ◌>>=◌
records env worker_id meanwhile job case d w clean set fresh = ground (
  arith,
  exists-change (job_has_id job.id) (job_has_id (env.uuid4 w.drawn))
      (λ (j : RecoveryJob). record j { status = JobState.succeeded }) w.db.jobs (λ x. refl),
)

-- A worker that holds the lease of its job and brings a decision about a payment that has not
-- succeeded commits in one transaction the decision as approved, the job as succeeded and what the
-- action asks for: for a charge one pending charge of the case, for an abort the case as stopped and
-- no job, for a delay one pending evaluation that is due in a day, each with the attempts of the job
-- carried on. Beside that only audit events are added. The id drawn is new, and the correlation id is
-- set.
pub finalize_evaluate_decision-acts :
    (env : Env) (worker_id : ℕ) (meanwhile : Db → Db) (job : RecoveryJob) (case : RecoveryCase)
    (p : Payment) (d : Decision) (w : World)
    → Evaluates worker_id (meanwhile w.saved) job case p
    → str_eq w.correlation "" ≡ false
    → exists (job_has_id (env.uuid4 w.drawn)) (meanwhile w.saved).jobs ≡ false
    → let db = meanwhile w.saved in
      let (r, w') = finalize_evaluate_decision env worker_id meanwhile job.id d w in
      (r ≡ ok tt)
      × (w'.saved ≡ record db {
        decisions = db.decisions ++ decision_row case.id d ∷ [];
        jobs =
            next_jobs env d.action
              (env.uuid4 w.drawn)
              job
              case.id
              w.correlation
              (done job.id db.jobs);
        cases = next_cases d.action case.id db.cases;
        audits = w'.saved.audits;
      })
unfolding finalize_evaluate_decision load_leased load_case ◌>>=◌
finalize_evaluate_decision-acts env worker_id meanwhile job case p d w h set fresh =
    let e = h.job_found in
    let l = h.leased in
    let c = h.case_found in
    let q = h.payment_found in
    let u = h.unpaid in
    let v : World = record w {
      saved = meanwhile w.saved;
      db = meanwhile w.saved;
      refused = none;
    } in
    ground (arith, records env worker_id meanwhile job case d v refl set fresh)
