-- ===== src/Worker/Settle.antt =====
-- How a charge that failed is settled.
use text.Mathlib.Text.{◌==◌ as str_eq}
use razor_pay.Prelude.{
  ℕ, String, ◌≡◌, refl, false, List, [], ◌∷◌, ◌++◌, arith, exists, change, ltb, if◌then◌else◌,
  exists-change,
}
use razor_pay.Errors.{ok}
use razor_pay.States.{AttemptState, JobState, RecoveryState}
use razor_pay.Models.{Payment, RecoveryCase, RecoveryAttempt, RecoveryJob, JobType, Db}
use razor_pay.Gateway.{ChargeStatus}
use razor_pay.Session.{Env, World, write, ◌>>=◌}
use razor_pay.Audit.{create_audit_event, get_correlation_id}
use razor_pay.Tables.{
  case_has_id, attempt_has_id, job_has_id, change_job, new_job, add_job, pending_job,
  set_case_status, set_attempt_status, set_job_status,
}
use razor_pay.Worker.Lease.{load_leased}
use razor_pay.Worker.Execute.{finalize_job, settle, on_charge_failed}
use razor_pay.Worker.Attempt.{settled, finalize_job-recovers, Returns}

abbrev pub done : ℕ → List RecoveryJob → List RecoveryJob
done i jobs =
    change (job_has_id i) (λ (j : RecoveryJob). record j { status = JobState.succeeded }) jobs

abbrev pub with_outcome : AttemptState → ℕ → List RecoveryAttempt → List RecoveryAttempt
with_outcome status i attempts =
    change (attempt_has_id i) (λ (x : RecoveryAttempt). record x { status = status }) attempts

abbrev pub case_becomes : RecoveryState → ℕ → List RecoveryCase → List RecoveryCase
case_becomes status i cases =
    change (case_has_id i) (λ (x : RecoveryCase). record x { status = status }) cases

-- The tables when a charge that failed has been recorded: with attempts left there is one more job,
-- otherwise the case is stopped.
abbrev pub failed_tables : Env → ℕ → String → RecoveryJob → ℕ → ℕ → Db → Db
failed_tables env id cid job attempt_id case_id db = record db {
  jobs =
      if ltb job.attempt_count job.max_attempts
      then done job.id db.jobs
        ++ pending_job env id case_id JobType.evaluate_recovery env.now job.max_attempts
            job.attempt_count cid
          ∷ []
      else done job.id db.jobs;
  attempts = with_outcome AttemptState.failed attempt_id db.attempts;
  cases =
      if ltb job.attempt_count job.max_attempts
      then db.cases
      else case_becomes RecoveryState.stopped case_id db.cases;
}

finalize_job-fails :
    (env : Env) (worker_id : ℕ) (meanwhile : Db → Db) (job : RecoveryJob) (a : RecoveryAttempt)
    (case : RecoveryCase) (p : Payment) (w : World)
    → Returns worker_id (meanwhile w.saved) job a case p
    → str_eq w.correlation "" ≡ false
    → exists (job_has_id (env.uuid4 w.drawn)) (meanwhile w.saved).jobs ≡ false
    → let db = meanwhile w.saved in
      let (r, w') = finalize_job env worker_id meanwhile job.id a.id ChargeStatus.failed w in
      (r ≡ ok tt)
      × (w'.saved
          ≡ record (failed_tables env (env.uuid4 w.drawn) w.correlation job a.id case.id db) {
            audits = w'.saved.audits;
          })
unfolding finalize_job load_leased settle on_charge_failed set_case_status new_job add_job
    set_attempt_status set_job_status change_job create_audit_event get_correlation_id write ◌>>=◌
finalize_job-fails env worker_id meanwhile job a case p w h set fresh =
    let e = h.job_found in
    let l = h.leased in
    let f = h.attempt_found in
    let c = h.case_found in
    let q = h.payment_found in
    ground (
      arith,
      exists-change (job_has_id job.id) (job_has_id (env.uuid4 w.drawn))
          (λ (j : RecoveryJob). record j { status = JobState.succeeded }) (meanwhile w.saved).jobs
          (λ x. refl),
    )

-- A worker that holds the lease of its job and brings the answer of the gateway commits in one
-- transaction what it says. If the charge went through: the job, the attempt and the payment as
-- succeeded and the case as recovered. If it failed: the job as succeeded and the attempt as failed;
-- with attempts left exactly one more job, an evaluation of the case at once with the same count,
-- and no case changes; with none left no job, and the case is stopped. Beside that only audit events
-- are added. The id drawn is new, and the correlation id is set.
pub finalize_job-settles :
    (env : Env) (worker_id : ℕ) (meanwhile : Db → Db) (job : RecoveryJob) (a : RecoveryAttempt)
    (case : RecoveryCase) (p : Payment) (w : World)
    → Returns worker_id (meanwhile w.saved) job a case p
    → str_eq w.correlation "" ≡ false
    → exists (job_has_id (env.uuid4 w.drawn)) (meanwhile w.saved).jobs ≡ false
    → let db = meanwhile w.saved in
      let (r, w') = finalize_job env worker_id meanwhile job.id a.id ChargeStatus.succeeded w in
      let (r', v) = finalize_job env worker_id meanwhile job.id a.id ChargeStatus.failed w in
      (r ≡ ok tt)
      × (w'.saved ≡ record (settled job.id a.id p.id case.id db) { audits = w'.saved.audits })
      × (r' ≡ ok tt)
      × (v.saved
          ≡ record (failed_tables env (env.uuid4 w.drawn) w.correlation job a.id case.id db) {
            audits = v.saved.audits;
          })
finalize_job-settles env worker_id meanwhile job a case p w h set fresh =
    let paid = finalize_job-recovers env worker_id meanwhile job a case p w h in
    let unpaid = finalize_job-fails env worker_id meanwhile job a case p w h set fresh in
    (paid.0, paid.1, unpaid.0, unpaid.1)
