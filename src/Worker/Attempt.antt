-- ===== src/Worker/Attempt.antt =====
-- The attempt that a job begins, and how a charge that went through is settled.
use razor_pay.Prelude.{
  ℕ, ◌+◌, ◌≡◌, true, false, none, some, [], ◌∷◌, ◌++◌, arith, exists, first, change,
}
use razor_pay.Errors.{ok, err, integrity, attempt_number}
use razor_pay.States.{AttemptState, JobState, PaymentState, RecoveryState, is_succeeded}
use razor_pay.Models.{Payment, RecoveryCase, RecoveryAttempt, RecoveryJob, Db}
use razor_pay.Gateway.{ChargeStatus}
use razor_pay.Session.{Env, World, write, ◌>>=◌}
use razor_pay.Audit.{create_audit_event, get_correlation_id}
use razor_pay.Tables.{
  case_has_id, payment_has_id, attempt_has_id, job_has_id, is_numbered, add_attempt, change_job,
  set_payment_status, set_case_status, set_attempt_status, set_job_status,
}
use razor_pay.Claims.{is_locked_by}
use razor_pay.Worker.Lease.{load_case, load_leased}
use razor_pay.Worker.Execute.{
  plan, query_begun, ensure_attempt, begin_charge, finalize_job, settle, on_charged,
}

-- The attempt that a job begins.
abbrev pub new_attempt : ℕ → ℕ → ℕ → RecoveryAttempt
new_attempt id case_id number = record {
  id = id;
  recovery_case_id = case_id;
  attempt_number = number;
  action_type = "CHARGE";
  status = AttemptState.running;
}

abbrev pub with_attempt : ℕ → ℕ → RecoveryJob → RecoveryJob
with_attempt id number j = record j { attempt_id = some id; attempt_count = number }

-- A job without an attempt, for a payment that has not succeeded.
pub record Begins (env : Env) (job : RecoveryJob) (case : RecoveryCase) (p : Payment) (w : World)
    : Type 0 where
  pub clean : w.refused ≡ none
  pub case_found : first (case_has_id job.recovery_case_id) w.db.cases ≡ some case
  pub payment_found : first (payment_has_id case.payment_id) w.db.payments ≡ some p
  pub unpaid : is_succeeded p.status ≡ false
  pub no_attempt : job.attempt_id ≡ none
  pub fresh : exists (attempt_has_id (env.uuid4 w.drawn)) w.db.attempts ≡ false

-- A job without an attempt, whose payment has not succeeded, commits a running attempt under the next
-- number if the case has none with it, and notes it in the job; the charge is planned under the key
-- of the payment and that number. The id drawn is new,
-- and no write has been refused before.
pub begin_charge-numbers :
    (env : Env) (job : RecoveryJob) (case : RecoveryCase) (p : Payment) (w : World)
    → Begins env job case p w
    → exists (is_numbered case.id (job.attempt_count + 1)) w.db.attempts ≡ false
    → let id = env.uuid4 w.drawn in
      let attempt = new_attempt id case.id (job.attempt_count + 1) in
      let (r, w') = begin_charge env job w in
      (r ≡ ok (some (plan env p attempt)))
      × (w'.saved ≡ record w.db {
        attempts = w.db.attempts ++ attempt ∷ [];
        jobs = change (job_has_id job.id) (with_attempt id (job.attempt_count + 1)) w.db.jobs;
      })
unfolding begin_charge load_case query_begun ensure_attempt add_attempt change_job write ◌>>=◌
begin_charge-numbers env job case p w h free =
    let a = h.clean in
    let b = h.case_found in
    let c = h.payment_found in
    let d = h.unpaid in let e = h.no_attempt in let f = h.fresh in ground arith

-- If the case has an attempt with that number already, the database refuses the new one and nothing
-- is committed: the claim of the job is lost, and the job stays as it was before.
pub begin_charge-clash :
    (env : Env) (job : RecoveryJob) (case : RecoveryCase) (p : Payment) (w : World)
    → Begins env job case p w
    → exists (is_numbered case.id (job.attempt_count + 1)) w.db.attempts ≡ true
    → let (r, w') = begin_charge env job w in
      (r ≡ err (integrity attempt_number)) × (w'.saved ≡ w.saved) × (w'.db ≡ w.saved)
unfolding begin_charge load_case query_begun ensure_attempt add_attempt change_job write ◌>>=◌
begin_charge-clash env job case p w h taken =
    let a = h.clean in
    let b = h.case_found in
    let c = h.payment_found in
    let d = h.unpaid in let e = h.no_attempt in let f = h.fresh in ground arith

-- The rows that a worker finds when it returns with the answer of the gateway.
pub record Returns (worker_id : ℕ) (db : Db) (job : RecoveryJob) (a : RecoveryAttempt)
    (case : RecoveryCase) (p : Payment) : Type 0 where
  pub job_found : first (job_has_id job.id) db.jobs ≡ some job
  pub leased : is_locked_by job.locked_by worker_id ≡ true
  pub attempt_found : first (attempt_has_id a.id) db.attempts ≡ some a
  pub case_found : first (case_has_id a.recovery_case_id) db.cases ≡ some case
  pub payment_found : first (payment_has_id case.payment_id) db.payments ≡ some p

-- The tables when a charge that went through has been recorded.
abbrev pub settled : ℕ → ℕ → ℕ → ℕ → Db → Db
settled job_id attempt_id payment_id case_id db = record db {
  jobs =
      change (job_has_id job_id) (λ (j : RecoveryJob). record j { status = JobState.succeeded })
        db.jobs;
  attempts =
      change (attempt_has_id attempt_id)
        (λ (x : RecoveryAttempt). record x { status = AttemptState.succeeded }) db.attempts;
  payments =
      change (payment_has_id payment_id)
        (λ (x : Payment). record x { status = PaymentState.succeeded }) db.payments;
  cases =
      change (case_has_id case_id)
        (λ (x : RecoveryCase). record x { status = RecoveryState.recovered }) db.cases;
}

-- A worker that holds the lease of its job and brings a charge that went through commits in one
-- transaction the job and the attempt as succeeded, the payment as succeeded and the case as
-- recovered; beside these rows and the audit events nothing changes, and the gateway is not called.
pub finalize_job-recovers :
    (env : Env) (worker_id : ℕ) (meanwhile : Db → Db) (job : RecoveryJob) (a : RecoveryAttempt)
    (case : RecoveryCase) (p : Payment) (w : World)
    → Returns worker_id (meanwhile w.saved) job a case p
    → let db = meanwhile w.saved in
      let (r, w') = finalize_job env worker_id meanwhile job.id a.id ChargeStatus.succeeded w in
      (r ≡ ok tt)
      × (w'.saved ≡ record (settled job.id a.id p.id case.id db) { audits = w'.saved.audits })
      × (w'.gateway ≡ w.gateway)
unfolding finalize_job load_leased settle on_charged set_payment_status set_case_status
    set_attempt_status set_job_status change_job create_audit_event get_correlation_id write ◌>>=◌
finalize_job-recovers env worker_id meanwhile job a case p w h =
    let e = h.job_found in
    let l = h.leased in
    let f = h.attempt_found in let c = h.case_found in let q = h.payment_found in ground arith
