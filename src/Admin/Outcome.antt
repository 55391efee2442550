-- ===== src/Admin/Outcome.antt =====
-- What the administrator's requests commit.
use text.Mathlib.Text.{◌==◌ as str_eq}
use razor_pay.Prelude.{
  select-none, select-some, ◌&&◌, ◌==◌, if◌then◌else◌, ℕ, String, ◌≡◌, true, false, Option, none,
  some, List, [], ◌∷◌, ◌++◌, arith, exists, first, change, not, Option-cases, inl, inr, Bool-cases,
}
use razor_pay.Errors.{ok, err, http}
use razor_pay.States.{RecoveryState, is_active, is_recovered}
use razor_pay.Models.{RecoveryCase, JobType, AuditEvent, Db}
use razor_pay.Session.{Env, World, write, ◌>>=◌}
use razor_pay.Audit.{create_audit_event, get_correlation_id}
use razor_pay.Tables.{
  case_has_id, payment_has_id, job_has_id, set_case_status, new_job, add_job, is_pending_of,
  pending_job, is_other_active,
}
use razor_pay.Tables.Cancel.{without_pending, cancel_pending_jobs_lem, exists-without_pending}
use razor_pay.Admin.{
  has_succeeded, is_live_of, mark_recovered, reject_paid, stop_unpaid, stop_recovery_case, requeue,
  reject_busy, retry_unpaid, force_retry_case, with_http_errors,
}

-- A session that has just begun.
abbrev pub IsFresh : World → Type 0
IsFresh w = (w.db ≡ w.saved) × (w.refused ≡ none)

abbrev pub with_status : RecoveryState → RecoveryCase → RecoveryCase
with_status s c = record c { status = s }

-- Stopping an active case whose payment has not succeeded commits the case as stopped and cancels
-- its pending jobs, none of which is left; no payment, attempt or decision changes. The session
-- has just begun.
pub stop_recovery_case-stops :
    (env : Env) (w : World) (case : RecoveryCase)
    → IsFresh w
    → first (case_has_id case.id) w.saved.cases ≡ some case
    → has_succeeded (first (payment_has_id case.payment_id) w.saved.payments) ≡ false
    → is_active case.status ≡ true
    → let (r, w') = stop_recovery_case env case.id w in
      (r ≡ ok (with_status RecoveryState.stopped case))
      × (w'.saved ≡ record w.saved {
        cases = change (case_has_id case.id) (with_status RecoveryState.stopped) w.saved.cases;
        jobs = without_pending case.id w.saved.jobs;
        audits = w'.saved.audits;
      })
      × (exists (is_pending_of case.id) w'.saved.jobs ≡ false)
unfolding stop_recovery_case stop_unpaid set_case_status create_audit_event get_correlation_id write
    ◌>>=◌
stop_recovery_case-stops env w case fresh found unpaid active = ground (
  arith,
  cancel_pending_jobs_lem case.id (record w {
    db = record w.db {
      cases = change (case_has_id case.id) (with_status RecoveryState.stopped) w.db.cases;
    };
  }),
  exists-without_pending case.id w.saved.jobs,
)

-- The three refusals of a stop.
stop_paid :
    (env : Env) (w : World) (case : RecoveryCase) (event_type : String)
    → IsFresh w
    → let (r, w') = with_http_errors (reject_paid env case event_type) w in
      (r ≡ err (http 409))
      × (w'.saved ≡ record w.saved {
        cases =
            if is_recovered case.status
            then w.saved.cases
            else change (case_has_id case.id) (with_status RecoveryState.recovered) w.saved.cases;
        audits = w'.saved.audits;
      })
unfolding reject_paid mark_recovered set_case_status create_audit_event get_correlation_id write
    ◌>>=◌
stop_paid env w case event_type fresh = elim (Bool-cases (is_recovered case.status)) [
  | inl t ↦ rw t (ground arith)
  | inr f ↦ rw f (ground arith)
]

stop_to_paid :
    (env : Env) (w : World) (case_id : ℕ) (case : RecoveryCase)
    → IsFresh w
    → first (case_has_id case_id) w.saved.cases ≡ some case
    → has_succeeded (first (payment_has_id case.payment_id) w.saved.payments) ≡ true
    → stop_recovery_case env case_id w
      ≡ with_http_errors (reject_paid env case "ADMIN_STOP_REJECTED") w
unfolding stop_recovery_case ◌>>=◌
stop_to_paid env w case_id case fresh found paid = ground arith

retry_to_paid :
    (env : Env) (w : World) (case_id : ℕ) (case : RecoveryCase)
    → IsFresh w
    → first (case_has_id case_id) w.saved.cases ≡ some case
    → has_succeeded (first (payment_has_id case.payment_id) w.saved.payments) ≡ true
    → force_retry_case env case_id w
      ≡ with_http_errors (reject_paid env case "ADMIN_RETRY_REJECTED") w
unfolding force_retry_case ◌>>=◌
retry_to_paid env w case_id case fresh found paid = ground arith

-- The tables after a refusal of a case with an answer. A payment that has succeeded makes its case
-- recovered.
abbrev pub refused_cases : Db → ℕ → List RecoveryCase
refused_cases db case_id = elim (first (case_has_id case_id) db.cases) [
  | none ↦ db.cases
  | some c ↦
      if has_succeeded (first (payment_has_id c.payment_id) db.payments)
        && not (is_recovered c.status)
      then change (case_has_id c.id) (with_status RecoveryState.recovered) db.cases
      else db.cases
]

abbrev pub refused_tables : ℕ → Db → ℕ → List AuditEvent → Db
refused_tables code db case_id audits =
    if code == 409 then record db { cases = refused_cases db case_id; audits = audits } else db

-- The answer that a stop is refused with, if it is.
abbrev pub stop_refusal : Db → ℕ → Option ℕ
stop_refusal db case_id = elim (first (case_has_id case_id) db.cases) [
  | none ↦ some 404
  | some c ↦
      if has_succeeded (first (payment_has_id c.payment_id) db.payments)
      then some 409
      else if is_active c.status
      then none
      else some 400
]

-- Stopping is refused with 404 if there is no such case, with 409 if its payment has succeeded and
-- else with 400 if the case has ended. Only a refusal with 409 commits anything: an audit event and,
-- unless it is so already, that the case is recovered. The session has just begun.
pub stop_recovery_case-refuses :
    (env : Env) (w : World) (case_id code : ℕ)
    → IsFresh w
    → stop_refusal w.saved case_id ≡ some code
    → let (r, w') = stop_recovery_case env case_id w in
      (r ≡ err (http code)) × (w'.saved ≡ refused_tables code w.saved case_id w'.saved.audits)
unfolding stop_recovery_case stop_unpaid ◌>>=◌
stop_recovery_case-refuses env w case_id code fresh refused =
    elim (Option-cases (first (case_has_id case_id) w.saved.cases)) [
      | inl missing ↦ ground arith
      | inr (case, found) ↦
          elim (Bool-cases
            (has_succeeded (first (payment_has_id case.payment_id) w.saved.payments))) [
              | inl paid ↦
                  let same = stop_to_paid env w case_id case fresh found paid in
                  let done = stop_paid env w case "ADMIN_STOP_REJECTED" fresh in
                  ground (arith, same, done)
              | inr unpaid ↦ ground arith
            ]
    ]

-- Retrying a case that is not recovered, whose payment has not succeeded and which has no job that
-- is pending or running, commits the case as open and one new pending evaluation that counts its
-- attempts from 0, if the payment has no other active case and the id drawn for the job is new.
-- The correlation id of the request is set, and the session has just begun.
pub force_retry_case-requeues :
    (env : Env) (w : World) (case : RecoveryCase)
    → IsFresh w
    → first (case_has_id case.id) w.saved.cases ≡ some case
    → has_succeeded (first (payment_has_id case.payment_id) w.saved.payments) ≡ false
    → is_recovered case.status ≡ false
    → exists (is_live_of case.id) w.saved.jobs ≡ false
    → exists (is_other_active case.payment_id case.id) w.saved.cases ≡ false
    → exists (job_has_id (env.uuid4 w.drawn)) w.saved.jobs ≡ false
    → str_eq w.correlation "" ≡ false
    → let (r, w') = force_retry_case env case.id w in
      (r ≡ ok (with_status RecoveryState.opened case))
      × (w'.saved ≡ record w.saved {
        cases = change (case_has_id case.id) (with_status RecoveryState.opened) w.saved.cases;
        jobs =
            w.saved.jobs
            ++ pending_job env
                (env.uuid4 w.drawn)
                case.id
                JobType.evaluate_recovery
                env.now
                3
                0
                w.correlation
              ∷ [];
        audits = w'.saved.audits;
      })
unfolding force_retry_case retry_unpaid requeue new_job add_job set_case_status create_audit_event
    get_correlation_id write ◌>>=◌
force_retry_case-requeues env w case fresh found unpaid open_case idle alone new set =
    ground (arith, select-none (is_live_of case.id) w.saved.jobs)

-- The answer that a retry is refused with, if it is.
abbrev pub retry_refusal : Db → ℕ → Option ℕ
retry_refusal db case_id = elim (first (case_has_id case_id) db.cases) [
  | none ↦ some 404
  | some c ↦
      if has_succeeded (first (payment_has_id c.payment_id) db.payments)
      then some 409
      else if is_recovered c.status
      then some 400
      else if exists (is_live_of c.id) db.jobs
      then some 409
      else none
]

-- Retrying is refused with 404 if there is no such case, with 409 if its payment has succeeded, with
-- 400 if the case is recovered, and with 409 if it has a job that is pending or running. Only a
-- refusal with 409 commits anything: an audit event and, if the payment has succeeded, that the case
-- is recovered. The session has just begun.
pub force_retry_case-refuses :
    (env : Env) (w : World) (case_id code : ℕ)
    → IsFresh w
    → retry_refusal w.saved case_id ≡ some code
    → let (r, w') = force_retry_case env case_id w in
      (r ≡ err (http code)) × (w'.saved ≡ refused_tables code w.saved case_id w'.saved.audits)
unfolding force_retry_case retry_unpaid reject_busy create_audit_event get_correlation_id write
    ◌>>=◌
force_retry_case-refuses env w case_id code fresh refused =
    elim (Option-cases (first (case_has_id case_id) w.saved.cases)) [
      | inl missing ↦ ground arith
      | inr (case, found) ↦
          elim (Bool-cases
            (has_succeeded (first (payment_has_id case.payment_id) w.saved.payments))) [
              | inl paid ↦
                  let same = retry_to_paid env w case_id case fresh found paid in
                  let done = stop_paid env w case "ADMIN_RETRY_REJECTED" fresh in
                  ground (arith, same, done)
              | inr unpaid ↦ ground (arith, select-some (is_live_of case.id) w.saved.jobs)
            ]
    ]
