-- ===== src/Tables.antt =====
-- Queries, inserts and updates of the tables, with the constraints of app/persistence/models that
-- the database checks: the primary keys, the unique columns and indexes, NOT NULL and CHECK.
pub mod Rules
pub mod Unsaved
pub mod Cancel
pub mod Paid
use text.Mathlib.Text.{◌==◌ as str_eq}
use razor_pay.Prelude.{
  ℕ, ℤ, pos, negsuc, ◌+◌, leb, ◌*◌, is_negative, String, Bool, not, ◌&&◌, Option, none, some, List,
  [], ◌∷◌, ◌++◌, ◌==◌, is_some, first, select, change, exists, if◌then◌else◌,
}
use razor_pay.Errors.{
  Error, integrity, primary_key, payment_external_id, customer_external_id, idempotency_key,
  active_case, attempt_number, not_null, amount_positive, data_error,
}
use razor_pay.States.{PaymentState, RecoveryState, AttemptState, JobState, is_active, is_pending}
use razor_pay.Models.{
  Customer, Payment, RecoveryCase, RecoveryAttempt, RecoveryDecision, RecoveryJob, JobType,
  IdempotencyRecord, Db,
}
use razor_pay.Session.{Env, Action, pure, gets, modify, write, draw_uuid, ◌>>=◌, ◌>>◌}
use razor_pay.Audit.{get_correlation_id}

-- `filter_by(id=...)`
abbrev pub customer_has_id : ℕ → Customer → Bool
customer_has_id i r = r.id == i

abbrev pub payment_has_id : ℕ → Payment → Bool
payment_has_id i r = r.id == i

abbrev pub case_has_id : ℕ → RecoveryCase → Bool
case_has_id i r = r.id == i

abbrev pub attempt_has_id : ℕ → RecoveryAttempt → Bool
attempt_has_id i r = r.id == i

abbrev pub job_has_id : ℕ → RecoveryJob → Bool
job_has_id i r = r.id == i

abbrev pub query_customer : ℕ → Action (Option Customer)
query_customer i = gets (λ w. first (customer_has_id i) w.db.customers)

abbrev pub query_payment : ℕ → Action (Option Payment)
query_payment i = gets (λ w. first (payment_has_id i) w.db.payments)

abbrev pub query_case : ℕ → Action (Option RecoveryCase)
query_case i = gets (λ w. first (case_has_id i) w.db.cases)

abbrev pub query_attempt : ℕ → Action (Option RecoveryAttempt)
query_attempt i = gets (λ w. first (attempt_has_id i) w.db.attempts)

abbrev pub query_job : ℕ → Action (Option RecoveryJob)
query_job i = gets (λ w. first (job_has_id i) w.db.jobs)

-- The index `ix_active_recovery_case_per_payment`: another active case of the payment.
abbrev pub is_other_active : ℕ → ℕ → RecoveryCase → Bool
is_other_active payment_id id c =
    is_active c.status && (c.payment_id == payment_id && not (c.id == id))

abbrev pub index_conflict : ℕ → ℕ → RecoveryState → List RecoveryCase → Option Error
index_conflict payment_id id status cases =
    if is_active status && exists (is_other_active payment_id id) cases
    then some (integrity active_case)
    else none

-- A column `Numeric(precision=12, scale=4)` has eight digits before the point.
unfoldable pub is_too_large : ℤ → Bool
is_too_large (pos n) = leb 1000000000000 n
is_too_large (negsuc n) = leb 1000000000000 (n + 1)

abbrev pub payment_conflict : Payment → Db → Option Error
payment_conflict p db =
    if is_too_large p.amount
    then some data_error
    else if exists (payment_has_id p.id) db.payments
    then some (integrity primary_key)
    else if exists (λ (r : Payment). str_eq r.external_id p.external_id) db.payments
    then some (integrity payment_external_id)
    else if is_negative p.amount
    then some (integrity amount_positive)
    else none

abbrev pub customer_conflict : Customer → Db → Option Error
customer_conflict c db =
    if exists (customer_has_id c.id) db.customers
    then some (integrity primary_key)
    else if exists (λ (r : Customer). str_eq r.external_id c.external_id) db.customers
    then some (integrity customer_external_id)
    else none

abbrev pub case_conflict : RecoveryCase → Db → Option Error
case_conflict c db =
    if is_too_large c.amount_at_risk
    then some data_error
    else if exists (case_has_id c.id) db.cases
    then some (integrity primary_key)
    else if not (is_some c.failure_reason)
    then some (integrity not_null)
    else if is_negative c.amount_at_risk
    then some (integrity amount_positive)
    else index_conflict c.payment_id c.id c.status db.cases

abbrev pub is_numbered : ℕ → ℕ → RecoveryAttempt → Bool
is_numbered case_id number a = a.recovery_case_id == case_id && a.attempt_number == number

abbrev pub attempt_conflict : RecoveryAttempt → Db → Option Error
attempt_conflict a db =
    if exists (attempt_has_id a.id) db.attempts
    then some (integrity primary_key)
    else if exists (is_numbered a.recovery_case_id a.attempt_number) db.attempts
    then some (integrity attempt_number)
    else none

abbrev pub job_conflict : RecoveryJob → Db → Option Error
job_conflict j db = if exists (job_has_id j.id) db.jobs then some (integrity primary_key) else none

abbrev pub key_conflict : IdempotencyRecord → Db → Option Error
key_conflict k db =
    if exists (λ (r : IdempotencyRecord). str_eq r.idempotency_key k.idempotency_key) db.keys
    then some (integrity idempotency_key)
    else none

-- `session.add(row)`: a conflict is raised by the flush.
unfoldable pub add_customer : Customer → Action Unit
add_customer r w =
    write (customer_conflict r w.db) (λ db. record db { customers = db.customers ++ r ∷ [] }) w

unfoldable pub add_payment : Payment → Action Unit
add_payment r w =
    write (payment_conflict r w.db) (λ db. record db { payments = db.payments ++ r ∷ [] }) w

unfoldable pub add_case : RecoveryCase → Action Unit
add_case r w = write (case_conflict r w.db) (λ db. record db { cases = db.cases ++ r ∷ [] }) w

unfoldable pub add_attempt : RecoveryAttempt → Action Unit
add_attempt r w =
    write (attempt_conflict r w.db) (λ db. record db { attempts = db.attempts ++ r ∷ [] }) w

unfoldable pub add_job : RecoveryJob → Action Unit
add_job r w = write (job_conflict r w.db) (λ db. record db { jobs = db.jobs ++ r ∷ [] }) w

unfoldable pub add_key : IdempotencyRecord → Action Unit
add_key r w = write (key_conflict r w.db) (λ db. record db { keys = db.keys ++ r ∷ [] }) w

unfoldable pub add_decision : RecoveryDecision → Action Unit
add_decision r = modify (λ db. record db { decisions = db.decisions ++ r ∷ [] })

-- Assignments to the attributes of a loaded row.
unfoldable pub set_payment_status : ℕ → PaymentState → Action Unit
set_payment_status i status = modify λ db. record db {
  payments = change (payment_has_id i) (λ (r : Payment). record r { status = status }) db.payments;
}

unfoldable pub set_case_status : RecoveryCase → RecoveryState → Action Unit
set_case_status c status w =
    write (index_conflict c.payment_id c.id status w.db.cases)
      (λ db. record db {
        cases =
            change (case_has_id c.id) (λ (r : RecoveryCase). record r { status = status }) db.cases;
      })
      w

unfoldable pub set_attempt_status : ℕ → AttemptState → Action Unit
set_attempt_status i status = modify λ db. record db {
  attempts =
      change (attempt_has_id i) (λ (r : RecoveryAttempt). record r { status = status }) db.attempts;
}

unfoldable pub change_job : ℕ → (RecoveryJob → RecoveryJob) → Action Unit
change_job i f = modify λ db. record db { jobs = change (job_has_id i) f db.jobs }

unfoldable pub set_job_status : ℕ → JobState → Action Unit
set_job_status i status = change_job i (λ j. record j { status = status })

-- `timedelta(minutes=...)`, in microseconds
abbrev pub minutes : ℕ → ℕ
minutes n = n * 60000000

-- The attributes of a pending job, as every caller writes them.
abbrev pub pending_job : Env → ℕ → ℕ → JobType → ℕ → ℕ → ℕ → String → RecoveryJob
pending_job env id case_id job_type available_at max_attempts attempt_count cid = record {
  id = id;
  recovery_case_id = case_id;
  attempt_id = none;
  job_type = job_type;
  payload = ("correlation_id", cid) ∷ [];
  status = JobState.pending;
  scheduled_for = env.now;
  available_at = available_at;
  attempt_count = attempt_count;
  max_attempts = max_attempts;
  locked_at = none;
  locked_by = none;
  last_error = none;
}

-- `session.add(RecoveryJob(...))`
unfoldable pub new_job : Env → ℕ → JobType → ℕ → ℕ → ℕ → Action Unit
new_job env case_id job_type available_at max_attempts attempt_count = do
  cid ← get_correlation_id env
  id ← draw_uuid env
  add_job (pending_job env id case_id job_type available_at max_attempts attempt_count cid)

abbrev pub is_pending_of : ℕ → RecoveryJob → Bool
is_pending_of case_id j = j.recovery_case_id == case_id && is_pending j.status

-- `for job in pending_jobs: job.status = JobState.CANCELLED`
unfoldable pub cancel_jobs : List RecoveryJob → Action Unit
cancel_jobs [] = pure tt
cancel_jobs (j ∷ jobs) = do set_job_status j.id JobState.cancelled; cancel_jobs jobs

-- The pending jobs of a case are cancelled.
unfoldable pub cancel_pending_jobs : ℕ → Action Unit
cancel_pending_jobs case_id = do
  pending_jobs ← gets (λ w. select (is_pending_of case_id) w.db.jobs)
  cancel_jobs pending_jobs
