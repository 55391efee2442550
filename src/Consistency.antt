-- ===== src/Consistency.antt =====
-- The constraints of the tables between rows (app/persistence/models): every foreign key names a row,
-- ids of cases do not repeat, and a payment has at most one active case.
pub mod Active
pub mod Runs
mod Grows
pub mod Writes
pub mod Inserts
pub mod Queries
pub mod Worker
use razor_pay.Prelude.{
  ℕ, ◌≡◌, Bool, true, false, ◌&&◌, Option, none, some, List, [], ◌∷◌, ◌==◌, All, exists,
}
use razor_pay.Prelude.Distinct.{Distinct}
use razor_pay.States.{is_active}
use razor_pay.Models.{Payment, RecoveryCase, RecoveryAttempt, RecoveryDecision, RecoveryJob, Db}
use razor_pay.Tables.{customer_has_id, payment_has_id, case_has_id, attempt_has_id}

abbrev pub same_case : RecoveryCase → RecoveryCase → Bool
same_case c = case_has_id c.id

-- Two active cases of a payment.
abbrev pub rivals : RecoveryCase → RecoveryCase → Bool
rivals c d = is_active c.status && (is_active d.status && d.payment_id == c.payment_id)

-- The foreign keys of a row.
abbrev pub PaymentRefers : Db → Payment → Type 0
PaymentRefers db p = exists (customer_has_id p.customer_id) db.customers ≡ true

abbrev pub CaseRefers : Db → RecoveryCase → Type 0
CaseRefers db c =
    (exists (payment_has_id c.payment_id) db.payments ≡ true)
    × (exists (customer_has_id c.customer_id) db.customers ≡ true)

abbrev pub AttemptRefers : Db → RecoveryAttempt → Type 0
AttemptRefers db a = exists (case_has_id a.recovery_case_id) db.cases ≡ true

abbrev pub DecisionRefers : Db → RecoveryDecision → Type 0
DecisionRefers db d = exists (case_has_id d.recovery_case_id) db.cases ≡ true

abbrev pub is_attempt : Db → Option ℕ → Bool
is_attempt db none = true
is_attempt db (some id) = exists (attempt_has_id id) db.attempts

abbrev pub JobRefers : Db → RecoveryJob → Type 0
JobRefers db j =
    (exists (case_has_id j.recovery_case_id) db.cases ≡ true) × (is_attempt db j.attempt_id ≡ true)

pub record Consistent (db : Db) : Type 0 where
  pub ids : Distinct same_case db.cases
  pub active : Distinct rivals db.cases
  pub payments : All (PaymentRefers db) db.payments
  pub cases : All (CaseRefers db) db.cases
  pub attempts : All (AttemptRefers db) db.attempts
  pub decisions : All (DecisionRefers db) db.decisions
  pub jobs : All (JobRefers db) db.jobs

-- What a transaction knows of its working copy: a row is there, and the payment of a case.
pub data Fact : Type 0 where
  has_customer has_payment has_attempt : ℕ → Fact
  has_case : ℕ → ℕ → Fact

abbrev pub is_case_of : ℕ → ℕ → RecoveryCase → Bool
is_case_of id payment_id c = c.id == id && c.payment_id == payment_id

abbrev pub Known : Db → Fact → Type 0
Known db (Fact.has_customer i) = exists (customer_has_id i) db.customers ≡ true
Known db (Fact.has_payment i) = exists (payment_has_id i) db.payments ≡ true
Known db (Fact.has_attempt i) = exists (attempt_has_id i) db.attempts ≡ true
Known db (Fact.has_case i p) = exists (is_case_of i p) db.cases ≡ true
