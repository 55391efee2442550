-- ===== src/Consistency/Queries.antt =====
-- What the queries of the services find in consistent tables.
use razor_pay.Prelude.{
  ℕ, ◌≡◌, Bool, true, some, List, [], ◌∷◌, ◌==◌, inl, inr, arith, exists, first, Bool-cases,
}
use razor_pay.Errors.{Error}
use razor_pay.Models.{RecoveryCase, JobType, Db}
use razor_pay.Session.{Env, Action, or_raise, ◌>>=◌}
use razor_pay.Tables.{query_case, new_job, case_has_id}
use razor_pay.Consistency.{Consistent, Fact, Known, is_case_of}
use razor_pay.Consistency.Runs.{Runs, Runs-find, Knows, Has-here, Has-there}
use razor_pay.Consistency.Runs.Rules.{runs_rules, Runs-rollback-raise}
use razor_pay.Consistency.Writes.{
  Runs-set_job_status, Runs-add_decision, Runs-set_payment_status, Runs-set_attempt_status,
  Runs-set_case_status,
}
use razor_pay.Consistency.Inserts.{Runs-create_audit_event, Runs-new_job, Runs-cancel_pending_jobs}

-- A row that a query returns is there, as a row with the key that it has.
pub first-exists :
    {A : Type 0} (q r : A → Bool) (l : List A) {x : A}
    → r x ≡ true
    → first q l ≡ some x
    → exists r l ≡ true
unfolding first exists
first-exists q r [] t e = cc
first-exists q r (y ∷ l) {x} t e = elim (Bool-cases (q y)) [
  | inl here ↦
      let e' : some y ≡ some x = rw here at e in
      let same : y ≡ x = cc in rw same (ground (arith, t))
  | inr later ↦ ground (arith, first-exists q r l {x = x} t (rw later at e))
]

pub first-there :
    {A : Type 0} (q : A → Bool) (l : List A) {x : A} → first q l ≡ some x → exists q l ≡ true
unfolding first exists
first-there q [] e = cc
first-there q (y ∷ l) e = elim (Bool-cases (q y)) [
  | inl here ↦ ground (arith, here)
  | inr later ↦ ground (arith, first-there q l (rw later at e))
]

pub self : (n : ℕ) → n == n ≡ true
self n = ground arith

case_self : (c : RecoveryCase) → is_case_of c.id c.payment_id c ≡ true
case_self c = ground (arith, self c.id, self c.payment_id)

abbrev pub fact_of : RecoveryCase → Fact
fact_of c = Fact.has_case c.id c.payment_id

pub found_case :
    (q : RecoveryCase → Bool) (c : RecoveryCase) (db : Db)
    → first q db.cases ≡ some c
    → Known db (fact_of c)
found_case q c db e = first-exists q (is_case_of c.id c.payment_id) db.cases (case_self c) e

module _ {B : Type 0} {facts : List Fact} where
  pub Runs-find_case :
      (i : ℕ) (e : Error) (f : RecoveryCase → Action B)
      → ((c : RecoveryCase) → Runs Consistent (fact_of c ∷ facts) (f c))
      → Runs Consistent facts (query_case i >>= λ o. or_raise o e >>= f)
  Runs-find_case i e f k =
      Runs-find fact_of _ e f (λ w c h there. found_case (case_has_id i) c w.db there) k

-- A job for the case that has been loaded last.
pub Runs-again :
    {facts : List Fact} (env : Env) (c : RecoveryCase) (t : JobType) (available_at max count : ℕ)
    → Runs Consistent (fact_of c ∷ facts) (new_job env c.id t available_at max count)
Runs-again {facts} env c t available_at max count =
    Runs-new_job env c.id c.payment_id t available_at max count (Has-here (fact_of c) facts)

pub ruleset services_rules = (
  runs_rules, Runs-rollback-raise, Has-here, Has-there, Runs-set_case_status, Runs-again,
  Runs-set_job_status, Runs-cancel_pending_jobs, Runs-create_audit_event, Runs-set_payment_status,
  Runs-set_attempt_status, Runs-add_decision,
)
