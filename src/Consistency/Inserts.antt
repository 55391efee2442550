-- ===== src/Consistency/Inserts.antt =====
-- Rows that are added, flushed and then referred to.
use text.Mathlib.Text.{◌==◌ as str_eq}
use razor_pay.Prelude.{
  Bool-cases, ℕ, String, ◌≡◌, refl, Bool, false, Option, none, some, List, [], ◌∷◌, ◌++◌, inl, inr,
  arith, All-append, exists, exists-append, if◌then◌else◌,
}
use razor_pay.Prelude.Distinct.{Distinct-append}
use razor_pay.Errors.{Error, data_error, integrity, primary_key, not_null, amount_positive}
use razor_pay.Json.{Json}
use razor_pay.States.{JobState}
use razor_pay.Models.{
  Customer, Payment, RecoveryCase, RecoveryAttempt, RecoveryJob, JobType, IdempotencyRecord,
  EntityId, AuditEvent, Db,
}
use razor_pay.Session.{Env, Action, ◌>>=◌, flush, draw_uuid, pure, write}
use razor_pay.Audit.{create_audit_event, get_correlation_id, entity_conflict, add_audit}
use razor_pay.Tables.{
  customer_has_id, payment_has_id, case_has_id, attempt_has_id, add_customer, add_payment, add_case,
  add_attempt, add_key, new_job, cancel_jobs, cancel_pending_jobs, customer_conflict,
  payment_conflict, case_conflict, attempt_conflict, key_conflict,
}
use razor_pay.Consistency.{
  same_case, PaymentRefers, CaseRefers, AttemptRefers, Consistent, Fact, is_case_of,
}
use razor_pay.Consistency.Active.{append-active}
use razor_pay.Consistency.Runs.{Runs, Has, Has-Known, Runs-bind, Runs-gets, Runs-pure}
use razor_pay.Consistency.Runs.Rules.{Runs-write, Runs-insert, Runs-draw_uuid}
use razor_pay.Consistency.Writes.{Runs-add_job, Runs-set_job_status}
use razor_pay.Consistency.Grows.{
  Grows, Grows-Known, payments-Grows, cases-Grows, attempts-Grows, decisions-Grows, jobs-Grows,
  case_known, new_row,
}

-- What the other constraints of a case leave.
last_test :
    (large a b c : Bool) (o : Option Error)
    → (if large
        then some data_error
        else if a
        then some (integrity primary_key)
        else if b
        then some (integrity not_null)
        else if c
        then some (integrity amount_positive)
        else o)
      ≡ none
    → o ≡ none
last_test large a b c o h = ground (arith, h)

module _ {B : Type 0} {facts : List Fact} where
  pub Runs-add_customer :
      (r : Customer) (rest : Unit → Action B)
      → Runs Consistent (Fact.has_customer r.id ∷ facts) (rest tt)
      → Runs Consistent facts (add_customer r >>= λ _. flush >>= rest)
  unfolding add_customer
  Runs-add_customer r rest =
      Runs-insert (Fact.has_customer r.id) (customer_conflict r) _ rest
        (λ db free known h.
          let g = grows db in
          record {
            ids = h.ids;
            active = h.active;
            payments = payments-Grows db _ g db.payments h.payments;
            cases = cases-Grows db _ g db.cases h.cases;
            attempts = h.attempts;
            decisions = h.decisions;
            jobs = h.jobs;
          })
        (λ db. Grows-Known db _ (grows db))
        (λ db. new_row (customer_has_id r.id) db.customers r (ground arith))
    where
      grows : (db : Db) → Grows db (record db { customers = db.customers ++ r ∷ [] })
      grows db = record {
        customers = λ j h. exists-append (customer_has_id j) db.customers (r ∷ []) h;
        payments = λ j h. h;
        cases = λ j p h. h;
        case_ids = λ j h. h;
        attempts = λ j h. h;
      }

  pub Runs-add_payment :
      (r : Payment) (rest : Unit → Action B)
      → Has (Fact.has_customer r.customer_id) facts
      → Runs Consistent (Fact.has_payment r.id ∷ facts) (rest tt)
      → Runs Consistent facts (add_payment r >>= λ _. flush >>= rest)
  unfolding add_payment
  Runs-add_payment r rest payer =
      Runs-insert (Fact.has_payment r.id) (payment_conflict r) _ rest
        (λ db free known h.
          let g = grows db in
          record {
            ids = h.ids;
            active = h.active;
            payments =
                All-append (PaymentRefers db) db.payments (r ∷ []) h.payments
                  ((Has-Known (Fact.has_customer r.customer_id) facts db payer known, tt));
            cases = cases-Grows db _ g db.cases h.cases;
            attempts = h.attempts;
            decisions = h.decisions;
            jobs = h.jobs;
          })
        (λ db. Grows-Known db _ (grows db))
        (λ db. new_row (payment_has_id r.id) db.payments r (ground arith))
    where
      grows : (db : Db) → Grows db (record db { payments = db.payments ++ r ∷ [] })
      grows db = record {
        customers = λ j h. h;
        payments = λ j h. exists-append (payment_has_id j) db.payments (r ∷ []) h;
        cases = λ j p h. h;
        case_ids = λ j h. h;
        attempts = λ j h. h;
      }

  pub Runs-add_attempt :
      (r : RecoveryAttempt) (p : ℕ) (rest : Unit → Action B)
      → Has (Fact.has_case r.recovery_case_id p) facts
      → Runs Consistent (Fact.has_attempt r.id ∷ facts) (rest tt)
      → Runs Consistent facts (add_attempt r >>= λ _. flush >>= rest)
  unfolding add_attempt
  Runs-add_attempt r p rest there =
      Runs-insert (Fact.has_attempt r.id) (attempt_conflict r) _ rest
        (λ db free known h. record {
          ids = h.ids;
          active = h.active;
          payments = h.payments;
          cases = h.cases;
          attempts = All-append (AttemptRefers db) db.attempts (r ∷ []) h.attempts (
              (
                case_known r.recovery_case_id p db.cases
                    (Has-Known (Fact.has_case r.recovery_case_id p) facts db there known),
                tt,
              ));
          decisions = h.decisions;
          jobs = jobs-Grows db _ (grows db) db.jobs h.jobs;
        })
        (λ db. Grows-Known db _ (grows db))
        (λ db. new_row (attempt_has_id r.id) db.attempts r (ground arith))
    where
      grows : (db : Db) → Grows db (record db { attempts = db.attempts ++ r ∷ [] })
      grows db = record {
        customers = λ j h. h;
        payments = λ j h. h;
        cases = λ j p h. h;
        case_ids = λ j h. h;
        attempts = λ j h. exists-append (attempt_has_id j) db.attempts (r ∷ []) h;
      }

  pub Runs-add_case :
      (r : RecoveryCase) (rest : Unit → Action B)
      → Has (Fact.has_payment r.payment_id) facts
      → Has (Fact.has_customer r.customer_id) facts
      → Runs Consistent (Fact.has_case r.id r.payment_id ∷ facts) (rest tt)
      → Runs Consistent facts (add_case r >>= λ _. flush >>= rest)
  unfolding add_case
  Runs-add_case r rest paid payer =
      Runs-insert (Fact.has_case r.id r.payment_id) (case_conflict r) _ rest
        (λ db free known h.
          let g = grows db in
          record {
            ids =
                Distinct-append same_case db.cases r (λ x e. ground (arith, e)) (new_id db free)
                  h.ids;
            active = append-active r db.cases (new_id db free) (last_test _ _ _ _ _ free) h.active;
            payments = h.payments;
            cases = All-append (CaseRefers db) db.cases (r ∷ []) h.cases (
                (
                  (
                    Has-Known (Fact.has_payment r.payment_id) facts db paid known,
                    Has-Known (Fact.has_customer r.customer_id) facts db payer known,
                  ),
                  tt,
                ));
            attempts = attempts-Grows db _ g db.attempts h.attempts;
            decisions = decisions-Grows db _ g db.decisions h.decisions;
            jobs = jobs-Grows db _ g db.jobs h.jobs;
          })
        (λ db. Grows-Known db _ (grows db))
        (λ db. new_row (is_case_of r.id r.payment_id) db.cases r (ground arith))
    where
      grows : (db : Db) → Grows db (record db { cases = db.cases ++ r ∷ [] })
      grows db = record {
        customers = λ j h. h;
        payments = λ j h. h;
        cases = λ j p h. exists-append (is_case_of j p) db.cases (r ∷ []) h;
        case_ids = λ j h. exists-append (case_has_id j) db.cases (r ∷ []) h;
        attempts = λ j h. h;
      }

      new_id : (db : Db) → case_conflict r db ≡ none → exists (case_has_id r.id) db.cases ≡ false
      new_id db free = ground (arith, free)

-- Tables that no foreign key is about.
elsewhere :
    (db : Db) (keys : List IdempotencyRecord) (audits : List AuditEvent)
    → Consistent db
    → Consistent (record db { keys = keys; audits = audits })
elsewhere db keys audits h = record {
  ids = h.ids;
  active = h.active;
  payments = h.payments;
  cases = h.cases;
  attempts = h.attempts;
  decisions = h.decisions;
  jobs = h.jobs;
}

no_row :
    (db : Db) (keys : List IdempotencyRecord) (audits : List AuditEvent)
    → Grows db (record db { keys = keys; audits = audits })
no_row db keys audits = record {
  customers = λ i h. h;
  payments = λ i h. h;
  cases = λ i p h. h;
  case_ids = λ i h. h;
  attempts = λ i h. h;
}

module _ {facts : List Fact} where
  pub Runs-get_correlation_id : (env : Env) → Runs Consistent facts (get_correlation_id env)
  unfolding get_correlation_id draw_uuid pure ◌>>=◌
  Runs-get_correlation_id env = record {
    at = λ w h k. elim (Bool-cases (str_eq w.correlation "")) [
      | inl unset ↦ rw unset (record { saved = h.saved; db = h.db }, k)
      | inr set ↦ rw set (record { saved = h.saved; db = h.db }, k)
    ];
  }

  Runs-add_audit :
      (env : Env) (id : EntityId) (e : AuditEvent)
      → Runs Consistent facts (write (entity_conflict env id) (add_audit e))
  Runs-add_audit env id e =
      Runs-write (λ db. entity_conflict env id) (add_audit e)
        (λ db free known h. elsewhere db db.keys (db.audits ++ e ∷ []) h)
        (λ db. Grows-Known db _ (no_row db db.keys (db.audits ++ e ∷ [])))

  pub Runs-create_audit_event :
      (env : Env) (entity_type : String) (id : EntityId) (event_type actor_type : String)
      (payload : Json)
      → Runs Consistent facts (create_audit_event env entity_type id event_type actor_type payload)
  unfolding create_audit_event
  Runs-create_audit_event env entity_type id event_type actor_type payload =
      Runs-bind _ _ (Runs-get_correlation_id env) (λ cid. Runs-add_audit env id _)

  pub Runs-add_key : (r : IdempotencyRecord) → Runs Consistent facts (add_key r)
  unfolding add_key
  Runs-add_key r =
      Runs-write (key_conflict r) _ (λ db free known h. elsewhere db _ db.audits h)
        (λ db. Grows-Known db _ (no_row db (db.keys ++ r ∷ []) db.audits))

  pub Runs-new_job :
      (env : Env) (case_id p : ℕ) (t : JobType) (available_at max count : ℕ)
      → Has (Fact.has_case case_id p) facts
      → Runs Consistent facts (new_job env case_id t available_at max count)
  unfolding new_job
  Runs-new_job env case_id p t available_at max count there =
      Runs-bind _ _ (Runs-get_correlation_id env)
        λ cid. Runs-bind _ _ (Runs-draw_uuid env) λ id. Runs-add_job _ p refl there

  cancel_jobs-Runs : (jobs : List RecoveryJob) → Runs Consistent facts (cancel_jobs jobs)
  unfolding cancel_jobs
  cancel_jobs-Runs [] = Runs-pure tt
  cancel_jobs-Runs (j ∷ jobs) =
      Runs-bind _ _ (Runs-set_job_status j.id JobState.cancelled) (λ _. cancel_jobs-Runs jobs)

  pub Runs-cancel_pending_jobs : (case_id : ℕ) → Runs Consistent facts (cancel_pending_jobs case_id)
  unfolding cancel_pending_jobs
  Runs-cancel_pending_jobs case_id = Runs-bind _ _ (Runs-gets _) cancel_jobs-Runs
