-- ===== src/Tables/Rules.antt =====
-- What each write to a table keeps, for any property of the tables: the premise is about the new
-- tables, and may use that the database does not reject the row.
use razor_pay.Prelude.{some, Option, arith, ℕ, ◌≡◌, String, none, List, [], ◌∷◌, ◌++◌, change}
use razor_pay.Json.{Json}
use razor_pay.States.{PaymentState, RecoveryState, AttemptState, JobState}
use razor_pay.Models.{
  Customer, Payment, RecoveryCase, RecoveryAttempt, RecoveryDecision, RecoveryJob, JobType,
  IdempotencyRecord, AuditEvent, EntityId, Db,
}
use razor_pay.Session.{Env, pure, draw_uuid, ◌>>=◌}
use razor_pay.Session.Keeps.{
  Keeps-pure, Keeps, keeps_rules, Keeps-write, Keeps-modify, Keeps-bind, Keeps-draw_uuid,
}
use razor_pay.Audit.{
  adopt_correlation, get_correlation_id, create_audit_event, entity_conflict, add_audit,
}
use razor_pay.Tables.{
  payment_has_id, case_has_id, attempt_has_id, job_has_id, add_customer, add_payment, add_case,
  add_attempt, add_job, add_key, add_decision, set_payment_status, set_case_status,
  set_attempt_status, change_job, set_job_status, new_job, pending_job, cancel_jobs,
  cancel_pending_jobs, customer_conflict, payment_conflict, case_conflict, attempt_conflict,
  job_conflict, key_conflict, index_conflict,
}

module _ {S : Db → Type 0} where
  pub Keeps-add_customer :
      (r : Customer)
      → ((db : Db)
          → customer_conflict r db ≡ none
          → S db
          → S (record db { customers = db.customers ++ r ∷ [] }))
      → Keeps S (add_customer r)
  unfolding add_customer
  Keeps-add_customer r k = Keeps-write (customer_conflict r) _ k

  pub Keeps-add_payment :
      (r : Payment)
      → ((db : Db)
          → payment_conflict r db ≡ none
          → S db
          → S (record db { payments = db.payments ++ r ∷ [] }))
      → Keeps S (add_payment r)
  unfolding add_payment
  Keeps-add_payment r k = Keeps-write (payment_conflict r) _ k

  pub Keeps-add_case :
      (r : RecoveryCase)
      → ((db : Db)
          → case_conflict r db ≡ none
          → S db
          → S (record db { cases = db.cases ++ r ∷ [] }))
      → Keeps S (add_case r)
  unfolding add_case
  Keeps-add_case r k = Keeps-write (case_conflict r) _ k

  pub Keeps-add_attempt :
      (r : RecoveryAttempt)
      → ((db : Db)
          → attempt_conflict r db ≡ none
          → S db
          → S (record db { attempts = db.attempts ++ r ∷ [] }))
      → Keeps S (add_attempt r)
  unfolding add_attempt
  Keeps-add_attempt r k = Keeps-write (attempt_conflict r) _ k

  pub Keeps-add_job :
      (r : RecoveryJob)
      → ((db : Db) → job_conflict r db ≡ none → S db → S (record db { jobs = db.jobs ++ r ∷ [] }))
      → Keeps S (add_job r)
  unfolding add_job
  Keeps-add_job r k = Keeps-write (job_conflict r) _ k

  pub Keeps-add_key :
      (r : IdempotencyRecord)
      → ((db : Db) → key_conflict r db ≡ none → S db → S (record db { keys = db.keys ++ r ∷ [] }))
      → Keeps S (add_key r)
  unfolding add_key
  Keeps-add_key r k = Keeps-write (key_conflict r) _ k

  pub Keeps-add_decision :
      (r : RecoveryDecision)
      → ((db : Db) → S db → S (record db { decisions = db.decisions ++ r ∷ [] }))
      → Keeps S (add_decision r)
  unfolding add_decision
  Keeps-add_decision r k = Keeps-modify _ k

  pub Keeps-set_payment_status :
      (i : ℕ) (status : PaymentState)
      → ((db : Db)
          → S db
          → S (record db {
            payments =
                change
                  (payment_has_id i)
                  (λ (r : Payment). record r { status = status })
                  db.payments;
          }))
      → Keeps S (set_payment_status i status)
  unfolding set_payment_status
  Keeps-set_payment_status i status k = Keeps-modify _ k

  pub Keeps-set_case_status :
      (c : RecoveryCase) (status : RecoveryState)
      → ((db : Db)
          → index_conflict c.payment_id c.id status db.cases ≡ none
          → S db
          → S (record db {
            cases =
                change
                  (case_has_id c.id)
                  (λ (r : RecoveryCase). record r { status = status })
                  db.cases;
          }))
      → Keeps S (set_case_status c status)
  unfolding set_case_status
  Keeps-set_case_status c status k =
      Keeps-write (λ db. index_conflict c.payment_id c.id status db.cases) _ k

  pub Keeps-set_attempt_status :
      (i : ℕ) (status : AttemptState)
      → ((db : Db)
          → S db
          → S (record db {
            attempts =
                change
                  (attempt_has_id i)
                  (λ (r : RecoveryAttempt). record r { status = status })
                  db.attempts;
          }))
      → Keeps S (set_attempt_status i status)
  unfolding set_attempt_status
  Keeps-set_attempt_status i status k = Keeps-modify _ k

  pub Keeps-change_job :
      (i : ℕ) (f : RecoveryJob → RecoveryJob)
      → ((db : Db) → S db → S (record db { jobs = change (job_has_id i) f db.jobs }))
      → Keeps S (change_job i f)
  unfolding change_job
  Keeps-change_job i f k = Keeps-modify _ k

  pub Keeps-set_job_status :
      (i : ℕ) (status : JobState)
      → ((db : Db)
          → S db
          → S (record db {
            jobs =
                change (job_has_id i) (λ (j : RecoveryJob). record j { status = status }) db.jobs;
          }))
      → Keeps S (set_job_status i status)
  unfolding set_job_status
  Keeps-set_job_status i status k = Keeps-change_job i _ k

  -- The jobs of the list are cancelled one by one.
  Keeps-cancel_jobs :
      (jobs : List RecoveryJob)
      → ((i : ℕ) → Keeps S (set_job_status i JobState.cancelled))
      → Keeps S (cancel_jobs jobs)
  unfolding cancel_jobs
  Keeps-cancel_jobs [] k = search keeps_rules
  Keeps-cancel_jobs (j ∷ jobs) k = search (keeps_rules, k j.id, Keeps-cancel_jobs jobs k)

  pub Keeps-cancel_pending_jobs :
      (case_id : ℕ)
      → ((i : ℕ) → Keeps S (set_job_status i JobState.cancelled))
      → Keeps S (cancel_pending_jobs case_id)
  unfolding cancel_pending_jobs
  Keeps-cancel_pending_jobs case_id k =
      search (keeps_rules, λ (l : List RecoveryJob). Keeps-cancel_jobs l k)

  pub Keeps-get_correlation_id : (env : Env) → Keeps S (get_correlation_id env)
  unfolding get_correlation_id draw_uuid pure ◌>>=◌
  Keeps-get_correlation_id env = record { at = λ w h. ground arith }

  pub Keeps-create_audit_event :
      (env : Env) (entity_type : String) (entity_id : EntityId) (event_type actor_type : String)
      (payload : Json)
      → ((db : Db) (rows : List AuditEvent) → S db → S (record db { audits = rows }))
      → Keeps S (create_audit_event env entity_type entity_id event_type actor_type payload)
  unfolding create_audit_event
  Keeps-create_audit_event env entity_type entity_id event_type actor_type payload k = search (
    keeps_rules,
    Keeps-get_correlation_id env,
    λ (e : AuditEvent).
        Keeps-write {S = S} (λ db. entity_conflict env entity_id) (add_audit e)
          (λ db free h. k db _ h),
  )

  -- The new job is pending, of the given kind, and counts the given attempts.
  pub Keeps-new_job :
      (env : Env) (case_id : ℕ) (job_type : JobType) (available_at max_attempts attempt_count : ℕ)
      → ((id : ℕ) (cid : String)
          → Keeps S (
              add_job
                (pending_job env id case_id job_type available_at max_attempts attempt_count cid)))
      → Keeps S (new_job env case_id job_type available_at max_attempts attempt_count)
  unfolding new_job
  Keeps-new_job env case_id job_type available_at max_attempts attempt_count k =
      Keeps-bind _ _ (Keeps-get_correlation_id env)
        (λ cid. Keeps-bind _ _ (Keeps-draw_uuid env) (λ id. k id cid))

-- The correlation id is no part of the tables.
pub Keeps-adopt_correlation : {S : Db → Type 0} (o : Option String) → Keeps S (adopt_correlation o)
Keeps-adopt_correlation none = Keeps-pure tt
Keeps-adopt_correlation (some cid) = record { at = λ w h. record { saved = h.saved; db = h.db } }
