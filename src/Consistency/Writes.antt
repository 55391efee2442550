-- ===== src/Consistency/Writes.antt =====
-- The writes of the services keep the tables consistent, if the rows that they refer to are known.
use razor_pay.Prelude.{
  ℕ, ◌≡◌, refl, ◌∙◌, none, List, [], ◌∷◌, ◌++◌, All-append, All-change, exists-change, change,
}
use razor_pay.Prelude.Distinct.{Distinct-change}
use razor_pay.States.{PaymentState, RecoveryState, AttemptState, JobState, is_active}
use razor_pay.Models.{Payment, RecoveryCase, RecoveryAttempt, RecoveryDecision, RecoveryJob, Db}
use razor_pay.Tables.{
  payment_has_id, case_has_id, attempt_has_id, job_has_id, add_job, add_decision,
  set_payment_status, set_case_status, set_attempt_status, change_job, set_job_status, job_conflict,
  index_conflict,
}
use razor_pay.Consistency.{
  same_case, PaymentRefers, CaseRefers, AttemptRefers, DecisionRefers, JobRefers, Consistent, Fact,
  is_case_of,
}
use razor_pay.Consistency.Active.{set-active, owned-by, index_free}
use razor_pay.Consistency.Runs.{Knows, Runs, Has, Has-Known}
use razor_pay.Consistency.Runs.Rules.{Runs-modify, Runs-write}
use razor_pay.Consistency.Grows.{
  Grows, Grows-Known, cases-Grows, attempts-Grows, decisions-Grows, jobs-Grows, case_known,
  same_rows,
}

module _ {facts : List Fact} where
  -- The tables of jobs.
  pub Runs-change_job :
      (i : ℕ) (f : RecoveryJob → RecoveryJob)
      → ((db : Db) → Knows facts db → (j : RecoveryJob) → JobRefers db j → JobRefers db (f j))
      → Runs Consistent facts (change_job i f)
  unfolding change_job
  Runs-change_job i f k =
      Runs-modify _
        (λ db known h. record {
          ids = h.ids;
          active = h.active;
          payments = h.payments;
          cases = h.cases;
          attempts = h.attempts;
          decisions = h.decisions;
          jobs =
              All-change (JobRefers db) (job_has_id i) f db.jobs (λ j e r. k db known j r) h.jobs;
        })
        (λ db g h.
          Grows-Known db _ (same_rows db db.decisions (change (job_has_id i) f db.jobs)) g h)

  pub Runs-set_job_status :
      (i : ℕ) (status : JobState) → Runs Consistent facts (set_job_status i status)
  unfolding set_job_status
  Runs-set_job_status i status = Runs-change_job i _ (λ db known j r. r)

  pub Runs-add_job :
      (r : RecoveryJob) (p : ℕ)
      → r.attempt_id ≡ none
      → Has (Fact.has_case r.recovery_case_id p) facts
      → Runs Consistent facts (add_job r)
  unfolding add_job
  Runs-add_job r p none_yet there =
      Runs-write (job_conflict r) _
        (λ db free known h. record {
          ids = h.ids;
          active = h.active;
          payments = h.payments;
          cases = h.cases;
          attempts = h.attempts;
          decisions = h.decisions;
          jobs = All-append (JobRefers db) db.jobs (r ∷ []) h.jobs (
              (
                (
                  case_known r.recovery_case_id p db.cases
                      (Has-Known (Fact.has_case r.recovery_case_id p) facts db there known),
                  rw none_yet refl,
                ),
                tt,
              ));
        })
        (λ db g h. Grows-Known db _ (same_rows db db.decisions (db.jobs ++ r ∷ [])) g h)

  pub Runs-add_decision :
      (r : RecoveryDecision) (p : ℕ)
      → Has (Fact.has_case r.recovery_case_id p) facts
      → Runs Consistent facts (add_decision r)
  unfolding add_decision
  Runs-add_decision r p there =
      Runs-modify _
        (λ db known h. record {
          ids = h.ids;
          active = h.active;
          payments = h.payments;
          cases = h.cases;
          attempts = h.attempts;
          decisions = All-append (DecisionRefers db) db.decisions (r ∷ []) h.decisions (
              (
                case_known r.recovery_case_id p db.cases
                    (Has-Known (Fact.has_case r.recovery_case_id p) facts db there known),
                tt,
              ));
          jobs = h.jobs;
        })
        (λ db g h. Grows-Known db _ (same_rows db (db.decisions ++ r ∷ []) db.jobs) g h)

  -- A status is no key.
  pub Runs-set_payment_status :
      (i : ℕ) (status : PaymentState) → Runs Consistent facts (set_payment_status i status)
  unfolding set_payment_status
  Runs-set_payment_status i status =
      Runs-modify _
        (λ db known h.
          let g = grows db in
          record {
            ids = h.ids;
            active = h.active;
            payments =
                All-change (PaymentRefers db) (payment_has_id i) _ db.payments (λ p e r. r)
                  h.payments;
            cases = cases-Grows db _ g db.cases h.cases;
            attempts = h.attempts;
            decisions = h.decisions;
            jobs = h.jobs;
          })
        (λ db. Grows-Known db _ (grows db))
    where
      grows :
          (db : Db)
          → Grows db (record db {
            payments =
                change
                  (payment_has_id i)
                  (λ (r : Payment). record r { status = status })
                  db.payments;
          })
      grows db = record {
        customers = λ j h. h;
        payments = λ j h.
            exists-change (payment_has_id i) (payment_has_id j) _ db.payments (λ x. refl) ∙ h;
        cases = λ j p h. h;
        case_ids = λ j h. h;
        attempts = λ j h. h;
      }

  pub Runs-set_attempt_status :
      (i : ℕ) (status : AttemptState) → Runs Consistent facts (set_attempt_status i status)
  unfolding set_attempt_status
  Runs-set_attempt_status i status =
      Runs-modify _
        (λ db known h. record {
          ids = h.ids;
          active = h.active;
          payments = h.payments;
          cases = h.cases;
          attempts =
              All-change (AttemptRefers db) (attempt_has_id i) _ db.attempts (λ p e r. r)
                h.attempts;
          decisions = h.decisions;
          jobs = jobs-Grows db _ (grows db) db.jobs h.jobs;
        })
        (λ db. Grows-Known db _ (grows db))
    where
      grows :
          (db : Db)
          → Grows db (record db {
            attempts =
                change
                  (attempt_has_id i)
                  (λ (r : RecoveryAttempt). record r { status = status })
                  db.attempts;
          })
      grows db = record {
        customers = λ j h. h;
        payments = λ j h. h;
        cases = λ j p h. h;
        case_ids = λ j h. h;
        attempts = λ j h.
            exists-change (attempt_has_id i) (attempt_has_id j) _ db.attempts (λ x. refl) ∙ h;
      }

  pub Runs-set_case_status :
      (c : RecoveryCase) (status : RecoveryState)
      → Has (Fact.has_case c.id c.payment_id) facts
      → Runs Consistent facts (set_case_status c status)
  unfolding set_case_status
  Runs-set_case_status c status there =
      Runs-write (λ db. index_conflict c.payment_id c.id status db.cases) _
        (λ db free known h.
          let g = grows db in
          record {
            ids =
                Distinct-change same_case (case_has_id c.id) _ db.cases (λ x y. refl) (λ x y. refl)
                  h.ids;
            active =
                set-active status c.id c.payment_id db.cases h.ids
                  (owned-by c.id c.payment_id db.cases h.ids
                    (Has-Known (Fact.has_case c.id c.payment_id) facts db there known))
                  (λ a. index_free (is_active status) _ a free) h.active;
            payments = h.payments;
            cases = All-change (CaseRefers db) (case_has_id c.id) _ db.cases (λ p e r. r) h.cases;
            attempts = attempts-Grows db _ g db.attempts h.attempts;
            decisions = decisions-Grows db _ g db.decisions h.decisions;
            jobs = jobs-Grows db _ g db.jobs h.jobs;
          })
        (λ db. Grows-Known db _ (grows db))
    where
      grows :
          (db : Db)
          → Grows db (record db {
            cases =
                change
                  (case_has_id c.id)
                  (λ (r : RecoveryCase). record r { status = status })
                  db.cases;
          })
      grows db = record {
        customers = λ j h. h;
        payments = λ j h. h;
        cases =
            λ j p h. exists-change (case_has_id c.id) (is_case_of j p) _ db.cases (λ x. refl) ∙ h;
        case_ids =
            λ j h. exists-change (case_has_id c.id) (case_has_id j) _ db.cases (λ x. refl) ∙ h;
        attempts = λ j h. h;
      }
