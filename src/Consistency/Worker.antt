-- ===== src/Consistency/Worker.antt =====
-- The transactions of the worker keep the tables consistent.
use razor_pay.Prelude.{ℕ, String, Option, none, some, List, [], ◌∷◌, first}
use razor_pay.Errors.{attribute_error}
use razor_pay.States.{JobState}
use razor_pay.Models.{Payment, RecoveryCase, RecoveryAttempt, RecoveryJob, Db}
use razor_pay.Contracts.{Decision, ActionType}
use razor_pay.Gateway.{ChargeStatus}
use razor_pay.Session.{Env, Action, or_raise, pure, ◌>>=◌}
use razor_pay.Session.Keeps.{Keeps-begin_after}
use razor_pay.Tables.{query_payment, query_case, case_has_id}
use razor_pay.Claims.{claimed, claim_found, claim_job}
use razor_pay.Worker.Lease.{load_case, load_leased, cancel_job}
use razor_pay.Worker.Evaluate.{
  begin_evaluate, finalize_evaluate_error, act_on, record_decision, finalize_evaluate_decision,
}
use razor_pay.Worker.Execute.{
  query_begun, ensure_attempt, begin_charge, on_charged, on_charge_failed, settle, finalize_job,
  finalize_ambiguous,
}
use razor_pay.Consistency.{Consistent, Fact}
use razor_pay.Consistency.Runs.{
  Runs, Runs-bind, Runs-gets, Runs-or_raise, Runs-pure, Runs-look, Runs-assoc, Runs-given,
  Runs-missing, Runs-pure_bind, Runs-catch, Runs-Keeps, Has-here,
}
use razor_pay.Consistency.Runs.Rules.{Runs-draw_uuid, Runs-rollback-raise, runs_rules}
use razor_pay.Consistency.Writes.{Runs-change_job, Runs-add_decision, Runs-set_job_status}
use razor_pay.Consistency.Inserts.{Runs-add_attempt}
use razor_pay.Consistency.Queries.{Runs-again, fact_of, found_case, Runs-find_case, services_rules}

module _ {B : Type 0} {facts : List Fact} where
  -- The case and the payment of a job.
  Runs-load_case :
      (i : ℕ) (rest : RecoveryCase × Payment → Action B)
      → ((c : RecoveryCase) (p : Payment) → Runs Consistent (fact_of c ∷ facts) (rest (c, p)))
      → Runs Consistent facts (load_case i >>= rest)
  unfolding load_case
  Runs-load_case i rest k =
      Runs-assoc (query_case i) (λ o. or_raise o attribute_error >>= of_case) rest
        (Runs-look fact_of (λ w. first (case_has_id i) w.db.cases)
          (λ o. (or_raise o attribute_error >>= of_case) >>= rest)
          (λ w c h there. found_case (case_has_id i) c w.db there)
          (Runs-assoc (or_raise none attribute_error) of_case rest
            (Runs-missing attribute_error (λ c. of_case c >>= rest)))
          (λ c.
            Runs-assoc (or_raise (some c) attribute_error) of_case rest
              (Runs-given c attribute_error (λ d. of_case d >>= rest) (found c))))
    where
      pair : RecoveryCase → Option Payment → Action (RecoveryCase × Payment)
      pair c p = or_raise p attribute_error >>= λ q. pure (c, q)

      of_case : RecoveryCase → Action (RecoveryCase × Payment)
      of_case c = query_payment c.payment_id >>= pair c

      found : (c : RecoveryCase) → Runs Consistent (fact_of c ∷ facts) (of_case c >>= rest)
      found c = Runs-assoc (query_payment c.payment_id) (pair c) rest (
          Runs-bind _ _ (Runs-gets _) (λ p.
            Runs-assoc (or_raise p attribute_error) (λ q. pure (c, q)) rest
              (Runs-bind _ _ (Runs-or_raise p attribute_error)
                (λ q. Runs-pure_bind (c, q) rest (k c q)))))

module _ {facts : List Fact} where
  load_leased-Runs : (worker_id job_id : ℕ) → Runs Consistent facts (load_leased worker_id job_id)
  unfolding load_leased
  load_leased-Runs worker_id job_id = search runs_rules depth 9

  claim_found-Runs :
      (env : Env) (worker_id : ℕ) (j : Option RecoveryJob)
      → Runs Consistent facts (claim_found env worker_id j)
  unfolding claim_found
  claim_found-Runs env worker_id none = search runs_rules
  claim_found-Runs env worker_id (some j) =
      Runs-bind _ _ (Runs-change_job j.id (claimed env worker_id) (λ db known k r. r))
        (λ _. search runs_rules)

  pub claim_job-Runs : (env : Env) (worker_id : ℕ) → Runs Consistent facts (claim_job env worker_id)
  unfolding claim_job
  claim_job-Runs env worker_id = search (runs_rules, claim_found-Runs)

  cancel_job-Runs : (env : Env) (job_id : ℕ) → Runs Consistent facts (cancel_job env job_id)
  unfolding cancel_job
  cancel_job-Runs env job_id = search services_rules depth 9

module _ (env : Env) where
  pub begin_evaluate-Runs : (job : RecoveryJob) → Runs Consistent [] (begin_evaluate env job)
  unfolding begin_evaluate
  begin_evaluate-Runs job =
      Runs-catch _ _
        (Runs-load_case job.recovery_case_id _
          (λ c p. search (services_rules, cancel_job-Runs) depth 9))
        (λ e. Runs-rollback-raise _)

  query_begun-Runs : {facts : List Fact} (o : Option ℕ) → Runs Consistent facts (query_begun o)
  unfolding query_begun
  query_begun-Runs none = Runs-pure _
  query_begun-Runs (some id) = Runs-gets _

  ensure_attempt-Runs :
      (job : RecoveryJob) (case : RecoveryCase) (begun : Option RecoveryAttempt)
      → Runs Consistent (fact_of case ∷ []) (ensure_attempt env job case begun)
  unfolding ensure_attempt
  ensure_attempt-Runs job case (some a) = Runs-pure a
  ensure_attempt-Runs job case none = Runs-bind _ _ (Runs-draw_uuid env) λ id.
      Runs-add_attempt _ case.payment_id _ (Has-here (fact_of case) []) (
        Runs-bind _ _ (Runs-change_job job.id _ (λ db known j r. (r.0, known.0)))
          (λ _. Runs-pure _))

  pub begin_charge-Runs : (job : RecoveryJob) → Runs Consistent [] (begin_charge env job)
  unfolding begin_charge
  begin_charge-Runs job =
      Runs-catch _ _
        (Runs-load_case job.recovery_case_id _ (λ c p.
          search (services_rules, cancel_job-Runs, query_begun-Runs, ensure_attempt-Runs) depth 10))
        (λ e. Runs-rollback-raise _)

module _ (env : Env) (worker_id : ℕ) (meanwhile : Db → Db)
    (kept : (db : Db) → Consistent db → Consistent (meanwhile db)) where
  pub finalize_evaluate_error-Runs :
      (job_id : ℕ) (m : String)
      → Runs Consistent [] (finalize_evaluate_error env worker_id meanwhile job_id m)
  unfolding finalize_evaluate_error
  finalize_evaluate_error-Runs job_id m =
      Runs-catch _ _
        (Runs-bind _ _ (Runs-Keeps _ (Keeps-begin_after meanwhile kept)) λ _.
          Runs-bind _ _ (load_leased-Runs worker_id job_id) λ job.
            Runs-bind _ _ (Runs-change_job job.id _ (λ db known j r. r)) λ _.
              Runs-find_case job.recovery_case_id _ _
                λ case. search (services_rules, Runs-again) depth 9)
        (λ e. Runs-rollback-raise _)

  act_on-Runs :
      (a : ActionType) (case : RecoveryCase) (job : RecoveryJob)
      → Runs Consistent (fact_of case ∷ []) (act_on env worker_id meanwhile a case job)
  unfolding act_on
  act_on-Runs ActionType.charge case job = search (services_rules, Runs-again)
  act_on-Runs ActionType.abort case job = search services_rules
  act_on-Runs ActionType.delay case job = search (services_rules, Runs-again)

  record_decision-Runs :
      (job : RecoveryJob) (case : RecoveryCase) (d : Decision)
      → Runs Consistent (fact_of case ∷ []) (record_decision env worker_id meanwhile job case d)
  unfolding record_decision
  record_decision-Runs job case d =
      Runs-bind _ _ (Runs-add_decision _ case.payment_id (Has-here (fact_of case) []))
        (λ _. search (services_rules, act_on-Runs) depth 9)

  pub finalize_evaluate_decision-Runs :
      (job_id : ℕ) (d : Decision)
      → Runs Consistent [] (finalize_evaluate_decision env worker_id meanwhile job_id d)
  unfolding finalize_evaluate_decision
  finalize_evaluate_decision-Runs job_id d =
      Runs-catch _ _
        (Runs-bind _ _ (Runs-Keeps _ (Keeps-begin_after meanwhile kept)) λ _.
          Runs-bind _ _ (load_leased-Runs worker_id job_id) λ job.
            Runs-load_case job.recovery_case_id _
              λ c p. search (services_rules, cancel_job-Runs, record_decision-Runs) depth 9)
        (λ e. Runs-rollback-raise _)

  settle-Runs :
      (result : ChargeStatus) (job : RecoveryJob) (a : RecoveryAttempt) (case : RecoveryCase)
      (p : Option Payment)
      → Runs Consistent (fact_of case ∷ []) (settle env worker_id meanwhile result job a case p)
  unfolding settle on_charged on_charge_failed
  settle-Runs ChargeStatus.succeeded job a case p = search services_rules depth 12
  settle-Runs _ job a case p = search (services_rules, Runs-again) depth 12

  pub finalize_job-Runs :
      (job_id attempt_id : ℕ) (result : ChargeStatus)
      → Runs Consistent [] (finalize_job env worker_id meanwhile job_id attempt_id result)
  unfolding finalize_job
  finalize_job-Runs job_id attempt_id result =
      Runs-catch _ _
        (Runs-bind _ _ (Runs-Keeps _ (Keeps-begin_after meanwhile kept)) λ _.
          Runs-bind _ _ (load_leased-Runs worker_id job_id) λ job.
            Runs-bind _ _ (Runs-set_job_status job.id JobState.succeeded) λ _.
              Runs-bind _ _ (Runs-gets _) λ o.
                Runs-bind _ _ (Runs-or_raise o attribute_error) λ attempt.
                  Runs-find_case attempt.recovery_case_id _ _
                    λ case. search (services_rules, settle-Runs) depth 9)
        (λ e. Runs-rollback-raise _)

  pub finalize_ambiguous-Runs :
      (job_id attempt_id : ℕ)
      → Runs Consistent [] (finalize_ambiguous env worker_id meanwhile job_id attempt_id)
  unfolding finalize_ambiguous
  finalize_ambiguous-Runs job_id attempt_id =
      Runs-catch _ _
        (Runs-bind _ _ (Runs-Keeps _ (Keeps-begin_after meanwhile kept)) λ _.
          Runs-bind _ _ (load_leased-Runs worker_id job_id) λ job. search services_rules depth 9)
        (λ e. Runs-rollback-raise _)
