-- ===== src/Worker/Paid.antt =====
-- No handler of the worker takes a payment back that has succeeded, if nobody does so meanwhile.
use razor_pay.Prelude.{ℕ, String, Option, none, some}
use razor_pay.Errors.{Error, Result, ok, err, gateway_timeout}
use razor_pay.Models.{Payment, RecoveryCase, RecoveryAttempt, RecoveryJob, JobType, Db}
use razor_pay.Gateway.{ChargeStatus}
use razor_pay.Contracts.{DecisionContext, ActionType, Decision}
use razor_pay.Session.{Env}
use razor_pay.Session.Keeps.{Keeps, keeps_rules, Keeps-begin_after, Keeps-bind, Keeps-draw_uuid}
use razor_pay.Tables.Rules.{
  Keeps-adopt_correlation, Keeps-add_attempt, Keeps-add_decision, Keeps-add_job,
  Keeps-set_case_status, Keeps-set_attempt_status, Keeps-change_job, Keeps-set_job_status,
  Keeps-create_audit_event, Keeps-new_job,
}
use razor_pay.Tables.Paid.{IsPaid, Keeps-set_succeeded}
use razor_pay.Claims.{claim_job, claim_found}
use razor_pay.Worker.Lease.{cancel_job, load_case, load_leased}
use razor_pay.Worker.Evaluate.{
  begin_evaluate, finalize_evaluate_error, act_on, record_decision, finalize_evaluate_decision,
  finish_evaluate, evaluate_with, process_evaluate_recovery,
}
use razor_pay.Worker.Execute.{
  Charge, query_begun, ensure_attempt, begin_charge, on_charged, on_charge_failed, settle,
  finalize_job, finalize_ambiguous, call_gateway, on_charge_error, charge_and_settle, resolve,
  execute_with, process_execute_charge,
}
use razor_pay.Worker.Next.{run_job, run_claimed, process_next_job}

module _ (env : Env) (i : ℕ) where
  cancel_job-Keeps : (job_id : ℕ) → Keeps (IsPaid i) (cancel_job env job_id)
  unfolding cancel_job
  cancel_job-Keeps job_id =
      search (keeps_rules, Keeps-set_job_status, Keeps-create_audit_event) depth 9

  load_case-Keeps : (case_id : ℕ) → Keeps (IsPaid i) (load_case case_id)
  unfolding load_case
  load_case-Keeps case_id = search keeps_rules depth 9

  load_leased-Keeps : (worker_id job_id : ℕ) → Keeps (IsPaid i) (load_leased worker_id job_id)
  unfolding load_leased
  load_leased-Keeps worker_id job_id = search keeps_rules depth 9

  pub begin_evaluate-Keeps : (job : RecoveryJob) → Keeps (IsPaid i) (begin_evaluate env job)
  unfolding begin_evaluate
  begin_evaluate-Keeps job = search (keeps_rules, load_case-Keeps, cancel_job-Keeps) depth 9

  ensure_attempt-Keeps :
      (job : RecoveryJob) (case : RecoveryCase) (a : Option RecoveryAttempt)
      → Keeps (IsPaid i) (ensure_attempt env job case a)
  unfolding ensure_attempt
  ensure_attempt-Keeps job case none =
      search (keeps_rules, Keeps-add_attempt, Keeps-change_job) depth 9
  ensure_attempt-Keeps job case (some a) = search keeps_rules

  query_begun-Keeps : (attempt_id : Option ℕ) → Keeps (IsPaid i) (query_begun attempt_id)
  unfolding query_begun
  query_begun-Keeps none = search keeps_rules
  query_begun-Keeps (some attempt_id) = search keeps_rules

  pub begin_charge-Keeps : (job : RecoveryJob) → Keeps (IsPaid i) (begin_charge env job)
  unfolding begin_charge
  begin_charge-Keeps job =
      search
        (keeps_rules, load_case-Keeps, cancel_job-Keeps, query_begun-Keeps, ensure_attempt-Keeps)
        depth 10

module _ (env : Env) (i : ℕ) where
  claim_found-Keeps :
      (worker_id : ℕ) (j : Option RecoveryJob) → Keeps (IsPaid i) (claim_found env worker_id j)
  unfolding claim_found
  claim_found-Keeps worker_id none = search keeps_rules
  claim_found-Keeps worker_id (some j) = search (keeps_rules, Keeps-change_job) depth 8

  pub claim_job-Keeps : (worker_id : ℕ) → Keeps (IsPaid i) (claim_job env worker_id)
  unfolding claim_job
  claim_job-Keeps worker_id = search (keeps_rules, claim_found-Keeps)

module _ (env : Env) (worker_id : ℕ) (meanwhile : Db → Db) (i : ℕ)
    (kept : (db : Db) → IsPaid i db → IsPaid i (meanwhile db)) where
  pub finalize_evaluate_error-Keeps :
      (job_id : ℕ) (m : String)
      → Keeps (IsPaid i) (finalize_evaluate_error env worker_id meanwhile job_id m)
  unfolding finalize_evaluate_error
  finalize_evaluate_error-Keeps job_id m =
      search
        (
          keeps_rules,
          Keeps-begin_after,
          kept,
          load_leased-Keeps env i,
          Keeps-change_job,
          Keeps-new_job,
          Keeps-add_job,
          Keeps-set_case_status,
          Keeps-create_audit_event,
        )
        depth 12

  act_on-Keeps :
      (a : ActionType) (case : RecoveryCase) (job : RecoveryJob)
      → Keeps (IsPaid i) (act_on env worker_id meanwhile a case job)
  unfolding act_on
  act_on-Keeps ActionType.charge case job = search (Keeps-new_job, Keeps-add_job)
  act_on-Keeps ActionType.abort case job = search Keeps-set_case_status
  act_on-Keeps ActionType.delay case job = search (Keeps-new_job, Keeps-add_job)

  record_decision-Keeps :
      (job : RecoveryJob) (case : RecoveryCase) (d : Decision)
      → Keeps (IsPaid i) (record_decision env worker_id meanwhile job case d)
  unfolding record_decision
  record_decision-Keeps job case d =
      search
        (
          keeps_rules, Keeps-add_decision, Keeps-create_audit_event, Keeps-set_job_status,
          act_on-Keeps,
        )
        depth 12

  pub finalize_evaluate_decision-Keeps :
      (job_id : ℕ) (d : Decision)
      → Keeps (IsPaid i) (finalize_evaluate_decision env worker_id meanwhile job_id d)
  unfolding finalize_evaluate_decision
  finalize_evaluate_decision-Keeps job_id d =
      search
        (
          keeps_rules,
          Keeps-begin_after,
          kept,
          load_leased-Keeps env i,
          load_case-Keeps env i,
          cancel_job-Keeps env i,
          record_decision-Keeps,
        )
        depth 12

  settle-Keeps :
      (result : ChargeStatus) (job : RecoveryJob) (a : RecoveryAttempt) (case : RecoveryCase)
      (p : Option Payment)
      → Keeps (IsPaid i) (settle env worker_id meanwhile result job a case p)
  unfolding settle on_charged on_charge_failed
  settle-Keeps ChargeStatus.succeeded job a case p =
      search
        (
          keeps_rules,
          Keeps-set_attempt_status,
          Keeps-set_succeeded i,
          Keeps-create_audit_event,
          Keeps-set_case_status,
        )
        depth 12
  settle-Keeps _ job a case p =
      search
        (
          keeps_rules, Keeps-set_attempt_status, Keeps-create_audit_event, Keeps-new_job,
          Keeps-add_job, Keeps-set_case_status,
        )
        depth 12

  pub finalize_job-Keeps :
      (job_id attempt_id : ℕ) (result : ChargeStatus)
      → Keeps (IsPaid i) (finalize_job env worker_id meanwhile job_id attempt_id result)
  unfolding finalize_job
  finalize_job-Keeps job_id attempt_id result =
      search
        (
          keeps_rules,
          Keeps-begin_after,
          kept,
          load_leased-Keeps env i,
          Keeps-set_job_status,
          settle-Keeps,
        )
        depth 16

  pub finalize_ambiguous-Keeps :
      (job_id attempt_id : ℕ)
      → Keeps (IsPaid i) (finalize_ambiguous env worker_id meanwhile job_id attempt_id)
  unfolding finalize_ambiguous
  finalize_ambiguous-Keeps job_id attempt_id =
      search
        (
          keeps_rules,
          Keeps-begin_after,
          kept,
          load_leased-Keeps env i,
          Keeps-set_job_status,
          Keeps-set_attempt_status,
        )
        depth 12

  on_charge_error-Keeps :
      (job_id attempt_id : ℕ) (e : Error)
      → Keeps (IsPaid i) (on_charge_error env worker_id meanwhile job_id attempt_id e)
  unfolding on_charge_error
  on_charge_error-Keeps job_id attempt_id gateway_timeout =
      finalize_ambiguous-Keeps job_id attempt_id
  on_charge_error-Keeps job_id attempt_id _ =
      finalize_job-Keeps job_id attempt_id ChargeStatus.failed

  -- The gateway has no part of the tables.
  call_gateway-Keeps : (c : Charge) → Keeps (IsPaid i) (call_gateway env worker_id meanwhile c)
  unfolding call_gateway
  call_gateway-Keeps c =
      Keeps-bind _ _ (Keeps-draw_uuid env)
        λ id. record { at = λ w h. record { saved = h.saved; db = h.db } }

  resolve-Keeps :
      (job_id : ℕ) (c : Charge) → Keeps (IsPaid i) (resolve env worker_id meanwhile job_id c)
  unfolding resolve charge_and_settle
  resolve-Keeps job_id c =
      search (keeps_rules, call_gateway-Keeps, finalize_job-Keeps, on_charge_error-Keeps) depth 12

  execute_with-Keeps :
      (job_id : ℕ) (c : Option Charge)
      → Keeps (IsPaid i) (execute_with env worker_id meanwhile job_id c)
  unfolding execute_with
  execute_with-Keeps job_id none = search keeps_rules
  execute_with-Keeps job_id (some c) = search (keeps_rules, resolve-Keeps)

  module _ (decide : DecisionContext → Result Decision) where
    finish_evaluate-Keeps :
        (job_id : ℕ) (r : Result Decision)
        → Keeps (IsPaid i) (finish_evaluate env worker_id meanwhile decide job_id r)
    unfolding finish_evaluate
    finish_evaluate-Keeps job_id (ok d) = search (keeps_rules, finalize_evaluate_decision-Keeps)
    finish_evaluate-Keeps job_id (err e) = search (keeps_rules, finalize_evaluate_error-Keeps)

    evaluate_with-Keeps :
        (job_id : ℕ) (c : Option DecisionContext)
        → Keeps (IsPaid i) (evaluate_with env worker_id meanwhile decide job_id c)
    unfolding evaluate_with
    evaluate_with-Keeps job_id none = search keeps_rules
    evaluate_with-Keeps job_id (some c) = finish_evaluate-Keeps job_id (decide c)

    run_job-Keeps :
        (t : JobType) (job : RecoveryJob)
        → Keeps (IsPaid i) (run_job env worker_id meanwhile decide t job)
    unfolding run_job process_evaluate_recovery process_execute_charge
    run_job-Keeps JobType.evaluate_recovery job =
        search (keeps_rules, begin_evaluate-Keeps env i, evaluate_with-Keeps)
    run_job-Keeps JobType.execute_charge job =
        search (keeps_rules, begin_charge-Keeps env i, execute_with-Keeps)
    run_job-Keeps (JobType.unknown t) job = search keeps_rules

    run_claimed-Keeps :
        (j : Option RecoveryJob) → Keeps (IsPaid i) (run_claimed env worker_id meanwhile decide j)
    unfolding run_claimed
    run_claimed-Keeps none = search keeps_rules
    run_claimed-Keeps (some j) = search (keeps_rules, Keeps-adopt_correlation, run_job-Keeps)

    -- Whatever the job, the provider and the gateway answer, and however the handling ends, a payment
    -- that has succeeded is there and has succeeded afterwards, in the working copy and in the
    -- committed tables, if what others commit meanwhile keeps it so.
    pub process_next_job-Keeps : Keeps (IsPaid i) (process_next_job env worker_id meanwhile decide)
    unfolding process_next_job
    process_next_job-Keeps =
        search (keeps_rules, Keeps-begin_after, claim_job-Keeps env i, run_claimed-Keeps) depth 9
