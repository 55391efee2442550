-- ===== src/Worker/Evaluate.antt =====
-- `_process_evaluate_recovery`, `_finalize_evaluate_error` and `_finalize_evaluate_decision` of
-- app/workers/executor/execution_service.py.
use razor_pay.Prelude.{
  ℕ, ◌+◌, pos, floor_div_sub, String, Bool, true, Option, none, some, ltb, if◌then◌else◌,
}
use razor_pay.Errors.{Error, Result, ok, err, attribute_error, validation_error, ai_decision}
use razor_pay.Json.{Json, Fields}
use razor_pay.States.{RecoveryState, JobState, is_succeeded}
use razor_pay.Models.{RecoveryCase, RecoveryJob, JobType, Db}
use razor_pay.Session.{
  Env, Action, pure, or_raise, commit, rollback_on_error, begin_after, ◌>>=◌, ◌>>◌,
}
use razor_pay.Tables.{
  query_case, add_decision, new_job, minutes, set_case_status, set_job_status, change_job,
}
use razor_pay.Contracts.{DecisionContext, ActionType, Decision, action_text}
use razor_pay.Worker.Lease.{job_event, cancel_job, load_case, load_leased}

-- `timedelta(days=1)`, in microseconds
abbrev pub day : ℕ
day = 86400000000

-- `str(e)`, where the model keeps the text
abbrev pub message : Error → String
message (ai_decision m) = m
message e = ""

module _ (env : Env) where
  -- `_process_evaluate_recovery` up to its commit: the context of the decision, if one is needed.
  unfoldable pub begin_evaluate : RecoveryJob → Action (Option DecisionContext)
  begin_evaluate job = rollback_on_error (do
    (case, payment) ← load_case job.recovery_case_id
    if is_succeeded payment.status then (cancel_job env job.id >> pure none) else (do
      failure_reason ← or_raise case.failure_reason validation_error
      commit
      pure (
          some (record {
            failure_reason = failure_reason;
            attempt_count = job.attempt_count;
            days_since_failure = floor_div_sub env.now case.started_at day;
            amount = case.amount_at_risk;
            currency = case.currency;
          }))))

-- The worker, and what other processes commit while it waits for the network.
module _ (env : Env) (worker_id : ℕ) (meanwhile : Db → Db) where
  -- `_finalize_evaluate_error`
  unfoldable pub finalize_evaluate_error : ℕ → String → Action Unit
  finalize_evaluate_error job_id error_msg = rollback_on_error (do
    begin_after meanwhile
    job ← load_leased worker_id job_id
    change_job job.id (λ j. record j { status = JobState.failed; last_error = some error_msg })
    c ← query_case job.recovery_case_id
    case ← or_raise c attribute_error
    if ltb job.attempt_count job.max_attempts
        then new_job env case.id JobType.evaluate_recovery (env.now + minutes 15) job.max_attempts
            job.attempt_count
        else (set_case_status case RecoveryState.stopped
            >> job_event env job.id "AI_EVALUATION_FAILED"
                (Json.obj (Fields.field "error" (Json.str error_msg) Fields.end)))
    commit)

  -- What the decision asks for: a charge, the end of the case, or another evaluation.
  unfoldable pub act_on : ActionType → RecoveryCase → RecoveryJob → Action Unit
  act_on ActionType.charge case job =
      new_job env case.id JobType.execute_charge env.now job.max_attempts job.attempt_count
  act_on ActionType.abort case job = set_case_status case RecoveryState.stopped
  act_on ActionType.delay case job =
      new_job env case.id JobType.evaluate_recovery (env.now + day) job.max_attempts
        job.attempt_count

  -- The decision is recorded and acted on.
  unfoldable pub record_decision : RecoveryJob → RecoveryCase → Decision → Action Unit
  record_decision job case decision = do
    add_decision (record {
      recovery_case_id = case.id;
      decision_source = "AI";
      action_type = action_text decision.action;
      confidence = decision.confidence;
      reason = decision.reason;
      policy_result = "APPROVED";
    })
    job_event env job.id "AI_EVALUATION_COMPLETED" (
        Json.obj (
          Fields.field "action" (Json.str (action_text decision.action))
            (Fields.field "confidence" (Json.num (pos decision.confidence)) Fields.end)))
    set_job_status job.id JobState.succeeded
    act_on decision.action case job
    commit

  -- `_finalize_evaluate_decision`
  unfoldable pub finalize_evaluate_decision : ℕ → Decision → Action Unit
  finalize_evaluate_decision job_id decision = rollback_on_error (do
    begin_after meanwhile
    job ← load_leased worker_id job_id
    (case, payment) ← load_case job.recovery_case_id
    if is_succeeded payment.status
        then cancel_job env job.id
        else record_decision job case decision)

  -- `_process_evaluate_recovery`, with the provider's `decide`.
  module _ (decide : DecisionContext → Result Decision) where
    unfoldable pub finish_evaluate : ℕ → Result Decision → Action Bool
    finish_evaluate job_id (ok decision) = finalize_evaluate_decision job_id decision >> pure true
    finish_evaluate job_id (err e) = finalize_evaluate_error job_id (message e) >> pure true

    unfoldable pub evaluate_with : ℕ → Option DecisionContext → Action Bool
    evaluate_with job_id none = pure true
    evaluate_with job_id (some context) = finish_evaluate job_id (decide context)

    unfoldable pub process_evaluate_recovery : RecoveryJob → Action Bool
    process_evaluate_recovery job = do
      context ← begin_evaluate env job
      evaluate_with job.id context
