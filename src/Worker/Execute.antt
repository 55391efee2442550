-- ===== src/Worker/Execute.antt =====
-- `_process_execute_charge`, `_finalize_job` and `_finalize_ambiguous` of
-- app/workers/executor/execution_service.py.
use Prim.Native.String.{◌++◌ as str_append}
use razor_pay.Prelude.{ℕ, ◌+◌, ℤ, String, Bool, true, false, Option, none, some, ltb, if◌then◌else◌}
use razor_pay.Errors.{Error, attribute_error, gateway_timeout}
use razor_pay.States.{
  PaymentState, RecoveryState, AttemptState, JobState, is_succeeded, is_unresolved,
}
use razor_pay.Models.{Payment, RecoveryCase, RecoveryAttempt, RecoveryJob, JobType, EntityId, Db}
use razor_pay.Gateway
use razor_pay.Gateway.{ChargeStatus, Receipt}
use razor_pay.Session.{
  Env, Action, pure, gets, or_raise, catch, flush, commit, rollback_on_error, draw_uuid,
  begin_after, ◌>>=◌, ◌>>◌,
}
use razor_pay.Audit.{create_audit_event}
use razor_pay.Tables.{
  query_payment, query_case, query_attempt, add_attempt, new_job, set_payment_status,
  set_case_status, set_attempt_status, set_job_status, change_job,
}
use razor_pay.Prelude.Decimal.{decimal}
use razor_pay.Worker.Lease.{reason, status, job_event, cancel_job, load_case, load_leased}

-- What `_process_execute_charge` keeps across the network boundary.
pub record Charge : Type 0 where
  pub idem_key : String
  pub pay_amount : ℤ
  pub pay_currency : String
  pub pay_cust : ℕ
  pub is_ambiguous : Bool
  pub attempt_id : ℕ

-- f"{payment.external_id}_attempt_{attempt.attempt_number}"
unfoldable pub idem_key_of : String → ℕ → String
idem_key_of external_id number = str_append external_id (str_append "_attempt_" (decimal number))

-- The attempt that a job has begun, if any.
unfoldable pub query_begun : Option ℕ → Action (Option RecoveryAttempt)
query_begun none = pure none
query_begun (some attempt_id) = query_attempt attempt_id

module _ (env : Env) where
  -- A job without an attempt begins one, under the next number.
  unfoldable pub ensure_attempt :
      RecoveryJob → RecoveryCase → Option RecoveryAttempt → Action RecoveryAttempt
  ensure_attempt job case (some attempt) = pure attempt
  ensure_attempt job case none = do
    id ← draw_uuid env
    let attempt : RecoveryAttempt = record {
      id = id;
      recovery_case_id = case.id;
      attempt_number = job.attempt_count + 1;
      action_type = "CHARGE";
      status = AttemptState.running;
    }
    add_attempt attempt
    flush
    change_job job.id
        (λ j. record j { attempt_id = some id; attempt_count = attempt.attempt_number })
    pure attempt

  abbrev pub plan : Payment → RecoveryAttempt → Charge
  plan payment attempt = record {
    idem_key = idem_key_of payment.external_id attempt.attempt_number;
    pay_amount = payment.amount;
    pay_currency = payment.currency;
    pay_cust = payment.customer_id;
    is_ambiguous = is_unresolved attempt.status;
    attempt_id = attempt.id;
  }

  -- `_process_execute_charge` up to its commit.
  unfoldable pub begin_charge : RecoveryJob → Action (Option Charge)
  begin_charge job = rollback_on_error (do
    (case, payment) ← load_case job.recovery_case_id
    if is_succeeded payment.status then (cancel_job env job.id >> pure none) else (do
      begun ← query_begun job.attempt_id
      attempt ← ensure_attempt job case begun
      commit
      pure (some (plan payment attempt))))

module _ (env : Env) (worker_id : ℕ) (meanwhile : Db → Db) where
  -- A charge that went through ends the case.
  unfoldable pub on_charged :
      RecoveryJob → RecoveryAttempt → RecoveryCase → Option Payment → Action Unit
  on_charged job attempt case p = do
    set_attempt_status attempt.id AttemptState.succeeded
    payment ← or_raise p attribute_error
    set_payment_status payment.id PaymentState.succeeded
    job_event env job.id "CHARGE_EXECUTION_COMPLETED" (status "succeeded")
    set_case_status case RecoveryState.recovered

  -- A charge that failed leads to another evaluation, or ends the case when no attempt is left.
  unfoldable pub on_charge_failed : RecoveryJob → RecoveryAttempt → RecoveryCase → Action Unit
  on_charge_failed job attempt case = do
    set_attempt_status attempt.id AttemptState.failed
    job_event env job.id "CHARGE_EXECUTION_FAILED" (status "failed")
    if ltb job.attempt_count job.max_attempts
        then new_job env case.id JobType.evaluate_recovery env.now job.max_attempts
            job.attempt_count
        else (set_case_status case RecoveryState.stopped
            >> create_audit_event env "RECOVERY_CASE" (EntityId.uuid case.id) "CHARGE_EXHAUSTED"
                "WORKER" (reason "max_attempts_reached"))

  unfoldable pub settle :
      ChargeStatus → RecoveryJob → RecoveryAttempt → RecoveryCase → Option Payment → Action Unit
  settle ChargeStatus.succeeded job attempt case payment = on_charged job attempt case payment
  settle _ job attempt case payment = on_charge_failed job attempt case

  -- `_finalize_job`
  unfoldable pub finalize_job : ℕ → ℕ → ChargeStatus → Action Unit
  finalize_job job_id attempt_id result = rollback_on_error (do
    begin_after meanwhile
    job ← load_leased worker_id job_id
    set_job_status job.id JobState.succeeded
    a ← query_attempt attempt_id
    attempt ← or_raise a attribute_error
    c ← query_case attempt.recovery_case_id
    case ← or_raise c attribute_error
    payment ← query_payment case.payment_id
    settle result job attempt case payment
    commit)

  -- `_finalize_ambiguous`
  unfoldable pub finalize_ambiguous : ℕ → ℕ → Action Unit
  finalize_ambiguous job_id attempt_id = rollback_on_error (do
    begin_after meanwhile
    job ← load_leased worker_id job_id
    set_job_status job.id JobState.pending
    a ← query_attempt attempt_id
    attempt ← or_raise a attribute_error
    set_attempt_status attempt.id AttemptState.ambiguous
    commit)

  -- The call of the gateway.
  unfoldable pub call_gateway : Charge → Action Receipt
  call_gateway c = do
    id ← draw_uuid env
    λ w.
        let (r, g) =
          Gateway.charge id c.idem_key c.pay_amount c.pay_currency c.pay_cust w.gateway in
        (r, record w { gateway = g })

  -- The handlers around the charge.
  unfoldable pub on_charge_error : ℕ → ℕ → Error → Action Unit
  on_charge_error job_id attempt_id gateway_timeout = finalize_ambiguous job_id attempt_id
  on_charge_error job_id attempt_id e = finalize_job job_id attempt_id ChargeStatus.failed

  unfoldable pub charge_and_settle : ℕ → Charge → Action Unit
  charge_and_settle job_id c =
      catch (do res ← call_gateway c; finalize_job job_id c.attempt_id res.status)
        (on_charge_error job_id c.attempt_id)

  abbrev pub is_not_found : ChargeStatus → Bool
  is_not_found ChargeStatus.not_found = true
  is_not_found _ = false

  -- An attempt without a known outcome is looked up first, and charged if the gateway has not
  -- heard of it.
  unfoldable pub resolve : ℕ → Charge → Action Unit
  resolve job_id c =
      if c.is_ambiguous
      then (do
        recon ← gets (λ w. Gateway.verify_payment_status c.idem_key w.gateway)
        if is_not_found recon.status
            then charge_and_settle job_id c
            else finalize_job job_id c.attempt_id recon.status)
      else charge_and_settle job_id c

  unfoldable pub execute_with : ℕ → Option Charge → Action Bool
  execute_with job_id none = pure true
  execute_with job_id (some c) = resolve job_id c >> pure true

  -- `_process_execute_charge`
  unfoldable pub process_execute_charge : RecoveryJob → Action Bool
  process_execute_charge job = do c ← begin_charge env job; execute_with job.id c
