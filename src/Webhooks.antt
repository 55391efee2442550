-- ===== src/Webhooks.antt =====
-- app/domain/payments: the financial validation, the idempotency record of
-- app/persistence/repositories/webhook_repo.py, and `WebhookService.process_webhook`.
pub mod Paid
pub mod Budget
pub mod Consistency
pub mod Atomic
pub mod Replay
pub mod Effect
pub mod Failure
pub mod Success
use Prim.Native.String.{◌++◌ as str_append}
use text.Mathlib.Text.{◌==◌ as str_eq}
use razor_pay.Prelude.{
  ℕ, ◌+◌, ℤ, is_negative, String, Bool, true, not, ◌||◌, ◌&&◌, Option, none, some, List, [], ◌∷◌,
  ◌==◌, first, select, if◌then◌else◌,
}
use razor_pay.Errors.{
  Error, integrity, duplicate_event, immutable_attribute, invalid_financial_payload,
  idempotency_key, active_case,
}
use razor_pay.Json.{Json, Fields}
use razor_pay.States.{PaymentState, RecoveryState, is_terminal, is_active}
use razor_pay.Models.{Amount, is_amount, Customer, Payment, RecoveryCase, JobType, EntityId}
use razor_pay.Session.{
  Env, Action, pure, raise, gets, catch, flush, commit, rollback, draw_uuid, ◌>>=◌, ◌>>◌,
}
use razor_pay.Audit.{create_audit_event}
use razor_pay.Tables.{
  query_customer, new_job, minutes, cancel_pending_jobs, add_customer, add_payment, add_case,
  add_key, set_payment_status, set_case_status,
}

-- app/api/schemas/webhooks.py
pub record WebhookEvent : Type 0 where
  pub event_id : String
  pub type : String
  pub payment_id : String
  pub customer_id : ℕ
  pub amount : Amount
  pub currency : String
  pub failure_reason : Option String

-- `x in ("USD", "EUR", "GBP", "INR")`
unfoldable pub is_supported : String → Bool
is_supported c = str_eq c "USD" || (str_eq c "EUR" || (str_eq c "GBP" || str_eq c "INR"))

-- a JSON object of texts, and of one amount
abbrev pub text_field : String → String → Fields → Fields
text_field k v = Fields.field k (Json.str v)

module _ (env : Env) where
  unfoldable pub validate_financials : Amount → String → Action Unit
  validate_financials amount currency =
      if is_negative amount.units
      then raise invalid_financial_payload
      else if not (is_supported (env.upper currency))
      then raise invalid_financial_payload
      else pure tt

  -- The handler of the flush in `check_idempotency`.
  abbrev pub on_key_error : Error → Action Unit
  on_key_error (integrity idempotency_key) = rollback >> raise duplicate_event
  on_key_error e = raise e

  pub check_idempotency : String → Action Unit
  check_idempotency event_id = do
    add_key (record { idempotency_key = event_id; request_hash = "N/A"; response_status = 200 })
    catch flush on_key_error

  -- The attributes of a known payment that an event may not change.
  unfoldable pub is_mismatch : Payment → WebhookEvent → Bool
  is_mismatch p event =
      not (is_amount event.amount p.amount)
      || (not (str_eq (env.upper p.currency) (env.upper event.currency))
          || not (p.customer_id == event.customer_id))

  abbrev pub event_payload : WebhookEvent → Json
  event_payload event =
      Json.obj (text_field "event_id" event.event_id (text_field "type" event.type Fields.end))

  -- The customer of a new payment, if it is not known either.
  pub ensure_customer : WebhookEvent → Option Customer → Action Unit
  ensure_customer event (some c) = pure tt
  ensure_customer event none = do
    add_customer (record {
      id = event.customer_id;
      external_id = str_append "ext_" (env.uuid_text event.customer_id);
      email = "unknown@test.com";
      name = "Unknown";
    })
    flush

  abbrev pub event_status : WebhookEvent → PaymentState
  event_status event =
      if str_eq event.type "payment.failed" then PaymentState.failed else PaymentState.succeeded

  -- The payment of an event that names an unknown one.
  pub create_payment : WebhookEvent → Action Payment
  create_payment event = do
    customer ← query_customer event.customer_id
    ensure_customer event customer
    id ← draw_uuid env
    let payment : Payment = record {
      id = id;
      external_id = event.payment_id;
      customer_id = event.customer_id;
      amount = env.round event.amount;
      currency = env.upper event.currency;
      status = event_status event;
    }
    add_payment payment
    flush
    pure payment

  abbrev pub is_active_of : ℕ → RecoveryCase → Bool
  is_active_of payment_id c = c.payment_id == payment_id && is_active c.status

  -- The case and the job of a failure, unless a case is active.
  pub open_case : WebhookEvent → Payment → Option RecoveryCase → Action Unit
  open_case event payment (some c) = pure tt
  open_case event payment none = do
    id ← draw_uuid env
    add_case (record {
      id = id;
      payment_id = payment.id;
      customer_id = event.customer_id;
      amount_at_risk = env.round event.amount;
      currency = env.upper event.currency;
      status = RecoveryState.opened;
      failure_reason = event.failure_reason;
      max_attempts = 3;
      started_at = env.now;
      created_at = env.now;
    })
    flush
    new_job env id JobType.evaluate_recovery (env.now + minutes 5) 3 0

  pub on_failed : WebhookEvent → Payment → Action Unit
  on_failed event payment = do
    set_payment_status payment.id PaymentState.failed
    active ← gets (λ w. first (is_active_of payment.id) w.db.cases)
    open_case event payment active

  -- The loop over the active cases of a payment that succeeded.
  pub close_cases : List RecoveryCase → Action Unit
  close_cases [] = pure tt
  close_cases (c ∷ cases) = do
    set_case_status c RecoveryState.recovered
    cancel_pending_jobs c.id
    close_cases cases

  pub on_succeeded : Payment → Action Unit
  on_succeeded payment = do
    set_payment_status payment.id PaymentState.succeeded
    active_cases ← gets (λ w. select (is_active_of payment.id) w.db.cases)
    close_cases active_cases

  pub apply_event : WebhookEvent → Payment → Action Unit
  apply_event event payment =
      if str_eq event.type "payment.failed"
      then on_failed event payment
      else if str_eq event.type "payment.succeeded"
      then on_succeeded payment
      else pure tt

  -- From the effect of the event to the commit.
  pub record_event : WebhookEvent → Payment → Action Bool
  record_event event payment = do
    apply_event event payment
    create_audit_event env "PAYMENT" (EntityId.uuid payment.id)
        (str_append "WEBHOOK_PROCESSED_" (env.upper event.type)) "WEBHOOK"
        (Json.obj (
          text_field "event_id" event.event_id
            (Fields.field "amount" (Json.num event.amount.units) Fields.end)))
    commit
    pure true

  -- A terminal payment stays as it is, and the event is acknowledged.
  pub acknowledge : WebhookEvent → Payment → Action Bool
  acknowledge event payment = do
    create_audit_event env "PAYMENT" (EntityId.uuid payment.id)
        "WEBHOOK_TERMINAL_DOMINANCE_ENFORCED" "WEBHOOK" (event_payload event)
    commit
    pure true

  pub dispatch_event : WebhookEvent → Option Payment → Action Bool
  dispatch_event event (some payment) =
      if is_mismatch payment event
      then raise immutable_attribute
      else if is_terminal payment.status
      then acknowledge event payment
      else record_event event payment
  dispatch_event event none = do payment ← create_payment event; record_event event payment

  abbrev pub is_of_event : WebhookEvent → Payment → Bool
  is_of_event event p = str_eq p.external_id event.payment_id

  -- The body of the `try`.
  pub ingest : WebhookEvent → Action Bool
  ingest event = do
    check_idempotency event.event_id
    payment ← gets (λ w. first (is_of_event event) w.db.payments)
    dispatch_event event payment

  -- `except DuplicateEventError`
  pub on_duplicate : WebhookEvent → Action Bool
  on_duplicate event = do
    rollback
    catch
        (do
          create_audit_event env "SYSTEM" (EntityId.text event.event_id)
              "WEBHOOK_DUPLICATE_REJECTED" "WEBHOOK" (event_payload event)
          commit)
        (λ e. rollback)
    pure true

  -- The handlers of `process_webhook`.
  pub on_error : WebhookEvent → Error → Action Bool
  on_error event duplicate_event = on_duplicate event
  on_error event (integrity active_case) = rollback >> pure true
  on_error event e = rollback >> raise e

  unfoldable pub process_webhook : WebhookEvent → Action Bool
  process_webhook event = do
    validate_financials event.amount event.currency
    catch (ingest event) (on_error event)
