-- ===== src/Webhooks/Budget.antt =====
-- Webhooks keep what respects the writes to jobs and attempts.
use razor_pay.Prelude.{Option, none, some, List, [], ◌∷◌}
use razor_pay.Errors.{Error, integrity, duplicate_event, idempotency_key, active_case}
use razor_pay.States.{RecoveryState}
use razor_pay.Models.{Customer, Payment, RecoveryCase, RecoveryJob, RecoveryAttempt}
use razor_pay.Session.{Env}
use razor_pay.Session.Keeps.{Keeps, keeps_rules, Keeps-bind}
use razor_pay.Tables.Rules.{
  Keeps-add_customer, Keeps-add_payment, Keeps-add_case, Keeps-add_key, Keeps-set_payment_status,
  Keeps-set_case_status, Keeps-cancel_pending_jobs, Keeps-create_audit_event,
}
use razor_pay.Webhooks.{
  WebhookEvent, validate_financials, check_idempotency, ensure_customer, create_payment, open_case,
  on_failed, close_cases, on_succeeded, apply_event, record_event, acknowledge, dispatch_event,
  ingest, on_duplicate, on_error, process_webhook, on_key_error,
}
use razor_pay.Budget.{Respects}
use razor_pay.Budget.Services.{Ok, first_job-Keeps, job_status-Keeps}

module _ (T : List RecoveryJob → List RecoveryAttempt → Type 0) (laws : Respects T)
    (env : Env) where
  ensure_customer-Ok :
      (event : WebhookEvent) (c : Option Customer) → Keeps (Ok T laws) (ensure_customer env event c)
  unfolding ensure_customer
  ensure_customer-Ok event none = search (keeps_rules, Keeps-add_customer)
  ensure_customer-Ok event (some c) = search keeps_rules

  create_payment-Ok : (event : WebhookEvent) → Keeps (Ok T laws) (create_payment env event)
  unfolding create_payment
  create_payment-Ok event = search (keeps_rules, ensure_customer-Ok, Keeps-add_payment) depth 12

  open_case-Ok :
      (event : WebhookEvent) (p : Payment) (c : Option RecoveryCase)
      → Keeps (Ok T laws) (open_case env event p c)
  unfolding open_case
  open_case-Ok event p none = search (keeps_rules, Keeps-add_case, first_job-Keeps T laws env)
  open_case-Ok event p (some c) = search keeps_rules

  close_cases-Ok : (cases : List RecoveryCase) → Keeps (Ok T laws) (close_cases env cases)
  unfolding close_cases
  close_cases-Ok [] = search keeps_rules
  close_cases-Ok (c ∷ cases) =
      Keeps-bind _ _ (Keeps-set_case_status c RecoveryState.recovered (λ db free h. h)) λ _.
        Keeps-bind _ _ (search (Keeps-cancel_pending_jobs, job_status-Keeps T laws))
          (λ _. close_cases-Ok cases)

  record_event-Ok :
      (event : WebhookEvent) (p : Payment) → Keeps (Ok T laws) (record_event env event p)
  unfolding record_event apply_event on_failed on_succeeded
  record_event-Ok event p =
      search
        (
          keeps_rules, open_case-Ok, close_cases-Ok, Keeps-set_payment_status,
          Keeps-create_audit_event,
        )
        depth 10

  dispatch_event-Ok :
      (event : WebhookEvent) (p : Option Payment) → Keeps (Ok T laws) (dispatch_event env event p)
  unfolding dispatch_event acknowledge
  dispatch_event-Ok event none = search (keeps_rules, create_payment-Ok, record_event-Ok)
  dispatch_event-Ok event (some p) =
      search (keeps_rules, record_event-Ok, Keeps-create_audit_event) depth 9

  on_key_error-Ok : (e : Error) → Keeps (Ok T laws) (on_key_error env e)
  on_key_error-Ok (integrity idempotency_key) = search keeps_rules
  on_key_error-Ok _ = search keeps_rules

  ingest-Ok : (event : WebhookEvent) → Keeps (Ok T laws) (ingest env event)
  unfolding ingest check_idempotency
  ingest-Ok event = search (keeps_rules, Keeps-add_key, on_key_error-Ok, dispatch_event-Ok) depth 9

  on_error-Ok : (event : WebhookEvent) (e : Error) → Keeps (Ok T laws) (on_error env event e)
  unfolding on_error on_duplicate
  on_error-Ok event duplicate_event = search (keeps_rules, Keeps-create_audit_event) depth 9
  on_error-Ok event (integrity active_case) = search keeps_rules
  on_error-Ok event _ = search keeps_rules

  pub process_webhook-Ok : (event : WebhookEvent) → Keeps (Ok T laws) (process_webhook env event)
  unfolding process_webhook validate_financials
  process_webhook-Ok event = search (keeps_rules, ingest-Ok, on_error-Ok) depth 8
