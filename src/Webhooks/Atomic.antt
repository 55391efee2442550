-- ===== src/Webhooks/Atomic.antt =====
-- A webhook that ends in an error has committed nothing.
use razor_pay.Prelude.{◌≡◌, String, Option, none, some, List, [], ◌∷◌, arith}
use razor_pay.Errors.{Error, err, integrity, duplicate_event, idempotency_key, active_case}
use razor_pay.Models.{Amount, Customer, Payment, RecoveryCase}
use razor_pay.Session.{Env, World, ◌>>=◌, write}
use razor_pay.Session.Atomic.{
  IsUnsaved, IsAtomic, unsaved_rules, atomic_rules, IsUnsaved-bind, IsAtomic-bind, IsAtomic-catch,
  IsAtomic-then_pure, IsAtomic-commit,
}
use razor_pay.Audit.{create_audit_event, get_correlation_id}
use razor_pay.Tables.Unsaved.{
  table_unsaved, IsUnsaved-set_case_status, IsUnsaved-cancel_pending_jobs,
  IsUnsaved-create_audit_event,
}
use razor_pay.Webhooks.{
  WebhookEvent, validate_financials, check_idempotency, ensure_customer, create_payment, open_case,
  on_failed, close_cases, on_succeeded, apply_event, record_event, acknowledge, dispatch_event,
  ingest, on_duplicate, on_error, process_webhook, on_key_error,
}

module _ (env : Env) where
  validate_financials-IsUnsaved :
      (amount : Amount) (currency : String) → IsUnsaved (validate_financials env amount currency)
  unfolding validate_financials
  validate_financials-IsUnsaved amount currency = search unsaved_rules

  ensure_customer-IsUnsaved :
      (event : WebhookEvent) (c : Option Customer) → IsUnsaved (ensure_customer env event c)
  unfolding ensure_customer
  ensure_customer-IsUnsaved event none = search table_unsaved
  ensure_customer-IsUnsaved event (some c) = search table_unsaved

  create_payment-IsUnsaved : (event : WebhookEvent) → IsUnsaved (create_payment env event)
  unfolding create_payment
  create_payment-IsUnsaved event = search (table_unsaved, ensure_customer-IsUnsaved) depth 12

  open_case-IsUnsaved :
      (event : WebhookEvent) (p : Payment) (c : Option RecoveryCase)
      → IsUnsaved (open_case env event p c)
  unfolding open_case
  open_case-IsUnsaved event p none = search table_unsaved depth 9
  open_case-IsUnsaved event p (some c) = search table_unsaved

  close_cases-IsUnsaved : (cases : List RecoveryCase) → IsUnsaved (close_cases env cases)
  unfolding close_cases
  close_cases-IsUnsaved [] = search table_unsaved
  close_cases-IsUnsaved (c ∷ cases) =
      IsUnsaved-bind _ _ (IsUnsaved-set_case_status _ _)
        λ _. IsUnsaved-bind _ _ (IsUnsaved-cancel_pending_jobs _) (λ _. close_cases-IsUnsaved cases)

  apply_event-IsUnsaved : (event : WebhookEvent) (p : Payment) → IsUnsaved (apply_event env event p)
  unfolding apply_event on_failed on_succeeded
  apply_event-IsUnsaved event p =
      search (table_unsaved, open_case-IsUnsaved, close_cases-IsUnsaved) depth 12

  record_event-IsAtomic : (event : WebhookEvent) (p : Payment) → IsAtomic (record_event env event p)
  unfolding record_event
  record_event-IsAtomic event p = IsAtomic-bind _ _ (apply_event-IsUnsaved event p) λ _.
      IsAtomic-bind _ _ (IsUnsaved-create_audit_event _ _ _ _ _ _)
        λ _. IsAtomic-then_pure _ _ IsAtomic-commit

  acknowledge-IsAtomic : (event : WebhookEvent) (p : Payment) → IsAtomic (acknowledge env event p)
  unfolding acknowledge
  acknowledge-IsAtomic event p =
      IsAtomic-bind _ _ (IsUnsaved-create_audit_event _ _ _ _ _ _)
        λ _. IsAtomic-then_pure _ _ IsAtomic-commit

  dispatch_event-IsAtomic :
      (event : WebhookEvent) (o : Option Payment) → IsAtomic (dispatch_event env event o)
  unfolding dispatch_event
  dispatch_event-IsAtomic event none =
      IsAtomic-bind _ _ (create_payment-IsUnsaved event) (λ p. record_event-IsAtomic event p)
  dispatch_event-IsAtomic event (some p) =
      search (atomic_rules, acknowledge-IsAtomic, record_event-IsAtomic)

  on_key_error-IsUnsaved : (e : Error) → IsUnsaved (on_key_error env e)
  on_key_error-IsUnsaved (integrity idempotency_key) = search unsaved_rules
  on_key_error-IsUnsaved _ = search unsaved_rules

  check_idempotency-IsUnsaved : (event_id : String) → IsUnsaved (check_idempotency env event_id)
  unfolding check_idempotency
  check_idempotency-IsUnsaved event_id = search (table_unsaved, on_key_error-IsUnsaved)

  ingest-IsAtomic : (event : WebhookEvent) → IsAtomic (ingest env event)
  unfolding ingest
  ingest-IsAtomic event =
      search (atomic_rules, check_idempotency-IsUnsaved, dispatch_event-IsAtomic) depth 8

  -- The handler of a duplicate raises nothing.
  on_duplicate-IsAtomic : (event : WebhookEvent) → IsAtomic (on_duplicate env event)
  unfolding on_duplicate create_audit_event get_correlation_id write ◌>>=◌
  on_duplicate-IsAtomic event = record { at = λ w e h. ground arith }

  on_error-IsAtomic : (event : WebhookEvent) (e : Error) → IsAtomic (on_error env event e)
  unfolding on_error
  on_error-IsAtomic event duplicate_event = on_duplicate-IsAtomic event
  on_error-IsAtomic event (integrity active_case) = search atomic_rules
  on_error-IsAtomic event _ = search atomic_rules

  -- If the processing of an event raises, whatever the event and the tables, then nothing of it has
  -- been committed.
  pub process_webhook-IsAtomic :
      (event : WebhookEvent) (w : World) (e : Error)
      → (process_webhook env event w).0 ≡ err e
      → (process_webhook env event w).1.saved ≡ w.saved
  unfolding process_webhook
  process_webhook-IsAtomic event =
      (IsAtomic-bind _ _ (validate_financials-IsUnsaved event.amount event.currency)
        λ _. IsAtomic-catch _ _ (ingest-IsAtomic event) (on_error-IsAtomic event)).at
