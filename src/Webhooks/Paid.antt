-- ===== src/Webhooks/Paid.antt =====
-- No webhook takes a payment back that has succeeded.
use razor_pay.Prelude.{
  ℕ, ◌≡◌, ◌≢◌, String, false, Option, none, some, List, [], ◌∷◌, arith, All-first, first, refl,
  subst, exists,
}
use razor_pay.Errors.{
  Error, ok, immutable_attribute, integrity, duplicate_event, idempotency_key, active_case,
}
use razor_pay.States.{PaymentState, RecoveryState, is_terminal}
use razor_pay.Models.{Customer, Payment, RecoveryCase}
use razor_pay.Session.{Env, World, gets, write, ◌>>=◌}
use razor_pay.Session.Keeps.{
  Holds, Keeps, keeps_rules, Keeps-bind, Keeps-bind-ok, Keeps-if, Keeps-catch, Keeps-gets,
  Keeps-raise,
}
use razor_pay.Tables.{payment_has_id, add_customer, add_payment}
use razor_pay.Tables.Rules.{
  Keeps-add_customer, Keeps-add_case, Keeps-add_key, Keeps-add_job, Keeps-set_case_status,
  Keeps-set_job_status, Keeps-cancel_pending_jobs, Keeps-create_audit_event, Keeps-new_job,
}
use razor_pay.Tables.Paid.{IsPaid, Keeps-add_payment-IsPaid, Keeps-set_succeeded, Keeps-set_other}
use razor_pay.Webhooks.{
  WebhookEvent, validate_financials, check_idempotency, ensure_customer, create_payment, open_case,
  on_failed, close_cases, on_succeeded, apply_event, record_event, acknowledge, dispatch_event,
  ingest, on_duplicate, on_error, process_webhook, on_key_error, is_of_event,
}

module _ (env : Env) (i : ℕ) where
  validate_financials-Keeps :
      (amount : _) (currency : String) → Keeps (IsPaid i) (validate_financials env amount currency)
  unfolding validate_financials
  validate_financials-Keeps amount currency = search keeps_rules

  ensure_customer-Keeps :
      (event : WebhookEvent) (c : Option Customer) → Keeps (IsPaid i) (ensure_customer env event c)
  unfolding ensure_customer
  ensure_customer-Keeps event none = search (keeps_rules, Keeps-add_customer)
  ensure_customer-Keeps event (some c) = search keeps_rules

  create_payment-Keeps : (event : WebhookEvent) → Keeps (IsPaid i) (create_payment env event)
  unfolding create_payment
  create_payment-Keeps event =
      search (keeps_rules, ensure_customer-Keeps, Keeps-add_payment-IsPaid i) depth 12

  open_case-Keeps :
      (event : WebhookEvent) (p : Payment) (c : Option RecoveryCase)
      → Keeps (IsPaid i) (open_case env event p c)
  unfolding open_case
  open_case-Keeps event p none = search (keeps_rules, Keeps-add_case, Keeps-new_job, Keeps-add_job)
  open_case-Keeps event p (some c) = search keeps_rules

  on_failed-Keeps :
      (event : WebhookEvent) (p : Payment) → p.id ≢ i → Keeps (IsPaid i) (on_failed env event p)
  unfolding on_failed
  on_failed-Keeps event p other = search (keeps_rules, open_case-Keeps, Keeps-set_other) depth 8

  close_cases-Keeps : (cases : List RecoveryCase) → Keeps (IsPaid i) (close_cases env cases)
  unfolding close_cases
  close_cases-Keeps [] = search keeps_rules
  close_cases-Keeps (c ∷ cases) =
      Keeps-bind _ _ (Keeps-set_case_status c RecoveryState.recovered (λ db free h. h)) λ _.
        Keeps-bind _ _ (search (Keeps-cancel_pending_jobs, Keeps-set_job_status))
          (λ _. close_cases-Keeps cases)

  on_succeeded-Keeps : (p : Payment) → Keeps (IsPaid i) (on_succeeded env p)
  unfolding on_succeeded
  on_succeeded-Keeps p = search (keeps_rules, Keeps-set_succeeded i, close_cases-Keeps) depth 8

  record_event-Keeps :
      (event : WebhookEvent) (p : Payment) → p.id ≢ i → Keeps (IsPaid i) (record_event env event p)
  unfolding record_event apply_event
  record_event-Keeps event p other =
      search (keeps_rules, on_failed-Keeps, on_succeeded-Keeps, Keeps-create_audit_event) depth 9

  acknowledge-Keeps :
      (event : WebhookEvent) (p : Payment) → Keeps (IsPaid i) (acknowledge env event p)
  unfolding acknowledge
  acknowledge-Keeps event p = search (keeps_rules, Keeps-create_audit_event) depth 8

  on_key_error-Keeps : (e : Error) → Keeps (IsPaid i) (on_key_error env e)
  on_key_error-Keeps (integrity idempotency_key) = search keeps_rules
  on_key_error-Keeps _ = search keeps_rules

  check_idempotency-Keeps : (event_id : String) → Keeps (IsPaid i) (check_idempotency env event_id)
  unfolding check_idempotency
  check_idempotency-Keeps event_id = search (keeps_rules, Keeps-add_key, on_key_error-Keeps) depth 8

  on_duplicate-Keeps : (event : WebhookEvent) → Keeps (IsPaid i) (on_duplicate env event)
  unfolding on_duplicate
  on_duplicate-Keeps event = search (keeps_rules, Keeps-create_audit_event) depth 9

  on_error-Keeps : (event : WebhookEvent) (e : Error) → Keeps (IsPaid i) (on_error env event e)
  unfolding on_error
  on_error-Keeps event duplicate_event = on_duplicate-Keeps event
  on_error-Keeps event (integrity active_case) = search keeps_rules
  on_error-Keeps event _ = search keeps_rules

-- The id of a new payment is not in the table.
create_payment-fresh :
    (env : Env) (event : WebhookEvent) (w : World) {p : Payment}
    → (create_payment env event w).0 ≡ ok p
    → exists (payment_has_id p.id) w.db.payments ≡ false
unfolding create_payment ensure_customer add_customer add_payment write ◌>>=◌
create_payment-fresh env event w e = ground arith

module _ (env : Env) (i : ℕ) where
  other_payment :
      (p : Payment) (w : World)
      → Holds (IsPaid i) w
      → exists (payment_has_id p.id) w.db.payments ≡ false
      → p.id ≢ i
  other_payment p w h fresh e =
      let new : exists (payment_has_id i) w.db.payments ≡ false =
        subst (λ k. exists (payment_has_id k) w.db.payments ≡ false) e fresh in
      cc (h.db.0)

  not-succeeded : (p : Payment) → is_terminal p.status ≡ false → p.status ≢ PaymentState.succeeded
  not-succeeded p t e = ground arith

  -- The payment that the query finds has succeeded, if it is the one.
  found_paid :
      (event : WebhookEvent) (w : World)
      → Holds (IsPaid i) w
      → (o : Option Payment) → (gets (λ v. first (is_of_event env event) v.db.payments) w).0 ≡ ok o
      → (p : Payment) → o ≡ some p
      → p.id ≡ i
      → p.status ≡ PaymentState.succeeded
  unfolding gets
  found_paid event w h o e p found same =
      let q : first (is_of_event env event) w.db.payments ≡ some p = cc in
      (All-first _ (is_of_event env event) w.db.payments h.db.1 q).0 same

  dispatch_event-Keeps :
      (event : WebhookEvent) (o : Option Payment)
      → ((p : Payment) → o ≡ some p → p.id ≡ i → p.status ≡ PaymentState.succeeded)
      → Keeps (IsPaid i) (dispatch_event env event o)
  unfolding dispatch_event
  dispatch_event-Keeps event none paid =
      Keeps-bind-ok _ _ (create_payment-Keeps env i event) λ w p h e.
        record_event-Keeps env i event p (other_payment p w h (create_payment-fresh env event w e))
  dispatch_event-Keeps event (some p) paid =
      Keeps-if _ _ _ (λ _. Keeps-raise immutable_attribute)
        λ _.
          Keeps-if _ _ _ (λ _. acknowledge-Keeps env i event p)
            λ (t : is_terminal p.status ≡ false).
              record_event-Keeps env i event p (λ e. not-succeeded p t (paid p refl e))

  ingest-Keeps : (event : WebhookEvent) → Keeps (IsPaid i) (ingest env event)
  unfolding ingest
  ingest-Keeps event = Keeps-bind _ _ (check_idempotency-Keeps env i event.event_id) λ _.
      Keeps-bind-ok _ _ (Keeps-gets _)
        λ w o h e. dispatch_event-Keeps event o (found_paid event w h o e)

  -- Whatever the event, and however its processing ends, a payment that has succeeded is there and
  -- has succeeded afterwards, in the working copy and in the committed tables.
  pub process_webhook-Keeps : (event : WebhookEvent) → Keeps (IsPaid i) (process_webhook env event)
  unfolding process_webhook
  process_webhook-Keeps event =
      Keeps-bind _ _ (validate_financials-Keeps env i event.amount event.currency)
        λ _. Keeps-catch _ _ (ingest-Keeps event) (on_error-Keeps env i event)
