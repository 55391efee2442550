-- ===== src/Webhooks/Consistency.antt =====
-- Webhooks keep the tables consistent.
use Prim.Native.String.{◌++◌ as str_append}
use razor_pay.Prelude.{
  Option-cases, ℕ, ◌≡◌, sym, subst, if◌then◌else◌, Bool, true, false, not, ◌||◌, Option, none, some,
  List, [], ◌∷◌, ◌++◌, ◌==◌, Bool-cases, arith, All, All-first, first, map, inl, inr, select,
  exists,
}
use text.Mathlib.Text.{◌==◌ as str_eq}
use razor_pay.Prelude.Drain.{All-map}
use razor_pay.Errors.{Error, integrity, duplicate_event, idempotency_key, active_case}
use razor_pay.States.{RecoveryState, is_terminal}
use razor_pay.Models.{is_amount, Customer, Payment, RecoveryCase, Db}
use razor_pay.Session.{Env, Action, flush, pure, draw_uuid, ◌>>=◌}
use razor_pay.Tables.{query_customer, add_customer, add_payment, customer_has_id, payment_has_id}
use razor_pay.Webhooks.{
  WebhookEvent, is_mismatch, is_active_of, is_of_event, event_status, validate_financials,
  check_idempotency, ensure_customer, create_payment, open_case, on_failed, close_cases,
  on_succeeded, apply_event, record_event, acknowledge, dispatch_event, ingest, on_duplicate,
  on_error, process_webhook, on_key_error,
}
use razor_pay.Consistency.{Consistent, Fact, Known, PaymentRefers, is_case_of}
use razor_pay.Consistency.Runs.{
  Runs, Runs-bind, Runs-pure, Runs-pure_bind, Runs-raise, Runs-if, Runs-assoc, Runs-assoc_rest,
  Runs-ask, Knows, Runs-catch, Runs-rollback, Has, Has-here, Has-there,
}
use razor_pay.Consistency.Runs.Rules.{Runs-draw_uuid, Runs-rollback-raise}
use razor_pay.Consistency.Writes.{Runs-set_payment_status, Runs-set_case_status}
use razor_pay.Consistency.Inserts.{
  Runs-add_customer, Runs-add_payment, Runs-add_case, Runs-new_job, Runs-add_key,
  Runs-cancel_pending_jobs,
}
use razor_pay.Consistency.Queries.{first-exists, first-there, self, fact_of, services_rules}

-- The payment of an event, and the customer that the event names.
abbrev known_rows : WebhookEvent → Payment → List Fact
known_rows event p = Fact.has_payment p.id ∷ Fact.has_customer event.customer_id ∷ []

-- What the query of the active cases finds.
rows-known : (l : List RecoveryCase) → All (λ c. exists (is_case_of c.id c.payment_id) l ≡ true) l
unfolding exists
rows-known [] = tt
rows-known (c ∷ l) = (
  ground (arith, self c.id, self c.payment_id),
  All-map _ _ l (λ d h. ground (arith, h)) (rows-known l),
)

All-select :
    {A : Type 0} (P : A → Type 0) (q : A → Bool) (l : List A) → All P l → All P (select q l)
unfolding select
All-select P q [] h = tt
All-select P q (x ∷ l) h = elim (Bool-cases (q x)) [
  | inl t ↦ rw t (h.0, All-select P q l h.1)
  | inr f ↦ rw f (All-select P q l h.1)
]

facts-Knows :
    (l : List RecoveryCase) (db : Db) → All (λ c. Known db (fact_of c)) l → Knows (map fact_of l) db
facts-Knows [] db h = tt
facts-Knows (c ∷ l) db h = (h.0, facts-Knows l db h.1)

selected-Knows : (q : RecoveryCase → Bool) (db : Db) → Knows (map fact_of (select q db.cases)) db
selected-Knows q db =
    facts-Knows (select q db.cases) db
      (All-select (λ c. Known db (fact_of c)) q db.cases (rows-known db.cases))

facts-Has :
    (l : List RecoveryCase) (facts : List Fact)
    → All (λ c. Has (fact_of c) (map fact_of l ++ facts)) l
facts-Has [] facts = tt
facts-Has (c ∷ l) facts = (
  Has-here (fact_of c) (map fact_of l ++ facts),
  All-map _ _ l (λ d h. Has-there (fact_of d) (fact_of c) (map fact_of l ++ facts) h)
      (facts-Has l facts),
)

-- What the queries of the event's rows tell.
abbrev customer_fact : WebhookEvent → Option Customer → List Fact
customer_fact event none = []
customer_fact event (some c) = Fact.has_customer event.customer_id ∷ []

customer-Knows :
    (event : WebhookEvent) (db : Db)
    → Knows (customer_fact event (first (customer_has_id event.customer_id) db.customers)) db
customer-Knows event db =
    elim (Option-cases (first (customer_has_id event.customer_id) db.customers)) [
      | inl gone ↦ rw gone tt
      | inr (c, e) ↦ rw e (first-there (customer_has_id event.customer_id) db.customers e, tt)
    ]

abbrev payment_facts : Option Payment → List Fact
payment_facts none = []
payment_facts (some p) = Fact.has_payment p.id ∷ Fact.has_customer p.customer_id ∷ []

payment-Knows :
    (env : Env) (event : WebhookEvent) (db : Db)
    → Consistent db
    → Knows (payment_facts (first (is_of_event env event) db.payments)) db
payment-Knows env event db h = elim (Option-cases (first (is_of_event env event) db.payments)) [
  | inl gone ↦ rw gone tt
  | inr (p, e) ↦ rw e (
    first-exists (is_of_event env event) (payment_has_id p.id) db.payments (self p.id) e,
    ((All-first (PaymentRefers db) (is_of_event env event) db.payments h.payments e).0, tt),
  )
]

last_of : (a b c : Bool) → (a || (b || not c)) ≡ false → c ≡ true
last_of a b c h = ground (arith, h)

module _ (env : Env) where
  same_customer :
      (p : Payment) (event : WebhookEvent)
      → is_mismatch env p event ≡ false
      → p.customer_id ≡ event.customer_id
  unfolding is_mismatch
  same_customer p event e =
      let t : p.customer_id == event.customer_id ≡ true =
        last_of (not (is_amount event.amount p.amount))
          (not (str_eq (env.upper p.currency) (env.upper event.currency)))
          (p.customer_id == event.customer_id) e in
      ground (arith, t)

  open_case-Runs :
      (event : WebhookEvent) (p : Payment) (c : Option RecoveryCase)
      → Runs Consistent (known_rows event p) (open_case env event p c)
  unfolding open_case
  open_case-Runs event p (some c) = Runs-pure tt
  open_case-Runs event p none = Runs-bind _ _ (Runs-draw_uuid env) λ id.
      Runs-add_case _ _ (Has-here (Fact.has_payment p.id) _)
        (Has-there (Fact.has_customer event.customer_id) _ _
          (Has-here (Fact.has_customer event.customer_id) []))
        (Runs-new_job env id p.id _ _ _ _ (Has-here (Fact.has_case id p.id) _))

  -- The cases that are closed are rows of the table.
  close_cases-Runs :
      (facts : List Fact) (cases : List RecoveryCase)
      → All (λ c. Has (fact_of c) facts) cases
      → Runs Consistent facts (close_cases env cases)
  unfolding close_cases
  close_cases-Runs facts [] h = Runs-pure tt
  close_cases-Runs facts (c ∷ cases) h =
      Runs-bind _ _ (Runs-set_case_status c RecoveryState.recovered h.0)
        λ _. Runs-bind _ _ (Runs-cancel_pending_jobs c.id) λ _. close_cases-Runs facts cases h.1

  on_succeeded-Runs : (facts : List Fact) (p : Payment) → Runs Consistent facts (on_succeeded env p)
  unfolding on_succeeded
  on_succeeded-Runs facts p = Runs-bind _ _ (Runs-set_payment_status p.id _) λ _.
      Runs-ask (map fact_of) _ _ (λ w h. selected-Knows (is_active_of env p.id) w.db)
        (λ cases. close_cases-Runs (map fact_of cases ++ facts) cases (facts-Has cases facts))

  record_event-Runs :
      (event : WebhookEvent) (p : Payment)
      → Runs Consistent (known_rows event p) (record_event env event p)
  unfolding record_event apply_event on_failed
  record_event-Runs event p = search (services_rules, open_case-Runs, on_succeeded-Runs) depth 10

  -- A new payment, of a customer that is known by then.
  abbrev payment_of : WebhookEvent → ℕ → Payment
  payment_of event id = record {
    id = id;
    external_id = event.payment_id;
    customer_id = event.customer_id;
    amount = env.round event.amount;
    currency = env.upper event.currency;
    status = event_status env event;
  }

  abbrev flushed : Payment → Action Payment
  flushed p = flush >>= λ _. pure p

  abbrev put_payment : WebhookEvent → ℕ → Action Payment
  put_payment event id = add_payment (payment_of event id) >>= λ _. flushed (payment_of event id)

  abbrev new_payment : WebhookEvent → Unit {0} → Action Payment
  new_payment event _ = draw_uuid env >>= put_payment event

  new_payment-Runs :
      (event : WebhookEvent)
      → Runs Consistent
          (Fact.has_customer event.customer_id ∷ [])
          (new_payment event tt >>= record_event env event)
  new_payment-Runs event = Runs-assoc (draw_uuid env) (put_payment event) (record_event env event) (
      Runs-bind _ _ (Runs-draw_uuid env) λ id.
        let p = payment_of event id in
        Runs-assoc (add_payment p) (λ _. flushed p) (record_event env event)
          (Runs-assoc_rest (add_payment p) (λ _. flush) (λ _. pure p) (record_event env event)
            (Runs-add_payment p (λ _. pure p >>= record_event env event)
              (Has-here (Fact.has_customer event.customer_id) [])
              (Runs-pure_bind p (record_event env event) (record_event-Runs event p)))))

  -- The customer of the event is found or added first.
  abbrev with_customer : WebhookEvent → Option Customer → Action Payment
  with_customer event c = ensure_customer env event c >>= new_payment event

  customer_of : WebhookEvent → Customer
  customer_of event = record {
    id = event.customer_id;
    external_id = str_append "ext_" (env.uuid_text event.customer_id);
    email = "unknown@test.com";
    name = "Unknown";
  }

  with_customer-Runs :
      (event : WebhookEvent) (c : Option Customer)
      → Runs Consistent
          (customer_fact event c ++ [])
          (with_customer event c >>= record_event env event)
  unfolding ensure_customer customer_of
  with_customer-Runs event (some c) =
      Runs-assoc (pure tt) (new_payment event) (record_event env event) (
        Runs-pure_bind tt (λ u. new_payment event u >>= record_event env event)
          (new_payment-Runs event))
  with_customer-Runs event none =
      let added = add_customer (customer_of event) in
      Runs-assoc (added >>= λ _. flush) (new_payment event) (record_event env event) (
        Runs-assoc added (λ _. flush) (λ u. new_payment event u >>= record_event env event)
          (Runs-add_customer (customer_of event)
            (λ u. new_payment event u >>= record_event env event) (new_payment-Runs event)))

  create_payment-Runs :
      (event : WebhookEvent)
      → Runs Consistent [] (create_payment env event >>= record_event env event)
  unfolding create_payment
  create_payment-Runs event =
      Runs-assoc (query_customer event.customer_id) (with_customer event) (record_event env event) (
        Runs-ask (customer_fact event) _ _ (λ w h. customer-Knows event w.db)
          (with_customer-Runs event))

  dispatch_event-Runs :
      (event : WebhookEvent) (p : Option Payment)
      → Runs Consistent (payment_facts p ++ []) (dispatch_event env event p)
  unfolding dispatch_event acknowledge
  dispatch_event-Runs event none = create_payment-Runs event
  dispatch_event-Runs event (some p) =
      Runs-if _ _ _ (λ e. Runs-raise _)
        λ e.
          let same : p.customer_id ≡ event.customer_id = same_customer p event e in
          let rest : Action Bool =
            if is_terminal p.status then acknowledge env event p else record_event env event p in
          let end : Runs Consistent (known_rows event p)
              (if is_terminal p.status then acknowledge env event p else record_event env event p) =
            search (services_rules, record_event-Runs) depth 9 in
          subst (λ i. Runs Consistent (Fact.has_payment p.id ∷ Fact.has_customer i ∷ []) rest)
            (sym same) end

  on_key_error-Runs : (e : Error) → Runs Consistent [] (on_key_error env e)
  on_key_error-Runs (integrity idempotency_key) = Runs-rollback-raise _
  on_key_error-Runs _ = Runs-raise _

  ingest-Runs : (event : WebhookEvent) → Runs Consistent [] (ingest env event)
  unfolding ingest check_idempotency
  ingest-Runs event =
      Runs-bind _ _ (search (services_rules, Runs-add_key, Runs-catch, on_key_error-Runs) depth 9)
        λ _.
          Runs-ask payment_facts _ _ (λ w h. payment-Knows env event w.db h.db)
            (dispatch_event-Runs event)

  on_error-Runs : (event : WebhookEvent) (e : Error) → Runs Consistent [] (on_error env event e)
  unfolding on_error on_duplicate
  on_error-Runs event duplicate_event = search (services_rules, Runs-catch, Runs-rollback) depth 10
  on_error-Runs event (integrity active_case) = search (services_rules, Runs-rollback)
  on_error-Runs event _ = Runs-rollback-raise _

  pub process_webhook-Runs : (event : WebhookEvent) → Runs Consistent [] (process_webhook env event)
  unfolding process_webhook validate_financials
  process_webhook-Runs event =
      search (services_rules, Runs-catch, ingest-Runs, on_error-Runs) depth 8
