-- ===== src/Webhooks/Failure.antt =====
-- What a failure commits: the case and its first job.
use text.Mathlib.Text.{◌==◌ as str_eq}
use razor_pay.Prelude.{
  ℕ, ℤ, ◌+◌, ◌≡◌, String, true, false, none, some, List, [], ◌∷◌, ◌++◌, arith, exists, first,
  change, is_negative, exists-first-none, exists-weaken,
}
use razor_pay.Errors.{ok}
use razor_pay.States.{PaymentState, RecoveryState, is_terminal}
use razor_pay.Models.{Payment, RecoveryCase, JobType}
use razor_pay.Session.{Env, World, write, catch, ◌>>=◌}
use razor_pay.Audit.{create_audit_event, get_correlation_id}
use razor_pay.Tables.{
  is_too_large, add_case, add_job, new_job, set_payment_status, minutes, pending_job,
  payment_has_id, case_has_id, job_has_id, is_other_active,
}
use razor_pay.Webhooks.{
  WebhookEvent, dispatch_event, process_webhook, is_of_event, is_mismatch, is_active_of, open_case,
  on_failed, apply_event, record_event,
}
use razor_pay.Webhooks.Replay.{is_seen, IsPayable, IsFresh}
use razor_pay.Webhooks.Effect.{key_of, with_key, reaches_payment}

-- An amount that the column takes.
abbrev pub IsStorable : ℤ → Type 0
IsStorable n = (is_too_large n ≡ false) × (is_negative n ≡ false)

-- The case that an event opens.
abbrev pub opened_case : Env → WebhookEvent → ℕ → ℕ → RecoveryCase
opened_case env event payment_id id = record {
  id = id;
  payment_id = payment_id;
  customer_id = event.customer_id;
  amount_at_risk = env.round event.amount;
  currency = env.upper event.currency;
  status = RecoveryState.opened;
  failure_reason = event.failure_reason;
  max_attempts = 3;
  started_at = env.now;
  created_at = env.now;
}

abbrev pub with_failed : ℕ → List Payment → List Payment
with_failed i payments =
    change (payment_has_id i) (λ (r : Payment). record r { status = PaymentState.failed }) payments

-- The ids that are drawn are new.
abbrev pub DrawsFresh : Env → World → Type 0
DrawsFresh env w =
    (exists (case_has_id (env.uuid4 w.drawn)) w.db.cases ≡ false)
    × (exists (job_has_id (env.uuid4 (w.drawn + 1))) w.db.jobs ≡ false)

-- Two active cases would need one.
alone :
    (i k : ℕ) (cases : List RecoveryCase) (env : Env)
    → first (is_active_of env i) cases ≡ none
    → exists (is_other_active i k) cases ≡ false
alone i k cases env h =
    exists-weaken (is_other_active i k) (is_active_of env i) cases (λ x e. ground arith)
      (exists-first-none (is_active_of env i) cases h)

-- The case and the job of a failure.
opens :
    (env : Env) (event : WebhookEvent) (p : Payment) (w : World) (reason : String)
    → w.refused ≡ none
    → event.failure_reason ≡ some reason
    → IsStorable (env.round event.amount)
    → first (is_active_of env p.id) w.db.cases ≡ none
    → DrawsFresh env w
    → str_eq w.correlation "" ≡ false
    → on_failed env event p w ≡ (
      ok tt,
      record w {
        drawn = w.drawn + 1 + 1;
        db = record w.db {
          payments = with_failed p.id w.db.payments;
          cases = w.db.cases ++ opened_case env event p.id (env.uuid4 w.drawn) ∷ [];
          jobs =
              w.db.jobs
              ++ pending_job env
                  (env.uuid4 (w.drawn + 1))
                  (env.uuid4 w.drawn)
                  JobType.evaluate_recovery
                  (env.now + minutes 5)
                  3
                  0
                  w.correlation
                ∷ [];
        };
      },
    )
unfolding on_failed open_case add_case new_job add_job set_payment_status get_correlation_id write
    ◌>>=◌
opens env event p w reason clean why storable idle draws set =
    let (small, positive) = storable in
    ground (arith, alone p.id (env.uuid4 w.drawn) w.db.cases env idle)

-- The rest of the event: its audit event and the commit.
records :
    (env : Env) (event : WebhookEvent) (p : Payment) (w v : World)
    → str_eq event.type "payment.failed" ≡ true
    → on_failed env event p w ≡ (ok tt, v)
    → v.refused ≡ none
    → str_eq v.correlation "" ≡ false
    → let (r, w') = record_event env event p w in
      (r ≡ ok true) × (w'.saved ≡ record v.db { audits = w'.saved.audits })
unfolding record_event apply_event create_audit_event get_correlation_id write ◌>>=◌
records env event p w v failed done clean set = rw (failed, done) (ground arith)

-- A new acceptable event of a failure, for a payment that is known, agrees with it, is in no terminal
-- state and has no active case, commits in one transaction: the payment as failed, one open case of
-- it with the amount at risk, one pending evaluation of that case in five minutes, the idempotency
-- record and an audit event. The event gives a reason, its amount rounded fits the column, the ids drawn are new, and the correlation id
-- is set. The session has just begun.
pub process_webhook-opens_case :
    (env : Env) (event : WebhookEvent) (w : World) (p : Payment) (reason : String)
    → IsFresh w
    → IsPayable env event
    → is_seen event w.saved ≡ false
    → str_eq event.type "payment.failed" ≡ true
    → event.failure_reason ≡ some reason
    → IsStorable (env.round event.amount)
    → first (is_of_event env event) w.saved.payments ≡ some p
    → is_mismatch env p event ≡ false
    → is_terminal p.status ≡ false
    → first (is_active_of env p.id) w.saved.cases ≡ none
    → DrawsFresh env w
    → str_eq w.correlation "" ≡ false
    → let (r, w') = process_webhook env event w in
      (r ≡ ok true)
      × (w'.saved ≡ record w.saved {
        payments = with_failed p.id w.saved.payments;
        cases = w.saved.cases ++ opened_case env event p.id (env.uuid4 w.drawn) ∷ [];
        jobs =
            w.saved.jobs
            ++ pending_job env
                (env.uuid4 (w.drawn + 1))
                (env.uuid4 w.drawn)
                JobType.evaluate_recovery
                (env.now + minutes 5)
                3
                0
                w.correlation
              ∷ [];
        keys = w.saved.keys ++ key_of event ∷ [];
        audits = w'.saved.audits;
      })
unfolding dispatch_event catch
process_webhook-opens_case env event w p reason fresh payable new failed why storable found same
      live idle draws set =
    let v = with_key event w in
    let idle' : first (is_active_of env p.id) v.db.cases ≡ none = ground (arith, fresh.0) in
    let done = opens env event p v reason fresh.1 why storable idle' draws set in
    rw (reaches_payment env event w fresh payable new, found)
      (ground (arith, records env event p v _ failed done fresh.1 set))
