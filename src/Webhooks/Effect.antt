-- ===== src/Webhooks/Effect.antt =====
-- What an event commits, by the state of its payment.
use razor_pay.Prelude.{◌≡◌, true, false, some, [], ◌∷◌, ◌++◌, arith, first}
use razor_pay.Errors.{ok, err, immutable_attribute}
use razor_pay.States.{is_terminal}
use razor_pay.Models.{Payment, IdempotencyRecord}
use razor_pay.Session.{Env, World, write, catch, ◌>>=◌}
use razor_pay.Audit.{create_audit_event, get_correlation_id}
use razor_pay.Tables.{add_key}
use razor_pay.Webhooks.{
  WebhookEvent, validate_financials, check_idempotency, is_mismatch, dispatch_event, acknowledge,
  ingest, on_error, process_webhook, is_of_event,
}
use razor_pay.Webhooks.Replay.{is_seen, IsPayable, IsFresh}

abbrev pub key_of : WebhookEvent → IdempotencyRecord
key_of event = record {
  idempotency_key = event.event_id;
  request_hash = "N/A";
  response_status = 200;
}

-- The tables after the idempotency record has been added.
abbrev pub with_key : WebhookEvent → World → World
with_key event w = record w { db = record w.db { keys = w.db.keys ++ key_of event ∷ [] } }

-- An acceptable event that has not been seen gets as far as its payment.
pub reaches_payment :
    (env : Env) (event : WebhookEvent) (w : World)
    → IsFresh w
    → IsPayable env event
    → is_seen event w.saved ≡ false
    → process_webhook env event w
      ≡ catch
          (dispatch_event env event (first (is_of_event env event) w.saved.payments))
          (on_error env event)
          (with_key event w)
unfolding process_webhook ingest check_idempotency validate_financials add_key catch write ◌>>=◌
reaches_payment env event w fresh payable new = ground arith

-- A new acceptable event that agrees with its payment, which is in a terminal state, is
-- acknowledged: beside its idempotency record and an audit event nothing is committed. The session
-- has just begun.
pub process_webhook-terminal :
    (env : Env) (event : WebhookEvent) (w : World) (p : Payment)
    → IsFresh w
    → IsPayable env event
    → is_seen event w.saved ≡ false
    → first (is_of_event env event) w.saved.payments ≡ some p
    → is_mismatch env p event ≡ false
    → is_terminal p.status ≡ true
    → let (r, w') = process_webhook env event w in
      (r ≡ ok true)
      × (w'.saved
          ≡ record w.saved { keys = w.saved.keys ++ key_of event ∷ []; audits = w'.saved.audits })
unfolding dispatch_event acknowledge create_audit_event get_correlation_id write ◌>>=◌
process_webhook-terminal env event w p fresh payable new found same ended =
    rw (reaches_payment env event w fresh payable new, found) (ground arith)

-- A new acceptable event that disagrees with its payment in the amount, the currency or the customer
-- is an error and commits nothing. The session has just begun.
pub process_webhook-mismatch :
    (env : Env) (event : WebhookEvent) (w : World) (p : Payment)
    → IsFresh w
    → IsPayable env event
    → is_seen event w.saved ≡ false
    → first (is_of_event env event) w.saved.payments ≡ some p
    → is_mismatch env p event ≡ true
    → ((process_webhook env event w).0 ≡ err immutable_attribute)
      × ((process_webhook env event w).1.saved ≡ w.saved)
      × ((process_webhook env event w).1.db ≡ w.saved)
unfolding dispatch_event on_error ◌>>=◌
process_webhook-mismatch env event w p fresh payable new found other =
    rw (reaches_payment env event w fresh payable new, found) (ground arith)
