-- ===== src/Webhooks/Replay.antt =====
-- Events that have been seen, and events that are refused.
use razor_pay.Prelude.{◌≡◌, Bool, true, false, none, arith, exists, is_negative}
use text.Mathlib.Text.{◌==◌ as str_eq}
use razor_pay.Errors.{ok}
use razor_pay.Models.{IdempotencyRecord, Db}
use razor_pay.Session.{Env, World, write, ◌>>=◌}
use razor_pay.Audit.{create_audit_event, get_correlation_id}
use razor_pay.Tables.{add_key}
use razor_pay.Webhooks.{
  WebhookEvent, validate_financials, check_idempotency, is_supported, ingest, on_duplicate,
  on_error, process_webhook,
}

-- The event's id has been recorded.
abbrev pub is_seen : WebhookEvent → Db → Bool
is_seen event db =
    exists (λ (r : IdempotencyRecord). str_eq r.idempotency_key event.event_id) db.keys

-- The amount and the currency of the event are acceptable.
abbrev pub IsPayable : Env → WebhookEvent → Type 0
IsPayable env event =
    (is_negative event.amount.units ≡ false) × (is_supported (env.upper event.currency) ≡ true)

-- A session that has just begun.
abbrev pub IsFresh : World → Type 0
IsFresh w = (w.db ≡ w.saved) × (w.refused ≡ none)

-- An acceptable event whose id has been recorded is acknowledged, and changes no committed table
-- but that of the audit events. The session has just begun.
pub process_webhook-seen :
    (env : Env) (event : WebhookEvent) (w : World)
    → IsFresh w
    → IsPayable env event
    → is_seen event w.saved ≡ true
    → let (r, w') = process_webhook env event w in
      (r ≡ ok true) × (w'.saved ≡ record w.saved { audits = w'.saved.audits })
unfolding process_webhook ingest check_idempotency validate_financials on_error on_duplicate
    create_audit_event get_correlation_id add_key write ◌>>=◌
process_webhook-seen env event w fresh payable seen = ground arith
