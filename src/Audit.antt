-- ===== src/Audit.antt =====
-- app/domain/observability/audit.py and app/utils/context.py: audit events with scrubbed payloads
-- and the correlation id.
pub mod Scrub
use Scrub.{scrub_payload}
use text.Mathlib.Text.{◌==◌ as str_eq}
use razor_pay.Prelude.{String, Option, none, some, [], ◌∷◌, ◌++◌, if◌then◌else◌}
use razor_pay.Errors.{Error, ok, data_error}
use razor_pay.Json.{Json}
use razor_pay.Models.{Db, AuditEvent, EntityId}
use razor_pay.Session.{Env, World, Action, pure, gets, write, draw_uuid, ◌>>=◌, ◌>>◌}

-- `_correlation_id.set`
abbrev pub set_correlation_id : String → Action Unit
set_correlation_id cid w = (ok tt, record w { correlation = cid })

-- `set_correlation_id(job.payload["correlation_id"])`, where the payload has one
abbrev pub adopt_correlation : Option String → Action Unit
adopt_correlation none = pure tt
adopt_correlation (some cid) = set_correlation_id cid

-- An unset id is drawn, and stays set.
unfoldable pub get_correlation_id : Env → Action String
get_correlation_id env w =
    if str_eq w.correlation ""
    then (do id ← draw_uuid env; set_correlation_id (env.uuid_text id); pure (env.uuid_text id)) w
    else pure w.correlation w

-- The UUID column takes the text of a UUID only.
abbrev pub entity_conflict : Env → EntityId → Option Error
entity_conflict env (EntityId.uuid id) = none
entity_conflict env (EntityId.text t) = if env.is_uuid t then none else some data_error

abbrev pub add_audit : AuditEvent → Db → Db
add_audit event db = record db { audits = db.audits ++ event ∷ [] }

-- It does not commit: the caller does.
unfoldable pub create_audit_event : Env → String → EntityId → String → String → Json → Action Unit
create_audit_event env entity_type entity_id event_type actor_type payload = do
  cid ← get_correlation_id env
  write (entity_conflict env entity_id) (
      add_audit (record {
        entity_type = entity_type;
        entity_id = entity_id;
        event_type = event_type;
        actor_type = actor_type;
        payload = scrub_payload env.lower payload;
        correlation_id = cid;
      }))
