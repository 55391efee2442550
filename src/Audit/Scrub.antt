-- ===== src/Audit/Scrub.antt =====
-- `_scrub_payload` of app/domain/observability/audit.py.
pub mod Clean
use text.Mathlib.Text.{find?}
use razor_pay.Prelude.{String, Bool, ◌||◌, List, [], ◌∷◌, is_some, exists, if◌then◌else◌}
use razor_pay.Json.{Json, Items, Fields}

-- `needle in text`
unfoldable pub contains : String → String → Bool
contains text needle = is_some (find? text needle)

abbrev pub scrubbed : String
scrubbed = "[SCRUBBED SENSITIVE DATA]"

abbrev pub sensitive_keys : List String
sensitive_keys = "api_key" ∷ "password" ∷ "secret" ∷ "authorization" ∷ "sk-" ∷ "token" ∷ []

module _ (lower : String → String) where
  unfoldable pub is_sensitive_key : String → Bool
  is_sensitive_key key = exists (λ s. contains (lower key) s) sensitive_keys

unfoldable pub is_sensitive_text : String → Bool
is_sensitive_text s = contains s "sk-" || contains s "Bearer "

unfoldable mutual
  pub scrub_payload : (String → String) → Json → Json
  scrub_payload lower Json.null = Json.null
  scrub_payload lower (Json.num n) = Json.num n
  scrub_payload lower (Json.str s) = if is_sensitive_text s then Json.str scrubbed else Json.str s
  scrub_payload lower (Json.arr xs) = Json.arr (scrub_items lower xs)
  scrub_payload lower (Json.obj fs) = Json.obj (scrub_fields lower fs)

  pub scrub_items : (String → String) → Items → Items
  scrub_items lower Items.nil = Items.nil
  scrub_items lower (Items.cons x xs) = Items.cons (scrub_payload lower x) (scrub_items lower xs)

  pub scrub_fields : (String → String) → Fields → Fields
  scrub_fields lower Fields.end = Fields.end
  scrub_fields lower (Fields.field k v fs) =
      Fields.field k (if is_sensitive_key lower k then Json.str scrubbed else scrub_payload lower v)
        (scrub_fields lower fs)
