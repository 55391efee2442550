-- ===== src/Audit/Scrub/Clean.antt =====
-- What a scrubbed payload holds.
use razor_pay.Prelude.{
  ◌≡◌, arith, refl, ◌||◌, List, [], ◌∷◌, exists, String, Bool, true, false, Bool-cases, inl, inr,
  ap, ◌↔◌, if◌then◌else◌,
}
use razor_pay.Json.{Json, Items, Fields}
use razor_pay.Audit.Scrub.{
  contains, scrubbed, is_sensitive_key, is_sensitive_text, scrub_payload, scrub_items, scrub_fields,
}

-- The names, in lower case, whose values are not to be written.
abbrev pub is_secret : String → Bool
is_secret k =
    contains k "password"
    || (contains k "secret"
        || (contains k "token"
            || (contains k "authorization" || (contains k "api_key" || contains k "sk-"))))

-- A text that shows neither the beginning of a key nor a bearer token.
abbrev pub IsQuiet : String → Type 0
IsQuiet s = (contains s "sk-" ≡ false) × (contains s "Bearer " ≡ false)

-- Every text that is a value or an element, at any depth, is quiet, and a field with a secret name
-- holds the mark alone. The names themselves are free.
mutual
  pub IsClean : (String → String) → Json → Type 0
  IsClean lower Json.null = Unit
  IsClean lower (Json.num n) = Unit
  IsClean lower (Json.str s) = IsQuiet s
  IsClean lower (Json.arr xs) = AreClean lower xs
  IsClean lower (Json.obj fs) = FieldsClean lower fs

  pub AreClean : (String → String) → Items → Type 0
  AreClean lower Items.nil = Unit
  AreClean lower (Items.cons x xs) = IsClean lower x × AreClean lower xs

  pub FieldsClean : (String → String) → Fields → Type 0
  FieldsClean lower Fields.end = Unit
  FieldsClean lower (Fields.field k v fs) =
      (is_secret (lower k) ≡ true → v ≡ Json.str "[SCRUBBED SENSITIVE DATA]")
      × (is_secret (lower k) ≡ false → IsClean lower v)
      × FieldsClean lower fs

-- The fields of the program's list are the secret ones.
sensitive-is_secret :
    (lower : String → String) (k : String) → is_sensitive_key lower k ≡ is_secret (lower k)
unfolding is_sensitive_key exists
sensitive-is_secret lower k = ground arith

-- The names of the fields of an object, in their order.
abbrev pub names : Fields → List String
names Fields.end = []
names (Fields.field k v fs) = k ∷ names fs

mark_is_clean : (contains scrubbed "sk-" ≡ false) × (contains scrubbed "Bearer " ≡ false)
unfolding contains
mark_is_clean = (refl, refl)

scrub_text-IsClean :
    (lower : String → String) (s : String)
    → IsClean lower (if is_sensitive_text s then Json.str scrubbed else Json.str s)
unfolding IsClean is_sensitive_text
scrub_text-IsClean lower s = elim (Bool-cases (contains s "sk-")) [
  | inl key ↦ rw key mark_is_clean
  | inr no_key ↦ elim (Bool-cases (contains s "Bearer ")) [
    | inl token ↦ rw (no_key, token) mark_is_clean
    | inr no_token ↦ rw (no_key, no_token) (no_key, no_token)
  ]
]

field-IsClean :
    (lower : String → String) (b : Bool) (v : Json)
    → IsClean lower v
    → (b ≡ true → (if b then Json.str scrubbed else v) ≡ Json.str scrubbed)
      × (b ≡ false → IsClean lower (if b then Json.str scrubbed else v))
field-IsClean lower true v h = ((λ e. refl), (λ e. cc))
field-IsClean lower false v h = ((λ e. cc), (λ e. h))

mutual
  unfolding IsClean scrub_payload

  clean : (lower : String → String) (j : Json) → IsClean lower (scrub_payload lower j)
  clean lower Json.null = tt
  clean lower (Json.num n) = tt
  clean lower (Json.str s) = scrub_text-IsClean lower s
  clean lower (Json.arr xs) = clean_items lower xs
  clean lower (Json.obj fs) = clean_fields lower fs

  clean_items : (lower : String → String) (xs : Items) → AreClean lower (scrub_items lower xs)
  clean_items lower Items.nil = tt
  clean_items lower (Items.cons x xs) = (clean lower x, clean_items lower xs)

  clean_fields : (lower : String → String) (fs : Fields) → FieldsClean lower (scrub_fields lower fs)
  clean_fields lower Fields.end = tt
  clean_fields lower (Fields.field k v fs) =
      let h = field-IsClean lower (is_secret (lower k)) (scrub_payload lower v) (clean lower v) in
      rw (sensitive-is_secret lower k) (h.0, h.1, clean_fields lower fs)

mutual
  unfolding IsClean scrub_payload is_sensitive_text

  same : (lower : String → String) (j : Json) → IsClean lower j → scrub_payload lower j ≡ j
  same lower Json.null h = refl
  same lower (Json.num n) h = refl
  same lower (Json.str s) h = rw (h.0, h.1)
  same lower (Json.arr xs) h = ap Json.arr (same_items lower xs h)
  same lower (Json.obj fs) h = ap Json.obj (same_fields lower fs h)

  same_items :
      (lower : String → String) (xs : Items) → AreClean lower xs → scrub_items lower xs ≡ xs
  same_items lower Items.nil h = refl
  same_items lower (Items.cons x xs) h = cc (same lower x h.0, same_items lower xs h.1)

  same_fields :
      (lower : String → String) (fs : Fields) → FieldsClean lower fs → scrub_fields lower fs ≡ fs
  same_fields lower Fields.end h = refl
  same_fields lower (Fields.field k v fs) h = elim (Bool-cases (is_secret (lower k))) [
    | inl t ↦ rw (sensitive-is_secret lower k, t) (cc (h.0 t, same_fields lower fs h.2))
    | inr f ↦
        rw (sensitive-is_secret lower k, f) (cc (same lower v (h.1 f), same_fields lower fs h.2))
  ]

scrub_fields-names :
    (lower : String → String) (fs : Fields) → names (scrub_fields lower fs) ≡ names fs
unfolding scrub_payload
scrub_fields-names lower Fields.end = refl
scrub_fields-names lower (Fields.field k v fs) = ap (λ ks. k ∷ ks) (scrub_fields-names lower fs)

-- In a scrubbed payload, however deep it is nested, no text that is a value or an element holds "sk-"
-- or "Bearer ", and the value of a field whose name in lower case holds "password", "secret",
-- "token", "authorization", "api_key" or "sk-" is the mark. An object keeps the names of its fields,
-- whatever they hold.
pub scrub_payload-IsClean :
    (lower : String → String) (j : Json) (fs : Fields)
    → IsClean lower (scrub_payload lower j) × (names (scrub_fields lower fs) ≡ names fs)
scrub_payload-IsClean lower j fs = (clean lower j, scrub_fields-names lower fs)

-- Scrubbing changes a payload exactly if it is not clean, so scrubbing twice is scrubbing once.
pub scrub_payload-same :
    (lower : String → String) (j : Json)
    → ((scrub_payload lower j ≡ j) ↔ IsClean lower j)
      × (scrub_payload lower (scrub_payload lower j) ≡ scrub_payload lower j)
scrub_payload-same lower j = (
  ((λ e. rw e at (clean lower j)), same lower j),
  same lower (scrub_payload lower j) (clean lower j),
)
