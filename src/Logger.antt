-- ===== src/Logger.antt =====
-- app/utils/logger.py: the scrubbing of a log record, over code points.
pub mod Hides
pub mod Lines
use razor_pay.Prelude.{
  ℕ, zero, suc, ◌-◌, String, Bool, true, false, ◌&&◌, ◌||◌, Option, none, some, List, [], ◌∷◌, ◌++◌,
  ◌==◌, leb, length, if◌then◌else◌,
}
use razor_pay.Provider.{is_space, lstrip}

abbrev pub Text : Type 0
Text = List ℕ

-- `[a-zA-Z0-9_\-\.]`
unfoldable pub is_token : ℕ → Bool
is_token c =
    (leb 0x61 c && leb c 0x7a)
    || (leb 0x41 c && leb c 0x5a)
    || (leb 0x30 c && leb c 0x39)
    || c == 0x5f
    || c == 0x2d
    || c == 0x2e

-- A pattern reads from the head of a text, and returns what follows the match.
abbrev pub Pattern : Type 0
Pattern = Text → Option Text

pub drop_token : Text → Text
drop_token [] = []
drop_token (c ∷ s) = let rest = drop_token s in if is_token c then rest else c ∷ s

-- `[a-zA-Z0-9_\-\.]+`
unfoldable pub token_run : Pattern
token_run [] = none
token_run (c ∷ s) = if is_token c then some (drop_token s) else none

-- `\s+[a-zA-Z0-9_\-\.]+`
unfoldable pub spaced : Pattern
unfolding token_run
spaced [] = none
spaced (c ∷ s) = if is_space c then token_run (lstrip s) else none

-- A word, and what follows it.
unfoldable pub after : Text → Pattern → Pattern
after [] follows s = follows s
after (a ∷ word) follows [] = none
after (a ∷ word) follows (c ∷ s) = let rest = after word follows s in if c == a then rest else none

-- "sk-" and "Bearer", with what follows
abbrev pub key : Pattern
key = after (0x73 ∷ 0x6b ∷ 0x2d ∷ []) token_run

abbrev pub bearer : Pattern
bearer = after (0x42 ∷ 0x65 ∷ 0x61 ∷ 0x72 ∷ 0x65 ∷ 0x72 ∷ []) spaced

-- "[SCRUBBED]"
abbrev pub scrubbed : Text
scrubbed = 0x5b ∷ 0x53 ∷ 0x43 ∷ 0x52 ∷ 0x55 ∷ 0x42 ∷ 0x42 ∷ 0x45 ∷ 0x44 ∷ 0x5d ∷ []

abbrev pub scrubbed_key : Text
scrubbed_key = 0x73 ∷ 0x6b ∷ 0x2d ∷ scrubbed

abbrev pub scrubbed_bearer : Text
scrubbed_bearer = 0x42 ∷ 0x65 ∷ 0x61 ∷ 0x72 ∷ 0x65 ∷ 0x72 ∷ 0x20 ∷ scrubbed

-- `re.sub`: each match, from the left, is replaced, and the search goes on after it. The number tells
-- how much of a match is left to skip.
pub sub : Pattern → Text → ℕ → Text → Text
sub p mark skip [] = []
sub p mark (suc k) (c ∷ s) = sub p mark k s
sub p mark zero (c ∷ s) = elim (p (c ∷ s)) [
  | none ↦ c ∷ sub p mark zero s
  | some rest ↦ mark ++ sub p mark (length s - length rest) s
]

-- `_scrub_string`, and `_scrub` of the formatter for text
pub scrub_string : Text → Text
scrub_string text = sub key scrubbed_key 0 (sub bearer scrubbed_bearer 0 text)

-- What the formatters read of a record. `extra` has the attributes that the caller has set, as texts, and
-- `exc_info` is as `formatException` writes it.
pub record LogRecord : Type 0 where
  pub levelname : Text
  pub name : Text
  pub msg : Text
  pub extra : String → Option Text
  pub exc_info : Option Text

abbrev pub extra_keys : List String
extra_keys = "payment_id" ∷ "recovery_case_id" ∷ "job_id" ∷ "worker_id" ∷ "event_type" ∷ []

pub extras : (String → Option Text) → List String → List (String × Text)
extras extra [] = []
extras extra (k ∷ keys) = elim (extra k) [
  | none ↦ extras extra keys
  | some v ↦ (k, v) ∷ extras extra keys
]

abbrev pub exc_text : Option Text → List (String × Text)
exc_text none = []
exc_text (some t) = ("exc_info", scrub_string t) ∷ []

-- `JSONFormatter.format`, up to `json.dumps`: the entries of `log_data`. `get_message` is the record's
-- `getMessage`.
pub log_data : (LogRecord → Text) → Text → Text → LogRecord → List (String × Text)
log_data get_message timestamp correlation_id r =
    ("timestamp", timestamp)
      ∷ ("level", r.levelname)
      ∷ ("logger", r.name)
      ∷ ("message", scrub_string (get_message r))
      ∷ ("correlation_id", correlation_id)
      ∷ extras r.extra extra_keys
    ++ exc_text r.exc_info

-- `ScrubbedTextFormatter.format`; `render` is the base class's.
pub text_line : (LogRecord → Text) → LogRecord → Text
unfolding scrub_string
text_line render r = scrub_string (render (record r { msg = scrub_string r.msg }))
