-- ===== src/Provider.antt =====
-- app/ai/gateway/provider.py: `NemotronProvider`, over code points. The call of the model and the
-- validation of its answer by the schema are parameters.
pub mod Extract
pub mod Answers
use razor_pay.Prelude.{
  ℕ, zero, suc, ◌-◌, String, Bool, true, false, ◌&&◌, ◌||◌, Option, none, some, List, [], ◌∷◌, ◌++◌,
  ◌==◌, leb, length, is_empty, if◌then◌else◌,
}
use razor_pay.Errors.{Error, Result, ok, err, ai_decision}
use razor_pay.Contracts.{DecisionContext, Decision}

-- `str.isspace`, which `str.strip` and `\s` read
unfoldable pub is_space : ℕ → Bool
is_space c =
    (leb 9 c && leb c 13)
    || (leb 28 c && leb c 32)
    || c == 133
    || c == 160
    || c == 5760
    || (leb 8192 c && leb c 8202)
    || c == 8232
    || c == 8233
    || c == 8239
    || c == 8287
    || c == 12288

abbrev pub left_brace : ℕ
left_brace = 0x7b

abbrev pub right_brace : ℕ
right_brace = 0x7d

abbrev pub tick : ℕ
tick = 0x60

unfoldable pub lstrip : List ℕ → List ℕ
lstrip [] = []
lstrip (c ∷ s) = let rest = lstrip s in if is_space c then rest else c ∷ s

pub rstrip : List ℕ → List ℕ
rstrip [] = []
rstrip (c ∷ s) = let rest = rstrip s in if is_space c && is_empty rest then [] else c ∷ rest

-- `content.strip()`
pub strip : List ℕ → List ℕ
unfolding lstrip rstrip
strip s = rstrip (lstrip s)

pub starts_with : ℕ → List ℕ → Bool
starts_with c [] = false
starts_with c (x ∷ s) = x == c

pub ends_with : ℕ → List ℕ → Bool
ends_with c [] = false
ends_with c (x ∷ []) = x == c
ends_with c (x ∷ (y ∷ s)) = ends_with c (y ∷ s)

-- A matcher reads from the head of a text: the group that it captures, and the text after the match.
abbrev pub Matcher : Type 0
Matcher = List ℕ → Option (List ℕ × List ℕ)

-- `re.findall`: at each place, from the left, what the matcher captures; the search goes on after the
-- match. The number tells how much of a match is left to skip.
pub find_all : Matcher → ℕ → List ℕ → List (List ℕ)
find_all m skip [] = []
find_all m (suc k) (c ∷ s) = find_all m k s
find_all m zero (c ∷ s) = elim (m (c ∷ s)) [
  | none ↦ find_all m zero s
  | some (group, rest) ↦ group ∷ find_all m (length s - length rest) s
]

-- One more character of a group.
abbrev pub prepend : ℕ → Option (List ℕ × List ℕ) → Option (List ℕ × List ℕ)
prepend c none = none
prepend c (some (group, rest)) = some (c ∷ group, rest)

-- `.*?\}`
pub to_brace : Matcher
to_brace [] = none
to_brace (c ∷ s) =
    let more = to_brace s in if c == right_brace then some (c ∷ [], s) else prepend c more

-- `(\{.*?\})`
pub braces : Matcher
braces [] = none
braces (c ∷ s) = if c == left_brace then prepend c (to_brace s) else none

-- `\s*` and a backtick
pub to_tick : List ℕ → Option (List ℕ)
to_tick [] = none
to_tick (c ∷ s) =
    let more = to_tick s in if c == tick then some s else if is_space c then more else none

-- The lazy `.*?\}`, as far as the first brace that white space and a backtick follow.
abbrev pub close_at :
    ℕ → List ℕ → Option (List ℕ) → Option (List ℕ × List ℕ) → Option (List ℕ × List ℕ)
close_at c s (some rest) more = some (c ∷ [], rest)
close_at c s none more = prepend c more

pub to_close : Matcher
to_close [] = none
to_close (c ∷ s) =
    let more = to_close s in
    if c == right_brace then close_at c s (to_tick s) more else prepend c more

-- `(?:json)?`: without "json" the next character would have to be white space or a brace, and no "j".
pub after_json : List ℕ → List ℕ
after_json (a ∷ b ∷ c ∷ d ∷ s) =
    if a == 0x6a && (b == 0x73 && (c == 0x6f && d == 0x6e)) then s else a ∷ b ∷ c ∷ d ∷ s
after_json s = s

pub block_body : Matcher
block_body [] = none
block_body (c ∷ s) = if c == left_brace then prepend c (to_close s) else none

-- "`(?:json)?\s*(\{.*?\})\s*`"
pub block : Matcher
block [] = none
block (c ∷ s) = if c == tick then block_body (lstrip (after_json s)) else none

abbrev pub many_objects : Error
many_objects = ai_decision "Multiple JSON objects returned, ambiguous response"

abbrev pub no_object : Error
no_object = ai_decision "No valid JSON object found in response"

-- One match is the result, more than one is an error, and none leads on.
abbrev pub sole : List (List ℕ) → Result (List ℕ) → Result (List ℕ)
sole [] otherwise = otherwise
sole (object ∷ []) otherwise = ok object
sole _ otherwise = err many_objects

-- The search in a text that has been stripped.
pub search_json : List ℕ → Result (List ℕ)
search_json content =
    if starts_with left_brace content && ends_with right_brace content
    then ok content
    else sole (find_all block 0 content) (sole (find_all braces 0 content) (err no_object))

-- `_extract_json`
pub extract_json : List ℕ → Result (List ℕ)
unfolding search_json
extract_json content = search_json (strip content)

-- What may be raised in the `try` of `decide`.
pub data Failure : Type 0 where
  validation openai decision other : String → Failure

pub data Attempt (A : Type 0) : Type 0 where
  returned : A → Attempt A
  raised : Failure → Attempt A

-- The handlers of `decide`; `describe` writes the message of a failure.
abbrev pub as_decision_error : (String → String → String) → Failure → Error
as_decision_error describe (Failure.validation m) =
    ai_decision (describe "Invalid structured output: " m)
as_decision_error describe (Failure.openai m) = ai_decision (describe "Provider error: " m)
as_decision_error describe (Failure.decision m) = ai_decision m
as_decision_error describe (Failure.other m) = ai_decision (describe "Unexpected AI failure: " m)

-- What `model_validate_json` returns or raises.
abbrev pub answered : (String → String → String) → Attempt Decision → Result Decision
answered describe (Attempt.returned d) = ok d
answered describe (Attempt.raised f) = err (as_decision_error describe f)

-- The rest of the `try`, after `_extract_json`.
abbrev pub validated :
    (String → String → String) → (List ℕ → Attempt Decision) → Result (List ℕ) → Result Decision
validated describe validate_json (err e) = err e
validated describe validate_json (ok json) = answered describe (validate_json json)

-- The call of the model, the schema's validation, and the message of a wrapped failure.
module _ (create : DecisionContext → Attempt (Option (List ℕ)))
    (validate_json : List ℕ → Attempt Decision) (describe : String → String → String) where
  pub decide_content : Option (List ℕ) → Result Decision
  decide_content none = err (ai_decision "Empty response from Nemotron provider")
  decide_content (some []) = err (ai_decision "Empty response from Nemotron provider")
  decide_content (some (c ∷ s)) = validated describe validate_json (extract_json (c ∷ s))

  -- `NemotronProvider.decide`
  pub decide : DecisionContext → Result Decision
  unfolding decide_content
  decide context = elim (create context) [
    | Attempt.returned content ↦ decide_content content
    | Attempt.raised f ↦ err (as_decision_error describe f)
  ]
