-- ===== src/Provider/Answers.antt =====
-- The shape of what `_extract_json` returns, and the errors of `decide`.
use razor_pay.Prelude.{
  ℕ, zero, suc, ◌≡◌, refl, sym, String, true, ◌&&◌, Option, none, some, List, [], ◌∷◌, ◌==◌, arith,
  length, All, ◌-◌, Bool-cases, Option-cases, inl, inr,
}
use razor_pay.Errors.{Error, Result, ok, err, ai_decision}
use razor_pay.Contracts.{DecisionContext, Decision}
use razor_pay.Provider.{
  left_brace, right_brace, tick, strip, starts_with, ends_with, Matcher, find_all, prepend,
  to_brace, braces, to_tick, to_close, after_json, block_body, block, lstrip, sole, many_objects,
  no_object, search_json, extract_json, Failure, Attempt, as_decision_error, answered, validated,
  decide_content, decide,
}

-- A text that begins and ends with the braces of an object.
abbrev pub IsObject : List ℕ → Type 0
IsObject s = (starts_with left_brace s ≡ true) × (ends_with right_brace s ≡ true)

-- What a matcher captures ends with a brace.
abbrev Closes : Option (List ℕ × List ℕ) → Type 0
Closes none = Unit
Closes (some (group, rest)) = ends_with right_brace group ≡ true

prepend-Closes : (c : ℕ) (o : Option (List ℕ × List ℕ)) → Closes o → Closes (prepend c o)
unfolding ends_with
prepend-Closes c none h = tt
prepend-Closes c (some ([], rest)) h = cc
prepend-Closes c (some (d ∷ group, rest)) h = h

to_brace-Closes : (s : List ℕ) → Closes (to_brace s)
unfolding to_brace ends_with
to_brace-Closes [] = tt
to_brace-Closes (c ∷ s) = elim (Bool-cases (c == right_brace)) [
  | inl t ↦ rw t t
  | inr f ↦ rw f (prepend-Closes c (to_brace s) (to_brace-Closes s))
]

to_close-Closes : (s : List ℕ) → Closes (to_close s)
unfolding to_close ends_with
to_close-Closes [] = tt
to_close-Closes (c ∷ s) = elim (Bool-cases (c == right_brace)) [
  | inl t ↦ rw t (elim (Option-cases (to_tick s)) [
    | inl gone ↦ rw gone (prepend-Closes c (to_close s) (to_close-Closes s))
    | inr (rest, e) ↦ rw e t
  ])
  | inr f ↦ rw f (prepend-Closes c (to_close s) (to_close-Closes s))
]

-- What a matcher captures is an object.
abbrev Captures : Option (List ℕ × List ℕ) → Type 0
Captures none = Unit
Captures (some (group, rest)) = IsObject group

opened :
    (c : ℕ) (o : Option (List ℕ × List ℕ))
    → c == left_brace ≡ true
    → Closes o
    → Captures (prepend c o)
unfolding starts_with ends_with
opened c none e h = tt
opened c (some ([], rest)) e h = cc
opened c (some (d ∷ group, rest)) e h = (e, h)

braces-Captures : (s : List ℕ) → Captures (braces s)
unfolding braces
braces-Captures [] = tt
braces-Captures (c ∷ s) = elim (Bool-cases (c == left_brace)) [
  | inl t ↦ rw t (opened c (to_brace s) t (to_brace-Closes s))
  | inr f ↦ rw f tt
]

block_body-Captures : (s : List ℕ) → Captures (block_body s)
unfolding block_body
block_body-Captures [] = tt
block_body-Captures (c ∷ s) = elim (Bool-cases (c == left_brace)) [
  | inl t ↦ rw t (opened c (to_close s) t (to_close-Closes s))
  | inr f ↦ rw f tt
]

block-Captures : (s : List ℕ) → Captures (block s)
unfolding block
block-Captures [] = tt
block-Captures (c ∷ s) = elim (Bool-cases (c == tick)) [
  | inl t ↦ rw t (block_body-Captures (lstrip (after_json s)))
  | inr f ↦ rw f tt
]

find_all-All :
    (m : Matcher)
    → ((s : List ℕ) → Captures (m s))
    → (skip : ℕ) (s : List ℕ) → All IsObject (find_all m skip s)
unfolding find_all
find_all-All m k skip [] = tt
find_all-All m k (suc n) (c ∷ s) = find_all-All m k n s
find_all-All m k zero (c ∷ s) = elim (Option-cases (m (c ∷ s))) [
  | inl gone ↦ rw (gone, find_all) (find_all-All m k zero s)
  | inr ((group, rest), e) ↦
      let one : IsObject group = rw e at (k (c ∷ s)) in
      rw (e, find_all) (one, find_all-All m k (length s - length rest) s)
]

sole-IsObject :
    (l : List (List ℕ)) (r : Result (List ℕ)) (t : List ℕ)
    → All IsObject l
    → (r ≡ ok t → IsObject t)
    → sole l r ≡ ok t
    → IsObject t
sole-IsObject [] r t h k e = k e
sole-IsObject (x ∷ []) r t h k e = let same : x ≡ t = cc in rw (← same) h.0
sole-IsObject (x ∷ y ∷ l) r t h k e = cc

-- Whatever the model answers, what is handed to the validation begins with an opening brace and ends
-- with a closing one.
pub extract_json-IsObject :
    (content : List ℕ) {t : List ℕ} → extract_json content ≡ ok t → IsObject t
unfolding extract_json search_json
extract_json-IsObject content {t} e =
    let s = strip content in
    elim (Bool-cases (starts_with left_brace s && ends_with right_brace s)) [
      | inl native ↦ let same : s ≡ t = ground (arith, e) in ground (arith, native, same)
      | inr other ↦
          sole-IsObject (find_all block 0 s) _ t (find_all-All block block-Captures 0 s)
            (sole-IsObject (find_all braces 0 s) _ t (find_all-All braces braces-Captures 0 s)
              (λ f. cc))
            (rw other at e)
    ]

abbrev pub Returns : Attempt Decision → Decision → Type 0
Returns a d = a ≡ Attempt.returned d

-- How a result of `decide` comes about: a decision is what the validation makes of an object in the
-- content that the model returned, and an error is that of the decision.
abbrev pub IsExplained :
    (List ℕ → Attempt Decision) → Attempt (Option (List ℕ)) → Result Decision → Type 0
IsExplained validate_json answer (ok d) =
    (content : List ℕ) × (t : List ℕ) × (answer ≡ Attempt.returned (some content))
    × (extract_json content ≡ ok t)
    × IsObject t
    × Returns (validate_json t) d
IsExplained validate_json answer (err e) = (m : String) × (e ≡ ai_decision m)

IsDecisionError : Error → Type 0
IsDecisionError e = (m : String) × (e ≡ ai_decision m)

sole_error :
    (l : List (List ℕ)) (r : Result (List ℕ)) (e : Error)
    → (r ≡ err e → IsDecisionError e)
    → sole l r ≡ err e
    → IsDecisionError e
unfolding IsDecisionError
sole_error [] r e k h = k h
sole_error (x ∷ []) r e k h = cc
sole_error (x ∷ y ∷ l) r e k h =
    let same : many_objects ≡ e = cc in
    ("Multiple JSON objects returned, ambiguous response", sym same)

-- Every error of `_extract_json` is one of the decision.
extract_json_error :
    (content : List ℕ) (e : Error) → extract_json content ≡ err e → IsDecisionError e
unfolding extract_json search_json IsDecisionError
extract_json_error content e h =
    let s = strip content in
    elim (Bool-cases (starts_with left_brace s && ends_with right_brace s)) [
      | inl native ↦ absurd (ground (arith, native, h))
      | inr other ↦
          sole_error (find_all block 0 s) _ e (sole_error (find_all braces 0 s) _ e (λ f. wrong f))
            (rw other at h)
    ]
  where
    wrong : ◌≡◌ {A = Result (List ℕ)} (err no_object) (err e) → IsDecisionError e
    wrong f = let same : no_object ≡ e = cc in ("No valid JSON object found in response", sym same)

module _ (create : DecisionContext → Attempt (Option (List ℕ)))
    (validate_json : List ℕ → Attempt Decision) (describe : String → String → String) where
  explain_failure : (f : Failure) → (m : String) × (as_decision_error describe f ≡ ai_decision m)
  explain_failure (Failure.validation m) = (_, refl)
  explain_failure (Failure.openai m) = (_, refl)
  explain_failure (Failure.decision m) = (_, refl)
  explain_failure (Failure.other m) = (_, refl)

  explain_json :
      (content t : List ℕ) (a : Attempt Decision)
      → extract_json content ≡ ok t
      → validate_json t ≡ a
      → IsExplained validate_json (Attempt.returned (some content)) (answered describe a)
  explain_json content t (Attempt.returned d) e v =
      (content, t, refl, e, extract_json-IsObject content e, v)
  explain_json content t (Attempt.raised f) e v = explain_failure f

  explain_content :
      (content : List ℕ) (r : Result (List ℕ))
      → extract_json content ≡ r
      → IsExplained validate_json
          (Attempt.returned (some content))
          (validated describe validate_json r)
  unfolding IsDecisionError
  explain_content content (ok t) e = explain_json content t (validate_json t) e refl
  explain_content content (err x) e = extract_json_error content x e

  explain :
      (a : Attempt (Option (List ℕ)))
      → IsExplained validate_json a (elim a [
        | Attempt.returned content ↦ decide_content create validate_json describe content
        | Attempt.raised f ↦ err (as_decision_error describe f)
      ])
  unfolding decide_content
  explain (Attempt.returned none) = ("Empty response from Nemotron provider", refl)
  explain (Attempt.returned (some [])) = ("Empty response from Nemotron provider", refl)
  explain (Attempt.returned (some (c ∷ s))) = explain_content (c ∷ s) (extract_json (c ∷ s)) refl
  explain (Attempt.raised f) = explain_failure f

  -- Whatever the call of the model and the validation return or raise, `decide` returns a decision that
  -- the validation made of an object in the model's answer, or raises `AIDecisionError`.
  pub decide-IsExplained :
      (context : DecisionContext)
      → IsExplained validate_json (create context) (decide create validate_json describe context)
  unfolding decide
  decide-IsExplained context = explain (create context)
