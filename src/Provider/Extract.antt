-- ===== src/Provider/Extract.antt =====
-- What `_extract_json` returns.
use razor_pay.Prelude.{
  ℕ, ◌≡◌, refl, sym, ap, ◌∙◌, false, ◌&&◌, none, some, List, [], ◌∷◌, ◌++◌, ◌==◌, arith, is_empty,
  length, All, ◌+◌, ◌-◌, Bool-cases, inl, inr, if◌then◌else◌,
}
use razor_pay.Errors.{ok}
use razor_pay.Provider.{
  is_space, left_brace, right_brace, tick, lstrip, rstrip, strip, starts_with, Matcher, find_all,
  to_brace, braces, block, search_json, extract_json,
}

-- A text without the braces and the backtick that the search looks for.
abbrev pub IsPlain : List ℕ → Type 0
IsPlain s = All (λ c. (c == left_brace ≡ false) × (c == tick ≡ false)) s

abbrev pub IsOpen : List ℕ → Type 0
IsOpen s = All (λ c. (c == right_brace ≡ false) × (c == tick ≡ false)) s

-- As far as the first closing brace.
to_brace-append :
    (a post : List ℕ)
    → IsOpen a
    → to_brace (a ++ right_brace ∷ post) ≡ some (a ++ right_brace ∷ [], post)
unfolding to_brace
to_brace-append [] post h = refl
to_brace-append (c ∷ a) post h = ground (arith, h.0, to_brace-append a post h.1)

find_plain :
    (m : Matcher) (pre s : List ℕ)
    → ((c : ℕ) (t : List ℕ) → c == left_brace ≡ false → c == tick ≡ false → m (c ∷ t) ≡ none)
    → IsPlain pre
    → find_all m 0 (pre ++ s) ≡ find_all m 0 s
unfolding find_all
find_plain m [] s k h = refl
find_plain m (c ∷ pre) s k h = rw (k c (pre ++ s) h.0.0 h.0.1) (find_plain m pre s k h.1)

braces-plain :
    (c : ℕ) (t : List ℕ) → c == left_brace ≡ false → c == tick ≡ false → braces (c ∷ t) ≡ none
unfolding braces
braces-plain c t h k = ground arith

block-tick : (c : ℕ) (t : List ℕ) → c == tick ≡ false → block (c ∷ t) ≡ none
unfolding block
block-tick c t k = ground arith

-- No backtick, no block.
find_block : (s : List ℕ) → All (λ c. c == tick ≡ false) s → find_all block 0 s ≡ []
unfolding find_all
find_block [] h = refl
find_block (c ∷ s) h = rw (block-tick c s h.0, find_all) (find_block s h.1)

length-append : (x s : List ℕ) → length (x ++ s) ≡ length x + length s
length-append [] s = omega arith
length-append (c ∷ x) s = omega (arith, length-append x s)

-- The rest of a match is skipped.
find_all-skip : (m : Matcher) (x s : List ℕ) → find_all m (length x) (x ++ s) ≡ find_all m 0 s
unfolding find_all
find_all-skip m [] [] = refl
find_all-skip m [] (c ∷ s) = refl
find_all-skip m (c ∷ x) s = find_all-skip m x s

-- An object, from its brace to the first closing one.
abbrev pub object : List ℕ → List ℕ
object a = left_brace ∷ a ++ right_brace ∷ []

append_one : (a post : List ℕ) → a ++ right_brace ∷ post ≡ (a ++ right_brace ∷ []) ++ post
append_one [] post = refl
append_one (c ∷ a) post = ap (λ l. c ∷ l) (append_one a post)

find_braces_none : (s : List ℕ) → IsPlain s → find_all braces 0 s ≡ []
unfolding find_all
find_braces_none [] h = refl
find_braces_none (c ∷ s) h = rw (braces-plain c s h.0.0 h.0.1, find_all) (find_braces_none s h.1)

find_all-match :
    (m : Matcher) (c : ℕ) (s group rest : List ℕ)
    → m (c ∷ s) ≡ some (group, rest)
    → find_all m 0 (c ∷ s) ≡ group ∷ find_all m (length s - length rest) s
unfolding find_all
find_all-match m c s group rest h = rw (h, find_all)

find_braces :
    (a post : List ℕ)
    → IsOpen a
    → IsPlain post
    → find_all braces 0 (left_brace ∷ a ++ right_brace ∷ post) ≡ object a ∷ []
unfolding braces
find_braces a post closed plain =
    let found : braces (left_brace ∷ a ++ right_brace ∷ post) ≡ some (object a, post) =
      rw (to_brace-append a post closed) refl in
    let gap : length (a ++ right_brace ∷ post) - length post ≡ length (a ++ right_brace ∷ []) =
      omega (arith, length-append a (right_brace ∷ post), length-append a (right_brace ∷ [])) in
    find_all-match braces left_brace (a ++ right_brace ∷ post) (object a) post found
    ∙ rw (gap, append_one a post)
        (ap (λ l. object a ∷ l)
          (find_all-skip braces (a ++ right_brace ∷ []) post ∙ find_braces_none post plain))

rstrip-brace : (x post : List ℕ) → rstrip (x ++ right_brace ∷ post) ≡ x ++ right_brace ∷ rstrip post
unfolding rstrip is_space
rstrip-brace [] post = refl
rstrip-brace (c ∷ x) post = rw (rstrip-brace x post) (kept x)
  where
    kept :
        (y : List ℕ)
        → (if is_space c && is_empty (y ++ right_brace ∷ rstrip post)
            then []
            else c ∷ y ++ right_brace ∷ rstrip post)
          ≡ c ∷ y ++ right_brace ∷ rstrip post
    kept [] = ground arith
    kept (d ∷ y) = ground arith

rstrip-IsPlain : (s : List ℕ) → IsPlain s → IsPlain (rstrip s)
unfolding rstrip
rstrip-IsPlain [] h = tt
rstrip-IsPlain (c ∷ s) h = elim (Bool-cases (is_space c && is_empty (rstrip s))) [
  | inl t ↦ rw t tt
  | inr f ↦ rw f (h.0, rstrip-IsPlain s h.1)
]

abbrev HasNoTick : List ℕ → Type 0
HasNoTick s = All (λ c. c == tick ≡ false) s

plain-HasNoTick : (s t : List ℕ) → IsPlain s → HasNoTick t → HasNoTick (s ++ t)
plain-HasNoTick [] t h k = k
plain-HasNoTick (c ∷ s) t h k = (h.0.1, plain-HasNoTick s t h.1 k)

open-HasNoTick : (s t : List ℕ) → IsOpen s → HasNoTick t → HasNoTick (s ++ t)
open-HasNoTick [] t h k = k
open-HasNoTick (c ∷ s) t h k = (h.0.1, open-HasNoTick s t h.1 k)

plain-alone : (s : List ℕ) → IsPlain s → HasNoTick s
plain-alone [] h = tt
plain-alone (c ∷ s) h = (h.0.1, plain-alone s h.1)

append-brace :
    (pre a post : List ℕ)
    → (pre ++ left_brace ∷ a) ++ right_brace ∷ post ≡ pre ++ left_brace ∷ (a ++ right_brace ∷ post)
append-brace [] a post = refl
append-brace (c ∷ pre) a post = ap (λ l. c ∷ l) (append-brace pre a post)

-- In an answer that begins with prose, has no backtick and no opening brace but one, the result is the
-- text from that brace to the first closing one, whatever closing braces follow.
pub extract_json-first_object :
    (c : ℕ) (pre a post : List ℕ)
    → is_space c ≡ false
    → IsPlain (c ∷ pre)
    → IsOpen a
    → IsPlain post
    → extract_json (c ∷ (pre ++ left_brace ∷ (a ++ right_brace ∷ post))) ≡ ok (object a)
unfolding extract_json search_json strip lstrip starts_with
extract_json-first_object c pre a post visible plain closed rest =
    let end = rstrip post in
    let x = c ∷ (pre ++ left_brace ∷ a) in
    let text = c ∷ (pre ++ left_brace ∷ (a ++ right_brace ∷ end)) in
    let stripped : rstrip (c ∷ (pre ++ left_brace ∷ (a ++ right_brace ∷ post))) ≡ text =
      ap (λ l. rstrip (c ∷ l)) (sym (append-brace pre a post))
      ∙ rstrip-brace x post
      ∙ ap (λ l. c ∷ l) (append-brace pre a end) in
    let clean = rstrip-IsPlain post rest in
    let none_open : find_all block 0 text ≡ [] = find_block text (
      plain-HasNoTick (c ∷ pre) _ plain
        (refl, open-HasNoTick a (right_brace ∷ end) closed (refl, plain-alone end clean))) in
    let one : find_all braces 0 text ≡ object a ∷ [] =
      find_plain braces (c ∷ pre) _ braces-plain plain ∙ find_braces a end closed clean in
    rw (visible, stripped, plain.0.0, none_open, one)
