-- ===== src/Api/Correlation.antt =====
-- app/api/middleware/correlation.py: the correlation id of a request, over code points.
use razor_pay.Prelude.{
  ℕ, zero, suc, ◌≤◌, ◌≡◌, Bool, true, false, ◌&&◌, Option, none, some, List, [], ◌∷◌, arith, leb,
  ◌==◌, length, All, select, is_empty, Bool-cases, inl, inr, if◌then◌else◌,
}

-- the class [\x20-\x7E]
abbrev pub is_printable : ℕ → Bool
is_printable c = leb 0x20 c && leb c 0x7e

-- `s[:n]`
pub take : ℕ → List ℕ → List ℕ
take zero s = []
take (suc n) [] = []
take (suc n) (c ∷ s) = c ∷ take n s

-- `str.strip`, on a text of printable ASCII: the space is its only white space.
pub strip_left : List ℕ → List ℕ
strip_left [] = []
strip_left (c ∷ s) = let rest = strip_left s in if c == 0x20 then rest else c ∷ s

pub strip_right : List ℕ → List ℕ
strip_right [] = []
strip_right (c ∷ s) =
    let rest = strip_right s in if c == 0x20 && is_empty rest then [] else c ∷ rest

-- Only printable characters, at most 72 of them, and no space at the ends.
pub sanitize : List ℕ → List ℕ
sanitize header = strip_right (strip_left (take 72 (select is_printable header)))

-- A header that is missing, or of which nothing is left, is replaced by the text of a new UUID.
pub request_correlation_id : List ℕ → Option (List ℕ) → List ℕ
request_correlation_id new none = new
request_correlation_id new (some header) =
    let id = sanitize header in if is_empty id then new else id

module _ {R : Type 0} where
  -- `dispatch`: the id is set for the handler, added to its response and reset in the end. The
  -- handler returns its response with the id that it leaves set, or raises (`none`).
  pub dispatch :
      (List ℕ → Option R)
      → List ℕ
      → Option (List ℕ)
      → Option (List ℕ)
      → Option (R × List ℕ) × Option (List ℕ)
  dispatch call_next new header previous =
      let id = request_correlation_id new header in
      (elim (call_next id) [ none ↦ none | some r ↦ some (r, id) ], previous)

All-take :
    (n : ℕ) (s : List ℕ)
    → All (λ c. is_printable c ≡ true) s
    → All (λ c. is_printable c ≡ true) (take n s)
unfolding take
All-take zero s h = tt
All-take (suc n) [] h = tt
All-take (suc n) (c ∷ s) h = (h.0, All-take n s h.1)

All-select : (s : List ℕ) → All (λ c. is_printable c ≡ true) (select is_printable s)
unfolding select
All-select [] = tt
All-select (c ∷ s) = elim (Bool-cases (is_printable c)) [
  | inl t ↦ rw t (t, All-select s)
  | inr f ↦ rw f (All-select s)
]

length-take : (n : ℕ) (s : List ℕ) → length (take n s) ≤ n
unfolding take
length-take zero s = omega arith
length-take (suc n) [] = omega arith
length-take (suc n) (c ∷ s) = omega (arith, length-take n s)

-- A text that is acceptable as an id: printable, and no longer than `n`.
abbrev pub Fits : ℕ → List ℕ → Type 0
Fits n s = All (λ c. is_printable c ≡ true) s × (length s ≤ n)

strip_left-Fits : (n : ℕ) (s : List ℕ) → Fits n s → Fits n (strip_left s)
unfolding strip_left
strip_left-Fits n [] h = h
strip_left-Fits n (c ∷ s) h = elim (Bool-cases (c == 0x20)) [
  | inl t ↦ rw t (strip_left-Fits n s (h.0.1, omega arith))
  | inr f ↦ rw f h
]

strip_right-All :
    (s : List ℕ)
    → All (λ c. is_printable c ≡ true) s
    → All (λ c. is_printable c ≡ true) (strip_right s)
unfolding strip_right
strip_right-All [] h = tt
strip_right-All (c ∷ s) h = elim (Bool-cases (c == 0x20 && is_empty (strip_right s))) [
  | inl t ↦ rw t tt
  | inr f ↦ rw f (h.0, strip_right-All s h.1)
]

length-strip_right : (s : List ℕ) → length (strip_right s) ≤ length s
unfolding strip_right
length-strip_right [] = omega arith
length-strip_right (c ∷ s) = ground (arith, length-strip_right s)

sanitize-Fits : (header : List ℕ) → Fits 72 (sanitize header)
unfolding sanitize
sanitize-Fits header =
    let cut = take 72 (select is_printable header) in
    let (printable, short) =
      strip_left-Fits 72 cut
        (All-take 72 (select is_printable header) (All-select header), length-take 72 _) in
    (strip_right-All (strip_left cut) printable, omega (arith, length-strip_right (strip_left cut)))

-- Whatever the header holds, the id of the request is not empty, printable and at most 72
-- characters long, if the text of the new UUID is.
pub request_correlation_id-Fits :
    (new : List ℕ) (header : Option (List ℕ))
    → Fits 72 new
    → is_empty new ≡ false
    → Fits 72 (request_correlation_id new header)
      × (is_empty (request_correlation_id new header) ≡ false)
unfolding request_correlation_id
request_correlation_id-Fits new none fits full = (fits, full)
request_correlation_id-Fits new (some header) fits full =
    elim (Bool-cases (is_empty (sanitize header))) [
      | inl t ↦ rw t (fits, full)
      | inr f ↦ rw f (sanitize-Fits header, f)
    ]
