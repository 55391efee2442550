-- ===== src/Prelude/Distinct.antt =====
-- Rows that are told apart by a key, and how many rows fit a test.
use Prim.Native.Nat.{ℕ, ◌≤◌}
use mathlib.Core.Path.{◌≡◌, refl}
use mathlib.Core.Logic.{inl, inr}
use mathlib.Core.Bool.{Bool, true, false}
use mathlib.Core.List.{List, [], ◌∷◌, ◌++◌}
use native.Mathlib.Omega.{arith}
use razor_pay.Prelude.Tests.{Bool-cases, if◌then◌else◌}
use razor_pay.Prelude.Rows.{length, select, change, exists, exists-change, All, Among, select-none}

module _ {A : Type 0} where
  -- No row has the key of an earlier one; `same x y` tells that `y` has the key of `x`.
  abbrev pub Distinct : (A → A → Bool) → List A → Type 0
  Distinct same [] = Unit
  Distinct same (x ∷ xs) = (exists (same x) xs ≡ false) × Distinct same xs

  exists-snoc :
      (q : A → Bool) (xs : List A) (y : A)
      → exists q xs ≡ false
      → q y ≡ false
      → exists q (xs ++ y ∷ []) ≡ false
  unfolding exists
  exists-snoc q [] y h k = ground arith
  exists-snoc q (x ∷ xs) y h k = ground (arith, exists-snoc q xs y)

  -- A row with a new key may be added.
  pub Distinct-append :
      (same : A → A → Bool) (xs : List A) (y : A)
      → ((x : A) → same x y ≡ true → same y x ≡ true)
      → exists (same y) xs ≡ false
      → Distinct same xs
      → Distinct same (xs ++ y ∷ [])
  unfolding exists
  Distinct-append same [] y sym new h = (refl, tt)
  Distinct-append same (x ∷ xs) y sym new h = (
    exists-snoc (same x) xs y h.0 (ground (arith, sym x)),
    Distinct-append same xs y sym (ground arith) h.1,
  )

  -- A change that keeps the keys keeps them apart.
  pub Distinct-change :
      (same : A → A → Bool) (q : A → Bool) (f : A → A) (xs : List A)
      → ((x y : A) → same x (f y) ≡ same x y)
      → ((x y : A) → same (f x) y ≡ same x y)
      → Distinct same xs
      → Distinct same (change q f xs)
  unfolding change exists
  Distinct-change same q f [] right left h = tt
  Distinct-change same q f (x ∷ xs) right left h = (
    head (q x) (exists-change q (same x) f xs (right x)),
    Distinct-change same q f xs right left h.1,
  )
    where
      weaker : (ys : List A) → exists (same (f x)) ys ≡ exists (same x) ys
      weaker [] = refl
      weaker (y ∷ ys) = ground (arith, left x y, weaker ys)

      head :
          (b : Bool)
          → exists (same x) (change q f xs) ≡ exists (same x) xs
          → exists (same (if b then f x else x)) (change q f xs) ≡ false
      head true e = ground (arith, weaker (change q f xs), h.0)
      head false e = ground (arith, h.0)

  pub exists-Among :
      (q : A → Bool) (x : A) (xs : List A) → Among x xs → q x ≡ true → exists q xs ≡ true
  unfolding exists
  exists-Among q x [] m h = absurd m
  exists-Among q x (y ∷ xs) (inl e) h = ground arith
  exists-Among q x (y ∷ xs) (inr m) h = ground (arith, exists-Among q x xs m h)

  All-apart :
      (P : A → Type 0) (q : A → Bool) (xs : List A)
      → exists q xs ≡ false
      → All (λ y. q y ≡ true → P y) xs
  unfolding exists
  All-apart P q [] h = tt
  All-apart P q (x ∷ xs) h =
      let no : q x ≡ false = ground arith in
      let rest : exists q xs ≡ false = ground arith in ((λ e. absurd (cc)), All-apart P q xs rest)

  -- The rows with the key of a row are that row.
  pub Distinct-All :
      (same : A → A → Bool) (x : A) (xs : List A)
      → ((y z : A) → same y z ≡ true → same z y ≡ true)
      → Distinct same xs
      → Among x xs
      → All (λ y. same x y ≡ true → y ≡ x) xs
  Distinct-All same x [] sym h m = tt
  Distinct-All same x (y ∷ xs) sym h (inl e) =
      let new : exists (same x) xs ≡ false = rw e h.0 in
      ((λ s. rw e), All-apart (λ z. z ≡ x) (same x) xs new)
  Distinct-All same x (y ∷ xs) sym h (inr m) = (
    (λ s. let there = exists-Among (same y) x xs m (sym x y s) in absurd (ground (arith, h.0))),
    Distinct-All same x xs sym h.1 m,
  )

-- How many rows fit.
abbrev pub count : {A : Type 0} → (A → Bool) → List A → ℕ
count q xs = length (select q xs)

module _ {A : Type 0} where
  pub count-none : (q : A → Bool) (xs : List A) → exists q xs ≡ false → count q xs ≡ 0
  count-none q xs h = rw (select-none q xs h)

  -- Where a fitting row has the key of every fitting row, at most one row fits.
  pub count-Distinct :
      (same : A → A → Bool) (q : A → Bool) (xs : List A)
      → ((x : A) → q x ≡ true → (y : A) → same x y ≡ q y)
      → Distinct same xs
      → count q xs ≤ 1
  unfolding select exists
  count-Distinct same q [] k h = omega arith
  count-Distinct same q (x ∷ xs) k h = elim (Bool-cases (q x)) [
    | inl t ↦
        rw t
          (let e : exists q xs ≡ false = equal xs (k x t) h.0 in omega (arith, count-none q xs e))
    | inr f ↦ rw f (count-Distinct same q xs k h.1)
  ]
    where
      equal :
          (ys : List A)
          → ((y : A) → same x y ≡ q y)
          → exists (same x) ys ≡ false
          → exists q ys ≡ false
      equal [] e n = refl
      equal (y ∷ ys) e n = ground (arith, e y, equal ys e)
