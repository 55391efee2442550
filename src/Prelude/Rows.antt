-- ===== src/Prelude/Rows.antt =====
-- Rows of a table as a list: the first that fits, a change of all that fit, tests over all.
use Prim.Native.Nat.{ℕ, suc}
use mathlib.Core.Path.{◌≡◌, refl}
use mathlib.Core.Bool.{Bool, true, false, ◌||◌}
use mathlib.Core.Logic.{◌⊎◌, inl, inr}
use mathlib.Core.Option.{Option, none, some}
use mathlib.Core.List.{List, [], ◌∷◌, ◌++◌}
use native.Mathlib.Omega.{arith}
use razor_pay.Prelude.Tests.{Bool-cases, if◌then◌else◌}

module _ {ℓ} {A : Type ℓ} where
  abbrev pub length : List A → ℕ
  length [] = 0
  length (x ∷ xs) = suc (length xs)

  -- `query(...).filter(q).first()`
  unfoldable pub first : (A → Bool) → List A → Option A
  first q [] = none
  first q (x ∷ xs) = if q x then some x else first q xs

  -- `query(...).filter(q).all()`
  unfoldable pub select : (A → Bool) → List A → List A
  select q [] = []
  select q (x ∷ xs) = let rest = select q xs in if q x then x ∷ rest else rest

  -- every row that fits is changed by `f`
  unfoldable pub change : (A → Bool) → (A → A) → List A → List A
  change q f [] = []
  change q f (x ∷ xs) = (if q x then f x else x) ∷ change q f xs

  unfoldable pub exists : (A → Bool) → List A → Bool
  exists q [] = false
  exists q (x ∷ xs) = q x || exists q xs

  abbrev pub is_empty : List A → Bool
  is_empty [] = true
  is_empty (x ∷ xs) = false

  abbrev pub is_some : Option A → Bool
  is_some none = false
  is_some (some x) = true

  abbrev pub All {κ} : (A → Type κ) → List A → Type κ
  All P [] = Unit
  All P (x ∷ xs) = P x × All P xs

module _ {ℓ κ} {A : Type ℓ} (P : A → Type κ) where
  pub All-append : (xs ys : List A) → All P xs → All P ys → All P (xs ++ ys)
  All-append [] ys hx hy = hy
  All-append (x ∷ xs) ys hx hy = (hx.0, All-append xs ys hx.1 hy)

  changed : (b : Bool) {x y : A} → (b ≡ true → P y) → P x → P (if b then y else x)
  changed true hy hx = hy refl
  changed false hy hx = hx

  pub All-change :
      (q : A → Bool) (f : A → A) (xs : List A)
      → ((x : A) → q x ≡ true → P x → P (f x))
      → All P xs
      → All P (change q f xs)
  unfolding change
  All-change q f [] k h = h
  All-change q f (x ∷ xs) k h = (changed (q x) (λ e. k x e h.0) h.0, All-change q f xs k h.1)

  pub All-first :
      (q : A → Bool) (xs : List A) {x : A} → All P xs → first q xs ≡ some x → P x × (q x ≡ true)
  unfolding first
  All-first q [] h e = cc
  All-first q (y ∷ xs) {x} h e = elim (Bool-cases (q y)) [
    | inl t ↦
        let here : some y ≡ some x = (rw t at e) in let same : y ≡ x = cc in rw (← same) (h.0, t)
    | inr t ↦ All-first q xs h.1 (rw t at e)
  ]

module _ {ℓ} {A : Type ℓ} where
  pub exists-append :
      (q : A → Bool) (xs ys : List A) → exists q xs ≡ true → exists q (xs ++ ys) ≡ true
  unfolding exists
  exists-append q [] ys h = cc
  exists-append q (x ∷ xs) ys h = ground (arith, exists-append q xs ys)

  -- A change that leaves the test alone leaves its outcome alone.
  pub exists-change :
      (q p : A → Bool) (f : A → A) (xs : List A)
      → ((x : A) → p (f x) ≡ p x)
      → exists p (change q f xs) ≡ exists p xs
  unfolding exists change
  exists-change q p f [] k = refl
  exists-change q p f (x ∷ xs) k = ground (arith, k x, exists-change q p f xs k)

module _ {A : Type 0} where
  -- `x` is one of the rows.
  abbrev pub Among : A → List A → Type 0
  Among x [] = ⊥
  Among x (y ∷ ys) = (x ≡ y) ⊎ Among x ys

  pub Among-select :
      (q : A → Bool) (x : A) (ys : List A) → Among x (select q ys) → Among x ys × (q x ≡ true)
  unfolding select
  Among-select q x [] h = absurd h
  Among-select q x (y ∷ ys) h = elim (Bool-cases (q y)) [
    | inl t ↦
        let h' : (x ≡ y) ⊎ Among x (select q ys) = (rw t at h) in
        elim h' [
          | inl e ↦ (inl e, rw e t)
          | inr r ↦ let (m, p) = Among-select q x ys r in (inr m, p)
        ]
    | inr t ↦ let (m, p) = Among-select q x ys (rw t at h) in (inr m, p)
  ]

  pub Among-All {κ} : (P : A → Type κ) (x : A) (ys : List A) → All P ys → Among x ys → P x
  Among-All P x [] h m = absurd m
  Among-All P x (y ∷ ys) h (inl e) = rw e h.0
  Among-All P x (y ∷ ys) h (inr m) = Among-All P x ys h.1 m

module _ {ℓ} {A : Type ℓ} where
  pub select-none : (q : A → Bool) (xs : List A) → exists q xs ≡ false → select q xs ≡ []
  unfolding select exists
  select-none q [] h = refl
  select-none q (x ∷ xs) h = ground (arith, select-none q xs)

  pub select-some :
      (q : A → Bool) (xs : List A) → exists q xs ≡ true → is_empty (select q xs) ≡ false
  unfolding select exists
  select-some q [] h = cc
  select-some q (x ∷ xs) h = ground (arith, select-some q xs)

  pub exists-first-none : (q : A → Bool) (xs : List A) → first q xs ≡ none → exists q xs ≡ false
  unfolding first exists
  exists-first-none q [] h = refl
  exists-first-none q (x ∷ xs) h = ground (arith, exists-first-none q xs)

  pub change-none :
      (q : A → Bool) (f : A → A) (xs : List A) → exists q xs ≡ false → change q f xs ≡ xs
  unfolding change exists
  change-none q f [] h = refl
  change-none q f (x ∷ xs) h = ground (arith, change-none q f xs)

  pub change-append :
      (q : A → Bool) (f : A → A) (xs ys : List A)
      → change q f (xs ++ ys) ≡ change q f xs ++ change q f ys
  unfolding change
  change-append q f [] ys = refl
  change-append q f (x ∷ xs) ys = cc (change-append q f xs ys)

module _ {ℓ} {A : Type ℓ} where
  -- If no row fits a test, none fits a stronger one, and there is no first.
  pub exists-weaken :
      (p q : A → Bool) (xs : List A)
      → ((x : A) → p x ≡ true → q x ≡ true)
      → exists q xs ≡ false
      → exists p xs ≡ false
  unfolding exists
  exists-weaken p q [] k h = refl
  exists-weaken p q (x ∷ xs) k h = ground (arith, k x, exists-weaken p q xs k)

  pub first-none : (q : A → Bool) (xs : List A) → exists q xs ≡ false → first q xs ≡ none
  unfolding first exists
  first-none q [] h = refl
  first-none q (x ∷ xs) h = ground (arith, first-none q xs)

  pub first-change :
      (q : A → Bool) (f : A → A) (xs : List A) (x : A)
      → ((y : A) → q (f y) ≡ q y)
      → first q xs ≡ some x
      → first q (change q f xs) ≡ some (f x)
  unfolding first change
  first-change q f [] x keeps h = cc
  first-change q f (y ∷ xs) x keeps h = ground (arith, keeps y, first-change q f xs x keeps)

  -- A row that fits, behind rows that do not.
  pub first-append :
      (q : A → Bool) (xs : List A) (y : A)
      → exists q xs ≡ false
      → q y ≡ true
      → first q (xs ++ y ∷ []) ≡ some y
  unfolding first exists
  first-append q [] y h here = ground arith
  first-append q (x ∷ xs) y h here = ground (arith, first-append q xs y)

  pub first-fits : (q : A → Bool) (xs : List A) (x : A) → first q xs ≡ some x → q x ≡ true
  unfolding first
  first-fits q [] x h = cc
  first-fits q (y ∷ xs) x h = ground (arith, first-fits q xs x)
