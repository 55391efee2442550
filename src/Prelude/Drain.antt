-- ===== src/Prelude/Drain.antt =====
-- A loop over the rows that fit a test, which changes each in the table: none fits afterwards.
use Prim.Native.Nat.{ℕ}
use mathlib.Core.Path.{◌≡◌, refl}
use mathlib.Core.Logic.{inl, inr}
use mathlib.Core.Bool.{Bool, true, false}
use mathlib.Core.List.{List, [], ◌∷◌}
use native.Mathlib.Omega.{arith}
use razor_pay.Prelude.Tests.{◌==◌, if◌then◌else◌, Bool-cases}
use razor_pay.Prelude.Rows.{All, select, change, exists}

-- The table after each row of the list has been changed, by its key.
unfoldable pub drain {ℓ} : {A : Type ℓ} → (A → ℕ) → (A → A) → List A → List A → List A
drain key f [] xs = xs
drain key f (x ∷ rows) xs = drain key f rows (change (λ y. key y == key x) f xs)

pub All-map {ℓ κ ι} :
    {A : Type ℓ} (P : A → Type κ) (Q : A → Type ι) (xs : List A)
    → ((x : A) → P x → Q x)
    → All P xs
    → All Q xs
All-map P Q [] k h = tt
All-map P Q (x ∷ xs) k h = (k x h.0, All-map P Q xs k h.1)

module _ {ℓ} {A : Type ℓ} (q : A → Bool) (key : A → ℕ) (f : A → A) where
  -- A row that fits is one of those that the loop has still to come to.
  abbrev IsAhead : List A → A → Type 0
  IsAhead rows x = q x ≡ true → exists (λ y. key y == key x) rows ≡ true

  IsAhead-one :
      (x : A) (xs rest : List A) (b : Bool)
      → q x ≡ b
      → All (IsAhead rest) xs
      → All (IsAhead (if b then x ∷ rest else rest)) (x ∷ xs)
  unfolding exists
  IsAhead-one x xs rest true t h = (
    (λ e. ground arith),
    All-map (IsAhead rest) (IsAhead (x ∷ rest)) xs (λ y h' e. ground (arith, h' e)) h,
  )
  IsAhead-one x xs rest false n h = ((λ e. cc), h)

  IsAhead-select : (xs : List A) → All (IsAhead (select q xs)) xs
  unfolding select
  IsAhead-select [] = tt
  IsAhead-select (x ∷ xs) = IsAhead-one x xs (select q xs) (q x) refl (IsAhead-select xs)

  none_ahead : (xs : List A) → All (IsAhead []) xs → exists q xs ≡ false
  unfolding exists
  none_ahead [] h = refl
  none_ahead (x ∷ xs) h = elim (Bool-cases (q x)) [
    | inl t ↦ absurd (ground (arith, h.0 t))
    | inr n ↦ rw n (none_ahead xs h.1)
  ]

  module _ (still : (x : A) → key (f x) ≡ key x) (done : (x : A) → q (f x) ≡ false) where
    IsAhead-change :
        (x : A) (rows xs : List A)
        → All (IsAhead (x ∷ rows)) xs
        → All (IsAhead rows) (change (λ y. key y == key x) f xs)
    unfolding change exists
    IsAhead-change x rows [] h = tt
    IsAhead-change x rows (y ∷ xs) h = elim (Bool-cases (key y == key x)) [
      | inl t ↦ rw t ((λ e. absurd (ground (arith, done y))), IsAhead-change x rows xs h.1)
      | inr n ↦ rw n ((λ e. ground (arith, h.0 e)), IsAhead-change x rows xs h.1)
    ]

    drained : (rows xs : List A) → All (IsAhead rows) xs → exists q (drain key f rows xs) ≡ false
    unfolding drain
    drained [] xs h = none_ahead xs h
    drained (x ∷ rows) xs h = drained rows _ (IsAhead-change x rows xs h)

    -- After the loop over the rows that fit, no row fits.
    pub exists-drain : (xs : List A) → exists q (drain key f (select q xs) xs) ≡ false
    exists-drain xs = drained (select q xs) xs (IsAhead-select xs)

    stays_gone :
        (p : A → Bool) (xs : List A) → exists q xs ≡ false → exists q (change p f xs) ≡ false
    unfolding change exists
    stays_gone p [] h = refl
    stays_gone p (x ∷ xs) h = ground (arith, done x, stays_gone p xs)

    -- A loop over any rows brings none back.
    pub exists-drain_none :
        (rows xs : List A) → exists q xs ≡ false → exists q (drain key f rows xs) ≡ false
    unfolding drain
    exists-drain_none [] xs h = h
    exists-drain_none (x ∷ rows) xs h = exists-drain_none rows _ (stays_gone _ xs h)
