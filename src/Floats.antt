-- ===== src/Floats.antt =====
-- A Python float and its comparisons.
use Prim.Native.Nat.{◌^◌}
use razor_pay.Prelude.{
  ℕ, ◌*◌, ◌≡◌, refl, ℤ, pos, ◌-ℤ◌, is_negative, Bool, true, false, not, ◌||◌, arith,
}

-- Every finite float is a whole number of units of 2^-1074.
pub data Float : Type 0 where
  nan infinity minus_infinity : Float
  finite : ℤ → Float

-- The float of a whole number of seconds.
unfoldable pub seconds : ℕ → Float
seconds n = Float.finite (pos (n * 2 ^ 1074))

unfoldable pub is_nan : Float → Bool
is_nan nan = true
is_nan _ = false

-- `a < b`
unfoldable pub flt : Float → Float → Bool
flt nan b = false
flt infinity b = false
flt minus_infinity nan = false
flt minus_infinity minus_infinity = false
flt minus_infinity _ = true
flt (finite a) nan = false
flt (finite a) infinity = true
flt (finite a) minus_infinity = false
flt (finite a) (finite b) = is_negative (a -ℤ b)

-- `a >= b`
unfoldable pub fge : Float → Float → Bool
fge nan b = false
fge infinity nan = false
fge infinity _ = true
fge minus_infinity minus_infinity = true
fge minus_infinity _ = false
fge (finite a) nan = false
fge (finite a) infinity = false
fge (finite a) minus_infinity = true
fge (finite a) (finite b) = not (is_negative (a -ℤ b))

-- One of the two holds unless one side is NaN.
pub flt-fge : (a b : Float) → fge a b ≡ false → flt a b || (is_nan a || is_nan b) ≡ true
unfolding fge flt is_nan
flt-fge nan b h = ground arith
flt-fge infinity nan h = refl
flt-fge infinity infinity h = cc
flt-fge infinity minus_infinity h = cc
flt-fge infinity (finite b) h = cc
flt-fge minus_infinity nan h = refl
flt-fge minus_infinity infinity h = refl
flt-fge minus_infinity minus_infinity h = cc
flt-fge minus_infinity (finite b) h = refl
flt-fge (finite a) nan h = refl
flt-fge (finite a) infinity h = refl
flt-fge (finite a) minus_infinity h = cc
flt-fge (finite a) (finite b) h = ground arith

-- What is compared so is not NaN.
fge-is_nan : (a b : Float) → fge a b ≡ true → is_nan a ≡ false
unfolding fge is_nan
fge-is_nan nan b h = cc
fge-is_nan infinity b h = refl
fge-is_nan minus_infinity b h = refl
fge-is_nan (finite a) b h = refl

-- Between floats that are neither NaN nor negative, one of the two comparisons holds.
pub flt-times :
    (a b : Float)
    → fge a (seconds 0) ≡ true
    → fge b (seconds 0) ≡ true
    → fge a b ≡ false
    → flt a b ≡ true
flt-times a b ha hb h =
    let x = flt-fge a b h in
    let y = fge-is_nan a (seconds 0) ha in let z = fge-is_nan b (seconds 0) hb in ground arith

-- 0.0
abbrev pub nought : Float
nought = finite (pos 0)

-- The arithmetic of floats: `float` of a number of ten-thousandths, `a - b` and `a / b` of floats, and
-- `a / b` of integers.
pub record FloatOps : Type 0 where
  pub float : ℤ → Float
  pub sub : Float → Float → Float
  pub div : Float → Float → Float
  pub int_div : ℕ → ℕ → Float
