-- ===== src/Common/BigEndian.antt =====
-- `to_be_bytes` and `from_be_bytes` of the unsigned integers, by their width in bytes.
use Prim.Native.Nat.{ℕ, zero, suc, ◌+◌, ◌*◌, ◌/◌, ◌%◌, ◌^◌, ◌<◌}
use mathlib.Core.List.{[], ◌∷◌}
use mathlib.Core.Path.{◌≡◌, refl, ap, ◌∙◌}
use native.Mathlib.Nat.{pow-succ', div-add-mod, one-le-pow, mod-eq_of_lt}
use native.Mathlib.Omega.{arith}
use xx_url.Common.Lists.{Bytes, IsByte, length, All}

unfoldable pub to_be : ℕ → ℕ → Bytes
to_be zero v = []
to_be (suc w) v = (v / 256 ^ w % 256) ∷ to_be w v

from_be_onto : ℕ → Bytes → ℕ
from_be_onto acc [] = acc
from_be_onto acc (b ∷ bs) = from_be_onto (acc * 256 + b) bs

unfoldable pub from_be : Bytes → ℕ
unfolding from_be_onto
from_be = from_be_onto 0

pub length-to_be : (w v : ℕ) → length (to_be w v) ≡ w
unfolding to_be
length-to_be zero v = refl
length-to_be (suc w) v = ap suc (length-to_be w v)

to_be-IsByte : (w v : ℕ) → All IsByte (to_be w v)
unfolding to_be
to_be-IsByte zero v = tt
to_be-IsByte (suc w) v = (omega arith, to_be-IsByte w v)

-- A remainder is known from any decomposition.
mod_unique : (n d k r : ℕ) → r < d → n ≡ k * d + r → n % d ≡ r
mod_unique n d k r h e = grind arith

mod_digits : (v m : ℕ) → 0 < m → v % (256 * m) ≡ v / m % 256 * m + v % m
mod_digits v m h = mod_unique v (256 * m) (v / m / 256) (v / m % 256 * m + v % m) below splits
  where
    below : v / m % 256 * m + v % m < 256 * m
    below = grind arith

    splits : v ≡ v / m / 256 * (256 * m) + (v / m % 256 * m + v % m)
    splits = omega (arith, ap (λ (t : ℕ). t * m) (div-add-mod (v / m) 256), div-add-mod v m)

next_digit : (acc q m r : ℕ) → (acc * 256 + q) * m + r ≡ acc * (256 * m) + (q * m + r)
next_digit acc q m r = grind arith

from_be_onto-to_be : (w acc v : ℕ) → from_be_onto acc (to_be w v) ≡ acc * 256 ^ w + v % 256 ^ w
unfolding from_be_onto to_be
from_be_onto-to_be zero acc v = omega arith
from_be_onto-to_be (suc w) acc v =
    from_be_onto-to_be w (acc * 256 + v / 256 ^ w % 256) v
    ∙ next_digit acc (v / 256 ^ w % 256) (256 ^ w) (v % 256 ^ w)
    ∙ rw (pow-succ' 256 w, mod_digits v (256 ^ w) (one-le-pow w 256 (omega arith)))

-- `from_be_bytes` undoes `to_be_bytes`.
pub from_be-to_be : (w v : ℕ) → v < 256 ^ w → from_be (to_be w v) ≡ v
unfolding from_be
from_be-to_be w v h = from_be_onto-to_be w 0 v ∙ omega (arith, mod-eq_of_lt h)
