-- ===== src/Common/Xor.antt =====
-- `^` on bytes and words, from the recursion on binary digits that the operation stands for.
use Prim.Native.Nat.{
  ℕ, zero, suc, ◌+◌, ◌*◌, ◌/◌, ◌%◌, ◌^◌, ◌≤◌, ◌<◌, ◌-◌, bit_xor, digits, bit_xor-bitwise,
}
use Prim.Native.Nat.{differ}
use mathlib.Core.Path.{◌≡◌, refl, sym, ap, ◌∙◌}
use native.Mathlib.Nat.{pow-suc}
use native.Mathlib.Omega.{arith}

-- The digits of `^`, with fuel that may be larger than the first number.
abbrev xor_digits : ℕ → ℕ → ℕ → ℕ
xor_digits = digits (λ y. y) differ

one_more : (n a b : ℕ) → a ≤ n → xor_digits (suc n) a b ≡ xor_digits n a b
one_more zero zero b small = refl
one_more (suc n) zero b small = refl
one_more zero (suc a) b small = absurd (omega arith)
one_more (suc n) (suc a) b small = omega (arith, one_more n (suc a / 2) (b / 2) (omega arith))

spare : (d a b : ℕ) → xor_digits (d + a) a b ≡ xor_digits a a b
spare zero a b = ap (λ n. xor_digits n a b) (omega arith)
spare (suc d) a b =
    let next : suc d + a ≡ suc (d + a) = omega arith in
    ap (λ n. xor_digits n a b) next ∙ one_more (d + a) a b (omega arith) ∙ spare d a b

xor_digits-half : (a b : ℕ) → xor_digits a (suc a / 2) b ≡ xor_digits (suc a / 2) (suc a / 2) b
xor_digits-half a b =
    let surplus : (a - suc a / 2) + suc a / 2 ≡ a = omega arith in
    ap (λ n. xor_digits n (suc a / 2) b) (sym surplus) ∙ spare (a - suc a / 2) (suc a / 2) b

-- The lowest binary digit of `^`.
pub bit_xor_step : (a b : ℕ) → bit_xor a b ≡ bit_xor (a / 2) (b / 2) * 2 + differ (a % 2) (b % 2)
bit_xor_step zero b = simp bit_xor-bitwise (omega arith)
bit_xor_step (suc a) b = simp bit_xor-bitwise (omega (arith, xor_digits-half a (b / 2)))

pow-suc_times : (k t : ℕ) → t * 2 ^ suc k ≡ 2 * (t * 2 ^ k)
pow-suc_times k t = let base = pow-suc 2 k in omega (arith, ap (λ (p : ℕ). t * p) base)

-- `^` works on the fields of `k` low bits and of the rest apart.
pub bit_xor_fields :
    (k hi hi' lo lo' : ℕ)
    → lo < 2 ^ k
    → lo' < 2 ^ k
    → bit_xor (hi * 2 ^ k + lo) (hi' * 2 ^ k + lo') ≡ bit_xor hi hi' * 2 ^ k + bit_xor lo lo'
bit_xor_fields zero hi hi' lo lo' small small' = ground arith
bit_xor_fields (suc k) hi hi' lo lo' small small' =
    let halves = bit_xor_fields k hi hi' (lo / 2) (lo' / 2) in
    let double = λ (t : ℕ). pow-suc_times k t in
    ground (
      arith,
      pow-suc 2 k,
      halves,
      double hi,
      double hi',
      double (bit_xor hi hi'),
      bit_xor_step (hi * 2 ^ suc k + lo) (hi' * 2 ^ suc k + lo'),
      bit_xor_step lo lo',
    )

differ-lt : (a b : ℕ) → differ (a % 2) (b % 2) < 2
differ-lt a b = digit (a % 2) (b % 2) (omega arith) (omega arith)
  where
    digit : (x y : ℕ) → x < 2 → y < 2 → differ x y < 2
    digit zero y hx hy = hy
    digit (suc zero) zero hx hy = omega arith
    digit (suc zero) (suc zero) hx hy = omega arith
    digit (suc zero) (suc (suc y)) hx hy = absurd (omega arith)
    digit (suc (suc x)) y hx hy = absurd (omega arith)

differ-differ : (a b : ℕ) → differ (differ (a % 2) (b % 2)) (b % 2) ≡ a % 2
differ-differ a b = digit (a % 2) (b % 2) (omega arith) (omega arith)
  where
    digit : (x y : ℕ) → x < 2 → y < 2 → differ (differ x y) y ≡ x
    digit zero zero hx hy = refl
    digit zero (suc zero) hx hy = refl
    digit (suc zero) zero hx hy = refl
    digit (suc zero) (suc zero) hx hy = refl
    digit x (suc (suc y)) hx hy = absurd (omega arith)
    digit (suc (suc x)) y hx hy = absurd (omega arith)

bit_xor-lt : (k a b : ℕ) → a < 2 ^ k → b < 2 ^ k → bit_xor a b < 2 ^ k
bit_xor-lt zero a b ha hb = ground arith
bit_xor-lt (suc k) a b ha hb =
    ground (arith, bit_xor_step a b, differ-lt a b, pow-suc 2 k, bit_xor-lt k (a / 2) (b / 2))

bit_xor_again : (n a b : ℕ) → a ≤ n → b ≤ n → bit_xor (bit_xor a b) b ≡ a
bit_xor_again zero a b ha hb = ground arith
bit_xor_again (suc n) a b ha hb =
    let halves : bit_xor (bit_xor (a / 2) (b / 2)) (b / 2) ≡ a / 2 =
      bit_xor_again n (a / 2) (b / 2) (omega arith) (omega arith) in
    let low : bit_xor a b % 2 ≡ differ (a % 2) (b % 2) =
      omega (arith, bit_xor_step a b, differ-lt a b) in
    let high : bit_xor a b / 2 ≡ bit_xor (a / 2) (b / 2) =
      omega (arith, bit_xor_step a b, differ-lt a b) in
    bit_xor_step (bit_xor a b) b ∙ rw (low, high, halves, differ-differ a b) (omega arith)

-- `^` by the same number twice changes nothing.
pub bit_xor_self_inverse : (a b : ℕ) → bit_xor (bit_xor a b) b ≡ a
bit_xor_self_inverse a b = bit_xor_again (a + b) a b (omega arith) (omega arith)

pub bit_xor-IsByte : (a b : ℕ) → a < 256 → b < 256 → bit_xor a b < 256
bit_xor-IsByte a b ha hb = bit_xor-lt 8 a b ha hb

differ_zero : (a : ℕ) → differ a 0 ≡ a
differ_zero zero = refl
differ_zero (suc a) = refl

bit_xor_zero_below : (n b : ℕ) → b ≤ n → bit_xor b 0 ≡ b
bit_xor_zero_below n zero small = refl
bit_xor_zero_below zero (suc b) small = absurd (omega arith)
bit_xor_zero_below (suc n) (suc b) small =
    let ih = bit_xor_zero_below n (suc b / 2) (omega arith) in
    bit_xor_step (suc b) 0
    ∙ ap (λ x. x * 2 + differ (suc b % 2) 0) ih
    ∙ omega (arith, differ_zero (suc b % 2))

pub bit_xor_zero : (b : ℕ) → bit_xor b 0 ≡ b
bit_xor_zero b = bit_xor_zero_below b b (omega arith)
