-- ===== src/Common/Utf8.antt =====
-- The standard library's check of UTF-8, as `str::from_utf8` and `String::from_utf8` make it: the
-- well-formed byte sequences of the Unicode standard.
use Prim.Native.Nat.{ℕ, ◌<◌}
use mathlib.Core.Bool.{Bool, true, false, ◌&&◌}
use mathlib.Core.List.{[], ◌∷◌}
use mathlib.Core.Path.{◌≡◌, refl}
use xx_url.Common.Tests.{ltb, leb, ◌==◌, if◌then◌else◌, lt→ltb}
use xx_url.Common.Lists.{Bytes, All}
use xx_url.Common.Results.{Result, ok, err}
use xx_url.Errors.{invalid_utf8}

abbrev within : ℕ → ℕ → ℕ → Bool
within lo hi b = leb lo b && leb b hi

-- The range of the byte after the first, which some first bytes narrow.
second_in_range : ℕ → ℕ → Bool
second_in_range first b =
    if first == 0xe0
    then within 0xa0 0xbf b
    else if first == 0xed
    then within 0x80 0x9f b
    else if first == 0xf0
    then within 0x90 0xbf b
    else if first == 0xf4
    then within 0x80 0x8f b
    else within 0x80 0xbf b

-- How many bytes a first byte that is no ASCII announces, with itself; 0 for none.
sequence_length : ℕ → ℕ
sequence_length b =
    if within 0xc2 0xdf b
    then 2
    else if within 0xe0 0xef b
    then 3
    else if within 0xf0 0xf4 b
    then 4
    else 0

abbrev tail_byte : ℕ → Bool
tail_byte = within 0x80 0xbf

unfoldable pub is_utf8 : Bytes → Bool
unfolding second_in_range sequence_length
is_utf8 [] = true
is_utf8 (a ∷ []) = ltb a 0x80
is_utf8 (a ∷ b ∷ []) =
    let rest = is_utf8 (b ∷ []) in
    if ltb a 0x80 then rest else sequence_length a == 2 && second_in_range a b
is_utf8 (a ∷ b ∷ c ∷ []) =
    let one = is_utf8 (b ∷ c ∷ []) in
    let two = is_utf8 (c ∷ []) in
    if ltb a 0x80
    then one
    else second_in_range a b
      && (if sequence_length a == 2 then two else sequence_length a == 3 && tail_byte c)
is_utf8 (a ∷ b ∷ c ∷ d ∷ bytes) =
    let one = is_utf8 (b ∷ c ∷ d ∷ bytes) in
    let two = is_utf8 (c ∷ d ∷ bytes) in
    let three = is_utf8 (d ∷ bytes) in
    let four = is_utf8 bytes in
    if ltb a 0x80
    then one
    else second_in_range a b
      && (if sequence_length a == 2
          then two
          else tail_byte c
            && (if sequence_length a == 3
                then three
                else sequence_length a == 4 && (tail_byte d && four)))

-- `String::from_utf8`: the same bytes, or an error.
unfoldable pub from_utf8 : Bytes → Result Bytes
from_utf8 bytes = if is_utf8 bytes then ok bytes else err invalid_utf8

is_utf8_samples :
    (is_utf8 (0x68 ∷ 0xc3 ∷ 0xa9 ∷ 0xe2 ∷ 0x82 ∷ 0xac ∷ 0xf0 ∷ 0x9f ∷ 0x98 ∷ 0x80 ∷ []) ≡ true)
    × (is_utf8 (0xc0 ∷ 0x80 ∷ []) ≡ false)
    × (is_utf8 (0xed ∷ 0xa0 ∷ 0x80 ∷ []) ≡ false)
unfolding is_utf8
is_utf8_samples = (refl, refl, refl)

is_utf8-ascii : (bs : Bytes) → All (λ b. b < 128) bs → is_utf8 bs ≡ true
unfolding is_utf8
is_utf8-ascii [] h = refl
is_utf8-ascii (a ∷ []) h = lt→ltb a 0x80 h.0
is_utf8-ascii (a ∷ b ∷ []) h = rw (lt→ltb a 0x80 h.0) (is_utf8-ascii (b ∷ []) h.1)
is_utf8-ascii (a ∷ b ∷ c ∷ []) h = rw (lt→ltb a 0x80 h.0) (is_utf8-ascii (b ∷ c ∷ []) h.1)
is_utf8-ascii (a ∷ b ∷ c ∷ d ∷ bs) h = rw (lt→ltb a 0x80 h.0) (is_utf8-ascii (b ∷ c ∷ d ∷ bs) h.1)

-- ASCII is valid.
pub from_utf8-ascii : (bs : Bytes) → All (λ b. b < 128) bs → from_utf8 bs ≡ ok bs
unfolding from_utf8
from_utf8-ascii bs h = rw (is_utf8-ascii bs h)
