-- ===== src/Ws/Mask.antt =====
-- ws/mod.rs: `mask`, which works on whole words where the bytes are aligned.
pub mod Words
pub mod Cyclic
use xx_url.Common.{ℕ, zero, suc, ◌+◌, ◌*◌, ◌/◌, ◌%◌, ◌^◌, Bytes, [], ◌∷◌, ◌++◌, take, drop, bit_xor}

-- The byte order of the machine.
pub data Endian : Type 0 where
  little big : Endian

-- A word of four bytes, the highest first.
abbrev pub word : ℕ → ℕ → ℕ → ℕ → ℕ
word d c b a = ((d * 256 + c) * 256 + b) * 256 + a

-- The byte `j` of a word, from the lowest.
abbrev pub byte_of : ℕ → ℕ → ℕ
byte_of j w = w / 256 ^ j % 256

-- `u32::from_ne_bytes`, `u32::to_ne_bytes` and `u32::to_be`.
unfoldable pub from_ne : Endian → ℕ → ℕ → ℕ → ℕ → ℕ
from_ne little b0 b1 b2 b3 = word b3 b2 b1 b0
from_ne big b0 b1 b2 b3 = word b0 b1 b2 b3

unfoldable pub to_ne : Endian → ℕ → Bytes
to_ne little w = byte_of 0 w ∷ byte_of 1 w ∷ byte_of 2 w ∷ byte_of 3 w ∷ []
to_ne big w = byte_of 3 w ∷ byte_of 2 w ∷ byte_of 1 w ∷ byte_of 0 w ∷ []

unfoldable pub to_be : Endian → ℕ → ℕ
to_be little w = word (byte_of 0 w) (byte_of 1 w) (byte_of 2 w) (byte_of 3 w)
to_be big w = w

-- `mask.rotate_left(8)`, on 32 bits.
unfoldable pub rotate_left : ℕ → ℕ
rotate_left m = m * 256 % 2 ^ 32 + m / 2 ^ 24

-- The loops over `pre` and `post`: the bytes, and `mask` after them.
unfoldable pub mask_loop : Bytes → ℕ → Bytes × ℕ
mask_loop [] m = ([], m)
mask_loop (b ∷ bs) m =
    let rest = mask_loop bs (rotate_left m) in (bit_xor b (m / 2 ^ 24 % 256) ∷ rest.0, rest.1)

-- The loop over `align`, by the number of words.
unfoldable pub mask_words : Endian → ℕ → ℕ → Bytes → Bytes
mask_words e m zero bytes = []
mask_words e m (suc n) (b0 ∷ b1 ∷ b2 ∷ b3 ∷ bytes) =
    to_ne e (bit_xor (from_ne e b0 b1 b2 b3) (to_be e m)) ++ mask_words e m n bytes
mask_words e m (suc n) bytes = []

-- How `align_to_mut` splits the bytes depends on their address: `pre` bytes, then `words` words.
pub record Split : Type 0 where
  pub pre : ℕ
  pub words : ℕ

unfoldable pub mask : Endian → Split → Bytes → ℕ → Bytes
mask e s bytes m =
    let after = drop s.pre bytes in
    let first = mask_loop (take s.pre bytes) m in
    let middle = mask_words e first.1 s.words (take (4 * s.words) after) in
    let last = mask_loop (drop (4 * s.words) after) first.1 in first.0 ++ (middle ++ last.0)
