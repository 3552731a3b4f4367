-- ===== src/Ws/Wire.antt =====
-- ws/wire.rs: opcodes, and the first two bytes of a frame.
use xx_url.Common.{
  arith, ℕ, ◌+◌, ◌*◌, ◌/◌, ◌%◌, ◌<◌, ◌≡◌, Bool, true, false, [], ◌∷◌, Bytes, ◌==◌, if◌then◌else◌,
}

pub data Op : Type 0 where
  invalid continuation text binary close ping pong : Op

abbrev pub is_control : Op → Bool
is_control ping = true
is_control pong = true
is_control close = true
is_control _ = false

unfoldable pub Op-discrete : Discrete Op
Op-discrete = hlevel

-- `op as u8`: the discriminant -1 of `Invalid` wraps.
unfoldable pub to_u8 : Op → ℕ
to_u8 invalid = 255
to_u8 continuation = 0
to_u8 text = 1
to_u8 binary = 2
to_u8 close = 8
to_u8 ping = 9
to_u8 pong = 10

-- The derived `from_u8`, with `unwrap_or_default`: the default is `Invalid`.
unfoldable pub from_u8 : ℕ → Op
from_u8 n =
    if n == 0
    then continuation
    else if n == 1
    then text
    else if n == 2
    then binary
    else if n == 8
    then close
    else if n == 9
    then ping
    else if n == 10
    then pong
    else invalid

-- The accessors that the `packet` macro of the pnet package makes for `Frame`: on the header's
-- bytes, by the declared fields.
pub record FramePacket : Type 0 where
  pub minimum_packet_size : ℕ
  pub get_fin : Bytes → ℕ
  pub get_op : Bytes → ℕ
  pub get_masked : Bytes → ℕ
  pub get_len : Bytes → ℕ
  pub set_fin : ℕ → Bytes → Bytes
  pub set_resv : ℕ → Bytes → Bytes
  pub set_op : ℕ → Bytes → Bytes
  pub set_masked : ℕ → Bytes → Bytes
  pub set_len : ℕ → Bytes → Bytes

-- What the macro documents: the fields lie in the order of their declaration, the first in the
-- highest bits, with the widths that their types name.
pub record HasLayout (p : FramePacket) : Type 0 where
  pub size_two : p.minimum_packet_size ≡ 2
  pub fin_bit : (a b : ℕ) → p.get_fin (a ∷ b ∷ []) ≡ a / 128
  pub op_bits : (a b : ℕ) → p.get_op (a ∷ b ∷ []) ≡ a % 16
  pub masked_bit : (a b : ℕ) → p.get_masked (a ∷ b ∷ []) ≡ b / 128
  pub len_bits : (a b : ℕ) → p.get_len (a ∷ b ∷ []) ≡ b % 128
  pub put_fin : (v a b : ℕ) → v < 2 → p.set_fin v (a ∷ b ∷ []) ≡ (v * 128 + a % 128) ∷ b ∷ []
  pub put_resv :
      (v a b : ℕ) → v < 8 → p.set_resv v (a ∷ b ∷ []) ≡ (a / 128 * 128 + v * 16 + a % 16) ∷ b ∷ []
  pub put_op : (v a b : ℕ) → v < 16 → p.set_op v (a ∷ b ∷ []) ≡ (a / 16 * 16 + v) ∷ b ∷ []
  pub put_masked : (v a b : ℕ) → v < 2 → p.set_masked v (a ∷ b ∷ []) ≡ a ∷ (v * 128 + b % 128) ∷ []
  pub put_len : (v a b : ℕ) → v < 128 → p.set_len v (a ∷ b ∷ []) ≡ a ∷ (b / 128 * 128 + v) ∷ []

pub from_u8-to_u8 : (op : Op) → from_u8 (to_u8 op) ≡ op
unfolding from_u8 to_u8
from_u8-to_u8 op = ground arith
