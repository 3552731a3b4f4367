-- ===== src/Ws/Concrete.antt =====
-- A concrete platform: bytes in memory, and the bits of a header by arithmetic. It shows that the
-- hypotheses on the code outside the repository can be met.
use xx_url.Common.{ℕ, ◌+◌, ◌*◌, ◌/◌, ◌%◌, refl, arith, Bytes, [], ◌∷◌, length, ok, some}
use xx_url.Io.{ConnWrite}
use xx_url.Io.Memory.{memory, memory-Delivers}
use xx_url.Ws.Mask.{Endian}
use xx_url.Ws.Platform.{Platform, IsSound}
use xx_url.Ws.Wire.{FramePacket, HasLayout}

abbrev on_bytes : (ℕ → ℕ → Bytes) → Bytes → Bytes
on_bytes f (a ∷ b ∷ _) = f a b
on_bytes f _ = []

abbrev from_bytes : (ℕ → ℕ → ℕ) → Bytes → ℕ
from_bytes f (a ∷ b ∷ _) = f a b
from_bytes f _ = 0

abbrev pub packet : FramePacket
packet = record {
  minimum_packet_size = 2;
  get_fin = from_bytes (λ a b. a / 128);
  get_op = from_bytes (λ a b. a % 16);
  get_masked = from_bytes (λ a b. b / 128);
  get_len = from_bytes (λ a b. b % 128);
  set_fin = λ v. on_bytes (λ a b. (v * 128 + a % 128) ∷ b ∷ []);
  set_resv = λ v. on_bytes (λ a b. (a / 128 * 128 + v * 16 + a % 16) ∷ b ∷ []);
  set_op = λ v. on_bytes (λ a b. (a / 16 * 16 + v) ∷ b ∷ []);
  set_masked = λ v. on_bytes (λ a b. a ∷ (v * 128 + b % 128) ∷ []);
  set_len = λ v. on_bytes (λ a b. a ∷ (b / 128 * 128 + v) ∷ []);
}

pub packet-HasLayout : HasLayout packet
packet-HasLayout = record {
  size_two = refl;
  fin_bit = λ a b. refl;
  op_bits = λ a b. refl;
  masked_bit = λ a b. refl;
  len_bits = λ a b. refl;
  put_fin = λ v a b h. refl;
  put_resv = λ v a b h. refl;
  put_op = λ v a b h. refl;
  put_masked = λ v a b h. refl;
  put_len = λ v a b h. refl;
}

-- Writes vanish, and no timer ends.
abbrev sink : ConnWrite Bytes
sink = record {
  write_all_vectored = λ bytes r. (ok (length bytes), r);
  flush = λ r. (ok tt, r);
  shutdown_write = λ r. (ok tt, r);
  poll_hang_up = λ r. (ok tt, r);
  timeout = λ duration task r. (some (task r).0, (task r).1);
}

abbrev pub platform : Platform Bytes
platform = record {
  io = memory;
  out = sink;
  packet = packet;
  endian = Endian.little;
  align = λ bytes. record { pre = 0; words = length bytes / 4 };
}

pub platform-IsSound : IsSound platform (λ r. r)
platform-IsSound = record {
  delivers = memory-Delivers;
  layout = packet-HasLayout;
  aligned = λ bytes. omega arith;
}
