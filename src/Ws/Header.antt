-- ===== src/Ws/Header.antt =====
-- ws/stream.rs: the header of a frame, and the length that follows its first two bytes.
pub mod Length
pub mod RoundTrip
use xx_url.Common.{
  ℕ, ◌+◌, ◌-◌, ◌%◌, ◌^◌, Bool, true, false, not, Option, none, some, [], ◌++◌, Bytes, length, take,
  replicate, is_some, ltb, leb, ◌==◌, if◌then◌else◌, ok, err, M, ◌>>=◌, ◌>>◌, pure,
}
use xx_url.Common.BigEndian.{to_be}
use xx_url.Errors.{external}
use xx_url.Io.{BufRead}
use xx_url.Ws.Wire.{Op, from_u8, to_u8, FramePacket}

pub record FrameHeader : Type 0 where
  pub fin : Bool
  pub op : Op
  pub mask : Option ℕ
  pub len : ℕ

-- The length code of the second byte, and the bytes of the extended length.
unfoldable pub encode_len : ℕ → ℕ × Bytes
encode_len len =
    if ltb len 0x7e
    then (len % 2 ^ 8, [])
    else if leb len 65535
    then (0x7e, to_be 2 (len % 2 ^ 16))
    else (0x7f, to_be 8 len)

-- `Cursor<&mut [u8]>` of the standard library, over an array of `room` bytes.
pub record Cursor : Type 0 where
  pub room : ℕ
  pub written : Bytes

-- The standard library's `write_all`: it fails (`WriteZero`) on what does not fit.
abbrev pub write_zero : ℕ
write_zero = 0

unfoldable pub write_all : Bytes → M Cursor (Unit {0})
write_all bytes c =
    if leb (length c.written + length bytes) c.room
    then (ok tt, record c { written = c.written ++ bytes })
    else (
      err (external write_zero),
      record c { written = c.written ++ take (c.room - length c.written) bytes },
    )

abbrev pub as_bit : Bool → ℕ
as_bit b = if b then 1 else 0

abbrev pub write_mask : Option ℕ → M Cursor (Unit {0})
write_mask none = pure tt
write_mask (some mask) = write_all (to_be 4 mask)

module _ (p : FramePacket) where
  -- The two bytes that the setters leave in a zeroed buffer.
  unfoldable pub wire_bytes : FrameHeader → ℕ → Bytes
  wire_bytes h len =
      let buf = replicate p.minimum_packet_size 0 in
      let buf = p.set_fin (as_bit h.fin) buf in
      let buf = p.set_resv 0 buf in
      let buf = p.set_op (to_u8 h.op) buf in
      let buf = p.set_masked (as_bit (is_some h.mask)) buf in p.set_len len buf

  unfoldable pub write : FrameHeader → M Cursor (Unit {0})
  write h = do
    let (len, length) = encode_len h.len
    write_all (wire_bytes h len)
    write_all length
    write_mask h.mask

module _ {R : Type 0} (io : BufRead R) where
  unfoldable pub decode_length : ℕ → M R ℕ
  decode_length len =
      if ltb len 0x7e then pure len else if len == 0x7e then io.read_be 2 else io.read_be 8

  abbrev pub read_mask : Bool → M R (Option ℕ)
  read_mask true = do mask ← io.read_be 4; pure (some mask)
  read_mask false = pure none

  module _ (p : FramePacket) where
    abbrev pub read_wire : Option Bytes → M R (Option FrameHeader)
    read_wire none = pure none
    read_wire (some wire) = do
      len ← decode_length (p.get_len wire)
      mask ← read_mask (not (p.get_masked wire == 0))
      pure (
          some (record {
            fin = not (p.get_fin wire == 0);
            op = from_u8 (p.get_op wire);
            mask = mask;
            len = len;
          }))

    unfoldable pub read : M R (Option FrameHeader)
    read = do wire ← io.try_read_type p.minimum_packet_size; read_wire wire
