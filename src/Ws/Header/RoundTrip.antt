-- ===== src/Ws/Header/RoundTrip.antt =====
-- `FrameHeader::write` and `FrameHeader::read`.
use xx_url.Common.{
  Result, ap, ◌%◌, ◌/◌, append_assoc, ◌∙◌, not, ◌==◌, ℕ, ◌+◌, ◌*◌, ◌/◌, ◌%◌, ◌^◌, ◌≤◌, ◌<◌, ◌≡◌,
  ◌≢◌, refl, ap₂, append-nil, arith, Bool, true, false, Option, none, some, Bytes, [], ◌∷◌, ◌++◌,
  length, length-append, ok, is_some,
}
use xx_url.Common.BigEndian.{to_be, length-to_be}
use xx_url.Io.{BufRead}
use xx_url.Io.Delivery.{Delivers}
use xx_url.Ws.Wire.{Op, invalid, to_u8, from_u8, from_u8-to_u8, FramePacket, HasLayout}
use xx_url.Ws.Header.{
  read, read_mask, FrameHeader, Cursor, write_all, encode_len, wire_bytes, write, as_bit,
  write_mask,
}
use xx_url.Ws.Header.Length.{
  encode_len-code, decode_length-encode_len, read_be-to_be, length-encode_len,
}

-- What fits the fields of the wire format.
pub record Fits (h : FrameHeader) : Type 0 where
  pub op_known : h.op ≢ invalid
  pub len_fits : h.len < 2 ^ 64
  pub mask_fits : (m : ℕ) → h.mask ≡ some m → m < 2 ^ 32

abbrev pub mask_bytes : Option ℕ → Bytes
mask_bytes none = []
mask_bytes (some m) = to_be 4 m

abbrev pub first_byte : FrameHeader → ℕ
first_byte h = as_bit h.fin * 128 + to_u8 h.op

abbrev pub second_byte : FrameHeader → ℕ
second_byte h = as_bit (is_some h.mask) * 128 + (encode_len h.len).0

-- RFC 6455's header, in plain arithmetic.
abbrev pub header_bytes : FrameHeader → Bytes
header_bytes h = first_byte h ∷ second_byte h ∷ ((encode_len h.len).1 ++ mask_bytes h.mask)

abbrev pub cursor : Bytes → Cursor
cursor bytes = record { room = 16; written = bytes }

to_u8-lt : (op : Op) → op ≢ invalid → to_u8 op < 16
unfolding to_u8
to_u8-lt Op.invalid h = absurd (h refl)
to_u8-lt _ h = omega arith

as_bit-lt : (b : Bool) → as_bit b < 2
as_bit-lt true = omega arith
as_bit-lt false = omega arith

module _ {p : FramePacket} (l : HasLayout p) where
  -- The setters of all fields, one after the other, on a zeroed header.
  set_fields :
      (fin op masked len : ℕ)
      → fin < 2
      → op < 16
      → masked < 2
      → len < 128
      → p.set_len len
          (p.set_masked masked (p.set_op op (p.set_resv 0 (p.set_fin fin (0 ∷ 0 ∷ [])))))
        ≡ (fin * 128 + op) ∷ (masked * 128 + len) ∷ []
  set_fields fin op masked len hf ho hm hl = rw (l.put_fin fin 0 0 hf) (
      rw (l.put_resv 0 (fin * 128 + 0) 0 (omega arith)) (
        rw (l.put_op op ((fin * 128 + 0) / 128 * 128 + 0 * 16 + (fin * 128 + 0) % 16) 0 ho) (
          rw (l.put_masked masked _ 0 hm)
            (rw (l.put_len len _ _ hl) (ap₂ (λ a b. a ∷ b ∷ []) (omega arith) (omega arith))))))

  wire_bytes-layout :
      (h : FrameHeader) (len : ℕ)
      → h.op ≢ invalid
      → len < 128
      → wire_bytes p h len ≡ first_byte h ∷ (as_bit (is_some h.mask) * 128 + len) ∷ []
  unfolding wire_bytes
  wire_bytes-layout h len known small = rw (l.size_two) (
      set_fields (as_bit h.fin) (to_u8 h.op) (as_bit (is_some h.mask)) len (as_bit-lt h.fin)
        (to_u8-lt h.op known) (as_bit-lt (is_some h.mask)) small)

write_all_fits :
    (bytes done : Bytes)
    → length done + length bytes ≤ 16
    → write_all bytes (cursor done) ≡ (ok tt, cursor (done ++ bytes))
unfolding write_all
write_all_fits bytes done h = ground arith

length-mask_bytes : (m : Option ℕ) → length (mask_bytes m) ≤ 4
length-mask_bytes none = omega arith
length-mask_bytes (some m) = omega (arith, length-to_be 4 m)

write_mask_fits :
    (m : Option ℕ) (done : Bytes)
    → length done ≤ 12
    → write_mask m (cursor done) ≡ (ok tt, cursor (done ++ mask_bytes m))
write_mask_fits none done h = rw append-nil
write_mask_fits (some m) done h = write_all_fits (to_be 4 m) done (omega (arith, length-to_be 4 m))

-- The header takes 14 bytes at most, so a cursor over 16 bytes never refuses it.
pub write_lem :
    {p : FramePacket}
    → HasLayout p
    → (h : FrameHeader) → h.op ≢ invalid
    → write p h (cursor []) ≡ (ok tt, cursor (header_bytes h))
unfolding write
write_lem l h known =
    let code = encode_len h.len in
    let bits = wire_bytes-layout l h code.0 known (encode_len-code h.len) in
    rw (bits, write_all_fits (first_byte h ∷ second_byte h ∷ []) [] (omega arith))
      (rw
        (write_all_fits code.1 (first_byte h ∷ second_byte h ∷ [])
          (omega (arith, length-encode_len h.len)))
        (write_mask_fits h.mask (first_byte h ∷ second_byte h ∷ code.1)
          (omega (arith, length-encode_len h.len))))

pub length-header_bytes : (h : FrameHeader) → length (header_bytes h) ≤ 14
length-header_bytes h = omega (
  arith,
  length-append (encode_len h.len).1 (mask_bytes h.mask),
  length-encode_len h.len,
  length-mask_bytes h.mask,
)

bit_back : (b : Bool) (n : ℕ) → n < 128 → not ((as_bit b * 128 + n) / 128 == 0) ≡ b
bit_back true n h = ground arith
bit_back false n h = ground arith

op_bits_back : (b : Bool) (n : ℕ) → n < 16 → (as_bit b * 128 + n) % 16 ≡ n
op_bits_back b n h = omega arith

module _ {R : Type 0} {io : BufRead R} {pending : R → Bytes} {p : FramePacket}
    (d : Delivers io pending) (l : HasLayout p) where
  read_mask_bytes :
      (m : Option ℕ) (r : R) (rest : Bytes)
      → ((v : ℕ) → m ≡ some v → v < 2 ^ 32)
      → pending r ≡ mask_bytes m ++ rest
      → (r' : R) × (read_mask io (is_some m) r ≡ (ok m, r')) × (pending r' ≡ rest)
  read_mask_bytes none r rest fits e = (r, refl, e)
  read_mask_bytes (some v) r rest fits e =
      let (r', reads, left) = read_be-to_be d 4 v r rest (fits v refl) e in (r', rw reads, left)

  -- Each field of the two bytes is what was set.
  fields_back :
      (h : FrameHeader)
      → Fits h
      → (not (p.get_fin (first_byte h ∷ second_byte h ∷ []) == 0) ≡ h.fin)
        × (from_u8 (p.get_op (first_byte h ∷ second_byte h ∷ [])) ≡ h.op)
        × (not (p.get_masked (first_byte h ∷ second_byte h ∷ []) == 0) ≡ is_some h.mask)
        × (p.get_len (first_byte h ∷ second_byte h ∷ []) ≡ (encode_len h.len).0)
  fields_back h f =
      let first = to_u8-lt h.op f.op_known in
      let code = encode_len-code h.len in
      (
        rw (l.fin_bit (first_byte h) (second_byte h)) (bit_back h.fin (to_u8 h.op) (omega arith)),
        rw (l.op_bits (first_byte h) (second_byte h))
            (ap from_u8 (op_bits_back h.fin (to_u8 h.op) first) ∙ from_u8-to_u8 h.op),
        rw (l.masked_bit (first_byte h) (second_byte h))
            (bit_back (is_some h.mask) (encode_len h.len).0 code),
        rw (l.len_bits (first_byte h) (second_byte h)) (omega arith),
      )

  -- A reader takes from the stream exactly the header that was written.
  pub read-header_bytes :
      (h : FrameHeader) (r : R) (rest : Bytes)
      → Fits h
      → pending r ≡ header_bytes h ++ rest
      → (r' : R) × (read io p r ≡ (ok (some h), r')) × (pending r' ≡ rest)
  unfolding read
  read-header_bytes h r rest f e =
      let (r1, wired, e1) =
        d.read_type r (first_byte h ∷ second_byte h ∷ [])
          (((encode_len h.len).1 ++ mask_bytes h.mask) ++ rest) e in
      let (r2, lengthed, e2) =
        decode_length-encode_len d h.len r1 (mask_bytes h.mask ++ rest) f.len_fits
          (e1 ∙ append_assoc (encode_len h.len).1 (mask_bytes h.mask) rest) in
      let (r3, masked, e3) = read_mask_bytes h.mask r2 rest f.mask_fits e2 in
      let (fin_back, op_back, masked_back, len_back) = fields_back h f in
      (
        r3,
        rw (l.size_two, wired)
            (rw (len_back, lengthed) (rw (masked_back, masked) (rw (fin_back, op_back)))),
        e3,
      )

  -- Whatever header fits the wire format, the bytes that `write` leaves in an array of 16 bytes
  -- are read back as that header, and the bytes behind them stay in the stream.
  pub read-write :
      (h : FrameHeader) (r : R) (rest : Bytes)
      → Fits h
      → pending r ≡ (write p h (cursor [])).1.written ++ rest
      → (r' : R) × (read io p r ≡ (ok (some h), r')) × (pending r' ≡ rest)
  read-write h r rest f e =
      read-header_bytes h r rest f (
        e ∙ ap (λ (c : Result (Unit {0}) × Cursor). c.1.written ++ rest) (write_lem l h f.op_known))
