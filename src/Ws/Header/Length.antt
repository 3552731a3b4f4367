-- ===== src/Ws/Header/Length.antt =====
-- `encode_len` and `decode_length`.
use xx_url.Common.{ℕ, ◌^◌, ◌≤◌, ◌<◌, ◌≡◌, arith, Bytes, [], ◌++◌, length, ok, lt→ltb, ◌%◌}
use xx_url.Common.BigEndian.{to_be, from_be-to_be, length-to_be}
use native.Mathlib.Decide.{dec_lt}
use xx_url.Io.{BufRead}
use xx_url.Io.Delivery.{Delivers}
use xx_url.Ws.Header.{encode_len, decode_length}

-- The code fits 7 bits.
pub encode_len-code : (len : ℕ) → (encode_len len).0 < 128
unfolding encode_len
encode_len-code len = ground arith

-- The shortest form is taken: no extension, two bytes or eight bytes.
pub length-encode_len : (len : ℕ) → length (encode_len len).1 ≤ 8
unfolding encode_len
length-encode_len len = ground (arith, length-to_be 2 (len), length-to_be 8 len)

encode_len_short : (len : ℕ) → len < 126 → encode_len len ≡ (len, [])
unfolding encode_len
encode_len_short len h = ground arith

encode_len_medium : (len : ℕ) → 126 ≤ len → len < 65536 → encode_len len ≡ (126, to_be 2 len)
unfolding encode_len
encode_len_medium len h k = let small : len % 2 ^ 16 ≡ len = omega arith in ground arith

encode_len_long : (len : ℕ) → 65536 ≤ len → encode_len len ≡ (127, to_be 8 len)
unfolding encode_len
encode_len_long len h = ground arith

module _ {R : Type 0} {io : BufRead R} {pending : R → Bytes} (d : Delivers io pending) where
  -- A number of `w` bytes is read back.
  pub read_be-to_be :
      (w v : ℕ) (r : R) (rest : Bytes)
      → v < 256 ^ w
      → pending r ≡ to_be w v ++ rest
      → (r' : R) × (io.read_be w r ≡ (ok v, r')) × (pending r' ≡ rest)
  read_be-to_be w v r rest h e =
      let (r', reads, left) = d.read_number r (to_be w v) rest e in
      (r', rw (length-to_be w v, from_be-to_be w v h) at reads, left)

  -- The length that was encoded is decoded, and nothing after it is read.
  pub decode_length-encode_len :
      (len : ℕ) (r : R) (rest : Bytes)
      → len < 2 ^ 64
      → pending r ≡ (encode_len len).1 ++ rest
      → (r' : R) × (decode_length io (encode_len len).0 r ≡ (ok len, r')) × (pending r' ≡ rest)
  unfolding decode_length
  decode_length-encode_len len r rest h e = elim (dec_lt len 126) [
    | yes short ↦
        let form = encode_len_short len short in (r, rw (form, lt→ltb _ _ short), rw form at e)
    | no other ↦ elim (dec_lt len 65536) [
      | yes medium ↦
          let form = encode_len_medium len (omega arith) medium in
          rw form (read_be-to_be 2 len r rest medium (rw form at e))
      | no long ↦
          let form = encode_len_long len (omega arith) in
          rw form (read_be-to_be 8 len r rest h (rw form at e))
    ]
  ]
