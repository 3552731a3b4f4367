-- ===== src/Http/Body/Read/Chunked.antt =====
-- http/body.rs: a chunk that is in the buffer.
use xx_url.Common.{
  ℕ, zero, suc, ◌+◌, ◌-◌, ◌%◌, ◌^◌, ◌≤◌, ◌<◌, ◌≡◌, refl, ap, ◌∙◌, arith, true, false, not, none,
  some, Bytes, [], ◌∷◌, ◌++◌, length, length-append, take, drop, is_nil, Bool-cases, inl, inr,
  take-append, drop-append, All, min, ◌==◌, if◌then◌else◌, ok,
}
use xx_url.Common.Utf8.{from_utf8-ascii}
use xx_url.Http.Body.{
  Body, Transfer, size, extension, chunk_data, trailer, chunks, trailers, is_ascii_hexdigit,
  max_hex, find_size, read_bytes, take_size, parse_size, read_chunk_size, skip_line,
  read_until_newline, after_newline,
}
use xx_url.Http.Body.Read.{read_chunks, read_some, read}
use xx_url.Http.Library.{HeaderLib, position, Searches}
use xx_url.Http.Lines.Buffered.{position_behind, consume_line}
use xx_url.Http.Text.{from_str_radix, to_digit}
use xx_url.Io.{BufRead}
use xx_url.Io.Delivery.{Buffers}

-- The line in front of a chunk, without its newline: digits, and behind them something else.
pub record IsSizeLine (digits : Bytes) (next : ℕ) (behind : Bytes) (n : ℕ) : Type 0 where
  pub all_hex : All (λ b. is_ascii_hexdigit b ≡ true) digits
  pub ends : is_ascii_hexdigit next ≡ false
  pub one_line : All (λ b. b == 10 ≡ false) (next ∷ behind)
  pub short : length digits < max_hex
  pub value : from_str_radix 16 digits ≡ some n

position_digits :
    (digits : Bytes) (next k : ℕ) (more : Bytes)
    → All (λ b. is_ascii_hexdigit b ≡ true) digits
    → is_ascii_hexdigit next ≡ false
    → length digits < k
    → position (λ b. not (is_ascii_hexdigit b)) (take k (digits ++ (next ∷ more)))
      ≡ some (length digits)
unfolding position
position_digits digits next zero more h e room = absurd (omega arith)
position_digits [] next (suc k) more h e room = rw e
position_digits (b ∷ digits) next (suc k) more h e room =
    rw (h.0, position_digits digits next k more h.1 e (omega arith)) (ap some (omega arith))

hexdigit_ascii : (b : ℕ) → is_ascii_hexdigit b ≡ true → b < 128
unfolding to_digit
hexdigit_ascii b h = ground arith

hex_ascii : (bs : Bytes) → All (λ b. is_ascii_hexdigit b ≡ true) bs → All (λ b. b < 128) bs
hex_ascii [] h = tt
hex_ascii (b ∷ bs) h = (hexdigit_ascii b h.0, hex_ascii bs h.1)

-- A read takes what is in the buffer, and `read_into!` the smaller of both lengths.
pub record ReadsBuffer {R : Type 0} (io : BufRead R) : Type 0 where
  pub read_front :
      (r : R) (front rest : Bytes)
      → io.buffer r ≡ front ++ rest
      → 0 < length front
      → (r' : R) × (io.read (length front) r ≡ (ok front, r')) × (io.buffer r' ≡ rest)
  pub window :
      (buf limit : ℕ)
      → io.read_into buf limit ≡ (if min buf limit == 0 then none else some (min buf limit))

module _ {R H : Type 0} {io : BufRead R} (lib : HeaderLib H) {unread : R → Bytes}
    (b : Buffers io unread) (finds : Searches lib.memchr) where
  find_size-buffered :
      (fuel next n : ℕ) (r : R) (digits behind more : Bytes)
      → IsSizeLine digits next behind n
      → io.buffer r ≡ digits ++ (next ∷ more)
      → find_size io lib (suc fuel) r ≡ (ok (some (length digits)), r)
  unfolding find_size
  find_size-buffered fuel next n r digits behind more l e =
      let whole : length (io.buffer r) ≡ length digits + suc (length more) =
        ap length e ∙ length-append digits (next ∷ more) in
      let short = l.short in
      let found =
        ap
          (λ (buffer : Bytes).
            position (λ x. not (is_ascii_hexdigit x))
              (take (min (length (io.buffer r)) max_hex) buffer))
          e
        ∙ position_digits digits next (min (length (io.buffer r)) max_hex) more l.all_hex l.ends
            (omega arith) in
      rw (find_size, found)

  take_size-buffered :
      (next n : ℕ) (r : R) (digits behind more : Bytes)
      → IsSizeLine digits next behind n
      → io.buffer r ≡ digits ++ (next ∷ more)
      → take_size io lib (some (length digits)) r ≡ (ok n, io.consume (length digits) r)
  unfolding take_size parse_size
  take_size-buffered next n r digits behind more l e =
      let taken : take (length digits) (io.buffer r) ≡ digits =
        ap (take (length digits)) e ∙ take-append digits (next ∷ more) in
      rw taken (rw (parse_size, from_utf8-ascii digits (hex_ascii digits l.all_hex)) (rw l.value))

  read_chunk_size-buffered :
      (fuel next n : ℕ) (body : Body R) (digits behind more : Bytes)
      → IsSizeLine digits next behind n
      → io.buffer body.reader ≡ digits ++ (next ∷ more)
      → read_chunk_size io lib (suc fuel) body ≡ (
        ok tt,
        record body {
          reader = io.consume (length digits) body.reader;
          transfer = chunks (extension n);
        },
      )
  unfolding read_chunk_size
  read_chunk_size-buffered fuel next n body digits behind more l e =
      rw (find_size-buffered fuel next n body.reader digits behind more l e)
        (rw (take_size-buffered next n body.reader digits behind more l e))

  skip_line-buffered :
      (fuel : ℕ) (r : R) (line rest : Bytes)
      → All (λ x. x == 10 ≡ false) line
      → io.buffer r ≡ line ++ (10 ∷ rest)
      → skip_line io lib (suc fuel) r ≡ (ok tt, io.consume (length line + 1) r)
  unfolding skip_line
  skip_line-buffered fuel r line rest h e = rw (
    skip_line,
    finds 10 (io.buffer r) ∙ ap (position (λ x. x == 10)) e ∙ position_behind line rest h,
  )

  consume_front :
      (r : R) (front rest : Bytes)
      → io.buffer r ≡ front ++ rest
      → io.buffer (io.consume (length front) r) ≡ rest
  consume_front r front rest e =
      let whole = ap length e ∙ length-append front rest in
      (b.consumes (length front) r (omega (arith, whole))).0
      ∙ ap (drop (length front)) e
      ∙ drop-append front rest

  -- The state behind a size line.
  abbrev pub behind_line : Body R → Bytes → ℕ → Bytes → Body R
  behind_line body digits next behind = record body {
    reader = io.consume (length (next ∷ behind) + 1) (io.consume (length digits) body.reader);
  }

  -- From the size line of a chunk on, the loop goes on behind that line.
  size_line :
      (rounds fuel buf next n : ℕ) (body : Body R) (digits behind rest : Bytes)
      → IsSizeLine digits next behind n
      → io.buffer body.reader ≡ digits ++ ((next ∷ behind) ++ (10 ∷ rest))
      → read_chunks io lib (suc (suc (suc rounds))) (suc fuel) size buf body ≡ (
          if n == 0
          then (ok [], record (behind_line body digits next behind) { transfer = trailers })
          else read_chunks io lib
              (suc rounds)
              (suc fuel)
              (chunk_data n)
              buf
              (record (behind_line body digits next behind) { transfer = chunks (chunk_data n) }))
  unfolding read_chunks read_until_newline after_newline
  size_line rounds fuel buf next n body digits behind rest l e =
      let sized =
        read_chunk_size-buffered fuel next n body digits behind (behind ++ (10 ∷ rest)) l e in
      let skipped =
        skip_line-buffered fuel (io.consume (length digits) body.reader) (next ∷ behind) rest
          l.one_line (consume_front body.reader digits ((next ∷ behind) ++ (10 ∷ rest)) e) in
      elim (Bool-cases (n == 0)) [
        | inl last ↦ rw sized (rw (read_until_newline, skipped) (rw last))
        | inr some_data ↦ rw sized (rw (read_until_newline, skipped) (rw some_data))
      ]

  behind_line-buffer :
      (body : Body R) (digits behind rest : Bytes) (next : ℕ)
      → io.buffer body.reader ≡ digits ++ ((next ∷ behind) ++ (10 ∷ rest))
      → io.buffer (behind_line body digits next behind).reader ≡ rest
  behind_line-buffer body digits behind rest next e =
      consume_line lib b finds (io.consume (length digits) body.reader) (next ∷ behind) rest
        (consume_front body.reader digits ((next ∷ behind) ++ (10 ∷ rest)) e)

  read-size :
      (rounds fuel buf : ℕ) (body : Body R)
      → body.transfer ≡ chunks size
      → read io lib rounds fuel buf body ≡ read_chunks io lib rounds fuel size buf body
  unfolding read
  read-size rounds fuel buf body t = ground (arith, t)

  -- The last chunk: a size line with 0 ends the data, and the trailers are left in the buffer.
  read-last_chunk :
      (rounds fuel buf next : ℕ) (body : Body R) (digits behind rest : Bytes)
      → body.transfer ≡ chunks size
      → IsSizeLine digits next behind 0
      → io.buffer body.reader ≡ digits ++ ((next ∷ behind) ++ (10 ∷ rest))
      → (body' : Body R) × (read io lib (suc (suc (suc rounds))) (suc fuel) buf body
          ≡ (ok [], body'))
        × (body'.transfer ≡ trailers)
        × (io.buffer body'.reader ≡ rest)
  read-last_chunk rounds fuel buf next body digits behind rest t l e = (
    record (behind_line body digits next behind) { transfer = trailers },
    read-size (suc (suc (suc rounds))) (suc fuel) buf body t
        ∙ size_line rounds fuel buf next 0 body digits behind rest l e,
    refl,
    behind_line-buffer body digits behind rest next e,
  )

  module _ (reads : ReadsBuffer io) where
    read_payload :
        (more : ℕ → Transfer) (done : Transfer) (buf : ℕ) (body : Body R) (payload rest : Bytes)
        → 0 < length payload
        → length payload ≤ buf
        → length payload < 2 ^ 64
        → io.buffer body.reader ≡ payload ++ rest
        → (r' : R) × (read_some io lib more done (length payload) buf body
            ≡ (ok payload, record body { reader = r'; transfer = done }))
          × (io.buffer r' ≡ rest)
    unfolding read_some read_bytes
    read_payload more done buf body payload rest some_data room small e =
        let (r', taken, left) = reads.read_front body.reader payload rest e some_data in
        let whole = ap length e ∙ length-append payload rest in
        let smaller : min buf (length payload) ≡ length payload = omega arith in
        let window : io.read_into buf (length payload) ≡ some (length payload) =
          reads.window buf (length payload) ∙ ground (arith, smaller) in
        let nothing : (length payload + 2 ^ 64 - length payload) % 2 ^ 64 ≡ 0 = omega arith in
        let full : is_nil (io.buffer body.reader) ≡ false = ground (arith, whole) in
        (r', ground (arith, window, full, taken, nothing), left)

    -- A chunk that is in the buffer is read whole into a buffer that is long enough: its extension
    -- is skipped, and what follows its data is left in the buffer.
    pub read-chunk :
        (rounds fuel buf next : ℕ) (body : Body R) (digits behind payload rest : Bytes)
        → body.transfer ≡ chunks size
        → IsSizeLine digits next behind (length payload)
        → 0 < length payload
        → length payload ≤ buf
        → length payload < 2 ^ 64
        → io.buffer body.reader ≡ digits ++ ((next ∷ behind) ++ (10 ∷ (payload ++ rest)))
        → (body' : Body R) × (read io lib (suc (suc (suc rounds))) (suc fuel) buf body
            ≡ (ok payload, body'))
          × (body'.transfer ≡ chunks trailer)
          × (io.buffer body'.reader ≡ rest)
    unfolding read_chunks
    read-chunk rounds fuel buf next body digits behind payload rest t l some_data room small e =
        let state : Body R = record (behind_line body digits next behind) {
          transfer = chunks (chunk_data (length payload));
        } in
        let (r', data_read, left) =
          read_payload (λ n. chunks (chunk_data n)) (chunks trailer) buf state payload rest
            some_data room small (behind_line-buffer body digits behind (payload ++ rest) next e) in
        let sized =
          size_line rounds fuel buf next (length payload) body digits behind (payload ++ rest) l
            e in
        let not_last : length payload == 0 ≡ false = ground arith in
        (
          record state { reader = r'; transfer = chunks trailer },
          read-size (suc (suc (suc rounds))) (suc fuel) buf body t ∙ sized ∙ rw not_last data_read,
          refl,
          left,
        )
