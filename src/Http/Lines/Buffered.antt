-- ===== src/Http/Lines/Buffered.antt =====
-- http/transfer.rs: the lines of a head that is in the buffer.
use xx_url.Common.{
  ℕ, zero, suc, true, ◌+◌, ◌<◌, ◌≡◌, ◌≢◌, refl, sym, ap, ◌∙◌, arith, false, none, some, Bytes, List,
  [], ◌∷◌, ◌++◌, append_assoc, length, take, drop, take-append, drop-append, length-append, All,
  leb, inl, inr, and_then, bind_result, Bool-cases, ◌-◌, ◌==◌, checked_sub, Result, ok, err, panic,
  stuck,
}
use xx_url.Common.Utf8.{from_utf8}
use xx_url.Errors.{http, headers_too_long}
use xx_url.Http.Library.{HeaderLib, position, Searches}
use xx_url.Http.Lines.{
  HeaderLine, find_line, read_line_in_place, header_of, read_header_line_limited, parse_header,
  insert_header, read_headers_limited, strip_line,
}
use xx_url.Http.Text.{strip_last}
use xx_url.Io.{BufRead}
use xx_url.Io.Delivery.{Buffers}

-- A line without its newline: no other newline is in it, and with it it is valid UTF-8.
pub record IsLine (line : Bytes) : Type 0 where
  pub one_line : All (λ b. b == 10 ≡ false) line
  pub utf8 : from_utf8 (line ++ (10 ∷ [])) ≡ ok (line ++ (10 ∷ []))

abbrev pub lines_bytes : List Bytes → Bytes
lines_bytes [] = []
lines_bytes (line ∷ lines) = line ++ (10 ∷ lines_bytes lines)

pub position_behind :
    (line rest : Bytes)
    → All (λ b. b == 10 ≡ false) line
    → position (λ x. x == 10) (line ++ (10 ∷ rest)) ≡ some (length line)
unfolding position
position_behind [] rest h = refl
position_behind (b ∷ line) rest h = rw (h.0, position_behind line rest h.1) (ap some (omega arith))

pub strip_last-append : (last : ℕ) (bs : Bytes) → strip_last last (bs ++ (last ∷ [])) ≡ bs
unfolding strip_last
strip_last-append last [] = ground arith
strip_last-append last (b ∷ []) = ap (◌∷◌ b) (strip_last-append last [])
strip_last-append last (b ∷ (c ∷ bs)) = ap (◌∷◌ b) (strip_last-append last (c ∷ bs))

pub take_line :
    (line rest : Bytes)
    → (take (length line + 1) (line ++ (10 ∷ rest)) ≡ line ++ (10 ∷ []))
      × (drop (length line + 1) (line ++ (10 ∷ rest)) ≡ rest)
take_line line rest =
    let whole : line ++ (10 ∷ rest) ≡ (line ++ (10 ∷ [])) ++ rest =
      sym (append_assoc line (10 ∷ []) rest) in
    let size : length line + 1 ≡ length (line ++ (10 ∷ [])) =
      omega (arith, length-append line (10 ∷ [])) in
    (
      rw (whole, size) (take-append (line ++ (10 ∷ [])) rest),
      rw (whole, size) (drop-append (line ++ (10 ∷ [])) rest),
    )

module _ {H : Type 0} (lib : HeaderLib H) where
  -- What the headers of some lines mean, without a reader: each is parsed, counted and inserted.
  unfoldable pub collect : ℕ → List Bytes → H → Result (Unit {0}) × H
  collect limit [] h = (ok tt, h)
  collect limit (line ∷ lines) h = elim (parse_header lib (strip_last 13 line) (length line + 1)) [
    | err e ↦ (err e, h)
    | panic ↦ (panic, h)
    | stuck ↦ (stuck, h)
    | ok header ↦ elim (checked_sub limit header.read) [
      | none ↦ (err (http headers_too_long), h)
      | some left ↦ collect left lines (insert_header lib header h)
    ]
  ]

module _ {R H : Type 0} {io : BufRead R} (lib : HeaderLib H) {unread : R → Bytes}
    (b : Buffers io unread) (finds : Searches lib.memchr) where
  pub read_line-buffered :
      (fuel : ℕ) (r : R) (line rest : Bytes)
      → IsLine line
      → io.buffer r ≡ line ++ (10 ∷ rest)
      → read_line_in_place io lib (suc fuel) r ≡ (ok (strip_last 13 line, length line + 1), r)
  unfolding read_line_in_place find_line strip_line
  read_line-buffered fuel r line rest l e =
      let found : lib.memchr 10 (io.buffer r) ≡ some (length line) =
        finds 10 (io.buffer r)
        ∙ ap (position (λ x. x == 10)) e
        ∙ position_behind line rest l.one_line in
      let taken : take (length line + 1) (io.buffer r) ≡ line ++ (10 ∷ []) =
        ap (take (length line + 1)) e ∙ (take_line line rest).0 in
      let non_negative : leb 0 (length (io.buffer r)) ≡ true = ground arith in
      let sum : 0 + (length line + 1) ≡ length line + 1 = omega arith in
      rw (non_negative, found, sum) (rw (taken, l.utf8, strip_last-append 10 line))

  header_line-buffered :
      (fuel : ℕ) (r : R) (line rest : Bytes)
      → IsLine line
      → io.buffer r ≡ line ++ (10 ∷ rest)
      → read_header_line_limited io lib (suc fuel) r
        ≡ and_then
            (header_of io lib (strip_last 13 line) (length line + 1), r)
            (λ header r'. (ok header, io.consume (length line + 1) r'))
  unfolding read_header_line_limited
  header_line-buffered fuel r line rest l e = rw (read_line-buffered fuel r line rest l e)

  header_of-full :
      (bs : Bytes) (offset : ℕ)
      → bs ≢ []
      → header_of io lib bs offset
        ≡ bind_result (parse_header lib bs offset) (λ header. ok (some header))
  unfolding header_of
  header_of-full [] offset full = absurd (full refl)
  header_of-full (_ ∷ _) offset full = refl

  -- The state behind a line that was consumed.
  pub consume_line :
      (r : R) (line rest : Bytes)
      → io.buffer r ≡ line ++ (10 ∷ rest)
      → io.buffer (io.consume (length line + 1) r) ≡ rest
  consume_line r line rest e =
      let whole : length (io.buffer r) ≡ length line + suc (length rest) =
        ap length e ∙ length-append line (10 ∷ rest) in
      (b.consumes (length line + 1) r (omega (arith, whole))).0
      ∙ ap (drop (length line + 1)) e
      ∙ (take_line line rest).1

  -- The outcome is that of `collect`, and where that is a success, `rest` is left in the buffer.
  abbrev pub ReadsAs : ℕ → ℕ → ℕ → List Bytes → R → H → Bytes → Type 0
  ReadsAs rounds fuel limit lines r h rest =
      (r' : R) × (read_headers_limited io lib rounds fuel limit (r, h)
        ≡ ((collect lib limit lines h).0, (r', (collect lib limit lines h).1)))
      × ((collect lib limit lines h).0 ≡ ok tt → io.buffer r' ≡ rest)

  -- One line that is no blank line: whatever the rest of the lines gives.
  module _ (rounds fuel limit : ℕ) (lines : List Bytes) (line rest : Bytes) (r r1 : R) (h : H)
      (opened : read_header_line_limited io lib fuel r
        ≡ and_then
            (
              bind_result
                  (parse_header lib (strip_last 13 line) (length line + 1))
                  (λ header. ok (some header)),
              r,
            )
            (λ header r'. (ok header, io.consume (length line + 1) r')))
      (consumed : io.consume (length line + 1) r ≡ r1)
      (go_on : (limit' : ℕ) (h' : H) → ReadsAs rounds fuel limit' lines r1 h' rest) where
    -- The line fits the limit.
    read_headers-fits :
        (found : HeaderLine)
        → parse_header lib (strip_last 13 line) (length line + 1) ≡ ok found
        → leb found.read limit ≡ true
        → (collect lib limit (line ∷ lines) h
            ≡ collect lib (limit - found.read) lines (insert_header lib found h))
          × (read_headers_limited io lib (suc rounds) fuel limit (r, h)
              ≡ read_headers_limited io lib rounds fuel
                  (limit - found.read)
                  (r1, insert_header lib found h))
    unfolding collect read_headers_limited
    read_headers-fits found q fits =
        (ground (arith, q, fits), ground (arith, opened, q, fits, consumed))

    read_headers-line :
        (p : Result HeaderLine)
        → parse_header lib (strip_last 13 line) (length line + 1) ≡ p
        → ReadsAs (suc rounds) fuel limit (line ∷ lines) r h rest
    unfolding collect read_headers_limited
    read_headers-line (err error) q =
        (r, ground (arith, opened, q), λ same. ground (arith, q, same))
    read_headers-line panic q = (r, ground (arith, opened, q), λ same. ground (arith, q, same))
    read_headers-line stuck q = (r, ground (arith, opened, q), λ same. ground (arith, q, same))
    read_headers-line (ok found) q = elim (Bool-cases (leb found.read limit)) [
      | inr too_long ↦ (
        r1,
        ground (arith, opened, q, too_long, consumed),
        λ same. ground (arith, q, too_long, same),
      )
      | inl fits ↦
          let (gathered, one_round) = read_headers-fits found q fits in
          let (r', same, behind) = go_on (limit - found.read) (insert_header lib found h) in
          (
            r',
            one_round ∙ same ∙ ap (λ (t : Result (Unit {0}) × H). (t.0, (r', t.1))) (sym gathered),
            λ good. behind (ap (λ (t : Result (Unit {0}) × H). t.0) (sym gathered) ∙ good),
          )
    ]

  -- A buffered head, up to the empty line, is read as its lines mean, with one round for each line
  -- and one more. Where they can be read, the bytes behind the empty line stay in the buffer.
  pub read_headers-buffered :
      (lines : List Bytes) (rounds fuel limit : ℕ) (r : R) (h : H) (last rest : Bytes)
      → length lines < rounds
      → All IsLine lines
      → All (λ line. strip_last 13 line ≢ []) lines
      → IsLine last
      → strip_last 13 last ≡ []
      → io.buffer r ≡ lines_bytes lines ++ (last ++ (10 ∷ rest))
      → ReadsAs rounds (suc fuel) limit lines r h rest
  unfolding header_of collect read_headers_limited
  read_headers-buffered [] (suc rounds) fuel limit r h last rest enough ls full l blank e = (
    io.consume (length last + 1) r,
    rw (read_headers_limited, header_line-buffered fuel r last rest l e) (rw blank),
    λ _. consume_line r last rest e,
  )
  read_headers-buffered lines zero fuel limit r h last rest enough ls full l blank e =
      absurd (omega arith)
  read_headers-buffered (line ∷ lines) (suc rounds) fuel limit r h last rest enough ls full l blank
        e =
      let left = lines_bytes lines ++ (last ++ (10 ∷ rest)) in
      let split_first : io.buffer r ≡ line ++ (10 ∷ left) =
        e ∙ append_assoc line (10 ∷ lines_bytes lines) (last ++ (10 ∷ rest)) in
      let opened =
        header_line-buffered fuel r line left ls.0 split_first
        ∙ rw (header_of-full (strip_last 13 line) (length line + 1) full.0) in
      let go_on = λ (limit' : ℕ) (h' : H).
        read_headers-buffered lines rounds fuel limit' (io.consume (length line + 1) r) h' last rest
          (omega arith) ls.1 full.1 l blank (consume_line r line left split_first) in
      read_headers-line rounds (suc fuel) limit lines line rest r _ h opened refl go_on
        (parse_header lib (strip_last 13 line) (length line + 1)) refl
