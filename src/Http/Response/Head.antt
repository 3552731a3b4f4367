-- ===== src/Http/Response/Head.antt =====
-- http/transfer.rs: `parse_response` on a head that is in the buffer.
use xx_url.Common.{
  ℕ, suc, ◌+◌, ◌-◌, ◌≤◌, ◌<◌, ◌≡◌, ◌≢◌, refl, sym, ap, ◌∙◌, arith, true, some, Bytes, List, [], ◌∷◌,
  ◌++◌, length, take, take-append, length-append, All, equal, equal_iff, Result, ok, err, panic,
  stuck, and_then, pure, le→ltb, bind_result,
}
use xx_url.Errors.{Version, http09}
use xx_url.Http.Library.{HeaderLib, Searches}
use xx_url.Http.Lines.{read_headers_limited}
use xx_url.Http.Lines.Buffered.{
  IsLine, lines_bytes, collect, read_line-buffered, consume_line, read_headers-buffered,
}
use xx_url.Http.Response.{
  number, prefix, parse_status_line, parse_response, fill_prefix, read_status, read_rest,
}
use xx_url.Http.Options.{Options}
use xx_url.Http.Text.{strip_last}
use xx_url.Io.{BufRead}
use xx_url.Io.Delivery.{Buffers}

-- The version is one that the request allows, and not HTTP/0.9.
pub record IsAllowed (limits : Options) (version : Version) : Type 0 where
  pub min_ok : number limits.min_version ≤ number version
  pub max_ok : number version ≤ number limits.max_version
  pub modern : version ≢ http09

and_then-pure :
    {S A B : Type 0} (result : Result A) (s : S) (b : B)
    → and_then (result, s) (λ _. pure b) ≡ (bind_result result (λ _. ok b), s)
and_then-pure (ok _) s b = refl
and_then-pure (err _) s b = refl
and_then-pure panic s b = refl
and_then-pure stuck s b = refl

module _ {R H : Type 0} {io : BufRead R} (lib : HeaderLib H) {unread : R → Bytes}
    (b : Buffers io unread) (finds : Searches lib.memchr) where
  fill_prefix-buffered :
      (fuel : ℕ) (r : R) (rest : Bytes)
      → io.buffer r ≡ prefix ++ rest
      → fill_prefix io lib (suc fuel) r ≡ (ok tt, r)
  unfolding fill_prefix
  fill_prefix-buffered fuel r rest e =
      let size : length (io.buffer r) ≡ length prefix + length rest =
        ap length e ∙ length-append prefix rest in
      rw (le→ltb (length (io.buffer r)) (length prefix) (omega (arith, size)))

  read_status-buffered :
      (fuel status : ℕ) (version : Version) (r : R) (more rest : Bytes)
      → IsLine (prefix ++ more)
      → parse_status_line io lib (strip_last 13 (prefix ++ more)) ≡ some (version, status)
      → io.buffer r ≡ (prefix ++ more) ++ (10 ∷ rest)
      → read_status io lib (suc fuel) r ≡ (
        ok (version, (status, length (prefix ++ more) + 1)),
        io.consume (length (prefix ++ more) + 1) r,
      )
  unfolding read_status
  read_status-buffered fuel status version r more rest l parsed e =
      let matches : equal prefix (take (length prefix) (io.buffer r)) ≡ true =
        (equal_iff prefix (take (length prefix) (io.buffer r))).1
          (sym (ap (take (length prefix)) e ∙ take-append prefix (more ++ (10 ∷ rest)))) in
      rw matches (rw (read_line-buffered lib b finds fuel r (prefix ++ more) rest l e) (rw parsed))

  read_rest-allowed :
      (rounds fuel status total : ℕ) (version : Version) (limits : Options) (s : R × H)
      → IsAllowed limits version
      → total ≤ limits.maximum_header_size
      → read_rest io lib rounds fuel limits version status total s
        ≡ and_then
            (read_headers_limited io lib rounds fuel (limits.maximum_header_size - total) s)
            (λ _. pure (status, version))
  unfolding read_rest
  read_rest-allowed rounds fuel status total version limits s allowed room =
      let low = le→ltb (number version) (number limits.min_version) allowed.min_ok in
      let high = le→ltb (number limits.max_version) (number version) allowed.max_ok in
      ground (arith, low, high, allowed.modern)

  -- The head of a response is in the buffer: a status line that can be parsed, with a version that
  -- the request allows, and header lines up to a blank one. Then the outcome is the status and the
  -- version, with the headers that the lines mean or their error, where the bytes of the status
  -- line count against the limit, too. Where the headers can be read, the body stays in the buffer.
  pub parse_response-buffered :
      (rounds fuel status : ℕ) (version : Version) (limits : Options) (r : R) (h : H)
      → (more : Bytes) (lines : List Bytes) (last rest : Bytes) → IsLine (prefix ++ more)
      → parse_status_line io lib (strip_last 13 (prefix ++ more)) ≡ some (version, status)
      → IsAllowed limits version
      → length (prefix ++ more) + 1 ≤ limits.maximum_header_size
      → length lines < rounds
      → All IsLine lines
      → All (λ line. strip_last 13 line ≢ []) lines
      → IsLine last
      → strip_last 13 last ≡ []
      → io.buffer r ≡ (prefix ++ more) ++ (10 ∷ (lines_bytes lines ++ (last ++ (10 ∷ rest))))
      → let left = limits.maximum_header_size - (length (prefix ++ more) + 1) in
        let headers = collect lib left lines h in
        (r' : R) × (parse_response io lib rounds (suc fuel) limits (r, h)
          ≡ (bind_result headers.0 (λ _. ok (status, version)), (r', headers.1)))
        × (headers.0 ≡ ok tt → io.buffer r' ≡ rest)
  unfolding parse_response
  parse_response-buffered rounds fuel status version limits r h more lines last rest l parsed
        allowed room enough ls full l' blank e =
      let head = lines_bytes lines ++ (last ++ (10 ∷ rest)) in
      let r1 = io.consume (length (prefix ++ more) + 1) r in
      let filled = fill_prefix-buffered fuel r (more ++ (10 ∷ head)) e in
      let status_line = read_status-buffered fuel status version r more head l parsed e in
      let total = length (prefix ++ more) + 1 in
      let remaining =
        read_rest-allowed rounds (suc fuel) status total version limits (r1, h) allowed room in
      let (r', same, behind) =
        read_headers-buffered lib b finds lines rounds fuel
          (limits.maximum_header_size - (length (prefix ++ more) + 1)) r1 h last rest enough ls full
          l' blank (consume_line lib b finds r (prefix ++ more) head e) in
      (
        r',
        rw (filled, status_line)
            (remaining
              ∙ rw same
                  (and_then-pure (collect lib (limits.maximum_header_size - total) lines h).0 _ _)),
        behind,
      )
