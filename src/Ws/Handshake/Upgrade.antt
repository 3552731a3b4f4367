-- ===== src/Ws/Handshake/Upgrade.antt =====
-- handle_upgrade of ws/transfer.rs: a server and a request that its first read brings.
mod Examples
use xx_url.Common.{
  ℕ, suc, ◌+◌, ◌-◌, ◌≤◌, ◌<◌, ◌≡◌, ◌≢◌, refl, sym, ap, ◌∙◌, arith, none, some, false, ◌==◌,
  length-append, Bytes, List, [], ◌∷◌, ◌++◌, length, All, ◌>>=◌, lift, Result, ok, err, panic,
  stuck, M, bind_result, and_then, checked_sub,
}
use xx_url.Errors.{http11}
use xx_url.Http.Library.{HeaderLib, Searches, position}
use xx_url.Http.Lines.{find_line, read_line_in_place, read_headers_limited, on_reader}
use xx_url.Http.Lines.Buffered.{
  IsLine, lines_bytes, collect, read_line-buffered, consume_line, read_headers-buffered,
}
use xx_url.Http.Options.{default_options}
use xx_url.Http.Response.{number}
use xx_url.Http.Text.{strip_last}
use xx_url.Io.{BufRead}
use xx_url.Io.Delivery.{Buffers}
use xx_url.Ws.Handshake.{CryptoLib, Words, accept_upgrade, parse_request_line}
use xx_url.Ws.Handshake.Exchange.{
  UpgradeIo, KeepsParts, on_parts, put_headers, handle_request, handle_upgrade, write_answer,
}

module _ (crypto : CryptoLib) (words : Words) {R S P T H : Type 0} {io : BufRead R}
    (lib : HeaderLib H) {up : UpgradeIo R S P T} (parts : KeepsParts io up) {unread : R → Bytes}
    (b : Buffers io unread) (finds : Searches lib.memchr) where
  -- The first line may come with the first fill.
  read_line-fill :
      (fuel n : ℕ) (r r' : R)
      → io.buffer r ≡ []
      → io.fill r ≡ (ok n, r')
      → 0 < n
      → read_line_in_place io lib (suc fuel) r ≡ read_line_in_place io lib fuel r'
  unfolding read_line_in_place find_line position
  read_line-fill fuel n r r' e filled some_bytes =
      let found : lib.memchr 10 (io.buffer r) ≡ none = ap (lib.memchr 10) e ∙ finds 10 [] in
      let more : n == 0 ≡ false = ground (arith, some_bytes) in rw (found, e, filled, more) refl

  first_line-read :
      (fuel : ℕ) (s : S) (line rest : Bytes)
      → IsLine line
      → io.buffer (io.fill (up.new_reader s)).1 ≡ line ++ (10 ∷ rest)
      → (r : R) × (read_line_in_place io lib (suc (suc fuel)) (up.new_reader s)
          ≡ (ok (strip_last 13 line, length line + 1), r))
        × (io.buffer r ≡ line ++ (10 ∷ rest))
  first_line-read fuel s line rest l e =
      let empty = parts.starts_empty s in
      let (new, r, filled, buffer, _, _) = b.fills (up.new_reader s) in
      let here : io.buffer r ≡ line ++ (10 ∷ rest) = ap (λ t. io.buffer t.1) (sym filled) ∙ e in
      let all_new : new ≡ line ++ (10 ∷ rest) =
        ap (λ bs. bs ++ new) (sym empty) ∙ sym buffer ∙ here in
      let some_bytes : 0 < length new =
        omega (arith, ap length all_new, length-append line (10 ∷ rest)) in
      (
        r,
        read_line-fill (suc fuel) (length new) (up.new_reader s) r empty filled some_bytes
            ∙ read_line-buffered lib b finds fuel r line rest l here,
        here,
      )

  -- The headers of the request are read with what its first line leaves of the limit.
  handle_request-line :
      (rounds fuel : ℕ) (r r' : R) (h : H) (line url : Bytes)
      → parse_request_line crypto words (strip_last 13 line) ≡ some (http11, url)
      → length line + 1 ≤ default_options.maximum_header_size
      → read_line_in_place io lib fuel r ≡ (ok (strip_last 13 line, length line + 1), r')
      → handle_request crypto words io lib up rounds fuel (r, h)
        ≡ read_headers_limited io lib rounds fuel
            (default_options.maximum_header_size - (length line + 1))
            (io.consume (length line + 1) r', h)
  unfolding handle_request number
  handle_request-line rounds fuel r r' h line url parsed room e =
      rw e (rw parsed (ground (arith, room)))

  -- What is written for a request with these headers.
  abbrev answer_to : H → M T (Unit {0})
  answer_to headers w =
      and_then (accept_upgrade crypto words lib headers, w) (write_answer crypto words io lib up)

  abbrev answer_read : Result (Unit {0}) × (R × H) → Result (Unit {0}) × R
  answer_read read = and_then (put_headers crypto words io lib up read) λ found.
      on_parts crypto words io lib up
        (lift (accept_upgrade crypto words lib found) >>= write_answer crypto words io lib up)

  -- Whatever came of the answer, the buffer is what it was.
  answer_keeps :
      (read : Result (Unit {0})) (r : R) (headers : H)
      → read ≡ ok tt
      → io.buffer (and_then (read, r) (λ _. on_parts crypto words io lib up (answer_to headers))).1
        ≡ io.buffer r
  answer_keeps read r headers e =
      let stream = up.into_stream (answer_to headers (up.new_writer (up.into_parts r).0)).1 in
      rw e (parts.kept r stream)

  answer_steps :
      (read : Result (Unit {0})) (r : R) (headers : H)
      → answer_read (read, (r, headers))
        ≡ and_then (read, r) (λ _. on_parts crypto words io lib up (answer_to headers))
  answer_steps (ok _) r headers = refl
  answer_steps (err _) r headers = refl
  answer_steps panic r headers = refl
  answer_steps stuck r headers = refl

  pub handle_upgrade-buffered :
      (rounds fuel : ℕ) (s : S) (line url : Bytes) (lines : List Bytes) (last rest : Bytes)
      → IsLine line
      → parse_request_line crypto words (strip_last 13 line) ≡ some (http11, url)
      → length line + 1 ≤ default_options.maximum_header_size
      → length lines < rounds
      → All IsLine lines
      → All (λ field. strip_last 13 field ≢ []) lines
      → IsLine last
      → strip_last 13 last ≡ []
      → io.buffer (io.fill (up.new_reader s)).1
        ≡ line ++ (10 ∷ (lines_bytes lines ++ (last ++ (10 ∷ rest))))
      → let left = default_options.maximum_header_size - (length line + 1) in
        let headers = collect lib left lines lib.empty in
        let upgraded = handle_upgrade crypto words io lib up rounds (suc (suc fuel)) s in
        (r' : R) × (upgraded
          ≡ and_then (headers.0, r') (λ _. on_parts crypto words io lib up (answer_to headers.1)))
        × (headers.0 ≡ ok tt → io.buffer upgraded.1 ≡ rest)
  unfolding handle_upgrade
  handle_upgrade-buffered rounds fuel s line url lines last rest l parsed room enough ls full l'
        blank e =
      let left = default_options.maximum_header_size - (length line + 1) in
      let head = lines_bytes lines ++ (last ++ (10 ∷ rest)) in
      let headers = collect lib left lines lib.empty in
      let (r, line_read, here) = first_line-read fuel s line head l e in
      let (r', same, behind) =
        read_headers-buffered lib b finds lines rounds (suc fuel) left
          (io.consume (length line + 1) r) lib.empty last rest enough ls full l' blank
          (consume_line lib b finds r line head here) in
      let read =
        handle_request-line rounds (suc (suc fuel)) (up.new_reader s) r lib.empty line url parsed
          room line_read
        ∙ same in
      let steps = ap answer_read read ∙ answer_steps headers.0 r' headers.1 in
      (
        r',
        steps,
        λ fine.
            ap (λ t. io.buffer t.1) steps ∙ answer_keeps headers.0 r' headers.1 fine ∙ behind fine,
      )
