-- ===== src/Ws/Handshake/Reading.antt =====
-- ws/transfer.rs: the answer of a server, and how a client reads it.
use xx_url.Common.{
  ℕ, suc, ◌+◌, ◌-◌, ◌≤◌, ◌<◌, ◌≡◌, ◌≢◌, refl, sym, ap, bind_result, ◌∙◌, arith, some, Bytes, List,
  [], ◌∷◌, ◌++◌, length, All, Result, ok, length-append,
}
use xx_url.Errors.{http11, web_socket, server_rejected}
use xx_url.Http.Headers.{get_str}
use xx_url.Http.Library.{HeaderLib, Searches}
use xx_url.Http.Lines.Buffered.{IsLine, lines_bytes, strip_last-append, collect}
use xx_url.Http.Options.{default_options}
use xx_url.Http.Text.{split, to_digit, strip_last}
use xx_url.Http.Response.{
  prefix, as_str, parse_version, from_u32, number, parse_status_line, parse_response,
}
use xx_url.Http.Response.Head.{parse_response-buffered}
use xx_url.Io.{BufRead}
use xx_url.Io.Delivery.{Buffers}
use xx_url.Ws.Handshake.{CryptoLib, Words, accept, check_response}
use xx_url.Ws.Handshake.Keys.{check_header-same}
use xx_url.Ws.Handshake.Exchange.{
  status_line, switching, connection_line, upgrade_line, accept_prefix, crlf,
}
use xx_url.Http.Lines.Visible.{
  collect_line, IsVisible, IsVisible-IsPlain, All-append, IsPlain-IsLine,
}
use xx_url.Ws.Handshake.Fields.{
  upgrade_text, websocket_text, KeepsFields, parse_connection, parse_upgrade, parse_accept,
}

-- The answer in bytes.
abbrev pub answer : Bytes → Bytes
answer value =
    (status_line ++ crlf)
    ++ ((connection_line ++ crlf)
        ++ ((upgrade_line ++ crlf) ++ (((accept_prefix ++ value) ++ crlf) ++ crlf)))

module _ {H : Type 0} {lib : HeaderLib H} {words : Words} (keeps : KeepsFields lib words) where
  collect_nothing : (limit : ℕ) (h : H) → collect lib limit [] h ≡ (ok tt, h)
  unfolding collect
  collect_nothing limit h = refl

  -- The headers that the client has behind the answer.
  abbrev pub answered : Bytes → H
  answered value = lib.insert words.accept_name value (
      lib.insert words.upgrade_name websocket_text
        (lib.insert lib.connection upgrade_text lib.empty))

  abbrev answer_lines : Bytes → List Bytes
  answer_lines value =
      (connection_line ++ (13 ∷ []))
      ∷ ((upgrade_line ++ (13 ∷ [])) ∷ (((accept_prefix ++ value) ++ (13 ∷ [])) ∷ []))

  collect_answer :
      (limit : ℕ) (value : Bytes)
      → IsVisible value
      → length value + 100 ≤ limit
      → collect lib limit (answer_lines value) lib.empty ≡ (ok tt, answered value)
  collect_answer limit value h fits =
      collect_line lib limit 21 connection_line lib.connection upgrade_text _ lib.empty
        (parse_connection keeps _) (omega arith)
      ∙ collect_line lib (limit - 21) 20 upgrade_line words.upgrade_name websocket_text _ _
          (parse_upgrade keeps _) (omega arith)
      ∙ collect_line lib (limit - 21 - 20) (length ((accept_prefix ++ value) ++ (13 ∷ [])) + 1)
          (accept_prefix ++ value) words.accept_name value [] _ (parse_accept keeps value _ h)
          (omega (arith, length-append value (13 ∷ [])))
      ∙ collect_nothing _ _

  parse_status :
      {R : Type 0} (io : BufRead R) → parse_status_line io lib status_line ≡ some (http11, 101)
  unfolding parse_status_line status_line as_str split parse_version from_u32 to_digit
  parse_status io = rw keeps.takes_status refl

  -- After "HTTP/"
  abbrev more : Bytes
  more = 49 ∷ 46 ∷ 49 ∷ 32 ∷ (switching ++ (13 ∷ []))

  regroup :
      (value rest : Bytes)
      → ((value ++ crlf) ++ crlf) ++ rest
        ≡ ((value ++ (13 ∷ [])) ++ (10 ∷ [])) ++ ((13 ∷ []) ++ (10 ∷ rest))
  regroup [] rest = refl
  regroup (b ∷ value) rest = ap (◌∷◌ b) (regroup value rest)

  answer-lines :
      (value rest : Bytes)
      → answer value ++ rest
        ≡ (prefix ++ more)
          ++ (10 ∷ (lines_bytes (answer_lines value) ++ ((13 ∷ []) ++ (10 ∷ rest))))
  unfolding status_line as_str
  answer-lines value rest =
      ap
        (λ z.
          (status_line ++ crlf)
          ++ ((connection_line ++ crlf) ++ ((upgrade_line ++ crlf) ++ (accept_prefix ++ z))))
        (regroup value rest)

  plain_status : IsLine (prefix ++ more)
  plain_status = IsPlain-IsLine (prefix ++ (49 ∷ 46 ∷ 49 ∷ 32 ∷ switching)) (ground arith)

  plain_lines : (value : Bytes) → IsVisible value → All IsLine (answer_lines value)
  plain_lines value h = (
    IsPlain-IsLine connection_line (ground arith),
    (
      IsPlain-IsLine upgrade_line (ground arith),
      (
        IsPlain-IsLine (accept_prefix ++ value)
            (All-append _ accept_prefix value (ground arith) (IsVisible-IsPlain value h)),
        tt,
      ),
    ),
  )

  full_lines : (value : Bytes) → All (λ line. strip_last 13 line ≢ []) (answer_lines value)
  full_lines value = (
    not_empty connection_line (λ z. absurd (ground (arith, z))),
    (
      not_empty upgrade_line (λ z. absurd (ground (arith, z))),
      (not_empty (accept_prefix ++ value) (λ z. absurd (ground (arith, z))), tt),
    ),
  )
    where
      not_empty : (line : Bytes) → line ≢ [] → strip_last 13 (line ++ (13 ∷ [])) ≢ []
      not_empty line full z = full (sym (strip_last-append 13 line) ∙ z)

  pub read_answer :
      {R : Type 0} {io : BufRead R} {unread : R → Bytes}
      → Buffers io unread
      → Searches lib.memchr
      → (rounds fuel : ℕ) (r : R) (value rest : Bytes) → IsVisible value
      → length value ≤ 1000
      → 3 < rounds
      → io.buffer r ≡ answer value ++ rest
      → (r' : R) × (parse_response io lib rounds (suc fuel) default_options (r, lib.empty)
          ≡ (ok (101, http11), (r', answered value)))
        × (io.buffer r' ≡ rest)
  unfolding number status_line as_str
  read_answer {io} b finds rounds fuel r value rest h short enough e =
      let read =
        parse_response-buffered lib b finds rounds fuel 101 http11 default_options r lib.empty more
          (answer_lines value) (13 ∷ []) rest plain_status
          (ap (parse_status_line io lib) (strip_last-append 13 status_line) ∙ parse_status io)
          (record {
            min_ok = omega arith;
            max_ok = omega arith;
            modern = λ z. absurd (ground (arith, z));
          })
          (omega arith) enough (plain_lines value h) (full_lines value) (IsPlain-IsLine [] tt)
          (strip_last-append 13 []) (e ∙ answer-lines value rest) in
      let headers =
        collect_answer (default_options.maximum_header_size - (length (prefix ++ more) + 1)) value h
          (omega arith) in
      (
        read.0,
        read.1
            ∙ ap
                (λ (t : Result (Unit {0}) × H).
                  (bind_result t.0 (λ _. ok (101, http11)), (read.0, t.1)))
                headers,
        read.2 (ap (λ (t : Result (Unit {0}) × H). t.0) headers),
      )

  pub header_text :
      (name value : Bytes) (h : H)
      → lib.get name h ≡ some value
      → IsVisible value
      → get_str lib name h ≡ ok (some value)
  unfolding get_str
  header_text name value h e v = ground (arith, e, keeps.gives_text value v)

  pub check_answered :
      (crypto : CryptoLib) (secret : Bytes)
      → IsVisible (accept crypto words secret)
      → check_response crypto words lib secret 101 (answered (accept crypto words secret)) ≡ ok tt
  unfolding check_response
  check_answered crypto secret v =
      let value = accept crypto words secret in
      let h1 = lib.insert lib.connection upgrade_text lib.empty in
      let h2 = lib.insert words.upgrade_name websocket_text h1 in
      let c =
        keeps.get_other lib.connection words.accept_name value h2 keeps.names_differ.1
        ∙ keeps.get_other lib.connection words.upgrade_name websocket_text h1 keeps.names_differ.0
        ∙ keeps.get_same lib.connection upgrade_text lib.empty in
      let u =
        keeps.get_other words.upgrade_name words.accept_name value h2 keeps.names_differ.2
        ∙ keeps.get_same words.upgrade_name websocket_text h1 in
      rw
        (
          check_header-same crypto words lib (answered value) lib.connection words.upgrade_text
              (web_socket server_rejected)
              (header_text lib.connection upgrade_text (answered value) c (ground arith)
                ∙ ap (λ z. ok (some z)) (sym keeps.texts.0)),
          check_header-same crypto words lib (answered value) words.upgrade_name
              words.websocket_text (web_socket server_rejected)
              (header_text words.upgrade_name websocket_text (answered value) u (ground arith)
                ∙ ap (λ z. ok (some z)) (sym keeps.texts.1)),
        )
        (check_header-same crypto words lib (answered value) words.accept_name value
          (web_socket server_rejected)
          (header_text words.accept_name value (answered value)
            (keeps.get_same words.accept_name value h2) v))
