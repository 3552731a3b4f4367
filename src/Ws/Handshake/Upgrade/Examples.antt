-- ===== src/Ws/Handshake/Upgrade/Examples.antt =====
-- The theorem about handle_upgrade at a concrete request.
use xx_url.Common.{drop, ◌≡◌, refl, Bytes, List, [], ◌∷◌, ◌++◌, ok}
use xx_url.Http.Headers.{get_str}
use xx_url.Http.Lines.{parse_header, try_into_name, try_into_value}
use xx_url.Http.Lines.Buffered.{lines_bytes, collect}
use xx_url.Http.Response.{prefix}
use xx_url.Http.Text.{
  strip_last, split_once, trim, trim_start, drop_spaces, space_front, space_back,
  eq_ignore_ascii_case,
}
use xx_url.Io.Chunks.{Chunks}
use xx_url.Ws.Handshake.{
  web_socket_version, web_socket_guid, accept, accept_upgrade, check_header, key_from,
}
use xx_url.Ws.Handshake.Concrete.{plain, named, real_words, letters}
use xx_url.Ws.Handshake.Exchange.{connection_line, upgrade_line}

-- "/ HTTP/1.1" behind the method.
abbrev first_line : Bytes
first_line = 71 ∷ 69 ∷ 84 ∷ 32 ∷ 47 ∷ 32 ∷ (prefix ++ (49 ∷ 46 ∷ 49 ∷ []))

abbrev version_line : Bytes
version_line = real_words.version_name ++ (58 ∷ 32 ∷ web_socket_version)

abbrev key_line : Bytes
key_line = real_words.key_name ++ (58 ∷ 32 ∷ letters)

abbrev request_lines : List Bytes
request_lines =
    (connection_line ++ (13 ∷ []))
    ∷ ((upgrade_line ++ (13 ∷ [])) ∷ ((version_line ++ (13 ∷ [])) ∷ ((key_line ++ (13 ∷ [])) ∷ [])))

-- The request is accepted with the key's value.
request_run :
    accept_upgrade plain real_words named (collect named 131056 request_lines []).1
    ≡ ok (letters ++ web_socket_guid)
unfolding collect parse_header try_into_name try_into_value split_once trim trim_start drop_spaces
    space_front space_back strip_last accept_upgrade check_header key_from accept get_str
    eq_ignore_ascii_case
request_run = refl

-- The peer sends the request at once, with a byte behind it.
abbrev peer : Chunks
peer = record {
  buf = [];
  coming =
      (
        71,
        drop 1 (first_line ++ (13 ∷ []))
            ++ (10 ∷ (lines_bytes request_lines ++ ((13 ∷ []) ++ (10 ∷ (7 ∷ []))))),
      )
      ∷ [];
}
