-- ===== src/Ws/Handshake/Exchange.antt =====
-- ws/transfer.rs and ws/conn.rs: the exchange of the bytes of the handshake, on both sides.
use xx_url.Common.{
  ℕ, min, Option, none, some, Bytes, [], ◌∷◌, ◌++◌, ◌==◌, checked_sub, if◌then◌else◌, Result, ok,
  err, panic, stuck, M, ◌>>=◌, ◌>>◌, fail, lift, and_then, ◌≡◌,
}
use xx_url.Errors.{
  Version, http11, http, invalid_status_line, unexpected_version, headers_too_long, web_socket,
  handshake_timeout,
}
use xx_url.Http.Library.{HeaderLib}
use xx_url.Http.Lines.{read_line_in_place, read_headers_limited, on_reader, try_into_value}
use xx_url.Http.Options.{Options, default_options}
use xx_url.Http.Request.{header}
use xx_url.Http.Response.{as_str, number}
use xx_url.Http.Transfer.{Request, Parts, Connect, RawResponse, transfer}
use xx_url.Io.{BufRead}
use xx_url.Ws.Handshake.{
  CryptoLib, Words, web_socket_version, check_response, accept_upgrade, parse_request_line,
}
use xx_url.Ws.Socket.{WebSocketOptions, WebSocket, server}

-- The lines of the answer: "101 Switching Protocols" behind the version, and the headers.
abbrev pub switching : Bytes
switching =
    49 ∷ 48 ∷ 49 ∷ 32 ∷ 83 ∷ 119 ∷ 105 ∷ 116 ∷ 99 ∷ 104 ∷ 105 ∷ 110 ∷ 103 ∷ 32 ∷ 80 ∷ 114 ∷ 111
    ∷ 116 ∷ 111 ∷ 99 ∷ 111 ∷ 108 ∷ 115 ∷ []

abbrev pub connection_line : Bytes
connection_line =
    67 ∷ 111 ∷ 110 ∷ 110 ∷ 101 ∷ 99 ∷ 116 ∷ 105 ∷ 111 ∷ 110 ∷ 58 ∷ 32 ∷ 85 ∷ 112 ∷ 103 ∷ 114 ∷ 97
    ∷ 100 ∷ 101 ∷ []

abbrev pub upgrade_line : Bytes
upgrade_line =
    85 ∷ 112 ∷ 103 ∷ 114 ∷ 97 ∷ 100 ∷ 101 ∷ 58 ∷ 32 ∷ 119 ∷ 101 ∷ 98 ∷ 115 ∷ 111 ∷ 99 ∷ 107 ∷ 101
    ∷ 116 ∷ []

abbrev pub accept_prefix : Bytes
accept_prefix =
    83 ∷ 101 ∷ 99 ∷ 45 ∷ 87 ∷ 101 ∷ 98 ∷ 83 ∷ 111 ∷ 99 ∷ 107 ∷ 101 ∷ 116 ∷ 45 ∷ 65 ∷ 99 ∷ 99 ∷ 101
    ∷ 112 ∷ 116 ∷ 58 ∷ 32 ∷ []

abbrev pub crlf : Bytes
crlf = 13 ∷ 10 ∷ []

-- The lines that handle_upgrade writes, without their ends.
unfoldable pub status_line : Bytes
unfolding as_str
status_line = as_str http11 ++ (32 ∷ switching)

-- What the source takes of the core library's readers `R` and writers `T` over streams `S`. A reader
-- is taken apart into its stream and its buffer with the position, `P`. Then
-- `task.timeout(duration)`: `none` when the time is over first.
pub record UpgradeIo (R S P T : Type 0) : Type 0 where
  -- `BufReader::new`
  pub new_reader : S → R
  pub into_parts : R → S × P
  pub from_parts : S → P → R
  -- `BufWriter::new`, and the stream of its `into_parts`
  pub new_writer : S → T
  pub into_stream : T → S
  pub write_string : Bytes → M T (Unit {0})
  pub flush : M T (Unit {0})
  pub timeout : ℕ → (S → Result (Unit {0}) × R) → S → Option (Result (Unit {0})) × R

-- What is relied on: a new reader has nothing buffered, and a reader that is put together again has
-- the buffer that it had, whatever was done to the stream meanwhile.
pub record KeepsParts {R S P T : Type 0} (io : BufRead R) (up : UpgradeIo R S P T) : Type 0 where
  pub starts_empty : (s : S) → io.buffer (up.new_reader s) ≡ []
  pub kept : (r : R) (s : S) → io.buffer (up.from_parts s (up.into_parts r).1) ≡ io.buffer r

-- `.ok_or(WebSocketError::HandshakeTimeout)??`
abbrev pub in_time : {A S : Type 0} → Option (Result A) × S → Result A × S
in_time (none, s) = (err (web_socket handshake_timeout), s)
in_time (some result, s) = (result, s)

module _ (crypto : CryptoLib) (words : Words) {R S P T H : Type 0} (io : BufRead R)
    (lib : HeaderLib H) (up : UpgradeIo R S P T) where
  found_line : Bytes → Option (Version × Bytes) → Result Version
  found_line line none = err (http (invalid_status_line line))
  found_line line (some (version, url)) = ok version

  read_request_headers : ℕ → ℕ → ℕ → M (R × H) (Unit {0})
  read_request_headers rounds fuel total_size =
      elim (checked_sub default_options.maximum_header_size total_size) [
        | none ↦ fail (http headers_too_long)
        | some limit ↦ read_headers_limited io lib rounds fuel limit
      ]

  -- `handle_request`, into headers that are empty at first
  unfoldable pub handle_request : ℕ → ℕ → M (R × H) (Unit {0})
  unfolding found_line read_request_headers
  handle_request rounds fuel = do
    (line, offset) ← on_reader io lib (read_line_in_place io lib fuel)
    version ← lift (found_line line (parse_request_line crypto words line))
    on_reader io lib (λ r. (ok tt, io.consume offset r))
    if number version == number http11
        then read_request_headers rounds fuel offset
        else fail (http (unexpected_version version))

  abbrev pub put_headers : Result (Unit {0}) × (R × H) → Result H × R
  put_headers (ok _, (r, headers)) = (ok headers, r)
  put_headers (err e, (r, headers)) = (err e, r)
  put_headers (panic, (r, headers)) = (panic, r)
  put_headers (stuck, (r, headers)) = (stuck, r)

  unfoldable pub write_answer : Bytes → M T (Unit {0})
  unfolding status_line
  write_answer value = do
    up.write_string (status_line ++ crlf)
    up.write_string (connection_line ++ crlf)
    up.write_string (upgrade_line ++ crlf)
    up.write_string ((accept_prefix ++ value) ++ crlf)
    up.write_string crlf
    up.flush

  abbrev rejoined : P → Result (Unit {0}) × T → Result (Unit {0}) × R
  rejoined parts written = (written.0, up.from_parts (up.into_stream written.1) parts)

  -- The reader is taken apart, a writer is used on its stream, and the reader is put together
  -- again. Behind an error the source drops the stream.
  abbrev pub on_parts : M T (Unit {0}) → M R (Unit {0})
  on_parts write r = let taken = up.into_parts r in rejoined taken.1 (write (up.new_writer taken.0))

  unfoldable pub handle_upgrade : ℕ → ℕ → S → Result (Unit {0}) × R
  unfolding handle_request write_answer
  handle_upgrade rounds fuel stream =
      (do
        headers ← (λ r. put_headers (handle_request rounds fuel (r, lib.empty)))
        on_parts (do value ← lift (accept_upgrade crypto words lib headers); write_answer value))
        (up.new_reader stream)

  -- `WebSocketHandle::accept_websocket`
  unfoldable pub accept_websocket : ℕ → ℕ → WebSocketOptions → S → Result (WebSocket R) × R
  unfolding handle_upgrade
  accept_websocket rounds fuel options stream =
      and_then (in_time (up.timeout options.handshake_timeout (handle_upgrade rounds fuel) stream))
        (λ _ r. (ok (server r options), r))

-- The client, which is in a world `W` with its connection: `Key::new` gives a random key, and the
-- whole of `transfer` is under a timeout.
pub record ClientIo (W U H : Type 0) : Type 0 where
  pub new_key : W → Bytes × W
  pub timeout :
      ℕ
      → M (W × Request U H) (RawResponse U H)
      → W × Request U H
      → Option (Result (RawResponse U H)) × (W × Request U H)

pub record WsRequest (U H : Type 0) : Type 0 where
  pub inner : Request U H
  pub options : WebSocketOptions

module _ (crypto : CryptoLib) (words : Words) {U H W : Type 0} (parts : Parts U H) (io : BufRead W)
    (lib : HeaderLib H) (net : Connect W) (client : ClientIo W U H) where
  -- A timeout for connecting is at most the one of the handshake.
  unfoldable pub limit_timeout : ℕ → Request U H → Request U H
  limit_timeout timeout inner = elim inner.options.timeout [
    | none ↦ inner
    | some connect_timeout ↦
        let options : Options = inner.options in
        record inner { options = record options { timeout = some (min connect_timeout timeout) } }
  ]

  set_header : Bytes → Bytes → Request U H → Request U H
  set_header name value = header lib (ok name) (try_into_value lib value)

  unfoldable pub prepare_request : Bytes → WsRequest U H → Request U H
  unfolding limit_timeout set_header
  prepare_request secret request = set_header words.key_name (crypto.encode_slice secret) (
      set_header words.version_name web_socket_version (
        set_header words.upgrade_name words.websocket_text (
          set_header lib.connection words.upgrade_text
            (limit_timeout request.options.handshake_timeout request.inner))))

  abbrev put_request :
      {A : Type 0} → WsRequest U H → Result A × (W × Request U H) → Result A × (W × WsRequest U H)
  put_request request (result, (w, inner)) = (result, (w, record request { inner = inner }))

  unfoldable pub connect : ℕ → ℕ → M (W × WsRequest U H) (Unit {0})
  unfolding prepare_request
  connect rounds fuel (w, request) =
      let (secret, w') = client.new_key w in
      ((λ s. put_request s.1 (
            in_time (
              client.timeout request.options.handshake_timeout
                (transfer parts io lib net rounds fuel) (s.0, s.1.inner))))
          >>= λ response.
              lift
                (check_response crypto words lib secret response.status response.response_headers))
        (w', record request { inner = prepare_request secret request })
