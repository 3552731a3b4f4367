-- ===== src/Ws/Handshake.antt =====
-- ws/handshake.rs and ws/transfer.rs: the keys of the handshake, and the checks of its headers.
pub mod Keys
pub mod Exchange
pub mod Fields
mod Reading
pub mod Answer
pub mod Upgrade
pub mod Sent
pub mod Prepared
mod Concrete
mod Examples
use xx_url.Common.{
  ℕ, Bool, true, false, not, Option, none, some, Bytes, List, [], ◌∷◌, ◌++◌, ◌==◌, if◌then◌else◌,
  take, replicate, equal, Result, ok, err, panic, stuck, bind_result,
}
use xx_url.Errors.{Error, Version, web_socket, invalid_key, invalid_client_request, server_rejected}
use xx_url.Http.Headers.{get_str}
use xx_url.Http.Library.{HeaderLib}
use xx_url.Http.Response.{parse_version}
use xx_url.Http.Text.{split, eq_ignore_ascii_case}

-- What the source takes from the base64 and crypto packages: the standard alphabet, where a text is
-- decoded to 16 bytes at most, and SHA-1.
pub record CryptoLib : Type 0 where
  pub encode_slice : Bytes → Bytes
  pub decode_slice : Bytes → Option Bytes
  pub sha1 : Bytes → Bytes

-- "13"
abbrev pub web_socket_version : Bytes
web_socket_version = 49 ∷ 51 ∷ []

-- "258EAFA5-E914-47DA-95CA-C5AB0DC85B11"
abbrev pub web_socket_guid : Bytes
web_socket_guid =
    50 ∷ 53 ∷ 56 ∷ 69 ∷ 65 ∷ 70 ∷ 65 ∷ 53 ∷ 45 ∷ 69 ∷ 57 ∷ 49 ∷ 52 ∷ 45 ∷ 52 ∷ 55 ∷ 68 ∷ 65 ∷ 45
    ∷ 57 ∷ 53 ∷ 67 ∷ 65 ∷ 45 ∷ 67 ∷ 53 ∷ 65 ∷ 66 ∷ 48 ∷ 68 ∷ 67 ∷ 56 ∷ 53 ∷ 66 ∷ 49 ∷ 49 ∷ []

-- The names and texts of ws/transfer.rs, as the header package and the core library have them.
pub record Words : Type 0 where
  pub upgrade_name : Bytes
  pub version_name : Bytes
  pub key_name : Bytes
  pub accept_name : Bytes
  pub upgrade_text : Bytes
  pub websocket_text : Bytes
  pub get_method : Bytes

module _ (crypto : CryptoLib) (words : Words) where
  -- `Key::from`: the bytes behind those that were decoded stay 0.
  unfoldable pub key_from : Bytes → Result Bytes
  key_from val = elim (crypto.decode_slice val) [
    | none ↦ err (web_socket invalid_key)
    | some secret ↦ ok (take 16 (secret ++ replicate 16 0))
  ]

  unfoldable pub accept : Bytes → Bytes
  accept secret = crypto.encode_slice (crypto.sha1 (crypto.encode_slice secret ++ web_socket_guid))

  module _ {H : Type 0} (lib : HeaderLib H) where
    is_value : Bytes → Option Bytes → Bool
    is_value value none = false
    is_value value (some text) = eq_ignore_ascii_case text value

    -- The macro `check_header`, for a name of a header.
    unfoldable pub check_header : H → Bytes → Bytes → Error → Result (Unit {0})
    unfolding is_value
    check_header headers header value error =
        bind_result (get_str lib header headers)
          (λ found. if is_value value found then ok tt else err error)

    -- The checks of `connect`.
    unfoldable pub check_response : Bytes → ℕ → H → Result (Unit {0})
    unfolding check_header
    check_response secret status headers =
        if status == 101
        then bind_result
            (check_header headers lib.connection words.upgrade_text (web_socket server_rejected))
            (λ _.
              bind_result
                (check_header headers words.upgrade_name words.websocket_text
                  (web_socket server_rejected))
                (λ _.
                  check_header headers words.accept_name (accept secret)
                    (web_socket server_rejected)))
        else err (web_socket server_rejected)

    accept_key : Option Bytes → Result Bytes
    accept_key none = err (web_socket invalid_client_request)
    accept_key (some key) = bind_result (key_from key) (λ secret. ok (accept secret))

    -- The checks of `handle_upgrade`, and the value for `Sec-WebSocket-Accept`.
    unfoldable pub accept_upgrade : H → Result Bytes
    unfolding check_header accept_key
    accept_upgrade headers =
        let error = web_socket invalid_client_request in
        bind_result (check_header headers lib.connection words.upgrade_text error) (λ _.
          bind_result (check_header headers words.upgrade_name words.websocket_text error) (λ _.
            bind_result (check_header headers words.version_name web_socket_version error)
              (λ _. bind_result (get_str lib words.key_name headers) accept_key)))

  url_and_version : List Bytes → Option (Version × Bytes)
  url_and_version (u ∷ (version ∷ _)) = elim (parse_version version) [
    | none ↦ none
    | some v ↦ some (v, u)
  ]
  url_and_version _ = none

  unfoldable pub parse_request_line : Bytes → Option (Version × Bytes)
  unfolding url_and_version
  parse_request_line line =
      let pieces = split 32 line in
      if equal pieces.0 words.get_method then url_and_version pieces.1 else none
