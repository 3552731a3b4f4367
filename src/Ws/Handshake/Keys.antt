-- ===== src/Ws/Handshake/Keys.antt =====
-- ws/handshake.rs and ws/transfer.rs: both ends of a handshake agree.
use xx_url.Common.{
  ◌≡◌, refl, sym, ap, ◌∙◌, arith, true, some, Bytes, ◌++◌, length, take, replicate, take-append,
  equal_iff, map, ok,
}
use xx_url.Errors.{Error, web_socket, invalid_client_request}
use xx_url.Http.Headers.{get_str}
use xx_url.Http.Library.{HeaderLib}
use xx_url.Http.Text.{eq_ignore_ascii_case, to_lower}
use xx_url.Ws.Handshake.{
  CryptoLib, Words, web_socket_version, key_from, accept, check_header, accept_upgrade,
}

eq_ignore_ascii_case-same : (bs : Bytes) → eq_ignore_ascii_case bs bs ≡ true
unfolding eq_ignore_ascii_case
eq_ignore_ascii_case-same bs = (equal_iff (map to_lower bs) (map to_lower bs)).1 refl

module _ (crypto : CryptoLib) (words : Words) {H : Type 0} (lib : HeaderLib H) where
  pub check_header-same :
      (headers : H) (header value : Bytes) (error : Error)
      → get_str lib header headers ≡ ok (some value)
      → check_header crypto words lib headers header value error ≡ ok tt
  unfolding check_header
  check_header-same headers header value error e =
      ground (arith, e, eq_ignore_ascii_case-same value)

  -- Headers that ask for an upgrade with the key `secret`.
  pub record AsksUpgrade (secret : Bytes) (headers : H) : Type 0 where
    pub connection : get_str lib lib.connection headers ≡ ok (some words.upgrade_text)
    pub upgrade : get_str lib words.upgrade_name headers ≡ ok (some words.websocket_text)
    pub version : get_str lib words.version_name headers ≡ ok (some web_socket_version)
    pub key : get_str lib words.key_name headers ≡ ok (some (crypto.encode_slice secret))

  -- A server that is sent such headers with a key of 16 bytes accepts them.
  pub accept_upgrade-accept :
      (secret : Bytes) (headers : H)
      → length secret ≡ 16
      → crypto.decode_slice (crypto.encode_slice secret) ≡ some secret
      → AsksUpgrade secret headers
      → accept_upgrade crypto words lib headers ≡ ok (accept crypto words secret)
  unfolding accept_upgrade key_from
  accept_upgrade-accept secret headers size decodes asks =
      let whole : take 16 (secret ++ replicate 16 0) ≡ secret =
        ap (λ n. take n (secret ++ replicate 16 0)) (sym size)
        ∙ take-append secret (replicate 16 0) in
      let error = web_socket invalid_client_request in
      let key : key_from crypto words (crypto.encode_slice secret) ≡ ok secret =
        rw (key_from, decodes) (ap ok whole) in
      rw
        (
          check_header-same headers lib.connection words.upgrade_text error asks.connection,
          check_header-same headers words.upgrade_name words.websocket_text error asks.upgrade,
          check_header-same headers words.version_name web_socket_version error asks.version,
          asks.key,
        )
        (ground (arith, key))
