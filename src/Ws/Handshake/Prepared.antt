-- ===== src/Ws/Handshake/Prepared.antt =====
-- ws/transfer.rs: the request that `connect` makes, and the server that it is sent to.
mod Examples
use xx_url.Common.{◌≢◌, Bytes, [], ◌∷◌, All}
use xx_url.Http.Library.{HeaderLib}
use xx_url.Http.Request.{insert}
use xx_url.Http.Transfer.{Request, Parts, Connect}
use xx_url.Io.{BufRead}
use xx_url.Ws.Handshake.{CryptoLib, Words, web_socket_version}
use xx_url.Ws.Handshake.Exchange.{ClientIo}
use xx_url.Ws.Handshake.Fields.{KeepsFields}

-- The names of the client's headers are different ones.
pub record NamesDiffer {H : Type 0} (lib : HeaderLib H) (words : Words) : Type 0 where
  pub connection :
      All
        (λ name. lib.connection ≢ name)
        (words.upgrade_name ∷ (words.version_name ∷ (words.key_name ∷ (lib.host ∷ []))))
  pub upgrade :
      All
        (λ name. words.upgrade_name ≢ name)
        (words.version_name ∷ (words.key_name ∷ (lib.host ∷ [])))
  pub version : All (λ name. words.version_name ≢ name) (words.key_name ∷ (lib.host ∷ []))
  pub key : words.key_name ≢ lib.host

module _ {U H W : Type 0} (crypto : CryptoLib) (words : Words) (parts : Parts U H)
    (reader : BufRead W) (lib : HeaderLib H) (net : Connect W) (client : ClientIo W U H)
    (keeps : KeepsFields lib words) (differ : NamesDiffer lib words) where
  -- The headers of the prepared request.
  abbrev prepared : Bytes → H → H
  prepared secret h = lib.insert words.key_name (crypto.encode_slice secret) (
      lib.insert words.version_name web_socket_version (
        lib.insert words.upgrade_name words.websocket_text
          (lib.insert lib.connection words.upgrade_text h)))
