-- ===== src/Ws/Handshake/Fields.antt =====
-- ws/transfer.rs: the lines of the server's answer, and what they mean as headers.
use xx_url.Common.{ℕ, ◌≡◌, ◌≢◌, refl, arith, some, Bytes, [], ◌∷◌, ◌++◌, ok}
use xx_url.Http.Library.{HeaderLib}
use xx_url.Http.Lines.{parse_header, try_into_name, try_into_value}
use xx_url.Http.Text.{split_once, trim, trim_start, drop_spaces, space_front, space_back}
use xx_url.Ws.Handshake.{Words}
use xx_url.Ws.Handshake.Exchange.{connection_line, upgrade_line, accept_prefix}
use xx_url.Http.Lines.Visible.{IsVisible, trim_start-space, field}

abbrev pub connection_text : Bytes
connection_text = 67 ∷ 111 ∷ 110 ∷ 110 ∷ 101 ∷ 99 ∷ 116 ∷ 105 ∷ 111 ∷ 110 ∷ []

abbrev pub upgrade_text : Bytes
upgrade_text = 85 ∷ 112 ∷ 103 ∷ 114 ∷ 97 ∷ 100 ∷ 101 ∷ []

abbrev pub websocket_text : Bytes
websocket_text = 119 ∷ 101 ∷ 98 ∷ 115 ∷ 111 ∷ 99 ∷ 107 ∷ 101 ∷ 116 ∷ []

abbrev pub accept_text : Bytes
accept_text =
    83 ∷ 101 ∷ 99 ∷ 45 ∷ 87 ∷ 101 ∷ 98 ∷ 83 ∷ 111 ∷ 99 ∷ 107 ∷ 101 ∷ 116 ∷ 45 ∷ 65 ∷ 99 ∷ 99 ∷ 101
    ∷ 112 ∷ 116 ∷ []

-- What the source relies on: the header package takes the names and visible values as they are,
-- and keeps the values by their names; and the words are those of the source.
pub record KeepsFields {H : Type 0} (lib : HeaderLib H) (words : Words) : Type 0 where
  pub named_connection : lib.name_from connection_text ≡ some lib.connection
  pub named_upgrade : lib.name_from upgrade_text ≡ some words.upgrade_name
  pub named_accept : lib.name_from accept_text ≡ some words.accept_name
  pub names_differ :
      (lib.connection ≢ words.upgrade_name)
      × (lib.connection ≢ words.accept_name)
      × (words.upgrade_name ≢ words.accept_name)
  pub texts : (words.upgrade_text ≡ upgrade_text) × (words.websocket_text ≡ websocket_text)
  pub takes_value : (v : Bytes) → IsVisible v → lib.value_from v ≡ some v
  pub gives_text : (v : Bytes) → IsVisible v → lib.to_str v ≡ some v
  pub takes_status : lib.status_from (49 ∷ 48 ∷ 49 ∷ []) ≡ some 101
  pub get_same : (k v : Bytes) (h : H) → lib.get k (lib.insert k v h) ≡ some v
  pub get_other : (k k' v : Bytes) (h : H) → k ≢ k' → lib.get k (lib.insert k' v h) ≡ lib.get k h

module _ {H : Type 0} {lib : HeaderLib H} {words : Words} (keeps : KeepsFields lib words) where
  pub parse_connection :
      (n : ℕ) → parse_header lib connection_line n ≡ ok (field lib.connection upgrade_text n)
  unfolding parse_header try_into_name try_into_value split_once trim trim_start drop_spaces
      space_front space_back
  parse_connection n =
      rw (parse_header, try_into_name, keeps.named_connection)
        (rw (try_into_value, keeps.takes_value upgrade_text (ground arith)) refl)

  pub parse_upgrade :
      (n : ℕ) → parse_header lib upgrade_line n ≡ ok (field words.upgrade_name websocket_text n)
  unfolding parse_header try_into_name try_into_value split_once trim trim_start drop_spaces
      space_front space_back
  parse_upgrade n =
      ground (arith, keeps.named_upgrade, keeps.takes_value websocket_text (ground arith))

  pub parse_accept :
      (value : Bytes) (n : ℕ)
      → IsVisible value
      → parse_header lib (accept_prefix ++ value) n ≡ ok (field words.accept_name value n)
  unfolding parse_header try_into_name try_into_value split_once trim trim_start drop_spaces
      space_front space_back
  parse_accept value n h =
      rw (parse_header, try_into_name, keeps.named_accept)
        (rw (trim_start-space value h) (rw (try_into_value, keeps.takes_value value h) refl))
