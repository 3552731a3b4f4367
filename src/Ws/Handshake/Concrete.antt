-- ===== src/Ws/Handshake/Concrete.antt =====
-- Packages and words for the handshake. They show that the hypotheses can be met.
use xx_url.Common.{
  ◌≡◌, refl, sym, arith, ok, none, some, Bytes, [], ◌∷◌, ◌++◌, replicate, equal, equal_iff,
  Bool-cases, inl, inr,
}
use xx_url.Http.Concrete.{Fields, fields}
use xx_url.Http.Library.{HeaderLib}
use xx_url.Io.Chunks.{Chunks, chunks}
use xx_url.Ws.Handshake.Exchange.{UpgradeIo, KeepsParts}
use xx_url.Ws.Handshake.Fields.{
  KeepsFields, connection_text, upgrade_text, websocket_text, accept_text,
}
use xx_url.Ws.Handshake.{CryptoLib, Words, web_socket_guid, accept}

-- Texts are their own encoding and sums.
abbrev pub plain : CryptoLib
plain = record { encode_slice = λ bs. bs; decode_slice = some; sha1 = λ bs. bs }

-- A header package and words with the names of the source.
abbrev pub named : HeaderLib Fields
named = record fields { connection = connection_text }

abbrev pub real_words : Words
real_words = record {
  upgrade_name = upgrade_text;
  version_name =
      83 ∷ 101 ∷ 99 ∷ 45 ∷ 87 ∷ 101 ∷ 98 ∷ 83 ∷ 111 ∷ 99 ∷ 107 ∷ 101 ∷ 116 ∷ 45 ∷ 86 ∷ 101 ∷ 114
      ∷ 115 ∷ 105 ∷ 111 ∷ 110 ∷ [];
  key_name =
      83 ∷ 101 ∷ 99 ∷ 45 ∷ 87 ∷ 101 ∷ 98 ∷ 83 ∷ 111 ∷ 99 ∷ 107 ∷ 101 ∷ 116 ∷ 45 ∷ 75 ∷ 101 ∷ 121
      ∷ [];
  accept_name = accept_text;
  upgrade_text = upgrade_text;
  websocket_text = websocket_text;
  get_method = 71 ∷ 69 ∷ 84 ∷ [];
}

pub named-KeepsFields : KeepsFields named real_words
named-KeepsFields = record {
  named_connection = refl;
  named_upgrade = refl;
  named_accept = refl;
  names_differ = (
    λ z. absurd (ground (arith, z)),
    λ z. absurd (ground (arith, z)),
    λ z. absurd (ground (arith, z)),
  );
  texts = (refl, refl);
  takes_value = λ v _. refl;
  gives_text = λ v _. refl;
  takes_status = refl;
  get_same = λ k v h. rw ((equal_iff k k).1 refl) refl;
  get_other = λ k k' v h differ. elim (Bool-cases (equal k' k)) [
    | inl y ↦ absurd (differ (sym ((equal_iff k' k).0 y)))
    | inr n ↦ rw n refl
  ];
}

abbrev pub letters : Bytes
letters = replicate 16 65

pub accept-letters : accept plain real_words letters ≡ letters ++ web_socket_guid
unfolding accept
accept-letters = refl

-- A stream whose peer takes all that is written. A reader of it has a buffer in front, which is
-- what is kept of the reader while the stream is with the writer.
abbrev pub open_stream : UpgradeIo Chunks Chunks Bytes Chunks
open_stream = record {
  new_reader = λ s. record s { buf = [] };
  into_parts = λ r. (record r { buf = [] }, r.buf);
  from_parts = λ s buf. record s { buf = buf };
  new_writer = λ s. s;
  into_stream = λ w. w;
  write_string = λ bytes r. (ok tt, r);
  flush = λ r. (ok tt, r);
  timeout = λ duration f s. (none, s);
}

pub open_stream-KeepsParts : KeepsParts (chunks 64) open_stream
open_stream-KeepsParts = record { starts_empty = λ s. refl; kept = λ r s. refl }
