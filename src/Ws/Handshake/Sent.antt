-- ===== src/Ws/Handshake/Sent.antt =====
-- http/transfer.rs and ws/transfer.rs: a server reads the request that a client has sent.
use xx_url.Common.{
  ℕ, suc, ◌+◌, ◌-◌, ◌≤◌, ◌<◌, ◌≡◌, refl, ap, ◌∙◌, arith, true, false, some, Bytes, [], ◌∷◌, ◌++◌,
  ◌==◌, length, map, All, Result, equal, equal_iff, and_then, length-append, length-map,
}
use xx_url.Errors.{http11}
use xx_url.Http.Headers.{get_str}
use xx_url.Http.Library.{HeaderLib, Searches}
use xx_url.Http.Lines.Buffered.{strip_last-append}
use xx_url.Http.Lines.Visible.{
  IsVisible, IsPlain, IsVisible-IsPlain, IsPlain-IsLine, All-append, IsField, sent_line,
  fields_size, insert_all, collect_fields, sent_lines-full, sent_lines-IsLine,
}
use xx_url.Http.Options.{default_options}
use xx_url.Http.Response.{as_str, parse_version}
use xx_url.Http.Text.{split, to_digit}
use xx_url.Http.Transfer.{Request, Parts, head_of}
use xx_url.Http.Transfer.Head.{first_line, head_of-lines}
use xx_url.Io.{BufRead}
use xx_url.Io.Delivery.{Buffers}
use xx_url.Ws.Handshake.{CryptoLib, Words, accept, accept_upgrade, parse_request_line}
use xx_url.Ws.Handshake.Exchange.{UpgradeIo, KeepsParts, on_parts, handle_upgrade, write_answer}
use xx_url.Ws.Handshake.Keys.{AsksUpgrade, accept_upgrade-accept}
use xx_url.Ws.Handshake.Upgrade.{handle_upgrade-buffered}

version-IsPlain : IsPlain (32 ∷ as_str http11)
unfolding as_str
version-IsPlain = ground arith

split-visible :
    (xs rest : Bytes)
    → IsVisible xs
    → split 32 (xs ++ (32 ∷ rest)) ≡ (xs, (split 32 rest).0 ∷ (split 32 rest).1)
unfolding split
split-visible [] rest h = refl
split-visible (b ∷ xs) rest h =
    let other : b == 32 ≡ false = ground (arith, h.0) in rw (other, split-visible xs rest h.1) refl

module _ {U H : Type 0} (crypto : CryptoLib) (words : Words) (lib : HeaderLib H)
    (parts : Parts U H) where
  -- A request that can be sent in lines and read again: a GET request of visible bytes, not too
  -- long.
  pub record IsSendable (r : Request U H) (u : U) : Type 0 where
    pub get : r.method ≡ words.get_method
    pub visible_method : IsVisible r.method
    pub visible_path : IsVisible (parts.path_and_query u)
    pub sent_fields : All (IsField lib) (parts.fields r.headers)
    pub fits :
        length (first_line parts r u) + 2 + fields_size (parts.fields r.headers)
        ≤ default_options.maximum_header_size

  -- What the source relies on: the fields of a header map are all that it holds.
  abbrev pub ListsFields : Type 0
  ListsFields =
      (h : H) (name : Bytes)
      → lib.get name (insert_all lib (parts.fields h) lib.empty) ≡ lib.get name h

  first_line-parsed :
      (r : Request U H) (u : U)
      → IsSendable r u
      → parse_request_line crypto words (first_line parts r u)
        ≡ some (http11, parts.path_and_query u)
  unfolding parse_request_line as_str parse_version to_digit split
  first_line-parsed r u s =
      let same : equal r.method words.get_method ≡ true =
        (equal_iff r.method words.get_method).1 s.get in
      rw
        (
          parse_request_line,
          split-visible r.method (parts.path_and_query u ++ (32 ∷ as_str http11)) s.visible_method,
          split-visible (parts.path_and_query u) (as_str http11) s.visible_path,
          same,
        )
        refl

  first_line-IsPlain : (r : Request U H) (u : U) → IsSendable r u → IsPlain (first_line parts r u)
  first_line-IsPlain r u s = All-append _ r.method _ (IsVisible-IsPlain r.method s.visible_method) (
    (omega arith, refl),
    All-append _ (parts.path_and_query u) _ (IsVisible-IsPlain _ s.visible_path) version-IsPlain,
  )

  get_str-same :
      (name : Bytes) (h h' : H)
      → lib.get name h ≡ lib.get name h'
      → get_str lib name h ≡ get_str lib name h'
  unfolding get_str
  get_str-same name h h' e = rw (get_str, e) refl

  sent-AsksUpgrade :
      ListsFields
      → (secret : Bytes) (h : H) → AsksUpgrade crypto words lib secret h
      → AsksUpgrade crypto words lib secret (insert_all lib (parts.fields h) lib.empty)
  sent-AsksUpgrade lists secret h asks =
      let same = λ (name : Bytes).
        get_str-same name (insert_all lib (parts.fields h) lib.empty) h (lists h name) in
      record {
        connection = same lib.connection ∙ asks.connection;
        upgrade = same words.upgrade_name ∙ asks.upgrade;
        version = same words.version_name ∙ asks.version;
        key = same words.key_name ∙ asks.key;
      }

  module _ {R S P T : Type 0} {io : BufRead R} {up : UpgradeIo R S P T} (joins : KeepsParts io up)
      {unread : R → Bytes} (b : Buffers io unread) (finds : Searches lib.memchr) where
    -- A server whose first read brings the bytes of such a request writes the answer to its key,
    -- and has what follows the request in its buffer at the end.
    pub handle_upgrade-head_of :
        ListsFields
        → (rounds fuel : ℕ) (s : S) (r : Request U H) (u : U) (secret rest : Bytes) → IsSendable r u
        → length (parts.fields r.headers) < rounds
        → length secret ≡ 16
        → crypto.decode_slice (crypto.encode_slice secret) ≡ some secret
        → AsksUpgrade crypto words lib secret r.headers
        → io.buffer (io.fill (up.new_reader s)).1 ≡ head_of parts http11 r u ++ rest
        → let upgraded = handle_upgrade crypto words io lib up rounds (suc (suc fuel)) s in
          (r' : R) × (upgraded
            ≡ on_parts crypto words io lib up
                (write_answer crypto words io lib up (accept crypto words secret))
                r')
          × (io.buffer upgraded.1 ≡ rest)
    handle_upgrade-head_of lists rounds fuel s r u secret rest sends enough size decodes asks e =
        let line = first_line parts r u in
        let fs = parts.fields r.headers in
        let (s', same, behind) =
          handle_upgrade-buffered crypto words lib joins b finds rounds fuel s (line ++ (13 ∷ []))
            (parts.path_and_query u) (map sent_line fs) (13 ∷ []) rest
            (IsPlain-IsLine line (first_line-IsPlain r u sends))
            (ap (parse_request_line crypto words) (strip_last-append 13 line)
              ∙ first_line-parsed r u sends)
            (omega (arith, sends.fits, length-append line (13 ∷ [])))
            (omega (arith, enough, length-map sent_line fs))
            (sent_lines-IsLine lib fs sends.sent_fields) (sent_lines-full fs) (IsPlain-IsLine [] tt)
            (strip_last-append 13 []) (e ∙ head_of-lines parts r u rest) in
        let collected =
          collect_fields lib
            (default_options.maximum_header_size - (length (line ++ (13 ∷ [])) + 1)) fs lib.empty
            sends.sent_fields (omega (arith, sends.fits, length-append line (13 ∷ []))) in
        let accepted =
          accept_upgrade-accept crypto words lib secret _ size decodes
            (sent-AsksUpgrade lists secret r.headers asks) in
        (
          s',
          same
              ∙ ap
                  (λ (t : Result (Unit {0}) × H).
                    and_then (t.0, s')
                      λ _. on_parts crypto words io lib up λ w.
                        and_then (accept_upgrade crypto words lib t.1, w)
                          (write_answer crypto words io lib up))
                  collected
              ∙ ap
                  (λ (a : Result Bytes).
                    on_parts crypto words io lib up
                      (λ w. and_then (a, w) (write_answer crypto words io lib up)) s')
                  accepted,
          behind (ap (λ (t : Result (Unit {0}) × H). t.0) collected),
        )
