-- ===== src/Dns/Hosts/Pairs.antt =====
-- dns/hosts.rs: the names and addresses of a hosts file, and the map that its lines add up to.
use mathlib.Core.Path.{fun_ext}
use xx_url.Common.{
  none, some, Bytes, List, [], ◌∷◌, ◌++◌, map, is_nil, ◌≡◌, refl, sym, ap, ◌∙◌, arith,
  if◌then◌else◌, Result, ok, err, panic, stuck, bind_result, Bool-cases, Option-cases, inl, inr,
}
use xx_url.Dns.Hosts.{HostsLib, Map, add_record, add_hosts, add_line, add_lines, split_whitespace}
use xx_url.Http.Text.{split, trim}
use xx_url.Net.{IpAddr}

-- A name and an address that stand in one line of the file.
abbrev pub Pair : Type 0
Pair = Bytes × IpAddr

module _ (lib : HostsLib) where
  -- The pairs of an address and the names behind it; those that are no name are left out.
  abbrev pub pairs_of : IpAddr → List Bytes → List Pair
  pairs_of ip [] = []
  pairs_of ip (token ∷ tokens) =
      let rest = pairs_of ip tokens in
      elim (lib.new_name (lib.to_lowercase token)) [ none ↦ rest | some name ↦ (name, ip) ∷ rest ]

  abbrev pub word_pairs : List Bytes → Result (List Pair)
  word_pairs [] = panic
  word_pairs (ip ∷ tokens) = elim (lib.parse_ip ip) [
    | none ↦ ok []
    | some addr ↦ ok (pairs_of addr tokens)
  ]

  -- The pairs of a line, without its comment and the white space around it.
  abbrev pub line_pairs : Bytes → Result (List Pair)
  line_pairs text =
      let line = trim (split 35 text).0 in
      if is_nil line then ok [] else word_pairs (split_whitespace line)

  abbrev pub file_pairs : List Bytes → Result (List Pair)
  file_pairs [] = ok []
  file_pairs (line ∷ lines) =
      let rest = file_pairs lines in
      bind_result (line_pairs line) (λ ps. bind_result rest (λ more. ok (ps ++ more)))

  abbrev pub add_pairs : List Pair → Map → Map
  add_pairs [] hosts = hosts
  add_pairs ((name, ip) ∷ more) hosts = add_pairs more (add_record lib name ip hosts)

  add_pairs-append :
      (ps qs : List Pair) (hosts : Map)
      → add_pairs (ps ++ qs) hosts ≡ add_pairs qs (add_pairs ps hosts)
  add_pairs-append [] qs hosts = refl
  add_pairs-append ((name, ip) ∷ ps) qs hosts =
      add_pairs-append ps qs (add_record lib name ip hosts)

  add_hosts-pairs :
      (ip : IpAddr) (tokens : List Bytes) (hosts : Map)
      → add_hosts lib ip tokens hosts ≡ add_pairs (pairs_of ip tokens) hosts
  unfolding add_hosts
  add_hosts-pairs ip [] hosts = refl
  add_hosts-pairs ip (token ∷ tokens) hosts =
      elim (Option-cases (lib.new_name (lib.to_lowercase token))) [
        | inl n ↦ ground (arith, n, add_hosts-pairs ip tokens hosts)
        | inr (name, y) ↦
            ground (arith, y, add_hosts-pairs ip tokens (add_record lib name ip hosts))
      ]

  abbrev words_added : Map → List Bytes → Result Map
  words_added hosts [] = panic
  words_added hosts (ip ∷ tokens) = elim (lib.parse_ip ip) [
    | none ↦ ok hosts
    | some addr ↦ ok (add_hosts lib addr tokens hosts)
  ]

  words_added-pairs :
      (words : List Bytes) (hosts : Map)
      → words_added hosts words ≡ bind_result (word_pairs words) (λ ps. ok (add_pairs ps hosts))
  words_added-pairs [] hosts = refl
  words_added-pairs (ip ∷ tokens) hosts = elim (Option-cases (lib.parse_ip ip)) [
    | inl n ↦ ground (arith, n)
    | inr (addr, y) ↦ ground (arith, y, add_hosts-pairs addr tokens hosts)
  ]

  add_line-pairs :
      (line : Bytes) (hosts : Map)
      → add_line lib line hosts ≡ bind_result (line_pairs line) (λ ps. ok (add_pairs ps hosts))
  unfolding add_line
  add_line-pairs text hosts = elim (Bool-cases (is_nil (trim (split 35 text).0))) [
    | inl y ↦ ground (arith, y)
    | inr n ↦ ground (arith, n, words_added-pairs (split_whitespace (trim (split 35 text).0)) hosts)
  ]

  bind_pairs :
      {A : Type 0} (r : Result (List Pair)) (s : Result (List Pair)) (f : List Pair → Result A)
      → bind_result (bind_result r (λ ps. bind_result s (λ qs. ok (ps ++ qs)))) f
        ≡ bind_result r (λ ps. bind_result s (λ qs. f (ps ++ qs)))
  bind_pairs (ok ps) (ok qs) f = refl
  bind_pairs (ok ps) (err _) f = refl
  bind_pairs (ok ps) panic f = refl
  bind_pairs (ok ps) stuck f = refl
  bind_pairs (err _) s f = refl
  bind_pairs panic s f = refl
  bind_pairs stuck s f = refl

  pub add_lines-pairs :
      (lines : List Bytes) (hosts : Map)
      → add_lines lib (map ok lines) hosts
        ≡ bind_result (file_pairs lines) (λ ps. ok (add_pairs ps hosts))
  unfolding add_lines
  add_lines-pairs [] hosts = refl
  add_lines-pairs (line ∷ lines) hosts =
      ap (λ r. bind_result r (λ more. add_lines lib (map ok lines) more))
        (add_line-pairs line hosts)
      ∙ rest (add_lines-pairs lines) (line_pairs line)
      ∙ sym (bind_pairs (line_pairs line) (file_pairs lines) _)
    where
      rest :
          ((h : Map)
            → add_lines lib (map ok lines) h
              ≡ bind_result (file_pairs lines) (λ qs. ok (add_pairs qs h)))
          → (r : Result (List Pair))
          → bind_result
              (bind_result r (λ ps. ok (add_pairs ps hosts)))
              (λ more. add_lines lib (map ok lines) more)
            ≡ bind_result r
                (λ ps. bind_result (file_pairs lines) (λ qs. ok (add_pairs (ps ++ qs) hosts)))
      rest ih (ok ps) =
          ih (add_pairs ps hosts)
          ∙ ap (bind_result (file_pairs lines))
              (fun_ext λ qs. ap ok (sym (add_pairs-append ps qs hosts)))
      rest ih (err _) = refl
      rest ih panic = refl
      rest ih stuck = refl
