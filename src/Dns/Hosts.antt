-- ===== src/Dns/Hosts.antt =====
-- dns/hosts.rs: reading the hosts file.
pub mod Pairs
pub mod Entries
pub mod Concrete
mod Examples
use xx_url.Common.{
  ℕ, zero, suc, ◌==◌, Bool, true, false, not, Option, none, some, Bytes, List, [], ◌∷◌, ◌++◌,
  length, drop, is_nil, if◌then◌else◌, Result, ok, err, panic, stuck, bind_result,
}
use xx_url.Dns.NameServer.{HostResults}
use xx_url.Errors.{Record, RData, a, aaaa}
use xx_url.Http.Text.{split, trim, space_front}
use xx_url.Net.{IpAddr, v4, v6}

-- What the source takes from elsewhere: the parser of addresses, the lower case of Unicode, the
-- names of the simple-dns package and when two of them are the same key.
pub record HostsLib : Type 0 where
  pub parse_ip : Bytes → Option IpAddr
  pub to_lowercase : Bytes → Bytes
  pub new_name : Bytes → Option Bytes
  pub same_name : Bytes → Bytes → Bool

abbrev pub Map : Type 0
Map = List (Bytes × HostResults)

-- The first word of a text and the others, cut at each character of white space.
cut_spaces : ℕ → Bytes → Bytes × List Bytes
cut_spaces zero bs = ([], [])
cut_spaces (suc n) [] = ([], [])
cut_spaces (suc n) (b ∷ bs) =
    let width = space_front (b ∷ bs) in
    if width == 0
    then (let rest = cut_spaces n bs in (b ∷ rest.0, rest.1))
    else (let rest = cut_spaces n (drop width (b ∷ bs)) in ([], rest.0 ∷ rest.1))

abbrev pub drop_empty : List Bytes → List Bytes
drop_empty [] = []
drop_empty (word ∷ more) = let rest = drop_empty more in if is_nil word then rest else word ∷ rest

unfoldable pub split_whitespace : Bytes → List Bytes
unfolding cut_spaces
split_whitespace bs = let cut = cut_spaces (length bs) bs in drop_empty (cut.0 ∷ cut.1)

abbrev pub no_results : HostResults
no_results = record { results_a = []; results_aaaa = [] }

-- `Record::new` with the class IN, put on the list of its type.
unfoldable pub push : Bytes → IpAddr → HostResults → HostResults
push name (v4 addr) results = record results {
  results_a = results.results_a ++ (record { name = name; class = 1; rdata = a addr } ∷ []);
}
push name (v6 addr) results = record results {
  results_aaaa =
      results.results_aaaa ++ (record { name = name; class = 1; rdata = aaaa addr } ∷ []);
}

module _ (lib : HostsLib) where
  -- `hosts.name.entry(name).or_default()`, and the record pushed to it
  unfoldable pub add_record : Bytes → IpAddr → Map → Map
  unfolding push
  add_record name ip [] = (name, push name ip no_results) ∷ []
  add_record name ip ((key, results) ∷ more) =
      let rest = add_record name ip more in
      if lib.same_name key name then (key, push name ip results) ∷ more else (key, results) ∷ rest

  -- The names behind the address of a line; one that is no name is skipped.
  unfoldable pub add_hosts : IpAddr → List Bytes → Map → Map
  unfolding add_record
  add_hosts ip [] hosts = hosts
  add_hosts ip (host ∷ tokens) hosts = elim (lib.new_name (lib.to_lowercase host)) [
    | none ↦ add_hosts ip tokens hosts
    | some name ↦ add_hosts ip tokens (add_record name ip hosts)
  ]

  -- A line without its comment. `tokens.next().unwrap()` panics without a word.
  unfoldable pub add_line : Bytes → Map → Result Map
  unfolding add_hosts
  add_line text hosts =
      let line = trim (split 35 text).0 in
      if is_nil line then ok hosts else elim (split_whitespace line) [
        | [] ↦ panic
        | ip ∷ tokens ↦ elim (lib.parse_ip ip) [
          | none ↦ ok hosts
          | some addr ↦ ok (add_hosts addr tokens hosts)
        ]
      ]

  unfoldable pub add_lines : List (Result Bytes) → Map → Result Map
  unfolding add_line
  add_lines [] hosts = ok hosts
  add_lines (next ∷ lines) hosts =
      bind_result next (λ line. bind_result (add_line line hosts) (λ more. add_lines lines more))

  -- `Hosts::new`, of the lines of the file
  unfoldable pub new_hosts : Result (List (Result Bytes)) → Result Map
  unfolding add_lines
  new_hosts opened = bind_result opened (λ lines. add_lines lines [])
