-- ===== src/Dns/Resolver.antt =====
-- dns/resolver.rs: the addresses of a host, from the first service that answers.
pub mod Rounds
use xx_url.Common.{
  ℕ, zero, suc, Bool, true, false, ◌||◌, Option, none, some, Bytes, List, [], ◌∷◌, ◌++◌, is_nil,
  ◌&&◌, if◌then◌else◌, Result, ok, err, panic, stuck, M,
}
use xx_url.Errors.{Error, Query, Record, RData, a, aaaa, other, dns, other_dns}
use xx_url.Net.{IpAddr, v4, v6, LookupIp}

abbrev pub no_addrs : LookupIp
no_addrs = record { addrs4 = []; addrs6 = [] }

unfoldable pub from_ip : IpAddr → LookupIp
from_ip (v4 addr) = record no_addrs { addrs4 = addr ∷ [] }
from_ip (v6 addr) = record no_addrs { addrs6 = addr ∷ [] }

unfoldable pub push_record : RData → LookupIp → LookupIp
push_record (a ip) this = record this { addrs4 = this.addrs4 ++ (ip ∷ []) }
push_record (aaaa ip) this = record this { addrs6 = this.addrs6 ++ (ip ∷ []) }
push_record (other _) this = this

unfoldable pub push_records : List Record → LookupIp → LookupIp
unfolding push_record
push_records [] this = this
push_records (r ∷ rs) this = push_records rs (push_record r.rdata this)

unfoldable pub is_empty : LookupIp → Bool
is_empty this = is_nil this.addrs4 && is_nil this.addrs6

-- What a lookup gives: records, or an error.
pub data Outcome : Type 0 where
  answered : List Record → Outcome
  failed : Error → Outcome

-- A service of the trait `Lookup`, in a world `W`: both queries of a round, joined.
pub record Service (W : Type 0) : Type 0 where
  pub join : Query → Query → W → (Outcome × Outcome) × W

-- The variables of the loop.
pub record Progress : Type 0 where
  pub error : Option Error
  pub result : LookupIp

-- One of the two outcomes, and whether it is a success.
unfoldable pub note : Outcome → Progress → Progress × Bool
note (answered records) p = (record p { result = push_records records p.result }, true)
note (failed e) p = (record p { error = some e }, false)

unfoldable pub note_both : Outcome × Outcome → Progress → Progress × Bool
unfolding note
note_both outcomes p =
    let first = note outcomes.0 p in
    let second = note outcomes.1 first.0 in (second.0, first.1 || second.1)

-- `error.unwrap()`
abbrev pub unwrap_error : Option Error → Result LookupIp
unwrap_error none = panic
unwrap_error (some e) = err e

abbrev pub nothing_yet : Progress
nothing_yet = record { error = none; result = no_addrs }

module _ {W : Type 0} (query_a query_aaaa : Query) where
  -- The services in their order; the loop ends at a success.
  unfoldable pub ask_services : List (Service W) → Progress → W → (Progress × Bool) × W
  ask_services [] p w = ((p, false), w)
  ask_services (service ∷ services) p w =
      let joined = service.join query_a query_aaaa w in
      let noted = note_both joined.0 p in
      let rest = ask_services services noted.0 joined.1 in
      if noted.1 then (noted, joined.1) else rest

  unfoldable pub ask_rounds : ℕ → List (Service W) → Progress → M W LookupIp
  ask_rounds zero services p w = (unwrap_error p.error, w)
  ask_rounds (suc rounds) services p w =
      let asked = ask_services services p w in
      let rest = ask_rounds rounds services asked.0.0 asked.1 in
      if asked.0.1 then (ok asked.0.0.result, asked.1) else rest

  unfoldable pub resolve_ips_lookup : List (Service W) → M W LookupIp
  resolve_ips_lookup services = ask_rounds 3 services nothing_yet

-- `IpAddr` from text and `to_lowercase` of the standard library, and `Name::new` of simple-dns,
-- whose errors are told apart by a code.
pub record NameLib : Type 0 where
  pub parse_ip : Bytes → Option IpAddr
  pub to_lowercase : Bytes → Bytes
  pub new_name : Bytes → Option Bytes
  pub name_error : Bytes → ℕ

-- Types A and AAAA of the class IN.
abbrev pub query_of : ℕ → Bytes → Query
query_of qtype name = record { qname = name; qtype = qtype; qclass = 1 }

unfoldable pub resolve_ips : {W : Type 0} → NameLib → List (Service W) → Bytes → M W LookupIp
unfolding from_ip resolve_ips_lookup
resolve_ips lib services text w = elim (lib.parse_ip text) [
  | some addr ↦ (ok (from_ip addr), w)
  | none ↦
      let lower = lib.to_lowercase text in
      elim (lib.new_name lower) [
        | none ↦ (err (dns (other_dns (lib.name_error lower))), w)
        | some name ↦ resolve_ips_lookup (query_of 1 name) (query_of 28 name) services w
      ]
]
