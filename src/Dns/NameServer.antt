-- ===== src/Dns/NameServer.antt =====
-- dns/name_server.rs: a query to a name server; dns/hosts.rs: the lookup in the hosts file.
pub mod Transact
pub mod Filter
use xx_url.Common.{
  ℕ, zero, suc, Bool, true, false, ◌&&◌, not, Option, none, some, Bytes, List, [], ◌∷◌, ◌++◌, ◌==◌,
  if◌then◌else◌, equal, is_nil, Result, ok, err, panic, stuck, M, ◌>>=◌, ◌>>◌, pure, fail, lift,
}
use xx_url.Errors.{
  Query, Record, RData, a, aaaa, other, dns, no_data, no_records, other_dns, url, dns_timed_out,
}
use xx_url.Net.{IpAddr}

-- A packet of the simple-dns package, as far as it is read; `no_error` is the code 0.
pub record Packet : Type 0 where
  pub id : ℕ
  pub rcode : ℕ
  pub questions : List Query
  pub answers : List Record
  pub name_servers : List Record
  pub additional_records : List Record

-- What the source takes from the simple-dns, rand and xx-pulse packages: sockets `S` in a world
-- `W`.
pub record DnsLib (W S : Type 0) : Type 0 where
  pub random : M W ℕ
  -- `==` of names
  pub same_name : Bytes → Bytes → Bool
  -- a packet with this id and question that asks for recursion, or the error of writing it
  pub write_query : ℕ → Query → Result Bytes
  pub parse : Bytes → Option Packet
  pub connect : IpAddr → ℕ → M W S
  pub send : S → Bytes → M W (Unit {0})
  pub recv_from_addr : S → M W Bytes
  -- `timeout(5 s)`
  pub timed : M W Packet → W → Option (Result Packet) × W

-- The type code of a record.
unfoldable pub type_code : RData → ℕ
type_code (a _) = 1
type_code (aaaa _) = 28
type_code (other code) = code

abbrev pub matches : Query → Record → Bool
matches query record_ = record_.class == query.qclass && type_code record_.rdata == query.qtype

-- The loop over the records of a response: whether one has the name that was asked for, and those
-- of the class and type that were asked for.
unfoldable pub has_answer : (Bytes → Bytes → Bool) → Query → List Record → Bool
has_answer same_name query [] = false
has_answer same_name query (r ∷ rs) =
    let rest = has_answer same_name query rs in if same_name query.qname r.name then true else rest

unfoldable pub matching : Query → List Record → List Record
unfolding type_code
matching query [] = []
matching query (r ∷ rs) = let rest = matching query rs in if matches query r then r ∷ rest else rest

abbrev pub all_records : Packet → List Record
all_records p = p.answers ++ (p.name_servers ++ p.additional_records)

abbrev first_record : List Record → Option Record
first_record [] = none
first_record (r ∷ _) = some r

abbrev pub no_records_error : {A : Type 0} → Packet → Result A
no_records_error p = err (dns (no_records p.questions (first_record p.name_servers) p.rcode))

abbrev records_or : Bool → Packet → List Record → Result (List Record)
records_or true p [] = err (dns no_data)
records_or false p [] = no_records_error p
records_or _ p (r ∷ rs) = ok (r ∷ rs)

-- What `lookup` makes of a response.
unfoldable pub answer_of : (Bytes → Bytes → Bool) → Query → Packet → Result (List Record)
unfolding has_answer matching
answer_of same_name query p =
    if p.rcode == 0
    then records_or (has_answer same_name query (all_records p)) p (matching query (all_records p))
    else no_records_error p

module _ {W S : Type 0} (lib : DnsLib W S) where
  -- The loop of `transact`, by fuel: what does not parse or has another id is passed over.
  unfoldable pub await_response : ℕ → ℕ → S → M W Packet
  await_response zero id socket w = (stuck, w)
  await_response (suc fuel) id socket w =
      (do
        bytes ← lib.recv_from_addr socket
        elim (lib.parse bytes) [
          | none ↦ await_response fuel id socket
          | some p ↦ if p.id == id then pure p else await_response fuel id socket
        ])
        w

  unfoldable pub transact : ℕ → IpAddr → ℕ → Query → M W Packet
  transact fuel ip id query = do
    request ← lift (lib.write_query id query)
    socket ← lib.connect ip 53
    lib.send socket request
    await_response fuel id socket

  in_time : Option (Result Packet) × W → Result Packet × W
  in_time (none, w) = (err (url dns_timed_out), w)
  in_time (some result, w) = (result, w)

  unfoldable pub lookup : ℕ → IpAddr → Query → M W (List Record)
  unfolding in_time answer_of
  lookup fuel ip query = do
    id ← lib.random
    response ← (λ w. in_time (lib.timed (transact fuel ip id query) w))
    lift (answer_of lib.same_name query response)

-- `Results` and the map of dns/hosts.rs, by names.
pub record HostResults : Type 0 where
  pub results_a : List Record
  pub results_aaaa : List Record

abbrev pub host : (Bytes → Bytes → Bool) → List (Bytes × HostResults) → Bytes → Option HostResults
host same_name [] name = none
host same_name ((key, results) ∷ more) name =
    let rest = host same_name more name in if same_name key name then some results else rest

unfoldable pub records_of : ℕ → HostResults → Option (List Record)
records_of qtype results =
    if qtype == 1
    then some results.results_a
    else if qtype == 28
    then some results.results_aaaa
    else none

unfoldable pub lookup_host :
    (Bytes → Bytes → Bool) → List (Bytes × HostResults) → Query → Result (List Record)
unfolding records_of
lookup_host same_name hosts query = elim (host same_name hosts query.qname) [
  | none ↦ err (dns no_data)
  | some results ↦ elim (records_of query.qtype results) [
    | none ↦ err (dns no_data)
    | some records ↦ ok records
  ]
]
