-- ===== src/Dns/Examples.antt =====
-- The theorems about name resolution at concrete inputs.
use xx_url.Common.{
  ℕ, ◌≡◌, refl, arith, true, Option, none, some, Bytes, List, [], ◌∷◌, equal, ok, err, inl, inr,
  Result,
}
use xx_url.Errors.{Record, a, external}
use xx_url.Dns.NameServer.{
  DnsLib, Packet, await_response, answer_of, matches, matching, has_answer, type_code,
}
use xx_url.Dns.NameServer.Filter.{answer_of-other_name}
use xx_url.Dns.NameServer.Transact.{await_response-first}
use xx_url.Dns.Resolver.{Outcome, answered, failed, Service, query_of, resolve_ips_lookup}
use xx_url.Dns.Resolver.Rounds.{resolve-first, resolve-none}

abbrev packet_of : ℕ → List Record → List Record → Packet
packet_of id answers additional = record {
  id = id;
  rcode = 0;
  questions = [];
  answers = answers;
  name_servers = [];
  additional_records = additional;
}

-- Datagrams of one byte are packets with that id.
abbrev parse : Bytes → Option Packet
parse (id ∷ []) = some (packet_of id [] [])
parse _ = none

abbrev receive : List Bytes → Result Bytes × List Bytes
receive [] = (err (external 0), [])
receive (d ∷ ds) = (ok d, ds)

abbrev packets : DnsLib (List Bytes) (Unit {0})
packets = record {
  random = λ w. (ok 5, w);
  same_name = equal;
  write_query = λ id query. ok (id ∷ []);
  parse = parse;
  connect = λ ip port w. (ok tt, w);
  send = λ socket bytes w. (ok tt, w);
  recv_from_addr = λ socket. receive;
  timed = λ f w. (some (f w).0, (f w).1);
}

await_response-first_example :
    (w' : List Bytes) × (await_response packets 3 5 tt
        ((1 ∷ 2 ∷ []) ∷ ((4 ∷ []) ∷ ((5 ∷ []) ∷ ((6 ∷ []) ∷ []))))
      ≡ (ok (packet_of 5 [] []), w'))
    × (w' ≡ (6 ∷ []) ∷ [])
await_response-first_example =
    await_response-first packets {pending = λ socket w. w}
      (λ socket w bytes more e. (more, rw e, refl)) 3 5 tt
      ((1 ∷ 2 ∷ []) ∷ ((4 ∷ []) ∷ ((5 ∷ []) ∷ ((6 ∷ []) ∷ [])))) ((1 ∷ 2 ∷ []) ∷ ((4 ∷ []) ∷ []))
      (5 ∷ []) ((6 ∷ []) ∷ []) (packet_of 5 [] []) (omega arith)
      (inl refl, (inr (packet_of 4 [] [], refl, refl), tt)) refl refl refl

abbrev address : Bytes → ℕ → Record
address name ip = record { name = name; class = 1; rdata = a ip }

address_run :
    answer_of equal (query_of 1 (7 ∷ [])) (packet_of 5 (address (7 ∷ []) 9 ∷ []) [])
    ≡ ok (address (7 ∷ []) 9 ∷ [])
unfolding answer_of matching has_answer type_code
address_run = refl

matches-address : matches (query_of 1 (7 ∷ [])) (address (8 ∷ []) 9) ≡ true
unfolding type_code
matches-address = refl

answer_of-other_name_example :
    answer_of equal (query_of 1 (7 ∷ [])) (packet_of 5 [] (address (8 ∷ []) 9 ∷ []))
    ≡ ok (address (8 ∷ []) 9 ∷ [])
answer_of-other_name_example =
    answer_of-other_name equal (query_of 1 (7 ∷ [])) (packet_of 5 [] (address (8 ∷ []) 9 ∷ []))
      (address (8 ∷ []) 9) refl refl refl refl matches-address refl

-- A service by its outcomes.
abbrev service_of : Outcome × Outcome → Service (Unit {0})
service_of o = record { join = λ q q' w. (o, w) }

abbrev outcome_of : Service (Unit {0}) → Outcome × Outcome
outcome_of s = (s.join (query_of 1 []) (query_of 28 []) tt).0

abbrev broken : Service (Unit {0})
broken = service_of (failed (external 1), failed (external 2))

abbrev half : Service (Unit {0})
half = service_of (answered (address [] 9 ∷ []), failed (external 3))

resolve-first_example :
    (w' : Unit {0}) × ((after : List (Service (Unit {0})))
      → resolve_ips_lookup (query_of 1 []) (query_of 28 []) (broken ∷ (half ∷ after)) tt
        ≡ (ok (record { addrs4 = 9 ∷ []; addrs6 = [] }), w'))
resolve-first_example =
    resolve-first (query_of 1 []) (query_of 28 []) outcome_of (broken ∷ []) half tt
      ((λ w. (w, refl), (external 1, external 2, refl)), tt) (λ w. (w, refl)) refl

resolve-none_example :
    (w' : Unit {0}) × (resolve_ips_lookup (query_of 1 []) (query_of 28 []) (broken ∷ []) tt
      ≡ (err (external 2), w'))
resolve-none_example =
    resolve-none (query_of 1 []) (query_of 28 []) outcome_of [] broken (external 1) (external 2) tt
      tt (λ w. (w, refl)) refl
