-- ===== src/Dns/Resolver/Rounds.antt =====
-- dns/resolver.rs: which service's records are the addresses of a host.
use xx_url.Common.{
  ℕ, zero, suc, ◌≡◌, refl, ap, ◌∙◌, arith, Bool, true, false, ◌||◌, some, List, [], ◌∷◌, ◌++◌,
  append-nil, append_assoc, All, ok, err,
}
use xx_url.Errors.{Error, Query, Record, RData, a, aaaa, other}
use xx_url.Net.{LookupIp}
use xx_url.Dns.Resolver.{
  Outcome, answered, failed, Service, Progress, note, note_both, push_records, no_addrs,
  nothing_yet, push_record, ask_services, ask_rounds, resolve_ips_lookup,
}

abbrev pub records_in : Outcome → List Record
records_in (answered rs) = rs
records_in (failed _) = []

abbrev pub is_answered : Outcome → Bool
is_answered (answered _) = true
is_answered (failed _) = false

-- The IPv4 and the IPv6 addresses among records, in their order.
abbrev ipv4_of : RData → List ℕ
ipv4_of (a ip) = ip ∷ []
ipv4_of (aaaa _) = []
ipv4_of (other _) = []

abbrev ipv6_of : RData → List ℕ
ipv6_of (a _) = []
ipv6_of (aaaa ip) = ip ∷ []
ipv6_of (other _) = []

abbrev pub all_of : (RData → List ℕ) → List Record → List ℕ
all_of pick [] = []
all_of pick (r ∷ rs) = pick r.rdata ++ all_of pick rs

-- The addresses of each kind in the records for the first query, then in those for the second.
abbrev pub addresses : Outcome × Outcome → LookupIp
addresses o = record {
  addrs4 = all_of ipv4_of (records_in o.0) ++ all_of ipv4_of (records_in o.1);
  addrs6 = all_of ipv6_of (records_in o.0) ++ all_of ipv6_of (records_in o.1);
}

push_record_lem :
    (d : RData) (this : LookupIp)
    → push_record d this
      ≡ record { addrs4 = this.addrs4 ++ ipv4_of d; addrs6 = this.addrs6 ++ ipv6_of d }
unfolding push_record
push_record_lem (a ip) this = rw (append-nil this.addrs6) refl
push_record_lem (aaaa ip) this = rw (append-nil this.addrs4) refl
push_record_lem (other k) this = rw (append-nil this.addrs4, append-nil this.addrs6) refl

push_records_lem :
    (rs : List Record) (this : LookupIp)
    → push_records rs this ≡ record {
      addrs4 = this.addrs4 ++ all_of ipv4_of rs;
      addrs6 = this.addrs6 ++ all_of ipv6_of rs;
    }
unfolding push_records
push_records_lem [] this = rw (append-nil this.addrs4, append-nil this.addrs6) refl
push_records_lem (r ∷ rs) this =
    ap (push_records rs) (push_record_lem r.rdata this)
    ∙ push_records_lem rs _
    ∙ rw
        (
          append_assoc this.addrs4 (ipv4_of r.rdata) (all_of ipv4_of rs),
          append_assoc this.addrs6 (ipv6_of r.rdata) (all_of ipv6_of rs),
        )
        refl

abbrev pub BothFail : Outcome × Outcome → Type 0
BothFail o = (e : Error) × (e' : Error) × (o ≡ (failed e, failed e'))

module _ {W : Type 0} (query_a query_aaaa : Query) (outcome : Service W → Outcome × Outcome) where
  -- The service gives this outcome whenever it is asked.
  abbrev pub Answers : Service W → Type 0
  Answers s = (w : W) → (w' : W) × (s.join query_a query_aaaa w ≡ (outcome s, w'))

  -- A service that fails, and one that answers one of the queries at least.
  abbrev pub Fails : Service W → Type 0
  Fails s = Answers s × BothFail (outcome s)

  ask_services-Fails :
      (services : List (Service W)) (p : Progress) (w : W)
      → All Fails services
      → (p' : Progress) × (w' : W) × (p'.result ≡ p.result)
        × ((more : List (Service W))
            → ask_services query_a query_aaaa (services ++ more) p w
              ≡ ask_services query_a query_aaaa more p' w')
  unfolding ask_services note_both note
  ask_services-Fails [] p w fs = (p, w, refl, λ more. refl)
  ask_services-Fails (s ∷ services) p w ((answers, (e, e', both)), fs) =
      let (w1, asked) = answers w in
      let (p', w', kept, go_on) =
        ask_services-Fails services (record p { error = some e' }) w1 fs in
      (p', w', kept, λ more. ground (arith, asked, both, go_on more))

  note_both-answered :
      (o : Outcome × Outcome) (p : Progress)
      → is_answered o.0 || is_answered o.1 ≡ true
      → p.result ≡ no_addrs
      → ((note_both o p).1 ≡ true) × ((note_both o p).0.result ≡ addresses o)
  unfolding note_both note
  note_both-answered (answered rs, answered rs') p h e = (
    refl,
    ap (λ z. push_records rs' (push_records rs z)) e
        ∙ ap (push_records rs') (push_records_lem rs no_addrs)
        ∙ push_records_lem rs' _,
  )
  note_both-answered (answered rs, failed _) p h e = (
    refl,
    ap (push_records rs) e
        ∙ push_records_lem rs no_addrs
        ∙ rw (append-nil (all_of ipv4_of rs), append-nil (all_of ipv6_of rs)) refl,
  )
  note_both-answered (failed _, answered rs) p h e =
      (refl, ap (push_records rs) e ∙ push_records_lem rs no_addrs)
  note_both-answered (failed _, failed _) p h e = absurd (ground (arith, h))

  -- Where the services before it fail, the the addresses are those in the records of the first
  -- service that answers at least one of the two queries, and of each kind in their order. The
  -- state behind the lookup is the same whatever services stand behind it: none of them is asked.
  pub resolve-first :
      (before : List (Service W)) (s : Service W) (w : W)
      → All Fails before
      → Answers s
      → is_answered (outcome s).0 || is_answered (outcome s).1 ≡ true
      → (w' : W) × ((after : List (Service W))
          → resolve_ips_lookup query_a query_aaaa (before ++ (s ∷ after)) w
            ≡ (ok (addresses (outcome s)), w'))
  unfolding resolve_ips_lookup ask_rounds ask_services
  resolve-first before s w fs answers success =
      let (p', w1, kept, go_on) = ask_services-Fails before nothing_yet w fs in
      let (w2, asked) = answers w1 in
      let (noted, found) = note_both-answered (outcome s) p' success kept in
      (w2, λ after. ground (arith, go_on (s ∷ after), asked, noted, found))

  ask_services-last :
      (services : List (Service W)) (s : Service W) (e e' : Error) (p : Progress) (w : W)
      → All Fails services
      → Answers s
      → outcome s ≡ (failed e, failed e')
      → (p' : Progress) × (w' : W) × (p'.error ≡ some e')
        × (ask_services query_a query_aaaa (services ++ (s ∷ [])) p w ≡ ((p', false), w'))
  unfolding ask_services note_both note
  ask_services-last services s e e' p w fs answers both =
      let (p1, w1, kept, go_on) = ask_services-Fails services p w fs in
      let (w2, asked) = answers w1 in
      (record p1 { error = some e' }, w2, refl, ground (arith, go_on (s ∷ []), asked, both))

  rounds_fail :
      (rounds : ℕ) (services : List (Service W)) (s : Service W) (e e' : Error) (p : Progress)
      (w : W)
      → All Fails services
      → Answers s
      → outcome s ≡ (failed e, failed e')
      → p.error ≡ some e'
      → (w' : W) × (ask_rounds query_a query_aaaa rounds (services ++ (s ∷ [])) p w ≡ (err e', w'))
  unfolding ask_rounds
  rounds_fail zero services s e e' p w fs answers both q = (w, rw q)
  rounds_fail (suc rounds) services s e e' p w fs answers both q =
      let (p1, w1, kept, asked) = ask_services-last services s e e' p w fs answers both in
      let (w2, others) = rounds_fail rounds services s e e' p1 w1 fs answers both kept in
      (w2, ground (arith, asked, others))

  -- Where no service answers a query in any of the three rounds, the error is that of the last
  -- service's lookup of IPv6 addresses; with at least one service there is no panic.
  pub resolve-none :
      (services : List (Service W)) (s : Service W) (e e' : Error) (w : W)
      → All Fails services
      → Answers s
      → outcome s ≡ (failed e, failed e')
      → (w' : W) × (resolve_ips_lookup query_a query_aaaa (services ++ (s ∷ [])) w ≡ (err e', w'))
  unfolding resolve_ips_lookup ask_rounds
  resolve-none services s e e' w fs answers both =
      let (p1, w1, kept, asked) = ask_services-last services s e e' nothing_yet w fs answers both in
      let (w2, others) = rounds_fail 2 services s e e' p1 w1 fs answers both kept in
      (w2, ground (arith, asked, others))
