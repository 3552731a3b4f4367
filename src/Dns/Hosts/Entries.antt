-- ===== src/Dns/Hosts/Entries.antt =====
-- dns/hosts.rs: what a lookup finds in the hosts file.
use xx_url.Common.{
  true, ◌==◌, Option, none, some, Bytes, List, [], ◌∷◌, ◌++◌, map, is_nil, ◌≡◌, refl, sym, ap, ap₂,
  ◌∙◌, arith, append_assoc, append-nil, if◌then◌else◌, Result, ok, err, panic, stuck, bind_result,
  Bool-cases, inl, inr,
}
use xx_url.Dns.NameServer.{HostResults, host, lookup_host, records_of}
use xx_url.Dns.Hosts.{HostsLib, Map, no_results, push, add_record, new_hosts}
use xx_url.Errors.{Query, Record, a, aaaa, dns, no_data}
use xx_url.Net.{IpAddr, v4, v6}
use xx_url.Dns.Hosts.Pairs.{Pair, file_pairs, add_pairs, add_lines-pairs}

module _ (lib : HostsLib) where
  -- Being the same name is an equivalence.
  pub record IsKey : Type 0 where
    pub same_sym : (m n : Bytes) → lib.same_name m n ≡ lib.same_name n m
    pub same_trans :
        (k m n : Bytes) → lib.same_name k m ≡ true → lib.same_name k n ≡ lib.same_name m n

  abbrev or_default : Option HostResults → HostResults
  or_default none = no_results
  or_default (some r) = r

  abbrev gather_one : Bytes → Pair → Option HostResults → Option HostResults
  gather_one query (name, ip) found =
      if lib.same_name name query then some (push name ip (or_default found)) else found

  add_record_lem :
      IsKey
      → (name : Bytes) (ip : IpAddr) (hosts : Map) (query : Bytes)
      → host lib.same_name (add_record lib name ip hosts) query
        ≡ gather_one query (name, ip) (host lib.same_name hosts query)
  unfolding add_record
  add_record_lem key name ip [] query = refl
  add_record_lem key name ip ((k, results) ∷ more) query =
      elim (Bool-cases (lib.same_name k name)) [
        | inl y ↦ ground (arith, y, key.same_trans k name query y)
        | inr n ↦ elim (Bool-cases (lib.same_name k query)) [
          | inl q ↦ ground (arith, n, q, key.same_trans k query name q, key.same_sym query name)
          | inr o ↦ ground (arith, n, o, add_record_lem key name ip more query)
        ]
      ]

  abbrev gather : Bytes → List Pair → Option HostResults → Option HostResults
  gather query [] found = found
  gather query (p ∷ ps) found = gather query ps (gather_one query p found)

  host-gather :
      IsKey
      → (query : Bytes) (ps : List Pair) (hosts : Map)
      → host lib.same_name (add_pairs lib ps hosts) query
        ≡ gather query ps (host lib.same_name hosts query)
  host-gather key query [] hosts = refl
  host-gather key query ((name, ip) ∷ ps) hosts =
      host-gather key query ps (add_record lib name ip hosts)
      ∙ ap (gather query ps) (add_record_lem key name ip hosts query)

  -- The pairs of a name, and their records by the type of the address, in the order of the file.
  abbrev pub matching : Bytes → List Pair → List Pair
  matching query [] = []
  matching query ((name, ip) ∷ ps) =
      let rest = matching query ps in if lib.same_name name query then (name, ip) ∷ rest else rest

  abbrev pub v4_records : List Pair → List Record
  v4_records [] = []
  v4_records ((name, v4 addr) ∷ ps) =
      record { name = name; class = 1; rdata = a addr } ∷ v4_records ps
  v4_records ((name, v6 addr) ∷ ps) = v4_records ps

  abbrev pub v6_records : List Pair → List Record
  v6_records [] = []
  v6_records ((name, v4 addr) ∷ ps) = v6_records ps
  v6_records ((name, v6 addr) ∷ ps) =
      record { name = name; class = 1; rdata = aaaa addr } ∷ v6_records ps

  abbrev behind : HostResults → List Pair → HostResults
  behind r ps = record {
    results_a = r.results_a ++ v4_records ps;
    results_aaaa = r.results_aaaa ++ v6_records ps;
  }

  push-behind :
      (name : Bytes) (ip : IpAddr) (r : HostResults) (ps : List Pair)
      → behind (push name ip r) ps ≡ behind r ((name, ip) ∷ ps)
  unfolding push
  push-behind name (v4 addr) r ps =
      ap (λ z. record { results_a = z; results_aaaa = r.results_aaaa ++ v6_records ps })
        (append_assoc r.results_a _ _)
  push-behind name (v6 addr) r ps =
      ap (λ z. record { results_a = r.results_a ++ v4_records ps; results_aaaa = z })
        (append_assoc r.results_aaaa _ _)

  gather-some :
      (query : Bytes) (ps : List Pair) (r : HostResults)
      → gather query ps (some r) ≡ some (behind r (matching query ps))
  gather-some query [] r =
      ap₂ {C = Option HostResults}
        (λ (x y : List Record). some (record { results_a = x; results_aaaa = y }))
        (sym (append-nil r.results_a)) (sym (append-nil r.results_aaaa))
  gather-some query ((name, ip) ∷ ps) r = elim (Bool-cases (lib.same_name name query)) [
    | inl y ↦
        ground (
          arith,
          y,
          gather-some query ps (push name ip r),
          push-behind name ip r (matching query ps),
        )
    | inr n ↦ ground (arith, n, gather-some query ps r)
  ]

  gather-none :
      (query : Bytes) (ps : List Pair)
      → gather query ps none ≡ (
          if is_nil (matching query ps) then none else some (behind no_results (matching query ps)))
  gather-none query [] = refl
  gather-none query ((name, ip) ∷ ps) = elim (Bool-cases (lib.same_name name query)) [
    | inl y ↦ ground (
      arith,
      y,
      gather-some query ps (push name ip no_results),
      push-behind name ip no_results (matching query ps),
    )
    | inr n ↦ ground (arith, n, gather-none query ps)
  ]

  -- What a query for these pairs gives: the records of the name, by their type, 1 for IPv4 and 28
  -- for IPv6.
  abbrev pub lookup_pairs : Query → List Pair → Result (List Record)
  lookup_pairs query ps =
      let mine = matching query.qname ps in
      if is_nil mine
      then err (dns no_data)
      else if query.qtype == 1
      then ok (v4_records mine)
      else if query.qtype == 28
      then ok (v6_records mine)
      else err (dns no_data)

  pub lookup_host-pairs :
      IsKey
      → (query : Query) (ps : List Pair)
      → lookup_host lib.same_name (add_pairs lib ps []) query ≡ lookup_pairs query ps
  unfolding lookup_host records_of
  lookup_host-pairs key query ps =
      let found = host-gather key query.qname ps [] ∙ gather-none query.qname ps in
      elim (Bool-cases (is_nil (matching query.qname ps))) [
        | inl y ↦ ground (arith, found, y)
        | inr n ↦ elim (Bool-cases (query.qtype == 1)) [
          | inl four ↦ ground (arith, found, n, four)
          | inr other ↦ elim (Bool-cases (query.qtype == 28)) [
            | inl six ↦ ground (arith, found, n, other, six)
            | inr neither ↦ ground (arith, found, n, other, neither)
          ]
        ]
      ]

  -- If being the same name is an equivalence, then a lookup in the hosts file gives the records of
  -- all its lines that name the host, those of the type of the query and in the order of the file;
  -- with no line it reports that there is no data.
  pub lookup_host-new_hosts :
      IsKey
      → (lines : List Bytes) (query : Query)
      → bind_result
          (new_hosts lib (ok (map ok lines)))
          (λ hosts. lookup_host lib.same_name hosts query)
        ≡ bind_result (file_pairs lib lines) (lookup_pairs query)
  unfolding new_hosts
  lookup_host-new_hosts key lines query =
      ap (λ r. bind_result r (λ hosts. lookup_host lib.same_name hosts query))
        (add_lines-pairs lib lines [])
      ∙ each (file_pairs lib lines)
    where
      each :
          (r : Result (List Pair))
          → bind_result
              (bind_result r (λ ps. ok (add_pairs lib ps [])))
              (λ hosts. lookup_host lib.same_name hosts query)
            ≡ bind_result r (lookup_pairs query)
      each (ok ps) = lookup_host-pairs key query ps
      each (err _) = refl
      each panic = refl
      each stuck = refl
