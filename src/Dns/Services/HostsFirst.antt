-- ===== src/Dns/Services/HostsFirst.antt =====
-- dns/resolver.rs: a host of the hosts file is resolved by it.
use xx_url.Common.{
  ℕ, false, Bytes, List, [], ◌∷◌, ◌++◌, map, is_nil, ◌≡◌, refl, sym, ap, ◌∙◌, append_assoc,
  append-nil, ok,
}
use xx_url.Dns.Hosts.{HostsLib, new_hosts}
use xx_url.Dns.Hosts.Pairs.{Pair, file_pairs, add_pairs, add_lines-pairs}
use xx_url.Dns.Hosts.Entries.{IsKey, matching, lookup_host-pairs, v4_records, v6_records}
use xx_url.Dns.NameServer.{lookup_host}
use xx_url.Dns.Resolver.{
  Service, query_of, push_records, no_addrs, note, note_both, ask_services, ask_rounds,
  resolve_ips_lookup,
}
use xx_url.Dns.Services.{Config, hosts_service, new_resolver}
use xx_url.Net.{IpAddr, v4, v6, LookupIp}

abbrev pub v4_addrs : List Pair → List ℕ
v4_addrs [] = []
v4_addrs ((name, v4 addr) ∷ ps) = addr ∷ v4_addrs ps
v4_addrs ((name, v6 addr) ∷ ps) = v4_addrs ps

abbrev pub v6_addrs : List Pair → List ℕ
v6_addrs [] = []
v6_addrs ((name, v4 addr) ∷ ps) = v6_addrs ps
v6_addrs ((name, v6 addr) ∷ ps) = addr ∷ v6_addrs ps

module _ (lib : HostsLib) where
  push_records-v4 :
      (ps : List Pair) (this : LookupIp)
      → push_records (v4_records lib ps) this ≡ record this { addrs4 = this.addrs4 ++ v4_addrs ps }
  unfolding push_records
  push_records-v4 [] this =
      ap (λ (z : List ℕ). record this { addrs4 = z }) (sym (append-nil this.addrs4))
  push_records-v4 ((name, v4 addr) ∷ ps) this =
      push_records-v4 ps (record this { addrs4 = this.addrs4 ++ (addr ∷ []) })
      ∙ ap (λ (z : List ℕ). record this { addrs4 = z })
          (append_assoc this.addrs4 (addr ∷ []) (v4_addrs ps))
  push_records-v4 ((name, v6 addr) ∷ ps) this = push_records-v4 ps this

  push_records-v6 :
      (ps : List Pair) (this : LookupIp)
      → push_records (v6_records lib ps) this ≡ record this { addrs6 = this.addrs6 ++ v6_addrs ps }
  unfolding push_records
  push_records-v6 [] this =
      ap (λ (z : List ℕ). record this { addrs6 = z }) (sym (append-nil this.addrs6))
  push_records-v6 ((name, v6 addr) ∷ ps) this =
      push_records-v6 ps (record this { addrs6 = this.addrs6 ++ (addr ∷ []) })
      ∙ ap (λ (z : List ℕ). record this { addrs6 = z })
          (append_assoc this.addrs6 (addr ∷ []) (v6_addrs ps))
  push_records-v6 ((name, v4 addr) ∷ ps) this = push_records-v6 ps this

  -- If the hosts file names a host, then the resolver gives the addresses of the lines that name
  -- it, in the order of the file, and asks no name server: the world is as it was.
  pub resolve-hosts :
      {W : Type 0} (serve : IpAddr → Service W) (config : Config) (lines : List Bytes)
      (ps : List Pair) (name : Bytes) (w : W)
      → IsKey lib
      → file_pairs lib lines ≡ ok ps
      → is_nil (matching lib name ps) ≡ false
      → (services : List (Service W)) × (new_resolver lib.same_name serve
            (ok config)
            (new_hosts lib (ok (map ok lines)))
          ≡ ok services)
        × (resolve_ips_lookup (query_of 1 name) (query_of 28 name) services w ≡ (
          ok (record {
            addrs4 = v4_addrs (matching lib name ps);
            addrs6 = v6_addrs (matching lib name ps);
          }),
          w,
        ))
  unfolding new_resolver new_hosts resolve_ips_lookup ask_rounds ask_services note_both note
      hosts_service
  resolve-hosts serve config lines ps name w key parsed named =
      let mine = matching lib name ps in
      let hosts = add_pairs lib ps [] in
      let four : lookup_host lib.same_name hosts (query_of 1 name) ≡ ok (v4_records lib mine) =
        lookup_host-pairs lib key (query_of 1 name) ps ∙ rw named refl in
      let six : lookup_host lib.same_name hosts (query_of 28 name) ≡ ok (v6_records lib mine) =
        lookup_host-pairs lib key (query_of 28 name) ps ∙ rw named refl in
      (
        hosts_service lib.same_name serve hosts ∷ map serve config.name_servers,
        rw (add_lines-pairs lib lines [], parsed) refl,
        rw (four, six)
            (ap (λ (found : LookupIp). (ok found, w))
              (ap (push_records (v6_records lib mine)) (push_records-v4 mine no_addrs)
                ∙ push_records-v6 mine _)),
      )
