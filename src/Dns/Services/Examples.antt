-- ===== src/Dns/Services/Examples.antt =====
-- The theorem about the services at a concrete input.
use xx_url.Common.{ℕ, suc, ◌≡◌, refl, false, List, [], ◌∷◌, map, ok, equal}
use xx_url.Dns.Hosts.{new_hosts, split_whitespace}
use xx_url.Dns.Hosts.Concrete.{simple, simple-IsKey, lines}
use xx_url.Dns.Hosts.Pairs.{Pair}
use xx_url.Dns.Resolver.{Service, failed, query_of, resolve_ips_lookup}
use xx_url.Dns.Services.{Config, new_resolver}
use xx_url.Dns.Services.HostsFirst.{resolve-hosts}
use xx_url.Errors.{dns, no_data}
use xx_url.Http.Text.{trim, drop_spaces, trim_start, split, space_front, space_back}
use xx_url.Net.{IpAddr, v4}

-- Name servers that count the questions in the world.
abbrev counting : IpAddr → Service ℕ
counting ip = record { join = λ q q' w. ((failed (dns no_data), failed (dns no_data)), suc w) }

abbrev config : Config
config = record {
  name_servers = v4 9 ∷ [];
  ndots = 1;
  attempts = 2;
  rotate = false;
  timeout_ms = 5000;
}

abbrev pairs : List Pair
pairs = (97 ∷ [], v4 49) ∷ ((98 ∷ [], v4 49) ∷ ((98 ∷ [], v4 50) ∷ []))

resolve-hosts_example :
    (services : List (Service ℕ)) × (new_resolver equal counting
        (ok config)
        (new_hosts simple (ok (map ok lines)))
      ≡ ok services)
    × (resolve_ips_lookup (query_of 1 (98 ∷ [])) (query_of 28 (98 ∷ [])) services 7
        ≡ (ok (record { addrs4 = 49 ∷ (50 ∷ []); addrs6 = [] }), 7))
unfolding trim drop_spaces trim_start split space_front space_back split_whitespace
resolve-hosts_example =
    resolve-hosts simple counting config lines pairs (98 ∷ []) 7 simple-IsKey refl refl
