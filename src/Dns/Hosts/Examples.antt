-- ===== src/Dns/Hosts/Examples.antt =====
-- The theorem about the hosts file at a concrete input.
use xx_url.Common.{ℕ, ◌≡◌, refl, [], ◌∷◌, ok, map, equal, bind_result}
use xx_url.Dns.Hosts.{new_hosts, split_whitespace}
use xx_url.Dns.Hosts.Concrete.{simple, simple-IsKey, lines, query_b}
use xx_url.Dns.Hosts.Pairs.{file_pairs}
use xx_url.Dns.Hosts.Entries.{lookup_pairs, lookup_host-new_hosts}
use xx_url.Dns.NameServer.{lookup_host}
use xx_url.Errors.{Record, a}
use xx_url.Http.Text.{trim, drop_spaces, trim_start, split, space_front, space_back}

lookup_host-new_hosts_example :
    bind_result (new_hosts simple (ok (map ok lines))) (λ hosts. lookup_host equal hosts query_b)
    ≡ bind_result (file_pairs simple lines) (lookup_pairs simple query_b)
lookup_host-new_hosts_example = lookup_host-new_hosts simple simple-IsKey lines query_b

abbrev record_b : ℕ → Record
record_b n = record { name = 98 ∷ []; class = 1; rdata = a n }

lookup_b_runs :
    bind_result (new_hosts simple (ok (map ok lines))) (λ hosts. lookup_host equal hosts query_b)
    ≡ ok (record_b 49 ∷ (record_b 50 ∷ []))
unfolding new_hosts lookup_host trim drop_spaces trim_start split space_front space_back
    split_whitespace
lookup_b_runs = refl
