-- ===== src/Dns/Services.antt =====
-- dns/config.rs and Resolver::new of dns/resolver.rs: the services that a resolver asks.
pub mod HostsFirst
mod Examples
use xx_url.Common.{
  ℕ, Bool, Bytes, List, [], ◌∷◌, ◌*◌, map, Result, ok, err, panic, stuck, bind_result,
}
use xx_url.Dns.Hosts.{Map}
use xx_url.Dns.NameServer.{lookup_host}
use xx_url.Dns.Resolver.{Outcome, answered, failed, Service}
use xx_url.Errors.{Error, Record, dns, no_data}
use xx_url.Net.{IpAddr}

-- What the resolv-conf package parses; the timeout in seconds.
pub record ResolveConfig : Type 0 where
  pub nameservers : List IpAddr
  pub ndots : ℕ
  pub attempts : ℕ
  pub rotate : Bool
  pub timeout : ℕ

-- A name server is told apart by its address.
pub record Config : Type 0 where
  pub name_servers : List IpAddr
  pub ndots : ℕ
  pub attempts : ℕ
  pub rotate : Bool
  pub timeout_ms : ℕ

-- `Config::new`, of the file and the parser of its text
unfoldable pub new_config : (Bytes → Result ResolveConfig) → Result Bytes → Result Config
new_config parse content = bind_result content (λ bytes. bind_result (parse bytes) (λ config.
    ok (record {
      name_servers = map (λ ip. ip) config.nameservers;
      ndots = config.ndots;
      attempts = config.attempts;
      rotate = config.rotate;
      timeout_ms = 1000 * config.timeout;
    })))

-- A lookup in the hosts file gives records or an error.
abbrev pub outcome_of : Result (List Record) → Outcome
outcome_of (ok records) = answered records
outcome_of (err e) = failed e
outcome_of _ = failed (dns no_data)

module _ {W : Type 0} (same_name : Bytes → Bytes → Bool) (serve : IpAddr → Service W) where
  unfoldable pub hosts_service : Map → Service W
  hosts_service hosts = record {
    join = λ a aaaa w. (
      (outcome_of (lookup_host same_name hosts a), outcome_of (lookup_host same_name hosts aaaa)),
      w,
    );
  }

  -- `Resolver::new`: the hosts file is asked before the name servers of the configuration.
  unfoldable pub new_resolver : Result Config → Result Map → Result (List (Service W))
  unfolding hosts_service
  new_resolver config hosts =
      bind_result config
        (λ c. bind_result hosts (λ h. ok (hosts_service h ∷ map serve c.name_servers)))
