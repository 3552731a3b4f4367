-- ===== src/Net/Examples.antt =====
-- The theorems about connections at concrete inputs.
use xx_url.Common.{◌≡◌, refl, arith, Option, none, some, [], ◌∷◌, Result, ok, err}
use xx_url.Errors.{Error, external}
use xx_url.Net.{
  NetLib, ConnectOptions, ConnectStats, IpAddr, v4, v6, with_resolver, connect_to, LookupIp,
}
use xx_url.Net.Tries.{IsSteady, connect_to-in_turn}

-- Hosts of IPv6 refuse with an error of their own, hosts of IPv4 accept.
abbrev answer : IpAddr → Option Error
answer (v4 _) = none
answer (v6 n) = some (external n)

abbrev told : Option Error → Result (Unit {0})
told none = ok tt
told (some e) = err e

abbrev network : NetLib (Unit {0}) IpAddr
network = record {
  new_for_addr = λ ip port w. (ok ip, w);
  connect = λ socket ip port w. (told (answer ip), w);
  check_interrupt = λ w. (ok tt, w);
  timed = λ duration f s. (none, s);
  set_recvbuf_size = λ socket size w. (ok tt, w);
  set_sendbuf_size = λ socket size w. (ok tt, w);
  set_tcp_nodelay = λ socket enable w. (ok tt, w);
  set_tcp_keepalive = λ socket enable idle w. (ok tt, w);
  resolve_ips = λ host w. (ok (record { addrs4 = []; addrs6 = [] }), w);
}

network-IsSteady : IsSteady network (λ ip. ip) answer
network-IsSteady = record {
  made = λ ip port w. (w, refl);
  accepts = λ ip port w e. (w, rw e);
  refuses = λ ip port w error e. (w, rw e);
  goes_on = λ w. (w, refl);
}

abbrev options : ConnectOptions
options = with_resolver [] 80

abbrev start : ConnectStats (Unit {0})
start = record { world = tt; tcp_tries = 0 }

-- Two addresses of each kind, of which those of IPv6 are tried first.
abbrev found : LookupIp
found = record { addrs4 = 3 ∷ 4 ∷ []; addrs6 = 1 ∷ 2 ∷ [] }

connect_to-in_turn_example :
    (w' : Unit {0}) × (connect_to network options found start
      ≡ (ok (v4 3), record { world = w'; tcp_tries = 3 }))
unfolding with_resolver
connect_to-in_turn_example = connect_to-in_turn network-IsSteady options found start (omega arith)
