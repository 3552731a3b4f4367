-- ===== src/Net.antt =====
-- net/conn.rs: connecting to one of the addresses of a host.
pub mod Tries
pub mod Conn
mod Examples
use xx_url.Common.{
  ℕ, ◌+◌, ◌%◌, ◌^◌, Bool, true, false, Option, none, some, Bytes, List, [], ◌∷◌, ◌++◌, map, Result,
  ok, err, panic, stuck, M, ◌>>=◌, ◌>>◌, pure, lift, if◌then◌else◌,
}
use xx_url.Errors.{Error, no_addresses, connect_timeout}

pub data IpStrategy : Type 0 where
  any ipv4_only ipv6_only prefer_ipv4 prefer_ipv6 : IpStrategy

pub data IpAddr : Type 0 where
  v4 : ℕ → IpAddr
  v6 : ℕ → IpAddr

-- Durations are counted in a unit of their own.
pub record ConnectOptions : Type 0 where
  pub host : Bytes
  pub port : ℕ
  pub strategy : IpStrategy
  pub timeout : Option ℕ
  pub recvbuf_size : Option ℕ
  pub sendbuf_size : Option ℕ
  pub tcp_nodelay : Bool
  pub tcp_keepalive : Option ℕ

unfoldable pub with_resolver : Bytes → ℕ → ConnectOptions
with_resolver host port = record {
  host = host;
  port = port;
  strategy = any;
  timeout = none;
  recvbuf_size = none;
  sendbuf_size = none;
  tcp_nodelay = false;
  tcp_keepalive = none;
}

-- The addresses of a host.
pub record LookupIp : Type 0 where
  pub addrs4 : List ℕ
  pub addrs6 : List ℕ

-- Of the statistics, the number of tries; the times are only measured.
pub record ConnectStats (W : Type 0) : Type 0 where
  pub world : W
  pub tcp_tries : ℕ

-- What the source takes from the core packages: sockets `C` in a world `W`.
pub record NetLib (W C : Type 0) : Type 0 where
  pub new_for_addr : IpAddr → ℕ → M W C
  pub connect : C → IpAddr → ℕ → M W (Unit {0})
  pub check_interrupt : M W (Unit {0})
  -- `timeout(duration)`: `none` when the time is over first
  pub timed : ℕ → M (ConnectStats W) C → ConnectStats W → Option (Result C) × ConnectStats W
  pub set_recvbuf_size : C → ℕ → M W (Unit {0})
  pub set_sendbuf_size : C → ℕ → M W (Unit {0})
  pub set_tcp_nodelay : C → Bool → M W (Unit {0})
  pub set_tcp_keepalive : C → Bool → ℕ → M W (Unit {0})
  pub resolve_ips : Bytes → M W LookupIp

module _ {W C : Type 0} (net : NetLib W C) where
  abbrev put_world : {A : Type 0} → ℕ → Result A × W → Result A × ConnectStats W
  put_world tries (result, w) = (result, record { world = w; tcp_tries = tries })

  abbrev pub on_world : {A : Type 0} → M W A → M (ConnectStats W) A
  on_world f s = put_world s.tcp_tries (f s.world)

  abbrev count_try : M (ConnectStats W) (Unit {0})
  count_try s = (ok tt, record s { tcp_tries = (s.tcp_tries + 1) % 2 ^ 32 })

  -- `match connection.inner.connect(&addr).await`: an error is kept as a value.
  abbrev pub attempt : Result (Unit {0}) → Result (Option Error)
  attempt (ok _) = ok none
  attempt (err e) = ok (some e)
  attempt panic = panic
  attempt stuck = stuck

  abbrev pub tried : {S : Type 0} → Result (Unit {0}) × S → Result (Option Error) × S
  tried (result, s) = (attempt result, s)

  -- `error.unwrap_or_else(..)`
  abbrev pub last_error : Option Error → Error
  last_error none = no_addresses
  last_error (some e) = e

  unfoldable pub connect_addrs : ConnectOptions → Option Error → List IpAddr → M (ConnectStats W) C
  connect_addrs options error [] s = (err (last_error error), s)
  connect_addrs options error (ip ∷ ips) s =
      (do
        connection ← on_world (net.new_for_addr ip options.port)
        count_try
        outcome ← (λ t. tried (on_world (net.connect connection ip options.port) t))
        elim outcome [
          | none ↦ pure connection
          | some e ↦ do on_world net.check_interrupt; connect_addrs options (some e) ips
        ])
        s

  -- The order in which the strategy takes the addresses.
  unfoldable pub order : IpStrategy → LookupIp → List IpAddr
  order prefer_ipv4 addrs = map v4 addrs.addrs4 ++ map v6 addrs.addrs6
  order ipv4_only addrs = map v4 addrs.addrs4
  order ipv6_only addrs = map v6 addrs.addrs6
  order any addrs = map v6 addrs.addrs6 ++ map v4 addrs.addrs4
  order prefer_ipv6 addrs = map v6 addrs.addrs6 ++ map v4 addrs.addrs4

  unfoldable pub connect_to : ConnectOptions → LookupIp → M (ConnectStats W) C
  unfolding order
  connect_to options addrs = connect_addrs options none (order options.strategy addrs)

  -- `.timeout(duration).await.ok_or(CONNECT_TIMEOUT)??`
  in_time : Option (Result C) × ConnectStats W → Result C × ConnectStats W
  in_time (none, s) = (err connect_timeout, s)
  in_time (some result, s) = (result, s)

  connect_within : ConnectOptions → LookupIp → Option ℕ → M (ConnectStats W) C
  unfolding in_time
  connect_within options addrs none = connect_to options addrs
  connect_within options addrs (some duration) =
      λ s. in_time (net.timed duration (connect_to options addrs) s)

  abbrev when_some : Option ℕ → (ℕ → M W (Unit {0})) → M (ConnectStats W) (Unit {0})
  when_some none f = pure tt
  when_some (some n) f = on_world (f n)

  unfoldable pub connect_stats : ConnectOptions → M (ConnectStats W) C
  unfolding connect_within
  connect_stats options = do
    addrs ← on_world (net.resolve_ips options.host)
    connection ← connect_within options addrs options.timeout
    when_some options.recvbuf_size (net.set_recvbuf_size connection)
    when_some options.sendbuf_size (net.set_sendbuf_size connection)
    (if options.tcp_nodelay then on_world (net.set_tcp_nodelay connection true) else pure tt)
    when_some options.tcp_keepalive (net.set_tcp_keepalive connection true)
    pure connection
