-- ===== src/Net/Conn.antt =====
-- net/conn.rs: the options of a connection, and whether its peer has hung up.
use xx_url.Common.{
  ℕ, Bool, true, false, ◌&&◌, ◌||◌, ◌==◌, Option, some, Result, ok, if◌then◌else◌, bind_result, M,
}
use xx_url.Net.{IpStrategy, ConnectOptions, NetLib, connect_stats}

unfoldable pub set_port : ℕ → ConnectOptions → ConnectOptions
set_port port this = record this { port = port }

unfoldable pub set_strategy : IpStrategy → ConnectOptions → ConnectOptions
set_strategy strategy this = record this { strategy = strategy }

unfoldable pub set_timeout : Option ℕ → ConnectOptions → ConnectOptions
set_timeout timeout this = record this { timeout = timeout }

unfoldable pub set_recvbuf_size : ℕ → ConnectOptions → ConnectOptions
set_recvbuf_size size this = record this { recvbuf_size = some size }

unfoldable pub set_sendbuf_size : ℕ → ConnectOptions → ConnectOptions
set_sendbuf_size size this = record this { sendbuf_size = some size }

unfoldable pub set_tcp_nodelay : Bool → ConnectOptions → ConnectOptions
set_tcp_nodelay enable this = record this { tcp_nodelay = enable }

unfoldable pub set_tcp_keepalive : ℕ → ConnectOptions → ConnectOptions
set_tcp_keepalive idle this = record this { tcp_keepalive = some idle }

-- The three flags that has_peer_hungup looks for.
pub record HangUpFlags : Type 0 where
  pub rd_hang_up : Bool
  pub hang_up : Bool
  pub error : Bool

unfoldable pub intersects : HangUpFlags → HangUpFlags → Bool
intersects flags other =
    (flags.rd_hang_up && other.rd_hang_up)
    || ((flags.hang_up && other.hang_up) || (flags.error && other.error))

abbrev pub hung_up : HangUpFlags
hung_up = record { rd_hang_up = true; hang_up = true; error = true }

-- `poll` of one descriptor with no timeout: how many have events, and the events of that one.
unfoldable pub has_peer_hungup :
    {C : Type 0} → (C → HangUpFlags → Result (ℕ × HangUpFlags)) → C → Result Bool
unfolding intersects
has_peer_hungup poll connection =
    bind_result (poll connection hung_up)
      (λ outcome. if outcome.0 == 0 then ok false else ok (intersects outcome.1 hung_up))

-- `connect`, which leaves out the numbers of the tries.
unfoldable pub connect : {W C : Type 0} → NetLib W C → ConnectOptions → M W C
connect net options world =
    let outcome = connect_stats net options (record { world = world; tcp_tries = 0 }) in
    (outcome.0, outcome.1.world)
