-- ===== src/Tls/Client.antt =====
-- connect_stats_config and connect of tls/conn.rs: a socket is connected, then the session over it.
use xx_url.Common.{Bytes, Result, ok, err, panic, stuck, M, ◌>>=◌, lift, ℕ}
use xx_url.Net.{ConnectOptions, ConnectStats, NetLib, connect_stats}
use xx_url.Tls.{ConnLib, Session, TlsConn, tls_connect}

-- `ServerName::try_from` and `ClientConnection::new`, with the configuration `F` of rustls.
pub record ClientLib (F Name T : Type 0) : Type 0 where
  pub server_name : Bytes → Result Name
  pub new : F → Name → Result T

abbrev pub established :
    {C T S : Type 0} → S → Result (Unit {0}) × TlsConn C T → Result (TlsConn C T) × S
established s (ok _, c) = (ok c, s)
established s (err e, c) = (err e, s)
established s (panic, c) = (panic, s)
established s (stuck, c) = (stuck, s)

module _ {F Name W C T : Type 0} (client : ClientLib F Name T) (net : NetLib W C) (conn : ConnLib C)
    (session : Session T) where
  unfoldable pub connect_stats_config : ℕ → ConnectOptions → F → M (ConnectStats W) (TlsConn C T)
  connect_stats_config fuel options config = do
    server_name ← lift (client.server_name options.host)
    tls ← lift (client.new config server_name)
    connection ← connect_stats net options
    (λ stats.
        established stats
          (tls_connect conn session fuel (record { connection = connection; tls = tls })))

  -- `get_tls_client_config` gives the configuration of the shared data.
  unfoldable pub connect :
      ℕ → ConnectOptions → M (ConnectStats W) F → M (ConnectStats W) (TlsConn C T)
  unfolding connect_stats_config
  connect fuel options get_tls_client_config = do
    config ← get_tls_client_config
    connect_stats_config fuel options config

  -- `connect_config`, which leaves out the numbers of the tries.
  unfoldable pub connect_config : ℕ → ConnectOptions → F → M W (TlsConn C T)
  connect_config fuel options config world =
      let outcome =
        connect_stats_config fuel options config (record { world = world; tcp_tries = 0 }) in
      (outcome.0, outcome.1.world)
