-- ===== src/Ws/Server.antt =====
-- ws/conn.rs: a server of WebSocket connections.
use xx_url.Common.{ℕ, Result, M, ◌>>=◌, pure}
use xx_url.Http.Library.{HeaderLib}
use xx_url.Io.{BufRead}
use xx_url.Ws.Handshake.{CryptoLib, Words}
use xx_url.Ws.Handshake.Exchange.{UpgradeIo, accept_websocket}
use xx_url.Ws.Socket.{WebSocketOptions, WebSocket}

-- `Tcp` and `TcpListener` of the core library, in a world `W`: listeners `L`, sockets `C`, and what
-- can be bound, `A`.
pub record TcpLib (W L C A : Type 0) : Type 0 where
  pub bind : A → M W L
  -- the socket, and the address of its peer
  pub accept : L → M W (C × A)
  pub local_addr : L → M W A

pub record WebSocketServer (L : Type 0) : Type 0 where
  pub listener : L
  pub options : WebSocketOptions

-- `S` is a connection, which is not read yet.
pub record WebSocketHandle (S : Type 0) : Type 0 where
  pub stream : S
  pub options : WebSocketOptions

module _ {W L C A : Type 0} (tcp : TcpLib W L C A) where
  unfoldable pub bind : A → WebSocketOptions → M W (WebSocketServer L)
  bind addrs options = do
    listener ← tcp.bind addrs
    pure (record { listener = listener; options = options })

  -- The handle is made at once: the handshake is the handle's own task. `new_stream` is
  -- `HttpConn::new`.
  unfoldable pub accept : {S : Type 0} → (C → S) → WebSocketServer L → M W (WebSocketHandle S)
  accept new_stream this = do
    (socket, _) ← tcp.accept this.listener
    pure (record { stream = new_stream socket; options = this.options })

  unfoldable pub local_addr : WebSocketServer L → M W A
  local_addr this = tcp.local_addr this.listener

module _ (crypto : CryptoLib) (words : Words) {R S P T H : Type 0} (io : BufRead R)
    (lib : HeaderLib H) (up : UpgradeIo R S P T) where
  -- `WebSocketHandle::run`, the task
  unfoldable pub run_handle : ℕ → ℕ → WebSocketHandle S → Result (WebSocket R) × R
  run_handle rounds fuel this =
      accept_websocket crypto words io lib up rounds fuel this.options this.stream
