-- ===== src/Http/Stream.antt =====
-- http/stream.rs: the connection of a request, which is a socket or a TLS connection over one. Also
-- the methods of net/conn.rs and tls/conn.rs that pass on to the socket.
pub mod Connecting
mod Examples
use xx_url.Common.{bind_result, ℕ, Bool, true, false, Bytes, List, Result, ok, err, panic, stuck, M}
use xx_url.Tls.{ConnLib, PollFlags, Session, TlsConn, on_connection, recv, send, send_vectored}
use xx_url.Ws.Shared.{Shutdown}

-- `Socket` of the core library, as a `Conn` uses it.
pub record SocketLib (C : Type 0) : Type 0 where
  pub read : ℕ → M C Bytes
  pub write : Bytes → M C ℕ
  pub write_vectored : List Bytes → M C ℕ
  pub poll : PollFlags → M C PollFlags
  pub shutdown : Shutdown → M C (Unit {0})

-- `Connection`, with the methods of the traits it extends: the table of a boxed connection. A read
-- into a buffer of this length gives the bytes it put there.
pub record Connection (S : Type 0) : Type 0 where
  pub read : ℕ → M S Bytes
  pub write : Bytes → M S ℕ
  pub is_write_vectored : Bool
  pub write_vectored : List Bytes → M S ℕ
  pub poll : PollFlags → M S PollFlags
  pub shutdown : Shutdown → M S (Unit {0})

-- `Conn`, and `impl_conn!(Conn)`; `vectored` is what the socket says of itself.
unfoldable pub conn_connection : {C : Type 0} → SocketLib C → Bool → Connection C
conn_connection socket vectored = record {
  read = socket.read;
  write = socket.write;
  is_write_vectored = vectored;
  write_vectored = socket.write_vectored;
  poll = socket.poll;
  shutdown = socket.shutdown;
}

-- `poll` and `shutdown` of a TLS connection are those of its socket: the session is not asked.
module _ {C T : Type 0} (socket : SocketLib C) where
  unfoldable pub tls_poll : PollFlags → M (TlsConn C T) PollFlags
  tls_poll flags = on_connection (socket.poll flags)

  unfoldable pub tls_shutdown : Shutdown → M (TlsConn C T) (Unit {0})
  tls_shutdown how = on_connection (socket.shutdown how)

-- `TlsConn`, and `impl_conn!(TlsConn)`. The loops of a read and of a write take fuel.
unfoldable pub tls_connection :
    {C T : Type 0} → SocketLib C → ConnLib C → Session T → ℕ → Connection (TlsConn C T)
unfolding tls_poll tls_shutdown
tls_connection socket conn session fuel = record {
  read = recv conn session fuel;
  write = send conn session fuel;
  is_write_vectored = true;
  write_vectored = send_vectored conn session fuel;
  poll = tls_poll socket;
  shutdown = tls_shutdown socket;
}

-- `HttpConn`: what is in the box.
pub data HttpConn (C T : Type 0) : Type 0 where
  plain : C → HttpConn C T
  secure : TlsConn C T → HttpConn C T

module _ {C T : Type 0} where
  abbrev pub as_plain : {A : Type 0} → Result A × C → Result A × HttpConn C T
  as_plain (result, c) = (result, plain c)

  abbrev pub as_secure : {A : Type 0} → Result A × TlsConn C T → Result A × HttpConn C T
  as_secure (result, s) = (result, secure s)

  -- A call through the box: the method of the one table or of the other.
  abbrev pub through : {A : Type 0} → M C A → M (TlsConn C T) A → M (HttpConn C T) A
  through f g (plain c) = as_plain (f c)
  through f g (secure s) = as_secure (g s)

  -- The wrappers of `HttpConn`, which is a connection itself but for its split.
  unfoldable pub http_connection :
      Connection C → Connection (TlsConn C T) → HttpConn C T → Connection (HttpConn C T)
  http_connection of_conn of_tls this = record {
    read = λ n. through (of_conn.read n) (of_tls.read n);
    write = λ buf. through (of_conn.write buf) (of_tls.write buf);
    is_write_vectored = elim this [
      | plain _ ↦ of_conn.is_write_vectored
      | secure _ ↦ of_tls.is_write_vectored
    ];
    write_vectored = λ bufs. through (of_conn.write_vectored bufs) (of_tls.write_vectored bufs);
    poll = λ flags. through (of_conn.poll flags) (of_tls.poll flags);
    shutdown = λ how. through (of_conn.shutdown how) (of_tls.shutdown how);
  }

-- The halves of a socket, `H`, and a buffered reader over one, `R`.
pub record SplitLib (C H R : Type 0) : Type 0 where
  pub try_split : C → Result (H × H)
  pub buf_reader : H → R

-- `HttpConnReadHalf` and `HttpConnWriteHalf`: a half of the socket, or one of the TLS connection
-- over it. The session is in both, under one lock.
pub data ReadHalf (H R T : Type 0) : Type 0 where
  plain_reader : H → ReadHalf H R T
  secure_reader : TlsConn R T → ReadHalf H R T

pub data WriteHalf (H T : Type 0) : Type 0 where
  plain_writer : H → WriteHalf H T
  secure_writer : TlsConn H T → WriteHalf H T

module _ {C H R T : Type 0} (lib : SplitLib C H R) where
  -- `SplitMut` of `TlsConn`, with `TlsReadHalf::new` and `TlsWriteHalf::new`.
  unfoldable pub tls_split : TlsConn C T → Result (TlsConn R T × TlsConn H T)
  tls_split s = bind_result (lib.try_split s.connection) (λ conn. ok (
    record { connection = lib.buf_reader conn.0; tls = s.tls },
    record { connection = conn.1; tls = s.tls },
  ))

  -- `Connection::try_split`, which boxes the halves of either kind.
  unfoldable pub http_split : HttpConn C T → Result (ReadHalf H R T × WriteHalf H T)
  unfolding tls_split
  http_split (plain c) =
      bind_result (lib.try_split c) (λ halves. ok (plain_reader halves.0, plain_writer halves.1))
  http_split (secure s) =
      bind_result (tls_split s) (λ halves. ok (secure_reader halves.0, secure_writer halves.1))
