-- ===== src/Tls.antt =====
-- tls/conn.rs: a TLS connection, which drives a session of the rustls package over a socket.
mod Parts
pub mod Connect
pub mod Recv
pub mod Send
pub mod Halves
pub mod Client
pub mod Certs
pub mod Concrete
pub mod Receives
pub mod Sends
mod Examples
use xx_url.Common.{
  ℕ, zero, suc, ◌==◌, Bool, true, false, not, ◌&&◌, ◌||◌, Option, none, some, Bytes, List, [], ◌∷◌,
  ◌+◌, if◌then◌else◌, Result, ok, err, panic, stuck, M, ◌>>=◌, ◌>>◌, pure, fail, get, lift,
}
use xx_url.Errors.{Error, ErrorKind, kind, would_block, unexpected_eof}

-- The flags of a poll that the source names.
pub record PollFlags : Type 0 where
  pub out : Bool
  pub inward : Bool

-- `Conn`, and the check for an interrupt. The Boolean is `MessageFlag::DontWait`.
pub record ConnLib (C : Type 0) : Type 0 where
  pub recv : ℕ → Bool → M C Bytes
  pub send : Bytes → Bool → M C ℕ
  pub send_vectored : List Bytes → Bool → M C ℕ
  pub poll : PollFlags → M C PollFlags
  pub check_interrupt : M C (Unit {0})

pub record TlsConn (C T : Type 0) : Type 0 where
  pub connection : C
  pub tls : T

-- `io::Write`, as the session uses it.
pub record IoWrite (W : Type 0) : Type 0 where
  pub write : Bytes → M W ℕ
  pub write_vectored : List Bytes → M W ℕ
  pub flush : M W (Unit {0})

-- `ClientConnection` of rustls: `read_tls` and `write_tls` use the reader and the writer they are
-- given; `process_new_packets` gives `plaintext_bytes_to_read` of the state it returns.
pub record Session (T : Type 0) : Type 1 where
  pub is_handshaking : T → Bool
  pub wants_read : T → Bool
  pub wants_write : T → Bool
  pub read_tls : {W : Type 0} → (ℕ → M W Bytes) → M (TlsConn W T) ℕ
  pub write_tls : {W : Type 0} → IoWrite W → M (TlsConn W T) ℕ
  pub process_new_packets : M T ℕ
  -- `reader().read(buf)`, `writer().write(buf)`, `writer().write_vectored(bufs)`
  pub read : ℕ → M T Bytes
  pub write : Bytes → M T ℕ
  pub write_vectored : List Bytes → M T ℕ

module _ {C T A : Type 0} where
  abbrev pub beside_tls : T → Result A × C → Result A × TlsConn C T
  beside_tls t (result, c) = (result, record { connection = c; tls = t })

  abbrev pub beside_connection : C → Result A × T → Result A × TlsConn C T
  beside_connection c (result, t) = (result, record { connection = c; tls = t })

  abbrev pub on_connection : M C A → M (TlsConn C T) A
  on_connection f s = beside_tls s.tls (f s.connection)

  abbrev pub on_tls : M T A → M (TlsConn C T) A
  on_tls f s = beside_connection s.connection (f s.tls)

-- `err.kind() == io::ErrorKind::WouldBlock`
abbrev pub is_would_block : Error → Bool
is_would_block (kind would_block) = true
is_would_block _ = false

-- The outcome of `read(&mut tls)` before anything is received: `none` where the loop goes on.
abbrev pub read_outcome : Result Bytes → Result (Option Bytes)
read_outcome (ok []) = ok none
read_outcome (ok (b ∷ bs)) = ok (some (b ∷ bs))
read_outcome (err e) = if is_would_block e then ok none else err e
read_outcome panic = panic
read_outcome stuck = stuck

abbrev pub try_read : {T : Type 0} → M T Bytes → M T (Option Bytes)
try_read read t = let result = read t in (read_outcome result.0, result.1)

module _ {C T : Type 0} (conn : ConnLib C) (session : Session T) where
  -- `Adapter`, with its flags
  unfoldable pub adapter_read : Bool → ℕ → M C Bytes
  adapter_read dont_wait n = conn.recv n dont_wait

  unfoldable pub adapter_write : Bool → IoWrite C
  adapter_write dont_wait = record {
    write = λ buf. conn.send buf dont_wait;
    write_vectored = λ bufs. conn.send_vectored bufs dont_wait;
    flush = pure tt;
  }

  unfoldable pub wanted : T → PollFlags
  wanted tls = record { out = session.wants_write tls; inward = session.wants_read tls }

  -- A failed `process_new_packets`: an alert is written, without waiting, and its outcome ignored.
  unfoldable pub write_alert : Result ℕ → M (TlsConn C T) (Unit {0})
  unfolding adapter_write
  write_alert (err e) s = (err e, (session.write_tls (adapter_write true) s).1)
  write_alert (ok _) s = (ok tt, s)
  write_alert panic s = (panic, s)
  write_alert stuck s = (stuck, s)

  unfoldable pub process_or_alert : M (TlsConn C T) (Unit {0})
  unfolding write_alert
  process_or_alert s =
      let processed = on_tls session.process_new_packets s in write_alert processed.0 processed.1

  -- `self.tls.write_tls(&mut adapter)? == 0`, and `eof` after it
  unfoldable pub write_round : Bool → Bool → M (TlsConn C T) Bool
  unfolding adapter_write
  write_round false eof = pure eof
  write_round true eof = do n ← session.write_tls (adapter_write false); pure (n == 0 || eof)

  unfoldable pub read_round : Bool → Bool → M (TlsConn C T) Bool
  unfolding adapter_read process_or_alert
  read_round false eof = pure eof
  read_round true eof = do
    n ← session.read_tls (adapter_read false)
    elim n [ zero ↦ pure true | suc _ ↦ do process_or_alert; pure eof ]

  -- The end of a round: `none` leaves the loop, `some eof` goes on.
  unfoldable pub end_round : Bool → Bool → M (TlsConn C T) (Option Bool)
  end_round handshaking eof s =
      let now = session.is_handshaking s.tls in
      if handshaking && not now && session.wants_write s.tls
      then (ok (some eof), s)
      else if not now || not handshaking
      then (ok none, s)
      else if eof
      then (err (kind unexpected_eof), s)
      else (ok (some eof), s)

  unfoldable pub connect_round : Bool → M (TlsConn C T) (Option Bool)
  unfolding wanted write_round read_round end_round
  connect_round eof s =
      let handshaking = session.is_handshaking s.tls in
      (do
        flags ← on_connection (conn.poll (wanted s.tls))
        eof ← write_round flags.out eof
        if not handshaking && not eof
            then pure none
            else do eof ← read_round flags.inward eof; end_round handshaking eof)
        s

  unfoldable pub connect_loop : ℕ → Bool → M (TlsConn C T) (Unit {0})
  unfolding connect_round
  connect_loop zero eof = λ s. (stuck, s)
  connect_loop (suc fuel) eof =
      connect_round eof >>= λ next. elim next [ none ↦ pure tt | some eof ↦ connect_loop fuel eof ]

  unfoldable pub tls_connect : ℕ → M (TlsConn C T) (Unit {0})
  tls_connect fuel = connect_loop fuel false

  -- The loop of `TlsConn::tls_read`
  unfoldable pub read_loop : ℕ → M T Bytes → M (TlsConn C T) Bytes
  unfolding adapter_read
  read_loop zero read = λ s. (stuck, s)
  read_loop (suc fuel) read = session.read_tls (adapter_read false) >>= λ n. elim n [
    | zero ↦ pure []
    | suc _ ↦ on_tls session.process_new_packets >>= λ available. elim available [
      | zero ↦ do on_connection conn.check_interrupt; read_loop fuel read
      | suc _ ↦ on_tls read
    ]
  ]

  unfoldable pub tls_read : ℕ → M T Bytes → M (TlsConn C T) Bytes
  unfolding read_loop
  tls_read fuel read = on_tls (try_read read) >>= λ got. elim got [
    | none ↦ read_loop fuel read
    | some bytes ↦ pure bytes
  ]

  -- `recv` into a buffer of `n` bytes gives the bytes it put there.
  unfoldable pub recv : ℕ → ℕ → M (TlsConn C T) Bytes
  unfolding tls_read
  recv fuel n = tls_read fuel (session.read n)

  -- `check_interrupt_if_zero`
  abbrev pub check_if_zero : ℕ → M C (Unit {0})
  check_if_zero zero = conn.check_interrupt
  check_if_zero (suc _) = pure tt

  -- `while self.tls.wants_write()`: whether the connection took something each time
  unfoldable pub write_pending : ℕ → ℕ → M (TlsConn C T) Bool
  unfolding adapter_write
  write_pending zero wrote s = (stuck, s)
  write_pending (suc fuel) wrote s = elim (session.wants_write s.tls) [
    | false ↦ (ok true, s)
    | true ↦
        (session.write_tls (adapter_write false) >>= λ n. elim n [
          | zero ↦ pure false
          | suc _ ↦ do on_connection (check_if_zero wrote); write_pending fuel wrote
        ])
          s
  ]

  unfoldable pub tls_write : ℕ → M T ℕ → M (TlsConn C T) ℕ
  unfolding write_pending
  tls_write zero write = λ s. (stuck, s)
  tls_write (suc fuel) write = on_tls write >>= λ wrote. write_pending (suc fuel) wrote >>= λ took.
      elim took [
        | false ↦ pure wrote
        | true ↦ elim wrote [ zero ↦ tls_write fuel write | suc n ↦ pure (suc n) ]
      ]

  unfoldable pub send : ℕ → Bytes → M (TlsConn C T) ℕ
  unfolding tls_write
  send fuel buf = tls_write fuel (session.write buf)

  unfoldable pub send_vectored : ℕ → List Bytes → M (TlsConn C T) ℕ
  unfolding tls_write
  send_vectored fuel bufs = tls_write fuel (session.write_vectored bufs)
