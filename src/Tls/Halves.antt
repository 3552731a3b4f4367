-- ===== src/Tls/Halves.antt =====
-- The halves of a split connection, tls/conn.rs: a session under a lock that both halves use.
pub mod End
pub mod Flush
use xx_url.Common.{
  ℕ, zero, suc, min, ◌==◌, Bool, true, false, not, is_nil, length, take, Option, none, some, Bytes,
  List, if◌then◌else◌, Result, ok, err, M, ◌>>=◌, ◌>>◌, pure,
}
use xx_url.Errors.{kind, would_block}
use xx_url.Io.{BufRead}
use xx_url.Tls.{ConnLib, Session, TlsConn, IoWrite, PollFlags, try_read, on_connection, on_tls}

-- The other parts of the source that the halves use. `lock` waits until the session is free, and
-- the other half may have used it before then; a poisoned lock panics.
pub record HalfLib (C T : Type 0) : Type 0 where
  pub lock : M (TlsConn C T) (Unit {0})

-- `UninitBuf`: a buffer on the stack, and what was written to it.
pub record BufLib (B : Type 0) : Type 0 where
  pub empty : B
  pub writer : IoWrite B
  pub filled : B → Bytes

-- `TlsReadHalf`, over a buffered reader `R` of its half of the socket
module _ {R T : Type 0} (io : BufRead R) (half : HalfLib R T) (session : Session T) where
  -- The inner `Adapter::read`: what is in the buffer, without waiting.
  unfoldable pub buffered_read : ℕ → M R Bytes
  buffered_read n r =
      if is_nil (io.buffer r)
      then (err (kind would_block), r)
      else (let count = min n (length (io.buffer r)) in
          (ok (take count (io.buffer r)), io.consume count r))

  -- Whether the loop goes on at once, with plaintext to read.
  unfoldable pub receive_buffered : M (TlsConn R T) Bool
  unfolding buffered_read
  receive_buffered s =
      if is_nil (io.buffer s.connection)
      then (ok false, s)
      else (do
        n ← session.read_tls buffered_read
        available ← on_tls session.process_new_packets
        pure (not (available == 0)))
          s

  unfoldable pub half_loop : ℕ → M T Bytes → M (TlsConn R T) Bytes
  unfolding receive_buffered
  half_loop zero read = λ s. (Result.stuck, s)
  half_loop (suc fuel) read = on_tls (try_read read) >>= λ got. elim got [
    | some bytes ↦ pure bytes
    | none ↦ receive_buffered >>= λ more. elim more [
      | true ↦ half_loop fuel read
      | false ↦ do n ← on_connection io.fill; half.lock; half_loop fuel read
    ]
  ]

  unfoldable pub half_read : ℕ → ℕ → M (TlsConn R T) Bytes
  unfolding half_loop
  half_read fuel n = do half.lock; half_loop fuel (session.read n)

-- `TlsWriteHalf`
module _ {C T B : Type 0} (conn : ConnLib C) (buf : BufLib B) (half : HalfLib C T)
    (session : Session T) where
  abbrev pub from_buf : C → Result ℕ × TlsConn B T → Result Bytes × TlsConn C T
  from_buf c (ok _, s) = (ok (buf.filled s.connection), record { connection = c; tls = s.tls })
  from_buf c (err e, s) = (err e, record { connection = c; tls = s.tls })
  from_buf c (Result.panic, s) = (Result.panic, record { connection = c; tls = s.tls })
  from_buf c (Result.stuck, s) = (Result.stuck, record { connection = c; tls = s.tls })

  -- `tls.write_tls(&mut buf)?`, and the bytes in the buffer after it
  unfoldable pub write_tls_to_buf : M (TlsConn C T) Bytes
  write_tls_to_buf s =
      from_buf s.connection
        (session.write_tls buf.writer (record { connection = buf.empty; tls = s.tls }))

  unfoldable pub half_write : ℕ → M T ℕ → M (TlsConn C T) ℕ
  unfolding write_tls_to_buf
  half_write zero write = λ s. (Result.stuck, s)
  half_write (suc fuel) write = do
    half.lock
    wrote ← on_tls write
    (λ s. elim (session.wants_write s.tls) [
      | false ↦ (ok wrote, s)
      | true ↦
          (do
            bytes ← write_tls_to_buf
            sent ← on_connection (conn.send bytes false)
            elim sent [
              | zero ↦ pure wrote
              | suc _ ↦ elim wrote [ zero ↦ half_write fuel write | suc n ↦ pure (suc n) ]
            ])
            s
    ])

  unfoldable pub flush : ℕ → M (TlsConn C T) (Unit {0})
  unfolding write_tls_to_buf
  flush zero = λ s. (Result.stuck, s)
  flush (suc fuel) = do
    half.lock
    (λ s. elim (session.wants_write s.tls) [
      | false ↦ (ok tt, s)
      | true ↦
          (do bytes ← write_tls_to_buf; sent ← on_connection (conn.send bytes false); flush fuel) s
    ])
