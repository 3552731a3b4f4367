-- ===== src/Tls/Halves/End.antt =====
-- tls_read of the read half, tls/conn.rs, at the end of the stream.
use xx_url.Common.{ℕ, zero, suc, none, [], ◌≡◌, refl, ok, stuck}
use xx_url.Io.{BufRead}
use xx_url.Tls.{Session, TlsConn, read_outcome}
use xx_url.Tls.Halves.{HalfLib, half_loop, half_read, receive_buffered}

-- The peer has closed the connection and all that it sent was read: nothing is buffered, a fill
-- gives nothing, and a read of the session gives no byte or would block. Nobody else uses the
-- session.
pub record IsAtEnd {R T : Type 0} (io : BufRead R) (half : HalfLib R T) (session : Session T)
    (n : ℕ) (s : TlsConn R T) : Type 0 where
  pub nothing_buffered : io.buffer s.connection ≡ []
  pub nothing_filled : io.fill s.connection ≡ (ok 0, s.connection)
  pub nothing_ready :
      (read_outcome (session.read n s.tls).0 ≡ ok none) × ((session.read n s.tls).1 ≡ s.tls)
  pub not_shared : half.lock s ≡ (ok tt, s)

module _ {R T : Type 0} (io : BufRead R) (half : HalfLib R T) (session : Session T) (n : ℕ)
    (s : TlsConn R T) (at_end : IsAtEnd io half session n s) where
  half_loop-IsAtEnd : (fuel : ℕ) → half_loop io half session fuel (session.read n) s ≡ (stuck, s)
  unfolding half_loop receive_buffered
  half_loop-IsAtEnd zero = refl
  half_loop-IsAtEnd (suc fuel) =
      rw (half_loop, at_end.nothing_ready.0, at_end.nothing_ready.1)
        (rw (receive_buffered, at_end.nothing_buffered)
          (rw at_end.nothing_filled (rw at_end.not_shared (half_loop-IsAtEnd fuel))))

  -- At the end of the stream, a read of the read half runs through its loop without an end: however
  -- many rounds it is given, it has not returned and nothing has changed.
  pub half_read-IsAtEnd : (fuel : ℕ) → half_read io half session fuel n s ≡ (stuck, s)
  unfolding half_read
  half_read-IsAtEnd fuel = rw at_end.not_shared (half_loop-IsAtEnd fuel)
