-- ===== src/Ws/Close.antt =====
-- ws/stream.rs: the end of the closing handshake.
use xx_url.Common.{ℕ, Option, none, some, Result, ok, err, panic, stuck, M, ◌>>◌}
use xx_url.Io.{ConnWrite}

-- What `close` makes of the outcome: errors and a timeout are only logged.
pub swallow : Option (Result (Unit {0})) → Result (Unit {0})
swallow none = ok tt
swallow (some (ok _)) = ok tt
swallow (some (err _)) = ok tt
swallow (some panic) = panic
swallow (some stuck) = stuck

module _ {R : Type 0} (out : ConnWrite R) where
  unfoldable pub do_close : M R (Unit {0}) → M R (Unit {0})
  do_close write_data = do write_data; out.shutdown_write; out.poll_hang_up

  unfoldable pub close : ℕ → M R (Unit {0}) → M R (Unit {0})
  unfolding do_close swallow
  close close_timeout write_data r =
      let ended = out.timeout close_timeout (do_close write_data) r in (swallow ended.0, ended.1)
