-- ===== src/Tls/Halves/Flush.antt =====
-- flush of the write half, tls/conn.rs.
use xx_url.Common.{ℕ, ◌≤◌, ◌<◌, false, not, is_nil, Bytes, [], ◌++◌, ◌≡◌, ◌≢◌, Ends}
use xx_url.Tls.{ConnLib, Session, TlsConn}
use xx_url.Tls.Halves.{HalfLib, BufLib, flush}

-- What the code relies on: the lock is not poisoned, and the other half may have queued more behind
-- what is pending, but of what a session owes, which it queued or will queue, there is an end; with
-- something pending it moves some of that to the buffer, and the socket takes each buffer whole.
pub record HandsOut {C T B : Type 0} (conn : ConnLib C) (buf : BufLib B) (half : HalfLib C T)
    (session : Session T) (wire : C → Bytes) (pending : T → Bytes) (owed : T → ℕ) : Type 0 where
  pub wants : (t : T) → session.wants_write t ≡ not (is_nil (pending t))
  pub locks :
      (s : TlsConn C T)
      → Ends
          (λ _ t.
            (wire t.connection ≡ wire s.connection)
            × (owed t.tls ≤ owed s.tls)
            × ((more : Bytes) × (pending t.tls ≡ pending s.tls ++ more)))
          (half.lock s)
  pub moves :
      (t : T)
      → pending t ≢ []
      → Ends
          (λ _ b. (buf.filled b.connection ++ pending b.tls ≡ pending t) × (owed b.tls < owed t))
          (session.write_tls buf.writer (record { connection = buf.empty; tls = t }))
  pub sends :
      (bytes : Bytes) (c : C) → Ends (λ _ c'. wire c' ≡ wire c ++ bytes) (conn.send bytes false c)

module _ {C T B : Type 0} {conn : ConnLib C} {buf : BufLib B} {half : HalfLib C T}
    {session : Session T} {wire : C → Bytes} {pending : T → Bytes} {owed : T → ℕ}
    (lib : HandsOut conn buf half session wire pending owed) where
  abbrev Moved : TlsConn C T → Bytes → TlsConn C T → Type 0
  Moved s bytes t =
      (bytes ++ pending t.tls ≡ pending s.tls)
      × (owed t.tls < owed s.tls)
      × (t.connection ≡ s.connection)

  abbrev Drained : TlsConn C T → TlsConn C T → Type 0
  Drained s t =
      (pending t.tls ≡ [])
      × ((more : Bytes) × (wire t.connection ≡ wire s.connection ++ (pending s.tls ++ more)))

  abbrev Rest : ℕ → Type 0
  Rest fuel =
      (s : TlsConn C T)
      → owed s.tls < fuel
      → Ends (λ _ t. Drained s t) (flush conn buf half session fuel s)
