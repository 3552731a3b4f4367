-- ===== src/Tls/Send.antt =====
-- send of tls/conn.rs: what it reports as written is on its way to the peer.
use xx_url.Common.{
  ℕ, zero, suc, ◌+◌, ◌≤◌, ◌<◌, Bool, true, false, not, is_nil, Bytes, length, take, [], ◌++◌, ◌≡◌,
  ◌≢◌, refl, sym, ap, ◌∙◌, arith, Result, M, ◌>>◌, pure, ◌⊎◌, inl, inr, Ends, Ends-and_then,
  Ends-weaken, append-nil, Bool-cases,
}
use xx_url.Tls.{
  ConnLib, Session, TlsConn, write_pending, tls_write, send, adapter_write, check_if_zero,
  on_connection, on_tls,
}
use xx_url.Tls.Parts.{on_connection-Ends, on_tls-Ends}

-- What the source relies on. `wire` is what the socket has taken, `pending` what the session has
-- encrypted and not handed out, at most `limit` bytes, and `opened` what the peer decrypts.
pub record Encrypts {C T : Type 0} (conn : ConnLib C) (session : Session T) (wire : C → Bytes)
    (pending : T → Bytes) (opened : Bytes → Bytes) (limit : ℕ) : Type 0 where
  pub wants : (t : T) → session.wants_write t ≡ not (is_nil (pending t))
  -- A write encrypts a part of the buffer. It refuses all of one only while something is pending.
  pub encrypts :
      (buf : Bytes) (s : TlsConn C T)
      → length (pending s.tls) ≤ limit
      → Ends
          (λ n t.
            (n ≤ length buf)
            × (opened (wire s.connection ++ pending t)
                ≡ opened (wire s.connection ++ pending s.tls) ++ take n buf)
            × (length (pending t) ≤ limit)
            × (n ≡ 0 → buf ≢ [] → pending s.tls ≢ []))
          (session.write buf s.tls)
  -- The socket takes some of what is pending, in its order.
  pub hands_out :
      (s : TlsConn C T)
      → pending s.tls ≢ []
      → Ends
          (λ n t.
            (wire t.connection ++ pending t.tls ≡ wire s.connection ++ pending s.tls)
            × (0 < n)
            × (length (pending t.tls) < length (pending s.tls)))
          (session.write_tls (adapter_write conn session false) s)
  pub goes_on : (c : C) → Ends (λ _ c'. wire c' ≡ wire c) (conn.check_interrupt c)

module _ {C T : Type 0} {conn : ConnLib C} {session : Session T} {wire : C → Bytes}
    {pending : T → Bytes} {opened : Bytes → Bytes} {limit : ℕ}
    (lib : Encrypts conn session wire pending opened limit) where
  -- All that the peer will get of what was written so far.
  abbrev outgoing : TlsConn C T → Bytes
  outgoing s = wire s.connection ++ pending s.tls

  abbrev Flushed : TlsConn C T → Bool → TlsConn C T → Type 0
  Flushed s took t = (took ≡ true) × (pending t.tls ≡ []) × (outgoing t ≡ outgoing s)

  abbrev Same : TlsConn C T → TlsConn C T → Type 0
  Same s t = (outgoing t ≡ outgoing s) × (pending t.tls ≡ pending s.tls)

  check-Same :
      (wrote : ℕ) (s : TlsConn C T)
      → Ends (λ _ t. Same s t) (on_connection (check_if_zero conn session wrote) s)
  check-Same zero s =
      on_connection-Ends (λ _ t. Same s t) conn.check_interrupt s
        (Ends-weaken _ _ (conn.check_interrupt s.connection) (lib.goes_on s.connection)
          λ _ c h. (ap (λ z. z ++ pending s.tls) h, refl))
  check-Same (suc n) s = (refl, refl)

  abbrev Rest : ℕ → ℕ → Type 0
  Rest wrote fuel =
      (s : TlsConn C T)
      → length (pending s.tls) < fuel
      → Ends (Flushed s) (write_pending conn session fuel wrote s)

  Flushed-from :
      (s t : TlsConn C T)
      → outgoing t ≡ outgoing s
      → (m : Result Bool × TlsConn C T) → Ends (Flushed t) m
      → Ends (Flushed s) m
  Flushed-from s t e m h = Ends-weaken (Flushed t) (Flushed s) m h λ took u k. (k.0, k.1, k.2 ∙ e)

  after_write-Flushed :
      (fuel wrote n : ℕ) (s : TlsConn C T)
      → 0 < n
      → length (pending s.tls) < fuel
      → Rest wrote fuel
      → Ends (Flushed s) (
          (elim n as (λ _. M (TlsConn C T) Bool) [
            | zero ↦ pure false
            | suc _ ↦ do
              on_connection (check_if_zero conn session wrote)
              write_pending conn session fuel wrote
          ])
            s)
  after_write-Flushed fuel wrote zero s pos enough again = absurd (omega arith)
  after_write-Flushed fuel wrote (suc k) s pos enough again =
      Ends-and_then (λ _ t. Same s t) (Flushed s)
        (on_connection (check_if_zero conn session wrote) s) _ (check-Same wrote s)
        λ _ t h.
          Flushed-from s t h.0 (write_pending conn session fuel wrote t) (again t (rw h.1 enough))

  write_pending-Flushed : (fuel wrote : ℕ) → Rest wrote fuel
  unfolding write_pending
  write_pending-Flushed zero wrote s enough = absurd (omega arith)
  write_pending-Flushed (suc fuel) wrote s enough = elim (Bool-cases (is_nil (pending s.tls))) [
    | inl e ↦ rw (write_pending, lib.wants s.tls, e) (refl, ground (arith, e), refl)
    | inr e ↦
        rw (write_pending, lib.wants s.tls, e)
          (Ends-and_then _ (Flushed s) (session.write_tls (adapter_write conn session false) s) _
            (lib.hands_out s λ z. absurd (ground (arith, e, z)))
            λ n t h. Flushed-from s t h.0 _ (
              after_write-Flushed fuel wrote n t h.1 (omega (arith, h.2, enough))
                (write_pending-Flushed fuel wrote)))
  ]

  -- The first round leaves nothing pending; a second one, after a write of nothing, writes
  -- something.
  abbrev Sent : Bytes → TlsConn C T → ℕ → TlsConn C T → Type 0
  Sent buf s n t =
      (0 < n)
      × (n ≤ length buf)
      × (pending t.tls ≡ [])
      × (opened (wire t.connection) ≡ opened (outgoing s) ++ take n buf)

  abbrev Encrypted : Bytes → TlsConn C T → ℕ → TlsConn C T → Type 0
  Encrypted buf s n t =
      (n ≤ length buf)
      × (opened (outgoing t) ≡ opened (outgoing s) ++ take n buf)
      × (length (pending t.tls) ≤ limit)
      × (n ≡ 0 → buf ≢ [] → pending s.tls ≢ [])

  abbrev after_flush : Bytes → ℕ → ℕ → Bool → M (TlsConn C T) ℕ
  after_flush buf fuel wrote took = elim took [
    | false ↦ pure wrote
    | true ↦ elim wrote [
      | zero ↦ tls_write conn session fuel (session.write buf)
      | suc n ↦ pure (suc n)
    ]
  ]

  after_flush-Sent :
      (buf : Bytes) (fuel wrote : ℕ) (s t u : TlsConn C T) (took : Bool)
      → Encrypted buf s wrote t
      → Flushed t took u
      → (wrote ≡ 0 → Ends (Sent buf u) (tls_write conn session fuel (session.write buf) u))
      → Ends (Sent buf s) (after_flush buf fuel wrote took u)
  after_flush-Sent buf fuel wrote s t u false h f again = absurd (ground (arith, f))
  after_flush-Sent buf fuel zero s t u true h f again =
      Ends-weaken (Sent buf u) (Sent buf s) (tls_write conn session fuel (session.write buf) u)
        (again refl)
        λ n v k.
          (k.0, k.1, k.2, k.3 ∙ ap (λ z. z ++ take n buf) (ap opened f.2 ∙ h.1 ∙ append-nil _))
  after_flush-Sent buf fuel (suc n) s t u true h f again = (
    omega arith,
    h.0,
    f.1,
    ap opened (sym (ap (λ z. wire u.connection ++ z) f.1 ∙ append-nil _) ∙ f.2) ∙ h.1,
  )

  tls_write-Sent :
      (fuel : ℕ) (buf : Bytes) (s : TlsConn C T)
      → buf ≢ []
      → length (pending s.tls) ≤ limit
      → limit < fuel
      → ((pending s.tls ≡ []) ⊎ (limit + 1 < fuel))
      → Ends (Sent buf s) (tls_write conn session fuel (session.write buf) s)
  unfolding tls_write
  tls_write-Sent zero buf s some_bytes few enough again = absurd (omega arith)
  tls_write-Sent (suc fuel) buf s some_bytes few enough again =
      Ends-and_then (Encrypted buf s) (Sent buf s) (on_tls (session.write buf) s) _
        (on_tls-Ends (Encrypted buf s) (session.write buf) s (lib.encrypts buf s few))
        λ wrote t h.
          Ends-and_then (Flushed t) (Sent buf s) (write_pending conn session (suc fuel) wrote t) _
            (write_pending-Flushed (suc fuel) wrote t (omega (arith, h.2)))
            λ took u f. after_flush-Sent buf fuel wrote s t u took h f λ z.
              tls_write-Sent fuel buf u some_bytes (rw f.1 (omega arith))
                (elim again [ inl e ↦ absurd (h.3 z some_bytes e) | inr l ↦ omega (arith, l) ])
                (inl f.1)

  -- If the socket keeps taking bytes and the buffer is not empty, then send with enough fuel fails
  -- with an error or writes a front of the buffer that is not empty; the session then holds nothing
  -- back, and what the peer decrypts of the bytes on the wire ends with that front.
  pub send-Ends :
      (fuel : ℕ) (buf : Bytes) (s : TlsConn C T)
      → buf ≢ []
      → length (pending s.tls) ≤ limit
      → limit + 1 < fuel
      → Ends
          (λ n t.
            (0 < n)
            × (n ≤ length buf)
            × (pending t.tls ≡ [])
            × (opened (wire t.connection)
                ≡ opened (wire s.connection ++ pending s.tls) ++ take n buf))
          (send conn session fuel buf s)
  unfolding send
  send-Ends fuel buf s some_bytes few enough =
      tls_write-Sent fuel buf s some_bytes few (omega arith) (inr enough)
