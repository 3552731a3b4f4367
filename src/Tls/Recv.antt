-- ===== src/Tls/Recv.antt =====
-- recv of tls/conn.rs: a read gives the next bytes of what the peer has sent.
use xx_url.Common.{
  ℕ, zero, suc, false, ◌≤◌, ◌<◌, Option, none, some, Bytes, length, [], ◌∷◌, ◌++◌, ◌≡◌, refl, sym,
  ap, ap₂, ◌∙◌, ◌≢◌, arith, Result, ok, err, panic, stuck, M, ◌>>=◌, ◌>>◌, pure, ◌⊎◌, inl, inr,
  Ends, Ends-and_then, Ends-weaken, Bool-cases, true, append_assoc,
}
use xx_url.Errors.{Error}
use xx_url.Tls.{
  ConnLib, Session, TlsConn, is_would_block, beside_connection, read_outcome, try_read, read_loop,
  tls_read, recv, adapter_read, on_connection, on_tls,
}
use xx_url.Tls.Parts.{on_connection-Ends, on_tls-Ends}

-- What the source relies on. `ready` is what the session has decrypted and nobody has read,
-- `coming` is what the peer will yet be found to have sent, and `left` bounds what is still to
-- receive.
pub record Decrypts {C T : Type 0} (conn : ConnLib C) (session : Session T) (ready : T → Bytes)
    (coming : TlsConn C T → Bytes) (left : TlsConn C T → ℕ) : Type 0 where
  -- A read takes from what is ready, and something if there is something.
  pub takes :
      (n : ℕ) (s : TlsConn C T)
      → 0 < n
      → Ends
          (λ bytes t.
            (ready s.tls ≡ bytes ++ ready t)
            × (bytes ≡ [] → ready s.tls ≡ [])
            × (coming (record s { tls = t }) ≡ coming s)
            × (left (record s { tls = t }) ≤ left s))
          (session.read n s.tls)
  -- It would block only with nothing ready, and changes nothing then.
  pub blocks :
      (n : ℕ) (t t' : T) (e : Error)
      → session.read n t ≡ (err e, t')
      → is_would_block e ≡ true
      → (ready t ≡ []) × (t' ≡ t)
  -- Receiving decrypts nothing. Nothing is received only at the end.
  pub receives :
      (s : TlsConn C T)
      → Ends
          (λ n t.
            (ready t.tls ≡ ready s.tls)
            × (coming t ≡ coming s)
            × (n ≡ 0 → coming s ≡ [])
            × ((n ≡ 0) ⊎ (left t < left s)))
          (session.read_tls (adapter_read conn session false) s)
  -- Processing decrypts some of it, and says how much is ready.
  pub decrypts :
      (s : TlsConn C T)
      → Ends
          (λ n t.
            (ready t ++ coming (record s { tls = t }) ≡ ready s.tls ++ coming s)
            × (n ≡ length (ready t))
            × (left (record s { tls = t }) ≤ left s))
          (session.process_new_packets s.tls)
  pub goes_on :
      (s : TlsConn C T)
      → Ends
          (λ _ c.
            (coming (record s { connection = c }) ≡ coming s)
            × (left (record s { connection = c }) ≤ left s))
          (conn.check_interrupt s.connection)

length-nil : (bs : Bytes) → length bs ≡ 0 → bs ≡ []
length-nil [] e = refl
length-nil (b ∷ bs) e = absurd (omega arith)

module _ {C T : Type 0} {conn : ConnLib C} {session : Session T} {ready : T → Bytes}
    {coming : TlsConn C T → Bytes} {left : TlsConn C T → ℕ}
    (lib : Decrypts conn session ready coming left) where
  -- All that the peer has sent and nobody has read.
  abbrev plain : TlsConn C T → Bytes
  plain s = ready s.tls ++ coming s

  abbrev Received : TlsConn C T → Bytes → TlsConn C T → Type 0
  Received s bytes t = (plain s ≡ bytes ++ plain t) × (bytes ≡ [] → plain s ≡ [])

  abbrev Taken : TlsConn C T → Bytes → TlsConn C T → Type 0
  Taken s bytes t =
      (ready s.tls ≡ bytes ++ ready t.tls)
      × (bytes ≡ [] → ready s.tls ≡ [])
      × (coming t ≡ coming s)
      × (left t ≤ left s)

  read-Taken : (n : ℕ) (s : TlsConn C T) → 0 < n → Ends (Taken s) (on_tls (session.read n) s)
  read-Taken n s pos = on_tls-Ends (Taken s) (session.read n) s (lib.takes n s pos)

  Taken-plain : (s t : TlsConn C T) (bytes : Bytes) → Taken s bytes t → plain s ≡ bytes ++ plain t
  Taken-plain s t bytes h = rw (h.0, h.2, append_assoc bytes (ready t.tls) (coming s)) refl

  -- A part of a round: nothing is lost, and `left` does not grow.
  abbrev Kept : TlsConn C T → TlsConn C T → Type 0
  Kept s t = (plain t ≡ plain s) × (left t ≤ left s)

  Received-Kept :
      (s t : TlsConn C T)
      → plain t ≡ plain s
      → (m : Result Bytes × TlsConn C T) → Ends (Received t) m
      → Ends (Received s) m
  Received-Kept s t e m h =
      Ends-weaken (Received t) (Received s) m h λ bytes u k. (sym e ∙ k.0, λ z. sym e ∙ k.1 z)

  process-Kept :
      (s : TlsConn C T)
      → Ends (λ n t. Kept s t × (n ≡ length (ready t.tls))) (on_tls session.process_new_packets s)
  process-Kept s =
      on_tls-Ends (λ n t. Kept s t × (n ≡ length (ready t.tls))) session.process_new_packets s
        (Ends-weaken _ _ (session.process_new_packets s.tls) (lib.decrypts s)
          λ n t h. ((h.0, h.2), h.1))

  interrupt-Kept :
      (s : TlsConn C T)
      → Ends (λ _ t. Kept s t × (ready t.tls ≡ ready s.tls)) (on_connection conn.check_interrupt s)
  interrupt-Kept s =
      on_connection-Ends (λ _ t. Kept s t × (ready t.tls ≡ ready s.tls)) conn.check_interrupt s
        (Ends-weaken _ _ (conn.check_interrupt s.connection) (lib.goes_on s)
          λ _ c h. ((ap (λ z. ready s.tls ++ z) h.0, h.1), refl))

  read-Received :
      (n : ℕ) (s : TlsConn C T)
      → 0 < n
      → ready s.tls ≢ []
      → Ends (Received s) (on_tls (session.read n) s)
  read-Received n s pos some_ready =
      Ends-weaken (Taken s) (Received s) (on_tls (session.read n) s) (read-Taken n s pos)
        λ bytes t h. (Taken-plain s t bytes h, λ e. absurd (some_ready (h.1 e)))

  -- The loop, with `again` for what its next round does.
  abbrev Rest : ℕ → ℕ → Type 0
  Rest n fuel =
      (s : TlsConn C T)
      → left s < fuel
      → ready s.tls ≡ []
      → Ends (Received s) (read_loop conn session fuel (session.read n) s)

  abbrev after_process : ℕ → ℕ → ℕ → M (TlsConn C T) Bytes
  after_process n fuel available = elim available [
    | zero ↦ do on_connection conn.check_interrupt; read_loop conn session fuel (session.read n)
    | suc _ ↦ on_tls (session.read n)
  ]

  after_process-Received :
      (n fuel available : ℕ) (s : TlsConn C T)
      → 0 < n
      → left s < fuel
      → available ≡ length (ready s.tls)
      → Rest n fuel
      → Ends (Received s) (after_process n fuel available s)
  after_process-Received n fuel zero s pos enough e again =
      Ends-and_then (λ _ t. Kept s t × (ready t.tls ≡ ready s.tls)) (Received s)
        (on_connection conn.check_interrupt s) _ (interrupt-Kept s)
        λ _ t k.
          Received-Kept s t k.0.0 (read_loop conn session fuel (session.read n) t)
            (again t (omega (arith, k.0.1)) (k.1 ∙ length-nil (ready s.tls) (sym e)))
  after_process-Received n fuel (suc k) s pos enough e again =
      read-Received n s pos λ z. absurd (ground (arith, e, z))

  after_receive-Received :
      (n fuel got : ℕ) (s : TlsConn C T)
      → 0 < n
      → (got ≡ 0 → coming s ≡ [])
      → ((got ≡ 0) ⊎ (left s < fuel))
      → ready s.tls ≡ []
      → Rest n fuel
      → Ends (Received s) (
          (elim got as (λ _. M (TlsConn C T) Bytes) [
            | zero ↦ pure []
            | suc _ ↦ on_tls session.process_new_packets >>= after_process n fuel
          ])
            s)
  after_receive-Received n fuel zero s pos at_end moved e again =
      (refl, λ _. rw (e, at_end refl) refl)
  after_receive-Received n fuel (suc k) s pos at_end moved e again =
      Ends-and_then (λ available t. Kept s t × (available ≡ length (ready t.tls))) (Received s)
        (on_tls session.process_new_packets s) _ (process-Kept s)
        λ available t h.
          Received-Kept s t h.0.0 (after_process n fuel available t)
            (after_process-Received n fuel available t pos (ground (arith, moved, h.0.1)) h.1 again)

  read_loop-Received : (fuel n : ℕ) → 0 < n → Rest n fuel
  unfolding read_loop
  read_loop-Received zero n pos s enough none_ready = absurd (omega arith)
  read_loop-Received (suc fuel) n pos s enough none_ready =
      Ends-and_then _ (Received s) (session.read_tls (adapter_read conn session false) s) _
        (lib.receives s)
        λ got t h. Received-Kept s t (ap₂ ◌++◌ h.0 h.1) _ (
          after_receive-Received n fuel got t pos (λ z. h.1 ∙ h.2 z) (ground (arith, h.3, enough))
            (h.0 ∙ none_ready) (read_loop-Received fuel n pos))

  abbrev Tried : TlsConn C T → Option Bytes → TlsConn C T → Type 0
  Tried s none t = Kept s t × (ready t.tls ≡ [])
  Tried s (some bytes) t = Received s bytes t

  read_outcome-Tried :
      (n : ℕ) (s : TlsConn C T) (result : Result Bytes) (t : T)
      → session.read n s.tls ≡ (result, t)
      → Ends (λ bytes t. Taken s bytes (record s { tls = t })) (result, t)
      → Ends (Tried s) (beside_connection s.connection (read_outcome result, t))
  read_outcome-Tried n s (ok []) t eq h = ((sym (Taken-plain s _ [] h), h.3), sym h.0 ∙ h.1 refl)
  read_outcome-Tried n s (ok (b ∷ bs)) t eq h =
      (Taken-plain s _ (b ∷ bs) h, λ z. absurd (ground (arith, z)))
  read_outcome-Tried n s (err e) t eq h = elim (Bool-cases (is_would_block e)) [
    | inl y ↦ let same = lib.blocks n s.tls t e eq y in rw (y, same.1) ((refl, omega arith), same.0)
    | inr x ↦ rw x tt
  ]
  read_outcome-Tried n s panic t eq h = h
  read_outcome-Tried n s stuck t eq h = h

  try-Tried :
      (n : ℕ) (s : TlsConn C T) → 0 < n → Ends (Tried s) (on_tls (try_read (session.read n)) s)
  try-Tried n s pos =
      read_outcome-Tried n s (session.read n s.tls).0 (session.read n s.tls).1 refl
        (lib.takes n s pos)

  after_try-Received :
      (fuel n : ℕ) (s : TlsConn C T)
      → 0 < n
      → left s < fuel
      → (got : Option Bytes) (t : TlsConn C T) → Tried s got t
      → Ends (Received s) (
          (elim got as (λ _. M (TlsConn C T) Bytes) [
            | none ↦ read_loop conn session fuel (session.read n)
            | some bytes ↦ pure bytes
          ])
            t)
  after_try-Received fuel n s pos enough none t h =
      Received-Kept s t h.0.0 (read_loop conn session fuel (session.read n) t)
        (read_loop-Received fuel n pos t (omega (arith, h.0.1)) h.1)
  after_try-Received fuel n s pos enough (some bytes) t h = h

  -- If the peer, the socket and the session behave as assumed and the buffer is not empty, then
  -- recv with enough fuel fails with an error or gives the next bytes of what the peer has sent and
  -- nobody has read: the rest is still there, and no byte is given only where nothing is left.
  pub recv-Ends :
      (fuel n : ℕ) (s : TlsConn C T)
      → 0 < n
      → left s < fuel
      → Ends
          (λ bytes t.
            (ready s.tls ++ coming s ≡ bytes ++ (ready t.tls ++ coming t))
            × (bytes ≡ [] → ready s.tls ++ coming s ≡ []))
          (recv conn session fuel n s)
  unfolding recv tls_read
  recv-Ends fuel n s pos enough =
      Ends-and_then _ (Received s) (on_tls (try_read (session.read n)) s) _ (try-Tried n s pos)
        (after_try-Received fuel n s pos enough)
