-- ===== src/Tls/Connect.antt =====
-- tls_connect of tls/conn.rs: how the handshake ends.
use xx_url.Common.{
  ℕ, zero, suc, ◌+◌, ◌≤◌, ◌<◌, Bool, true, false, not, ◌&&◌, ◌||◌, Option, none, some, ◌≡◌, refl,
  arith, if◌then◌else◌, Result, ok, err, panic, stuck, M, ◌>>◌, pure, and_then, ◌⊎◌, inl, inr,
  Bool-cases, Ends, Ends-and_then, Ends-weaken,
}
use xx_url.Tls.Parts.{on_connection-Ends, on_tls-Ends}
use xx_url.Tls.{
  ConnLib, Session, TlsConn, PollFlags, connect_loop, tls_connect, connect_round, end_round,
  read_round, write_round, process_or_alert, write_alert, wanted, adapter_read, adapter_write,
  on_connection, on_tls,
}

-- What the source relies on. `left` bounds what is still to pass in either direction.
pub record Handshakes {C T : Type 0} (conn : ConnLib C) (session : Session T)
    (left : TlsConn C T → ℕ) : Type 0 where
  -- While the handshake runs, the session wants to read or to write.
  pub wants :
      (t : T)
      → session.is_handshaking t ≡ true
      → session.wants_write t || session.wants_read t ≡ true
  -- A poll reports one of the flags it was asked for, when it was asked for any, or fails.
  pub polls :
      (s : TlsConn C T)
      → Ends
          (λ flags c.
            (left (record s { connection = c }) ≤ left s)
            × (session.wants_write s.tls || session.wants_read s.tls ≡ true
                → flags.out || flags.inward ≡ true))
          (conn.poll (wanted conn session s.tls) s.connection)
  -- A transfer that moves something leaves less to move.
  pub writes :
      (s : TlsConn C T)
      → Ends
          (λ n t.
            (left t ≤ left s)
            × ((n ≡ 0) ⊎ (left t < left s))
            × (session.is_handshaking t.tls ≡ session.is_handshaking s.tls))
          (session.write_tls (adapter_write conn session false) s)
  pub reads :
      (s : TlsConn C T)
      → Ends
          (λ n t.
            (left t ≤ left s)
            × ((n ≡ 0) ⊎ (left t < left s))
            × (session.is_handshaking t.tls ≡ session.is_handshaking s.tls))
          (session.read_tls (adapter_read conn session false) s)
  -- A handshake that is over does not start again.
  pub processes :
      (s : TlsConn C T)
      → Ends
          (λ n t.
            (left (record s { tls = t }) ≤ left s)
            × (session.is_handshaking s.tls ≡ false → session.is_handshaking t ≡ false))
          (session.process_new_packets s.tls)

module _ {C T : Type 0} {conn : ConnLib C} {session : Session T} {left : TlsConn C T → ℕ}
    (lib : Handshakes conn session left) where
  abbrev handshaking : TlsConn C T → Bool
  handshaking s = session.is_handshaking s.tls

  -- A transfer of a round, if the poll allows it; only one that moves nothing sets `eof`.
  abbrev Moved : Bool → Bool → TlsConn C T → Bool → TlsConn C T → Type 0
  Moved flag before s eof t =
      (left t ≤ left s)
      × (flag ≡ true → eof ≡ false → left t < left s)
      × (handshaking s ≡ false → handshaking t ≡ false)
      × (eof ≡ false → before ≡ false)

  write_round-Moved :
      (flag eof : Bool) (s : TlsConn C T)
      → Ends (Moved flag eof s) (write_round conn session flag eof s)
  unfolding write_round
  write_round-Moved false eof s = (omega arith, λ h. absurd (ground arith), λ h. h, λ h. h)
  write_round-Moved true eof s =
      Ends-and_then _ _ (session.write_tls (adapter_write conn session false) s) _ (lib.writes s)
        (λ n t h. ground arith)

  alert-Ends :
      (P : TlsConn C T → Type 0) (m : Result ℕ × TlsConn C T)
      → Ends (λ n t. P t) m
      → Ends (λ _ t. P t) (write_alert conn session m.0 m.1)
  unfolding write_alert
  alert-Ends P (ok _, t) h = h
  alert-Ends P (err _, t) h = tt
  alert-Ends P (panic, t) h = h
  alert-Ends P (stuck, t) h = h

  abbrev Kept : TlsConn C T → TlsConn C T → Type 0
  Kept s t = (left t ≤ left s) × (handshaking s ≡ false → handshaking t ≡ false)

  process-Kept : (s : TlsConn C T) → Ends (λ _ t. Kept s t) (process_or_alert conn session s)
  unfolding process_or_alert
  process-Kept s =
      alert-Ends (Kept s) (on_tls session.process_new_packets s)
        (on_tls-Ends (λ _ t. Kept s t) session.process_new_packets s (lib.processes s))

  read_round-Moved :
      (flag eof : Bool) (s : TlsConn C T)
      → Ends (Moved flag eof s) (read_round conn session flag eof s)
  unfolding read_round
  read_round-Moved false eof s = (omega arith, λ h. absurd (ground arith), λ h. h, λ h. h)
  read_round-Moved true eof s =
      Ends-and_then _ _ (session.read_tls (adapter_read conn session false) s) _ (lib.reads s)
        λ n t h. after_read n t h
    where
      after_read :
          (n : ℕ) (t : TlsConn C T)
          → (left t ≤ left s) × ((n ≡ 0) ⊎ (left t < left s)) × (handshaking t ≡ handshaking s)
          → Ends (Moved true eof s) (
              (elim n as (λ _. M (TlsConn C T) Bool) [
                | zero ↦ pure true
                | suc _ ↦ do process_or_alert conn session; pure eof
              ])
                t)
      after_read zero t h =
          (h.0, λ _ e. absurd (ground arith), λ e. ground (arith, h), λ e. absurd (ground arith))
      after_read (suc n) t h =
          Ends-and_then (λ _ u. Kept t u) (Moved true eof s) (process_or_alert conn session t) _
            (process-Kept t)
            λ _ u k. (
              omega (arith, h, k),
              λ _ _. ground (arith, h, k),
              λ e. k.1 (ground (arith, h)),
              λ e. e,
            )

  -- What a round achieves: the handshake is over, or there is less to move, or both.
  abbrev rank : TlsConn C T → ℕ
  rank s = left s + (if handshaking s then 1 else 0)

  abbrev Progress : TlsConn C T → Option Bool → TlsConn C T → Type 0
  Progress s none t = handshaking t ≡ false
  Progress s (some eof) t = rank t < rank s

  end_round-Progress :
      (s t : TlsConn C T) (eof : Bool)
      → left t ≤ left s
      → (handshaking s ≡ true → eof ≡ false → left t < left s)
      → (handshaking s ≡ false → handshaking t ≡ false)
      → Ends (Progress s) (end_round conn session (handshaking s) eof t)
  unfolding end_round
  end_round-Progress s t eof less moved over = elim (Bool-cases (handshaking s)) [
    | inl h ↦ elim (Bool-cases (handshaking t)) [
      | inl k ↦ elim (Bool-cases eof) [
        | inl e ↦ rw (h, k, e) tt
        | inr e ↦ rw (h, k, e) (fewer (moved h e) (rw (h, k) (omega arith)))
      ]
      | inr k ↦ elim (Bool-cases (session.wants_write t.tls)) [
        | inl w ↦ rw (h, k, w) (ground (arith, less, h, k))
        | inr w ↦ rw (h, k, w) k
      ]
    ]
    | inr h ↦ rw (h, over h) (over h)
  ]
    where
      fewer :
          left t < left s
          → (if handshaking t then 1 else 0) ≤ (if handshaking s then 1 else 0)
          → rank t < rank s
      fewer p q = omega (arith, p, q)

  abbrev Polled : TlsConn C T → PollFlags → TlsConn C T → Type 0
  Polled s flags t =
      (left t ≤ left s)
      × (handshaking t ≡ handshaking s)
      × (handshaking s ≡ true → flags.out || flags.inward ≡ true)

  poll-Polled :
      (s : TlsConn C T) → Ends (Polled s) (on_connection (conn.poll (wanted conn session s.tls)) s)
  poll-Polled s = on_connection-Ends (Polled s) (conn.poll (wanted conn session s.tls)) s (
      Ends-weaken _ _ (conn.poll (wanted conn session s.tls) s.connection) (lib.polls s)
        λ flags c h. (h.0, refl, λ k. h.1 (lib.wants s.tls k)))

  -- The part of a round behind the write, which reads if the poll says so.
  read_and_end-Progress :
      (s u : TlsConn C T) (inward eof : Bool)
      → left u ≤ left s
      → (handshaking s ≡ true → eof ≡ false → (inward ≡ true) ⊎ (left u < left s))
      → (handshaking s ≡ false → handshaking u ≡ false)
      → Ends
          (Progress s)
          (and_then (read_round conn session inward eof u) (end_round conn session (handshaking s)))
  read_and_end-Progress s u inward eof less moved over =
      Ends-and_then (Moved inward eof u) (Progress s) (read_round conn session inward eof u) _
        (read_round-Moved inward eof u)
        λ eof' v h.
          end_round-Progress s v eof' (omega (arith, h.0, less))
            (λ k e. ground (arith, h, less, moved k (h.3 e))) (λ k. h.2 (over k))

  connect_round-Progress :
      (eof : Bool) (s : TlsConn C T) → Ends (Progress s) (connect_round conn session eof s)
  unfolding connect_round
  connect_round-Progress eof s =
      Ends-and_then (Polled s) (Progress s)
        (on_connection (conn.poll (wanted conn session s.tls)) s) _ (poll-Polled s)
        λ flags t h.
          Ends-and_then (Moved flags.out eof t) (Progress s)
            (write_round conn session flags.out eof t) _ (write_round-Moved flags.out eof t)
            λ eof' u m. elim (Bool-cases (not (handshaking s) && not eof')) [
              | inl e ↦ rw e (m.2 (ground (arith, h, e)))
              | inr e ↦ rw e (
                  read_and_end-Progress s u flags.inward eof' (omega (arith, h.0, m.0))
                    (λ k e. ground (arith, h, m, k, e)) (λ k. m.2 (ground (arith, h, k))))
            ]

  connect_loop-Ends :
      (fuel : ℕ) (eof : Bool) (s : TlsConn C T)
      → rank s < fuel
      → Ends (λ _ t. handshaking t ≡ false) (connect_loop conn session fuel eof s)
  unfolding connect_loop
  connect_loop-Ends zero eof s enough = absurd (omega arith)
  connect_loop-Ends (suc fuel) eof s enough =
      Ends-and_then (Progress s) _ (connect_round conn session eof s) _
        (connect_round-Progress eof s) (next (λ eof t h. connect_loop-Ends fuel eof t h))
    where
      next :
          ((eof : Bool) (t : TlsConn C T)
            → rank t < fuel
            → Ends (λ _ t. handshaking t ≡ false) (connect_loop conn session fuel eof t))
          → (o : Option Bool) (t : TlsConn C T) → Progress s o t
          → Ends
              (λ _ t. handshaking t ≡ false)
              ((elim o as (λ _. M (TlsConn C T) (Unit {0})) [
                | none ↦ pure tt
                | some eof ↦ connect_loop conn session fuel eof
              ])
                t)
      next again none t h = h
      next again (some eof) t h = again eof t (omega (arith, h))

  -- Given enough fuel, a connection whose peer and socket behave as assumed ends its handshake:
  -- tls_connect fails with an error, or it succeeds and the session is not handshaking any more. It
  -- never waits for a session that has nothing more to send or to receive.
  pub tls_connect-Ends :
      (fuel : ℕ) (s : TlsConn C T)
      → left s + 1 < fuel
      → Ends (λ _ t. session.is_handshaking t.tls ≡ false) (tls_connect conn session fuel s)
  unfolding tls_connect
  tls_connect-Ends fuel s enough = connect_loop-Ends fuel false s (ground arith)
