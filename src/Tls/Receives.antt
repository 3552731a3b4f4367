-- ===== src/Tls/Receives.antt =====
-- The session that encrypts nothing meets what is asked of handshakes and of receiving.
use xx_url.Common.{
  ℕ, zero, suc, ◌+◌, ◌≤◌, ◌<◌, false, Bytes, length, take, drop, [], ◌∷◌, ◌++◌, ◌≡◌, refl, sym, ap,
  ◌∙◌, arith, err, Ends, ◌⊎◌, inl, inr, append_assoc, take-append-drop,
}
use xx_url.Errors.{Error}
use xx_url.Tls.{TlsConn, wanted, adapter_read, adapter_write}
use xx_url.Tls.Connect.{Handshakes}
use xx_url.Tls.Recv.{Decrypts}
use xx_url.Tls.Concrete.{
  Socket, socket, Plain, skip, receive_into, give, plain, take_short, drop_less, drop_taken,
}

-- What is still to move: the bytes of the peer that are not received, and those that are pending.
abbrev pub unmoved : TlsConn Socket Plain → ℕ
unmoved s = length s.connection.input + length s.tls.pending

receive-Handshakes :
    (incoming : Bytes) (s : TlsConn Socket Plain)
    → Ends
        (λ n t.
          (unmoved t ≤ unmoved s)
          × ((n ≡ 0) ⊎ (unmoved t < unmoved s))
          × (plain.is_handshaking t.tls ≡ plain.is_handshaking s.tls))
        (receive_into incoming (adapter_read (socket 3) plain false) s)
unfolding adapter_read
receive-Handshakes (_ ∷ _) s = tt
receive-Handshakes [] s =
    let input = s.connection.input in
    let d = drop_less (length (take 4 input)) input (take_short 4 input) in
    rw (← drop_taken 4 input)
      (omega (arith, d.0), elim d.1 [ inl z ↦ inl z | inr l ↦ inr (omega (arith, l)) ], refl)

pub plain-Handshakes : Handshakes (socket 3) plain unmoved
unfolding wanted adapter_read adapter_write
plain-Handshakes = record {
  wants = λ t h. ground arith;
  polls = λ s. (omega arith, λ h. h);
  writes = λ s.
      let d =
        drop_less (length (take 3 s.tls.pending)) s.tls.pending (take_short 3 s.tls.pending) in
      (omega (arith, d.0), elim d.1 [ inl z ↦ inl z | inr l ↦ inr (omega (arith, l)) ], refl);
  reads = λ s. receive-Handshakes s.tls.incoming s;
  processes = λ s. (omega arith, λ h. over s.tls h);
}
  where
    over :
        (t : Plain)
        → plain.is_handshaking t ≡ false
        → plain.is_handshaking (plain.process_new_packets t).1 ≡ false
    over t h = rw (none_left) refl
      where
        none_left : t.handshake ≡ 0
        none_left = ground arith

-- The rest of what the peer has sent, behind the handshake.
abbrev pub coming : TlsConn Socket Plain → Bytes
coming s = drop s.tls.handshake (s.tls.incoming ++ s.connection.input)

abbrev pub unreceived : TlsConn Socket Plain → ℕ
unreceived s = length s.connection.input

drop-nil : (n : ℕ) → drop {A = ℕ} n [] ≡ []
drop-nil zero = refl
drop-nil (suc n) = refl

drop-skip : (n : ℕ) (xs ys : Bytes) → drop n (xs ++ ys) ≡ drop n xs ++ drop (skip n xs) ys
drop-skip zero xs ys = refl
drop-skip (suc n) [] ys = refl
drop-skip (suc n) (x ∷ xs) ys = drop-skip n xs ys

give-Decrypts :
    (ready : Bytes) (n : ℕ) (s : TlsConn Socket Plain)
    → 0 < n
    → s.tls.ready ≡ ready
    → Ends
        (λ bytes t.
          (s.tls.ready ≡ bytes ++ t.ready)
          × (bytes ≡ [] → s.tls.ready ≡ [])
          × (coming (record s { tls = t }) ≡ coming s)
          × (unreceived (record s { tls = t }) ≤ unreceived s))
        (give ready n s.tls)
give-Decrypts [] n s pos e = tt
give-Decrypts (b ∷ bs) zero s pos e = absurd (omega arith)
give-Decrypts (b ∷ bs) (suc n) s pos e = (
  e ∙ sym (take-append-drop (suc n) (b ∷ bs)),
  λ z. absurd (ground (arith, z)),
  refl,
  omega arith,
)

give-blocks :
    (ready : Bytes) (n : ℕ) (t t' : Plain) (e : Error)
    → t.ready ≡ ready
    → give ready n t ≡ (err e, t')
    → (t.ready ≡ []) × (t' ≡ t)
give-blocks [] n t t' e eq h = (eq, ap (λ p. p.1) (sym h))
give-blocks (b ∷ bs) n t t' e eq h = absurd (ground (arith, h))

receive-Decrypts :
    (incoming : Bytes) (s : TlsConn Socket Plain)
    → s.tls.incoming ≡ incoming
    → Ends
        (λ n t.
          (t.tls.ready ≡ s.tls.ready)
          × (coming t ≡ coming s)
          × (n ≡ 0 → coming s ≡ [])
          × ((n ≡ 0) ⊎ (unreceived t < unreceived s)))
        (receive_into incoming (adapter_read (socket 3) plain false) s)
unfolding adapter_read
receive-Decrypts (_ ∷ _) s e = tt
receive-Decrypts [] s e =
    let input = s.connection.input in
    (
      refl,
      ap (drop s.tls.handshake) (take-append-drop 4 input ∙ sym (ap (λ z. z ++ input) e)),
      λ z.
          ap (λ i. drop s.tls.handshake (i ++ input)) e
          ∙ ap (drop s.tls.handshake) (none_of input z)
          ∙ drop-nil s.tls.handshake,
      rw (← drop_taken 4 input) (drop_less (length (take 4 input)) input (take_short 4 input)).1,
    )
  where
    none_of : (bs : Bytes) → length (take 4 bs) ≡ 0 → bs ≡ []
    none_of [] z = refl
    none_of (b ∷ bs) z = absurd (omega (arith, z))

pub plain-Decrypts : Decrypts (socket 3) plain (λ t. t.ready) coming unreceived
plain-Decrypts = record {
  takes = λ n s pos. give-Decrypts s.tls.ready n s pos refl;
  blocks = λ n t t' e h _. give-blocks t.ready n t t' e refl h;
  receives = λ s. receive-Decrypts s.tls.incoming s refl;
  decrypts = λ s. (
    append_assoc s.tls.ready _ _
        ∙ ap (λ z. s.tls.ready ++ z)
            (sym (drop-skip s.tls.handshake s.tls.incoming s.connection.input)),
    refl,
    omega arith,
  );
  goes_on = λ s. (refl, omega arith);
}
