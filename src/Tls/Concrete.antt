-- ===== src/Tls/Concrete.antt =====
-- A session that encrypts nothing, over a socket in memory. It shows that the laws can be met.
use xx_url.Common.{
  ℕ, zero, suc, ◌-◌, ◌≤◌, ◌<◌, min, ◌==◌, true, not, is_nil, Bytes, length, take, drop, [], ◌∷◌,
  ◌++◌, ◌≡◌, refl, arith, Result, ok, err, panic, stuck, M, ◌⊎◌, inl, inr, length-drop,
}
use xx_url.Errors.{external, kind, would_block}
use xx_url.Tls.{ConnLib, Session, TlsConn}

-- What the peer has sent, and what it was sent.
pub record Socket : Type 0 where
  pub input : Bytes
  pub output : Bytes

-- A socket that takes `most` bytes at a time, and is always ready.
abbrev pub socket : ℕ → ConnLib Socket
socket most = record {
  recv = λ n dont_wait c. (ok (take n c.input), record c { input = drop n c.input });
  send = λ bytes dont_wait c.
      (ok (length (take most bytes)), record c { output = c.output ++ take most bytes });
  send_vectored = λ bufs dont_wait c. (ok 0, c);
  poll = λ flags c. (ok flags, c);
  check_interrupt = λ c. (ok tt, c);
}

-- The handshake takes the first bytes of the peer, as many as `handshake` says.
pub record Plain : Type 0 where
  pub handshake : ℕ
  pub incoming : Bytes
  pub ready : Bytes
  pub pending : Bytes

abbrev pub skip : ℕ → Bytes → ℕ
skip zero bytes = zero
skip (suc n) [] = suc n
skip (suc n) (_ ∷ bytes) = skip n bytes

module _ {W : Type 0} where
  abbrev received : Plain → Result Bytes × W → Result ℕ × TlsConn W Plain
  received t (ok bytes, w) =
      (ok (length bytes), record { connection = w; tls = record t { incoming = bytes } })
  received t (err e, w) = (err e, record { connection = w; tls = t })
  received t (panic, w) = (panic, record { connection = w; tls = t })
  received t (stuck, w) = (stuck, record { connection = w; tls = t })

  abbrev handed : Plain → Result ℕ × W → Result ℕ × TlsConn W Plain
  handed t (ok n, w) =
      (ok n, record { connection = w; tls = record t { pending = drop n t.pending } })
  handed t (err e, w) = (err e, record { connection = w; tls = t })
  handed t (panic, w) = (panic, record { connection = w; tls = t })
  handed t (stuck, w) = (stuck, record { connection = w; tls = t })

  -- It refuses to receive before what it holds is processed.
  abbrev pub receive_into : Bytes → (ℕ → M W Bytes) → M (TlsConn W Plain) ℕ
  receive_into [] rd s = received s.tls (rd 4 s.connection)
  receive_into (_ ∷ _) rd s = (err (external 0), s)

abbrev pub give : Bytes → ℕ → Plain → Result Bytes × Plain
give [] n t = (err (kind would_block), t)
give (b ∷ bs) n t = (ok (take n (b ∷ bs)), record t { ready = drop n (b ∷ bs) })

abbrev pub limit : ℕ
limit = 8

abbrev pub room : Plain → Bytes → ℕ
room t buf = min (length buf) (limit - length t.pending)

abbrev pub plain : Session Plain
plain = record {
  is_handshaking = λ t. not (t.handshake == 0);
  wants_read = λ _. true;
  wants_write = λ t. not (is_nil t.pending);
  read_tls = λ rd s. receive_into s.tls.incoming rd s;
  write_tls = λ wr s. handed s.tls (wr.write s.tls.pending s.connection);
  process_new_packets = λ t.
      let opened = t.ready ++ drop t.handshake t.incoming in
      (
        ok (length opened),
        record t { handshake = skip t.handshake t.incoming; incoming = []; ready = opened },
      );
  read = λ n t. give t.ready n t;
  write = λ buf t. (ok (room t buf), record t { pending = t.pending ++ take (room t buf) buf });
  write_vectored = λ bufs t. (ok 0, t);
}

pub take_short : (n : ℕ) (bs : Bytes) → length (take n bs) ≤ length bs
take_short zero bs = omega arith
take_short (suc n) [] = omega arith
take_short (suc n) (b ∷ bs) = omega (arith, take_short n bs)

pub drop_less :
    (k : ℕ) (bs : Bytes)
    → k ≤ length bs
    → (length (drop k bs) ≤ length bs) × ((k ≡ 0) ⊎ (length (drop k bs) < length bs))
drop_less zero bs h = (omega arith, inl refl)
drop_less (suc k) bs h =
    (omega (arith, length-drop (suc k) bs), inr (omega (arith, length-drop (suc k) bs)))

pub drop_taken : (n : ℕ) (bs : Bytes) → drop (length (take n bs)) bs ≡ drop n bs
drop_taken zero bs = refl
drop_taken (suc n) [] = refl
drop_taken (suc n) (b ∷ bs) = drop_taken n bs
