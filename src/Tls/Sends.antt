-- ===== src/Tls/Sends.antt =====
-- The session that encrypts nothing meets what is asked of sending.
use xx_url.Common.{
  ℕ, zero, suc, ◌+◌, ◌≤◌, ◌<◌, Bytes, length, take, drop, [], ◌∷◌, ◌++◌, ◌≡◌, ◌≢◌, refl, sym, ap,
  ◌∙◌, arith, ok, append-nil, append_assoc, take-append-drop, length-drop, length-take,
  length-append,
}
use xx_url.Tls.{ConnLib, TlsConn, adapter_write}
use xx_url.Tls.Send.{Encrypts}
use xx_url.Tls.Halves.{BufLib, HalfLib}
use xx_url.Tls.Halves.Flush.{HandsOut}
use xx_url.Tls.Concrete.{Socket, socket, Plain, limit, room, plain, drop_taken}

nothing_left : (bs : Bytes) → length bs ≡ 0 → bs ≡ []
nothing_left [] e = refl
nothing_left (b ∷ bs) e = absurd (omega arith)

-- A socket or a buffer that takes `most` bytes at a time moves a front of what is pending.
hand-moves :
    (most : ℕ) (bs : Bytes)
    → 0 < most
    → bs ≢ []
    → (take most bs ++ drop (length (take most bs)) bs ≡ bs)
      × (0 < length (take most bs))
      × (length (drop (length (take most bs)) bs) < length bs)
hand-moves most [] pos some_bytes = absurd (some_bytes refl)
hand-moves zero (b ∷ bs) pos some_bytes = absurd (omega arith)
hand-moves (suc n) (b ∷ bs) pos some_bytes = (
  rw (drop_taken n bs) (take-append-drop (suc n) (b ∷ bs)),
  omega arith,
  omega (arith, length-drop (length (take n bs)) bs),
)

room_positive : (t : Plain) (buf : Bytes) → room t buf ≡ 0 → buf ≢ [] → t.pending ≢ []
room_positive t buf z some_bytes none_pending =
    some_bytes (nothing_left buf (ground (arith, none_pending)))

pub plain-Encrypts : Encrypts (socket 3) plain (λ c. c.output) (λ t. t.pending) (λ bs. bs) limit
unfolding adapter_write
plain-Encrypts = record {
  wants = λ t. refl;
  encrypts = λ buf s few. (
    omega arith,
    sym (append_assoc s.connection.output s.tls.pending _),
    omega (
      arith,
      few,
      length-append s.tls.pending (take (room s.tls buf) buf),
      length-take (room s.tls buf) buf (omega arith),
    ),
    room_positive s.tls buf,
  );
  hands_out = λ s some_pending.
      let m = hand-moves 3 s.tls.pending (omega arith) some_pending in
      (append_assoc s.connection.output _ _ ∙ ap (λ z. s.connection.output ++ z) m.0, m.1, m.2);
  goes_on = λ c. refl;
}

-- A socket that takes all of a buffer at once, and a buffer of two bytes.
abbrev pub whole : ConnLib Socket
whole = record (socket 3) {
  send = λ bytes dont_wait c. (ok (length bytes), record c { output = c.output ++ bytes });
}

abbrev pub small : BufLib Bytes
small = record {
  empty = [];
  writer = record {
    write = λ bytes b. (ok (length (take 2 bytes)), b ++ take 2 bytes);
    write_vectored = λ bufs b. (ok 0, b);
    flush = λ b. (ok tt, b);
  };
  filled = λ b. b;
}

-- Nobody else uses the session.
abbrev pub alone : {C : Type 0} → HalfLib C Plain
alone = record { lock = λ s. (ok tt, s) }

-- The other half queues a byte before each use, as long as the handshake is not over.
abbrev queue_more : {C : Type 0} → ℕ → TlsConn C Plain → TlsConn C Plain
queue_more zero s = s
queue_more (suc left) s =
    let t : Plain = s.tls in
    record s { tls = record t { handshake = left; pending = t.pending ++ (0 ∷ []) } }

abbrev pub busy : {C : Type 0} → HalfLib C Plain
busy = record { lock = λ s. (ok tt, queue_more s.tls.handshake s) }

abbrev pub owed : Plain → ℕ
owed t = length t.pending + t.handshake

queued :
    (h : ℕ) (s : TlsConn Socket Plain)
    → h ≡ s.tls.handshake
    → let t = queue_more h s in
      (t.connection.output ≡ s.connection.output)
      × (owed t.tls ≤ owed s.tls)
      × ((more : Bytes) × (t.tls.pending ≡ s.tls.pending ++ more))
queued zero s e = (refl, omega arith, ([], sym (append-nil s.tls.pending)))
queued (suc left) s e =
    (refl, omega (arith, e, length-append s.tls.pending (0 ∷ [])), (0 ∷ [], refl))

pub plain-HandsOut : HandsOut whole small busy plain (λ c. c.output) (λ t. t.pending) owed
plain-HandsOut = record {
  wants = λ t. refl;
  locks = λ s. queued s.tls.handshake s refl;
  moves = λ t some_pending.
      let m = hand-moves 2 t.pending (omega arith) some_pending in (m.0, omega (arith, m.2));
  sends = λ bytes c. refl;
}
