-- ===== src/Env/Shared.antt =====
-- The calls of env.rs, interleaved: `get_data` waits for the lock between its look at the thread's
-- copy and its use of the shared data.
use xx_url.Common.{
  ℕ, ◌+◌, ◌≤◌, ◌==◌, Option, none, some, ◌≡◌, refl, sym, ap, ◌∙◌, arith, if◌then◌else◌, Result, ok,
  err, panic, stuck, Bool-cases, Option-cases, inl, inr, ◌⊎◌, and_then-ok,
}
use xx_url.Env.{
  Data, EnvLib, Env, insert, get_global_data, create_thread_local_data, create_global_data,
  set_local,
}

-- Where a call of `get_data` stands.
pub data Pc (R C : Type 0) : Type 0 where
  start missed : Pc R C
  got done : Data R C → Pc R C

pub record System (W R C : Type 0) : Type 0 where
  pub env : Env W R C
  pub pc : ℕ → Pc R C

module _ {W Certs R C : Type 0} (lib : EnvLib W Certs R C) where
  -- One step of a call on a thread.
  pub data Move (thread : ℕ) (s : Env W R C) : Pc R C → Env W R C → Pc R C → Type 0 where
    hit : (d : Data R C) → s.local thread ≡ some d → Move thread s start s (done d)
    miss : s.local thread ≡ none → Move thread s start s missed
    fetch :
        (d : Data R C) (t : Env W R C)
        → create_thread_local_data lib s ≡ (ok d, t)
        → Move thread s missed t (got d)
    keep : (d : Data R C) → Move thread s (got d) (set_local lib thread d s) (done d)

  abbrev pub update : (ℕ → Pc R C) → ℕ → Pc R C → ℕ → Pc R C
  update f i p j = if j == i then p else f j

  -- Call `i` runs on the thread `thread_of i`.
  pub data Step (thread_of : ℕ → ℕ) (s : System W R C) : System W R C → Type 0 where
    pick :
        (i : ℕ) {t : Env W R C} {p : Pc R C}
        → Move (thread_of i) s.env (s.pc i) t p
        → Step thread_of s (record { env = t; pc = update s.pc i p })

  -- Nothing is shared yet, and no call has begun.
  abbrev pub fresh : W → System W R C
  fresh w = record {
    env = record { world = w; global = none; local = λ _. none; created = 0 };
    pc = λ _. start;
  }

  pub data Reach (thread_of : ℕ → ℕ) (w : W) : System W R C → Type 0 where
    here : Reach thread_of w (fresh w)
    next : {s t : System W R C} → Reach thread_of w s → Step thread_of s t → Reach thread_of w t

  -- What the shared data is after a call that found it or made it.
  abbrev Fetched : Env W R C → Data R C → Env W R C → Type 0
  Fetched s d t =
      (t.global ≡ some d)
      × (t.local ≡ s.local)
      × (((s.global ≡ some d) × (t.created ≡ s.created))
          ⊎ ((s.global ≡ none) × (t.created ≡ s.created + 1)))

  insert-Fetched :
      (s : Env W R C) (m : Result (Data R C) × W) (d : Data R C) (t : Env W R C)
      → s.global ≡ none
      → insert lib s m ≡ (ok d, t)
      → Fetched s d t
  insert-Fetched s (ok config, w) d t unset e = ground (arith, e, unset)
  insert-Fetched s (err _, w) d t unset e = absurd (ground (arith, e))
  insert-Fetched s (panic, w) d t unset e = absurd (ground (arith, e))
  insert-Fetched s (stuck, w) d t unset e = absurd (ground (arith, e))

  get_global_data-Fetched :
      (s : Env W R C) (d : Data R C) (t : Env W R C)
      → get_global_data lib s ≡ (ok d, t)
      → Fetched s d t
  unfolding get_global_data
  get_global_data-Fetched s d t e = elim (Option-cases s.global) [
    | inl unset ↦
        insert-Fetched s (create_global_data lib s.world) d t unset (sym (makes unset) ∙ e)
    | inr (g, set) ↦
        let same : (ok g, s) ≡ (ok d, t) = sym (finds g set) ∙ e in ground (arith, same, set)
  ]
    where
      makes :
          s.global ≡ none → get_global_data lib s ≡ insert lib s (create_global_data lib s.world)
      makes h =
          ap
            (λ (o : Option (Data R C)). elim o as (λ _. Result (Data R C) × Env W R C) [
              | some config ↦ (ok config, s)
              | none ↦ insert lib s (create_global_data lib s.world)
            ])
            h

      finds : (g : Data R C) → s.global ≡ some g → get_global_data lib s ≡ (ok g, s)
      finds g h =
          ap
            (λ (o : Option (Data R C)). elim o as (λ _. Result (Data R C) × Env W R C) [
              | some config ↦ (ok config, s)
              | none ↦ insert lib s (create_global_data lib s.world)
            ])
            h

  create_thread_local_data-Fetched :
      (s : Env W R C) (d : Data R C) (t : Env W R C)
      → create_thread_local_data lib s ≡ (ok d, t)
      → Fetched s d t
  unfolding create_thread_local_data
  create_thread_local_data-Fetched s d t e =
      let (g, u, first, last) = and_then-ok (get_global_data lib s) _ d t e in
      get_global_data-Fetched s d t (first ∙ last)

  -- Whoever holds the data, in a thread's copy or in a call, holds the shared one, made once.
  pub record Inv (s : System W R C) : Type 0 where
    pub copies : (thread : ℕ) (d : Data R C) → s.env.local thread ≡ some d → s.env.global ≡ some d
    pub fetched : (i : ℕ) (d : Data R C) → s.pc i ≡ got d → s.env.global ≡ some d
    pub returned : (i : ℕ) (d : Data R C) → s.pc i ≡ done d → s.env.global ≡ some d
    pub unmade : s.env.global ≡ none → s.env.created ≡ 0
    pub once : s.env.created ≤ 1

  Inv-fresh : (w : W) → Inv (fresh w)
  Inv-fresh w = record {
    copies = λ thread d e. absurd (ground (arith, e));
    fetched = λ i d e. absurd (ground (arith, e));
    returned = λ i d e. absurd (ground (arith, e));
    unmade = λ _. refl;
    once = omega arith;
  }

  -- Only the call `i` moves, to a place that holds the shared data or none, and the shared data
  -- stays once it is there.
  moved-Inv :
      (s : System W R C) (i : ℕ) (t : Env W R C) (p : Pc R C)
      → Inv s
      → ((d : Data R C) → s.env.global ≡ some d → t.global ≡ some d)
      → ((thread : ℕ) (d : Data R C) → t.local thread ≡ some d → t.global ≡ some d)
      → ((d : Data R C) → (p ≡ got d) ⊎ (p ≡ done d) → t.global ≡ some d)
      → (t.global ≡ none → t.created ≡ 0)
      → t.created ≤ 1
      → Inv (record { env = t; pc = update s.pc i p })
  moved-Inv s i t p inv stays copies holds unmade once = record {
    copies = copies;
    fetched = λ j d e. elim (Bool-cases (j == i)) [
      | inl y ↦ holds d (inl (ground (arith, e, y)))
      | inr x ↦ stays d (inv.fetched j d (ground (arith, e, x)))
    ];
    returned = λ j d e. elim (Bool-cases (j == i)) [
      | inl y ↦ holds d (inr (ground (arith, e, y)))
      | inr x ↦ stays d (inv.returned j d (ground (arith, e, x)))
    ];
    unmade = unmade;
    once = once;
  }

  set_local-Inv :
      (s : Env W R C) (thread : ℕ) (d : Data R C)
      → s.global ≡ some d
      → ((k : ℕ) (e : Data R C) → s.local k ≡ some e → s.global ≡ some e)
      → (set_local lib thread d s).global ≡ s.global
        × (set_local lib thread d s).created ≡ s.created
        × ((k : ℕ) (e : Data R C) → (set_local lib thread d s).local k ≡ some e → s.global ≡ some e)
  unfolding set_local
  set_local-Inv s thread d shared copies = elim (Option-cases (s.local thread)) [
    | inl unset ↦ rw (ap set_by unset) (
      refl,
      refl,
      λ k e h. elim (Bool-cases (k == thread)) [
        | inl y ↦ ground (arith, h, y, shared)
        | inr x ↦ copies k e (ground (arith, h, x))
      ],
    )
    | inr (e, set) ↦ rw (ap set_by set) (refl, refl, copies)
  ]
    where
      set_by : Option (Data R C) → Env W R C
      set_by o = elim o [
        | some _ ↦ s
        | none ↦ record s { local = λ t. if t == thread then some d else s.local t }
      ]

  Move-Inv :
      (s : System W R C) (i thread : ℕ) (p q : Pc R C) (t : Env W R C)
      → s.pc i ≡ p
      → Move thread s.env p t q
      → Inv s
      → Inv (record { env = t; pc = update s.pc i q })
  Move-Inv s i thread p q t at (hit d h) inv =
      moved-Inv s i s.env (done d) inv (λ d e. e) inv.copies
        (λ e k. ground (arith, k, inv.copies thread d h)) inv.unmade inv.once
  Move-Inv s i thread p q t at (miss h) inv =
      moved-Inv s i s.env missed inv (λ d e. e) inv.copies (λ e k. absurd (ground (arith, k)))
        inv.unmade inv.once
  Move-Inv s i thread p q t at (fetch d u h) inv =
      let f = create_thread_local_data-Fetched s.env d u h in
      moved-Inv s i u (got d) inv (stays f)
        (λ k e g. stays f e (inv.copies k e (ap (λ l. l k) (sym f.1) ∙ g)))
        (λ e k. ground (arith, k, f)) (λ z. absurd (ground (arith, z, f)))
        (ground (arith, f, inv.once, inv.unmade))
    where
      stays : Fetched s.env d u → (e : Data R C) → s.env.global ≡ some e → u.global ≡ some e
      stays f e k = elim f.2 [
        | inl a ↦ f.0 ∙ sym a.0 ∙ k
        | inr a ↦ absurd (ground (arith, sym a.0 ∙ k))
      ]
  Move-Inv s i thread p q t at (keep d) inv =
      let shared = inv.fetched i d at in
      let f = set_local-Inv s.env thread d shared inv.copies in
      moved-Inv s i (set_local lib thread d s.env) (done d) inv (λ e k. f.0 ∙ k)
        (λ k e h. f.0 ∙ f.2 k e h) (λ e k. ground (arith, k, f.0, shared))
        (λ z. f.1 ∙ inv.unmade (sym f.0 ∙ z)) (omega (arith, f.1, inv.once))

  Reach-Inv : {thread_of : ℕ → ℕ} {w : W} (s : System W R C) → Reach thread_of w s → Inv s
  Reach-Inv {w} _ here = Inv-fresh w
  Reach-Inv {thread_of} _ (next {s} r (pick i {t} {p} m)) =
      Move-Inv s i (thread_of i) (s.pc i) p t refl m (Reach-Inv s r)

  -- However the calls of get_data interleave on any threads, until the data is freed: calls that
  -- have returned gave the same data, and it was made at most once.
  pub get_data-once :
      {thread_of : ℕ → ℕ} {w : W} (s : System W R C) (i j : ℕ) (d e : Data R C)
      → Reach thread_of w s
      → s.pc i ≡ done d
      → s.pc j ≡ done e
      → (d ≡ e) × (s.env.created ≤ 1)
  get_data-once s i j d e r at_i at_j =
      let inv = Reach-Inv s r in
      (ground (arith, inv.returned i d at_i, inv.returned j e at_j), inv.once)
