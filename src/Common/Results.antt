-- ===== src/Common/Results.antt =====
-- Fallible and stateful code: the outcome of a call, and calls that change a state.
use mathlib.Core.Path.{◌≡◌, refl, sym, subst}
use native.Mathlib.Omega.{arith}
use xx_url.Errors.{Error}

-- `panic` is a Rust panic: a failed `unwrap`, an index out of range, `unreachable!()`.
-- `stuck` is no outcome of the code: the fuel of a modelled loop ran out.
pub data Result {ℓ} (A : Type ℓ) : Type ℓ where
  ok : A → Result A
  err : Error → Result A
  panic stuck : Result A

abbrev pub bind_result {ℓ κ} : {A : Type ℓ} {B : Type κ} → Result A → (A → Result B) → Result B
bind_result (ok a) f = f a
bind_result (err e) f = err e
bind_result panic f = panic
bind_result stuck f = stuck

-- A method with `&mut` access to `S`: the state stays changed when the method fails.
abbrev pub M : Type 0 → Type 0 → Type 0
M S A = S → Result A × S

module _ {S A B : Type 0} where
  abbrev pub and_then : Result A × S → (A → M S B) → Result B × S
  and_then (ok a, s) f = f a s
  and_then (err e, s) f = (err e, s)
  and_then (panic, s) f = (panic, s)
  and_then (stuck, s) f = (stuck, s)

  -- A sequence that succeeds had a first part that did.
  pub and_then-ok :
      (m : Result A × S) (f : A → M S B) (b : B) (s : S)
      → and_then m f ≡ (ok b, s)
      → (a : A) × (t : S) × (m ≡ (ok a, t)) × (f a t ≡ (ok b, s))
  and_then-ok (ok a, t) f b s e = (a, t, refl, e)
  and_then-ok (err _, t) f b s e = absurd (ground (arith, e))
  and_then-ok (panic, t) f b s e = absurd (ground (arith, e))
  and_then-ok (stuck, t) f b s e = absurd (ground (arith, e))

  infixl 5 ◌>>=◌
  abbrev pub ◌>>=◌ : M S A → (A → M S B) → M S B
  ◌>>=◌ m f s = and_then (m s) f

infixl 5 ◌>>◌
abbrev pub ◌>>◌ : {S B : Type 0} → M S (Unit {0}) → M S B → M S B
◌>>◌ m k s = and_then (m s) (λ _. k)

module _ {S : Type 0} where
  abbrev pub pure : {A : Type 0} → A → M S A
  pure a s = (ok a, s)

  abbrev pub fail : {A : Type 0} → Error → M S A
  fail e s = (err e, s)

  abbrev pub abort : {A : Type 0} → M S A
  abort s = (panic, s)

  abbrev pub get : M S S
  get s = (ok s, s)

  abbrev pub put : S → M S (Unit {0})
  put t s = (ok tt, t)

  abbrev pub lift : {A : Type 0} → Result A → M S A
  lift r s = (r, s)

module _ {S A : Type 0} where
  -- The call succeeds with what `P` says, or fails with an error: no panic, and enough fuel.
  abbrev pub Ends : (A → S → Type 0) → Result A × S → Type 0
  Ends P (ok a, s) = P a s
  Ends P (err _, s) = Unit
  Ends P (panic, s) = ⊥
  Ends P (stuck, s) = ⊥

  pub Ends-weaken :
      (P Q : A → S → Type 0) (m : Result A × S)
      → Ends P m
      → ((a : A) (s : S) → P a s → Q a s)
      → Ends Q m
  Ends-weaken P Q (ok a, s) h k = k a s h
  Ends-weaken P Q (err _, s) h k = tt
  Ends-weaken P Q (panic, s) h k = h
  Ends-weaken P Q (stuck, s) h k = h

  pub Ends-same : (P : A → S → Type 0) (m n : Result A × S) → m ≡ n → Ends P n → Ends P m
  Ends-same P m n e h = subst (Ends P) (sym e) h

module _ {S A B : Type 0} where
  pub Ends-and_then :
      (P : A → S → Type 0) (Q : B → S → Type 0) (m : Result A × S) (f : A → M S B)
      → Ends P m
      → ((a : A) (s : S) → P a s → Ends Q (f a s))
      → Ends Q (and_then m f)
  Ends-and_then P Q (ok a, s) f h k = k a s h
  Ends-and_then P Q (err _, s) f h k = tt
  Ends-and_then P Q (panic, s) f h k = absurd h
  Ends-and_then P Q (stuck, s) f h k = absurd h
