-- ===== src/Ws/Frames/Progress/Examples.antt =====
-- A reader over bytes in memory at a concrete input.
use xx_url.Common.{
  ℕ, ◌≤◌, ◌<◌, ◌≡◌, refl, arith, some, Bytes, [], ◌∷◌, length, length-drop, Ends, leb, Bool-cases,
  inl, inr, true,
}
use xx_url.Io.Memory.{memory, at_end}
use xx_url.Ws.Concrete.{platform}
use xx_url.Ws.Frames.{next_frame}
use xx_url.Ws.Frames.Progress.{Drains, Expires, Between}
use xx_url.Ws.Frames.Progress.Rounds.{next_frame-Ends}
use xx_url.Ws.Socket.{from, new_options}

memory-type :
    (n : ℕ) (r : Bytes)
    → 0 < n
    → Ends
        (λ o t. (length t ≤ length r) × ((bytes : Bytes) → o ≡ some bytes → length t < length r))
        (memory.try_read_type n r)
memory-type n r pos = elim (Bool-cases (leb n (length r))) [
  | inl y ↦
      rw y
        (omega (arith, length-drop n r), λ bytes e. omega (arith, enough y, pos, length-drop n r))
  | inr k ↦ rw k (early r)
]
  where
    enough : leb n (length r) ≡ true → n ≤ length r
    enough y = ground (arith, y)

    early :
        (bytes : Bytes)
        → Ends
            (λ o t.
              (length {A = ℕ} t ≤ length r)
              × ((bytes : Bytes) → o ≡ some bytes → length {A = ℕ} t < length r))
            (at_end bytes, [])
    early [] = (omega arith, λ bytes e. cc (e))
    early (_ ∷ _) = tt

memory-number : (n : ℕ) (r : Bytes) → Ends (λ _ t. length t ≤ length r) (memory.read_be n r)
memory-number n r = elim (Bool-cases (leb n (length r))) [
  | inl y ↦ rw y (omega (arith, length-drop n r))
  | inr k ↦ rw k tt
]

memory-Drains : Drains memory (length {A = ℕ})
memory-Drains = record {
  types = memory-type;
  numbers = memory-number;
  full = λ n r. omega (arith, length-drop n r);
}

sink-Expires : Expires platform.out (length {A = ℕ})
sink-Expires = record {
  shuts = λ r. ((λ e. cc (e)), (λ e. cc (e)), omega arith);
  polls = λ r. ((λ e. cc (e)), (λ e. cc (e)), omega arith);
  times = λ duration task r c.
      let (p, q, less) = c r in ((λ e. p (ground (arith, e))), (λ e. q (ground (arith, e))), less);
}

-- A fragment of a message, a ping within it, and the message's end.
abbrev noisy : Bytes
noisy = 0x01 ∷ 0x01 ∷ 0x68 ∷ 0x89 ∷ 0x00 ∷ 0x80 ∷ 0x01 ∷ 0x69 ∷ []

next_frame-Ends_example :
    Ends (λ _ t. Between t) (next_frame platform 9 (from noisy new_options true))
next_frame-Ends_example =
    next_frame-Ends platform length memory-Drains sink-Expires (omega arith) 9
      (from noisy new_options true)
      (unfold from in record { starts = λ _. refl; data_kind = λ op b q. ground (arith, q) })
      (unfold from in omega arith)
