-- ===== src/Ws/Reader/Discard.antt =====
-- `discard_frame_data`: what it skips, and where it asks for more than the frame.
use xx_url.Common.{
  ℕ, zero, suc, ◌-◌, ◌≤◌, ◌<◌, ◌≡◌, ◌≢◌, refl, sym, ap, ap₂, ◌∙◌, arith, Bytes, [], ◌∷◌, ◌++◌,
  length, length-append, drop, ok, err, none, some, checked_sub,
}
use native.Mathlib.Decide.{dec_lt}
use xx_url.Errors.{kind, unexpected_eof}
use xx_url.Io.{BufRead}
use xx_url.Io.Delivery.{Buffers}
use xx_url.Ws.Reader.{discard_frame_data}

checked_sub-lt : (a b : ℕ) → a < b → checked_sub a b ≡ none
checked_sub-lt a b h = ground arith

checked_sub-le : (a b : ℕ) → b ≤ a → checked_sub a b ≡ some (a - b)
checked_sub-le a b h = ground arith

drop-append_beyond :
    (n : ℕ) (xs ys : Bytes) → length xs ≤ n → drop n (xs ++ ys) ≡ drop (n - length xs) ys
drop-append_beyond n [] ys h = ap (λ k. drop k ys) (omega arith)
drop-append_beyond zero (x ∷ xs) ys h = absurd (omega arith)
drop-append_beyond (suc n) (x ∷ xs) ys h =
    drop-append_beyond n xs ys (omega arith) ∙ ap (λ k. drop k ys) (omega arith)

drop-append_within : (n : ℕ) (xs ys : Bytes) → n ≤ length xs → drop n (xs ++ ys) ≡ drop n xs ++ ys
drop-append_within zero xs ys h = refl
drop-append_within (suc n) [] ys h = absurd (omega arith)
drop-append_within (suc n) (x ∷ xs) ys h = drop-append_within n xs ys (omega arith)

ne-nil : (xs : Bytes) → 0 < length xs → xs ≢ []
ne-nil [] h e = absurd (omega arith)
ne-nil (x ∷ xs) h e = cc

nil-append : (xs ys : Bytes) → length xs ≡ 0 → xs ++ ys ≡ ys
nil-append [] ys h = refl
nil-append (x ∷ xs) ys h = absurd (omega arith)

module _ {R : Type 0} {io : BufRead R} {unread : R → Bytes} (b : Buffers io unread) where
  -- The bytes that are still to be read.
  abbrev remaining : R → Bytes
  remaining r = io.buffer r ++ unread r

  -- The frame ends inside the buffer.
  discard_within :
      (fuel len : ℕ) (r : R)
      → len < length (io.buffer r)
      → (discard_frame_data io (suc fuel) len r ≡ (ok 0, io.consume len r))
        × (remaining (io.consume len r) ≡ drop len (remaining r))
  unfolding discard_frame_data
  discard_within fuel len r h =
      let (kept, later) = b.consumes len r (omega arith) in
      (
        ground arith,
        ap₂ ◌++◌ kept later ∙ sym (drop-append_within len (io.buffer r) (unread r) (omega arith)),
      )

  -- The next round, with the bytes that `fill` brought.
  discard_round :
      (fuel len : ℕ) (r : R)
      → length (io.buffer r) ≤ len
      → len < length (remaining r)
      → (r' : R) × (discard_frame_data io (suc fuel) len r
          ≡ discard_frame_data io fuel (len - length (io.buffer r)) r')
        × (0 < length (io.buffer r'))
        × (remaining r' ≡ unread r)
  unfolding discard_frame_data
  discard_round fuel len r h more =
      let (emptied, kept) = b.discards r in
      let (new, r', filled, holds, rest, progress) = b.fills (io.discard r) in
      let left : 0 < length (unread r) = omega (arith, length-append (io.buffer r) (unread r)) in
      let some_new : 0 < length new =
        progress emptied (λ e. ne-nil (unread r) left (sym kept ∙ e)) in
      let buffered : io.buffer r' ≡ new = holds ∙ ap (λ bs. bs ++ new) emptied in
      (
        r',
        ground (arith, filled, some_new),
        rw buffered some_new,
        ap (λ bs. bs ++ unread r') buffered ∙ sym rest ∙ kept,
      )

  discard_buffered :
      (fuel len : ℕ) (r : R)
      → len < fuel
      → 0 < length (io.buffer r)
      → len < length (remaining r)
      → (r' : R) × (discard_frame_data io fuel len r ≡ (ok 0, r'))
        × (remaining r' ≡ drop len (remaining r))
  discard_buffered zero len r hf hb h = absurd (omega arith)
  discard_buffered (suc fuel) len r hf hb h = elim (dec_lt len (length (io.buffer r))) [
    | yes within ↦
        let (done, dropped) = discard_within fuel len r within in (io.consume len r, done, dropped)
    | no beyond ↦
        let (r1, round, buffered, same) = discard_round fuel len r (omega arith) h in
        let room : len - length (io.buffer r) < length (remaining r1) =
          rw same (omega (arith, length-append (io.buffer r) (unread r))) in
        let (r2, done, dropped) =
          discard_buffered fuel (len - length (io.buffer r)) r1 (omega arith) buffered room in
        (
          r2,
          round ∙ done,
          dropped
              ∙ ap (drop (len - length (io.buffer r))) same
              ∙ sym (drop-append_beyond len (io.buffer r) (unread r) (omega arith)),
        )
  ]

  -- Where the stream goes on behind the frame, `discard_frame_data` ends, and takes exactly the
  -- rest of the frame from the stream.
  pub discard_frame_data_lem :
      (len : ℕ) (r : R)
      → len < length (io.buffer r ++ unread r)
      → (r' : R) × (discard_frame_data io (suc (suc len)) len r ≡ (ok 0, r'))
        × (io.buffer r' ++ unread r' ≡ drop len (io.buffer r ++ unread r))
  discard_frame_data_lem len r h = elim (dec_lt 0 (length (io.buffer r))) [
    | yes some_buffered ↦ discard_buffered (suc (suc len)) len r (omega arith) some_buffered h
    | no nothing ↦
        let empty : length (io.buffer r) ≡ 0 = omega arith in
        let whole : len - length (io.buffer r) ≡ len = omega arith in
        let (r1, round, buffered, same) = discard_round (suc len) len r (omega arith) h in
        let (r2, done, dropped) =
          discard_buffered (suc len) len r1 (omega arith) buffered
            (rw same (omega (arith, length-append (io.buffer r) (unread r)))) in
        (
          r2,
          round ∙ ap (λ k. discard_frame_data io (suc len) k r1) whole ∙ done,
          dropped ∙ ap (drop len) (same ∙ sym (nil-append (io.buffer r) (unread r) empty)),
        )
  ]

  -- Where the rest of the frame is all that the buffer holds and the peer sends nothing more,
  -- the frame is there and still an early end is reported.
  pub discard_frame_data_at_end :
      (fuel : ℕ) (r : R)
      → unread r ≡ []
      → (discard_frame_data io (suc fuel) (length (io.buffer r)) r).0 ≡ err (kind unexpected_eof)
  unfolding discard_frame_data
  discard_frame_data_at_end fuel r e =
      let (emptied, kept) = b.discards r in
      let (new, r', filled, holds, rest, progress) = b.fills (io.discard r) in
      let nothing : length new ≡ 0 =
        omega (arith, ap length (sym (kept ∙ e) ∙ rest), length-append new (unread r')) in
      ground (arith, filled, nothing)
