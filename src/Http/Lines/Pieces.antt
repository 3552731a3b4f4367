-- ===== src/Http/Lines/Pieces.antt =====
-- http/transfer.rs: a line that comes in three pieces.
use xx_url.Common.{
  ℕ, suc, ◌+◌, ◌<◌, ◌≡◌, refl, ap, ◌∙◌, arith, false, none, Bytes, [], ◌∷◌, ◌++◌, length, drop,
  drop-append, length-append, All, ◌==◌, ok, panic,
}
use xx_url.Http.Library.{HeaderLib, position, Searches}
use xx_url.Http.Lines.{find_line}
use xx_url.Io.{BufRead}

position-none : (bs : Bytes) → All (λ b. b == 10 ≡ false) bs → position (λ x. x == 10) bs ≡ none
unfolding position
position-none [] h = refl
position-none (b ∷ bs) h = rw (h.0, position-none bs h.1)

module _ {R H : Type 0} (io : BufRead R) (lib : HeaderLib H) (finds : Searches lib.memchr) where
  -- The second search without a newline counts the bytes of the first a second time, so the offset
  -- passes the end of the buffer when the third piece is shorter than the first: a slice panics.
  pub find_line-panic :
      (fuel : ℕ) (r r1 r2 : R) (first second third : Bytes)
      → io.buffer r ≡ first
      → io.fill r ≡ (ok (length second), r1)
      → io.buffer r1 ≡ first ++ second
      → io.fill r1 ≡ (ok (length third), r2)
      → io.buffer r2 ≡ (first ++ second) ++ third
      → All (λ b. b == 10 ≡ false) first
      → All (λ b. b == 10 ≡ false) second
      → 0 < length second
      → 0 < length third
      → length third < length first
      → (find_line io lib (suc (suc (suc fuel))) 0 r).0 ≡ panic
  unfolding find_line
  find_line-panic fuel r r1 r2 first second third b fill1 b1 fill2 b2 h1 h2 s2 s3 short =
      let none1 : lib.memchr 10 (io.buffer r) ≡ none =
        finds 10 (io.buffer r) ∙ ap (position (λ x. x == 10)) b ∙ position-none first h1 in
      let size : length (io.buffer r) ≡ length first = ap length b in
      let size1 : length (io.buffer r1) ≡ length first + length second =
        ap length b1 ∙ length-append first second in
      let size2 : length (io.buffer r2) ≡ (length first + length second) + length third =
        ap length b2
        ∙ length-append (first ++ second) third
        ∙ ap (λ n. n + length third) (length-append first second) in
      let start : 0 + length (io.buffer r) ≡ length first = omega (arith, size) in
      let none2 : lib.memchr 10 (drop (0 + length (io.buffer r)) (io.buffer r1)) ≡ none =
        finds 10 (drop (0 + length (io.buffer r)) (io.buffer r1))
        ∙ ap (position (λ x. x == 10)) (rw (start, b1) (drop-append first second))
        ∙ position-none second h2 in
      ground (arith, none1, none2, fill1, fill2, size, size1, size2)
