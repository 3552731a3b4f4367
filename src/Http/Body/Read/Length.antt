-- ===== src/Http/Body/Read/Length.antt =====
-- http/body.rs: a body with a `Content-Length`.
use xx_url.Common.{
  ℕ, ◌+◌, ◌-◌, ◌%◌, ◌^◌, ◌≤◌, ◌<◌, ◌≡◌, ◌⊎◌, inl, inr, refl, sym, ap, ◌∙◌, arith, none, some, Bytes,
  List, [], ◌∷◌, ◌++◌, and_then-ok, length, length-append, min, ◌==◌, if◌then◌else◌, Bool-cases,
  Result, ok, err, panic, stuck, M, ◌>>=◌, pure,
}
use xx_url.Http.Body.{
  Body, Transfer, empty, connection, remaining_length, chunks, trailers, remaining, read_bytes,
}
use xx_url.Http.Body.Read.{read_some, read, left_of}
use xx_url.Http.Library.{HeaderLib}
use xx_url.Io.{BufRead}

-- A read returns no more than was asked for, and an empty buffer is not filled.
pub record IsBounded {R : Type 0} (io : BufRead R) : Type 0 where
  pub read_most :
      (n : ℕ) (r r' : R) (bytes : Bytes) → io.read n r ≡ (ok bytes, r') → length bytes ≤ n
  pub inner_most :
      (n : ℕ) (r r' : R) (bytes : Bytes) → io.read_inner n r ≡ (ok bytes, r') → length bytes ≤ n
  pub window :
      (buf limit : ℕ)
      → io.read_into buf limit ≡ (if min buf limit == 0 then none else some (min buf limit))

module _ {R H : Type 0} {io : BufRead R} (lib : HeaderLib H) (bounded : IsBounded io) where
  read_bytes_most :
      (n : ℕ) (r r' : R) (bytes : Bytes) → read_bytes io lib n r ≡ (ok bytes, r') → length bytes ≤ n
  unfolding read_bytes
  read_bytes_most n r r' bytes e =
      ground (arith, e, bounded.inner_most n r r' bytes, bounded.read_most n r r' bytes)

  -- The outcome of the read underneath, and what `read_some` makes of it.
  read_some-from :
      (more : ℕ → Transfer) (done : Transfer) (n buf room : ℕ) (body body' : Body R) (bytes : Bytes)
      → (outcome : Result Bytes × R) → read_bytes io lib room body.reader ≡ outcome
      → room ≤ n
      → io.read_into buf n ≡ some room
      → read_some io lib more done n buf body ≡ (ok bytes, body')
      → (length bytes ≤ n) × (body'.transfer ≡ left_of more done n (length bytes))
  unfolding read_some
  read_some-from more done n buf room body body' bytes (ok front, r) q small window e =
      ground (arith, q, window, e, read_bytes_most room body.reader r front q)
  read_some-from more done n buf room body body' bytes (err error, r) q small window e =
      absurd (ground (arith, q, window, e))
  read_some-from more done n buf room body body' bytes (panic, r) q small window e =
      absurd (ground (arith, q, window, e))
  read_some-from more done n buf room body body' bytes (stuck, r) q small window e =
      absurd (ground (arith, q, window, e))

  -- Either nothing was wanted, or the bytes that were read are taken off.
  read_some_lem :
      (more : ℕ → Transfer) (done : Transfer) (n buf : ℕ) (body body' : Body R) (bytes : Bytes)
      → read_some io lib more done n buf body ≡ (ok bytes, body')
      → (length bytes ≤ n)
        × (((bytes ≡ []) × (body' ≡ body)) ⊎ (body'.transfer ≡ left_of more done n (length bytes)))
  unfolding read_some
  read_some_lem more done n buf body body' bytes e = elim (Bool-cases (min buf n == 0)) [
    | inl nothing ↦
        let none_wanted : io.read_into buf n ≡ none = bounded.window buf n ∙ rw nothing in
        (
          ground (arith, none_wanted, e),
          inl (ground (arith, none_wanted, e), ground (arith, none_wanted, e)),
        )
    | inr some_wanted ↦
        let window : io.read_into buf n ≡ some (min buf n) =
          bounded.window buf n ∙ rw some_wanted in
        let (most, taken) =
          read_some-from more done n buf (min buf n) body body' bytes
            (read_bytes io lib (min buf n) body.reader) refl (omega arith) window e in
        (most, inr taken)
  ]

  left_of-remaining :
      (n read : ℕ) (body : Body R)
      → n < 2 ^ 64
      → read ≤ n
      → body.transfer ≡ left_of remaining_length empty n read
      → remaining body ≡ some (n - read)
  unfolding remaining
  left_of-remaining n read body small most e =
      let wrapped : (n + 2 ^ 64 - read) % 2 ^ 64 ≡ n - read = omega arith in
      ground (arith, e, wrapped)

  -- One read of a body of which `n` bytes are left.
  read-counts :
      (rounds fuel n buf : ℕ) (body body' : Body R) (bytes : Bytes)
      → n < 2 ^ 64
      → remaining body ≡ some n
      → read io lib rounds fuel buf body ≡ (ok bytes, body')
      → (length bytes ≤ n) × (remaining body' ≡ some (n - length bytes))
  unfolding read remaining
  read-counts rounds fuel n buf body body' bytes small e q = by_transfer body.transfer refl
    where
      by_transfer :
          (t : Transfer)
          → body.transfer ≡ t
          → (length bytes ≤ n) × (remaining body' ≡ some (n - length bytes))
      by_transfer empty t = (ground (arith, t, e, q), ground (arith, t, e, q))
      by_transfer (remaining_length m) t =
          let same : m ≡ n = ground (arith, t, e) in
          let run : read_some io lib remaining_length empty m buf body ≡ (ok bytes, body') =
            ground (arith, t, q) in
          let (most, how) = read_some_lem remaining_length empty m buf body body' bytes run in
          elim how [
            | inl (nothing, kept) ↦
                (omega (arith, same, most), rw (nothing, kept) (e ∙ ap some (omega arith)))
            | inr taken ↦ (
              omega (arith, same, most),
              left_of-remaining n (length bytes) body' small (omega (arith, same, most))
                  (taken ∙ ap (λ k. left_of remaining_length empty k (length bytes)) same),
            )
          ]
      by_transfer connection t = absurd (ground (arith, t, e))
      by_transfer (chunks _) t = absurd (ground (arith, t, e))
      by_transfer trailers t = absurd (ground (arith, t, e))

  -- A body is read into buffers of these sizes, one after the other.
  unfoldable pub read_each : ℕ → ℕ → List ℕ → M (Body R) Bytes
  read_each rounds fuel [] = pure []
  read_each rounds fuel (buf ∷ bufs) = do
    front ← read io lib rounds fuel buf
    behind ← read_each rounds fuel bufs
    pure (front ++ behind)

  -- A body that announces `n` bytes is read into buffers of whatever sizes, and all reads succeed:
  -- the bytes that were read and those that are still announced are `n` together, so no more than
  -- that is ever read.
  pub read_each-counts :
      (rounds fuel : ℕ) (bufs : List ℕ) (n : ℕ) (body body' : Body R) (bytes : Bytes)
      → n < 2 ^ 64
      → remaining body ≡ some n
      → read_each rounds fuel bufs body ≡ (ok bytes, body')
      → (k : ℕ) × (remaining body' ≡ some k) × (length bytes + k ≡ n)
  unfolding read_each
  read_each-counts rounds fuel [] n body body' bytes small e q =
      (n, ground (arith, e, q), ground (arith, q))
  read_each-counts rounds fuel (buf ∷ bufs) n body body' bytes small e q =
      let (front, body1, first, more) =
        and_then-ok (read io lib rounds fuel buf body) _ bytes body' q in
      let (behind, body2, others, ends) =
        and_then-ok (read_each rounds fuel bufs body1) _ bytes body' more in
      let (most, left) = read-counts rounds fuel n buf body body1 front small e first in
      let (k, announced, total) =
        read_each-counts rounds fuel bufs (n - length front) body1 body2 behind (omega arith) left
          others in
      let joined : front ++ behind ≡ bytes = ground (arith, ends) in
      let same : body2 ≡ body' = ap (λ (t : Result Bytes × Body R). t.1) ends in
      (
        k,
        ap remaining (sym same) ∙ announced,
        omega (arith, ap length (sym joined), length-append front behind, total, most),
      )
