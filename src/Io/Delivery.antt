-- ===== src/Io/Delivery.antt =====
-- What the source relies on: a reader that delivers the bytes of its peer without an I/O error.
use xx_url.Common.{
  ◌≢◌, ◌≤◌, drop, min, ◌==◌, if◌then◌else◌, ℕ, ◌<◌, ◌≡◌, [], ◌++◌, Bytes, none, some, ok, length,
}
use xx_url.Common.BigEndian.{from_be}
use xx_url.Io.{BufRead}

-- `pending r` is what the peer has sent, or will send before it closes, and nobody has read.
pub record Delivers {R : Type 0} (io : BufRead R) (pending : R → Bytes) : Type 0 where
  pub read_type :
      (r : R) (front rest : Bytes)
      → pending r ≡ front ++ rest
      → (r' : R) × (io.try_read_type (length front) r ≡ (ok (some front), r')) × (pending r' ≡ rest)
  pub read_type_end :
      (r : R) (n : ℕ)
      → 0 < n
      → pending r ≡ []
      → (r' : R) × (io.try_read_type n r ≡ (ok none, r')) × (pending r' ≡ [])
  pub read_number :
      (r : R) (front rest : Bytes)
      → pending r ≡ front ++ rest
      → (r' : R) × (io.read_be (length front) r ≡ (ok (from_be front), r')) × (pending r' ≡ rest)
  pub read_full :
      (r : R) (front rest : Bytes)
      → pending r ≡ front ++ rest
      → (r' : R) × (io.read_fully (length front) r ≡ (ok front, r')) × (pending r' ≡ rest)
  pub window :
      (buf limit : ℕ)
      → io.read_into buf limit ≡ (if min buf limit == 0 then none else some (min buf limit))

-- The buffer of such a reader: `unread r` is what comes behind the buffered bytes.
pub record Buffers {R : Type 0} (io : BufRead R) (unread : R → Bytes) : Type 0 where
  -- `fill` appends what it reads to the buffer, and says how much that is.
  pub fills :
      (r : R)
      → (new : Bytes) × (r' : R) × (io.fill r ≡ (ok (length new), r'))
        × (io.buffer r' ≡ io.buffer r ++ new)
        × (unread r ≡ new ++ unread r')
        × (io.buffer r ≡ [] → unread r ≢ [] → 0 < length new)
  pub consumes :
      (n : ℕ) (r : R)
      → n ≤ length (io.buffer r)
      → (io.buffer (io.consume n r) ≡ drop n (io.buffer r)) × (unread (io.consume n r) ≡ unread r)
  pub discards : (r : R) → (io.buffer (io.discard r) ≡ []) × (unread (io.discard r) ≡ unread r)
