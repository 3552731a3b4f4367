-- ===== src/File/Uses.antt =====
-- file/stream.rs: a program that opens a stream, and then reads and seeks as it likes.
use xx_url.Common.{ℕ, ◌^◌, ◌<◌, ◌≡◌, refl, ◌∙◌, arith, Option, some, Bytes, ok}
use xx_url.File.{FileLib, FileStream, SeekFrom, open_stream, read, seek}
use xx_url.File.Range.{IsFile, IsWithin, open_stream-IsWithin, read-IsWithin, seek-IsWithin}

module _ {F : Type 0} (fs : FileLib F) where
  -- A program's successful calls, in any order, from one stream to another.
  pub data Uses (s : FileStream F) : FileStream F → Type 0 where
    begin : Uses s s
    reads :
        {t u : FileStream F} (buf : ℕ) (bytes : Bytes)
        → Uses s t
        → read fs buf t ≡ (ok bytes, u)
        → Uses s u
    seeks :
        {t u : FileStream F} (from : SeekFrom) (at : ℕ)
        → Uses s t
        → seek fs from t ≡ (ok at, u)
        → Uses s u

  abbrev SamePart : FileStream F → FileStream F → Type 0
  SamePart s t = (t.first ≡ s.first) × (t.last ≡ s.last)

  read-SamePart :
      (buf : ℕ) (s t : FileStream F) (bytes : Bytes) → read fs buf s ≡ (ok bytes, t) → SamePart s t
  unfolding read
  read-SamePart buf s t bytes e = (ground (arith, e), ground (arith, e))

module _ {F : Type 0} {fs : FileLib F} (laws : IsFile fs) where
  Uses-IsWithin :
      {s t : FileStream F}
      → Uses fs s t
      → IsWithin fs s
      → IsWithin fs t × (t.first ≡ s.first) × (t.last ≡ s.last)
  Uses-IsWithin begin w = (w, refl, refl)
  Uses-IsWithin (reads {t} {u} buf bytes used e) w =
      let (within, first, last) = Uses-IsWithin used w in
      let (first', last') = read-SamePart fs buf t u bytes e in
      ((read-IsWithin laws buf t u bytes within e).0, first' ∙ first, last' ∙ last)
  Uses-IsWithin (seeks {t} {u} from at used e) w =
      let (within, first, last) = Uses-IsWithin used w in
      let (within', first', last') = seek-IsWithin laws from t u at within e in
      (within', first' ∙ first, last' ∙ last)

  -- A stream that is opened with a start and an end of 64 bits, however they lie to the file, and
  -- then read and sought in any order by calls that succeed, is always in its part of the file, and
  -- the part stays the same.
  pub open_stream-Uses :
      (from upto : Option ℕ) (f f' : F) (s t : FileStream F)
      → ((at : ℕ) → upto ≡ some at → at < 2 ^ 64)
      → open_stream fs from upto f ≡ (ok s, f')
      → Uses fs s t
      → IsWithin fs t × (t.first ≡ s.first) × (t.last ≡ s.last)
  open_stream-Uses from upto f f' s t small e used =
      Uses-IsWithin used (open_stream-IsWithin laws from upto f f' s small e)
