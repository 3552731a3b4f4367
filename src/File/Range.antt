-- ===== src/File/Range.antt =====
-- file/stream.rs: the stream stays in its part of the file.
use xx_url.Common.{
  ℕ, ◌+◌, ◌-◌, ◌%◌, ◌^◌, ◌≤◌, ◌<◌, ◌≡◌, refl, sym, ap, ◌∙◌, arith, Bool-cases, inl, inr, Option,
  none, some, Bytes, [], length, min, ◌==◌, if◌then◌else◌, Result, ok, err, panic, stuck,
  and_then-ok,
}
use xx_url.File.{
  FileLib, FileStream, SeekFrom, current, forward, first_of, last_of, open_stream, len, pos, read,
  seek, target, clamp, checked_add_signed, put_file,
}

-- What is documented of a file: its position, and that a read takes no more than asked for.
pub record IsFile {F : Type 0} (fs : FileLib F) : Type 0 where
  pub seeks :
      (n : ℕ) (f f' : F) (at : ℕ) → fs.seek_start n f ≡ (ok at, f') → (fs.pos f' ≡ n) × (at ≡ n)
  pub reads :
      (n : ℕ) (f f' : F) (bytes : Bytes)
      → fs.read n f ≡ (ok bytes, f')
      → (length bytes ≤ n) × (fs.pos f' ≡ fs.pos f + length bytes)
  pub sized : (f f' : F) (n : ℕ) → fs.stream_len f ≡ (ok n, f') → n < 2 ^ 64
  pub window :
      (buf limit : ℕ)
      → fs.read_into buf limit ≡ (if min buf limit == 0 then none else some (min buf limit))

-- The position is in the part, whose bounds are 64 bit wide.
pub record IsWithin {F : Type 0} (fs : FileLib F) (s : FileStream F) : Type 0 where
  pub from_first : s.first ≤ fs.pos s.file
  pub to_last : fs.pos s.file ≤ s.last
  pub fits : s.last < 2 ^ 64

module _ {F : Type 0} {fs : FileLib F} (laws : IsFile fs) where
  first_of-last_of :
      (from upto : Option ℕ) (n : ℕ)
      → n < 2 ^ 64
      → ((at : ℕ) → upto ≡ some at → at < 2 ^ 64)
      → (first_of from n ≤ last_of upto (first_of from n) n)
        × (last_of upto (first_of from n) n < 2 ^ 64)
  unfolding first_of last_of
  first_of-last_of none none n sized small = (ground arith, ground arith)
  first_of-last_of none (some p) n sized small = (ground arith, ground (arith, small p refl))
  first_of-last_of (some q) none n sized small = (ground arith, ground arith)
  first_of-last_of (some q) (some p) n sized small = (ground arith, ground (arith, small p refl))

  -- A stream that is opened is inside of its part of the file, however the start and the end that
  -- were asked for, of 64 bits, lie to the file.
  pub open_stream-IsWithin :
      (from upto : Option ℕ) (f f' : F) (s : FileStream F)
      → ((at : ℕ) → upto ≡ some at → at < 2 ^ 64)
      → open_stream fs from upto f ≡ (ok s, f')
      → IsWithin fs s
  unfolding open_stream
  open_stream-IsWithin from upto f f' s small e =
      let (n, f1, measured, more) = and_then-ok (fs.stream_len f) _ s f' e in
      let (at, f2, sought, last) = and_then-ok (fs.seek_start (first_of from n) f1) _ s f' more in
      let there = (laws.seeks (first_of from n) f1 f2 at sought).0 in
      let (ordered, fits) = first_of-last_of from upto n (laws.sized f f1 n measured) small in
      let opened : FileStream F = record {
        file = f2;
        first = first_of from n;
        last = last_of upto (first_of from n) n;
      } in
      let same : opened ≡ s = ground (arith, last) in
      let w : IsWithin fs opened = record {
        from_first = omega (arith, there);
        to_last = omega (arith, there, ordered);
        fits = fits;
      } in
      rw (sym same) w

  -- The outcome of the read underneath, for as many bytes as are left or fewer.
  read-from :
      (room : ℕ) (s s' : FileStream F) (bytes : Bytes) (outcome : Result Bytes × F)
      → IsWithin fs s
      → room ≤ s.last - fs.pos s.file
      → fs.read room s.file ≡ outcome
      → put_file fs s outcome ≡ (ok bytes, s')
      → IsWithin fs s' × (fs.pos s'.file ≡ fs.pos s.file + length bytes)
  read-from room s s' bytes (ok front, f) w small q e =
      let (most, moved) = laws.reads room s.file f front q in
      let joined : front ≡ bytes = ground (arith, e) in
      let same : (record s { file = f }) ≡ s' = ap (λ (t : Result Bytes × FileStream F). t.1) e in
      let to_last = w.to_last in
      let from_first = w.from_first in
      let w' : IsWithin fs (record s { file = f }) = record {
        from_first = omega (arith, moved, from_first);
        to_last = omega (arith, moved, most, small, to_last);
        fits = w.fits;
      } in
      (rw (sym same) w', rw (sym same) (moved ∙ ap (λ bs. fs.pos s.file + length bs) joined))
  read-from room s s' bytes (err error, f) w small q e = absurd (ground (arith, e))
  read-from room s s' bytes (panic, f) w small q e = absurd (ground (arith, e))
  read-from room s s' bytes (stuck, f) w small q e = absurd (ground (arith, e))

  -- A read of a stream that is in its part of the file stays there, and moves on by the bytes that
  -- it returns.
  pub read-IsWithin :
      (buf : ℕ) (s s' : FileStream F) (bytes : Bytes)
      → IsWithin fs s
      → read fs buf s ≡ (ok bytes, s')
      → IsWithin fs s' × (fs.pos s'.file ≡ fs.pos s.file + length bytes)
  unfolding read len pos
  read-IsWithin buf s s' bytes w e =
      let left = s.last - fs.pos s.file in
      let from_first = w.from_first in
      let to_last = w.to_last in
      let fits = w.fits in
      let lens : (s.last + 2 ^ 64 - s.first) % 2 ^ 64 ≡ s.last - s.first = omega arith in
      let poss : (fs.pos s.file + 2 ^ 64 - s.first) % 2 ^ 64 ≡ fs.pos s.file - s.first =
        omega arith in
      let remaining : (len fs s + 2 ^ 64 - pos fs s) % 2 ^ 64 ≡ left = omega (arith, lens, poss) in
      elim (Bool-cases (min buf left == 0)) [
        | inl nothing ↦
            let window : fs.read_into buf left ≡ none = laws.window buf left ∙ rw nothing in
            let kept : s ≡ s' = ground (arith, remaining, window, e) in
            let empty : bytes ≡ [] = ground (arith, remaining, window, e) in
            (rw (sym kept) w, rw (sym kept, empty) (omega arith))
        | inr something ↦
            let window : fs.read_into buf left ≡ some (min buf left) =
              laws.window buf left ∙ rw something in
            let run : put_file fs s (fs.read (min buf left) s.file) ≡ (ok bytes, s') =
              ground (arith, remaining, window, e) in
            read-from (min buf left) s s' bytes (fs.read (min buf left) s.file) w (omega arith) refl
              run
      ]

  -- A seek of a stream that is in its part of the file stays there, wherever it is asked to go, and
  -- the part stays the same.
  pub seek-IsWithin :
      (from : SeekFrom) (s s' : FileStream F) (at : ℕ)
      → IsWithin fs s
      → seek fs from s ≡ (ok at, s')
      → IsWithin fs s' × (s'.first ≡ s.first) × (s'.last ≡ s.last)
  unfolding seek
  seek-IsWithin from s s' at w e = by_target (target fs from s) refl
    where
      by_outcome :
          (n : ℕ) (outcome : Result ℕ × F)
          → fs.seek_start (clamp n s.first s.last) s.file ≡ outcome
          → put_file fs s outcome ≡ (ok at, s')
          → IsWithin fs s' × (s'.first ≡ s.first) × (s'.last ≡ s.last)
      by_outcome n (ok there, f) q r =
          let (moved, _) = laws.seeks (clamp n s.first s.last) s.file f there q in
          let same : (record s { file = f }) ≡ s' = ap (λ (t : Result ℕ × FileStream F). t.1) r in
          let from_first = w.from_first in
          let to_last = w.to_last in
          let low : s.first ≤ clamp n s.first s.last = ground arith in
          let high : clamp n s.first s.last ≤ s.last = ground arith in
          let w' : IsWithin fs (record s { file = f }) = record {
            from_first = omega (arith, moved, low);
            to_last = omega (arith, moved, high);
            fits = w.fits;
          } in
          (rw (sym same) w', rw (sym same) refl, rw (sym same) refl)
      by_outcome n (err error, f) q r = absurd (ground (arith, r))
      by_outcome n (panic, f) q r = absurd (ground (arith, r))
      by_outcome n (stuck, f) q r = absurd (ground (arith, r))

      by_target :
          (t : Option ℕ)
          → target fs from s ≡ t
          → IsWithin fs s' × (s'.first ≡ s.first) × (s'.last ≡ s.last)
      by_target none t = absurd (ground (arith, t, e))
      by_target (some n) t =
          by_outcome n (fs.seek_start (clamp n s.first s.last) s.file) refl (ground (arith, t, e))

  -- A relative seek adds to the position in the stream and not to that in the file: a seek by 0
  -- that is made no further behind the start of the part than that start is behind the start of the
  -- file goes back to the start of the part.
  pub seek-rewinds :
      (s s' : FileStream F) (at : ℕ)
      → IsWithin fs s
      → fs.pos s.file - s.first ≤ s.first
      → seek fs (current (forward 0)) s ≡ (ok at, s')
      → fs.pos s'.file ≡ s.first
  unfolding seek target pos
  seek-rewinds s s' at w near e = by_outcome (fs.seek_start s.first s.file) refl run
    where
      run : put_file fs s (fs.seek_start s.first s.file) ≡ (ok at, s')
      run =
          let from_first = w.from_first in
          let to_last = w.to_last in
          let fits = w.fits in
          let relative : (fs.pos s.file + 2 ^ 64 - s.first) % 2 ^ 64 ≡ fs.pos s.file - s.first =
            omega arith in
          let aim : checked_add_signed (pos fs s) (forward 0) ≡ some (fs.pos s.file - s.first) =
            ground (arith, relative) in
          let clamped : clamp (fs.pos s.file - s.first) s.first s.last ≡ s.first = ground arith in
          ground (arith, aim, clamped, e)

      by_outcome :
          (outcome : Result ℕ × F)
          → fs.seek_start s.first s.file ≡ outcome
          → put_file fs s outcome ≡ (ok at, s')
          → fs.pos s'.file ≡ s.first
      by_outcome (ok there, f) q r =
          let (moved, _) = laws.seeks s.first s.file f there q in
          let same : (record s { file = f }) ≡ s' = ap (λ (t : Result ℕ × FileStream F). t.1) r in
          rw (sym same) moved
      by_outcome (err error, f) q r = absurd (ground (arith, r))
      by_outcome (panic, f) q r = absurd (ground (arith, r))
      by_outcome (stuck, f) q r = absurd (ground (arith, r))
