-- ===== src/File/Examples.antt =====
-- The theorems about file streams at concrete inputs.
use xx_url.Common.{
  ℕ, ◌+◌, ◌≤◌, ◌≡◌, refl, ap, arith, none, some, [], ◌∷◌, length, min, ◌==◌, if◌then◌else◌,
  replicate, length-replicate, ok,
}
use xx_url.File.{
  FileLib, FileStream, start, current, forward, first_of, last_of, open_stream, read, seek, target,
  len, pos,
}
use xx_url.File.Uses.{Uses, open_stream-Uses}
use xx_url.File.Range.{IsFile, IsWithin, seek-rewinds}

-- A file that says it has ten bytes, all of them 7, and a position in it.
abbrev file_of : FileLib ℕ
file_of = record {
  open_file = λ path. ok 0;
  stream_len = λ f. (ok 10, f);
  seek_start = λ n f. (ok n, n);
  pos = λ f. f;
  read = λ n f. (ok (replicate n 7), f + n);
  read_into = λ buf limit. if min buf limit == 0 then none else some (min buf limit);
}

file_of-IsFile : IsFile file_of
file_of-IsFile = record {
  seeks = λ n f f' at e. (ground (arith, e), ground (arith, e));
  reads = λ n f f' bytes e.
      let same : replicate n 7 ≡ bytes = ground (arith, e) in
      let moved : f + n ≡ f' = ground (arith, e) in
      let size = length-replicate {A = ℕ} n 7 in
      (omega (arith, ap length same, size), omega (arith, moved, ap length same, size));
  sized = λ f f' n e. ground (arith, e);
  window = λ buf limit. refl;
}

abbrev stream : ℕ → FileStream ℕ
stream at = record { file = at; first = 4; last = 8 }

open_run : open_stream file_of (some 4) (some 8) 0 ≡ (ok (stream 4), 4)
unfolding open_stream first_of last_of
open_run = refl

stream-IsWithin : (at : ℕ) → 4 ≤ at → at ≤ 8 → IsWithin file_of (stream at)
stream-IsWithin at low high = record { from_first = low; to_last = high; fits = omega arith }

read_run : read file_of 2 (stream 4) ≡ (ok (7 ∷ 7 ∷ []), stream 6)
unfolding read len pos
read_run = refl

seek_run : seek file_of (start 100) (stream 6) ≡ (ok 8, stream 8)
unfolding seek target
seek_run = refl

used : Uses file_of (stream 4) (stream 8)
used = Uses.seeks (start 100) 8 (Uses.reads 2 (7 ∷ 7 ∷ []) Uses.begin read_run) seek_run

open_stream-Uses_example :
    IsWithin file_of (stream 8)
    × ((stream 8).first ≡ (stream 4).first)
    × ((stream 8).last ≡ (stream 4).last)
open_stream-Uses_example =
    open_stream-Uses file_of-IsFile (some 4) (some 8) 0 4 (stream 4) (stream 8)
      (λ at e. ground (arith, e)) open_run used

rewind_run : seek file_of (current (forward 0)) (stream 7) ≡ (ok 4, stream 4)
unfolding seek target pos
rewind_run = refl

seek-rewinds_example : file_of.pos (stream 4).file ≡ (stream 7).first
seek-rewinds_example =
    seek-rewinds file_of-IsFile (stream 7) (stream 4) 4
      (stream-IsWithin 7 (omega arith) (omega arith)) (omega arith) rewind_run
