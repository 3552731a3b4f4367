-- ===== src/File.antt =====
-- file/request.rs and file/stream.rs: a part of a file as a stream.
pub mod Range
pub mod Uses
mod Examples
use xx_url.Common.{
  ℕ, ◌+◌, ◌-◌, ◌%◌, ◌^◌, Bool, Option, none, some, Bytes, List, [], ◌∷◌, equal, length, min, ltb,
  leb, if◌then◌else◌, checked_sub, Result, ok, err, panic, stuck, M, ◌>>=◌, ◌>>◌, pure, bind_result,
}
use xx_url.Io.{BufRead}
use xx_url.Request.{RequestBase, UrlLib, finalize, new}

-- `max` of the standard library.
abbrev pub max : ℕ → ℕ → ℕ
max a b = if ltb a b then b else a

-- `clamp` of the standard library, whose bounds are in order.
abbrev pub clamp : ℕ → ℕ → ℕ → ℕ
clamp pos lo hi = if ltb pos lo then lo else if ltb hi pos then hi else pos

-- An `i64`, by its sign.
pub data Offset : Type 0 where
  forward : ℕ → Offset
  backward : ℕ → Offset

-- `checked_add` and `checked_add_signed` of `u64`
abbrev pub checked_add : ℕ → ℕ → Option ℕ
checked_add a b = if ltb (a + b) (2 ^ 64) then some (a + b) else none

abbrev pub checked_add_signed : ℕ → Offset → Option ℕ
checked_add_signed a (forward n) = checked_add a n
checked_add_signed a (backward n) = checked_sub a n

pub data SeekFrom : Type 0 where
  start : ℕ → SeekFrom
  end_ : Offset → SeekFrom
  current : Offset → SeekFrom

-- What the source takes from the xx-pulse package: an open file.
pub record FileLib (F : Type 0) : Type 0 where
  pub open_file : Bytes → Result F
  pub stream_len : M F ℕ
  -- `seek(SeekFrom::Start(pos))`
  pub seek_start : ℕ → M F ℕ
  pub pos : F → ℕ
  pub read : ℕ → M F Bytes
  -- `read_into!(buf, limit)`, as for a buffered reader
  pub read_into : ℕ → ℕ → Option ℕ

pub record Request (U : Type 0) : Type 0 where
  pub inner : RequestBase U
  pub from : Option ℕ
  pub upto : Option ℕ

-- "file"
abbrev file_scheme : Bytes
file_scheme = 102 ∷ 105 ∷ 108 ∷ 101 ∷ []

module _ {U : Type 0} where
  -- `Request::new`, and the setters `start` and `end`.
  unfoldable pub get : UrlLib U → Bytes → Request U
  get urls text = record {
    inner = new urls text (λ scheme. equal scheme file_scheme);
    from = none;
    upto = none;
  }

  unfoldable pub set_start : ℕ → Request U → Request U
  set_start start_at request = record request { from = some start_at }

  unfoldable pub set_end : ℕ → Request U → Request U
  set_end end_at request = record request { upto = some end_at }

pub record FileStream (F : Type 0) : Type 0 where
  pub file : F
  pub first : ℕ
  pub last : ℕ

-- Of the start and the end asked for, and the length of the file.
unfoldable pub first_of : Option ℕ → ℕ → ℕ
first_of none len = 0
first_of (some pos) len = min pos len

unfoldable pub last_of : Option ℕ → ℕ → ℕ → ℕ
last_of none first len = max len first
last_of (some pos) first len = max pos first

module _ {F : Type 0} (fs : FileLib F) where
  -- `FileStream::new`, of the path of the URL.
  unfoldable pub open_stream : Option ℕ → Option ℕ → M F (FileStream F)
  open_stream from upto = do
    len ← fs.stream_len
    _ ← fs.seek_start (first_of from len)
    (λ f. (
      ok (record {
        file = f;
        first = first_of from len;
        last = last_of upto (first_of from len) len;
      }),
      f,
    ))

  -- `FileStream::new`: the URL of the request, its file, and the stream.
  unfoldable pub run : {U : Type 0} → (U → Bytes) → M (Request U) (FileStream F)
  run path request =
      let (url, base) = finalize request.inner in
      (
        bind_result url (λ u.
            bind_result (fs.open_file (path u)) (λ f. (open_stream request.from request.upto f).0)),
        record request { inner = base },
      )

  -- Subtraction on `u64` wraps.
  unfoldable pub len : FileStream F → ℕ
  len s = (s.last + 2 ^ 64 - s.first) % 2 ^ 64

  unfoldable pub pos : FileStream F → ℕ
  pos s = (fs.pos s.file + 2 ^ 64 - s.first) % 2 ^ 64

  abbrev pub put_file : {A : Type 0} → FileStream F → Result A × F → Result A × FileStream F
  put_file s (result, f) = (result, record s { file = f })

  unfoldable pub read : ℕ → M (FileStream F) Bytes
  unfolding len pos
  read buf s =
      let remaining = (len s + 2 ^ 64 - pos s) % 2 ^ 64 in
      elim (fs.read_into buf remaining) [
        | none ↦ (ok [], s)
        | some room ↦ put_file s (fs.read room s.file)
      ]

  -- The position that is asked for, before it is clamped.
  unfoldable pub target : SeekFrom → FileStream F → Option ℕ
  unfolding pos
  target (current rel) s = checked_add_signed (pos s) rel
  target (start n) s = checked_add s.first n
  target (end_ rel) s = checked_add_signed s.last rel

  unfoldable pub seek : SeekFrom → M (FileStream F) ℕ
  unfolding target
  seek from s = elim (target from s) [
    | none ↦ (panic, s)
    | some n ↦ put_file s (fs.seek_start (clamp n s.first s.last) s.file)
  ]
