-- ===== src/Http/Lines.antt =====
-- http/transfer.rs: lines and header lines, and the conversions of http/mod.rs.
pub mod Buffered
pub mod Pieces
pub mod Visible
use xx_url.Common.{
  pure, fail, ℕ, zero, suc, ◌+◌, Option, none, some, Bytes, [], ◌∷◌, length, take, drop, leb, ◌==◌,
  if◌then◌else◌, checked_sub, Result, ok, err, panic, stuck, M, ◌>>=◌, lift, bind_result,
}
use xx_url.Common.Utf8.{from_utf8}
use xx_url.Errors.{
  kind, unexpected_eof, http, headers_too_long, invalid_header_name, invalid_header_value,
}
use xx_url.Http.Library.{HeaderLib}
use xx_url.Http.Text.{split_once, strip_last, trim, trim_start}
use xx_url.Io.{BufRead}

-- A header line: name, value, and the bytes of the line.
pub record HeaderLine : Type 0 where
  pub name : Bytes
  pub value : Option Bytes
  pub read : ℕ

module _ {H : Type 0} (lib : HeaderLib H) where
  unfoldable pub try_into_name : Bytes → Result Bytes
  try_into_name bytes = elim (lib.name_from bytes) [
    | none ↦ err (http (invalid_header_name bytes))
    | some name ↦ ok name
  ]

  unfoldable pub try_into_value : Bytes → Result Bytes
  try_into_value bytes = elim (lib.value_from bytes) [
    | none ↦ err (http (invalid_header_value bytes))
    | some value ↦ ok value
  ]

  -- `Headers::insert` of a name and a value that are converted already.
  abbrev pub insert_header : HeaderLine → H → H
  insert_header line = lib.insert line.name (elim line.value [ none ↦ [] | some value ↦ value ])

  parse_value : Option Bytes → Result (Option Bytes)
  parse_value none = ok none
  parse_value (some value) =
      bind_result (try_into_value (trim_start value)) (λ value. ok (some value))

  name_and_value : Bytes → Option (Bytes × Bytes) → Bytes × Option Bytes
  name_and_value line none = (line, none)
  name_and_value line (some (name, value)) = (name, some value)

  -- A line that is not empty, as a header.
  unfoldable pub parse_header : Bytes → ℕ → Result HeaderLine
  unfolding try_into_name try_into_value parse_value name_and_value
  parse_header line offset =
      let halves = name_and_value line (split_once 58 line) in
      bind_result (try_into_name (trim halves.0)) (λ name.
        bind_result (parse_value halves.1)
          (λ value. ok (record { name = name; value = value; read = offset })))

-- The line without its end.
unfoldable pub strip_line : Bytes → Bytes
strip_line line = strip_last 13 (strip_last 10 line)

module _ {R H : Type 0} (io : BufRead R) (lib : HeaderLib H) where
  -- The loop over the buffer, by fuel: where the line ends.
  unfoldable pub find_line : ℕ → ℕ → M R ℕ
  find_line zero offset r = (stuck, r)
  find_line (suc fuel) offset r =
      if leb offset (length (io.buffer r))
      then elim (lib.memchr 10 (drop offset (io.buffer r))) [
        | some index ↦ (ok (offset + (index + 1)), r)
        | none ↦
            let offset' = offset + length (io.buffer r) in
            (do
              n ← io.fill
              if n == 0
                  then (λ r'. (
                    err (
                        if offset' == io.capacity r'
                        then http headers_too_long
                        else kind unexpected_eof),
                    r',
                  ))
                  else find_line fuel offset')
              r
      ]
      else (panic, r)

  unfoldable pub read_line_in_place : ℕ → M R (Bytes × ℕ)
  unfolding strip_line
  read_line_in_place fuel = do
    offset ← find_line fuel 0
    (λ r. (
      bind_result (from_utf8 (take offset (io.buffer r))) (λ line. ok (strip_line line, offset)),
      r,
    ))

  -- What a line means: the empty line ends the headers.
  unfoldable pub header_of : Bytes → ℕ → Result (Option HeaderLine)
  header_of [] offset = ok none
  header_of (b ∷ line) offset =
      bind_result (parse_header lib (b ∷ line) offset) (λ header. ok (some header))

  unfoldable pub read_header_line_limited : ℕ → M R (Option HeaderLine)
  read_header_line_limited fuel = do
    (line, offset) ← read_line_in_place fuel
    header ← lift (header_of line offset)
    (λ r. (ok header, io.consume offset r))

  -- A call on the reader alone.
  abbrev put_reader : {A : Type 0} → H → Result A × R → Result A × (R × H)
  put_reader headers (result, r) = (result, (r, headers))

  abbrev pub on_reader : {A : Type 0} → M R A → M (R × H) A
  on_reader f s = put_reader s.1 (f s.0)

  -- Reads and headers together; `rounds` bounds the lines, `fuel` the fills for each.
  unfoldable pub read_headers_limited : ℕ → ℕ → ℕ → M (R × H) (Unit {0})
  read_headers_limited zero fuel size_limit s = (stuck, s)
  read_headers_limited (suc rounds) fuel size_limit s =
      (do
        header ← on_reader (read_header_line_limited fuel)
        elim header [
          | none ↦ pure tt
          | some line ↦ elim (checked_sub size_limit line.read) [
            | none ↦ fail (http headers_too_long)
            | some new_limit ↦
                λ t. read_headers_limited rounds fuel new_limit (t.0, insert_header lib line t.1)
          ]
        ])
        s
