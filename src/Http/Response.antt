-- ===== src/Http/Response.antt =====
-- http/transfer.rs: the status line and the head of a response.
pub mod Versions
pub mod Head
use xx_url.Common.{
  ℕ, zero, suc, ◌+◌, ◌*◌, ◌||◌, Bool, true, false, ◌++◌, ◌>>=◌, ◌>>◌, pure, fail, Option, none,
  some, Bytes, List, [], ◌∷◌, length, take, ltb, ◌==◌, if◌then◌else◌, checked_sub, equal, ok, err,
  stuck, M,
}
use mathlib.Core.Option
use xx_url.Errors.{
  kind, unexpected_eof, http, headers_too_long, invalid_status_line, unexpected_version, Version,
  http09, http10, http11, http20, http30,
}
use xx_url.Http.Library.{HeaderLib}
use xx_url.Http.Lines.{read_line_in_place, read_headers_limited, on_reader}
use xx_url.Http.Options.{Options}
use xx_url.Http.Text.{split, to_digit}
use xx_url.Io.{BufRead}

-- The discriminants, and `from_u32`.
unfoldable pub number : Version → ℕ
number http09 = 9
number http10 = 10
number http11 = 11
number http20 = 20
number http30 = 30

unfoldable pub from_u32 : ℕ → Option Version
from_u32 n =
    if n == 9
    then some http09
    else if n == 10
    then some http10
    else if n == 11
    then some http11
    else if n == 20
    then some http20
    else if n == 30
    then some http30
    else none

-- "HTTP/"
abbrev pub prefix : Bytes
prefix = 72 ∷ 84 ∷ 84 ∷ 80 ∷ 47 ∷ []

-- `Version::as_str`, in ASCII.
unfoldable pub as_str : Version → Bytes
as_str http09 = prefix ++ (48 ∷ 46 ∷ 57 ∷ [])
as_str http10 = prefix ++ (49 ∷ 46 ∷ 48 ∷ [])
as_str http11 = prefix ++ (49 ∷ 46 ∷ 49 ∷ [])
as_str http20 = prefix ++ (50 ∷ 46 ∷ 48 ∷ [])
as_str http30 = prefix ++ (51 ∷ 46 ∷ 48 ∷ [])

two_digits : ℕ → ℕ → Option Version
two_digits major minor = elim (to_digit 10 major) [
  | none ↦ none
  | some high ↦ elim (to_digit 10 minor) [ none ↦ none | some low ↦ from_u32 (high * 10 + low) ]
]

-- Eight bytes, of which the three around the point are looked at.
unfoldable pub parse_version : Bytes → Option Version
unfolding from_u32 two_digits
parse_version (a ∷ (b ∷ (c ∷ (d ∷ (e ∷ (major ∷ (point ∷ (minor ∷ [])))))))) =
    if point == 46 then two_digits major minor else none
parse_version _ = none

abbrev is_http09 : Version → Bool
is_http09 http09 = true
is_http09 _ = false

module _ {R H : Type 0} (io : BufRead R) (lib : HeaderLib H) where
  status_behind : Version → List Bytes → Option (Version × ℕ)
  status_behind version [] = none
  status_behind version (second ∷ _) =
      Option.map (λ status. (version, status)) (lib.status_from second)

  unfoldable pub parse_status_line : Bytes → Option (Version × ℕ)
  unfolding status_behind
  parse_status_line line =
      let pieces = split 32 line in
      elim (parse_version pieces.0) [ none ↦ none | some version ↦ status_behind version pieces.1 ]

  -- `while reader.buffer().len() < prefix.len()`, by fuel.
  unfoldable pub fill_prefix : ℕ → M R (Unit {0})
  fill_prefix zero r = (stuck, r)
  fill_prefix (suc fuel) r =
      if ltb (length (io.buffer r)) (length prefix)
      then (do n ← io.fill; if n == 0 then fail (kind unexpected_eof) else fill_prefix fuel) r
      else (ok tt, r)

  -- The version, the status, and the bytes of the status line.
  unfoldable pub read_status : ℕ → M R (Version × (ℕ × ℕ))
  read_status fuel r =
      if equal prefix (take (length prefix) (io.buffer r))
      then (do
        (line, offset) ← read_line_in_place io lib fuel
        (λ r'. (
          elim (parse_status_line line) [
            | none ↦ err (http (invalid_status_line line))
            | some (version, status) ↦ ok (version, (status, offset))
          ],
          io.consume offset r',
        )))
          r
      else (ok (http09, (200, 0)), r)

  read_rest : ℕ → ℕ → Options → Version → ℕ → ℕ → M (R × H) (ℕ × Version)
  read_rest rounds fuel limits version status total_size =
      if ltb (number version) (number limits.min_version)
        || ltb (number limits.max_version) (number version)
      then fail (http (unexpected_version version))
      else if is_http09 version
      then pure (status, version)
      else elim (checked_sub limits.maximum_header_size total_size) [
        | none ↦ fail (http headers_too_long)
        | some limit ↦ do read_headers_limited io lib rounds fuel limit; pure (status, version)
      ]

  unfoldable pub parse_response : ℕ → ℕ → Options → M (R × H) (ℕ × Version)
  unfolding read_rest
  parse_response rounds fuel limits = do
    on_reader io lib (fill_prefix fuel)
    (version, (status, total_size)) ← on_reader io lib (read_status fuel)
    read_rest rounds fuel limits version status total_size
