-- ===== src/Http/Body.antt =====
-- http/body.rs: the body of a response.
pub mod Read
use xx_url.Common.{
  ℕ, zero, suc, ◌+◌, ◌-◌, ◌*◌, ◌^◌, Bool, true, false, ◌&&◌, ◌||◌, not, Option, none, some, Bytes,
  List, [], ◌∷◌, length, take, min, ltb, leb, ◌==◌, if◌then◌else◌, is_some, Result, ok, err, panic,
  stuck, M, ◌>>=◌, ◌>>◌, pure, fail, lift, bind_result, is_nil,
}
use xx_url.Errors.{url, partial_file, http, chunk_too_large, invalid_header, invalid_utf8}
use xx_url.Common.Utf8.{from_utf8}
use xx_url.Http.Headers.{get_str}
use xx_url.Http.Library.{HeaderLib, position}
use xx_url.Http.Lines.{HeaderLine, read_header_line_limited, insert_header}
use xx_url.Http.Text.{split, trim, eq_ignore_ascii_case, from_str_radix, to_digit}
use xx_url.Io.{BufRead}

pub data ChunkedState : Type 0 where
  size : ChunkedState
  extension : ℕ → ChunkedState
  chunk_data : ℕ → ChunkedState
  trailer : ChunkedState

-- How much is left: nothing, all up to the end of the connection, some bytes, chunks, or trailers.
pub data Transfer : Type 0 where
  empty : Transfer
  connection : Transfer
  remaining_length : ℕ → Transfer
  chunks : ChunkedState → Transfer
  trailers : Transfer

pub record Body (R : Type 0) : Type 0 where
  pub reader : R
  pub transfer : Transfer
  pub reusable : Bool

abbrev chunked : Bytes
chunked = 99 ∷ 104 ∷ 117 ∷ 110 ∷ 107 ∷ 101 ∷ 100 ∷ []

abbrev keep_alive : Bytes
keep_alive = 107 ∷ 101 ∷ 101 ∷ 112 ∷ 45 ∷ 97 ∷ 108 ∷ 105 ∷ 118 ∷ 101 ∷ []

-- Double the size of `u64`, double again for hex, and one more.
abbrev pub max_hex : ℕ
max_hex = 8 * 2 * 2 + 1

abbrev pub is_ascii_hexdigit : ℕ → Bool
is_ascii_hexdigit b = is_some (to_digit 16 b)

names_chunked : List Bytes → Bool
names_chunked [] = false
names_chunked (e ∷ es) = eq_ignore_ascii_case (trim e) chunked || names_chunked es

unfoldable pub is_bodyless : Bool → ℕ → Bool
is_bodyless is_head status =
    is_head || (status == 204 || (status == 304 || (leb 100 status && ltb status 200)))

-- The state behind the end of a line.
unfoldable pub after_newline : Transfer → Transfer
after_newline (chunks (extension n)) = if n == 0 then trailers else chunks (chunk_data n)
after_newline _ = chunks size

module _ {H : Type 0} (lib : HeaderLib H) where
  of_encoding : Bytes → Transfer
  unfolding names_chunked
  of_encoding encoding =
      let pieces = split 44 encoding in
      if names_chunked (pieces.0 ∷ pieces.1) then chunks size else connection

  of_length : Option Bytes → Result Transfer
  of_length none = ok connection
  of_length (some value) = elim (from_str_radix 10 value) [
    | none ↦ err (http (invalid_header lib.content_length value))
    | some n ↦ ok (remaining_length n)
  ]

  -- Which transfer a response has: no body, chunks, a length, or up to the end.
  unfoldable pub transfer_of : Bool → ℕ → H → Result Transfer
  unfolding of_encoding of_length
  transfer_of is_head status headers =
      if is_bodyless is_head status
      then ok empty
      else bind_result (get_str lib lib.transfer_encoding headers) (λ encoding. elim encoding [
        | some e ↦ ok (of_encoding e)
        | none ↦ bind_result (get_str lib lib.content_length headers) of_length
      ])

  is_keep_alive : Option Bytes → Bool
  is_keep_alive none = false
  is_keep_alive (some value) = eq_ignore_ascii_case value keep_alive

  -- `Body::new`, of the request's method only whether it is HEAD.
  unfoldable pub new : {R : Type 0} → R → Bool → ℕ → H → Result (Body R)
  unfolding transfer_of is_keep_alive
  new reader is_head status headers = bind_result (transfer_of is_head status headers) (λ transfer.
      bind_result (get_str lib lib.connection headers) (λ value.
        ok (record { reader = reader; transfer = transfer; reusable = is_keep_alive value })))

module _ {R : Type 0} where
  -- `Body::remaining`
  unfoldable pub remaining : Body R → Option ℕ
  remaining body = elim body.transfer [
    | empty ↦ some 0
    | connection ↦ none
    | remaining_length n ↦ some n
    | chunks _ ↦ none
    | trailers ↦ none
  ]

  abbrev put_reader : {A : Type 0} → Body R → Result A × R → Result A × Body R
  put_reader body (result, r) = (result, record body { reader = r })

  abbrev pub on_reader : {A : Type 0} → M R A → M (Body R) A
  on_reader f body = put_reader body (f body.reader)

  abbrev pub set_transfer : Transfer → M (Body R) (Unit {0})
  set_transfer transfer body = (ok tt, record body { transfer = transfer })

module _ {R H : Type 0} (io : BufRead R) (lib : HeaderLib H) where
  unfoldable pub read_bytes : ℕ → M R Bytes
  read_bytes n r = if is_nil (io.buffer r) then io.read_inner n r else io.read n r

  -- The loop of `read_chunk_size`, by fuel: how many digits there are, if that is known.
  unfoldable pub find_size : ℕ → M R (Option ℕ)
  find_size zero r = (stuck, r)
  find_size (suc fuel) r =
      let len = min (length (io.buffer r)) max_hex in
      elim (position (λ b. not (is_ascii_hexdigit b)) (take len (io.buffer r))) [
        | some index ↦ (ok (some index), r)
        | none ↦
            if leb max_hex len
            then (ok none, r)
            else (do n ← io.fill; if n == 0 then fail (url partial_file) else find_size fuel) r
      ]

  -- `from_utf8(digits).unwrap()`, and the number.
  parse_size : Bytes → Result (Option ℕ)
  parse_size digits = elim (from_utf8 digits) [
    | ok text ↦ ok (from_str_radix 16 text)
    | err _ ↦ panic
    | panic ↦ panic
    | stuck ↦ stuck
  ]

  take_size : Option ℕ → M R ℕ
  take_size none r = (err (http chunk_too_large), r)
  take_size (some index) r =
      (do
        parsed ← lift (parse_size (take index (io.buffer r)))
        (λ r'. (
          elim parsed [ none ↦ err (http chunk_too_large) | some n ↦ ok n ],
          io.consume index r',
        )))
        r

  unfoldable pub read_chunk_size : ℕ → M (Body R) (Unit {0})
  unfolding parse_size take_size
  read_chunk_size fuel = do
    index ← on_reader (find_size fuel)
    n ← on_reader (take_size index)
    set_transfer (chunks (extension n))

  -- The loop of `read_until_newline`, by fuel.
  unfoldable pub skip_line : ℕ → M R (Unit {0})
  skip_line zero r = (stuck, r)
  skip_line (suc fuel) r = elim (lib.memchr 10 (io.buffer r)) [
    | some index ↦ (ok tt, io.consume (index + 1) r)
    | none ↦
        (do n ← io.fill; if n == 0 then fail (url partial_file) else skip_line fuel) (io.discard r)
  ]

  unfoldable pub read_until_newline : ℕ → M (Body R) (Unit {0})
  read_until_newline fuel = do
    on_reader (skip_line fuel)
    (λ body. (ok tt, record body { transfer = after_newline body.transfer }))
