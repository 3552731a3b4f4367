-- ===== src/Http/Examples.antt =====
-- The theorems about HTTP at concrete inputs, and runs of the code.
use xx_url.Common.{
  ℕ, ◌+◌, ◌≡◌, ◌≢◌, refl, arith, false, some, Bytes, List, [], ◌∷◌, ◌++◌, length, ok, panic,
  bind_result,
}
use xx_url.Common.Utf8.{from_utf8, is_utf8}
use xx_url.Errors.{http11}
use xx_url.Http.Body.{Body, size, trailer, remaining_length, chunks, remaining, read_bytes}
use xx_url.Http.Body.Read.{read, read_some}
use xx_url.Http.Body.Read.Chunked.{IsSizeLine, read-chunk}
use xx_url.Http.Body.Read.Length.{read_each, read_each-counts}
use xx_url.Http.Concrete.{fields, fields-Searches, chunks-ReadsBuffer, chunks-IsBounded}
use xx_url.Http.Lines.{find_line, read_headers_limited}
use xx_url.Http.Lines.Buffered.{IsLine, collect, read_headers-buffered}
use xx_url.Http.Lines.Pieces.{find_line-panic}
use xx_url.Http.Response.{parse_version, parse_response, parse_status_line, number}
use xx_url.Http.Response.Head.{IsAllowed, parse_response-buffered}
use xx_url.Http.Options.{Options, default_options}
use xx_url.Http.Text.{strip_last, to_digit, from_str_radix, parse_digits, split}
use xx_url.Io.Chunks.{Chunks, chunks as pieces, chunks-Buffers}

abbrev piece : Bytes → List (ℕ × Bytes) → Chunks
piece buf coming = record { buf = buf; coming = coming }

find_line-panic_example :
    (find_line (pieces 64) fields 3 0 (piece (65 ∷ 66 ∷ []) ((67, []) ∷ ((10, []) ∷ [])))).0 ≡ panic
find_line-panic_example =
    find_line-panic (pieces 64) fields fields-Searches 0
      (piece (65 ∷ 66 ∷ []) ((67, []) ∷ ((10, []) ∷ [])))
      (piece (65 ∷ 66 ∷ 67 ∷ []) ((10, []) ∷ [])) (piece (65 ∷ 66 ∷ 67 ∷ 10 ∷ []) []) (65 ∷ 66 ∷ [])
      (67 ∷ []) (10 ∷ []) refl refl refl refl refl (ground arith) (ground arith) (omega arith)
      (omega arith) (omega arith)

-- "A:B\r" and the blank line "\r".
abbrev header_line : Bytes
header_line = 65 ∷ 58 ∷ 66 ∷ 13 ∷ []

header_line-IsLine : IsLine header_line
unfolding from_utf8 is_utf8
header_line-IsLine = record { one_line = ground arith; utf8 = refl }

blank-IsLine : IsLine (13 ∷ [])
unfolding from_utf8 is_utf8
blank-IsLine = record { one_line = ground arith; utf8 = refl }

header_line-full : strip_last 13 header_line ≢ []
unfolding strip_last
header_line-full e = absurd (ground (arith, e))

blank_strip : strip_last 13 (13 ∷ []) ≡ []
unfolding strip_last
blank_strip = refl

abbrev head_bytes : Bytes
head_bytes = header_line ++ (10 ∷ (13 ∷ (10 ∷ (7 ∷ []))))

read_headers-buffered_example :
    (r' : Chunks) × (read_headers_limited (pieces 64) fields 2 1 100 (piece head_bytes [], []) ≡ (
      (collect fields 100 (header_line ∷ []) []).0,
      (r', (collect fields 100 (header_line ∷ []) []).1),
    ))
    × ((collect fields 100 (header_line ∷ []) []).0 ≡ ok tt → r'.buf ≡ 7 ∷ [])
read_headers-buffered_example =
    read_headers-buffered fields (chunks-Buffers 64) fields-Searches (header_line ∷ []) 2 0 100
      (piece head_bytes []) [] (13 ∷ []) (7 ∷ []) (omega arith) (header_line-IsLine, tt)
      (header_line-full, tt) blank-IsLine blank_strip refl

-- "HTTP/1.1 200\r"
abbrev status_more : Bytes
status_more = 49 ∷ 46 ∷ 49 ∷ 32 ∷ 50 ∷ 48 ∷ 48 ∷ 13 ∷ []

abbrev status_line : Bytes
status_line = 72 ∷ 84 ∷ 84 ∷ 80 ∷ 47 ∷ status_more

status_line-IsLine : IsLine status_line
unfolding from_utf8 is_utf8
status_line-IsLine = record { one_line = ground arith; utf8 = refl }

status_parsed :
    parse_status_line (pieces 64) fields (strip_last 13 status_line) ≡ some (http11, 200)
unfolding parse_status_line strip_last parse_version split to_digit
status_parsed = refl

abbrev limits : Options
limits = record default_options { maximum_header_size = 1000 }

http11-IsAllowed : IsAllowed limits http11
unfolding number
http11-IsAllowed = record {
  min_ok = omega arith;
  max_ok = omega arith;
  modern = λ e. ground (arith, e);
}

parse_response-buffered_example :
    (r' : Chunks) × (parse_response
        (pieces 64)
        fields
        2
        1
        limits
        (piece (status_line ++ (10 ∷ head_bytes)) [], [])
      ≡ (
        bind_result (collect fields 986 (header_line ∷ []) []).0 (λ _. ok (200, http11)),
        (r', (collect fields 986 (header_line ∷ []) []).1),
      ))
    × ((collect fields 986 (header_line ∷ []) []).0 ≡ ok tt → r'.buf ≡ 7 ∷ [])
parse_response-buffered_example =
    parse_response-buffered fields (chunks-Buffers 64) fields-Searches 2 0 200 http11 limits
      (piece (status_line ++ (10 ∷ head_bytes)) []) [] status_more (header_line ∷ []) (13 ∷ [])
      (7 ∷ []) status_line-IsLine status_parsed http11-IsAllowed (omega arith) (omega arith)
      (header_line-IsLine, tt) (header_line-full, tt) blank-IsLine blank_strip refl

abbrev body_of : Bytes → Body Chunks
body_of bytes = record { reader = piece bytes []; transfer = chunks size; reusable = false }

three_line : IsSizeLine (51 ∷ []) 13 [] 3
unfolding to_digit from_str_radix parse_digits
three_line = record {
  all_hex = ground arith;
  ends = refl;
  one_line = ground arith;
  short = omega arith;
  value = refl;
}

zero_line : IsSizeLine (48 ∷ []) 13 [] 0
unfolding to_digit from_str_radix parse_digits
zero_line = record {
  all_hex = ground arith;
  ends = refl;
  one_line = ground arith;
  short = omega arith;
  value = refl;
}

abbrev chunk_bytes : Bytes
chunk_bytes = 51 ∷ 13 ∷ 10 ∷ 7 ∷ 8 ∷ 9 ∷ 13 ∷ 10 ∷ []

read-chunk_example :
    (body' : Body Chunks) × (read (pieces 64) fields 3 1 16 (body_of chunk_bytes)
      ≡ (ok (7 ∷ 8 ∷ 9 ∷ []), body'))
    × (body'.transfer ≡ chunks trailer)
    × (body'.reader.buf ≡ 13 ∷ 10 ∷ [])
read-chunk_example =
    read-chunk fields (chunks-Buffers 64) fields-Searches (chunks-ReadsBuffer 64) 0 0 16 13
      (body_of chunk_bytes) (51 ∷ []) [] (7 ∷ 8 ∷ 9 ∷ []) (13 ∷ 10 ∷ []) refl three_line
      (omega arith) (omega arith) (omega arith) refl

abbrev counted : ℕ → Bytes → Body Chunks
counted n bytes = record {
  reader = piece bytes [];
  transfer = remaining_length n;
  reusable = false;
}

remaining-counted : remaining (counted 5 (7 ∷ 8 ∷ 9 ∷ [])) ≡ some 5
unfolding remaining
remaining-counted = refl

counted_run :
    read_each {io = pieces 64} fields
      (chunks-IsBounded 64)
      1
      1
      (2 ∷ (4 ∷ []))
      (counted 5 (7 ∷ 8 ∷ 9 ∷ []))
    ≡ (ok (7 ∷ 8 ∷ 9 ∷ []), counted 2 [])
unfolding read_each read read_some read_bytes
counted_run = refl

read_each-counts_example :
    (k : ℕ) × (remaining (counted 2 []) ≡ some k) × (length {A = ℕ} (7 ∷ 8 ∷ 9 ∷ []) + k ≡ 5)
read_each-counts_example =
    read_each-counts fields (chunks-IsBounded 64) 1 1 (2 ∷ (4 ∷ [])) 5 (counted 5 (7 ∷ 8 ∷ 9 ∷ []))
      (counted 2 []) (7 ∷ 8 ∷ 9 ∷ []) (omega arith) remaining-counted counted_run
