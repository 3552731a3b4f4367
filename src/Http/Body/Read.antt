-- ===== src/Http/Body/Read.antt =====
-- http/body.rs: `read_chunks`, `Body::read` and the trailers.
pub mod Length
pub mod Chunked
use xx_url.Common.{
  ℕ, zero, suc, ◌-◌, ◌+◌, ◌^◌, ◌%◌, Option, none, some, Bytes, [], length, ltb, ◌==◌, if◌then◌else◌,
  Result, ok, panic, stuck, M, ◌>>=◌, ◌>>◌, pure, fail,
}
use xx_url.Errors.{url, partial_file}
use xx_url.Http.Body.{
  Body, Transfer, ChunkedState, size, extension, chunk_data, trailer, empty, connection,
  remaining_length, chunks, trailers, on_reader, set_transfer, read_bytes, read_chunk_size,
  read_until_newline,
}
use xx_url.Http.Library.{HeaderLib}
use xx_url.Http.Lines.{HeaderLine, read_header_line_limited, insert_header}
use xx_url.Io.{BufRead}

abbrev max_size : ℕ
max_size = 2 ^ 64 - 1

-- What is left of `n` bytes after some were read; `done` when that is nothing.
abbrev pub left_of : (ℕ → Transfer) → Transfer → ℕ → ℕ → Transfer
left_of more done n read =
    let left = (n + 2 ^ 64 - read) % 2 ^ 64 in if left == 0 then done else more left

module _ {R H : Type 0} (io : BufRead R) (lib : HeaderLib H) where
  -- A part of the body whose length is known: at most `buf` bytes of it.
  unfoldable pub read_some : (ℕ → Transfer) → Transfer → ℕ → ℕ → M (Body R) Bytes
  read_some more done n buf = elim (io.read_into buf n) [
    | none ↦ pure []
    | some room ↦ do
      bytes ← on_reader (read_bytes io lib room)
      (if length bytes == 0
          then fail (url partial_file)
          else (do set_transfer (left_of more done n (length bytes)); pure bytes))
  ]

  -- One step of the loop of `read_chunks`, for a state that holds no data.
  next_line : ℕ → ChunkedState → M (Body R) (Unit {0})
  next_line fuel size = read_chunk_size io lib fuel
  next_line fuel _ = read_until_newline io lib fuel

  -- `read_chunks`: `rounds` bounds the loop, `fuel` the fills of each round.
  unfoldable pub read_chunks : ℕ → ℕ → ChunkedState → ℕ → M (Body R) Bytes
  unfolding next_line
  read_chunks zero fuel state buf body = (stuck, body)
  read_chunks (suc rounds) fuel (chunk_data n) buf body =
      read_some (λ left. chunks (chunk_data left)) (chunks trailer) n buf body
  read_chunks (suc rounds) fuel state buf body =
      (do
        next_line fuel state
        (λ body'. elim body'.transfer [
          | chunks state' ↦ read_chunks rounds fuel state' buf body'
          | empty ↦ (ok [], body')
          | connection ↦ (ok [], body')
          | remaining_length _ ↦ (ok [], body')
          | trailers ↦ (ok [], body')
        ]))
        body

  read_connection : ℕ → M (Body R) Bytes
  read_connection buf = elim (io.read_into buf max_size) [
    | none ↦ pure []
    | some room ↦ do
      bytes ← on_reader (read_bytes io lib room)
      (if length bytes == 0 then (do set_transfer empty; pure bytes) else pure bytes)
  ]

  -- `Read for Body`, into a buffer of `buf` bytes.
  unfoldable pub read : ℕ → ℕ → ℕ → M (Body R) Bytes
  unfolding read_some read_chunks read_connection
  read rounds fuel buf body = elim body.transfer [
    | empty ↦ (ok [], body)
    | trailers ↦ (ok [], body)
    | chunks state ↦ read_chunks rounds fuel state buf body
    | connection ↦ read_connection buf body
    | remaining_length n ↦ read_some remaining_length empty n buf body
  ]

  end_trailers : Option HeaderLine → M (Body R) (Option HeaderLine)
  end_trailers none = do set_transfer empty; pure none
  end_trailers (some line) = pure (some line)

  -- The assertion fails outside of the trailers.
  unfoldable pub read_trailer : ℕ → M (Body R) (Option HeaderLine)
  unfolding end_trailers
  read_trailer fuel body = elim body.transfer [
    | trailers ↦
        (do header ← on_reader (read_header_line_limited io lib fuel); end_trailers header) body
    | empty ↦ (panic, body)
    | connection ↦ (panic, body)
    | remaining_length _ ↦ (panic, body)
    | chunks _ ↦ (panic, body)
  ]

  -- `read_trailers`, with the headers so far.
  unfoldable pub read_trailers : ℕ → ℕ → H → M (Body R) H
  read_trailers zero fuel headers body = (stuck, body)
  read_trailers (suc rounds) fuel headers body =
      (do
        header ← read_trailer fuel
        elim header [
          | none ↦ pure headers
          | some line ↦ read_trailers rounds fuel (insert_header lib line headers)
        ])
        body
