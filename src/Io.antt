-- ===== src/Io.antt =====
-- What the source takes from the xx-core package: buffered readers and connections.
-- Their code is not in this repository, so the operations are parameters.
pub mod Delivery
pub mod Memory
pub mod Chunks
use xx_url.Common.{ℕ, Bytes, Option, Result, M}

-- `BufRead`, and `BufReader::inner_mut().read`. A read of `n` bytes at most returns what it read.
pub record BufRead (R : Type 0) : Type 0 where
  pub buffer : R → Bytes
  pub capacity : R → ℕ
  pub fill : M R ℕ
  pub consume : ℕ → R → R
  pub discard : R → R
  pub read : ℕ → M R Bytes
  pub read_inner : ℕ → M R Bytes
  pub read_fully : ℕ → M R Bytes
  -- `try_read_type` for an array of `n` bytes: `none` at the end of the stream
  pub try_read_type : ℕ → M R (Option Bytes)
  -- `read_u16_be`, `read_u32_be` and `read_u64_be`, by their width in bytes
  pub read_be : ℕ → M R ℕ
  -- `read_into!(buf, limit)`: the part of a buffer of this length that is to be filled; `none`
  -- where the macro returns `Ok(0)` from the function around it
  pub read_into : ℕ → ℕ → Option ℕ

-- `Write`, `ConnExtra` and the timer of a connection.
pub record ConnWrite (R : Type 0) : Type 0 where
  pub write_all_vectored : Bytes → M R ℕ
  pub flush : M R (Unit {0})
  pub shutdown_write : M R (Unit {0})
  pub poll_hang_up : M R (Unit {0})
  -- `task.timeout(duration)`: `none` when the time is over first
  pub timeout : ℕ → M R (Unit {0}) → R → Option (Result (Unit {0})) × R
