-- ===== src/Ws/Reader.antt =====
-- ws/stream.rs: `Reader`.
pub mod Legal
pub mod Discard
use xx_url.Common.{
  ℕ, zero, suc, ◌+◌, ◌-◌, ◌%◌, ◌^◌, Bool, true, false, not, Option, none, some, Bytes, [], length,
  ltb, leb, ◌==◌, if◌then◌else◌, checked_sub, Result, ok, err, stuck, M, ◌>>=◌, ◌>>◌, pure, fail,
  is_some,
}
use xx_url.Errors.{
  Error, kind, shutdown, unexpected_eof, web_socket, InvalidControl, fin_not_set, too_long,
  invalid_opcode, invalid_control_frame, expected_continuation, unexpected_continuation,
  server_masked,
}
use xx_url.Io.{BufRead}
use xx_url.Ws.Header
use xx_url.Ws.Header.{FrameHeader}
use xx_url.Ws.Platform.{Platform}
use xx_url.Ws.Shared.{Shared, Shutdown, can_read}
use xx_url.Ws.Socket.{WebSocket, on_stream, shut}
use xx_url.Ws.Wire.{Op, is_control}

abbrev is_invalid : Op → Bool
is_invalid Op.invalid = true
is_invalid _ = false

abbrev pub is_continuation : Op → Bool
is_continuation Op.continuation = true
is_continuation _ = false

abbrev pub is_close : Op → Bool
is_close Op.close = true
is_close _ = false

abbrev xor : Bool → Bool → Bool
xor true b = not b
xor false b = b

abbrev ws_error : Bool → Error
ws_error expected = web_socket (if expected then expected_continuation else unexpected_continuation)

module _ {R : Type 0} where
  -- A control frame comes whole and is short.
  check_control : FrameHeader → M (WebSocket R) (Unit {0})
  check_control frame =
      if not frame.fin
      then fail (web_socket (invalid_control_frame fin_not_set))
      else if ltb 0x7d frame.len
      then fail (web_socket (invalid_control_frame too_long))
      else pure tt

  -- A message is a first frame and continuations up to the one with `fin`.
  check_message : FrameHeader → M (WebSocket R) (Unit {0})
  check_message frame s =
      if xor s.expect_continuation (is_continuation frame.op)
      then (err (ws_error s.expect_continuation), s)
      else (ok tt, record s { expect_continuation = not frame.fin })

  check_mask : FrameHeader → M (WebSocket R) (Unit {0})
  check_mask frame s =
      if is_some frame.mask
      then (if s.shared.is_client then (err (web_socket server_masked), s) else (ok tt, s))
      else (ok tt, s)

  note_close : FrameHeader → M (WebSocket R) (Option FrameHeader)
  note_close frame =
      if is_close frame.op
      then (do _ ← shut Shutdown.read; pure (some frame))
      else pure (some frame)

  -- The checks of a header that was read.
  unfoldable pub accept_header : Option FrameHeader → M (WebSocket R) (Option FrameHeader)
  unfolding check_control check_message check_mask note_close
  accept_header none = do _ ← shut Shutdown.read; pure none
  accept_header (some frame) = if is_invalid frame.op then fail (web_socket invalid_opcode) else do
    (if is_control frame.op then check_control frame else check_message frame)
    check_mask frame
    note_close frame

  module _ (x : Platform R) where
    unfoldable pub read_frame_header : M (WebSocket R) (Option FrameHeader)
    read_frame_header s =
        if can_read s.shared
        then (on_stream (Header.read x.io x.packet) >>= accept_header) s
        else (err (kind shutdown), s)

module _ {R : Type 0} (io : BufRead R) where
  -- `read_frame_data`: the bytes read, and the header with what is left. `-=` wraps.
  unfoldable pub read_frame_data : FrameHeader → ℕ → M R (Bytes × FrameHeader)
  read_frame_data header buf = elim (io.read_into buf header.len) [
    | none ↦ pure ([], header)
    | some n ↦ do
      bytes ← io.read_fully n
      pure (bytes, record header { len = (header.len + 2 ^ 64 - length bytes) % 2 ^ 64 })
  ]

  -- `discard_frame_data`, by fuel. The answer is the length that is left in the header.
  unfoldable pub discard_frame_data : ℕ → ℕ → M R ℕ
  discard_frame_data zero len r = (stuck, r)
  discard_frame_data (suc fuel) len r = elim (checked_sub len (length (io.buffer r))) [
    | none ↦ (ok 0, io.consume len r)
    | some remaining ↦
        (do
          n ← io.fill
          if n == 0 then fail (kind unexpected_eof) else discard_frame_data fuel remaining)
          (io.discard r)
  ]
