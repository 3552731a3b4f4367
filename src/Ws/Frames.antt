-- ===== src/Ws/Frames.antt =====
-- ws/stream.rs: `Frames`, which puts messages together.
pub mod Abandoned
pub mod Fragment
pub mod Message
pub mod Progress
mod Examples
use xx_url.Common.{
  ℕ, zero, suc, ◌+◌, ◌-◌, ◌%◌, ◌^◌, Bool, true, false, not, Option, none, some, Bytes, [], ◌∷◌,
  ◌++◌, length, take, drop, replicate, ltb, leb, ◌==◌, if◌then◌else◌, checked_sub, Result, ok, err,
  panic, stuck, M, ◌>>=◌, ◌>>◌, pure, fail, lift, abort, bind_result,
}
use xx_url.Common.BigEndian.{from_be}
use xx_url.Common.Utf8.{from_utf8}
use xx_url.Errors.{web_socket, message_too_long}
use xx_url.Ws.Close
use xx_url.Ws.Frame.{CloseCode, code_of, ControlFrame, new_control, window, write_window, Frame}
use xx_url.Ws.Header.{FrameHeader}
use xx_url.Ws.Mask.{mask}
use xx_url.Ws.Platform.{Platform}
use xx_url.Ws.Reader.{read_frame_header, read_frame_data}
use xx_url.Ws.Shared.{can_read, should_close}
use xx_url.Ws.Socket.{WebSocket, on_stream}
use xx_url.Ws.Wire.{Op, is_control}

module _ {R : Type 0} (x : Platform R) where
  -- `if let Some(m) = &frame.mask { mask(data, *m) }`
  unfoldable pub unmask : Option ℕ → Bytes → Bytes
  unmask none bytes = bytes
  unmask (some m) bytes = mask x.endian (x.align bytes) bytes m

  -- The payload of a control frame, read and unmasked in the frame's array.
  pub fill_control : FrameHeader → M R ControlFrame
  fill_control frame = do
    let control : ControlFrame = record new_control { length = frame.len % 2 ^ 8 }
    room ← lift (window control)
    (bytes, _) ← read_frame_data x.io frame (length room)
    let control' : ControlFrame = write_window bytes control
    masked ← lift (window control')
    pure (write_window (unmask frame.mask masked) control')

  -- `control.data().get(0..2)`
  pub split_code : ControlFrame → Bytes → ℕ × ControlFrame
  split_code control (b0 ∷ b1 ∷ _) = (from_be (b0 ∷ b1 ∷ []), record control { offset = 2 })
  split_code control _ = (code_of CloseCode.no_status_code, control)

  pub finish_close : WebSocket R → Bool → M (WebSocket R) (Unit {0})
  finish_close s true = on_stream (Close.close x.out s.shared.close_timeout (pure tt))
  finish_close s false = pure tt

  pub receive_close : ControlFrame → M (WebSocket R) (Option Frame)
  unfolding split_code finish_close
  receive_close control s =
      (do
        bytes ← lift (window control)
        let (code, control') = split_code control bytes
        finish_close s (should_close s.shared)
        pure (some (Frame.close code control')))
        s

  pub deliver_control : Op → ControlFrame → M (WebSocket R) (Option Frame)
  unfolding receive_close
  deliver_control Op.ping control = pure (some (Frame.ping control))
  deliver_control Op.pong control = pure (some (Frame.pong control))
  deliver_control Op.close control = receive_close control
  deliver_control _ control = abort

  pub read_control : FrameHeader → M (WebSocket R) (Option Frame)
  unfolding fill_control deliver_control
  read_control frame = do control ← on_stream (fill_control frame); deliver_control frame.op control

  -- `get_or_insert_with`
  abbrev pub message_or_new : Option (Op × Bytes) → Op → Op × Bytes
  message_or_new none op = (op, [])
  message_or_new (some message) op = message

  -- The bytes that are still allowed, less those of the frame.
  abbrev pub fits : ℕ → ℕ → ℕ → Bool
  fits max have len = elim (checked_sub max have) [
    | none ↦ false
    | some remaining ↦ leb len remaining
  ]

  pub finish_message : Op → Bytes → Result (Option Frame)
  finish_message Op.binary buf = ok (some (Frame.binary buf))
  finish_message Op.text buf = bind_result (from_utf8 buf) (λ text. ok (some (Frame.text text)))
  finish_message _ buf = panic

  -- The message so far, and whether it is complete: `take` leaves nothing behind.
  pub store_message : Bool → Op → Bytes → M (WebSocket R) (Option Frame)
  unfolding finish_message
  store_message true op buf s = (finish_message op buf, record s { current_message = none })
  store_message false op buf s = (ok none, record s { current_message = some (op, buf) })

  -- The new part of the buffer: what was read over the zeroes of `resize`, unmasked.
  pub extend : FrameHeader → Bytes → Bytes
  extend frame bytes =
      let zeroed = bytes ++ drop (length bytes) (replicate frame.len 0) in unmask frame.mask zeroed

  pub append_data : FrameHeader → Op → Bytes → M (WebSocket R) (Option Frame)
  unfolding store_message extend
  append_data frame op buf s =
      let s' : WebSocket R = record s {
        current_message = some (op, buf ++ replicate frame.len 0);
      } in
      (do
        (bytes, _) ← on_stream (read_frame_data x.io frame frame.len)
        store_message frame.fin op (buf ++ extend frame bytes))
        s'

  pub read_data : FrameHeader → M (WebSocket R) (Option Frame)
  unfolding append_data
  read_data frame s =
      let message = message_or_new s.current_message frame.op in
      let s' : WebSocket R = record s { current_message = some message } in
      if fits s.shared.max_message_length (length message.1) frame.len
      then append_data frame message.0 message.1 s'
      else (err (web_socket message_too_long), s')

  -- The header is there, or the peer has closed the connection.
  unfoldable pub read_body : Option FrameHeader → M (WebSocket R) (Option Frame)
  unfolding read_control read_data
  read_body none s = (ok (some (Frame.close (code_of CloseCode.no_close) new_control)), s)
  read_body (some frame) s =
      if ltb s.shared.max_message_length frame.len
      then (err (web_socket message_too_long), s)
      else (if is_control frame.op then read_control frame else read_data frame) s

  unfoldable pub read_frame : M (WebSocket R) (Option Frame)
  read_frame = do header ← read_frame_header x; read_body header

  -- `next_frame`: one round for each frame of a message, by fuel.
  unfoldable pub next_frame : ℕ → M (WebSocket R) Frame
  next_frame zero s = (stuck, s)
  next_frame (suc fuel) s =
      (do frame ← read_frame; elim frame [ some f ↦ pure f | none ↦ next_frame fuel ]) s

  -- `AsyncIterator::next`
  unfoldable pub next : ℕ → WebSocket R → Option (Result Frame) × WebSocket R
  next fuel s =
      if can_read s.shared
      then (let (result, s') = next_frame fuel s in (some result, s'))
      else (none, s)
