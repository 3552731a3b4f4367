-- ===== src/Ws/Split.antt =====
-- ws/conn.rs and ws/stream.rs: the two halves of a connection behind `split`, in two tasks. They
-- share the closing state, and each may run while the other waits for the stream.
pub mod Closing
pub mod CutOff
mod Examples
use xx_url.Common.{
  ℕ, ◌+◌, ◌==◌, ltb, ◌&&◌, ◌||◌, not, length, Bool, true, false, Option, none, some, Bytes, List,
  [], ◌∷◌, ◌++◌, ◌≡◌, if◌then◌else◌, Result, ok,
}
use xx_url.Ws.Frame.{BorrowedFrame}
use xx_url.Ws.Header.{FrameHeader}
use xx_url.Ws.Reader.{accept_header, is_close}
use xx_url.Ws.Shared.{Shared, Shutdown, shutdown, can_read, can_write, should_close}
use xx_url.Ws.Socket.{WebSocket}
use xx_url.Ws.Wire.{Op, FramePacket, is_control}
use xx_url.Ws.Writer.{new_header, prepare, encode_header}

-- The sending side of the stream: what it was given, and whether it is shut down.
pub record Wire : Type 0 where
  pub sent : Bytes
  pub shut : Bool

-- Where a call of the read half waits: for a header, for the content of its frame, or for the end
-- of the closing handshake.
pub data ReaderPc : Type 0 where
  outside in_header in_shutdown in_poll : ReaderPc
  in_body : FrameHeader → ReaderPc

-- What `send_frame` does behind the bytes of its frame.
pub data After : Type 0 where
  nothing flushes closes : After

-- Where a call of `send_frame` waits: with bytes that are still to be written, and so on.
pub data WriterPc : Type 0 where
  outside in_shutdown in_poll : WriterPc
  in_write : Bytes → After → WriterPc
  in_flush : After → WriterPc

-- Behind the content of a frame: a close frame may end the handshake, and `next_frame` goes on
-- behind a frame that is not the last of its message.
abbrev pub behind_data : Shared → FrameHeader → ReaderPc
behind_data shared frame =
    if is_close frame.op
    then (if should_close shared then ReaderPc.in_shutdown else ReaderPc.outside)
    else (if is_control frame.op || frame.fin
        then ReaderPc.outside
        else (if can_read shared then ReaderPc.in_header else ReaderPc.outside))

abbrev message_len : Option (Op × Bytes) → ℕ
message_len none = 0
message_len (some (_, buf)) = length buf

-- `MessageTooLong`, for the frame alone or with what has come of its message.
abbrev pub is_too_long : WebSocket Wire → FrameHeader → Bool
is_too_long s frame =
    ltb s.shared.max_message_length frame.len
    || (not (is_control frame.op)
        && ltb s.shared.max_message_length (message_len s.current_message + frame.len))

-- Behind `read_frame_header`: an error is returned, and so is the end of the stream. There is a wait
-- for the content of a frame that has some.
abbrev pub behind_header : WebSocket Wire → Result (Option FrameHeader) → ReaderPc
behind_header s (ok (some frame)) =
    if is_too_long s frame
    then ReaderPc.outside
    else (if frame.len == 0 then behind_data s.shared frame else ReaderPc.in_body frame)
behind_header s _ = ReaderPc.outside

-- The frame is one of a message, whose bytes are collected.
abbrev pub is_of_message : Result (Option FrameHeader) → Bool
is_of_message (ok (some frame)) = not (is_control frame.op)
is_of_message _ = false

abbrev pub put_message : Option (Op × Bytes) → WebSocket Wire → WebSocket Wire
put_message message s = record s { current_message = message }

abbrev pub shut_wire : WebSocket Wire → WebSocket Wire
shut_wire s = let wire : Wire = s.stream in record s { stream = record wire { shut = true } }

abbrev pub put_wire : Bytes → WebSocket Wire → WebSocket Wire
put_wire bytes s =
    let wire : Wire = s.stream in record s { stream = record wire { sent = wire.sent ++ bytes } }

-- A call of the read half, from one wait to the next. What a message collects is left open.
pub data ReadMove (s : WebSocket Wire) : ReaderPc → WebSocket Wire → ReaderPc → Type 0 where
  call : can_read s.shared ≡ true → ReadMove s ReaderPc.outside s ReaderPc.in_header
  arrive :
      (header : Option FrameHeader) (message : Option (Op × Bytes))
      → (is_of_message (accept_header header s).0 ≡ false → message ≡ s.current_message)
      → ReadMove s ReaderPc.in_header
          (put_message message (accept_header header s).1)
          (behind_header (accept_header header s).1 (accept_header header s).0)
  deliver :
      (frame : FrameHeader) (message : Option (Op × Bytes))
      → (is_control frame.op ≡ true → message ≡ s.current_message)
      → ReadMove s (ReaderPc.in_body frame) (put_message message s) (behind_data s.shared frame)
  shutdown_write : ReadMove s ReaderPc.in_shutdown (shut_wire s) ReaderPc.in_poll
  -- An error, the end of the time for closing, or the peer's end of the stream.
  return_ : (pc : ReaderPc) → ReadMove s pc s ReaderPc.outside

-- `frame.op == Op::Close && self.data.shutdown(Shutdown::Write)`
abbrev pub begin_close : WebSocket Wire → Shared × Bool → After × WebSocket Wire
begin_close s (shared, both) = (if both then closes else flushes, record s { shared = shared })

abbrev pub begin_frame : BorrowedFrame → WebSocket Wire → After × WebSocket Wire
begin_frame frame s =
    if is_close frame.op then begin_close s (shutdown Shutdown.write s.shared) else (nothing, s)

abbrev behind_write : After → WriterPc
behind_write nothing = WriterPc.outside
behind_write after = WriterPc.in_flush after

abbrev behind_flush : After → WriterPc
behind_flush closes = WriterPc.in_shutdown
behind_flush _ = WriterPc.outside

-- A call of `send_frame`, from one wait to the next. The list names the frame that it begins.
pub data WriteMove (packet : FramePacket) (s : WebSocket Wire)
    : WriterPc → List Op → WebSocket Wire → WriterPc → Type 0 where
  call :
      (frame : BorrowedFrame) (header : FrameHeader) (t : WebSocket Wire) (head : Bytes)
      → can_write s.shared ≡ true
      → prepare (new_header s.shared.is_client frame) s ≡ (ok header, t)
      → encode_header packet header frame.close_code ≡ ok head
      → WriteMove packet s WriterPc.outside
          (frame.op ∷ [])
          (begin_frame frame t).1
          (WriterPc.in_write (head ++ frame.payload) (begin_frame frame t).0)
  put :
      (bytes rest : Bytes) (after : After)
      → s.stream.shut ≡ false
      → WriteMove packet s
          (WriterPc.in_write (bytes ++ rest) after)
          []
          (put_wire bytes s)
          (WriterPc.in_write rest after)
  wrote :
      (after : After) → WriteMove packet s (WriterPc.in_write [] after) [] s (behind_write after)
  flushed : (after : After) → WriteMove packet s (WriterPc.in_flush after) [] s (behind_flush after)
  shutdown_write : WriteMove packet s WriterPc.in_shutdown [] (shut_wire s) WriterPc.in_poll
  return_ : (pc : WriterPc) → WriteMove packet s pc [] s WriterPc.outside

-- Both halves; `begun` are the frames that were begun, the last one first.
pub record System : Type 0 where
  pub socket : WebSocket Wire
  pub reader : ReaderPc
  pub writer : WriterPc
  pub begun : List Op

pub data Step (packet : FramePacket) (s : System) : System → Type 0 where
  reads :
      {t : WebSocket Wire} {pc : ReaderPc}
      → ReadMove s.socket s.reader t pc
      → Step packet s (record s { socket = t; reader = pc })
  writes :
      {t : WebSocket Wire} {pc : WriterPc} {ops : List Op}
      → WriteMove packet s.socket s.writer ops t pc
      → Step packet s (record s { socket = t; writer = pc; begun = ops ++ s.begun })

pub data Reach (packet : FramePacket) (s : System) : System → Type 0 where
  here : Reach packet s s
  next : {t u : System} → Reach packet s t → Step packet t u → Reach packet s u

-- `split`: no call has begun.
abbrev pub split : WebSocket Wire → System
split s = record { socket = s; reader = ReaderPc.outside; writer = WriterPc.outside; begun = [] }
