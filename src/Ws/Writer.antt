-- ===== src/Ws/Writer.antt =====
-- ws/stream.rs: `Writer`.
pub mod Wire
pub mod Agreement
pub mod Message
pub mod Delivery
use xx_url.Common.{
  ℕ, ◌+◌, ◌-◌, ◌%◌, ◌^◌, Bool, true, false, not, ◌&&◌, Option, none, some, Bytes, [], ◌++◌, length,
  ltb, if◌then◌else◌, Result, ok, err, panic, stuck, M, ◌>>=◌, ◌>>◌, pure, fail, lift,
}
use xx_url.Common.BigEndian.{to_be}
use xx_url.Errors.{
  web_socket, kind, shutdown, unexpected_eof, user_invalid_control_frame, data_type_mismatch,
}
use xx_url.Io.{ConnWrite}
use xx_url.Ws.Close
use xx_url.Ws.Frame.{BorrowedFrame}
use xx_url.Ws.Header
use xx_url.Ws.Header.{FrameHeader, Cursor}
use xx_url.Ws.Platform.{Platform}
use xx_url.Ws.Reader.{is_close}
use xx_url.Ws.Shared.{Shutdown, can_write}
use xx_url.Ws.Socket.{WebSocket, on_stream, shut}
use xx_url.Ws.Wire.{Op, Op-discrete, FramePacket, is_control}
use mathlib.Core.Bool.{decide}

-- A client masks with the key 0.
unfoldable pub new_header : Bool → BorrowedFrame → FrameHeader
new_header is_client frame = record {
  fin = frame.fin;
  op = frame.op;
  mask = if is_client then some 0 else none;
  len = length frame.payload;
}

-- `op != header.op`
abbrev other_op : Op → Op → Bool
other_op op op' = not (decide (Op-discrete op op'))

module _ {R : Type 0} where
  -- Only the first frame of a message carries its opcode.
  note_message : Option Op → FrameHeader → M (WebSocket R) FrameHeader
  note_message (some op) header s =
      if other_op op header.op then (err (web_socket data_type_mismatch), s) else (
        ok (record header { op = Op.continuation }),
        record s { last_sent_message_op = if header.fin then none else some op },
      )
  note_message none header s =
      (ok header, record s { last_sent_message_op = if header.fin then none else some header.op })

  -- The checks, and what the writer remembers of its messages.
  unfoldable pub prepare : FrameHeader → M (WebSocket R) FrameHeader
  unfolding note_message
  prepare header s =
      if is_control header.op
      then (let additional = if is_close header.op then 2 else 0 in
          if ltb (0x7d - additional) header.len
          then (err (web_socket user_invalid_control_frame), s)
          else (ok header, s))
      else note_message s.last_sent_message_op header s

abbrev unwrap : {A : Type 0} → Result A × Cursor → Result Bytes
unwrap (ok _, c) = ok c.written
unwrap (err _, _) = panic
unwrap (panic, _) = panic
unwrap (stuck, _) = stuck

-- The header and the close code, in an array of 16 bytes.
unfoldable pub encode_header : FramePacket → FrameHeader → ℕ → Result Bytes
encode_header p header close_code = unwrap (
    (do
      Header.write p header
      (if is_close header.op then Header.write_all (to_be 2 close_code) else pure tt))
      (record { room = 16; written = [] }))

module _ {R : Type 0} (x : Platform R) where
  -- `writer.write_all_vectored(data)`, and a flush behind a close frame.
  pub send_data : Bool → Bytes → M R (Unit {0})
  send_data closing bytes = do
    wrote ← x.out.write_all_vectored bytes
    (if ltb wrote (length bytes)
        then fail (kind unexpected_eof)
        else if closing
        then x.out.flush
        else pure tt)

  last_words : Bytes → M R (Unit {0})
  last_words bytes = do _ ← x.out.write_all_vectored bytes; x.out.flush

  -- A close frame that answers the peer's ends the connection.
  send_close : Bytes → M (WebSocket R) (Unit {0})
  send_close bytes s =
      (do
        both ← shut Shutdown.write
        on_stream (
            if both
            then Close.close x.out s.shared.close_timeout (last_words bytes)
            else send_data true bytes))
        s

  unfoldable pub send_frame : BorrowedFrame → M (WebSocket R) (Unit {0})
  unfolding send_data last_words send_close
  send_frame frame s =
      if not (can_write s.shared)
      then (err (kind shutdown), s)
      else (do
        header ← prepare (new_header s.shared.is_client frame)
        head ← lift (encode_header x.packet header frame.close_code)
        (if is_close frame.op
            then send_close (head ++ frame.payload)
            else on_stream (send_data false (head ++ frame.payload))))
          s
