-- ===== src/Ws/Split/Examples.antt =====
-- The theorems about the two halves at a concrete connection.
use xx_url.Common.{true, false, none, some, [], ◌∷◌, ◌≡◌, refl, arith, ok}
use xx_url.Common.BigEndian.{to_be}
use xx_url.Ws.Concrete.{packet}
use xx_url.Ws.Frame.{BorrowedFrame}
use xx_url.Ws.Header.{wire_bytes, write_all, write, encode_len}
use xx_url.Ws.Shared.{can_write, should_close}
use xx_url.Ws.Socket.{WebSocket}
use xx_url.Ws.Split.{Wire, WriterPc, After, Reach, System, split, behind_header, ReaderPc}
use xx_url.Ws.Split.Closing.{OnlyLast, StaysClosed, any_close, Reach-OnlyLast}
use xx_url.Ws.Split.CutOff.{cut_off}
use xx_url.Ws.Wire.{to_u8, Op}
use xx_url.Ws.Writer.{new_header, encode_header}

abbrev connected : WebSocket Wire
connected = record {
  stream = record { sent = []; shut = false };
  last_sent_message_op = none;
  current_message = none;
  expect_continuation = false;
  shared = record {
    max_message_length = 100;
    close_timeout = 30000;
    is_client = false;
    close_state = none;
  };
}

-- A close frame with code 1000 and no reason.
abbrev goodbye : BorrowedFrame
goodbye = record { op = Op.close; close_code = 1000; payload = []; fin = true }

goodbye_head :
    encode_header packet (new_header false goodbye) 1000 ≡ ok (0x88 ∷ 0 ∷ 0x03 ∷ 0xe8 ∷ [])
unfolding encode_header new_header write wire_bytes write_all encode_len to_u8 to_be
goodbye_head = refl

-- The close frames of both ends cross.
raced :
    (t : System) × (Reach packet (split connected) t)
    × (t.writer ≡ WriterPc.in_write (0x88 ∷ 0 ∷ 0x03 ∷ 0xe8 ∷ []) After.closes)
    × (t.socket.stream ≡ record { sent = []; shut = true })
raced =
    cut_off packet connected goodbye (0x88 ∷ 0 ∷ 0x03 ∷ 0xe8 ∷ []) refl (omega arith) refl
      (omega arith) goodbye_head

cut_off_example :
    (t : System) × (Reach packet (split connected) t)
    × (t.writer ≡ WriterPc.in_write (0x88 ∷ 0 ∷ 0x03 ∷ 0xe8 ∷ []) After.closes)
    × (t.socket.stream ≡ record { sent = []; shut = true })
cut_off_example =
    cut_off packet connected goodbye (0x88 ∷ 0 ∷ 0x03 ∷ 0xe8 ∷ []) refl (omega arith) refl
      (omega arith) goodbye_head

-- That interleaving begins one frame, the close frame.
Reach-OnlyLast_example :
    OnlyLast (raced.0).begun
    × (any_close (raced.0).begun ≡ true → can_write (raced.0).socket.shared ≡ false)
    × StaysClosed connected.shared (raced.0).socket.shared
Reach-OnlyLast_example = Reach-OnlyLast packet connected (raced.0) (raced.1)

-- A close frame with no content is delivered as its header arrives.
empty_does_not_wait :
    behind_header connected (ok (some (record { fin = true; op = Op.close; mask = none; len = 0 })))
    ≡ ReaderPc.outside
unfolding should_close
empty_does_not_wait = refl
