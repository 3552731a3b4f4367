-- ===== src/Ws/Frame/Borrowed.antt =====
-- ws/mod.rs: `Frame::text`, `Frame::close` and the like, which make a frame to send.
use xx_url.Common.{ℕ, true, false, Bytes, Result, ok, bind_result}
use xx_url.Ws.Wire.{Op}
use xx_url.Ws.Frame.{BorrowedFrame, Frame, window}

unfoldable pub text : Bytes → BorrowedFrame
text payload = record { op = Op.text; close_code = 0; payload = payload; fin = true }

unfoldable pub binary : Bytes → BorrowedFrame
binary payload = record { op = Op.binary; close_code = 0; payload = payload; fin = true }

unfoldable pub text_partial : Bytes → BorrowedFrame
text_partial payload = record { op = Op.text; close_code = 0; payload = payload; fin = false }

unfoldable pub binary_partial : Bytes → BorrowedFrame
binary_partial payload = record { op = Op.binary; close_code = 0; payload = payload; fin = false }

unfoldable pub ping : Bytes → BorrowedFrame
ping payload = record { op = Op.ping; close_code = 0; payload = payload; fin = true }

unfoldable pub pong : Bytes → BorrowedFrame
pong payload = record { op = Op.pong; close_code = 0; payload = payload; fin = true }

unfoldable pub close : ℕ → Bytes → BorrowedFrame
close code payload = record { op = Op.close; close_code = code; payload = payload; fin = true }

-- `From<&Frame>`: a received frame, sent back.
unfoldable pub from_frame : Frame → Result BorrowedFrame
unfolding text binary ping pong close
from_frame (Frame.ping frame) = bind_result (window frame) (λ bytes. ok (ping bytes))
from_frame (Frame.pong frame) = bind_result (window frame) (λ bytes. ok (pong bytes))
from_frame (Frame.close code frame) = bind_result (window frame) (λ bytes. ok (close code bytes))
from_frame (Frame.binary payload) = ok (binary payload)
from_frame (Frame.text payload) = ok (text payload)
