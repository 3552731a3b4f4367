-- ===== src/Ws/Writer/Agreement.antt =====
-- ws/stream.rs: the headers that a writer sends, and the reader at the other end of the connection.
use xx_url.Common.{◌≡◌, ◌≢◌, refl, some, arith, true, false, not, ok, err, is_some}
use xx_url.Errors.{Error}
use xx_url.Ws.Frame.{BorrowedFrame}
use xx_url.Ws.Header.{FrameHeader}
use xx_url.Ws.Reader.{is_continuation, accept_header}
use xx_url.Ws.Reader.Legal.{IsTaken, after_header, accept_header-IsTaken}
use xx_url.Ws.Shared.{shutdown}
use xx_url.Ws.Socket.{WebSocket}
use xx_url.Ws.Wire.{Op, is_control}
use xx_url.Ws.Writer.{new_header, prepare}

-- The frames that the constructors of `BorrowedFrame` make.
pub record IsSendable (frame : BorrowedFrame) : Type 0 where
  pub op_known : frame.op ≢ Op.invalid
  pub op_first : is_continuation frame.op ≡ false
  pub control_fin : is_control frame.op ≡ true → frame.fin ≡ true

-- Both ends are between messages, or both inside one; one of them is the client.
pub record Linked {R S : Type 0} (w : WebSocket R) (r : WebSocket S) : Type 0 where
  pub sides : r.shared.is_client ≡ not w.shared.is_client
  pub message : is_some w.last_sent_message_op ≡ r.expect_continuation

module _ {R S : Type 0} where
  prepare-IsTaken :
      (w w' : WebSocket R) (r : WebSocket S) (frame : BorrowedFrame) (h : FrameHeader)
      → IsSendable frame
      → Linked w r
      → prepare (new_header w.shared.is_client frame) w ≡ (ok h, w')
      → IsTaken r h × Linked w' (after_header r h)
  unfolding prepare new_header shutdown
  prepare-IsTaken w w' r frame h send link e = (
    record {
      op_known = λ q. ground (arith, send.op_known, send.op_first);
      control = λ q. ground (arith, send.control_fin);
      message = λ q. ground (arith, send.op_first, link.message);
      unmasked = λ q. ground (arith, link.sides);
    },
    record {
      sides = ground (arith, link.sides);
      message = ground (arith, link.message, send.op_first, send.control_fin);
    },
  )

  -- If a frame of one of the frame constructors passes the writer's checks, then the reader accepts
  -- the header it is sent with, and both ends agree again on whether a message goes on. This is of
  -- the header alone, not of the content that follows.
  pub accept_header-prepare :
      (w w' : WebSocket R) (r : WebSocket S) (frame : BorrowedFrame) (h : FrameHeader)
      → IsSendable frame
      → Linked w r
      → prepare (new_header w.shared.is_client frame) w ≡ (ok h, w')
      → ((accept_header (some h) r).0 ≡ ok (some h)) × Linked w' (accept_header (some h) r).1
  accept_header-prepare w w' r frame h send link e =
      let (taken, linked) = prepare-IsTaken w w' r frame h send link e in
      rw (accept_header-IsTaken r h taken) (refl, linked)

module _ {R : Type 0} where
  -- A frame that fails the writer's checks leaves the connection as it was.
  pub prepare_refused :
      (w : WebSocket R) (h : FrameHeader) (e : Error)
      → (prepare h w).0 ≡ err e
      → (prepare h w).1 ≡ w
  unfolding prepare
  prepare_refused w h e q = ground arith
