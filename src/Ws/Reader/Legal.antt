-- ===== src/Ws/Reader/Legal.antt =====
-- ws/stream.rs: which headers a reader accepts, against the rules of RFC 6455.
use xx_url.Common.{
  ◌≢◌, ◌≤◌, ◌≡◌, ◌≢◌, arith, true, false, not, none, some, is_some, ok, if◌then◌else◌,
}
use xx_url.Ws.Header.{FrameHeader}
use xx_url.Ws.Reader.{accept_header, is_continuation, is_close}
use xx_url.Ws.Shared.{Shutdown, shutdown}
use xx_url.Ws.Socket.{WebSocket}
use xx_url.Ws.Wire.{Op, is_control}

-- A header that may come now, as RFC 6455 has it: a known opcode, a whole and short control frame or
-- the next frame of a message, and a mask exactly if a client sent it.
pub record IsLegal {R : Type 0} (s : WebSocket R) (frame : FrameHeader) : Type 0 where
  pub op_known : frame.op ≢ Op.invalid
  pub control : is_control frame.op ≡ true → (frame.fin ≡ true) × (frame.len ≤ 0x7d)
  pub message : is_control frame.op ≡ false → is_continuation frame.op ≡ s.expect_continuation
  pub masked : is_some frame.mask ≡ not s.shared.is_client

-- For a server, the frame with a mask.
abbrev pub as_masked : {R : Type 0} → WebSocket R → FrameHeader → FrameHeader
as_masked s frame = record frame { mask = if s.shared.is_client then frame.mask else some 0 }

-- The same, but a client may leave the mask out.
pub record IsTaken {R : Type 0} (s : WebSocket R) (frame : FrameHeader) : Type 0 where
  pub op_known : frame.op ≢ Op.invalid
  pub control : is_control frame.op ≡ true → (frame.fin ≡ true) × (frame.len ≤ 0x7d)
  pub message : is_control frame.op ≡ false → is_continuation frame.op ≡ s.expect_continuation
  pub unmasked : s.shared.is_client ≡ true → frame.mask ≡ none

-- The connection after such a header: a close frame shuts the reading half, a message frame says
-- whether a continuation follows, and nothing else changes.
abbrev pub after_header : {R : Type 0} → WebSocket R → FrameHeader → WebSocket R
after_header s frame = record s {
  expect_continuation = if is_control frame.op then s.expect_continuation else not frame.fin;
  shared = if is_close frame.op then (shutdown Shutdown.read s.shared).0 else s.shared;
}

module _ {R : Type 0} (s : WebSocket R) (frame : FrameHeader) where
  pub accept_header-IsTaken :
      IsTaken s frame → accept_header (some frame) s ≡ (ok (some frame), after_header s frame)
  unfolding accept_header
  accept_header-IsTaken l = ground (arith, l.op_known, l.control, l.message, l.unmasked)

  pub accept_header-ok : (accept_header (some frame) s).0 ≡ ok (some frame) → IsTaken s frame
  unfolding accept_header
  accept_header-ok e = record {
    op_known = λ h. ground arith;
    control = λ h. ground arith;
    message = λ h. ground arith;
    unmasked = λ h. ground arith;
  }

  -- A header that is not legal is not accepted, and it shuts no half.
  pub accept_header_refused :
      (IsTaken s frame → ⊥)
      → ((accept_header (some frame) s).0 ≢ ok (some frame))
        × ((accept_header (some frame) s).1.shared ≡ s.shared)
  accept_header_refused illegal =
      let refused : (accept_header (some frame) s).0 ≢ ok (some frame) =
        λ e. illegal (accept_header-ok e) in
      (refused, keeps_shared refused)
    where
      keeps_shared :
          ((accept_header (some frame) s).0 ≢ ok (some frame))
          → (accept_header (some frame) s).1.shared ≡ s.shared
      keeps_shared ne = unfold accept_header in ground (arith, ne)
