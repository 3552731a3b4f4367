-- ===== src/Ws/Frames/Progress/Delivered.antt =====
-- `Frames::next`, for any peer: how a frame is taken in, and that the rounds of a message end.
use xx_url.Common.{
  ℕ, ◌≤◌, ◌≡◌, refl, arith, Bool, true, false, Bytes, Ends, Ends-and_then, Ends-weaken, lift, pure,
}
use xx_url.Ws.Frame.{ControlFrame, window}
use xx_url.Ws.Frames.{deliver_control, receive_close, finish_close, read_control, fill_control}
use xx_url.Ws.Close.{close}
use xx_url.Ws.Frames.Progress.{Drains, Expires, Between}
use xx_url.Ws.Frames.Progress.Control.{Inside, window-Ends, fill_control-Ends, close-Ends}
use xx_url.Ws.Frames.Progress.Data.{Round, stream-Between}
use xx_url.Ws.Header.{FrameHeader}
use xx_url.Ws.Platform.{Platform}
use xx_url.Ws.Shared.{should_close}
use xx_url.Ws.Socket.{WebSocket, on_stream, on_stream-Ends_from}
use xx_url.Ws.Wire.{Op, is_control}

module _ {R : Type 0} (x : Platform R) (left : R → ℕ) (d : Drains x.io left)
    (finishes : Expires x.out left) where
  finish_close-Ends :
      (s : WebSocket R) (closes : Bool)
      → Between s
      → Ends (Round left (left s.stream)) (finish_close x s closes s)
  unfolding finish_close
  finish_close-Ends s false b = (b, omega arith)
  finish_close-Ends s true b =
      on_stream-Ends_from _ (Round left (left s.stream))
        (close x.out s.shared.close_timeout (pure tt)) s
        (close-Ends x finishes s.shared.close_timeout s.stream) λ _ r h. (stream-Between s r b, h)

  receive_close-Ends :
      (control : ControlFrame) (s : WebSocket R)
      → Inside control
      → Between s
      → Ends (Round left (left s.stream)) (receive_close x control s)
  unfolding receive_close
  receive_close-Ends control s i b =
      let Same : Bytes → WebSocket R → Type 0 = λ _ t. t ≡ s in
      Ends-and_then Same _ (lift (window control) s) _ (window-Ends Same control s i λ _. refl)
        λ bytes t e.
          Ends-and_then (Round left (left s.stream)) _ (finish_close x s (should_close s.shared) t)
            _ (rw e (finish_close-Ends s (should_close s.shared) b)) λ _ u h. h

  deliver_control-Ends :
      (op : Op) (control : ControlFrame) (s : WebSocket R)
      → is_control op ≡ true
      → Inside control
      → Between s
      → Ends (Round left (left s.stream)) (deliver_control x op control s)
  unfolding deliver_control
  deliver_control-Ends Op.ping control s h i b = (b, omega arith)
  deliver_control-Ends Op.pong control s h i b = (b, omega arith)
  deliver_control-Ends Op.close control s h i b = receive_close-Ends control s i b
  deliver_control-Ends Op.text control s h i b = cc (h)
  deliver_control-Ends Op.binary control s h i b = cc (h)
  deliver_control-Ends Op.continuation control s h i b = cc (h)
  deliver_control-Ends Op.invalid control s h i b = cc (h)

  pub read_control-Ends :
      (frame : FrameHeader) (s : WebSocket R)
      → is_control frame.op ≡ true
      → frame.len ≤ 0x7d
      → Between s
      → Ends (Round left (left s.stream)) (read_control x frame s)
  unfolding read_control
  read_control-Ends frame s h short b =
      let Filled : ControlFrame → WebSocket R → Type 0 =
        λ c t. Inside c × Round left (left s.stream) c t in
      Ends-and_then Filled _ (on_stream (fill_control x frame) s) _
        (on_stream-Ends_from _ Filled (fill_control x frame) s
          (fill_control-Ends x d frame s.stream short) λ c r k. (k.0, (stream-Between s r b, k.1)))
        λ c t k.
          Ends-weaken _ _ (deliver_control x frame.op c t)
            (deliver_control-Ends frame.op c t h k.0 k.1.0)
            λ _ u l. (l.0, omega (arith, l.1, k.1.1))
