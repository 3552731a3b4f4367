-- ===== src/Ws/Frames/Progress/Data.antt =====
-- A data frame from any peer: it goes into the message, and no `unreachable!()` is reached.
use xx_url.Common.{
  ℕ, ◌≤◌, ◌≡◌, arith, Bool, true, false, not, some, Bytes, ◌++◌, length, Ends, Ends-and_then,
  Ends-weaken, inl, inr, Bool-cases, replicate,
}
use xx_url.Common.Utf8.{from_utf8, is_utf8}
use xx_url.Ws.Frames.{
  store_message, finish_message, append_data, read_data, message_or_new, fits, extend,
}
use xx_url.Ws.Frames.Message.{IsDataKind}
use xx_url.Ws.Frames.Progress.{Drains, Between}
use xx_url.Ws.Frames.Progress.Control.{read_frame_data-Ends}
use xx_url.Ws.Header.{FrameHeader}
use xx_url.Ws.Platform.{Platform}
use xx_url.Ws.Reader.{read_frame_data}
use xx_url.Ws.Socket.{WebSocket, on_stream, on_stream-Ends_from}
use xx_url.Ws.Wire.{Op}

module _ {R : Type 0} (left : R → ℕ) where
  -- A frame was taken in: the next may come, and at most `n` is left of the stream.
  abbrev pub Round : {A : Type 0} → ℕ → A → WebSocket R → Type 0
  Round n _ t = Between t × left t.stream ≤ n

pub stream-Between :
    {R : Type 0} (s : WebSocket R) (r : R) → Between s → Between (record s { stream = r })
stream-Between s r b = record { starts = b.starts; data_kind = b.data_kind }

module _ {R : Type 0} (x : Platform R) (left : R → ℕ) where
  store_message-Ends :
      (fin : Bool) (kind : Op) (buf : Bytes) (s : WebSocket R)
      → IsDataKind kind
      → s.expect_continuation ≡ not fin
      → Ends (Round left (left s.stream)) (store_message x fin kind buf s)
  unfolding store_message finish_message from_utf8
  store_message-Ends false kind buf s k e =
      (record { starts = λ n. cc (n); data_kind = λ op b q. ground (arith, k, q) }, omega arith)
  store_message-Ends true Op.text buf s k e = elim (Bool-cases (is_utf8 buf)) [
    | inl y ↦ rw y (record { starts = λ _. e; data_kind = λ op b q. absurd (cc (q)) }, omega arith)
    | inr n ↦ rw n tt
  ]
  store_message-Ends true Op.binary buf s k e =
      (record { starts = λ _. e; data_kind = λ op b q. absurd (cc (q)) }, omega arith)
  store_message-Ends true _ buf s k e = absurd (ground (arith, k))

  module _ (d : Drains x.io left) where
    append_data-Ends :
        (frame : FrameHeader) (kind : Op) (buf : Bytes) (s : WebSocket R)
        → IsDataKind kind
        → s.expect_continuation ≡ not frame.fin
        → Ends (Round left (left s.stream)) (append_data x frame kind buf s)
    unfolding append_data
    append_data-Ends frame kind buf s k e =
        let Kept : Bytes × FrameHeader → WebSocket R → Type 0 =
          λ _ t. (t.expect_continuation ≡ not frame.fin) × left t.stream ≤ left s.stream in
        let s' : WebSocket R = record s {
          current_message = some (kind, buf ++ replicate frame.len 0);
        } in
        Ends-and_then Kept _ (on_stream (read_frame_data x.io frame frame.len) s') _
          (on_stream-Ends_from _ Kept (read_frame_data x.io frame frame.len) s'
            (read_frame_data-Ends x d frame frame.len s.stream) λ _ r h. (e, h))
          λ p t h.
            Ends-weaken _ _ (store_message x frame.fin kind (buf ++ extend x frame p.0) t)
              (store_message-Ends frame.fin kind _ t k h.0) λ _ u l. (l.0, omega (arith, l.1, h.1))

    pub read_data-Ends :
        (frame : FrameHeader) (s : WebSocket R)
        → IsDataKind (message_or_new x s.current_message frame.op).0
        → s.expect_continuation ≡ not frame.fin
        → Ends (Round left (left s.stream)) (read_data x frame s)
    unfolding read_data
    read_data-Ends frame s k e =
        let message = message_or_new x s.current_message frame.op in
        elim (Bool-cases (fits x s.shared.max_message_length (length message.1) frame.len)) [
          | inl y ↦ rw y (
              append_data-Ends frame message.0 message.1
                (record s { current_message = some message }) k e)
          | inr n ↦ rw n tt
        ]
