-- ===== src/Ws/Frames/Progress/Rounds.antt =====
-- `Frames::next`, for any peer: how a frame is taken in, and that the rounds of a message end.
use xx_url.Common.{
  if◌then◌else◌, ℕ, zero, suc, ◌<◌, ◌≡◌, ◌≢◌, refl, ◌∙◌, arith, Bool, true, false, Option, none,
  some, Bytes, M, Ends, Ends-and_then, Ends-weaken, inl, inr, Bool-cases, pure, ltb,
}
use xx_url.Ws.Frame.{Frame}
use xx_url.Ws.Frames.{read_control, read_data, read_body, read_frame, next_frame, message_or_new}
use xx_url.Ws.Frames.Message.{IsDataKind}
use xx_url.Ws.Frames.Progress.{Drains, Expires, Between, Took, read-Took, accept_header-Legal}
use xx_url.Ws.Frames.Progress.Data.{Round, read_data-Ends, stream-Between}
use xx_url.Ws.Frames.Progress.Delivered.{read_control-Ends}
use xx_url.Ws.Header.{FrameHeader, read}
use xx_url.Ws.Platform.{Platform}
use xx_url.Ws.Reader.{accept_header, read_frame_header, is_continuation}
use xx_url.Ws.Reader.Legal.{IsTaken, after_header}
use xx_url.Ws.Shared.{can_read}
use xx_url.Ws.Socket.{WebSocket, on_stream, on_stream-Ends_from}
use xx_url.Ws.Wire.{Op, is_control}

first_kind :
    (op : Op) → op ≢ Op.invalid → is_control op ≡ false → is_continuation op ≡ false → IsDataKind op
first_kind op h c k = ground (arith, h, c, k)

module _ {R : Type 0} (x : Platform R) (frame : FrameHeader) (s : WebSocket R) where
  -- After a legal header, the frame's message is text or binary.
  message-IsDataKind :
      IsTaken s frame
      → Between s
      → is_control frame.op ≡ false
      → IsDataKind (message_or_new x s.current_message frame.op).0
  message-IsDataKind l b e = kind_of s.current_message refl
    where
      kind_of :
          (m : Option (Op × Bytes))
          → s.current_message ≡ m
          → IsDataKind (message_or_new x m frame.op).0
      kind_of none q = first_kind frame.op l.op_known e (l.message e ∙ b.starts q)
      kind_of (some message) q = b.data_kind message.0 message.1 q

  after_header-Between : is_control frame.op ≡ true → Between s → Between (after_header s frame)
  after_header-Between e b = record { starts = λ n. rw e (b.starts n); data_kind = b.data_kind }

  module _ (left : R → ℕ) (d : Drains x.io left) (finishes : Expires x.out left) where
    body-Ends :
        (control : Bool)
        → is_control frame.op ≡ control
        → IsTaken s frame
        → Between s
        → Ends
            (Round left (left s.stream))
            ((if control then read_control x frame else read_data x frame) (after_header s frame))
    body-Ends true e l b =
        read_control-Ends x left d finishes frame (after_header s frame) e (l.control e).1
          (after_header-Between e b)
    body-Ends false e l b =
        read_data-Ends x left d frame (after_header s frame) (message-IsDataKind l b e) (rw e refl)

    read_body-Ends :
        IsTaken s frame
        → Between s
        → Ends (Round left (left s.stream)) (read_body x (some frame) (after_header s frame))
    unfolding read_body
    read_body-Ends l b =
        elim (Bool-cases (ltb (after_header s frame).shared.max_message_length frame.len)) [
          | inl y ↦ rw y tt
          | inr n ↦ rw n (body-Ends (is_control frame.op) refl l b)
        ]

module _ {R : Type 0} (x : Platform R) (left : R → ℕ) (d : Drains x.io left)
    (finishes : Expires x.out left) (pos : 0 < x.packet.minimum_packet_size) where
  -- A header that was read and accepted, or the end of the stream.
  abbrev Heard : WebSocket R → Option FrameHeader → WebSocket R → Type 0
  Heard s none t = Between t
  Heard s (some frame) t =
      (u : WebSocket R) × IsTaken u frame
      × Between u
      × (left u.stream < left s.stream)
      × (t ≡ after_header u frame)

  accept_header-Heard :
      (s : WebSocket R) (o : Option FrameHeader) (r : R)
      → Between s
      → Took d s.stream o r
      → Ends (Heard s) (accept_header o (record s { stream = r }))
  unfolding accept_header
  accept_header-Heard s none r b k = record { starts = b.starts; data_kind = b.data_kind }
  accept_header-Heard s (some frame) r b k =
      let u : WebSocket R = record s { stream = r } in
      Ends-weaken _ _ (accept_header (some frame) u) (accept_header-Legal frame u)
        λ o t h. heard o t h
    where
      heard :
          (o : Option FrameHeader) (t : WebSocket R)
          → (o ≡ some frame)
            × IsTaken (record s { stream = r }) frame
            × (t ≡ after_header (record s { stream = r }) frame)
          → Heard s o t
      heard none t h = cc (h.0)
      heard (some f) t (e, l, q) =
          let same : f ≡ frame = ground (arith, e) in
          rw same (record s { stream = r }, l, stream-Between s r b, k, q)

  read_frame_header-Ends : (s : WebSocket R) → Between s → Ends (Heard s) (read_frame_header x s)
  unfolding read_frame_header
  read_frame_header-Ends s b = elim (Bool-cases (can_read s.shared)) [
    | inl y ↦
        let Started : Option FrameHeader → WebSocket R → Type 0 =
          λ o t. Ends (Heard s) (accept_header o t) in
        rw y (
          Ends-and_then Started (Heard s) (on_stream (read x.io x.packet) s) accept_header
            (on_stream-Ends_from _ Started (read x.io x.packet) s
              (read-Took d x.packet s.stream pos) λ o r k. accept_header-Heard s o r b k)
            λ o t h. h)
    | inr n ↦ rw n tt
  ]

  abbrev Progress : WebSocket R → Option Frame → WebSocket R → Type 0
  Progress s o t = Between t × (o ≡ none → left t.stream < left s.stream)

  read_frame-Ends : (s : WebSocket R) → Between s → Ends (Progress s) (read_frame x s)
  unfolding read_frame read_body
  read_frame-Ends s b =
      Ends-and_then _ _ (read_frame_header x s) _ (read_frame_header-Ends s b) after
    where
      after :
          (o : Option FrameHeader) (t : WebSocket R)
          → Heard s o t
          → Ends (Progress s) (read_body x o t)
      after none t h = (h, λ q. cc (q))
      after (some frame) t (u, l, b, less, e) =
          Ends-weaken (Round left (left u.stream)) _ (read_body x (some frame) t)
            (rw e (read_body-Ends x frame u left d finishes l b))
            λ _ v k. (k.0, λ _. omega (arith, k.1, less))

  -- For a stream whose reads end and a positive size of the shortest header, whatever the peer
  -- sends: with more fuel than bytes are left, and from a state between two frames, `next_frame`
  -- comes back, with a frame or an error and never by a panic. After a frame the state is between
  -- two frames again, so the program may ask for the next one.
  pub next_frame-Ends :
      (fuel : ℕ) (s : WebSocket R)
      → Between s
      → left s.stream < fuel
      → Ends (λ _ t. Between t) (next_frame x fuel s)
  unfolding next_frame
  next_frame-Ends zero s b enough = absurd (omega (arith, enough))
  next_frame-Ends (suc fuel) s b enough =
      Ends-and_then _ _ (read_frame x s) _ (read_frame-Ends s b)
        (after λ t c less. next_frame-Ends fuel t c (omega (arith, enough, less)))
    where
      after :
          ((t : WebSocket R)
            → Between t
            → left t.stream < left s.stream
            → Ends (λ _ t. Between t) (next_frame x fuel t))
          → (o : Option Frame) (t : WebSocket R) → Progress s o t
          → Ends
              (λ _ t. Between t)
              ((elim o as (λ _. M (WebSocket R) Frame) [
                | some f ↦ pure f
                | none ↦ next_frame x fuel
              ])
                t)
      after goes_on (some f) t p = p.0
      after goes_on none t p = goes_on t p.0 (p.1 refl)
