-- ===== src/Ws/Frames/Progress.antt =====
-- What it takes for a reader to come to an end, whatever its peer sends: laws of the stream, and
-- the header of a frame.
pub mod Control
pub mod Data
pub mod Delivered
pub mod Rounds
mod Examples
use xx_url.Common.{
  ℕ, zero, suc, ◌+◌, ◌-◌, ◌%◌, ◌^◌, ◌≤◌, ◌<◌, ◌≡◌, ◌≢◌, refl, sym, ap, ◌∙◌, arith, Bool, true,
  false, not, Option, none, some, Bytes, ◌++◌, length, Result, ok, err, panic, stuck, M, Ends,
  Ends-and_then, Ends-weaken, inl, inr, Bool-cases, Option-cases, pure, ◌>>=◌, ◌>>◌, ltb, ◌==◌,
}
use xx_url.Io.{BufRead, ConnWrite}
use xx_url.Ws.Close.{do_close, close}
use xx_url.Ws.Frame.{ControlFrame, new_control, window, write_window, slice, Frame}
use xx_url.Ws.Frames.{read_frame, next_frame}
use xx_url.Ws.Frames.Message.{IsDataKind}
use xx_url.Ws.Header.{FrameHeader, decode_length, read_mask, read_wire, read}
use xx_url.Ws.Platform.{Platform}
use xx_url.Ws.Reader.{accept_header, read_frame_header, read_frame_data, is_continuation}
use xx_url.Ws.Reader.Legal.{IsTaken, after_header, accept_header-ok, accept_header-IsTaken}
use xx_url.Ws.Shared.{can_read}
use xx_url.Ws.Socket.{WebSocket, on_stream}
use xx_url.Ws.Wire.{Op, is_control, FramePacket}

-- What the source relies on: each read ends, `left` bounds what the peer may still send, and what
-- is read of it is gone.
pub record Drains {R : Type 0} (io : BufRead R) (left : R → ℕ) : Type 0 where
  pub types :
      (n : ℕ) (r : R)
      → 0 < n
      → Ends
          (λ o t. (left t ≤ left r) × ((bytes : Bytes) → o ≡ some bytes → left t < left r))
          (io.try_read_type n r)
  pub numbers : (n : ℕ) (r : R) → Ends (λ _ t. left t ≤ left r) (io.read_be n r)
  pub full : (n : ℕ) (r : R) → Ends (λ _ t. left t ≤ left r) (io.read_fully n r)

module _ {R : Type 0} {io : BufRead R} {left : R → ℕ} (d : Drains io left) where
  decode_length-Ends : (len : ℕ) (r : R) → Ends (λ _ t. left t ≤ left r) (decode_length io len r)
  unfolding decode_length
  decode_length-Ends len r = elim (Bool-cases (ltb len 0x7e)) [
    | inl y ↦ rw y (omega arith)
    | inr n ↦ elim (Bool-cases (len == 0x7e)) [
      | inl z ↦ rw (n, z) (d.numbers 2 r)
      | inr z ↦ rw (n, z) (d.numbers 8 r)
    ]
  ]

  read_mask-Ends : (masked : Bool) (r : R) → Ends (λ _ t. left t ≤ left r) (read_mask io masked r)
  read_mask-Ends true r = Ends-and_then _ _ (io.read_be 4 r) _ (d.numbers 4 r) λ _ t h. h
  read_mask-Ends false r = omega arith

  read_wire-Ends :
      (p : FramePacket) (wire : Option Bytes) (r : R)
      → Ends (λ _ t. left t ≤ left r) (read_wire io p wire r)
  read_wire-Ends p none r = omega arith
  read_wire-Ends p (some wire) r =
      Ends-and_then _ _ (decode_length io (p.get_len wire) r) _ (decode_length-Ends _ r) λ _ t h.
        Ends-and_then _ _ (read_mask io (not (p.get_masked wire == 0)) t) _ (read_mask-Ends _ t)
          λ _ u k. omega (arith, h, k)

  abbrev Took : {A : Type 0} → R → Option A → R → Type 0
  Took r none t = left t ≤ left r
  Took r (some _) t = left t < left r

  read-Took : (p : FramePacket) (r : R) → 0 < p.minimum_packet_size → Ends (Took r) (read io p r)
  unfolding read
  read-Took p r pos =
      Ends-and_then _ _ (io.try_read_type p.minimum_packet_size r) _ (d.types _ r pos)
        λ o t h. after o t h
    where
      after :
          (o : Option Bytes) (t : R)
          → (left t ≤ left r) × ((bytes : Bytes) → o ≡ some bytes → left t < left r)
          → Ends (Took r) (read_wire io p o t)
      after none t h = h.0
      after (some wire) t h =
          let less = h.1 wire refl in
          Ends-and_then _ (Took r) (decode_length io (p.get_len wire) t) _ (decode_length-Ends _ t)
            λ _ u k.
              Ends-and_then _ (Took r) (read_mask io (not (p.get_masked wire == 0)) u) _
                (read_mask-Ends _ u) λ _ v l. omega (arith, less, k, l)

module _ {R : Type 0} where
  accept_header-same :
      (frame : FrameHeader) (s : WebSocket R)
      → Ends (λ o t. o ≡ some frame) (accept_header (some frame) s)
  unfolding accept_header
  accept_header-same frame s = ground arith

  -- A header that is accepted was legal.
  accept_header-Legal :
      (frame : FrameHeader) (s : WebSocket R)
      → Ends
          (λ o t. (o ≡ some frame) × IsTaken s frame × (t ≡ after_header s frame))
          (accept_header (some frame) s)
  accept_header-Legal frame s =
      legal (accept_header (some frame) s).0 (accept_header (some frame) s).1 refl
        (accept_header-same frame s)
    where
      legal :
          (result : Result (Option FrameHeader)) (t : WebSocket R)
          → accept_header (some frame) s ≡ (result, t)
          → Ends (λ o t. o ≡ some frame) (result, t)
          → Ends
              (λ o t. (o ≡ some frame) × IsTaken s frame × (t ≡ after_header s frame))
              (result, t)
      legal (ok o) t e h =
          let l = accept_header-ok s frame (ap (λ p. p.0) e ∙ ap ok h) in
          (h, l, ap (λ p. p.1) (sym e ∙ accept_header-IsTaken s frame l))
      legal (err _) t e h = tt
      legal panic t e h = h
      legal stuck t e h = h

-- A call that comes back with its outcome, an error included, and at most `n` left of the stream.
abbrev pub Calm : {R A : Type 0} → (R → ℕ) → ℕ → Result A × R → Type 0
Calm left n m = (m.0 ≢ panic) × (m.0 ≢ stuck) × left m.1 ≤ n

-- The two calls of the end come back, and the timer gives the outcome of its task or none.
pub record Expires {R : Type 0} (out : ConnWrite R) (left : R → ℕ) : Type 0 where
  pub shuts : (r : R) → Calm left (left r) (out.shutdown_write r)
  pub polls : (r : R) → Calm left (left r) (out.poll_hang_up r)
  pub times :
      (duration : ℕ) (task : M R (Unit {0})) (r : R)
      → ((u : R) → Calm left (left u) (task u))
      → ((out.timeout duration task r).0 ≢ some panic)
        × ((out.timeout duration task r).0 ≢ some stuck)
        × (left (out.timeout duration task r).1 ≤ left r)

-- A message that was begun is text or binary, and only one that was begun goes on.
pub record Between {R : Type 0} (s : WebSocket R) : Type 0 where
  pub starts : s.current_message ≡ none → s.expect_continuation ≡ false
  pub data_kind : (op : Op) (buf : Bytes) → s.current_message ≡ some (op, buf) → IsDataKind op
