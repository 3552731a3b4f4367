-- ===== src/Ws/Writer/Message.antt =====
-- ws/stream.rs: a message that is sent in frames, and the reader at the other end.
use mathlib.Core.Bool.{decide}
use xx_url.Common.{
  ℕ, zero, suc, ◌≤◌, ◌≡◌, ◌≢◌, refl, sym, ap, ap₂, ◌∙◌, arith, Bool, true, false, Option, none,
  some, List, Bytes, [], ◌∷◌, ◌++◌, append_assoc, length, take, map, ltb, M, ok, pure, ◌>>◌, inl,
  inr, Bool-cases, if◌then◌else◌, Ends, Ends-and_then, Ends-weaken,
}
use xx_url.Ws.Frame.{BorrowedFrame}
use xx_url.Ws.Frames.Fragment.{Fragment, header_of, masked, frame_bytes}
use xx_url.Ws.Frames.Message.{IsDataKind, message_bytes}
use xx_url.Ws.Header.RoundTrip.{header_bytes}
use xx_url.Ws.Mask.Cyclic.{xor_cyclic_zero}
use xx_url.Ws.Platform.{Platform, IsSound}
use xx_url.Ws.Shared.{Shared, can_write}
use xx_url.Ws.Reader.{is_close}
use xx_url.Ws.Socket.{WebSocket, on_stream-Ends}
use xx_url.Ws.Wire.{Op, Op-discrete}
use xx_url.Ws.Writer.{new_header, prepare, send_frame, send_data}
use xx_url.Ws.Writer.Wire.{send_frame-message}

-- The frames in which a program sends a message of kind `kind`.
abbrev frame_of : Bool → Op → Bytes → BorrowedFrame
frame_of fin kind payload = record { op = kind; close_code = 0; payload = payload; fin = fin }

abbrev pub frames_of : Op → List Bytes → List BorrowedFrame
frames_of kind [] = []
frames_of kind (p ∷ []) = frame_of true kind p ∷ []
frames_of kind (p ∷ (q ∷ ps)) = frame_of false kind p ∷ frames_of kind (q ∷ ps)

-- The fragments that they are on the wire: a client masks with the key 0.
abbrev pub key_of : Bool → Option ℕ
key_of is_client = if is_client then some 0 else none

abbrev pub fragment_of : Bool → Bytes → Fragment
fragment_of is_client payload = record { payload = payload; mask = key_of is_client }

masked-key_of : (is_client : Bool) (bytes : Bytes) → masked (key_of is_client) bytes ≡ bytes
masked-key_of true bytes = xor_cyclic_zero 0 bytes
masked-key_of false bytes = refl

-- Behind the first frame of a message the writer remembers its opcode, and sends continuations.
abbrev next_op : Bool → Op → Op
next_op begun kind = if begun then Op.continuation else kind

module _ {R : Type 0} where
  prepare-data :
      (kind : Op) (fin begun : Bool) (p : Bytes) (s : WebSocket R)
      → IsDataKind kind
      → s.last_sent_message_op ≡ (if begun then some kind else none)
      → prepare (new_header s.shared.is_client (frame_of fin kind p)) s ≡ (
        ok (header_of fin (next_op begun kind) (fragment_of s.shared.is_client p)),
        record s { last_sent_message_op = if fin then none else some kind },
      )
  unfolding prepare new_header Op-discrete decide
  prepare-data Op.text fin true p s k e = rw e refl
  prepare-data Op.text fin false p s k e = rw e refl
  prepare-data Op.binary fin true p s k e = rw e refl
  prepare-data Op.binary fin false p s k e = rw e refl
  prepare-data _ fin begun p s (inl h) e = cc
  prepare-data _ fin begun p s (inr h) e = cc

-- What the source relies on: `write_all_vectored` puts as many bytes of the buffers on the wire as
-- it says, from the first on, or fails.
pub record Puts {R : Type 0} (x : Platform R) (sent : R → Bytes) : Type 0 where
  pub puts :
      (bytes : Bytes) (r : R)
      → Ends
          (λ n t. (n ≤ length bytes) × (sent t ≡ sent r ++ take n bytes))
          (x.out.write_all_vectored bytes r)

pub take_whole : (n : ℕ) (bs : Bytes) → length bs ≤ n → take n bs ≡ bs
take_whole zero [] h = refl
take_whole zero (b ∷ bs) h = absurd (omega arith)
take_whole (suc n) [] h = refl
take_whole (suc n) (b ∷ bs) h = ap (◌∷◌ b) (take_whole n bs (omega arith))

module _ {R : Type 0} (x : Platform R) where
  -- The calls of a program that sends these frames.
  abbrev pub send_all : List BorrowedFrame → M (WebSocket R) (Unit {0})
  send_all [] = pure tt
  send_all (frame ∷ frames) = do send_frame x frame; send_all frames

module _ {R : Type 0} {x : Platform R} {pending sent : R → Bytes} (sound : IsSound x pending)
    (out : Puts x sent) where
  send_data-Ends :
      (bytes : Bytes) (r : R) → Ends (λ _ t. sent t ≡ sent r ++ bytes) (send_data x false bytes r)
  unfolding send_data
  send_data-Ends bytes r =
      Ends-and_then _ _ (x.out.write_all_vectored bytes r) _ (out.puts bytes r) λ n t h.
        elim (Bool-cases (ltb n (length bytes))) [
          | inl y ↦ rw y tt
          | inr k ↦
              rw k (h.1 ∙ ap (λ bs. sent r ++ bs) (take_whole n bytes (ground (arith, h.0, k))))
        ]

  -- Frames went out as these bytes, and the writer remembers `last`.
  abbrev Wrote : WebSocket R → Bytes → Option Op → WebSocket R → Type 0
  Wrote s bytes last t =
      (sent t.stream ≡ sent s.stream ++ bytes)
      × (t.last_sent_message_op ≡ last)
      × (t.shared ≡ s.shared)

  send_frame-Wrote :
      (kind : Op) (fin begun : Bool) (p : Bytes) (s : WebSocket R)
      → IsDataKind kind
      → can_write s.shared ≡ true
      → s.last_sent_message_op ≡ (if begun then some kind else none)
      → Ends
          (λ _ t.
            Wrote s
              (frame_bytes fin (next_op begun kind) (fragment_of s.shared.is_client p))
              (if fin then none else some kind)
              t)
          (send_frame x (frame_of fin kind p) s)
  send_frame-Wrote kind fin begun p s k can e =
      let h = header_of fin (next_op begun kind) (fragment_of s.shared.is_client p) in
      let s' : WebSocket R = record s { last_sent_message_op = if fin then none else some kind } in
      rw
        (send_frame-message sound (frame_of fin kind p) s s' h can (not_close kind k)
          (prepare-data kind fin begun p s k e) (known begun kind k) (open_op begun kind k))
        (on_stream-Ends _ (send_data x false (header_bytes h ++ p)) s' (
          Ends-weaken _ _ (send_data x false (header_bytes h ++ p) s.stream)
            (send_data-Ends (header_bytes h ++ p) s.stream)
            λ _ r q. (
              q
                  ∙ ap (λ bs. sent s.stream ++ (header_bytes h ++ bs))
                      (sym (masked-key_of s.shared.is_client p)),
              refl,
              refl,
            )))
    where
      not_close : (kind : Op) → IsDataKind kind → is_close kind ≡ false
      not_close kind (inl h) = rw h
      not_close kind (inr h) = rw h

      known : (begun : Bool) (kind : Op) → IsDataKind kind → next_op begun kind ≢ Op.invalid
      known true kind k = λ q. cc
      known false kind (inl h) = λ q. cc
      known false kind (inr h) = λ q. cc

      open_op : (begun : Bool) (kind : Op) → IsDataKind kind → is_close (next_op begun kind) ≡ false
      open_op true kind k = refl
      open_op false kind k = not_close kind k

  pub send_rest-Wrote :
      (kind : Op) (begun : Bool) (p : Bytes) (ps : List Bytes) (s : WebSocket R)
      → IsDataKind kind
      → can_write s.shared ≡ true
      → s.last_sent_message_op ≡ (if begun then some kind else none)
      → Ends
          (λ _ t.
            Wrote s
              (message_bytes (next_op begun kind) (map (fragment_of s.shared.is_client) (p ∷ ps)))
              none
              t)
          (send_all x (frames_of kind (p ∷ ps)) s)
  send_rest-Wrote kind begun p [] s k can e =
      Ends-and_then _ _ (send_frame x (frame_of true kind p) s) _
        (send_frame-Wrote kind true begun p s k can e) λ _ t w. w
  send_rest-Wrote kind begun p (q ∷ ps) s k can e =
      let client = s.shared.is_client in
      Ends-and_then _ _ (send_frame x (frame_of false kind p) s) _
        (send_frame-Wrote kind false begun p s k can e)
        λ _ t w.
          Ends-weaken _ _ (send_all x (frames_of kind (q ∷ ps)) t)
            (send_rest-Wrote kind true q ps t k (ap can_write w.2 ∙ can) w.1)
            λ _ u v. (
              v.0
                  ∙ ap₂
                      (λ (a : Bytes) (c : Shared).
                        a ++ message_bytes Op.continuation (map (fragment_of c.is_client) (q ∷ ps)))
                      w.0 w.2
                  ∙ append_assoc (sent s.stream)
                      (frame_bytes false (next_op begun kind) (fragment_of client p)) _,
              v.1,
              v.2 ∙ w.2,
            )
