-- ===== src/Ws/Writer/Delivery.antt =====
-- ws/stream.rs: a message from the writer of one end to the reader of the other.
mod Examples
use xx_url.Common.{
  ℕ, ◌+◌, ◌^◌, ◌≤◌, ◌<◌, ◌≡◌, refl, sym, ap, ◌∙◌, arith, Bool, true, false, not, none, some, List,
  Bytes, [], ◌∷◌, ◌++◌, length, length-append, length-map, map, All, IsByte, Ends, Ends-weaken,
  is_some, ok,
}
use xx_url.Ws.Frames.{next_frame}
use xx_url.Ws.Frames.Message.{
  IsDataKind, message_bytes, deliver, Travels, whole, next_frame-message,
}
use xx_url.Ws.Platform.{Platform, IsSound}
use xx_url.Ws.Shared.{Shared, can_write, can_read}
use xx_url.Ws.Socket.{WebSocket}
use xx_url.Ws.Wire.{Op}
use xx_url.Ws.Writer.Agreement.{Linked}
use xx_url.Ws.Writer.Message.{Puts, frames_of, fragment_of, key_of, send_all, send_rest-Wrote}

abbrev pub joined : List Bytes → Bytes
joined [] = []
joined (p ∷ ps) = p ++ joined ps

-- The bytes of a message that a client or a server sends in these pieces.
abbrev pub sent_bytes : Bool → Op → List Bytes → Bytes
sent_bytes is_client kind ps = message_bytes kind (map (fragment_of is_client) ps)

whole-joined :
    (is_client : Bool) (ps : List Bytes) → whole (map (fragment_of is_client) ps) ≡ joined ps
whole-joined is_client [] = refl
whole-joined is_client (p ∷ ps) = ap (λ bs. p ++ bs) (whole-joined is_client ps)

-- A piece is of bytes, and its length fits 64 bits.
abbrev pub IsPiece : Bytes → Type 0
IsPiece p = All IsByte p × (length p < 2 ^ 64)

pieces-Travels :
    (sender receiver : Bool) (ps : List Bytes)
    → receiver ≡ not sender
    → All IsPiece ps
    → All (Travels receiver) (map (fragment_of sender) ps)
pieces-Travels sender receiver [] sides h = tt
pieces-Travels sender receiver (p ∷ ps) sides h = (
  record {
    unmasked = λ q. ground (arith, q, sides);
    mask_fits = λ m e. ground (arith, e);
    bytes_fit = h.0.0;
    len_fits = h.0.1;
  },
  pieces-Travels sender receiver ps sides h.1,
)

module _ {R S : Type 0} {x : Platform R} {y : Platform S} {pending sent : R → Bytes}
    {incoming : S → Bytes} (sound : IsSound x pending) (out : Puts x sent)
    (sound' : IsSound y incoming) where
  -- One end sends a text or binary message in any number of pieces, where nothing was begun and it
  -- may write: it fails, or the bytes are on the wire and it is between messages again. The other
  -- end, which is linked to it and may read, delivers the pieces joined as one frame if the bytes
  -- arrive and their number is within its limit, with one round for each piece, and leaves what
  -- follows in the stream; text that is no UTF-8 gives its error.
  pub send_all-next_frame :
      (kind : Op) (p : Bytes) (ps : List Bytes) (fuel : ℕ) (w : WebSocket R) (r : WebSocket S)
      (rest : Bytes)
      → IsDataKind kind
      → All IsPiece (p ∷ ps)
      → can_write w.shared ≡ true
      → w.last_sent_message_op ≡ none
      → can_read r.shared ≡ true
      → r.current_message ≡ none
      → Linked w r
      → length ps < fuel
      → length (joined (p ∷ ps)) ≤ r.shared.max_message_length
      → incoming r.stream ≡ sent_bytes w.shared.is_client kind (p ∷ ps) ++ rest
      → Ends
          (λ _ t.
            (sent t.stream ≡ sent w.stream ++ sent_bytes w.shared.is_client kind (p ∷ ps))
            × (t.last_sent_message_op ≡ none))
          (send_all x (frames_of kind (p ∷ ps)) w)
        × ((s' : S) × (incoming s' ≡ rest)
            × (next_frame y fuel r ≡ (
              deliver kind (joined (p ∷ ps)),
              record r { stream = s'; expect_continuation = false; current_message = none },
            )))
  send_all-next_frame kind p ps fuel w r rest k pieces can between can' nothing link enough short
        e =
      let client = w.shared.is_client in
      let same = whole-joined client (p ∷ ps) in
      let (s', left, got) =
        next_frame-message sound' kind (fragment_of client p) (map (fragment_of client) ps) fuel r
          rest k (omega (arith, enough, length-map (fragment_of client) ps)) can'
          (sym link.message ∙ ap is_some between) nothing
          (pieces-Travels client r.shared.is_client (p ∷ ps) link.sides pieces)
          (omega (arith, short, ap length same)) e in
      (
        Ends-weaken _ _ (send_all x (frames_of kind (p ∷ ps)) w)
            (send_rest-Wrote sound out kind false p ps w k can between) λ _ t h. (h.0, h.1),
        (
          s',
          left,
          got
              ∙ ap
                  (λ bs. (
                    deliver kind bs,
                    record r { stream = s'; expect_continuation = false; current_message = none },
                  ))
                  same,
        ),
      )
