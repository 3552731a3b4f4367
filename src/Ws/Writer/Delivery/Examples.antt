-- ===== src/Ws/Writer/Delivery/Examples.antt =====
-- The theorem about a message between two ends at a concrete message.
use xx_url.Common.{
  ◌≡◌, refl, sym, ap, arith, Bool, true, false, none, Bytes, [], ◌∷◌, ◌++◌, length, ok, Ends, inl,
}
use xx_url.Io.{ConnWrite}
use xx_url.Ws.Concrete.{platform, platform-IsSound}
use xx_url.Ws.Frames.{next_frame}
use xx_url.Ws.Frames.Message.{deliver}
use xx_url.Ws.Platform.{Platform, IsSound}
use xx_url.Ws.Shared.{can_write, can_read}
use xx_url.Ws.Socket.{WebSocket}
use xx_url.Ws.Wire.{Op}
use xx_url.Ws.Writer.Delivery.{sent_bytes, send_all-next_frame}
use xx_url.Ws.Writer.Message.{Puts, frames_of, send_all, take_whole}

-- A connection that keeps what is written.
abbrev kept : ConnWrite Bytes
kept = record (platform.out) { write_all_vectored = λ bytes r. (ok (length bytes), r ++ bytes) }

abbrev keeping : Platform Bytes
keeping = record platform { out = kept }

keeping-IsSound : IsSound keeping (λ r. r)
keeping-IsSound = record {
  delivers = (platform-IsSound).delivers;
  layout = (platform-IsSound).layout;
  aligned = (platform-IsSound).aligned;
}

keeping-Puts : Puts keeping (λ r. r)
keeping-Puts = record {
  puts = λ bytes r.
      (omega arith, ap (λ bs. r ++ bs) (sym (take_whole (length bytes) bytes (omega arith))));
}

abbrev end_of : Bool → Bytes → WebSocket Bytes
end_of is_client bytes = record {
  stream = bytes;
  last_sent_message_op = none;
  current_message = none;
  expect_continuation = false;
  shared = record {
    max_message_length = 100;
    close_timeout = 30000;
    is_client = is_client;
    close_state = none;
  };
}

-- "hé" in two pieces that cut the second letter, from the client to the server.
send_all-next_frame_example :
    Ends
      (λ _ t.
        (t.stream ≡ [] ++ sent_bytes true Op.text ((0x68 ∷ 0xc3 ∷ []) ∷ ((0xa9 ∷ []) ∷ [])))
        × (t.last_sent_message_op ≡ none))
      (send_all keeping
        (frames_of Op.text ((0x68 ∷ 0xc3 ∷ []) ∷ ((0xa9 ∷ []) ∷ [])))
        (end_of true []))
    × ((s' : Bytes) × (s' ≡ 7 ∷ [])
        × (next_frame platform 2 (
              end_of false
                (sent_bytes true Op.text ((0x68 ∷ 0xc3 ∷ []) ∷ ((0xa9 ∷ []) ∷ [])) ++ (7 ∷ [])))
            ≡ (
              deliver Op.text (0x68 ∷ 0xc3 ∷ 0xa9 ∷ []),
              record (end_of false []) { stream = s' },
            )))
send_all-next_frame_example =
    send_all-next_frame keeping-IsSound keeping-Puts platform-IsSound Op.text (0x68 ∷ 0xc3 ∷ [])
      ((0xa9 ∷ []) ∷ []) 2 (end_of true [])
      (end_of false (sent_bytes true Op.text ((0x68 ∷ 0xc3 ∷ []) ∷ ((0xa9 ∷ []) ∷ [])) ++ (7 ∷ [])))
      (7 ∷ []) (inl refl) (((ground arith), omega arith), (((ground arith), omega arith), tt))
      (unfold can_write in refl) refl (unfold can_read in refl) refl
      (record { sides = refl; message = refl }) (omega arith) (omega arith) refl
