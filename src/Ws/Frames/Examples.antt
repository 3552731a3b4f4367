-- ===== src/Ws/Frames/Examples.antt =====
-- The theorems about messages in frames at concrete inputs.
use xx_url.Common.{
  ℕ, ◌≡◌, refl, arith, inr, Bool, true, false, none, some, Bytes, [], ◌∷◌, ◌++◌, err, panic,
}
use xx_url.Errors.{web_socket, message_too_long}
use xx_url.Ws.Concrete.{platform, platform-IsSound}
use xx_url.Ws.Frames.{read_frame}
use xx_url.Ws.Frames.Abandoned.{read_frame-panic}
use xx_url.Ws.Frames.Fragment.{Fragment, frame_bytes}
use xx_url.Ws.Frames.Message.{message_bytes}
use xx_url.Ws.Header.{FrameHeader}
use xx_url.Ws.Header.RoundTrip.{header_bytes}
use xx_url.Ws.Shared.{Shared, can_read}
use xx_url.Ws.Socket.{WebSocket}
use xx_url.Ws.Wire.{Op}

abbrev shared_of : Bool → ℕ → Shared
shared_of is_client max = record {
  max_message_length = max;
  close_timeout = 30000;
  is_client = is_client;
  close_state = none;
}

abbrev fresh : Bool → ℕ → Bytes → WebSocket Bytes
fresh is_client max bytes = record {
  stream = bytes;
  last_sent_message_op = none;
  current_message = none;
  expect_continuation = false;
  shared = shared_of is_client max;
}

-- "hé" in two fragments that cut the second letter, the first of them masked.
abbrev first_part : Fragment
first_part = record { payload = 0x68 ∷ 0xc3 ∷ []; mask = some 0x01020304 }

abbrev last_part : Fragment
last_part = record { payload = 0xa9 ∷ []; mask = none }

abbrev incoming : Bytes
incoming = message_bytes Op.text (first_part ∷ last_part ∷ [])

abbrev too_long_header : FrameHeader
too_long_header = record { fin = false; op = Op.binary; mask = none; len = 101 }

abbrev stray : Fragment
stray = record { payload = 1 ∷ []; mask = none }

read_frame-panic_example :
    (s' : WebSocket Bytes) × (read_frame platform (
        fresh true 100
          (header_bytes too_long_header ++ (frame_bytes true Op.continuation stray ++ [])))
      ≡ (err (web_socket message_too_long), s'))
    × ((read_frame platform s').0 ≡ panic)
read_frame-panic_example =
    read_frame-panic platform-IsSound
      (fresh true 100
        (header_bytes too_long_header ++ (frame_bytes true Op.continuation stray ++ [])))
      too_long_header stray []
      (record {
        fits = record { op_known = λ q. cc; len_fits = omega arith; mask_fits = λ m e. cc };
        starts = inr refl;
        goes_on = refl;
        unmasked = λ q. refl;
        long = omega arith;
      })
      (unfold can_read in refl) refl refl
      (record {
        unmasked = λ q. refl;
        mask_fits = λ m e. cc;
        bytes_fit = omega arith;
        len_fits = omega arith;
      })
      (omega arith) refl
