-- ===== src/Ws/Examples.antt =====
-- The theorems about WebSocket connections at concrete inputs, and runs of the code.
use mathlib.Core.Bool.{decide}
use xx_url.Common.{
  ℕ, ◌≡◌, refl, arith, Bool, true, false, none, some, Bytes, [], ◌∷◌, ◌++◌, ok, err,
}
use xx_url.Common.BigEndian.{to_be}
use xx_url.Errors.{kind, unexpected_eof, web_socket, data_type_mismatch}
use xx_url.Io.Chunks.{Chunks, chunks, unread, chunks-Buffers}
use xx_url.Io.Memory.{memory}
use xx_url.Ws.Concrete.{packet, packet-HasLayout, platform-IsSound}
use xx_url.Ws.Frame.{BorrowedFrame}
use xx_url.Ws.Frame.Borrowed
use xx_url.Ws.Header.{wire_bytes, write_all, FrameHeader, read, write, encode_len}
use xx_url.Ws.Header.RoundTrip.{cursor, read-write}
use xx_url.Ws.Mask.{
  to_be as to_be32, mask_loop, mask_words, to_ne, from_ne, rotate_left, Endian, mask,
}
use xx_url.Ws.Mask.Cyclic.{xor_cyclic, mask_lem}
use xx_url.Ws.Reader.{accept_header, discard_frame_data}
use xx_url.Ws.Reader.Discard.{discard_frame_data_lem, discard_frame_data_at_end}
use xx_url.Ws.Reader.Legal.{IsLegal}
use xx_url.Ws.Shared.{Shutdown, Shared}
use xx_url.Ws.Shared.Halves.{closed, close_halves, shutdown_all, closed-shutdown_all}
use xx_url.Ws.Socket.{WebSocket}
use xx_url.Ws.Wire.{Op-discrete, to_u8, Op}
use xx_url.Ws.Writer.{new_header, prepare, encode_header}
use xx_url.Ws.Writer.Agreement.{Linked, accept_header-prepare}
use xx_url.Ws.Writer.Wire.{send_close-short}

abbrev shared_of : Bool → ℕ → Shared
shared_of is_client max = record {
  max_message_length = max;
  close_timeout = 30000;
  is_client = is_client;
  close_state = none;
}

abbrev fresh : Bool → ℕ → Bytes → WebSocket Bytes
fresh is_client max bytes = record {
  stream = bytes;
  last_sent_message_op = none;
  current_message = none;
  expect_continuation = false;
  shared = shared_of is_client max;
}

abbrev long_header : FrameHeader
long_header = record { fin = false; op = Op.binary; mask = some 0x01020304; len = 70000 }

read-write_example :
    (r' : Bytes) × (read memory packet
        ((write packet long_header (cursor [])).1.written ++ (7 ∷ []))
      ≡ (ok (some long_header), r'))
    × (r' ≡ 7 ∷ [])
read-write_example =
    read-write (platform-IsSound).delivers packet-HasLayout long_header _ (7 ∷ [])
      (record { op_known = λ q. cc; len_fits = omega arith; mask_fits = λ m e. ground arith }) refl

mask_lem_example :
    mask Endian.little (record { pre = 1; words = 1 }) (1 ∷ 2 ∷ 3 ∷ 4 ∷ 5 ∷ 6 ∷ []) 0xa0b0c0d0
    ≡ xor_cyclic 0 (1 ∷ 2 ∷ 3 ∷ 4 ∷ 5 ∷ 6 ∷ []) 0xa0b0c0d0
mask_lem_example =
    mask_lem Endian.little (record { pre = 1; words = 1 }) (1 ∷ 2 ∷ 3 ∷ 4 ∷ 5 ∷ 6 ∷ []) 0xa0b0c0d0
      (omega arith) (omega arith) (omega arith)

masked_run :
    mask Endian.little (record { pre = 1; words = 1 }) (0 ∷ 0 ∷ 0 ∷ 0 ∷ 0 ∷ 0 ∷ []) 0xa0b0c0d0
    ≡ 0xa0 ∷ 0xb0 ∷ 0xc0 ∷ 0xd0 ∷ 0xa0 ∷ 0xb0 ∷ []
unfolding mask mask_loop mask_words to_ne from_ne rotate_left to_be32
masked_run = refl

closed-shutdown_all_example :
    closed (shutdown_all (Shutdown.write ∷ Shutdown.write ∷ Shutdown.read ∷ []) (shared_of true 10))
    ≡ close_halves
        (Shutdown.write ∷ Shutdown.write ∷ Shutdown.read ∷ [])
        (closed (shared_of true 10))
closed-shutdown_all_example =
    closed-shutdown_all (Shutdown.write ∷ Shutdown.write ∷ Shutdown.read ∷ []) (shared_of true 10)

abbrev half_closed : Shared
half_closed = record {
  max_message_length = 10;
  close_timeout = 30000;
  is_client = true;
  close_state = some Shutdown.read;
}

abbrev ping_header : FrameHeader
ping_header = record { fin = true; op = Op.ping; mask = none; len = 3 }

-- A server takes the frame of a client that does not mask.
unmasked_taken : (accept_header (some ping_header) (fresh false 100 [])).0 ≡ ok (some ping_header)
unfolding accept_header
unmasked_taken = refl

unmasked_is_illegal : IsLegal (fresh false 100 []) ping_header → ⊥
unmasked_is_illegal l = cc l.masked

abbrev stray_header : FrameHeader
stray_header = record { fin = true; op = Op.continuation; mask = none; len = 3 }

stray_is_illegal : IsLegal (fresh true 100 []) stray_header → ⊥
stray_is_illegal l = cc (l.message refl)

abbrev two_pieces : Chunks
two_pieces = record { buf = 1 ∷ 2 ∷ []; coming = (3, 4 ∷ []) ∷ (5, 6 ∷ []) ∷ [] }

discard_frame_data_lem_example :
    (r' : Chunks) × (discard_frame_data (chunks 100) 6 4 two_pieces ≡ (ok 0, r'))
    × (r'.buf ++ unread r'.coming ≡ 5 ∷ 6 ∷ [])
discard_frame_data_lem_example =
    discard_frame_data_lem (chunks-Buffers 100) 4 two_pieces (omega arith)

discard_frame_data_at_end_example :
    (discard_frame_data (chunks 100) 9 2 (record { buf = 1 ∷ 2 ∷ []; coming = [] })).0
    ≡ err (kind unexpected_eof)
discard_frame_data_at_end_example =
    discard_frame_data_at_end (chunks-Buffers 100) 8 (record { buf = 1 ∷ 2 ∷ []; coming = [] }) refl

abbrev part : BorrowedFrame
part = Borrowed.text_partial (104 ∷ 105 ∷ [])

sent_header : prepare (new_header true part) (fresh true 100 []) ≡ (
  ok (record { fin = false; op = Op.text; mask = some 0; len = 2 }),
  record (fresh true 100 []) { last_sent_message_op = some Op.text },
)
unfolding prepare new_header Borrowed.text_partial
sent_header = refl

accept_header-prepare_example :
    let h : FrameHeader = record { fin = false; op = Op.text; mask = some 0; len = 2 } in
    ((accept_header (some h) (fresh false 100 [])).0 ≡ ok (some h))
    × Linked
        (record (fresh true 100 []) { last_sent_message_op = some Op.text })
        (accept_header (some h) (fresh false 100 [])).1
unfolding Borrowed.text_partial
accept_header-prepare_example =
    accept_header-prepare (fresh true 100 []) _ (fresh false 100 []) part _
      (record { op_known = λ q. cc; op_first = refl; control_fin = λ q. cc })
      (record { sides = refl; message = refl }) sent_header

-- A binary frame inside a text message.
abbrev binary_header : FrameHeader
binary_header = new_header true (Borrowed.binary (1 ∷ []))

abbrev in_text : WebSocket Bytes
in_text = record (fresh true 100 []) { last_sent_message_op = some Op.text }

mismatch : (prepare binary_header in_text).0 ≡ err (web_socket data_type_mismatch)
unfolding prepare new_header Borrowed.binary Op-discrete decide
mismatch = refl

-- The bytes of a close frame with code 1000 and no reason.
closing :
    encode_header packet (new_header false (Borrowed.close 1000 [])) 1000
    ≡ ok (0x88 ∷ 0 ∷ 0x03 ∷ 0xe8 ∷ [])
unfolding encode_header new_header Borrowed.close write wire_bytes write_all encode_len to_u8 to_be
closing = refl

send_close-short_example :
    (h : FrameHeader) × (r' : Bytes) × (read memory packet (0x88 ∷ 0 ∷ 0x03 ∷ 0xe8 ∷ 9 ∷ [])
      ≡ (ok (some h), r'))
    × (h.len ≡ 0)
    × (r' ≡ to_be 2 1000 ++ (9 ∷ []))
send_close-short_example =
    send_close-short platform-IsSound false 1000 [] (0x88 ∷ 0 ∷ 0x03 ∷ 0xe8 ∷ []) (9 ∷ [])
      (0x88 ∷ 0 ∷ 0x03 ∷ 0xe8 ∷ 9 ∷ []) (omega arith) closing refl
