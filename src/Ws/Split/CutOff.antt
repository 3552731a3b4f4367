-- ===== src/Ws/Split/CutOff.antt =====
-- ws/stream.rs: both halves may end the closing handshake, and the read half then shuts the sending
-- side down while the close frame is still to be written.
use mathlib.Core.Path.{subst}
use xx_url.Common.{
  ◌≤◌, true, none, some, Bytes, [], ◌∷◌, ◌++◌, if◌then◌else◌, ◌≡◌, refl, arith, length, ok,
}
use xx_url.Ws.Frame.{BorrowedFrame}
use xx_url.Ws.Header.{FrameHeader}
use xx_url.Ws.Reader.{accept_header, is_close}
use xx_url.Ws.Shared.{Shared, Shutdown, shutdown, can_read, can_write, should_close}
use xx_url.Ws.Socket.{WebSocket}
use xx_url.Ws.Split.{
  ReaderPc, WriterPc, Wire, After, behind_header, put_message, ReadMove, WriteMove, Reach, System,
  begin_frame, here, next, reads, writes, split, shut_wire,
}
use xx_url.Ws.Wire.{Op, FramePacket}
use xx_url.Ws.Writer.{new_header, prepare, encode_header}

-- The header of a close frame of the peer, whose content is a code.
abbrev bye : FrameHeader
bye = record { fin = true; op = Op.close; mask = none; len = 2 }

abbrev closing : Shutdown → WebSocket Wire → WebSocket Wire
closing how s =
    let shared : Shared = s.shared in record s { shared = record shared { close_state = some how } }

accept_bye :
    (s : WebSocket Wire)
    → s.shared.close_state ≡ none
    → accept_header (some bye) s ≡ (ok (some bye), closing Shutdown.read s)
unfolding accept_header shutdown
accept_bye s open_ = ground (arith, open_)

-- The content of the close frame is waited for.
bye_waits :
    (s : WebSocket Wire)
    → 2 ≤ s.shared.max_message_length
    → behind_header (closing Shutdown.read s) (ok (some bye)) ≡ ReaderPc.in_body bye
bye_waits s roomy = ground (arith, roomy)

prepare_close :
    (s : WebSocket Wire) (frame : BorrowedFrame)
    → is_close frame.op ≡ true
    → length frame.payload ≤ 123
    → prepare (new_header s.shared.is_client frame) s
      ≡ (ok (new_header s.shared.is_client frame), s)
unfolding prepare new_header
prepare_close s frame closes short = ground (arith, closes, short)

begin_last :
    (s : WebSocket Wire) (frame : BorrowedFrame)
    → is_close frame.op ≡ true
    → s.shared.close_state ≡ some Shutdown.read
    → begin_frame frame s ≡ (After.closes, closing Shutdown.both s)
unfolding shutdown
begin_last s frame closes half = ground (arith, closes, half)

half_open : (s : WebSocket Wire) → s.shared.close_state ≡ none → can_read s.shared ≡ true
unfolding can_read
half_open s open_ = ground (arith, open_)

write_open : (s : WebSocket Wire) → can_write (closing Shutdown.read s).shared ≡ true
unfolding can_write
write_open s = refl

both_closed : (s : WebSocket Wire) → should_close (closing Shutdown.both s).shared ≡ true
unfolding should_close
both_closed s = refl

-- Both halves are open, and a message may have two bytes. If the header of a close frame of the
-- peer has arrived, and this end begins to send its own while the read half waits for the code,
-- then there is an interleaving in which the sending side is shut down by the read half before a
-- byte of the close frame is written, with all of it still to be written.
pub cut_off :
    (packet : FramePacket) (s : WebSocket Wire) (frame : BorrowedFrame) (head : Bytes)
    → s.shared.close_state ≡ none
    → 2 ≤ s.shared.max_message_length
    → is_close frame.op ≡ true
    → length frame.payload ≤ 123
    → encode_header packet (new_header s.shared.is_client frame) frame.close_code ≡ ok head
    → (t : System) × (Reach packet (split s) t)
      × (t.writer ≡ WriterPc.in_write (head ++ frame.payload) After.closes)
      × (t.socket.stream ≡ record { sent = s.stream.sent; shut = true })
cut_off packet s frame head open_ roomy closes short encoded =
    let s1 = closing Shutdown.read s in
    let s2 = closing Shutdown.both s in
    let s3 = shut_wire s2 in
    let bytes = head ++ frame.payload in
    let arrives =
      subst (λ pc. ReadMove s ReaderPc.in_header s1 pc) (bye_waits s roomy)
        (subst
          (λ p.
            ReadMove s ReaderPc.in_header (put_message s.current_message p.1)
              (behind_header p.1 p.0))
          (accept_bye s open_) (ReadMove.arrive (some bye) s.current_message (λ _. refl))) in
    let begins =
      subst
        (λ p.
          WriteMove packet s1 WriterPc.outside (frame.op ∷ []) p.1 (WriterPc.in_write bytes p.0))
        (begin_last s1 frame closes refl)
        (WriteMove.call frame (new_header s.shared.is_client frame) s1 head (write_open s)
          (prepare_close s1 frame closes short) encoded) in
    let ends =
      subst
        (λ b.
          ReadMove s2 (ReaderPc.in_body bye) s2
            (if b then ReaderPc.in_shutdown else ReaderPc.outside))
        (both_closed s) (ReadMove.deliver bye s2.current_message (λ _. refl)) in
    (
      _,
      next
          (next
            (next (next (next here (reads (ReadMove.call (half_open s open_)))) (reads arrives))
              (writes begins))
            (reads ends))
          (reads ReadMove.shutdown_write),
      refl,
      refl,
    )
