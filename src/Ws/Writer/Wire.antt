-- ===== src/Ws/Writer/Wire.antt =====
-- The bytes that a writer sends.
use xx_url.Common.{
  pure, ℕ, ◌+◌, ◌^◌, ◌≤◌, ◌<◌, ◌≡◌, ◌≢◌, refl, sym, ap, ◌∙◌, arith, Bool, true, false, none, some,
  Bytes, [], ◌++◌, append_assoc, append-nil, length, ok, if◌then◌else◌,
}
use xx_url.Common.BigEndian.{to_be, length-to_be}
use xx_url.Ws.Frame.{BorrowedFrame}
use xx_url.Ws.Frame.Borrowed
use xx_url.Ws.Header.{FrameHeader, write_all, read}
use xx_url.Ws.Header.RoundTrip.{
  Fits, header_bytes, length-header_bytes, cursor, write_lem, read-header_bytes,
}
use xx_url.Ws.Platform.{Platform, IsSound}
use xx_url.Ws.Reader.{is_close}
use xx_url.Ws.Shared.{can_write}
use xx_url.Ws.Socket.{WebSocket, on_stream}
use xx_url.Ws.Wire.{Op, FramePacket, HasLayout}
use xx_url.Ws.Writer.{new_header, prepare, encode_header, send_frame, send_data}

abbrev pub close_suffix : Bool → ℕ → Bytes
close_suffix true code = to_be 2 code
close_suffix false code = []

write_all_here :
    (bytes done : Bytes)
    → length done + length bytes ≤ 16
    → write_all bytes (cursor done) ≡ (ok tt, cursor (done ++ bytes))
unfolding write_all
write_all_here bytes done h = ground arith

write_suffix :
    (closing : Bool) (code : ℕ) (done : Bytes)
    → length done ≤ 14
    → (if closing then write_all (to_be 2 code) else pure tt) (cursor done)
      ≡ (ok tt, cursor (done ++ close_suffix closing code))
write_suffix true code done h =
    write_all_here (to_be 2 code) done (omega (arith, length-to_be 2 code))
write_suffix false code done h = ap (λ bs. (ok tt, cursor bs)) (sym (append-nil done))

module _ {p : FramePacket} (l : HasLayout p) where
  -- The array of 16 bytes is never too short: the header and, for a close frame, the code.
  pub encode_header_lem :
      (h : FrameHeader) (code : ℕ)
      → h.op ≢ Op.invalid
      → encode_header p h code ≡ ok (header_bytes h ++ close_suffix (is_close h.op) code)
  unfolding encode_header
  encode_header_lem h code known =
      rw (write_lem l h known)
        (rw (write_suffix (is_close h.op) code (header_bytes h) (length-header_bytes h)))

new_header-Fits :
    (client : Bool) (frame : BorrowedFrame)
    → frame.op ≢ Op.invalid
    → length frame.payload < 2 ^ 64
    → Fits (new_header client frame)
unfolding new_header
new_header-Fits client frame known small = record {
  op_known = known;
  len_fits = small;
  mask_fits = λ m e. zero_fits client m e;
}
  where
    zero_fits : (b : Bool) (m : ℕ) → (if b then some 0 else none) ≡ some m → m < 2 ^ 32
    zero_fits b m e = ground arith

module _ {R : Type 0} {x : Platform R} {pending : R → Bytes} (sound : IsSound x pending) where
  -- What is sent for an open connection and a frame that passes the checks, close frames apart:
  -- the header of RFC 6455 and the payload as it is, in one vectored write.
  pub send_frame-message :
      (frame : BorrowedFrame) (s s' : WebSocket R) (h : FrameHeader)
      → can_write s.shared ≡ true
      → is_close frame.op ≡ false
      → prepare (new_header s.shared.is_client frame) s ≡ (ok h, s')
      → h.op ≢ Op.invalid
      → is_close h.op ≡ false
      → send_frame x frame s ≡ on_stream (send_data x false (header_bytes h ++ frame.payload)) s'
  unfolding send_frame
  send_frame-message frame s s' h can open_ passed known open_h =
      let encoded : encode_header x.packet h frame.close_code ≡ ok (header_bytes h) =
        encode_header_lem sound.layout h frame.close_code known
        ∙ ap ok (
            ap (λ b. header_bytes h ++ close_suffix b frame.close_code) open_h
            ∙ append-nil (header_bytes h)) in
      rw (can, open_, passed) (rw encoded)

  -- The close frame of `Frame::close`, as its receiver reads it: the length in the header is
  -- that of the reason alone, so the two bytes of the code count as payload and the last two
  -- bytes of the frame are left in the stream.
  pub send_close-short :
      (client : Bool) (code : ℕ) (reason head rest : Bytes) (r : R)
      → length reason < 2 ^ 64
      → encode_header x.packet (new_header client (Borrowed.close code reason)) code ≡ ok head
      → pending r ≡ (head ++ reason) ++ rest
      → (h : FrameHeader) × (r' : R) × (read x.io x.packet r ≡ (ok (some h), r'))
        × (h.len ≡ length reason)
        × (pending r' ≡ to_be 2 code ++ (reason ++ rest))
  unfolding new_header Borrowed.close
  send_close-short client code reason head rest r small sent e =
      let h : FrameHeader = new_header client (Borrowed.close code reason) in
      let fits = new_header-Fits client (Borrowed.close code reason) (λ q. cc) small in
      let bytes : head ≡ header_bytes h ++ to_be 2 code =
        cc (encode_header_lem sound.layout h code fits.op_known) in
      let (r', reads, left) =
        read-header_bytes sound.delivers sound.layout h r (to_be 2 code ++ (reason ++ rest)) fits
          (e ∙ ap (λ bs. (bs ++ reason) ++ rest) bytes ∙ simp append_assoc) in
      (h, r', reads, refl, left)
