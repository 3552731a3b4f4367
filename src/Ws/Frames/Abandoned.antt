-- ===== src/Ws/Frames/Abandoned.antt =====
-- What a program gets that reads on after a message was too long.
use xx_url.Common.{
  ◌≤◌, ◌<◌, ◌≡◌, refl, sym, ◌∙◌, arith, true, false, none, some, Bytes, [], ◌++◌, length, ok, err,
  panic, lt→ltb,
}
use xx_url.Errors.{web_socket, message_too_long}
use xx_url.Ws.Frames.{finish_message, store_message, read_body, read_frame}
use xx_url.Ws.Frames.Fragment.{Fragment, frame_bytes, Readable, read_frame-fragment}
use xx_url.Ws.Frames.Message.{Travels, IsDataKind}
use xx_url.Ws.Header.{FrameHeader}
use xx_url.Ws.Header.RoundTrip.{Fits, header_bytes, read-header_bytes}
use xx_url.Ws.Platform.{Platform, IsSound}
use xx_url.Ws.Reader.{read_frame_header, accept_header, is_continuation, is_close}
use xx_url.Ws.Reader.Legal.{IsTaken, accept_header-IsTaken}
use xx_url.Ws.Shared.{can_read}
use xx_url.Ws.Socket.{WebSocket}
use xx_url.Ws.Wire.{Op, is_control}

module _ {R : Type 0} {x : Platform R} {pending : R → Bytes} (sound : IsSound x pending) where
  -- The first frame of a message with more bytes than the limit.
  pub record IsTooLong (s : WebSocket R) (h : FrameHeader) : Type 0 where
    pub fits : Fits h
    pub starts : IsDataKind h.op
    pub goes_on : h.fin ≡ false
    pub unmasked : s.shared.is_client ≡ true → h.mask ≡ none
    pub long : s.shared.max_message_length < h.len

  -- The frame is refused, its payload is not read, and a continuation is expected though no
  -- message was begun.
  read_frame-too_long :
      (s : WebSocket R) (h : FrameHeader) (rest : Bytes)
      → IsTooLong s h
      → can_read s.shared ≡ true
      → s.expect_continuation ≡ false
      → pending s.stream ≡ header_bytes h ++ rest
      → (r' : R) × (pending r' ≡ rest)
        × (read_frame x s ≡ (
          err (web_socket message_too_long),
          record s { stream = r'; expect_continuation = true },
        ))
  unfolding read_frame read_frame_header read_body
  read_frame-too_long s h rest t can between e =
      let (r1, reads, left) =
        read-header_bytes sound.delivers sound.layout h s.stream rest t.fits e in
      let s1 : WebSocket R = record s { stream = r1 } in
      let data_op : is_control h.op ≡ false = ground (arith, t.starts) in
      let open_op : is_close h.op ≡ false = ground (arith, t.starts) in
      let first : is_continuation h.op ≡ false = ground (arith, t.starts) in
      let legal : IsTaken s1 h = record {
        op_known = t.fits.op_known;
        control = λ q. cc (data_op);
        message = λ _. first ∙ sym between;
        unmasked = t.unmasked;
      } in
      let accepted : accept_header (some h) s1
          ≡ (ok (some h), record s1 { expect_continuation = true }) =
        accept_header-IsTaken s1 h legal ∙ rw (data_op, open_op, t.goes_on) in
      (r1, left, rw can (rw reads (rw accepted (rw (lt→ltb _ _ t.long)))))

  -- If the rest of the stream begins with a final continuation frame, then reading on reaches
  -- `unreachable!()`. Both frames come from the peer, so the peer can bring this about.
  pub read_frame-panic :
      (s : WebSocket R) (h : FrameHeader) (f : Fragment) (rest : Bytes)
      → IsTooLong s h
      → can_read s.shared ≡ true
      → s.expect_continuation ≡ false
      → s.current_message ≡ none
      → Travels s.shared.is_client f
      → length f.payload ≤ s.shared.max_message_length
      → pending s.stream ≡ header_bytes h ++ (frame_bytes true Op.continuation f ++ rest)
      → (s' : WebSocket R) × (read_frame x s ≡ (err (web_socket message_too_long), s'))
        × ((read_frame x s').0 ≡ panic)
  unfolding store_message finish_message
  read_frame-panic s h f rest t can between nothing travels short e =
      let (r1, left, refused) = read_frame-too_long s h _ t can between e in
      let s1 : WebSocket R = record s { stream = r1; expect_continuation = true } in
      let c : Readable sound s1 true Op.continuation f Op.continuation [] = record {
        open_ = can;
        is_data = refl;
        op_known = λ q. cc;
        expected = refl;
        unmasked = travels.unmasked;
        mask_fits = travels.mask_fits;
        bytes_fit = travels.bytes_fit;
        message = rw nothing;
        short = omega (arith, short);
        len_fits = travels.len_fits;
      } in
      let (r2, _, got) =
        read_frame-fragment sound s1 true Op.continuation f Op.continuation [] rest c left in
      (s1, refused, rw got)
