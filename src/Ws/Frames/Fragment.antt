-- ===== src/Ws/Frames/Fragment.antt =====
-- One data frame: what `read_frame` makes of it.
use xx_url.Common.{
  List, zero, suc, length-replicate, ℕ, ◌+◌, ◌-◌, ◌%◌, ◌^◌, ◌≤◌, ◌<◌, ◌≡◌, ◌≢◌, refl, sym, ap, ◌∙◌,
  arith, Bool, true, false, not, Option, none, some, Bytes, [], ◌∷◌, ◌++◌, append_assoc, append-nil,
  length, drop, replicate, All, IsByte, ok, le→ltb,
}
use native.Mathlib.Decide.{dec_lt}
use xx_url.Io.{BufRead}
use xx_url.Io.Delivery.{Delivers}
use xx_url.Ws.Frames.{
  unmask, extend, store_message, read_data, append_data, read_body, read_frame, fits,
  message_or_new,
}
use xx_url.Ws.Header.{FrameHeader}
use xx_url.Ws.Header.RoundTrip.{Fits, header_bytes, read-header_bytes}
use xx_url.Ws.Mask.Cyclic.{
  xor_cyclic, length-xor_cyclic, xor_cyclic_twice, mask_lem, xor_cyclic-IsByte,
}
use xx_url.Ws.Platform.{Platform, IsSound}
use xx_url.Ws.Reader.{read_frame_header, read_frame_data, accept_header, is_continuation, is_close}
use xx_url.Ws.Reader.Legal.{IsTaken, accept_header-IsTaken}
use xx_url.Ws.Shared.{can_read}
use xx_url.Ws.Socket.{WebSocket}
use xx_url.Ws.Wire.{Op, is_control}

-- A piece of a message and the key that it is masked with.
pub record Fragment : Type 0 where
  pub payload : Bytes
  pub mask : Option ℕ

abbrev pub masked : Option ℕ → Bytes → Bytes
masked none bytes = bytes
masked (some m) bytes = xor_cyclic 0 bytes m

abbrev pub header_of : Bool → Op → Fragment → FrameHeader
header_of fin op f = record { fin = fin; op = op; mask = f.mask; len = length f.payload }

-- The frame on the wire.
abbrev pub frame_bytes : Bool → Op → Fragment → Bytes
frame_bytes fin op f = header_bytes (header_of fin op f) ++ masked f.mask f.payload

length-masked : (m : Option ℕ) (bytes : Bytes) → length (masked m bytes) ≡ length bytes
length-masked none bytes = refl
length-masked (some m) bytes = length-xor_cyclic 0 bytes m

drop_all : (xs : Bytes) (n : ℕ) → n ≡ length xs → drop n xs ≡ []
drop_all [] zero h = refl
drop_all [] (suc n) h = refl
drop_all (x ∷ xs) zero h = absurd (omega arith)
drop_all (x ∷ xs) (suc n) h = drop_all xs n (omega arith)

length-zeroes : (n : ℕ) → length {A = ℕ} (replicate n 0) ≡ n
length-zeroes n = length-replicate n 0

nil_of_length : (xs : Bytes) → length xs ≡ 0 → xs ≡ []
nil_of_length [] h = refl
nil_of_length (x ∷ xs) h = absurd (omega arith)

module _ {R : Type 0} {io : BufRead R} {pending : R → Bytes} (d : Delivers io pending) where
  window_open : (n k : ℕ) → n ≡ k → 0 < k → io.read_into n n ≡ some k
  window_open n k e h = d.window n n ∙ ground arith

  window_shut : (n : ℕ) → n ≡ 0 → io.read_into n n ≡ none
  window_shut n e = d.window n n ∙ ground arith

  -- A buffer of the frame's length takes the whole payload.
  read_frame_data-whole :
      (h : FrameHeader) (r : R) (bytes rest : Bytes)
      → h.len ≡ length bytes
      → pending r ≡ bytes ++ rest
      → (r' : R) × (h' : FrameHeader) × (read_frame_data io h h.len r ≡ (ok (bytes, h'), r'))
        × (pending r' ≡ rest)
  unfolding read_frame_data
  read_frame_data-whole h r bytes rest e p = elim (dec_lt 0 (length bytes)) [
    | yes some_bytes ↦
        let (r', reads, left) = d.read_full r bytes rest p in
        (
          r',
          record h { len = (h.len + 2 ^ 64 - length bytes) % 2 ^ 64 },
          rw (window_open h.len (length bytes) e some_bytes, read_frame_data) (rw reads),
          left,
        )
    | no nothing ↦
        let empty : bytes ≡ [] = nil_of_length bytes (omega arith) in
        (
          r,
          h,
          rw (window_shut h.len (omega arith), read_frame_data) (rw empty),
          p ∙ ap (λ bs. bs ++ rest) empty,
        )
  ]

module _ {R : Type 0} {x : Platform R} {pending : R → Bytes} (sound : IsSound x pending) where
  -- Reading over the zeroes and unmasking gives the payload.
  extend-masked :
      (h : FrameHeader) (bytes : Bytes)
      → h.len ≡ length bytes
      → ((m : ℕ) → h.mask ≡ some m → m < 2 ^ 32)
      → All IsByte bytes
      → extend x h (masked h.mask bytes) ≡ bytes
  unfolding extend
  extend-masked h bytes e fits h_bytes =
      let zeroes : List ℕ = replicate h.len 0 in
      let over : drop (length (masked h.mask bytes)) zeroes ≡ [] =
        drop_all zeroes _ (length-masked h.mask bytes ∙ sym e ∙ sym (length-zeroes h.len)) in
      ap (λ bs. unmask x h.mask (masked h.mask bytes ++ bs)) over
      ∙ ap (unmask x h.mask) (append-nil (masked h.mask bytes))
      ∙ unmask-masked h.mask fits
    where
      unmask-masked :
          (k : Option ℕ) → ((m : ℕ) → k ≡ some m → m < 2 ^ 32) → unmask x k (masked k bytes) ≡ bytes
      unmask-masked none small = unfold unmask in refl
      unmask-masked (some m) small =
          unfold unmask in
          (mask_lem x.endian _ (xor_cyclic 0 bytes m) m (small m refl)
              (xor_cyclic-IsByte 0 bytes m h_bytes) (sound.aligned (xor_cyclic 0 bytes m))
            ∙ xor_cyclic_twice 0 bytes m)

  -- What a data frame needs to be read in state `s`, with the message so far in `buf`.
  pub record Readable (s : WebSocket R) (fin : Bool) (op : Op) (f : Fragment) (kind : Op)
      (buf : Bytes) : Type 0 where
    pub open_ : can_read s.shared ≡ true
    pub is_data : is_control op ≡ false
    pub op_known : op ≢ Op.invalid
    pub expected : is_continuation op ≡ s.expect_continuation
    pub unmasked : s.shared.is_client ≡ true → f.mask ≡ none
    pub mask_fits : (m : ℕ) → f.mask ≡ some m → m < 2 ^ 32
    pub bytes_fit : All IsByte f.payload
    pub message : message_or_new x s.current_message op ≡ (kind, buf)
    pub short : length buf + length f.payload ≤ s.shared.max_message_length
    pub len_fits : length f.payload < 2 ^ 64

  not_close : (op : Op) → is_control op ≡ false → is_close op ≡ false
  not_close op h = ground arith

  read_body-data :
      (h : FrameHeader) (s : WebSocket R)
      → h.len ≤ s.shared.max_message_length
      → is_control h.op ≡ false
      → read_body x (some h) s ≡ read_data x h s
  unfolding read_body
  read_body-data h s short data_op = rw (le→ltb _ _ short) (rw data_op)

  read_data-append :
      (h : FrameHeader) (s : WebSocket R) (kind : Op) (buf : Bytes)
      → message_or_new x s.current_message h.op ≡ (kind, buf)
      → length buf + h.len ≤ s.shared.max_message_length
      → read_data x h s ≡ append_data x h kind buf (record s { current_message = some (kind, buf) })
  unfolding read_data
  read_data-append h s kind buf same short =
      let room : fits x s.shared.max_message_length (length buf) h.len ≡ true = ground arith in
      rw same (rw room)

  -- The message so far is replaced.
  store_message_over :
      (fin : Bool) (kind : Op) (buf : Bytes) (s : WebSocket R) (m : Option (Op × Bytes))
      → store_message x fin kind buf (record s { current_message = m })
        ≡ store_message x fin kind buf s
  unfolding store_message
  store_message_over true kind buf s m = refl
  store_message_over false kind buf s m = refl

  append_data-store :
      (h h' : FrameHeader) (kind : Op) (buf bytes : Bytes) (s : WebSocket R) (r' : R)
      → read_frame_data x.io h h.len s.stream ≡ (ok (masked h.mask bytes, h'), r')
      → extend x h (masked h.mask bytes) ≡ bytes
      → append_data x h kind buf s
        ≡ store_message x h.fin kind (buf ++ bytes) (record s { stream = r' })
  unfolding append_data
  append_data-store h h' kind buf bytes s r' reads whole =
      rw reads
        (rw whole (store_message_over h.fin kind (buf ++ bytes) (record s { stream = r' }) _))

  module _ (s : WebSocket R) (fin : Bool) (op : Op) (f : Fragment) (kind : Op)
      (buf rest : Bytes) where
    -- The header is read and legal.
    header_step :
        Readable s fin op f kind buf
        → pending s.stream ≡ frame_bytes fin op f ++ rest
        → (r1 : R) × (pending r1 ≡ masked f.mask f.payload ++ rest)
          × (read_frame_header x s ≡ (
            ok (some (header_of fin op f)),
            record s { stream = r1; expect_continuation = not fin },
          ))
    header_step c e =
        let h : FrameHeader = header_of fin op f in
        let fits : Fits h = record {
          op_known = c.op_known;
          len_fits = c.len_fits;
          mask_fits = c.mask_fits;
        } in
        let (r1, reads, left) =
          read-header_bytes sound.delivers sound.layout h s.stream (masked f.mask f.payload ++ rest)
            fits (e ∙ append_assoc (header_bytes h) (masked f.mask f.payload) rest) in
        let s1 : WebSocket R = record s { stream = r1 } in
        let legal : IsTaken s1 h = record {
          op_known = c.op_known;
          control = λ q. cc (c.is_data);
          message = λ _. c.expected;
          unmasked = c.unmasked;
        } in
        let accepted : accept_header (some h) s1
            ≡ (ok (some h), record s1 { expect_continuation = not fin }) =
          accept_header-IsTaken s1 h legal ∙ rw (c.is_data, not_close op c.is_data) in
        (r1, left, unfold read_frame_header in rw (c.open_) (rw reads accepted))

    -- The payload goes into the message.
    body_step :
        (r1 : R)
        → Readable s fin op f kind buf
        → pending r1 ≡ masked f.mask f.payload ++ rest
        → (r' : R) × (pending r' ≡ rest)
          × (read_body x
                (some (header_of fin op f))
                (record s { stream = r1; expect_continuation = not fin })
              ≡ store_message x fin kind
                  (buf ++ f.payload)
                  (record s { stream = r'; expect_continuation = not fin }))
    body_step r1 c e =
        let h : FrameHeader = header_of fin op f in
        let (r', h', reads, left) =
          read_frame_data-whole sound.delivers h r1 (masked f.mask f.payload) rest
            (sym (length-masked f.mask f.payload)) e in
        let s1 : WebSocket R = record s { stream = r1; expect_continuation = not fin } in
        let s2 : WebSocket R = record s1 { current_message = some (kind, buf) } in
        (
          r',
          left,
          read_body-data h s1 (omega (arith, c.short)) c.is_data
              ∙ read_data-append h s1 kind buf c.message c.short
              ∙ append_data-store h h' kind buf f.payload s2 r' reads
                  (extend-masked h f.payload refl c.mask_fits c.bytes_fit)
              ∙ store_message_over fin kind (buf ++ f.payload) (record s1 { stream = r' })
                  (some (kind, buf)),
        )

  -- A data frame is added to the message, and nothing behind it is read.
  pub read_frame-fragment :
      (s : WebSocket R) (fin : Bool) (op : Op) (f : Fragment) (kind : Op) (buf rest : Bytes)
      → Readable s fin op f kind buf
      → pending s.stream ≡ frame_bytes fin op f ++ rest
      → (r' : R) × (pending r' ≡ rest)
        × (read_frame x s
            ≡ store_message x fin kind
                (buf ++ f.payload)
                (record s { stream = r'; expect_continuation = not fin }))
  unfolding read_frame
  read_frame-fragment s fin op f kind buf rest c e =
      let (r1, p1, header) = header_step s fin op f kind buf rest c e in
      let (r2, p2, body) = body_step s fin op f kind buf rest r1 c p1 in (r2, p2, rw header body)
