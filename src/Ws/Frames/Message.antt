-- ===== src/Ws/Frames/Message.antt =====
-- Messages that come in fragments.
use xx_url.Common.{
  ℕ, zero, suc, ◌+◌, ◌^◌, ◌≤◌, ◌<◌, ◌≡◌, ◌≢◌, ◌⊎◌, inl, inr, refl, sym, ap, ◌∙◌, arith, Bool, true,
  false, none, some, List, Bytes, [], ◌∷◌, ◌++◌, append_assoc, append-nil, length, length-append,
  All, IsByte, Result, ok, err, bind_result, and_then, pure, panic, stuck,
}
use xx_url.Common.Utf8.{from_utf8}
use xx_url.Ws.Frame.{Frame}
use xx_url.Ws.Frames.{finish_message, store_message, message_or_new, read_frame, next_frame}
use xx_url.Ws.Frames.Fragment.{Fragment, frame_bytes, Readable, read_frame-fragment}
use xx_url.Ws.Platform.{Platform, IsSound}
use xx_url.Ws.Reader.{is_continuation}
use xx_url.Ws.Shared.{can_read}
use xx_url.Ws.Socket.{WebSocket}
use xx_url.Ws.Wire.{Op, is_control}

-- The frames of a message: the first has its opcode, the others are continuations.
abbrev pub message_bytes : Op → List Fragment → Bytes
message_bytes op [] = []
message_bytes op (f ∷ []) = frame_bytes true op f
message_bytes op (f ∷ (g ∷ fs)) = frame_bytes false op f ++ message_bytes Op.continuation (g ∷ fs)

abbrev pub whole : List Fragment → Bytes
whole [] = []
whole (f ∷ fs) = f.payload ++ whole fs

-- A complete text has to be UTF-8.
abbrev pub deliver : Op → Bytes → Result Frame
deliver Op.text buf = bind_result (from_utf8 buf) (λ text. ok (Frame.text text))
deliver _ buf = ok (Frame.binary buf)

-- A fragment within the machine's bounds; a server does not mask.
pub record Travels (is_client : Bool) (f : Fragment) : Type 0 where
  pub unmasked : is_client ≡ true → f.mask ≡ none
  pub mask_fits : (m : ℕ) → f.mask ≡ some m → m < 2 ^ 32
  pub bytes_fit : All IsByte f.payload
  pub len_fits : length f.payload < 2 ^ 64

abbrev pub IsDataKind : Op → Type 0
IsDataKind kind = (kind ≡ Op.text) ⊎ (kind ≡ Op.binary)

module _ {R : Type 0} {x : Platform R} {pending : R → Bytes} (sound : IsSound x pending) where
  readable :
      (s : WebSocket R) (fin : Bool) (op : Op) (f : Fragment) (kind : Op) (buf more : Bytes)
      → can_read s.shared ≡ true
      → is_control op ≡ false
      → op ≢ Op.invalid
      → is_continuation op ≡ s.expect_continuation
      → message_or_new x s.current_message op ≡ (kind, buf)
      → Travels s.shared.is_client f
      → length buf + length (f.payload ++ more) ≤ s.shared.max_message_length
      → Readable sound s fin op f kind buf
  readable s fin op f kind buf more can data_op known expected message t short = record {
    open_ = can;
    is_data = data_op;
    op_known = known;
    expected = expected;
    unmasked = t.unmasked;
    mask_fits = t.mask_fits;
    bytes_fit = t.bytes_fit;
    message = message;
    short = omega (arith, length-append f.payload more);
    len_fits = t.len_fits;
  }

  -- A finished message is handed on, and an error of its text too.
  hand_on :
      (fuel : ℕ) (result : Result Bytes) (u : WebSocket R)
      → and_then
          (bind_result result (λ text. ok (some (Frame.text text))), u)
          (λ frame. elim frame [ some f ↦ pure f | none ↦ next_frame x fuel ])
        ≡ (bind_result result (λ text. ok (Frame.text text)), u)
  hand_on fuel (ok text) u = refl
  hand_on fuel (err e) u = refl
  hand_on fuel panic u = refl
  hand_on fuel stuck u = refl

  last_step :
      (fuel : ℕ) (s t : WebSocket R) (kind : Op) (buf : Bytes)
      → IsDataKind kind
      → read_frame x s ≡ store_message x true kind buf t
      → next_frame x (suc fuel) s ≡ (deliver kind buf, record t { current_message = none })
  unfolding next_frame store_message finish_message
  last_step fuel s t Op.text buf data_kind e =
      rw e (hand_on fuel (from_utf8 buf) (record t { current_message = none }))
  last_step fuel s t Op.binary buf data_kind e = rw e
  last_step fuel s t _ buf (inl h) e = cc
  last_step fuel s t _ buf (inr h) e = cc

  inner_step :
      (fuel : ℕ) (s t : WebSocket R) (kind : Op) (buf : Bytes)
      → read_frame x s ≡ store_message x false kind buf t
      → next_frame x (suc fuel) s
        ≡ next_frame x fuel (record t { current_message = some (kind, buf) })
  unfolding next_frame store_message
  inner_step fuel s t kind buf e = rw e

  assemble :
      (fs : List Fragment) (f : Fragment) (fuel : ℕ) (s : WebSocket R) (op kind : Op)
      (buf rest : Bytes)
      → length fs < fuel
      → IsDataKind kind
      → can_read s.shared ≡ true
      → is_control op ≡ false
      → op ≢ Op.invalid
      → is_continuation op ≡ s.expect_continuation
      → message_or_new x s.current_message op ≡ (kind, buf)
      → All (Travels s.shared.is_client) (f ∷ fs)
      → length buf + length (whole (f ∷ fs)) ≤ s.shared.max_message_length
      → pending s.stream ≡ message_bytes op (f ∷ fs) ++ rest
      → (r' : R) × (pending r' ≡ rest)
        × (next_frame x fuel s ≡ (
          deliver kind (buf ++ whole (f ∷ fs)),
          record s { stream = r'; expect_continuation = false; current_message = none },
        ))
  assemble fs f zero s op kind buf rest more data_kind can data_op known expected message t short
        e =
      absurd (omega arith)
  assemble [] f (suc fuel) s op kind buf rest more data_kind can data_op known expected message t
        short e =
      let c = readable s true op f kind buf [] can data_op known expected message t.0 short in
      let (r', left, got) = read_frame-fragment sound s true op f kind buf rest c e in
      (
        r',
        left,
        last_step fuel s _ kind (buf ++ f.payload) data_kind got
            ∙ ap
                (λ bs. (
                  deliver kind (buf ++ bs),
                  record s { stream = r'; expect_continuation = false; current_message = none },
                ))
                (sym (append-nil f.payload)),
      )
  assemble (g ∷ fs) f (suc fuel) s op kind buf rest more data_kind can data_op known expected
        message t short e =
      let c =
        readable s false op f kind buf (whole (g ∷ fs)) can data_op known expected message t.0
          short in
      let (r1, left, got) =
        read_frame-fragment sound s false op f kind buf
          (message_bytes Op.continuation (g ∷ fs) ++ rest) c
          (e
            ∙ append_assoc (frame_bytes false op f) (message_bytes Op.continuation (g ∷ fs))
                rest) in
      let s1 : WebSocket R = record s {
        stream = r1;
        expect_continuation = true;
        current_message = some (kind, buf ++ f.payload);
      } in
      let (r', left', done) =
        assemble fs g fuel s1 Op.continuation kind (buf ++ f.payload) rest (omega arith) data_kind
          can refl (λ q. cc) refl refl t.1
          (omega (arith, length-append buf f.payload, length-append f.payload (whole (g ∷ fs))))
          left in
      (
        r',
        left',
        inner_step fuel s _ kind (buf ++ f.payload) got
            ∙ done
            ∙ ap
                (λ bs. (
                  deliver kind bs,
                  record s { stream = r'; expect_continuation = false; current_message = none },
                ))
                (append_assoc buf f.payload (whole (g ∷ fs))),
      )

  -- A text or binary message in any number of fragments, masked or not, comes out of the reader as
  -- one frame with the payloads joined, if it is not longer than the limit, one round of the loop
  -- for each fragment is allowed, and nothing was begun before. The bytes behind it stay in the
  -- stream, and the reader is between messages again. Text that is no UTF-8 gives its error.
  pub next_frame-message :
      (kind : Op) (f : Fragment) (fs : List Fragment) (fuel : ℕ) (s : WebSocket R) (rest : Bytes)
      → IsDataKind kind
      → length fs < fuel
      → can_read s.shared ≡ true
      → s.expect_continuation ≡ false
      → s.current_message ≡ none
      → All (Travels s.shared.is_client) (f ∷ fs)
      → length (whole (f ∷ fs)) ≤ s.shared.max_message_length
      → pending s.stream ≡ message_bytes kind (f ∷ fs) ++ rest
      → (r' : R) × (pending r' ≡ rest)
        × (next_frame x fuel s ≡ (
          deliver kind (whole (f ∷ fs)),
          record s { stream = r'; expect_continuation = false; current_message = none },
        ))
  next_frame-message kind f fs fuel s rest data_kind more can between nothing t short e =
      assemble fs f fuel s kind kind [] rest more data_kind can (data_op kind data_kind)
        (known kind data_kind) (first kind data_kind ∙ sym between) (rw nothing) t
        (omega (arith, short)) e
    where
      data_op : (k : Op) → IsDataKind k → is_control k ≡ false
      data_op k (inl h) = rw h
      data_op k (inr h) = rw h

      known : (k : Op) → IsDataKind k → k ≢ Op.invalid
      known k (inl h) = λ q. cc
      known k (inr h) = λ q. cc

      first : (k : Op) → IsDataKind k → is_continuation k ≡ false
      first k (inl h) = rw h
      first k (inr h) = rw h
