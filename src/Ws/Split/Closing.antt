-- ===== src/Ws/Split/Closing.antt =====
-- ws/stream.rs: the close frame is the last one, however the halves are interleaved.
use xx_url.Common.{
  Bool, true, false, ◌||◌, Option, none, some, List, [], ◌∷◌, ◌++◌, ◌≡◌, sym, ap, ◌∙◌, arith, All,
  Bool-cases, inl, inr,
}
use xx_url.Ws.Frame.{BorrowedFrame}
use xx_url.Ws.Header.{FrameHeader}
use xx_url.Ws.Reader.{accept_header, is_close}
use xx_url.Ws.Shared.{Shared, Shutdown, shutdown, can_read, can_write}
use xx_url.Ws.Socket.{WebSocket}
use xx_url.Ws.Split.{
  ReaderPc, WriterPc, Wire, ReadMove, WriteMove, Reach, System, begin_frame, here, next, reads,
  writes, split,
}
use xx_url.Ws.Wire.{Op, FramePacket}
use xx_url.Ws.Writer.{new_header, prepare}

-- A half that is closed stays closed.
abbrev pub StaysClosed : Shared → Shared → Type 0
StaysClosed s t =
    (can_read s ≡ false → can_read t ≡ false) × (can_write s ≡ false → can_write t ≡ false)

shutdown-StaysClosed : (how : Shutdown) (s : Shared) → StaysClosed s (shutdown how s).0
unfolding shutdown can_read can_write
shutdown-StaysClosed how s = (λ h. ground arith, λ h. ground arith)

accept_header-StaysClosed :
    {R : Type 0} (header : Option FrameHeader) (s : WebSocket R)
    → StaysClosed s.shared (accept_header header s).1.shared
unfolding accept_header shutdown can_read can_write
accept_header-StaysClosed none s = (λ h. ground arith, λ h. ground arith)
accept_header-StaysClosed (some frame) s = (λ h. ground arith, λ h. ground arith)

prepare-shared :
    {R : Type 0} (h : FrameHeader) (s : WebSocket R) → (prepare h s).1.shared ≡ s.shared
unfolding prepare
prepare-shared h s = ground arith

begin_frame-StaysClosed :
    (frame : BorrowedFrame) (s : WebSocket Wire)
    → StaysClosed s.shared (begin_frame frame s).1.shared
begin_frame-StaysClosed frame s = elim (Bool-cases (is_close frame.op)) [
  | inl y ↦ rw y (shutdown-StaysClosed Shutdown.write s.shared)
  | inr n ↦ rw n (λ h. h, λ h. h)
]

read-StaysClosed :
    {s t : WebSocket Wire} {pc pc' : ReaderPc} → ReadMove s pc t pc' → StaysClosed s.shared t.shared
read-StaysClosed (ReadMove.call h) = (λ h. h, λ h. h)
read-StaysClosed {s} (ReadMove.arrive header message h) = accept_header-StaysClosed header s
read-StaysClosed (ReadMove.deliver frame message h) = (λ h. h, λ h. h)
read-StaysClosed ReadMove.shutdown_write = (λ h. h, λ h. h)
read-StaysClosed (ReadMove.return_ pc) = (λ h. h, λ h. h)

-- The close frames: only the last frame that was begun, the head of the list, may be one.
abbrev pub any_close : List Op → Bool
any_close [] = false
any_close (op ∷ ops) = is_close op || any_close ops

abbrev pub OnlyLast : List Op → Type 0
OnlyLast [] = Unit
OnlyLast (op ∷ ops) = All (λ o. is_close o ≡ false) ops

none_close : (ops : List Op) → any_close ops ≡ false → All (λ o. is_close o ≡ false) ops
none_close [] h = tt
none_close (op ∷ ops) h = (ground (arith, h), none_close ops (ground (arith, h)))

-- A close frame closes the writing half before its first byte is written.
begin_close-closed :
    (frame : BorrowedFrame) (s : WebSocket Wire)
    → is_close frame.op ≡ true
    → can_write (begin_frame frame s).1.shared ≡ false
unfolding shutdown can_write
begin_close-closed frame s h = rw h (ground arith)

write-Inv :
    {packet : FramePacket} {s t : WebSocket Wire} {pc pc' : WriterPc} {ops : List Op}
    (begun : List Op)
    → WriteMove packet s pc ops t pc'
    → (any_close begun ≡ true → can_write s.shared ≡ false)
    → OnlyLast begun
    → OnlyLast (ops ++ begun)
      × (any_close (ops ++ begun) ≡ true → can_write t.shared ≡ false)
      × StaysClosed s.shared t.shared
write-Inv {s} begun (WriteMove.call frame header t head can prepared encoded) closed only =
    let fresh : any_close begun ≡ false = ground (arith, can, closed) in
    let same : t.shared ≡ s.shared =
      ap (λ p. p.1.shared) (sym prepared)
      ∙ prepare-shared (new_header s.shared.is_client frame) s in
    (
      none_close begun fresh,
      λ h. begin_close-closed frame t (ground (arith, h, fresh)),
      rw (← same) (begin_frame-StaysClosed frame t),
    )
write-Inv begun (WriteMove.put bytes rest after h) closed only = (only, closed, (λ h. h, λ h. h))
write-Inv begun (WriteMove.wrote after) closed only = (only, closed, (λ h. h, λ h. h))
write-Inv begun (WriteMove.flushed after) closed only = (only, closed, (λ h. h, λ h. h))
write-Inv begun WriteMove.shutdown_write closed only = (only, closed, (λ h. h, λ h. h))
write-Inv begun (WriteMove.return_ pc) closed only = (only, closed, (λ h. h, λ h. h))

-- In every interleaving of the calls of the two halves from the split on: no frame is begun behind
-- a close frame; once a close frame was begun, the writing half is closed, and a half that was
-- closed before stays closed.
pub Reach-OnlyLast :
    (packet : FramePacket) (s : WebSocket Wire) (t : System)
    → Reach packet (split s) t
    → OnlyLast t.begun
      × (any_close t.begun ≡ true → can_write t.socket.shared ≡ false)
      × StaysClosed s.shared t.socket.shared
Reach-OnlyLast packet s _ here = (tt, λ h. absurd (ground (arith, h)), (λ h. h, λ h. h))
Reach-OnlyLast packet s _ (next {t} r (reads move)) =
    let (only, closed, stays) = Reach-OnlyLast packet s t r in
    let moved = read-StaysClosed move in
    (only, λ h. moved.1 (closed h), (λ h. moved.0 (stays.0 h), λ h. moved.1 (stays.1 h)))
Reach-OnlyLast packet s _ (next {t} r (writes move)) =
    let (only, closed, stays) = Reach-OnlyLast packet s t r in
    let (only', closed', moved) = write-Inv t.begun move closed only in
    (only', closed', (λ h. moved.0 (stays.0 h), λ h. moved.1 (stays.1 h)))
