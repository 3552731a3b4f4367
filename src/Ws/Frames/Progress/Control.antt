-- ===== src/Ws/Frames/Progress/Control.antt =====
-- Control frames and the payload of data frames: no call of theirs panics or goes on forever.
use xx_url.Common.{
  and_then, ◌>>=◌, lift, ◌+◌, ◌-◌, ◌^◌, ◌%◌, ℕ, ◌+◌, ◌-◌, ◌%◌, ◌^◌, ◌≤◌, ◌≡◌, ◌≢◌, refl, arith,
  Option, none, some, Bytes, [], ◌++◌, length, Result, ok, err, panic, stuck, Ends, Ends-and_then,
  Ends-same, inl, inr, Option-cases, pure, ◌>>=◌, length-append, take, drop, length-drop,
}
use xx_url.Ws.Close.{do_close, close, swallow}
use xx_url.Ws.Frame.{ControlFrame, new_control, window, write_window, slice}
use xx_url.Ws.Frames.{fill_control, unmask}
use xx_url.Ws.Frames.Progress.{Drains, Expires, Calm}
use xx_url.Ws.Header.{FrameHeader}
use xx_url.Ws.Platform.{Platform}
use xx_url.Ws.Reader.{read_frame_data}

-- The window of a frame is inside its array.
abbrev pub Inside : ControlFrame → Type 0
Inside c = (c.offset ≡ 0) × (c.length ≤ length c.content)

write_window-Inside : (bytes : Bytes) (c : ControlFrame) → Inside c → Inside (write_window bytes c)
unfolding write_window
write_window-Inside bytes c (e, h) = (e, longer)
  where
    longer : c.length ≤ length (write_window bytes c).content
    longer =
        let rest = drop (c.offset + length bytes) c.content in
        omega (
          arith,
          e,
          h,
          length-append (take c.offset c.content) (bytes ++ rest),
          length-append bytes rest,
          length-drop (c.offset + length bytes) c.content,
        )

window-ok : (c : ControlFrame) → Inside c → (bytes : Bytes) × (window c ≡ ok bytes)
unfolding window slice
window-ok c (e, h) = (drop c.offset (take c.length c.content), ground (arith, e, h))

pub window-Ends :
    {S : Type 0} (P : Bytes → S → Type 0) (c : ControlFrame) (s : S)
    → Inside c
    → ((bytes : Bytes) → P bytes s)
    → Ends P (lift (window c) s)
window-Ends P c s h k =
    let (bytes, e) = window-ok c h in
    Ends-same P (lift (window c) s) (ok bytes, s) (rw e refl) (k bytes)

module _ {R : Type 0} (x : Platform R) {left : R → ℕ} (d : Drains x.io left) where
  pub read_frame_data-Ends :
      (frame : FrameHeader) (n : ℕ) (r : R)
      → Ends (λ _ t. left t ≤ left r) (read_frame_data x.io frame n r)
  unfolding read_frame_data
  read_frame_data-Ends frame n r = elim (Option-cases (x.io.read_into n frame.len)) [
    | inl e ↦
        Ends-same _ (read_frame_data x.io frame n r) (ok ([], frame), r)
          (rw (e, read_frame_data) refl) (omega arith)
    | inr (k, e) ↦
        Ends-same _ (read_frame_data x.io frame n r)
          ((do
            bytes ← x.io.read_fully k
            pure (bytes, record frame { len = (frame.len + 2 ^ 64 - length bytes) % 2 ^ 64 }))
            r)
          (rw (e, read_frame_data) refl)
          (Ends-and_then _ _ (x.io.read_fully k r) _ (d.full k r) λ _ t h. h)
  ]

  -- Reading the payload of a legal control frame into the frame's array does not panic.
  pub fill_control-Ends :
      (frame : FrameHeader) (r : R)
      → frame.len ≤ 0x7d
      → Ends (λ c t. Inside c × left t ≤ left r) (fill_control x frame r)
  unfolding fill_control
  fill_control-Ends frame r short =
      let control : ControlFrame = record new_control { length = frame.len % 2 ^ 8 } in
      let fits : Inside control = (refl, omega (arith, short)) in
      Ends-and_then (λ _ t. left t ≤ left r) _ (lift (window control) r) _
        (window-Ends _ control r fits λ _. omega arith)
        λ room t h.
          Ends-and_then _ _ (read_frame_data x.io frame (length room) t) _
            (read_frame_data-Ends frame _ t)
            λ p u k.
              let filled : Inside (write_window p.0 control) =
                write_window-Inside p.0 control fits in
              Ends-and_then (λ _ v. left v ≤ left r) _ (lift (window (write_window p.0 control)) u)
                _ (window-Ends _ _ u filled λ _. omega (arith, h, k))
                λ masked v l. (
                  write_window-Inside (unmask x frame.mask masked) (write_window p.0 control)
                      filled,
                  l,
                )

module _ {R : Type 0} (x : Platform R) {left : R → ℕ} (finishes : Expires x.out left) where
  ends :
      (m : Result (Unit {0}) × R) (n : ℕ)
      → Calm left n m
      → Calm left n (and_then m λ _. x.out.poll_hang_up)
  ends (ok _, t) n (_, _, before) =
      let (p, q, less) = finishes.polls t in (p, q, omega (arith, less, before))
  ends (err _, t) n (_, _, before) = ((λ e. cc (e)), (λ e. cc (e)), before)
  ends (panic, t) n (p, _, _) = absurd (p refl)
  ends (stuck, t) n (_, q, _) = absurd (q refl)

  do_close-Calm : (r : R) → Calm left (left r) (do_close x.out (pure tt) r)
  unfolding do_close
  do_close-Calm r = ends (x.out.shutdown_write r) (left r) (finishes.shuts r)

  pub close-Ends :
      (timeout : ℕ) (r : R) → Ends (λ _ t. left t ≤ left r) (close x.out timeout (pure tt) r)
  unfolding close
  close-Ends timeout r =
      let task = do_close x.out (pure tt) in
      let (no_panic, no_stuck, less) = finishes.times timeout task r do_close-Calm in
      after (x.out.timeout timeout task r) no_panic no_stuck less
    where
      after :
          (m : Option (Result (Unit {0})) × R)
          → (m.0 ≢ some panic)
          → (m.0 ≢ some stuck)
          → left m.1 ≤ left r
          → Ends (λ _ t. left t ≤ left r) (swallow m.0, m.1)
      after (none, t) p q l = l
      after (some (ok _), t) p q l = l
      after (some (err _), t) p q l = l
      after (some panic, t) p q l = p refl
      after (some stuck, t) p q l = q refl
