-- ===== src/Ws/Shared/Halves.antt =====
-- The closing state as two flags, one for each half.
use xx_url.Common.{
  ap, ◌∙◌, ◌≡◌, ◌≢◌, refl, arith, Bool, true, false, not, ◌&&◌, none, some, List, [], ◌∷◌, ◌⊎◌,
}
use xx_url.Ws.Shared.{
  Shutdown, read, write, both, Shared, can_read, can_write, should_close, shutdown,
}

-- The abstract state: which halves are closed.
pub record Closed : Type 0 where
  pub reading : Bool
  pub writing : Bool

abbrev pub closed : Shared → Closed
closed s = record { reading = not (can_read s); writing = not (can_write s) }

abbrev pub close_half : Shutdown → Closed → Closed
close_half read c = record c { reading = true }
close_half write c = record c { writing = true }
close_half both c = record { reading = true; writing = true }

-- `shutdown` closes the named half and no other, whatever was closed before.
pub closed-shutdown :
    (how : Shutdown) (s : Shared) → closed (shutdown how s).0 ≡ close_half how (closed s)
unfolding shutdown can_read can_write
closed-shutdown how s = ground arith

-- It answers true exactly where something else than `how` was closed already. Then both are.
pub shutdown_answer :
    (how : Shutdown) (s : Shared)
    → ((shutdown how s).1 ≡ true
        → (s.close_state ≢ none)
          × (s.close_state ≢ some how)
          × (should_close (shutdown how s).0 ≡ true))
      × ((shutdown how s).1 ≡ false → (s.close_state ≡ none) ⊎ (s.close_state ≡ some how))
unfolding shutdown should_close
shutdown_answer how s =
    (λ h. (λ e. ground arith, λ e. ground arith, ground arith), λ h. ground arith)

-- `should_close` is that both halves are closed.
pub should_close_lem : (s : Shared) → should_close s ≡ (not (can_read s) && not (can_write s))
unfolding should_close can_read can_write
should_close_lem s = ground arith

abbrev pub shutdown_all : List Shutdown → Shared → Shared
shutdown_all [] s = s
shutdown_all (how ∷ hows) s = shutdown_all hows (shutdown how s).0

abbrev pub close_halves : List Shutdown → Closed → Closed
close_halves [] c = c
close_halves (how ∷ hows) c = close_halves hows (close_half how c)

-- Any sequence of calls: the state is the union of the halves that they name.
pub closed-shutdown_all :
    (hows : List Shutdown) (s : Shared)
    → closed (shutdown_all hows s) ≡ close_halves hows (closed s)
closed-shutdown_all [] s = refl
closed-shutdown_all (how ∷ hows) s =
    closed-shutdown_all hows (shutdown how s).0 ∙ ap (close_halves hows) (closed-shutdown how s)
