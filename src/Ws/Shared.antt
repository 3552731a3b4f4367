-- ===== src/Ws/Shared.antt =====
-- ws/stream.rs: `Shared`, what the two halves of a connection have in common.
pub mod Halves
use xx_url.Common.{ℕ, Bool, true, false, not, Option, none, some, if◌then◌else◌}

-- `xx_core::os::socket::Shutdown`
pub data Shutdown : Type 0 where
  read write both : Shutdown

-- `==` of `Shutdown`
abbrev pub same : Shutdown → Shutdown → Bool
same read read = true
same write write = true
same both both = true
same _ _ = false

-- Durations are counted in a unit of their own.
pub record Shared : Type 0 where
  pub max_message_length : ℕ
  pub close_timeout : ℕ
  pub is_client : Bool
  pub close_state : Option Shutdown

-- `is_some_and(|state| state != other)`
abbrev differs_from : Shutdown → Option Shutdown → Bool
differs_from other none = false
differs_from other (some state) = not (same state other)

abbrev is_both : Option Shutdown → Bool
is_both (some both) = true
is_both _ = false

unfoldable pub can_read : Shared → Bool
can_read s = not (differs_from write s.close_state)

unfoldable pub can_write : Shared → Bool
can_write s = not (differs_from read s.close_state)

unfoldable pub should_close : Shared → Bool
should_close s = is_both s.close_state

abbrev shutdown_from : Option Shutdown → Shutdown → Shared → Shared × Bool
shutdown_from none how s = (record s { close_state = some how }, false)
shutdown_from (some cur) how s =
    if same cur how then (s, false) else (record s { close_state = some both }, true)

-- The answer says that this call closed the second half.
unfoldable pub shutdown : Shutdown → Shared → Shared × Bool
shutdown how s = shutdown_from s.close_state how s
