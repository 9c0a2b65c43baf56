-- ===== src/Errors.antt =====
-- pyroflow/errors.py, with the exceptions of Python, asyncio and Pyrogram that the modelled code
-- raises or catches. `U` is the type of updates.
use pyroflow.Prelude.{ℕ, Bool, true, false}
use pyroflow.Models.{ListenerKey}

pub data Exc (U : Type 0) : Type 0 where
  listener_cancelled : ListenerKey → Bool → Exc U
  listener_timeout : ListenerKey → Exc U
  listener_already_exists : ListenerKey → Exc U
  unresolved_update : U → Exc U
  unhandled_update : U → Exc U
  key_error value_error type_error runtime_error not_implemented_error attribute_error : Exc U
  -- asyncio's errors; `task_cancelled` is `asyncio.CancelledError`.
  invalid_state_error timeout_error task_cancelled : Exc U
  -- Pyrogram's control flow.
  stop_propagation continue_propagation : Exc U
  -- Whatever a callback of the user raises.
  user_error : ℕ → Exc U

-- `except Exception` catches all but `asyncio.CancelledError`, which derives from `BaseException`.
abbrev pub is_exception : {U : Type 0} → Exc U → Bool
is_exception task_cancelled = false
is_exception _ = true
