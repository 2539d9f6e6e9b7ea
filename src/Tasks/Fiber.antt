-- ===== src/Tasks/Fiber.antt =====
-- Fiber of acid/common/fiber.{h,cpp}: its state, and what the calls that switch contexts assert of
-- it and make of it. `none` is a failed assertion.
use acid_compute.Prelude.{Bool, true, false, Option, none, some}

pub data State : Type 0 where
  ready running term : State

abbrev pub is_running : State → Bool
is_running running = true
is_running s = false

-- A fiber with a stack; `callback` tells whether m_callback is set.
pub record Fiber : Type 0 where
  pub state : State
  pub callback : Bool

unfoldable pub new_fiber : Fiber
new_fiber = record { state = ready; callback = true }

abbrev pub reset_from : State → Option Fiber
reset_from term = some (record { state = ready; callback = true })
reset_from s = none

unfoldable pub reset : Fiber → Option Fiber
reset f = reset_from f.state

abbrev pub resume_from : State → Fiber → Option Fiber
resume_from ready f = some (record f { state = running })
resume_from s f = none

-- resume(), up to the switch to the fiber.
unfoldable pub resume : Fiber → Option Fiber
resume f = resume_from f.state f

abbrev pub yield_from : State → Fiber → Option Fiber
yield_from running f = some (record f { state = ready })
yield_from term f = some f
yield_from ready f = none

-- yield(), up to the switch back.
unfoldable pub yield : Fiber → Option Fiber
yield f = yield_from f.state f

-- main_func() behind the callback.
unfoldable pub main_func_end : Fiber → Option Fiber
unfolding yield
main_func_end f = yield (record f { state = term; callback = false })
