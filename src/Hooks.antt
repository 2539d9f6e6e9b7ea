-- ===== src/Hooks.antt =====
-- The hooked system calls of acid/common/hook.cpp. `none` is a failed assertion, or undefined behaviour
-- of a part below. The original calls are arguments: `answers` is what they will return, in order.
pub mod Blocking
pub mod Connecting
pub mod Masking
pub mod Flags
use acid_compute.Prelude.{
  ℕ, zero, suc, ◌+◌, ◌-◌, ◌*◌, ◌/◌, ◌%◌, ◌^◌, Bool, true, false, not, ◌&&◌, ◌||◌, Option, none,
  some, List, [], ◌∷◌, ◌++◌, ◌==◌, if◌then◌else◌, get_elem?, set,
}
use acid_compute.Outcome.{Outcome, ok, out_of_range, undefined}
use acid_compute.Descriptors.{
  ℤ, pos, negsuc, FdCtx, FdManager, get_timeout, set_timeout, get, del, no_timeout,
}
use acid_compute.IoManager.{
  ◌>>=◌, Event, read, write, Events, IoManager, Caller, add_event, cancel_event, cancel_all,
}

-- A count, or -1 with errno.
pub data Answer : Type 0 where
  count fault : ℕ → Answer

abbrev pub interrupted : ℕ
interrupted = 4

abbrev pub bad_descriptor : ℕ
bad_descriptor = 9

abbrev pub try_again : ℕ
try_again = 11

abbrev pub timed_out : ℕ
timed_out = 110

abbrev pub in_progress : ℕ
in_progress = 115

pub data TimerOp : Type 0 where
  started : ℕ → TimerOp
  cancelled : TimerOp

-- What a hooked call works on, with the log of its timers.
pub record Machine : Type 0 where
  pub iom : IoManager
  pub answers : List Answer
  pub timers : List TimerOp

-- `refused` is -1 with the errno that add_event left; `blocked` waits in yield(); `starved` still waits
-- for an original call.
pub data Progress : Type 0 where
  returned : Answer → Progress
  refused blocked starved : Progress

pub record IoCall : Type 0 where
  pub fd : ℕ
  pub event : Event
  pub timeout : ℕ

unfoldable pub call_loop : List Answer → Option (Answer × List Answer)
call_loop [] = none
call_loop (count n ∷ answers) = some (count n, answers)
call_loop (fault e ∷ answers) =
    let rest = call_loop answers in if e == interrupted then rest else some (fault e, answers)

abbrev pub start_timer : ℕ → Machine → Machine
start_timer timeout m =
    if timeout == no_timeout then m else record m { timers = m.timers ++ (started timeout ∷ []) }

-- if (timer) timer->cancel()
abbrev pub cancel_timer : ℕ → Machine → Machine
cancel_timer timeout m =
    if timeout == no_timeout then m else record m { timers = m.timers ++ (cancelled ∷ []) }

abbrev pub added : ℕ → Machine → ℤ × IoManager → Progress × Machine
added timeout m (pos zero, s) = (blocked, record m { iom = s })
added timeout m (pos (suc n), s) = (refused, cancel_timer timeout (record m { iom = s }))
added timeout m (negsuc n, s) = (refused, cancel_timer timeout (record m { iom = s }))

-- What the fiber finds when it runs again: whether the timer has fired, the state of the IOManager,
-- and whether epoll_ctl will refuse the next add_event.
pub record Wake : Type 0 where
  pub fired : Bool
  pub found : IoManager
  pub refuses : Bool

abbrev pub continued :
    Bool
    → ℕ
    → IoManager
    → (Machine → Option (Progress × Machine))
    → Progress × Machine
    → Option (Progress × Machine)
continued fired timeout s retry (blocked, m) =
    let m' : Machine = cancel_timer timeout (record m { iom = s }) in
    let again = retry m' in if fired then some (returned (fault timed_out), m') else again
continued fired timeout s retry (returned a, m) = some (returned a, m)
continued fired timeout s retry (refused, m) = some (refused, m)
continued fired timeout s retry (starved, m) = some (starved, m)

abbrev pub raw : Machine → List Answer → Option (Progress × Machine)
raw m [] = some (starved, m)
raw m (a ∷ answers) = some (returned a, record m { answers = answers })

-- What getsockopt says of SO_ERROR: it fails, or gives an error, 0 for none.
abbrev pub socket_error : Answer → Answer
socket_error (fault e) = fault e
socket_error (count zero) = count 0
socket_error (count (suc e)) = fault (suc e)

-- Behind add_event; the flag tells whether the timer has fired.
abbrev pub connect_woken : Bool → IoManager → ℕ → Answer → Progress × Machine → Progress × Machine
connect_woken fired s timeout option (blocked, m) =
    let m' : Machine = cancel_timer timeout (record m { iom = s }) in
    if fired then (returned (fault timed_out), m') else (returned (socket_error option), m')
connect_woken fired s timeout option (refused, m) = (returned (socket_error option), m)
connect_woken fired s timeout option (returned a, m) = (returned a, m)
connect_woken fired s timeout option (starved, m) = (starved, m)

module _ (memory : ℕ → Events) (who : Caller) where
  -- From the timer to yield(). The flag tells that epoll_ctl refuses.
  abbrev pub wait_for : Bool → IoCall → Machine → Option (Progress × Machine)
  wait_for denied io m = do
    r ← add_event memory denied io.fd io.event who none m.iom
    some (added io.timeout (start_timer io.timeout m) r)

  abbrev pub looped :
      Bool → IoCall → Machine → Option (Answer × List Answer) → Option (Progress × Machine)
  looped denied io m none = some (starved, record m { answers = [] })
  looped denied io m (some (count n, left)) = some (returned (count n), record m { answers = left })
  looped denied io m (some (fault e, left)) =
      let waits = wait_for denied io (record m { answers = left }) in
      if e == try_again then waits else some (returned (fault e), record m { answers = left })

  -- From the label `retry` until the call returns or yields.
  unfoldable pub attempt : Bool → IoCall → Machine → Option (Progress × Machine)
  unfolding call_loop
  attempt denied io m = looped denied io m (call_loop m.answers)

  unfoldable pub retry_loop : List Wake → Bool → IoCall → Machine → Option (Progress × Machine)
  unfolding attempt
  retry_loop [] denied io m = attempt denied io m
  retry_loop (w ∷ wakes) denied io m =
      attempt denied io m >>= continued w.fired io.timeout w.found (retry_loop wakes w.refuses io)

  abbrev pub with_context :
      List Wake → Bool → ℕ → Event → Bool → Machine → Option FdCtx → Option (Progress × Machine)
  with_context wakes denied fd event receives m none = raw m m.answers
  with_context wakes denied fd event receives m (some c) =
      let io : IoCall = record { fd = fd; event = event; timeout = get_timeout receives c } in
      let loop = retry_loop wakes denied io m in
      if c.is_closed
      then some (returned (fault bad_descriptor), m)
      else if not c.is_socket || c.user_nonblock
      then raw m m.answers
      else loop

  -- With the context that FdMgr has of the descriptor; the flag `receives` is for SO_RCVTIMEO.
  unfoldable pub do_io :
      Bool
      → Option FdCtx
      → List Wake
      → Bool
      → ℕ
      → Event
      → Bool
      → Machine
      → Option (Progress × Machine)
  unfolding retry_loop
  do_io false c wakes denied fd event receives m = raw m m.answers
  do_io true c wakes denied fd event receives m = with_context wakes denied fd event receives m c

  abbrev pub connect_started :
      Wake → Bool → ℕ → ℕ → Answer → Machine → Answer → Option (Progress × Machine)
  connect_started w denied fd timeout option m (count n) = some (returned (count n), m)
  connect_started w denied fd timeout option m (fault e) =
      let io : IoCall = record { fd = fd; event = write; timeout = timeout } in
      let woken : Option (Progress × Machine) = (do
        r ← wait_for denied io m
        some (connect_woken w.fired w.found timeout option r)) in
      if e == in_progress then woken else some (returned (fault e), m)

  -- `first` is what the original connect returns, and `option` what getsockopt gives.
  unfoldable pub connect_with_timeout :
      Bool
      → Option FdCtx
      → Wake
      → Bool
      → ℕ
      → ℕ
      → Answer
      → Answer
      → Machine
      → Option (Progress × Machine)
  connect_with_timeout false c w denied fd timeout first option m = some (returned first, m)
  connect_with_timeout true none w denied fd timeout first option m =
      some (returned (fault bad_descriptor), m)
  connect_with_timeout true (some c) w denied fd timeout first option m =
      let starts = connect_started w denied fd timeout option m first in
      if c.is_closed
      then some (returned (fault bad_descriptor), m)
      else if not c.is_socket || c.user_nonblock
      then some (returned first, m)
      else starts

-- The function of the timer: the flag is t->cancelled, `none` when the weak pointer has expired.
unfoldable pub on_timeout :
    Bool → IoCall → Option Bool → IoManager → Option (Option Bool × IoManager)
on_timeout denied io none s = some (none, s)
on_timeout denied io (some true) s = some (some true, s)
on_timeout denied io (some false) s = do
  (answer, t) ← cancel_event denied io.fd io.event s
  some (some true, t)
