-- ===== src/Samples/Clocks.antt =====
-- Runs of acid/common/timer.cpp, and its theorems at one manager.
use acid_compute.Prelude.{
  ℕ, ◌≤◌, ◌<◌, ◌≡◌, ◌⊎◌, ◌^◌, ◌-◌, ◌==◌, ◌&&◌, not, ◌↔◌, refl, arith, [], ◌∷◌, Bool, true, false,
  none, some, option_clash,
}
use acid_compute.Outcome.{ok}
use acid_compute.Timers.{
  Timer, TimerManager, Callback, plain, guarded, on_timer, add_timer, add_condition_timer, cancel,
  refresh, reset, get_next_timer, has_timer, list_expired_callback, detect_clock_rollover,
}
use acid_compute.Timers.Order.{elem}
use acid_compute.Timers.Lifecycle.{IsValid, Changed, add_timer-Changed, cancel-Changed}
use acid_compute.Timers.Deadlines.{refresh-Changed, moved, reset-Changed, get_next_timer-earliest}
use acid_compute.Timers.Expiry.{Expired, list_expired_callback-Expired, detect_clock_rollover_iff}

abbrev idle_timer : Timer
idle_timer = record { recurring = false; ms = 0; next = 0; callback = none }

abbrev started : TimerManager
started = record { heap = λ x. idle_timer; timers = []; ticked = false; previous_time = 100 }

started-IsValid : IsValid started
started-IsValid = record { sorted = tt; live = λ a cb e. option_clash e; fits = λ a. omega arith }

-- A timer of 50 ms at the address 7, recurring.
abbrev one_timer : TimerManager
one_timer = (add_timer 7 100 50 (some (plain 1)) true started).1

one_timer-IsValid : IsValid one_timer
one_timer-IsValid =
    (add_timer-Changed 7 100 50 (some (plain 1)) true started started-IsValid refl).0.valid

-- One at the address 3 behind it, which is due at 160 and runs while the object 9 lives.
abbrev two_timers : TimerManager
two_timers = (add_condition_timer 3 100 60 9 2 false one_timer).1

two_timers-IsValid : IsValid two_timers
unfolding add_condition_timer
two_timers-IsValid =
    (add_timer-Changed 3 100 60 (some (guarded 9 2)) false one_timer one_timer-IsValid refl).0.valid

runs :
    (two_timers.timers ≡ 7 ∷ 3 ∷ [])
    × ((list_expired_callback 1 155 two_timers).0 ≡ some (plain 1) ∷ [])
    × ((list_expired_callback 1 155 two_timers).1.timers ≡ 3 ∷ 7 ∷ [])
    × (has_timer two_timers ≡ true)
    × (on_timer (λ x. false) (guarded 9 2) ≡ none)
unfolding add_timer add_condition_timer list_expired_callback has_timer on_timer
runs = (refl, refl, refl, refl, refl)

cancel-Changed_example :
    let t = two_timers.heap 7 in
    (t.callback ≡ none → cancel 7 two_timers ≡ ok (false, two_timers))
    × ((cb : Callback)
        → t.callback ≡ some cb
        → (m' : TimerManager) × (cancel 7 two_timers ≡ ok (true, m'))
          × Changed 7 (record t { callback = none }) false two_timers m')
cancel-Changed_example = cancel-Changed 7 two_timers two_timers-IsValid

refresh-Changed_example :
    let t = two_timers.heap 7 in
    (t.callback ≡ none → refresh 7 130 two_timers ≡ (false, two_timers))
    × ((cb : Callback)
        → t.callback ≡ some cb
        → (m' : TimerManager) × (refresh 7 130 two_timers ≡ (true, m'))
          × Changed 7 (record t { next = 180 }) true two_timers m')
unfolding add_condition_timer add_timer
refresh-Changed_example = refresh-Changed 7 130 two_timers two_timers-IsValid

reset-Changed_example :
    let t = two_timers.heap 7 in
    (((80 == t.ms) && not false) ≡ true
      → reset 7 130 80 false two_timers ≡ (true, false, two_timers))
    × (((80 == t.ms) && not false) ≡ false
        → (t.callback ≡ none → reset 7 130 80 false two_timers ≡ (false, false, two_timers))
          × ((cb : Callback)
              → t.callback ≡ some cb
              → (front : Bool) × (m' : TimerManager) × (reset 7 130 80 false two_timers
                  ≡ (true, front, m'))
                × Changed 7 (moved 130 80 false t) true two_timers m'))
reset-Changed_example = reset-Changed 7 130 80 false two_timers two_timers-IsValid

get_next_timer-earliest_example :
    ((get_next_timer 120 two_timers).1 ≡ record two_timers { ticked = false })
    × ((((x : ℕ) → elem x two_timers.timers ≡ false)
          × ((get_next_timer 120 two_timers).0 ≡ 2 ^ 64 - 1))
        ⊎ ((a : ℕ) × (elem a two_timers.timers ≡ true)
            × ((x : ℕ)
                → elem x two_timers.timers ≡ true
                → (two_timers.heap a).next ≤ (two_timers.heap x).next)
            × ((get_next_timer 120 two_timers).0 ≡ (two_timers.heap a).next - 120)))
get_next_timer-earliest_example = get_next_timer-earliest 120 two_timers two_timers-IsValid

list_expired_callback-Expired_example :
    Expired 155 two_timers (list_expired_callback 1 155 two_timers)
unfolding add_condition_timer add_timer
list_expired_callback-Expired_example =
    list_expired_callback-Expired 1 155 two_timers two_timers-IsValid (omega arith)

detect_clock_rollover_iff_example :
    ((detect_clock_rollover 99 started).0 ≡ true)
    ↔ ((99 < 100) × ((3600099 < 100) ⊎ (100 < 3600000)))
detect_clock_rollover_iff_example = detect_clock_rollover_iff 99 started (omega arith)
