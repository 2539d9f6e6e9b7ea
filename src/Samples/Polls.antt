-- ===== src/Samples/Polls.antt =====
-- Descriptors that wait in an IOManager.
use acid_compute.Prelude.{
  ℕ, ◌-◌, ◌^◌, ◌<◌, ◌%◌, Bool, true, false, none, some, ◌≡◌, refl, arith, ◌↔◌, ◌⊎◌,
}
use acid_compute.Descriptors.{pos, negsuc, is_short}
use acid_compute.IoManager.{
  read, write, Events, no_events, IoManager, Caller, new_manager, add_event, Ready, handle_ready,
  del_event, context_resize, cancel_all, cancel_event, register, make_room, next_timeout, as_int,
}
use acid_compute.IoManager.Valid.{IsValid}
use acid_compute.IoManager.Room.{new_manager-IsValid}
use acid_compute.IoManager.Adding.{
  with_waiter, attached, with_waiter-IsValid, Joined, Unjoined, new_call, add_event-Joins,
}
use acid_compute.IoManager.Wakes.{Cancelled, Served, cancel_event-Serves}
use acid_compute.IoManager.Clearing.{Cleared, cancel_all-Serves}
use acid_compute.IoManager.Idling.{handle_ready-Serves, idle_race, IsWithin, wait-IsWithin_iff}
use acid_compute.IoManager.Racing.{resize_race}

abbrev pub zeroed : ℕ → Events
zeroed i = no_events

abbrev pub worker : Caller
worker = record { own_scheduler = some 1; own_fiber = 7; running = true }

abbrev pub started : IoManager
started = new_manager zeroed

abbrev reading : IoManager
reading = with_waiter 5 read (attached worker none) started

-- A fiber waits to read and a function to write.
abbrev busy : IoManager
busy = with_waiter 5 write (attached worker (some 9)) reading

pub started-IsValid : IsValid started
started-IsValid = new_manager-IsValid zeroed (λ i. refl)

reading-IsValid : IsValid reading
unfolding new_manager context_resize
reading-IsValid =
    with_waiter-IsValid started 5 read worker none started-IsValid (omega arith) refl refl

busy-IsValid : IsValid busy
unfolding new_manager context_resize
busy-IsValid =
    with_waiter-IsValid reading 5 write worker (some 9) reading-IsValid (omega arith) refl refl

add_event-Joins_example :
    ((t : IoManager) × (add_event zeroed false 100 write worker (some 3) busy ≡ some (pos 0, t))
      × Joined busy t 100 write (new_call worker (some 3)) 5 read)
    × ((t : IoManager) × (add_event zeroed true 100 write worker (some 3) busy ≡ some (negsuc 0, t))
        × Unjoined busy t 5 read)
unfolding new_manager context_resize
add_event-Joins_example =
    add_event-Joins zeroed (λ i. refl) busy 100 write worker (some 3) 5 read busy-IsValid
      (omega arith) refl refl refl

cancel_event-Serves_example :
    (answer : Bool) × (t : IoManager) × (cancel_event false 5 write busy ≡ some (answer, t))
    × Cancelled busy t 5 write 5 read answer
cancel_event-Serves_example = cancel_event-Serves busy 5 write 5 read busy-IsValid

cancel_all-Serves_example :
    (answer : Bool) × (t : IoManager) × (cancel_all false 5 busy ≡ some (answer, t))
    × Cleared busy t 5 5 write answer
cancel_all-Serves_example = cancel_all-Serves busy 5 5 write busy-IsValid

abbrev hung_up : Ready
hung_up = record { input = true; output = false; failed = true }

handle_ready-Serves_example :
    (t : IoManager) × (handle_ready false 5 hung_up busy ≡ some t)
    × Served busy t 5 true true 5 write
unfolding new_manager context_resize
handle_ready-Serves_example =
    handle_ready-Serves busy 5 hung_up 5 write busy-IsValid (omega arith) refl refl

idle_race_example :
    handle_ready false 5
      (record { input = true; output = true; failed = false })
      (del_event false 5 read busy).1
    ≡ none
unfolding new_manager context_resize
idle_race_example = idle_race busy 5 false (omega arith) (omega arith) refl refl

resize_race_example :
    (t u : IoManager) × (add_event zeroed false 100 write worker none started ≡ some (pos 0, t))
    × (register false 40 read worker none (make_room zeroed true 40 t) ≡ some (pos 0, u))
    × (del_event false 100 write u ≡ (false, u))
    × (cancel_all false 100 u ≡ some (false, u))
    × (u.pending_event_count ≡ 2)
unfolding new_manager context_resize is_short
resize_race_example =
    resize_race zeroed (λ i. refl) started 40 100 read write worker worker none none started-IsValid
      (omega arith) (omega arith) (omega arith) refl refl

wait-IsWithin_iff_example :
    IsWithin (as_int (next_timeout (2 ^ 31))) 5000
    ↔ ((2 ^ 31 ≡ 2 ^ 64 - 1) ⊎ (2 ^ 31 % 2 ^ 32 < 2 ^ 31))
wait-IsWithin_iff_example = wait-IsWithin_iff (2 ^ 31)
