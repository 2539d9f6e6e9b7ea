-- ===== src/Samples/Workers.antt =====
-- Threads of a scheduler, and a session.
use acid_compute.Prelude.{
  ℕ, ◌≡◌, ◌≢◌, ◌⊎◌, inl, inr, refl, true, false, Option, none, some, [], ◌∷◌, arith,
}
use acid_compute.Outcome.{ok}
use acid_compute.Tasks.Fiber.{resume, yield, running, term}
use acid_compute.Tasks.Scheduler.{
  fiber, ScheduleTask, Scheduler, holding, inside, leaving, new_scheduler, schedule_without_lock,
  search_tasks, start_work, leave, pick,
}
use acid_compute.Tasks.Scheduler.Picking.{TakesFirst, pick-TakesFirst}
use acid_compute.Tasks.Scheduler.Running.{
  IsFree, leaves, Reach, here, later, searches, starts, schedules,
}
use acid_compute.Tasks.Scheduler.Exclusive.{fiber_exclusion, resume_yield_hold}
use acid_compute.Tasks.Scheduler.Races.{yield_race}
use acid_compute.ByteArray.Store.{little}
use acid_compute.Stream.Sockets.{recv_failed, arrived, departed}
use acid_compute.Rpc.Protocol.{heartbeat}
use acid_compute.Rpc.Session.{recv_protocol, send_protocol}
use acid_compute.Rpc.Session.Deafness.{recv_protocol_deaf, send_protocol_mute}

abbrev first_task : ScheduleTask
first_task = record { work = fiber 1; thread = none }

abbrev queued : Scheduler
queued = record (new_scheduler 3) {
  tasklist = (schedule_without_lock (some (fiber 1)) none (new_scheduler 3).tasklist).0;
}

abbrev or_new : Option Scheduler → Scheduler
or_new none = new_scheduler 3
or_new (some s) = s

-- Thread 7 is inside the fiber 1.
abbrev at_work : Scheduler
at_work = or_new (start_work 7 (fiber 1) (search_tasks 7 queued))

at_work-Reach : Reach IsFree (new_scheduler 3) at_work
unfolding new_scheduler schedule_without_lock search_tasks start_work pick
at_work-Reach =
    later
      (later (later here (schedules (fiber 1) none (refl, omega arith, λ i e. cc)))
        (searches 7 refl))
      (starts 7 (fiber 1) refl refl)

-- It has been scheduled again.
abbrev again : Scheduler
again = record at_work {
  tasklist = (schedule_without_lock (some (fiber 1)) none at_work.tasklist).0;
}

pick-TakesFirst_example :
    TakesFirst 8 again.fibers again.tasklist (pick 8 again.fibers again.tasklist)
pick-TakesFirst_example = pick-TakesFirst 8 again.fibers again.tasklist

-- The fiber 1 yields on thread 7 while it is in the list, and thread 8 takes it.
free_at_work : (i : ℕ) → at_work.place i ≢ holding (fiber 1)
unfolding new_scheduler schedule_without_lock search_tasks start_work pick
free_at_work i e = ground arith

abbrev both : Scheduler
both = or_new (start_work 8 (fiber 1) (search_tasks 8 (or_new (leave 7 1 false again))))

both-Reach : Reach IsFree (new_scheduler 3) both
unfolding new_scheduler schedule_without_lock search_tasks start_work leave pick resume yield
both-Reach =
    later
      (later
        (later (later at_work-Reach (schedules (fiber 1) none (refl, omega arith, free_at_work)))
          (leaves 7 1 false refl refl))
        (searches 8 refl))
      (starts 8 (fiber 1) refl refl)

fiber_exclusion_example :
    ((both.place 7 ≡ leaving 1) ⊎ (both.place 8 ≡ leaving 1))
    × (both.place 7 ≡ inside 1 → (both.fibers 1).state ≡ running)
unfolding new_scheduler schedule_without_lock search_tasks start_work leave pick resume yield
fiber_exclusion_example =
    fiber_exclusion 3 both 7 8 1 both-Reach (inr refl) (inl refl) (omega arith)

resume_yield_hold_example :
    (at_work.place 7 ≡ inside 1 → leave 7 1 true at_work ≢ none)
    × (at_work.place 7 ≡ holding (fiber 1)
        → (at_work.fibers 1).state ≢ term
        → start_work 7 (fiber 1) at_work ≢ none)
resume_yield_hold_example = resume_yield_hold 3 at_work 7 1 true at_work-Reach

yield_race_example :
    (a : Scheduler) × (t : Scheduler) × (leave 7 1 false again ≡ some a)
    × (start_work 8 (fiber 1) (search_tasks 8 a) ≡ some t)
    × (t.place 7 ≡ leaving 1)
    × (t.place 8 ≡ inside 1)
unfolding new_scheduler schedule_without_lock search_tasks start_work pick
yield_race_example = yield_race again 7 8 1 [] (omega arith) refl refl refl refl

recv_protocol_deaf_example :
    recv_protocol little (recv_failed ∷ arrived [] ∷ arrived (204 ∷ []) ∷ []) ≡ ok (some none)
recv_protocol_deaf_example =
    recv_protocol_deaf little (recv_failed ∷ []) [] (arrived (204 ∷ []) ∷ []) (tt, tt) (omega arith)

send_protocol_mute_example : send_protocol little (departed 0 ∷ []) heartbeat ≡ ok (some (0, []))
unfolding heartbeat
send_protocol_mute_example = send_protocol_mute little heartbeat [] (omega arith)
