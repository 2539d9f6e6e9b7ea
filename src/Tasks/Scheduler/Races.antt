-- ===== src/Tasks/Scheduler/Races.antt =====
-- yield() makes the state READY before it has switched contexts.
use acid_compute.Prelude.{ℕ, ◌+◌, ◌≡◌, ◌≢◌, false, none, some, List, ◌∷◌, arith}
use acid_compute.Tasks.Fiber.{ready, running, resume, yield}
use acid_compute.Tasks.Scheduler.{
  fiber, ScheduleTask, pick, Scheduler, looking, holding, inside, leaving, search_tasks, start_work,
  leave, update,
}

module _ (s : Scheduler) (i j f : ℕ) (rest : List ScheduleTask) where
  abbrev yielding : Scheduler
  yielding = record s {
    fibers = update f (record (s.fibers f) { state = ready }) s.fibers;
    place = update i (leaving f) s.place;
  }

  abbrev stolen : Scheduler
  stolen = record yielding {
    tasklist = rest;
    active_thread_count = s.active_thread_count + 1;
    fibers = update f (record (s.fibers f) { state = running }) yielding.fibers;
    place = update j (inside f) (update j (holding (fiber f)) yielding.place);
  }

  abbrev found : Scheduler
  found = record yielding {
    tasklist = rest;
    active_thread_count = s.active_thread_count + 1;
    place = update j (holding (fiber f)) yielding.place;
  }

  steals : start_work j (fiber f) found ≡ some stolen
  unfolding start_work resume
  steals = ground arith

  finds :
      s.tasklist ≡ record { work = fiber f; thread = none } ∷ rest → search_tasks j yielding ≡ found
  unfolding search_tasks pick
  finds l = rw l (ground arith)

-- When a fiber that stands first in the list, for any thread, yields on one thread while another
-- thread looks for a task, the other thread can take it and be inside it while the first has not yet
-- switched away from it.
pub yield_race :
    (s : Scheduler) (i j f : ℕ) (rest : List ScheduleTask)
    → i ≢ j
    → s.place i ≡ inside f
    → s.place j ≡ looking
    → (s.fibers f).state ≡ running
    → s.tasklist ≡ record { work = fiber f; thread = none } ∷ rest
    → (a : Scheduler) × (t : Scheduler) × (leave i f false s ≡ some a)
      × (start_work j (fiber f) (search_tasks j a) ≡ some t)
      × (t.place i ≡ leaving f)
      × (t.place j ≡ inside f)
unfolding leave yield
yield_race s i j f rest ne ei ej r l = (
  yielding s i j f rest,
  stolen s i j f rest,
  ground arith,
  rw (finds s i j f rest l) (steals s i j f rest),
  ground arith,
  ground arith,
)
