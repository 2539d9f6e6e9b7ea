-- ===== src/Tasks/Scheduler.antt =====
-- Scheduler of acid/common/scheduler.{h,cpp}: the list of tasks and the threads in run(), one action
-- of one thread at a time. A fiber and a thread are their ids, and `none` as a task's thread is -1.
-- m_mutex makes the search for a task one action; resume() comes later, without the lock.
pub mod Picking
pub mod Running
pub mod Exclusive
pub mod Races
use acid_compute.Prelude.{
  ℕ, ◌+◌, ◌-◌, ◌<◌, Bool, true, false, not, ◌&&◌, ◌||◌, Option, none, some, List, [], ◌∷◌, ◌++◌,
  ◌≡◌, ◌==◌, ltb, if◌then◌else◌,
}
use acid_compute.Tasks.Fiber.{Fiber, State, is_running, new_fiber, resume, yield, main_func_end}

-- A function is its id.
pub data Work : Type 0 where
  fiber callback : ℕ → Work

pub record ScheduleTask : Type 0 where
  pub work : Work
  pub thread : Option ℕ

abbrev pub is_empty : List ScheduleTask → Bool
is_empty [] = true
is_empty (t ∷ ts) = false

-- A null fiber or function is not put into the list.
unfoldable pub schedule_without_lock :
    Option Work → Option ℕ → List ScheduleTask → List ScheduleTask × Bool
schedule_without_lock none thread tasks = (tasks, is_empty tasks)
schedule_without_lock (some w) thread tasks =
    (tasks ++ (record { work = w; thread = thread } ∷ []), is_empty tasks)

-- The task is for another thread.
abbrev pub pinned_elsewhere : ℕ → Option ℕ → Bool
pinned_elsewhere me none = false
pinned_elsewhere me (some t) = not (t == me)

abbrev pub still_running : (ℕ → Fiber) → Work → Bool
still_running fibers (fiber f) = is_running (fibers f).state
still_running fibers (callback c) = false

pub record Picked : Type 0 where
  pub task : Option ScheduleTask
  pub rest : List ScheduleTask
  pub tickle_me : Bool

abbrev pub keep : ScheduleTask → Bool → Picked → Picked
keep t tickled p = record p { rest = t ∷ p.rest; tickle_me = tickled || p.tickle_me }

-- The search of run() under the lock, by the thread `me`.
unfoldable pub pick : ℕ → (ℕ → Fiber) → List ScheduleTask → Picked
pick me fibers [] = record { task = none; rest = []; tickle_me = false }
pick me fibers (t ∷ ts) =
    let found = pick me fibers ts in
    if pinned_elsewhere me t.thread
    then keep t true found
    else if still_running fibers t.work
    then keep t false found
    else record { task = some t; rest = ts; tickle_me = not (is_empty ts) }

-- Where a thread is in the loop of run(): before the search, behind it with a task, in a fiber, or in
-- yield() of a fiber between the change of its state and the switch back.
pub data Place : Type 0 where
  looking : Place
  holding : Work → Place
  inside leaving : ℕ → Place

pub record Scheduler : Type 0 where
  pub tasklist : List ScheduleTask
  pub active_thread_count : ℕ
  pub fibers : ℕ → Fiber
  pub fiber_count : ℕ
  pub place : ℕ → Place

-- `n` fibers, and all threads before the search.
unfoldable pub new_scheduler : ℕ → Scheduler
unfolding new_fiber
new_scheduler n = record {
  tasklist = [];
  active_thread_count = 0;
  fibers = λ f. new_fiber;
  fiber_count = n;
  place = λ i. looking;
}

abbrev pub update : {A : Type 0} → ℕ → A → (ℕ → A) → ℕ → A
update k v f x = if x == k then v else f x

abbrev pub held : ℕ → Option ScheduleTask → List ScheduleTask → Scheduler → Scheduler
held i none rest s = record s { tasklist = rest }
held i (some t) rest s = record s {
  tasklist = rest;
  active_thread_count = s.active_thread_count + 1;
  place = update i (holding t.work) s.place;
}

unfoldable pub search_tasks : ℕ → Scheduler → Scheduler
search_tasks i s = let p = pick i s.fibers s.tasklist in held i p.task p.rest s

abbrev pub entered : ℕ → ℕ → Option Fiber → Scheduler → Option Scheduler
entered i f none s = none
entered i f (some b) s =
    some (record s { fibers = update f b s.fibers; place = update i (inside f) s.place })

-- The resume() of a task; a callback gets a new fiber.
unfoldable pub start_work : ℕ → Work → Scheduler → Option Scheduler
unfolding resume
start_work i (fiber f) s = entered i f (resume (s.fibers f)) s
start_work i (callback c) s =
    entered i s.fiber_count (resume new_fiber) (record s { fiber_count = s.fiber_count + 1 })

abbrev pub left : ℕ → ℕ → Option Fiber → Scheduler → Option Scheduler
left i f none s = none
left i f (some b) s =
    some (record s { fibers = update f b s.fibers; place = update i (leaving f) s.place })

-- The fiber calls yield(), or its function ends.
unfoldable pub leave : ℕ → ℕ → Bool → Scheduler → Option Scheduler
unfolding yield main_func_end
leave i f ended s = left i f (if ended then main_func_end (s.fibers f) else yield (s.fibers f)) s

-- The switch to the scheduler's fiber, and what run() does behind resume().
unfoldable pub switch_back : ℕ → Scheduler → Scheduler
switch_back i s = record s {
  place = update i looking s.place;
  active_thread_count = s.active_thread_count - 1;
}
