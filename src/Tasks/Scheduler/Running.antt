-- ===== src/Tasks/Scheduler/Running.antt =====
-- No fiber runs on two threads.
use acid_compute.Prelude.{
  ℕ, ◌+◌, ◌<◌, ◌≤◌, ◌≡◌, ◌≢◌, ◌∙◌, Bool, true, false, Option, none, some, List, [], ◌∷◌, ◌++◌, ◌==◌,
  if◌then◌else◌, arith,
}
use acid_compute.Tasks.Fiber.{Fiber, is_running}
use acid_compute.Tasks.Scheduler.{
  Work, fiber, callback, ScheduleTask, schedule_without_lock, pick, Scheduler, looking, holding,
  inside, leaving, switch_back, search_tasks, held, start_work, leave, still_running,
}

abbrev pub is_fiber : ℕ → Work → ℕ
is_fiber f (fiber g) = if g == f then 1 else 0
is_fiber f (callback c) = 0

-- How often a fiber stands in the list.
abbrev pub occurs : ℕ → List ScheduleTask → ℕ
occurs f [] = 0
occurs f (t ∷ ts) = is_fiber f t.work + occurs f ts

abbrev pub in_task : ℕ → Option ScheduleTask → ℕ
in_task f none = 0
in_task f (some t) = is_fiber f t.work

-- A fiber is scheduled only when it is not in the list and no thread is about to resume it, which
-- is so when every wait of a fiber is ended once.
abbrev pub IsFree : Work → Scheduler → Type 0
IsFree (fiber f) s =
    (occurs f s.tasklist ≡ 0) × (f < s.fiber_count) × ((i : ℕ) → s.place i ≢ holding (fiber f))
IsFree (callback c) s = Unit

-- One action of a thread, or a call of schedule() where it is allowed.
pub data Step (Allowed : Work → Scheduler → Type 0) (s : Scheduler) : Scheduler → Type 0 where
  searches : (i : ℕ) → s.place i ≡ looking → Step Allowed s (search_tasks i s)
  starts :
      {t : Scheduler} (i : ℕ) (w : Work)
      → s.place i ≡ holding w
      → start_work i w s ≡ some t
      → Step Allowed s t
  leaves :
      {t : Scheduler} (i f : ℕ) (ended : Bool)
      → s.place i ≡ inside f
      → leave i f ended s ≡ some t
      → Step Allowed s t
  switches : (i f : ℕ) → s.place i ≡ leaving f → Step Allowed s (switch_back i s)
  schedules :
      (w : Work) (thread : Option ℕ)
      → Allowed w s
      → Step Allowed s
          (record s { tasklist = (schedule_without_lock (some w) thread s.tasklist).0 })

pub data Reach (Allowed : Work → Scheduler → Type 0) (s : Scheduler) : Scheduler → Type 0 where
  here : Reach Allowed s s
  later : {t u : Scheduler} → Reach Allowed s t → Step Allowed t u → Reach Allowed s u

pub record IsSeparate (s : Scheduler) : Type 0 where
  pub once : (f : ℕ) → occurs f s.tasklist ≤ 1
  pub born : (f : ℕ) → 0 < occurs f s.tasklist → f < s.fiber_count
  pub held_born : (i f : ℕ) → s.place i ≡ holding (fiber f) → f < s.fiber_count
  pub inside_born : (i f : ℕ) → s.place i ≡ inside f → f < s.fiber_count
  pub held : (i f : ℕ) → s.place i ≡ holding (fiber f) → occurs f s.tasklist ≡ 0
  pub alone : (i j f : ℕ) → s.place i ≡ holding (fiber f) → s.place j ≡ holding (fiber f) → i ≡ j
  pub still : (i f : ℕ) → s.place i ≡ holding (fiber f) → is_running (s.fibers f).state ≡ false
  pub runs : (i f : ℕ) → s.place i ≡ inside f → is_running (s.fibers f).state ≡ true
  pub single : (i j f : ℕ) → s.place i ≡ inside f → s.place j ≡ inside f → i ≡ j

pub occurs-append :
    (f : ℕ) (ts us : List ScheduleTask) → occurs f (ts ++ us) ≡ occurs f ts + occurs f us
occurs-append f [] us = omega arith
occurs-append f (t ∷ ts) us = omega (arith, occurs-append f ts us)

module _ (me : ℕ) (fibers : ℕ → Fiber) where
  pub occurs-pick :
      (f : ℕ) (ts : List ScheduleTask)
      → occurs f (pick me fibers ts).rest + in_task f (pick me fibers ts).task ≡ occurs f ts
  unfolding pick
  occurs-pick f [] = omega arith
  occurs-pick f (t ∷ ts) = ground (arith, occurs-pick f ts)

  pub picked_rests :
      (ts : List ScheduleTask) (t : ScheduleTask)
      → (pick me fibers ts).task ≡ some t
      → still_running fibers t.work ≡ false
  unfolding pick
  picked_rests [] t e = ground arith
  picked_rests (u ∷ ts) t e = ground (arith, picked_rests ts t)

module _ (i : ℕ) (s : Scheduler) (v : IsSeparate s) where
  pub none_held :
      (rest : List ScheduleTask)
      → ((f : ℕ) → occurs f rest ≡ occurs f s.tasklist)
      → IsSeparate (record s { tasklist = rest })
  none_held rest same = record {
    once = λ f. ground (arith, v.once f, same f);
    born = λ f h. v.born f (ground (arith, same f));
    held_born = v.held_born;
    inside_born = v.inside_born;
    held = λ j f e. same f ∙ v.held j f e;
    alone = v.alone;
    still = v.still;
    runs = v.runs;
    single = v.single;
  }

  pub now_held :
      (rest : List ScheduleTask) (w : Work) (thread : Option ℕ)
      → s.place i ≡ looking
      → ((f : ℕ) → occurs f rest + is_fiber f w ≡ occurs f s.tasklist)
      → still_running s.fibers w ≡ false
      → IsSeparate (held i (some (record { work = w; thread = thread })) rest s)
  now_held rest w thread e split calm = record {
    once = λ f. ground (arith, v.once f, split f);
    born = λ f h. ground (arith, split f, v.born f);
    held_born = λ j f h. ground (arith, split f, v.born f, v.held_born j f);
    inside_born = λ j f h. ground (arith, v.inside_born j f);
    held = λ j f h. ground (arith, split f, v.once f, v.held j f);
    alone = λ j k f h l. ground (arith, split f, v.held j f, v.held k f, v.alone j k f);
    still = λ j f h. ground (arith, v.still j f);
    runs = λ j f h. ground (arith, v.runs j f);
    single = λ j k f h l. ground (arith, v.single j k f);
  }
