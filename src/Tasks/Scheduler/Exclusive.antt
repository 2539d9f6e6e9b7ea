-- ===== src/Tasks/Scheduler/Exclusive.antt =====
-- Every action of the threads keeps the fibers apart.
use mathlib.Core.Path.{subst}
use acid_compute.Prelude.{
  ℕ, ◌+◌, ◌≡◌, ◌≢◌, refl, Option-cases, ◌⊎◌, inl, inr, Bool, true, false, Option, none, some, List,
  [], ◌∷◌, arith,
}
use acid_compute.Tasks.Fiber.{
  Fiber, State, ready, running, term, is_running, resume, yield, main_func_end, new_fiber,
}
use acid_compute.Tasks.Scheduler.{
  Work, fiber, callback, ScheduleTask, schedule_without_lock, pick, Place, Scheduler, looking,
  holding, inside, leaving, switch_back, search_tasks, held, start_work, leave, still_running,
  update, new_scheduler,
}
use acid_compute.Tasks.Scheduler.Running.{
  IsSeparate, IsFree, Step, searches, starts, leaves, switches, schedules, Reach, here, later,
  occurs, in_task, occurs-append, occurs-pick, picked_rests, none_held, now_held,
}

held-IsSeparate :
    (i : ℕ) (s : Scheduler) (o : Option ScheduleTask) (rest : List ScheduleTask)
    → IsSeparate s
    → s.place i ≡ looking
    → ((f : ℕ) → occurs f rest + in_task f o ≡ occurs f s.tasklist)
    → ((t : ScheduleTask) → o ≡ some t → still_running s.fibers t.work ≡ false)
    → IsSeparate (held i o rest s)
held-IsSeparate i s none rest v e split calm = none_held i s v rest (λ f. omega (arith, split f))
held-IsSeparate i s (some t) rest v e split calm =
    now_held i s v rest t.work t.thread e split (calm t refl)

search-IsSeparate :
    (i : ℕ) (s : Scheduler) → IsSeparate s → s.place i ≡ looking → IsSeparate (search_tasks i s)
unfolding search_tasks
search-IsSeparate i s v e =
    let p = pick i s.fibers s.tasklist in
    held-IsSeparate i s p.task p.rest v e (λ f. occurs-pick i s.fibers f s.tasklist)
      (λ t. picked_rests i s.fibers s.tasklist t)

module _ (i f : ℕ) (s : Scheduler) (v : IsSeparate s) where
  entered-IsSeparate :
      (b : Fiber)
      → s.place i ≡ holding (fiber f)
      → is_running b.state ≡ true
      → IsSeparate (record s { fibers = update f b s.fibers; place = update i (inside f) s.place })
  entered-IsSeparate b e r = record {
    once = v.once;
    born = v.born;
    held_born = λ j g h. ground (arith, v.held_born j g);
    inside_born = λ j g h. ground (arith, v.inside_born j g, v.held_born i f);
    held = λ j g h. ground (arith, v.held j g);
    alone = λ j k g h l. ground (arith, v.alone j k g);
    still = λ j g h. ground (arith, v.still j g, v.alone j i f);
    runs = λ j g h. ground (arith, v.runs j g);
    single = λ j k g h l. ground (arith, v.single j k g, v.runs j f, v.runs k f, v.still i f);
  }

  new-IsSeparate :
      (b : Fiber) (c : ℕ)
      → s.place i ≡ holding (callback c)
      → s.fiber_count ≡ f
      → is_running b.state ≡ true
      → IsSeparate (record s {
        fibers = update f b s.fibers;
        place = update i (inside f) s.place;
        fiber_count = s.fiber_count + 1;
      })
  new-IsSeparate b c e n r = record {
    once = v.once;
    born = λ g h. ground (arith, v.born g);
    held_born = λ j g h. ground (arith, v.held_born j g);
    inside_born = λ j g h. ground (arith, v.inside_born j g);
    held = λ j g h. ground (arith, v.held j g);
    alone = λ j k g h l. ground (arith, v.alone j k g);
    still = λ j g h. ground (arith, v.still j g, v.held_born j g);
    runs = λ j g h. ground (arith, v.runs j g);
    single = λ j k g h l. ground (arith, v.single j k g, v.inside_born j g, v.inside_born k g);
  }

  left-IsSeparate :
      (b : Fiber)
      → s.place i ≡ inside f
      → is_running b.state ≡ false
      → IsSeparate (record s { fibers = update f b s.fibers; place = update i (leaving f) s.place })
  left-IsSeparate b e r = record {
    once = v.once;
    born = v.born;
    held_born = λ j g h. ground (arith, v.held_born j g);
    inside_born = λ j g h. ground (arith, v.inside_born j g);
    held = λ j g h. ground (arith, v.held j g);
    alone = λ j k g h l. ground (arith, v.alone j k g);
    still = λ j g h. ground (arith, v.still j g);
    runs = λ j g h. ground (arith, v.runs j g, v.single j i f);
    single = λ j k g h l. ground (arith, v.single j k g);
  }

is_running_iff : (s : State) → is_running s ≡ true → s ≡ running
is_running_iff ready h = absurd (cc h)
is_running_iff running h = refl
is_running_iff term h = absurd (cc h)

resumed : (a b : Fiber) → resume a ≡ some b → is_running b.state ≡ true
unfolding resume
resumed a b e = ground arith

yielded : (a b : Fiber) → yield a ≡ some b → is_running b.state ≡ false
unfolding yield
yielded a b e = ground arith

ended_calm : (a b : Fiber) → main_func_end a ≡ some b → is_running b.state ≡ false
unfolding main_func_end
ended_calm a b e = ground arith

start-IsSeparate :
    (i : ℕ) (s : Scheduler) {t : Scheduler} (w : Work)
    → IsSeparate s
    → s.place i ≡ holding w
    → start_work i w s ≡ some t
    → IsSeparate t
unfolding start_work
start-IsSeparate i s (fiber f) v e h = elim (Option-cases (resume (s.fibers f))) [
  | inl n ↦ absurd (ground arith)
  | inr (b, n) ↦
      subst IsSeparate (ground arith) (entered-IsSeparate i f s v b e (resumed (s.fibers f) b n))
]
start-IsSeparate i s (callback c) v e h = elim (Option-cases (resume new_fiber)) [
  | inl n ↦ absurd (ground arith)
  | inr (b, n) ↦
      subst IsSeparate (ground arith)
        (new-IsSeparate i s.fiber_count s v b c e refl (resumed new_fiber b n))
]

leave-IsSeparate :
    (i f : ℕ) (s : Scheduler) {t : Scheduler} (ended : Bool)
    → IsSeparate s
    → s.place i ≡ inside f
    → leave i f ended s ≡ some t
    → IsSeparate t
unfolding leave
leave-IsSeparate i f s true v e h = elim (Option-cases (main_func_end (s.fibers f))) [
  | inl n ↦ absurd (ground arith)
  | inr (b, n) ↦
      subst IsSeparate (ground arith) (left-IsSeparate i f s v b e (ended_calm (s.fibers f) b n))
]
leave-IsSeparate i f s false v e h = elim (Option-cases (yield (s.fibers f))) [
  | inl n ↦ absurd (ground arith)
  | inr (b, n) ↦
      subst IsSeparate (ground arith) (left-IsSeparate i f s v b e (yielded (s.fibers f) b n))
]

switch_back-IsSeparate :
    (i f : ℕ) (s : Scheduler) → IsSeparate s → s.place i ≡ leaving f → IsSeparate (switch_back i s)
unfolding switch_back
switch_back-IsSeparate i f s v e = record {
  once = v.once;
  born = v.born;
  held_born = λ j g h. ground (arith, v.held_born j g);
  inside_born = λ j g h. ground (arith, v.inside_born j g);
  held = λ j g h. ground (arith, v.held j g);
  alone = λ j k g h l. ground (arith, v.alone j k g);
  still = λ j g h. ground (arith, v.still j g);
  runs = λ j g h. ground (arith, v.runs j g);
  single = λ j k g h l. ground (arith, v.single j k g);
}

schedule-IsSeparate :
    (s : Scheduler) (w : Work) (thread : Option ℕ)
    → IsSeparate s
    → IsFree w s
    → IsSeparate (record s { tasklist = (schedule_without_lock (some w) thread s.tasklist).0 })
unfolding schedule_without_lock
schedule-IsSeparate s (fiber f) thread v free =
    let t : ScheduleTask = record { work = fiber f; thread = thread } in
    record {
      once = λ g. ground (arith, v.once g, occurs-append g s.tasklist (t ∷ []));
      born = λ g h. ground (arith, v.born g, occurs-append g s.tasklist (t ∷ []));
      held_born = v.held_born;
      inside_born = v.inside_born;
      held = λ i g h. ground (arith, v.held i g, free.2 i, occurs-append g s.tasklist (t ∷ []));
      alone = v.alone;
      still = v.still;
      runs = v.runs;
      single = v.single;
    }
schedule-IsSeparate s (callback c) thread v free =
    let t : ScheduleTask = record { work = callback c; thread = thread } in
    record {
      once = λ g. ground (arith, v.once g, occurs-append g s.tasklist (t ∷ []));
      born = λ g h. ground (arith, v.born g, occurs-append g s.tasklist (t ∷ []));
      held_born = v.held_born;
      inside_born = v.inside_born;
      held = λ i g h. ground (arith, v.held i g, occurs-append g s.tasklist (t ∷ []));
      alone = v.alone;
      still = v.still;
      runs = v.runs;
      single = v.single;
    }

Step-IsSeparate : {s t : Scheduler} → Step IsFree s t → IsSeparate s → IsSeparate t
Step-IsSeparate {s} (searches i e) v = search-IsSeparate i s v e
Step-IsSeparate {s} (starts i w e h) v = start-IsSeparate i s w v e h
Step-IsSeparate {s} (leaves i f ended e h) v = leave-IsSeparate i f s ended v e h
Step-IsSeparate {s} (switches i f e) v = switch_back-IsSeparate i f s v e
Step-IsSeparate {s} (schedules w thread free) v = schedule-IsSeparate s w thread v free

new_scheduler-IsSeparate : (n : ℕ) → IsSeparate (new_scheduler n)
unfolding new_scheduler
new_scheduler-IsSeparate n = record {
  once = λ f. omega arith;
  born = λ f h. absurd (omega arith);
  held_born = λ i f h. absurd (cc h);
  inside_born = λ i f h. absurd (cc h);
  held = λ i f h. absurd (cc h);
  alone = λ i j f h l. absurd (cc h);
  still = λ i f h. absurd (cc h);
  runs = λ i f h. absurd (cc h);
  single = λ i j f h l. absurd (cc h);
}

pub Reach-IsSeparate : (n : ℕ) {t : Scheduler} → Reach IsFree (new_scheduler n) t → IsSeparate t
Reach-IsSeparate n here = new_scheduler-IsSeparate n
Reach-IsSeparate n (later r st) = Step-IsSeparate st (Reach-IsSeparate n r)

-- A thread runs code of the fiber: behind a resume() and before the switch of contexts that ends it.
abbrev pub InFiber : ℕ → Place → Type 0
InFiber f p = (p ≡ inside f) ⊎ (p ≡ leaving f)

apart :
    {f : ℕ} {p q : Place} {i j : ℕ}
    → (p ≡ inside f → q ≡ inside f → i ≡ j)
    → InFiber f p
    → InFiber f q
    → i ≢ j
    → (p ≡ leaving f) ⊎ (q ≡ leaving f)
apart h (inr a) b ne = inl a
apart h (inl a) (inr b) ne = inr b
apart h (inl a) (inl b) ne = absurd (ne (h a b))

-- When a fiber is scheduled only while it is not in the list and no thread is about to resume it (also
-- while it still runs), then in every order of the threads' actions: of two different threads that run
-- code of one fiber, one is in its yield() or its end, behind the change of the state and before the
-- switch of contexts. A fiber that a thread runs and that has not come so far is RUNNING.
pub fiber_exclusion :
    (n : ℕ) (s : Scheduler) (i j f : ℕ)
    → Reach IsFree (new_scheduler n) s
    → InFiber f (s.place i)
    → InFiber f (s.place j)
    → i ≢ j
    → ((s.place i ≡ leaving f) ⊎ (s.place j ≡ leaving f))
      × (s.place i ≡ inside f → (s.fibers f).state ≡ running)
fiber_exclusion n s i j f r e h ne =
    let v = Reach-IsSeparate n r in
    (apart (v.single i j f) e h ne, λ p. is_running_iff (s.fibers f).state (v.runs i f p))

-- When a fiber is scheduled only while it is not in the list and no thread is about to resume it (also
-- while it still runs), then in every order of the threads' actions: the assertion of yield() holds for the
-- fiber that a thread is inside, whether it calls yield() or its function ends, and the assertion of
-- resume() holds for a fiber that a thread has taken from the list, unless the fiber has ended.
pub resume_yield_hold :
    (n : ℕ) (s : Scheduler) (i f : ℕ) (ended : Bool)
    → Reach IsFree (new_scheduler n) s
    → (s.place i ≡ inside f → leave i f ended s ≢ none)
      × (s.place i ≡ holding (fiber f)
          → (s.fibers f).state ≢ term
          → start_work i (fiber f) s ≢ none)
unfolding leave start_work yield main_func_end resume
resume_yield_hold n s i f ended r =
    let v = Reach-IsSeparate n r in
    (λ e q. ground (arith, v.runs i f), λ e k q. ground (arith, v.still i f))
