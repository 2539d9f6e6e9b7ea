-- ===== src/Tasks/Scheduler/Picking.antt =====
-- Which task a thread finds.
use acid_compute.Prelude.{
  ℕ, ◌≡◌, refl, Bool, true, false, ◌||◌, none, some, ◌⊎◌, inl, inr, List, [], ◌∷◌, ◌++◌, All,
  Bool-cases, arith,
}
use acid_compute.Tasks.Fiber.{Fiber}
use acid_compute.Tasks.Scheduler.{ScheduleTask, pinned_elsewhere, still_running, Picked, keep, pick}

module _ (me : ℕ) (fibers : ℕ → Fiber) where
  -- A task for another thread, or a fiber that has not yielded.
  abbrev pub IsBlocked : ScheduleTask → Type 0
  IsBlocked t = (pinned_elsewhere me t.thread || still_running fibers t.work) ≡ true

  -- The first task that is not blocked is taken out, or all are blocked and stay.
  abbrev pub TakesFirst : List ScheduleTask → Picked → Type 0
  TakesFirst ts p =
      (p.task ≡ none) × (p.rest ≡ ts) × All IsBlocked ts
      ⊎ (t : ScheduleTask) × (front : List ScheduleTask) × (back : List ScheduleTask) × (p.task
          ≡ some t)
        × (ts ≡ front ++ (t ∷ back))
        × (p.rest ≡ front ++ back)
        × All IsBlocked front
        × ((pinned_elsewhere me t.thread || still_running fibers t.work) ≡ false)

  keep-TakesFirst :
      (t : ScheduleTask) (b : Bool) (ts : List ScheduleTask) (p : Picked)
      → IsBlocked t
      → TakesFirst ts p
      → TakesFirst (t ∷ ts) (keep t b p)
  keep-TakesFirst t b ts p e (inl (n, r, a)) = inl (n, ground arith, (e, a))
  keep-TakesFirst t b ts p e (inr (u, front, back, s, w, r, a, f)) =
      inr (u, t ∷ front, back, s, ground arith, ground arith, (e, a), f)

  pick_blocked :
      (t : ScheduleTask) (ts : List ScheduleTask)
      → IsBlocked t
      → (b : Bool) × (pick me fibers (t ∷ ts) ≡ keep t b (pick me fibers ts))
  unfolding pick
  pick_blocked t ts e = elim (Bool-cases (pinned_elsewhere me t.thread)) [
    | inl p ↦ (true, rw p refl)
    | inr p ↦ (false, ground arith)
  ]

  pick_free :
      (t : ScheduleTask) (ts : List ScheduleTask)
      → (pinned_elsewhere me t.thread || still_running fibers t.work) ≡ false
      → TakesFirst (t ∷ ts) (pick me fibers (t ∷ ts))
  unfolding pick
  pick_free t ts e = inr (t, [], ts, ground arith, refl, ground arith, tt, e)

  pick_none : TakesFirst [] (pick me fibers [])
  unfolding pick
  pick_none = inl (refl, refl, tt)

  -- run() takes the first task of the list that is not for another thread and not a fiber that is
  -- still RUNNING, and leaves the others in their order; it finds none only when all are so.
  pub pick-TakesFirst : (ts : List ScheduleTask) → TakesFirst ts (pick me fibers ts)
  pick-TakesFirst [] = pick_none
  pick-TakesFirst (t ∷ ts) =
      let rest = pick-TakesFirst ts in
      elim (Bool-cases (pinned_elsewhere me t.thread || still_running fibers t.work)) [
        | inl e ↦
            let (b, same) = pick_blocked t ts e in
            rw same (keep-TakesFirst t b ts (pick me fibers ts) e rest)
        | inr e ↦ pick_free t ts e
      ]

  -- A fiber that this thread may run, once it has yielded.
  abbrev pub IsWaiting : ScheduleTask → Type 0
  IsWaiting t = (pinned_elsewhere me t.thread ≡ false) × (still_running fibers t.work ≡ true)

  -- When run() wakes no other thread, every task that it leaves in the list is a fiber still RUNNING
  -- that this thread may run: nothing is left that another thread could do.
  pub pick_wakes :
      (ts : List ScheduleTask)
      → (pick me fibers ts).tickle_me ≡ false
      → All IsWaiting (pick me fibers ts).rest
  unfolding pick
  pick_wakes [] h = tt
  pick_wakes (t ∷ ts) h = ground (arith, pick_wakes ts)
