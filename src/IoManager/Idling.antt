-- ===== src/IoManager/Idling.antt =====
-- The loop of idle() of acid/common/iomanager.cpp over what epoll_wait reports.
use acid_compute.Prelude.{
  ℕ, ◌+◌, ◌-◌, ◌%◌, ◌^◌, ◌≤◌, ◌<◌, ◌≡◌, ◌≢◌, ◌↔◌, ◌⊎◌, refl, ap, ◌∙◌, arith, Bool, true, false, not,
  ◌&&◌, ◌||◌, Option, none, some, ◌==◌, ==_iff, lt→leb, le→leb, leb→le, leb→lt, ltb, leb,
  Bool-cases, inl, inr, if◌then◌else◌,
}
use acid_compute.Descriptors.Table.{is_short-leb}
use acid_compute.IoManager.{
  Event, read, write, Events, FdContext, trigger_event, del_event, IoManager, delete_op, Ctl,
  trigger, trigger_if, ◌>>=◌, Ready, real_events, handle_ready, next_timeout, as_int,
}
use acid_compute.Descriptors.{ℤ, pos, negsuc}
use acid_compute.IoManager.Valid.{IsValid}
use acid_compute.IoManager.Waiters.{waiter}
use acid_compute.IoManager.Sweep.{taken_both, swept, logged}
use acid_compute.IoManager.Wakes.{Served, Swept-Served, unchanged-Served}

abbrev left_events : Ready → Events → Events
left_events r es = record {
  reads = es.reads && not (real_events r es).reads;
  writes = es.writes && not (real_events r es).writes;
}

left-taken :
    (r : Ready) (c : FdContext)
    → left_events r c.events
      ≡ (taken_both (real_events r c.events).reads (real_events r c.events).writes c).events
left-taken r c = ground arith

abbrev rest_of : ℕ → Ready → IoManager → Ctl
rest_of fd r s =
    let left = left_events r (s.contexts fd).events in
    record { op = delete_op left; target = fd; mask = left; edge_triggered = true }

-- What is reported is registered, errors and hang-ups aside.
real_registered :
    (input failed reads : Bool)
    → (input && not reads) ≡ false
    → ((input || (failed && reads)) && not reads) ≡ false
real_registered input failed reads h = ground arith

handle_ready-some :
    (s s1 s2 : IoManager) (fd : ℕ) (r : Ready)
    → (((s.contexts fd).events.reads && (real_events r (s.contexts fd).events).reads)
        || ((s.contexts fd).events.writes && (real_events r (s.contexts fd).events).writes))
      ≡ true
    → trigger_if (real_events r (s.contexts fd).events).reads fd read (logged (rest_of fd r s) s)
      ≡ some s1
    → trigger_if (real_events r (s.contexts fd).events).writes fd write s1 ≡ some s2
    → handle_ready false fd r s ≡ some s2
unfolding handle_ready
handle_ready-some s s1 s2 fd r o e1 e2 = rw o (
    ap
      (λ (x : Option IoManager).
        x >>= trigger_if (real_events r (s.contexts fd).events).writes fd write)
      e1
    ∙ e2)

handle_ready_none :
    (s : IoManager) (fd : ℕ) (r : Ready)
    → (((s.contexts fd).events.reads && (real_events r (s.contexts fd).events).reads)
        || ((s.contexts fd).events.writes && (real_events r (s.contexts fd).events).writes))
      ≡ false
    → handle_ready false fd r s ≡ some s
unfolding handle_ready
handle_ready_none s fd r h = rw h refl

none_real :
    (reads writes x y : Bool)
    → (x && not reads) ≡ false
    → (y && not writes) ≡ false
    → ((reads && x) || (writes && y)) ≡ false
    → (x ≡ false) × (y ≡ false)
none_real reads writes x y h k n = (ground arith, ground arith)

some_real : (reads writes x y : Bool) → ((reads && x) || (writes && y)) ≡ true → (x || y) ≡ true
some_real reads writes x y h = ground arith

-- On a valid state, when epoll_wait reports input and output only where they are registered, and
-- epoll_ctl accepts its call, the turn of idle() for this descriptor fails no assertion. The events that
-- are reported, or on an error or hang-up all that are registered, have their waiters scheduled, the
-- reader first, and taken out of the table; no other entry changes, and the new state is valid.
pub handle_ready-Serves :
    (s : IoManager) (fd : ℕ) (r : Ready) (i : ℕ) (other : Event)
    → IsValid s
    → fd < s.size
    → (r.input && not (s.contexts fd).events.reads) ≡ false
    → (r.output && not (s.contexts fd).events.writes) ≡ false
    → let real = real_events r (s.contexts fd).events in
      (t : IoManager) × (handle_ready false fd r s ≡ some t)
      × Served s t fd real.reads real.writes i other
handle_ready-Serves s fd r i other v h hi ho =
    let c : FdContext = s.contexts fd in
    let real : Events = real_events r c.events in
    let hr = real_registered r.input r.failed c.events.reads hi in
    let hw = real_registered r.output r.failed c.events.writes ho in
    elim (Bool-cases ((c.events.reads && real.reads) || (c.events.writes && real.writes))) [
      | inl o ↦
          let left = left-taken r c in
          let (s1, s2, e1, e2, c1, k) =
            swept s (rest_of fd r s) fd real.reads real.writes v h hr hw
              (some_real c.events.reads c.events.writes real.reads real.writes o) refl left
              (ap delete_op left) in
          (
            s2,
            handle_ready-some s s1 s2 fd r o e1 e2,
            Swept-Served s s2 fd real.reads real.writes i other h k,
          )
      | inr n ↦
          let (p, q) = none_real c.events.reads c.events.writes real.reads real.writes hr hw n in
          (
            s,
            handle_ready_none s fd r n,
            unchanged-Served s fd real.reads real.writes i other v
                (ap (λ b. if b then waiter s fd read else none) p)
                (ap (λ b. if b then waiter s fd write else none) q),
          )
    ]

-- Both events of a descriptor are registered and epoll_wait reports both, but del_event(fd, READ) runs
-- before idle() takes the lock of the context, with a vector of fewer than 2 ^ 31 contexts: then trigger_event(READ) fails its assertion.
pub idle_race :
    (s : IoManager) (fd : ℕ) (failed : Bool)
    → s.size < 2 ^ 31
    → fd < s.size
    → (s.contexts fd).events.reads ≡ true
    → (s.contexts fd).events.writes ≡ true
    → handle_ready false fd
        (record { input = true; output = true; failed = failed })
        (del_event false fd read s).1
      ≡ none
unfolding handle_ready del_event trigger trigger_event
idle_race s fd failed k h p q =
    rw (is_short-leb s.size fd k, lt→leb s.size fd h, p) (ground (arith, ==_iff fd fd))

abbrev pub IsWithin : ℤ → ℕ → Type 0
IsWithin (pos n) k = n ≤ k
IsWithin (negsuc n) k = ⊥

as_int_small : (v : ℕ) → v < 2 ^ 31 → as_int v ≡ pos v
unfolding as_int
as_int_small v h = ground arith

as_int_large : (v : ℕ) → v < 2 ^ 32 → 2 ^ 31 ≤ v → IsWithin (as_int (2 ^ 64 - 2 ^ 32 + v)) 5000 → ⊥
unfolding as_int
as_int_large v h k =
    let e : (2 ^ 64 - 2 ^ 32 + v) % 2 ^ 32 ≡ v = omega arith in rw (e, le→leb (2 ^ 31) v k) (λ w. w)

short : (v : ℕ) → IsWithin (as_int (if ltb v 5000 then v else 5000)) 5000
unfolding as_int
short v = ground arith

IsWithin-of_small : (t : ℕ) → t % 2 ^ 32 < 2 ^ 31 → IsWithin (as_int (next_timeout t)) 5000
unfolding next_timeout
IsWithin-of_small t h = elim (Bool-cases (t == 2 ^ 64 - 1)) [
  | inl p ↦ rw p (rw (as_int_small 5000 (omega arith)) (omega arith))
  | inr p ↦ rw (p, lt→leb (2 ^ 31) (t % 2 ^ 32) h) (short (t % 2 ^ 32))
]

large_not_within :
    (t : ℕ)
    → t ≢ 2 ^ 64 - 1
    → leb (2 ^ 31) (t % 2 ^ 32) ≡ true
    → IsWithin (as_int (next_timeout t)) 5000
    → ⊥
unfolding next_timeout
large_not_within t n p =
    let q : (t == 2 ^ 64 - 1) ≡ false = ground (arith, ==_iff t (2 ^ 64 - 1)) in
    rw (q, p) (as_int_large (t % 2 ^ 32) (omega arith) (leb→le (2 ^ 31) (t % 2 ^ 32) p))

forever-IsWithin : (t : ℕ) → t ≡ 2 ^ 64 - 1 → IsWithin (as_int (next_timeout t)) 5000
unfolding next_timeout
forever-IsWithin t e =
    rw ((==_iff t (2 ^ 64 - 1)).1 e, as_int_small 5000 (omega arith)) (omega arith)

small_of_within :
    (t : ℕ) → t ≢ 2 ^ 64 - 1 → IsWithin (as_int (next_timeout t)) 5000 → t % 2 ^ 32 < 2 ^ 31
small_of_within t n w = elim (Bool-cases (leb (2 ^ 31) (t % 2 ^ 32))) [
  | inl p ↦ absurd (large_not_within t n p w)
  | inr p ↦ leb→lt (2 ^ 31) (t % 2 ^ 32) p
]

-- epoll_wait is given a time from 0 to 5000 exactly when there is no timer or the low 32 bits of the time
-- to the next one are below 2 ^ 31; else it is given a negative one.
pub wait-IsWithin_iff :
    (t : ℕ) → IsWithin (as_int (next_timeout t)) 5000 ↔ ((t ≡ 2 ^ 64 - 1) ⊎ (t % 2 ^ 32 < 2 ^ 31))
wait-IsWithin_iff t = (
  λ w. elim (Bool-cases (t == 2 ^ 64 - 1)) [
    | inl p ↦ inl ((==_iff t (2 ^ 64 - 1)).0 p)
    | inr p ↦ inr (small_of_within t (ground (arith, ==_iff t (2 ^ 64 - 1))) w)
  ],
  λ o. elim o [ inl e ↦ forever-IsWithin t e | inr h ↦ IsWithin-of_small t h ],
)
