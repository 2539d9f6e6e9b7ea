-- ===== src/Hooks/Blocking/Timeouts.antt =====
-- do_io of acid/common/hook.cpp: its timer fires while the fiber waits.
use acid_compute.Prelude.{
  ℕ, ◌<◌, ◌≡◌, refl, ap, ◌∙◌, Bool, true, false, ◌&&◌, Option, none, some, List, [], ◌∷◌, ◌++◌,
  append-nil, ◌==◌, ==_iff, if◌then◌else◌,
}
use acid_compute.Tasks.Scheduler.{fiber}
use acid_compute.IoManager.{
  Call, call_of, Event, read, write, Events, no_events, IoManager, Caller, is_some,
}
use acid_compute.IoManager.Valid.{IsValid}
use acid_compute.IoManager.Waiters.{waiter, has_waiter, same_event}
use acid_compute.IoManager.Sweep.{calls}
use acid_compute.IoManager.Adding.{add_event-Joins, Joined, new_call}
use acid_compute.IoManager.Wakes.{Cancelled, chosen, only, cancel_event-Serves}
use acid_compute.Hooks.{
  Answer, fault, try_again, timed_out, Machine, returned, blocked, Progress, IoCall, cancel_timer,
  attempt, Wake, retry_loop, on_timeout,
}
use acid_compute.Hooks.Blocking.{interrupts, tick, wake_up, waits_at, attempt_waits, timers_waited}

if_chosen :
    (fd : ℕ) (e : Event) (x y : Option Call)
    → (if fd == fd && chosen (only e read) (only e write) e then x else y) ≡ x
if_chosen fd read x y = rw ((==_iff fd fd).1 refl) refl
if_chosen fd write x y = rw ((==_iff fd fd).1 refl) refl

if_same :
    (fd : ℕ) (e : Event) (x y : Option Call) → (if fd == fd && same_event e e then x else y) ≡ x
if_same fd read x y = rw ((==_iff fd fd).1 refl) refl
if_same fd write x y = rw ((==_iff fd fd).1 refl) refl

calls-only :
    (e : Event) (s : IoManager) (fd : ℕ)
    → calls (if only e read then waiter s fd read else none)
        ++ calls (if only e write then waiter s fd write else none)
      ≡ calls (waiter s fd e)
calls-only read s fd = append-nil (calls (waiter s fd read))
calls-only write s fd = refl

module _ (memory : ℕ → Events) (blank : (i : ℕ) → memory i ≡ no_events) (who : Caller) where
  -- The state after the timer has woken whoever waits.
  pub record Expired (sch : ℕ) (io : IoCall) (s t : IoManager) : Type 0 where
    pub valid : IsValid t
    pub nobody : waiter t io.fd io.event ≡ none
    pub woken : t.scheduled ≡ s.scheduled ++ ((sch, some (fiber who.own_fiber)) ∷ [])

  Cancelled-Expired :
      (sch : ℕ) (io : IoCall) (s t u : IoManager) (answer : Bool)
      → who.own_scheduler ≡ some sch
      → Joined s t io.fd io.event (new_call who none) io.fd io.event
      → Cancelled t u io.fd io.event io.fd io.event answer
      → Expired sch io s u
  Cancelled-Expired sch io s t u answer o j c = record {
    valid = c.served.valid;
    nobody = c.served.table ∙ if_chosen io.fd io.event none (waiter t io.fd io.event);
    woken =
        c.served.woken
        ∙ ap (◌++◌ t.scheduled) (
            calls-only io.event t io.fd
            ∙ ap calls (
                j.table
                ∙ if_same io.fd io.event (new_call who none) (waiter s io.fd io.event)
                ∙ ap (λ a. call_of a none (some who.own_fiber)) o))
        ∙ ap (λ l. l ++ ((sch, some (fiber who.own_fiber)) ∷ [])) j.same_scheduled;
  }

  abbrev ended_late : Machine → Option (Progress × Machine)
  ended_late m = some (returned (fault timed_out), m)

  retry_expired :
      (io : IoCall) (m m1 : Machine) (s : IoManager) (wakes : List Wake) (refuses : Bool)
      → attempt memory who false io m ≡ some (blocked, m1)
      → retry_loop memory who (wake_up true s refuses ∷ wakes) false io m
        ≡ some (returned (fault timed_out), cancel_timer io.timeout (record m1 { iom = s }))
  unfolding retry_loop
  retry_expired io m m1 s wakes refuses p = rw p refl

  -- A call on a descriptor below 1431655766 (where fd * 1.5 is an int), whose original returns EINTR some
  -- times and then EAGAIN, on a valid IOManager where nobody waits for its event, by a running fiber on a scheduler, and epoll_ctl accepts its calls: it yields.
  -- When its timer fires then, the fiber is scheduled once, nobody waits for the event any more, the
  -- IOManager is valid, and the fiber that runs again returns -1 with ETIMEDOUT without another original
  -- call and cancels the timer, whatever would come after.
  pub timeout_wakes :
      (sch : ℕ) (io : IoCall) (m : Machine) (n : ℕ) (rest : List Answer) (wakes : List Wake)
      (refuses : Bool)
      → m.answers ≡ interrupts n (fault try_again ∷ rest)
      → IsValid m.iom
      → io.fd < 1431655766
      → has_waiter m.iom io.fd io.event ≡ false
      → who.own_scheduler ≡ some sch
      → who.running ≡ true
      → (m1 : Machine) × (t : IoManager) × (attempt memory who false io m ≡ some (blocked, m1))
        × (on_timeout false io (some false) m1.iom ≡ some (some true, t))
        × Expired sch io m.iom t
        × (retry_loop memory who (wake_up true t refuses ∷ wakes) false io m
            ≡ some (
              returned (fault timed_out),
              record { iom = t; answers = rest; timers = m.timers ++ tick io.timeout },
            ))
  unfolding on_timeout
  timeout_wakes sch io m n rest wakes refuses p v h w o r =
      let ((t, q, j), _) =
        add_event-Joins memory blank m.iom io.fd io.event who none io.fd io.event v h w
          (ap is_some o) r in
      let e = attempt_waits memory blank who io m n rest t p q in
      let (answer, u, e', c) = cancel_event-Serves t io.fd io.event io.fd io.event j.valid in
      (
        waits_at memory blank who io rest m t,
        u,
        e,
        rw e' refl,
        Cancelled-Expired sch io m.iom t u answer o j c,
        retry_expired io m (waits_at memory blank who io rest m t) u wakes refuses e
            ∙ ap (ended_late) (timers_waited memory blank who io rest m t u),
      )
