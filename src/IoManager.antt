-- ===== src/IoManager.antt =====
-- IOManager of acid/common/iomanager.{h,cpp}: the events that wait on descriptors, one call at a time.
-- A fiber, a function and a scheduler are ids. `none` is a failed assertion or a null pointer that is
-- followed. What epoll_ctl and epoll_wait answer is an argument; the accepted calls of epoll_ctl and
-- the calls of schedule() are logged in order.
pub mod Valid
pub mod Moves
pub mod Room
pub mod Waiters
pub mod Calls
pub mod Sweep
pub mod Wakes
pub mod Clearing
pub mod Idling
pub mod Adding
pub mod Racing
use acid_compute.Prelude.{
  ℕ, ◌+◌, ◌-◌, ◌*◌, ◌/◌, ◌%◌, ◌^◌, Bool, true, false, not, ◌&&◌, ◌||◌, Option, none, some, List, [],
  ◌∷◌, ◌++◌, map, ◌==◌, ltb, leb, if◌then◌else◌,
}
use acid_compute.Descriptors.{ℤ, pos, negsuc, is_short}
use acid_compute.Tasks.Scheduler.{Work, fiber, callback, update}

infixl 5 ◌>>=◌
abbrev pub ◌>>=◌ {ℓ κ} : {A : Type ℓ} {B : Type κ} → Option A → (A → Option B) → Option B
none >>= f = none
some a >>= f = f a

pub data Event : Type 0 where
  read write : Event

-- The bits of READ and WRITE.
pub record Events : Type 0 where
  pub reads : Bool
  pub writes : Bool

abbrev pub no_events : Events
no_events = record { reads = false; writes = false }

abbrev pub has : Event → Events → Bool
has read es = es.reads
has write es = es.writes

abbrev pub is_none : Events → Bool
is_none es = not (es.reads || es.writes)

abbrev pub with_event : Event → Bool → Events → Events
with_event read b es = record es { reads = b }
with_event write b es = record es { writes = b }

pub record EventContext : Type 0 where
  pub scheduler : Option ℕ
  pub waiting_fiber : Option ℕ
  pub function : Option ℕ

abbrev pub reset_event_context : EventContext
reset_event_context = record { scheduler = none; waiting_fiber = none; function = none }

pub record FdContext : Type 0 where
  pub read_context : EventContext
  pub write_context : EventContext
  pub fd : ℕ
  pub events : Events

abbrev pub get_event_context : Event → FdContext → EventContext
get_event_context read c = c.read_context
get_event_context write c = c.write_context

abbrev pub put_event_context : Event → EventContext → FdContext → FdContext
put_event_context read x c = record c { read_context = x }
put_event_context write x c = record c { write_context = x }

-- A call of schedule(): the scheduler, and a fiber or function if there is one.
abbrev pub Call : Type 0
Call = ℕ × Option Work

abbrev pub job : Option ℕ → Option ℕ → Option Work
job (some f) w = some (callback f)
job none (some w) = some (fiber w)
job none none = none

abbrev pub call_of : Option ℕ → Option ℕ → Option ℕ → Option Call
call_of none f w = none
call_of (some s) f w = some (s, job f w)

unfoldable pub trigger_event : Event → FdContext → Option (FdContext × Call)
trigger_event e c =
    let x = get_event_context e c in
    let fired : Option (FdContext × Call) = (do
      t ← call_of x.scheduler x.function x.waiting_fiber
      some (
        put_event_context e reset_event_context (record c { events = with_event e false c.events }),
        t,
      )) in
    if has e c.events then fired else none

pub data CtlOp : Type 0 where
  add modify delete : CtlOp

pub record Ctl : Type 0 where
  pub op : CtlOp
  pub target : ℕ
  pub mask : Events
  pub edge_triggered : Bool

pub record IoManager : Type 0 where
  pub size : ℕ
  pub contexts : ℕ → FdContext
  pub pending_event_count : ℕ
  pub ctls : List Ctl
  pub scheduled : List Call

abbrev pub count_down : ℕ → ℕ
count_down n = (n + 2 ^ 64 - 1) % 2 ^ 64

-- The constructor of FdContext leaves `events` as it finds the memory.
abbrev pub new_context : (ℕ → Events) → ℕ → FdContext
new_context memory i = record {
  read_context = reset_event_context;
  write_context = reset_event_context;
  fd = i;
  events = memory i;
}

unfoldable pub context_resize : (ℕ → Events) → ℕ → IoManager → IoManager
context_resize memory n s = record s {
  size = n;
  contexts = λ i. if ltb i s.size then s.contexts i else new_context memory i;
}

unfoldable pub new_manager : (ℕ → Events) → IoManager
unfolding context_resize
new_manager memory = context_resize memory 32 (record {
  size = 0;
  contexts = new_context memory;
  pending_event_count = 0;
  ctls = [];
  scheduled = [];
})

-- Who calls add_event: Scheduler::get_this(), Fiber::get_this() and whether that fiber is RUNNING.
pub record Caller : Type 0 where
  pub own_scheduler : Option ℕ
  pub own_fiber : ℕ
  pub running : Bool

abbrev pub is_some : Option ℕ → Bool
is_some none = false
is_some (some n) = true

abbrev pub occupied : EventContext → Bool
occupied x = is_some x.scheduler || (is_some x.waiting_fiber || is_some x.function)

abbrev pub attach : Caller → Option ℕ → EventContext → Option EventContext
attach who (some f) x = some (record x { scheduler = who.own_scheduler; function = some f })
attach who none x =
    if who.running
    then some (record x { scheduler = who.own_scheduler; waiting_fiber = some who.own_fiber })
    else none

abbrev pub registered : ℕ → Event → Caller → Option ℕ → IoManager → Option (ℤ × IoManager)
registered fd e who cb s =
    let c = s.contexts fd in
    let es = with_event e true c.events in
    let op = if is_none c.events then add else modify in
    do
      x ← attach who cb (get_event_context e c)
      some (
        pos 0,
        record s {
          contexts = update fd (put_event_context e x (record c { events = es })) s.contexts;
          pending_event_count = (s.pending_event_count + 1) % 2 ^ 64;
          ctls = s.ctls ++ (record { op = op; target = fd; mask = es; edge_triggered = true } ∷ []);
        },
      )

-- add_event behind the choice of the context.
unfoldable pub register : Bool → ℕ → Event → Caller → Option ℕ → IoManager → Option (ℤ × IoManager)
register refused fd e who cb s =
    if leb s.size fd
    then none
    else if has e (s.contexts fd).events
    then none
    else if refused
    then some (negsuc 0, s)
    else if occupied (get_event_context e (s.contexts fd))
    then none
    else registered fd e who cb s

-- `looked` is what the reader saw: the vector is too short.
unfoldable pub make_room : (ℕ → Events) → Bool → ℕ → IoManager → IoManager
unfolding context_resize
make_room memory looked fd s = if looked then context_resize memory (fd * 3 / 2) s else s

unfoldable pub add_event :
    (ℕ → Events) → Bool → ℕ → Event → Caller → Option ℕ → IoManager → Option (ℤ × IoManager)
unfolding make_room register
add_event memory refused fd e who cb s =
    register refused fd e who cb (make_room memory (is_short s.size fd) fd s)

abbrev pub delete_op : Events → CtlOp
delete_op es = if is_none es then delete else modify

unfoldable pub del_event : Bool → ℕ → Event → IoManager → Bool × IoManager
del_event refused fd e s =
    let c = s.contexts fd in
    let es = with_event e false c.events in
    if is_short s.size fd
    then (false, s)
    else if not (has e c.events)
    then (false, s)
    else if refused
    then (false, s)
    else (
      true,
      record s {
        contexts =
            update fd (put_event_context e reset_event_context (record c { events = es }))
              s.contexts;
        pending_event_count = count_down s.pending_event_count;
        ctls =
            s.ctls
            ++ (record { op = delete_op es; target = fd; mask = es; edge_triggered = true } ∷ []);
      },
    )

-- trigger_event on the context of `fd`, and --m_pending_event_count.
unfoldable pub trigger : ℕ → Event → IoManager → Option IoManager
unfolding trigger_event
trigger fd e s = do
  (c, t) ← trigger_event e (s.contexts fd)
  some (record s {
    contexts = update fd c s.contexts;
    pending_event_count = count_down s.pending_event_count;
    scheduled = s.scheduled ++ (t ∷ []);
  })

-- cancel_event leaves EPOLLET out.
unfoldable pub cancel_event : Bool → ℕ → Event → IoManager → Option (Bool × IoManager)
cancel_event refused fd e s =
    let c = s.contexts fd in
    let es = with_event e false c.events in
    let ctl : Ctl = record { op = delete_op es; target = fd; mask = es; edge_triggered = false } in
    let cancelled : Option (Bool × IoManager) = (do
      s' ← trigger fd e (record s { ctls = s.ctls ++ (ctl ∷ []) })
      some (true, s')) in
    if is_short s.size fd
    then some (false, s)
    else if not (has e c.events)
    then some (false, s)
    else if refused
    then some (false, s)
    else cancelled

-- if (b) { trigger_event(e); --m_pending_event_count; }
abbrev pub trigger_if : Bool → ℕ → Event → IoManager → Option IoManager
trigger_if b fd e s = let rest = trigger fd e s in if b then rest else some s

unfoldable pub cancel_all : Bool → ℕ → IoManager → Option (Bool × IoManager)
cancel_all refused fd s =
    let c = s.contexts fd in
    let ctl : Ctl = record { op = delete; target = fd; mask = no_events; edge_triggered = false } in
    let cancelled : Option (Bool × IoManager) = (do
      s1 ← trigger_if c.events.reads fd read (record s { ctls = s.ctls ++ (ctl ∷ []) })
      s2 ← trigger_if (s1.contexts fd).events.writes fd write s1
      if is_none (s2.contexts fd).events then some (true, s2) else none) in
    if is_short s.size fd
    then some (false, s)
    else if is_none c.events
    then some (false, s)
    else if refused
    then some (false, s)
    else cancelled

-- What epoll_wait reports of a descriptor.
pub record Ready : Type 0 where
  pub input : Bool
  pub output : Bool
  pub failed : Bool

-- EPOLLERR or EPOLLHUP stands for all that is registered.
abbrev pub real_events : Ready → Events → Events
real_events r es = record {
  reads = r.input || (r.failed && es.reads);
  writes = r.output || (r.failed && es.writes);
}

-- One descriptor that epoll_wait reports, in the loop of idle().
unfoldable pub handle_ready : Bool → ℕ → Ready → IoManager → Option IoManager
handle_ready refused fd r s =
    let es = (s.contexts fd).events in
    let real = real_events r es in
    let left : Events = record {
      reads = es.reads && not real.reads;
      writes = es.writes && not real.writes;
    } in
    let ctl : Ctl = record {
      op = delete_op left;
      target = fd;
      mask = left;
      edge_triggered = true;
    } in
    let handled : Option IoManager = (do
      s1 ← trigger_if real.reads fd read (record s { ctls = s.ctls ++ (ctl ∷ []) })
      trigger_if real.writes fd write s1) in
    if not ((es.reads && real.reads) || (es.writes && real.writes))
    then some s
    else if refused
    then some s
    else handled

pub data Report : Type 0 where
  tickled : Report
  ready : Bool → ℕ → Ready → Report

unfoldable pub handle_reports : List Report → IoManager → Option IoManager
unfolding handle_ready
handle_reports [] s = some s
handle_reports (tickled ∷ rs) s = handle_reports rs s
handle_reports (ready refused fd r ∷ rs) s = handle_ready refused fd r s >>= handle_reports rs

-- One turn of the loop of idle() behind epoll_wait, with the functions of the expired timers.
unfoldable pub idle_turn : ℕ → List ℕ → List Report → IoManager → Option IoManager
unfolding handle_reports
idle_turn this callbacks reports s =
    handle_reports reports
      (record s { scheduled = s.scheduled ++ map (λ f. (this, some (callback f))) callbacks })

-- The time that idle() waits: an int by min, kept as a uint64_t, and cast to int for epoll_wait.
unfoldable pub next_timeout : ℕ → ℕ
next_timeout t =
    let v = t % 2 ^ 32 in
    if t == 2 ^ 64 - 1
    then 5000
    else if leb (2 ^ 31) v
    then 2 ^ 64 - 2 ^ 32 + v
    else if ltb v 5000
    then v
    else 5000

unfoldable pub as_int : ℕ → ℤ
as_int t = let v = t % 2 ^ 32 in if leb (2 ^ 31) v then negsuc (2 ^ 32 - 1 - v) else pos v

-- stopping(), by get_next_timer() and Scheduler::stopping().
unfoldable pub stopping : ℕ → Bool → IoManager → Bool
stopping timeout scheduler_stopping s =
    timeout == 2 ^ 64 - 1 && (s.pending_event_count == 0 && scheduler_stopping)
