-- ===== src/IoManager/Adding.antt =====
-- add_event of acid/common/iomanager.cpp, against the table of the calls that wait for an event of a
-- descriptor, and two threads in it at once.
use acid_compute.Prelude.{
  ℕ, ◌+◌, ◌%◌, ◌^◌, ◌<◌, ◌≡◌, refl, sym, ap, ◌∙◌, arith, Bool, true, false, ◌&&◌, Option, none,
  some, [], ◌∷◌, ◌++◌, ◌==◌, ==_iff, lt→leb, lt→ltb, ltb→lt, ltb, Bool-cases, bool_clash, inl, inr,
  if◌then◌else◌,
}
use acid_compute.Descriptors.{pos, negsuc, is_short}
use acid_compute.Tasks.Scheduler.{update}
use acid_compute.IoManager.{
  Event, read, write, Events, no_events, has, with_event, EventContext, FdContext,
  get_event_context, put_event_context, Call, call_of, IoManager, add, modify, Ctl, is_some,
  is_none, occupied, Caller, attach, register, make_room, add_event, new_context,
}
use acid_compute.IoManager.Valid.{weight, IsSound, IsValid}
use acid_compute.IoManager.Moves.{Fits, Moved-IsValid}
use acid_compute.IoManager.Room.{Roomy, make_room-Roomy, make_room-IsValid, room-IsSound}
use acid_compute.IoManager.Waiters.{waiting, waiter, has_waiter, same_event, pending_small}

-- What attach leaves in an empty context.
abbrev pub attached : Caller → Option ℕ → EventContext
attached who (some f) = record {
  scheduler = who.own_scheduler;
  waiting_fiber = none;
  function = some f;
}
attached who none = record {
  scheduler = who.own_scheduler;
  waiting_fiber = some who.own_fiber;
  function = none;
}

attach-empty :
    (who : Caller) (cb : Option ℕ) (x : EventContext)
    → who.running ≡ true
    → occupied x ≡ false
    → attach who cb x ≡ some (attached who cb)
attach-empty who (some f) x h k = ground arith
attach-empty who none x h k = ground arith

abbrev pub joined : Event → EventContext → FdContext → FdContext
joined e x c = put_event_context e x (record c { events = with_event e true c.events })

joined-IsSound :
    (e : Event) (who : Caller) (cb : Option ℕ) (c : FdContext)
    → IsSound c
    → is_some who.own_scheduler ≡ true
    → IsSound (joined e (attached who cb) c)
joined-IsSound read who (some f) c s h = ground arith
joined-IsSound read who none c s h = ground arith
joined-IsSound write who (some f) c s h = ground arith
joined-IsSound write who none c s h = ground arith

weight-joined :
    (e : Event) (x : EventContext) (c : FdContext)
    → has e c.events ≡ false
    → weight (joined e x c) ≡ weight c + 1
weight-joined read x c h = ground arith
weight-joined write x c h = ground arith

joined-Fits :
    (e : Event) (x : EventContext) (c : FdContext)
    → has e c.events ≡ false
    → Fits c.events (joined e x c).events (if is_none c.events then add else modify)
joined-Fits read x c h = ground arith
joined-Fits write x c h = ground arith

events-joined :
    (e : Event) (x : EventContext) (c : FdContext)
    → with_event e true c.events ≡ (joined e x c).events
events-joined read x c = refl
events-joined write x c = refl

waiting-joined :
    (e other : Event) (x : EventContext) (c : FdContext)
    → waiting (get_event_context other (joined e x c))
      ≡ (if same_event other e then waiting x else waiting (get_event_context other c))
waiting-joined read read x c = refl
waiting-joined read write x c = refl
waiting-joined write read x c = refl
waiting-joined write write x c = refl

not_occupied :
    (e : Event) (c : FdContext)
    → IsSound c
    → has e c.events ≡ false
    → occupied (get_event_context e c) ≡ false
not_occupied read c s h = s.read_occupied ∙ h
not_occupied write c s h = s.write_occupied ∙ h

abbrev pub new_call : Caller → Option ℕ → Option Call
new_call who cb = call_of who.own_scheduler cb (some who.own_fiber)

waiting-attached : (who : Caller) (cb : Option ℕ) → waiting (attached who cb) ≡ new_call who cb
waiting-attached who cb = ground arith

abbrev pub addition : ℕ → Event → IoManager → Ctl
addition fd e s =
    let c = s.contexts fd in
    record {
      op = if is_none c.events then add else modify;
      target = fd;
      mask = with_event e true c.events;
      edge_triggered = true;
    }

abbrev pub with_waiter : ℕ → Event → EventContext → IoManager → IoManager
with_waiter fd e x s = record s {
  contexts = update fd (joined e x (s.contexts fd)) s.contexts;
  pending_event_count = (s.pending_event_count + 1) % 2 ^ 64;
  ctls = s.ctls ++ (addition fd e s ∷ []);
}

pub register_joins :
    (s : IoManager) (fd : ℕ) (e : Event) (who : Caller) (cb : Option ℕ)
    → IsSound (s.contexts fd)
    → fd < s.size
    → has e (s.contexts fd).events ≡ false
    → who.running ≡ true
    → register false fd e who cb s ≡ some (pos 0, with_waiter fd e (attached who cb) s)
unfolding register
register_joins s fd e who cb v h w r =
    let o = not_occupied e (s.contexts fd) v w in
    rw (lt→leb s.size fd h, w, o, attach-empty who cb (get_event_context e (s.contexts fd)) r o)
      refl

pub with_waiter-IsValid :
    (s : IoManager) (fd : ℕ) (e : Event) (who : Caller) (cb : Option ℕ)
    → IsValid s
    → fd < s.size
    → has e (s.contexts fd).events ≡ false
    → is_some who.own_scheduler ≡ true
    → IsValid (with_waiter fd e (attached who cb) s)
with_waiter-IsValid s fd e who cb v h w r =
    let x = attached who cb in
    let c : FdContext = s.contexts fd in
    Moved-IsValid s (with_waiter fd e x s) fd (joined e x c) (addition fd e s) v (record {
      inside = h;
      same_size = refl;
      contexts = λ i. refl;
      sound = joined-IsSound e who cb c (v.sound fd h) r;
      counted = omega (arith, weight-joined e x c w, pending_small s v);
      logged = refl;
      at_fd = refl;
      mask = events-joined e x c;
      fits = joined-Fits e x c w;
    })

-- `t` is `s` where `k` waits for the event `e` of `fd`.
pub record Joined (s t : IoManager) (fd : ℕ) (e : Event) (k : Option Call) (i : ℕ) (other : Event)
    : Type 0 where
  pub valid : IsValid t
  pub table : waiter t i other ≡ (if i == fd && same_event other e then k else waiter s i other)
  pub same_scheduled : t.scheduled ≡ s.scheduled

joined_if :
    (inside same : Bool) (k x y : Option Call)
    → inside ≡ true
    → x ≡ (if same then k else y)
    → (if inside then x else none) ≡ (if same then k else if inside then y else none)
joined_if true same k x y h p = p
joined_if false same k x y h p = bool_clash (sym h)

waiter-with :
    (s : IoManager) (fd : ℕ) (e : Event) (x : EventContext) (i : ℕ) (other : Event)
    → fd < s.size
    → waiter (with_waiter fd e x s) i other
      ≡ (if i == fd && same_event other e then waiting x else waiter s i other)
waiter-with s fd e x i other h = elim (Bool-cases (i == fd)) [
  | inl p ↦
      rw (p, (==_iff i fd).0 p)
        (joined_if (ltb fd s.size) (same_event other e) (waiting x) _ _ (lt→ltb fd s.size h)
          (waiting-joined e other x (s.contexts fd)))
  | inr p ↦ rw p refl
]

register_refused :
    (s : IoManager) (fd : ℕ) (e : Event) (who : Caller) (cb : Option ℕ)
    → fd < s.size
    → has e (s.contexts fd).events ≡ false
    → register true fd e who cb s ≡ some (negsuc 0, s)
unfolding register
register_refused s fd e who cb h w = rw (lt→leb s.size fd h, w) refl

pub record Unjoined (s t : IoManager) (i : ℕ) (other : Event) : Type 0 where
  pub valid : IsValid t
  pub table : waiter t i other ≡ waiter s i other
  pub same_scheduled : t.scheduled ≡ s.scheduled

module _ (memory : ℕ → Events) (blank : (i : ℕ) → memory i ≡ no_events) where
  pub new-silent : (i : ℕ) (e : Event) → has e (new_context memory i).events ≡ false
  new-silent i read = ap (λ (es : Events). es.reads) (blank i)
  new-silent i write = ap (λ (es : Events). es.writes) (blank i)

  new-nobody : (i : ℕ) (e : Event) → waiting (get_event_context e (new_context memory i)) ≡ none
  new-nobody i read = refl
  new-nobody i write = refl

  waiter-Roomy :
      (s t : IoManager) (fd i : ℕ) (e : Event)
      → Roomy memory blank fd s t
      → waiter t i e ≡ waiter s i e
  waiter-Roomy s t fd i e k = elim (Bool-cases (ltb i s.size)) [
    | inl p ↦
        let h : i < s.size = ltb→lt i s.size p in
        rw (p, lt→ltb i t.size (omega (arith, k.longer)), k.old i h) refl
    | inr p ↦ elim (Bool-cases (ltb i t.size)) [
      | inl q ↦ rw (p, q, k.fresh i (ground arith) (ltb→lt i t.size q)) (new-nobody i e)
      | inr q ↦ rw (p, q) refl
    ]
  ]

  silent-Roomy :
      (s t : IoManager) (fd : ℕ) (e : Event)
      → Roomy memory blank fd s t
      → has_waiter s fd e ≡ false
      → has e (t.contexts fd).events ≡ false
  silent-Roomy s t fd e k h = elim (Bool-cases (ltb fd s.size)) [
    | inl p ↦
        ap (λ (c : FdContext). has e c.events) (k.old fd (ltb→lt fd s.size p))
        ∙ sym (ap (λ b. if b then has e (s.contexts fd).events else false) p)
        ∙ h
    | inr p ↦
        ap (λ (c : FdContext). has e c.events) (k.fresh fd (ground arith) k.room) ∙ new-silent fd e
  ]

  -- A call that is accepted registers, also where the vector grows to 2 ^ 31 contexts or more.
  pub add_event_accepts :
      (s : IoManager) (fd : ℕ) (e : Event) (who : Caller) (cb : Option ℕ)
      → IsValid s
      → fd < 2 ^ 31
      → has_waiter s fd e ≡ false
      → who.running ≡ true
      → (t : IoManager) × (add_event memory false fd e who cb s ≡ some (pos 0, t))
  unfolding add_event
  add_event_accepts s fd e who cb v h w r =
      let t : IoManager = make_room memory (is_short s.size fd) fd s in
      let k : Roomy memory blank fd s t = make_room-Roomy memory blank fd s v h in
      (
        with_waiter fd e (attached who cb) t,
        register_joins t fd e who cb (room-IsSound memory blank fd s t v k) k.room
            (silent-Roomy s t fd e k w) r,
      )

  -- On a valid state, when the memory of new contexts holds no events, the descriptor is below 1431655766 (where
  -- fd * 1.5 is an int) and
  -- nobody waits for its event, and the caller has a scheduler and a running fiber: add_event fails no
  -- assertion. When epoll_ctl accepts, it gives 0 and enters the function, or else the fiber, in the
  -- table; when epoll_ctl refuses, it gives -1 and the table stays. Nothing is scheduled, no other entry
  -- changes, and the new state is valid.
  pub add_event-Joins :
      (s : IoManager) (fd : ℕ) (e : Event) (who : Caller) (cb : Option ℕ) (i : ℕ) (other : Event)
      → IsValid s
      → fd < 1431655766
      → has_waiter s fd e ≡ false
      → is_some who.own_scheduler ≡ true
      → who.running ≡ true
      → ((t : IoManager) × (add_event memory false fd e who cb s ≡ some (pos 0, t))
          × Joined s t fd e (new_call who cb) i other)
        × ((t : IoManager) × (add_event memory true fd e who cb s ≡ some (negsuc 0, t))
            × Unjoined s t i other)
  unfolding add_event
  add_event-Joins s fd e who cb i other v h w p r =
      let t : IoManager = make_room memory (is_short s.size fd) fd s in
      let k : Roomy memory blank fd s t = make_room-Roomy memory blank fd s v (omega arith) in
      let vt : IsValid t = make_room-IsValid memory blank fd s v h in
      let q : has e (t.contexts fd).events ≡ false = silent-Roomy s t fd e k w in
      let x = attached who cb in
      (
        (
          with_waiter fd e x t,
          register_joins t fd e who cb (room-IsSound memory blank fd s t v k) k.room q r,
          record {
            valid = with_waiter-IsValid t fd e who cb vt k.room q p;
            table =
                waiter-with t fd e x i other k.room
                ∙ ap (λ a. if i == fd && same_event other e then a else waiter t i other)
                    (waiting-attached who cb)
                ∙ ap (λ a. if i == fd && same_event other e then new_call who cb else a)
                    (waiter-Roomy s t fd i other k);
            same_scheduled = k.same_scheduled;
          },
        ),
        (
          t,
          register_refused t fd e who cb k.room q,
          record {
            valid = vt;
            table = waiter-Roomy s t fd i other k;
            same_scheduled = k.same_scheduled;
          },
        ),
      )
