-- ===== src/IoManager/Calls.antt =====
-- add_event, del_event and cancel_event of acid/common/iomanager.cpp, against a table of the calls that
-- wait for an event of a descriptor.
use acid_compute.Prelude.{
  ℕ, ◌^◌, ◌+◌, ◌<◌, ◌≡◌, refl, sym, ap, ◌∙◌, arith, Bool, true, false, ◌&&◌, Option, none, [], ◌∷◌,
  ◌++◌, ◌==◌, ==_iff, lt→leb, ltb, Bool-cases, inl, inr, if◌then◌else◌,
}
use acid_compute.Tasks.Scheduler.{update}
use acid_compute.Descriptors.Table.{is_short-leb}
use acid_compute.IoManager.{
  Event, read, write, has, with_event, FdContext, Call, IoManager, count_down, delete_op, Ctl,
  del_event,
}
use acid_compute.IoManager.Valid.{weight, shown, changed, IsValid}
use acid_compute.IoManager.Moves.{Moved-IsValid}
use acid_compute.IoManager.Waiters.{
  has_waiter, has_waiter-cases, no_waiter, waiter, same_event, detached, detached-IsSound,
  weight-detached, detached-Fits, waiting-detached, pending_small, pending_covers, count_down-eq,
}

-- `t` is `s` with the event `e` of `fd` taken out.
pub record Dropped (s t : IoManager) (fd : ℕ) (e : Event) : Type 0 where
  pub same_size : t.size ≡ s.size
  pub contexts : (i : ℕ) → t.contexts i ≡ update fd (detached e (s.contexts fd)) s.contexts i
  pub counted : t.pending_event_count ≡ count_down s.pending_event_count

at_fd :
    (inside same : Bool) (x y : Option Call)
    → x ≡ (if same then none else y)
    → (if inside then x else none) ≡ (if same then none else if inside then y else none)
at_fd true same x y h = h
at_fd false true x y h = refl
at_fd false false x y h = refl

events_detached : (e : Event) (c : FdContext) → with_event e false c.events ≡ (detached e c).events
events_detached read c = refl
events_detached write c = refl

same : (a b : Event) → same_event a b ≡ true → a ≡ b
same read read h = refl
same write write h = refl
same read write h = absurd (cc h)
same write read h = absurd (cc h)

pub waiter-Dropped :
    (s t : IoManager) (fd : ℕ) (e : Event) (i : ℕ) (other : Event)
    → Dropped s t fd e
    → waiter t i other ≡ (if i == fd && same_event other e then none else waiter s i other)
waiter-Dropped s t fd e i other d = elim (Bool-cases (i == fd)) [
  | inl p ↦
      rw (d.contexts i, d.same_size, p, (==_iff i fd).0 p)
        (at_fd (ltb fd s.size) (same_event other e) _ _ (waiting-detached e other (s.contexts fd)))
  | inr p ↦ rw (d.contexts i, d.same_size, p) refl
]

pub Dropped-Moved :
    (s t : IoManager) (fd : ℕ) (e : Event) (l : Ctl)
    → IsValid s
    → fd < s.size
    → has e (s.contexts fd).events ≡ true
    → Dropped s t fd e
    → t.ctls ≡ s.ctls ++ (l ∷ [])
    → l.target ≡ fd
    → l.mask ≡ with_event e false (s.contexts fd).events
    → l.op ≡ delete_op (with_event e false (s.contexts fd).events)
    → IsValid t
Dropped-Moved s t fd e l v h w d p q r o =
    let c : FdContext = s.contexts fd in
    let k : weight c ≡ weight (detached e c) + 1 = weight-detached e c w in
    let n : 0 < s.pending_event_count = omega (arith, pending_covers s fd v h) in
    Moved-IsValid s t fd (detached e c) l v (record {
      inside = h;
      same_size = d.same_size;
      contexts = d.contexts;
      sound = detached-IsSound e c (v.sound fd h);
      counted = omega (arith, d.counted, count_down-eq s.pending_event_count n (pending_small s v));
      logged = p;
      at_fd = q;
      mask = r ∙ events_detached e c;
      fits =
          ap (λ o'. changed o' (shown c.events) (detached e c).events)
            (o ∙ ap delete_op (events_detached e c))
          ∙ detached-Fits e c w;
    })

-- Nobody waits for the event: all is as the table without it.
pub waiter-absent :
    (s : IoManager) (fd : ℕ) (e : Event) (i : ℕ) (other : Event)
    → IsValid s
    → has_waiter s fd e ≡ false
    → waiter s i other ≡ (if i == fd && same_event other e then none else waiter s i other)
waiter-absent s fd e i other v h = elim (Bool-cases (i == fd)) [
  | inl p ↦ elim (Bool-cases (same_event other e)) [
    | inl q ↦
        rw (p, q)
          (ap (λ k. waiter s k other) ((==_iff i fd).0 p)
            ∙ ap (waiter s fd) (same other e q)
            ∙ no_waiter s fd e v h)
    | inr q ↦ rw (p, q) refl
  ]
  | inr p ↦ rw p refl
]

abbrev dropped : Ctl → ℕ → Event → IoManager → IoManager
dropped l fd e s = record s {
  contexts = update fd (detached e (s.contexts fd)) s.contexts;
  pending_event_count = count_down s.pending_event_count;
  ctls = s.ctls ++ (l ∷ []);
}

abbrev less : ℕ → Event → Bool → IoManager → Ctl
less fd e edge s =
    let es = with_event e false (s.contexts fd).events in
    record { op = delete_op es; target = fd; mask = es; edge_triggered = edge }

del_event_absent :
    (s : IoManager) (fd : ℕ) (e : Event)
    → s.size < 2 ^ 31
    → has_waiter s fd e ≡ false
    → del_event false fd e s ≡ (false, s)
unfolding del_event
del_event_absent s fd e k h = rw (is_short-leb s.size fd k) (ground arith)

del_event_present :
    (s : IoManager) (fd : ℕ) (e : Event)
    → s.size < 2 ^ 31
    → fd < s.size
    → has e (s.contexts fd).events ≡ true
    → del_event false fd e s ≡ (true, dropped (less fd e true s) fd e s)
unfolding del_event
del_event_present s fd e k h w = rw (is_short-leb s.size fd k, lt→leb s.size fd h, w) refl

dropped-IsValid :
    (s : IoManager) (fd : ℕ) (e : Event) (edge : Bool)
    → IsValid s
    → fd < s.size
    → has e (s.contexts fd).events ≡ true
    → IsValid (dropped (less fd e edge s) fd e s)
dropped-IsValid s fd e edge v h w =
    Dropped-Moved s (dropped (less fd e edge s) fd e s) fd e (less fd e edge s) v h w
      (record { same_size = refl; contexts = λ i. refl; counted = refl }) refl refl refl refl

-- The table `t` is `s` without the event, and the answer tells whether it was there.
pub record Forgot (s t : IoManager) (fd : ℕ) (e : Event) (i : ℕ) (other : Event) (answer : Bool)
    : Type 0 where
  pub valid : IsValid t
  pub answered : answer ≡ has_waiter s fd e
  pub table : waiter t i other ≡ (if i == fd && same_event other e then none else waiter s i other)

-- On a valid state, when epoll_ctl accepts its call, del_event answers whether somebody waited for the
-- event, takes that entry alone out of the table, schedules nothing and leaves a valid state.
pub del_event-Forgets :
    (s : IoManager) (fd : ℕ) (e : Event) (i : ℕ) (other : Event)
    → IsValid s
    → Forgot s (del_event false fd e s).1 fd e i other (del_event false fd e s).0
      × ((del_event false fd e s).1.scheduled ≡ s.scheduled)
del_event-Forgets s fd e i other v = elim (has_waiter-cases s fd e) [
  | inl no_one ↦ rw (del_event_absent s fd e v.small no_one) (
    record { valid = v; answered = sym no_one; table = waiter-absent s fd e i other v no_one },
    refl,
  )
  | inr (some_one, h, w) ↦ rw (del_event_present s fd e v.small h w) (
    record {
      valid = dropped-IsValid s fd e true v h w;
      answered = sym some_one;
      table =
          waiter-Dropped s (dropped (less fd e true s) fd e s) fd e i other
            (record { same_size = refl; contexts = λ k. refl; counted = refl });
    },
    refl,
  )
]
