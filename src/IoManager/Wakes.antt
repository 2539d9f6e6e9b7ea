-- ===== src/IoManager/Wakes.antt =====
-- cancel_event, cancel_all and idle() of acid/common/iomanager.cpp, against the table of the calls that
-- wait for an event of a descriptor.
use mathlib.Core.Option.{some-injective}
use acid_compute.Prelude.{
  ℕ, ◌^◌, ◌<◌, ◌≡◌, refl, sym, ap, ◌∙◌, arith, Bool, true, false, not, ◌&&◌, ◌||◌, Option, none,
  some, ◌++◌, append-nil, ◌==◌, ==_iff, lt→leb, lt→ltb, Bool-cases, inl, inr, if◌then◌else◌,
}
use acid_compute.Descriptors.Table.{is_short-leb}
use acid_compute.IoManager.{
  Event, read, write, Events, has, with_event, FdContext, get_event_context, Call, IoManager,
  delete_op, Ctl, trigger, trigger_if, cancel_event, ◌>>=◌,
}
use acid_compute.IoManager.Valid.{IsValid}
use acid_compute.IoManager.Waiters.{waiting, waiter, has_waiter, has_waiter-cases, no_waiter}
use acid_compute.IoManager.Sweep.{calls, taken_both, Swept, swept, logged}

abbrev pub chosen : Bool → Bool → Event → Bool
chosen r w read = r
chosen r w write = w

waiting-taken :
    (r w : Bool) (e : Event) (c : FdContext)
    → waiting (get_event_context e (taken_both r w c))
      ≡ (if chosen r w e then none else waiting (get_event_context e c))
waiting-taken true true read c = refl
waiting-taken true false read c = refl
waiting-taken false true read c = refl
waiting-taken false false read c = refl
waiting-taken true true write c = refl
waiting-taken true false write c = refl
waiting-taken false true write c = refl
waiting-taken false false write c = refl

-- `t` is `s` where whoever waited for a chosen event of `fd` was scheduled and waits no more.
pub record Served (s t : IoManager) (fd : ℕ) (r w : Bool) (i : ℕ) (other : Event) : Type 0 where
  pub valid : IsValid t
  pub table : waiter t i other ≡ (if i == fd && chosen r w other then none else waiter s i other)
  pub woken :
      t.scheduled
      ≡ s.scheduled
        ++ (calls (if r then waiter s fd read else none)
            ++ calls (if w then waiter s fd write else none))

pub waiter_inside :
    (s : IoManager) (fd : ℕ) (e : Event)
    → fd < s.size
    → waiter s fd e ≡ waiting (get_event_context e (s.contexts fd))
waiter_inside s fd e h = rw (lt→ltb fd s.size h) refl

pub Swept-Served :
    (s t : IoManager) (fd : ℕ) (r w : Bool) (i : ℕ) (other : Event)
    → fd < s.size
    → Swept s t fd r w
    → Served s t fd r w i other
Swept-Served s t fd r w i other h k = record {
  valid = k.valid;
  table = elim (Bool-cases (i == fd)) [
    | inl p ↦
        let e : i ≡ fd = (==_iff i fd).0 p in
        rw (k.contexts i, k.same_size, p, e, lt→ltb fd s.size h)
          (waiting-taken r w other (s.contexts fd))
    | inr p ↦ rw (k.contexts i, k.same_size, p) refl
  ];
  woken = rw (waiter_inside s fd read h, waiter_inside s fd write h) k.woken;
}

picked_nobody :
    (r w : Bool) (s : IoManager) (fd : ℕ) (e : Event)
    → (if r then waiter s fd read else none) ≡ none
    → (if w then waiter s fd write else none) ≡ none
    → waiter s fd e ≡ (if chosen r w e then none else waiter s fd e)
picked_nobody true w s fd read hr hw = hr
picked_nobody false w s fd read hr hw = refl
picked_nobody r true s fd write hr hw = hw
picked_nobody r false s fd write hr hw = refl

-- Nobody waits for what is chosen.
pub unchanged-Served :
    (s : IoManager) (fd : ℕ) (r w : Bool) (i : ℕ) (other : Event)
    → IsValid s
    → (if r then waiter s fd read else none) ≡ none
    → (if w then waiter s fd write else none) ≡ none
    → Served s s fd r w i other
unchanged-Served s fd r w i other v hr hw = record {
  valid = v;
  table = elim (Bool-cases (i == fd)) [
    | inl p ↦ rw (p, (==_iff i fd).0 p) (picked_nobody r w s fd other hr hw)
    | inr p ↦ rw p refl
  ];
  woken = rw (hr, hw) (sym (append-nil s.scheduled));
}

all_chosen :
    (r w : Bool) (s : IoManager) (fd : ℕ) (e : Event)
    → (if r then none else waiter s fd read) ≡ none
    → (if w then none else waiter s fd write) ≡ none
    → (if chosen r w e then none else waiter s fd e)
      ≡ (if chosen true true e then none else waiter s fd e)
all_chosen true w s fd read hr hw = refl
all_chosen false w s fd read hr hw = hr
all_chosen r true s fd write hr hw = refl
all_chosen r false s fd write hr hw = hw

both_calls :
    (r w : Bool) (x y : Option Call)
    → (if r then none else x) ≡ none
    → (if w then none else y) ≡ none
    → calls (if r then x else none) ++ calls (if w then y else none) ≡ calls x ++ calls y
both_calls true true x y h k = refl
both_calls true false x y h k = rw k refl
both_calls false true x y h k = rw h refl
both_calls false false x y h k = rw (h, k) refl

-- Choosing also what nobody waits for makes no difference.
pub widened :
    (s t : IoManager) (fd : ℕ) (i : ℕ) (other : Event) (r w : Bool)
    → Served s t fd r w i other
    → (if r then none else waiter s fd read) ≡ none
    → (if w then none else waiter s fd write) ≡ none
    → Served s t fd true true i other
widened s t fd i other r w k hr hw = record {
  valid = k.valid;
  table = k.table ∙ elim (Bool-cases (i == fd)) [
    | inl p ↦ rw (p, (==_iff i fd).0 p) (all_chosen r w s fd other hr hw)
    | inr p ↦ rw p refl
  ];
  woken =
      k.woken ∙ ap (◌++◌ s.scheduled) (both_calls r w (waiter s fd read) (waiter s fd write) hr hw);
}

-- One event, as cancel_event takes it.
abbrev pub only : Event → Event → Bool
only read read = true
only write write = true
only read write = false
only write read = false

trigger-only :
    (e : Event) (fd : ℕ) (s s1 s2 : IoManager)
    → trigger_if (only e read) fd read s ≡ some s1
    → trigger_if (only e write) fd write s1 ≡ some s2
    → trigger fd e s ≡ some s2
trigger-only read fd s s1 s2 p q = p ∙ q
trigger-only write fd s s1 s2 p q = ap (trigger fd write) (some-injective s s1 p) ∙ q

pub record Cancelled (s t : IoManager) (fd : ℕ) (e : Event) (i : ℕ) (other : Event) (answer : Bool)
    : Type 0 where
  pub answered : answer ≡ has_waiter s fd e
  pub served : Served s t fd (only e read) (only e write) i other

only_kept :
    (e : Event) (s : IoManager) (fd : ℕ)
    → waiter s fd e ≡ none
    → ((if only e read then waiter s fd read else none) ≡ none)
      × ((if only e write then waiter s fd write else none) ≡ none)
only_kept read s fd h = (h, refl)
only_kept write s fd h = (refl, h)

only_registered :
    (e : Event) (es : Events)
    → has e es ≡ true
    → ((only e read && not es.reads) ≡ false)
      × ((only e write && not es.writes) ≡ false)
      × ((only e read || only e write) ≡ true)
only_registered read es h = (ap not h, refl, refl)
only_registered write es h = (refl, ap not h, refl)

only_left :
    (e : Event) (c : FdContext)
    → with_event e false c.events ≡ (taken_both (only e read) (only e write) c).events
only_left read c = refl
only_left write c = refl

abbrev without_event : ℕ → Event → IoManager → Ctl
without_event fd e s =
    let es = with_event e false (s.contexts fd).events in
    record { op = delete_op es; target = fd; mask = es; edge_triggered = false }

abbrev pub answer_true : IoManager → Option (Bool × IoManager)
answer_true s = some (true, s)

cancel_event_absent :
    (s : IoManager) (fd : ℕ) (e : Event)
    → s.size < 2 ^ 31
    → has_waiter s fd e ≡ false
    → cancel_event false fd e s ≡ some (false, s)
unfolding cancel_event
cancel_event_absent s fd e k h = rw (is_short-leb s.size fd k) (ground arith)

cancel_event_present :
    (s t : IoManager) (fd : ℕ) (e : Event)
    → s.size < 2 ^ 31
    → fd < s.size
    → has e (s.contexts fd).events ≡ true
    → trigger fd e (logged (without_event fd e s) s) ≡ some t
    → cancel_event false fd e s ≡ some (true, t)
unfolding cancel_event
cancel_event_present s t fd e n h w k =
    rw (is_short-leb s.size fd n, lt→leb s.size fd h, w)
      (ap (λ (o : Option IoManager). o >>= answer_true) k)

-- On a valid state, when epoll_ctl accepts its call, cancel_event fails no assertion and answers whether
-- somebody waited for the event. Whoever did is scheduled once, last, and leaves the table; no other entry
-- changes, and the new state is valid: the counter, and what epoll watches, agree with the contexts.
pub cancel_event-Serves :
    (s : IoManager) (fd : ℕ) (e : Event) (i : ℕ) (other : Event)
    → IsValid s
    → (answer : Bool) × (t : IoManager) × (cancel_event false fd e s ≡ some (answer, t))
      × Cancelled s t fd e i other answer
cancel_event-Serves s fd e i other v = elim (has_waiter-cases s fd e) [
  | inl no_one ↦
      let (hr, hw) = only_kept e s fd (no_waiter s fd e v no_one) in
      (
        false,
        s,
        cancel_event_absent s fd e v.small no_one,
        record {
          answered = sym no_one;
          served = unchanged-Served s fd (only e read) (only e write) i other v hr hw;
        },
      )
  | inr (some_one, h, w) ↦
      let (hr, hw, o) = only_registered e (s.contexts fd).events w in
      let l : Ctl = without_event fd e s in
      let left = only_left e (s.contexts fd) in
      let (s1, s2, e1, e2, c1, k) =
        swept s l fd (only e read) (only e write) v h hr hw o refl left (ap delete_op left) in
      (
        true,
        s2,
        cancel_event_present s s2 fd e v.small h w (trigger-only e fd (logged l s) s1 s2 e1 e2),
        record {
          answered = sym some_one;
          served = Swept-Served s s2 fd (only e read) (only e write) i other h k;
        },
      )
]
