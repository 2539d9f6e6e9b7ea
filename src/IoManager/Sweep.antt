-- ===== src/IoManager/Sweep.antt =====
-- trigger_event in cancel_event, in cancel_all and in the loop of idle(), acid/common/iomanager.cpp:
-- whoever waits is scheduled once and waits no more.
use mathlib.Core.Path.{subst}
use acid_compute.Prelude.{
  ℕ, ◌+◌, ◌^◌, ◌≤◌, ◌<◌, ◌≡◌, refl, sym, ap, ◌∙◌, arith, Bool, true, false, not, ◌&&◌, ◌||◌, Option,
  none, some, List, [], ◌∷◌, ◌++◌, append-nil, append_assoc, ◌==◌, ==_iff, Bool-cases, bool_clash,
  inl, inr, if◌then◌else◌,
}
use acid_compute.Tasks.Scheduler.{update}
use acid_compute.IoManager.{
  Event, read, write, has, EventContext, FdContext, get_event_context, Call, call_of, job,
  IoManager, count_down, delete_op, Ctl, is_some, trigger, trigger_if,
}
use acid_compute.IoManager.Valid.{weight, shown, changed, IsSound, IsValid}
use acid_compute.IoManager.Moves.{Fits, Moved-IsValid, update-hit}
use acid_compute.IoManager.Waiters.{
  waiting, detached, detached-IsSound, pending_small, pending_covers,
}

abbrev pub calls : Option Call → List Call
calls none = []
calls (some k) = k ∷ []

abbrev pub taken : Bool → Event → FdContext → FdContext
taken b e c = if b then detached e c else c

called_by :
    (o : Option ℕ) (x : EventContext)
    → is_some o ≡ true
    → (k : Call) × (call_of o x.function x.waiting_fiber ≡ some k)
called_by none x h = bool_clash (sym h)
called_by (some n) x h = ((n, job x.function x.waiting_fiber), refl)

called : (x : EventContext) → is_some x.scheduler ≡ true → (k : Call) × (waiting x ≡ some k)
called x h = called_by x.scheduler x h

someone :
    (e : Event) (c : FdContext)
    → IsSound c
    → has e c.events ≡ true
    → (k : Call) × (waiting (get_event_context e c) ≡ some k)
someone read c s h = called c.read_context (s.read_scheduler ∙ h)
someone write c s h = called c.write_context (s.write_scheduler ∙ h)

-- What trigger_if does to the state, when the event is registered.
pub record Took (s t : IoManager) (fd : ℕ) (b : Bool) (e : Event) : Type 0 where
  pub same_size : t.size ≡ s.size
  pub contexts : (i : ℕ) → t.contexts i ≡ update fd (taken b e (s.contexts fd)) s.contexts i
  pub counted :
      t.pending_event_count
      ≡ (if b then count_down s.pending_event_count else s.pending_event_count)
  pub same_ctls : t.ctls ≡ s.ctls
  pub woken :
      t.scheduled
      ≡ s.scheduled ++ calls (if b then waiting (get_event_context e (s.contexts fd)) else none)

abbrev without : ℕ → Event → Call → IoManager → IoManager
without fd e k s = record s {
  contexts = update fd (detached e (s.contexts fd)) s.contexts;
  pending_event_count = count_down s.pending_event_count;
  scheduled = s.scheduled ++ (k ∷ []);
}

trigger_wakes :
    (fd : ℕ) (e : Event) (k : Call) (s : IoManager)
    → has e (s.contexts fd).events ≡ true
    → waiting (get_event_context e (s.contexts fd)) ≡ some k
    → trigger fd e s ≡ some (without fd e k s)
unfolding trigger
trigger_wakes fd e k s h w = rw (h, w) refl

same_at : (fd i : ℕ) (s : IoManager) → s.contexts i ≡ update fd (s.contexts fd) s.contexts i
same_at fd i s = ground (arith, ap s.contexts, ==_iff i fd)

pub trigger_if-Took :
    (b : Bool) (fd : ℕ) (e : Event) (s : IoManager)
    → IsSound (s.contexts fd)
    → (b && not (has e (s.contexts fd).events)) ≡ false
    → (t : IoManager) × (trigger_if b fd e s ≡ some t) × Took s t fd b e
trigger_if-Took false fd e s v h = (
  s,
  refl,
  record {
    same_size = refl;
    contexts = λ i. same_at fd i s;
    counted = refl;
    same_ctls = refl;
    woken = sym (append-nil s.scheduled);
  },
)
trigger_if-Took true fd e s v h =
    let p : has e (s.contexts fd).events ≡ true = ground arith in
    let (k, w) = someone e (s.contexts fd) v p in
    (
      without fd e k s,
      trigger_wakes fd e k s p w,
      record {
        same_size = refl;
        contexts = λ i. refl;
        counted = refl;
        same_ctls = refl;
        woken = ap (λ o. s.scheduled ++ calls o) (sym w);
      },
    )

abbrev pub taken_both : Bool → Bool → FdContext → FdContext
taken_both r w c = taken w write (taken r read c)

taken-IsSound : (b : Bool) (e : Event) (c : FdContext) → IsSound c → IsSound (taken b e c)
taken-IsSound true e c s = detached-IsSound e c s
taken-IsSound false e c s = s

pub keeps_writes : (r : Bool) (c : FdContext) → (taken r read c).events.writes ≡ c.events.writes
keeps_writes true c = refl
keeps_writes false c = refl

keeps_writer : (r : Bool) (c : FdContext) → (taken r read c).write_context ≡ c.write_context
keeps_writer true c = refl
keeps_writer false c = refl

weight-taken :
    (r w : Bool) (c : FdContext)
    → (r && not c.events.reads) ≡ false
    → (w && not c.events.writes) ≡ false
    → weight c ≡ weight (taken_both r w c) + (if r then 1 else 0) + (if w then 1 else 0)
weight-taken true true c h k = ground arith
weight-taken true false c h k = ground arith
weight-taken false true c h k = ground arith
weight-taken false false c h k = omega arith

taken-Fits :
    (r w : Bool) (c : FdContext)
    → (r && not c.events.reads) ≡ false
    → (w && not c.events.writes) ≡ false
    → (r || w) ≡ true
    → Fits c.events (taken_both r w c).events (delete_op (taken_both r w c).events)
taken-Fits true true c h k o = ground arith
taken-Fits true false c h k o = ground arith
taken-Fits false true c h k o = ground arith
taken-Fits false false c h k o = bool_clash (sym o)

count_both :
    (r w : Bool) (p q1 q2 a b : ℕ)
    → q1 ≡ (if r then count_down p else p)
    → q2 ≡ (if w then count_down q1 else q1)
    → a ≡ b + (if r then 1 else 0) + (if w then 1 else 0)
    → a ≤ p
    → p < 2 ^ 34
    → q2 + a ≡ p + b
count_both true true p q1 q2 a b h k e f g = omega arith
count_both true false p q1 q2 a b h k e f g = omega arith
count_both false true p q1 q2 a b h k e f g = omega arith
count_both false false p q1 q2 a b h k e f g = omega arith

-- The state `t` behind both tests, on the state `s` before the call of epoll_ctl.
pub record Swept (s t : IoManager) (fd : ℕ) (r w : Bool) : Type 0 where
  pub valid : IsValid t
  pub same_size : t.size ≡ s.size
  pub contexts : (i : ℕ) → t.contexts i ≡ update fd (taken_both r w (s.contexts fd)) s.contexts i
  pub woken :
      t.scheduled
      ≡ s.scheduled
        ++ (calls (if r then waiting (s.contexts fd).read_context else none)
            ++ calls (if w then waiting (s.contexts fd).write_context else none))

abbrev pub logged : Ctl → IoManager → IoManager
logged l s = record s { ctls = s.ctls ++ (l ∷ []) }

two_updates :
    (fd i : ℕ) (c d c1 : FdContext) (f g : ℕ → FdContext)
    → g i ≡ update fd c1 f i
    → c ≡ d
    → update fd c g i ≡ update fd d f i
two_updates fd i c d c1 f g h e = elim (Bool-cases (i == fd)) [
  | inl p ↦ rw p e
  | inr p ↦ rw p (h ∙ ap (λ b. if b then c1 else f i) p)
]

module _ (s : IoManager) (l : Ctl) (fd : ℕ) (r w : Bool) (v : IsValid s) (inside : fd < s.size)
    (hr : (r && not (s.contexts fd).events.reads) ≡ false)
    (hw : (w && not (s.contexts fd).events.writes) ≡ false) where
  Swept-after :
      (s1 s2 : IoManager)
      → Took (logged l s) s1 fd r read
      → Took s1 s2 fd w write
      → (r || w) ≡ true
      → l.target ≡ fd
      → l.mask ≡ (taken_both r w (s.contexts fd)).events
      → l.op ≡ delete_op (taken_both r w (s.contexts fd)).events
      → Swept s s2 fd r w
  Swept-after s1 s2 k1 k2 o at mask op =
      let c : FdContext = s.contexts fd in
      let c1 : s1.contexts fd ≡ taken r read c =
        k1.contexts fd ∙ update-hit fd (taken r read c) s.contexts in
      let contexts : (i : ℕ) → s2.contexts i ≡ update fd (taken_both r w c) s.contexts i = λ i.
        k2.contexts i
        ∙ two_updates fd i (taken w write (s1.contexts fd)) (taken_both r w c) (taken r read c)
            s.contexts s1.contexts (k1.contexts i) (ap (taken w write) c1) in
      record {
        valid = Moved-IsValid s s2 fd (taken_both r w c) l v (record {
          inside = inside;
          same_size = k2.same_size ∙ k1.same_size;
          contexts = contexts;
          sound =
              taken-IsSound w write (taken r read c) (taken-IsSound r read c (v.sound fd inside));
          counted =
              count_both r w s.pending_event_count s1.pending_event_count s2.pending_event_count
                (weight c) (weight (taken_both r w c)) k1.counted k2.counted
                (weight-taken r w c hr hw) (pending_covers s fd v inside) (pending_small s v);
          logged = k2.same_ctls ∙ k1.same_ctls;
          at_fd = at;
          mask = mask;
          fits =
              ap (λ o'. changed o' (shown c.events) (taken_both r w c).events) op
              ∙ taken-Fits r w c hr hw o;
        });
        same_size = k2.same_size ∙ k1.same_size;
        contexts = contexts;
        woken =
            k2.woken
            ∙ ap (λ x. s1.scheduled ++ calls (if w then waiting x else none))
                (ap (λ (d : FdContext). d.write_context) c1 ∙ keeps_writer r c)
            ∙ ap (λ x. x ++ calls (if w then waiting c.write_context else none)) k1.woken
            ∙ append_assoc s.scheduled (calls (if r then waiting c.read_context else none))
                (calls (if w then waiting c.write_context else none));
      }

  pub swept :
      (r || w) ≡ true
      → l.target ≡ fd
      → l.mask ≡ (taken_both r w (s.contexts fd)).events
      → l.op ≡ delete_op (taken_both r w (s.contexts fd)).events
      → (s1 s2 : IoManager) × (trigger_if r fd read (logged l s) ≡ some s1)
        × (trigger_if w fd write s1 ≡ some s2)
        × (s1.contexts fd ≡ taken r read (s.contexts fd))
        × Swept s s2 fd r w
  swept o at mask op =
      let c : FdContext = s.contexts fd in
      let (s1, e1, k1) = trigger_if-Took r fd read (logged l s) (v.sound fd inside) hr in
      let c1 : s1.contexts fd ≡ taken r read c =
        k1.contexts fd ∙ update-hit fd (taken r read c) s.contexts in
      let (s2, e2, k2) =
        trigger_if-Took w fd write s1
          (subst IsSound (sym c1) (taken-IsSound r read c (v.sound fd inside)))
          (ap (λ (d : FdContext). w && not d.events.writes) c1
            ∙ ap (λ b. w && not b) (keeps_writes r c)
            ∙ hw) in
      (s1, s2, e1, e2, c1, Swept-after s1 s2 k1 k2 o at mask op)
