-- ===== src/IoManager/Waiters.antt =====
-- Who waits for an event in an IOManager, acid/common/iomanager.{h,cpp}, and the change of one context
-- when somebody comes or goes.
use acid_compute.Prelude.{
  ℕ, zero, suc, ◌+◌, ◌-◌, ◌*◌, ◌^◌, ◌≤◌, ◌<◌, ◌≡◌, refl, sym, ap, ◌∙◌, arith, Bool, true, false,
  Option, none, ◌==◌, ==_iff, Bool-cases, ◌⊎◌, inl, inr, ltb, ltb→lt, if◌then◌else◌,
}
use acid_compute.IoManager.{
  Event, read, write, has, with_event, EventContext, reset_event_context, FdContext,
  get_event_context, put_event_context, Call, call_of, IoManager, count_down, delete_op, is_some,
}
use acid_compute.IoManager.Valid.{weight, total, IsSound, IsValid}
use acid_compute.IoManager.Moves.{Fits}

abbrev pub waiting : EventContext → Option Call
waiting x = call_of x.scheduler x.function x.waiting_fiber

-- The call of schedule() that the event of a descriptor will make.
abbrev pub waiter : IoManager → ℕ → Event → Option Call
waiter s fd e = if ltb fd s.size then waiting (get_event_context e (s.contexts fd)) else none

abbrev pub same_event : Event → Event → Bool
same_event read read = true
same_event write write = true
same_event read write = false
same_event write read = false

-- A context without the event `e`.
abbrev pub detached : Event → FdContext → FdContext
detached e c =
    put_event_context e reset_event_context (record c { events = with_event e false c.events })

pub detached-IsSound : (e : Event) (c : FdContext) → IsSound c → IsSound (detached e c)
detached-IsSound read c s = ground arith
detached-IsSound write c s = ground arith

pub weight-detached :
    (e : Event) (c : FdContext) → has e c.events ≡ true → weight c ≡ weight (detached e c) + 1
weight-detached read c h = ground arith
weight-detached write c h = ground arith

pub detached-Fits :
    (e : Event) (c : FdContext)
    → has e c.events ≡ true
    → Fits c.events (detached e c).events (delete_op (detached e c).events)
detached-Fits read c h = ground arith
detached-Fits write c h = ground arith

pub waiting-detached :
    (e other : Event) (c : FdContext)
    → waiting (get_event_context other (detached e c))
      ≡ (if same_event other e then none else waiting (get_event_context other c))
waiting-detached read read c = refl
waiting-detached read write c = refl
waiting-detached write read c = refl
waiting-detached write write c = refl

abbrev pub has_waiter : IoManager → ℕ → Event → Bool
has_waiter s fd e = if ltb fd s.size then has e (s.contexts fd).events else false

nobody : (x : EventContext) → is_some x.scheduler ≡ false → waiting x ≡ none
nobody x h = ground arith

pub absent :
    (e : Event) (c : FdContext)
    → IsSound c
    → has e c.events ≡ false
    → waiting (get_event_context e c) ≡ none
absent read c s h = nobody c.read_context (s.read_scheduler ∙ h)
absent write c s h = nobody c.write_context (s.write_scheduler ∙ h)

pub no_waiter :
    (s : IoManager) (fd : ℕ) (e : Event)
    → IsValid s
    → has_waiter s fd e ≡ false
    → waiter s fd e ≡ none
no_waiter s fd e v h = elim (Bool-cases (ltb fd s.size)) [
  | inl p ↦
      let w : has e (s.contexts fd).events ≡ false =
        sym (ap (λ b. if b then has e (s.contexts fd).events else false) p) ∙ h in
      rw p (absent e (s.contexts fd) (v.sound fd (ltb→lt fd s.size p)) w)
  | inr p ↦ rw p refl
]

-- An event is waited for, or not.
pub has_waiter-cases :
    (s : IoManager) (fd : ℕ) (e : Event)
    → (has_waiter s fd e ≡ false)
      ⊎ ((has_waiter s fd e ≡ true) × (fd < s.size) × (has e (s.contexts fd).events ≡ true))
has_waiter-cases s fd e = elim (Bool-cases (ltb fd s.size)) [
  | inl p ↦ elim (Bool-cases (has e (s.contexts fd).events)) [
    | inl w ↦ inr (rw (p, w) refl, ltb→lt fd s.size p, w)
    | inr w ↦ inl (rw (p, w) refl)
  ]
  | inr p ↦ inl (rw p refl)
]

total-le : (n : ℕ) (f : ℕ → FdContext) → total n f ≤ 2 * n
unfolding total
total-le zero f = omega arith
total-le (suc n) f = ground (arith, total-le n f)

weight-le-total : (n fd : ℕ) (f : ℕ → FdContext) → fd < n → weight (f fd) ≤ total n f
unfolding total
weight-le-total zero fd f h = absurd (omega arith)
weight-le-total (suc n) fd f h = elim (Bool-cases (n == fd)) [
  | inl p ↦ rw (sym ((==_iff n fd).0 p)) (omega arith)
  | inr p ↦ omega (arith, weight-le-total n fd f (ground arith))
]

-- The counter does not wrap.
pub pending_small : (s : IoManager) → IsValid s → s.pending_event_count < 2 ^ 34
pending_small s v = omega (arith, total-le s.size s.contexts, v.counted, v.small)

pub pending_covers :
    (s : IoManager) (fd : ℕ)
    → IsValid s
    → fd < s.size
    → weight (s.contexts fd) ≤ s.pending_event_count
pending_covers s fd v h = omega (arith, weight-le-total s.size fd s.contexts h, v.counted)

pub count_down-eq : (n : ℕ) → 0 < n → n < 2 ^ 34 → count_down n ≡ n - 1
count_down-eq n h k = omega arith
