-- ===== src/IoManager/Clearing.antt =====
-- cancel_all of acid/common/iomanager.cpp, against the table of the calls that wait for an event of a
-- descriptor.
use acid_compute.Prelude.{
  ℕ, ◌^◌, ◌<◌, ◌≡◌, refl, sym, ap, ◌∙◌, arith, Bool, true, false, not, ◌&&◌, ◌||◌, Option, none,
  some, lt→leb, lt→ltb, ltb→lt, le→leb, ltb, Bool-cases, bool_clash, inl, inr, if◌then◌else◌,
}
use acid_compute.Descriptors.Table.{is_short-leb}
use acid_compute.IoManager.{
  Event, read, write, no_events, FdContext, IoManager, delete_op, delete, Ctl, is_none, trigger_if,
  cancel_all, ◌>>=◌,
}
use acid_compute.IoManager.Valid.{IsValid}
use acid_compute.IoManager.Waiters.{waiter, has_waiter, absent, no_waiter}
use acid_compute.IoManager.Sweep.{taken_both, swept, logged, keeps_writes}
use acid_compute.IoManager.Moves.{update-hit}
use acid_compute.IoManager.Wakes.{
  Served, waiter_inside, Swept-Served, unchanged-Served, widened, answer_true,
}

-- cancel_all: the events that are registered are chosen, which are all that anybody waits for.
reads_nobody :
    (s : IoManager) (fd : ℕ)
    → IsValid s
    → fd < s.size
    → (if (s.contexts fd).events.reads then none else waiter s fd read) ≡ none
reads_nobody s fd v h = elim (Bool-cases (s.contexts fd).events.reads) [
  | inl p ↦ rw p refl
  | inr p ↦ rw p (waiter_inside s fd read h ∙ absent read (s.contexts fd) (v.sound fd h) p)
]

writes_nobody :
    (s : IoManager) (fd : ℕ)
    → IsValid s
    → fd < s.size
    → (if (s.contexts fd).events.writes then none else waiter s fd write) ≡ none
writes_nobody s fd v h = elim (Bool-cases (s.contexts fd).events.writes) [
  | inl p ↦ rw p refl
  | inr p ↦ rw p (waiter_inside s fd write h ∙ absent write (s.contexts fd) (v.sound fd h) p)
]

all_taken : (c : FdContext) → (taken_both c.events.reads c.events.writes c).events ≡ no_events
all_taken c = ground arith

and_not : (b : Bool) → (b && not b) ≡ false
and_not true = refl
and_not false = refl

abbrev removal : ℕ → Ctl
removal fd = record { op = delete; target = fd; mask = no_events; edge_triggered = false }

abbrev check_none : ℕ → IoManager → Option (Bool × IoManager)
check_none fd s = if is_none (s.contexts fd).events then some (true, s) else none

cancel_all_none :
    (s : IoManager) (fd : ℕ)
    → s.size < 2 ^ 31
    → (has_waiter s fd read || has_waiter s fd write) ≡ false
    → cancel_all false fd s ≡ some (false, s)
unfolding cancel_all
cancel_all_none s fd k h = elim (Bool-cases (ltb fd s.size)) [
  | inl p ↦
      let o : ((s.contexts fd).events.reads || (s.contexts fd).events.writes) ≡ false =
        sym (
          ap
            (λ b.
              (if b then (s.contexts fd).events.reads else false)
              || (if b then (s.contexts fd).events.writes else false))
            p)
        ∙ h in
      rw (is_short-leb s.size fd k, lt→leb s.size fd (ltb→lt fd s.size p), o) refl
  | inr p ↦ rw (is_short-leb s.size fd k, le→leb s.size fd (ground arith)) refl
]

cancel_all-some :
    (s s1 s2 : IoManager) (fd : ℕ)
    → s.size < 2 ^ 31
    → fd < s.size
    → ((s.contexts fd).events.reads || (s.contexts fd).events.writes) ≡ true
    → trigger_if (s.contexts fd).events.reads fd read (logged (removal fd) s) ≡ some s1
    → trigger_if (s1.contexts fd).events.writes fd write s1 ≡ some s2
    → is_none (s2.contexts fd).events ≡ true
    → cancel_all false fd s ≡ some (true, s2)
unfolding cancel_all
cancel_all-some s s1 s2 fd m h o e1 e2 n =
    rw (is_short-leb s.size fd m, lt→leb s.size fd h, o)
      (ap
          (λ (x : Option IoManager).
            x >>= λ a. trigger_if (a.contexts fd).events.writes fd write a >>= check_none fd)
          e1
        ∙ ap (λ (x : Option IoManager). x >>= check_none fd) e2
        ∙ ap (λ b. if b then answer_true s2 else none) n)

pub record Cleared (s t : IoManager) (fd : ℕ) (i : ℕ) (other : Event) (answer : Bool) : Type 0 where
  pub answered : answer ≡ (has_waiter s fd read || has_waiter s fd write)
  pub served : Served s t fd true true i other

neither : (a b : Bool) → (a || b) ≡ false → (a ≡ false) × (b ≡ false)
neither false b h = (refl, h)
neither true b h = bool_clash h

someone_inside :
    (s : IoManager) (fd : ℕ) → (has_waiter s fd read || has_waiter s fd write) ≡ true → fd < s.size
someone_inside s fd h = ground arith

-- On a valid state, when epoll_ctl accepts its call, cancel_all fails no assertion and answers whether
-- anybody waited for the descriptor. Who waited to read and then who waited to write is scheduled once
-- and leaves the table; no other entry changes, and the new state is valid.
pub cancel_all-Serves :
    (s : IoManager) (fd i : ℕ) (other : Event)
    → IsValid s
    → (answer : Bool) × (t : IoManager) × (cancel_all false fd s ≡ some (answer, t))
      × Cleared s t fd i other answer
cancel_all-Serves s fd i other v =
    elim (Bool-cases (has_waiter s fd read || has_waiter s fd write)) [
      | inl some_one ↦
          let h : fd < s.size = someone_inside s fd some_one in
          let c : FdContext = s.contexts fd in
          let o : (c.events.reads || c.events.writes) ≡ true =
            sym (
              ap
                (λ b.
                  (if b then c.events.reads else false) || (if b then c.events.writes else false))
                (lt→ltb fd s.size h))
            ∙ some_one in
          let gone = sym (all_taken c) in
          let (s1, s2, e1, e2, c1, k) =
            swept s (removal fd) fd c.events.reads c.events.writes v h (and_not c.events.reads)
              (and_not c.events.writes) o refl gone (ap delete_op gone) in
          let w : (s1.contexts fd).events.writes ≡ c.events.writes =
            ap (λ (d : FdContext). d.events.writes) c1 ∙ keeps_writes c.events.reads c in
          let n : (s2.contexts fd).events ≡ no_events =
            ap (λ (d : FdContext). d.events)
              (k.contexts fd
                ∙ update-hit fd (taken_both c.events.reads c.events.writes c) s.contexts)
            ∙ all_taken c in
          (
            true,
            s2,
            cancel_all-some s s1 s2 fd v.small h o e1 (ap (λ b. trigger_if b fd write s1) w ∙ e2)
                (ap is_none n),
            record {
              answered = sym some_one;
              served =
                  widened s s2 fd i other c.events.reads c.events.writes
                    (Swept-Served s s2 fd c.events.reads c.events.writes i other h k)
                    (reads_nobody s fd v h) (writes_nobody s fd v h);
            },
          )
      | inr no_one ↦
          let (p, q) = neither (has_waiter s fd read) (has_waiter s fd write) no_one in
          (
            false,
            s,
            cancel_all_none s fd v.small no_one,
            record {
              answered = sym no_one;
              served =
                  unchanged-Served s fd true true i other v (no_waiter s fd read v p)
                    (no_waiter s fd write v q);
            },
          )
    ]
