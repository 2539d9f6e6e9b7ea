-- ===== src/Sync/Mutex/Sleep.antt =====
-- CoMutex::unlock lets go of m_guard before m_mutex: what a coroutine that arrives in between meets.
use mathlib.Core.Path.{subst}
use acid_compute.Prelude.{
  ◌-◌, ◌<◌, Bool, true, leb, if◌then◌else◌, Option-cases, inl, inr, ℕ, false, Option, some, none,
  List, [], ◌∷◌, ◌++◌, ◌≡◌, ◌≢◌, arith, refl,
}
use acid_compute.Sync.Mutex.{
  Reach, later, Move, next, update, held, CoMutex, guarding, unlocking, waking, blocked, idle, act,
  step, at, elem, retrying, queueing, leaving,
}

-- The actions of the coroutines of the list, in its order.
unfoldable pub run : List ℕ → CoMutex → Option CoMutex
run [] s = some s
run (i ∷ is) s = elim (step next i s) [ none ↦ none | some t ↦ run is t ]

module _ (i j : ℕ) (s : CoMutex) where
  abbrev asleep : CoMutex
  asleep = record s {
    mutex = none;
    guard = none;
    wait_queue = s.wait_queue ++ (i ∷ []);
    depth = update j (s.depth j - 1) s.depth;
    pc =
        at j (if leb (s.depth j) 1 then idle else held)
          (at j (waking none) (at i blocked (at i leaving (at i queueing (at i retrying s.pc)))));
  }

-- When an unlock found no waiting coroutine and has given m_guard back, and another coroutine
-- that saw m_mutex taken comes to m_guard before m_mutex is given back, then this order of their
-- actions is possible: the other one joins the wait queue, and the unlock ends. The lock is free
-- then, and the coroutine sleeps with no task that wakes it.
pub lost_wakeup :
    (i j : ℕ) (s : CoMutex)
    → i ≢ j
    → s.pc j ≡ unlocking none
    → s.pc i ≡ guarding
    → s.mutex ≡ some j
    → s.guard ≡ none
    → elem i s.tasks ≡ false
    → (t : CoMutex) × (run (i ∷ i ∷ i ∷ i ∷ j ∷ j ∷ []) s ≡ some t)
      × (t.mutex ≡ none)
      × (t.wait_queue ≡ s.wait_queue ++ (i ∷ []))
      × (t.pc i ≡ blocked)
      × (step next i t ≡ none)
unfolding run step act
lost_wakeup i j s ne ej ei em eg et =
    (asleep i j s, ground arith, refl, refl, ground arith, ground arith)

abbrev pub AllAllowed : (Move → ℕ → Bool) → List ℕ → Type 0
AllAllowed allowed [] = Unit
AllAllowed allowed (i ∷ is) = (0 < i) × (allowed next i ≡ true) × AllAllowed allowed is

pub run-Reach :
    (allowed : Move → ℕ → Bool) (is : List ℕ) {s t u : CoMutex}
    → AllAllowed allowed is
    → Reach allowed s t
    → run is t ≡ some u
    → Reach allowed s u
unfolding run
run-Reach allowed [] {s} a r e = subst (λ x. Reach allowed s x) (cc) r
run-Reach allowed (i ∷ is) {t = t} a r e = elim (Option-cases (step next i t)) [
  | inl h ↦ absurd (ground arith)
  | inr (v, h) ↦ run-Reach allowed is a.2 (later next i r a.0 a.1 h) (ground arith)
]
