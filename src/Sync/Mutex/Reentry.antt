-- ===== src/Sync/Mutex/Reentry.antt =====
-- CoMutex::lock of acid/common/co_mutex.cpp by the coroutine that has the lock: it returns at once, and
-- the unlock() of the inner section gives the lock back.
use acid_compute.Prelude.{ℕ, ◌+◌, ◌-◌, some, none, [], ◌∷◌, ◌≡◌, ◌≢◌, arith, refl}
use acid_compute.Sync.Mutex.{
  CoMutex, Pc, relock, update, at, calling, trying, owning, held, releasing, clearing, popping,
  unguarding, unlocking, waking, act, step,
}
use acid_compute.Sync.Mutex.Sleep.{run}

module _ (i j : ℕ) (s : CoMutex) where
  abbrev inner : ℕ → ℕ
  inner = update i (s.depth i + 1) s.depth

  abbrev outer : ℕ → ℕ
  outer = update i (inner i - 1) inner

  abbrev unlocked : ℕ → Pc
  unlocked = at i held (
      at i (waking none) (
        at i (unlocking none) (
          at i (unguarding none)
            (at i popping (at i clearing (at i releasing (at i held (at i calling s.pc))))))))

  abbrev shared : CoMutex
  shared = record s {
    mutex = some j;
    guard = none;
    fiber_id = j;
    wait_queue = [];
    depth = update j (outer j + 1) outer;
    pc = at j held (at j owning unlocked);
  }

-- A coroutine that has the lock calls lock() again, and nobody waits in the queue. Then this order of the
-- actions is possible: it enters the inner section and leaves it by unlock(), and another coroutine that
-- tries to take the lock enters. Both are between a lock() and its unlock() then, and m_mutex is the
-- other one's.
pub reentry_admits :
    (i j : ℕ) (s : CoMutex)
    → i ≢ j
    → s.pc i ≡ held
    → s.pc j ≡ trying
    → s.depth i ≡ 1
    → s.fiber_id ≡ i
    → s.mutex ≡ some i
    → s.guard ≡ none
    → s.wait_queue ≡ []
    → (a : CoMutex) × (t : CoMutex) × (step relock i s ≡ some a)
      × (run (i ∷ i ∷ i ∷ i ∷ i ∷ i ∷ i ∷ i ∷ j ∷ j ∷ []) a ≡ some t)
      × (t.pc i ≡ held)
      × (t.pc j ≡ held)
      × (t.depth i ≡ 1)
      × (t.mutex ≡ some j)
unfolding run step act
reentry_admits i j s ne ei ej d f m g w = (
  record s { pc = at i calling s.pc },
  shared i j s,
  ground arith,
  ground arith,
  ground arith,
  ground arith,
  ground arith,
  refl,
)
