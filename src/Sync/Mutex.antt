-- ===== src/Sync/Mutex.antt =====
-- CoMutex of acid/common/co_mutex.{h,cpp}, one action of one coroutine at a time. A spinlock is `none`
-- or the coroutine that took it, and a coroutine is its id. m_fiber_id starts as whatever the memory held.
-- A coroutine that has yielded goes on when it is among the tasks of the scheduler. `depth` counts the
-- calls of lock() of a coroutine that have returned and that no unlock() has ended: one that has the lock
-- may call lock() again.
pub mod Exclusion
pub mod Sleep
pub mod Reentry
use acid_compute.Prelude.{
  ℕ, ◌+◌, ◌-◌, ◌<◌, Bool, true, false, not, leb, Option, none, some, List, [], ◌∷◌, ◌++◌, ◌≡◌, ◌==◌,
  if◌then◌else◌,
}

-- Where a coroutine is: outside, in lock(), between a lock() and its unlock(), or in unlock().
pub data Pc : Type 0 where
  idle calling trying owning guarding retrying owning_guarded leaving_owner : Pc
  queueing leaving blocked held releasing clearing popping : Pc
  unguarding unlocking waking : Option ℕ → Pc

pub record CoMutex : Type 0 where
  pub mutex : Option ℕ
  pub guard : Option ℕ
  pub fiber_id : ℕ
  pub wait_queue : List ℕ
  pub tasks : List ℕ
  pub pc : ℕ → Pc
  pub depth : ℕ → ℕ

abbrev pub elem : ℕ → List ℕ → Bool
elem x [] = false
elem x (y ∷ ys) = if x == y then true else elem x ys

abbrev pub remove : ℕ → List ℕ → List ℕ
remove x [] = []
remove x (y ∷ ys) = let rest = remove x ys in if x == y then ys else y ∷ rest

abbrev pub update : ℕ → ℕ → (ℕ → ℕ) → ℕ → ℕ
update i n f x = if x == i then n else f x

abbrev pub at : ℕ → Pc → (ℕ → Pc) → ℕ → Pc
at i p f x = if x == i then p else f x

-- `schedule(fiber)`, when there is one.
abbrev pub scheduled : Option ℕ → List ℕ → List ℕ
scheduled none ts = ts
scheduled (some f) ts = ts ++ (f ∷ [])

-- `front` and `pop`, when the queue is not empty.
abbrev pub front : List ℕ → Option ℕ
front [] = none
front (f ∷ fs) = some f

abbrev pub popped : List ℕ → List ℕ
popped [] = []
popped (f ∷ fs) = fs

-- lock() returns.
abbrev pub entered : ℕ → CoMutex → CoMutex
entered i s = record s { pc = at i held s.pc; depth = update i (s.depth i + 1) s.depth }

-- unlock() returns, into the section around it if there is one.
abbrev pub left : ℕ → CoMutex → CoMutex
left i s = record s {
  pc = at i (if leb (s.depth i) 1 then idle else held) s.pc;
  depth = update i (s.depth i - 1) s.depth;
}

-- What a coroutine does: its next action, or, between lock() and unlock(), another call of lock().
pub data Move : Type 0 where
  next relock : Move

-- The next action of the coroutine `i` that is at `p`, `none` when it has to wait for others.
unfoldable pub act : ℕ → Pc → CoMutex → Option CoMutex
act i idle s = some (record s { pc = at i calling s.pc })
act i calling s =
    if s.fiber_id == i then some (entered i s) else some (record s { pc = at i trying s.pc })
act i trying s = elim s.mutex [
  | none ↦ some (record s { mutex = some i; pc = at i owning s.pc })
  | some j ↦ some (record s { pc = at i guarding s.pc })
]
act i owning s = some (entered i (record s { fiber_id = i }))
act i guarding s = elim s.guard [
  | none ↦ some (record s { guard = some i; pc = at i retrying s.pc })
  | some j ↦ none
]
act i retrying s = elim s.mutex [
  | none ↦ some (record s { mutex = some i; pc = at i owning_guarded s.pc })
  | some j ↦ some (record s { pc = at i queueing s.pc })
]
act i owning_guarded s = some (record s { fiber_id = i; pc = at i leaving_owner s.pc })
act i leaving_owner s = some (entered i (record s { guard = none }))
act i queueing s = some (record s { wait_queue = s.wait_queue ++ (i ∷ []); pc = at i leaving s.pc })
act i leaving s = some (record s { guard = none; pc = at i blocked s.pc })
act i blocked s =
    if elem i s.tasks
    then some (record s { tasks = remove i s.tasks; pc = at i trying s.pc })
    else none
act i held s = some (record s { pc = at i releasing s.pc })
act i releasing s = elim s.guard [
  | none ↦ some (record s { guard = some i; pc = at i clearing s.pc })
  | some j ↦ none
]
act i clearing s = some (record s { fiber_id = 0; pc = at i popping s.pc })
act i popping s = some (record s {
  wait_queue = popped s.wait_queue;
  pc = at i (unguarding (front s.wait_queue)) s.pc;
})
act i (unguarding f) s = some (record s { guard = none; pc = at i (unlocking f) s.pc })
act i (unlocking f) s = some (record s { mutex = none; pc = at i (waking f) s.pc })
act i (waking f) s = some (left i (record s { tasks = scheduled f s.tasks }))

abbrev pub is_held : Pc → Bool
is_held held = true
is_held p = false

unfoldable pub step : Move → ℕ → CoMutex → Option CoMutex
unfolding act
step next i s = act i (s.pc i) s
step relock i s = if is_held (s.pc i) then some (record s { pc = at i calling s.pc }) else none

-- A new CoMutex; its constructor leaves m_fiber_id as it finds the memory.
unfoldable pub fresh : ℕ → CoMutex
fresh memory = record {
  mutex = none;
  guard = none;
  fiber_id = memory;
  wait_queue = [];
  tasks = [];
  pc = λ i. idle;
  depth = λ i. 0;
}

-- The states that some order of the allowed moves of coroutines leads to. Ids start at 1.
pub data Reach (allowed : Move → ℕ → Bool) (s : CoMutex) : CoMutex → Type 0 where
  here : Reach allowed s s
  later :
      {t u : CoMutex} (m : Move) (i : ℕ)
      → Reach allowed s t
      → 0 < i
      → allowed m i ≡ true
      → step m i t ≡ some u
      → Reach allowed s u

abbrev pub any_move : Move → ℕ → Bool
any_move m i = true

-- No coroutine locks again, and none has the id that the memory held.
abbrev pub locks_once : ℕ → Move → ℕ → Bool
locks_once memory next i = not (memory == i)
locks_once memory relock i = false
