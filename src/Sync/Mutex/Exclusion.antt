-- ===== src/Sync/Mutex/Exclusion.antt =====
-- Mutual exclusion of CoMutex: what its three variables say of the coroutines.
use acid_compute.Prelude.{
  ℕ, ◌<◌, Bool, true, false, some, none, ◌≡◌, arith, refl, sym, ◌⊎◌, ◌==◌, ==_iff, bool_clash,
}
use acid_compute.Sync.Mutex.{
  Pc, calling, owning, retrying, owning_guarded, leaving_owner, queueing, leaving, held, releasing,
  clearing, popping, unguarding, unlocking, CoMutex, Move, next, relock, locks_once, waking, act,
  step, fresh, Reach, here, later,
}

-- The places at which a coroutine has m_mutex, m_guard, and its id in m_fiber_id.
abbrev pub owns : Pc → Bool
owns owning = true
owns owning_guarded = true
owns leaving_owner = true
owns held = true
owns releasing = true
owns clearing = true
owns popping = true
owns (unguarding f) = true
owns (unlocking f) = true
owns p = false

abbrev pub guards : Pc → Bool
guards retrying = true
guards owning_guarded = true
guards leaving_owner = true
guards queueing = true
guards leaving = true
guards clearing = true
guards popping = true
guards (unguarding f) = true
guards p = false

abbrev pub named : Pc → Bool
named leaving_owner = true
named held = true
named releasing = true
named clearing = true
named p = false

-- The calls of lock() that have returned, when none is made twice.
abbrev pub sections : Pc → ℕ
sections held = 1
sections releasing = 1
sections clearing = 1
sections popping = 1
sections (unguarding f) = 1
sections (unlocking f) = 1
sections (waking f) = 1
sections p = 0

pub record Owned (memory : ℕ) (s : CoMutex) : Type 0 where
  pub counted : (i : ℕ) → s.depth i ≡ sections (s.pc i)
  pub owner : (i : ℕ) → owns (s.pc i) ≡ true → s.mutex ≡ some i
  pub guardian : (i : ℕ) → guards (s.pc i) ≡ true → s.guard ≡ some i
  pub name : (i : ℕ) → 0 < i → (memory == i) ≡ false → s.fiber_id ≡ i → named (s.pc i) ≡ true

module _ (memory i j : ℕ) (s : CoMutex) {t : CoMutex} (pos : 0 < i) (mine : (memory == i) ≡ false)
    (v : Owned memory s) where
  act-counted : (p : Pc) → s.pc i ≡ p → act i p s ≡ some t → t.depth j ≡ sections (t.pc j)
  unfolding act
  act-counted calling e h = ground (arith, v.counted j, v.counted i, v.name i pos mine)
  act-counted p e h = ground (arith, v.counted j, v.counted i)

  act-owner : (p : Pc) → s.pc i ≡ p → act i p s ≡ some t → owns (t.pc j) ≡ true → t.mutex ≡ some j
  unfolding act
  act-owner calling e h o = ground (arith, v.owner j, v.owner i, v.name i pos mine)
  act-owner p e h o = ground (arith, v.owner j, v.owner i, v.counted i)

  act-guardian :
      (p : Pc) → s.pc i ≡ p → act i p s ≡ some t → guards (t.pc j) ≡ true → t.guard ≡ some j
  unfolding act
  act-guardian p e h o = ground (arith, v.guardian j, v.guardian i, v.counted i)

  act-name :
      (p : Pc)
      → s.pc i ≡ p
      → act i p s ≡ some t
      → 0 < j
      → (memory == j) ≡ false
      → t.fiber_id ≡ j
      → named (t.pc j) ≡ true
  unfolding act
  act-name p e h q n o = ground (arith, v.name j, v.name i, v.counted i)

fresh-Owned : (memory : ℕ) → Owned memory (fresh memory)
unfolding fresh
fresh-Owned memory = record {
  counted = λ i. refl;
  owner = λ i o. cc;
  guardian = λ i o. cc;
  name = λ i q n o. ground (arith, ==_iff memory i);
}

step-Owned :
    (memory : ℕ) (m : Move) (i : ℕ) (s : CoMutex) {t : CoMutex}
    → 0 < i
    → locks_once memory m i ≡ true
    → step m i s ≡ some t
    → Owned memory s
    → Owned memory t
unfolding step
step-Owned memory next i s pos a h v =
    let mine : (memory == i) ≡ false = ground arith in
    record {
      counted = λ j. act-counted memory i j s pos mine v (s.pc i) refl h;
      owner = λ j. act-owner memory i j s pos mine v (s.pc i) refl h;
      guardian = λ j. act-guardian memory i j s pos mine v (s.pc i) refl h;
      name = λ j. act-name memory i j s pos mine v (s.pc i) refl h;
    }
step-Owned memory relock i s pos a h v = bool_clash (sym a)

pub Reach-Owned :
    (memory : ℕ) {t : CoMutex} → Reach (locks_once memory) (fresh memory) t → Owned memory t
Reach-Owned memory here = fresh-Owned memory
Reach-Owned memory (later m i r q a h) = step-Owned memory m i _ q a h (Reach-Owned memory r)

-- When no coroutine calls lock() again before its unlock(), and none has the id that m_fiber_id was made
-- with: in every state that some order of the actions of coroutines with ids from 1 on leads to, two
-- coroutines that own the lock (both past a lock() and not behind the m_mutex.unlock() of their
-- unlock()) are the same one.
pub mutual_exclusion :
    (memory : ℕ) (s : CoMutex) (i j : ℕ)
    → Reach (locks_once memory) (fresh memory) s
    → owns (s.pc i) ≡ true
    → owns (s.pc j) ≡ true
    → i ≡ j
mutual_exclusion memory s i j r o p =
    ground (arith, (Reach-Owned memory r).owner i o, (Reach-Owned memory r).owner j p)

-- What an action does to a lock that is only "who has it".
abbrev pub Locks : ℕ → CoMutex → CoMutex → Type 0
Locks i s t =
    (t.mutex ≡ s.mutex) × (owns (t.pc i) ≡ owns (s.pc i))
    ⊎ (s.mutex ≡ none) × (t.mutex ≡ some i) × (owns (t.pc i) ≡ true)
    ⊎ (s.mutex ≡ some i) × (t.mutex ≡ none) × (owns (t.pc i) ≡ false)

act-Locks :
    (memory i : ℕ) (s : CoMutex) {t : CoMutex}
    → 0 < i
    → (memory == i) ≡ false
    → Owned memory s
    → (p : Pc) → s.pc i ≡ p
    → act i p s ≡ some t
    → Locks i s t
unfolding act
act-Locks memory i s pos mine v calling e h = ground (arith, v.name i pos mine)
act-Locks memory i s pos mine v p e h = ground (arith, v.owner i, v.counted i)

-- CoMutex refines a lock that is only its owner, as long as no coroutine calls lock() again before its
-- unlock() and none has the id that m_fiber_id was made with: from a state so reached, an action of such
-- a coroutine leaves the owner and what this coroutine owns as they are, or takes the lock for it when
-- nobody has it, or gives it back when this coroutine has it.
pub step-Locks :
    (memory i : ℕ) (s : CoMutex) {t : CoMutex}
    → Reach (locks_once memory) (fresh memory) s
    → 0 < i
    → (memory == i) ≡ false
    → step next i s ≡ some t
    → Locks i s t
unfolding step
step-Locks memory i s r pos mine h =
    act-Locks memory i s pos mine (Reach-Owned memory r) (s.pc i) refl h
