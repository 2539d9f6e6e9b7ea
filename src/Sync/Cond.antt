-- ===== src/Sync/Cond.antt =====
-- CoCond of acid/common/co_mutex.{h,cpp}: the coroutines that wait, in the order in which they came,
-- and whether m_timer holds the timer that keeps the scheduler from stopping. Each function is what
-- runs under m_mutex; what it schedules is its second result. F is the type of a suspended
-- coroutine with what its frame holds.
use acid_compute.Prelude.{Bool, true, false, List, [], ◌∷◌, ◌++◌}

pub record CoCond (F : Type 0) : Type 0 where
  pub wait_queue : List F
  pub timer : Bool

module _ {F : Type 0} where
  abbrev pub quiet : CoCond F
  quiet = record { wait_queue = []; timer = false }

  abbrev pub notify_waiting : List F → CoCond F → CoCond F × List F
  notify_waiting [] c = (c, [])
  notify_waiting (f ∷ fs) c = (record { wait_queue = fs; timer = false }, f ∷ [])

  unfoldable pub notify : CoCond F → CoCond F × List F
  notify c = notify_waiting c.wait_queue c

  unfoldable pub notify_all : CoCond F → CoCond F × List F
  notify_all c = (record { wait_queue = []; timer = false }, c.wait_queue)

  -- wait(), up to its yield.
  unfoldable pub enqueue : F → CoCond F → CoCond F
  enqueue f c = record { wait_queue = c.wait_queue ++ (f ∷ []); timer = true }
