-- ===== src/Samples/Fibers.antt =====
-- Coroutines that share a lock, a channel, a semaphore and a latch.
use acid_compute.Prelude.{ℕ, false, Option, some, none, List, [], ◌∷◌, ◌++◌, ◌≡◌, refl, arith}
use acid_compute.Sync.Mutex.{
  CoMutex, next, relock, held, locks_once, Reach, here, fresh, step, act, blocked,
}
use acid_compute.Sync.Mutex.Exclusion.{mutual_exclusion, Locks, step-Locks}
use acid_compute.Sync.Mutex.Sleep.{run, AllAllowed, run-Reach, lost_wakeup}
use acid_compute.Sync.Mutex.Reentry.{reentry_admits}
use acid_compute.Sync.Channel.{Channel, open_channel, push, pop}
use acid_compute.Sync.Channel.Delivery
use acid_compute.Sync.Channel.Delivery.{IsSound, Run-IsSound}
use acid_compute.Sync.Channel.Fifo.{fifo_order}
use acid_compute.Sync.Counters.{
  CoSemaphore, semaphore, acquire, release, CoCountDownLatch, latch, await, count_down,
}
use acid_compute.Sync.Counters.Permits
use acid_compute.Sync.Counters.Latches
use acid_compute.Sync.Counters.Permits.{Run-IsFair}
use acid_compute.Sync.Counters.Latches.{Run-Opens}

abbrev new_mutex : CoMutex
new_mutex = fresh 77

abbrev else_fresh : Option CoMutex → CoMutex
else_fresh none = new_mutex
else_fresh (some s) = s

-- 1 has the lock, 2 has seen that m_mutex is taken, and 1 is in its unlock().
abbrev turns : List ℕ
turns = 1 ∷ 1 ∷ 1 ∷ 1 ∷ 2 ∷ 2 ∷ 2 ∷ 1 ∷ 1 ∷ 1 ∷ 1 ∷ 1 ∷ []

abbrev between : CoMutex
between = else_fresh (run turns new_mutex)

turns-AllAllowed : AllAllowed (locks_once 77) turns
turns-AllAllowed = (
  omega arith,
  refl,
  (
    omega arith,
    refl,
    (
      omega arith,
      refl,
      (
        omega arith,
        refl,
        (
          omega arith,
          refl,
          (
            omega arith,
            refl,
            (
              omega arith,
              refl,
              (
                omega arith,
                refl,
                (
                  omega arith,
                  refl,
                  (omega arith, refl, (omega arith, refl, (omega arith, refl, tt))),
                ),
              ),
            ),
          ),
        ),
      ),
    ),
  ),
)

between-Reach : Reach (locks_once 77) new_mutex between
unfolding run step act fresh
between-Reach = run-Reach (locks_once 77) turns turns-AllAllowed here refl

mutual_exclusion_example : ◌≡◌ {A = ℕ} 1 1
unfolding run step act fresh
mutual_exclusion_example = mutual_exclusion 77 between 1 1 between-Reach refl refl

step-Locks_example : Locks 1 between (else_fresh (step next 1 between))
unfolding run step act fresh
step-Locks_example = step-Locks 77 1 between between-Reach (omega arith) refl refl

lost_wakeup_example :
    (t : CoMutex) × (run (2 ∷ 2 ∷ 2 ∷ 2 ∷ 1 ∷ 1 ∷ []) between ≡ some t)
    × (t.mutex ≡ none)
    × (t.wait_queue ≡ between.wait_queue ++ (2 ∷ []))
    × (t.pc 2 ≡ blocked)
    × (step next 2 t ≡ none)
unfolding run step act fresh
lost_wakeup_example = lost_wakeup 2 1 between (omega arith) refl refl refl refl refl

-- 1 has the lock and 2 tries to take it.
abbrev contested : CoMutex
contested = else_fresh (run (1 ∷ 1 ∷ 1 ∷ 1 ∷ 2 ∷ 2 ∷ []) new_mutex)

reentry_admits_example :
    (a : CoMutex) × (t : CoMutex) × (step relock 1 contested ≡ some a)
    × (run (1 ∷ 1 ∷ 1 ∷ 1 ∷ 1 ∷ 1 ∷ 1 ∷ 1 ∷ 2 ∷ 2 ∷ []) a ≡ some t)
    × (t.pc 1 ≡ held)
    × (t.pc 2 ≡ held)
    × (t.depth 1 ≡ 1)
    × (t.mutex ≡ some 2)
unfolding run step act fresh
reentry_admits_example =
    reentry_admits 1 2 contested (omega arith) refl refl refl refl refl refl refl

-- Coroutine 1 sends 5, 6 into one place and waits with the second; 2 receives.
abbrev sending : Channel ℕ
sending = (pop 2 (push 1 6 (push 1 5 (open_channel 1)).0).0).0

sending-Run : Delivery.Run 1 (5 ∷ []) (5 ∷ []) sending
unfolding push pop open_channel
sending-Run = Delivery.pops 2 (Delivery.pushes 1 6 (Delivery.pushes 1 5 Delivery.start))

fifo_order_example :
    (rest : List ℕ) × (5 ∷ [] ≡ 5 ∷ rest) × (sending.is_close ≡ false → rest ≡ sending.queue)
unfolding push pop open_channel
fifo_order_example = fifo_order 1 (5 ∷ []) (5 ∷ []) sending sending-Run

-- 2 and 3 wait for a value, and 1 sends one.
abbrev serving : Channel ℕ
serving = (push 1 7 (pop 3 (pop 2 (open_channel 4)).0).0).0

serving-Run : Delivery.Run 4 (7 ∷ []) [] serving
unfolding push pop open_channel
serving-Run = Delivery.pushes 1 7 (Delivery.pops 3 (Delivery.pops 2 Delivery.start))

abbrev one_permit : CoSemaphore
one_permit = release (acquire 2 (acquire 1 (semaphore 1)).0).0

one_permit-Run : Permits.Run 1 1 1 one_permit
unfolding acquire semaphore
one_permit-Run = Permits.notifies (Permits.waits 2 (Permits.waits 1 Permits.start))

abbrev counted : CoCountDownLatch
counted = (count_down (await 2 (latch 1)).0).0

counted-Run : Latches.Run 1 1 0 1 counted
unfolding await latch count_down
counted-Run = Latches.counts (Latches.waits 2 Latches.start)

Run-Opens_example : Latches.Opens 1 1 0 1 counted
Run-Opens_example = Run-Opens 1 1 0 1 counted counted-Run
