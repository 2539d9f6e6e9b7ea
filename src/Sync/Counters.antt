-- ===== src/Sync/Counters.antt =====
-- CoSemaphore and CoCountDownLatch of acid/common/co_mutex.{h,cpp}. As in a Channel, an operation is
-- one piece of code under m_mutex, and `woken` are the coroutines that notify() has scheduled and
-- that have not gone on. A piece answers whether the operation has returned.
pub mod Permits
pub mod Latches
use acid_compute.Prelude.{
  ℕ, suc, ◌+◌, ◌-◌, ◌%◌, ◌^◌, Bool, true, false, Option, none, some, List, [], ◌∷◌, ◌++◌,
  if◌then◌else◌, leb, ltb, ◌==◌, get_elem?,
}
use acid_compute.Sync.Cond.{CoCond, quiet, notify, notify_all, enqueue}
use acid_compute.Sync.Channel.{without}

pub record CoSemaphore : Type 0 where
  pub num : ℕ
  pub used : ℕ
  pub cond : CoCond ℕ
  pub woken : List ℕ

unfoldable pub semaphore : ℕ → CoSemaphore
semaphore n = record { num = n; used = 0; cond = quiet; woken = [] }

-- wait() up to a wait() of m_cond, or to its end.
unfoldable pub acquire : ℕ → CoSemaphore → CoSemaphore × Bool
unfolding enqueue
acquire i s =
    if leb s.num s.used
    then (record s { cond = enqueue i s.cond }, false)
    else (record s { used = (s.used + 1) % 2 ^ 32 }, true)

unfoldable pub acquire_again : ℕ → CoSemaphore → Option (CoSemaphore × Bool)
unfolding acquire
acquire_again k s = elim (get_elem? s.woken k) [
  | none ↦ none
  | some i ↦ some (acquire i (record s { woken = without k s.woken }))
]

abbrev pub signalled : CoSemaphore → CoCond ℕ × List ℕ → CoSemaphore
signalled s (c, fs) = record s { cond = c; woken = s.woken ++ fs }

unfoldable pub release : CoSemaphore → CoSemaphore
unfolding notify
release s =
    signalled (record s { used = if ltb 0 s.used then s.used - 1 else s.used }) (notify s.cond)

-- A count that starts at 0 or more.
pub record CoCountDownLatch : Type 0 where
  pub count : ℕ
  pub cond : CoCond ℕ
  pub woken : List ℕ

unfoldable pub latch : ℕ → CoCountDownLatch
latch n = record { count = n; cond = quiet; woken = [] }

unfoldable pub await : ℕ → CoCountDownLatch → CoCountDownLatch × Bool
unfolding enqueue
await i l = if l.count == 0 then (l, true) else (record l { cond = enqueue i l.cond }, false)

-- Behind its wait() a coroutine returns at once.
unfoldable pub await_again : ℕ → CoCountDownLatch → Option CoCountDownLatch
await_again k l = elim (get_elem? l.woken k) [
  | none ↦ none
  | some i ↦ some (record l { woken = without k l.woken })
]

unfoldable pub count_down : CoCountDownLatch → CoCountDownLatch × Bool
unfolding notify_all
count_down l =
    if l.count == 0
    then (l, false)
    else if l.count - 1 == 0
    then (
      record l {
        count = l.count - 1;
        cond = (notify_all l.cond).0;
        woken = l.woken ++ (notify_all l.cond).1;
      },
      true,
    )
    else (record l { count = l.count - 1 }, true)
