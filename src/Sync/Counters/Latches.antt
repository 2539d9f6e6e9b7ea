-- ===== src/Sync/Counters/Latches.antt =====
-- What CoCountDownLatch promises, over all orders of the pieces of its wait() and count_down().
use acid_compute.Prelude.{
  ℕ, ◌+◌, ◌<◌, some, ◌≡◌, length, length-append, arith, get_elem?, Option-cases, inl, inr,
}
use mathlib.Core.Path.{subst}
use acid_compute.Sync.Channel.{without}
use acid_compute.Sync.Channel.Delivery.{length-without}
use acid_compute.Sync.Counters.{CoCountDownLatch, latch, await, await_again, count_down}
use acid_compute.Sync.Counters.Permits.{passed}

-- The latches that pieces lead to, with how often wait() was called, how often one has returned,
-- and how often count_down() gave true.
pub data Run (n : ℕ) : ℕ → ℕ → ℕ → CoCountDownLatch → Type 0 where
  start : Run n 0 0 0 (latch n)
  waits :
      {w r d : ℕ} {l : CoCountDownLatch} (i : ℕ)
      → Run n w r d l
      → Run n (w + 1) (r + passed (await i l).1) d (await i l).0
  goes_on :
      {w r d : ℕ} {l m : CoCountDownLatch} (k : ℕ)
      → Run n w r d l
      → await_again k l ≡ some m
      → Run n w (r + 1) d m
  counts :
      {w r d : ℕ} {l : CoCountDownLatch}
      → Run n w r d l
      → Run n w r (d + passed (count_down l).1) (count_down l).0

pub record Opens (n w r d : ℕ) (l : CoCountDownLatch) : Type 0 where
  pub counted : d + l.count ≡ n
  pub everyone : w ≡ r + length l.cond.wait_queue + length l.woken
  pub shut : 0 < l.count → r + length l.woken ≡ 0
  pub opened : l.count ≡ 0 → length l.cond.wait_queue ≡ 0

await-Opens :
    {n w r d : ℕ} (i : ℕ) (l : CoCountDownLatch)
    → Opens n w r d l
    → Opens n (w + 1) (r + passed (await i l).1) d (await i l).0
unfolding await
await-Opens i l v = grind (arith, length-append)

await_again-Opens :
    {n w r d : ℕ} (k : ℕ) (l : CoCountDownLatch) {m : CoCountDownLatch}
    → await_again k l ≡ some m
    → Opens n w r d l
    → Opens n w (r + 1) d m
unfolding await_again
await_again-Opens {n} {w} {r} {d} k l e v = elim (Option-cases (get_elem? l.woken k)) [
  | inl h ↦ absurd (ground arith)
  | inr (i, h) ↦
      let next = record l { woken = without k l.woken } in
      let still : Opens n w (r + 1) d next = ground (arith, length-without k l.woken h) in
      subst (λ x. Opens n w (r + 1) d x) (ground arith) still
]

count_down-Opens :
    {n w r d : ℕ} (l : CoCountDownLatch)
    → Opens n w r d l
    → Opens n w r (d + passed (count_down l).1) (count_down l).0
unfolding count_down
count_down-Opens l v = grind (arith, length-append)

latch-Opens : (n : ℕ) → Opens n 0 0 0 (latch n)
unfolding latch
latch-Opens n = ground arith

-- A latch of n, over all orders of wait() and count_down(): count_down() has given true exactly n
-- less the count times; no wait() returns, and no waiting coroutine is scheduled, before the count
-- is 0, and when it is, nobody is left waiting: who called wait() has returned or is scheduled.
pub Run-Opens : (n w r d : ℕ) (l : CoCountDownLatch) → Run n w r d l → Opens n w r d l
Run-Opens n _ _ _ _ start = latch-Opens n
Run-Opens n _ _ _ _ (waits i h) = await-Opens i _ (Run-Opens n _ _ _ _ h)
Run-Opens n _ _ _ _ (goes_on k h e) = await_again-Opens k _ e (Run-Opens n _ _ _ _ h)
Run-Opens n _ _ _ _ (counts h) = count_down-Opens _ (Run-Opens n _ _ _ _ h)
