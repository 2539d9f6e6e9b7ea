-- ===== src/Sync/Counters/Permits.antt =====
-- What CoSemaphore promises, over all orders of the pieces of its wait() and notify().
use acid_compute.Prelude.{
  ℕ, ◌+◌, ◌<◌, ◌≤◌, ◌^◌, Bool, some, ◌≡◌, if◌then◌else◌, length, length-append, get_elem?,
  Option-cases, inl, inr, arith,
}
use mathlib.Core.Path.{subst}
use acid_compute.Sync.Channel.{without}
use acid_compute.Sync.Channel.Delivery.{length-without}
use acid_compute.Sync.Counters.{CoSemaphore, semaphore, acquire, acquire_again, release}

abbrev pub passed : Bool → ℕ
passed b = if b then 1 else 0

-- The semaphores that pieces lead to, with how many wait() have returned and how often notify()
-- was called.
pub data Run (n : ℕ) : ℕ → ℕ → CoSemaphore → Type 0 where
  start : Run n 0 0 (semaphore n)
  waits :
      {a b : ℕ} {s : CoSemaphore} (i : ℕ)
      → Run n a b s
      → Run n (a + passed (acquire i s).1) b (acquire i s).0
  goes_on :
      {a b : ℕ} {s t : CoSemaphore} {r : Bool} (k : ℕ)
      → Run n a b s
      → acquire_again k s ≡ some (t, r)
      → Run n (a + passed r) b t
  notifies : {a b : ℕ} {s : CoSemaphore} → Run n a b s → Run n a (b + 1) (release s)

pub record IsFair (n a b k : ℕ) (s : CoSemaphore) : Type 0 where
  pub total : s.num ≡ n
  pub bounded : s.used ≤ n
  pub counted : a ≤ s.used + b
  pub wakes : 0 < length s.cond.wait_queue → n ≤ s.used + length s.woken + k

acquire-IsFair :
    {n a b : ℕ} (i : ℕ) (s : CoSemaphore)
    → n < 2 ^ 32
    → IsFair n a b 1 s
    → IsFair n (a + passed (acquire i s).1) b 0 (acquire i s).0
unfolding acquire
acquire-IsFair i s small v = ground arith

acquire_again-IsFair :
    {n a b : ℕ} (k : ℕ) (s : CoSemaphore) {t : CoSemaphore} {r : Bool}
    → n < 2 ^ 32
    → acquire_again k s ≡ some (t, r)
    → IsFair n a b 0 s
    → IsFair n (a + passed r) b 0 t
unfolding acquire_again
acquire_again-IsFair {n} {a} {b} k s small e v = elim (Option-cases (get_elem? s.woken k)) [
  | inl h ↦ absurd (ground arith)
  | inr (i, h) ↦
      subst (λ (x : CoSemaphore × Bool). IsFair n (a + passed x.1) b 0 x.0) (ground arith)
        (acquire-IsFair i (record s { woken = without k s.woken }) small
          (ground (arith, length-without k s.woken h)))
]

release-IsFair : {n a b : ℕ} (s : CoSemaphore) → IsFair n a b 0 s → IsFair n a (b + 1) 0 (release s)
unfolding release
release-IsFair s v = grind (arith, length-append)

semaphore-IsFair : (n : ℕ) → IsFair n 0 0 0 (semaphore n)
unfolding semaphore
semaphore-IsFair n = ground arith

loosen : {n a b : ℕ} {s : CoSemaphore} → IsFair n a b 0 s → IsFair n a b 1 s
loosen v = ground arith

Run-kept : (n a b : ℕ) (s : CoSemaphore) → n < 2 ^ 32 → Run n a b s → IsFair n a b 0 s
Run-kept n _ _ _ small start = semaphore-IsFair n
Run-kept n _ _ _ small (waits i r) = acquire-IsFair i _ small (loosen (Run-kept n _ _ _ small r))
Run-kept n _ _ _ small (goes_on k r e) = acquire_again-IsFair k _ small e (Run-kept n _ _ _ small r)
Run-kept n _ _ _ small (notifies r) = release-IsFair _ (Run-kept n _ _ _ small r)

-- A semaphore of n permits, over all orders of wait() and notify(): the permits in use are at most n,
-- at most n more wait() have returned than notify() were called, and while a coroutine waits, the
-- permits in use and the scheduled coroutines together are at least n.
pub Run-IsFair :
    (n a b : ℕ) (s : CoSemaphore) → n < 2 ^ 32 → Run n a b s → IsFair n a b 0 s × (a ≤ n + b)
Run-IsFair n a b s small r =
    let v = Run-kept n a b s small r in (v, omega (arith, v.counted, v.bounded))
