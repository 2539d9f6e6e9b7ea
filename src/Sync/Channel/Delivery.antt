-- ===== src/Sync/Channel/Delivery.antt =====
-- What a ChannelImpl delivers, over all orders of the pieces of push(), pop() and close().
use mathlib.Core.Path.{subst}
use acid_compute.Prelude.{
  ℕ, zero, suc, ◌+◌, ◌<◌, ◌≤◌, true, false, some, List, [], ◌∷◌, ◌++◌, ◌≡◌, refl, ap, Bool-cases,
  inl, inr, Option-cases, length, length-append, get_elem?, arith,
}
use acid_compute.Sync.Cond.{notify}
use acid_compute.Sync.Channel.{
  Channel, Ending, accepted, received, open_channel, push, pop, push_again, pop_again, close,
  without, take_front,
}

pub length-without :
    {A : Type 0} (k : ℕ) (ws : List A) {w : A}
    → get_elem? ws k ≡ some w
    → length (without k ws) + 1 ≡ length ws
length-without k [] e = ground arith
length-without zero (x ∷ ws) e = omega arith
length-without (suc k) (x ∷ ws) e = omega (arith, length-without k ws e)

module _ {A : Type 0} where
  abbrev pub sent : Ending A → List A
  sent (accepted x) = x ∷ []
  sent a = []

  abbrev pub got : Ending A → List A
  got (received x) = x ∷ []
  got a = []

  -- The channels that pieces lead to, with the values accepted and received on the way.
  pub data Run (n : ℕ) : List A → List A → Channel A → Type 0 where
    start : Run n [] [] (open_channel n)
    pushes :
        {ps qs : List A} {c : Channel A} (i : ℕ) (x : A)
        → Run n ps qs c
        → Run n (ps ++ sent (push i x c).1) qs (push i x c).0
    pops :
        {ps qs : List A} {c : Channel A} (i : ℕ)
        → Run n ps qs c
        → Run n ps (qs ++ got (pop i c).1) (pop i c).0
    pushes_again :
        {ps qs : List A} {c d : Channel A} {r : Ending A} (k : ℕ)
        → Run n ps qs c
        → push_again k c ≡ some (d, r)
        → Run n (ps ++ sent r) qs d
    pops_again :
        {ps qs : List A} {c d : Channel A} {r : Ending A} (k : ℕ)
        → Run n ps qs c
        → pop_again k c ≡ some (d, r)
        → Run n ps (qs ++ got r) d
    closes : {ps qs : List A} {c : Channel A} → Run n ps qs c → Run n ps qs (close c)

  -- `a` and `b` coroutines that are about to go on are left out of the counts.
  pub record IsSound (n a b : ℕ) (c : Channel A) : Type 0 where
    pub sized : c.capacity ≡ n
    pub bounded : length c.queue ≤ n
    pub closed_queue : c.is_close ≡ true → length c.queue ≡ 0
    pub closed_push : c.is_close ≡ true → length c.push_cond.wait_queue ≡ 0
    pub closed_pop : c.is_close ≡ true → length c.pop_cond.wait_queue ≡ 0
    pub wakes_push : 0 < length c.push_cond.wait_queue → n ≤ length c.queue + length c.pushing + a
    pub wakes_pop : 0 < length c.pop_cond.wait_queue → length c.queue ≤ length c.popping + b

  push-IsSound :
      {n : ℕ} (i : ℕ) (x : A) (c : Channel A) → IsSound n 1 0 c → IsSound n 0 0 (push i x c).0
  unfolding push
  push-IsSound i x c v =
      ground (arith, length-append c.queue (x ∷ []), length-append c.popping (notify c.pop_cond).1)

  weaken_push : {n : ℕ} {c : Channel A} → IsSound n 0 0 c → IsSound n 1 0 c
  weaken_push v = ground arith

  weaken_pop : {n : ℕ} {c : Channel A} → IsSound n 0 0 c → IsSound n 0 1 c
  weaken_pop v = ground arith

  take_front-IsSound :
      {n : ℕ} (i : ℕ) (xs : List A) (c : Channel A)
      → c.queue ≡ xs
      → c.is_close ≡ false
      → IsSound n 0 1 c
      → IsSound n 0 0 (take_front i xs c).0
  unfolding take_front
  take_front-IsSound i [] c e o v = grind (arith, length-append, ap length e)
  take_front-IsSound i (x ∷ xs) c e o v = grind (arith, length-append, ap length e)

  pop-IsSound : {n : ℕ} (i : ℕ) (c : Channel A) → IsSound n 0 1 c → IsSound n 0 0 (pop i c).0
  unfolding pop
  pop-IsSound i c v = elim (Bool-cases c.is_close) [
    | inl e ↦ simp e (ground arith)
    | inr e ↦ simp e (take_front-IsSound i c.queue c refl e v)
  ]

  close-IsSound : {n : ℕ} (c : Channel A) → IsSound n 0 0 c → IsSound n 0 0 (close c)
  unfolding close
  close-IsSound c v = ground arith

  pub push_again_cases :
      (k : ℕ) (c : Channel A) {d : Channel A} {r : Ending A}
      → push_again k c ≡ some (d, r)
      → (i : ℕ) × (x : A) × (get_elem? c.pushing k ≡ some (i, x))
        × (push i x (record c { pushing = without k c.pushing }) ≡ (d, r))
  unfolding push_again
  push_again_cases k c e = elim (Option-cases (get_elem? c.pushing k)) [
    | inl h ↦ absurd (ground arith)
    | inr ((i, x), h) ↦ (i, x, h, ground arith)
  ]

  pub pop_again_cases :
      (k : ℕ) (c : Channel A) {d : Channel A} {r : Ending A}
      → pop_again k c ≡ some (d, r)
      → (i : ℕ) × (get_elem? c.popping k ≡ some i)
        × (pop i (record c { popping = without k c.popping }) ≡ (d, r))
  unfolding pop_again
  pop_again_cases k c e = elim (Option-cases (get_elem? c.popping k)) [
    | inl h ↦ absurd (ground arith)
    | inr (i, h) ↦ (i, h, ground arith)
  ]

  push_again-IsSound :
      {n : ℕ} (k : ℕ) (c : Channel A) {d : Channel A} {r : Ending A}
      → push_again k c ≡ some (d, r)
      → IsSound n 0 0 c
      → IsSound n 0 0 d
  push_again-IsSound {n} k c e v =
      let (i, x, h, q) = push_again_cases k c e in
      subst (λ a. IsSound n 0 0 a.0) q
        (push-IsSound i x _ (ground (arith, length-without k c.pushing h)))

  pop_again-IsSound :
      {n : ℕ} (k : ℕ) (c : Channel A) {d : Channel A} {r : Ending A}
      → pop_again k c ≡ some (d, r)
      → IsSound n 0 0 c
      → IsSound n 0 0 d
  pop_again-IsSound {n} k c e v =
      let (i, h, q) = pop_again_cases k c e in
      subst (λ a. IsSound n 0 0 a.0) q
        (pop-IsSound i _ (ground (arith, length-without k c.popping h)))

  open_channel-IsSound : (n : ℕ) → IsSound n 0 0 (open_channel {A = A} n)
  unfolding open_channel
  open_channel-IsSound n = ground arith

  -- In every channel that pieces of push(), pop() and close() lead to, in any order, at most
  -- `capacity` values are queued, and a closed one holds none and lets nobody wait; while a coroutine
  -- waits in pop() there are at least as many scheduled ones as values, and while one waits in push()
  -- the values and the scheduled senders together are at least as many as the capacity.
  pub Run-IsSound : (n : ℕ) (ps qs : List A) (c : Channel A) → Run n ps qs c → IsSound n 0 0 c
  Run-IsSound n _ _ _ start = open_channel-IsSound n
  Run-IsSound n _ _ _ (pushes i x r) = push-IsSound i x _ (weaken_push (Run-IsSound n _ _ _ r))
  Run-IsSound n _ _ _ (pops i r) = pop-IsSound i _ (weaken_pop (Run-IsSound n _ _ _ r))
  Run-IsSound n _ _ _ (pushes_again k r e) = push_again-IsSound k _ e (Run-IsSound n _ _ _ r)
  Run-IsSound n _ _ _ (pops_again k r e) = pop_again-IsSound k _ e (Run-IsSound n _ _ _ r)
  Run-IsSound n _ _ _ (closes r) = close-IsSound _ (Run-IsSound n _ _ _ r)
