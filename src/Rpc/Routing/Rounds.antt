-- ===== src/Rpc/Routing/Rounds.antt =====
-- Polling goes round the list.
use mathlib.Core.Path.{subst}
use native.Mathlib.Nat.{add-zero, mod-eq_of_lt, mod-add-mod, mod_self}
use acid_compute.Prelude.{
  ℕ, zero, suc, ◌+◌, ◌%◌, ◌^◌, ◌≤◌, ◌<◌, ◌≡◌, refl, sym, ap, ◌∙◌, false, some, List, [], ◌∷◌, arith,
  leb, ◌==◌, length, get_elem?, Bool-cases, inl, inr, ◌⊎◌, leb→le, leb→lt,
}
use acid_compute.Outcome.{ok, out_of_range, undefined}
use acid_compute.Rpc.Routing.{
  RouteStrategy, polling_strategy, hash_ip_strategy, random_strategy, past_end, start_index,
  at_index, operator_index, select_polling, select_random, select, select_times,
}

-- The first step and the ones behind it.
shifted : (n i j : ℕ) → (suc (i % n) + j) % n ≡ (i + suc j) % n
shifted n i j = ap (λ k. k % n) (omega arith) ∙ mod-add-mod i n (suc j)

past_end-leb : (i n : ℕ) → n < 2 ^ 31 → past_end i n ≡ leb n i
unfolding past_end
past_end-leb i n h = ground arith

-- An index up to the length counts as its remainder.
wrapped : (i n : ℕ) → 0 < n → n < 2 ^ 31 → i ≤ n → start_index i n ≡ i % n
unfolding start_index
wrapped i n p s h = elim (Bool-cases (leb n i)) [
  | inl e ↦
      let full : i ≡ n = omega (arith, leb→le n i e) in
      rw (past_end-leb i n s, e) (sym (ap (λ k. k % n) full ∙ mod_self n))
  | inr e ↦ rw (past_end-leb i n s, e) (sym (mod-eq_of_lt (leb→lt n i e)))
]

start_lt : (i n : ℕ) → 0 < n → n < 2 ^ 31 → start_index i n < n
unfolding start_index
start_lt i n p s = elim (Bool-cases (leb n i)) [
  | inl e ↦ rw (past_end-leb i n s, e) p
  | inr e ↦ rw (past_end-leb i n s, e) (leb→lt n i e)
]

module _ {ℓ} {A : Type ℓ} where
  inside : (xs : List A) (i : ℕ) → i < length xs → (x : A) × (get_elem? xs i ≡ some x)
  inside [] i h = absurd (omega arith)
  inside (x ∷ xs) zero h = (x, refl)
  inside (x ∷ xs) (suc i) h = inside xs i (omega arith)

  at_index-ok : (i : ℕ) (xs : List A) (x : A) → get_elem? xs i ≡ some x → at_index i xs ≡ ok x
  unfolding at_index
  at_index-ok i xs x e = rw (at_index, e)

  at_index-empty : (i : ℕ) (xs : List A) → length xs ≡ 0 → at_index i xs ≡ out_of_range
  unfolding at_index
  at_index-empty i [] z = refl
  at_index-empty i (x ∷ xs) z = absurd (omega (arith, z))

  operator_index-ok :
      (i : ℕ) (xs : List A) (x : A) → get_elem? xs i ≡ some x → operator_index i xs ≡ ok x
  unfolding operator_index
  operator_index-ok i xs x e = rw (operator_index, e)

  -- A call of the polling strategy that takes the index `k`.
  polled :
      (rand i k : ℕ) (xs : List A) (x : A)
      → start_index i (length xs) ≡ k
      → get_elem? xs k ≡ some x
      → select rand xs (polling_strategy i) ≡ ok (x, polling_strategy (suc k))
  unfolding select select_polling
  polled rand i k xs x w e = rw (w, at_index-ok k xs x e)

  one_more :
      (k : ℕ) (rands : ℕ → ℕ) (xs ys : List A) (s s' : RouteStrategy) (y : A)
      → select (rands k) xs s ≡ ok (y, s')
      → select_times k rands xs s' ≡ ok ys
      → select_times (suc k) rands xs s ≡ ok (y ∷ ys)
  unfolding select_times
  one_more k rands xs ys s s' y e f = rw (e, f)

  each :
      {k : ℕ} (i : ℕ) (y : A) (ys xs : List A)
      → get_elem? xs (i % length xs) ≡ some y
      → ((j : ℕ) → j < k → get_elem? ys j ≡ get_elem? xs ((suc (i % length xs) + j) % length xs))
      → (j : ℕ) → j < suc k
      → get_elem? (y ∷ ys) j ≡ get_elem? xs ((i + j) % length xs)
  each i y ys xs e r zero l = sym (ap (λ t. get_elem? xs (t % length xs)) (add-zero i) ∙ e)
  each i y ys xs e r (suc j) l = r j (omega arith) ∙ ap (get_elem? xs) (shifted (length xs) i j)

  -- With fewer than 2 ^ 31 addresses and at least one, every strategy, in whatever state and whatever
  -- rand() gives, selects an element of the list. Without an address the polling and the hash strategy throw
  -- out_of_range, and the random one divides by 0.
  pub select_found :
      (rand : ℕ) (xs : List A) (s : RouteStrategy)
      → length xs < 2 ^ 31
      → (0 < length xs
          → (x : A) × (i : ℕ) × (s' : RouteStrategy) × (select rand xs s ≡ ok (x, s'))
            × (get_elem? xs i ≡ some x))
        × (length xs ≡ 0
            → ((s ≡ random_strategy) × (select rand xs s ≡ undefined))
              ⊎ (select rand xs s ≡ out_of_range))
  unfolding select select_polling select_random
  select_found rand xs random_strategy h = (
    λ p.
        let k : ℕ = rand % length xs in
        let (x, e) = inside xs k (omega (arith, p)) in
        let some_left : (length xs == 0) ≡ false = ground (arith, p) in
        (x, k, random_strategy, rw (some_left, operator_index-ok k xs x e), e),
    λ z. inl (refl, rw z),
  )
  select_found rand xs (polling_strategy i) h = (
    λ p.
        let k : ℕ = start_index i (length xs) in
        let (x, e) = inside xs k (start_lt i (length xs) p h) in
        (x, k, polling_strategy (suc k), polled rand i k xs x refl e, e),
    λ z. inr (rw (at_index-empty (start_index i (length xs)) xs z)),
  )
  select_found rand xs hash_ip_strategy h = (
    λ p. let (x, e) = inside xs 0 p in (x, 0, hash_ip_strategy, rw (at_index-ok 0 xs x e), e),
    λ z. inr (rw (at_index-empty 0 xs z)),
  )

  -- The polling strategy, started at an index up to the length of a list that has fewer than 2 ^ 31 elements
  -- and at least one, gives in `k` calls the elements from that index on, round and round.
  pub polling_rounds :
      (k i : ℕ) (rands : ℕ → ℕ) (xs : List A)
      → 0 < length xs
      → length xs < 2 ^ 31
      → i ≤ length xs
      → (ys : List A) × (select_times k rands xs (polling_strategy i) ≡ ok ys)
        × (length ys ≡ k)
        × ((j : ℕ) → j < k → get_elem? ys j ≡ get_elem? xs ((i + j) % length xs))
  unfolding select_times
  polling_rounds zero i rands xs p s h = ([], refl, refl, λ j l. absurd (omega arith))
  polling_rounds (suc k) i rands xs p s h =
      let n : ℕ = length xs in
      let w : start_index i n ≡ i % n = wrapped i n p s h in
      let lt : i % n < n = subst (λ t. t < n) w (start_lt i n p s) in
      let (y, e) = inside xs (i % n) lt in
      let (ys, f, l, r) = polling_rounds k (suc (i % n)) rands xs p s (omega (arith, lt)) in
      (
        y ∷ ys,
        one_more k rands xs ys (polling_strategy i) (polling_strategy (suc (i % n))) y
            (polled (rands k) i (i % n) xs y w e) f,
        omega (arith, l),
        each i y ys xs e r,
      )
