-- ===== src/Rpc/Routing.antt =====
-- acid/rpc/route_strategy.h: how a client chooses one of the addresses of a service.
pub mod Rounds
use acid_compute.Prelude.{
  ℕ, zero, suc, ◌%◌, ◌^◌, Bool, true, Option, none, some, List, [], ◌∷◌, ltb, leb, ◌==◌,
  if◌then◌else◌, length, get_elem?,
}
use acid_compute.Outcome.{Outcome, ok, out_of_range, undefined, ◌>>=◌}

pub data Strategy : Type 0 where
  random polling haship : Strategy

-- A RouteStrategy object; the polling one keeps m_index.
pub data RouteStrategy : Type 0 where
  random_strategy : RouteStrategy
  polling_strategy : ℕ → RouteStrategy
  hash_ip_strategy : RouteStrategy

unfoldable pub query_strategy : Strategy → RouteStrategy
query_strategy random = random_strategy
query_strategy polling = polling_strategy 0
query_strategy haship = hash_ip_strategy

-- `index >= static_cast<int>(size)`, for an index that is not negative: the cast keeps 32 bits, of
-- which the highest is the sign.
unfoldable pub past_end : ℕ → ℕ → Bool
past_end index size = let n = size % 2 ^ 32 in if leb (2 ^ 31) n then true else leb n index

-- The index that a call of the polling strategy takes.
unfoldable pub start_index : ℕ → ℕ → ℕ
start_index index size = if past_end index size then 0 else index

module _ {ℓ} {A : Type ℓ} where
  -- vector::at, and operator[], which does not look at the bound.
  unfoldable pub at_index : ℕ → List A → Outcome A
  at_index i xs = elim (get_elem? xs i) [ none ↦ out_of_range | some x ↦ ok x ]

  unfoldable pub operator_index : ℕ → List A → Outcome A
  operator_index i xs = elim (get_elem? xs i) [ none ↦ undefined | some x ↦ ok x ]

  -- The result and m_index after it.
  unfoldable pub select_polling : ℕ → List A → Outcome (A × ℕ)
  select_polling index xs = do
    let i = start_index index (length xs)
    x ← at_index i xs
    ok (x, suc i)

  -- `rand` is what rand() gives. A remainder by 0 is undefined.
  unfoldable pub select_random : ℕ → List A → Outcome A
  unfolding operator_index
  select_random rand xs =
      let found = operator_index (rand % length xs) xs in
      if length xs == 0 then undefined else found

  unfoldable pub select : ℕ → List A → RouteStrategy → Outcome (A × RouteStrategy)
  unfolding select_polling select_random
  select rand xs random_strategy = do x ← select_random rand xs; ok (x, random_strategy)
  select rand xs (polling_strategy index) = do
    (x, index') ← select_polling index xs
    ok (x, polling_strategy index')
  select rand xs hash_ip_strategy = do x ← at_index 0 xs; ok (x, hash_ip_strategy)

  -- What `k` calls of `select` with the same list give.
  unfoldable pub select_times : ℕ → (ℕ → ℕ) → List A → RouteStrategy → Outcome (List A)
  unfolding select
  select_times zero rands xs s = ok []
  select_times (suc k) rands xs s = do
    (y, s') ← select (rands k) xs s
    ys ← select_times k rands xs s'
    ok (y ∷ ys)
