-- ===== src/Samples/Services.antt =====
-- Runs of acid/http/servlet.cpp and acid/rpc/route_strategy.h, and their theorems at small inputs.
use acid_compute.Prelude.{
  ℕ, ◌+◌, ◌%◌, ◌<◌, ◌≡◌, ◌⊎◌, refl, arith, [], ◌∷◌, List, Bool, true, false, none, some,
  if◌then◌else◌, length, get_elem?,
}
use acid_compute.Outcome.{ok, undefined, out_of_range}
use acid_compute.Http.Servlets.{
  held, created, not_found, create, same, ServletDispatch, make_dispatch, add_servlet,
  add_servlet_creator, add_glob_servlet, del_servlet, del_glob_servlet, get_servlet,
  get_glob_servlet, handle, find,
}
use acid_compute.Http.Servlets.Dispatch.{IsValid, tables_updated}
use acid_compute.Rpc.Routing.{
  polling, query_strategy, RouteStrategy, random_strategy, polling_strategy, select, select_times,
  start_index, past_end, at_index,
}
use acid_compute.Rpc.Routing.Rounds.{select_found, polling_rounds}

-- A pattern that ends in a star, for the first bytes; a stand-in for fnmatch.
abbrev glob : List ℕ → List ℕ → Bool
glob [] [] = true
glob [] (y ∷ ys) = false
glob (x ∷ xs) [] = false
glob (x ∷ xs) (y ∷ ys) = if same (x ∷ []) (42 ∷ []) then true else glob xs ys

abbrev home : List ℕ
home = 47 ∷ 97 ∷ []

abbrev below_home : List ℕ
below_home = 47 ∷ 42 ∷ []

abbrev served : ServletDispatch
served = add_glob_servlet below_home (held 2) (add_servlet home (held 1) make_dispatch)

served-IsValid : IsValid served
unfolding add_servlet add_glob_servlet make_dispatch
served-IsValid = record { datas = (unfold find in refl, tt); globs = (unfold find in refl, tt) }

dispatched :
    (handle glob home served ≡ (held 1, 0))
    × (handle glob (47 ∷ 98 ∷ []) served ≡ (held 2, 0))
    × (handle glob (98 ∷ []) served ≡ (not_found, 0))
    × (get_servlet home (add_servlet_creator home (create 5) served) ≡ some (created 5))
unfolding handle add_servlet add_glob_servlet make_dispatch get_servlet
dispatched = (refl, refl, refl, refl)

tables_updated_example :
    (IsValid (add_servlet home (held 3) served)
      × IsValid (add_glob_servlet home (held 3) served)
      × IsValid (del_servlet home served)
      × IsValid (del_glob_servlet home served))
    × (get_servlet home (add_servlet home (held 3) served)
        ≡ (if same home home then some (held 3) else get_servlet home served))
    × (get_servlet home (del_servlet home served)
        ≡ (if same home home then none else get_servlet home served))
    × (get_glob_servlet home (add_glob_servlet home (held 3) served)
        ≡ (if same home home then some (held 3) else get_glob_servlet home served))
    × (get_glob_servlet home (del_glob_servlet home served)
        ≡ (if same home home then none else get_glob_servlet home served))
tables_updated_example = tables_updated home home (held 3) served served-IsValid

abbrev addresses : List ℕ
addresses = 11 ∷ 12 ∷ 13 ∷ []

five_calls :
    select_times 5 (λ k. k) addresses (query_strategy polling) ≡ ok (11 ∷ 12 ∷ 13 ∷ 11 ∷ 12 ∷ [])
unfolding select_times query_strategy start_index past_end at_index
five_calls = refl

select_found_example :
    (0 < 3
      → (x : ℕ) × (i : ℕ) × (s' : RouteStrategy) × (select 5 addresses random_strategy ≡ ok (x, s'))
        × (get_elem? addresses i ≡ some x))
    × (length addresses ≡ 0
        → ((random_strategy ≡ random_strategy) × (select 5 addresses random_strategy ≡ undefined))
          ⊎ (select 5 addresses random_strategy ≡ out_of_range))
select_found_example = select_found 5 addresses random_strategy (omega arith)

polling_rounds_example :
    (ys : List ℕ) × (select_times 5 (λ k. k) addresses (polling_strategy 0) ≡ ok ys)
    × (length ys ≡ 5)
    × ((j : ℕ) → j < 5 → get_elem? ys j ≡ get_elem? addresses ((0 + j) % 3))
polling_rounds_example =
    polling_rounds 5 0 (λ k. k) addresses (omega arith) (omega arith) (omega arith)
