-- ===== src/Rpc/Registry/Iterators.antt =====
-- The iterators of m_iters and the entries of m_services.
use acid_compute.Prelude.{
  ℕ, ◌≡◌, refl, Bool, true, false, Option, none, some, List, [], ◌∷◌, ◌++◌, ◌==◌, if◌then◌else◌,
  arith,
}
use acid_compute.Outcome.{ok}
use acid_compute.Http.Servlets.{same}
use acid_compute.Http.Servlets.Maps.{same_refl, same→≡}
use acid_compute.Rpc.Registry.{Service, emplace, erase_service, push_iter, find_iters, erase_iters}

abbrev pub has : ℕ → List ℕ → Bool
has k [] = false
has k (j ∷ js) = if k == j then true else has k js

abbrev pub IsNodup : List ℕ → Type 0
IsNodup [] = Unit
IsNodup (k ∷ ks) = (has k ks ≡ false) × IsNodup ks

-- The address of an entry.
abbrev pub owner : ℕ → List Service → Option (List ℕ)
owner k [] = none
owner k (y ∷ ys) = if y.id == k then some y.address else owner k ys

abbrev pub IsUnique : List Service → Type 0
IsUnique [] = Unit
IsUnique (y ∷ ys) = (owner y.id ys ≡ none) × IsUnique ys

abbrev pub ids_of : Option (List ℕ) → List ℕ
ids_of none = []
ids_of (some ks) = ks

abbrev pub IsKeyed : List (List ℕ × List ℕ) → Type 0
IsKeyed [] = Unit
IsKeyed ((a, ks) ∷ m) = (find_iters a m ≡ none) × IsKeyed m

-- The entries whose id does not satisfy a test.
abbrev pub dropped : (ℕ → Bool) → List Service → List Service
dropped p [] = []
dropped p (y ∷ ys) = let rest = dropped p ys in if p y.id then rest else y ∷ rest

pub owner-emplace :
    (k : ℕ) (x : Service) (svc : List Service)
    → owner x.id svc ≡ none
    → owner k (emplace x svc) ≡ (if x.id == k then some x.address else owner k svc)
unfolding emplace
owner-emplace k x [] e = refl
owner-emplace k x (y ∷ ys) e = ground (arith, owner-emplace k x ys)

pub emplace-IsUnique :
    (x : Service) (svc : List Service)
    → owner x.id svc ≡ none
    → IsUnique svc
    → IsUnique (emplace x svc)
unfolding emplace
emplace-IsUnique x [] e u = (refl, tt)
emplace-IsUnique x (y ∷ ys) e u = ground (arith, emplace-IsUnique x ys, owner-emplace y.id x ys)

pub has-append :
    (k j : ℕ) (ks : List ℕ) → has k (ks ++ (j ∷ [])) ≡ (if k == j then true else has k ks)
has-append k j [] = refl
has-append k j (i ∷ ks) = ground (arith, has-append k j ks)

pub append-IsNodup :
    (j : ℕ) (ks : List ℕ) → has j ks ≡ false → IsNodup ks → IsNodup (ks ++ (j ∷ []))
append-IsNodup j [] h n = (refl, tt)
append-IsNodup j (i ∷ ks) h n = ground (arith, append-IsNodup j ks, has-append i j ks)

pub find-push :
    (a b : List ℕ) (k : ℕ) (m : List (List ℕ × List ℕ))
    → ids_of (find_iters a (push_iter b k m))
      ≡ (if same a b then ids_of (find_iters a m) ++ (k ∷ []) else ids_of (find_iters a m))
unfolding find_iters push_iter
find-push a b k [] = ground arith
find-push a b k ((c, ks) ∷ m) =
    ground (arith, find-push a b k m, same→≡ a b, same→≡ b c, same→≡ a c, same_refl c, same_refl b)

not_pushed :
    (a b : List ℕ) (k : ℕ) (m : List (List ℕ × List ℕ))
    → same a b ≡ false
    → find_iters a m ≡ none
    → find_iters a (push_iter b k m) ≡ none
unfolding find_iters push_iter
not_pushed a b k [] h e = ground arith
not_pushed a b k ((c, ks) ∷ m) h e = ground (arith, not_pushed a b k m)

pub push-IsKeyed :
    (b : List ℕ) (k : ℕ) (m : List (List ℕ × List ℕ)) → IsKeyed m → IsKeyed (push_iter b k m)
unfolding push_iter find_iters
push-IsKeyed b k [] v = ground arith
push-IsKeyed b k ((c, ks) ∷ m) v =
    ground (arith, push-IsKeyed b k m, not_pushed c b k m, same→≡ c b, same_refl b)

pub find-erase :
    (a b : List ℕ) (m : List (List ℕ × List ℕ))
    → IsKeyed m
    → find_iters a (erase_iters b m) ≡ (if same a b then none else find_iters a m)
unfolding find_iters erase_iters
find-erase a b [] v = ground arith
find-erase a b ((c, ks) ∷ m) v =
    ground (arith, find-erase a b m, same→≡ a b, same→≡ b c, same→≡ a c, same_refl c)

pub erase-IsKeyed :
    (b : List ℕ) (m : List (List ℕ × List ℕ)) → IsKeyed m → IsKeyed (erase_iters b m)
unfolding erase_iters
erase-IsKeyed b [] v = tt
erase-IsKeyed b ((c, ks) ∷ m) v = ground (arith, erase-IsKeyed b m, find-erase c b m)

pub owner-dropped :
    (k : ℕ) (p : ℕ → Bool) (svc : List Service)
    → owner k (dropped p svc) ≡ (if p k then none else owner k svc)
owner-dropped k p [] = ground arith
owner-dropped k p (y ∷ ys) = ground (arith, owner-dropped k p ys)

pub dropped-IsUnique : (p : ℕ → Bool) (svc : List Service) → IsUnique svc → IsUnique (dropped p svc)
dropped-IsUnique p [] u = tt
dropped-IsUnique p (y ∷ ys) u = ground (arith, dropped-IsUnique p ys, owner-dropped y.id p ys)

dropped_nothing :
    (k : ℕ) (svc : List Service) → owner k svc ≡ none → dropped (λ i. i == k) svc ≡ svc
dropped_nothing k [] e = refl
dropped_nothing k (y ∷ ys) e = ground (arith, dropped_nothing k ys)

pub erase-dropped :
    (k : ℕ) (a : List ℕ) (svc : List Service)
    → IsUnique svc
    → owner k svc ≡ some a
    → erase_service k svc ≡ ok (dropped (λ i. i == k) svc)
unfolding erase_service
erase-dropped k a [] u e = absurd (ground arith)
erase-dropped k a (y ∷ ys) u e = ground (arith, erase-dropped k a ys, dropped_nothing k ys)

pub dropped-dropped :
    (k : ℕ) (ks : List ℕ) (svc : List Service)
    → dropped (λ i. has i ks) (dropped (λ i. i == k) svc) ≡ dropped (λ i. has i (k ∷ ks)) svc
dropped-dropped k ks [] = refl
dropped-dropped k ks (y ∷ ys) = ground (arith, dropped-dropped k ks ys)
