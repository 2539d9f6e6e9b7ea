-- ===== src/Rpc/Registry/Removal.antt =====
-- What is left when a provider goes away.
use mathlib.Core.Path.{subst}
use acid_compute.Prelude.{
  ℕ, ◌+◌, ◌^◌, ◌<◌, ◌≡◌, refl, sym, ap, Bool, true, false, Option, none, some, List, [], ◌∷◌, ◌++◌,
  ◌==◌, if◌then◌else◌, arith, All, bool_clash, length, length-append,
}
use acid_compute.Outcome.{ok}
use acid_compute.ByteArray.Store.{Endian}
use acid_compute.Http.Servlets.{same}
use acid_compute.Http.Servlets.Maps.{same_refl, same→≡}
use acid_compute.Rpc.Registry.{
  Service, RpcServiceRegistry, Sent, providers, find_iters, erase_iters, unregister_all,
  unregistered, handle_unregidter_service, subscribe_prefix,
}
use acid_compute.Rpc.Registry.Entries.{IsSorted, NotAfter}
use acid_compute.Rpc.Registry.Iterators.{
  has, IsNodup, owner, IsUnique, dropped, find-erase, erase-IsKeyed, owner-dropped,
  dropped-IsUnique, erase-dropped, dropped-dropped,
}
use acid_compute.Rpc.Registry.Providers.{IsTracked, publish_total}

dropped_all : (svc : List Service) → dropped (λ i. false) svc ≡ svc
dropped_all [] = refl
dropped_all (y ∷ ys) = ap (◌∷◌ y) (dropped_all ys)

NotAfter-dropped :
    (n : List ℕ) (p : ℕ → Bool) (svc : List Service) → NotAfter n svc → NotAfter n (dropped p svc)
NotAfter-dropped n p [] a = tt
NotAfter-dropped n p (y ∷ ys) a = ground (arith, NotAfter-dropped n p ys)

dropped-IsSorted : (p : ℕ → Bool) (svc : List Service) → IsSorted svc → IsSorted (dropped p svc)
dropped-IsSorted p [] s = tt
dropped-IsSorted p (y ∷ ys) s = ground (arith, dropped-IsSorted p ys, NotAfter-dropped y.name p ys)

abbrev Owners : List ℕ → List Service → List ℕ → Type 0
Owners a svc ks = All (λ k. owner k svc ≡ some a) ks

listed-Owners :
    (a : List ℕ) (svc : List Service) (ks : List ℕ)
    → ((k : ℕ) → has k ks ≡ true → owner k svc ≡ some a)
    → Owners a svc ks
listed-Owners a svc [] h = tt
listed-Owners a svc (k ∷ ks) h =
    (h k (ground arith), listed-Owners a svc ks (λ j e. h j (ground arith)))

dropped-Owners :
    (a : List ℕ) (k : ℕ) (svc : List Service) (ks : List ℕ)
    → has k ks ≡ false
    → Owners a svc ks
    → Owners a (dropped (λ i. i == k) svc) ks
dropped-Owners a k svc [] h o = tt
dropped-Owners a k svc (j ∷ ks) h o = (
  ground (arith, owner-dropped j (λ i. i == k) svc, o.0),
  dropped-Owners a k svc ks (ground arith) o.1,
)

-- The entries of one address, by what their ids are in.
abbrev Marks : List ℕ → List ℕ → List Service → Type 0
Marks a ks svc = All (λ (y : Service). has y.id ks ≡ same y.address a) svc

abbrev pub without_address : List ℕ → List (List ℕ) → List (List ℕ)
without_address a [] = []
without_address a (b ∷ bs) = let rest = without_address a bs in if same b a then rest else b ∷ rest

providers-dropped :
    (n a ks : List ℕ) (svc : List Service)
    → Marks a ks svc
    → providers n (dropped (λ i. has i ks) svc) ≡ without_address a (providers n svc)
unfolding providers
providers-dropped n a ks [] m = refl
providers-dropped n a ks (y ∷ ys) m = ground (arith, providers-dropped n a ks ys, m.0)

-- Every entry of `sub` is the one of its id in `svc`.
abbrev Own : List Service → List Service → Type 0
Own svc sub = All (λ (y : Service). owner y.id svc ≡ some y.address) sub

longer-Own :
    (x : Service) (svc sub : List Service) → owner x.id svc ≡ none → Own svc sub → Own (x ∷ svc) sub
longer-Own x svc [] e o = tt
longer-Own x svc (y ∷ ys) e o = (ground (arith, o.0), longer-Own x svc ys e o.1)

self-Own : (svc : List Service) → IsUnique svc → Own svc svc
self-Own [] u = tt
self-Own (y ∷ ys) u = (ground arith, longer-Own y ys ys u.0 (self-Own ys u.1))

Own-Marks :
    (a ks : List ℕ) (svc sub : List Service)
    → ((k : ℕ) → has k ks ≡ true → owner k svc ≡ some a)
    → ((k : ℕ) → owner k svc ≡ some a → has k ks ≡ true)
    → Own svc sub
    → Marks a ks sub
Own-Marks a ks svc [] h l o = tt
Own-Marks a ks svc (y ∷ ys) h l o = (
  ground (arith, h y.id, l y.id, o.0, same→≡ y.address a, same_refl a),
  Own-Marks a ks svc ys h l o.1,
)

module _ (host : Endian) (connected : ℕ → Bool) (a : List ℕ)
    (small : length a + length a + 2 ^ 15 < 2 ^ 64) where
  unregister_all-dropped :
      (ks : List ℕ) (r : RpcServiceRegistry)
      → IsUnique r.services
      → IsNodup ks
      → Owners a r.services ks
      → (sent : Sent) × (unregister_all host connected a ks r
          ≡ ok (sent, record r { services = dropped (λ i. has i ks) r.services }))
  unfolding unregister_all
  unregister_all-dropped [] r u d o =
      ([], ap (λ s. ok ([], record r { services = s })) (sym (dropped_all r.services)))
  unregister_all-dropped (k ∷ ks) r u d o =
      let left = dropped (λ i. i == k) r.services in
      let e1 = erase-dropped k a r.services u o.0 in
      let (first, e2) =
        publish_total host connected (subscribe_prefix ++ a) false a r
          (omega (arith, length-append subscribe_prefix a)) in
      let (more, e3) =
        unregister_all-dropped ks (record r { services = left })
          (dropped-IsUnique (λ i. i == k) r.services u) d.1
          (dropped-Owners a k r.services ks d.0 o.1) in
      (
        first ++ more,
        rw (e1, e2, e3)
            (ap (λ s. ok (first ++ more, record r { services = s }))
              (dropped-dropped k ks r.services)),
      )

  removed : List ℕ → RpcServiceRegistry → RpcServiceRegistry
  removed ks r = record r {
    services = dropped (λ i. has i ks) r.services;
    iters = erase_iters a r.iters;
  }

  removed-IsTracked :
      (ks : List ℕ) (r : RpcServiceRegistry)
      → IsTracked r
      → find_iters a r.iters ≡ some ks
      → IsTracked (removed ks r)
  unfolding removed
  removed-IsTracked ks r v e = record {
    sorted = dropped-IsSorted (λ i. has i ks) r.services v.sorted;
    unused = λ k h. ground (arith, owner-dropped k (λ i. has i ks) r.services, v.unused k);
    unique = dropped-IsUnique (λ i. has i ks) r.services v.unique;
    keyed = erase-IsKeyed a r.iters v.keyed;
    distinct = λ b. ground (arith, find-erase b a r.iters v.keyed, v.distinct b);
    owned = λ b k h. ground (
      arith,
      find-erase b a r.iters v.keyed,
      owner-dropped k (λ i. has i ks) r.services,
      v.owned b k,
      v.owned a k,
      same_refl a,
    );
    listed = λ b k h. ground (
      arith,
      find-erase b a r.iters v.keyed,
      owner-dropped k (λ i. has i ks) r.services,
      v.listed b k,
      v.listed a k,
      same→≡ b a,
    );
  }

  abbrev Removes : RpcServiceRegistry → Option (List ℕ) → Type 0
  Removes r found =
      (sent : Sent) × (r' : RpcServiceRegistry) × (unregistered host connected a found r
        ≡ ok (sent, r'))
      × IsTracked r'
      × ((n : List ℕ) → providers n r'.services ≡ without_address a (providers n r.services))

  removes :
      (r : RpcServiceRegistry)
      → IsTracked r
      → (found : Option (List ℕ)) → find_iters a r.iters ≡ found
      → Removes r found
  unfolding removed
  removes r v none e =
      let marks =
        Own-Marks a [] r.services r.services (λ k h. bool_clash (sym h))
          (λ k h. ground (arith, v.listed a k)) (self-Own r.services v.unique) in
      (
        [],
        r,
        refl,
        v,
        λ n.
            subst (λ s. providers n s ≡ without_address a (providers n r.services))
              (dropped_all r.services) (providers-dropped n a [] r.services marks),
      )
  removes r v (some ks) e =
      let owned : (k : ℕ) → has k ks ≡ true → owner k r.services ≡ some a =
        λ k h. ground (arith, v.owned a k) in
      let listed : (k : ℕ) → owner k r.services ≡ some a → has k ks ≡ true =
        λ k h. ground (arith, v.listed a k) in
      let distinct : IsNodup ks = ground (arith, v.distinct a) in
      let marks =
        Own-Marks a ks r.services r.services owned listed (self-Own r.services v.unique) in
      let (sent, runs) =
        unregister_all-dropped ks r v.unique distinct (listed-Owners a r.services ks owned) in
      (
        sent,
        removed ks r,
        rw runs refl,
        removed-IsTracked ks r v e,
        λ n. providers-dropped n a ks r.services marks,
      )

-- When a provider goes away: handle_unregidter_service succeeds, no erased iterator dangles, exactly the
-- services of its address are gone, in every name's order of providers, and m_iters and m_services
-- keep in step.
pub handle_unregidter_service-Removed :
    (host : Endian) (connected : ℕ → Bool) (a : List ℕ) (r : RpcServiceRegistry)
    → IsTracked r
    → length a + length a + 2 ^ 15 < 2 ^ 64
    → (sent : Sent) × (r' : RpcServiceRegistry) × (handle_unregidter_service host connected a r
        ≡ ok (sent, r'))
      × IsTracked r'
      × ((n : List ℕ) → providers n r'.services ≡ without_address a (providers n r.services))
unfolding handle_unregidter_service
handle_unregidter_service-Removed host connected a r v small =
    removes host connected a small r v (find_iters a r.iters) refl
