-- ===== src/Rpc/Registry/Entries.antt =====
-- The entries of a registry, by their ids, names and addresses.
use acid_compute.Prelude.{
  ℕ, ◌≡◌, refl, sym, ◌∙◌, true, false, List, [], ◌∷◌, ◌++◌, if◌then◌else◌, arith, Bool-cases, inl,
  inr, bool_clash,
}
use acid_compute.Http.Servlets.{same}
use acid_compute.Http.Servlets.Maps.{same→≡}
use acid_compute.Http.Texts.{below}
use acid_compute.Http.Texts.Order.{below_irrefl, below_trans}
use acid_compute.Rpc.Registry.{Service, emplace, providers}

-- No entry has a smaller name than one in front of it.
abbrev pub NotAfter : List ℕ → List Service → Type 0
NotAfter n [] = Unit
NotAfter n (y ∷ ys) = (below y.name n ≡ false) × NotAfter n ys

abbrev pub IsSorted : List Service → Type 0
IsSorted [] = Unit
IsSorted (y ∷ ys) = NotAfter y.name ys × IsSorted ys

NotAfter-emplace :
    (n : List ℕ) (x : Service) (svc : List Service)
    → below x.name n ≡ false
    → NotAfter n svc
    → NotAfter n (emplace x svc)
unfolding emplace
NotAfter-emplace n x [] h a = (h, tt)
NotAfter-emplace n x (y ∷ ys) h a = ground (arith, NotAfter-emplace n x ys)

below_asym : (a b : List ℕ) → below a b ≡ true → below b a ≡ false
below_asym a b h = elim (Bool-cases (below b a)) [
  | inl e ↦ bool_clash (sym (below_trans a b a h e) ∙ below_irrefl a)
  | inr e ↦ e
]

-- What is not below b is not below anything below b.
below_mono : (a b c : List ℕ) → below a b ≡ true → below c b ≡ false → below c a ≡ false
below_mono a b c h k = elim (Bool-cases (below c a)) [
  | inl e ↦ bool_clash (sym (below_trans c a b e h) ∙ k)
  | inr e ↦ e
]

NotAfter-below :
    (a b : List ℕ) (svc : List Service) → below a b ≡ true → NotAfter b svc → NotAfter a svc
NotAfter-below a b [] h n = tt
NotAfter-below a b (y ∷ ys) h n = (below_mono a b y.name h n.0, NotAfter-below a b ys h n.1)

pub emplace-IsSorted : (x : Service) (svc : List Service) → IsSorted svc → IsSorted (emplace x svc)
unfolding emplace
emplace-IsSorted x [] s = (tt, tt)
emplace-IsSorted x (y ∷ ys) s = ground (
  arith,
  emplace-IsSorted x ys,
  below_asym x.name y.name,
  NotAfter-below x.name y.name ys,
  NotAfter-emplace y.name x ys,
)

providers_behind :
    (n : List ℕ) (b : List ℕ) (svc : List Service)
    → below n b ≡ true
    → NotAfter b svc
    → providers n svc ≡ []
unfolding providers
providers_behind n b [] h a = refl
providers_behind n b (y ∷ ys) h a =
    ground (arith, providers_behind n b ys, same→≡ n y.name, below_irrefl n)

-- A new provider of a service comes last among those of the same name.
pub providers-emplace :
    (n : List ℕ) (x : Service) (svc : List Service)
    → IsSorted svc
    → providers n (emplace x svc)
      ≡ (if same n x.name then providers n svc ++ (x.address ∷ []) else providers n svc)
unfolding providers emplace
providers-emplace n x [] s = ground arith
providers-emplace n x (y ∷ ys) s = ground (
  arith,
  providers-emplace n x ys,
  providers_behind n y.name ys,
  same→≡ n x.name,
  same→≡ n y.name,
  below_irrefl n,
)
