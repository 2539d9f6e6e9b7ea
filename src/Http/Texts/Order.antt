-- ===== src/Http/Texts/Order.antt =====
-- The order of strcasecmp is a strict order whose ties are the texts that it takes for equal.
use acid_compute.Prelude.{◌↔◌, ℕ, ◌≡◌, refl, sym, true, false, List, [], ◌∷◌, arith, bool_clash}
use acid_compute.Http.Servlets.Maps.{same_refl, same→≡}
use acid_compute.Http.Texts.{below, equals_ignoring_case, less_ignoring_case, folded}

pub below_irrefl : (xs : List ℕ) → below xs xs ≡ false
below_irrefl [] = refl
below_irrefl (x ∷ xs) = ground (arith, below_irrefl xs)

pub below_trans : (xs ys zs : List ℕ) → below xs ys ≡ true → below ys zs ≡ true → below xs zs ≡ true
below_trans xs [] zs h k = bool_clash (sym h)
below_trans [] (y ∷ ys) [] h k = bool_clash (sym k)
below_trans (x ∷ xs) (y ∷ ys) [] h k = bool_clash (sym k)
below_trans [] (y ∷ ys) (z ∷ zs) h k = refl
below_trans (x ∷ xs) (y ∷ ys) (z ∷ zs) h k = ground (arith, below_trans xs ys zs)

pub below_total : (xs ys : List ℕ) → below xs ys ≡ false → below ys xs ≡ false → xs ≡ ys
below_total [] [] h k = refl
below_total [] (y ∷ ys) h k = bool_clash h
below_total (x ∷ xs) [] h k = bool_clash k
below_total (x ∷ xs) (y ∷ ys) h k = ground (arith, below_total xs ys)

pub ties :
    (a b : List ℕ)
    → less_ignoring_case a b ≡ false
    → less_ignoring_case b a ≡ false
    → folded a ≡ folded b
unfolding less_ignoring_case
ties a b h k = below_total (folded a) (folded b) h k

pub less_irrefl : (a b : List ℕ) → folded a ≡ folded b → less_ignoring_case a b ≡ false
unfolding less_ignoring_case
less_irrefl a b e = rw e (below_irrefl (folded b))

pub less_trans :
    (a b c : List ℕ)
    → less_ignoring_case a b ≡ true
    → less_ignoring_case b c ≡ true
    → less_ignoring_case a c ≡ true
unfolding less_ignoring_case
less_trans a b c h k = below_trans (folded a) (folded b) (folded c) h k

pub equals_iff : (a b : List ℕ) → (equals_ignoring_case a b ≡ true) ↔ (folded a ≡ folded b)
unfolding equals_ignoring_case
equals_iff a b = (same→≡ (folded a) (folded b), λ e. rw e (same_refl (folded b)))
