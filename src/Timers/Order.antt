-- ===== src/Timers/Order.antt =====
-- The comparator orders keys strictly, and the addresses of a set by their keys.
use mathlib.Core.Path.{subst}
use acid_compute.Prelude.{
  ◌∙◌, ℕ, ◌≤◌, ◌≡◌, refl, sym, Bool, true, false, List, [], ◌∷◌, arith, ◌==◌, if◌then◌else◌, All,
  ==_iff, Bool-cases, inl, inr,
}
use acid_compute.Timers.{Timer, Key, key, put, before}

abbrev pub Above : Key → Key → Type 0
Above k l = before k l ≡ true

-- The first component is at most, and it decides unless it is equal.
pub before_le : (k l : Key) → before k l ≡ true → k.0 ≤ l.0
unfolding before
before_le (m, a) (n, b) h = ground arith

pub before_trans : (k l m : Key) → Above k l → Above l m → Above k m
unfolding before
before_trans (n, a) (m, b) (l, c) h i = ground arith

pub before_asym : (k l : Key) → Above k l → before l k ≡ false
unfolding before
before_asym (m, a) (n, b) h = ground arith

-- Equivalent keys have the same address.
pub before_total : (k l : Key) → before k l ≡ false → before l k ≡ false → k.1 ≡ l.1
unfolding before
before_total (m, a) (n, b) h i = ground arith

pub before_irrefl : (k : Key) → before k k ≡ false
unfolding before
before_irrefl (m, a) = ground arith

-- Strictly ascending keys.
abbrev pub IsSorted : List Key → Type 0
IsSorted [] = Unit
IsSorted (k ∷ ks) = All (Above k) ks × IsSorted ks

abbrev pub keys : (ℕ → Timer) → List ℕ → List Key
keys h [] = []
keys h (a ∷ bs) = key h a ∷ keys h bs

abbrev pub elem : ℕ → List ℕ → Bool
elem x [] = false
elem x (a ∷ bs) = if x == a then true else elem x bs

pub All-Above : (k l : Key) (ms : List Key) → Above k l → All (Above l) ms → All (Above k) ms
All-Above k l [] h a = tt
All-Above k l (m ∷ ms) h a = (before_trans k l m h a.0, All-Above k l ms h a.1)

-- What an absent address tells of the first one and of the others.
pub absent_cons :
    (a b : ℕ) (bs : List ℕ)
    → elem a (b ∷ bs) ≡ false
    → ((a == b) ≡ false) × ((b == a) ≡ false) × (elem a bs ≡ false)
absent_cons a b bs e = (ground arith, ground arith, ground arith)

-- A change of a timer that is not in the set changes no key of the set.
pub keys-put :
    (a : ℕ) (t : Timer) (h : ℕ → Timer) (ts : List ℕ)
    → elem a ts ≡ false
    → keys (put a t h) ts ≡ keys h ts
keys-put a t h [] e = refl
keys-put a t h (b ∷ bs) e =
    let (ab, ba, rest) = absent_cons a b bs e in rw (ba, keys-put a t h bs rest)

-- An address below every key of the set is not in it.
pub below_absent :
    (h : ℕ → Timer) (a : ℕ) (ts : List ℕ) → All (Above (key h a)) (keys h ts) → elem a ts ≡ false
below_absent h a [] e = refl
below_absent h a (b ∷ bs) e = elim (Bool-cases (a == b)) [
  | inl same ↦
      let here : a ≡ b = (==_iff a b).0 same in
      let clash : true ≡ false =
        sym (subst (λ x. before (key h a) (key h x) ≡ true) (sym here) e.0)
        ∙ before_irrefl (key h a) in
      rw same clash
  | inr other ↦ rw (other, below_absent h a bs e.1)
]

-- Only deadlines and addresses count.
pub keys-same :
    (h h' : ℕ → Timer) (ts : List ℕ) → ((x : ℕ) → (h x).next ≡ (h' x).next) → keys h ts ≡ keys h' ts
keys-same h h' [] e = refl
keys-same h h' (b ∷ bs) e = rw (e b, keys-same h h' bs e)
