-- ===== src/Timers/Split.antt =====
-- The expired part of the set: the timers that are due.
use acid_compute.Prelude.{
  ℕ, ◌≤◌, ◌<◌, ◌≡◌, refl, ap, ◌∙◌, Bool, true, false, not, List, [], ◌∷◌, filter, arith, ◌==◌, leb,
  if◌then◌else◌, ==_iff, All, Bool-cases, inl, inr,
}
use acid_compute.Timers.{Timer, Key, key, before, lower_bound, skip_equal, split_expired}
use acid_compute.Timers.Order.{IsSorted, Above, keys, elem, before_le}

abbrev pub due : (ℕ → Timer) → ℕ → ℕ → Bool
due h now x = leb (h x).next now

abbrev pub later : (ℕ → Timer) → ℕ → ℕ → Bool
later h now x = not (due h now x)

-- Behind a timer that is not due none is.
pub none_due :
    (h : ℕ → Timer) (now : ℕ) (k : Key) (ts : List ℕ)
    → now < k.0
    → All (Above k) (keys h ts)
    → (filter (due h now) ts ≡ []) × (filter (later h now) ts ≡ ts)
none_due h now k [] l a = (refl, refl)
none_due h now k (b ∷ bs) l a =
    let (e, f) = none_due h now k bs l a.1 in
    let far : due h now b ≡ false = ground (arith, before_le k (key h b) a.0) in
    (rw (far, e), rw (far, f))

-- The walk over the elements whose deadline is `now`, in a set without earlier ones.
skip_equal-filter :
    (h : ℕ → Timer) (now : ℕ) (ts : List ℕ)
    → IsSorted (keys h ts)
    → All (λ k. now ≤ k.0) (keys h ts)
    → skip_equal h now ts ≡ (filter (due h now) ts, filter (later h now) ts)
unfolding skip_equal
skip_equal-filter h now [] s f = refl
skip_equal-filter h now (b ∷ bs) s f = elim (Bool-cases ((h b).next == now)) [
  | inl same ↦
      let here : due h now b ≡ true = ground arith in
      rw (same, here, skip_equal-filter h now bs s.1 f.1)
  | inr other ↦
      let far : now < (h b).next = ground (arith, f.0) in
      let here : due h now b ≡ false = ground arith in
      let (e, g) = none_due h now (key h b) bs far s.0 in rw (other, here, e, g)
]

not_earlier :
    (now : ℕ) (k : Key) (ks : List Key) → now ≤ k.0 → All (Above k) ks → All (λ l. now ≤ l.0) ks
not_earlier now k [] l a = tt
not_earlier now k (m ∷ ks) l a = (omega (arith, before_le k m a.0), not_earlier now k ks l a.1)

from_now : (k : Key) (now p : ℕ) → before k (now, p) ≡ false → now ≤ k.0
unfolding before
from_now (n, a) now p h = ground arith

-- Wherever `now_timer` is allocated, the set is split by the deadlines.
pub split_expired-filter :
    (h : ℕ → Timer) (now p : ℕ) (ts : List ℕ)
    → IsSorted (keys h ts)
    → split_expired false h p now ts ≡ (filter (due h now) ts, filter (later h now) ts)
unfolding split_expired lower_bound
split_expired-filter h now p [] s = unfold skip_equal in refl
split_expired-filter h now p (b ∷ bs) s = elim (Bool-cases (before (key h b) (now, p))) [
  | inl less ↦
      let here : due h now b ≡ true = ground (arith, before_le (key h b) (now, p) less) in
      let ih = split_expired-filter h now p bs s.1 in rw (less, here) (ap (λ r. (b ∷ r.0, r.1)) ih)
  | inr more ↦
      let far : now ≤ (h b).next = from_now (key h b) now p more in
      rw (
        more,
        skip_equal-filter h now (b ∷ bs) s (far, not_earlier now (key h b) (keys h bs) far s.0),
      )
]

pub elem-filter :
    (p : ℕ → Bool) (x : ℕ) (ts : List ℕ) → elem x (filter p ts) ≡ (if p x then elem x ts else false)
elem-filter p x [] = elim (Bool-cases (p x)) [ inl e ↦ rw e | inr e ↦ rw e ]
elem-filter p x (b ∷ bs) = elim (Bool-cases (x == b)) [
  | inl same ↦
      let here : x ≡ b = (==_iff x b).0 same in
      let alike : p x ≡ p b = ap p here in
      elim (Bool-cases (p b)) [
        | inl e ↦ rw (alike, e, same)
        | inr e ↦ rw (alike, e) (elem-filter p x bs ∙ rw (alike, e))
      ]
  | inr other ↦ elim (Bool-cases (p b)) [
    | inl e ↦ rw (e, other, elem-filter p x bs)
    | inr e ↦ rw (e, other, elem-filter p x bs)
  ]
]

All-filter :
    (h : ℕ → Timer) (p : ℕ → Bool) (k : Key) (ts : List ℕ)
    → All (Above k) (keys h ts)
    → All (Above k) (keys h (filter p ts))
All-filter h p k [] a = tt
All-filter h p k (b ∷ bs) a = elim (Bool-cases (p b)) [
  | inl e ↦ rw e (a.0, All-filter h p k bs a.1)
  | inr e ↦ rw e (All-filter h p k bs a.1)
]

pub filter-IsSorted :
    (h : ℕ → Timer) (p : ℕ → Bool) (ts : List ℕ)
    → IsSorted (keys h ts)
    → IsSorted (keys h (filter p ts))
filter-IsSorted h p [] s = tt
filter-IsSorted h p (b ∷ bs) s = elim (Bool-cases (p b)) [
  | inl e ↦ rw e (All-filter h p (key h b) bs s.0, filter-IsSorted h p bs s.1)
  | inr e ↦ rw e (filter-IsSorted h p bs s.1)
]
