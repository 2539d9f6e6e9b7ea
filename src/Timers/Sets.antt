-- ===== src/Timers/Sets.antt =====
-- What insertion and removal do to a set of timers.
use mathlib.Core.Path.{subst}
use acid_compute.Prelude.{
  ℕ, ◌≤◌, ◌≡◌, refl, sym, ap, ◌∙◌, Bool, true, false, none, some, List, [], ◌∷◌, arith, ◌==◌,
  if◌then◌else◌, All, ==_iff, Bool-cases, bool_clash, inl, inr,
}
use acid_compute.Timers.{Timer, Key, key, before, is_front, insert, find_erase}
use acid_compute.Timers.Order.{
  Above, IsSorted, keys, elem, before_le, before_total, before_irrefl, All-Above, absent_cons,
  below_absent,
}

-- An element that is neither before nor after `a` is `a`.
same_address :
    (h : ℕ → Timer) (a b : ℕ)
    → before (key h b) (key h a) ≡ false
    → before (key h a) (key h b) ≡ false
    → a ≡ b
same_address h a b i j = before_total (key h a) (key h b) j i

or_swap :
    (p q r : Bool)
    → (if p then true else if q then true else r) ≡ (if q then true else if p then true else r)
or_swap true true r = refl
or_swap true false r = refl
or_swap false true r = refl
or_swap false false r = refl

or_again : (p r : Bool) → (if p then true else r) ≡ (if p then true else if p then true else r)
or_again true r = refl
or_again false r = refl

-- After an insertion the set has the element and what it had.
pub elem-insert :
    (h : ℕ → Timer) (x a : ℕ) (ts : List ℕ)
    → elem x (insert h a ts) ≡ (if x == a then true else elem x ts)
unfolding insert
elem-insert h x a [] = refl
elem-insert h x a (b ∷ bs) = elim (Bool-cases (before (key h b) (key h a))) [
  | inl less ↦ rw (less, elem-insert h x a bs) (or_swap (x == b) (x == a) (elem x bs))
  | inr more ↦ elim (Bool-cases (before (key h a) (key h b))) [
    | inl first ↦ rw (more, first)
    | inr last ↦
        rw (more, last)
          (subst (λ c. elem x (b ∷ bs) ≡ (if x == c then true else elem x (b ∷ bs)))
            (sym (same_address h a b more last)) (or_again (x == b) (elem x bs)))
  ]
]

All-insert :
    (h : ℕ → Timer) (k : Key) (a : ℕ) (ts : List ℕ)
    → Above k (key h a)
    → All (Above k) (keys h ts)
    → All (Above k) (keys h (insert h a ts))
unfolding insert
All-insert h k a [] i e = (i, tt)
All-insert h k a (b ∷ bs) i e = elim (Bool-cases (before (key h b) (key h a))) [
  | inl less ↦ rw less (e.0, All-insert h k a bs i e.1)
  | inr more ↦ elim (Bool-cases (before (key h a) (key h b))) [
    | inl first ↦ rw (more, first) (i, e)
    | inr last ↦ rw (more, last) e
  ]
]

pub insert-IsSorted :
    (h : ℕ → Timer) (a : ℕ) (ts : List ℕ) → IsSorted (keys h ts) → IsSorted (keys h (insert h a ts))
unfolding insert
insert-IsSorted h a [] s = (tt, tt)
insert-IsSorted h a (b ∷ bs) s = elim (Bool-cases (before (key h b) (key h a))) [
  | inl less ↦ rw less (All-insert h (key h b) a bs less s.0, insert-IsSorted h a bs s.1)
  | inr more ↦ elim (Bool-cases (before (key h a) (key h b))) [
    | inl first ↦ rw (more, first) ((first, All-Above (key h a) (key h b) (keys h bs) first s.0), s)
    | inr last ↦ rw (more, last) s
  ]
]

-- A set without one of its elements.
pub record Erased (h : ℕ → Timer) (a : ℕ) (ts ts' : List ℕ) : Type 0 where
  pub sorted : IsSorted (keys h ts')
  pub bounded : (k : Key) → All (Above k) (keys h ts) → All (Above k) (keys h ts')
  pub elements : (x : ℕ) → elem x ts' ≡ (if x == a then false else elem x ts)

member-Above :
    (h : ℕ → Timer) (k : Key) (a : ℕ) (ts : List ℕ)
    → All (Above k) (keys h ts)
    → elem a ts ≡ true
    → Above k (key h a)
member-Above h k a [] i e = bool_clash (sym e)
member-Above h k a (b ∷ bs) i e = elim (Bool-cases (a == b)) [
  | inl same ↦ subst (λ c. Above k (key h c)) (sym ((==_iff a b).0 same)) i.0
  | inr other ↦ member-Above h k a bs i.1 (rw other at e)
]

-- Nothing in a set is due before its front.
pub front_least :
    (h : ℕ → Timer) (a x : ℕ) (ts : List ℕ)
    → IsSorted (keys h ts)
    → is_front a ts ≡ true
    → elem x ts ≡ true
    → (h a).next ≤ (h x).next
front_least h a x [] s f e = bool_clash (sym f)
front_least h a x (b ∷ bs) s f e =
    subst (λ c. (h c).next ≤ (h x).next) (sym ((==_iff a b).0 f))
      (elim (Bool-cases (x == b)) [
        | inl same ↦ omega (arith, ap (λ c. (h c).next) ((==_iff x b).0 same))
        | inr other ↦
            before_le (key h b) (key h x) (member-Above h (key h b) x bs s.0 (rw other at e))
      ])

apart :
    (x a b : ℕ) (r r' : Bool)
    → (a == b) ≡ false
    → r' ≡ (if x == a then false else r)
    → (if x == b then true else r') ≡ (if x == a then false else if x == b then true else r)
apart x a b r r' h e = ground arith

pub alone :
    (x a : ℕ) (bs : List ℕ)
    → elem a bs ≡ false
    → elem x bs ≡ (if x == a then false else if x == a then true else elem x bs)
alone x a bs e = elim (Bool-cases (x == a)) [
  | inl same ↦ rw same (subst (λ c. elem c bs ≡ false) (sym ((==_iff x a).0 same)) e)
  | inr other ↦ rw other
]

-- What is in the set is found and taken out of it.
pub find_erase-Erased :
    (h : ℕ → Timer) (a : ℕ) (ts : List ℕ)
    → IsSorted (keys h ts)
    → elem a ts ≡ true
    → (ts' : List ℕ) × (find_erase h a ts ≡ some ts') × Erased h a ts ts'
unfolding find_erase
find_erase-Erased h a [] s e = bool_clash (sym e)
find_erase-Erased h a (b ∷ bs) s e = elim (Bool-cases (a == b)) [
  | inl same ↦
      let here : b ≡ a = sym ((==_iff a b).0 same) in
      let gone : elem a bs ≡ false =
        subst (λ c. elem c bs ≡ false) here (below_absent h b bs s.0) in
      (
        bs,
        rw (here, before_irrefl (key h a)),
        record { sorted = s.1; bounded = λ k i. i.1; elements = λ x. rw here (alone x a bs gone) },
      )
  | inr other ↦
      let inside : elem a bs ≡ true = rw other at e in
      let less : before (key h b) (key h a) ≡ true = member-Above h (key h b) a bs s.0 inside in
      let (ts', f, r) = find_erase-Erased h a bs s.1 inside in
      (
        b ∷ ts',
        rw (less, f),
        record {
          sorted = (r.bounded (key h b) s.0, r.sorted);
          bounded = λ k i. (i.0, r.bounded k i.1);
          elements = λ x. apart x a b (elem x bs) (elem x ts') other (r.elements x);
        },
      )
]

-- What is not in the set is not found.
pub find_erase-absent :
    (h : ℕ → Timer) (a : ℕ) (ts : List ℕ) → elem a ts ≡ false → find_erase h a ts ≡ none
unfolding find_erase
find_erase-absent h a [] e = refl
find_erase-absent h a (b ∷ bs) e =
    let (ab, ba, rest) = absent_cons a b bs e in
    elim (Bool-cases (before (key h b) (key h a))) [
      | inl less ↦ rw (less, find_erase-absent h a bs rest)
      | inr more ↦ elim (Bool-cases (before (key h a) (key h b))) [
        | inl first ↦ rw (more, first)
        | inr last ↦
            let here : a ≡ b = same_address h a b more last in
            bool_clash (sym ((==_iff a b).1 here) ∙ ab)
      ]
    ]

pub distinct : (a x : ℕ) (ts : List ℕ) → elem a ts ≡ false → elem x ts ≡ true → (x == a) ≡ false
distinct a x ts h e = elim (Bool-cases (x == a)) [
  | inl same ↦ bool_clash (sym e ∙ subst (λ c. elem c ts ≡ false) (sym ((==_iff x a).0 same)) h)
  | inr other ↦ other
]

pub lacking :
    (x a : ℕ) (ts : List ℕ) → elem a ts ≡ false → elem x ts ≡ (if x == a then false else elem x ts)
lacking x a ts h = elim (Bool-cases (x == a)) [
  | inl same ↦ rw same (subst (λ c. elem c ts ≡ false) (sym ((==_iff x a).0 same)) h)
  | inr other ↦ rw other
]
