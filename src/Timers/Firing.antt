-- ===== src/Timers/Firing.antt =====
-- The loop over expired timers, and the split of the set into the expired timers and the others.
use mathlib.Core.Path.{subst}
use acid_compute.Prelude.{
  ℕ, ◌+◌, ◌%◌, ◌^◌, ◌≡◌, refl, sym, ap, ◌∙◌, Bool, true, false, Option, none, List, [], ◌∷◌, map,
  ◌==◌, if◌then◌else◌, ==_iff, Bool-cases, inl, inr,
}
use acid_compute.Timers.{Timer, Callback, put, insert, fire}
use acid_compute.Timers.Order.{IsSorted, keys, elem, keys-put, absent_cons, below_absent}
use acid_compute.Timers.Sets.{elem-insert, insert-IsSorted, lacking, distinct}

-- What firing makes of a timer's object.
abbrev pub renewed : ℕ → Timer → Timer
renewed now t =
    if t.recurring then record t { next = (now + t.ms) % 2 ^ 64 } else record t { callback = none }

-- No address twice.
abbrev pub IsDistinct : List ℕ → Type 0
IsDistinct [] = Unit
IsDistinct (a ∷ bs) = (elem a bs ≡ false) × IsDistinct bs

pub sorted-IsDistinct : (h : ℕ → Timer) (ts : List ℕ) → IsSorted (keys h ts) → IsDistinct ts
sorted-IsDistinct h [] s = tt
sorted-IsDistinct h (a ∷ bs) s = (below_absent h a bs s.0, sorted-IsDistinct h bs s.1)

callbacks-put :
    (a : ℕ) (t : Timer) (h : ℕ → Timer) (es : List ℕ)
    → elem a es ≡ false
    → map (λ x. (put a t h x).callback) es ≡ map (λ x. (h x).callback) es
callbacks-put a t h [] e = refl
callbacks-put a t h (b ∷ bs) e =
    let (ab, ba, rest) = absent_cons a b bs e in rw (ba, callbacks-put a t h bs rest)

-- The set after one round of the loop, for a timer that is not in it.
abbrev kept_set : ℕ → ℕ → (ℕ → Timer) → List ℕ → List ℕ
kept_set now a h ts = if (h a).recurring then insert (put a (renewed now (h a)) h) a ts else ts

fire_step :
    (now a : ℕ) (bs : List ℕ) (h : ℕ → Timer) (ts : List ℕ)
    → fire now (a ∷ bs) h ts ≡ (
        let rest = fire now bs (put a (renewed now (h a)) h) (kept_set now a h ts) in
        ((h a).callback ∷ rest.0, rest.1, rest.2))
unfolding fire
fire_step now a bs h ts = elim (Bool-cases (h a).recurring) [
  | inl again ↦ rw again
  | inr once ↦ rw once
]

elem-kept_set :
    (now x a : ℕ) (h : ℕ → Timer) (ts : List ℕ)
    → elem a ts ≡ false
    → elem x (kept_set now a h ts) ≡ (if x == a then (h a).recurring else elem x ts)
elem-kept_set now x a h ts gone = elim (Bool-cases (h a).recurring) [
  | inl again ↦ rw again (elem-insert _ x a ts)
  | inr once ↦ rw once (lacking x a ts gone)
]

either {ℓ κ} :
    {A : Type ℓ} (P : A → Type κ) (b : Bool) (x y : A) → P x → P y → P (if b then x else y)
either P true x y p q = p
either P false x y p q = q

kept_set-IsSorted :
    (now a : ℕ) (h : ℕ → Timer) (ts : List ℕ)
    → elem a ts ≡ false
    → IsSorted (keys h ts)
    → IsSorted (keys (put a (renewed now (h a)) h) (kept_set now a h ts))
kept_set-IsSorted now a h ts gone s =
    let same : IsSorted (keys (put a (renewed now (h a)) h) ts) =
      subst IsSorted (sym (keys-put a (renewed now (h a)) h ts gone)) s in
    either (λ us. IsSorted (keys (put a (renewed now (h a)) h) us)) (h a).recurring _ ts
      (insert-IsSorted _ a ts same) same

-- The callbacks in the order of the list, each object renewed once, and the set in order with the
-- recurring ones put back.
pub record Fired (now : ℕ) (es : List ℕ) (h : ℕ → Timer) (ts : List ℕ)
    (r : List (Option Callback) × (ℕ → Timer) × List ℕ) : Type 0 where
  pub callbacks : r.0 ≡ map (λ x. (h x).callback) es
  pub objects : (x : ℕ) → r.1 x ≡ (if elem x es then renewed now (h x) else h x)
  pub sorted : IsSorted (keys r.1 r.2)
  pub elements : (x : ℕ) → elem x r.2 ≡ (if elem x es then (h x).recurring else elem x ts)

pub fire-Fired :
    (now : ℕ) (es : List ℕ) (h : ℕ → Timer) (ts : List ℕ)
    → IsDistinct es
    → ((x : ℕ) → elem x es ≡ true → elem x ts ≡ false)
    → IsSorted (keys h ts)
    → Fired now es h ts (fire now es h ts)
unfolding fire
fire-Fired now [] h ts d f s = record {
  callbacks = refl;
  objects = λ x. refl;
  sorted = s;
  elements = λ x. refl;
}
fire-Fired now (a ∷ bs) h ts d f s =
    let h1 : ℕ → Timer = put a (renewed now (h a)) h in
    let ts1 : List ℕ = kept_set now a h ts in
    let here : (a == a) ≡ true = (==_iff a a).1 refl in
    let gone : elem a ts ≡ false = f a (rw here) in
    let apart : (x : ℕ) → elem x bs ≡ true → elem x ts1 ≡ false = λ x e.
      elem-kept_set now x a h ts gone
      ∙ (let other : (x == a) ≡ false = distinct a x bs d.0 e in rw other (f x (rw other e))) in
    let r : Fired now bs h1 ts1 (fire now bs h1 ts1) =
      fire-Fired now bs h1 ts1 d.1 apart (kept_set-IsSorted now a h ts gone s) in
    subst (Fired now (a ∷ bs) h ts) (sym (fire_step now a bs h ts)) (record {
      callbacks =
          ap (λ cs. (h a).callback ∷ cs)
            (r.callbacks ∙ callbacks-put a (renewed now (h a)) h bs d.0);
      objects = λ x. elim (Bool-cases (x == a)) [
        | inl same ↦
            subst
              (λ c. (fire now bs h1 ts1).1 c ≡ (if elem c (a ∷ bs) then renewed now (h c) else h c))
              (sym ((==_iff x a).0 same)) (r.objects a ∙ rw (here, d.0))
        | inr other ↦ r.objects x ∙ rw other
      ];
      sorted = r.sorted;
      elements = λ x. elim (Bool-cases (x == a)) [
        | inl same ↦
            subst
              (λ c.
                elem c (fire now bs h1 ts1).2
                ≡ (if elem c (a ∷ bs) then (h c).recurring else elem c ts))
              (sym ((==_iff x a).0 same))
              (r.elements a ∙ rw (here, d.0, elem-kept_set now a a h ts gone, here))
        | inr other ↦ r.elements x ∙ rw (other, elem-kept_set now x a h ts gone, other)
      ];
    })
