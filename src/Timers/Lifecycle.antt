-- ===== src/Timers/Lifecycle.antt =====
-- Adding, cancelling and moving timers keeps the manager in order.
use mathlib.Core.Path.{subst}
use acid_compute.Prelude.{
  ℕ, ◌+◌, ◌%◌, ◌^◌, ◌≤◌, ◌<◌, ◌≡◌, refl, sym, ap, ◌∙◌, Bool, true, false, not, ◌&&◌, Option, none,
  some, List, arith, ◌==◌, if◌then◌else◌, ==_iff, Bool-cases, bool_clash, option_clash, inl, inr,
}
use acid_compute.Outcome.{ok}
use acid_compute.Timers.{
  Timer, TimerManager, Callback, put, insert, is_front, add_timer_locked, add_timer, cancel,
}
use acid_compute.Timers.Order.{IsSorted, keys, elem, keys-put, keys-same}
use acid_compute.Timers.Sets.{
  elem-insert, insert-IsSorted, find_erase-Erased, front_least, distinct, lacking,
}

-- The set is in order, a timer that still has a function is in it, and deadlines are uint64_t.
pub record IsValid (m : TimerManager) : Type 0 where
  pub sorted : IsSorted (keys m.heap m.timers)
  pub live : (a : ℕ) (cb : Callback) → (m.heap a).callback ≡ some cb → elem a m.timers ≡ true
  pub fits : (a : ℕ) → (m.heap a).next < 2 ^ 64

-- Only the object at `a` changed, into `t`, and `a` is in the set or not as `inside` says.
pub record Changed (a : ℕ) (t : Timer) (inside : Bool) (m m' : TimerManager) : Type 0 where
  pub valid : IsValid m'
  pub at : m'.heap a ≡ t
  pub elsewhere : (x : ℕ) → (x == a) ≡ false → m'.heap x ≡ m.heap x
  pub elements : (x : ℕ) → elem x m'.timers ≡ (if x == a then inside else elem x m.timers)

abbrev pub timer : ℕ → ℕ → Option Callback → Bool → Timer
timer now ms cb recurring = record {
  recurring = recurring;
  ms = ms;
  next = (now + ms) % 2 ^ 64;
  callback = cb;
}

-- What holds of the heap after a change at `a` to a deadline that fits.
put_fits :
    (a : ℕ) (t : Timer) (h : ℕ → Timer)
    → ((x : ℕ) → (h x).next < 2 ^ 64)
    → t.next < 2 ^ 64
    → (x : ℕ) → (put a t h x).next < 2 ^ 64
put_fits a t h f g x = elim (Bool-cases (x == a)) [ inl e ↦ rw e g | inr e ↦ rw e (f x) ]

put_at : (a : ℕ) (t : Timer) (h : ℕ → Timer) → put a t h a ≡ t
put_at a t h = rw ((==_iff a a).1 refl)

put_back :
    (p q r : Bool)
    → q ≡ (if p then false else r)
    → (if p then true else q) ≡ (if p then true else r)
put_back true q r e = refl
put_back false q r e = e

-- A set that lacks `a`, into which `a` is put again after its object became `t`.
pub inserted :
    (a : ℕ) (t : Timer) (k : Bool) (m : TimerManager) (ts : List ℕ)
    → IsValid m
    → t.next < 2 ^ 64
    → IsSorted (keys m.heap ts)
    → ((x : ℕ) → elem x ts ≡ (if x == a then false else elem x m.timers))
    → Changed a t true m
        (record m { heap = put a t m.heap; timers = insert (put a t m.heap) a ts; ticked = k })
inserted a t k m ts v f s e =
    let h : ℕ → Timer = put a t m.heap in
    let gone : elem a ts ≡ false = rw ((==_iff a a).1 refl) at (e a) in
    let all : (x : ℕ) → elem x (insert h a ts) ≡ (if x == a then true else elem x m.timers) =
      λ x. elem-insert h x a ts ∙ put_back (x == a) (elem x ts) (elem x m.timers) (e x) in
    record {
      valid = record {
        sorted = insert-IsSorted h a ts (subst IsSorted (sym (keys-put a t m.heap ts gone)) s);
        live = λ x cb c.
            all x
            ∙ elim (Bool-cases (x == a)) [ inl o ↦ rw o | inr o ↦ rw o (v.live x cb (rw o at c)) ];
        fits = put_fits a t m.heap v.fits f;
      };
      at = put_at a t m.heap;
      elsewhere = λ x o. rw o;
      elements = all;
    }

and_left : (p q : Bool) → (p && q) ≡ true → p ≡ true
and_left true q e = refl
and_left false q e = bool_clash (sym e)

-- What the code does with a timer that has a function.
pub when_live {ℓ} :
    {R : Type ℓ} {o : Option Callback} {cb : Callback} (r s : R)
    → o ≡ some cb
    → (elim o as (λ _. R) [ none ↦ r | some c ↦ s ]) ≡ s
when_live {o = none} r s e = option_clash e
when_live {o = some c} r s e = refl

-- The results of `add_timer`: on a valid manager, for an address that is not in its set, exactly the new
-- timer enters the set with its deadline `now + ms`, modulo 2 ^ 64, the manager stays valid, and when
-- on_timer_inserted_at_front() is called, no timer of the set was due before the new one.
pub add_timer-Changed :
    (a now ms : ℕ) (cb : Option Callback) (recurring : Bool) (m : TimerManager)
    → IsValid m
    → elem a m.timers ≡ false
    → let r = add_timer a now ms cb recurring m in
      Changed a (timer now ms cb recurring) true m r.1
      × (r.0 ≡ true → (x : ℕ) → elem x m.timers ≡ true → (now + ms) % 2 ^ 64 ≤ (m.heap x).next)
unfolding add_timer add_timer_locked
add_timer-Changed a now ms cb recurring m v absent =
    let t : Timer = timer now ms cb recurring in
    let h : ℕ → Timer = put a t m.heap in
    let us : List ℕ = insert h a m.timers in
    let front : Bool = is_front a us && not m.ticked in
    let c : Changed a t true m
        (record m { heap = h; timers = us; ticked = if front then true else m.ticked }) =
      inserted a t (if front then true else m.ticked) m m.timers v (omega arith) v.sorted
        (λ x. lacking x a m.timers absent) in
    (
      c,
      λ wakes x e.
          let other : (x == a) ≡ false = distinct a x m.timers absent e in
          let least : (h a).next ≤ (h x).next =
            front_least h a x us c.valid.sorted (and_left (is_front a us) (not m.ticked) wakes)
              (c.elements x ∙ rw other e) in
          rw (put_at a t m.heap, other) at least,
    )

-- `cancel` on a valid manager never erases the end of the set. It returns true when the timer still has
-- its function; the function is then dropped, the timer leaves the set, and nothing else changes.
pub cancel-Changed :
    (a : ℕ) (m : TimerManager)
    → IsValid m
    → ((m.heap a).callback ≡ none → cancel a m ≡ ok (false, m))
      × ((cb : Callback)
          → (m.heap a).callback ≡ some cb
          → (m' : TimerManager) × (cancel a m ≡ ok (true, m'))
            × Changed a (record (m.heap a) { callback = none }) false m m')
unfolding cancel
cancel-Changed a m v = (
  λ e. rw (e, cancel),
  λ cb e.
      let t : Timer = record (m.heap a) { callback = none } in
      let h : ℕ → Timer = put a t m.heap in
      let same : keys h m.timers ≡ keys m.heap m.timers = keys-same h m.heap m.timers (λ x.
        elim (Bool-cases (x == a)) [
          | inl o ↦ rw o (ap (λ c. (m.heap c).next) (sym ((==_iff x a).0 o)))
          | inr o ↦ rw o
        ]) in
      let (ts, f, r) =
        find_erase-Erased h a m.timers (subst IsSorted (sym same) v.sorted) (v.live a cb e) in
      (
        record m { heap = h; timers = ts },
        rw (cancel, e, f),
        record {
          valid = record {
            sorted = r.sorted;
            live = λ x cb' c. elim (Bool-cases (x == a)) [
              | inl o ↦ option_clash (rw o at c)
              | inr o ↦ r.elements x ∙ rw o (v.live x cb' (rw o at c))
            ];
            fits = put_fits a t m.heap v.fits (v.fits a);
          };
          at = put_at a t m.heap;
          elsewhere = λ x o. rw o;
          elements = r.elements;
        },
      ),
)
