-- ===== src/Timers/Expiry.antt =====
-- Which timers expire.
use mathlib.Core.Path.{subst}
use acid_compute.Prelude.{
  ℕ, ◌+◌, ◌^◌, ◌≤◌, ◌<◌, ◌≡◌, ◌↔◌, ◌⊎◌, refl, sym, ◌∙◌, Bool, true, false, not, ◌&&◌, ◌||◌, ltb→lt,
  Option, some, List, [], ◌∷◌, map, filter, arith, ltb, ge→ltb, if◌then◌else◌, Bool-cases,
  bool_clash, option_clash, inl, inr, sub64,
}
use acid_compute.Timers.{
  Timer, TimerManager, Callback, key, split_expired, fire, detect_clock_rollover, is_empty,
  front_later, list_expired_callback,
}
use acid_compute.Timers.Order.{IsSorted, keys, elem}
use acid_compute.Timers.Lifecycle.{IsValid}
use acid_compute.Timers.Firing.{renewed, sorted-IsDistinct, Fired, fire-Fired}
use acid_compute.Timers.Split.{
  due, later, none_due, split_expired-filter, elem-filter, filter-IsSorted,
}

-- The due timers of `m` have fired and the others are as they were.
pub record Expired (now : ℕ) (m : TimerManager) (r : List (Option Callback) × TimerManager)
    : Type 0 where
  pub callbacks : r.0 ≡ map (λ x. (m.heap x).callback) (filter (due m.heap now) m.timers)
  pub objects :
      (x : ℕ)
      → r.1.heap x
        ≡ (if elem x m.timers && due m.heap now x then renewed now (m.heap x) else m.heap x)
  pub elements :
      (x : ℕ)
      → elem x r.1.timers
        ≡ (elem x m.timers && (if due m.heap now x then (m.heap x).recurring else true))
  pub valid : IsValid r.1

-- The cases of a timer `t` that is in the set as `q` says and due as `d` says.
once_or_again :
    (d q r : Bool)
    → (if (if d then q else false) then r else if not d then q else false)
      ≡ (q && (if d then r else true))
once_or_again true true r = refl
once_or_again true false r = refl
once_or_again false true r = refl
once_or_again false false r = refl

changed_or_not {ℓ} :
    {A : Type ℓ} (d q : Bool) (s t : A)
    → (if (if d then q else false) then s else t) ≡ (if q && d then s else t)
changed_or_not true true s t = refl
changed_or_not true false s t = refl
changed_or_not false true s t = refl
changed_or_not false false s t = refl

in_one_part : (d q : Bool) → (if d then q else false) ≡ true → (if not d then q else false) ≡ false
in_one_part true q e = refl
in_one_part false q e = bool_clash (sym e)

stays_live :
    (d q : Bool) (now : ℕ) (t : Timer) (cb : Callback)
    → (if q && d then renewed now t else t).callback ≡ some cb
    → (t.callback ≡ some cb → q ≡ true)
    → (q && (if d then t.recurring else true)) ≡ true
stays_live d false now t cb c l = l c
stays_live false true now t cb c l = refl
stays_live true true now t cb c l = elim (Bool-cases t.recurring) [
  | inl e ↦ e
  | inr e ↦ option_clash (rw e at c)
]

stays_fit :
    (b : Bool) (now : ℕ) (t : Timer)
    → t.next < 2 ^ 64
    → (if b then renewed now t else t).next < 2 ^ 64
stays_fit true now t f = ground (arith, f)
stays_fit false now t f = f

fired-Expired :
    (now previous : ℕ) (m : TimerManager)
    → IsValid m
    → let es = filter (due m.heap now) m.timers in
      let f = fire now es m.heap (filter (later m.heap now) m.timers) in
      Expired now m (f.0, record m { heap = f.1; timers = f.2; previous_time = previous })
fired-Expired now previous m v =
    let h : ℕ → Timer = m.heap in
    let ts : List ℕ = m.timers in
    let es : List ℕ = filter (due h now) ts in
    let rest : List ℕ = filter (later h now) ts in
    let apart : (x : ℕ) → elem x es ≡ true → elem x rest ≡ false = λ x e.
      elem-filter (later h now) x ts
      ∙ in_one_part (due h now x) (elem x ts) (sym (elem-filter (due h now) x ts) ∙ e) in
    let f : Fired now es h rest (fire now es h rest) =
      fire-Fired now es h rest (sorted-IsDistinct h es (filter-IsSorted h (due h now) ts v.sorted))
        apart (filter-IsSorted h (later h now) ts v.sorted) in
    let elements : (x : ℕ)
        → elem x (fire now es h rest).2
          ≡ (elem x ts && (if due h now x then (h x).recurring else true)) =
      λ x.
        f.elements x
        ∙ rw (elem-filter (due h now) x ts, elem-filter (later h now) x ts)
            (once_or_again (due h now x) (elem x ts) (h x).recurring) in
    let objects : (x : ℕ)
        → (fire now es h rest).1 x ≡ (if elem x ts && due h now x then renewed now (h x) else h x) =
      λ x.
        f.objects x
        ∙ rw (elem-filter (due h now) x ts)
            (changed_or_not (due h now x) (elem x ts) (renewed now (h x)) (h x)) in
    record {
      callbacks = f.callbacks;
      objects = objects;
      elements = elements;
      valid = record {
        sorted = f.sorted;
        live = λ x cb c.
            elements x
            ∙ stays_live (due h now x) (elem x ts) now (h x) cb (rw (objects x) at c) (v.live x cb);
        fits = λ x. rw (objects x) (stays_fit (elem x ts && due h now x) now (h x) (v.fits x));
      };
    }

nothing_due :
    (now : ℕ) (h : ℕ → Timer) (ts : List ℕ)
    → IsSorted (keys h ts)
    → (is_empty ts || front_later now h ts) ≡ true
    → (filter (due h now) ts ≡ []) × (filter (later h now) ts ≡ ts)
nothing_due now h [] s e = (refl, refl)
nothing_due now h (a ∷ bs) s e =
    let far : now < (h a).next = ltb→lt now (h a).next e in
    let here : due h now a ≡ false = ground arith in
    let (f, g) = none_due h now (key h a) bs far s.0 in (rw (here, f), rw (here, g))

idle-Expired :
    (now previous : ℕ) (m : TimerManager)
    → IsValid m
    → (is_empty m.timers || front_later now m.heap m.timers) ≡ true
    → Expired now m ([], record m { previous_time = previous })
unfolding fire
idle-Expired now previous m v e =
    let (f, g) = nothing_due now m.heap m.timers v.sorted e in
    rw (f, g) at (fired-Expired now previous m v)

-- `list_expired_callback` on a valid manager, when the clock has not gone back since the last call and
-- wherever its own timer is allocated: it gives the functions of the timers whose deadline has come, in
-- the order of their deadlines; recurring ones are set anew to `now` plus their interval, modulo 2 ^ 64,
-- the others lose their function and leave the set; no other timer changes, and the manager stays valid.
pub list_expired_callback-Expired :
    (p now : ℕ) (m : TimerManager)
    → IsValid m
    → m.previous_time ≤ now
    → Expired now m (list_expired_callback p now m)
unfolding list_expired_callback detect_clock_rollover split_expired
list_expired_callback-Expired p now m v steady =
    let still : ltb now m.previous_time ≡ false = ge→ltb now m.previous_time steady in
    let split = split_expired-filter m.heap now p m.timers v.sorted in
    let after : List ℕ × List ℕ → Type 0 = λ s.
      let f = fire now s.0 m.heap s.1 in
      Expired now m (f.0, record m { heap = f.1; timers = f.2; previous_time = now }) in
    elim (Bool-cases (is_empty m.timers)) [
      | inl e ↦ rw (still, e) (idle-Expired now m.previous_time m v (rw e))
      | inr e ↦ elim (Bool-cases (front_later now m.heap m.timers)) [
        | inl l ↦ rw (still, e, l) (idle-Expired now now m v (rw (e, l)))
        | inr l ↦ rw (still, e, l) (subst after (sym split) (fired-Expired now now m v))
      ]
    ]

-- With uint64_t times, detect_clock_rollover holds exactly when the time has gone back and either it is
-- more than an hour back or the previous time lies within the first hour, where the subtraction wraps.
pub detect_clock_rollover_iff :
    (now : ℕ) (m : TimerManager)
    → m.previous_time < 2 ^ 64
    → ((detect_clock_rollover now m).0 ≡ true) ↔ (
        (now < m.previous_time) × ((now + 3600000 < m.previous_time) ⊎ (m.previous_time < 3600000)))
unfolding detect_clock_rollover sub64
detect_clock_rollover_iff now m h = ground arith
