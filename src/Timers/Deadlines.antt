-- ===== src/Timers/Deadlines.antt =====
-- Moving a timer's deadline, and the time to wait for the first one.
use acid_compute.Prelude.{
  ℕ, ◌+◌, ◌-◌, ◌%◌, ◌^◌, ◌≤◌, ◌<◌, ◌≡◌, ◌⊎◌, refl, ◌∙◌, Bool, true, false, not, ◌&&◌, none, some,
  List, [], ◌∷◌, arith, ◌==◌, leb, if◌then◌else◌, ==_iff, Bool-cases, inl, inr, sub64, sub64-eq,
  leb→le, leb→lt,
}
use acid_compute.Timers.{
  Timer, TimerManager, Callback, put, insert, is_front, add_timer_locked, refresh, reset, wait,
  get_next_timer,
}
use acid_compute.Timers.Order.{elem, keys, IsSorted}
use acid_compute.Timers.Sets.{find_erase-Erased, front_least}
use acid_compute.Timers.Lifecycle.{IsValid, Changed, inserted, when_live}

-- `refresh` on a valid manager: without a function the timer stays as it is and the result is false; with
-- one, its deadline becomes `now` plus its interval, modulo 2 ^ 64, and nothing else changes.
pub refresh-Changed :
    (a now : ℕ) (m : TimerManager)
    → IsValid m
    → ((m.heap a).callback ≡ none → refresh a now m ≡ (false, m))
      × ((cb : Callback)
          → (m.heap a).callback ≡ some cb
          → (m' : TimerManager) × (refresh a now m ≡ (true, m'))
            × Changed a (record (m.heap a) { next = (now + (m.heap a).ms) % 2 ^ 64 }) true m m')
unfolding refresh
refresh-Changed a now m v = (
  λ e. rw (e, refresh),
  λ cb e.
      let t : Timer = record (m.heap a) { next = (now + (m.heap a).ms) % 2 ^ 64 } in
      let (ts, f, r) = find_erase-Erased m.heap a m.timers v.sorted (v.live a cb e) in
      (
        record m { heap = put a t m.heap; timers = insert (put a t m.heap) a ts },
        unfold refresh in (when_live _ _ e ∙ rw f),
        inserted a t m.ticked m ts v (omega arith) r.sorted r.elements,
      ),
)

-- The object of a timer that `reset` moved.
abbrev pub moved : ℕ → ℕ → Bool → Timer → Timer
moved now ms from_now t = record t {
  ms = ms;
  next = ((if from_now then now else sub64 t.next t.ms) + ms) % 2 ^ 64;
}

-- `reset` on a valid manager. With the interval that the timer has and not from now, it returns true and
-- changes nothing, whether the timer is cancelled or not. Otherwise it returns false and changes nothing
-- for a timer without a function, and returns true for one with a function, whose interval and deadline
-- change, the deadline counted from `now` or from the start of the running interval.
pub reset-Changed :
    (a now ms : ℕ) (from_now : Bool) (m : TimerManager)
    → IsValid m
    → ((((ms == (m.heap a).ms) && not from_now) ≡ true)
        → reset a now ms from_now m ≡ (true, false, m))
      × ((((ms == (m.heap a).ms) && not from_now) ≡ false)
          → ((m.heap a).callback ≡ none → reset a now ms from_now m ≡ (false, false, m))
            × ((cb : Callback)
                → (m.heap a).callback ≡ some cb
                → (front : Bool) × (m' : TimerManager) × (reset a now ms from_now m
                    ≡ (true, front, m'))
                  × Changed a (moved now ms from_now (m.heap a)) true m m'))
unfolding reset add_timer_locked
reset-Changed a now ms from_now m v = (
  λ same. rw (reset, same),
  λ other. (
    λ e. rw (reset, other, e),
    λ cb e.
        let t : Timer = moved now ms from_now (m.heap a) in
        let (ts, f, r) = find_erase-Erased m.heap a m.timers v.sorted (v.live a cb e) in
        let us : List ℕ = insert (put a t m.heap) a ts in
        let front : Bool = is_front a us && not m.ticked in
        let ticked : Bool = if front then true else m.ticked in
        (
          front,
          record m { heap = put a t m.heap; timers = us; ticked = ticked },
          unfold reset add_timer_locked in (rw other (when_live _ _ e ∙ rw f)),
          inserted a t ticked m ts v (omega arith) r.sorted r.elements,
        ),
  ),
)

wait-earliest :
    (now : ℕ) (h : ℕ → Timer) (ts : List ℕ)
    → IsSorted (keys h ts)
    → ((x : ℕ) → (h x).next < 2 ^ 64)
    → (((x : ℕ) → elem x ts ≡ false) × (wait now h ts ≡ 2 ^ 64 - 1))
      ⊎ ((a : ℕ) × (elem a ts ≡ true)
          × ((x : ℕ) → elem x ts ≡ true → (h a).next ≤ (h x).next)
          × (wait now h ts ≡ (h a).next - now))
unfolding wait
wait-earliest now h [] s f = inl (λ x. refl, refl)
wait-earliest now h (a ∷ bs) s f =
    let here : (a == a) ≡ true = (==_iff a a).1 refl in
    let n : ℕ = (h a).next in
    inr (
      a,
      rw here,
      λ x e. front_least h a x (a ∷ bs) s here e,
      elim (Bool-cases (leb n now)) [
        | inl due ↦ rw due (omega (arith, leb→le n now due))
        | inr later ↦ rw later (sub64-eq n now (omega (arith, leb→lt n now later)) (f a))
      ],
    )

-- `get_next_timer` on a valid manager: `~0ull` when no timer is set, and
-- otherwise the time from `now` to the earliest deadline in the set, 0 when that has passed. It clears
-- the tick and changes nothing else.
pub get_next_timer-earliest :
    (now : ℕ) (m : TimerManager)
    → IsValid m
    → ((get_next_timer now m).1 ≡ record m { ticked = false })
      × ((((x : ℕ) → elem x m.timers ≡ false) × ((get_next_timer now m).0 ≡ 2 ^ 64 - 1))
          ⊎ ((a : ℕ) × (elem a m.timers ≡ true)
              × ((x : ℕ) → elem x m.timers ≡ true → (m.heap a).next ≤ (m.heap x).next)
              × ((get_next_timer now m).0 ≡ (m.heap a).next - now)))
unfolding get_next_timer
get_next_timer-earliest now m v = (refl, wait-earliest now m.heap m.timers v.sorted v.fits)
