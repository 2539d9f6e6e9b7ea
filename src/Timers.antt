-- ===== src/Timers.antt =====
-- acid/common/timer.{h,cpp}: timers on the heap and the ordered set of them that the manager keeps.
-- A Timer* is an address, the heap maps it to its object, and the set is the list of the addresses
-- in the comparator's order. Each function is what runs under one lock; `now` is what
-- get_elapsed_ms() gives.
pub mod Order
pub mod Sets
pub mod Lifecycle
pub mod Deadlines
pub mod Firing
pub mod Split
pub mod Expiry
use acid_compute.Prelude.{
  ℕ, ◌+◌, ◌-◌, ◌*◌, ◌%◌, ◌^◌, Bool, true, false, not, ◌&&◌, Option, none, some, List, [], ◌∷◌, ◌++◌,
  ltb, leb, ◌==◌, if◌then◌else◌, sub64,
}
use acid_compute.Outcome.{Outcome, ok, undefined}

-- A std::function: one that the user gave, or `on_timer` bound to the address of a condition.
pub data Callback : Type 0 where
  plain : ℕ → Callback
  guarded : ℕ → ℕ → Callback

-- What a callback runs, by which conditions are still alive.
unfoldable pub on_timer : (ℕ → Bool) → Callback → Option ℕ
on_timer alive (plain cb) = some cb
on_timer alive (guarded cond cb) = if alive cond then some cb else none

pub record Timer : Type 0 where
  pub recurring : Bool
  pub ms : ℕ
  pub next : ℕ
  pub callback : Option Callback

pub record TimerManager : Type 0 where
  pub heap : ℕ → Timer
  pub timers : List ℕ
  pub ticked : Bool
  pub previous_time : ℕ

abbrev pub put : ℕ → Timer → (ℕ → Timer) → ℕ → Timer
put a t h x = if x == a then t else h x

-- What the comparator reads of a timer that is there: m_next and the address.
abbrev pub Key : Type 0
Key = ℕ × ℕ

abbrev pub key : (ℕ → Timer) → ℕ → Key
key h a = ((h a).next, a)

unfoldable pub before : Key → Key → Bool
before (m, a) (n, b) = if ltb m n then true else if ltb n m then false else ltb a b

-- Timer::Comparator, on pointers that may be null.
unfoldable pub comparator : (ℕ → Timer) → Option ℕ → Option ℕ → Bool
unfolding before
comparator h none none = false
comparator h none (some b) = true
comparator h (some a) none = false
comparator h (some a) (some b) = before (key h a) (key h b)

-- std::set::insert, which leaves the set as it is when an equivalent element is there.
unfoldable pub insert : (ℕ → Timer) → ℕ → List ℕ → List ℕ
unfolding before
insert h a [] = a ∷ []
insert h a (b ∷ bs) =
    let rest = insert h a bs in
    if before (key h b) (key h a)
    then b ∷ rest
    else if before (key h a) (key h b)
    then a ∷ (b ∷ bs)
    else b ∷ bs

-- std::set::find and the set without what was found, `none` for end().
unfoldable pub find_erase : (ℕ → Timer) → ℕ → List ℕ → Option (List ℕ)
unfolding before
find_erase h a [] = none
find_erase h a (b ∷ bs) =
    let rest = find_erase h a bs in
    if before (key h b) (key h a)
    then (elim rest [ none ↦ none | some bs' ↦ some (b ∷ bs') ])
    else if before (key h a) (key h b)
    then none
    else some bs

-- `it == m_timers.begin()`
abbrev pub is_front : ℕ → List ℕ → Bool
is_front a [] = false
is_front a (b ∷ bs) = a == b

-- add_timer(val, lock): whether on_timer_inserted_at_front() runs, and the state.
unfoldable pub add_timer_locked : ℕ → TimerManager → Bool × TimerManager
unfolding insert
add_timer_locked a m =
    let ts = insert m.heap a m.timers in
    let at_front = is_front a ts && not m.ticked in
    (at_front, record m { timers = ts; ticked = if at_front then true else m.ticked })

-- add_timer(ms, cb, recurring), where `new` gives the address `a`.
unfoldable pub add_timer : ℕ → ℕ → ℕ → Option Callback → Bool → TimerManager → Bool × TimerManager
unfolding add_timer_locked
add_timer a now ms cb recurring m =
    let t : Timer = record {
      recurring = recurring;
      ms = ms;
      next = (now + ms) % 2 ^ 64;
      callback = cb;
    } in
    add_timer_locked a (record m { heap = put a t m.heap })

-- `std::bind(&on_timer, weak_cond, cb)` is a function whatever `cb` is.
unfoldable pub add_condition_timer : ℕ → ℕ → ℕ → ℕ → ℕ → Bool → TimerManager → Bool × TimerManager
unfolding add_timer
add_condition_timer a now ms cond cb recurring m =
    add_timer a now ms (some (guarded cond cb)) recurring m

-- Erasing end() is undefined.
unfoldable pub cancel : ℕ → TimerManager → Outcome (Bool × TimerManager)
unfolding find_erase
cancel a m =
    let heap' = put a (record (m.heap a) { callback = none }) m.heap in
    let erased : Outcome (Bool × TimerManager) = (elim (find_erase heap' a m.timers) [
      | none ↦ undefined
      | some ts ↦ ok (true, record m { heap = heap'; timers = ts })
    ]) in
    elim (m.heap a).callback [ none ↦ ok (false, m) | some cb ↦ erased ]

unfoldable pub refresh : ℕ → ℕ → TimerManager → Bool × TimerManager
unfolding find_erase insert
refresh a now m =
    let t = m.heap a in
    let heap' = put a (record t { next = (now + t.ms) % 2 ^ 64 }) m.heap in
    let found : Bool × TimerManager = (elim (find_erase m.heap a m.timers) [
      | none ↦ (false, m)
      | some ts ↦ (true, record m { heap = heap'; timers = insert heap' a ts })
    ]) in
    elim t.callback [ none ↦ (false, m) | some cb ↦ found ]

-- The result, whether on_timer_inserted_at_front() runs, and the state.
unfoldable pub reset : ℕ → ℕ → ℕ → Bool → TimerManager → Bool × Bool × TimerManager
unfolding find_erase add_timer_locked
reset a now ms from_now m =
    let t = m.heap a in
    let start = if from_now then now else sub64 t.next t.ms in
    let heap' = put a (record t { ms = ms; next = (start + ms) % 2 ^ 64 }) m.heap in
    let found : Bool × Bool × TimerManager = (elim (find_erase m.heap a m.timers) [
      | none ↦ (false, false, m)
      | some ts ↦
          let (front, m') = add_timer_locked a (record m { heap = heap'; timers = ts }) in
          (true, front, m')
    ]) in
    let changed : Bool × Bool × TimerManager = (elim t.callback [
      | none ↦ (false, false, m)
      | some cb ↦ found
    ]) in
    if (ms == t.ms) && not from_now then (true, false, m) else changed

-- The time to wait for the front of the set, `~0ull` when it is empty.
unfoldable pub wait : ℕ → (ℕ → Timer) → List ℕ → ℕ
wait now h [] = 2 ^ 64 - 1
wait now h (a ∷ bs) = if leb (h a).next now then 0 else sub64 (h a).next now

unfoldable pub get_next_timer : ℕ → TimerManager → ℕ × TimerManager
unfolding wait
get_next_timer now m = (wait now m.heap m.timers, record m { ticked = false })

abbrev pub is_empty : List ℕ → Bool
is_empty [] = true
is_empty (a ∷ bs) = false

unfoldable pub has_timer : TimerManager → Bool
has_timer m = not (is_empty m.timers)

unfoldable pub detect_clock_rollover : ℕ → TimerManager → Bool × TimerManager
detect_clock_rollover now m = (
  ltb now m.previous_time && ltb now (sub64 m.previous_time (60 * 60 * 1000)),
  record m { previous_time = now },
)

-- lower_bound: the elements before the key, and those from it on.
unfoldable pub lower_bound : (ℕ → Timer) → Key → List ℕ → List ℕ × List ℕ
unfolding before
lower_bound h k [] = ([], [])
lower_bound h k (b ∷ bs) =
    let rest = lower_bound h k bs in
    if before (key h b) k then (b ∷ rest.0, rest.1) else ([], b ∷ bs)

-- The steps over the elements that are due at `now` exactly.
unfoldable pub skip_equal : (ℕ → Timer) → ℕ → List ℕ → List ℕ × List ℕ
skip_equal h now [] = ([], [])
skip_equal h now (b ∷ bs) =
    let rest = skip_equal h now bs in
    if (h b).next == now then (b ∷ rest.0, rest.1) else ([], b ∷ bs)

-- The expired timers and the others; `p` is the address of `now_timer`.
unfoldable pub split_expired : Bool → (ℕ → Timer) → ℕ → ℕ → List ℕ → List ℕ × List ℕ
unfolding lower_bound skip_equal
split_expired true h p now ts = (ts, [])
split_expired false h p now ts =
    let bound = lower_bound h (now, p) ts in
    let equal = skip_equal h now bound.1 in (bound.0 ++ equal.0, equal.1)

-- The loop over the expired timers: the callbacks it pushes, the heap and the set.
unfoldable pub fire :
    ℕ → List ℕ → (ℕ → Timer) → List ℕ → List (Option Callback) × (ℕ → Timer) × List ℕ
unfolding insert
fire now [] h ts = ([], h, ts)
fire now (a ∷ bs) h ts =
    let t = h a in
    let again = put a (record t { next = (now + t.ms) % 2 ^ 64 }) h in
    let rest =
      if t.recurring
      then fire now bs again (insert again a ts)
      else fire now bs (put a (record t { callback = none }) h) ts in
    (t.callback ∷ rest.0, rest.1, rest.2)

-- `(*(m_timers.begin()))->m_next > now_ms`
abbrev pub front_later : ℕ → (ℕ → Timer) → List ℕ → Bool
front_later now h [] = false
front_later now h (a ∷ bs) = ltb now (h a).next

unfoldable pub list_expired_callback : ℕ → ℕ → TimerManager → List (Option Callback) × TimerManager
unfolding detect_clock_rollover split_expired fire
list_expired_callback p now m =
    let (rollover, m') = detect_clock_rollover now m in
    let (expired, rest) = split_expired rollover m.heap p now m.timers in
    let (callbacks, heap', ts) = fire now expired m.heap rest in
    if is_empty m.timers
    then ([], m)
    else if not rollover && front_later now m.heap m.timers
    then ([], m')
    else (callbacks, record m' { heap = heap'; timers = ts })
