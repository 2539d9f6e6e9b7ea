-- ===== src/Hooks/Blocking.antt =====
-- do_io of acid/common/hook.cpp over the IOManager: what a call that looks
-- blocking returns, and who wakes it.
pub mod Rounds
pub mod Timeouts
use acid_compute.Prelude.{
  ℕ, zero, suc, ◌^◌, ◌<◌, ◌≡◌, refl, sym, ap, ◌∙◌, arith, Bool, true, false, not, ◌||◌, ◌&&◌,
  Option, none, some, List, [], ◌∷◌, ◌++◌, append-nil, append_assoc, ◌==◌, ==_iff, Bool-cases, inl,
  inr, if◌then◌else◌, replicate, map,
}
use acid_compute.Descriptors.{pos, FdCtx, get_timeout, no_timeout}
use acid_compute.Tasks.Scheduler.{fiber}
use acid_compute.IoManager.{
  add_event, Call, call_of, Event, read, write, Events, no_events, IoManager, Caller, is_some,
}
use acid_compute.IoManager.Valid.{IsValid}
use acid_compute.IoManager.Waiters.{waiter, has_waiter, same_event}
use acid_compute.IoManager.Sweep.{calls}
use acid_compute.IoManager.Adding.{Joined, new_call, add_event-Joins}
use acid_compute.IoManager.Wakes.{Cancelled, chosen, only, cancel_event-Serves}
use acid_compute.Hooks.{
  Answer, count, fault, interrupted, try_again, timed_out, started, cancelled, TimerOp, Machine,
  returned, blocked, Progress, IoCall, call_loop, start_timer, cancel_timer, looped, attempt, Wake,
  retry_loop, on_timeout, do_io,
}

abbrev pub interrupts : ℕ → List Answer → List Answer
interrupts n answers = replicate n (fault interrupted) ++ answers

call_loop-interrupts :
    (n : ℕ) (answers : List Answer) → call_loop (interrupts n answers) ≡ call_loop answers
unfolding call_loop
call_loop-interrupts zero answers = refl
call_loop-interrupts (suc n) answers = call_loop-interrupts n answers

abbrev pub conclusive : Answer → Bool
conclusive (count n) = true
conclusive (fault e) = not (e == interrupted || e == try_again)

call_loop-conclusive :
    (a : Answer) (rest : List Answer) → conclusive a ≡ true → call_loop (a ∷ rest) ≡ some (a, rest)
unfolding call_loop
call_loop-conclusive (count n) rest c = refl
call_loop-conclusive (fault e) rest c = ground arith

pub do_io-hooked :
    (memory : ℕ → Events) (who : Caller) (c : FdCtx) (wakes : List Wake) (denied : Bool) (fd : ℕ)
    (event : Event) (receives : Bool) (m : Machine)
    → c.is_closed ≡ false
    → c.is_socket ≡ true
    → c.user_nonblock ≡ false
    → do_io memory who true (some c) wakes denied fd event receives m
      ≡ retry_loop memory who wakes denied
          (record { fd = fd; event = event; timeout = get_timeout receives c })
          m
unfolding do_io
do_io-hooked memory who c wakes denied fd event receives m h k l = rw (h, k, l) refl

-- The timer of one wait.
abbrev pub tick : ℕ → List TimerOp
tick timeout = if timeout == no_timeout then [] else started timeout ∷ cancelled ∷ []

abbrev pub wake_up : Bool → IoManager → Bool → Wake
wake_up fired s refuses = record { fired = fired; found = s; refuses = refuses }

module _ (memory : ℕ → Events) (blank : (i : ℕ) → memory i ≡ no_events) (who : Caller) where
  looped-conclusive :
      (denied : Bool) (io : IoCall) (m : Machine) (a : Answer) (rest : List Answer)
      → conclusive a ≡ true
      → looped memory who denied io m (some (a, rest))
        ≡ some (returned a, record m { answers = rest })
  looped-conclusive denied io m (count n) rest c = refl
  looped-conclusive denied io m (fault e) rest c = elim (Bool-cases (e == try_again)) [
    | inl r ↦ ground arith
    | inr r ↦ rw r refl
  ]

  pub attempt_concludes :
      (denied : Bool) (io : IoCall) (m : Machine) (n : ℕ) (a : Answer) (rest : List Answer)
      → m.answers ≡ interrupts n (a ∷ rest)
      → conclusive a ≡ true
      → attempt memory who denied io m ≡ some (returned a, record m { answers = rest })
  unfolding attempt
  attempt_concludes denied io m n a rest p c =
      ap (looped memory who denied io m)
        (ap call_loop p ∙ call_loop-interrupts n (a ∷ rest) ∙ call_loop-conclusive a rest c)
      ∙ looped-conclusive denied io m a rest c

  abbrev pub with_timers : IoManager → List Answer → List TimerOp → Machine
  with_timers s rest l = record { iom = s; answers = rest; timers = l }

  abbrev pub waits_at : IoCall → List Answer → Machine → IoManager → Machine
  waits_at io rest m t = record (start_timer io.timeout (record m { answers = rest })) { iom = t }

  pub attempt_waits :
      (io : IoCall) (m : Machine) (n : ℕ) (rest : List Answer) (t : IoManager)
      → m.answers ≡ interrupts n (fault try_again ∷ rest)
      → add_event memory false io.fd io.event who none m.iom ≡ some (pos 0, t)
      → attempt memory who false io m ≡ some (blocked, waits_at io rest m t)
  unfolding attempt call_loop
  attempt_waits io m n rest t p e =
      ap (looped memory who false io m)
        (ap call_loop p ∙ call_loop-interrupts n (fault try_again ∷ rest))
      ∙ rw e refl

  pub timers_waited :
      (io : IoCall) (rest : List Answer) (m : Machine) (t s : IoManager)
      → cancel_timer io.timeout (record (waits_at io rest m t) { iom = s })
        ≡ record { iom = s; answers = rest; timers = m.timers ++ tick io.timeout }
  timers_waited io rest m t s = elim (Bool-cases (io.timeout == no_timeout)) [
    | inl p ↦ rw p (ap (with_timers s rest) (sym (append-nil m.timers)))
    | inr p ↦
        rw p (
          ap (with_timers s rest)
            (append_assoc m.timers (started io.timeout ∷ []) (cancelled ∷ [])))
  ]
