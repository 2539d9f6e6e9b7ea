-- ===== src/Hooks/Blocking/Rounds.antt =====
-- do_io of acid/common/hook.cpp: the fiber is woken by its event and tries again.
use acid_compute.Prelude.{
  ℕ, ◌^◌, ◌<◌, ◌≡◌, refl, sym, ap, ◌∙◌, Bool, true, false, none, some, List, [], ◌∷◌, ◌++◌,
  append-nil, append_assoc, map,
}
use acid_compute.Descriptors.{FdCtx, get_timeout}
use acid_compute.IoManager.{Event, Events, no_events, IoManager, Caller, is_some}
use acid_compute.IoManager.Valid.{IsValid}
use acid_compute.IoManager.Waiters.{has_waiter}
use acid_compute.Hooks.{
  Answer, fault, try_again, TimerOp, Machine, returned, blocked, IoCall, cancel_timer, attempt,
  Wake, retry_loop, do_io,
}
use acid_compute.IoManager.Adding.{add_event_accepts}
use acid_compute.Hooks.Blocking.{
  interrupts, conclusive, tick, wake_up, with_timers, waits_at, attempt_concludes, attempt_waits,
  timers_waited, do_io-hooked,
}

-- The rounds in which a call waits: how often it is interrupted first, and how it is woken.
abbrev pub Rounds : Type 0
Rounds = List (ℕ × IoManager)

abbrev pub script : Rounds → List Answer → List Answer
script [] answers = answers
script ((n, s) ∷ rounds) answers = interrupts n (fault try_again ∷ script rounds answers)

abbrev pub wakes_of : Rounds → List Wake
wakes_of rounds = map (λ r. wake_up false r.1 false) rounds

-- Nobody else waits for the event whenever the call starts to.
abbrev pub Accepts : IoCall → IoManager → Rounds → Type 0
Accepts io s [] = IsValid s
Accepts io s ((n, t) ∷ rounds) =
    IsValid s × (has_waiter s io.fd io.event ≡ false) × Accepts io t rounds

abbrev pub ticks : ℕ → Rounds → List TimerOp
ticks timeout [] = []
ticks timeout (r ∷ rounds) = tick timeout ++ ticks timeout rounds

abbrev pub last_found : IoManager → Rounds → IoManager
last_found s [] = s
last_found s ((n, t) ∷ rounds) = last_found t rounds

module _ (memory : ℕ → Events) (blank : (i : ℕ) → memory i ≡ no_events) (who : Caller) where
  retry_woken :
      (io : IoCall) (m m1 : Machine) (s : IoManager) (wakes : List Wake)
      → attempt memory who false io m ≡ some (blocked, m1)
      → retry_loop memory who (wake_up false s false ∷ wakes) false io m
        ≡ retry_loop memory who wakes false io (cancel_timer io.timeout (record m1 { iom = s }))
  unfolding retry_loop
  retry_woken io m m1 s wakes p = rw p refl

  retry_loop_ready :
      (io : IoCall) (m : Machine) (rounds : Rounds) (n : ℕ) (a : Answer) (rest : List Answer)
      → m.answers ≡ script rounds (interrupts n (a ∷ rest))
      → Accepts io m.iom rounds
      → io.fd < 2 ^ 31
      → who.running ≡ true
      → conclusive a ≡ true
      → retry_loop memory who (wakes_of rounds) false io m
        ≡ some (
          returned a,
          record {
            iom = last_found m.iom rounds;
            answers = rest;
            timers = m.timers ++ ticks io.timeout rounds;
          },
        )
  unfolding retry_loop
  retry_loop_ready io m [] n a rest p v h r c =
      attempt_concludes memory blank who false io m n a rest p c
      ∙ ap (λ l. some (returned a, with_timers memory blank who m.iom rest l))
          (sym (append-nil m.timers))
  retry_loop_ready io m ((k, s) ∷ rounds) n a rest p (v, w, x) h r c =
      let left = script rounds (interrupts n (a ∷ rest)) in
      let (t, q) = add_event_accepts memory blank m.iom io.fd io.event who none v h w r in
      let e = attempt_waits memory blank who io m k left t p q in
      let m1 : Machine = with_timers memory blank who s left (m.timers ++ tick io.timeout) in
      retry_woken io m (waits_at memory blank who io left m t) s (wakes_of rounds) e
      ∙ ap (retry_loop memory who (wakes_of rounds) false io)
          (timers_waited memory blank who io left m t s)
      ∙ retry_loop_ready io m1 rounds n a rest refl x h r c
      ∙ ap (λ l. some (returned a, with_timers memory blank who (last_found s rounds) rest l))
          (append_assoc m.timers (tick io.timeout) (ticks io.timeout rounds))

  -- A hooked call on a socket that the user left blocking, below 2 ^ 31 as every int, whose original
  -- returns EINTR some times and then EAGAIN in each of the rounds, and at last, after some more EINTR, an
  -- answer that is neither, by a running fiber on a scheduler, where each wait starts on a valid IOManager with nobody waiting for the event, epoll_ctl accepts, and the event wakes
  -- it before the timer: it returns that answer, takes no answer behind it, and each of its timers is
  -- cancelled before the next is started.
  pub ready_retries :
      (c : FdCtx) (fd : ℕ) (event : Event) (receives : Bool) (m : Machine) (rounds : Rounds) (n : ℕ)
      (a : Answer) (rest : List Answer)
      → c.is_closed ≡ false
      → c.is_socket ≡ true
      → c.user_nonblock ≡ false
      → m.answers ≡ script rounds (interrupts n (a ∷ rest))
      → Accepts (record { fd = fd; event = event; timeout = get_timeout receives c }) m.iom rounds
      → fd < 2 ^ 31
      → is_some who.own_scheduler ≡ true
      → who.running ≡ true
      → conclusive a ≡ true
      → do_io memory who true (some c) (wakes_of rounds) false fd event receives m
        ≡ some (
          returned a,
          record {
            iom = last_found m.iom rounds;
            answers = rest;
            timers = m.timers ++ ticks (get_timeout receives c) rounds;
          },
        )
  ready_retries c fd event receives m rounds n a rest hc hs hu p x h o r k =
      do_io-hooked memory who c (wakes_of rounds) false fd event receives m hc hs hu
      ∙ retry_loop_ready (record { fd = fd; event = event; timeout = get_timeout receives c }) m
          rounds n a rest p x h r k
