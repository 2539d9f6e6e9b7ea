-- ===== src/Hooks/Masking.antt =====
-- do_io of acid/common/hook.cpp: the errors that its caller can see.
use acid_compute.Prelude.{
  ℕ, ◌≡◌, refl, sym, ap, ◌∙◌, arith, Bool, true, false, not, Option, none, some, List, [], ◌∷◌,
  ◌==◌, Bool-cases, inl, inr, zero, suc,
}
use acid_compute.Descriptors.{ℤ, pos, negsuc, FdCtx, get_timeout}
use acid_compute.IoManager.{◌>>=◌, Event, Events, IoManager, Caller, add_event}
use acid_compute.Hooks.{
  Answer, count, fault, interrupted, try_again, Machine, Progress, returned, refused, blocked,
  starved, IoCall, call_loop, start_timer, added, looped, attempt, Wake, continued, retry_loop,
  do_io,
}
use acid_compute.Hooks.Blocking.{conclusive, do_io-hooked}

-- What has returned an answer has returned neither EINTR nor EAGAIN.
abbrev settled : Option (Progress × Machine) → Bool
settled none = true
settled (some (returned a, m)) = conclusive a
settled (some (refused, m)) = true
settled (some (blocked, m)) = true
settled (some (starved, m)) = true

abbrev uninterrupted : Option (Answer × List Answer) → Bool
uninterrupted none = true
uninterrupted (some (count n, rest)) = true
uninterrupted (some (fault e, rest)) = not (e == interrupted)

call_loop-uninterrupted : (answers : List Answer) → uninterrupted (call_loop answers) ≡ true
unfolding call_loop
call_loop-uninterrupted [] = refl
call_loop-uninterrupted (count n ∷ answers) = refl
call_loop-uninterrupted (fault e ∷ answers) = elim (Bool-cases (e == interrupted)) [
  | inl p ↦ rw p (call_loop-uninterrupted answers)
  | inr p ↦ rw (p, p) refl
]

added-settled :
    (timeout : ℕ) (m : Machine) (o : Option (ℤ × IoManager))
    → settled (o >>= (λ r. some (added timeout m r))) ≡ true
added-settled timeout m none = refl
added-settled timeout m (some (pos zero, s)) = refl
added-settled timeout m (some (pos (suc n), s)) = refl
added-settled timeout m (some (negsuc n, s)) = refl

continued-settled :
    (fired : Bool) (timeout : ℕ) (s : IoManager) (retry : Machine → Option (Progress × Machine))
    (o : Option (Progress × Machine))
    → ((m : Machine) → settled (retry m) ≡ true)
    → settled o ≡ true
    → settled (o >>= continued fired timeout s retry) ≡ true
continued-settled fired timeout s retry none h k = refl
continued-settled fired timeout s retry (some (returned a, m)) h k = k
continued-settled fired timeout s retry (some (refused, m)) h k = refl
continued-settled true timeout s retry (some (blocked, m)) h k = refl
continued-settled false timeout s retry (some (blocked, m)) h k = h _
continued-settled fired timeout s retry (some (starved, m)) h k = refl

module _ (memory : ℕ → Events) (who : Caller) where
  looped-settled :
      (denied : Bool) (io : IoCall) (m : Machine) (o : Option (Answer × List Answer))
      → uninterrupted o ≡ true
      → settled (looped memory who denied io m o) ≡ true
  looped-settled denied io m none h = refl
  looped-settled denied io m (some (count n, rest)) h = refl
  looped-settled denied io m (some (fault e, rest)) h = elim (Bool-cases (e == try_again)) [
    | inl p ↦
        let m' : Machine = start_timer io.timeout (record m { answers = rest }) in
        rw p (added-settled io.timeout m' (add_event memory denied io.fd io.event who none m.iom))
    | inr p ↦ rw (p, p) (ground arith)
  ]

  attempt-settled :
      (denied : Bool) (io : IoCall) (m : Machine) → settled (attempt memory who denied io m) ≡ true
  unfolding attempt
  attempt-settled denied io m =
      looped-settled denied io m (call_loop m.answers) (call_loop-uninterrupted m.answers)

  retry_loop-settled :
      (wakes : List Wake) (denied : Bool) (io : IoCall) (m : Machine)
      → settled (retry_loop memory who wakes denied io m) ≡ true
  unfolding retry_loop
  retry_loop-settled [] denied io m = attempt-settled denied io m
  retry_loop-settled (w ∷ wakes) denied io m =
      continued-settled w.fired io.timeout w.found (retry_loop memory who wakes w.refuses io)
        (attempt memory who denied io m) (retry_loop-settled wakes w.refuses io)
        (attempt-settled denied io m)

  -- Whatever the original calls answer, whoever wakes it, in any state of the IOManager: a hooked call on
  -- a socket that the user left blocking returns no answer that is EINTR or EAGAIN.
  pub do_io_masks :
      (c : FdCtx) (wakes : List Wake) (denied : Bool) (fd : ℕ) (event : Event) (receives : Bool)
      (m m' : Machine) (a : Answer)
      → c.is_closed ≡ false
      → c.is_socket ≡ true
      → c.user_nonblock ≡ false
      → do_io memory who true (some c) wakes denied fd event receives m ≡ some (returned a, m')
      → conclusive a ≡ true
  do_io_masks c wakes denied fd event receives m m' a h k l p =
      let io : IoCall = record { fd = fd; event = event; timeout = get_timeout receives c } in
      sym (ap settled (sym (do_io-hooked memory who c wakes denied fd event receives m h k l) ∙ p))
      ∙ retry_loop-settled wakes denied io m
