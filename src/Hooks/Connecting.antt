-- ===== src/Hooks/Connecting.antt =====
-- connect_with_timeout of acid/common/hook.cpp.
use acid_compute.Prelude.{ℕ, ◌<◌, ◌≡◌, refl, true, false, none, some, ◌==◌, Bool-cases, inl, inr}
use acid_compute.Descriptors.{FdCtx, no_timeout}
use acid_compute.IoManager.{write, Events, no_events, Caller, is_some}
use acid_compute.IoManager.Valid.{IsValid}
use acid_compute.IoManager.Waiters.{has_waiter}
use acid_compute.IoManager.Adding.{Unjoined, add_event-Joins}
use acid_compute.Hooks.{
  count, fault, in_progress, start_timer, cancel_timer, Machine, returned, Wake,
  connect_with_timeout,
}

module _ (memory : ℕ → Events) (blank : (i : ℕ) → memory i ≡ no_events) (who : Caller) where
  -- A hooked connect on a socket below 1431655766 that the user left blocking, whose original says EINPROGRESS while
  -- SO_ERROR is 0, on a valid IOManager where nobody waits to write, by a running fiber on a scheduler:
  -- when epoll_ctl refuses, it returns 0 without having waited, and the table of those who wait stays.
  pub connect_premature :
      (c : FdCtx) (w : Wake) (fd timeout : ℕ) (m : Machine)
      → c.is_closed ≡ false
      → c.is_socket ≡ true
      → c.user_nonblock ≡ false
      → IsValid m.iom
      → fd < 1431655766
      → has_waiter m.iom fd write ≡ false
      → is_some who.own_scheduler ≡ true
      → who.running ≡ true
      → (m' : Machine) × (connect_with_timeout memory who true
            (some c)
            w
            true
            fd
            timeout
            (fault in_progress)
            (count 0)
            m
          ≡ some (returned (count 0), m'))
        × Unjoined m.iom m'.iom fd write
  unfolding connect_with_timeout
  connect_premature c w fd timeout m hc hs hu v h k o r =
      let (j, (t, e, u)) =
        add_event-Joins memory blank m.iom fd write who none fd write v h k o r in
      (
        record {
          iom = t;
          answers = m.answers;
          timers = (cancel_timer timeout (start_timer timeout m)).timers;
        },
        elim (Bool-cases (timeout == no_timeout)) [
          | inl p ↦ rw (hc, hs, hu, e, p) refl
          | inr p ↦ rw (hc, hs, hu, e, p) refl
        ],
        u,
      )
