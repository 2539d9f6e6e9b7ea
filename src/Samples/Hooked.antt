-- ===== src/Samples/Hooked.antt =====
-- Hooked calls on a socket.
use acid_compute.Prelude.{List, ℕ, ◌≡◌, ◌↔◌, refl, arith, true, false, Option, some, [], ◌∷◌, ◌++◌}
use acid_compute.Descriptors.{FdCtx, init}
use acid_compute.IoManager.{read, write, IoManager, new_manager, context_resize}
use acid_compute.IoManager.Adding.{Unjoined}
use acid_compute.Hooks.{
  Answer, count, fault, interrupted, timed_out, in_progress, Machine, returned, blocked, attempt,
  call_loop, retry_loop, on_timeout, do_io, IoCall, connect_with_timeout,
}
use acid_compute.Hooks.Flags.{FileFlags, fcntl_set, fcntl_get, ioctl, fionbio, is_usable}
use acid_compute.Hooks.Blocking.{interrupts, conclusive, tick, wake_up}
use acid_compute.Hooks.Blocking.Timeouts.{Expired, timeout_wakes}
use acid_compute.Hooks.Blocking.Rounds.{Rounds, script, wakes_of, ticks, ready_retries}
use acid_compute.Hooks.Masking.{do_io_masks}
use acid_compute.Hooks.Connecting.{connect_premature}
use acid_compute.Hooks.Flags.Nonblock.{
  Guarded, hooked_sets, shown, fcntl_transparent, ioctl-returns_iff,
}
use acid_compute.Samples.Polls.{zeroed, worker, started, started-IsValid}

abbrev socket : FdCtx
socket = record (init 9 (some true)) { recv_timeout = 300 }

abbrev rounds : Rounds
rounds = (1, started) ∷ (0, started) ∷ []

-- EINTR, EAGAIN, EAGAIN, EINTR, then 42 bytes.
abbrev reader : Machine
reader = record {
  iom = started;
  answers = script rounds (interrupts 1 (count 42 ∷ []));
  timers = [];
}

abbrev call_9 : IoCall
call_9 = record { fd = 9; event = read; timeout = 300 }

timeout_wakes_example :
    (m1 : Machine) × (t : IoManager) × (attempt zeroed worker false call_9 reader
      ≡ some (blocked, m1))
    × (on_timeout false call_9 (some false) m1.iom ≡ some (some true, t))
    × Expired zeroed (λ i. refl) worker 1 call_9 started t
    × (retry_loop zeroed worker (wake_up true t false ∷ []) false call_9 reader
        ≡ some (
          returned (fault timed_out),
          record {
            iom = t;
            answers = script ((0, started) ∷ []) (interrupts 1 (count 42 ∷ []));
            timers = [] ++ tick 300;
          },
        ))
unfolding new_manager context_resize
timeout_wakes_example =
    timeout_wakes zeroed (λ i. refl) worker 1 call_9 reader 1
      (script ((0, started) ∷ []) (interrupts 1 (count 42 ∷ []))) [] false refl started-IsValid
      (omega arith) refl refl refl

ready_retries_example :
    do_io zeroed worker true (some socket) (wakes_of rounds) false 9 read true reader
    ≡ some (
      returned (count 42),
      record { iom = started; answers = []; timers = [] ++ ticks 300 rounds },
    )
unfolding new_manager context_resize
ready_retries_example =
    ready_retries zeroed (λ i. refl) worker socket 9 read true reader rounds 1 (count 42) [] refl
      refl refl refl (started-IsValid, refl, (started-IsValid, refl, started-IsValid)) (omega arith)
      refl refl refl

abbrev refused_peer : Machine
refused_peer = record { iom = started; answers = fault interrupted ∷ fault 104 ∷ []; timers = [] }

refused_peer_run :
    do_io zeroed worker true (some socket) [] true 9 read true refused_peer
    ≡ some (returned (fault 104), record refused_peer { answers = [] })
unfolding do_io retry_loop attempt call_loop
refused_peer_run = refl

do_io_masks_example : conclusive (fault 104) ≡ true
do_io_masks_example =
    do_io_masks zeroed worker socket [] true 9 read true refused_peer
      (record refused_peer { answers = [] }) (fault 104) refl refl refl refused_peer_run

connect_premature_example :
    (m' : Machine) × (connect_with_timeout zeroed worker true
        (some socket)
        (wake_up false started false)
        true
        9
        500
        (fault in_progress)
        (count 0)
        reader
      ≡ some (returned (count 0), m'))
    × Unjoined started m'.iom 9 write
unfolding new_manager context_resize
connect_premature_example =
    connect_premature zeroed (λ i. refl) worker socket (wake_up false started false) 9 500 reader
      refl refl refl started-IsValid (omega arith) refl refl refl

-- A kernel that keeps what it is given.
abbrev set_all : FileFlags → FileFlags → FileFlags × FileFlags
set_all f k = (record { nonblock = false; others = 0 }, f)

abbrev get_all : FileFlags → FileFlags
get_all k = k

abbrev read_only : FileFlags
read_only = record { nonblock = false; others = 2 }

abbrev nonblocking : FileFlags
nonblocking = record { nonblock = true; others = 2 }

abbrev settings : List FileFlags
settings = nonblocking ∷ read_only ∷ []

-- init() has set O_NONBLOCK in the kernel.
fcntl_transparent_example :
    (shown set_all get_all (hooked_sets set_all get_all settings (some socket, nonblocking))
      ≡ false)
    × Guarded
        (hooked_sets set_all get_all settings (some socket, nonblocking)).0
        (hooked_sets set_all get_all settings (some socket, nonblocking)).1
unfolding fcntl_set fcntl_get
fcntl_transparent_example =
    fcntl_transparent set_all get_all (λ f k. refl) settings (some socket) nonblocking read_only
      (λ u. refl) refl

ioctl-returns_iff_example :
    ((fuel : ℕ) × (r : Answer × Option FdCtx) × (ioctl
          (λ request arg. count 0)
          fuel
          fionbio
          true
          (some socket)
        ≡ some r))
    ↔ ((fionbio ≡ fionbio) × (is_usable (some socket) ≡ false))
ioctl-returns_iff_example = ioctl-returns_iff (λ request arg. count 0) fionbio true (some socket)
