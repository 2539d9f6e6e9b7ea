-- ===== src/Hooks/Flags.antt =====
-- fcntl, ioctl, setsockopt and sleep of acid/common/hook.cpp.
pub mod Nonblock
use acid_compute.Prelude.{
  ℕ, zero, suc, ◌+◌, ◌-◌, ◌*◌, ◌/◌, ◌%◌, ◌^◌, Bool, true, false, not, ◌&&◌, ◌||◌, Option, none,
  some, List, [], ◌∷◌, ◌++◌, ◌==◌, if◌then◌else◌, get_elem?, set,
}
use acid_compute.Outcome.{Outcome, ok, out_of_range, undefined}
use acid_compute.Descriptors.{
  ℤ, pos, negsuc, FdCtx, FdManager, get_timeout, set_timeout, get, del, no_timeout,
}
use acid_compute.IoManager.{
  ◌>>=◌, Event, read, write, Events, IoManager, Caller, add_event, cancel_event, cancel_all,
}
use acid_compute.Hooks.{Answer}

-- An int of flags: O_NONBLOCK and the other bits.
pub record FileFlags : Type 0 where
  pub nonblock : Bool
  pub others : ℕ

abbrev pub usable : FdCtx → Bool
usable c = not c.is_closed && c.is_socket

-- fcntl with F_SETFL and F_GETFL, by the original calls.
module _ {K : Type 0} (set_flags : FileFlags → K → FileFlags × K) (get_flags : K → FileFlags) where
  unfoldable pub fcntl_set : FileFlags → Option FdCtx → K → FileFlags × Option FdCtx × K
  fcntl_set arg none k = let (r, k') = set_flags arg k in (r, none, k')
  fcntl_set arg (some c) k =
      let (r, k') = set_flags arg k in
      let (r', k'') = set_flags (record arg { nonblock = c.sys_nonblock }) k in
      if usable c
      then (r', some (record c { user_nonblock = arg.nonblock }), k'')
      else (r, some c, k')

  unfoldable pub fcntl_get : Option FdCtx → K → FileFlags
  fcntl_get none k = get_flags k
  fcntl_get (some c) k =
      let arg = get_flags k in if usable c then record arg { nonblock = c.user_nonblock } else arg

abbrev pub fionbio : ℕ
fionbio = 21537

abbrev pub marked : Bool → Option FdCtx → Option FdCtx
marked flag none = none
marked flag (some c) = some (record c { user_nonblock = flag })

abbrev pub is_usable : Option FdCtx → Bool
is_usable none = false
is_usable (some c) = usable c

-- The last line calls ioctl itself. The argument is whether the int that `arg` points at is not 0.
module _ (ioctl_f : ℕ → Bool → Answer) where
  unfoldable pub ioctl : ℕ → ℕ → Bool → Option FdCtx → Option (Answer × Option FdCtx)
  ioctl zero request arg c = none
  ioctl (suc fuel) request arg c =
      let other = ioctl fuel request arg c in
      let again = ioctl fuel request arg (marked arg c) in
      if request == fionbio
      then (if is_usable c then again else some (ioctl_f request arg, c))
      else other

-- What setsockopt keeps of a timeval for SO_RCVTIMEO and SO_SNDTIMEO.
unfoldable pub capture_timeout : Bool → ℕ → ℕ → Option FdCtx → Option FdCtx
capture_timeout receives sec usec none = none
capture_timeout receives sec usec (some c) =
    some (set_timeout receives ((sec * 1000 + usec / 1000) % 2 ^ 64) c)

-- The timer of sleep(), of an unsigned int.
unfoldable pub sleep_ms : ℕ → ℕ
sleep_ms seconds = seconds * 1000 % 2 ^ 32
