-- ===== src/Descriptors.antt =====
-- FdCtx and FdManager of acid/common/fd_manager.{h,cpp}. `fstat` answers none on failure and else
-- whether the descriptor is a socket. A pointer to a context is its index in `contexts`; the call that
-- makes a socket non-blocking in the kernel is not part of the state. An int is below 2 ^ 31.
pub mod Table
use acid_compute.Prelude.{
  ℕ, zero, suc, ◌+◌, ◌-◌, ◌*◌, ◌/◌, ◌%◌, ◌^◌, Bool, true, false, not, ◌&&◌, Option, none, some,
  List, [], ◌∷◌, ◌++◌, ltb, leb, if◌then◌else◌, length, get_elem?, set, take, replicate,
}
use acid_compute.Outcome.{Outcome, ok, undefined, ◌>>=◌}

-- A C++ int: n, or -(n + 1).
pub data ℤ : Type 0 where
  pos negsuc : ℕ → ℤ

pub record FdCtx : Type 0 where
  pub is_init : Bool
  pub is_socket : Bool
  pub sys_nonblock : Bool
  pub user_nonblock : Bool
  pub is_closed : Bool
  pub fd : ℕ
  pub recv_timeout : ℕ
  pub send_timeout : ℕ

abbrev pub no_timeout : ℕ
no_timeout = 2 ^ 64 - 1

-- init() of a new context, by the answer of fstat.
abbrev pub init : ℕ → Option Bool → FdCtx
init fd none = record {
  is_init = false;
  is_socket = false;
  sys_nonblock = false;
  user_nonblock = false;
  is_closed = false;
  fd = fd;
  recv_timeout = no_timeout;
  send_timeout = no_timeout;
}
init fd (some socket) = record {
  is_init = true;
  is_socket = socket;
  sys_nonblock = socket;
  user_nonblock = false;
  is_closed = false;
  fd = fd;
  recv_timeout = no_timeout;
  send_timeout = no_timeout;
}

-- The flag tells whether the type is SO_RCVTIMEO.
abbrev pub set_timeout : Bool → ℕ → FdCtx → FdCtx
set_timeout true ms c = record c { recv_timeout = ms }
set_timeout false ms c = record c { send_timeout = ms }

abbrev pub get_timeout : Bool → FdCtx → ℕ
get_timeout true c = c.recv_timeout
get_timeout false c = c.send_timeout

pub record FdManager : Type 0 where
  pub fd_ctxs : List (Option ℕ)
  pub contexts : List FdCtx

unfoldable pub new_manager : FdManager
new_manager = record { fd_ctxs = replicate 64 none; contexts = [] }

unfoldable pub resize : ℕ → List (Option ℕ) → List (Option ℕ)
resize n v = take n v ++ replicate (n - length v) none

-- static_cast<int>(size) <= fd, for an int that is not negative.
unfoldable pub is_short : ℕ → ℕ → Bool
is_short size fd = let v = size % 2 ^ 32 in if leb (2 ^ 31) v then true else leb v fd

-- The same for -(n + 1).
unfoldable pub is_shorter : ℕ → ℕ → Bool
is_shorter size n = let v = size % 2 ^ 32 in leb (2 ^ 31) v && leb (suc n) (2 ^ 32 - v)

unfoldable pub grown : ℕ → List (Option ℕ) → List (Option ℕ)
unfolding is_short
grown fd v = if is_short (length v) fd then resize (fd * 3 / 2) v else v

-- m_fd_ctxs[fd] = ctx
unfoldable pub store : ℕ → Option ℕ → List (Option ℕ) → Outcome (List (Option ℕ))
store fd o v = if ltb fd (length v) then ok (set v fd o) else undefined

abbrev pub looked : ℕ → List (Option ℕ) → Option (Option ℕ)
looked fd v = if is_short (length v) fd then none else get_elem? v fd

module _ (fstat : ℕ → Option Bool) where
  unfoldable pub create : ℕ → FdManager → Outcome (Option ℕ × FdManager)
  create fd m = do
    v ← store fd (some (length m.contexts)) (grown fd m.fd_ctxs)
    ok (
      some (length m.contexts),
      record { fd_ctxs = v; contexts = m.contexts ++ (init fd (fstat fd) ∷ []) },
    )

  -- By what m_fd_ctxs[fd] holds, none where the vector is short.
  abbrev pub found : Option (Option ℕ) → Bool → ℕ → FdManager → Outcome (Option ℕ × FdManager)
  found (some (some c)) auto_create fd m = ok (some c, m)
  found o false fd m = ok (none, m)
  found o true fd m = create fd m

  unfoldable pub get : ℤ → Bool → FdManager → Outcome (Option ℕ × FdManager)
  get (pos fd) auto_create m = found (looked fd m.fd_ctxs) auto_create fd m
  get (negsuc zero) auto_create m = ok (none, m)
  get (negsuc (suc n)) true m = undefined
  get (negsuc (suc n)) false m =
      if is_shorter (length m.fd_ctxs) (suc n) then ok (none, m) else undefined

unfoldable pub del : ℤ → FdManager → Outcome FdManager
del (negsuc n) m = if is_shorter (length m.fd_ctxs) n then ok m else undefined
del (pos fd) m =
    if is_short (length m.fd_ctxs) fd
    then ok m
    else (do v ← store fd none m.fd_ctxs; ok (record m { fd_ctxs = v }))
