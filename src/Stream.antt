-- ===== src/Stream.antt =====
-- acid/common/stream.cpp: reading a fixed number of bytes from a connection that gives them in
-- pieces. What the calls of the virtual `read` give is a list: bytes put at the address asked for, or
-- an error, -1. The buffer is the list of its bytes; a store outside of it is undefined.
pub mod Pieces
pub mod Sockets
use acid_compute.Prelude.{
  ℕ, ◌+◌, ◌-◌, ◌%◌, ◌^◌, Option, none, some, List, [], ◌∷◌, ◌++◌, ltb, leb, ◌==◌, if◌then◌else◌,
  length, take, drop, sub64,
}
use acid_compute.Outcome.{Outcome, ok, undefined, ◌>>=◌}

pub data Answer : Type 0 where
  received : List ℕ → Answer
  failed : Answer

-- The answer as the size_t that it is assigned to.
unfoldable pub len : Answer → ℕ
len (received bs) = length bs
len failed = 2 ^ 64 - 1

-- What the call writes from `offset` on.
unfoldable pub place : Answer → ℕ → List ℕ → Outcome (List ℕ)
place (received bs) offset buf =
    if leb (offset + length bs) (length buf)
    then ok (take offset buf ++ (bs ++ drop (offset + length bs) buf))
    else undefined
place failed offset buf = ok buf

-- The loop, with the result of the function: `none` while a call has no answer yet.
unfoldable pub read_fix : ℕ → List Answer → ℕ → ℕ → List ℕ → Outcome (Option (ℕ × List ℕ))
unfolding len place
read_fix total [] offset left buf = if left == 0 then ok (some (total, buf)) else ok none
read_fix total (a ∷ more) offset left buf =
    let rest = (do
      buf' ← place a offset buf
      read_fix total more ((offset + len a) % 2 ^ 64) (sub64 left (len a)) buf') in
    if left == 0 then ok (some (total, buf)) else if len a == 0 then ok (some (0, buf)) else rest

-- Stream::read_fix_size into a buffer.
unfoldable pub read_fix_size : List Answer → ℕ → List ℕ → Outcome (Option (ℕ × List ℕ))
unfolding read_fix
read_fix_size answers size buf = read_fix size answers 0 size buf
