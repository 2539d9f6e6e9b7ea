-- ===== src/Stream/Sockets.antt =====
-- acid/net/socket_stream.cpp on byte arrays, and the loops of acid/common/stream.cpp over it. What
-- the socket answers is a list: the bytes of a recv, the count of a send, an error of the call, or
-- that is_connected() did not hold. The system's part is only defined within the iovecs it is given.
pub mod Silence
use acid_compute.Prelude.{
  ℕ, ◌+◌, ◌-◌, ◌%◌, ◌^◌, Option, none, some, List, [], ◌∷◌, ◌++◌, leb, ltb, ◌==◌, if◌then◌else◌,
  length, take, drop, sub64,
}
use acid_compute.Outcome.{Outcome, ok, undefined, ◌>>=◌}
use acid_compute.ByteArray.Store.{ByteArray, splice, set_position}
use acid_compute.ByteArray.Buffers.{Iovec, get_read_buffers, get_write_buffers}
use acid_compute.ByteArray.Buffers.Views.{block_at, gather}
use acid_compute.Stream.{Answer, received, failed}

pub data Arrival : Type 0 where
  disconnected recv_failed : Arrival
  arrived : List ℕ → Arrival

pub data Departure : Type 0 where
  disconnected send_failed : Departure
  departed : ℕ → Departure

-- The -1 that a call gives, as the size_t of the result.
abbrev pub minus_one : ℕ
minus_one = 2 ^ 64 - 1

-- The block `i` replaced.
abbrev pub with_block : ℕ → List ℕ → List (List ℕ) → List (List ℕ)
with_block i n nodes = take i nodes ++ (n ∷ drop (i + 1) nodes)

-- recvmsg puts the bytes into the iovecs, in their order.
unfoldable pub scatter : List Iovec → List ℕ → List (List ℕ) → Outcome (List (List ℕ))
scatter [] [] nodes = ok nodes
scatter [] (x ∷ bs) nodes = undefined
scatter (v ∷ vs) bs nodes =
    scatter vs (drop v.len bs)
      (with_block v.node (splice (block_at nodes v.node) v.offset (take v.len bs)) nodes)

unfoldable pub moved : ℕ → ByteArray → Outcome (ℕ × ByteArray)
moved n b =
    let forth = (do b' ← set_position (b.position + n) b; ok (n, b')) in
    if n == 0 then ok (0, b) else forth

-- SocketStream::read into a byte array.
unfoldable pub read_array : Arrival → ℕ → ByteArray → Outcome (ℕ × ByteArray)
unfolding moved
read_array disconnected n b = ok (minus_one, b)
read_array recv_failed n b = do (iovs, size, b') ← get_write_buffers n b; ok (minus_one, b')
read_array (arrived bs) n b = do
  (iovs, size, b') ← get_write_buffers n b
  nodes ← scatter iovs bs b'.nodes
  moved (length bs) (record b' { nodes = nodes })

-- Stream::read_fix_size into a byte array, with the arrivals that are left: `none` while a call has
-- no answer yet.
unfoldable pub read_fix_array :
    ℕ → List Arrival → ℕ → ByteArray → Outcome (Option (ℕ × ByteArray × List Arrival))
read_fix_array total [] left b = if left == 0 then ok (some (total, b, [])) else ok none
read_fix_array total (a ∷ more) left b =
    let rest = (do
      (n, b') ← read_array a left b
      let again = read_fix_array total more (sub64 left n) b'
      if n == 0 then ok (some (0, b', more)) else again) in
    if left == 0 then ok (some (total, b, a ∷ more)) else rest

-- SocketStream::write of a byte array: the result, the bytes that went out, and the array.
unfoldable pub write_array : Departure → ℕ → ByteArray → Outcome (ℕ × List ℕ × ByteArray)
unfolding moved
write_array disconnected n b = ok (minus_one, [], b)
write_array send_failed n b = do (iovs, size) ← get_read_buffers n b; ok (minus_one, [], b)
write_array (departed k) n b = do
  (iovs, size) ← get_read_buffers n b
  let out = gather b.nodes iovs
  let sent = (do (m, b') ← moved k b; ok (m, take k out, b'))
  if ltb (length out) k then undefined else sent

-- Stream::write_fix_size of a byte array.
unfoldable pub write_fix_array : ℕ → List Departure → ℕ → ByteArray → Outcome (Option (ℕ × List ℕ))
write_fix_array total [] left b = if left == 0 then ok (some (total, [])) else ok none
write_fix_array total (d ∷ more) left b =
    let rest = (do
      (n, out, b') ← write_array d left b
      let again = (do
        found ← write_fix_array total more (sub64 left n) b'
        ok (elim found [ none ↦ none | some (r, outs) ↦ some (r, out ++ outs) ]))
      if n == 0 then ok (some (0, out)) else again) in
    if left == 0 then ok (some (total, [])) else rest

-- The same answers where a buffer is read.
unfoldable pub as_answer : Arrival → Answer
as_answer disconnected = failed
as_answer recv_failed = failed
as_answer (arrived bs) = received bs
