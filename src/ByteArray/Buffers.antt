-- ===== src/ByteArray/Buffers.antt =====
-- acid/common/byte_array.cpp: the iovec views that SocketStream hands to recv and send. An iovec is
-- a block's index, an offset in it and a length.
pub mod Views
use acid_compute.Prelude.{
  sub64, ℕ, suc, ◌+◌, ◌-◌, ◌/◌, ◌%◌, List, [], ◌∷◌, ltb, leb, ◌==◌, if◌then◌else◌, length, drop,
}
use acid_compute.Outcome.{Outcome, ok, undefined, ◌>>=◌, deref}
use acid_compute.ByteArray.Store.{ByteArray, head_size, get_read_size, add_capacity}

pub record Iovec : Type 0 where
  pub node : ℕ
  pub offset : ℕ
  pub len : ℕ

-- The loop of the three functions: what it pushes. The branch that ends the loop leaves it before
-- the push.
unfoldable pub buffers_loop : List (List ℕ) → ℕ → ℕ → ℕ → ℕ → Outcome (List Iovec)
buffers_loop [] i npos ncap len = undefined
buffers_loop (n ∷ ns) i npos ncap len =
    let rest = buffers_loop ns (suc i) 0 (head_size ns) (len - ncap) in
    if len == 0
    then ok []
    else if leb len ncap
    then ok []
    else (rest >>= λ iovs. ok (record { node = i; offset = npos; len = ncap } ∷ iovs))

-- The buffers from the block `i` and the offset of `position` on.
unfoldable pub buffers_from : ℕ → ℕ → ℕ → ByteArray → Outcome (List Iovec × ℕ)
buffers_from i position n b = do
  let ns = drop i b.nodes
  let npos = position % b.base_size
  iovs ← buffers_loop ns i npos (sub64 (head_size ns) npos) n
  ok (iovs, n)

-- The length that there is to read.
abbrev pub clipped : ℕ → ByteArray → ℕ
clipped len b = if ltb (get_read_size b) len then get_read_size b else len

unfoldable pub get_read_buffers : ℕ → ByteArray → Outcome (List Iovec × ℕ)
get_read_buffers len b =
    let found = (do i ← deref b.cur; buffers_from i b.position (clipped len b) b) in
    if clipped len b == 0 then ok ([], 0) else found

-- With a position: the walk over `position / m_base_size` blocks starts at m_cur.
unfoldable pub get_read_buffers_at : ℕ → ℕ → ByteArray → Outcome (List Iovec × ℕ)
get_read_buffers_at len position b =
    let found = (do
      i ← deref b.cur
      buffers_from (i + position / b.base_size) position (clipped len b) b) in
    if clipped len b == 0 then ok ([], 0) else found

unfoldable pub get_write_buffers : ℕ → ByteArray → Outcome (List Iovec × ℕ × ByteArray)
get_write_buffers len b =
    let b' = add_capacity len b in
    let found = (do
      i ← deref b'.cur
      (iovs, n) ← buffers_from i b'.position len b'
      ok (iovs, n, b')) in
    if len == 0 then ok ([], 0, b) else found
