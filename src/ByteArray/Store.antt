-- ===== src/ByteArray/Store.antt =====
-- acid/common/byte_array.cpp: the chain of blocks, the cursor into it, and the raw operations.
-- A block is the list of its bytes, the chain is a list of blocks, and a pointer into the chain is
-- the index of its block, `none` for nullptr. Lengths are those of live memory: their sums stay
-- below 2 ^ 64, while each subtraction wraps as size_t does. A byte not yet written is 0.
pub mod Shape
pub mod Blocks
pub mod Cursor
pub mod Overwrite
pub mod Growth
pub mod Writing
pub mod Reading
pub mod Seeking
pub mod Slices
pub mod Faults
use acid_compute.Prelude.{
  sub64, ℕ, zero, suc, ◌+◌, ◌-◌, ◌/◌, ◌%◌, ◌^◌, Option, none, some, List, [], ◌∷◌, ◌++◌, ltb, leb,
  ◌==◌, if◌then◌else◌, length, take, drop, replicate,
}
use acid_compute.Outcome.{Outcome, ok, out_of_range, undefined, ◌>>=◌, deref}

pub data Endian : Type 0 where
  little big : Endian

pub record ByteArray : Type 0 where
  pub base_size : ℕ
  pub position : ℕ
  pub capacity : ℕ
  pub size : ℕ
  pub endian : Endian
  pub nodes : List (List ℕ)
  pub cur : Option ℕ

abbrev pub new_node : ℕ → List ℕ
new_node n = replicate n 0

unfoldable pub make : ℕ → Endian → ByteArray
make base en = record {
  base_size = base;
  position = 0;
  capacity = base;
  size = 0;
  endian = en;
  nodes = new_node base ∷ [];
  cur = some 0;
}

unfoldable pub get_read_size : ByteArray → ℕ
get_read_size b = sub64 b.size b.position

unfoldable pub get_capacity : ByteArray → ℕ
get_capacity b = sub64 b.capacity b.position

-- `node->next`, for the block with index `i` that `rest` follows.
abbrev pub next : ℕ → List (List ℕ) → Option ℕ
next i [] = none
next i (n ∷ rest) = some (suc i)

unfoldable pub append_nodes : ℕ → ByteArray → ByteArray
append_nodes zero b = b
append_nodes (suc k) b = append_nodes k (record b {
  nodes = b.nodes ++ (new_node b.base_size ∷ []);
  capacity = b.capacity + b.base_size;
})

-- The first of `count` new blocks behind `len` old ones.
abbrev pub first_new : ℕ → ℕ → Option ℕ
first_new zero len = none
first_new (suc count) len = some len

unfoldable pub grow : ℕ → ℕ → ByteArray → ByteArray
unfolding append_nodes
grow old count b =
    let b' = append_nodes count b in
    if old == 0 then record b' { cur = first_new count (length b.nodes) } else b'

unfoldable pub add_capacity : ℕ → ByteArray → ByteArray
unfolding grow get_capacity
add_capacity n b =
    let old = get_capacity b in
    if n == 0
    then b
    else if ltb n old
    then b
    else grow old ((n - old + b.base_size - 1) / b.base_size) b

-- memcpy of `bytes` into a block at `npos`.
unfoldable pub splice : List ℕ → ℕ → List ℕ → List ℕ
splice n npos bytes = take npos n ++ (bytes ++ drop (npos + length bytes) n)

-- The loop of `write`: the blocks from m_cur on, its index, npos, m_position and what is left to
-- write. It gives the blocks, m_position and m_cur.
unfoldable pub write_loop :
    List (List ℕ) → ℕ → ℕ → ℕ → List ℕ → Outcome (List (List ℕ) × ℕ × Option ℕ)
write_loop [] i npos pos buf = undefined
write_loop (n ∷ ns) i npos pos buf =
    let ncap = sub64 (length n) npos in
    let rest = write_loop ns (suc i) 0 (pos + ncap) (drop ncap buf) in
    if leb (length buf) ncap
    then ok
        (splice n npos buf ∷ ns, pos + length buf, if ncap == length buf then next i ns else some i)
    else (rest >>= λ (ns', pos', cur'). ok (splice n npos (take ncap buf) ∷ ns', pos', cur'))

unfoldable pub write : List ℕ → ByteArray → Outcome ByteArray
unfolding add_capacity write_loop
write buf b =
    let b' = add_capacity (length buf) b in
    let written = (do
      i ← deref b'.cur
      (ns, pos, cur) ← write_loop (drop i b'.nodes) i (b'.position % b'.base_size) b'.position buf
      ok (record b' {
        nodes = take i b'.nodes ++ ns;
        position = pos;
        cur = cur;
        size = if ltb b'.size pos then pos else b'.size;
      })) in
    if length buf == 0 then ok b else written

-- memcpy of `size` bytes out of a block from `npos`.
unfoldable pub copy : List ℕ → ℕ → ℕ → Outcome (List ℕ)
copy n npos size = if leb (npos + size) (length n) then ok (take size (drop npos n)) else undefined

-- `m_cur->size`
abbrev pub head_size : List (List ℕ) → ℕ
head_size [] = 0
head_size (n ∷ ns) = length n

-- The loop of `read`: the bytes read, m_position and m_cur.
unfoldable pub read_loop : List (List ℕ) → ℕ → ℕ → ℕ → ℕ → ℕ → Outcome (List ℕ × ℕ × Option ℕ)
read_loop [] i npos ncap pos size = undefined
read_loop (n ∷ ns) i npos ncap pos size =
    let rest = read_loop ns (suc i) 0 (head_size ns) (pos + ncap) (size - ncap) in
    let whole = (do
      bytes ← copy n npos size
      ok (bytes, pos + size, if ncap == size then next i ns else some i)) in
    let part = (do
      bytes ← copy n npos ncap
      (more, pos', cur') ← rest
      ok (bytes ++ more, pos', cur')) in
    if size == 0 then ok ([], pos, some i) else if leb size ncap then whole else part

-- `ncap` starts as `m_cur->size - m_position`, as the source has it.
unfoldable pub read : ℕ → ByteArray → Outcome (List ℕ × ByteArray)
read n b =
    let found = (do
      i ← deref b.cur
      let ns = drop i b.nodes
      (bytes, pos, cur) ←
          read_loop ns i (b.position % b.base_size) (sub64 (head_size ns) b.position) b.position n
      ok (bytes, record b { position = pos; cur = cur })) in
    if ltb (get_read_size b) n then out_of_range else found

-- `read` with a position. Its loop is that of `read`, on a cursor of its own.
unfoldable pub read_at : ℕ → ℕ → ByteArray → Outcome (List ℕ)
read_at n position b =
    let found = (do
      i ← deref b.cur
      let ns = drop i b.nodes
      let npos = position % b.base_size
      (bytes, pos, cur) ← read_loop ns i npos (sub64 (head_size ns) npos) position n
      ok bytes) in
    if ltb (sub64 b.size position) n then out_of_range else found

unfoldable pub to_string : ByteArray → Outcome (List ℕ)
to_string b =
    let n = get_read_size b in let bytes = read_at n b.position b in if n == 0 then ok [] else bytes

-- The two tests of `set_position` that look for the block.
unfoldable pub seek : List (List ℕ) → ℕ → ℕ → Outcome (Option ℕ)
seek [] i pos = undefined
seek (n ∷ ns) i pos =
    let rest = seek ns (suc i) (pos - length n) in
    if ltb (length n) pos then rest else ok (if pos == length n then next i ns else some i)

unfoldable pub set_position : ℕ → ByteArray → Outcome ByteArray
unfolding seek
set_position pos b =
    let found = (do
      cur ← seek b.nodes 0 pos
      ok (record b { position = pos; size = if ltb b.size pos then pos else b.size; cur = cur })) in
    if ltb b.capacity pos then out_of_range else found

unfoldable pub clear : ByteArray → ByteArray
clear b = record b {
  position = 0;
  size = 0;
  capacity = b.base_size;
  nodes = take 1 b.nodes;
  cur = some 0;
}
