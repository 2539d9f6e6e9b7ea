-- ===== src/ByteArray/Store/Writing.antt =====
-- `write` on a valid array: it succeeds, keeps the array valid and overwrites the stored bytes.
use native.Mathlib.Nat.{add-zero}
use acid_compute.Prelude.{
  ℕ, ◌+◌, ◌*◌, ◌/◌, ◌%◌, ◌^◌, ◌≤◌, ◌<◌, ◌≡◌, refl, sym, ap, ◌∙◌, some, List, [], ◌∷◌, ◌++◌, arith,
  ltb, if◌then◌else◌, length, take, drop, All, length-append, length-replicate, length-take,
  length-drop, take-append-drop,
}
use acid_compute.Outcome.{ok}
use acid_compute.ByteArray.Store.{ByteArray, new_node, write_loop, write}
use acid_compute.ByteArray.Store.Shape.{
  one_block, flatten, pointer, IsBlock, IsValid, content, overwrite, length-flatten, flatten-append,
  All-append, All-take, All-drop,
}
use acid_compute.ByteArray.Store.Overwrite.{overwrite-append, take-overwrite}
use acid_compute.ByteArray.Store.Cursor.{Located, locate, index_after, rest_reaches}
use acid_compute.ByteArray.Store.Blocks.{
  blocks, length-blocks, blocks-IsBlock, flatten-blocks, write_loop-blocks,
}
use acid_compute.ByteArray.Store.Growth.{
  pos_test, extended, blocks_for, blocks_for_bounds, extended-shape, extended-content,
  add_capacity-extended,
}

-- What a write of `buf` makes of `b`.
pub record Wrote (b : ByteArray) (buf : List ℕ) (b' : ByteArray) : Type 0 where
  pub valid : IsValid b'
  pub bytes : content b' ≡ overwrite (content b) b.position buf
  pub moved : b'.position ≡ b.position + length buf
  pub same_base : b'.base_size ≡ b.base_size
  pub same_endian : b'.endian ≡ b.endian

pub length-content : (b : ByteArray) → IsValid b → length (content b) ≡ b.size
length-content b v =
    omega (arith, length-take b.size (flatten b.nodes), length-flatten b.base_size b.nodes v.shape)

-- The state after a write of `buf` to `b`, whose blocks reach far enough.
abbrev filled_in : List ℕ → ByteArray → ByteArray
filled_in buf b =
    let i = b.position / b.base_size in
    let npos = b.position % b.base_size in
    let ns = drop i b.nodes in
    record b {
      nodes = take i b.nodes ++ blocks ns npos buf;
      position = b.position + length buf;
      cur = pointer (i + (npos + length buf) / b.base_size) (i + length ns);
      size = if ltb b.size (b.position + length buf) then b.position + length buf else b.size;
    }

module _ (buf : List ℕ) (b : ByteArray) (positive : 0 < b.base_size)
    (shape : All (IsBlock b.base_size) b.nodes) (filled : b.capacity ≡ length b.nodes * b.base_size)
    (fits : b.capacity < 2 ^ 64) (position_le : b.position ≤ b.size) (size_le : b.size ≤ b.capacity)
    (reaches : b.position + length buf ≤ b.capacity) (some_left : 0 < length buf) where
  located : Located b.base_size b.nodes b.position
  located = locate b.base_size b.nodes b.position positive shape (omega arith)

  reached :
      b.position % b.base_size + length buf
      ≤ length (drop (b.position / b.base_size) b.nodes) * b.base_size
  reached = rest_reaches b.base_size b.nodes b.position (length buf) located (omega arith)

  flatten_whole : flatten (filled_in buf b).nodes ≡ overwrite (flatten b.nodes) b.position buf
  flatten_whole =
      let i : ℕ = b.position / b.base_size in
      let npos : ℕ = b.position % b.base_size in
      let back : All (IsBlock b.base_size) (drop i b.nodes) =
        All-drop (IsBlock b.base_size) i b.nodes shape in
      let fit : npos + length buf ≤ length (flatten (drop i b.nodes)) =
        omega (arith, reached, length-flatten b.base_size (drop i b.nodes) back) in
      flatten-append (take i b.nodes) (blocks (drop i b.nodes) npos buf)
      ∙ ap (λ t. flatten (take i b.nodes) ++ t)
          (flatten-blocks b.base_size (drop i b.nodes) npos buf (omega (arith, located)) back fit)
      ∙ overwrite-append (flatten (take i b.nodes)) (flatten (drop i b.nodes)) npos buf
      ∙ rw (
        located.before,
        ← flatten-append (take i b.nodes) (drop i b.nodes),
        take-append-drop i b.nodes,
        ← located.split,
      )

  length_whole : length (filled_in buf b).nodes ≡ length b.nodes
  length_whole =
      let i : ℕ = b.position / b.base_size in
      omega (
        arith,
        length-append (take i b.nodes) (blocks (drop i b.nodes) (b.position % b.base_size) buf),
        length-blocks (drop i b.nodes) (b.position % b.base_size) buf,
        length-take i b.nodes,
        length-drop i b.nodes,
        located,
      )

  placed_whole :
      (filled_in buf b).cur
      ≡ pointer ((b.position + length buf) / b.base_size) (length (filled_in buf b).nodes)
  placed_whole =
      let i : ℕ = b.position / b.base_size in
      let npos : ℕ = b.position % b.base_size in
      let q : (b.position + length buf) / b.base_size ≡ i + (npos + length buf) / b.base_size =
        index_after b.base_size b.nodes b.position (length buf) positive located in
      let n : length (filled_in buf b).nodes ≡ i + length (drop i b.nodes) =
        omega (arith, length_whole, length-drop i b.nodes, located) in
      rw (q, n)

  filled_in-Wrote : Wrote b buf (filled_in buf b)
  filled_in-Wrote =
      let i : ℕ = b.position / b.base_size in
      let same : length (flatten b.nodes) ≡ b.capacity =
        length-flatten b.base_size b.nodes shape ∙ sym filled in
      record {
        valid = record {
          positive = positive;
          shape =
              All-append (IsBlock b.base_size) (take i b.nodes) _
                (All-take (IsBlock b.base_size) i b.nodes shape)
                (blocks-IsBlock b.base_size (drop i b.nodes) _ buf (omega (arith, located))
                  (All-drop (IsBlock b.base_size) i b.nodes shape));
          filled = filled ∙ ap (λ n. n * b.base_size) (sym length_whole);
          rooted = omega (arith, length_whole, located);
          position_le = ground arith;
          size_le = ground arith;
          fits = fits;
          placed = placed_whole;
        };
        bytes =
            ap (take (filled_in buf b).size) flatten_whole
            ∙ take-overwrite (flatten b.nodes) b.position b.size buf position_le (omega arith);
        moved = refl;
        same_base = refl;
        same_endian = refl;
      }

  loop_fills :
      write_loop
        (drop (b.position / b.base_size) b.nodes)
        (b.position / b.base_size)
        (b.position % b.base_size)
        b.position
        buf
      ≡ ok (
        blocks (drop (b.position / b.base_size) b.nodes) (b.position % b.base_size) buf,
        b.position + length buf,
        (filled_in buf b).cur,
      )
  loop_fills =
      let i : ℕ = b.position / b.base_size in
      let base_le : b.base_size ≤ length b.nodes * b.base_size =
        one_block (length b.nodes) b.base_size (omega (arith, located)) in
      write_loop-blocks b.base_size (drop i b.nodes) i (b.position % b.base_size) b.position buf
        (omega (arith, located)) (omega arith) (All-drop (IsBlock b.base_size) i b.nodes shape)
        some_left reached

-- `write` never fails on a valid array when the position, the length and a block stay below 2 ^
-- 64 in sum: the stored bytes are overwritten from the position on, the size grows as far as they
-- reach, the position moves behind them, and the array stays valid.
pub write-Wrote :
    (buf : List ℕ) (b : ByteArray)
    → IsValid b
    → b.position + length buf + b.base_size < 2 ^ 64
    → (b' : ByteArray) × (write buf b ≡ ok b') × Wrote b buf b'
unfolding write
write-Wrote [] b v h = (
  b,
  refl,
  record {
    valid = v;
    bytes = rw add-zero (sym (take-append-drop b.position (content b)));
    moved = omega arith;
    same_base = refl;
    same_endian = refl;
  },
)
write-Wrote (x ∷ xs) b v h =
    let buf : List ℕ = x ∷ xs in
    let k : ℕ = blocks_for (length buf) b in
    let bounds = blocks_for_bounds (length buf) b v h in
    let e : ByteArray = record (extended k b) { cur = some (b.position / b.base_size) } in
    let more : length e.nodes ≡ length b.nodes + k =
      length-append b.nodes _
      ∙ ap (◌+◌ (length b.nodes)) (length-replicate k (new_node b.base_size)) in
    let filled : e.capacity ≡ length e.nodes * e.base_size =
      omega (arith, ap (λ n. n * b.base_size) more, v.filled) in
    let p : 0 < length buf = omega arith in
    let shape : All (IsBlock e.base_size) e.nodes = extended-shape k b v in
    let size_le : e.size ≤ e.capacity = omega (arith, v.size_le) in
    let w : Wrote e buf (filled_in buf e) =
      filled_in-Wrote buf e v.positive shape filled bounds.1 v.position_le size_le bounds.0 p in
    (
      filled_in buf e,
      rw (
        add_capacity-extended (length buf) b v p,
        loop_fills buf e v.positive shape filled bounds.1 v.position_le size_le bounds.0 p,
        pos_test (length buf) p,
      ),
      record {
        valid = w.valid;
        bytes = w.bytes ∙ ap (λ c. overwrite c b.position buf) (extended-content k b v);
        moved = refl;
        same_base = refl;
        same_endian = refl;
      },
    )
