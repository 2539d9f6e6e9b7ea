-- ===== src/ByteArray/Store/Faults.antt =====
-- `read` from behind the first block, where its room is `m_cur->size - m_position`.
use native.Mathlib.Nat.{div_self, mod_self}
use acid_compute.Prelude.{
  sub64, sub64-eq, ℕ, suc, ◌+◌, ◌-◌, ◌*◌, ◌/◌, ◌%◌, ◌≤◌, ◌<◌, ◌≡◌, refl, ap, ◌∙◌, List, [], some,
  ◌∷◌, ◌++◌, arith, length, length-drop, drop, drop-append_add, All, ge→ltb,
}
use acid_compute.Outcome.{ok, undefined}
use acid_compute.ByteArray.Store.{ByteArray, head_size, copy, read_loop, get_read_size, read}
use acid_compute.ByteArray.Store.Shape.{flatten, pointer, IsBlock, IsValid, content, All-drop}
use acid_compute.ByteArray.Store.Cursor.{Located, locate}
use acid_compute.ByteArray.Store.Growth.{cur_inside}
use acid_compute.ByteArray.Store.Slices.{slice-take}
use acid_compute.ByteArray.Store.Reading.{slice, head_size-IsBlock, read_loop-slice}

overrun :
    (base : ℕ) (ns : List (List ℕ)) (i npos ncap pos n : ℕ)
    → All (IsBlock base) ns
    → n ≤ ncap
    → base < npos + n
    → npos < base
    → read_loop ns i npos ncap pos n ≡ undefined
unfolding read_loop copy
overrun base [] i npos ncap pos n a h k l = refl
overrun base (m ∷ ns) i npos ncap pos n a h k l = ground arith

-- On a valid array with the position behind the first byte of the second block, a read of `n`
-- stored bytes that runs past the end of its block reads memory outside of the block.
pub read_overruns :
    (n : ℕ) (b : ByteArray)
    → IsValid b
    → b.base_size < b.position
    → b.base_size < b.position % b.base_size + n
    → b.position + n ≤ b.size
    → read n b ≡ undefined
unfolding read get_read_size
read_overruns n b v late crosses fit =
    let p : ℕ = b.position in
    let i : ℕ = p / b.base_size in
    let ns : List (List ℕ) = drop i b.nodes in
    let inside : p < b.capacity = omega arith in
    let l : Located b.base_size b.nodes p =
      locate b.base_size b.nodes p v.positive v.shape (omega arith) in
    let shape : All (IsBlock b.base_size) ns = All-drop (IsBlock b.base_size) i b.nodes v.shape in
    let whole : head_size ns ≡ b.base_size = head_size-IsBlock b.base_size ns shape (omega arith) in
    let wrapped : n ≤ sub64 b.base_size p = unfold sub64 in omega arith in
    rw (
      sub64-eq b.size p v.position_le (omega arith),
      ge→ltb (b.size - p) n (omega arith),
      cur_inside b v inside,
      whole,
      overrun b.base_size ns i (p % b.base_size) (sub64 b.base_size p) p n shape wrapped crosses
          l.offset_lt,
    )

skip :
    (base : ℕ) (n : List ℕ) (ns : List (List ℕ)) (i pos k : ℕ)
    → All (IsBlock base) ns
    → 0 < length ns
    → 0 < k
    → k ≤ length ns * base
    → 0 < base
    → read_loop (n ∷ ns) i 0 0 pos k
      ≡ ok (
        slice 0 k (flatten ns),
        pos + 0 + k,
        pointer (suc i + (0 + k) / base) (suc i + length ns),
      )
unfolding read_loop copy
skip base n ns i pos k a some_block some_left fit positive = ground (
  arith,
  head_size-IsBlock base ns a some_block,
  read_loop-slice base ns (suc i) 0 (pos + 0) k positive a some_block (omega arith),
)

skip_from :
    (base : ℕ) (ns : List (List ℕ)) (pos k : ℕ)
    → All (IsBlock base) ns
    → 0 < base
    → 0 < k
    → base + base + k ≤ length ns * base
    → read_loop (drop 1 ns) 1 0 0 pos k
      ≡ ok (
        slice (base + base) k (flatten ns),
        pos + 0 + k,
        pointer (2 + (0 + k) / base) (length ns),
      )
skip_from base [] pos k a h p fit = absurd (omega arith)
skip_from base (n ∷ []) pos k a h p fit = absurd (omega arith)
skip_from base (n ∷ m ∷ []) pos k a h p fit = absurd (omega arith)
skip_from base (n ∷ m ∷ l ∷ ns) pos k a h p fit =
    let rest : List (List ℕ) = l ∷ ns in
    let two : base + base ≡ length n + (length m + 0) = omega (arith, a.0, a.1.0) in
    skip base m rest 1 pos k a.1.1 (omega arith) p (omega arith) h
    ∙ rw
        (
          two,
          drop-append_add (length m + 0) n (m ++ flatten rest),
          drop-append_add 0 m (flatten rest),
        )
        (ground arith)

-- On a valid array with the position at the first byte of the second block, a read of `n` bytes,
-- of which the third block's first are stored, leaves the second block out: it gives the bytes
-- from the third block on.
pub read_skips_block :
    (n : ℕ) (b : ByteArray)
    → IsValid b
    → b.position ≡ b.base_size
    → 0 < n
    → b.base_size + b.base_size + n ≤ b.size
    → (b' : ByteArray) × (read n b ≡ ok (slice (b.base_size + b.base_size) n (content b), b'))
unfolding read get_read_size
read_skips_block n b v second some_left fit =
    let base : ℕ = b.base_size in
    let p : ℕ = b.position in
    let inside : p < b.capacity = omega arith in
    let block : p / base ≡ 1 = ap (λ k. k / base) second ∙ div_self v.positive in
    let start : p % base ≡ 0 = ap (λ k. k % base) second ∙ mod_self base in
    let cur : b.cur ≡ some 1 = cur_inside b v inside ∙ ap some block in
    let l : Located base b.nodes p = locate base b.nodes p v.positive v.shape (omega arith) in
    let two : 1 < length b.nodes = rw block at l.index_lt in
    let whole : head_size (drop 1 b.nodes) ≡ base =
      head_size-IsBlock base _ (All-drop (IsBlock base) 1 b.nodes v.shape)
        (omega (arith, length-drop 1 b.nodes)) in
    let no_room : sub64 base p ≡ 0 = sub64-eq base p (omega arith) (omega arith) ∙ omega arith in
    (
      moved,
      rw (
        sub64-eq b.size p v.position_le (omega arith),
        ge→ltb (b.size - p) n (omega arith),
        cur,
        whole,
        start,
        no_room,
        skip_from base b.nodes p n v.shape v.positive some_left (omega arith),
        slice-take (base + base) n b.size (flatten b.nodes) fit,
      ),
    )
  where
    moved : ByteArray
    moved = record b {
      position = b.position + 0 + n;
      cur = pointer (2 + (0 + n) / b.base_size) (length b.nodes);
    }
