-- ===== src/ByteArray/Store/Slices.antt =====
-- `read_at`, `to_string` and `read`: which stored bytes they give, and where `read` goes wrong.
use native.Mathlib.Nat.{div-eq_of_lt, mod-eq_of_lt}
use acid_compute.Prelude.{
  sub64, sub64-eq, ℕ, ◌+◌, ◌-◌, ◌*◌, ◌/◌, ◌%◌, ◌^◌, ◌≤◌, ◌<◌, ◌≡◌, refl, sym, ap, ◌∙◌, inl, inr,
  List, some, arith, ◌==◌, length, take, drop, take-take_le, drop-take, drop-all, take-all,
  length-drop, length-take, lt→ltb, ge→ltb, Bool-cases,
}
use acid_compute.Outcome.{ok, out_of_range}
use acid_compute.ByteArray.Store.{
  ByteArray, head_size, read_loop, get_read_size, read, read_at, to_string,
}
use acid_compute.ByteArray.Store.Shape.{
  one_block, flatten, pointer, IsBlock, IsValid, content, All-drop,
}
use acid_compute.ByteArray.Store.Cursor.{Located, locate, rest_reaches, index_after, drop-Located}
use acid_compute.ByteArray.Store.Growth.{cur_inside}
use acid_compute.ByteArray.Store.Reading.{slice, head_size-IsBlock, read_loop-slice}
use acid_compute.ByteArray.Store.Seeking.{moved_to, moved_to-IsValid}

pub slice-take :
    {A : Type 0} (p n s : ℕ) (xs : List A)
    → p + n ≤ s
    → take n (drop p (take s xs)) ≡ take n (drop p xs)
slice-take p n s xs h =
    let e : s ≡ p + (s - p) = omega arith in
    ap (λ k. take n (drop p (take k xs))) e
    ∙ ap (take n) (drop-take p (s - p) xs)
    ∙ take-take_le n (s - p) (drop p xs) (omega arith)

base_fits : (b : ByteArray) → IsValid b → b.base_size < 2 ^ 64
base_fits b v = omega (arith, one_block (length b.nodes) b.base_size v.rooted)

-- The loop of the readers from the block of `p` on.
loop_slice :
    (b : ByteArray) (p n pos : ℕ)
    → IsValid b
    → p + n ≤ b.size
    → p < b.capacity
    → read_loop
        (drop (p / b.base_size) b.nodes)
        (p / b.base_size)
        (p % b.base_size)
        (b.base_size - p % b.base_size)
        pos
        n
      ≡ ok (slice p n (content b), pos + n, pointer ((p + n) / b.base_size) (length b.nodes))
loop_slice b p n pos v h inside =
    let i : ℕ = p / b.base_size in
    let ns : List (List ℕ) = drop i b.nodes in
    let l : Located b.base_size b.nodes p =
      locate b.base_size b.nodes p v.positive v.shape (omega arith) in
    let fit : p % b.base_size + n ≤ length ns * b.base_size =
      rest_reaches b.base_size b.nodes p n l (omega arith) in
    read_loop-slice b.base_size ns i (p % b.base_size) pos n l.offset_lt
      (All-drop (IsBlock b.base_size) i b.nodes v.shape) (omega arith) fit
    ∙ rw (
      drop-Located b.base_size b.nodes p l,
      ← index_after b.base_size b.nodes p n v.positive l,
      l.behind,
      slice-take p n b.size (flatten b.nodes) h,
    )

-- The room in the block of `p`, as `read_at` and `write` compute it.
pub room :
    (b : ByteArray) (p : ℕ)
    → IsValid b
    → p < b.capacity
    → sub64 (head_size (drop (p / b.base_size) b.nodes)) (p % b.base_size)
      ≡ b.base_size - p % b.base_size
room b p v inside =
    let l : Located b.base_size b.nodes p =
      locate b.base_size b.nodes p v.positive v.shape (omega arith) in
    let whole : head_size (drop (p / b.base_size) b.nodes) ≡ b.base_size =
      head_size-IsBlock b.base_size _ (All-drop (IsBlock b.base_size) _ b.nodes v.shape)
        (omega arith) in
    rw whole (sub64-eq b.base_size (p % b.base_size) (omega arith) (base_fits b v))

-- `read` with a position that is stored, within the capacity and in the block of the cursor gives
-- the stored bytes from there when there are enough of them, and throws out_of_range when there
-- are not.
pub read_at-slice :
    (n p : ℕ) (b : ByteArray)
    → IsValid b
    → p ≤ b.size
    → p / b.base_size ≡ b.position / b.base_size
    → p < b.capacity
    → (p + n ≤ b.size → read_at n p b ≡ ok (slice p n (content b)))
      × (b.size < p + n → read_at n p b ≡ out_of_range)
unfolding read_at
read_at-slice n p b v h same inside =
    let l : Located b.base_size b.nodes p =
      locate b.base_size b.nodes p v.positive v.shape (omega arith) in
    let cur : b.cur ≡ some (p / b.base_size) = v.placed ∙ ground (arith, l.index_lt) in
    let left : sub64 b.size p ≡ b.size - p = sub64-eq b.size p h (omega arith) in
    (
      λ fit.
          rw (cur, left, ge→ltb (b.size - p) n (omega arith), room b p v inside)
            (rw (loop_slice b p n p v fit inside)),
      λ short. rw (left, lt→ltb (b.size - p) n (omega arith)),
    )

-- On a valid array `to_string` gives the stored bytes from the position on, in whichever block
-- that lies.
pub to_string-content : (b : ByteArray) → IsValid b → to_string b ≡ ok (drop b.position (content b))
unfolding to_string get_read_size
to_string-content b v =
    rw (sub64-eq b.size b.position v.position_le (omega arith))
      (elim (Bool-cases ((b.size - b.position) == 0)) [
        | inl e ↦ rw e (
            ap ok (
              sym (
                drop-all b.position (content b)
                  (ground (arith, length-take b.size (flatten b.nodes))))))
        | inr e ↦
            rw
              (
                e,
                (read_at-slice (b.size - b.position) b.position b v v.position_le refl
                      (ground arith)).0
                    (omega arith),
              )
              (ap ok (
                take-all (b.size - b.position) (drop b.position (content b)) (
                  omega (
                    arith,
                    length-drop b.position (content b),
                    length-take b.size (flatten b.nodes),
                  ))))
      ])

-- A successful read: the bytes from the position on, and the cursor behind them.
pub record ReadTo (n : ℕ) (b : ByteArray) (r : List ℕ × ByteArray) : Type 0 where
  pub bytes : r.0 ≡ slice b.position n (content b)
  pub valid : IsValid r.1
  pub moved : r.1.position ≡ b.position + n
  pub same_content : content r.1 ≡ content b
  pub same_base : r.1.base_size ≡ b.base_size
  pub same_endian : r.1.endian ≡ b.endian

-- On a valid array with the position in the first block and `n` bytes stored from there on,
-- `read` gives these bytes, across blocks too, moves behind them, and keeps the content, the
-- block size, the byte order and the validity.
pub read-ReadTo :
    (n : ℕ) (b : ByteArray)
    → IsValid b
    → b.position < b.base_size
    → b.position + n ≤ b.size
    → (r : List ℕ × ByteArray) × (read n b ≡ ok r) × ReadTo n b r
unfolding read get_read_size
read-ReadTo n b v first fit =
    let p : ℕ = b.position in
    let inside : p < b.capacity = omega (arith, one_block (length b.nodes) b.base_size v.rooted) in
    let block : p / b.base_size ≡ 0 = div-eq_of_lt first in
    let here : p % b.base_size ≡ p = mod-eq_of_lt first in
    let cur : b.cur ≡ some 0 = cur_inside b v inside ∙ ap some block in
    let whole : head_size b.nodes ≡ b.base_size =
      head_size-IsBlock b.base_size b.nodes v.shape v.rooted in
    let loop = rw (block, here) at (loop_slice b p n p v fit inside) in
    (
      (slice b.position n (content b), moved_to (b.position + n) b),
      rw (
        sub64-eq b.size b.position v.position_le (omega arith),
        ge→ltb (b.size - b.position) n (omega arith),
        cur,
        whole,
        here,
        sub64-eq b.base_size b.position (omega arith) (base_fits b v),
        loop,
      ),
      record {
        bytes = refl;
        valid = moved_to-IsValid (b.position + n) b v fit;
        moved = refl;
        same_content = refl;
        same_base = refl;
        same_endian = refl;
      },
    )

-- `read` throws exactly when fewer bytes are left than it is asked for.
pub read_short :
    (n : ℕ) (b : ByteArray) → IsValid b → b.size < b.position + n → read n b ≡ out_of_range
unfolding read get_read_size
read_short n b v h = rw (
  sub64-eq b.size b.position v.position_le (omega arith),
  lt→ltb (b.size - b.position) n (omega arith),
)
