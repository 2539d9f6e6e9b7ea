-- ===== src/ByteArray/Buffers/Views.antt =====
-- What the pushed buffers hold: the bytes from the position on, less the last piece.
use acid_compute.Prelude.{
  sub64-eq, ℕ, zero, suc, ◌+◌, ◌-◌, ◌*◌, ◌/◌, ◌%◌, ◌≤◌, ◌<◌, ◌≡◌, refl, sym, ap, ◌∙◌, inl, inr,
  List, [], ◌∷◌, ◌++◌, arith, leb, length, take, drop, All, Bool-cases, ge→ltb,
}
use acid_compute.Outcome.{ok}
use acid_compute.ByteArray.Store.{ByteArray, get_read_size}
use acid_compute.ByteArray.Store.Shape.{flatten, IsBlock, IsValid, All-drop}
use acid_compute.ByteArray.Store.Reading.{slice, slice_cross, some_block, head_size-IsBlock}
use acid_compute.ByteArray.Store.Cursor.{Located, locate, rest_reaches, drop-Located}
use acid_compute.ByteArray.Store.Growth.{cur_inside, pos_test}
use acid_compute.ByteArray.Store.Slices.{room}
use acid_compute.ByteArray.Buffers.{buffers_from, Iovec, buffers_loop, get_read_buffers}

abbrev pub block_at : List (List ℕ) → ℕ → List ℕ
block_at [] i = []
block_at (n ∷ ns) zero = n
block_at (n ∷ ns) (suc i) = block_at ns i

-- The bytes that a list of iovecs covers.
abbrev pub gather : List (List ℕ) → List Iovec → List ℕ
gather nodes [] = []
gather nodes (v ∷ vs) = slice v.offset v.len (block_at nodes v.node) ++ gather nodes vs

abbrev pub total : List Iovec → ℕ
total [] = 0
total (v ∷ vs) = v.len + total vs

-- The iovecs cover `bytes` up to their total, and stop short of `len` by at most one block.
pub record StopsShort (base len : ℕ) (nodes : List (List ℕ)) (bytes : List ℕ) (vs : List Iovec)
    : Type 0 where
  pub missing : total vs < len
  pub near : len ≤ total vs + base
  pub covered : gather nodes vs ≡ take (total vs) bytes

pub one_round :
    (ns : List (List ℕ)) (i npos ncap len : ℕ)
    → 0 < length ns
    → 0 < len
    → len ≤ ncap
    → buffers_loop ns i npos ncap len ≡ ok []
unfolding buffers_loop
one_round [] i npos ncap len h p k = absurd (omega arith)
one_round (n ∷ ns) i npos ncap len h p k = ground arith

block_at-drop :
    (nodes : List (List ℕ)) (i : ℕ) (n : List ℕ) (ns : List (List ℕ))
    → drop i nodes ≡ n ∷ ns
    → (block_at nodes i ≡ n) × (drop (suc i) nodes ≡ ns)
block_at-drop [] zero n ns e = cc
block_at-drop [] (suc i) n ns e = cc
block_at-drop (m ∷ nodes) zero n ns e = (ground arith, ground arith)
block_at-drop (m ∷ nodes) (suc i) n ns e = block_at-drop nodes i n ns e

covered_more :
    (nodes : List (List ℕ)) (n rest : List ℕ) (i npos c : ℕ) (vs : List Iovec)
    → npos ≤ length n
    → length n - npos ≡ c
    → block_at nodes i ≡ n
    → gather nodes vs ≡ take (total vs) rest
    → slice npos c (block_at nodes i) ++ gather nodes vs
      ≡ take (c + total vs) (drop npos (n ++ rest))
covered_more nodes n rest i npos c vs h room here s =
    let back : c + total vs - (length n - npos) ≡ total vs = omega arith in
    rw (here, s)
      (ap (λ k. slice npos k n ++ take (total vs) rest) (sym room)
        ∙ ap (λ k. slice npos (length n - npos) n ++ take k rest) (sym back)
        ∙ slice_cross n rest npos (c + total vs) h (omega arith))

loop-StopsShort :
    (base : ℕ) (nodes ns : List (List ℕ)) (i npos len : ℕ)
    → drop i nodes ≡ ns
    → npos < base
    → All (IsBlock base) ns
    → 0 < length ns
    → 0 < len
    → npos + len ≤ length ns * base
    → (vs : List Iovec) × (buffers_loop ns i npos (base - npos) len ≡ ok vs)
      × StopsShort base len nodes (drop npos (flatten ns)) vs
unfolding buffers_loop
loop-StopsShort base nodes [] i npos len at h a some_left p fit = absurd (omega arith)
loop-StopsShort base nodes (n ∷ ns) i npos len at h a some_left p fit =
    elim (Bool-cases (leb len (base - npos))) [
      | inl e ↦ ([], ground arith, record { missing = p; near = ground arith; covered = refl })
      | inr e ↦
          let c : ℕ = base - npos in
          let m : ℕ = len - c in
          let more : 0 < length ns = some_block (length ns) npos base len fit (ground arith) in
          let (here, behind) = block_at-drop nodes i n ns at in
          let (vs, runs, s) =
            loop-StopsShort base nodes ns (suc i) 0 m behind (omega arith) a.1 more (ground arith)
              (ground arith) in
          let v : Iovec = record { node = i; offset = npos; len = c } in
          (
            v ∷ vs,
            ground (arith, runs, head_size-IsBlock base ns a.1 more),
            record {
              missing = ground (arith, s.missing);
              near = ground (arith, s.near);
              covered =
                  covered_more nodes n (flatten ns) i npos c vs (omega arith) (omega (arith, a.0))
                    here s.covered;
            },
          )
    ]

-- `get_read_buffers` on a valid array with something to read: it reports the whole length, and
-- pushes buffers that cover the bytes from the position on but leave out the last piece, the one
-- that ends in the block where the bytes end.
pub get_read_buffers-StopsShort :
    (len : ℕ) (b : ByteArray)
    → IsValid b
    → 0 < len
    → len ≤ b.size - b.position
    → (vs : List Iovec) × (get_read_buffers len b ≡ ok (vs, len))
      × StopsShort b.base_size len b.nodes (drop b.position (flatten b.nodes)) vs
unfolding get_read_buffers buffers_from get_read_size
get_read_buffers-StopsShort len b v p h =
    let at : ℕ = b.position in
    let i : ℕ = at / b.base_size in
    let inside : at < b.capacity = omega arith in
    let l : Located b.base_size b.nodes at =
      locate b.base_size b.nodes at v.positive v.shape (omega arith) in
    let ns : List (List ℕ) = drop i b.nodes in
    let (vs, runs, s) =
      loop-StopsShort b.base_size b.nodes ns i (at % b.base_size) len refl l.offset_lt
        (All-drop (IsBlock b.base_size) i b.nodes v.shape) (omega arith) p
        (rest_reaches b.base_size b.nodes at len l (omega arith)) in
    (
      vs,
      rw (
        sub64-eq b.size at v.position_le (omega arith),
        ge→ltb (b.size - at) len h,
        pos_test len p,
        cur_inside b v inside,
        room b at v inside,
        runs,
      ),
      record {
        missing = s.missing;
        near = s.near;
        covered = s.covered ∙ ap (take (total vs)) (drop-Located b.base_size b.nodes at l);
      },
    )

-- So a run that ends in the block of the position is never handed over.
pub get_read_buffers_nothing :
    (len : ℕ) (b : ByteArray)
    → IsValid b
    → 0 < len
    → len ≤ b.size - b.position
    → b.position % b.base_size + len ≤ b.base_size
    → get_read_buffers len b ≡ ok ([], len)
unfolding get_read_buffers buffers_from get_read_size
get_read_buffers_nothing len b v p h fits =
    let at : ℕ = b.position in
    let inside : at < b.capacity = omega arith in
    let l : Located b.base_size b.nodes at =
      locate b.base_size b.nodes at v.positive v.shape (omega arith) in
    rw (
      sub64-eq b.size at v.position_le (omega arith),
      ge→ltb (b.size - at) len h,
      pos_test len p,
      cur_inside b v inside,
      room b at v inside,
      one_round (drop (at / b.base_size) b.nodes) (at / b.base_size) (at % b.base_size)
          (b.base_size - at % b.base_size) len (omega (arith, l.behind, l.index_lt)) p
          (omega arith),
    )
