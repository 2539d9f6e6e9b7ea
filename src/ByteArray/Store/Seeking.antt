-- ===== src/ByteArray/Store/Seeking.antt =====
-- `set_position`: the block that is found, and the states it leads to.
use native.Mathlib.Nat.{add-div_left}
use acid_compute.Prelude.{
  ℕ, suc, ◌+◌, ◌-◌, ◌*◌, ◌/◌, ◌≤◌, ◌<◌, ◌≡◌, refl, inl, inr, List, [], ◌∷◌, arith, ltb,
  if◌then◌else◌, length, take, All, take-take_le, Bool-cases,
}
use acid_compute.Outcome.{ok, out_of_range}
use acid_compute.ByteArray.Store.{ByteArray, seek, set_position}
use acid_compute.ByteArray.Store.Shape.{flatten, pointer, IsBlock, IsValid, content}
use acid_compute.ByteArray.Store.Blocks.{pointer_after}
use acid_compute.ByteArray.Store.Reading.{some_block}

-- The array with its cursor at `p`.
abbrev pub moved_to : ℕ → ByteArray → ByteArray
moved_to p b = record b { position = p; cur = pointer (p / b.base_size) (length b.nodes) }

pub moved_to-IsValid : (p : ℕ) (b : ByteArray) → IsValid b → p ≤ b.size → IsValid (moved_to p b)
moved_to-IsValid p b v h = record {
  positive = v.positive;
  shape = v.shape;
  filled = v.filled;
  rooted = v.rooted;
  position_le = h;
  size_le = v.size_le;
  fits = v.fits;
  placed = refl;
}

seek-pointer :
    (base : ℕ) (ns : List (List ℕ)) (i pos : ℕ)
    → 0 < base
    → All (IsBlock base) ns
    → 0 < length ns
    → pos ≤ length ns * base
    → seek ns i pos ≡ ok (pointer (i + (0 + pos) / base) (i + length ns))
unfolding seek
seek-pointer base [] i pos h a some_left fit = absurd (omega arith)
seek-pointer base (n ∷ ns) i pos h a some_left fit = elim (Bool-cases (ltb (length n) pos)) [
  | inl e ↦
      let m : ℕ = pos - length n in
      let more : 0 < length ns = some_block (length ns) 0 base pos (omega arith) (ground arith) in
      let total : 0 + pos ≡ base + (0 + m) = ground arith in
      let q : (0 + pos) / base ≡ (0 + m) / base + 1 = rw total (add-div_left (0 + m) h) in
      rw e (ground (arith, q, seek-pointer base ns (suc i) m h a.1 more (ground arith)))
  | inr e ↦ ground (arith, pointer_after base i 0 pos n ns)
]

-- The stored size after the position `p` has been set.
abbrev pub reach : ℕ → ByteArray → ByteArray
reach p b = record b { size = if ltb b.size p then p else b.size }

set_position-moved_to :
    (p : ℕ) (b : ByteArray)
    → IsValid b
    → p ≤ b.capacity
    → set_position p b ≡ ok (moved_to p (reach p b))
unfolding set_position
set_position-moved_to p b v h =
    ground (arith, seek-pointer b.base_size b.nodes 0 p v.positive v.shape v.rooted)

-- What setting the position to `p` makes of `b`.
pub record Placed (p : ℕ) (b b' : ByteArray) : Type 0 where
  pub valid : IsValid b'
  pub at_position : b'.position ≡ p
  pub kept : take b.size (content b') ≡ content b
  pub grown : b'.size ≡ (if ltb b.size p then p else b.size)
  pub same_base : b'.base_size ≡ b.base_size
  pub same_endian : b'.endian ≡ b.endian

-- On a valid array `set_position` succeeds for positions within the capacity and throws
-- out_of_range for those beyond. It keeps the stored bytes and the validity, and enlarges the
-- stored size up to a position behind its end.
pub set_position-Placed :
    (p : ℕ) (b : ByteArray)
    → IsValid b
    → (p ≤ b.capacity → (b' : ByteArray) × (set_position p b ≡ ok b') × Placed p b b')
      × (b.capacity < p → set_position p b ≡ out_of_range)
set_position-Placed p b v = (
  λ h.
      let size_le : (reach p b).size ≤ b.capacity = ground arith in
      let r : IsValid (reach p b) = record {
        positive = v.positive;
        shape = v.shape;
        filled = v.filled;
        rooted = v.rooted;
        position_le = ground arith;
        size_le = size_le;
        fits = v.fits;
        placed = v.placed;
      } in
      (
        moved_to p (reach p b),
        set_position-moved_to p b v h,
        record {
          valid = moved_to-IsValid p (reach p b) r (ground arith);
          at_position = refl;
          kept = take-take_le b.size (reach p b).size (flatten b.nodes) (ground arith);
          grown = refl;
          same_base = refl;
          same_endian = refl;
        },
      ),
  λ h. unfold set_position in ground arith,
)
