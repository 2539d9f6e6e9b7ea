-- ===== src/ByteArray/Store/Reading.antt =====
-- The loop of `read` and what its callers return: a slice of the stored bytes.
use acid_compute.Prelude.{
  ℕ, zero, suc, ◌+◌, ◌-◌, ◌*◌, ◌/◌, ◌≤◌, ◌<◌, ◌≡◌, sym, ap, ◌∙◌, inl, inr, List, [], ◌∷◌, ◌++◌,
  arith, leb, length, take, drop, All, length-drop, take-append_le, take-append_add, drop-append_le,
  take-all, Bool-cases,
}
use acid_compute.Outcome.{ok}
use acid_compute.ByteArray.Store.{copy, head_size, read_loop}
use acid_compute.ByteArray.Store.Shape.{flatten, pointer, IsBlock}
use acid_compute.ByteArray.Store.Blocks.{pointer_after, div_after}

abbrev pub slice : ℕ → ℕ → List ℕ → List ℕ
slice p n xs = take n (drop p xs)

copy-slice :
    (n : List ℕ) (npos size : ℕ)
    → npos + size ≤ length n
    → copy n npos size ≡ ok (slice npos size n)
unfolding copy
copy-slice n npos size h = ground arith

slice_front :
    (n rest : List ℕ) (npos size : ℕ)
    → npos + size ≤ length n
    → slice npos size n ≡ slice npos size (n ++ rest)
slice_front n rest npos size h =
    rw (drop-append_le npos n rest (omega arith))
      (sym (take-append_le size (drop npos n) rest (omega (arith, length-drop npos n))))

pub slice_cross :
    (n rest : List ℕ) (npos size : ℕ)
    → npos ≤ length n
    → length n - npos ≤ size
    → slice npos (length n - npos) n ++ slice 0 (size - (length n - npos)) rest
      ≡ slice npos size (n ++ rest)
slice_cross n rest npos size h k =
    let c : ℕ = length n - npos in
    let m : ℕ = size - c in
    let split : size ≡ length (drop npos n) + m = omega (arith, length-drop npos n) in
    ap (λ t. t ++ take m rest) (take-all c (drop npos n) (omega (arith, length-drop npos n)))
    ∙ sym (take-append_add m (drop npos n) rest)
    ∙ ap (λ s. take s (drop npos n ++ rest)) (sym split)
    ∙ ap (take size) (sym (drop-append_le npos n rest h))

pub head_size-IsBlock :
    (base : ℕ) (ns : List (List ℕ)) → All (IsBlock base) ns → 0 < length ns → head_size ns ≡ base
head_size-IsBlock base [] a h = absurd (omega arith)
head_size-IsBlock base (n ∷ ns) a h = a.0

pub some_block : (k npos base size : ℕ) → npos + size ≤ suc k * base → base < npos + size → 0 < k
some_block zero npos base size h l = absurd (omega arith)
some_block (suc k) npos base size h l = omega arith

-- The loop, started with the room that its first block has behind `npos`.
pub read_loop-slice :
    (base : ℕ) (ns : List (List ℕ)) (i npos pos size : ℕ)
    → npos < base
    → All (IsBlock base) ns
    → 0 < length ns
    → npos + size ≤ length ns * base
    → read_loop ns i npos (base - npos) pos size
      ≡ ok (
        slice npos size (flatten ns),
        pos + size,
        pointer (i + (npos + size) / base) (i + length ns),
      )
unfolding read_loop
read_loop-slice base [] i npos pos size h a some_left fit = absurd (omega arith)
read_loop-slice base (n ∷ ns) i npos pos size h a some_left fit =
    elim (Bool-cases (leb size (base - npos))) [
      | inl e ↦ ground (
        arith,
        copy-slice n npos size,
        slice_front n (flatten ns) npos size,
        pointer_after base i npos size n ns,
      )
      | inr e ↦
          let c : ℕ = base - npos in
          let m : ℕ = size - c in
          let more : 0 < length ns = some_block (length ns) npos base size fit (ground arith) in
          let total : npos + size ≡ npos + (length n - npos + m) = ground arith in
          let q : (npos + size) / base ≡ (0 + m) / base + 1 =
            rw total (div_after base npos m n a.0 h) in
          let rest =
            read_loop-slice base ns (suc i) 0 (pos + c) m (omega arith) a.1 more
              (omega (arith, a.0)) in
          ground (
            arith,
            q,
            rest,
            copy-slice n npos c,
            head_size-IsBlock base ns a.1 more,
            slice_cross n (flatten ns) npos size,
          )
    ]
