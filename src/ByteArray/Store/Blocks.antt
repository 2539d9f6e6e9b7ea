-- ===== src/ByteArray/Store/Blocks.antt =====
-- The loop of `write` as a function on blocks that cannot fail, and what it does to the bytes.
use native.Mathlib.Nat.{add-div_left, div-eq_of_lt, div_self}
use acid_compute.Prelude.{
  sub64-eq, ℕ, zero, suc, ◌+◌, ◌-◌, ◌*◌, ◌/◌, ◌^◌, ◌≤◌, ◌<◌, ◌≡◌, refl, sym, ap, ◌∙◌, inl, inr,
  some, List, [], ◌∷◌, ◌++◌, append-nil, append_assoc, arith, leb, ◌==◌, if◌then◌else◌, length,
  take, drop, All, length-take, length-drop, take-append-drop, take-append_le, drop-append_le,
  drop-append_add, drop-length, length-append, Bool-cases,
}
use acid_compute.Outcome.{ok}
use acid_compute.ByteArray.Store.{next, splice, write_loop}
use acid_compute.ByteArray.Store.Shape.{flatten, pointer, IsBlock, overwrite, length-splice}

pub blocks : List (List ℕ) → ℕ → List ℕ → List (List ℕ)
blocks [] npos buf = []
blocks (n ∷ ns) npos buf =
    let ncap = length n - npos in
    if leb (length buf) ncap
    then splice n npos buf ∷ ns
    else splice n npos (take ncap buf) ∷ blocks ns 0 (drop ncap buf)

pub length-blocks :
    (ns : List (List ℕ)) (npos : ℕ) (buf : List ℕ) → length (blocks ns npos buf) ≡ length ns
unfolding blocks
length-blocks [] npos buf = refl
length-blocks (n ∷ ns) npos buf = ground (arith, length-blocks ns 0 (drop (length n - npos) buf))

pub blocks-IsBlock :
    (base : ℕ) (ns : List (List ℕ)) (npos : ℕ) (buf : List ℕ)
    → npos ≤ base
    → All (IsBlock base) ns
    → All (IsBlock base) (blocks ns npos buf)
unfolding blocks
blocks-IsBlock base [] npos buf h a = tt
blocks-IsBlock base (n ∷ ns) npos buf h a = ground (
  arith,
  length-splice n npos buf,
  length-splice n npos (take (length n - npos) buf),
  length-take (length n - npos) buf,
  blocks-IsBlock base ns 0 (drop (length n - npos) buf),
)

-- Writing that ends in the first block leaves the bytes behind that block.
overwrite_front :
    (n rest : List ℕ) (npos : ℕ) (buf : List ℕ)
    → npos + length buf ≤ length n
    → splice n npos buf ++ rest ≡ overwrite (n ++ rest) npos buf
unfolding splice
overwrite_front n rest npos buf h =
    rw (take-append_le npos n rest (omega arith), drop-append_le (npos + length buf) n rest h)
      (simp append_assoc)

-- Writing that fills the first block goes on at the start of what follows.
overwrite_cross :
    (n rest : List ℕ) (npos : ℕ) (buf : List ℕ)
    → npos ≤ length n
    → length n - npos ≤ length buf
    → splice n npos (take (length n - npos) buf) ++ overwrite rest 0 (drop (length n - npos) buf)
      ≡ overwrite (n ++ rest) npos buf
unfolding splice
overwrite_cross n rest npos buf h k =
    let c = length n - npos in
    let taken : npos + length (take c buf) ≡ length n = omega (arith, length-take c buf) in
    let left : 0 + length (drop c buf) ≡ length buf - c = omega (arith, length-drop c buf) in
    let total : npos + length buf ≡ length n + (length buf - c) = omega arith in
    rw (taken, left, total, drop-length n, drop-append_add (length buf - c) n rest)
      (rw (take-append_le npos n rest h) (
        simp (append-nil, append_assoc)
          (ap (λ t. take npos n ++ t)
            (sym (append_assoc (take c buf) (drop c buf) _)
              ∙ ap (λ t. t ++ drop (length buf - c) rest) (take-append-drop c buf)))))

pub flatten-blocks :
    (base : ℕ) (ns : List (List ℕ)) (npos : ℕ) (buf : List ℕ)
    → npos ≤ base
    → All (IsBlock base) ns
    → npos + length buf ≤ length (flatten ns)
    → flatten (blocks ns npos buf) ≡ overwrite (flatten ns) npos buf
unfolding blocks
flatten-blocks base [] zero [] h a fit = refl
flatten-blocks base [] zero (x ∷ buf) h a fit = absurd (omega arith)
flatten-blocks base [] (suc npos) buf h a fit = absurd (omega arith)
flatten-blocks base (n ∷ ns) npos buf h a fit =
    let c = length n - npos in
    elim (Bool-cases (leb (length buf) c)) [
      | inl e ↦ rw e (overwrite_front n (flatten ns) npos buf (ground arith))
      | inr e ↦ rw e (
          ap (◌++◌ (splice n npos (take c buf))) (
            flatten-blocks base ns 0 (drop c buf) (omega arith) a.1
              (omega (arith, length-drop c buf, length-append n (flatten ns))))
          ∙ overwrite_cross n (flatten ns) npos buf (omega arith) (ground arith))
    ]

next-pointer : (i : ℕ) (ns : List (List ℕ)) → next i ns ≡ pointer (suc i) (i + suc (length ns))
next-pointer i [] = ground arith
next-pointer i (n ∷ ns) = ground arith

-- The pointer after the last byte of a run that ends in the block `n`: it moves on when `n` is full.
pub pointer_after :
    (base i npos len : ℕ) (n : List ℕ) (ns : List (List ℕ))
    → length n ≡ base
    → npos < base
    → npos + len ≤ base
    → pointer (i + (npos + len) / base) (i + suc (length ns))
      ≡ (if (length n - npos) == len then next i ns else some i)
pointer_after base i npos len n ns whole h k = elim (Bool-cases ((length n - npos) == len)) [
  | inl e ↦
      let full : npos + len ≡ base = ground arith in
      let one : (npos + len) / base ≡ 1 = rw full (div_self (omega arith)) in
      rw (e, one, next-pointer i ns) (ground arith)
  | inr e ↦
      let none_full : (npos + len) / base ≡ 0 = div-eq_of_lt (ground arith) in
      rw (e, none_full) (ground arith)
]

-- A run that fills the rest of the block `n` and goes on for `more` bytes.
pub div_after :
    (base npos more : ℕ) (n : List ℕ)
    → length n ≡ base
    → npos < base
    → (npos + (length n - npos + more)) / base ≡ (0 + more) / base + 1
div_after base npos more n whole h =
    let total : npos + (length n - npos + more) ≡ base + (0 + more) = omega arith in
    rw total (add-div_left (0 + more) (omega arith))

pub write_loop-blocks :
    (base : ℕ) (ns : List (List ℕ)) (i npos pos : ℕ) (buf : List ℕ)
    → npos < base
    → base < 2 ^ 64
    → All (IsBlock base) ns
    → 0 < length buf
    → npos + length buf ≤ length ns * base
    → write_loop ns i npos pos buf
      ≡ ok (
        blocks ns npos buf,
        pos + length buf,
        pointer (i + (npos + length buf) / base) (i + length ns),
      )
unfolding write_loop blocks
write_loop-blocks base [] i npos pos buf h big a some_left fit = absurd (omega arith)
write_loop-blocks base (n ∷ ns) i npos pos buf h big a some_left fit =
    let c = length n - npos in
    rw (sub64-eq (length n) npos (omega arith) (omega arith))
      (elim (Bool-cases (leb (length buf) c)) [
        | inl e ↦ rw (e, pointer_after base i npos (length buf) n ns a.0 h (ground arith))
        | inr e ↦
            let left : length (drop c buf) ≡ length buf - c = length-drop c buf in
            let total : c + length (drop c buf) ≡ length buf = ground arith in
            let q : (npos + length buf) / base ≡ (0 + length (drop c buf)) / base + 1 =
              rw (← total) (div_after base npos (length (drop c buf)) n a.0 h) in
            rw
              (
                e,
                write_loop-blocks base ns (suc i) 0 (pos + c) (drop c buf) (omega arith) big a.1
                    (ground arith) (omega arith),
              )
              (ground arith)
      ])
