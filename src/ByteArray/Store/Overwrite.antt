-- ===== src/ByteArray/Store/Overwrite.antt =====
-- Overwriting a run of bytes, as lists.
use native.Mathlib.Nat.{add_assoc}
use acid_compute.Prelude.{
  ℕ, ◌+◌, ◌-◌, ◌≤◌, ◌≡◌, sym, ap, ◌∙◌, inl, inr, List, ◌++◌, append_assoc, arith, ltb,
  if◌then◌else◌, length, take, drop, length-take, take-append_add, drop-append_add, take-take_le,
  drop-take, drop-all, Bool-cases,
}
use acid_compute.ByteArray.Store.Shape.{overwrite}

pub overwrite-append :
    (front back : List ℕ) (npos : ℕ) (buf : List ℕ)
    → front ++ overwrite back npos buf ≡ overwrite (front ++ back) (length front + npos) buf
overwrite-append front back npos buf =
    rw
      (
        take-append_add npos front back,
        add_assoc (length front) npos (length buf),
        drop-append_add (npos + length buf) front back,
      )
      (sym (append_assoc front (take npos back) _))

take_over :
    (xs : List ℕ) (p m : ℕ) (buf : List ℕ)
    → p ≤ length xs
    → take (p + length buf + m) (overwrite xs p buf)
      ≡ take p xs ++ (buf ++ take m (drop (p + length buf) xs))
take_over xs p m buf h =
    let n : p + length buf + m ≡ length (take p xs) + (length buf + m) =
      omega (arith, length-take p xs) in
    rw (n, take-append_add (length buf + m) (take p xs) _, take-append_add m buf)

-- The first `s` bytes of an overwritten run, for a write that begins within them.
pub take-overwrite :
    (xs : List ℕ) (p s : ℕ) (buf : List ℕ)
    → p ≤ s
    → s ≤ length xs
    → take (if ltb s (p + length buf) then p + length buf else s) (overwrite xs p buf)
      ≡ overwrite (take s xs) p buf
take-overwrite xs p s buf h k = elim (Bool-cases (ltb s (p + length buf))) [
  | inl e ↦
      let q : p + length buf ≡ p + length buf + 0 = omega arith in
      rw
        (
          e,
          take-take_le p s xs h,
          drop-all (p + length buf) (take s xs) (ground (arith, length-take s xs)),
        )
        (ap (λ n. take n (overwrite xs p buf)) q ∙ take_over xs p 0 buf (omega arith))
  | inr e ↦
      let m : ℕ = s - (p + length buf) in
      let q : s ≡ p + length buf + m = ground arith in
      rw (e, take-take_le p s xs h)
        (ap (λ n. take n (overwrite xs p buf)) q
          ∙ take_over xs p m buf (omega arith)
          ∙ ap (λ t. take p xs ++ (buf ++ t))
              (sym (drop-take (p + length buf) m xs)
                ∙ ap (λ n. drop (p + length buf) (take n xs)) (sym q)))
]
