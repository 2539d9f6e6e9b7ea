-- ===== src/ByteArray/Store/Cursor.antt =====
-- The block and the offset of a position, and what lies behind them.
use native.Mathlib.Nat.{div-lt_iff_lt-mul, mul-add-div_right}
use acid_compute.Prelude.{
  ℕ, ◌+◌, ◌*◌, ◌/◌, ◌%◌, ◌≤◌, ◌<◌, ◌≡◌, sym, ap, ◌∙◌, List, ◌++◌, arith, length, take, drop, All,
  length-take, length-drop, take-append-drop, drop-append_add,
}
use acid_compute.ByteArray.Store.Shape.{flatten, IsBlock, length-flatten, flatten-append, All-take}

-- The position `p` lies in the block `p / base`, at the offset `p % base`.
pub record Located (base : ℕ) (ns : List (List ℕ)) (p : ℕ) : Type 0 where
  pub split : p ≡ p / base * base + p % base
  pub offset_lt : p % base < base
  pub index_lt : p / base < length ns
  pub behind : p / base + length (drop (p / base) ns) ≡ length ns
  pub before : length (flatten (take (p / base) ns)) ≡ p / base * base

pub locate :
    (base : ℕ) (ns : List (List ℕ)) (p : ℕ)
    → 0 < base
    → All (IsBlock base) ns
    → p < length ns * base
    → Located base ns p
locate base ns p positive shape inside =
    let index_lt : p / base < length ns = (div-lt_iff_lt-mul positive).1 inside in
    let taken : length (take (p / base) ns) ≡ p / base = omega (arith, length-take (p / base) ns) in
    record {
      split = omega arith;
      offset_lt = omega arith;
      index_lt = index_lt;
      behind = omega (arith, length-drop (p / base) ns);
      before =
          length-flatten base _ (All-take (IsBlock base) _ ns shape) ∙ ap (λ n. n * base) taken;
    }

pub rest_reaches :
    (base : ℕ) (ns : List (List ℕ)) (p m : ℕ)
    → Located base ns p
    → p + m ≤ length ns * base
    → p % base + m ≤ length (drop (p / base) ns) * base
rest_reaches base ns p m l h = omega (arith, ap (λ n. n * base) l.behind)

-- The block of the position `m` bytes on.
pub index_after :
    (base : ℕ) (ns : List (List ℕ)) (p m : ℕ)
    → 0 < base
    → Located base ns p
    → (p + m) / base ≡ p / base + (p % base + m) / base
index_after base ns p m positive l =
    let e : p + m ≡ p / base * base + (p % base + m) = omega arith in
    ap (λ n. n / base) e ∙ mul-add-div_right positive (p / base) (p % base + m)

pub drop-Located :
    (base : ℕ) (ns : List (List ℕ)) (p : ℕ)
    → Located base ns p
    → drop (p % base) (flatten (drop (p / base) ns)) ≡ drop p (flatten ns)
drop-Located base ns p l =
    let front : List (List ℕ) = take (p / base) ns in
    let back : List (List ℕ) = drop (p / base) ns in
    let here : length (flatten front) + p % base ≡ p = omega arith in
    sym (drop-append_add (p % base) (flatten front) (flatten back))
    ∙ ap (λ n. drop n (flatten front ++ flatten back)) here
    ∙ ap (drop p) (sym (flatten-append front back) ∙ ap flatten (take-append-drop (p / base) ns))
