-- ===== src/ByteArray/Store/Shape.antt =====
-- What holds of a byte array between calls, and the blocks seen as one run of bytes.
use acid_compute.Prelude.{
  ℕ, zero, suc, ◌+◌, ◌*◌, ◌/◌, ◌%◌, ◌^◌, ◌≤◌, ◌<◌, ◌≡◌, refl, sym, ap, ◌∙◌, Option, none, some,
  List, [], ◌∷◌, ◌++◌, append_assoc, arith, ltb, if◌then◌else◌, length, take, drop, All,
  length-append, length-take, length-drop,
}
use acid_compute.ByteArray.Store.{ByteArray, splice}

abbrev pub flatten : List (List ℕ) → List ℕ
flatten [] = []
flatten (n ∷ ns) = n ++ flatten ns

-- The pointer to the block with index `i` among `n` blocks.
abbrev pub pointer : ℕ → ℕ → Option ℕ
pointer i n = if ltb i n then some i else none

abbrev pub IsBlock : ℕ → List ℕ → Type 0
IsBlock base n = length n ≡ base

-- All blocks have the base size, the counters are in order, and m_cur is the block of m_position.
pub record IsValid (b : ByteArray) : Type 0 where
  pub positive : 0 < b.base_size
  pub shape : All (IsBlock b.base_size) b.nodes
  pub filled : b.capacity ≡ length b.nodes * b.base_size
  pub rooted : 0 < length b.nodes
  pub position_le : b.position ≤ b.size
  pub size_le : b.size ≤ b.capacity
  pub fits : b.capacity < 2 ^ 64
  pub placed : b.cur ≡ pointer (b.position / b.base_size) (length b.nodes)

-- The stored bytes.
abbrev pub content : ByteArray → List ℕ
content b = take b.size (flatten b.nodes)

-- `bytes` written over `xs` from `p` on.
abbrev pub overwrite : List ℕ → ℕ → List ℕ → List ℕ
overwrite xs p bytes = take p xs ++ (bytes ++ drop (p + length bytes) xs)

pub length-flatten :
    (base : ℕ) (ns : List (List ℕ)) → All (IsBlock base) ns → length (flatten ns) ≡ length ns * base
length-flatten base [] h = omega arith
length-flatten base (n ∷ ns) h =
    omega (arith, length-append n (flatten ns), length-flatten base ns h.1, h.0)

pub flatten-append : (ms ns : List (List ℕ)) → flatten (ms ++ ns) ≡ flatten ms ++ flatten ns
flatten-append [] ns = refl
flatten-append (m ∷ ms) ns =
    ap (◌++◌ m) (flatten-append ms ns) ∙ sym (append_assoc m (flatten ms) (flatten ns))

module _ {ℓ κ} {A : Type ℓ} (P : A → Type κ) where
  pub All-append : (xs ys : List A) → All P xs → All P ys → All P (xs ++ ys)
  All-append [] ys hx hy = hy
  All-append (x ∷ xs) ys hx hy = (hx.0, All-append xs ys hx.1 hy)

  pub All-take : (n : ℕ) (xs : List A) → All P xs → All P (take n xs)
  All-take zero xs h = tt
  All-take (suc n) [] h = tt
  All-take (suc n) (x ∷ xs) h = (h.0, All-take n xs h.1)

  pub All-drop : (n : ℕ) (xs : List A) → All P xs → All P (drop n xs)
  All-drop zero xs h = h
  All-drop (suc n) [] h = tt
  All-drop (suc n) (x ∷ xs) h = All-drop n xs h.1

pub length-splice :
    (n : List ℕ) (npos : ℕ) (bytes : List ℕ)
    → npos + length bytes ≤ length n
    → length (splice n npos bytes) ≡ length n
unfolding splice
length-splice n npos bytes h = omega (
  arith,
  length-append (take npos n) (bytes ++ drop (npos + length bytes) n),
  length-append bytes (drop (npos + length bytes) n),
  length-take npos n,
  length-drop (npos + length bytes) n,
)

-- The offset of a position in its block is below the block's size, and the division is exact.
pub position_split : (p base : ℕ) → 0 < base → (p ≡ p / base * base + p % base) × (p % base < base)
position_split p base h = omega arith

pub one_block : (n base : ℕ) → 0 < n → base ≤ n * base
one_block zero base h = absurd (omega arith)
one_block (suc n) base h = omega arith
