-- ===== src/ByteArray/Store/Growth.antt =====
-- `add_capacity`: enough blocks are appended, and nothing that is stored changes.
use native.Mathlib.Nat.{div-add-mod', mod-lt, mul-div_cancel, div-lt_iff_lt-mul}
use acid_compute.Prelude.{
  sub64-eq, ℕ, zero, suc, ◌+◌, ◌-◌, ◌*◌, ◌/◌, ◌^◌, ◌≤◌, ◌<◌, ◌≡◌, refl, ◌∙◌, ◌⊎◌, inl, inr, false,
  some, List, [], ◌∷◌, ◌++◌, append-nil, append_assoc, arith, ltb, ◌==◌, if◌then◌else◌, length,
  replicate, All, length-replicate, take-append_le, Bool-cases,
}
use acid_compute.ByteArray.Store.{
  ByteArray, new_node, append_nodes, first_new, grow, add_capacity, get_capacity,
}
use acid_compute.ByteArray.Store.Shape.{
  flatten, IsBlock, IsValid, content, length-flatten, flatten-append, All-append,
}

-- The array with `k` more blocks at its end.
abbrev pub extended : ℕ → ByteArray → ByteArray
extended k b = record b {
  nodes = b.nodes ++ replicate k (new_node b.base_size);
  capacity = b.capacity + k * b.base_size;
}

pub append_nodes-extended : (k : ℕ) (b : ByteArray) → append_nodes k b ≡ extended k b
unfolding append_nodes
append_nodes-extended zero b = ground (arith, append-nil b.nodes)
append_nodes-extended (suc k) b =
    let node : List ℕ = new_node b.base_size in
    let b' : ByteArray = record b {
      nodes = b.nodes ++ (node ∷ []);
      capacity = b.capacity + b.base_size;
    } in
    ground (arith, append_nodes-extended k b', append_assoc b.nodes (node ∷ []) (replicate k node))

replicate-All {ℓ κ} : {A : Type ℓ} (P : A → Type κ) (k : ℕ) (a : A) → P a → All P (replicate k a)
replicate-All P zero a h = tt
replicate-All P (suc k) a h = (h, replicate-All P k a h)

pub extended-shape :
    (k : ℕ) (b : ByteArray) → IsValid b → All (IsBlock b.base_size) (extended k b).nodes
extended-shape k b v =
    All-append (IsBlock b.base_size) b.nodes _ v.shape
      (replicate-All (IsBlock b.base_size) k _ (length-replicate b.base_size 0))

pub extended-content : (k : ℕ) (b : ByteArray) → IsValid b → content (extended k b) ≡ content b
extended-content k b v = rw (flatten-append b.nodes (replicate k (new_node b.base_size))) (
    take-append_le b.size (flatten b.nodes) _
      (omega (arith, length-flatten b.base_size b.nodes v.shape)))

-- The number of blocks that `add_capacity` appends for `n` bytes.
abbrev pub blocks_for : ℕ → ByteArray → ℕ
blocks_for n b =
    let old = b.capacity - b.position in
    if ltb n old then 0 else (n - old + b.base_size - 1) / b.base_size

ceil_bounds :
    (m base : ℕ)
    → 0 < base
    → (m ≤ (m + base - 1) / base * base) × ((m + base - 1) / base * base ≤ m + base - 1)
ceil_bounds m base h = omega (arith, div-add-mod' (m + base - 1) base, mod-lt (m + base - 1) h)

pub blocks_for_bounds :
    (n : ℕ) (b : ByteArray)
    → IsValid b
    → b.position + n + b.base_size < 2 ^ 64
    → (b.position + n ≤ b.capacity + blocks_for n b * b.base_size)
      × (b.capacity + blocks_for n b * b.base_size < 2 ^ 64)
blocks_for_bounds n b v h =
    ground (arith, ceil_bounds (n - (b.capacity - b.position)) b.base_size v.positive)

div_lt : (p n base : ℕ) → 0 < base → p < n * base → p / base < n
div_lt p n base h k = (div-lt_iff_lt-mul h).1 k

pub cur_inside :
    (b : ByteArray) → IsValid b → b.position < b.capacity → b.cur ≡ some (b.position / b.base_size)
cur_inside b v h =
    let inside : b.position / b.base_size < length b.nodes =
      div_lt b.position (length b.nodes) b.base_size v.positive (omega arith) in
    v.placed ∙ ground arith

first_new_pos : (c len : ℕ) → 0 < c → first_new c len ≡ some len
first_new_pos zero len h = absurd (omega arith)
first_new_pos (suc c) len h = refl

grow-extended :
    (b : ByteArray) (count : ℕ)
    → IsValid b
    → 0 < count ⊎ (b.position < b.capacity)
    → grow (b.capacity - b.position) count b
      ≡ record (extended count b) { cur = some (b.position / b.base_size) }
unfolding grow
grow-extended b count v some_new = elim (Bool-cases ((b.capacity - b.position) == 0)) [
  | inl e ↦
      let full : b.position ≡ length b.nodes * b.base_size = ground arith in
      let q : b.position / b.base_size ≡ length b.nodes =
        rw full (mul-div_cancel (length b.nodes) v.positive) in
      rw (e, append_nodes-extended count b, first_new_pos count (length b.nodes) (ground arith), q)
  | inr e ↦ rw (e, append_nodes-extended count b) (ground (arith, cur_inside b v (ground arith)))
]

factor_pos : (c base : ℕ) → 0 < c * base → 0 < c
factor_pos zero base h = absurd (omega arith)
factor_pos (suc c) base h = omega arith

pub pos_test : (n : ℕ) → 0 < n → (n == 0) ≡ false
pos_test n h = ground arith

-- Where `add_capacity` computes a count, that is positive or the current block has room.
some_new :
    (n : ℕ) (b : ByteArray)
    → IsValid b
    → 0 < n
    → b.capacity - b.position ≤ n
    → 0 < (n - (b.capacity - b.position) + b.base_size - 1) / b.base_size
      ⊎ (b.position < b.capacity)
some_new n b v h k = elim (Bool-cases (ltb b.position b.capacity)) [
  | inl e ↦ inr (ground arith)
  | inr e ↦
      let m : ℕ = n - (b.capacity - b.position) in
      let more : 0 < m = ground arith in
      inl (factor_pos _ b.base_size (omega (arith, ceil_bounds m b.base_size v.positive)))
]

-- `m_cur` points at the block of m_position, which the growth provides.
pub add_capacity-extended :
    (n : ℕ) (b : ByteArray)
    → IsValid b
    → 0 < n
    → add_capacity n b
      ≡ record (extended (blocks_for n b) b) { cur = some (b.position / b.base_size) }
unfolding add_capacity get_capacity
add_capacity-extended n b v h =
    rw (sub64-eq b.capacity b.position (omega arith) v.fits)
      (elim (Bool-cases (ltb n (b.capacity - b.position))) [
        | inl e ↦ rw e (ground (arith, append-nil b.nodes, cur_inside b v (ground arith)))
        | inr e ↦ rw (pos_test n h, e) (grow-extended b _ v (some_new n b v h (ground arith)))
      ])
