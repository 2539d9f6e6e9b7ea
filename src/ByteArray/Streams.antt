-- ===== src/ByteArray/Streams.antt =====
-- A byte array as its callers use it: filled from the front, then read from a position on. The
-- blocks, the counters and the cursor stay behind these two views.
use native.Mathlib.Nat.{zero-div}
use acid_compute.Prelude.{
  ℕ, ◌+◌, ◌-◌, ◌^◌, ◌≤◌, ◌<◌, ◌≡◌, refl, sym, ap, ◌∙◌, List, [], ◌++◌, append-nil, arith, length,
  take, drop, length-append, length-drop, length-replicate, take-length, drop-all, take-all,
  take-append_le, drop-append_add, drop-drop,
}
use acid_compute.Outcome.{ok, out_of_range}
use acid_compute.ByteArray.Store.{ByteArray, Endian, make, write, read, set_position, to_string}
use acid_compute.ByteArray.Store.Shape.{IsValid, content, overwrite}
use acid_compute.ByteArray.Store.Writing.{write-Wrote, length-content}
use acid_compute.ByteArray.Store.Seeking.{set_position-Placed}
use acid_compute.ByteArray.Store.Slices.{read-ReadTo, read_short, to_string-content}

-- The array holds `bytes`, and the position is behind them.
pub record Filled (base : ℕ) (en : Endian) (bytes : List ℕ) (b : ByteArray) : Type 0 where
  pub valid : IsValid b
  pub holds : content b ≡ bytes
  pub at_end : b.position ≡ length bytes
  pub base_is : b.base_size ≡ base
  pub endian_is : b.endian ≡ en

-- From the position `p` on the array holds `bytes`.
pub record Ahead (base : ℕ) (en : Endian) (p : ℕ) (bytes : List ℕ) (b : ByteArray) : Type 0 where
  pub valid : IsValid b
  pub left : drop p (content b) ≡ bytes
  pub here : b.position ≡ p
  pub base_is : b.base_size ≡ base
  pub endian_is : b.endian ≡ en

pub make-Filled :
    (base : ℕ) (en : Endian) → 0 < base → base < 2 ^ 64 → Filled base en [] (make base en)
unfolding make
make-Filled base en h k = record {
  valid = record {
    positive = h;
    shape = (length-replicate base 0, tt);
    filled = omega arith;
    rooted = omega arith;
    position_le = omega arith;
    size_le = omega arith;
    fits = k;
    placed = rw zero-div (ground arith);
  };
  holds = refl;
  at_end = refl;
  base_is = refl;
  endian_is = refl;
}

overwrite_end :
    (c bytes : List ℕ) (p : ℕ) (buf : List ℕ)
    → c ≡ bytes
    → p ≡ length bytes
    → overwrite c p buf ≡ bytes ++ buf
overwrite_end c bytes p buf e q = rw (
  e,
  q,
  take-length bytes,
  drop-all (length bytes + length buf) bytes (omega arith),
  append-nil buf,
)

-- Writing appends.
pub write-Filled :
    (buf : List ℕ) {base : ℕ} {en : Endian} {bytes : List ℕ} {b : ByteArray}
    → Filled base en bytes b
    → length bytes + length buf + base < 2 ^ 64
    → (b' : ByteArray) × (write buf b ≡ ok b') × Filled base en (bytes ++ buf) b'
write-Filled buf {base} {en} {bytes} {b} f h =
    let (b', e, w) = write-Wrote buf b f.valid (omega (arith, f.at_end, f.base_is)) in
    (
      b',
      e,
      record {
        valid = w.valid;
        holds = w.bytes ∙ overwrite_end (content b) bytes b.position buf f.holds f.at_end;
        at_end = omega (arith, w.moved, f.at_end, length-append bytes buf);
        base_is = w.same_base ∙ f.base_is;
        endian_is = w.same_endian ∙ f.endian_is;
      },
    )

-- Back to a position within the bytes: they are read from there on.
pub set_position-Filled :
    (p : ℕ) {base : ℕ} {en : Endian} {bytes : List ℕ} {b : ByteArray}
    → Filled base en bytes b
    → p ≤ length bytes
    → (b' : ByteArray) × (set_position p b ≡ ok b') × Ahead base en p (drop p bytes) b'
set_position-Filled p {base} {en} {bytes} {b} f h =
    let same : b.size ≡ length bytes = sym (length-content b f.valid) ∙ ap length f.holds in
    let (b', e, w) = (set_position-Placed p b f.valid).0 (omega (arith, f.valid.size_le)) in
    let size : b'.size ≡ b.size = w.grown ∙ ground arith in
    let whole : content b' ≡ bytes =
      sym (take-all b.size (content b') (omega (arith, length-content b' w.valid)))
      ∙ w.kept
      ∙ f.holds in
    (
      b',
      e,
      record {
        valid = w.valid;
        left = ap (drop p) whole;
        here = w.at_position;
        base_is = w.same_base ∙ f.base_is;
        endian_is = w.same_endian ∙ f.endian_is;
      },
    )

pub drop-front : (xs ys : List ℕ) → drop (length xs) (xs ++ ys) ≡ ys
drop-front xs ys =
    let z : length xs ≡ length xs + 0 = omega arith in
    ap (λ k. drop k (xs ++ ys)) z ∙ drop-append_add 0 xs ys

-- Reading from the first block takes bytes off the front.
pub read-Ahead :
    (xs : List ℕ) {base : ℕ} {en : Endian} {p : ℕ} {ys : List ℕ} {b : ByteArray}
    → Ahead base en p (xs ++ ys) b
    → p < base
    → (b' : ByteArray) × (read (length xs) b ≡ ok (xs, b')) × Ahead base en (p + length xs) ys b'
read-Ahead xs {base} {en} {p} {ys} {b} a h =
    let n : ℕ = length xs in
    let left : length xs + length ys ≡ b.size - p =
      sym (length-append xs ys)
      ∙ ap length (sym a.left)
      ∙ length-drop p (content b)
      ∙ ap (λ k. k - p) (length-content b a.valid) in
    let (r, e, w) =
      read-ReadTo n b a.valid (omega (arith, a.here, a.base_is))
        (omega (arith, a.here, a.valid.position_le)) in
    let bytes : r.0 ≡ xs =
      w.bytes
      ∙ ap (λ k. take n (drop k (content b))) a.here
      ∙ ap (take n) a.left
      ∙ take-append_le n xs ys (omega arith)
      ∙ take-length xs in
    let rest : drop (p + n) (content r.1) ≡ ys =
      ap (drop (p + n)) w.same_content
      ∙ sym (drop-drop p n (content b))
      ∙ ap (drop n) a.left
      ∙ drop-front xs ys in
    (
      r.1,
      e ∙ ap (λ k. ok (k, r.1)) bytes,
      record {
        valid = w.valid;
        left = rest;
        here = w.moved ∙ ap (λ k. k + n) a.here;
        base_is = w.same_base ∙ a.base_is;
        endian_is = w.same_endian ∙ a.endian_is;
      },
    )

-- With fewer bytes left than are asked for, reading throws.
pub read-Ahead_short :
    (n : ℕ) {base : ℕ} {en : Endian} {p : ℕ} {bytes : List ℕ} {b : ByteArray}
    → Ahead base en p bytes b
    → length bytes < n
    → read n b ≡ out_of_range
read-Ahead_short n {base} {en} {p} {bytes} {b} a h =
    let left : length bytes ≡ b.size - p =
      ap length (sym a.left)
      ∙ length-drop p (content b)
      ∙ ap (λ k. k - p) (length-content b a.valid) in
    read_short n b a.valid (omega (arith, a.here))

-- The remaining bytes as a string.
pub to_string-Ahead :
    {base : ℕ} {en : Endian} {p : ℕ} {bytes : List ℕ} {b : ByteArray}
    → Ahead base en p bytes b
    → to_string b ≡ ok bytes
to_string-Ahead {p = p} {b = b} a =
    to_string-content b a.valid ∙ ap ok (ap (λ k. drop k (content b)) a.here ∙ a.left)
