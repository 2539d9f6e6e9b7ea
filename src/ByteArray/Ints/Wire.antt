-- ===== src/ByteArray/Ints/Wire.antt =====
-- The bytes of an integer on the wire: in the array's order, whatever the machine's order is.
use mathlib.Core.List.{reverse-cons, reverse-reverse}
use native.Mathlib.Nat.{pow-suc}
use mathlib.Core.Path.{subst}
use acid_compute.Prelude.{
  ℕ, zero, suc, ◌+◌, ◌*◌, ◌/◌, ◌%◌, ◌^◌, ◌<◌, ◌≡◌, refl, sym, ap, ◌∙◌, List, [], ◌∷◌, ◌++◌, arith,
  reverse, if◌then◌else◌, length, All, length-reverse,
}
use acid_compute.Outcome.{ok}
use acid_compute.ByteArray.Store.{ByteArray, Endian, little, big, read}
use acid_compute.ByteArray.Streams.{Filled, Ahead, write-Filled, read-Ahead}
use acid_compute.ByteArray.Ints.{
  to_le, from_le, in_memory, from_memory, byte_swap, same_endian, write_fix_int, read_fix_int,
  write_fix_uint8, read_fix_uint8,
}

-- An integer in an array of the given byte order.
unfoldable pub wire : Endian → ℕ → ℕ → List ℕ
wire little w v = to_le w v
wire big w v = reverse (to_le w v)

abbrev IsByte : ℕ → Type 0
IsByte b = b < 256

pub length-to_le : (w v : ℕ) → length (to_le w v) ≡ w
unfolding to_le
length-to_le zero v = refl
length-to_le (suc w) v = ap suc (length-to_le w (v / 256))

pub length-wire : (en : Endian) (w v : ℕ) → length (wire en w v) ≡ w
unfolding wire
length-wire little w v = length-to_le w v
length-wire big w v = length-reverse (to_le w v) ∙ length-to_le w v

pow_byte : (w : ℕ) → 256 ^ suc w ≡ 256 ^ w * 256
pow_byte w = pow-suc 256 w

pub from_le-to_le : (w v : ℕ) → v < 256 ^ w → from_le (to_le w v) ≡ v
unfolding to_le from_le
from_le-to_le zero v h = omega (arith)
from_le-to_le (suc w) v h = omega (arith, from_le-to_le w (v / 256) (omega (arith, pow_byte w)))

to_le-from_le : (bs : List ℕ) → All IsByte bs → to_le (length bs) (from_le bs) ≡ bs
unfolding to_le from_le
to_le-from_le [] h = refl
to_le-from_le (b ∷ bs) h =
    let low : (b + 256 * from_le bs) % 256 ≡ b = omega arith in
    let high : (b + 256 * from_le bs) / 256 ≡ from_le bs = omega arith in
    rw (low, high, to_le-from_le bs h.1)

to_le-IsByte : (w v : ℕ) → All IsByte (to_le w v)
unfolding to_le
to_le-IsByte zero v = tt
to_le-IsByte (suc w) v = (omega arith, to_le-IsByte w (v / 256))

All-snoc : (xs ys : List ℕ) → All IsByte xs → All IsByte ys → All IsByte (xs ++ ys)
All-snoc [] ys h k = k
All-snoc (x ∷ xs) ys h k = (h.0, All-snoc xs ys h.1 k)

reverse-IsByte : (xs : List ℕ) → All IsByte xs → All IsByte (reverse xs)
reverse-IsByte [] h = h
reverse-IsByte (x ∷ xs) h =
    rw (reverse-cons x xs) (All-snoc (reverse xs) (x ∷ []) (reverse-IsByte xs h.1) (h.0, tt))

-- A swapped number has the bytes of the number in reverse.
pub to_le-byte_swap : (w v : ℕ) → to_le w (byte_swap w v) ≡ reverse (to_le w v)
unfolding byte_swap
to_le-byte_swap w v =
    let bs : List ℕ = reverse (to_le w v) in
    let n : length bs ≡ w = length-reverse (to_le w v) ∙ length-to_le w v in
    ap (λ k. to_le k (from_le bs)) (sym n)
    ∙ to_le-from_le bs (reverse-IsByte (to_le w v) (to_le-IsByte w v))

-- What `write_fix_int` writes does not depend on the machine.
in_memory-wire :
    (host en : Endian) (w v : ℕ)
    → in_memory host w (if same_endian en host then v else byte_swap w v) ≡ wire en w v
unfolding in_memory wire
in_memory-wire little little w v = refl
in_memory-wire little big w v = to_le-byte_swap w v
in_memory-wire big little w v = ap reverse (to_le-byte_swap w v) ∙ reverse-reverse (to_le w v)
in_memory-wire big big w v = refl

byte_swap-byte_swap : (w v : ℕ) → v < 256 ^ w → byte_swap w (byte_swap w v) ≡ v
unfolding byte_swap
byte_swap-byte_swap w v h =
    ap (λ bs. from_le (reverse bs)) (to_le-byte_swap w v)
    ∙ ap from_le (reverse-reverse (to_le w v))
    ∙ from_le-to_le w v h

-- Nor does what `read_fix_int` makes of it.
from_memory-wire :
    (host en : Endian) (w v : ℕ)
    → v < 256 ^ w
    → (if same_endian en host
        then from_memory host (wire en w v)
        else byte_swap w (from_memory host (wire en w v)))
      ≡ v
unfolding from_memory wire byte_swap
from_memory-wire little little w v h = from_le-to_le w v h
from_memory-wire little big w v h = byte_swap-byte_swap w v h
from_memory-wire big little w v h = byte_swap-byte_swap w v h
from_memory-wire big big w v h = rw (reverse-reverse (to_le w v)) (from_le-to_le w v h)

-- Writing an integer appends its wire form.
pub write_fix_int-Filled :
    (host : Endian) (w v : ℕ) {base : ℕ} {en : Endian} {bytes : List ℕ} {b : ByteArray}
    → Filled base en bytes b
    → length bytes + w + base < 2 ^ 64
    → (b' : ByteArray) × (write_fix_int host w v b ≡ ok b')
      × Filled base en (bytes ++ wire en w v) b'
unfolding write_fix_int
write_fix_int-Filled host w v {base} {en} {bytes} {b} f h =
    let same : in_memory host w (if same_endian b.endian host then v else byte_swap w v)
        ≡ wire en w v =
      in_memory-wire host b.endian w v ∙ ap (λ e. wire e w v) f.endian_is in
    rw same (write-Filled (wire en w v) f (omega (arith, length-wire en w v)))

-- Reading takes it off again, on any machine.
pub read_fix_int-Ahead :
    (host : Endian) (w v : ℕ) {base : ℕ} {en : Endian} {p : ℕ} {ys : List ℕ} {b : ByteArray}
    → Ahead base en p (wire en w v ++ ys) b
    → v < 256 ^ w
    → p < base
    → (b' : ByteArray) × (read_fix_int host w b ≡ ok (v, b')) × Ahead base en (p + w) ys b'
unfolding read_fix_int
read_fix_int-Ahead host w v {base} {en} {p} {ys} {b} a h k =
    let n : length (wire en w v) ≡ w = length-wire en w v in
    let (b', e, a') = read-Ahead (wire en w v) a k in
    let runs : read w b ≡ ok (wire en w v, b') = ap (λ m. read m b) (sym n) ∙ e in
    let value : (if same_endian b'.endian host
          then from_memory host (wire en w v)
          else byte_swap w (from_memory host (wire en w v)))
        ≡ v =
      rw a'.endian_is (from_memory-wire host en w v h) in
    (b', rw (runs, value), subst (λ m. Ahead base en (p + m) ys b') n a')

pub write_fix_uint8-Filled :
    (v : ℕ) {base : ℕ} {en : Endian} {bytes : List ℕ} {b : ByteArray}
    → Filled base en bytes b
    → length bytes + 1 + base < 2 ^ 64
    → (b' : ByteArray) × (write_fix_uint8 v b ≡ ok b') × Filled base en (bytes ++ v ∷ []) b'
unfolding write_fix_uint8
write_fix_uint8-Filled v f h = write-Filled (v ∷ []) f h

pub read_fix_uint8-Ahead :
    (t : ℕ) {base : ℕ} {en : Endian} {p : ℕ} {ys : List ℕ} {b : ByteArray}
    → Ahead base en p (t ∷ ys) b
    → p < base
    → (b' : ByteArray) × (read_fix_uint8 b ≡ ok (t, b')) × Ahead base en (p + 1) ys b'
unfolding read_fix_uint8 from_le
read_fix_uint8-Ahead t a h =
    let (b', e, a') = read-Ahead (t ∷ []) a h in
    let value : t + 256 * 0 ≡ t = omega arith in (b', rw (e, value), a')
