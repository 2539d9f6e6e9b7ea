-- ===== src/Rpc/Serializer/Tuples.antt =====
-- std::tuple in acid/rpc/serializer.h: its values in order, written and read back.
use mathlib.Core.Path.{subst}
use acid_compute.Prelude.{
  ℕ, ◌+◌, ◌^◌, ◌≤◌, ◌<◌, ◌≡◌, refl, sym, List, [], ◌∷◌, ◌++◌, append_assoc, append-nil, arith,
  length, length-append,
}
use acid_compute.Outcome.{Outcome, ok, ◌>>=◌}
use acid_compute.ByteArray.Store.{ByteArray, Endian}
use acid_compute.ByteArray.Streams.{Filled, Ahead}
use acid_compute.Rpc.Serializer.{Kind, Value, write_value, read_value}
use acid_compute.Rpc.Serializer.Values.{
  value_wire, Fits, room, length-value_wire, write_value-Filled, read_value-Ahead,
}

abbrev pub Values : List Kind → Type 0
Values [] = Unit {0}
Values (k ∷ ks) = Value k × Values ks

unfoldable pub write_tuple : Endian → (ks : List Kind) → Values ks → ByteArray → Outcome ByteArray
write_tuple host [] vs b = ok b
write_tuple host (k ∷ ks) (v, vs) b = do b' ← write_value host k v b; write_tuple host ks vs b'

unfoldable pub read_tuple : Endian → (ks : List Kind) → ByteArray → Outcome (Values ks × ByteArray)
read_tuple host [] b = ok (tt, b)
read_tuple host (k ∷ ks) b = do
  (v, b') ← read_value host k b
  (vs, b'') ← read_tuple host ks b'
  ok ((v, vs), b'')

abbrev pub tuple_wire : Endian → (ks : List Kind) → Values ks → List ℕ
tuple_wire en [] vs = []
tuple_wire en (k ∷ ks) (v, vs) = value_wire en k v ++ tuple_wire en ks vs

abbrev pub tuple_room : (ks : List Kind) → Values ks → ℕ
tuple_room [] vs = 0
tuple_room (k ∷ ks) (v, vs) = room k v + tuple_room ks vs

abbrev pub AllFit : (ks : List Kind) → Values ks → Type 0
AllFit [] vs = Unit {0}
AllFit (k ∷ ks) (v, vs) = Fits k v × AllFit ks vs

pub length-tuple_wire :
    (en : Endian) (ks : List Kind) (vs : Values ks)
    → length (tuple_wire en ks vs) ≤ tuple_room ks vs
length-tuple_wire en [] vs = omega arith
length-tuple_wire en (k ∷ ks) (v, vs) = omega (
  arith,
  length-append (value_wire en k v) (tuple_wire en ks vs),
  length-value_wire en k v,
  length-tuple_wire en ks vs,
)

pub write_tuple-Filled :
    (host : Endian) (ks : List Kind) (vs : Values ks) {base : ℕ} {en : Endian} {bytes : List ℕ}
    {b : ByteArray}
    → Filled base en bytes b
    → AllFit ks vs
    → length bytes + tuple_room ks vs + base < 2 ^ 64
    → (b' : ByteArray) × (write_tuple host ks vs b ≡ ok b')
      × Filled base en (bytes ++ tuple_wire en ks vs) b'
unfolding write_tuple
write_tuple-Filled host [] vs {base} {en} {bytes} {b} f i h =
    (b, refl, subst (λ t. Filled base en t b) (sym (append-nil bytes)) f)
write_tuple-Filled host (k ∷ ks) (v, vs) {base} {en} {bytes} f i h =
    let w : List ℕ = value_wire en k v in
    let (b1, e1, f1) = write_value-Filled host k v f i.0 (omega (arith, h)) in
    let (b2, e2, f2) =
      write_tuple-Filled host ks vs f1 i.1
        (omega (arith, h, length-append bytes w, length-value_wire en k v)) in
    (
      b2,
      rw (e1, e2),
      subst (λ t. Filled base en t b2) (append_assoc bytes w (tuple_wire en ks vs)) f2,
    )

some_room : (k : Kind) (v : Value k) → 11 ≤ room k v
some_room k v = omega arith

pub read_tuple-Ahead :
    (host : Endian) (ks : List Kind) (vs : Values ks) {base : ℕ} {en : Endian} {p : ℕ} (ys : List ℕ)
    {b : ByteArray}
    → Ahead base en p (tuple_wire en ks vs ++ ys) b
    → AllFit ks vs
    → p + tuple_room ks vs ≤ base
    → (b' : ByteArray) × (read_tuple host ks b ≡ ok (vs, b'))
      × Ahead base en (p + length (tuple_wire en ks vs)) ys b'
unfolding read_tuple
read_tuple-Ahead host [] tt {base} {en} {p} ys {b} a i h =
    (b, refl, subst (λ n. Ahead base en n ys b) (omega arith) a)
read_tuple-Ahead host (k ∷ ks) (v, vs) {base} {en} {p} ys {b} a i h =
    let w : List ℕ = value_wire en k v in
    let rest : List ℕ = tuple_wire en ks vs in
    let a0 : Ahead base en p (w ++ (rest ++ ys)) b =
      subst (λ t. Ahead base en p t b) (append_assoc w rest ys) a in
    let (b1, e1, a1) =
      read_value-Ahead host k v (rest ++ ys) a0 i.0 (omega (arith, h, some_room k v)) in
    let (b2, e2, a2) =
      read_tuple-Ahead host ks vs ys a1 i.1 (omega (arith, h, length-value_wire en k v)) in
    let n : p + length w + length rest ≡ p + length (w ++ rest) =
      omega (arith, length-append w rest) in
    (b2, rw (e1, e2), subst (λ m. Ahead base en m ys b2) n a2)
