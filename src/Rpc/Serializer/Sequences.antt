-- ===== src/Rpc/Serializer/Sequences.antt =====
-- Sequences of values, written and read back.
use mathlib.Core.Path.{subst}
use acid_compute.Prelude.{
  ℕ, ◌+◌, ◌^◌, ◌≤◌, ◌<◌, ◌≡◌, refl, sym, ap, ◌∙◌, List, [], ◌∷◌, ◌++◌, append_assoc, append-nil,
  arith, length, length-append, All,
}
use acid_compute.Outcome.{ok, ◌>>=◌}
use acid_compute.ByteArray.Store.{ByteArray, Endian, set_position}
use acid_compute.ByteArray.Streams.{Filled, Ahead, set_position-Filled, drop-front}
use acid_compute.ByteArray.Varint.Groups.{code, length-code}
use acid_compute.ByteArray.Varint.Wires.{write_var_uint64-Filled, read_var_uint64-Ahead}
use acid_compute.Rpc.Serializer.{Kind, Value, write_all, read_all, write_sequence, read_sequence}
use acid_compute.Rpc.Serializer.Values.{
  value_wire, Fits, room, length-value_wire, write_value-Filled, read_value-Ahead,
}

abbrev pub wires : Endian → (k : Kind) → List (Value k) → List ℕ
wires en k [] = []
wires en k (v ∷ vs) = value_wire en k v ++ wires en k vs

abbrev pub rooms : (k : Kind) → List (Value k) → ℕ
rooms k [] = 0
rooms k (v ∷ vs) = room k v + rooms k vs

write_all-Filled :
    (host : Endian) (k : Kind) (vs : List (Value k)) {base : ℕ} {en : Endian} {bytes : List ℕ}
    {b : ByteArray}
    → Filled base en bytes b
    → All (Fits k) vs
    → length bytes + rooms k vs + base < 2 ^ 64
    → (b' : ByteArray) × (write_all host k vs b ≡ ok b')
      × Filled base en (bytes ++ wires en k vs) b'
unfolding write_all
write_all-Filled host k [] {base} {en} {bytes} {b} f i h =
    (b, refl, subst (λ t. Filled base en t b) (sym (append-nil bytes)) f)
write_all-Filled host k (v ∷ vs) {base} {en} {bytes} f i h =
    let w : List ℕ = value_wire en k v in
    let (b1, e1, f1) = write_value-Filled host k v f i.0 (omega (arith, h)) in
    let (b2, e2, f2) =
      write_all-Filled host k vs f1 i.1
        (omega (arith, h, length-append bytes w, length-value_wire en k v)) in
    (b2, rw (e1, e2), subst (λ t. Filled base en t b2) (append_assoc bytes w (wires en k vs)) f2)

some_room : (k : Kind) (v : Value k) → 11 ≤ room k v
some_room k v = omega arith

read_all-Ahead :
    (host : Endian) (k : Kind) (vs : List (Value k)) {base : ℕ} {en : Endian} {p : ℕ} (ys : List ℕ)
    {b : ByteArray}
    → Ahead base en p (wires en k vs ++ ys) b
    → All (Fits k) vs
    → p + rooms k vs ≤ base
    → (b' : ByteArray) × (read_all host k (length vs) b ≡ ok (vs, b'))
      × Ahead base en (p + length (wires en k vs)) ys b'
unfolding read_all
read_all-Ahead host k [] {base} {en} {p} ys {b} a i h =
    (b, refl, subst (λ n. Ahead base en n ys b) (omega arith) a)
read_all-Ahead host k (v ∷ vs) {base} {en} {p} ys {b} a i h =
    let w : List ℕ = value_wire en k v in
    let rest : List ℕ = wires en k vs in
    let a0 : Ahead base en p (w ++ (rest ++ ys)) b =
      subst (λ t. Ahead base en p t b) (append_assoc w rest ys) a in
    let (b1, e1, a1) =
      read_value-Ahead host k v (rest ++ ys) a0 i.0 (omega (arith, h, some_room k v)) in
    let (b2, e2, a2) =
      read_all-Ahead host k vs ys a1 i.1 (omega (arith, h, length-value_wire en k v)) in
    let n : p + length w + length rest ≡ p + length (w ++ rest) =
      omega (arith, length-append w rest) in
    (b2, rw (e1, e2), subst (λ m. Ahead base en m ys b2) n a2)

-- A std::vector or std::list of values of a basic type, all within their type, is given back by
-- operator>> on any machine from where operator<< of another one began to append it, when 10 bytes for the
-- count, 11 for each value and the length of each string still fit the first block, all within 2 ^ 64.
pub read_sequence-write_sequence :
    (host host' : Endian) (k : Kind) (vs : List (Value k)) {base : ℕ} {en : Endian} {bytes : List ℕ}
    {b : ByteArray}
    → Filled base en bytes b
    → All (Fits k) vs
    → length vs < 2 ^ 64
    → length bytes + 10 + rooms k vs ≤ base
    → base + base < 2 ^ 64
    → (do
      b1 ← write_sequence host k vs b
      b2 ← set_position (length bytes) b1
      (us, b3) ← read_sequence host' k b2
      ok us)
      ≡ ok vs
unfolding write_sequence read_sequence
read_sequence-write_sequence host host' k vs {base} {en} {bytes} {b} f i c h s =
    let w : List ℕ = code 9 (length vs) in
    let rest : List ℕ = wires en k vs in
    let (b1, e1, f1) = write_var_uint64-Filled (length vs) f c (omega (arith, h, s)) in
    let (b2, e2, f2) =
      write_all-Filled host k vs f1 i
        (omega (arith, h, s, length-append bytes w, length-code 9 (length vs))) in
    let f3 : Filled base en (bytes ++ (w ++ rest)) b2 =
      subst (λ t. Filled base en t b2) (append_assoc bytes w rest) f2 in
    let (b3, e3, a3) =
      set_position-Filled (length bytes) f3 (omega (arith, length-append bytes (w ++ rest))) in
    let a4 : Ahead base en (length bytes) (w ++ (rest ++ [])) b3 =
      subst (λ t. Ahead base en (length bytes) t b3)
        (drop-front bytes (w ++ rest) ∙ ap (λ t. w ++ t) (sym (append-nil rest))) a3 in
    let (b4, e4, a5) = read_var_uint64-Ahead (length vs) (rest ++ []) a4 c (omega (arith, h)) in
    let (b5, e5, a6) =
      read_all-Ahead host' k vs [] a5 i (omega (arith, h, length-code 9 (length vs))) in
    rw (e1, e2, e3, e4, e5)
