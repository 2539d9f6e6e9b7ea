-- ===== src/Rpc/Serializer/Values.antt =====
-- One value, written and read back.
use mathlib.Core.Path.{subst}
use acid_compute.Prelude.{
  ℕ, ◌+◌, ◌^◌, ◌≤◌, ◌<◌, ◌≡◌, sym, true, false, List, [], ◌∷◌, ◌++◌, arith, if◌then◌else◌, length,
  length-append,
}
use acid_compute.Outcome.{ok}
use acid_compute.ByteArray.Store.{ByteArray, Endian}
use acid_compute.ByteArray.Streams.{Filled, Ahead}
use acid_compute.ByteArray.Ints.{read_fix_int}
use acid_compute.ByteArray.Ints.Wire.{
  wire, length-wire, write_fix_int-Filled, read_fix_int-Ahead, write_fix_uint8-Filled,
  read_fix_uint8-Ahead,
}
use acid_compute.ByteArray.Varint.{
  encode_zigzag32, encode_zigzag64, write_var_int32, write_var_int64, read_var_int32,
  read_var_int64,
}
use acid_compute.ByteArray.Varint.Zigzag.{
  zigzag32_inverse, zigzag64_inverse, encode_zigzag32-lt, encode_zigzag64-lt,
}
use acid_compute.ByteArray.Varint.Groups.{code, length-code}
use acid_compute.ByteArray.Varint.Wires.{
  text_code, write_var_uint32-Filled, write_var_uint64-Filled, read_var_uint32-Ahead,
  read_var_uint64-Ahead, write_string_vint-Filled, read_string_vint-Ahead,
}
use acid_compute.Rpc.Serializer.{
  Kind, Value, boolean, float32, float64, int8, uint8, int16, uint16, int32, uint32, int64, uint64,
  text, write_value, read_value,
}

-- The bytes of a value.
abbrev pub value_wire : Endian → (k : Kind) → Value k → List ℕ
value_wire en boolean v = (if v then 1 else 0) ∷ []
value_wire en float32 v = wire en 4 v
value_wire en float64 v = wire en 8 v
value_wire en int8 v = v ∷ []
value_wire en uint8 v = v ∷ []
value_wire en int16 v = wire en 2 v
value_wire en uint16 v = wire en 2 v
value_wire en int32 v = code 4 (encode_zigzag32 v)
value_wire en uint32 v = code 4 v
value_wire en int64 v = code 9 (encode_zigzag64 v)
value_wire en uint64 v = code 9 v
value_wire en text v = text_code v

-- A value that its type has.
abbrev pub Fits : (k : Kind) → Value k → Type 0
Fits boolean v = Unit
Fits float32 v = v < 2 ^ 32
Fits float64 v = v < 2 ^ 64
Fits int8 v = v < 2 ^ 8
Fits uint8 v = v < 2 ^ 8
Fits int16 v = v < 2 ^ 16
Fits uint16 v = v < 2 ^ 16
Fits int32 v = v < 2 ^ 32
Fits uint32 v = v < 2 ^ 32
Fits int64 v = v < 2 ^ 64
Fits uint64 v = v < 2 ^ 64
Fits text v = length v < 2 ^ 64

-- What a string's bytes take.
abbrev extra : (k : Kind) → Value k → ℕ
extra text v = length v
extra _ v = 0

-- Room enough for the bytes of a value.
abbrev pub room : (k : Kind) → Value k → ℕ
room k v = 11 + extra k v

-- Writing a value appends its bytes.
pub write_value-Filled :
    (host : Endian) (k : Kind) (v : Value k) {base : ℕ} {en : Endian} {bytes : List ℕ}
    {b : ByteArray}
    → Filled base en bytes b
    → Fits k v
    → length bytes + room k v + base < 2 ^ 64
    → (b' : ByteArray) × (write_value host k v b ≡ ok b')
      × Filled base en (bytes ++ value_wire en k v) b'
unfolding write_value write_var_int32 write_var_int64
write_value-Filled host boolean v f i h =
    write_fix_uint8-Filled (if v then 1 else 0) f (omega arith)
write_value-Filled host float32 v f i h = write_fix_int-Filled host 4 v f (omega arith)
write_value-Filled host float64 v f i h = write_fix_int-Filled host 8 v f (omega arith)
write_value-Filled host int8 v f i h = write_fix_uint8-Filled v f (omega arith)
write_value-Filled host uint8 v f i h = write_fix_uint8-Filled v f (omega arith)
write_value-Filled host int16 v f i h = write_fix_int-Filled host 2 v f (omega arith)
write_value-Filled host uint16 v f i h = write_fix_int-Filled host 2 v f (omega arith)
write_value-Filled host int32 v f i h =
    write_var_uint32-Filled (encode_zigzag32 v) f (encode_zigzag32-lt v i) (omega arith)
write_value-Filled host uint32 v f i h = write_var_uint32-Filled v f i (omega arith)
write_value-Filled host int64 v f i h =
    write_var_uint64-Filled (encode_zigzag64 v) f (encode_zigzag64-lt v i) (omega arith)
write_value-Filled host uint64 v f i h = write_var_uint64-Filled v f i (omega arith)
write_value-Filled host text v f i h = write_string_vint-Filled v f (omega arith)

-- The position behind a fixed-width integer.
behind_fix :
    (host : Endian) (w v : ℕ) {base : ℕ} {en : Endian} {p : ℕ} (ys : List ℕ) {b : ByteArray}
    → Ahead base en p (wire en w v ++ ys) b
    → v < 256 ^ w
    → p < base
    → (b' : ByteArray) × (read_fix_int host w b ≡ ok (v, b'))
      × Ahead base en (p + length (wire en w v)) ys b'
behind_fix host w v {base} {en} {p} ys a i h =
    let (b', e, a') = read_fix_int-Ahead host w v a i h in
    (b', e, subst (λ n. Ahead base en (p + n) ys b') (sym (length-wire en w v)) a')

-- Reading gives a value back that stands in front of the position, when more than ten bytes of the
-- first block are left.
pub read_value-Ahead :
    (host : Endian) (k : Kind) (v : Value k) {base : ℕ} {en : Endian} {p : ℕ} (ys : List ℕ)
    {b : ByteArray}
    → Ahead base en p (value_wire en k v ++ ys) b
    → Fits k v
    → p + 10 < base
    → (b' : ByteArray) × (read_value host k b ≡ ok (v, b'))
      × Ahead base en (p + length (value_wire en k v)) ys b'
unfolding read_value read_var_int32 read_var_int64
read_value-Ahead host boolean true ys a i h =
    let (b', e, a') = read_fix_uint8-Ahead 1 a (omega arith) in (b', rw e, a')
read_value-Ahead host boolean false ys a i h =
    let (b', e, a') = read_fix_uint8-Ahead 0 a (omega arith) in (b', rw e, a')
read_value-Ahead host float32 v ys a i h = behind_fix host 4 v ys a i (omega arith)
read_value-Ahead host float64 v ys a i h = behind_fix host 8 v ys a i (omega arith)
read_value-Ahead host int8 v ys a i h = read_fix_uint8-Ahead v a (omega arith)
read_value-Ahead host uint8 v ys a i h = read_fix_uint8-Ahead v a (omega arith)
read_value-Ahead host int16 v ys a i h = behind_fix host 2 v ys a i (omega arith)
read_value-Ahead host uint16 v ys a i h = behind_fix host 2 v ys a i (omega arith)
read_value-Ahead host int32 v ys a i h =
    let z : ℕ = encode_zigzag32 v in
    let (b', e, a') = read_var_uint32-Ahead z ys a (encode_zigzag32-lt v i) (omega arith) in
    (b', rw (e, (zigzag32_inverse v i).0), a')
read_value-Ahead host uint32 v ys a i h = read_var_uint32-Ahead v ys a i (omega arith)
read_value-Ahead host int64 v ys a i h =
    let z : ℕ = encode_zigzag64 v in
    let (b', e, a') = read_var_uint64-Ahead z ys a (encode_zigzag64-lt v i) (omega arith) in
    (b', rw (e, (zigzag64_inverse v i).0), a')
read_value-Ahead host uint64 v ys a i h = read_var_uint64-Ahead v ys a i (omega arith)
read_value-Ahead host text v {base} {en} {p} ys a i h =
    let (b', e, a') = read_string_vint-Ahead v ys a i h in
    let n : p + length (code 9 (length v)) + length v ≡ p + length (text_code v) =
      omega (arith, length-append (code 9 (length v)) v) in
    (b', e, subst (λ m. Ahead base en m ys b') n a')

pub length-value_wire :
    (en : Endian) (k : Kind) (v : Value k) → length (value_wire en k v) ≤ room k v
length-value_wire en boolean v = omega arith
length-value_wire en float32 v = omega (arith, length-wire en 4 v)
length-value_wire en float64 v = omega (arith, length-wire en 8 v)
length-value_wire en int8 v = omega arith
length-value_wire en uint8 v = omega arith
length-value_wire en int16 v = omega (arith, length-wire en 2 v)
length-value_wire en uint16 v = omega (arith, length-wire en 2 v)
length-value_wire en int32 v = omega (arith, length-code 4 (encode_zigzag32 v))
length-value_wire en uint32 v = omega (arith, length-code 4 v)
length-value_wire en int64 v = omega (arith, length-code 9 (encode_zigzag64 v))
length-value_wire en uint64 v = omega (arith, length-code 9 v)
length-value_wire en text v =
    omega (arith, length-code 9 (length v), length-append (code 9 (length v)) v)
