-- ===== src/ByteArray/Varint/Wires.antt =====
-- Variable-length integers and strings, written to an array and read back.
use mathlib.Core.Path.{subst}
use acid_compute.Prelude.{
  ℕ, ◌+◌, ◌*◌, ◌^◌, ◌<◌, ◌≡◌, sym, ap, ◌∙◌, List, [], ◌++◌, append-nil, append_assoc, arith, length,
  length-append,
}
use acid_compute.Outcome.{ok, ◌>>=◌}
use acid_compute.ByteArray.Store.{ByteArray, Endian, set_position}
use acid_compute.ByteArray.Streams.{
  Filled, Ahead, write-Filled, read-Ahead, set_position-Filled, drop-front,
}
use acid_compute.ByteArray.Varint.{
  encode_zigzag32, encode_zigzag64, write_var_uint32, write_var_uint64, write_var_int32,
  write_var_int64, read_var_uint32, read_var_uint64, read_var_int32, read_var_int64,
  write_string_vint, read_string_vint,
}
use acid_compute.ByteArray.Varint.Zigzag.{
  zigzag32_inverse, zigzag64_inverse, encode_zigzag32-lt, encode_zigzag64-lt,
}
use acid_compute.ByteArray.Varint.Groups.{code, groups-code, length-code, read_groups-code}

pub write_var_uint32-Filled :
    (v : ℕ) {base : ℕ} {en : Endian} {bytes : List ℕ} {b : ByteArray}
    → Filled base en bytes b
    → v < 2 ^ 32
    → length bytes + 5 + base < 2 ^ 64
    → (b' : ByteArray) × (write_var_uint32 v b ≡ ok b') × Filled base en (bytes ++ code 4 v) b'
unfolding write_var_uint32
write_var_uint32-Filled v f h k =
    rw (groups-code 4 v (omega arith)) (write-Filled (code 4 v) f (omega (arith, length-code 4 v)))

pub write_var_uint64-Filled :
    (v : ℕ) {base : ℕ} {en : Endian} {bytes : List ℕ} {b : ByteArray}
    → Filled base en bytes b
    → v < 2 ^ 64
    → length bytes + 10 + base < 2 ^ 64
    → (b' : ByteArray) × (write_var_uint64 v b ≡ ok b') × Filled base en (bytes ++ code 9 v) b'
unfolding write_var_uint64
write_var_uint64-Filled v f h k =
    rw (groups-code 9 v (omega arith)) (write-Filled (code 9 v) f (omega (arith, length-code 9 v)))

pub read_var_uint32-Ahead :
    (v : ℕ) {base : ℕ} {en : Endian} {p : ℕ} (ys : List ℕ) {b : ByteArray}
    → Ahead base en p (code 4 v ++ ys) b
    → v < 2 ^ 32
    → p + 4 < base
    → (b' : ByteArray) × (read_var_uint32 b ≡ ok (v, b'))
      × Ahead base en (p + length (code 4 v)) ys b'
unfolding read_var_uint32
read_var_uint32-Ahead v ys a h k =
    let (b', e, a') = read_groups-code 4 32 0 0 v ys a (omega arith) (omega arith) k in
    let value : 0 + v * 2 ^ 0 ≡ v = omega arith in (b', e ∙ ap (λ t. ok (t, b')) value, a')

pub read_var_uint64-Ahead :
    (v : ℕ) {base : ℕ} {en : Endian} {p : ℕ} (ys : List ℕ) {b : ByteArray}
    → Ahead base en p (code 9 v ++ ys) b
    → v < 2 ^ 64
    → p + 9 < base
    → (b' : ByteArray) × (read_var_uint64 b ≡ ok (v, b'))
      × Ahead base en (p + length (code 9 v)) ys b'
unfolding read_var_uint64
read_var_uint64-Ahead v ys a h k =
    let (b', e, a') = read_groups-code 9 64 0 0 v ys a (omega arith) (omega arith) k in
    let value : 0 + v * 2 ^ 0 ≡ v = omega arith in (b', e ∙ ap (λ t. ok (t, b')) value, a')

-- From the end of what was there, the bytes that were appended.
appended_part :
    (bytes more : List ℕ) {base : ℕ} {en : Endian} {b : ByteArray}
    → Filled base en (bytes ++ more) b
    → (b' : ByteArray) × (set_position (length bytes) b ≡ ok b')
      × Ahead base en (length bytes) (more ++ []) b'
appended_part bytes more {base} {en} f =
    let (b', e, a) =
      set_position-Filled (length bytes) f (omega (arith, length-append bytes more)) in
    (
      b',
      e,
      subst (λ t. Ahead base en (length bytes) t b') (drop-front bytes more ∙ sym (append-nil more))
          a,
    )

-- An int32_t that `write_var_int32` appends to an array whose bytes end more than five or so
-- before the end of the first block, all within 2 ^ 64, is given back by `read_var_int32` from
-- where it begins.
pub var_int32_round_trip :
    (v : ℕ) {base : ℕ} {en : Endian} {bytes : List ℕ} {b : ByteArray}
    → Filled base en bytes b
    → v < 2 ^ 32
    → length bytes + 5 + base < 2 ^ 64
    → length bytes + 4 < base
    → (do
      b1 ← write_var_int32 v b
      b2 ← set_position (length bytes) b1
      (u, b3) ← read_var_int32 b2
      ok u)
      ≡ ok v
unfolding write_var_int32 read_var_int32
var_int32_round_trip v {bytes = bytes} f h k l =
    let z : ℕ = encode_zigzag32 v in
    let (b1, e1, f1) = write_var_uint32-Filled z f (encode_zigzag32-lt v h) k in
    let (b2, e2, a2) = appended_part bytes (code 4 z) f1 in
    let (b3, e3, a3) = read_var_uint32-Ahead z [] a2 (encode_zigzag32-lt v h) l in
    rw (e1, e2, e3, (zigzag32_inverse v h).0)

-- An int64_t that `write_var_int64` appends to an array whose bytes end ten or more before the
-- end of the first block, all within 2 ^ 64, is given back by `read_var_int64` from where it
-- begins.
pub var_int64_round_trip :
    (v : ℕ) {base : ℕ} {en : Endian} {bytes : List ℕ} {b : ByteArray}
    → Filled base en bytes b
    → v < 2 ^ 64
    → length bytes + 10 + base < 2 ^ 64
    → length bytes + 9 < base
    → (do
      b1 ← write_var_int64 v b
      b2 ← set_position (length bytes) b1
      (u, b3) ← read_var_int64 b2
      ok u)
      ≡ ok v
unfolding write_var_int64 read_var_int64
var_int64_round_trip v {bytes = bytes} f h k l =
    let z : ℕ = encode_zigzag64 v in
    let (b1, e1, f1) = write_var_uint64-Filled z f (encode_zigzag64-lt v h) k in
    let (b2, e2, a2) = appended_part bytes (code 9 z) f1 in
    let (b3, e3, a3) = read_var_uint64-Ahead z [] a2 (encode_zigzag64-lt v h) l in
    rw (e1, e2, e3, (zigzag64_inverse v h).0)

-- A string's bytes behind its length as a varint.
abbrev pub text_code : List ℕ → List ℕ
text_code s = code 9 (length s) ++ s

pub write_string_vint-Filled :
    (s : List ℕ) {base : ℕ} {en : Endian} {bytes : List ℕ} {b : ByteArray}
    → Filled base en bytes b
    → length bytes + 10 + length s + base < 2 ^ 64
    → (b' : ByteArray) × (write_string_vint s b ≡ ok b') × Filled base en (bytes ++ text_code s) b'
unfolding write_string_vint
write_string_vint-Filled s {base} {en} {bytes} {b} f h =
    let c : List ℕ = code 9 (length s) in
    let (b1, e1, f1) = write_var_uint64-Filled (length s) f (omega arith) (omega arith) in
    let (b2, e2, f2) =
      write-Filled s f1 (omega (arith, length-append bytes c, length-code 9 (length s))) in
    (b2, rw (e1, e2), subst (λ t. Filled base en t b2) (append_assoc bytes c s) f2)

pub read_string_vint-Ahead :
    (s : List ℕ) {base : ℕ} {en : Endian} {p : ℕ} (ys : List ℕ) {b : ByteArray}
    → Ahead base en p (text_code s ++ ys) b
    → length s < 2 ^ 64
    → p + 10 < base
    → (b' : ByteArray) × (read_string_vint b ≡ ok (s, b'))
      × Ahead base en (p + length (code 9 (length s)) + length s) ys b'
unfolding read_string_vint
read_string_vint-Ahead s {base} {en} {p} ys {b} a h k =
    let c : List ℕ = code 9 (length s) in
    let a0 : Ahead base en p (c ++ (s ++ ys)) b =
      subst (λ t. Ahead base en p t b) (append_assoc c s ys) a in
    let (b1, e1, a1) = read_var_uint64-Ahead (length s) (s ++ ys) a0 h (omega arith) in
    let (b2, e2, a2) = read-Ahead s a1 (omega (arith, length-code 9 (length s))) in
    (b2, rw (e1, e2), a2)

-- A string that `write_string_vint` appends to an array whose bytes end more than ten before the
-- end of the first block, all within 2 ^ 64, is given back by `read_string_vint` from where it
-- begins.
pub string_vint_round_trip :
    (s : List ℕ) {base : ℕ} {en : Endian} {bytes : List ℕ} {b : ByteArray}
    → Filled base en bytes b
    → length bytes + 10 + length s + base < 2 ^ 64
    → length bytes + 10 < base
    → (do
      b1 ← write_string_vint s b
      b2 ← set_position (length bytes) b1
      (t, b3) ← read_string_vint b2
      ok t)
      ≡ ok s
string_vint_round_trip s {bytes = bytes} f h k =
    let (b1, e1, f1) = write_string_vint-Filled s f h in
    let (b2, e2, a2) = appended_part bytes (text_code s) f1 in
    let (b3, e3, a3) = read_string_vint-Ahead s [] a2 (omega arith) k in rw (e1, e2, e3)
