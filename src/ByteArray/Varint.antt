-- ===== src/ByteArray/Varint.antt =====
-- acid/common/byte_array.cpp: zigzag and variable-length integers.
pub mod Zigzag
pub mod Groups
pub mod Wires
use acid_compute.Prelude.{
  ℕ, zero, suc, ◌+◌, ◌-◌, ◌*◌, ◌/◌, ◌%◌, ◌^◌, List, [], ◌∷◌, ltb, leb, ◌==◌, if◌then◌else◌, length,
}
use acid_compute.Outcome.{Outcome, ok, undefined, ◌>>=◌}
use acid_compute.ByteArray.Store.{ByteArray, write, read}
use acid_compute.ByteArray.Ints.{read_fix_uint8}

-- An int32_t or int64_t is its bit pattern. `value >> 31` is all ones or 0, and `^` with all ones
-- is the complement.
unfoldable pub encode_zigzag32 : ℕ → ℕ
encode_zigzag32 v =
    let shifted = v * 2 % 2 ^ 32 in if leb (2 ^ 31) v then 2 ^ 32 - 1 - shifted else shifted

unfoldable pub encode_zigzag64 : ℕ → ℕ
encode_zigzag64 v =
    let shifted = v * 2 % 2 ^ 64 in if leb (2 ^ 63) v then 2 ^ 64 - 1 - shifted else shifted

-- `-(value & 1)` is all ones or 0.
unfoldable pub decode_zigzag32 : ℕ → ℕ
decode_zigzag32 v = if v % 2 == 1 then 2 ^ 32 - 1 - v / 2 else v / 2

unfoldable pub decode_zigzag64 : ℕ → ℕ
decode_zigzag64 v = if v % 2 == 1 then 2 ^ 64 - 1 - v / 2 else v / 2

-- The loop that fills `tmp`, with the elements of `tmp` that are left. `(value & 0x7F) | 0x80` is
-- `value % 128 + 128`, and `value >> 7` is `value / 128`.
unfoldable pub groups : ℕ → ℕ → Outcome (List ℕ)
groups zero v = undefined
groups (suc room) v =
    let rest = groups room (v / 128) in
    if leb 128 v then (rest >>= λ bs. ok ((v % 128 + 128) ∷ bs)) else ok (v ∷ [])

-- tmp[5] and tmp[10].
unfoldable pub write_var_uint32 : ℕ → ByteArray → Outcome ByteArray
write_var_uint32 v b = do bytes ← groups 5 v; write bytes b

unfoldable pub write_var_uint64 : ℕ → ByteArray → Outcome ByteArray
write_var_uint64 v b = do bytes ← groups 10 v; write bytes b

unfoldable pub write_var_int32 : ℕ → ByteArray → Outcome ByteArray
write_var_int32 v b = write_var_uint32 (encode_zigzag32 v) b

unfoldable pub write_var_int64 : ℕ → ByteArray → Outcome ByteArray
write_var_int64 v b = write_var_uint64 (encode_zigzag64 v) b

-- The loop of the readers, with the rounds that are left. `result` has no bit from `i` on, so `|=`
-- is `+`; what a shift pushes out of the type is lost.
unfoldable pub read_groups : ℕ → ℕ → ℕ → ℕ → ByteArray → Outcome (ℕ × ByteArray)
read_groups zero bits i result b = ok (result, b)
read_groups (suc rounds) bits i result b = do
  (tmp, b') ← read_fix_uint8 b
  let more = read_groups rounds bits (i + 7) (result + tmp % 128 * 2 ^ i % 2 ^ bits) b'
  if ltb tmp 128 then ok (result + tmp * 2 ^ i % 2 ^ bits, b') else more

-- `i` takes the values 0, 7, …, 28, and 0, 7, …, 63.
unfoldable pub read_var_uint32 : ByteArray → Outcome (ℕ × ByteArray)
read_var_uint32 b = read_groups 5 32 0 0 b

unfoldable pub read_var_uint64 : ByteArray → Outcome (ℕ × ByteArray)
read_var_uint64 b = read_groups 10 64 0 0 b

unfoldable pub read_var_int32 : ByteArray → Outcome (ℕ × ByteArray)
read_var_int32 b = do (v, b') ← read_var_uint32 b; ok (decode_zigzag32 v, b')

unfoldable pub read_var_int64 : ByteArray → Outcome (ℕ × ByteArray)
read_var_int64 b = do (v, b') ← read_var_uint64 b; ok (decode_zigzag64 v, b')

unfoldable pub write_string_vint : List ℕ → ByteArray → Outcome ByteArray
write_string_vint s b = do b' ← write_var_uint64 (length s) b; write s b'

unfoldable pub read_string_vint : ByteArray → Outcome (List ℕ × ByteArray)
read_string_vint b = do (n, b') ← read_var_uint64 b; read n b'
