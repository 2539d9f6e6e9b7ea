-- ===== src/Rpc/Serializer.antt =====
-- acid/rpc/serializer.h: values of the basic types and sequences of them, written to and read from a
-- byte array. A number is its bit pattern; a float goes through the integer of its bits.
pub mod Values
pub mod Sequences
pub mod Tuples
use acid_compute.Prelude.{
  ℕ, zero, suc, ◌%◌, ◌^◌, Bool, true, false, not, List, [], ◌∷◌, ◌==◌, if◌then◌else◌, length,
}
use acid_compute.Outcome.{Outcome, ok, ◌>>=◌}
use acid_compute.ByteArray.Store.{ByteArray, Endian}
use acid_compute.ByteArray.Ints.{write_fix_int, read_fix_int, write_fix_uint8, read_fix_uint8}
use acid_compute.ByteArray.Varint.{
  write_var_int32, write_var_uint32, write_var_int64, write_var_uint64, read_var_int32,
  read_var_uint32, read_var_int64, read_var_uint64, write_string_vint, read_string_vint,
}

-- The types that `read` and `write` tell apart.
pub data Kind : Type 0 where
  boolean float32 float64 int8 uint8 int16 uint16 int32 uint32 int64 uint64 text : Kind

abbrev pub Value : Kind → Type 0
Value boolean = Bool
Value float32 = ℕ
Value float64 = ℕ
Value int8 = ℕ
Value uint8 = ℕ
Value int16 = ℕ
Value uint16 = ℕ
Value int32 = ℕ
Value uint32 = ℕ
Value int64 = ℕ
Value uint64 = ℕ
Value text = List ℕ

unfoldable pub write_value : Endian → (k : Kind) → Value k → ByteArray → Outcome ByteArray
write_value host boolean v b = write_fix_uint8 (if v then 1 else 0) b
write_value host float32 v b = write_fix_int host 4 v b
write_value host float64 v b = write_fix_int host 8 v b
write_value host int8 v b = write_fix_uint8 v b
write_value host uint8 v b = write_fix_uint8 v b
write_value host int16 v b = write_fix_int host 2 v b
write_value host uint16 v b = write_fix_int host 2 v b
write_value host int32 v b = write_var_int32 v b
write_value host uint32 v b = write_var_uint32 v b
write_value host int64 v b = write_var_int64 v b
write_value host uint64 v b = write_var_uint64 v b
write_value host text v b = write_string_vint v b

unfoldable pub read_value : Endian → (k : Kind) → ByteArray → Outcome (Value k × ByteArray)
read_value host boolean b = do (v, b') ← read_fix_uint8 b; ok (not (v == 0), b')
read_value host float32 b = read_fix_int host 4 b
read_value host float64 b = read_fix_int host 8 b
read_value host int8 b = read_fix_uint8 b
read_value host uint8 b = read_fix_uint8 b
read_value host int16 b = read_fix_int host 2 b
read_value host uint16 b = read_fix_int host 2 b
read_value host int32 b = read_var_int32 b
read_value host uint32 b = read_var_uint32 b
read_value host int64 b = read_var_int64 b
read_value host uint64 b = read_var_uint64 b
read_value host text b = read_string_vint b

unfoldable pub write_all : Endian → (k : Kind) → List (Value k) → ByteArray → Outcome ByteArray
unfolding write_value
write_all host k [] b = ok b
write_all host k (v ∷ vs) b = do b' ← write_value host k v b; write_all host k vs b'

unfoldable pub read_all : Endian → (k : Kind) → ℕ → ByteArray → Outcome (List (Value k) × ByteArray)
unfolding read_value
read_all host k zero b = ok ([], b)
read_all host k (suc n) b = do
  (v, b') ← read_value host k b
  (vs, b'') ← read_all host k n b'
  ok (v ∷ vs, b'')

-- operator<< and operator>> of std::vector and std::list; the elements are appended to an empty one.
unfoldable pub write_sequence : Endian → (k : Kind) → List (Value k) → ByteArray → Outcome ByteArray
unfolding write_all
write_sequence host k vs b = do b' ← write_var_uint64 (length vs) b; write_all host k vs b'

unfoldable pub read_sequence :
    Endian → (k : Kind) → ByteArray → Outcome (List (Value k) × ByteArray)
unfolding read_all
read_sequence host k b = do (n, b') ← read_var_uint64 b; read_all host k n b'
