-- ===== src/ByteArray/Ints.antt =====
-- acid/common/byte_array.{h,cpp} and util.h: fixed-width integers, and strings behind a length. An
-- integer of `w` bytes is the number of its bit pattern, below 256 ^ w; `host` is the byte order of
-- the machine, std::endian::native.
pub mod Wire
pub mod Texts
use acid_compute.Prelude.{
  ℕ, zero, suc, ◌+◌, ◌*◌, ◌/◌, ◌%◌, ◌^◌, Bool, true, false, List, [], ◌∷◌, reverse, if◌then◌else◌,
  length,
}
use acid_compute.Outcome.{Outcome, ok, ◌>>=◌}
use acid_compute.ByteArray.Store.{ByteArray, Endian, little, big, write, read}

-- The bytes of a number, lowest first, and back.
unfoldable pub to_le : ℕ → ℕ → List ℕ
to_le zero v = []
to_le (suc w) v = v % 256 ∷ to_le w (v / 256)

unfoldable pub from_le : List ℕ → ℕ
from_le [] = 0
from_le (b ∷ bs) = b + 256 * from_le bs

-- An integer as it lies in memory, and the integer that lies there.
unfoldable pub in_memory : Endian → ℕ → ℕ → List ℕ
in_memory little w v = to_le w v
in_memory big w v = reverse (to_le w v)

unfoldable pub from_memory : Endian → List ℕ → ℕ
from_memory little bs = from_le bs
from_memory big bs = from_le (reverse bs)

-- bswap_16, bswap_32 and bswap_64.
unfoldable pub byte_swap : ℕ → ℕ → ℕ
byte_swap w v = from_le (reverse (to_le w v))

abbrev pub same_endian : Endian → Endian → Bool
same_endian little little = true
same_endian little big = false
same_endian big little = false
same_endian big big = true

unfoldable pub write_fix_int : Endian → ℕ → ℕ → ByteArray → Outcome ByteArray
write_fix_int host w v b =
    let v' = if same_endian b.endian host then v else byte_swap w v in write (in_memory host w v') b

unfoldable pub read_fix_int : Endian → ℕ → ByteArray → Outcome (ℕ × ByteArray)
read_fix_int host w b = do
  (bytes, b') ← read w b
  let v = from_memory host bytes
  ok (if same_endian b'.endian host then v else byte_swap w v, b')

-- One byte has no order.
unfoldable pub write_fix_uint8 : ℕ → ByteArray → Outcome ByteArray
write_fix_uint8 v b = write (v ∷ []) b

unfoldable pub read_fix_uint8 : ByteArray → Outcome (ℕ × ByteArray)
read_fix_uint8 b = do (bytes, b') ← read 1 b; ok (from_le bytes, b')

-- write_string_f16, _f32 and _f64: the length as an integer of `w` bytes, which wraps, and the bytes.
unfoldable pub write_string_fix : Endian → ℕ → List ℕ → ByteArray → Outcome ByteArray
write_string_fix host w s b = do b' ← write_fix_int host w (length s % 256 ^ w) b; write s b'

unfoldable pub read_string_fix : Endian → ℕ → ByteArray → Outcome (List ℕ × ByteArray)
read_string_fix host w b = do (n, b') ← read_fix_int host w b; read n b'

unfoldable pub write_string_without_length : List ℕ → ByteArray → Outcome ByteArray
write_string_without_length s b = write s b
