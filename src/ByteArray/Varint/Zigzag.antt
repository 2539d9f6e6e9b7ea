-- ===== src/ByteArray/Varint/Zigzag.antt =====
-- Zigzag is a bijection of the bit patterns, and small magnitudes get small codes.
use acid_compute.Prelude.{ℕ, ◌+◌, ◌-◌, ◌*◌, ◌^◌, ◌<◌, ◌≡◌, arith}
use acid_compute.ByteArray.Varint.{
  encode_zigzag32, decode_zigzag32, encode_zigzag64, decode_zigzag64,
}

-- On 32-bit patterns decoding undoes encoding and encoding undoes decoding.
pub zigzag32_inverse :
    (v : ℕ)
    → v < 2 ^ 32
    → (decode_zigzag32 (encode_zigzag32 v) ≡ v) × (encode_zigzag32 (decode_zigzag32 v) ≡ v)
unfolding encode_zigzag32 decode_zigzag32
zigzag32_inverse v h = (ground arith, ground arith)

-- On 64-bit patterns decoding undoes encoding and encoding undoes decoding.
pub zigzag64_inverse :
    (v : ℕ)
    → v < 2 ^ 64
    → (decode_zigzag64 (encode_zigzag64 v) ≡ v) × (encode_zigzag64 (decode_zigzag64 v) ≡ v)
unfolding encode_zigzag64 decode_zigzag64
zigzag64_inverse v h = (ground arith, ground arith)

-- The numbers 0, -1, 1, -2, … become 0, 1, 2, 3, …: a number n below 2 ^ 31 becomes 2 * n, and
-- -(n + 1), whose pattern is 2 ^ 32 - 1 - n, becomes 2 * n + 1.
pub zigzag32_order :
    (n : ℕ)
    → n < 2 ^ 31
    → (encode_zigzag32 n ≡ 2 * n) × (encode_zigzag32 (2 ^ 32 - 1 - n) ≡ 2 * n + 1)
unfolding encode_zigzag32
zigzag32_order n h = (ground arith, ground arith)

pub encode_zigzag32-lt : (v : ℕ) → v < 2 ^ 32 → encode_zigzag32 v < 2 ^ 32
unfolding encode_zigzag32
encode_zigzag32-lt v h = ground arith

pub encode_zigzag64-lt : (v : ℕ) → v < 2 ^ 64 → encode_zigzag64 v < 2 ^ 64
unfolding encode_zigzag64
encode_zigzag64-lt v h = ground arith
