-- ===== src/Samples/Bytes.antt =====
-- Runs of acid/common/byte_array.cpp, and its theorems at small arrays.
use acid_compute.Prelude.{sub64, ℕ, ◌+◌, ◌-◌, ◌^◌, ◌≡◌, refl, arith, [], ◌∷◌, List, some, ◌≤◌, ◌<◌}
use acid_compute.Outcome.{ok, out_of_range, ◌>>=◌}
use acid_compute.ByteArray.Store.{
  ByteArray, little, big, make, write, read, read_at, to_string, set_position, read_loop, copy,
  splice, get_read_size, get_capacity,
}
use acid_compute.ByteArray.Store.Shape.{IsValid}
use acid_compute.ByteArray.Store.Writing.{Wrote, write-Wrote}
use acid_compute.ByteArray.Store.Seeking.{Placed, set_position-Placed}
use acid_compute.ByteArray.Store.Slices.{ReadTo, read-ReadTo, read_at-slice, to_string-content}
use acid_compute.ByteArray.Store.Faults.{read_skips_block}
use acid_compute.ByteArray.Streams.{Filled, make-Filled}
use acid_compute.ByteArray.Buffers.{Iovec, get_read_buffers}
use acid_compute.ByteArray.Buffers.Views.{StopsShort, get_read_buffers-StopsShort}
use acid_compute.ByteArray.Ints.{write_fix_int, read_fix_int, write_string_fix, read_string_fix}
use acid_compute.ByteArray.Ints.Texts.{fix_round_trip}
use acid_compute.ByteArray.Varint.{
  encode_zigzag32, decode_zigzag32, encode_zigzag64, decode_zigzag64, write_var_int32,
  read_var_int32, write_var_int64, read_var_int64, write_string_vint, read_string_vint,
}
use acid_compute.ByteArray.Varint.Zigzag.{zigzag32_inverse, zigzag64_inverse, zigzag32_order}
use acid_compute.ByteArray.Varint.Wires.{
  var_int32_round_trip, var_int64_round_trip, string_vint_round_trip,
}

abbrev nine : List ℕ
nine = 1 ∷ 2 ∷ 3 ∷ 4 ∷ 5 ∷ 6 ∷ 7 ∷ 8 ∷ 9 ∷ []

-- Nine bytes in blocks of four, with the position at `p`.
abbrev stored : ℕ → ℕ → ByteArray
stored p i = record {
  base_size = 4;
  position = p;
  capacity = 12;
  size = 9;
  endian = little;
  nodes = (1 ∷ 2 ∷ 3 ∷ 4 ∷ []) ∷ (5 ∷ 6 ∷ 7 ∷ 8 ∷ []) ∷ (9 ∷ 0 ∷ 0 ∷ 0 ∷ []) ∷ [];
  cur = some i;
}

stored-IsValid : IsValid (stored 1 0)
stored-IsValid = record {
  positive = omega arith;
  shape = omega arith;
  filled = refl;
  rooted = omega arith;
  position_le = omega arith;
  size_le = omega arith;
  fits = omega arith;
  placed = refl;
}

second-IsValid : IsValid (stored 4 1)
second-IsValid = record {
  positive = omega arith;
  shape = omega arith;
  filled = refl;
  rooted = omega arith;
  position_le = omega arith;
  size_le = omega arith;
  fits = omega arith;
  placed = refl;
}

late-IsValid : IsValid (stored 6 1)
late-IsValid = record {
  positive = omega arith;
  shape = omega arith;
  filled = refl;
  rooted = omega arith;
  position_le = omega arith;
  size_le = omega arith;
  fits = omega arith;
  placed = refl;
}

filled_string : (do b ← write nine (make 4 little); c ← set_position 0 b; to_string c) ≡ ok nine
unfolding write make set_position to_string get_read_size get_capacity sub64 splice read_at
    read_loop copy
filled_string = refl

write-Wrote_example : (b : ByteArray) × (write nine (stored 1 0) ≡ ok b) × Wrote (stored 1 0) nine b
write-Wrote_example = write-Wrote nine (stored 1 0) stored-IsValid (omega arith)

read-ReadTo_example :
    (r : List ℕ × ByteArray) × (read 5 (stored 1 0) ≡ ok r) × ReadTo 5 (stored 1 0) r
read-ReadTo_example = read-ReadTo 5 (stored 1 0) stored-IsValid (omega arith) (omega arith)

to_string-content_example : to_string (stored 6 1) ≡ ok (7 ∷ 8 ∷ 9 ∷ [])
to_string-content_example = to_string-content (stored 6 1) late-IsValid

set_position-Placed_example :
    (10 ≤ 12 → (b : ByteArray) × (set_position 10 (stored 1 0) ≡ ok b) × Placed 10 (stored 1 0) b)
    × (12 < 10 → set_position 10 (stored 1 0) ≡ out_of_range)
set_position-Placed_example = set_position-Placed 10 (stored 1 0) stored-IsValid

read_at-slice_example :
    (5 + 4 ≤ 9 → read_at 4 5 (stored 6 1) ≡ ok (6 ∷ 7 ∷ 8 ∷ 9 ∷ []))
    × (9 < 5 + 4 → read_at 4 5 (stored 6 1) ≡ out_of_range)
read_at-slice_example = read_at-slice 4 5 (stored 6 1) late-IsValid (omega arith) refl (omega arith)

read_skips_block_example : (b : ByteArray) × (read 1 (stored 4 1) ≡ ok (9 ∷ [], b))
read_skips_block_example =
    read_skips_block 1 (stored 4 1) second-IsValid refl (omega arith) (omega arith)

get_read_buffers-StopsShort_example :
    (vs : List Iovec) × (get_read_buffers 8 (stored 1 0) ≡ ok (vs, 8))
    × StopsShort 4 8 (stored 1 0).nodes (2 ∷ 3 ∷ 4 ∷ 5 ∷ 6 ∷ 7 ∷ 8 ∷ 9 ∷ 0 ∷ 0 ∷ 0 ∷ []) vs
get_read_buffers-StopsShort_example =
    get_read_buffers-StopsShort 8 (stored 1 0) stored-IsValid (omega arith) (omega arith)

zigzag32_inverse_example :
    (decode_zigzag32 (encode_zigzag32 0xffff_fffe) ≡ 0xffff_fffe)
    × (encode_zigzag32 (decode_zigzag32 0xffff_fffe) ≡ 0xffff_fffe)
zigzag32_inverse_example = zigzag32_inverse 0xffff_fffe (omega arith)

zigzag64_inverse_example :
    (decode_zigzag64 (encode_zigzag64 5) ≡ 5) × (encode_zigzag64 (decode_zigzag64 5) ≡ 5)
zigzag64_inverse_example = zigzag64_inverse 5 (omega arith)

zigzag32_order_example : (encode_zigzag32 6 ≡ 12) × (encode_zigzag32 (2 ^ 32 - 1 - 6) ≡ 13)
zigzag32_order_example = zigzag32_order 6 (omega arith)

empty-Filled : Filled 64 big [] (make 64 big)
empty-Filled = make-Filled 64 big (omega arith) (omega arith)

var_int32_round_trip_example :
    (do
      b1 ← write_var_int32 0xffff_0000 (make 64 big)
      b2 ← set_position 0 b1
      (u, b3) ← read_var_int32 b2
      ok u)
    ≡ ok 0xffff_0000
var_int32_round_trip_example =
    var_int32_round_trip 0xffff_0000 empty-Filled (omega arith) (omega arith) (omega arith)

var_int64_round_trip_example :
    (do
      b1 ← write_var_int64 300 (make 64 big)
      b2 ← set_position 0 b1
      (u, b3) ← read_var_int64 b2
      ok u)
    ≡ ok 300
var_int64_round_trip_example =
    var_int64_round_trip 300 empty-Filled (omega arith) (omega arith) (omega arith)

string_vint_round_trip_example :
    (do
      b1 ← write_string_vint nine (make 64 big)
      b2 ← set_position 0 b1
      (t, b3) ← read_string_vint b2
      ok t)
    ≡ ok nine
string_vint_round_trip_example =
    string_vint_round_trip nine empty-Filled (omega arith) (omega arith)

fix_round_trip_example :
    (do
      b1 ← write_fix_int little 4 258 (make 64 big)
      b2 ← write_string_fix little 2 nine b1
      b3 ← set_position 0 b2
      (x, b4) ← read_fix_int big 4 b3
      (t, b5) ← read_string_fix big 2 b4
      let pair : ℕ × List ℕ = (x, t) in ok pair)
    ≡ ok (258, nine)
fix_round_trip_example =
    fix_round_trip little big 4 258 2 nine empty-Filled (omega arith) (omega arith) (omega arith)
      (omega arith)
