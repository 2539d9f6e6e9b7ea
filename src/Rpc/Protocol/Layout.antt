-- ===== src/Rpc/Protocol/Layout.antt =====
-- The bytes of an encoded message.
use acid_compute.Prelude.{ℕ, ◌+◌, ◌%◌, ◌^◌, ◌<◌, ◌≡◌, List, ◌∷◌, ◌++◌, arith, length, length-append}
use acid_compute.Outcome.{ok, ◌>>=◌}
use acid_compute.ByteArray.Store.{ByteArray, Endian, big, to_string}
use acid_compute.ByteArray.Streams.{
  Filled, Ahead, make-Filled, set_position-Filled, to_string-Ahead,
}
use acid_compute.ByteArray.Ints.Wire.{
  wire, length-wire, write_fix_int-Filled, write_fix_uint8-Filled,
}
use acid_compute.ByteArray.Ints.Texts.{text_wire, write_string_fix-Filled}
use acid_compute.Rpc.Protocol.{Protocol, write_header, encode_meta, encode}

-- Three single bytes and the sequence id, highest byte first.
abbrev pub header : Protocol → List ℕ
header p = p.magic ∷ p.version ∷ p.type ∷ wire big 4 p.sequence_id

pub length-header : (p : Protocol) → length (header p) ≡ 7
length-header p = omega (arith, length-wire big 4 p.sequence_id)

write_header-Filled :
    (host : Endian) (p : Protocol)
    → (b : ByteArray) × (write_header host p ≡ ok b) × Filled 4096 big (header p) b
unfolding write_header
write_header-Filled host p =
    let f0 = make-Filled 4096 big (omega arith) (omega arith) in
    let (b1, e1, f1) = write_fix_uint8-Filled p.magic f0 (omega arith) in
    let (b2, e2, f2) = write_fix_uint8-Filled p.version f1 (omega arith) in
    let (b3, e3, f3) = write_fix_uint8-Filled p.type f2 (omega arith) in
    let (b4, e4, f4) = write_fix_int-Filled host 4 p.sequence_id f3 (omega arith) in
    (b4, rw (e1, e2, e3, e4), f4)

-- `encode` never fails on a message that fits in memory, and leaves the array at the front of: the
-- header, the content's length in four bytes, highest first, and the content.
pub encode-Ahead :
    (host : Endian) (p : Protocol)
    → length p.content + 2 ^ 13 < 2 ^ 64
    → (b : ByteArray) × (encode host p ≡ ok b)
      × Ahead 4096 big 0 (header p ++ text_wire big 4 p.content) b
unfolding encode
encode-Ahead host p h =
    let (b4, e4, f4) = write_header-Filled host p in
    let (b5, e5, f5) =
      write_string_fix-Filled host 4 p.content f4 (omega (arith, length-header p)) in
    let (b6, e6, a6) = set_position-Filled 0 f5 (omega arith) in (b6, rw (e4, e5, e6), a6)

pub encode_meta-Ahead :
    (host : Endian) (p : Protocol)
    → (b : ByteArray) × (encode_meta host p ≡ ok b)
      × Ahead 4096 big 0 (header p ++ wire big 4 (length p.content % 256 ^ 4)) b
unfolding encode_meta
encode_meta-Ahead host p =
    let (b4, e4, f4) = write_header-Filled host p in
    let (b5, e5, f5) =
      write_fix_int-Filled host 4 (length p.content % 256 ^ 4) f4
        (omega (arith, length-header p)) in
    let (b6, e6, a6) = set_position-Filled 0 f5 (omega arith) in (b6, rw (e4, e5, e6), a6)

-- The encoded message as a string, for a content some 8 KiB below 2 ^ 64 bytes long: a header,
-- the content's length modulo 2 ^ 32 in four bytes, highest first, then the content;
-- `encode_meta` gives the header and the length alone, and these are eleven bytes.
pub encode_layout :
    (host : Endian) (p : Protocol)
    → length p.content + 2 ^ 13 < 2 ^ 64
    → ((encode host p >>= to_string)
        ≡ ok (header p ++ (wire big 4 (length p.content % 256 ^ 4) ++ p.content)))
      × ((encode_meta host p >>= to_string)
          ≡ ok (header p ++ wire big 4 (length p.content % 256 ^ 4)))
      × (length (header p ++ wire big 4 (length p.content % 256 ^ 4)) ≡ 11)
encode_layout host p h =
    let (b, e, a) = encode-Ahead host p h in
    let (c, f, m) = encode_meta-Ahead host p in
    (
      rw e (to_string-Ahead a),
      rw f (to_string-Ahead m),
      omega (
        arith,
        length-append (header p) (wire big 4 (length p.content % 256 ^ 4)),
        length-header p,
        length-wire big 4 (length p.content % 256 ^ 4),
      ),
    )
