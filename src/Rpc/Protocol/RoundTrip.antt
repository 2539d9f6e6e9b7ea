-- ===== src/Rpc/Protocol/RoundTrip.antt =====
-- Decoding an encoded message.
use mathlib.Core.Path.{subst}
use native.Mathlib.Nat.{mod-eq_of_lt}
use acid_compute.Prelude.{ℕ, ◌%◌, ◌^◌, ◌<◌, ◌≡◌, sym, List, [], ◌++◌, append-nil, arith, length}
use acid_compute.Outcome.{ok, ◌>>=◌}
use acid_compute.ByteArray.Store.{ByteArray, Endian, big}
use acid_compute.ByteArray.Streams.{Ahead}
use acid_compute.ByteArray.Ints.Wire.{wire, read_fix_int-Ahead, read_fix_uint8-Ahead}
use acid_compute.ByteArray.Ints.Texts.{text_wire, read_string_fix-Ahead}
use acid_compute.Rpc.Protocol.{Protocol, read_header, encode, encode_meta, decode, decode_meta}
use acid_compute.Rpc.Protocol.Layout.{header, encode-Ahead, encode_meta-Ahead}

-- The fields lie within their types, and the content's length within 32 bits.
pub record IsMessage (p : Protocol) : Type 0 where
  pub magic_lt : p.magic < 256
  pub version_lt : p.version < 256
  pub type_lt : p.type < 256
  pub sequence_id_lt : p.sequence_id < 2 ^ 32
  pub content_fits : length p.content < 2 ^ 32

read_header-Ahead :
    (host : Endian) (p q : Protocol) (ys : List ℕ) {b : ByteArray}
    → IsMessage p
    → Ahead 4096 big 0 (header p ++ ys) b
    → (b' : ByteArray) × (read_header host b q
        ≡ ok (
          record q {
            magic = p.magic;
            version = p.version;
            type = p.type;
            sequence_id = p.sequence_id;
          },
          b',
        ))
      × Ahead 4096 big 7 ys b'
unfolding read_header
read_header-Ahead host p q ys v a =
    let (b1, e1, a1) = read_fix_uint8-Ahead p.magic a (omega arith) in
    let (b2, e2, a2) = read_fix_uint8-Ahead p.version a1 (omega arith) in
    let (b3, e3, a3) = read_fix_uint8-Ahead p.type a2 (omega arith) in
    let (b4, e4, a4) = read_fix_int-Ahead host 4 p.sequence_id a3 v.sequence_id_lt (omega arith) in
    (b4, rw (e1, e2, e3, e4), a4)

-- A message whose fields lie within their types and whose content is below 2 ^ 32 bytes is
-- decoded to what was encoded, whatever the object held that it is decoded into and whatever the
-- byte orders of the two machines are.
pub decode-encode :
    (host host' : Endian) (p q : Protocol)
    → IsMessage p
    → (do b ← encode host p; (r, b') ← decode host' b q; ok r)
      ≡ ok (record p { content_length = length p.content })
unfolding decode
decode-encode host host' p q v =
    let (b, e, a) = encode-Ahead host p (omega (arith, v.content_fits)) in
    let (b4, e4, a4) = read_header-Ahead host' p q (text_wire big 4 p.content) v a in
    let a5 : Ahead 4096 big 7 (text_wire big 4 p.content ++ []) b4 =
      subst (λ t. Ahead 4096 big 7 t b4) (sym (append-nil (text_wire big 4 p.content))) a4 in
    let (b5, e5, a6) = read_string_fix-Ahead host' 4 p.content a5 v.content_fits (omega arith) in
    let fits : length p.content % 2 ^ 32 ≡ length p.content = mod-eq_of_lt v.content_fits in
    rw (e, e4, e5, fits)

pub decode_meta-Ahead :
    (host : Endian) (p q : Protocol) (ys : List ℕ) {b : ByteArray}
    → IsMessage p
    → Ahead 4096 big 0 (header p ++ (wire big 4 (length p.content % 256 ^ 4) ++ ys)) b
    → (b' : ByteArray) × (decode_meta host b q
        ≡ ok (record p { content_length = length p.content; content = q.content }, b'))
      × Ahead 4096 big 11 ys b'
unfolding decode_meta
decode_meta-Ahead host p q ys v a =
    let n : ℕ = length p.content in
    let fits : n % 256 ^ 4 ≡ n = mod-eq_of_lt v.content_fits in
    let (b4, e4, a4) = read_header-Ahead host p q (wire big 4 (n % 256 ^ 4) ++ ys) v a in
    let a5 : Ahead 4096 big 7 (wire big 4 n ++ ys) b4 =
      subst (λ k. Ahead 4096 big 7 (wire big 4 k ++ ys) b4) fits a4 in
    let (b5, e5, a6) = read_fix_int-Ahead host 4 n a5 v.content_fits (omega arith) in
    (b5, rw (e4, e5), a6)

-- On such a message, its fields within their types and its content below 2 ^ 32 bytes,
-- `decode_meta` reads the four header fields and the content's length off an encoded message and
-- off the bytes of `encode_meta`, and leaves the content of the object as it was.
pub decode_meta-encode :
    (host host' : Endian) (p q : Protocol)
    → IsMessage p
    → let r = record p { content_length = length p.content; content = q.content } in
      ((do b ← encode host p; (s, b') ← decode_meta host' b q; ok s) ≡ ok r)
      × ((do b ← encode_meta host p; (s, b') ← decode_meta host' b q; ok s) ≡ ok r)
decode_meta-encode host host' p q v =
    let n : List ℕ = wire big 4 (length p.content % 256 ^ 4) in
    let (b, e, a) = encode-Ahead host p (omega (arith, v.content_fits)) in
    let (b1, e1, a1) = decode_meta-Ahead host' p q p.content v a in
    let (c, f, m) = encode_meta-Ahead host p in
    let m0 : Ahead 4096 big 0 (header p ++ (n ++ [])) c =
      subst (λ t. Ahead 4096 big 0 (header p ++ t) c) (sym (append-nil n)) m in
    let (c1, f1, m1) = decode_meta-Ahead host' p q [] v m0 in (rw (e, e1), rw (f, f1))
