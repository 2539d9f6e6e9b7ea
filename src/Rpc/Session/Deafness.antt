-- ===== src/Rpc/Session/Deafness.antt =====
-- What a session hears and says.
use native.Mathlib.Nat.{zero-mod}
use acid_compute.ByteArray.Store.Growth.{pos_test}
use acid_compute.Prelude.{
  ◌%◌, ℕ, ◌+◌, ◌<◌, ◌≤◌, ◌^◌, ◌≡◌, refl, ap, ◌∙◌, none, some, List, [], ◌∷◌, ◌++◌, arith, length,
  All, length-append,
}
use acid_compute.Outcome.{Outcome, ok, undefined, ◌>>=◌}
use acid_compute.ByteArray.Store.{ByteArray, Endian, big, make}
use acid_compute.ByteArray.Store.Shape.{IsValid}
use acid_compute.ByteArray.Store.Writing.{length-content}
use acid_compute.ByteArray.Ints.Wire.{wire, length-wire}
use acid_compute.ByteArray.Ints.Texts.{text_wire}
use acid_compute.ByteArray.Streams.{Ahead, make-Filled}
use acid_compute.ByteArray.Buffers.Views.{get_read_buffers_nothing}
use acid_compute.Stream.Sockets.{
  Arrival, arrived, Departure, departed, read_fix_array, write_fix_array, write_array, moved,
}
use acid_compute.Stream.Sockets.Silence.{IsError, nothing_read, read_fix_array_nothing}
use acid_compute.Rpc.Protocol.{Protocol, default_array}
use acid_compute.Rpc.Protocol.Layout.{encode-Ahead, header, length-header}
use acid_compute.Rpc.Session.{Received, go_on, recv_protocol, send_protocol}

-- No bytes give nullptr, and others have no room.
abbrev pub nothing_heard : List ℕ → Outcome Received
nothing_heard [] = ok (some none)
nothing_heard (x ∷ bs) = undefined

heard :
    (host : Endian) (bs : List ℕ) (more : List Arrival) (b : ByteArray)
    → (nothing_read bs more b >>= go_on host) ≡ nothing_heard bs
unfolding go_on
heard host [] more b = refl
heard host (x ∷ bs) more b = refl

deaf_array :
    (host : Endian) (fs : List Arrival) (bs : List ℕ) (more : List Arrival) (b : ByteArray)
    → IsValid b
    → b.position ≡ 0
    → b.base_size ≡ 4096
    → b.capacity ≡ 4096
    → All IsError fs
    → length fs < 4000
    → (read_fix_array 11 (fs ++ (arrived bs ∷ more)) 11 b >>= go_on host) ≡ nothing_heard bs
deaf_array host fs bs more b v at base full e few =
    let start : b.position % b.base_size ≡ 0 =
      ap (λ k. k % b.base_size) at ∙ zero-mod b.base_size in
    rw (read_fix_array_nothing 11 fs bs more 11 b v e (omega arith) (omega arith) (omega arith))
      (heard host bs more b)

-- recv_protocol hands no iovec to recv: after fewer than 4000 calls that failed, a call that succeeds
-- cannot have given a byte, and the result is nullptr, whatever the peer has sent.
pub recv_protocol_deaf :
    (host : Endian) (fs : List Arrival) (bs : List ℕ) (more : List Arrival)
    → All IsError fs
    → length fs < 4000
    → recv_protocol host (fs ++ (arrived bs ∷ more)) ≡ nothing_heard bs
unfolding recv_protocol make
recv_protocol_deaf host fs bs more e few =
    let blank = make-Filled 4096 big (omega arith) (omega arith) in
    deaf_array host fs bs more default_array blank.valid refl refl refl e few

silent_array :
    (b : ByteArray) (more : List Departure)
    → IsValid b
    → b.position ≡ 0
    → b.base_size ≡ 4096
    → 0 < b.size
    → b.size ≤ 4096
    → write_fix_array b.size (departed 0 ∷ more) b.size b ≡ ok (some (0, []))
unfolding write_fix_array write_array moved
silent_array b more v at base p h =
    let start : b.position % b.base_size ≡ 0 =
      ap (λ k. k % b.base_size) at ∙ zero-mod b.base_size in
    let none_pushed = get_read_buffers_nothing b.size b v p (omega arith) (omega arith) in
    rw (pos_test b.size p, none_pushed) refl

message_size :
    (p : Protocol) (b : ByteArray)
    → Ahead 4096 big 0 (header p ++ text_wire big 4 p.content) b
    → b.size ≡ 11 + length p.content
message_size p b a = omega (
  arith,
  ap length a.left,
  length-content b a.valid,
  length-append (header p) (text_wire big 4 p.content),
  length-append (wire big 4 (length p.content % 256 ^ 4)) p.content,
  length-header p,
  length-wire big 4 (length p.content % 256 ^ 4),
)

-- send_protocol hands no iovec to send for a message of up to 4096 bytes, header included: the call
-- sends nothing, and the result is 0.
pub send_protocol_mute :
    (host : Endian) (p : Protocol) (more : List Departure)
    → length p.content + 11 ≤ 4096
    → send_protocol host (departed 0 ∷ more) p ≡ ok (some (0, []))
unfolding send_protocol
send_protocol_mute host p more h =
    let (b, e, a) = encode-Ahead host p (omega arith) in
    let size = message_size p b a in
    rw e (silent_array b more a.valid a.here a.base_is (omega (arith, size)) (omega (arith, size)))
