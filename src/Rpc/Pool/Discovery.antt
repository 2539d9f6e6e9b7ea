-- ===== src/Rpc/Pool/Discovery.antt =====
-- What the service registry of acid/rpc/rpc_service_registry.cpp answers to a discovery, and what
-- RpcConnectionPool::discover of acid/rpc/rpc_connection_pool.cpp reads from it.
use mathlib.Core.Path.{subst}
use acid_compute.Prelude.{
  ℕ, ◌+◌, ◌^◌, ◌≤◌, ◌<◌, ◌≡◌, refl, sym, ap, ◌∙◌, arith, Bool, some, List, [], ◌∷◌, ◌++◌,
  append-nil, append_assoc, length, length-append, map,
}
use acid_compute.Outcome.{ok, ◌>>=◌}
use acid_compute.ByteArray.Store.{ByteArray, Endian, big}
use acid_compute.ByteArray.Streams.{
  Filled, Ahead, make-Filled, set_position-Filled, to_string-Ahead,
}
use acid_compute.Rpc.Protocol.{Protocol}
use acid_compute.Rpc.Serializer.{uint16, uint32, text, write_value}
use acid_compute.Rpc.Serializer.Values.{
  value_wire, length-value_wire, write_value-Filled, read_value-Ahead,
}
use acid_compute.Rpc.Results.{Result, read_result}
use acid_compute.Rpc.Results.Delivery.{result_wire, result_room, IsResult, write_result-Filled}
use acid_compute.Rpc.Registry.{write_results, serialized}
use acid_compute.Rpc.Client.Answered.{serializer_of-Ahead}
use acid_compute.Rpc.Pool.{Addresses, read_results, addresses_of, discovered, discovered_name}

abbrev pub found : List ℕ → Result text
found v = record { code = 0; message = []; value = v }

-- Room for the bytes of the addresses as Results.
abbrev pub address_room : Addresses → ℕ
address_room [] = 0
address_room (a ∷ more) = 33 + length a + address_room more

abbrev pub result_wires : Addresses → List ℕ
result_wires [] = []
result_wires (a ∷ more) = result_wire big text (found a) ++ result_wires more

pub length-result_wire : (r : Result text) → length (result_wire big text r) ≤ result_room text r
length-result_wire r = omega (
  arith,
  length-append (value_wire big uint16 r.code)
      (value_wire big text r.message ++ value_wire big text r.value),
  length-append (value_wire big text r.message) (value_wire big text r.value),
  length-value_wire big uint16 r.code,
  length-value_wire big text r.message,
  length-value_wire big text r.value,
)

found-IsResult : (a : List ℕ) → length a < 2 ^ 64 → IsResult text (found a)
found-IsResult a h = record { code_lt = omega arith; message_fits = omega arith; value_fits = h }

-- A Result that was written with success is read, in front of more bytes.
read_found :
    (host : Endian) (a : List ℕ) {p : ℕ} (ys : List ℕ) {b : ByteArray}
    → Ahead 4096 big p (result_wire big text (found a) ++ ys) b
    → p + 33 + length a ≤ 4096
    → (b' : ByteArray) × (read_result host text [] b ≡ ok (found a, b'))
      × Ahead 4096 big (p + length (result_wire big text (found a))) ys b'
unfolding read_result
read_found host a {p} ys {b} h k =
    let c : List ℕ = value_wire big uint16 0 in
    let m : List ℕ = value_wire big text [] in
    let v : List ℕ = value_wire big text a in
    let h0 : Ahead 4096 big p (c ++ (m ++ (v ++ ys))) b =
      subst (λ t. Ahead 4096 big p t b)
        (append_assoc c (m ++ v) ys ∙ ap (λ t. c ++ t) (append_assoc m v ys)) h in
    let (b1, e1, a1) =
      read_value-Ahead host uint16 0 (m ++ (v ++ ys)) h0 (omega arith) (omega arith) in
    let (b2, e2, a2) =
      read_value-Ahead host text [] (v ++ ys) a1 (omega arith)
        (omega (arith, length-value_wire big uint16 0)) in
    let (b3, e3, a3) =
      read_value-Ahead host text a ys a2 (omega arith)
        (omega (arith, length-value_wire big uint16 0, length-value_wire big text [])) in
    let n : p + length c + length m + length v ≡ p + length (c ++ (m ++ v)) =
      omega (arith, length-append c (m ++ v), length-append m v) in
    (b3, rw (e1, e2, e3) refl, subst (λ q. Ahead 4096 big q ys b3) n a3)

pub read_found_all :
    (host : Endian) (as' : Addresses) {p : ℕ} {b : ByteArray}
    → Ahead 4096 big p (result_wires as') b
    → p + address_room as' ≤ 4096
    → read_results host (length as') b ≡ ok (map found as')
unfolding read_results
read_found_all host [] h k = refl
read_found_all host (a ∷ more) h k =
    let (b1, e1, a1) = read_found host a (result_wires more) h (omega arith) in
    let e2 = read_found_all host more a1 (omega (arith, length-result_wire (found a))) in
    rw (e1, e2) refl

pub write_found_all :
    (host : Endian) (connected : ℕ → Bool) (as' : Addresses) {bytes : List ℕ} {b : ByteArray}
    → Filled 4096 big bytes b
    → length bytes + address_room as' ≤ 4096
    → (b' : ByteArray) × (write_results host connected (map found as') b ≡ ok b')
      × Filled 4096 big (bytes ++ result_wires as') b'
write_found_all host connected [] {bytes} {b} f h =
    (b, refl, subst (λ t. Filled 4096 big t b) (sym (append-nil bytes)) f)
write_found_all host connected (a ∷ more) {bytes} f h =
    let w : List ℕ = result_wire big text (found a) in
    let (b1, e1, f1) =
      write_result-Filled host text (found a) f (found-IsResult a (omega arith)) (omega arith) in
    let (b2, e2, f2) =
      write_found_all host connected more f1
        (omega (arith, length-append bytes w, length-result_wire (found a))) in
    (
      b2,
      rw (e1, e2) refl,
      subst (λ t. Filled 4096 big t b2) (append_assoc bytes w (result_wires more)) f2,
    )

-- One text and count, and Results that are written as `w` and read back as `qs`.
module _ (server client : Endian) (connected : ℕ → Bool) (name : List ℕ)
    (rs qs : List (Result text)) (w : List ℕ) (size : ℕ) (few : length rs < 2 ^ 32)
    (small : length name + size ≤ 4000)
    (writes : (bytes : List ℕ) (b : ByteArray)
      → Filled 4096 big bytes b
      → length bytes + size ≤ 4096
      → (b' : ByteArray) × (write_results server connected rs b ≡ ok b')
        × Filled 4096 big (bytes ++ w) b')
    (reads : (p : ℕ) (b : ByteArray)
      → Ahead 4096 big p w b
      → p + size ≤ 4096
      → read_results client (length rs) b ≡ ok qs)
    (length_w : length w ≤ size) where
  front : List ℕ
  front = value_wire big text name ++ (value_wire big uint32 (length rs) ++ w)

  front_written :
      serialized (λ b. do
        b1 ← write_value server text name b
        b2 ← write_value server uint32 (length rs) b1
        write_results server connected rs b2)
      ≡ ok front
  unfolding front
  front_written =
      let t : List ℕ = value_wire big text name in
      let c : List ℕ = value_wire big uint32 (length rs) in
      let f0 = make-Filled 4096 big (omega arith) (omega arith) in
      let (b1, e1, f1) = write_value-Filled server text name f0 (omega arith) (omega arith) in
      let (b2, e2, f2) =
        write_value-Filled server uint32 (length rs) f1 few
          (omega (arith, length-value_wire big text name)) in
      let (b3, e3, f3) = writes (t ++ c) b2 f2 (
        omega (
          arith,
          length-append t c,
          length-value_wire big text name,
          length-value_wire big uint32 (length rs),
        )) in
      let (b4, e4, a4) = set_position-Filled 0 f3 (omega arith) in
      rw (e1, e2, e3, e4, to_string-Ahead a4) (ap ok (append_assoc t c w))

  front_read :
      (answer : Protocol)
      → answer.content ≡ front
      → (discovered_name client answer ≡ ok name)
        × (discovered client (some answer) ≡ addresses_of client qs)
  unfolding front discovered discovered_name
  front_read answer e =
      let t : List ℕ = value_wire big text name in
      let c : List ℕ = value_wire big uint32 (length rs) in
      let bound : length (t ++ (c ++ w)) ≤ 4100 = omega (
        arith,
        length-append t (c ++ w),
        length-append c w,
        length-value_wire big text name,
        length-value_wire big uint32 (length rs),
      ) in
      let (b0, e0, a0) = serializer_of-Ahead (t ++ (c ++ w)) (omega (arith, bound)) in
      let (b1, e1, a1) =
        read_value-Ahead client text name (c ++ w) a0 (omega arith) (omega arith) in
      let (b2, e2, a2) =
        read_value-Ahead client uint32 (length rs) w a1 few
          (omega (arith, length-value_wire big text name)) in
      let e3 = reads (0 + length t + length c) b2 a2 (
        omega (arith, length-value_wire big text name, length-value_wire big uint32 (length rs))) in
      (rw (e, e0, e1) refl, rw (e, e0, e1, e2, e3) refl)

  -- The content that the registry writes, and what discover makes of a message with it.
  pub exchange :
      (content : List ℕ) × (serialized (λ b. do
        b1 ← write_value server text name b
        b2 ← write_value server uint32 (length rs) b1
        write_results server connected rs b2)
        ≡ ok content)
      × ((answer : Protocol)
          → answer.content ≡ content
          → (discovered_name client answer ≡ ok name)
            × (discovered client (some answer) ≡ addresses_of client qs))
  exchange = (front, front_written, front_read)
