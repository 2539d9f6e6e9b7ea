-- ===== src/Rpc/Results/Delivery.antt =====
-- A Result, written and read back.
use mathlib.Core.Path.{subst}
use acid_compute.Prelude.{
  ℕ, ◌+◌, ◌^◌, ◌≤◌, ◌<◌, ◌≡◌, ◌≢◌, refl, sym, ◌∙◌, List, [], ◌++◌, append_assoc, append-nil, arith,
  length, length-append, ◌==◌, true, false,
}
use acid_compute.Outcome.{Outcome, ok, ◌>>=◌}
use acid_compute.ByteArray.Store.{ByteArray, Endian, set_position}
use acid_compute.ByteArray.Streams.{Filled, Ahead, set_position-Filled, drop-front}
use acid_compute.Rpc.Serializer.{Kind, Value, uint16, text, read_value}
use acid_compute.Rpc.Serializer.Values.{
  value_wire, Fits, room, length-value_wire, write_value-Filled, read_value-Ahead,
}
use acid_compute.Rpc.Results.{Result, write_result, read_result}

abbrev pub result_wire : Endian → (k : Kind) → Result k → List ℕ
result_wire en k r =
    value_wire en uint16 r.code ++ (value_wire en text r.message ++ value_wire en k r.value)

abbrev pub result_room : (k : Kind) → Result k → ℕ
result_room k r = 22 + length r.message + room k r.value

pub record IsResult (k : Kind) (r : Result k) : Type 0 where
  pub code_lt : r.code < 2 ^ 16
  pub message_fits : length r.message < 2 ^ 64
  pub value_fits : Fits k r.value

pub write_result-Filled :
    (host : Endian) (k : Kind) (r : Result k) {base : ℕ} {en : Endian} {bytes : List ℕ}
    {b : ByteArray}
    → Filled base en bytes b
    → IsResult k r
    → length bytes + result_room k r + base < 2 ^ 64
    → (b' : ByteArray) × (write_result host k r b ≡ ok b')
      × Filled base en (bytes ++ result_wire en k r) b'
unfolding write_result
write_result-Filled host k r {base} {en} {bytes} f i h =
    let c : List ℕ = value_wire en uint16 r.code in
    let m : List ℕ = value_wire en text r.message in
    let v : List ℕ = value_wire en k r.value in
    let (b1, e1, f1) = write_value-Filled host uint16 r.code f i.code_lt (omega (arith, h)) in
    let (b2, e2, f2) =
      write_value-Filled host text r.message f1 i.message_fits
        (omega (arith, h, length-append bytes c, length-value_wire en uint16 r.code)) in
    let (b3, e3, f3) = write_value-Filled host k r.value f2 i.value_fits (
      omega (
        arith,
        h,
        length-append bytes c,
        length-append (bytes ++ c) m,
        length-value_wire en uint16 r.code,
        length-value_wire en text r.message,
      )) in
    (
      b3,
      rw (e1, e2, e3),
      subst (λ t. Filled base en t b3)
          (append_assoc (bytes ++ c) m v ∙ append_assoc bytes c (m ++ v)) f3,
    )

-- The code and the message, and what lies behind them.
pub read_front :
    (host : Endian) (k : Kind) (r : Result k) {base : ℕ} {en : Endian} {p : ℕ} {b : ByteArray}
    → Ahead base en p (result_wire en k r) b
    → IsResult k r
    → p + result_room k r ≤ base
    → (b1 : ByteArray) × (b2 : ByteArray) × (q : ℕ) × (read_value host uint16 b ≡ ok (r.code, b1))
      × (read_value host text b1 ≡ ok (r.message, b2))
      × Ahead base en q (value_wire en k r.value) b2
      × (q + 10 < base)
read_front host k r {base} {en} {p} {b} a i h =
    let m : List ℕ = value_wire en text r.message in
    let v : List ℕ = value_wire en k r.value in
    let (b1, e1, a1) = read_value-Ahead host uint16 r.code (m ++ v) a i.code_lt (omega arith) in
    let (b2, e2, a2) =
      read_value-Ahead host text r.message v a1 i.message_fits
        (omega (arith, length-value_wire en uint16 r.code)) in
    (
      b1,
      b2,
      p + length (value_wire en uint16 r.code) + length m,
      e1,
      e2,
      a2,
      omega (arith, length-value_wire en uint16 r.code, length-value_wire en text r.message),
    )

pub read_last :
    (host : Endian) (k : Kind) (v : Value k) {base : ℕ} {en : Endian} {q : ℕ} {b : ByteArray}
    → Ahead base en q (value_wire en k v) b
    → Fits k v
    → q + 10 < base
    → (b' : ByteArray) × (read_value host k b ≡ ok (v, b'))
read_last host k v {base} {en} {q} {b} a i h =
    let w : List ℕ = value_wire en k v in
    let a0 : Ahead base en q (w ++ []) b =
      subst (λ t. Ahead base en q t b) (sym (append-nil w)) a in
    let (b', e, _) = read_value-Ahead host k v [] a0 i h in (b', e)

-- A Result, and a value behind it.
abbrev pub read_both : Endian → (k : Kind) → Value k → ByteArray → Outcome (Result k × Value k)
read_both host k old b = do
  (q, b') ← read_result host k old b
  (v, b'') ← read_value host k b'
  ok (q, v)

-- A Result whose parts lie within their types and still fit the first block is given back by
-- operator>> on any machine from where operator<< of another one began to append it, if its code is
-- RPC_SUCCESS. Under another code the reader's value stays as it was, and the value that was
-- written is left in the stream: the next value of its type that is read is that one.
pub result_delivered :
    (host host' : Endian) (k : Kind) (r : Result k) (old : Value k) {base : ℕ} {en : Endian}
    {bytes : List ℕ} {b : ByteArray}
    → Filled base en bytes b
    → IsResult k r
    → length bytes + result_room k r ≤ base
    → base + base < 2 ^ 64
    → (r.code ≡ 0
        → (do
          b1 ← write_result host k r b
          b2 ← set_position (length bytes) b1
          (q, b3) ← read_result host' k old b2
          ok q)
          ≡ ok r)
      × (r.code ≢ 0
          → (do
            b1 ← write_result host k r b
            b2 ← set_position (length bytes) b1
            read_both host' k old b2)
            ≡ ok (record r { value = old }, r.value))
unfolding read_result
result_delivered host host' k r old {base} {en} {bytes} f i h s =
    let w : List ℕ = result_wire en k r in
    let (b1, e1, f1) = write_result-Filled host k r f i (omega (arith, h, s)) in
    let (b2, e2, a2) =
      set_position-Filled (length bytes) f1 (omega (arith, length-append bytes w)) in
    let a3 : Ahead base en (length bytes) w b2 =
      subst (λ t. Ahead base en (length bytes) t b2) (drop-front bytes w) a2 in
    let (b3, b4, q, e3, e4, a4, inside) = read_front host' k r a3 i h in
    let (b5, e5) = read_last host' k r.value a4 i.value_fits inside in
    (
      λ z. let test : (r.code == 0) ≡ true = ground arith in rw (e1, e2, e3, e4, test, e5) refl,
      λ n. let test : (r.code == 0) ≡ false = ground arith in rw (e1, e2, e3, e4, test, e5) refl,
    )
