-- ===== src/Rpc/Client/Answered.antt =====
-- A method call from RpcClient::call of acid/rpc/rpc_client.h over RpcServer::handle_method_call and
-- RpcServer::proxy of acid/rpc/rpc_server.{h,cpp} and back.
use acid_compute.Prelude.{
  ℕ, ◌+◌, ◌^◌, ◌≤◌, ◌<◌, ◌≡◌, refl, arith, some, List, [], ◌∷◌, ◌++◌, length, Bool-cases, inl, inr,
}
use acid_compute.Outcome.{ok}
use acid_compute.ByteArray.Store.{ByteArray, Endian, big}
use acid_compute.ByteArray.Streams.{Ahead, make-Filled, write-Filled, set_position-Filled}
use acid_compute.Http.Servlets.{same}
use acid_compute.Http.Servlets.Maps.{same_refl}
use acid_compute.Rpc.Serializer.{Kind, Value, text}
use acid_compute.Rpc.Serializer.Values.{value_wire, Fits, room}
use acid_compute.Rpc.Serializer.Tuples.{Values, AllFit, tuple_wire, tuple_room}
use acid_compute.Rpc.Results.{Result}
use acid_compute.Rpc.Server.{Method, serializer_of, assign_method, find_method}

-- A Serializer made of a text reads it from its start.
pub serializer_of-Ahead :
    (content : List ℕ)
    → length content + 2 ^ 14 < 2 ^ 64
    → (b : ByteArray) × (serializer_of content ≡ ok b) × Ahead 4096 big 0 content b
serializer_of-Ahead content h =
    let (b1, e1, f1) =
      write-Filled content (make-Filled 4096 big (omega arith) (omega arith)) (omega arith) in
    let (b2, e2, a2) = set_position-Filled 0 f1 (omega arith) in (b2, rw (e1, e2) refl, a2)

pub find-assign :
    (n : List ℕ) (f : Method) (ms : List (List ℕ × Method))
    → find_method n (assign_method n f ms) ≡ some f
unfolding find_method assign_method
find-assign n f [] = rw (same_refl n) refl
find-assign n f ((m, g) ∷ ms) = elim (Bool-cases (same n m)) [
  | inl e ↦ rw e (rw (same_refl n) refl)
  | inr e ↦ rw e (rw e (find-assign n f ms))
]

module _ (host : Endian) (name : List ℕ) (ks : List Kind) (args : Values ks) (fits : AllFit ks args)
    (small : length name + tuple_room ks args ≤ 4000) where
  abbrev wire_of : List ℕ
  wire_of = value_wire big text name ++ tuple_wire big ks args

  module _ (k : Kind) (func : Values ks → Value k) (unset : Value k)
      (fits_value : Fits k (func args)) (small_value : room k (func args) ≤ 3900) where
    abbrev returned : Result k
    returned = record { code = 0; message = []; value = func args }
