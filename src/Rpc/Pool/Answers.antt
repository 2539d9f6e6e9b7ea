-- ===== src/Rpc/Pool/Answers.antt =====
-- RpcConnectionPool::discover of acid/rpc/rpc_connection_pool.cpp over handle_discover_service of
-- acid/rpc/rpc_service_registry.cpp.
use acid_compute.Prelude.{
  ℕ, suc, ◌+◌, ◌*◌, ◌^◌, ◌≤◌, ◌<◌, ◌≡◌, ◌⊎◌, inl, inr, refl, sym, ap, ◌∙◌, arith, Bool, some, List,
  [], ◌∷◌, ◌++◌, length, length-append, map,
}
use acid_compute.Outcome.{Outcome, ok, ◌>>=◌}
use acid_compute.ByteArray.Store.{ByteArray, Endian, big}
use acid_compute.ByteArray.Streams.{Filled, Ahead}
use acid_compute.Http.Texts.{codes}
use acid_compute.Rpc.Protocol.{Protocol, create, rpc_service_discover_response}
use acid_compute.Rpc.Serializer.{uint16, uint32, text, write_value}
use acid_compute.Rpc.Serializer.Values.{value_wire, length-value_wire, read_value-Ahead}
use acid_compute.Rpc.Results.{Result, state_code, read_result}
use acid_compute.Rpc.Results.Delivery.{result_wire, IsResult, write_result-Filled}
use acid_compute.Rpc.Registry
use acid_compute.Rpc.Registry.{
  serialized, RpcServiceRegistry, providers, write_results, handle_discover_service,
}
use acid_compute.Rpc.Pool.{Addresses, read_results, discovered, discovered_name}
use acid_compute.Rpc.Pool.Discovery.{
  found, address_room, result_wires, length-result_wire, read_found_all, write_found_all, exchange,
}

length-map-found : (as' : Addresses) → length (map found as') ≡ length as'
length-map-found [] = refl
length-map-found (a ∷ more) = ap suc (length-map-found more)

values-map-found : (as' : Addresses) → map (λ (q : Result text). q.value) (map found as') ≡ as'
values-map-found [] = refl
values-map-found (a ∷ more) = ap (◌∷◌ a) (values-map-found more)

count-le : (as' : Addresses) → length as' ≤ address_room as'
count-le [] = omega arith
count-le (a ∷ more) = omega (arith, count-le more)

length-result_wires : (as' : Addresses) → length (result_wires as') ≤ address_room as'
length-result_wires [] = omega arith
length-result_wires (a ∷ more) = omega (
  arith,
  length-append (result_wire big text (found a)) (result_wires more),
  length-result_wire (found a),
  length-result_wires more,
)

abbrev missing : List ℕ → Result text
missing name = record { code = 3; message = codes "discover service: " ++ name; value = [] }

missing-IsResult : (name : List ℕ) → length name ≤ 4000 → IsResult text (missing name)
missing-IsResult name h = record {
  code_lt = omega arith;
  message_fits = omega (arith, length-append (codes "discover service: ") name);
  value_fits = omega arith;
}

write_missing :
    (host : Endian) (connected : ℕ → Bool) (name : List ℕ) (bytes : List ℕ) (b : ByteArray)
    → length name ≤ 2000
    → Filled 4096 big bytes b
    → length bytes + (51 + length name) ≤ 4096
    → (b' : ByteArray) × (write_results host connected (missing name ∷ []) b ≡ ok b')
      × Filled 4096 big (bytes ++ result_wire big text (missing name)) b'
write_missing host connected name bytes b s f h =
    let (b1, e1, f1) =
      write_result-Filled host text (missing name) f (missing-IsResult name (omega arith))
        (omega (arith, length-append (codes "discover service: ") name)) in
    (b1, rw e1 refl, f1)

-- Behind a code that is not 0 no value is read.
read_missing :
    (host : Endian) (name : List ℕ) (p : ℕ) (b : ByteArray)
    → length name ≤ 2000
    → Ahead 4096 big p (result_wire big text (missing name)) b
    → p + (51 + length name) ≤ 4096
    → read_results host 1 b ≡ ok (missing name ∷ [])
unfolding read_results read_result
read_missing host name p b s h k =
    let message : List ℕ = codes "discover service: " ++ name in
    let c : List ℕ = value_wire big uint16 3 in
    let m : List ℕ = value_wire big text message in
    let n : length message ≡ 18 + length name = length-append (codes "discover service: ") name in
    let (b1, e1, a1) =
      read_value-Ahead host uint16 3 (m ++ value_wire big text []) h (omega arith) (omega arith) in
    let (b2, e2, a2) =
      read_value-Ahead host text message (value_wire big text []) a1 (omega arith)
        (omega (arith, length-value_wire big uint16 3)) in
    rw (e1, e2) refl

abbrev respond : List ℕ → Outcome Protocol
respond content = ok (create rpc_service_discover_response content 0)

-- What both sides make of the addresses `as'`.
abbrev Answered : Endian → Endian → (ℕ → Bool) → Protocol → RpcServiceRegistry → Addresses → Type 0
Answered server client connected p r as' =
    (answer : Protocol) × (handle_discover_service server connected p r ≡ ok answer)
    × (discovered_name client answer ≡ ok p.content)
    × (discovered client (some answer) ≡ ok as')

module _ (server client : Endian) (connected : ℕ → Bool) (p : Protocol) (r : RpcServiceRegistry)
    (small : 2 * length p.content + 64 + address_room (providers p.content r.services) ≤ 4000) where
  abbrev written_as : List (Result text) → Outcome (List ℕ)
  written_as rs = serialized (λ b. do
    b1 ← write_value server text p.content b
    b2 ← write_value server uint32 (length rs) b1
    write_results server connected rs b2)

  handled :
      (rs : List (Result text)) (content : List ℕ)
      → Registry.discovered server connected p.content (providers p.content r.services) ≡ rs
      → written_as rs ≡ ok content
      → handle_discover_service server connected p r
        ≡ ok (create rpc_service_discover_response content 0)
  unfolding handle_discover_service
  handled rs content e w =
      ap (λ qs. written_as qs >>= respond) e ∙ ap (λ (o : Outcome (List ℕ)). o >>= respond) w

  Answered-found :
      (a : List ℕ) (more : Addresses)
      → providers p.content r.services ≡ a ∷ more
      → Answered server client connected p r (a ∷ more)
  unfolding state_code create
  Answered-found a more e =
      let rs : List (Result text) = map found (a ∷ more) in
      let room : address_room (a ∷ more) ≡ address_room (providers p.content r.services) =
        ap address_room (sym e) in
      let few : length rs < 2 ^ 32 =
        omega (arith, length-map-found more, count-le more, room, small) in
      let fits : length p.content + address_room (a ∷ more) ≤ 4000 = omega (arith, room, small) in
      let (content, written, taken) =
        exchange server client connected p.content rs rs (result_wires (a ∷ more))
          (address_room (a ∷ more)) few fits
          (λ bytes b f h. write_found_all server connected (a ∷ more) f h)
          (λ q b h k. rw (length-map-found more) (read_found_all client (a ∷ more) h k))
          (length-result_wires (a ∷ more)) in
      let answer : Protocol = create rpc_service_discover_response content 0 in
      let (named, got) = taken answer refl in
      (
        answer,
        handled rs content (ap (Registry.discovered server connected p.content) e) written,
        named,
        got ∙ ap (λ vs. ok (a ∷ vs)) (values-map-found more),
      )

  Answered-missing : providers p.content r.services ≡ [] → Answered server client connected p r []
  unfolding state_code create
  Answered-missing e =
      let short : length p.content ≤ 2000 = omega (arith, small) in
      let (content, written, taken) =
        exchange server client connected p.content (missing p.content ∷ []) (missing p.content ∷ [])
          (result_wire big text (missing p.content)) (51 + length p.content) (omega arith)
          (omega (arith, small))
          (λ bytes b f h. write_missing server connected p.content bytes b short f h)
          (λ q b h k. read_missing client p.content q b short h k)
          (omega (
            arith,
            length-result_wire (missing p.content),
            length-append (codes "discover service: ") p.content,
          )) in
      let answer : Protocol = create rpc_service_discover_response content 0 in
      let (named, got) = taken answer refl in
      (
        answer,
        handled (missing p.content ∷ []) content
            (ap (Registry.discovered server connected p.content) e) written,
        named,
        got,
      )

list_cases : (as' : Addresses) → (as' ≡ []) ⊎ ((a : List ℕ) × (more : Addresses) × (as' ≡ a ∷ more))
list_cases [] = inl refl
list_cases (a ∷ more) = inr (a, more, refl)

-- When the name twice and the addresses, 33 bytes with each, fit 3936 bytes, the registry answers a
-- discovery on any machine with a message from which the pool on any machine reads the name and exactly
-- the addresses of the providers in their order, none if there is none.
pub discovery_delivered :
    (server client : Endian) (connected : ℕ → Bool) (p : Protocol) (r : RpcServiceRegistry)
    → 2 * length p.content + 64 + address_room (providers p.content r.services) ≤ 4000
    → (answer : Protocol) × (handle_discover_service server connected p r ≡ ok answer)
      × (discovered_name client answer ≡ ok p.content)
      × (discovered client (some answer) ≡ ok (providers p.content r.services))
discovery_delivered server client connected p r small =
    elim (list_cases (providers p.content r.services)) [
      | inl e ↦ rw e (Answered-missing server client connected p r small e)
      | inr (a, more, e) ↦ rw e (Answered-found server client connected p r small a more e)
    ]
