-- ===== src/Rpc/Registry/Providers.antt =====
-- What the registry's handlers keep and do.
use acid_compute.Prelude.{
  ℕ, ◌+◌, ◌^◌, ◌≤◌, ◌<◌, ◌≡◌, refl, sym, Bool, true, none, some, List, [], ◌∷◌, ◌++◌, if◌then◌else◌,
  arith, bool_clash, length, length-append,
}
use acid_compute.Outcome.{ok}
use acid_compute.ByteArray.Store.{Endian, big}
use acid_compute.ByteArray.Streams.{make-Filled, set_position-Filled, to_string-Ahead}
use acid_compute.Http.Servlets.{same}
use acid_compute.Http.Servlets.Maps.{same_refl, same→≡}
use acid_compute.Rpc.Protocol.{Protocol, create, rpc_publish_request, rpc_service_register_response}
use acid_compute.Rpc.Serializer.{boolean, text}
use acid_compute.Rpc.Serializer.Values.{write_value-Filled, value_wire, length-value_wire}
use acid_compute.Rpc.Results.{success, write_result}
use acid_compute.Rpc.Results.Delivery.{IsResult, result_wire, write_result-Filled}
use acid_compute.Rpc.Registry.{
  Service, RpcServiceRegistry, new_registry, Sent, to_subscribers, serialized, providers,
  find_iters, published, publish, added, handle_register_service, subscribe_prefix,
}
use acid_compute.Rpc.Registry.Entries.{IsSorted, emplace-IsSorted, providers-emplace}
use acid_compute.Rpc.Registry.Iterators.{
  has, IsNodup, owner, IsUnique, ids_of, IsKeyed, owner-emplace, emplace-IsUnique, has-append,
  append-IsNodup, find-push, push-IsKeyed,
}

-- m_iters holds, for each address, exactly the ids of its entries in m_services, each once.
pub record IsTracked (r : RpcServiceRegistry) : Type 0 where
  pub sorted : IsSorted r.services
  pub unused : (k : ℕ) → r.next_id ≤ k → owner k r.services ≡ none
  pub unique : IsUnique r.services
  pub keyed : IsKeyed r.iters
  pub distinct : (a : List ℕ) → IsNodup (ids_of (find_iters a r.iters))
  pub owned :
      (a : List ℕ) (k : ℕ)
      → has k (ids_of (find_iters a r.iters)) ≡ true
      → owner k r.services ≡ some a
  pub listed :
      (a : List ℕ) (k : ℕ)
      → owner k r.services ≡ some a
      → has k (ids_of (find_iters a r.iters)) ≡ true

pub new_registry-IsTracked : IsTracked new_registry
unfolding new_registry find_iters
new_registry-IsTracked = record {
  sorted = tt;
  unused = λ k h. refl;
  unique = tt;
  keyed = tt;
  distinct = λ a. tt;
  owned = λ a k h. bool_clash (sym h);
  listed = λ a k h. absurd (cc h);
}

pub added-IsTracked :
    (name address : List ℕ) (r : RpcServiceRegistry)
    → IsTracked r
    → IsTracked (added name address r)
added-IsTracked name address r v =
    let x : Service = record { id = r.next_id; name = name; address = address } in
    let new : owner r.next_id r.services ≡ none = v.unused r.next_id (omega arith) in
    record {
      sorted = emplace-IsSorted x r.services v.sorted;
      unused = λ k h. ground (arith, owner-emplace k x r.services new, v.unused k);
      unique = emplace-IsUnique x r.services new v.unique;
      keyed = push-IsKeyed address r.next_id r.iters v.keyed;
      distinct = λ a. ground (
        arith,
        find-push a address r.next_id r.iters,
        append-IsNodup r.next_id (ids_of (find_iters a r.iters)),
        v.owned a r.next_id,
        v.distinct a,
      );
      owned = λ a k h. ground (
        arith,
        find-push a address r.next_id r.iters,
        has-append k r.next_id (ids_of (find_iters a r.iters)),
        owner-emplace k x r.services new,
        v.owned a k,
        same→≡ a address,
      );
      listed = λ a k h. ground (
        arith,
        find-push a address r.next_id r.iters,
        has-append k r.next_id (ids_of (find_iters a r.iters)),
        owner-emplace k x r.services new,
        v.listed a k,
        same_refl a,
      );
    }

module _ (host : Endian) (connected : ℕ → Bool) where
  published_total :
      (key : List ℕ) (alive : Bool) (address : List ℕ) (subs : List (List ℕ × ℕ))
      → length key + length address + 2 ^ 14 < 2 ^ 64
      → (sent : Sent) × (published host connected key alive address subs ≡ ok sent)
  published_total key alive address [] h = ([], refl)
  published_total key alive address (s ∷ subs) h =
      let k : List ℕ = value_wire big text key in
      let t : List ℕ = value_wire big boolean alive in
      let w : List ℕ = value_wire big text address in
      let f0 = make-Filled 4096 big (omega arith) (omega arith) in
      let (b1, e1, f1) = write_value-Filled host text key f0 (omega arith) (omega arith) in
      let (b2, e2, f2) =
        write_value-Filled host boolean alive f1 tt
          (omega (arith, length-value_wire big text key)) in
      let (b3, e3, f3) =
        write_value-Filled host text address f2 (omega arith)
          (omega (arith, length-append k t, length-value_wire big text key)) in
      let (b4, e4, a4) = set_position-Filled 0 f3 (omega arith) in
      (
        to_subscribers host connected key (create rpc_publish_request ((k ++ t) ++ w) 0) (s ∷ subs),
        rw (e1, e2, e3, e4, to_string-Ahead a4) refl,
      )

  pub publish_total :
      (key : List ℕ) (alive : Bool) (address : List ℕ) (r : RpcServiceRegistry)
      → length key + length address + 2 ^ 14 < 2 ^ 64
      → (sent : Sent) × (publish host connected key alive address r ≡ ok sent)
  unfolding publish
  publish_total key alive address r h = published_total key alive address r.subscribes h

  registered_total :
      (name : List ℕ)
      → length name + 2 ^ 14 < 2 ^ 64
      → (content : List ℕ) × (serialized (write_result host text (success text name)) ≡ ok content)
  unfolding success
  registered_total name h =
      let f0 = make-Filled 4096 big (omega arith) (omega arith) in
      let valid : IsResult text (success text name) = record {
        code_lt = omega arith;
        message_fits = omega arith;
        value_fits = omega arith;
      } in
      let (b1, e1, f1) = write_result-Filled host text (success text name) f0 valid (omega arith) in
      let (b2, e2, a2) = set_position-Filled 0 f1 (omega arith) in
      (result_wire big text (success text name), rw (e1, e2, to_string-Ahead a2) refl)

  -- A provider that registers a service of a name: the call succeeds, the provider then comes last among
  -- those of this name, the providers of other names are as before, and m_iters and m_services
  -- keep in step.
  pub handle_register_service-Added :
      (p : Protocol) (address : List ℕ) (r : RpcServiceRegistry)
      → IsTracked r
      → length p.content + length address + 2 ^ 15 < 2 ^ 64
      → (response : Protocol) × (sent : Sent) × (r' : RpcServiceRegistry) × (handle_register_service
            host connected p address r
          ≡ ok (response, sent, r'))
        × IsTracked r'
        × ((n : List ℕ)
            → providers n r'.services ≡ (
                if same n p.content
                then providers n r.services ++ (address ∷ [])
                else providers n r.services))
  unfolding handle_register_service
  handle_register_service-Added p address r v h =
      let name : List ℕ = p.content in
      let (content, e1) = registered_total name (omega arith) in
      let (sent, e2) =
        publish_total (subscribe_prefix ++ name) true address (added name address r)
          (omega (arith, length-append subscribe_prefix name)) in
      let x : Service = record { id = r.next_id; name = name; address = address } in
      (
        create rpc_service_register_response content 0,
        sent,
        added name address r,
        rw (e1, e2) refl,
        added-IsTracked name address r v,
        λ n. providers-emplace n x r.services v.sorted,
      )
