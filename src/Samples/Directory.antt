-- ===== src/Samples/Directory.antt =====
-- A registry of services, and results.
use acid_compute.Prelude.{ℕ, ◌≡◌, ◌≢◌, true, List, [], ◌∷◌, ◌++◌, arith, if◌then◌else◌}
use acid_compute.Outcome.{ok, ◌>>=◌}
use acid_compute.ByteArray.Store.{little, big, make, set_position}
use acid_compute.ByteArray.Streams.{make-Filled}
use acid_compute.Http.Servlets.{same}
use acid_compute.Http.Texts.{codes}
use acid_compute.Rpc.Protocol.{Protocol, create, rpc_service_register}
use acid_compute.Rpc.Serializer.{uint32}
use acid_compute.Rpc.Results.{Result, write_result, read_result}
use acid_compute.Rpc.Results.Delivery.{IsResult, result_delivered, read_both}
use acid_compute.Rpc.Registry.{
  RpcServiceRegistry, Sent, new_registry, added, providers, handle_register_service,
  handle_unregidter_service,
}
use acid_compute.Rpc.Registry.Providers.{
  IsTracked, new_registry-IsTracked, added-IsTracked, handle_register_service-Added,
}
use acid_compute.Rpc.Registry.Removal.{without_address, handle_unregidter_service-Removed}

abbrev joins : Protocol
joins = create rpc_service_register (codes "add") 0

abbrev with_add : RpcServiceRegistry
with_add = added (codes "add") (codes "a:80") new_registry

with_add-IsTracked : IsTracked with_add
with_add-IsTracked =
    added-IsTracked (codes "add") (codes "a:80") new_registry new_registry-IsTracked

handle_register_service-Added_example :
    (response : Protocol) × (sent : Sent) × (r' : RpcServiceRegistry) × (handle_register_service
        little
        (λ c. true)
        joins
        (codes "b:80")
        with_add
      ≡ ok (response, sent, r'))
    × IsTracked r'
    × ((n : List ℕ)
        → providers n r'.services ≡ (
            if same n joins.content
            then providers n with_add.services ++ (codes "b:80" ∷ [])
            else providers n with_add.services))
unfolding create
handle_register_service-Added_example =
    handle_register_service-Added little (λ c. true) joins (codes "b:80") with_add
      with_add-IsTracked (omega arith)

handle_unregidter_service-Removed_example :
    (sent : Sent) × (r' : RpcServiceRegistry) × (handle_unregidter_service little
        (λ c. true)
        (codes "a:80")
        with_add
      ≡ ok (sent, r'))
    × IsTracked r'
    × ((n : List ℕ)
        → providers n r'.services ≡ without_address (codes "a:80") (providers n with_add.services))
handle_unregidter_service-Removed_example =
    handle_unregidter_service-Removed little (λ c. true) (codes "a:80") with_add with_add-IsTracked
      (omega arith)

abbrev failing : Result uint32
failing = record { code = 3; message = codes "none"; value = 7 }

failing-IsResult : IsResult uint32 failing
failing-IsResult = record {
  code_lt = omega arith;
  message_fits = omega arith;
  value_fits = omega arith;
}

result_delivered_example :
    (failing.code ≡ 0
      → (do
        b1 ← write_result little uint32 failing (make 64 big)
        b2 ← set_position 0 b1
        (q, b3) ← read_result big uint32 0 b2
        ok q)
        ≡ ok failing)
    × (failing.code ≢ 0
        → (do
          b1 ← write_result little uint32 failing (make 64 big)
          b2 ← set_position 0 b1
          read_both big uint32 0 b2)
          ≡ ok (record failing { value = 0 }, 7))
result_delivered_example =
    result_delivered little big uint32 failing 0 (make-Filled 64 big (omega arith) (omega arith))
      failing-IsResult (omega arith) (omega arith)
