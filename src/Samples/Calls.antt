-- ===== src/Samples/Calls.antt =====
-- A client, a server, a registry and a pool.
use acid_compute.Prelude.{◌≡◌, ◌↔◌, true, some, [], ◌∷◌, refl, arith}
use acid_compute.Outcome.{ok, undefined}
use acid_compute.ByteArray.Store.{little, big}
use acid_compute.Http.Texts.{codes}
use acid_compute.Rpc.Protocol.{Protocol, create, rpc_method_response, rpc_service_discover}
use acid_compute.Rpc.Serializer.{uint32, text}
use acid_compute.Rpc.Serializer.Tuples.{Values}
use acid_compute.Rpc.Registry
use acid_compute.Rpc.Registry.{RpcServiceRegistry, new_registry, Sent}
use acid_compute.Rpc.Server
use acid_compute.Rpc.Server.{RpcServer, subscribers}
use acid_compute.Rpc.Server.Publishing.{publish-returns_iff}
use acid_compute.Rpc.Client.{
  find_handle, RpcClient, connected_client, start_call, end_call, handle_method_response,
}
use acid_compute.Rpc.Client.Pending.{Routed, start_call-Routed, calls_mixed_up}
use acid_compute.Rpc.Pool.{discovered, discovered_name}
use acid_compute.Rpc.Pool.Answers.{discovery_delivered}

abbrev idle_server : RpcServer
idle_server = record { handlers = []; subscribes = (codes "news", 4) ∷ [] }

abbrev text_and_number : Values (text ∷ uint32 ∷ [])
text_and_number = (codes "two", (2, tt))

publish-returns_iff_example :
    ((sent : Sent) × (Server.publish (λ c. true) 6 (codes "news") [] idle_server ≡ some sent))
    ↔ (subscribers (codes "news") idle_server.subscribes ≡ [])
publish-returns_iff_example = publish-returns_iff (λ c. true) 5 (codes "news") [] idle_server

abbrev answer_to_one : Protocol
answer_to_one = create rpc_method_response [] 1

-- A call with the id 1 waits.
abbrev waiting_client : RpcClient
waiting_client = record connected_client { sequence_id = 1; response_handle = (1, 70) ∷ [] }

abbrev later_client : RpcClient
later_client = record connected_client { sequence_id = 2; response_handle = (1, 70) ∷ [] }

start_call-Routed_example : Routed later_client (start_call [] 80 later_client).1 80 answer_to_one
unfolding connected_client find_handle
start_call-Routed_example = start_call-Routed [] 80 answer_to_one later_client refl (refl, tt) refl

calls_mixed_up_example :
    (ended : RpcClient) × ((handle_method_response answer_to_one
        (start_call [] 80 waiting_client).1).delivered
      ≡ (70, some answer_to_one) ∷ [])
    × (end_call 1 (start_call [] 80 waiting_client).1 ≡ ok ended)
    × (end_call 1 ended ≡ undefined)
unfolding connected_client create find_handle
calls_mixed_up_example =
    calls_mixed_up [] 80 70 answer_to_one waiting_client refl (refl, tt) refl refl

abbrev question : Protocol
question = create rpc_service_discover (codes "add") 0

abbrev directory : RpcServiceRegistry
directory = record new_registry {
  services = (record { id = 0; name = codes "add"; address = codes "10.0.0.7:80" }) ∷ [];
}

discovery_delivered_example :
    (answer : Protocol) × (Registry.handle_discover_service little (λ c. true) question directory
      ≡ ok answer)
    × (discovered_name big answer ≡ ok (codes "add"))
    × (discovered big (some answer) ≡ ok (codes "10.0.0.7:80" ∷ []))
unfolding create new_registry Registry.providers
discovery_delivered_example =
    discovery_delivered little big (λ c. true) question directory (omega arith)
