-- ===== src/Rpc/Registry/Clients.antt =====
-- handle_client of acid/rpc/rpc_service_registry.cpp, one turn of its loop, and the timer that cleans
-- the subscriptions. `address_at` is the text of the client's remote address with a port put in.
use acid_compute.Prelude.{ℕ, Bool, Option, none, some, List, [], ◌∷◌, ◌==◌, if◌then◌else◌}
use acid_compute.Outcome.{Outcome, ok, ◌>>=◌, deref}
use acid_compute.ByteArray.Store.{Endian, write, set_position}
use acid_compute.Rpc.Protocol.{
  Protocol, heartbeat, default_array, type_code, heartbeat_packet, rpc_provider,
  rpc_service_register, rpc_service_discover, rpc_subscribe_request,
}
use acid_compute.Rpc.Serializer.{read_value, uint32}
use acid_compute.Rpc.Registry.{
  RpcServiceRegistry, Sent, handle_register_service, handle_unregidter_service,
  handle_discover_service, handle_subscribe,
}

-- A session that is gone or not connected leaves the map.
unfoldable pub clean_subscribes : (ℕ → Bool) → List (List ℕ × ℕ) → List (List ℕ × ℕ)
clean_subscribes connected [] = []
clean_subscribes connected ((k, c) ∷ m) =
    let rest = clean_subscribes connected m in if connected c then (k, c) ∷ rest else rest

-- What a turn leaves: a response, what was published, and `provider_address`.
pub record Turn : Type 0 where
  pub response : Option Protocol
  pub sent : Sent
  pub provider_address : Option (List ℕ)
  pub registry : RpcServiceRegistry

module _ (host : Endian) (connected : ℕ → Bool) (address_at : ℕ → List ℕ) (client value : ℕ) where
  unfoldable pub hanlde_provider : Protocol → Outcome (List ℕ)
  hanlde_provider p = do
    b ← write p.content default_array
    b' ← set_position 0 b
    (port, b'') ← read_value host uint32 b'
    ok (address_at port)

  -- The switch over the type of a request.
  unfoldable pub handle_request : Protocol → Option (List ℕ) → RpcServiceRegistry → Outcome Turn
  unfolding hanlde_provider
  handle_request p provider r =
      let nothing : Turn = record {
        response = none;
        sent = [];
        provider_address = provider;
        registry = r;
      } in
      let provide : Outcome Turn = (do
        a ← hanlde_provider p
        ok (record nothing { provider_address = some a })) in
      let register : Outcome Turn = (do
        a ← deref provider
        (answer, sent, r') ← handle_register_service host connected p a r
        ok (record nothing { response = some answer; sent = sent; registry = r' })) in
      let discover : Outcome Turn = (do
        answer ← handle_discover_service host connected p r
        ok (record nothing { response = some answer })) in
      let subscribe : Outcome Turn = (do
        (answer, r') ← handle_subscribe host connected value p client r
        ok (record nothing { response = some answer; registry = r' })) in
      if p.type == type_code heartbeat_packet
      then ok (record nothing { response = some heartbeat })
      else if p.type == type_code rpc_provider
      then provide
      else if p.type == type_code rpc_service_register
      then register
      else if p.type == type_code rpc_service_discover
      then discover
      else if p.type == type_code rpc_subscribe_request
      then subscribe
      else ok nothing

  abbrev pub gone : Option (List ℕ) → RpcServiceRegistry → Outcome (Sent × RpcServiceRegistry)
  gone none r = ok ([], r)
  gone (some a) r = handle_unregidter_service host connected a r

  -- One turn with what recv_protocol gave; a null request is used all the same.
  unfoldable pub handle_client :
      Option Protocol → Option (List ℕ) → RpcServiceRegistry → Outcome Turn
  unfolding handle_request
  handle_client none provider r = do
    (sent, r') ← gone provider r
    p ← deref none
    handle_request p provider r'
  handle_client (some p) provider r = handle_request p provider r
