-- ===== src/Rpc/Registry.antt =====
-- acid/rpc/rpc_service_registry.{h,cpp}: who provides which service. An iterator into m_services is
-- the id of its entry, a session is its id, and an address is its text. What a call sends to
-- subscribers is a list of sessions with messages. `connected` tells which sessions live.
pub mod Entries
pub mod Iterators
pub mod Providers
pub mod Removal
pub mod Clients
use acid_compute.Prelude.{
  ℕ, ◌+◌, Bool, true, false, ◌&&◌, Option, none, some, List, [], ◌∷◌, ◌++◌, map, ◌==◌,
  if◌then◌else◌, length,
}
use acid_compute.Outcome.{Outcome, ok, undefined, ◌>>=◌}
use acid_compute.ByteArray.Store.{ByteArray, Endian, set_position, to_string, write}
use acid_compute.Http.Servlets.{same}
use acid_compute.Http.Texts.{codes, below}
use acid_compute.Rpc.Protocol.{
  Protocol, default_array, create, rpc_service_register_response, rpc_service_discover_response,
  rpc_subscribe_response, rpc_publish_request,
}
use acid_compute.Rpc.Serializer.{write_value, read_value, boolean, int8, uint32, text}
use acid_compute.Rpc.Results.{Result, success, state_code, rpc_no_method, write_result}

pub record Service : Type 0 where
  pub id : ℕ
  pub name : List ℕ
  pub address : List ℕ

pub record RpcServiceRegistry : Type 0 where
  pub services : List Service
  pub next_id : ℕ
  pub iters : List (List ℕ × List ℕ)
  pub subscribes : List (List ℕ × ℕ)

unfoldable pub new_registry : RpcServiceRegistry
new_registry = record { services = []; next_id = 0; iters = []; subscribes = [] }

-- emplace of std::multimap: behind the entries of the same name.
unfoldable pub emplace : Service → List Service → List Service
emplace x [] = x ∷ []
emplace x (y ∷ ys) = let rest = emplace x ys in if below x.name y.name then x ∷ y ∷ ys else y ∷ rest

-- The addresses of equal_range.
unfoldable pub providers : List ℕ → List Service → List (List ℕ)
providers n [] = []
providers n (y ∷ ys) = let rest = providers n ys in if same n y.name then y.address ∷ rest else rest

unfoldable pub erase_service : ℕ → List Service → Outcome (List Service)
erase_service k [] = undefined
erase_service k (y ∷ ys) =
    let rest = (do left ← erase_service k ys; ok (y ∷ left)) in if y.id == k then ok ys else rest

-- m_iters[address].push_back(it)
unfoldable pub push_iter : List ℕ → ℕ → List (List ℕ × List ℕ) → List (List ℕ × List ℕ)
push_iter a k [] = (a, k ∷ []) ∷ []
push_iter a k ((b, ks) ∷ m) =
    let rest = push_iter a k m in if same a b then (b, ks ++ (k ∷ [])) ∷ m else (b, ks) ∷ rest

unfoldable pub find_iters : List ℕ → List (List ℕ × List ℕ) → Option (List ℕ)
find_iters a [] = none
find_iters a ((b, ks) ∷ m) = let rest = find_iters a m in if same a b then some ks else rest

unfoldable pub erase_iters : List ℕ → List (List ℕ × List ℕ) → List (List ℕ × List ℕ)
erase_iters a [] = []
erase_iters a ((b, ks) ∷ m) = let rest = erase_iters a m in if same a b then m else (b, ks) ∷ rest

-- emplace of std::unordered_map: a key that is there keeps its session.
unfoldable pub subscribe : List ℕ → ℕ → List (List ℕ × ℕ) → List (List ℕ × ℕ)
subscribe key c [] = (key, c) ∷ []
subscribe key c ((k, d) ∷ m) =
    let rest = subscribe key c m in if same key k then (k, d) ∷ m else (k, d) ∷ rest

abbrev pub subscribe_prefix : List ℕ
subscribe_prefix = codes "[[rpc service subscribe]]"

-- A Serializer that `f` writes into, reset and turned into a string.
abbrev pub serialized : (ByteArray → Outcome ByteArray) → Outcome (List ℕ)
serialized f = do b ← f default_array; b' ← set_position 0 b; to_string b'

abbrev pub Sent : Type 0
Sent = List (ℕ × Protocol)

abbrev pub added : List ℕ → List ℕ → RpcServiceRegistry → RpcServiceRegistry
added name address r = record r {
  services = emplace (record { id = r.next_id; name = name; address = address }) r.services;
  next_id = r.next_id + 1;
  iters = push_iter address r.next_id r.iters;
}

module _ (host : Endian) (connected : ℕ → Bool) where
  abbrev pub to_subscribers : List ℕ → Protocol → List (List ℕ × ℕ) → Sent
  to_subscribers key p [] = []
  to_subscribers key p ((k, c) ∷ m) =
      let rest = to_subscribers key p m in if same key k && connected c then (c, p) ∷ rest else rest

  abbrev pub published : List ℕ → Bool → List ℕ → List (List ℕ × ℕ) → Outcome Sent
  published key alive address [] = ok []
  published key alive address (s ∷ subs) = do
    content ← serialized (λ b. do
      b1 ← write_value host text key b
      b2 ← write_value host boolean alive b1
      write_value host text address b2)
    ok (to_subscribers key (create rpc_publish_request content 0) (s ∷ subs))

  unfoldable pub publish : List ℕ → Bool → List ℕ → RpcServiceRegistry → Outcome Sent
  publish key alive address r = published key alive address r.subscribes

  unfoldable pub handle_register_service :
      Protocol → List ℕ → RpcServiceRegistry → Outcome (Protocol × Sent × RpcServiceRegistry)
  unfolding publish
  handle_register_service p address r = do
    content ← serialized (write_result host text (success text p.content))
    sent ← publish (subscribe_prefix ++ p.content) true address (added p.content address r)
    ok (create rpc_service_register_response content 0, sent, added p.content address r)

  -- The loop over the address's iterators. What is published names the address twice.
  unfoldable pub unregister_all :
      List ℕ → List ℕ → RpcServiceRegistry → Outcome (Sent × RpcServiceRegistry)
  unregister_all address [] r = ok ([], r)
  unregister_all address (k ∷ ks) r = do
    left ← erase_service k r.services
    sent ← publish (subscribe_prefix ++ address) false address r
    (more, r') ← unregister_all address ks (record r { services = left })
    ok (sent ++ more, r')

  abbrev pub unregistered :
      List ℕ → Option (List ℕ) → RpcServiceRegistry → Outcome (Sent × RpcServiceRegistry)
  unregistered address none r = ok ([], r)
  unregistered address (some ks) r = do
    (sent, r') ← unregister_all address ks r
    ok (sent, record r' { iters = erase_iters address r'.iters })

  unfoldable pub handle_unregidter_service :
      List ℕ → RpcServiceRegistry → Outcome (Sent × RpcServiceRegistry)
  handle_unregidter_service address r = unregistered address (find_iters address r.iters) r

  abbrev pub discovered : List ℕ → List (List ℕ) → List (Result text)
  discovered name [] =
      record {
        code = state_code rpc_no_method;
        message = codes "discover service: " ++ name;
        value = [];
      }
      ∷ []
  discovered name (a ∷ more) = map (λ v. record { code = 0; message = []; value = v }) (a ∷ more)

  abbrev pub write_results : List (Result text) → ByteArray → Outcome ByteArray
  write_results [] b = ok b
  write_results (r ∷ rs) b = do b' ← write_result host text r b; write_results rs b'

  unfoldable pub handle_discover_service : Protocol → RpcServiceRegistry → Outcome Protocol
  handle_discover_service p r = do
    let results = discovered p.content (providers p.content r.services)
    content ← serialized (λ b. do
      b1 ← write_value host text p.content b
      b2 ← write_value host uint32 (length results) b1
      write_results results b2)
    ok (create rpc_service_discover_response content 0)

  -- `value` is what the int8_t of a new Result<> holds.
  unfoldable pub handle_subscribe :
      ℕ → Protocol → ℕ → RpcServiceRegistry → Outcome (Protocol × RpcServiceRegistry)
  handle_subscribe value p client r = do
    b ← write p.content default_array
    b' ← set_position 0 b
    (key, b'') ← read_value host text b'
    content ← serialized (write_result host int8 (success int8 value))
    ok (
      create rpc_subscribe_response content 0,
      record r { subscribes = subscribe key client r.subscribes },
    )
