-- ===== src/Rpc/Pool.antt =====
-- RpcConnectionPool of acid/rpc/rpc_connection_pool.{h,cpp}: the connections and the addresses of each
-- service, and the discovery of addresses. A client, a handler and a channel are ids; an address is its
-- text. The timers and the session with the registry are left out.
pub mod Discovery
pub mod Answers
use acid_compute.Prelude.{
  ℕ, zero, suc, ◌+◌, ◌%◌, Bool, true, false, not, Option, none, some, List, [], ◌∷◌, ◌++◌, map,
  ◌==◌, if◌then◌else◌,
}
use acid_compute.Outcome.{Outcome, ok, undefined, ◌>>=◌}
use acid_compute.ByteArray.Store.{ByteArray, Endian}
use acid_compute.Http.Servlets.{same}
use acid_compute.Http.Texts.{codes}
use acid_compute.Rpc.Protocol.{Protocol}
use acid_compute.Rpc.Serializer.{Kind, Value, boolean, uint32, text, read_value}
use acid_compute.Rpc.Results.{Result, state_code, rpc_fail, rpc_no_method, rpc_closed, read_result}
use acid_compute.Rpc.Routing.{select_random}
use acid_compute.Rpc.Server.{serializer_of}

abbrev pub Addresses : Type 0
Addresses = List (List ℕ)

pub record RpcConnectionPool : Type 0 where
  pub service_cache : List (List ℕ × Addresses)
  pub connections : List (List ℕ × ℕ)

-- m_service_cache[name]; a missing name has no addresses.
unfoldable pub cached : List ℕ → List (List ℕ × Addresses) → Addresses
cached n [] = []
cached n ((m, a) ∷ c) = let rest = cached n c in if same n m then a else rest

unfoldable pub cache : List ℕ → Addresses → List (List ℕ × Addresses) → List (List ℕ × Addresses)
cache n a [] = (n, a) ∷ []
cache n a ((m, b) ∷ c) = let rest = cache n a c in if same n m then (n, a) ∷ c else (m, b) ∷ rest

unfoldable pub find_connection : List ℕ → List (List ℕ × ℕ) → Option ℕ
find_connection n [] = none
find_connection n ((m, k) ∷ c) = let rest = find_connection n c in if same n m then some k else rest

unfoldable pub erase_connection : List ℕ → List (List ℕ × ℕ) → List (List ℕ × ℕ)
erase_connection n [] = []
erase_connection n ((m, k) ∷ c) =
    let rest = erase_connection n c in if same n m then c else (m, k) ∷ rest

-- std::erase(addrs, address)
unfoldable pub erase_address : List ℕ → Addresses → Addresses
erase_address a [] = []
erase_address a (b ∷ bs) = let rest = erase_address a bs in if same a b then rest else b ∷ rest

-- The handler that discover subscribes: a provider comes or goes.
unfoldable pub service_changed : List ℕ → Bool → List ℕ → RpcConnectionPool → RpcConnectionPool
unfolding cached cache erase_address
service_changed name true a p = record p {
  service_cache = cache name (cached name p.service_cache ++ (a ∷ [])) p.service_cache;
}
service_changed name false a p = record p {
  service_cache = cache name (erase_address a (cached name p.service_cache)) p.service_cache;
}

module _ (host : Endian) where
  unfoldable pub read_results : ℕ → ByteArray → Outcome (List (Result text))
  read_results zero b = ok []
  read_results (suc n) b = do
    (r, b') ← read_result host text [] b
    rs ← read_results n b'
    ok (r ∷ rs)

  -- res.front() of an empty vector is undefined.
  abbrev pub addresses_of : List (Result text) → Outcome Addresses
  addresses_of [] = undefined
  addresses_of (r ∷ rs) =
      if r.code == state_code rpc_no_method
      then ok []
      else ok (map (λ (q : Result text). q.value) (r ∷ rs))

  -- discover behind its wait: by the response that the channel gave.
  unfoldable pub discovered : Option Protocol → Outcome Addresses
  unfolding read_results state_code
  discovered none = ok []
  discovered (some p) = do
    s ← serializer_of p.content
    (name, s1) ← read_value host text s
    (count, s2) ← read_value host uint32 s1
    rs ← read_results count s2
    addresses_of rs

  -- What handle_service_discover looks the channel up with.
  unfoldable pub discovered_name : Protocol → Outcome (List ℕ)
  discovered_name p = do s ← serializer_of p.content; (name, s1) ← read_value host text s; ok name

  -- handle_publish with the handler of discover.
  unfoldable pub handle_publish : List ℕ → Protocol → RpcConnectionPool → Outcome RpcConnectionPool
  unfolding service_changed
  handle_publish name m p = do
    s ← serializer_of m.content
    (key, s1) ← read_value host text s
    (alive, s2) ← read_value host boolean s1
    (a, s3) ← read_value host text s2
    ok (service_changed name alive a p)

-- What a call meets: the answer of a client's call, the address that it is connected to, whether the
-- registry is connected, what discover gives, rand(), and the client that connects to an address.
pub record Surroundings (k : Kind) : Type 0 where
  pub ask : ℕ → Result k
  pub remote : ℕ → List ℕ
  pub registry_connected : Bool
  pub discover : List ℕ → Addresses
  pub rand : ℕ
  pub connect : List ℕ → Option ℕ

module _ (k : Kind) (w : Surroundings k) (old : Value k) where
  abbrev pub failed : ℕ → List ℕ → Result k
  failed code message = record { code = code; message = message; value = old }

  abbrev pub connected_to : List ℕ → Option ℕ → RpcConnectionPool → Result k × RpcConnectionPool
  connected_to name none p = (failed (state_code rpc_fail) (codes "call fail"), p)
  connected_to name (some c) p = (w.ask c, record p { connections = (name, c) ∷ p.connections })

  -- The choice of an address, and the call of a new client.
  unfoldable pub call_new : List ℕ → RpcConnectionPool → Outcome (Result k × RpcConnectionPool)
  call_new name p = do
    a ← select_random w.rand (cached name p.service_cache)
    ok (connected_to name (w.connect a) p)

  abbrev pub is_empty : Addresses → Bool
  is_empty [] = true
  is_empty (a ∷ rest) = false

  -- call behind the first if: the addresses are those of the cache, or discovered.
  unfoldable pub call_address : List ℕ → RpcConnectionPool → Outcome (Result k × RpcConnectionPool)
  unfolding call_new state_code
  call_address name p =
      let p' : RpcConnectionPool = record p {
        service_cache = cache name (w.discover name) p.service_cache;
      } in
      if not (is_empty (cached name p.service_cache))
      then call_new name p
      else if not w.registry_connected
      then ok (failed (state_code rpc_closed) (codes "registry closed"), p)
      else if is_empty (w.discover name)
      then ok (failed (state_code rpc_no_method) (codes "no method: " ++ name), p')
      else call_new name p'

  -- The connection is closed: its address and itself are dropped.
  abbrev pub dropped : List ℕ → ℕ → RpcConnectionPool → RpcConnectionPool
  dropped name c p = record p {
    service_cache =
        cache name (erase_address (w.remote c) (cached name p.service_cache)) p.service_cache;
    connections = erase_connection name p.connections;
  }

  abbrev pub call_by :
      Option ℕ → List ℕ → RpcConnectionPool → Outcome (Result k × RpcConnectionPool)
  call_by none name p = call_address name p
  call_by (some c) name p =
      if not ((w.ask c).code == state_code rpc_closed)
      then ok (w.ask c, p)
      else call_address name (dropped name c p)

  unfoldable pub call : List ℕ → RpcConnectionPool → Outcome (Result k × RpcConnectionPool)
  unfolding call_address
  call name p = call_by (find_connection name p.connections) name p
