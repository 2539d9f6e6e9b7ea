-- ===== src/Rpc/Client.antt =====
-- RpcClient of acid/rpc/rpc_client.{h,cpp}, one call of it at a time. The Channel of a method call, a
-- handler of a subscription and an iterator are ids or keys; what is pushed on the channels is logged in
-- order. The timers, the socket and the capacity of the channels are left out.
pub mod Pending
pub mod Answered
use acid_compute.Prelude.{
  ℕ, ◌+◌, ◌-◌, ◌%◌, ◌^◌, Bool, true, false, Option, none, some, List, [], ◌∷◌, ◌++◌, map, ◌==◌,
  if◌then◌else◌,
}
use acid_compute.Outcome.{Outcome, ok, out_of_range, undefined, ◌>>=◌}
use acid_compute.ByteArray.Store.{ByteArray, Endian, to_string}
use acid_compute.Http.Servlets.{same}
use acid_compute.Http.Texts.{codes}
use acid_compute.Rpc.Protocol.{
  Protocol, create, type_code, heartbeat_packet, rpc_method_request, rpc_method_response,
  rpc_publish_response, rpc_subscribe_request,
}
use acid_compute.Rpc.Serializer.{Kind, Value, text, write_value, read_value}
use acid_compute.Rpc.Serializer.Tuples.{Values, write_tuple}
use acid_compute.Rpc.Results.{
  Result, state_code, rpc_no_match, rpc_no_method, rpc_closed, rpc_timeout, read_result,
}
use acid_compute.Rpc.Registry.{serialized}
use acid_compute.Rpc.Server.{serializer_of}

-- The channel of each method call that waits, by its sequence id.
abbrev pub Handles : Type 0
Handles = List (ℕ × ℕ)

pub record RpcClient : Type 0 where
  pub is_close : Bool
  pub is_heart_close : Bool
  pub sequence_id : ℕ
  pub response_handle : Handles
  pub sub_handle : List (List ℕ × ℕ)
  pub requests : List Protocol
  pub delivered : List (ℕ × Option Protocol)
  pub handled : List (ℕ × List ℕ)

-- The state of a client that has connected.
unfoldable pub connected_client : RpcClient
connected_client = record {
  is_close = false;
  is_heart_close = false;
  sequence_id = 0;
  response_handle = [];
  sub_handle = [];
  requests = [];
  delivered = [];
  handled = [];
}

unfoldable pub find_handle : ℕ → Handles → Option ℕ
find_handle id [] = none
find_handle id ((k, c) ∷ m) = let rest = find_handle id m in if id == k then some c else rest

-- emplace: an id that is there keeps its channel.
abbrev pub added_unless : Option ℕ → ℕ → ℕ → Handles → Handles
added_unless none id c m = (id, c) ∷ m
added_unless (some d) id c m = m

unfoldable pub emplace : ℕ → ℕ → Handles → Handles
unfolding find_handle
emplace id c m = added_unless (find_handle id m) id c m

-- erase by an iterator, which dangles when its entry is gone.
unfoldable pub erase_handle : ℕ → Handles → Outcome Handles
erase_handle id [] = undefined
erase_handle id ((k, c) ∷ m) =
    let rest = (do left ← erase_handle id m; ok ((k, c) ∷ left)) in if id == k then ok m else rest

-- m_channel << request
unfoldable pub send : Protocol → RpcClient → RpcClient
send p c = if c.is_close then c else record c { requests = c.requests ++ (p ∷ []) }

abbrev pub next_id : ℕ → ℕ
next_id n = let m = (n + 1) % 2 ^ 32 in if m == 2 ^ 32 - 1 then 0 else m

-- The content of a method call by its name and its arguments.
unfoldable pub request_content : Endian → List ℕ → (ks : List Kind) → Values ks → Outcome (List ℕ)
request_content host name ks args =
    serialized (λ b. do b' ← write_value host text name b; write_tuple host ks args b')

-- The first part of call: the id of the request, and the state.
unfoldable pub start_call : List ℕ → ℕ → RpcClient → ℕ × RpcClient
unfolding emplace send
start_call content channel c =
    let c' : RpcClient = record c {
      response_handle = emplace c.sequence_id channel c.response_handle;
      sequence_id = next_id c.sequence_id;
    } in
    (c.sequence_id, send (create rpc_method_request content c.sequence_id) c')

-- Behind the wait of call.
unfoldable pub end_call : ℕ → RpcClient → Outcome RpcClient
end_call id c =
    let erased : Outcome RpcClient = (do
      m ← erase_handle id c.response_handle
      ok (record c { response_handle = m })) in
    if c.is_close then ok c else erased

-- What the try of call makes of what it reads into `ret`, the value of which is `old`.
abbrev pub matched : (k : Kind) → Value k → Outcome (Result k × ByteArray) → Outcome (Result k)
matched k old (ok (r, b)) = ok r
matched k old out_of_range = ok (record {
  code = state_code rpc_no_match;
  message = codes "return value not match";
  value = old;
})
matched k old undefined = undefined

abbrev pub is_nil : List ℕ → Bool
is_nil [] = true
is_nil (x ∷ xs) = false

-- The last part of call: by the timer's flag and the response that the channel gave.
unfoldable pub result_of :
    Endian → (k : Kind) → Value k → Bool → Option Protocol → Outcome (Result k)
unfolding state_code
result_of host k old true response =
    ok (record { code = state_code rpc_timeout; message = codes "call timeout"; value = old })
result_of host k old false none =
    ok (record { code = state_code rpc_closed; message = codes "socket closed"; value = old })
result_of host k old false (some p) =
    let read : Outcome (Result k) = (do
      b ← serializer_of p.content
      matched k old (read_result host k old b)) in
    if is_nil p.content
    then ok (record {
      code = state_code rpc_no_method;
      message = codes "method not found";
      value = old;
    })
    else read

abbrev pub deliver : Option ℕ → Protocol → RpcClient → RpcClient
deliver none p c = c
deliver (some ch) p c = record c { delivered = c.delivered ++ ((ch, some p) ∷ []) }

unfoldable pub handle_method_response : Protocol → RpcClient → RpcClient
unfolding find_handle
handle_method_response p c = deliver (find_handle p.sequence_id c.response_handle) p c

unfoldable pub find_handler : List ℕ → List (List ℕ × ℕ) → Option ℕ
find_handler key [] = none
find_handler key ((k, f) ∷ m) = let rest = find_handler key m in if same key k then some f else rest

abbrev pub handed_to : Option ℕ → List ℕ → RpcClient → RpcClient
handed_to none rest c = c
handed_to (some f) rest c = record c { handled = c.handled ++ ((f, rest) ∷ []) }

-- A handler gets the Serializer behind the key.
unfoldable pub handle_publish : Endian → Protocol → RpcClient → Outcome RpcClient
handle_publish host p c = do
  b ← serializer_of p.content
  (key, b') ← read_value host text b
  rest ← to_string b'
  ok (handed_to (find_handler key c.sub_handle) rest c)

-- `none` where the assertion against a second subscription fails.
abbrev pub subscribed_unless : Option ℕ → List ℕ → ℕ → List ℕ → RpcClient → Option RpcClient
subscribed_unless (some g) key f content c = none
subscribed_unless none key f content c = some (
    send (create rpc_subscribe_request content 0)
      (record c { sub_handle = (key, f) ∷ c.sub_handle }))

unfoldable pub subscribe : Endian → List ℕ → ℕ → RpcClient → Outcome (Option RpcClient)
subscribe host key f c = do
  content ← serialized (write_value host text key)
  ok (subscribed_unless (find_handler key c.sub_handle) key f content c)

-- close(), without the timer, the event and the session.
unfoldable pub close : RpcClient → RpcClient
close c = if c.is_close then c else record c {
  is_close = true;
  is_heart_close = true;
  delivered = c.delivered ++ map (λ (e : ℕ × ℕ). (e.1, none)) c.response_handle;
  response_handle = [];
}

-- One turn of handle_recv with what recv_protocol gave.
unfoldable pub handle_recv : Endian → Option Protocol → RpcClient → Outcome RpcClient
handle_recv host none c = ok (close c)
handle_recv host (some p) c =
    let c' : RpcClient = record c { is_heart_close = false } in
    if p.type == type_code rpc_method_response
    then ok (handle_method_response p c')
    else if p.type == type_code rpc_publish_response
    then handle_publish host p c'
    else ok c'

-- The function of the heartbeat timer.
unfoldable pub heartbeat_tick : RpcClient → RpcClient
unfolding close send
heartbeat_tick c =
    let c' = if c.is_heart_close then close c else c in
    record (send (create heartbeat_packet [] 0) c') { is_heart_close = true }
