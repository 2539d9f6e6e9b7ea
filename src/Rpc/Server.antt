-- ===== src/Rpc/Server.antt =====
-- RpcServer of acid/rpc/rpc_server.{h,cpp}: the methods that it serves and its subscribers. A session is
-- its id. A method is the function that m_handlers holds: from the Serializer and the argument to the
-- Serializer. The call `set_code("params not match")` of proxy is read as set_message.
pub mod Publishing
use acid_compute.Prelude.{
  ℕ, zero, suc, ◌+◌, Bool, true, false, ◌&&◌, Option, none, some, List, [], ◌∷◌, ◌++◌, ◌==◌,
  if◌then◌else◌,
}
use acid_compute.Outcome.{Outcome, ok, out_of_range, undefined, ◌>>=◌}
use acid_compute.ByteArray.Store.{ByteArray, Endian, write, set_position, to_string}
use acid_compute.Http.Servlets.{same}
use acid_compute.Http.Texts.{codes}
use acid_compute.Rpc.Protocol.{
  Protocol, default_array, create, heartbeat, type_code, heartbeat_packet, rpc_method_request,
  rpc_method_response, rpc_subscribe_request, rpc_subscribe_response, rpc_publish_request,
}
use acid_compute.Rpc.Serializer.{Kind, Value, text, int8, write_value, read_value}
use acid_compute.Rpc.Serializer.Tuples.{Values, read_tuple}
use acid_compute.Rpc.Results.{Result, state_code, rpc_success, rpc_no_match, success, write_result}
use acid_compute.Rpc.Registry.{serialized, Sent}

abbrev pub Method : Type 0
Method = ByteArray → List ℕ → Outcome ByteArray

pub record RpcServer : Type 0 where
  pub handlers : List (List ℕ × Method)
  pub subscribes : List (List ℕ × ℕ)

-- Serializer s(content)
abbrev pub serializer_of : List ℕ → Outcome ByteArray
serializer_of content = do b ← write content default_array; set_position 0 b

-- m_handlers[name] = method
unfoldable pub assign_method : List ℕ → Method → List (List ℕ × Method) → List (List ℕ × Method)
assign_method n f [] = (n, f) ∷ []
assign_method n f ((m, g) ∷ ms) =
    let rest = assign_method n f ms in if same n m then (n, f) ∷ ms else (m, g) ∷ rest

unfoldable pub find_method : List ℕ → List (List ℕ × Method) → Option Method
find_method n [] = none
find_method n ((m, g) ∷ ms) = let rest = find_method n ms in if same n m then some g else rest

-- What proxy answers, by what the try has read; `unset` is what the value of a new Result holds.
abbrev pub proxied :
    (ks : List Kind) (k : Kind)
    → (Values ks → Value k)
    → Value k
    → Outcome (Values ks × ByteArray)
    → Outcome (Result k)
proxied ks k func unset (ok (args, s)) =
    ok (record { code = state_code rpc_success; message = []; value = func args })
proxied ks k func unset out_of_range =
    ok
      (record { code = state_code rpc_no_match; message = codes "params not match"; value = unset })
proxied ks k func unset undefined = undefined

module _ (host : Endian) where
  unfoldable pub proxy : (ks : List Kind) (k : Kind) → (Values ks → Value k) → Value k → Method
  unfolding state_code
  proxy ks k func unset serializer arg = do
    s ← serializer_of arg
    r ← proxied ks k func unset (read_tuple host ks s)
    write_result host k r serializer

  unfoldable pub register_method :
      List ℕ → (ks : List Kind) (k : Kind) → (Values ks → Value k) → Value k → RpcServer → RpcServer
  register_method name ks k func unset s = record s {
    handlers = assign_method name (proxy ks k func unset) s.handlers;
  }

  abbrev pub called : Option Method → List ℕ → Outcome ByteArray
  called none arg = ok default_array
  called (some f) arg = do b ← f default_array arg; set_position 0 b

  unfoldable pub call : List ℕ → List ℕ → RpcServer → Outcome ByteArray
  call name arg s = called (find_method name s.handlers) arg

  unfoldable pub handle_method_call : Protocol → RpcServer → Outcome Protocol
  handle_method_call p s = do
    request ← serializer_of p.content
    (name, rest) ← read_value host text request
    arg ← to_string rest
    ret ← call name arg s
    content ← to_string ret
    ok (create rpc_method_response content p.sequence_id)

  -- `value` is what the int8_t of a new Result<> holds; the response overwrites the request's text.
  unfoldable pub handle_subscribe : ℕ → Protocol → ℕ → RpcServer → Outcome (Protocol × RpcServer)
  handle_subscribe value p client s = do
    b ← serializer_of p.content
    (key, b') ← read_value host text b
    b0 ← set_position 0 b'
    b1 ← write_result host int8 (success int8 value) b0
    content ← to_string b1
    ok (
      create rpc_subscribe_response content 0,
      record s { subscribes = s.subscribes ++ ((key, client) ∷ []) },
    )

  -- The task that handle_client schedules for a request: the response, if one is sent.
  unfoldable pub serve : ℕ → Protocol → ℕ → RpcServer → Outcome (Option Protocol × RpcServer)
  serve value p client s =
      let called : Outcome (Option Protocol × RpcServer) = (do
        r ← handle_method_call p s
        ok (some r, s)) in
      let subscribed : Outcome (Option Protocol × RpcServer) = (do
        (r, s') ← handle_subscribe value p client s
        ok (some r, s')) in
      if p.type == type_code heartbeat_packet
      then ok (some heartbeat, s)
      else if p.type == type_code rpc_method_request
      then called
      else if p.type == type_code rpc_subscribe_request
      then subscribed
      else ok (none, s)

-- The sessions of equal_range.
unfoldable pub subscribers : List ℕ → List (List ℕ × ℕ) → List ℕ
subscribers key [] = []
subscribers key ((k, c) ∷ m) = let rest = subscribers key m in if same key k then c ∷ rest else rest

module _ (connected : ℕ → Bool) where
  -- The loop of publish from its iterator on, with fuel; no branch of its body moves the iterator.
  unfoldable pub publish_loop : ℕ → Protocol → List ℕ → Sent → Option Sent
  publish_loop zero p range sent = none
  publish_loop (suc f) p [] sent = some sent
  publish_loop (suc f) p (c ∷ cs) sent =
      publish_loop f p (c ∷ cs) (if connected c then sent ++ ((c, p) ∷ []) else sent)

  -- publish, by the bytes of the data; `none` where the fuel runs out.
  unfoldable pub publish : ℕ → List ℕ → List ℕ → RpcServer → Option Sent
  unfolding publish_loop subscribers
  publish fuel key content s =
      publish_loop fuel (create rpc_publish_request content 0) (subscribers key s.subscribes) []
