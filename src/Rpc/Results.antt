-- ===== src/Rpc/Results.antt =====
-- Result of acid/rpc/rpc.h, with a value of a basic type.
pub mod Delivery
use acid_compute.Prelude.{ℕ, List, [], ◌==◌, if◌then◌else◌}
use acid_compute.Outcome.{Outcome, ok, ◌>>=◌}
use acid_compute.ByteArray.Store.{ByteArray, Endian}
use acid_compute.Rpc.Serializer.{Kind, Value, uint16, text, write_value, read_value}
use acid_compute.Http.Texts.{codes}

pub data RpcState : Type 0 where
  rpc_success rpc_fail rpc_no_match rpc_no_method rpc_closed rpc_timeout : RpcState

unfoldable pub state_code : RpcState → ℕ
state_code rpc_success = 0
state_code rpc_fail = 1
state_code rpc_no_match = 2
state_code rpc_no_method = 3
state_code rpc_closed = 4
state_code rpc_timeout = 5

pub record Result (k : Kind) : Type 0 where
  pub code : ℕ
  pub message : List ℕ
  pub value : Value k

-- `success()` and `fail()`; the value is what the object holds when it is made.
unfoldable pub success : (k : Kind) → Value k → Result k
unfolding state_code
success k v = record { code = state_code rpc_success; message = codes "success"; value = v }

unfoldable pub fail : (k : Kind) → Value k → Result k
unfolding state_code
fail k v = record { code = state_code rpc_fail; message = codes "fail"; value = v }

unfoldable pub write_result : Endian → (k : Kind) → Result k → ByteArray → Outcome ByteArray
write_result host k r b = do
  b1 ← write_value host uint16 r.code b
  b2 ← write_value host text r.message b1
  write_value host k r.value b2

-- Read into a result that holds `old`.
unfoldable pub read_result :
    Endian → (k : Kind) → Value k → ByteArray → Outcome (Result k × ByteArray)
read_result host k old b = do
  (c, b1) ← read_value host uint16 b
  (m, b2) ← read_value host text b1
  let read = (do
    (v, b3) ← read_value host k b2
    ok (record { code = c; message = m; value = v }, b3))
  if c == 0 then read else ok (record { code = c; message = m; value = old }, b2)
