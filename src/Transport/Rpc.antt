-- ===== src/Transport/Rpc.antt =====
-- app/crates/octos-app-transport/src/jsonrpc/mod.rs: JSON-RPC frames, and the ids and the registry of
-- requests.
pub mod Ids
use octos_one.Prelude.{
  ℕ, ◌+◌, ◌%◌, ◌^◌, String, Bool, Option, none, some, List, [], ◌∷◌, length, eqb, string_eq,
}
use octos_one.Prelude.Map.{Map, get, insert, remove}
use octos_one.Prelude.Text.{show}
use octos_one.Transport.Json.{Json, text, object, end, field}

abbrev pub JsonRpcId : Type 0
JsonRpcId = String

-- A frame, with errors of the type `E`.
pub data RpcEnvelope (E : Type 0) : Type 0 where
  error_response : Option JsonRpcId → E → RpcEnvelope E
  response : JsonRpcId → Json → RpcEnvelope E
  request : JsonRpcId → String → Json → RpcEnvelope E
  notification : String → Json → RpcEnvelope E

unfoldable pub envelope_id : {E : Type 0} → RpcEnvelope E → Option JsonRpcId
envelope_id (request id method params) = some id
envelope_id (response id result) = some id
envelope_id (error_response id error) = id
envelope_id (notification method params) = none

-- What a request was answered with, or the error.
pub data Outcome (A E : Type 0) : Type 0 where
  ok : A → Outcome A E
  err : E → Outcome A E

-- A oneshot sender is known by a number.
abbrev pub Sender : Type 0
Sender = ℕ

pub record RpcRegistry : Type 0 where
  pub pending : Map JsonRpcId Sender
  pub counter : ℕ

abbrev pub new_registry : RpcRegistry
new_registry = record { pending = []; counter = 0 }

-- `fetch_add` returns the old count, and wraps at 2^64.
unfoldable pub next_id : RpcRegistry → JsonRpcId × RpcRegistry
next_id r = (show r.counter, record r { counter = (r.counter + 1) % 2 ^ 64 })

unfoldable pub register : JsonRpcId → Sender → RpcRegistry → RpcRegistry
register id sender r = record r { pending = insert id sender r.pending }

-- The registry, and what was sent to whom.
unfoldable pub complete :
    {E : Type 0}
    → JsonRpcId
    → Outcome Json E
    → RpcRegistry
    → RpcRegistry × Option (Sender × Outcome Json E)
complete id outcome r = elim (get id r.pending) [
  | none ↦ (r, none)
  | some tx ↦ (record r { pending = remove id r.pending }, some (tx, outcome))
]

unfoldable pub cancel_all : RpcRegistry → RpcRegistry
cancel_all r = record r { pending = [] }

unfoldable pub len : RpcRegistry → ℕ
len r = length r.pending

unfoldable pub is_empty : RpcRegistry → Bool
unfolding len
is_empty r = eqb (len r) 0

abbrev pub json_rpc_version : String
json_rpc_version = "2.0"

-- The object of a request, whose text serde_json makes.
unfoldable pub request_object : JsonRpcId → String → Json → Json
request_object id method params = object (
    field "jsonrpc" (text json_rpc_version)
      (field "id" (text id) (field "method" (text method) (field "params" params end))))

unfoldable pub serialize_request :
    (Json → Option String) → JsonRpcId → String → Json → Option String
serialize_request to_string id method params = to_string (request_object id method params)
