-- ===== src/Transport/Wire.antt =====
-- app/crates/octos-app-transport/src/lib.rs: what the app and the transport say to each other. `C`
-- is the type of the values of octos-core that the transport only passes on.
use octos_one.Prelude.{ℕ, String, Option, List}
use octos_one.Store.Ids.{SessionKey, UiCursor}
use octos_one.Transport.Json.{Json}
use octos_one.Transport.Rpc.{Outcome, RpcEnvelope, Sender}
use octos_one.Transport.Capability.{Capabilities}

pub data ConnectionState : Type 0 where
  idle dialing handshaking live replay_applying failed : ConnectionState
  reconnecting : ℕ → ConnectionState

-- Of the parameters of `session/open` the transport reads the session and the cursor.
pub record SessionOpenParams (C : Type 0) : Type 0 where
  pub session_id : SessionKey
  pub after : Option UiCursor
  pub others : C

pub data OutboundCommand (C : Type 0) : Type 0 where
  open_session : SessionOpenParams C → OutboundCommand C
  open_session_fresh : SessionOpenParams C → OutboundCommand C
  list_sessions : OutboundCommand C
  hydrate_session : String → OutboundCommand C
  start_turn : C → OutboundCommand C
  interrupt_turn : C → OutboundCommand C
  send_approval_response : C → Sender → OutboundCommand C
  fetch_diff_preview : C → Sender → OutboundCommand C
  request_task_output : C → Sender → OutboundCommand C
  disconnect : OutboundCommand C

pub data LifecycleResult (C : Type 0) : Type 0 where
  session_open : C → LifecycleResult C
  turn_start : C → LifecycleResult C
  turn_interrupt : C → LifecycleResult C

pub data TransportEvent (C : Type 0) : Type 0 where
  connection_state : ConnectionState → TransportEvent C
  durable_notification : C → Option UiCursor → TransportEvent C
  ephemeral_notification : C → TransportEvent C
  rpc_result : LifecycleResult C → TransportEvent C
  rpc_error : String → String → C → TransportEvent C
  capability_negotiated : Capabilities → TransportEvent C
  sessions_listed : C → TransportEvent C
  session_hydrated : String → Json → TransportEvent C

-- What the transport takes from octos-core and serde_json. `none` and `err` are errors; the names
-- are those of the methods.
pub record OctosCore (C : Type 0) : Type 0 where
  pub session_open_method : String
  pub turn_start_method : String
  pub turn_interrupt_method : String
  pub approval_respond_method : String
  pub diff_preview_get_method : String
  pub task_output_read_method : String
  pub session_list_method : String
  pub session_hydrate_method : String
  pub message_delta_method : String
  pub session_open_to_value : SessionOpenParams C → Option Json
  pub to_value : C → Option Json
  pub session_list_to_value : Option String → Option Json
  pub session_hydrate_to_value : SessionKey → Option UiCursor → List String → Option Json
  pub to_string : Json → Option String
  pub envelope_from_str : String → Option (RpcEnvelope C)
  pub notification_from : String → Json → Option C
  pub lifecycle_from : String → Json → Option (Option (LifecycleResult C))
  pub approval_from : Json → Outcome C String
  pub diff_preview_from : Json → Outcome C String
  pub task_output_from : Json → Outcome C String
  pub session_list_from : Json → Option C
  pub cursor_from : Json → Option UiCursor
  pub session_key_from : Json → Option SessionKey
  pub invalid_params : String → C
