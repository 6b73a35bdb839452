-- ===== src/Shell/Bridge/Events.antt =====
-- What the agent of app/app/src/backend/octos_ui.rs makes of the events of the transport.
use octos_one.Prelude.{
  [], ℕ, String, string_eq, nat_eq, ◌==◌, Bool, true, false, Option, none, some, List, ◌∷◌, ◌++◌,
  if◌then◌else◌, not, unwrap_or,
}
use octos_one.Prelude.Chars.{is_blank}
use octos_one.Prelude.Text.{concat, codes, show}
use octos_one.Prelude.Map.{Map, get, insert, remove}
use octos_one.Store.Events.{Notification}
use octos_one.Store.Events
use octos_one.Store.Ids.{SessionKey, TurnId, UiCursor, DateTime}
use octos_one.Store.Model.{
  AppState, protocol, connection_event, toast, ConnectionEvent, connected_event, reconnecting_event,
  offline_event,
}
use octos_one.Store.Reducer.{reduce}
use octos_one.Store.Toasts.{Toast}
use octos_one.Store.Toasts
use octos_one.Transport.Wire.{
  ConnectionState, idle, dialing, handshaking, live, replay_applying, failed, reconnecting,
}
use octos_one.Transport.Capability.{Capabilities}
use octos_one.Shell.Bridge.{Agent, SessionId, PromptId, Command, list_sessions}

-- A notification; of an envelope with the persisted text of an assistant the agent reads the session
-- and the text, and the store only that it is an envelope.
pub data Payload : Type 0 where
  plain : Notification → Payload
  assistant_persisted : SessionKey → String → Payload

abbrev pub stored : Payload → Notification
stored (plain n) = n
stored (assistant_persisted key text) = Events.envelope_v2

-- `TransportEvent`, with what the agent reads of each. The rows of a hydrated session are none if
-- serde_json does not read them.
pub data Inbound : Type 0 where
  connection_state : ConnectionState → Inbound
  capability_negotiated : Capabilities → Inbound
  session_open : SessionKey → Inbound
  other_result : Inbound
  rpc_error : String → String → String → Inbound
  durable_notification : Payload → Option UiCursor → Inbound
  ephemeral_notification : Payload → Inbound
  sessions_listed : Inbound
  session_hydrated : SessionKey → Option (List (String × String)) → Inbound

pub data AgentEvent : Type 0 where
  session_ready : SessionId → AgentEvent
  session_error : SessionId → String → AgentEvent
  prompt_error : PromptId → String → AgentEvent
  text_delta thinking_delta text_authoritative : PromptId → String → AgentEvent
  -- The prompt, and the identifier, name and input of the tool.
  tool_request : PromptId → String → String → String → AgentEvent
  turn_complete : PromptId → AgentEvent

abbrev pub first {ℓ} : {A : Type ℓ} → List A → Option A
first [] = none
first (x ∷ xs) = some x

abbrev pub for_prompt : (PromptId → AgentEvent) → Option PromptId → List AgentEvent
for_prompt f none = []
for_prompt f (some pid) = f pid ∷ []

-- The prompt whose session has a key, if there is one.
unfoldable pub prompt_of_session : SessionKey → Map PromptId SessionKey → Option PromptId
prompt_of_session key [] = none
prompt_of_session key ((pid, k) ∷ m) = if k == key then some pid else prompt_of_session key m

-- The end of a turn: its prompt is known no more.
unfoldable pub forget_prompt : TurnId → PromptId → Agent → Agent
unfolding remove
forget_prompt turn_id pid a = record a {
  prompt_ids = remove turn_id a.prompt_ids;
  turn_ids = remove pid a.turn_ids;
  prompt_sessions = remove pid a.prompt_sessions;
}

unfoldable pub end_turn : TurnId → (PromptId → AgentEvent) → Agent → Agent × List AgentEvent
unfolding get forget_prompt
end_turn turn_id f a = elim (get turn_id a.prompt_ids) [
  | none ↦ (a, [])
  | some pid ↦ (forget_prompt turn_id pid a, f pid ∷ [])
]

unfoldable pub translate_notification : Payload → Agent → Agent × List AgentEvent
unfolding get prompt_of_session end_turn concat codes is_blank
translate_notification (assistant_persisted key text) a =
    if is_blank (codes text) then (a, []) else (
      a,
      for_prompt (λ pid. text_authoritative pid text) (prompt_of_session key a.prompt_sessions),
    )
translate_notification (plain (Events.message_delta ev)) a =
    (a, for_prompt (λ pid. text_delta pid ev.text) (get ev.turn_id a.prompt_ids))
translate_notification (plain (Events.reasoning_delta ev)) a =
    (a, for_prompt (λ pid. thinking_delta pid ev.text) (get ev.turn_id a.prompt_ids))
translate_notification (plain (Events.tool_started ev)) a = (
  a,
  for_prompt (λ pid. tool_request pid ev.tool_call_id ev.tool_name (unwrap_or ev.arguments "{}"))
      (get ev.turn_id a.prompt_ids),
)
translate_notification (plain (Events.turn_completed ev)) a = end_turn ev.turn_id turn_complete a
translate_notification (plain (Events.turn_error ev)) a =
    end_turn ev.turn_id (λ pid. prompt_error pid (concat (ev.code ∷ ": " ∷ ev.message ∷ []))) a
translate_notification (plain _) a = (a, [])

-- `fold_into_store`.
unfoldable pub fold_into_store : DateTime → Payload → Option UiCursor → AppState → AppState
unfolding reduce
fold_into_store now payload cursor st = reduce now st (protocol cursor (stored payload))

unfoldable pub connection_event_of : ConnectionState → ConnectionEvent
connection_event_of live = connected_event
connection_event_of replay_applying = connected_event
connection_event_of (reconnecting attempt) = reconnecting_event
connection_event_of idle = offline_event
connection_event_of dialing = offline_event
connection_event_of handshaking = offline_event
connection_event_of failed = offline_event

abbrev pub live_toast : ConnectionState → Option Toast
live_toast (reconnecting attempt) =
    some (record { kind = Toasts.reconnect_success; message = "Reconnected" })
live_toast replay_applying =
    some (record { kind = Toasts.reconnect_success; message = "Reconnected" })
live_toast dialing = some (record { kind = Toasts.reconnect_success; message = "Connected" })
live_toast handshaking = some (record { kind = Toasts.reconnect_success; message = "Connected" })
live_toast _ = none

-- The toast of a change of state.
unfoldable pub toast_of : ConnectionState → ConnectionState → Option Toast
unfolding concat show
toast_of prev live = live_toast prev
toast_of prev (reconnecting attempt) = some (record {
  kind = Toasts.reconnecting;
  message = concat ("Reconnecting (attempt " ∷ show attempt ∷ ")" ∷ []);
})
toast_of prev failed =
    some (record { kind = Toasts.error; message = "Connection failed; restart to retry" })
toast_of prev _ = none

abbrev pub same_state : ConnectionState → ConnectionState → Bool
same_state idle idle = true
same_state dialing dialing = true
same_state handshaking handshaking = true
same_state live live = true
same_state replay_applying replay_applying = true
same_state failed failed = true
same_state (reconnecting m) (reconnecting n) = m == n
same_state _ _ = false

abbrev pub push_toast : DateTime → Option Toast → AppState → AppState
push_toast now none st = st
push_toast now (some t) st = reduce now st (toast t)

unfoldable pub fold_connection_into_store :
    DateTime → ConnectionState → ConnectionState → AppState → AppState
unfolding connection_event_of toast_of reduce
fold_connection_into_store now prev next st =
    if same_state prev next
    then st
    else push_toast now (toast_of prev next)
        (reduce now st (connection_event (connection_event_of next)))

-- All that an event changes or sends: the agent, the store, the events for the screens, the commands,
-- and the rows of resumed sessions.
pub record Translated : Type 0 where
  pub agent : Agent
  pub store : AppState
  pub events : List AgentEvent
  pub commands : List Command
  pub resumed : List (SessionId × List (String × String))

abbrev pub only : Agent → AppState → List AgentEvent → Translated
only a st events = record { agent = a; store = st; events = events; commands = []; resumed = [] }

-- A failed request is put down to some session if it was to open one, else to some prompt.
unfoldable pub blame : String → String → Agent → List AgentEvent
blame method msg a =
    let prompt =
      for_prompt (λ pid. prompt_error pid msg)
        (first (octos_one.Prelude.Map.values a.prompt_ids)) in
    if method == "session/open"
    then (elim (first a.session_keys) [
      | some entry ↦ session_error entry.0 msg ∷ []
      | none ↦ prompt
    ])
    else prompt

unfoldable pub translate : DateTime → Inbound → Agent → AppState → Translated
unfolding get translate_notification fold_into_store fold_connection_into_store blame concat
translate now (connection_state state) a st =
    only (record a { connection_state = state })
      (fold_connection_into_store now a.connection_state state st) []
translate now (capability_negotiated caps) a st = record {
  agent = record a {
    capabilities = some caps;
    approval_caps = (caps.typed_approvals, caps.pane_snapshots);
  };
  store = st;
  events = [];
  commands = list_sessions ∷ [];
  resumed = [];
}
translate now (session_open key) a st = elim (get key a.session_ids) [
  | none ↦ only a st []
  | some sid ↦
      only (record a { ready_sessions = sid ∷ a.ready_sessions }) st (session_ready sid ∷ [])
]
translate now other_result a st = only a st []
translate now (rpc_error method message code) a st =
    only a st (blame method (concat (method ∷ ": " ∷ message ∷ " (" ∷ code ∷ ")" ∷ [])) a)
translate now (durable_notification payload cursor) a st =
    let (a', events) = translate_notification payload a in
    only a' (fold_into_store now payload cursor st) events
translate now (ephemeral_notification payload) a st =
    let (a', events) = translate_notification payload a in
    only a' (fold_into_store now payload none st) events
translate now sessions_listed a st = only a st []
translate now (session_hydrated key rows) a st = elim (get key a.session_ids) [
  | none ↦ only a st []
  | some sid ↦ elim rows [
    | none ↦ only a st []
    | some messages ↦ record (only a st []) { resumed = (sid, messages) ∷ [] }
  ]
]

-- The loop of `handle_event` over the events that wait in the channel.
unfoldable pub handle_event : DateTime → List Inbound → Agent → AppState → Translated
handle_event now [] a st = only a st []
handle_event now (ev ∷ evs) a st =
    let here = translate now ev a st in
    let rest = handle_event now evs here.agent here.store in
    record {
      agent = rest.agent;
      store = rest.store;
      events = here.events ++ rest.events;
      commands = here.commands ++ rest.commands;
      resumed = here.resumed ++ rest.resumed;
    }
