-- ===== src/Store/Model.antt =====
-- app/crates/octos-app-store/src/state.rs: `AppState`, its events, and the helpers of the reducer.
use octos_one.Prelude.{
  String, Bool, Option, none, some, List, [], ◌==◌, ◌&&◌, ◌||◌, not, any, string_eq, nat_eq,
}
use octos_one.Prelude.Map.{Map, values}
use octos_one.Store.Ids.{SessionKey, TurnId, TaskId, JsonValue, UiCursor}
use octos_one.Store.Auth.{AuthSlice, AuthEvent, default_auth}
use octos_one.Store.Navigation.{CurrentScreen, NavigationEvent, home}
use octos_one.Store.Sessions.{Session, SessionMap, modify}
use octos_one.Store.Sessions
use octos_one.Store.Turns.{Turn}
use octos_one.Store.Tasks.{Task, ToolCall, ToolCallId, is_complete}
use octos_one.Store.Files.{FileHandle, FileMeta}
use octos_one.Store.Approvals.{ApprovalsSlice}
use octos_one.Store.Approvals
use octos_one.Store.Toasts.{Toast, ToastKind, ToastQueue, default_queue, push}
use octos_one.Store.Events.{Notification, TaskRuntimeState}

pub data ConnectionState : Type 0 where
  connected reconnecting offline : ConnectionState

pub record Ephemeral : Type 0 where
  pub streaming_text : Map TurnId String
  pub thinking_text : Map TurnId String

abbrev pub default_ephemeral : Ephemeral
default_ephemeral = record { streaming_text = []; thinking_text = [] }

pub record AppState : Type 0 where
  pub auth : AuthSlice
  pub navigation : CurrentScreen
  pub sessions : SessionMap
  pub current_session : Option SessionKey
  pub cursor : Map SessionKey UiCursor
  pub turns : Map TurnId Turn
  pub tasks : Map TaskId Task
  pub tool_calls : Map ToolCallId ToolCall
  pub files : Map FileHandle FileMeta
  pub approvals : ApprovalsSlice
  pub ephemeral : Ephemeral
  pub toasts : ToastQueue
  pub connection : ConnectionState
  pub context : Option JsonValue

unfoldable pub new : AppState
new = record {
  auth = default_auth;
  navigation = home;
  sessions = Sessions.new;
  current_session = none;
  cursor = [];
  turns = [];
  tasks = [];
  tool_calls = [];
  files = [];
  approvals = Approvals.new;
  ephemeral = default_ephemeral;
  toasts = default_queue;
  connection = offline;
  context = none;
}

pub data SnapshotEvent : Type 0 where
  sessions_hydrated : List Session → SnapshotEvent
  session_removed : SessionKey → SnapshotEvent
  file_meta_hydrated : FileMeta → SnapshotEvent

pub data ConnectionEvent : Type 0 where
  connected_event reconnecting_event offline_event : ConnectionEvent

pub data Event : Type 0 where
  protocol : Option UiCursor → Notification → Event
  auth_event : AuthEvent → Event
  navigation_event : NavigationEvent → Event
  snapshot : SnapshotEvent → Event
  connection_event : ConnectionEvent → Event
  toast : Toast → Event
  dismiss_oldest_toast : Event

abbrev pub notify : ToastKind → String → AppState → AppState
notify kind message st = record st {
  toasts = push st.toasts (record { kind = kind; message = message });
}

unfoldable pub task_runtime_state_wire : TaskRuntimeState → String
task_runtime_state_wire s = elim s.serialized [ none ↦ s.debug_lowercase | some text ↦ text ]

-- The three states of a task that the source names as final.
unfoldable pub is_final_state : String → Bool
is_final_state s = s == "completed" || (s == "failed" || s == "cancelled")

unfoldable pub task_runtime_state_is_terminal : TaskRuntimeState → Bool
task_runtime_state_is_terminal s = is_final_state (task_runtime_state_wire s)

abbrev pub set_streaming : Bool → Session → Session
set_streaming on s = record s { is_streaming = on }

abbrev pub set_active_task : Bool → Session → Session
set_active_task on s = record s { has_active_task = on }

unfoldable pub mark_streaming : SessionKey → Bool → AppState → AppState
mark_streaming sid on st = record st { sessions = modify sid (set_streaming on) st.sessions }

unfoldable pub mark_active_task : SessionKey → Bool → AppState → AppState
mark_active_task sid on st = record st { sessions = modify sid (set_active_task on) st.sessions }

abbrev pub is_open_tool : SessionKey → ToolCall → Bool
is_open_tool sid tc = tc.session_id == sid && not (is_complete tc)

abbrev pub is_open_task : SessionKey → Task → Bool
is_open_task sid t = t.session_id == sid && not (is_final_state t.runtime_state)

-- Whether a tool call or a task of the session is still open.
unfoldable pub has_open_work : AppState → SessionKey → Bool
has_open_work st sid =
    any (is_open_tool sid) (values st.tool_calls) || any (is_open_task sid) (values st.tasks)

unfoldable pub recompute_active : SessionKey → AppState → AppState
recompute_active sid st = mark_active_task sid (has_open_work st sid) st
