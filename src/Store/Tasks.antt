-- ===== src/Store/Tasks.antt =====
-- app/crates/octos-app-store/src/tasks.rs: background tasks and tool calls.
use octos_one.Prelude.{ℕ, String, Bool, Option, none, some, is_some}
use octos_one.Store.Ids.{SessionKey, TurnId, TaskId, DateTime, F32, JsonValue}

abbrev pub ToolCallId : Type 0
ToolCallId = String

-- `OutputCursor` of octos-core.
pub record OutputCursor : Type 0 where
  pub offset : ℕ

pub record Task : Type 0 where
  pub id : TaskId
  pub session_id : SessionKey
  pub lifecycle_state : String
  pub runtime_state : String
  pub summary : Option String
  pub last_cursor : Option OutputCursor
  pub last_updated : DateTime

abbrev pub new_task : TaskId → SessionKey → DateTime → Task
new_task id session_id last_updated = record {
  id = id;
  session_id = session_id;
  lifecycle_state = "";
  runtime_state = "";
  summary = none;
  last_cursor = none;
  last_updated = last_updated;
}

pub record ToolCall : Type 0 where
  pub id : ToolCallId
  pub session_id : SessionKey
  pub turn_id : TurnId
  pub tool_name : String
  pub arguments : Option JsonValue
  pub started_at : DateTime
  pub completed_at : Option DateTime
  pub success : Option Bool
  pub output_preview : Option String
  pub progress_pct : Option F32

abbrev pub tool_started :
    ToolCallId → SessionKey → TurnId → String → Option JsonValue → DateTime → ToolCall
tool_started id session_id turn_id tool_name arguments started_at = record {
  id = id;
  session_id = session_id;
  turn_id = turn_id;
  tool_name = tool_name;
  arguments = arguments;
  started_at = started_at;
  completed_at = none;
  success = none;
  output_preview = none;
  progress_pct = none;
}

unfoldable pub mark_completed : Option Bool → Option String → DateTime → ToolCall → ToolCall
mark_completed success output_preview completed_at tc = record tc {
  success = success;
  output_preview = output_preview;
  completed_at = some completed_at;
}

abbrev pub is_complete : ToolCall → Bool
is_complete tc = is_some tc.completed_at
