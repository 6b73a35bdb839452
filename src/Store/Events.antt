-- ===== src/Store/Events.antt =====
-- `AppUiBackendEvent` of octos-core as the reducer of app/crates/octos-app-store/src/state.rs
-- matches on it: its variants, each with the fields that the reducer reads.
use octos_one.Prelude.{ℕ, String, Bool, Option, List}
use octos_one.Store.Ids.{SessionKey, TurnId, TaskId, ApprovalId, DateTime, F32, JsonValue, UiCursor}
use octos_one.Store.Approvals.{ApprovalDecision, ApprovalRequestedEvent}
use octos_one.Store.Tasks.{OutputCursor}

pub record TurnStartedEvent : Type 0 where
  pub session_id : SessionKey
  pub turn_id : TurnId
  pub timestamp : DateTime

pub record DeltaEvent : Type 0 where
  pub session_id : SessionKey
  pub turn_id : TurnId
  pub text : String

pub record ToolStartedEvent : Type 0 where
  pub session_id : SessionKey
  pub turn_id : TurnId
  pub tool_call_id : String
  pub tool_name : String
  pub arguments : Option JsonValue

pub record ToolProgressEvent : Type 0 where
  pub session_id : SessionKey
  pub turn_id : TurnId
  pub tool_call_id : String
  pub progress_pct : Option F32

pub record ToolCompletedEvent : Type 0 where
  pub session_id : SessionKey
  pub tool_call_id : String
  pub tool_name : String
  pub success : Option Bool
  pub output_preview : Option String

pub record ApprovalAutoResolvedEvent : Type 0 where
  pub session_id : SessionKey
  pub approval_id : ApprovalId
  pub decision : ApprovalDecision
  pub scope : String

pub record ApprovalDecidedEvent : Type 0 where
  pub session_id : SessionKey
  pub approval_id : ApprovalId
  pub decision : ApprovalDecision

pub record ApprovalCancelledEvent : Type 0 where
  pub session_id : SessionKey
  pub approval_id : ApprovalId
  pub reason : String

-- `TaskRuntimeState` of octos-core, by what the reducer asks of it: the text that `serde_json`
-- writes for it, if it is one, and its `Debug` form in lower case.
pub record TaskRuntimeState : Type 0 where
  pub serialized : Option String
  pub debug_lowercase : String

pub record TaskUpdatedEvent : Type 0 where
  pub session_id : SessionKey
  pub task_id : TaskId
  pub title : String
  pub state : TaskRuntimeState
  pub runtime_detail : Option String

pub record TaskOutputDeltaEvent : Type 0 where
  pub session_id : SessionKey
  pub task_id : TaskId
  pub cursor : OutputCursor

pub record ProgressUpdatedEvent : Type 0 where
  pub session_id : SessionKey
  pub turn_id : Option TurnId
  pub progress_pct : Option F32
  pub label : Option String
  pub message : Option String

pub record TurnCompletedEvent : Type 0 where
  pub session_id : SessionKey
  pub turn_id : TurnId
  pub cursor : Option UiCursor

pub record TurnErrorEvent : Type 0 where
  pub session_id : SessionKey
  pub turn_id : TurnId
  pub code : String
  pub message : String

pub record WarningEvent : Type 0 where
  pub session_id : SessionKey
  pub code : String
  pub message : String

pub record VisualSucceededEvent : Type 0 where
  pub session_id : SessionKey
  pub kind : String
  pub files : List String

-- `context_state` is carried as its JSON.
pub record CompactionEvent : Type 0 where
  pub token_estimate_before : ℕ
  pub token_estimate_after : Option ℕ
  pub dropped_count : ℕ
  pub context_state : JsonValue

pub data Notification : Type 0 where
  session_opened : SessionKey → Notification
  turn_started : TurnStartedEvent → Notification
  message_delta reasoning_delta : DeltaEvent → Notification
  tool_started : ToolStartedEvent → Notification
  tool_progress : ToolProgressEvent → Notification
  tool_completed : ToolCompletedEvent → Notification
  approval_requested : ApprovalRequestedEvent → Notification
  approval_auto_resolved : ApprovalAutoResolvedEvent → Notification
  approval_decided : ApprovalDecidedEvent → Notification
  approval_cancelled : ApprovalCancelledEvent → Notification
  task_updated : TaskUpdatedEvent → Notification
  task_output_delta : TaskOutputDeltaEvent → Notification
  progress_updated : ProgressUpdatedEvent → Notification
  warning : WarningEvent → Notification
  turn_completed : TurnCompletedEvent → Notification
  turn_error : TurnErrorEvent → Notification
  -- The last durable sequence number, and the number of dropped events.
  replay_lossy : Option ℕ → ℕ → Notification
  -- The session, and the title, kind or reason.
  user_question_requested visual_generating : SessionKey → String → Notification
  visual_succeeded : VisualSucceededEvent → Notification
  visual_failed : SessionKey → Option String → Notification
  -- From which provider, to which, and why.
  router_failover : String → String → String → Notification
  file_attached : SessionKey → Notification
  context_compaction_completed : CompactionEvent → Notification
  context_normalization_reported : JsonValue → Notification
  turn_spawn_complete agent_updated agent_output_delta agent_artifact_updated : Notification
  session_orchestration session_event_bridged session_goal_updated : Notification
  session_goal_cleared loop_updated loop_fired loop_completed monitor_updated : Notification
  monitor_fired monitor_expired router_status queue_state voice_exit : Notification
  voice_audio_chunk envelope envelope_v2 skill_action_job_updated peer_staged : Notification
  peer_closed plan_updated context_compaction_started : Notification
