-- ===== src/Store/Handlers.antt =====
-- app/crates/octos-app-store/src/state.rs: what `apply_protocol` does for each notification. `now`
-- is the time that the reducer reads from the clock.
use octos_one.Prelude.{
  ℕ, String, Bool, true, false, Option, none, some, [], ◌∷◌, ◌==◌, ◌&&◌, ◌||◌, ◌/◌, not,
  if◌then◌else◌, eqb, length, or_else, unwrap_or, string_eq, nat_eq,
}
use octos_one.Prelude.Map.{Map, insert, remove, update, or_insert, map_values}
use octos_one.Prelude.Text.{concat, show}
use octos_one.Store.Ids.{SessionKey, TurnId, DateTime, UiCursor}
use octos_one.Store.Turns.{Turn, started, mark_completed, mark_error}
use octos_one.Store.Turns
use octos_one.Store.Tasks.{Task, ToolCall, new_task, tool_started, is_complete}
use octos_one.Store.Tasks
use octos_one.Store.Approvals.{ApprovalDecision, approve, deny, unknown, decided, cancelled}
use octos_one.Store.Toasts.{error, reconnecting, info}
use octos_one.Store.Events.{
  TurnStartedEvent, DeltaEvent, ToolStartedEvent, ToolProgressEvent, ToolCompletedEvent,
  ApprovalAutoResolvedEvent, ApprovalDecidedEvent, ApprovalCancelledEvent, TaskUpdatedEvent,
  TaskOutputDeltaEvent, ProgressUpdatedEvent, TurnCompletedEvent, TurnErrorEvent, WarningEvent,
  VisualSucceededEvent, CompactionEvent,
}
use octos_one.Store.Model.{
  AppState, Ephemeral, notify, task_runtime_state_wire, task_runtime_state_is_terminal,
  mark_streaming, mark_active_task, recompute_active,
}

unfoldable pub on_turn_started : DateTime → TurnStartedEvent → AppState → AppState
on_turn_started now e st =
    let present = or_insert e.turn_id (started e.turn_id e.session_id now) st.turns in
    let turns = update e.turn_id (λ t. record t { started_at = e.timestamp }) present in
    mark_streaming e.session_id true (record st { turns = turns })

-- `entry(k).or_default().push_str(text)`.
unfoldable pub push_str : TurnId → String → Map TurnId String → Map TurnId String
push_str k text m = update k (λ s. concat (s ∷ text ∷ [])) (or_insert k "" m)

unfoldable pub on_message_delta : DeltaEvent → AppState → AppState
on_message_delta e st = mark_streaming e.session_id true (record st {
  ephemeral = record st.ephemeral {
    streaming_text = push_str e.turn_id e.text st.ephemeral.streaming_text;
  };
  turns = update e.turn_id Turns.mark_streaming st.turns;
})

unfoldable pub on_reasoning_delta : DeltaEvent → AppState → AppState
on_reasoning_delta e st = mark_streaming e.session_id true (record st {
  ephemeral = record st.ephemeral {
    thinking_text = push_str e.turn_id e.text st.ephemeral.thinking_text;
  };
  turns = update e.turn_id Turns.mark_streaming st.turns;
})

unfoldable pub on_tool_started : DateTime → ToolStartedEvent → AppState → AppState
on_tool_started now e st =
    let call = tool_started e.tool_call_id e.session_id e.turn_id e.tool_name e.arguments now in
    mark_active_task e.session_id true
      (record st { tool_calls = insert e.tool_call_id call st.tool_calls })

abbrev pub set_progress : Option ℕ → ToolCall → ToolCall
set_progress none tc = tc
set_progress (some p) tc = record tc { progress_pct = some p }

unfoldable pub on_tool_progress : DateTime → ToolProgressEvent → AppState → AppState
on_tool_progress now e st =
    let stub = tool_started e.tool_call_id e.session_id e.turn_id "<unknown>" none now in
    let present = or_insert e.tool_call_id stub st.tool_calls in
    record st { tool_calls = update e.tool_call_id (set_progress e.progress_pct) present }

-- `success != Some(false)`.
abbrev pub not_failed : Option Bool → Bool
not_failed (some false) = false
not_failed _ = true

unfoldable pub is_memory_save : ToolCompletedEvent → Bool
is_memory_save e =
    (e.tool_name == "memory_note" || e.tool_name == "save_memory") && not_failed e.success

unfoldable pub on_tool_completed : DateTime → ToolCompletedEvent → AppState → AppState
on_tool_completed now e st =
    let done = Tasks.mark_completed e.success e.output_preview now in
    let st' = record st { tool_calls = update e.tool_call_id done st.tool_calls } in
    recompute_active e.session_id
      (if is_memory_save e then notify info "🧠 Memory saved" st' else st')

-- The fields of a task that `task/updated` sets.
unfoldable pub refresh_task : DateTime → TaskUpdatedEvent → Task → Task
refresh_task now e t = record t {
  runtime_state = task_runtime_state_wire e.state;
  summary = some e.title;
  lifecycle_state = unwrap_or e.runtime_detail t.lifecycle_state;
  last_updated = now;
}

unfoldable pub on_task_updated : DateTime → TaskUpdatedEvent → AppState → AppState
on_task_updated now e st =
    let present = or_insert e.task_id (new_task e.task_id e.session_id now) st.tasks in
    let st' = record st { tasks = update e.task_id (refresh_task now e) present } in
    if not (task_runtime_state_is_terminal e.state)
    then mark_active_task e.session_id true st'
    else recompute_active e.session_id st'

unfoldable pub on_task_output_delta : DateTime → TaskOutputDeltaEvent → AppState → AppState
on_task_output_delta now e st =
    let seen = λ (t : Task). record t { last_cursor = some e.cursor; last_updated = now } in
    record st { tasks = update e.task_id seen st.tasks }

unfoldable pub on_warning : WarningEvent → AppState → AppState
on_warning e st = notify info (concat (e.code ∷ ": " ∷ e.message ∷ [])) st

-- Both buffers of a turn are dropped when it ends.
abbrev pub drop_buffers : TurnId → Ephemeral → Ephemeral
drop_buffers id e = record {
  streaming_text = remove id e.streaming_text;
  thinking_text = remove id e.thinking_text;
}

-- The write of a cursor that may be absent.
abbrev pub set_cursor :
    Option UiCursor → SessionKey → Map SessionKey UiCursor → Map SessionKey UiCursor
set_cursor none sid m = m
set_cursor (some c) sid m = insert sid c m

unfoldable pub on_turn_completed : DateTime → TurnCompletedEvent → AppState → AppState
on_turn_completed now e st =
    let ended = record st {
      turns = update e.turn_id (mark_completed now) st.turns;
      ephemeral = drop_buffers e.turn_id st.ephemeral;
      cursor = set_cursor e.cursor e.session_id st.cursor;
    } in
    recompute_active e.session_id (mark_streaming e.session_id false ended)

unfoldable pub on_turn_error : DateTime → TurnErrorEvent → AppState → AppState
on_turn_error now e st =
    let ended = record st {
      turns = update e.turn_id (mark_error e.code e.message now) st.turns;
      ephemeral = drop_buffers e.turn_id st.ephemeral;
    } in
    notify error e.message (recompute_active e.session_id (mark_streaming e.session_id false ended))

-- The tool calls that a fraction reported for a turn reaches.
abbrev pub spread_progress : Option ℕ → Option TurnId → ToolCall → ToolCall
spread_progress (some p) (some tid) tc =
    if tc.turn_id == tid && not (is_complete tc) then record tc { progress_pct = some p } else tc
spread_progress _ _ tc = tc

-- The tasks that a label reported for a session reaches.
abbrev pub relabel : DateTime → SessionKey → Option String → Task → Task
relabel now sid none t = t
relabel now sid (some label) t =
    if t.session_id == sid && not (t.runtime_state == "completed" || t.runtime_state == "failed")
    then record t { summary = some label; last_updated = now }
    else t

unfoldable pub on_progress_updated : DateTime → ProgressUpdatedEvent → AppState → AppState
on_progress_updated now e st = record st {
  tool_calls = map_values (spread_progress e.progress_pct e.turn_id) st.tool_calls;
  tasks = map_values (relabel now e.session_id (or_else e.label e.message)) st.tasks;
}

abbrev pub auto_resolved_message : ApprovalDecision → String → String
auto_resolved_message approve scope = concat ("Auto-approved" ∷ " (" ∷ scope ∷ " scope)" ∷ [])
auto_resolved_message deny scope = concat ("Auto-denied" ∷ " (" ∷ scope ∷ " scope)" ∷ [])
auto_resolved_message (unknown s) scope =
    concat ("Auto-resolved (" ∷ s ∷ ") by " ∷ scope ∷ " scope" ∷ [])

unfoldable pub on_approval_auto_resolved : ApprovalAutoResolvedEvent → AppState → AppState
on_approval_auto_resolved e st =
    notify info (auto_resolved_message e.decision e.scope)
      (record st { approvals = decided st.approvals e.approval_id e.decision })

unfoldable pub on_approval_decided : ApprovalDecidedEvent → AppState → AppState
on_approval_decided e st = record st { approvals = decided st.approvals e.approval_id e.decision }

unfoldable pub on_approval_cancelled : ApprovalCancelledEvent → AppState → AppState
on_approval_cancelled e st =
    notify info (concat ("Approval cancelled: " ∷ e.reason ∷ []))
      (record st { approvals = cancelled st.approvals e.approval_id e.reason })

abbrev pub cursor_hint : Option ℕ → String
cursor_hint none = ""
cursor_hint (some seq) = concat ("; last durable seq " ∷ show seq ∷ [])

unfoldable pub on_replay_lossy : Option ℕ → ℕ → AppState → AppState
on_replay_lossy last dropped st =
    notify reconnecting
      (concat ("Replay lossy: " ∷ show dropped ∷ " dropped" ∷ cursor_hint last ∷ [])) st

unfoldable pub on_user_question : String → AppState → AppState
on_user_question title st = notify info (concat ("Agent asks: " ∷ title ∷ [])) st

unfoldable pub on_visual_generating : String → AppState → AppState
on_visual_generating kind st = notify info (concat ("Generating " ∷ kind ∷ "…" ∷ [])) st

unfoldable pub on_visual_succeeded : VisualSucceededEvent → AppState → AppState
on_visual_succeeded e st =
    let n = length e.files in
    let plural = if eqb n 1 then "" else "s" in
    notify info (concat (e.kind ∷ " ready (" ∷ show n ∷ " file" ∷ plural ∷ ")" ∷ [])) st

unfoldable pub on_visual_failed : Option String → AppState → AppState
on_visual_failed reason st =
    notify error (concat ("Visual generation failed: " ∷ unwrap_or reason "unknown" ∷ [])) st

unfoldable pub on_router_failover : String → String → String → AppState → AppState
on_router_failover from to reason st =
    notify info (concat ("Provider failover " ∷ from ∷ " → " ∷ to ∷ " (" ∷ reason ∷ ")" ∷ [])) st

unfoldable pub on_context_compaction : CompactionEvent → AppState → AppState
on_context_compaction e st =
    let before = e.token_estimate_before in
    let after = unwrap_or e.token_estimate_after before in
    notify info
      (concat (
        "Context compacted — "
        ∷ show e.dropped_count
        ∷ " msgs summarized, ~"
        ∷ show (before / 1000)
        ∷ "k→"
        ∷ show (after / 1000)
        ∷ "k tokens"
        ∷ []))
      (record st { context = some e.context_state })
