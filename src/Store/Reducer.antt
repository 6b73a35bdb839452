-- ===== src/Store/Reducer.antt =====
-- app/crates/octos-app-store/src/state.rs: `reduce` and the functions that it dispatches to.
pub mod Cursor
pub mod Validity
pub mod Streaming
pub mod Ending
pub mod Activity
pub mod Leaving
use octos_one.Prelude.{
  Bool, true, false, Option, none, some, List, [], ◌∷◌, opt_eq, if◌then◌else◌, string_eq, map,
}
use octos_one.Prelude.Map.{Map, insert, remove}
use octos_one.Store.Ids.{SessionKey, DateTime, UiCursor}
use octos_one.Store.Auth
use octos_one.Store.Navigation.{NavigationEvent, Place, home}
use octos_one.Store.Navigation
use octos_one.Store.Sessions.{Session, SessionMap, insert_session, remove_session}
use octos_one.Store.Approvals.{requested}
use octos_one.Store.Toasts.{push, dismiss_oldest, default_queue}
use octos_one.Store.Events.{
  Notification, session_opened, turn_started, message_delta, reasoning_delta, tool_started,
  tool_progress, tool_completed, approval_requested, approval_auto_resolved, approval_decided,
  approval_cancelled, task_updated, task_output_delta, progress_updated, warning, turn_completed,
  turn_error, replay_lossy, user_question_requested, visual_generating, visual_succeeded,
  visual_failed, router_failover, file_attached, context_compaction_completed,
  context_normalization_reported,
}
use octos_one.Store.Model.{
  AppState, default_ephemeral, ConnectionState, connected, reconnecting, offline, ConnectionEvent,
  connected_event, reconnecting_event, offline_event, SnapshotEvent, sessions_hydrated,
  session_removed, file_meta_hydrated, Event, protocol, auth_event, navigation_event, snapshot,
  connection_event, toast, dismiss_oldest_toast, mark_streaming,
}
use octos_one.Store.Handlers.{
  on_turn_started, on_message_delta, on_reasoning_delta, on_tool_started, on_tool_progress,
  on_tool_completed, on_task_updated, on_task_output_delta, on_warning, set_cursor,
  on_turn_completed, on_turn_error, on_progress_updated, on_approval_auto_resolved,
  on_approval_decided, on_approval_cancelled, on_replay_lossy, on_user_question,
  on_visual_generating, on_visual_succeeded, on_visual_failed, on_router_failover,
  on_context_compaction,
}

-- The session for which a notification advances the cursor.
unfoldable pub route_session : Notification → Option SessionKey
route_session (session_opened sid) = some sid
route_session (turn_started e) = some e.session_id
route_session (message_delta e) = some e.session_id
route_session (tool_started e) = some e.session_id
route_session (tool_progress e) = some e.session_id
route_session (tool_completed e) = some e.session_id
route_session (approval_requested e) = some e.session_id
route_session (approval_auto_resolved e) = some e.session_id
route_session (task_updated e) = some e.session_id
route_session (task_output_delta e) = some e.session_id
route_session (progress_updated e) = some e.session_id
route_session (warning e) = some e.session_id
route_session (turn_completed e) = some e.session_id
route_session (turn_error e) = some e.session_id
route_session (reasoning_delta e) = some e.session_id
route_session (approval_decided e) = some e.session_id
route_session (approval_cancelled e) = some e.session_id
route_session (user_question_requested sid title) = some sid
route_session (visual_generating sid kind) = some sid
route_session (visual_succeeded e) = some e.session_id
route_session (visual_failed sid reason) = some sid
route_session (file_attached sid) = some sid
route_session _ = none

-- The cursor advance at the head of `apply_protocol`.
unfoldable pub advance : Option UiCursor → Option SessionKey → AppState → AppState
advance cursor none st = st
advance cursor (some sid) st = record st { cursor = set_cursor cursor sid st.cursor }

-- The `match` of `apply_protocol`.
unfoldable pub handle : DateTime → Notification → AppState → AppState
handle now (session_opened sid) st = mark_streaming sid false st
handle now (turn_started e) st = on_turn_started now e st
handle now (message_delta e) st = on_message_delta e st
handle now (tool_started e) st = on_tool_started now e st
handle now (tool_progress e) st = on_tool_progress now e st
handle now (tool_completed e) st = on_tool_completed now e st
handle now (approval_requested e) st = record st { approvals = requested st.approvals e }
handle now (task_updated e) st = on_task_updated now e st
handle now (task_output_delta e) st = on_task_output_delta now e st
handle now (warning e) st = on_warning e st
handle now (turn_completed e) st = on_turn_completed now e st
handle now (turn_error e) st = on_turn_error now e st
handle now (progress_updated e) st = on_progress_updated now e st
handle now (approval_auto_resolved e) st = on_approval_auto_resolved e st
handle now (approval_decided e) st = on_approval_decided e st
handle now (approval_cancelled e) st = on_approval_cancelled e st
handle now (replay_lossy last dropped) st = on_replay_lossy last dropped st
handle now (reasoning_delta e) st = on_reasoning_delta e st
handle now (user_question_requested sid title) st = on_user_question title st
handle now (visual_generating sid kind) st = on_visual_generating kind st
handle now (visual_succeeded e) st = on_visual_succeeded e st
handle now (visual_failed sid reason) st = on_visual_failed reason st
handle now (router_failover from to reason) st = on_router_failover from to reason st
handle now (context_compaction_completed e) st = on_context_compaction e st
handle now (context_normalization_reported c) st = record st { context = some c }
handle now _ st = st

unfoldable pub apply_protocol : DateTime → Option UiCursor → Notification → AppState → AppState
apply_protocol now cursor n st = handle now n (advance cursor (route_session n) st)

insert_all : SessionMap → List Session → SessionMap
insert_all m [] = m
insert_all m (s ∷ ss) = insert_all (insert_session m s) ss

unfoldable pub apply_snapshot : SnapshotEvent → AppState → AppState
unfolding insert_all
apply_snapshot (sessions_hydrated list) st = record st { sessions = insert_all st.sessions list }
apply_snapshot (session_removed id) st =
    let here = opt_eq st.current_session (some id) in
    record st {
      sessions = (remove_session st.sessions id).0;
      current_session = if here then none else st.current_session;
      navigation = if here then home else st.navigation;
      cursor = remove id st.cursor;
    }
apply_snapshot (file_meta_hydrated meta) st = record st { files = insert meta.handle meta st.files }

logging_out : NavigationEvent → Bool
logging_out NavigationEvent.logout = true
logging_out _ = false

unfoldable pub apply_navigation : NavigationEvent → AppState → AppState
unfolding logging_out
apply_navigation ev st =
    let place =
      Navigation.reduce (record { screen = st.navigation; current_session = st.current_session })
        ev in
    let moved = record st { navigation = place.screen; current_session = place.current_session } in
    if logging_out ev
    then record moved { ephemeral = default_ephemeral; toasts = default_queue }
    else moved

abbrev pub connection_of : ConnectionEvent → ConnectionState
connection_of connected_event = connected
connection_of reconnecting_event = reconnecting
connection_of offline_event = offline

unfoldable pub reduce : DateTime → AppState → Event → AppState
reduce now st (auth_event ev) = record st { auth = Auth.reduce st.auth ev }
reduce now st (navigation_event ev) = apply_navigation ev st
reduce now st (snapshot ev) = apply_snapshot ev st
reduce now st (connection_event ev) = record st { connection = connection_of ev }
reduce now st (toast t) = record st { toasts = push st.toasts t }
reduce now st dismiss_oldest_toast = record st { toasts = (dismiss_oldest st.toasts).0 }
reduce now st (protocol cursor n) = apply_protocol now cursor n st

-- A history: events with the times at which they were applied.
unfoldable pub run : AppState → List (DateTime × Event) → AppState
run st [] = st
run st ((now, ev) ∷ evs) = run (reduce now st ev) evs
