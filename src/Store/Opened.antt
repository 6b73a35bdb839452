-- ===== src/Store/Opened.antt =====
-- The handlers of app/crates/octos-app-store/src/state.rs, opened together for the proofs about them.
use octos_one.Store.Handlers.{
  on_turn_started, on_message_delta, on_reasoning_delta, on_tool_started, on_tool_progress,
  on_tool_completed, on_task_updated, on_task_output_delta, on_warning, on_turn_completed,
  on_turn_error, on_progress_updated, on_approval_auto_resolved, on_approval_decided,
  on_approval_cancelled, on_replay_lossy, on_user_question, on_visual_generating,
  on_visual_succeeded, on_visual_failed, on_router_failover, on_context_compaction,
}
use octos_one.Store.Model.{mark_streaming, mark_active_task, recompute_active}

-- To unfold this value is to unfold what it names.
unfoldable pub handlers : Unit {0}
unfolding on_turn_started on_message_delta on_reasoning_delta on_tool_started on_tool_progress
    on_tool_completed on_task_updated on_task_output_delta on_warning on_turn_completed
    on_turn_error on_progress_updated on_approval_auto_resolved on_approval_decided
    on_approval_cancelled on_replay_lossy on_user_question on_visual_generating on_visual_succeeded
    on_visual_failed on_router_failover on_context_compaction mark_streaming mark_active_task
    recompute_active
handlers = tt
