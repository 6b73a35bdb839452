-- ===== src/Store/Reducer/Activity.antt =====
-- The sidebar's activity flags (app/crates/octos-app-store/src/state.rs).
use octos_one.Prelude.{
  ◌≡◌, Option, some, Bool, true, false, ◌==◌, nat_eq, string_eq, arith, [], ◌∷◌, Bool-cases, inl,
  inr, any, PartialEq,
}
use octos_one.Prelude.Map.{
  Map, get, update, or_insert, get-insert, get-update, contains_key, values,
}
use octos_one.Store.Ids.{SessionKey, TaskId, DateTime, UiCursor}
use octos_one.Store.Sessions.{Session, modify, get_session}
use octos_one.Store.Tasks.{Task, new_task}
use octos_one.Store.Events.{
  tool_completed, task_updated, turn_completed, turn_error, ToolCompletedEvent, TaskUpdatedEvent,
  TurnCompletedEvent, TurnErrorEvent,
}
use octos_one.Store.Model.{
  AppState, task_runtime_state_is_terminal, has_open_work, recompute_active, mark_active_task,
  mark_streaming, set_active_task, is_open_task,
}
use octos_one.Store.Turns.{mark_error}
use octos_one.Store.Handlers.{
  drop_buffers, set_cursor, refresh_task, on_task_updated, on_tool_completed, on_turn_completed,
  on_turn_error,
}
use octos_one.Store.Reducer.{route_session, advance, handle, apply_protocol}

-- The flag says whether some tool call or task of the session is open.
abbrev pub IsFlagged : SessionKey → AppState → Type 0
IsFlagged sid st =
    (s : Session) → get_session st.sessions sid ≡ some s → s.has_active_task ≡ has_open_work st sid

mark_active_task-flag :
    (sid : SessionKey) (b : Bool) (st : AppState) (s : Session)
    → get_session (mark_active_task sid b st).sessions sid ≡ some s
    → s.has_active_task ≡ b
unfolding mark_active_task modify get_session
mark_active_task-flag sid b st s h =
    ground
      (arith, get-update sid sid (set_active_task b) st.sessions.by_id, string_eq.same_iff sid sid)

recompute_active-IsFlagged :
    (sid : SessionKey) (st : AppState) → IsFlagged sid (recompute_active sid st)
unfolding recompute_active has_open_work mark_active_task
recompute_active-IsFlagged sid st s h = mark_active_task-flag sid (has_open_work st sid) st s h

-- An entry that was just changed to satisfy a test makes the search succeed.
any-update {ℓ} :
    {K V : Type ℓ} ⦃e : PartialEq K⦄ (p : V → Bool) (k : K) (f : V → V) (m : Map K V)
    → contains_key k m ≡ true
    → ((v : V) → get k m ≡ some v → p (f v) ≡ true)
    → any p (values (update k f m)) ≡ true
unfolding any update get
any-update ⦃e⦄ p k f [] h q = cc
any-update ⦃e⦄ p k f ((j, v) ∷ m) h q = elim (Bool-cases (j == k)) [
  | inl hit ↦ ground (arith, hit, q v)
  | inr miss ↦ ground (arith, miss, any-update p k f m (rw miss at h) (λ v' g. q v' (rw miss g)))
]

-- The task that the update concerns belongs to the update's session, if it is known.
abbrev pub IsOwn : TaskUpdatedEvent → AppState → Type 0
IsOwn e st = (t : Task) → get e.task_id st.tasks ≡ some t → t.session_id ≡ e.session_id

contains-or_insert :
    (id : TaskId) (t : Task) (m : Map TaskId Task) → contains_key id (or_insert id t m) ≡ true
contains-or_insert id t m = ground (arith, get-insert id id t m, nat_eq.same_iff id id)

-- A task that is not in a final state, once written to the map, counts as open work.
written-is-open :
    (now : DateTime) (e : TaskUpdatedEvent) (st : AppState)
    → IsOwn e st
    → task_runtime_state_is_terminal e.state ≡ false
    → any (is_open_task e.session_id) (
        values (
          update e.task_id
            (refresh_task now e)
            (or_insert e.task_id (new_task e.task_id e.session_id now) st.tasks)))
      ≡ true
unfolding refresh_task task_runtime_state_is_terminal
written-is-open now e st own unfinished =
    any-update (is_open_task e.session_id) e.task_id (refresh_task now e) _
      (contains-or_insert e.task_id _ st.tasks)
      λ t h. ground (
        arith,
        get-insert e.task_id e.task_id (new_task e.task_id e.session_id now) st.tasks,
        own t,
        string_eq.same_iff t.session_id e.session_id,
      )

on_task_updated-IsFlagged :
    (now : DateTime) (e : TaskUpdatedEvent) (st : AppState)
    → IsOwn e st
    → IsFlagged e.session_id (on_task_updated now e st)
unfolding on_task_updated has_open_work mark_active_task
on_task_updated-IsFlagged now e st own =
    elim (Bool-cases (task_runtime_state_is_terminal e.state)) [
      | inl final ↦ rw final (recompute_active-IsFlagged e.session_id _)
      | inr more ↦ rw more (λ s h. ground (
        arith,
        mark_active_task-flag e.session_id true
            (record st {
              tasks =
                  update e.task_id (refresh_task now e)
                    (or_insert e.task_id (new_task e.task_id e.session_id now) st.tasks);
            })
            s h,
        written-is-open now e st own more,
      ))
    ]

-- The state in which a failed turn leaves the reducer before it recomputes the flag.
abbrev failed_turn : DateTime → TurnErrorEvent → AppState → AppState
failed_turn now e st = mark_streaming e.session_id false (record st {
  turns = update e.turn_id (mark_error e.code e.message now) st.turns;
  ephemeral = drop_buffers e.turn_id st.ephemeral;
})

-- The flag of the session is true to the facts, that is, set exactly when a tool call or a task of
-- the session is open, after every notification that may settle work of the session: the end of a
-- tool call, the end or failure of a turn, and an update of a task that is new or the session's own.
pub apply_protocol-IsFlagged :
    (now : DateTime) (c : Option UiCursor) (st : AppState)
    → ((e : ToolCompletedEvent)
        → IsFlagged e.session_id (apply_protocol now c (tool_completed e) st))
      × ((e : TurnCompletedEvent)
          → IsFlagged e.session_id (apply_protocol now c (turn_completed e) st))
      × ((e : TurnErrorEvent) → IsFlagged e.session_id (apply_protocol now c (turn_error e) st))
      × ((e : TaskUpdatedEvent)
          → IsOwn e st
          → IsFlagged e.session_id (apply_protocol now c (task_updated e) st))
unfolding apply_protocol handle advance route_session on_tool_completed on_turn_completed
    on_turn_error has_open_work
apply_protocol-IsFlagged now c st = (
  λ e. recompute_active-IsFlagged e.session_id _,
  λ e. recompute_active-IsFlagged e.session_id _,
  λ e.
      recompute_active-IsFlagged e.session_id
        (failed_turn now e (record st { cursor = set_cursor c e.session_id st.cursor })),
  λ e own. on_task_updated-IsFlagged now e _ own,
)
