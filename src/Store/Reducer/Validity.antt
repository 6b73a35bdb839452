-- ===== src/Store/Reducer/Validity.antt =====
-- The invariant of `AppState` (app/crates/octos-app-store/src/state.rs), kept by every event.
use octos_one.Prelude.{
  ◌≡◌, Option, none, some, arith, List, [], ◌∷◌, opt_eq, string_eq, Bool-cases, inl, inr,
}
use octos_one.Store.Ids.{SessionKey, DateTime, UiCursor}
use octos_one.Store.Approvals.Invariant.{
  IsWellFormed, step-IsWellFormed, new-IsWellFormed, step, requests, decides, cancels,
}
use octos_one.Store.Sessions.{insert_session, SessionMap, Session}
use octos_one.Store.Sessions.Order.{
  IsIndexed, new-IsIndexed, insert_session-IsIndexed, remove_session-IsIndexed, modify-IsIndexed,
}
use octos_one.Store.Toasts.{default_queue}
use octos_one.Store.Toasts.Bounds.{IsBounded, push-IsBounded, dismiss_oldest-IsBounded}
use octos_one.Store.Navigation.{
  CurrentScreen, chat, home, login, studio_screen, NavigationEvent, Place, navigate_to,
  open_session, open_project, studio, slides, sites, logout,
}
use octos_one.Store.Navigation
use octos_one.Store.Events.{
  Notification, session_opened, turn_completed, tool_completed, task_updated, approval_requested,
  approval_decided, approval_cancelled, approval_auto_resolved, warning, turn_error, turn_started,
  message_delta, reasoning_delta, tool_started, user_question_requested, visual_generating,
  visual_succeeded, visual_failed, router_failover, replay_lossy, context_compaction_completed,
}
use octos_one.Store.Model.{
  AppState, Event, protocol, new, task_runtime_state_is_terminal, SnapshotEvent, sessions_hydrated,
  session_removed, file_meta_hydrated, navigation_event, snapshot, toast, dismiss_oldest_toast,
}
use octos_one.Store.Handlers.{is_memory_save}
use octos_one.Store.Opened.{handlers}
use octos_one.Store.Reducer.{
  route_session, advance, handle, apply_protocol, reduce, run, insert_all, apply_snapshot,
  apply_navigation,
}

handle-approvals :
    (now : DateTime) (n : Notification) (st : AppState)
    → IsWellFormed st.approvals
    → IsWellFormed (handle now n st).approvals
unfolding handle handlers step
handle-approvals now (session_opened sid) st v = v
handle-approvals now (approval_requested e) st v = step-IsWellFormed st.approvals (requests e) v
handle-approvals now (approval_decided e) st v =
    step-IsWellFormed st.approvals (decides e.approval_id e.decision) v
handle-approvals now (approval_auto_resolved e) st v =
    step-IsWellFormed st.approvals (decides e.approval_id e.decision) v
handle-approvals now (approval_cancelled e) st v =
    step-IsWellFormed st.approvals (cancels e.approval_id e.reason) v
handle-approvals now (tool_completed e) st v = elim (Bool-cases (is_memory_save e)) [
  | inl h ↦ rw h v
  | inr h ↦ rw h v
]
handle-approvals now (task_updated e) st v =
    elim (Bool-cases (task_runtime_state_is_terminal e.state)) [ inl h ↦ rw h v | inr h ↦ rw h v ]
handle-approvals now _ st v = v

handle-toasts :
    (now : DateTime) (n : Notification) (st : AppState)
    → IsBounded st.toasts
    → IsBounded (handle now n st).toasts
unfolding handle handlers
handle-toasts now (session_opened sid) st v = v
handle-toasts now (approval_auto_resolved e) st v = push-IsBounded st.toasts _ v
handle-toasts now (approval_cancelled e) st v = push-IsBounded st.toasts _ v
handle-toasts now (warning e) st v = push-IsBounded st.toasts _ v
handle-toasts now (turn_error e) st v = push-IsBounded st.toasts _ v
handle-toasts now (replay_lossy last dropped) st v = push-IsBounded st.toasts _ v
handle-toasts now (user_question_requested sid title) st v = push-IsBounded st.toasts _ v
handle-toasts now (visual_generating sid kind) st v = push-IsBounded st.toasts _ v
handle-toasts now (visual_succeeded e) st v = push-IsBounded st.toasts _ v
handle-toasts now (visual_failed sid reason) st v = push-IsBounded st.toasts _ v
handle-toasts now (router_failover from to reason) st v = push-IsBounded st.toasts _ v
handle-toasts now (context_compaction_completed e) st v = push-IsBounded st.toasts _ v
handle-toasts now (tool_completed e) st v = elim (Bool-cases (is_memory_save e)) [
  | inl h ↦ rw h (push-IsBounded st.toasts _ v)
  | inr h ↦ rw h v
]
handle-toasts now (task_updated e) st v =
    elim (Bool-cases (task_runtime_state_is_terminal e.state)) [ inl h ↦ rw h v | inr h ↦ rw h v ]
handle-toasts now _ st v = v

handle-sessions :
    (now : DateTime) (n : Notification) (st : AppState)
    → IsIndexed st.sessions
    → IsIndexed (handle now n st).sessions
unfolding handle handlers
handle-sessions now (session_opened sid) st v = modify-IsIndexed sid _ _ v
handle-sessions now (turn_started e) st v = modify-IsIndexed e.session_id _ _ v
handle-sessions now (message_delta e) st v = modify-IsIndexed e.session_id _ _ v
handle-sessions now (reasoning_delta e) st v = modify-IsIndexed e.session_id _ _ v
handle-sessions now (tool_started e) st v = modify-IsIndexed e.session_id _ _ v
handle-sessions now (turn_completed e) st v =
    modify-IsIndexed e.session_id _ _ (modify-IsIndexed e.session_id _ _ v)
handle-sessions now (turn_error e) st v =
    modify-IsIndexed e.session_id _ _ (modify-IsIndexed e.session_id _ _ v)
handle-sessions now (tool_completed e) st v = elim (Bool-cases (is_memory_save e)) [
  | inl h ↦ rw h (modify-IsIndexed e.session_id _ st.sessions v)
  | inr h ↦ rw h (modify-IsIndexed e.session_id _ st.sessions v)
]
handle-sessions now (task_updated e) st v =
    elim (Bool-cases (task_runtime_state_is_terminal e.state)) [
      | inl h ↦ rw h (modify-IsIndexed e.session_id _ st.sessions v)
      | inr h ↦ rw h (modify-IsIndexed e.session_id _ st.sessions v)
    ]
handle-sessions now _ st v = v

-- A chat screen shows the current session.
abbrev pub IsInStep : CurrentScreen → Option SessionKey → Type 0
IsInStep screen current = (s : Option SessionKey) → screen ≡ chat s → current ≡ s

handle-place :
    (now : DateTime) (n : Notification) (st : AppState)
    → IsInStep st.navigation st.current_session
    → IsInStep (handle now n st).navigation (handle now n st).current_session
unfolding handle handlers
handle-place now (session_opened sid) st v = v
handle-place now (tool_completed e) st v = elim (Bool-cases (is_memory_save e)) [
  | inl h ↦ rw h v
  | inr h ↦ rw h v
]
handle-place now (task_updated e) st v =
    elim (Bool-cases (task_runtime_state_is_terminal e.state)) [ inl h ↦ rw h v | inr h ↦ rw h v ]
handle-place now _ st v = v

pub record IsValid (st : AppState) : Type 0 where
  pub approvals : IsWellFormed st.approvals
  pub sessions : IsIndexed st.sessions
  pub toasts : IsBounded st.toasts
  pub place : IsInStep st.navigation st.current_session

default_queue-IsBounded : IsBounded default_queue
unfolding default_queue
default_queue-IsBounded = record { room = omega arith; within = omega arith }

pub new-IsValid : IsValid new
unfolding new
new-IsValid = record {
  approvals = new-IsWellFormed;
  sessions = new-IsIndexed;
  toasts = default_queue-IsBounded;
  place = λ s e. cc;
}

advance-IsValid :
    (c : Option UiCursor) (r : Option SessionKey) (st : AppState)
    → IsValid st
    → IsValid (advance c r st)
unfolding advance
advance-IsValid c none st v = v
advance-IsValid c (some sid) st v = record {
  approvals = v.approvals;
  sessions = v.sessions;
  toasts = v.toasts;
  place = v.place;
}

handle-IsValid :
    (now : DateTime) (n : Notification) (st : AppState) → IsValid st → IsValid (handle now n st)
handle-IsValid now n st v = record {
  approvals = handle-approvals now n st v.approvals;
  sessions = handle-sessions now n st v.sessions;
  toasts = handle-toasts now n st v.toasts;
  place = handle-place now n st v.place;
}

insert_all-IsIndexed :
    (m : SessionMap) (ss : List Session) → IsIndexed m → IsIndexed (insert_all m ss)
unfolding insert_all
insert_all-IsIndexed m [] v = v
insert_all-IsIndexed m (s ∷ ss) v =
    insert_all-IsIndexed (insert_session m s) ss (insert_session-IsIndexed m s v)

home_not_chat : (s : Option SessionKey) → home ≡ chat s → ⊥
home_not_chat s e = cc

apply_snapshot-IsValid :
    (ev : SnapshotEvent) (st : AppState) → IsValid st → IsValid (apply_snapshot ev st)
unfolding apply_snapshot
apply_snapshot-IsValid (sessions_hydrated list) st v = record {
  approvals = v.approvals;
  sessions = insert_all-IsIndexed st.sessions list v.sessions;
  toasts = v.toasts;
  place = v.place;
}
apply_snapshot-IsValid (session_removed id) st v = record {
  approvals = v.approvals;
  sessions = remove_session-IsIndexed st.sessions id v.sessions;
  toasts = v.toasts;
  place = λ s e. elim (Bool-cases (opt_eq st.current_session (some id))) [
    | inl here ↦ absurd (home_not_chat s (rw here at e))
    | inr away ↦ rw away (v.place s (rw away at e))
  ];
}
apply_snapshot-IsValid (file_meta_hydrated meta) st v = record {
  approvals = v.approvals;
  sessions = v.sessions;
  toasts = v.toasts;
  place = v.place;
}

reduce-IsInStep :
    (ev : NavigationEvent) (p : Place)
    → IsInStep p.screen p.current_session
    → IsInStep (Navigation.reduce p ev).screen (Navigation.reduce p ev).current_session
unfolding Navigation.reduce
reduce-IsInStep (navigate_to (chat t)) p v s e = cc
reduce-IsInStep (navigate_to target) p v s e = ground arith
reduce-IsInStep (open_session id) p v s e = cc
reduce-IsInStep (open_project studio project) p v s e = cc
reduce-IsInStep (open_project slides project) p v s e = cc
reduce-IsInStep (open_project sites project) p v s e = cc
reduce-IsInStep logout p v s e = cc

apply_navigation-IsValid :
    (ev : NavigationEvent) (st : AppState) → IsValid st → IsValid (apply_navigation ev st)
unfolding apply_navigation
apply_navigation-IsValid logout st v = record {
  approvals = v.approvals;
  sessions = v.sessions;
  toasts = default_queue-IsBounded;
  place = reduce-IsInStep logout _ v.place;
}
apply_navigation-IsValid ev st v = record {
  approvals = v.approvals;
  sessions = v.sessions;
  toasts = v.toasts;
  place =
      reduce-IsInStep ev (record { screen = st.navigation; current_session = st.current_session })
        v.place;
}

-- Every event, at whatever time, keeps the state valid: the approvals are well formed, the sessions
-- are indexed, the toasts are within their capacity, and a chat screen shows the current session.
pub reduce-IsValid :
    (now : DateTime) (st : AppState) (ev : Event) → IsValid st → IsValid (reduce now st ev)
unfolding reduce apply_protocol
reduce-IsValid now st (protocol c n) v =
    handle-IsValid now n _ (advance-IsValid c (route_session n) st v)
reduce-IsValid now st (snapshot ev) v = apply_snapshot-IsValid ev st v
reduce-IsValid now st (navigation_event ev) v = apply_navigation-IsValid ev st v
reduce-IsValid now st (toast t) v = record {
  approvals = v.approvals;
  sessions = v.sessions;
  toasts = push-IsBounded st.toasts t v.toasts;
  place = v.place;
}
reduce-IsValid now st dismiss_oldest_toast v = record {
  approvals = v.approvals;
  sessions = v.sessions;
  toasts = dismiss_oldest-IsBounded st.toasts v.toasts;
  place = v.place;
}
reduce-IsValid now st _ v = record {
  approvals = v.approvals;
  sessions = v.sessions;
  toasts = v.toasts;
  place = v.place;
}

run-IsValid : (st : AppState) (evs : List (DateTime × Event)) → IsValid st → IsValid (run st evs)
unfolding run
run-IsValid st [] v = v
run-IsValid st ((now, ev) ∷ evs) v = run-IsValid (reduce now st ev) evs (reduce-IsValid now st ev v)

-- After any history that begins with the default state, the state is valid.
pub run-new-IsValid : (evs : List (DateTime × Event)) → IsValid (run new evs)
run-new-IsValid evs = run-IsValid new evs new-IsValid
