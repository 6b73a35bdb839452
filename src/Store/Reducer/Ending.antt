-- ===== src/Store/Reducer/Ending.antt =====
-- A turn that has ended stays ended (app/crates/octos-app-store/src/{state,turns}.rs).
use octos_one.Prelude.{
  ◌≡◌, refl, Option, none, some, Bool, true, false, ◌==◌, nat_eq, string_eq, arith, List, [], ◌∷◌,
  Bool-cases, inl, inr, if◌then◌else◌,
}
use octos_one.Prelude.Map.{Map, get, update, or_insert, get-insert, get-update, map_option}
use octos_one.Store.Ids.{SessionKey, TurnId, DateTime, UiCursor}
use octos_one.Store.Turns.{
  Turn, TurnStatus, is_final, mark_streaming, mark_completed, mark_error, streams, started, pending,
  streaming, completed, errored, interrupted,
}
use octos_one.Store.Navigation.{logout}
use octos_one.Store.Events.{
  Notification, TurnErrorEvent, TurnCompletedEvent, message_delta, reasoning_delta, turn_started,
  turn_completed, turn_error, tool_completed, task_updated, session_opened,
}
use octos_one.Store.Model.{
  AppState, Event, protocol, navigation_event, snapshot, sessions_hydrated, session_removed,
  file_meta_hydrated, task_runtime_state_is_terminal,
}
use octos_one.Store.Handlers.{is_memory_save}
use octos_one.Store.Opened.{handlers}
use octos_one.Store.Reducer.{
  route_session, advance, handle, apply_protocol, apply_snapshot, apply_navigation, reduce, run,
}

abbrev pub is_ended : Option Turn → Bool
is_ended none = false
is_ended (some t) = is_final t.status

-- The turn is known, and its status is a final one.
abbrev pub has_ended : TurnId → Map TurnId Turn → Bool
has_ended tid m = is_ended (get tid m)

streams_final : (s : TurnStatus) → is_final s ≡ true → is_final (streams s) ≡ true
streams_final pending h = h
streams_final streaming h = h
streams_final completed h = h
streams_final errored h = h
streams_final interrupted h = h

-- A change that keeps final turns final keeps them so in the map.
update_ended :
    (k tid : TurnId) (f : Turn → Turn) (m : Map TurnId Turn)
    → ((t : Turn) → is_final t.status ≡ true → is_final (f t).status ≡ true)
    → has_ended tid m ≡ true
    → has_ended tid (update k f m) ≡ true
update_ended k tid f m keep h = rw (get-update k tid f m) (chosen (k == tid) (get tid m) h)
  where
    chosen :
        (b : Bool) (o : Option Turn)
        → is_ended o ≡ true
        → is_ended (if b then map_option f o else o) ≡ true
    chosen true none g = cc
    chosen true (some t) g = keep t g
    chosen false o g = g

or_insert_ended :
    (k tid : TurnId) (t : Turn) (m : Map TurnId Turn)
    → has_ended tid m ≡ true
    → has_ended tid (or_insert k t m) ≡ true
or_insert_ended k tid t m h = ground (arith, get-insert k tid t m, nat_eq.same_iff k tid)

handle_ended :
    (tid : TurnId) (now : DateTime) (n : Notification) (st : AppState)
    → has_ended tid st.turns ≡ true
    → has_ended tid (handle now n st).turns ≡ true
unfolding handle handlers mark_streaming mark_completed mark_error
handle_ended tid now (session_opened sid) st h = h
handle_ended tid now (turn_started e) st h =
    update_ended e.turn_id tid _ _ (λ t g. g)
      (or_insert_ended e.turn_id tid (started e.turn_id e.session_id now) st.turns h)
handle_ended tid now (message_delta e) st h =
    update_ended e.turn_id tid _ st.turns (λ t. streams_final t.status) h
handle_ended tid now (reasoning_delta e) st h =
    update_ended e.turn_id tid _ st.turns (λ t. streams_final t.status) h
handle_ended tid now (turn_completed e) st h = update_ended e.turn_id tid _ st.turns (λ t g. refl) h
handle_ended tid now (turn_error e) st h =
    update_ended e.turn_id tid _ st.turns (λ t g. ground arith) h
handle_ended tid now (tool_completed e) st h = elim (Bool-cases (is_memory_save e)) [
  | inl c ↦ rw c h
  | inr c ↦ rw c h
]
handle_ended tid now (task_updated e) st h =
    elim (Bool-cases (task_runtime_state_is_terminal e.state)) [ inl c ↦ rw c h | inr c ↦ rw c h ]
handle_ended tid now _ st h = h

advance_turns :
    (c : Option UiCursor) (r : Option SessionKey) (st : AppState)
    → (advance c r st).turns ≡ st.turns
unfolding advance
advance_turns c none st = refl
advance_turns c (some sid) st = refl

reduce_ended :
    (tid : TurnId) (now : DateTime) (st : AppState) (ev : Event)
    → has_ended tid st.turns ≡ true
    → has_ended tid (reduce now st ev).turns ≡ true
unfolding reduce apply_protocol apply_snapshot apply_navigation
reduce_ended tid now st (protocol c n) h =
    handle_ended tid now n (advance c (route_session n) st)
      (rw (advance_turns c (route_session n) st) h)
reduce_ended tid now st (navigation_event logout) h = h
reduce_ended tid now st (navigation_event ev) h = h
reduce_ended tid now st (snapshot (sessions_hydrated list)) h = h
reduce_ended tid now st (snapshot (session_removed id)) h = h
reduce_ended tid now st (snapshot (file_meta_hydrated meta)) h = h
reduce_ended tid now st _ h = h

-- A turn that has ended, whether completed, failed or interrupted, is neither pending nor streaming
-- again after any history, also if it is started anew or a late delta of it arrives.
pub run_ended :
    (tid : TurnId) (st : AppState) (evs : List (DateTime × Event))
    → has_ended tid st.turns ≡ true
    → has_ended tid (run st evs).turns ≡ true
unfolding run
run_ended tid st [] h = h
run_ended tid st ((now, ev) ∷ evs) h =
    run_ended tid (reduce now st ev) evs (reduce_ended tid now st ev h)

-- The end of a known turn gives it its final status, with the reason and the time: the error code
-- `interrupted` makes it interrupted, and every other one makes it failed.
pub end_of_turn :
    (now : DateTime) (st : AppState) (t : Turn) (c : Option UiCursor)
    → ((e : TurnErrorEvent)
        → get e.turn_id st.turns ≡ some t
        → get e.turn_id (apply_protocol now c (turn_error e) st).turns
          ≡ some (record t {
            status = if e.code == "interrupted" then interrupted else errored;
            error = some e.message;
            completed_at = some now;
          }))
      × ((e : TurnCompletedEvent)
          → get e.turn_id st.turns ≡ some t
          → get e.turn_id (apply_protocol now c (turn_completed e) st).turns
            ≡ some (record t { status = completed; completed_at = some now }))
unfolding apply_protocol handle handlers advance mark_completed mark_error route_session
end_of_turn now st t c = (
  λ e h. ground (
    arith,
    get-update e.turn_id e.turn_id (mark_error e.code e.message now) st.turns,
    nat_eq.same_iff e.turn_id e.turn_id,
  ),
  λ e h. ground (
    arith,
    get-update e.turn_id e.turn_id (mark_completed now) st.turns,
    nat_eq.same_iff e.turn_id e.turn_id,
  ),
)
