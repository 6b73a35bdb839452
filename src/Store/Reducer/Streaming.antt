-- ===== src/Store/Reducer/Streaming.antt =====
-- The live buffers of a turn (app/crates/octos-app-store/src/state.rs): what the user sees before
-- the durable history arrives.
use octos_one.Prelude.{
  ◌≡◌, refl, Option, none, some, String, if◌then◌else◌, ◌==◌, unwrap_or, nat_eq, string_eq, arith,
  List, [], ◌∷◌, Bool-cases, inl, inr,
}
use octos_one.Prelude.Map.{Map, get, insert, remove, get-insert, get-remove, get-update}
use octos_one.Prelude.Text.{concat}
use octos_one.Store.Ids.{SessionKey, TurnId, DateTime, UiCursor}
use octos_one.Store.Navigation.{logout}
use octos_one.Store.Events.{
  Notification, message_delta, reasoning_delta, turn_completed, turn_error, tool_completed,
  task_updated, session_opened,
}
use octos_one.Store.Model.{
  AppState, Event, protocol, navigation_event, snapshot, sessions_hydrated, session_removed,
  file_meta_hydrated, task_runtime_state_is_terminal,
}
use octos_one.Store.Handlers.{push_str, is_memory_save}
use octos_one.Store.Opened.{handlers}
use octos_one.Store.Reducer.{
  route_session, advance, handle, apply_protocol, apply_snapshot, apply_navigation, reduce, run,
}

-- What a map of buffers holds for a turn; an absent buffer is an empty one.
abbrev pub buffer : TurnId → Map TurnId String → String
buffer tid m = unwrap_or (get tid m) ""

buffer-push_str :
    (k tid : TurnId) (text : String) (m : Map TurnId String)
    → buffer tid (push_str k text m)
      ≡ (if k == tid then concat (buffer tid m ∷ text ∷ []) else buffer tid m)
unfolding push_str
buffer-push_str k tid text m = ground (
  arith,
  get-update k tid (λ s. concat (s ∷ text ∷ [])) m,
  get-update k tid (λ s. concat (s ∷ text ∷ [])) (insert k "" m),
  get-insert k tid "" m,
)

buffer-remove :
    (k tid : TurnId) (m : Map TurnId String)
    → buffer tid (remove k m) ≡ (if k == tid then "" else buffer tid m)
buffer-remove k tid m = ground (arith, get-remove k tid m)

-- The two texts of a turn that is under way.
pub record Live : Type 0 where
  pub answer : String
  pub thinking : String

abbrev pub live : TurnId → AppState → Live
live tid st = record {
  answer = buffer tid st.ephemeral.streaming_text;
  thinking = buffer tid st.ephemeral.thinking_text;
}

abbrev pub silent : Live
silent = record { answer = ""; thinking = "" }

-- What a notification does to the texts of a turn: a delta of the turn is appended, and the end of
-- the turn empties both.
abbrev pub hear : TurnId → Live → Notification → Live
hear tid l (message_delta e) =
    if e.turn_id == tid then record l { answer = concat (l.answer ∷ e.text ∷ []) } else l
hear tid l (reasoning_delta e) =
    if e.turn_id == tid then record l { thinking = concat (l.thinking ∷ e.text ∷ []) } else l
hear tid l (turn_completed e) = if e.turn_id == tid then silent else l
hear tid l (turn_error e) = if e.turn_id == tid then silent else l
hear tid l _ = l

-- What an event does to them: a logout empties the texts of every turn.
abbrev pub hear_event : TurnId → Live → Event → Live
hear_event tid l (protocol c n) = hear tid l n
hear_event tid l (navigation_event logout) = silent
hear_event tid l _ = l

live-handle :
    (tid : TurnId) (now : DateTime) (n : Notification) (st : AppState)
    → live tid (handle now n st) ≡ hear tid (live tid st) n
unfolding handle handlers
live-handle tid now (session_opened sid) st = refl
live-handle tid now (message_delta e) st =
    ground (arith, buffer-push_str e.turn_id tid e.text st.ephemeral.streaming_text)
live-handle tid now (reasoning_delta e) st =
    ground (arith, buffer-push_str e.turn_id tid e.text st.ephemeral.thinking_text)
live-handle tid now (turn_completed e) st = ground (
  arith,
  buffer-remove e.turn_id tid st.ephemeral.streaming_text,
  buffer-remove e.turn_id tid st.ephemeral.thinking_text,
)
live-handle tid now (turn_error e) st = ground (
  arith,
  buffer-remove e.turn_id tid st.ephemeral.streaming_text,
  buffer-remove e.turn_id tid st.ephemeral.thinking_text,
)
live-handle tid now (tool_completed e) st = elim (Bool-cases (is_memory_save e)) [
  | inl h ↦ rw h
  | inr h ↦ rw h
]
live-handle tid now (task_updated e) st =
    elim (Bool-cases (task_runtime_state_is_terminal e.state)) [ inl h ↦ rw h | inr h ↦ rw h ]
live-handle tid now _ st = refl

live-advance :
    (tid : TurnId) (c : Option UiCursor) (r : Option SessionKey) (st : AppState)
    → live tid (advance c r st) ≡ live tid st
unfolding advance
live-advance tid c none st = refl
live-advance tid c (some sid) st = refl

live-reduce :
    (tid : TurnId) (now : DateTime) (st : AppState) (ev : Event)
    → live tid (reduce now st ev) ≡ hear_event tid (live tid st) ev
unfolding reduce apply_protocol apply_snapshot apply_navigation get
live-reduce tid now st (protocol c n) = rw (
  live-handle tid now n (advance c (route_session n) st),
  live-advance tid c (route_session n) st,
)
live-reduce tid now st (navigation_event logout) = refl
live-reduce tid now st (navigation_event ev) = refl
live-reduce tid now st (snapshot (sessions_hydrated list)) = refl
live-reduce tid now st (snapshot (session_removed id)) = refl
live-reduce tid now st (snapshot (file_meta_hydrated meta)) = refl
live-reduce tid now st _ = refl

unfoldable pub live_after : TurnId → Live → List (DateTime × Event) → Live
live_after tid l [] = l
live_after tid l ((now, ev) ∷ evs) = live_after tid (hear_event tid l ev) evs

-- After any history the texts shown for a turn are those of the history read as a transcript: the
-- deltas of the turn in the order of their arrival, begun anew when the turn ends and at a logout.
-- No event of another turn, and none of another kind, changes them: a loss of the connection and a
-- reconnection leave them as they are, although the source's comment on Ephemeral calls it state that
-- does not survive a reconnect.
pub live-run :
    (tid : TurnId) (st : AppState) (evs : List (DateTime × Event))
    → live tid (run st evs) ≡ live_after tid (live tid st) evs
unfolding run live_after
live-run tid st [] = refl
live-run tid st ((now, ev) ∷ evs) =
    rw (← live-reduce tid now st ev) (live-run tid (reduce now st ev) evs)
