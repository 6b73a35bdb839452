-- ===== src/Shell/Bridge/Mirror.antt =====
-- The store behind the bridge of app/app/src/backend/octos_ui.rs, after every event of the transport.
use octos_one.Prelude.{
  ◌≡◌, refl, inl, inr, true, Bool-cases, Option, none, some, List, [], ◌∷◌, nat_eq, string_eq, ◌∙◌,
  sym, Option-cases,
}
use octos_one.Prelude.Chars.{is_blank}
use octos_one.Prelude.Text.{codes}
use octos_one.Prelude.Map.{get}
use octos_one.Store.Ids.{DateTime, UiCursor}
use octos_one.Store.Events.{Notification, tool_completed, task_updated, turn_completed, turn_error}
use octos_one.Store.Model.{
  AppState, protocol, connection_event, toast, task_runtime_state_is_terminal,
}
use octos_one.Store.Handlers.{is_memory_save}
use octos_one.Store.Opened.{handlers}
use octos_one.Store.Reducer.{reduce, apply_protocol, advance, handle, route_session, connection_of}
use octos_one.Store.Reducer.Validity.{IsValid, reduce-IsValid}
use octos_one.Store.Toasts.{Toast}
use octos_one.Store.Ids.{SessionKey, TurnId}
use octos_one.Transport.Wire.{
  ConnectionState, idle, dialing, handshaking, live, replay_applying, failed, reconnecting,
}
use octos_one.Shell.Bridge.{Agent, PromptId}
use octos_one.Shell.Bridge.Events.{
  Inbound, connection_state, capability_negotiated, session_open, durable_notification,
  ephemeral_notification, session_hydrated, Payload, plain, assistant_persisted, translate,
  handle_event, translate_notification, end_turn, fold_into_store, fold_connection_into_store,
  connection_event_of, same_state, push_toast, toast_of, stored, forget_prompt, AgentEvent,
}

-- The store is valid, and shows the state of the agent's connection.
pub record IsMirrored (a : Agent) (st : AppState) : Type 0 where
  pub valid : IsValid st
  pub shown : st.connection ≡ connection_of (connection_event_of a.connection_state)

connection-handle :
    (now : DateTime) (n : Notification) (st : AppState)
    → (handle now n st).connection ≡ st.connection
unfolding handle handlers
connection-handle now (tool_completed e) st = elim (Bool-cases (is_memory_save e)) [
  | inl h ↦ rw h refl
  | inr h ↦ rw h refl
]
connection-handle now (task_updated e) st =
    elim (Bool-cases (task_runtime_state_is_terminal e.state)) [
      | inl h ↦ rw h refl
      | inr h ↦ rw h refl
    ]
connection-handle now _ st = refl

connection-advance :
    (c : Option UiCursor) (r : Option SessionKey) (st : AppState)
    → (advance c r st).connection ≡ st.connection
unfolding advance
connection-advance c none st = refl
connection-advance c (some sid) st = refl

connection-fold_into_store :
    (now : DateTime) (p : Payload) (c : Option UiCursor) (st : AppState)
    → (fold_into_store now p c st).connection ≡ st.connection
unfolding fold_into_store reduce apply_protocol
connection-fold_into_store now p c st =
    connection-handle now (stored p) (advance c (route_session (stored p)) st)
    ∙ connection-advance c (route_session (stored p)) st

connection-push_toast :
    (now : DateTime) (t : Option Toast) (st : AppState)
    → (push_toast now t st).connection ≡ st.connection
unfolding reduce
connection-push_toast now none st = refl
connection-push_toast now (some t) st = refl

push_toast-IsValid :
    (now : DateTime) (t : Option Toast) (st : AppState) → IsValid st → IsValid (push_toast now t st)
push_toast-IsValid now none st v = v
push_toast-IsValid now (some t) st v = reduce-IsValid now st (toast t) v

same_state_lem : (s t : ConnectionState) → same_state s t ≡ true → s ≡ t
same_state_lem idle idle h = refl
same_state_lem dialing dialing h = refl
same_state_lem handshaking handshaking h = refl
same_state_lem live live h = refl
same_state_lem replay_applying replay_applying h = refl
same_state_lem failed failed h = refl
same_state_lem (reconnecting m) (reconnecting n) h = rw ((nat_eq.same_iff m n).0 h) refl
same_state_lem _ _ h = cc

connection_state-end_turn :
    (t : TurnId) (f : PromptId → AgentEvent) (a : Agent)
    → (end_turn t f a).0.connection_state ≡ a.connection_state
unfolding end_turn forget_prompt
connection_state-end_turn t f a = elim (Option-cases (get t a.prompt_ids)) [
  | inl h ↦ rw (h, end_turn) refl
  | inr (p, h) ↦ rw (h, end_turn) refl
]

connection_state-notified :
    (p : Payload) (a : Agent) → (translate_notification p a).0.connection_state ≡ a.connection_state
unfolding translate_notification
connection_state-notified (assistant_persisted key text) a =
    elim (Bool-cases (is_blank (codes text))) [ inl h ↦ rw h refl | inr h ↦ rw h refl ]
connection_state-notified (plain (turn_completed ev)) a = connection_state-end_turn ev.turn_id _ a
connection_state-notified (plain (turn_error ev)) a = connection_state-end_turn ev.turn_id _ a
connection_state-notified (plain _) a = refl

fold_connection-IsMirrored :
    (now : DateTime) (next : ConnectionState) (a : Agent) (st : AppState)
    → IsMirrored a st
    → IsMirrored
        (record a { connection_state = next })
        (fold_connection_into_store now a.connection_state next st)
unfolding fold_connection_into_store
fold_connection-IsMirrored now next a st m =
    elim (Bool-cases (same_state a.connection_state next)) [
      | inl h ↦ rw h (record {
        valid = m.valid;
        shown = rw (sym (same_state_lem a.connection_state next h)) m.shown;
      })
      | inr h ↦ rw h (
          let st' = reduce now st (connection_event (connection_event_of next)) in
          record {
            valid =
                push_toast-IsValid now (toast_of a.connection_state next) st'
                  (reduce-IsValid now st (connection_event (connection_event_of next)) m.valid);
            shown =
                connection-push_toast now (toast_of a.connection_state next) st'
                ∙ (unfold reduce in refl);
          })
    ]

notified-IsMirrored :
    (now : DateTime) (p : Payload) (c : Option UiCursor) (a : Agent) (st : AppState)
    → IsMirrored a st
    → IsMirrored (translate_notification p a).0 (fold_into_store now p c st)
unfolding fold_into_store
notified-IsMirrored now p c a st m = record {
  valid = reduce-IsValid now st (protocol c (stored p)) m.valid;
  shown = rw (connection_state-notified p a) (connection-fold_into_store now p c st ∙ m.shown);
}

translate-IsMirrored :
    (now : DateTime) (ev : Inbound) (a : Agent) (st : AppState)
    → IsMirrored a st
    → IsMirrored (translate now ev a st).agent (translate now ev a st).store
unfolding translate
translate-IsMirrored now (connection_state next) a st m = fold_connection-IsMirrored now next a st m
translate-IsMirrored now (capability_negotiated caps) a st m = record {
  valid = m.valid;
  shown = m.shown;
}
translate-IsMirrored now (session_open key) a st m = elim (Option-cases (get key a.session_ids)) [
  | inl h ↦ rw (h, translate) m
  | inr (sid, h) ↦ rw (h, translate) (record { valid = m.valid; shown = m.shown })
]
translate-IsMirrored now (durable_notification p c) a st m = notified-IsMirrored now p c a st m
translate-IsMirrored now (ephemeral_notification p) a st m = notified-IsMirrored now p none a st m
translate-IsMirrored now (session_hydrated key none) a st m =
    elim (Option-cases (get key a.session_ids)) [
      | inl h ↦ rw (h, translate) m
      | inr (sid, h) ↦ rw (h, translate) m
    ]
translate-IsMirrored now (session_hydrated key (some rows)) a st m =
    elim (Option-cases (get key a.session_ids)) [
      | inl h ↦ rw (h, translate) m
      | inr (sid, h) ↦ rw (h, translate) (record { valid = m.valid; shown = m.shown })
    ]
translate-IsMirrored now _ a st m = m

-- Whatever events the screens drain from the channel, the store is valid afterwards and shows the
-- state of the agent's connection, if it did before.
pub handle_event-IsMirrored :
    (now : DateTime) (evs : List Inbound) (a : Agent) (st : AppState)
    → IsMirrored a st
    → IsMirrored (handle_event now evs a st).agent (handle_event now evs a st).store
unfolding handle_event
handle_event-IsMirrored now [] a st m = m
handle_event-IsMirrored now (ev ∷ evs) a st m =
    let here = translate now ev a st in
    handle_event-IsMirrored now evs here.agent here.store (translate-IsMirrored now ev a st m)
