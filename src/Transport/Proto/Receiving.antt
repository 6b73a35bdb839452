-- ===== src/Transport/Proto/Receiving.antt =====
-- app/crates/octos-app-transport/src/proto.rs: the frames that come back.
use octos_one.Prelude.{
  String, Bool, true, false, Option, none, some, List, [], ◌∷◌, string_eq, ◌==◌, if◌then◌else◌,
  ◌++◌,
}
use octos_one.Prelude.Map.{get, remove}
use octos_one.Store.Ids.{SessionKey, UiCursor}
use octos_one.Transport.Json.{Json, get_key}
use octos_one.Transport.Rpc.{
  RpcEnvelope, error_response, response, request, notification, Outcome, ok, err,
}
use octos_one.Transport.Capability.{parse}
use octos_one.Transport.CursorStore.{CursorPersist, set}
use octos_one.Transport.Wire.{
  ConnectionState, live, idle, dialing, handshaking, reconnecting, replay_applying, failed,
  session_open, turn_start, turn_interrupt, durable_notification, ephemeral_notification,
  rpc_result, rpc_error, capability_negotiated, sessions_listed, session_hydrated, OctosCore,
}
use octos_one.Transport.Proto.{
  Effect, PendingRequest, SharedState, answered, approval, awaited, diff_preview, lifecycle,
  session_hydrate, session_list, task_output, tried,
}

-- `matches!(state, Live)`.
abbrev pub is_live : ConnectionState → Bool
is_live live = true
is_live idle = false
is_live dialing = false
is_live handshaking = false
is_live (reconnecting n) = false
is_live replay_applying = false
is_live failed = false

unfoldable pub fail_pending : {C : Type 0} → PendingRequest → C → List (Effect C)
fail_pending p e = elim p.reply [
  | lifecycle ↦ []
  | approval tx ↦ answered tx (err e) ∷ []
  | diff_preview tx ↦ answered tx (err e) ∷ []
  | task_output tx ↦ answered tx (err e) ∷ []
  | session_list ↦ []
  | session_hydrate key ↦ []
]

abbrev and_then : {X Y : Type 0} → Option X → (X → Option Y) → Option Y
and_then none f = none
and_then (some x) f = f x

module _ {C : Type 0} (core : OctosCore C) where
  abbrev pub is_ephemeral_method : String → Bool
  is_ephemeral_method method = method == core.message_delta_method

  -- `map_err(invalid_params)`.
  abbrev decoded : Outcome C String → Outcome C C
  decoded (ok v) = ok v
  decoded (err e) = err (core.invalid_params e)

  handle_lifecycle :
      String → Json → ConnectionState → List (Effect C) × ConnectionState × Option ConnectionState
  handle_lifecycle method result state = elim (core.lifecycle_from method result) [
    | none ↦ ([], state, none)
    | some none ↦ ([], state, none)
    | some (some (session_open opened)) ↦
        let effects =
          tried (capability_negotiated (parse result))
          ∷ tried (rpc_result (session_open opened))
          ∷ [] in
        if is_live state then (effects, state, none) else (effects, live, some live)
    | some (some (turn_start r)) ↦ (tried (rpc_result (turn_start r)) ∷ [], state, none)
    | some (some (turn_interrupt r)) ↦ (tried (rpc_result (turn_interrupt r)) ∷ [], state, none)
  ]

  -- The effects, the state of the connection, and the transition to announce.
  unfoldable pub handle_response :
      PendingRequest
      → Json
      → ConnectionState
      → List (Effect C) × ConnectionState × Option ConnectionState
  unfolding handle_lifecycle
  handle_response p result state = elim p.reply [
    | lifecycle ↦ handle_lifecycle p.method result state
    | approval tx ↦ (answered tx (decoded (core.approval_from result)) ∷ [], state, none)
    | diff_preview tx ↦ (answered tx (decoded (core.diff_preview_from result)) ∷ [], state, none)
    | task_output tx ↦ (answered tx (decoded (core.task_output_from result)) ∷ [], state, none)
    | session_list ↦ elim (core.session_list_from result) [
      | some sessions ↦ (tried (sessions_listed sessions) ∷ [], state, none)
      | none ↦ ([], state, none)
    ]
    | session_hydrate key ↦ (tried (session_hydrated key result) ∷ [], state, none)
  ]

  abbrev pub cursor_in : Json → Option UiCursor
  cursor_in params = and_then (get_key "cursor" params) core.cursor_from

  abbrev pub session_in : Json → Option SessionKey
  session_in params = and_then (get_key "session_id" params) core.session_key_from

  module _ {B : Type 0} (persist : CursorPersist B) where
    unfoldable pub advance : Option UiCursor → Option SessionKey → SharedState B → SharedState B
    advance (some c) (some session) s = record s { cursors = set persist session c s.cursors }
    advance (some c) none s = s
    advance none session s = s

    unfoldable pub handle_notification :
        String → Json → SharedState B → SharedState B × List (Effect C)
    unfolding advance
    handle_notification method params s = elim (core.notification_from method params) [
      | none ↦ (s, [])
      | some payload ↦
          let cursor = cursor_in params in
          if is_ephemeral_method method then (s, tried (ephemeral_notification payload) ∷ []) else (
            advance cursor (session_in params) s,
            awaited (durable_notification payload cursor) ∷ [],
          )
    ]

    -- The new state, the effects, the state of the connection and the transition to announce, for
    -- a frame that was parsed.
    unfoldable pub dispatch :
        RpcEnvelope C
        → SharedState B
        → ConnectionState
        → SharedState B × List (Effect C) × ConnectionState × Option ConnectionState
    dispatch (notification method params) s state =
        let (s', effects) = handle_notification method params s in (s', effects, state, none)
    dispatch (response id result) s state = elim (get id s.pending) [
      | none ↦ (s, [], state, none)
      | some p ↦
          let answer = handle_response p result state in
          (record s { pending = remove id s.pending }, answer.0, answer.1, answer.2)
    ]
    dispatch (error_response none e) s state = (s, [], state, none)
    dispatch (error_response (some id) e) s state = elim (get id s.pending) [
      | none ↦ (s, [], state, none)
      | some p ↦ (
        record s { pending = remove id s.pending },
        fail_pending p e ++ tried (rpc_error id p.method e) ∷ [],
        state,
        none,
      )
    ]
    dispatch (request id method params) s state = (s, [], state, none)

    unfoldable pub handle_inbound_text :
        String
        → SharedState B
        → ConnectionState
        → SharedState B × List (Effect C) × ConnectionState × Option ConnectionState
    handle_inbound_text frame s state = elim (core.envelope_from_str frame) [
      | none ↦ (s, [], state, none)
      | some envelope ↦ dispatch envelope s state
    ]
