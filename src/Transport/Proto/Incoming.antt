-- ===== src/Transport/Proto/Incoming.antt =====
-- What a frame from the server does (app/crates/octos-app-transport/src/proto.rs).
use octos_one.Prelude.{
  ◌≡◌, ◌⊎◌, refl, String, false, Option, none, some, arith, string_eq, is_some, if◌then◌else◌, ◌==◌,
  not, Option-cases, Bool-cases, inl, inr, or_else, ◌&&◌,
}
use octos_one.Prelude.Map.{get, get-insert}
use octos_one.Store.Ids.{SessionKey, UiCursor}
use octos_one.Transport.CursorStore.{CursorPersist, get_cursor, set}
use octos_one.Transport.Json.{Json}
use octos_one.Transport.Rpc.{
  JsonRpcId, RpcEnvelope, error_response, response, request, notification,
}
use octos_one.Transport.Wire.{
  ConnectionState, live, session_open, turn_start, turn_interrupt, OctosCore,
}
use octos_one.Transport.Proto.{
  SharedState, PendingRequest, PendingReply, lifecycle, approval, diff_preview, task_output,
  session_list, session_hydrate,
}
use octos_one.Transport.Proto.Receiving.{
  is_live, is_ephemeral_method, cursor_in, session_in, handle_response, handle_notification,
  dispatch, advance, handle_inbound_text,
}

module _ {B C : Type 0} (core : OctosCore C) (persist : CursorPersist B) where
  -- The cursor that a frame commits for a session: a notification that octos-core knows, which is
  -- not ephemeral, and whose parameters name that session and carry a cursor.
  abbrev pub committed : SessionKey → Option (RpcEnvelope C) → Option UiCursor
  committed k (some (notification method params)) =
      if is_some (core.notification_from method params) && not (is_ephemeral_method core method)
      then elim (session_in core params) [
        | none ↦ none
        | some session ↦ if session == k then cursor_in core params else none
      ]
      else none
  committed k (some (response id result)) = none
  committed k (some (error_response id e)) = none
  committed k (some (request id method params)) = none
  committed k none = none

  get_cursor-dispatch :
      (k : SessionKey) (envelope : RpcEnvelope C) (s : SharedState B) (state : ConnectionState)
      → get_cursor k (dispatch core persist envelope s state).0.cursors
        ≡ or_else (committed k (some envelope)) (get_cursor k s.cursors)
  unfolding dispatch handle_notification get_cursor set advance
  get_cursor-dispatch k (notification method params) s state =
      elim (Option-cases (session_in core params)) [
        | inl e ↦ ground (arith, e)
        | inr (session, e) ↦ elim (Option-cases (cursor_in core params)) [
          | inl f ↦ ground (arith, e, f)
          | inr (c, f) ↦ ground (arith, e, f, get-insert session k c s.cursors.inner)
        ]
      ]
  get_cursor-dispatch k (response id result) s state = ground arith
  get_cursor-dispatch k (error_response none e) s state = refl
  get_cursor-dispatch k (error_response (some id) e) s state = ground arith
  get_cursor-dispatch k (request id method params) s state = refl

  -- A frame moves the cursor of the session for which it commits one, and of no other session.
  pub get_cursor-handle_inbound_text :
      (k : SessionKey) (frame : String) (s : SharedState B) (state : ConnectionState)
      → get_cursor k (handle_inbound_text core persist frame s state).0.cursors
        ≡ or_else (committed k (core.envelope_from_str frame)) (get_cursor k s.cursors)
  unfolding handle_inbound_text
  get_cursor-handle_inbound_text k frame s state =
      elim (Option-cases (core.envelope_from_str frame)) [
        | inl e ↦ ground (arith, e)
        | inr (envelope, e) ↦ rw (e, handle_inbound_text) (get_cursor-dispatch k envelope s state)
      ]

  -- The frame opens a session: it answers a waiting lifecycle request with the result of an opening.
  abbrev pub Opens : RpcEnvelope C → SharedState B → Type 0
  Opens envelope s =
      (id : JsonRpcId) × (result : Json) × (p : PendingRequest) × (opened : C) × (envelope
        ≡ response id result)
      × (get id s.pending ≡ some p)
      × (p.reply ≡ lifecycle)
      × (core.lifecycle_from p.method result ≡ some (some (session_open opened)))

  handle_response_transition :
      (method : String) (reply : PendingReply) (result : Json) (state : ConnectionState)
      → let (effects, state', transition) =
          handle_response core (record { method = method; reply = reply }) result state in
        ((state' ≡ state) × (transition ≡ none))
        ⊎ ((state' ≡ live)
            × (transition ≡ some live)
            × (is_live state ≡ false)
            × (reply ≡ lifecycle)
            × ((opened : C) × (core.lifecycle_from method result
                  ≡ some (some (session_open opened)))))
  unfolding handle_response
  handle_response_transition method lifecycle result state =
      elim (Option-cases (core.lifecycle_from method result)) [
        | inl e ↦ inl (ground (arith, e), ground (arith, e))
        | inr (none, e) ↦ inl (ground (arith, e), ground (arith, e))
        | inr (some (turn_start r), e) ↦ inl (ground (arith, e), ground (arith, e))
        | inr (some (turn_interrupt r), e) ↦ inl (ground (arith, e), ground (arith, e))
        | inr (some (session_open opened), e) ↦ elim (Bool-cases (is_live state)) [
          | inl is ↦ inl (ground (arith, e, is), ground (arith, e, is))
          | inr other ↦
              inr (ground (arith, e, other), ground (arith, e, other), other, refl, (opened, e))
        ]
      ]
  handle_response_transition method session_list result state = inl (ground arith, ground arith)
  handle_response_transition method (approval tx) result state = inl (refl, refl)
  handle_response_transition method (diff_preview tx) result state = inl (refl, refl)
  handle_response_transition method (task_output tx) result state = inl (refl, refl)
  handle_response_transition method (session_hydrate key) result state = inl (refl, refl)

  -- A frame either leaves the state of the connection and announces nothing, or makes it live and
  -- announces that, which happens only if it was not live and the frame opens a session.
  pub dispatch_transition :
      (envelope : RpcEnvelope C) (s : SharedState B) (state : ConnectionState)
      → let (s', effects, state', transition) = dispatch core persist envelope s state in
        ((state' ≡ state) × (transition ≡ none))
        ⊎ ((state' ≡ live) × (transition ≡ some live) × (is_live state ≡ false) × Opens envelope s)
  unfolding dispatch handle_response
  dispatch_transition (notification method params) s state = inl (refl, refl)
  dispatch_transition (response id result) s state = elim (Option-cases (get id s.pending)) [
    | inl e ↦ inl (ground (arith, e), ground (arith, e))
    | inr (p, e) ↦ elim (handle_response_transition p.method p.reply result state) [
      | inl (kept, quiet) ↦ inl (ground (arith, e, kept), ground (arith, e, quiet))
      | inr (now, told, before, replies, (opened, decoded)) ↦ inr (
        ground (arith, e, now),
        ground (arith, e, told),
        before,
        (id, result, p, opened, refl, e, replies, decoded),
      )
    ]
  ]
  dispatch_transition (error_response none e) s state = inl (refl, refl)
  dispatch_transition (error_response (some id) e) s state = inl (ground arith, ground arith)
  dispatch_transition (request id method params) s state = inl (refl, refl)
