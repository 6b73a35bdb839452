-- ===== src/Transport/Proto/Answering.antt =====
-- Requests and their answers (app/crates/octos-app-transport/src/proto.rs).
use octos_one.Prelude.{
  ◌≡◌, refl, String, Option, none, some, List, [], ◌∷◌, ◌++◌, arith, string_eq, if◌then◌else◌, ◌==◌,
  Option-cases, inl, inr,
}
use octos_one.Prelude.Map.{get, get-remove}
use octos_one.Transport.CursorStore.{CursorPersist}
use octos_one.Transport.Json.{Json}
use octos_one.Transport.Rpc.{
  JsonRpcId, RpcEnvelope, error_response, response, request, notification, Sender,
}
use octos_one.Transport.Wire.{
  ConnectionState, OctosCore, TransportEvent, rpc_error, session_open, turn_start, turn_interrupt,
}
use octos_one.Transport.Proto.{
  SharedState, PendingReply, lifecycle, approval, diff_preview, task_output, session_list,
  session_hydrate, Effect, tried, awaited, answered,
}
use octos_one.Transport.Proto.Receiving.{
  handle_response, fail_pending, handle_notification, dispatch, advance,
}

-- The request that a frame answers.
abbrev pub answered_id : {C : Type 0} → RpcEnvelope C → Option JsonRpcId
answered_id (response id result) = some id
answered_id (error_response id e) = id
answered_id (request id method params) = none
answered_id (notification method params) = none

-- The oneshot that waits for a reply.
abbrev pub waiting : PendingReply → List Sender
waiting lifecycle = []
waiting session_list = []
waiting (approval tx) = tx ∷ []
waiting (diff_preview tx) = tx ∷ []
waiting (task_output tx) = tx ∷ []
waiting (session_hydrate key) = []

-- The oneshots that effects answer.
abbrev pub senders : {C : Type 0} → List (Effect C) → List Sender
senders [] = []
senders (tried e ∷ es) = senders es
senders (awaited e ∷ es) = senders es
senders (answered tx o ∷ es) = tx ∷ senders es

-- The oneshots that an answer to a request reaches: that of the request, if it waits.
abbrev pub reached : {B : Type 0} → Option JsonRpcId → SharedState B → List Sender
reached none s = []
reached (some id) s = elim (get id s.pending) [ none ↦ [] | some p ↦ waiting p.reply ]

module _ {B C : Type 0} (core : OctosCore C) (persist : CursorPersist B) where
  senders-handle_response :
      (method : String) (reply : PendingReply) (result : Json) (state : ConnectionState)
      → senders (handle_response core (record { method = method; reply = reply }) result state).0
        ≡ waiting reply
  unfolding handle_response
  senders-handle_response method lifecycle result state =
      elim (Option-cases (core.lifecycle_from method result)) [
        | inl e ↦ ground (arith, e)
        | inr (none, e) ↦ ground (arith, e)
        | inr (some (turn_start r), e) ↦ ground (arith, e)
        | inr (some (turn_interrupt r), e) ↦ ground (arith, e)
        | inr (some (session_open opened), e) ↦ ground (arith, e)
      ]
  senders-handle_response method session_list result state = ground arith
  senders-handle_response method (approval tx) result state = refl
  senders-handle_response method (diff_preview tx) result state = refl
  senders-handle_response method (task_output tx) result state = refl
  senders-handle_response method (session_hydrate key) result state = refl

  senders-fail_pending :
      (method : String) (reply : PendingReply) (e : C) (t : TransportEvent C)
      → senders (fail_pending (record { method = method; reply = reply }) e ++ tried t ∷ [])
        ≡ waiting reply
  unfolding fail_pending
  senders-fail_pending method lifecycle e t = refl
  senders-fail_pending method session_list e t = refl
  senders-fail_pending method (approval tx) e t = refl
  senders-fail_pending method (diff_preview tx) e t = refl
  senders-fail_pending method (task_output tx) e t = refl
  senders-fail_pending method (session_hydrate key) e t = refl

  -- A frame answers exactly the oneshot, if any, of the waiting request whose id it carries, once; that
  -- request then waits no more, and every other request waits as before. A frame without such an id
  -- answers nobody.
  pub dispatch_answers :
      (envelope : RpcEnvelope C) (s : SharedState B) (state : ConnectionState) (k : JsonRpcId)
      → let (s', effects, state', transition) = dispatch core persist envelope s state in
        (senders effects ≡ reached (answered_id envelope) s)
        × (get k s'.pending ≡ elim (answered_id envelope) [
          | none ↦ get k s.pending
          | some id ↦ if id == k then none else get k s.pending
        ])
        × (s'.registry ≡ s.registry)
  unfolding dispatch handle_notification advance
  dispatch_answers (notification method params) s state k =
      (ground arith, ground arith, ground arith)
  dispatch_answers (response id result) s state k = elim (Option-cases (get id s.pending)) [
    | inl e ↦ (ground (arith, e), ground (arith, e, string_eq.same_iff id k), ground (arith, e))
    | inr (p, e) ↦ (
      ground (arith, e, senders-handle_response p.method p.reply result state),
      ground (arith, e, get-remove id k s.pending),
      ground (arith, e),
    )
  ]
  dispatch_answers (error_response none e) s state k = (refl, refl, refl)
  dispatch_answers (error_response (some id) e) s state k = elim (Option-cases (get id s.pending)) [
    | inl f ↦ (ground (arith, f), ground (arith, f, string_eq.same_iff id k), ground (arith, f))
    | inr (p, f) ↦ (
      ground (arith, f, senders-fail_pending p.method p.reply e (rpc_error id p.method e)),
      ground (arith, f, get-remove id k s.pending),
      ground (arith, f),
    )
  ]
  dispatch_answers (request id method params) s state k = (refl, refl, refl)
