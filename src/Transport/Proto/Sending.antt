-- ===== src/Transport/Proto/Sending.antt =====
-- app/crates/octos-app-transport/src/proto.rs: commands, and the frames that they become.
use octos_one.Prelude.{String, Option, none, some, [], ◌∷◌, string_eq, unwrap_or}
use octos_one.Prelude.Map.{insert}
use octos_one.Transport.Json.{Json, null}
use octos_one.Transport.Rpc.{JsonRpcId, next_id, serialize_request}
use octos_one.Transport.CursorStore.{get_cursor}
use octos_one.Transport.Wire.{
  SessionOpenParams, OutboundCommand, open_session, open_session_fresh, list_sessions,
  hydrate_session, start_turn, interrupt_turn, send_approval_response, fetch_diff_preview,
  request_task_output, disconnect, OctosCore,
}
use octos_one.Transport.Proto.{
  Outbound, PendingReply, SharedState, approval, diff_preview, disconnected, lifecycle, send,
  session_hydrate, session_list, skip, task_output,
}

-- `to_value`, which makes an error null.
abbrev value_or_null : Option Json → Json
value_or_null v = unwrap_or v null

unfoldable pub finish :
    {B C : Type 0}
    → OctosCore C
    → JsonRpcId
    → String
    → Option Json
    → PendingReply
    → SharedState B
    → SharedState B × Outbound
finish core id method body reply s =
    elim (serialize_request core.to_string id method (value_or_null body)) [
      | none ↦ (s, skip)
      | some frame ↦ (s, send id frame (record { method = method; reply = reply }))
    ]

-- The resume bracket: a cursor given, else the session's own, else the one-shot seed.
unfoldable pub bracket :
    {B C : Type 0} → SessionOpenParams C → SharedState B → SessionOpenParams C × SharedState B
bracket params s = elim params.after [
  | some c ↦ (params, s)
  | none ↦ elim (get_cursor params.session_id s.cursors) [
    | some c ↦ (record params { after = some c }, s)
    | none ↦ (record params { after = s.pending_initial }, record s { pending_initial = none })
  ]
]

unfoldable pub build_outbound :
    {B C : Type 0} → OctosCore C → OutboundCommand C → SharedState B → SharedState B × Outbound
unfolding finish
build_outbound core cmd s₀ =
    let (id, registry') = next_id s₀.registry in
    let s = record s₀ { registry = registry' } in
    elim cmd [
      | open_session params ↦
          let (bracketed, s') = bracket params s in
          finish core id core.session_open_method (core.session_open_to_value bracketed) lifecycle
            s'
      | open_session_fresh params ↦
          finish core id core.session_open_method (core.session_open_to_value params) lifecycle s
      | start_turn p ↦ finish core id core.turn_start_method (core.to_value p) lifecycle s
      | interrupt_turn p ↦ finish core id core.turn_interrupt_method (core.to_value p) lifecycle s
      | send_approval_response p tx ↦
          finish core id core.approval_respond_method (core.to_value p) (approval tx) s
      | fetch_diff_preview p tx ↦
          finish core id core.diff_preview_get_method (core.to_value p) (diff_preview tx) s
      | request_task_output p tx ↦
          finish core id core.task_output_read_method (core.to_value p) (task_output tx) s
      | list_sessions ↦
          finish core id core.session_list_method (core.session_list_to_value none) session_list s
      | hydrate_session key ↦
          finish core id core.session_hydrate_method
            (core.session_hydrate_to_value key none ("messages" ∷ [])) (session_hydrate key) s
      | disconnect ↦ (s, disconnected)
    ]

-- A transport records a request once its frame is sent.
unfoldable pub record_sent : {B : Type 0} → Outbound → SharedState B → SharedState B
record_sent (send id frame p) s = record s { pending = insert id p s.pending }
record_sent skip s = s
record_sent disconnected s = s
