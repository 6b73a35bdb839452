-- ===== src/Transport/Proto/Outgoing.antt =====
-- What the transport sends (app/crates/octos-app-transport/src/proto.rs).
use octos_one.Prelude.{
  ℕ, ◌+◌, ◌^◌, ◌<◌, ◌≡◌, refl, sym, ap, ◌∙◌, String, true, none, arith, string_eq, is_some, or_else,
  if◌then◌else◌, ◌==◌, ◌||◌, Option-cases, Bool-cases, inl, inr,
}
use octos_one.Prelude.Map.{get, get-insert}
use octos_one.Prelude.Text.{show}
use octos_one.Prelude.Text.Decimal.{show_injective}
use octos_one.Transport.CursorStore.{get_cursor}
use octos_one.Transport.Rpc.{JsonRpcId, next_id}
use octos_one.Transport.Wire.{
  SessionOpenParams, OutboundCommand, open_session, open_session_fresh, list_sessions,
  hydrate_session, start_turn, interrupt_turn, send_approval_response, fetch_diff_preview,
  request_task_output, disconnect, OctosCore,
}
use octos_one.Transport.Proto.{SharedState, PendingRequest, Outbound, send, skip, disconnected}
use octos_one.Transport.Proto.Sending.{bracket, build_outbound, record_sent}

-- A session is opened from the cursor given, else from that session's own, else from the seed; the
-- cursors of the sessions stay as they are, and the seed is used up exactly if it was reached for, so
-- that any later opening resumes from its own session's cursor or none.
bracket_lem :
    {B C : Type 0} (params later : SessionOpenParams C) (s : SharedState B)
    → let (sent, s') = bracket params s in
      let own = get_cursor params.session_id s.cursors in
      (sent.after ≡ or_else params.after (or_else own s.pending_initial))
      × (sent.session_id ≡ params.session_id)
      × (s'.cursors ≡ s.cursors)
      × (s'.pending_initial
          ≡ (if is_some params.after || is_some own then s.pending_initial else none))
      × (params.after ≡ none
          → own ≡ none
          → (bracket later s').0.after
            ≡ or_else later.after (get_cursor later.session_id s.cursors))
unfolding bracket
bracket_lem params later s = (ground arith, ground arith, ground arith, ground arith, ground arith)

-- The requests that wait for an answer have ids that the registry gave before.
abbrev pub IsNumbered : {B : Type 0} → SharedState B → Type 0
IsNumbered s =
    (id : JsonRpcId)
    → is_some (get id s.pending) ≡ true
    → (n : ℕ) × (n < s.registry.counter) × (id ≡ show n)

-- What building a frame leaves of the state, and the id of the frame.
abbrev pub IsBuilt : {B : Type 0} → SharedState B → SharedState B × Outbound → Type 0
IsBuilt s built =
    (built.0.pending ≡ s.pending)
    × (built.0.registry ≡ (next_id s.registry).1)
    × ((id : JsonRpcId) (frame : String) (p : PendingRequest)
        → built.1 ≡ send id frame p
        → id ≡ (next_id s.registry).0)

pub built_lem :
    {B C : Type 0} (core : OctosCore C) (cmd : OutboundCommand C) (s : SharedState B)
    → IsBuilt s (build_outbound core cmd s)
unfolding build_outbound bracket
built_lem core (open_session x) s = (ground arith, ground arith, λ i frame q. ground arith)
built_lem core (open_session_fresh x) s = (ground arith, ground arith, λ i frame q. ground arith)
built_lem core list_sessions s = (ground arith, ground arith, λ i frame q. ground arith)
built_lem core (hydrate_session k) s = (ground arith, ground arith, λ i frame q. ground arith)
built_lem core (start_turn p) s = (ground arith, ground arith, λ i frame q. ground arith)
built_lem core (interrupt_turn p) s = (ground arith, ground arith, λ i frame q. ground arith)
built_lem core (send_approval_response p tx) s =
    (ground arith, ground arith, λ i frame q. ground arith)
built_lem core (fetch_diff_preview p tx) s = (ground arith, ground arith, λ i frame q. ground arith)
built_lem core (request_task_output p tx) s =
    (ground arith, ground arith, λ i frame q. ground arith)
built_lem core disconnect s = (ground arith, ground arith, λ i frame q. ground arith)

-- While the waiting requests have ids that the registry gave before, a frame is sent under an id
-- that none of them has, so that recording its request replaces no other.
pub build_outbound_fresh :
    {B C : Type 0} (core : OctosCore C) (cmd : OutboundCommand C) (s : SharedState B)
    (id : JsonRpcId) (frame : String) (p : PendingRequest)
    → IsNumbered s
    → (build_outbound core cmd s).1 ≡ send id frame p
    → get id s.pending ≡ none
unfolding next_id
build_outbound_fresh core cmd s id frame p numbered e =
    let is_id = (built_lem core cmd s).2 id frame p e in
    elim (Option-cases (get id s.pending)) [
      | inl absent ↦ absent
      | inr (q, present) ↦
          let (n, below, named) = numbered id (ground (arith, present)) in
          ground (arith, show_injective n s.registry.counter (sym named ∙ is_id))
    ]

-- The ids stay numbered when the counter goes up by one.
pub raised :
    {B : Type 0} (s s' : SharedState B)
    → s.registry.counter + 1 < 2 ^ 64
    → IsNumbered s
    → s'.pending ≡ s.pending
    → s'.registry ≡ (next_id s.registry).1
    → (s'.registry.counter ≡ s.registry.counter + 1) × IsNumbered s'
unfolding next_id
raised s s' bound numbered same counted =
    let count : s'.registry.counter ≡ s.registry.counter + 1 =
      ground (arith, ap (λ r. r.counter) counted) in
    (
      count,
      λ id present.
          let (n, below, named) = numbered id (rw (sym same) present) in (n, omega arith, named),
    )

pub record_sent-IsNumbered :
    {B : Type 0} (s s' : SharedState B) (out : Outbound)
    → s.registry.counter + 1 < 2 ^ 64
    → IsNumbered s
    → IsBuilt s (s', out)
    → IsNumbered (record_sent out s')
unfolding record_sent next_id
record_sent-IsNumbered s s' skip bound numbered (same, counted, named) =
    (raised s s' bound numbered same counted).1
record_sent-IsNumbered s s' disconnected bound numbered (same, counted, named) =
    (raised s s' bound numbered same counted).1
record_sent-IsNumbered s s' (send i frame p) bound numbered (same, counted, named) = λ id present.
    let (count, kept) = raised s s' bound numbered same counted in
    elim (Bool-cases (i == id)) [
      | inl is_it ↦ (
        s.registry.counter,
        omega arith,
        sym ((string_eq.same_iff i id).0 is_it) ∙ named i frame p refl,
      )
      | inr other ↦ kept id (ground (arith, other, present, get-insert i id p s'.pending))
    ]

-- Sending a command keeps the ids of the waiting requests numbered, while the counter has not wrapped.
pub build_outbound-IsNumbered :
    {B C : Type 0} (core : OctosCore C) (cmd : OutboundCommand C) (s : SharedState B)
    → s.registry.counter + 1 < 2 ^ 64
    → IsNumbered s
    → let (s', out) = build_outbound core cmd s in IsNumbered (record_sent out s')
build_outbound-IsNumbered core cmd s bound numbered =
    let built = build_outbound core cmd s in
    record_sent-IsNumbered s built.0 built.1 bound numbered (built_lem core cmd s)
