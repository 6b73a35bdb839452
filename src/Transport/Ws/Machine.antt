-- ===== src/Transport/Ws/Machine.antt =====
-- What holds throughout a WebSocket connection, and after it
-- (app/crates/octos-app-transport/src/ws/mod.rs).
use octos_one.Prelude.{
  ℕ, suc, ◌+◌, ◌^◌, ◌<◌, ◌≡◌, ◌≢◌, ◌⊎◌, refl, String, Bool, true, false, List, [], ◌∷◌, arith,
  string_eq, length, is_some, Option-cases, inl, inr,
}
use octos_one.Prelude.Map.{get}
use octos_one.Transport.CursorStore.{CursorPersist}
use octos_one.Transport.Rpc.{RpcEnvelope, cancel_all}
use octos_one.Transport.Wire.{ConnectionState, OctosCore}
use octos_one.Transport.Proto.{SharedState, Outbound, send, skip, disconnected}
use octos_one.Transport.Proto.Receiving.{dispatch, handle_inbound_text}
use octos_one.Transport.Proto.Sending.{build_outbound, record_sent}
use octos_one.Transport.Proto.Outgoing.{
  IsNumbered, IsBuilt, built_lem, raised, record_sent-IsNumbered,
}
use octos_one.Transport.Proto.Answering.{dispatch_answers}
use octos_one.Transport.Ws.{
  Live, LiveInput, commands_closed, stream_ended, binary_frame, pong_frame, close_frame, read_error,
  command, text_frame, ping_frame, heartbeat, write_out, handle_command, live_step, run_live,
  WsMachine, Dial, Verdict, go_on, waiting, stopped, dial, dials, run_state_machine,
}

-- The counter of the ids may go up by as much as a number, and the waiting requests are numbered.
abbrev pub IsLive : {B : Type 0} → ℕ → SharedState B → Type 0
IsLive left s = (s.registry.counter + left < 2 ^ 64) × IsNumbered s

verdict_cases : (v : Verdict) → (v ≡ go_on) ⊎ (v ≡ waiting) ⊎ (v ≡ stopped)
verdict_cases go_on = inl refl
verdict_cases waiting = inr (inl refl)
verdict_cases stopped = inr (inr refl)

module _ {B C : Type 0} (core : OctosCore C) (persist : CursorPersist B) where
  dispatch-IsLive :
      (n : ℕ) (envelope : RpcEnvelope C) (s : SharedState B) (state : ConnectionState)
      → IsLive (suc n) s
      → IsLive n (dispatch core persist envelope s state).0
  dispatch-IsLive n envelope s state (bound, numbered) =
      let s' = (dispatch core persist envelope s state).0 in
      let same : s'.registry ≡ s.registry = (dispatch_answers core persist envelope s state "").2 in
      (
        ground (arith, same),
        λ id present.
            let kept : is_some (get id s.pending) ≡ true =
              ground (arith, present, (dispatch_answers core persist envelope s state id).1) in
            rw same (numbered id kept),
      )

  handle_inbound_text-IsLive :
      (n : ℕ) (frame : String) (s : SharedState B) (state : ConnectionState)
      → IsLive (suc n) s
      → IsLive n (handle_inbound_text core persist frame s state).0
  unfolding handle_inbound_text
  handle_inbound_text-IsLive n frame s state h =
      elim (Option-cases (core.envelope_from_str frame)) [
        | inl e ↦ rw (e, handle_inbound_text) (omega (arith, h.0), h.1)
        | inr (envelope, e) ↦ rw (e, handle_inbound_text) (dispatch-IsLive n envelope s state h)
      ]

  write_out-IsLive :
      (n : ℕ) (out : Outbound) (accepted : Bool) (s : SharedState B) (l : Live B C)
      → IsLive (suc n) l.shared
      → IsBuilt l.shared (s, out)
      → IsLive n (write_out core persist out accepted s l).0.shared
  unfolding write_out record_sent
  write_out-IsLive n disconnected accepted s l (bound, numbered) (same, counted, named) =
      let (count, kept) = raised l.shared s (omega arith) numbered same counted in
      (omega arith, kept)
  write_out-IsLive n skip accepted s l (bound, numbered) (same, counted, named) =
      let (count, kept) = raised l.shared s (omega arith) numbered same counted in
      (omega arith, kept)
  write_out-IsLive n (send id frame p) false s l (bound, numbered) (same, counted, named) =
      let (count, kept) = raised l.shared s (omega arith) numbered same counted in
      (omega arith, kept)
  write_out-IsLive n (send id frame p) true s l (bound, numbered) built =
      let (count, kept) = raised l.shared s (omega arith) numbered built.0 built.1 in
      (
        omega arith,
        record_sent-IsNumbered l.shared s (send id frame p) (omega arith) numbered built,
      )

  kept-IsLive : (n : ℕ) (s : SharedState B) → IsLive (suc n) s → IsLive n s
  kept-IsLive n s (bound, numbered) = (omega arith, numbered)

  -- One more input of a connection keeps the waiting requests numbered.
  live_step-IsLive :
      (n : ℕ) (i : LiveInput C) (l : Live B C)
      → IsLive (suc n) l.shared
      → IsLive n (live_step core persist i l).0.shared
  unfolding live_step handle_command
  live_step-IsLive n commands_closed l h = kept-IsLive n l.shared h
  live_step-IsLive n (command cmd accepted) l h =
      let (s, out) = build_outbound core cmd l.shared in
      write_out-IsLive n out accepted s l h (built_lem core cmd l.shared)
  live_step-IsLive n stream_ended l h = kept-IsLive n l.shared h
  live_step-IsLive n (text_frame frame) l h = handle_inbound_text-IsLive n frame l.shared l.state h
  live_step-IsLive n binary_frame l h = kept-IsLive n l.shared h
  live_step-IsLive n (ping_frame true) l h = kept-IsLive n l.shared h
  live_step-IsLive n (ping_frame false) l h = kept-IsLive n l.shared h
  live_step-IsLive n pong_frame l h = kept-IsLive n l.shared h
  live_step-IsLive n close_frame l h = kept-IsLive n l.shared h
  live_step-IsLive n read_error l h = kept-IsLive n l.shared h
  live_step-IsLive n (heartbeat true) l h = kept-IsLive n l.shared h
  live_step-IsLive n (heartbeat false) l h = kept-IsLive n l.shared h

  -- Over all the inputs of a connection, whatever they are, requests only wait under ids that were
  -- given before, if they do so at its start and as long as the counter has room for one id for
  -- each input.
  pub run_live-IsLive :
      (is : List (LiveInput C)) (l : Live B C)
      → IsLive (length is) l.shared
      → IsNumbered (run_live core persist is l).0.shared
  unfolding run_live
  run_live-IsLive [] l h = h.1
  run_live-IsLive (i ∷ is) l h =
      let now = live_step-IsLive (length is) i l h in
      elim (Option-cases (live_step core persist i l).1) [
        | inl e ↦ rw (e, run_live) (run_live-IsLive is (live_step core persist i l).0 now)
        | inr (exit, e) ↦ rw (e, run_live) now.1
      ]

  dials-stopped :
      (ds : List (Dial C)) (m : WsMachine B C)
      → m.verdict ≢ stopped
      → (dials core persist ds m).verdict ≡ stopped
      → ((dials core persist ds m).shared.pending ≡ [])
        × ((dials core persist ds m).shared.registry.pending ≡ [])
  unfolding dials cancel_all
  dials-stopped [] m other h = (ground arith, ground arith)
  dials-stopped (d ∷ ds) m other h = elim (verdict_cases (dial core persist d m).verdict) [
    | inl e ↦
        let m' = dial core persist d m in
        let running : m'.verdict ≢ stopped = ground (arith, e) in
        let left : (dials core persist ds m').verdict ≡ stopped = ground (arith, e, h) in
        let (none_pending, none_registered) = dials-stopped ds m' running left in
        (ground (arith, e, none_pending), ground (arith, e, none_registered))
    | inr (inl e) ↦ (ground (arith, e, h), ground (arith, e, h))
    | inr (inr e) ↦ (ground (arith, e), ground (arith, e))
  ]

  -- Once the machine has left its loop, no request waits, neither with it nor in its registry.
  pub run_state_machine-stopped :
      (ds : List (Dial C)) (s : SharedState B)
      → (run_state_machine core persist ds s).verdict ≡ stopped
      → ((run_state_machine core persist ds s).shared.pending ≡ [])
        × ((run_state_machine core persist ds s).shared.registry.pending ≡ [])
  unfolding run_state_machine
  run_state_machine-stopped ds s h = dials-stopped ds _ (ground arith) h
