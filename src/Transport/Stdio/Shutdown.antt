-- ===== src/Transport/Stdio/Shutdown.antt =====
-- How the stdio transport ends (app/crates/octos-app-transport/src/stdio/mod.rs).
use octos_one.Prelude.{
  ◌≡◌, ◌≢◌, refl, ap, any, Bool, true, false, Option, none, some, List, [], ◌∷◌, ◌++◌, arith,
  string_eq, Option-cases, inl, inr,
}
use octos_one.Transport.CursorStore.{CursorPersist}
use octos_one.Transport.Rpc.{cancel_all}
use octos_one.Transport.Wire.{
  failed, OutboundCommand, open_session, open_session_fresh, list_sessions, hydrate_session,
  start_turn, interrupt_turn, send_approval_response, fetch_diff_preview, request_task_output,
  disconnect, OctosCore, connection_state,
}
use octos_one.Transport.Proto.{SharedState, Effect, tried, Outbound, send, skip, disconnected}
use octos_one.Transport.Proto.Sending.{build_outbound, finish}
use octos_one.Transport.Stdio.{
  ChildInput, commands_closed, stdout_closed, read_failed, child_exited, command, line, Child,
  ChildExit, abnormal, clean, write_out, child_step, child_loop, finish_child,
}

-- What is announced on leaving the loop: the failure of the connection, unless the exit is clean.
abbrev pub farewell : {C : Type 0} → Option ChildExit → List (Effect C)
farewell none = []
farewell (some clean) = []
farewell (some abnormal) = tried (connection_state failed) ∷ []

-- A request to shut down: the app dropped the commands, or asked to disconnect.
abbrev pub is_shutdown : {C : Type 0} → ChildInput C → Bool
is_shutdown commands_closed = true
is_shutdown (command disconnect accepted) = true
is_shutdown _ = false

module _ {B C : Type 0} (core : OctosCore C) (persist : CursorPersist B) where
  append-nil : (es : List (Effect C)) → es ≡ es ++ []
  append-nil [] = refl
  append-nil (e ∷ es) = ap (λ t. e ∷ t) (append-nil es)

  -- On leaving the loop the task announces the failure exactly if the exit is abnormal, nothing else,
  -- and no request waits any more; while it is in the loop nothing changes.
  pub finish_child_lem :
      (c : Child B C) (exit : Option ChildExit)
      → let (c', exit') = finish_child core persist (c, exit) in
        (exit' ≡ exit)
        × (c'.effects ≡ c.effects ++ farewell exit)
        × (exit ≢ none → (c'.shared.pending ≡ []) × (c'.shared.registry.pending ≡ []))
  unfolding finish_child cancel_all
  finish_child_lem c none = (refl, append-nil c.effects, ground arith)
  finish_child_lem c (some clean) = (refl, append-nil c.effects, λ h. (refl, refl))
  finish_child_lem c (some abnormal) = (refl, refl, λ h. (refl, refl))

  write_out-clean :
      (out : Outbound) (accepted : Bool) (s : SharedState B) (c : Child B C)
      → (write_out core persist out accepted s c).1 ≡ some clean
      → out ≡ disconnected
  unfolding write_out
  write_out-clean disconnected accepted s c h = refl
  write_out-clean skip accepted s c h = ground arith
  write_out-clean (send id frame p) true s c h = ground arith
  write_out-clean (send id frame p) false s c h = ground arith

  build_outbound-disconnected :
      (cmd : OutboundCommand C) (s : SharedState B)
      → (build_outbound core cmd s).1 ≡ disconnected
      → cmd ≡ disconnect
  unfolding build_outbound finish
  build_outbound-disconnected (open_session x) s h = ground arith
  build_outbound-disconnected (open_session_fresh x) s h = ground arith
  build_outbound-disconnected list_sessions s h = ground arith
  build_outbound-disconnected (hydrate_session k) s h = ground arith
  build_outbound-disconnected (start_turn p) s h = ground arith
  build_outbound-disconnected (interrupt_turn p) s h = ground arith
  build_outbound-disconnected (send_approval_response p tx) s h = ground arith
  build_outbound-disconnected (fetch_diff_preview p tx) s h = ground arith
  build_outbound-disconnected (request_task_output p tx) s h = ground arith
  build_outbound-disconnected disconnect s h = refl

  child_step-clean :
      (i : ChildInput C) (c : Child B C)
      → (child_step core persist i c).1 ≡ some clean
      → is_shutdown i ≡ true
  unfolding child_step
  child_step-clean commands_closed c h = refl
  child_step-clean (command cmd accepted) c h =
      let (s, out) = build_outbound core cmd c.shared in
      let asked = build_outbound-disconnected cmd c.shared (write_out-clean out accepted s c h) in
      rw asked refl
  child_step-clean (line t) c h = ground arith
  child_step-clean stdout_closed c h = ground arith
  child_step-clean read_failed c h = ground arith
  child_step-clean child_exited c h = ground arith

  -- The transport shuts down without announcing a failure only if the app asked for it.
  pub child_loop-clean :
      (is : List (ChildInput C)) (c : Child B C)
      → (child_loop core persist is c).1 ≡ some clean
      → any is_shutdown is ≡ true
  unfolding child_loop any
  child_loop-clean [] c h = ground arith
  child_loop-clean (i ∷ is) c h = elim (Option-cases (child_step core persist i c).1) [
    | inl e ↦
        ground (arith, child_loop-clean is (child_step core persist i c).0 (ground (arith, e, h)))
    | inr (exit, e) ↦ ground (arith, child_step-clean i c (ground (arith, e, h)))
  ]
