-- ===== src/Transport/Stdio.antt =====
-- app/crates/octos-app-transport/src/stdio/mod.rs: the child process as the connection.
pub mod Shutdown
use octos_one.Prelude.{
  String, Bool, true, false, Option, none, some, List, [], ◌∷◌, ◌++◌, map, if◌then◌else◌,
}
use octos_one.Prelude.Text.{codes}
use octos_one.Prelude.Chars.{is_blank}
use octos_one.Transport.CursorStore.{CursorPersist}
use octos_one.Transport.Rpc.{cancel_all}
use octos_one.Transport.Wire.{
  ConnectionState, idle, dialing, handshaking, failed, OutboundCommand, OctosCore, connection_state,
}
use octos_one.Transport.Proto.{SharedState, Effect, tried, Outbound, send, skip, disconnected}
use octos_one.Transport.Proto.Receiving.{handle_inbound_text}
use octos_one.Transport.Proto.Sending.{build_outbound, record_sent}

-- How the child comes up: no configuration, no process, no pipes, or running.
pub data Launch : Type 0 where
  not_configured spawn_failed not_piped running : Launch

-- What the loop waits for. The Boolean says whether the child's stdin accepts what is written.
pub data ChildInput (C : Type 0) : Type 0 where
  commands_closed stdout_closed read_failed child_exited : ChildInput C
  command : OutboundCommand C → Bool → ChildInput C
  line : String → ChildInput C

pub record Child (B C : Type 0) : Type 0 where
  pub shared : SharedState B
  pub state : ConnectionState
  pub effects : List (Effect C)
  pub written : List String

-- How the loop ended: the code's flag `failed` is true or false.
pub data ChildExit : Type 0 where
  abnormal clean : ChildExit

module _ {B C : Type 0} (core : OctosCore C) (persist : CursorPersist B) where
  unfoldable pub write_out :
      Outbound → Bool → SharedState B → Child B C → Child B C × Option ChildExit
  write_out disconnected accepted s c = (record c { shared = s }, some clean)
  write_out skip accepted s c = (record c { shared = s }, none)
  write_out (send id frame p) true s c = (
    record c { shared = record_sent (send id frame p) s; written = c.written ++ frame ∷ [] },
    none,
  )
  write_out (send id frame p) false s c = (record c { shared = s }, some abnormal)

  abbrev announce : Option ConnectionState → List (Effect C)
  announce none = []
  announce (some t) = tried (connection_state t) ∷ []

  unfoldable pub child_step : ChildInput C → Child B C → Child B C × Option ChildExit
  child_step commands_closed c = (c, some clean)
  child_step (command cmd accepted) c =
      let (s, out) = build_outbound core cmd c.shared in write_out out accepted s c
  child_step (line t) c =
      let (s, effects, state', transition) = handle_inbound_text core persist t c.shared c.state in
      if is_blank (codes t) then (c, none) else (
        record c {
          shared = s;
          state = state';
          effects = c.effects ++ (effects ++ announce transition);
        },
        none,
      )
  child_step stdout_closed c = (c, some abnormal)
  child_step read_failed c = (c, some abnormal)
  child_step child_exited c = (c, some abnormal)

  -- Without an exit, the loop waits for more.
  unfoldable pub child_loop : List (ChildInput C) → Child B C → Child B C × Option ChildExit
  child_loop [] c = (c, none)
  child_loop (i ∷ is) c =
      let (c', exit) = child_step i c in
      let later = child_loop is c' in elim exit [ none ↦ later | some e ↦ (c', some e) ]

  -- What the task does once it leaves the loop.
  unfoldable pub finish_child : Child B C × Option ChildExit → Child B C × Option ChildExit
  finish_child (c, none) = (c, none)
  finish_child (c, some exit) =
      let cleared : Child B C = record c {
        shared = record c.shared { registry = cancel_all c.shared.registry; pending = [] };
      } in
      elim exit [
        | abnormal ↦ (
          record cleared { effects = c.effects ++ tried (connection_state failed) ∷ [] },
          some abnormal,
        )
        | clean ↦ (cleared, some clean)
      ]

  abbrev told : SharedState B → List ConnectionState → Child B C
  told s states = record {
    shared = s;
    state = handshaking;
    effects = map (λ t. tried (connection_state t)) states;
    written = [];
  }

  unfoldable pub run_child :
      Launch → List (ChildInput C) → SharedState B → Child B C × Option ChildExit
  unfolding finish_child
  run_child not_configured is s = (told s (idle ∷ failed ∷ []), some abnormal)
  run_child spawn_failed is s = (told s (idle ∷ dialing ∷ failed ∷ []), some abnormal)
  run_child not_piped is s = (told s (idle ∷ dialing ∷ failed ∷ []), some abnormal)
  run_child running is s = finish_child (child_loop is (told s (idle ∷ dialing ∷ handshaking ∷ [])))
