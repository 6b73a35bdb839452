-- ===== src/Transport/Ws.antt =====
-- app/crates/octos-app-transport/src/ws/mod.rs: the state machine of the WebSocket connection.
pub mod Budget
pub mod Machine
use octos_one.Prelude.{
  ℕ, suc, ◌+◌, ◌-◌, ◌*◌, ◌%◌, ◌^◌, String, Bool, true, false, Option, none, some, List, [], ◌∷◌,
  ◌++◌, ltb, leb, eqb, if◌then◌else◌,
}
use octos_one.Transport.CursorStore.{CursorPersist}
use octos_one.Transport.Rpc.{cancel_all}
use octos_one.Transport.Wire.{
  ConnectionState, idle, dialing, handshaking, reconnecting, failed, OutboundCommand, OctosCore,
  TransportEvent, connection_state,
}
use octos_one.Transport.Proto.{SharedState, Effect, tried, Outbound, send, skip, disconnected}
use octos_one.Transport.Proto.Receiving.{handle_inbound_text}
use octos_one.Transport.Proto.Sending.{build_outbound, record_sent}

abbrev pub reconnect_delay_max : ℕ
reconnect_delay_max = 30

abbrev pub reconnect_budget : ℕ
reconnect_budget = 5 * 60

abbrev pub min : ℕ → ℕ → ℕ
min a b = if leb a b then a else b

-- The clock's nanoseconds since the epoch; `none` is a clock before it.
unfoldable pub pseudo_jitter_secs : Option ℕ → ℕ → ℕ
pseudo_jitter_secs clock max_exclusive =
    if leb max_exclusive 1
    then 0
    else elim clock [ none ↦ 0 | some ns ↦ ns % 2 ^ 64 % max_exclusive ]

-- Seconds.
unfoldable pub next_backoff : Option ℕ → ℕ → ℕ
unfolding pseudo_jitter_secs
next_backoff clock attempt =
    if eqb attempt 0
    then 0
    else min (pseudo_jitter_secs clock (2 ^ min (attempt - 1) 5)) reconnect_delay_max

-- `saturating_add(1)` on 32 bits.
abbrev pub saturating_succ : ℕ → ℕ
saturating_succ n = if ltb (suc n) (2 ^ 32) then suc n else n

pub record Backoff : Type 0 where
  pub attempt : ℕ
  pub total_wait : ℕ

abbrev pub rested : Backoff
rested = record { attempt = 0; total_wait = 0 }

-- Whether to retry, and the state that is announced.
unfoldable pub run_reconnect : Option ℕ → Backoff → Backoff × ConnectionState × Bool
unfolding next_backoff
run_reconnect clock b =
    let n = saturating_succ b.attempt in
    let total = b.total_wait + next_backoff clock n in
    let b' : Backoff = record { attempt = n; total_wait = total } in
    if ltb reconnect_budget total then (b', failed, false) else (b', reconnecting n, true)

-- What the loop of a connection waits for. The Boolean says whether the socket accepts what is sent.
pub data LiveInput (C : Type 0) : Type 0 where
  commands_closed stream_ended binary_frame pong_frame close_frame read_error : LiveInput C
  command : OutboundCommand C → Bool → LiveInput C
  text_frame : String → LiveInput C
  ping_frame heartbeat : Bool → LiveInput C

pub data LiveExit : Type 0 where
  exit_disconnect exit_reconnect : LiveExit

-- The state of a connection, what it has emitted, and the frames that it has sent.
pub record Live (B C : Type 0) : Type 0 where
  pub shared : SharedState B
  pub state : ConnectionState
  pub effects : List (Effect C)
  pub sent : List String

module _ {B C : Type 0} (core : OctosCore C) (persist : CursorPersist B) where
  abbrev pub Stepped : Type 0
  Stepped = Live B C × Option LiveExit

  -- A frame is written to the socket, and its request recorded if that succeeds.
  unfoldable pub write_out : Outbound → Bool → SharedState B → Live B C → Stepped
  write_out disconnected accepted s l = (record l { shared = s }, some exit_disconnect)
  write_out skip accepted s l = (record l { shared = s }, none)
  write_out (send id frame p) true s l =
      (record l { shared = record_sent (send id frame p) s; sent = l.sent ++ frame ∷ [] }, none)
  write_out (send id frame p) false s l = (record l { shared = s }, some exit_reconnect)

  -- `handle_command`, whose outcome is the loop's next move.
  unfoldable pub handle_command : OutboundCommand C → Bool → Live B C → Stepped
  unfolding write_out
  handle_command cmd accepted l =
      let (s, out) = build_outbound core cmd l.shared in write_out out accepted s l

  abbrev announce : Option ConnectionState → List (Effect C)
  announce none = []
  announce (some t) = tried (connection_state t) ∷ []

  abbrev unless_sent : Bool → Live B C → Stepped
  unless_sent true l = (l, none)
  unless_sent false l = (l, some exit_reconnect)

  unfoldable pub live_step : LiveInput C → Live B C → Stepped
  unfolding handle_command
  live_step commands_closed l = (l, some exit_disconnect)
  live_step (command cmd accepted) l = handle_command cmd accepted l
  live_step stream_ended l = (l, some exit_reconnect)
  live_step (text_frame frame) l =
      let (s, effects, state', transition) =
        handle_inbound_text core persist frame l.shared l.state in
      (
        record l {
          shared = s;
          state = state';
          effects = l.effects ++ (effects ++ announce transition);
        },
        none,
      )
  live_step binary_frame l = (l, none)
  live_step (ping_frame accepted) l = unless_sent accepted l
  live_step pong_frame l = (l, none)
  live_step close_frame l = (l, some exit_reconnect)
  live_step read_error l = (l, some exit_reconnect)
  live_step (heartbeat accepted) l = unless_sent accepted l

  -- Without an exit, the loop waits for more.
  unfoldable pub run_live : List (LiveInput C) → Live B C → Stepped
  run_live [] l = (l, none)
  run_live (i ∷ is) l =
      let (l', exit) = live_step i l in
      let later = run_live is l' in elim exit [ none ↦ later | some e ↦ (l', some e) ]

-- One turn of the outer loop: what building the request, connecting and the connection bring, and
-- the clock that a backoff reads.
pub data Dial (C : Type 0) : Type 0 where
  bad_request : Dial C
  connect_failed : Option ℕ → Dial C
  connected : List (LiveInput C) → Option ℕ → Dial C

pub data Verdict : Type 0 where
  go_on waiting stopped : Verdict

pub record WsMachine (B C : Type 0) : Type 0 where
  pub shared : SharedState B
  pub backoff : Backoff
  pub effects : List (Effect C)
  pub verdict : Verdict

module _ {B C : Type 0} (core : OctosCore C) (persist : CursorPersist B) where
  abbrev pub emit : ConnectionState → WsMachine B C → WsMachine B C
  emit t m = record m { effects = m.effects ++ tried (connection_state t) ∷ [] }

  unfoldable pub reconnect : Option ℕ → WsMachine B C → WsMachine B C
  unfolding run_reconnect
  reconnect clock m =
      let (b, t, again) = run_reconnect clock m.backoff in
      let m' = emit t (record m { backoff = b }) in
      if again then m' else record m' { verdict = stopped }

  -- What the exit of a connection leads to; without an exit the machine is still in it.
  unfoldable pub after_live : Live B C × Option LiveExit → Option ℕ → WsMachine B C → WsMachine B C
  unfolding reconnect
  after_live (l, exit) clock m =
      let m' = record m { shared = l.shared; effects = m.effects ++ l.effects } in
      let again = reconnect clock m' in
      elim exit [
        | none ↦ record m' { verdict = waiting }
        | some exit_disconnect ↦ record m' { verdict = stopped }
        | some exit_reconnect ↦ again
      ]

  unfoldable pub dial : Dial C → WsMachine B C → WsMachine B C
  unfolding after_live
  dial bad_request m = record (emit failed (emit dialing m)) { verdict = stopped }
  dial (connect_failed clock) m = reconnect clock (emit dialing m)
  dial (connected inputs clock) m =
      let m' = emit handshaking (record (emit dialing m) { backoff = rested }) in
      let start : Live B C = record {
        shared = m'.shared;
        state = handshaking;
        effects = [];
        sent = [];
      } in
      after_live (run_live core persist inputs start) clock m'

  -- What the task does once it leaves the loop.
  abbrev pub shut_down : WsMachine B C → WsMachine B C
  shut_down m = record m {
    shared = record m.shared { registry = cancel_all m.shared.registry; pending = [] };
  }

  -- The machine over the turns that it is given. It has left the loop if its verdict is `stopped`,
  -- and is still in a connection if it is `waiting`.
  unfoldable pub dials : List (Dial C) → WsMachine B C → WsMachine B C
  dials [] m = m
  dials (d ∷ ds) m =
      let m' = dial d m in
      let later = dials ds m' in
      elim m'.verdict [ go_on ↦ later | waiting ↦ m' | stopped ↦ shut_down m' ]

  unfoldable pub run_state_machine : List (Dial C) → SharedState B → WsMachine B C
  run_state_machine ds s = dials ds (record {
    shared = s;
    backoff = rested;
    effects = tried (connection_state idle) ∷ [];
    verdict = go_on;
  })
