-- ===== src/Transport/Proto/Channel.antt =====
-- The bounded channel of events, between the transport and a consumer that is slow but not gone
-- (`try_emit` and `emit_durable_notification` of app/crates/octos-app-transport/src/proto.rs).
pub mod Delivery
use octos_one.Prelude.{
  ℕ, zero, suc, ◌+◌, ◌≤◌, ◌<◌, ◌≡◌, refl, Bool, true, false, Option, none, some, List, [], ◌∷◌,
  ◌++◌, arith, if◌then◌else◌, length, ltb, inl, inr, sym, ◌∙◌, ap,
}
use octos_one.Transport.Wire.{TransportEvent}
use octos_one.Transport.Proto.{Effect, tried, awaited, answered, channel_buffer}

-- An event in the channel, with whether its sender waited for room.
abbrev pub Queued : Type 0 → Type 0
Queued C = Bool × TransportEvent C

-- The effects that the transport has still to carry out, the channel, and what the consumer took.
pub record Channel (C : Type 0) : Type 0 where
  pub todo : List (Effect C)
  pub queue : List (Queued C)
  pub taken : List (Queued C)

-- Who moves next; a schedule is a list of these.
pub data Turn : Type 0 where
  producer consumer : Turn

module _ {C : Type 0} where
  abbrev has_room : Channel C → Bool
  has_room c = ltb (length c.queue) channel_buffer

  abbrev enqueue : Queued C → List (Effect C) → Channel C → Channel C
  enqueue x rest c = record c { todo = rest; queue = c.queue ++ x ∷ [] }

  -- `try_send` drops the event where there is no room.
  unfoldable pub try_emit : TransportEvent C → List (Effect C) → Channel C → Channel C
  try_emit e rest c = if has_room c then enqueue (false, e) rest c else record c { todo = rest }

  -- `send` waits where there is no room: nothing moves.
  unfoldable pub emit_durable : TransportEvent C → List (Effect C) → Channel C → Channel C
  emit_durable e rest c = if has_room c then enqueue (true, e) rest c else c

  unfoldable pub produce : List (Effect C) → Channel C → Channel C
  unfolding try_emit emit_durable
  produce [] c = c
  produce (tried e ∷ rest) c = try_emit e rest c
  produce (awaited e ∷ rest) c = emit_durable e rest c
  produce (answered tx o ∷ rest) c = record c { todo = rest }

  unfoldable pub consume : List (Queued C) → Channel C → Channel C
  consume [] c = c
  consume (x ∷ rest) c = record c { queue = rest; taken = c.taken ++ x ∷ [] }

  unfoldable pub step : Turn → Channel C → Channel C
  unfolding produce consume
  step producer c = produce c.todo c
  step consumer c = consume c.queue c

  unfoldable pub run : List Turn → Channel C → Channel C
  run [] c = c
  run (t ∷ ts) c = run ts (step t c)
