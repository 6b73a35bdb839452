-- ===== src/Transport/Proto/Channel/Delivery.antt =====
-- What the channel of events delivers, whatever the schedule
-- (app/crates/octos-app-transport/src/proto.rs).
use octos_one.Prelude.{
  ℕ, zero, suc, ◌+◌, ◌≤◌, ◌≡◌, refl, Bool, true, false, List, [], ◌∷◌, ◌++◌, arith, length, ltb,
  ◌∙◌, ap, Bool-cases, inl, inr,
}
use mathlib.Core.List.{append_assoc}
use octos_one.Transport.Wire.{TransportEvent}
use octos_one.Transport.Proto.{Effect, tried, awaited, answered, channel_buffer}
use octos_one.Transport.Proto.Channel.{
  Channel, Queued, Turn, producer, consumer, step, run, produce, consume,
}

length-append_one : {A : Type 0} (x : List A) (a : A) → length (x ++ a ∷ []) ≡ length x + 1
length-append_one [] a = refl
length-append_one (b ∷ x) a = ground (arith, length-append_one x a)

-- The consumer takes one event before each move of the transport.
abbrev pub rounds : ℕ → List Turn
rounds zero = []
rounds (suc n) = consumer ∷ producer ∷ rounds n

module _ {C : Type 0} where
  -- The events whose sender waits, among effects and in a queue.
  abbrev pub durable_effects : List (Effect C) → List (TransportEvent C)
  durable_effects [] = []
  durable_effects (tried e ∷ es) = durable_effects es
  durable_effects (awaited e ∷ es) = e ∷ durable_effects es
  durable_effects (answered tx o ∷ es) = durable_effects es

  abbrev pub durable_events : List (Queued C) → List (TransportEvent C)
  durable_events [] = []
  durable_events ((true, e) ∷ q) = e ∷ durable_events q
  durable_events ((false, e) ∷ q) = durable_events q

  -- All the durable events: those taken, those in the channel, those to come.
  abbrev pub durable : Channel C → List (TransportEvent C)
  durable c = durable_events c.taken ++ (durable_events c.queue ++ durable_effects c.todo)

  durable_events-append :
      (p q : List (Queued C)) → durable_events (p ++ q) ≡ durable_events p ++ durable_events q
  durable_events-append [] q = refl
  durable_events-append ((true, e) ∷ p) q = ap (λ t. e ∷ t) (durable_events-append p q)
  durable_events-append ((false, e) ∷ p) q = durable_events-append p q

  durable_append :
      (b : Bool) (e : TransportEvent C) (rest : List (Effect C)) (q t : List (Queued C))
      → durable (record { todo = rest; queue = q ++ (b, e) ∷ []; taken = t })
        ≡ durable_events t
          ++ (durable_events q ++ (durable_events ((b, e) ∷ []) ++ durable_effects rest))
  durable_append b e rest q t =
      rw
        (
          durable_events-append q ((b, e) ∷ []),
          append_assoc (durable_events q) (durable_events ((b, e) ∷ [])) (durable_effects rest),
        )
        refl

  durable-produce :
      (es : List (Effect C)) (q t : List (Queued C))
      → durable (produce es (record { todo = es; queue = q; taken = t }))
        ≡ durable (record { todo = es; queue = q; taken = t })
  unfolding produce
  durable-produce [] q t = refl
  durable-produce (tried e ∷ es) q t = elim (Bool-cases (ltb (length q) channel_buffer)) [
    | inl room ↦ rw room (durable_append false e es q t)
    | inr full ↦ rw full refl
  ]
  durable-produce (awaited e ∷ es) q t = elim (Bool-cases (ltb (length q) channel_buffer)) [
    | inl room ↦ rw room (durable_append true e es q t)
    | inr full ↦ rw full refl
  ]
  durable-produce (answered tx o ∷ es) q t = refl

  durable-consume :
      (es : List (Effect C)) (q t : List (Queued C))
      → durable (consume q (record { todo = es; queue = q; taken = t }))
        ≡ durable (record { todo = es; queue = q; taken = t })
  unfolding consume
  durable-consume es [] t = refl
  durable-consume es ((true, e) ∷ q) t =
      rw
        (
          durable_events-append t ((true, e) ∷ []),
          append_assoc (durable_events t) (durable_events ((true, e) ∷ []))
              (durable_events q ++ durable_effects es),
        )
        refl
  durable-consume es ((false, e) ∷ q) t =
      rw
        (
          durable_events-append t ((false, e) ∷ []),
          append_assoc (durable_events t) (durable_events ((false, e) ∷ []))
              (durable_events q ++ durable_effects es),
        )
        refl

  durable-step : (turn : Turn) (c : Channel C) → durable (step turn c) ≡ durable c
  unfolding step
  durable-step producer c = durable-produce c.todo c.queue c.taken
  durable-step consumer c = durable-consume c.todo c.queue c.taken

  -- Whatever the schedule, no durable event is lost, doubled or reordered: those taken, followed by
  -- those in the channel and those to come, are always the same ones in the same order.
  pub durable-run : (turns : List Turn) (c : Channel C) → durable (run turns c) ≡ durable c
  unfolding run
  durable-run [] c = refl
  durable-run (turn ∷ turns) c = durable-run turns (step turn c) ∙ durable-step turn c

  length-produce :
      (es : List (Effect C)) (c : Channel C)
      → length c.queue ≤ channel_buffer
      → length (produce es c).queue ≤ channel_buffer
  unfolding produce
  length-produce [] c h = h
  length-produce (tried e ∷ es) c h = ground (arith, length-append_one c.queue (false, e))
  length-produce (awaited e ∷ es) c h = ground (arith, length-append_one c.queue (true, e))
  length-produce (answered tx o ∷ es) c h = h

  length-consume :
      (q : List (Queued C)) (c : Channel C)
      → c.queue ≡ q
      → length c.queue ≤ channel_buffer
      → length (consume q c).queue ≤ channel_buffer
  unfolding consume
  length-consume [] c e h = h
  length-consume (x ∷ q) c e h = ground (arith, ap (λ l. length l) e)

  length-step :
      (turn : Turn) (c : Channel C)
      → length c.queue ≤ channel_buffer
      → length (step turn c).queue ≤ channel_buffer
  unfolding step
  length-step producer c h = length-produce c.todo c h
  length-step consumer c h = length-consume c.queue c refl h

  -- A channel that is within its bound stays so, whatever the schedule.
  pub length-run :
      (turns : List Turn) (c : Channel C)
      → length c.queue ≤ channel_buffer
      → length (run turns c).queue ≤ channel_buffer
  unfolding run
  length-run [] c h = h
  length-run (turn ∷ turns) c h = length-run turns (step turn c) (length-step turn c h)

  todo-round :
      (n : ℕ) (es : List (Effect C)) (q t : List (Queued C))
      → length q ≤ channel_buffer
      → length es ≤ suc n
      → length (step producer (step consumer (record { todo = es; queue = q; taken = t }))).todo ≤ n
  unfolding step produce consume
  todo-round n [] [] t h k = ground arith
  todo-round n [] (x ∷ q) t h k = ground arith
  todo-round n (tried e ∷ es) [] t h k = ground arith
  todo-round n (awaited e ∷ es) [] t h k = ground arith
  todo-round n (answered tx o ∷ es) [] t h k = ground arith
  todo-round n (tried e ∷ es) (x ∷ q) t h k = ground arith
  todo-round n (awaited e ∷ es) (x ∷ q) t h k = ground arith
  todo-round n (answered tx o ∷ es) (x ∷ q) t h k = ground arith

  no_effects : (es : List (Effect C)) → length es ≤ 0 → es ≡ []
  no_effects [] h = refl
  no_effects (e ∷ es) h = ground arith

  -- If the channel is within its bound, the transport never waits for ever on a consumer that keeps
  -- taking events: after as many rounds as it had effects, all of them are carried out.
  pub todo-run :
      (n : ℕ) (c : Channel C)
      → length c.queue ≤ channel_buffer
      → length c.todo ≤ n
      → (run (rounds n) c).todo ≡ []
  unfolding run
  todo-run zero c h enough = no_effects c.todo enough
  todo-run (suc n) c h enough =
      todo-run n (step producer (step consumer c))
        (length-step producer (step consumer c) (length-step consumer c h))
        (todo-round n c.todo c.queue c.taken h enough)
