-- ===== src/Tests/Bridging.antt =====
-- The bridge of app/app/src/backend/octos_ui.rs on concrete inputs.
use octos_one.Prelude.{
  ◌≡◌, refl, true, false, none, List, [], ◌∷◌, if◌then◌else◌, eqb, nat_eq, string_eq,
}
use octos_one.Prelude.Map.{get}
use octos_one.Store.Events.{turn_completed, TurnCompletedEvent, message_delta}
use octos_one.Store.Model.{new}
use octos_one.Store.Reducer.Validity.{new-IsValid}
use octos_one.Transport.Wire.{live, reconnecting}
use octos_one.Shell.Bridge.{
  Agent, new_agent, create_session, send_prompt, cancel_prompt, interrupt_turn, make_session_key,
}
use octos_one.Shell.Bridge.Events.{
  Inbound, connection_state, durable_notification, ephemeral_notification, plain, handle_event,
  connection_event_of, AgentEvent, turn_complete, rpc_error,
}
use octos_one.Shell.Bridge.Mapping.{IsMapped, send_prompt-IsMapped, cancel_prompt-send_prompt}
use octos_one.Shell.Bridge.Mirror.{IsMirrored, handle_event-IsMirrored}
use octos_one.Shell.Bridge.Quiet.{is_heard}
use octos_one.Shell.Bridge.Silence.{events-turn_completed}

abbrev fresh : Agent
fresh = new_agent none "main" true

fresh-IsMapped : IsMapped fresh
unfolding new_agent get
fresh-IsMapped = record { forth = λ p t h. cc; back = λ p t h. cc; owned = λ p h. refl }

fresh-IsMirrored : IsMirrored fresh new
unfolding new_agent new connection_event_of
fresh-IsMirrored = record { valid = new-IsValid; shown = refl }

key : make_session_key 1700000000 fresh 3 ≡ "main:api:6553f100-00000003"
unfolding make_session_key new_agent
key = refl

abbrev in_session : Agent
in_session = (create_session 1700000000 3 none fresh).0

abbrev asked : Agent
asked = (send_prompt 7 11 3 "hello" in_session).0

in_session-IsMapped : IsMapped in_session
unfolding create_session
in_session-IsMapped = record {
  forth = fresh-IsMapped.forth;
  back = fresh-IsMapped.back;
  owned = fresh-IsMapped.owned;
}

asked-IsMapped : IsMapped asked
unfolding get create_session new_agent
asked-IsMapped = send_prompt-IsMapped 7 11 3 "hello" in_session refl refl in_session-IsMapped

abbrev dialled : List Inbound
dialled =
    connection_state live
    ∷ connection_state (reconnecting 1)
    ∷ rpc_error "session/open" "no such profile" "-32000"
    ∷ []

handle_event-IsMirrored_example :
    IsMirrored (handle_event 5 dialled fresh new).agent (handle_event 5 dialled fresh new).store
handle_event-IsMirrored_example = handle_event-IsMirrored 5 dialled fresh new fresh-IsMirrored

abbrev over : TurnCompletedEvent
over = record { session_id = "main:api:6553f100-00000003"; turn_id = 11; cursor = none }

abbrev done : Inbound
done = durable_notification (plain (turn_completed over)) none

abbrev late : List Inbound
late =
    ephemeral_notification (
      plain (
        message_delta
          (record { session_id = "main:api:6553f100-00000003"; turn_id = 11; text = "late" })))
    ∷ done
    ∷ []

events-turn_completed_example :
    (rest : List AgentEvent) × ((handle_event 5 (done ∷ late) asked new).events
      ≡ turn_complete 7 ∷ rest)
    × (is_heard 7 rest ≡ false)
unfolding get send_prompt create_session new_agent
events-turn_completed_example =
    events-turn_completed 5 over none late 7 asked new asked-IsMapped refl

cancel_prompt-send_prompt_example : cancel_prompt 7 (send_prompt 7 11 3 "hello" in_session).0 ≡ (
    if eqb 7 7
    then interrupt_turn (make_session_key 1700000000 fresh 3) 11 ∷ []
    else cancel_prompt 7 in_session)
unfolding get create_session new_agent
cancel_prompt-send_prompt_example =
    cancel_prompt-send_prompt 7 7 11 3 (make_session_key 1700000000 fresh 3) "hello" in_session refl
