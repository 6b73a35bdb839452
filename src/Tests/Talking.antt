-- ===== src/Tests/Talking.antt =====
-- The transports of app/crates/octos-app-transport/src on concrete inputs.
use octos_one.Prelude.{
  ℕ, ◌≡◌, ◌⊎◌, refl, true, false, none, some, List, [], ◌∷◌, arith, string_eq, if◌then◌else◌, ◌==◌,
  any, count,
}
use octos_one.Prelude.Map.{get}
use octos_one.Prelude.Text.{show}
use octos_one.Store.Ids.{UiCursor}
use octos_one.Transport.Json.{Json, null, text, object, field, end, get_key, field_of}
use octos_one.Transport.Rpc.{notification, response, ok, next_id, new_registry, serialize_request}
use octos_one.Transport.Capability.{requested_features, from_supported_features}
use octos_one.Transport.Capability.Negotiation.{requested_features-from_supported_features}
use octos_one.Transport.CursorStore.{noop_cursor_persist, in_memory, get_cursor}
use octos_one.Transport.Wire.{
  OctosCore, SessionOpenParams, open_session, list_sessions, session_open, handshaking, live,
  durable_notification, ephemeral_notification,
}
use octos_one.Transport.Proto.{SharedState, approval, lifecycle, session_list, tried, awaited}
use octos_one.Transport.Proto.Receiving.{dispatch, handle_inbound_text}
use octos_one.Transport.Proto.Sending.{build_outbound}
use octos_one.Transport.Proto.Outgoing.{IsNumbered, build_outbound_fresh}
use octos_one.Transport.Proto.Incoming.{get_cursor-handle_inbound_text, dispatch_transition, Opens}
use octos_one.Transport.Proto.Answering.{senders, dispatch_answers}
use octos_one.Transport.Proto.Channel.{Channel, producer, consumer, run}
use octos_one.Transport.Proto.Channel.Delivery.{durable, durable-run, rounds, todo-run}
use octos_one.Transport.Ws.{Live, LiveInput, text_frame, command, run_live, rested}
use octos_one.Transport.Ws.Budget.{all_retry, all_retry-no_clock, no_clock}
use octos_one.Transport.Ws.Machine.{run_live-IsLive}
use octos_one.Transport.Stdio.{Child, ChildInput, line, commands_closed}

abbrev nine : UiCursor
nine = record { stream = "main"; seq = 9 }

abbrev note : Json
note = object (field "cursor" null (field "session_id" (text "cli:demo") end))

-- Values of octos-core are numbers here; a frame is one of three texts.
abbrev core : OctosCore ℕ
core = record {
  session_open_method = "session/open";
  turn_start_method = "turn/start";
  turn_interrupt_method = "turn/interrupt";
  approval_respond_method = "approval/respond";
  diff_preview_get_method = "diff/preview/get";
  task_output_read_method = "task/output/read";
  session_list_method = "session/list";
  session_hydrate_method = "session/hydrate";
  message_delta_method = "message/delta";
  session_open_to_value = λ p. some null;
  to_value = λ p. some null;
  session_list_to_value = λ p. some null;
  session_hydrate_to_value = λ k after include. some null;
  to_string = λ j. some "{}";
  envelope_from_str = λ t.
      if t == "note"
      then some (notification "turn/completed" note)
      else if t == "reply"
      then some (response "0" null)
      else none;
  notification_from = λ method params. some 1;
  lifecycle_from = λ method result. some (some (session_open 2));
  approval_from = λ result. ok 3;
  diff_preview_from = λ result. ok 4;
  task_output_from = λ result. ok 5;
  session_list_from = λ result. some 6;
  cursor_from = λ j. some nine;
  session_key_from = λ j. some "cli:demo";
  invalid_params = λ e. 7;
}

abbrev fresh : SharedState (Unit {0})
fresh = record {
  cursors = in_memory;
  pending_initial = some nine;
  pending = [];
  registry = new_registry;
}

fresh-IsNumbered : IsNumbered fresh
unfolding get
fresh-IsNumbered id h = ground arith

-- The state once an approval was sent, whose answer a oneshot awaits.
abbrev asked : SharedState (Unit {0})
asked = record fresh {
  pending = ("0", record { method = "approval/respond"; reply = approval 8 }) ∷ [];
  registry = record { pending = []; counter = 1 };
}

asked-IsNumbered : IsNumbered asked
unfolding get show
asked-IsNumbered id h = (0, omega arith, ground (arith, string_eq.same_iff "0" id))

requested_features-from_supported_features_example :
    count "future.v1"
      (requested_features (from_supported_features ("future.v1" ∷ "future.v1" ∷ [])))
    ≡ 1
unfolding any
requested_features-from_supported_features_example =
    requested_features-from_supported_features ("future.v1" ∷ "future.v1" ∷ []) "future.v1"

abbrev open_params : SessionOpenParams ℕ
open_params = record { session_id = "cli:demo"; after = none; others = 0 }

build_outbound_fresh_example : get "1" asked.pending ≡ none
unfolding build_outbound next_id show serialize_request
build_outbound_fresh_example =
    build_outbound_fresh core list_sessions asked "1" "{}"
      (record { method = "session/list"; reply = session_list }) asked-IsNumbered refl

get_cursor-handle_inbound_text_example :
    get_cursor "cli:demo"
      (handle_inbound_text core noop_cursor_persist "note" fresh handshaking).0.cursors
    ≡ some nine
unfolding get_key field_of
get_cursor-handle_inbound_text_example =
    get_cursor-handle_inbound_text core noop_cursor_persist "cli:demo" "note" fresh handshaking

dispatch_answers_example :
    senders (dispatch core noop_cursor_persist (response "0" null) asked live).1 ≡ 8 ∷ []
unfolding get
dispatch_answers_example =
    (dispatch_answers core noop_cursor_persist (response "0" null) asked live "0").0

abbrev opening : SharedState (Unit {0})
opening = record asked {
  pending = ("0", record { method = "session/open"; reply = lifecycle }) ∷ [];
}

dispatch_transition_example :
    let t = dispatch core noop_cursor_persist (response "0" null) opening handshaking in
    ((t.2 ≡ handshaking) × (t.3 ≡ none))
    ⊎ ((t.2 ≡ live)
        × (t.3 ≡ some live)
        × (false ≡ false)
        × Opens core noop_cursor_persist (response "0" null) opening)
dispatch_transition_example =
    dispatch_transition core noop_cursor_persist (response "0" null) opening handshaking

abbrev emitting : Channel ℕ
emitting = record {
  todo = tried (ephemeral_notification 1) ∷ awaited (durable_notification 2 (some nine)) ∷ [];
  queue = [];
  taken = [];
}

durable-run_example :
    durable (run (producer ∷ producer ∷ consumer ∷ []) emitting)
    ≡ durable_notification 2 (some nine) ∷ []
durable-run_example = durable-run (producer ∷ producer ∷ consumer ∷ []) emitting

todo-run_example : (run (rounds 2) emitting).todo ≡ []
todo-run_example = todo-run 2 emitting (omega arith) (omega arith)

all_retry-no_clock_example : all_retry (no_clock 1000) rested ≡ true
all_retry-no_clock_example = all_retry-no_clock 1000 rested (omega arith)

abbrev connected_state : Live (Unit {0}) ℕ
connected_state = record { shared = fresh; state = handshaking; effects = []; sent = [] }

abbrev inputs : List (LiveInput ℕ)
inputs = command (open_session open_params) true ∷ text_frame "reply" ∷ text_frame "note" ∷ []

run_live-IsLive_example :
    IsNumbered (run_live core noop_cursor_persist inputs connected_state).0.shared
run_live-IsLive_example =
    run_live-IsLive core noop_cursor_persist inputs connected_state (omega arith, fresh-IsNumbered)

abbrev child : Child (Unit {0}) ℕ
child = record { shared = asked; state = live; effects = []; written = [] }

abbrev child_inputs : List (ChildInput ℕ)
child_inputs = line "note" ∷ commands_closed ∷ []
