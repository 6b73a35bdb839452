-- ===== src/Tests/Reducing.antt =====
-- The reducer of app/crates/octos-app-store/src/state.rs on concrete histories.
use octos_one.Prelude.{
  ◌≡◌, refl, none, some, [], ◌∷◌, true, String, List, string_eq, nat_eq, ◌==◌, ◌≢◌, if◌then◌else◌,
}
use octos_one.Prelude.Map.{get}
use octos_one.Store.Ids.{DateTime}
use octos_one.Store.Sessions.{new_session, get_session}
use octos_one.Store.Turns.{started, interrupted}
use octos_one.Store.Navigation.{open_session, home}
use octos_one.Store.Events.{
  TurnErrorEvent, TurnCompletedEvent, turn_started, message_delta, turn_completed, turn_error,
}
use octos_one.Store.Model.{
  AppState, Event, protocol, snapshot, sessions_hydrated, session_removed, navigation_event, new,
}
use octos_one.Store.Reducer.{run, reduce, apply_protocol}
use octos_one.Store.Reducer.Validity.{IsValid, run-new-IsValid, reduce-IsValid}
use octos_one.Store.Reducer.Cursor.{apply_protocol_cursor}
use octos_one.Store.Reducer.Streaming.{live, live_after, live-run}
use octos_one.Store.Reducer.Ending.{has_ended, run_ended, end_of_turn}
use octos_one.Store.Reducer.Activity.{IsFlagged, apply_protocol-IsFlagged}
use octos_one.Store.Reducer.Leaving.{session_removed_lem}

abbrev begin : Event
begin =
    protocol (some (record { stream = "main"; seq = 7 }))
      (turn_started (record { session_id = "t:1"; turn_id = 1; timestamp = 100 }))

abbrev delta : String → Event
delta text = protocol none (message_delta (record { session_id = "t:1"; turn_id = 1; text = text }))

abbrev completion : TurnCompletedEvent
completion = record {
  session_id = "t:1";
  turn_id = 1;
  cursor = some (record { stream = "main"; seq = 9 });
}

abbrev stop : TurnErrorEvent
stop = record { session_id = "t:1"; turn_id = 1; code = "interrupted"; message = "user stopped" }

abbrev seeded : List (DateTime × Event)
seeded = (0, snapshot (sessions_hydrated (new_session "t:1" "acme" "S" 0 ∷ []))) ∷ (1, begin) ∷ []

abbrev talk : List (DateTime × Event)
talk = (2, delta "hel") ∷ (3, delta "lo") ∷ []

run-new-IsValid_example : IsValid (run new seeded)
run-new-IsValid_example = run-new-IsValid seeded

reduce-IsValid_example : IsValid (reduce 5 (run new seeded) (navigation_event (open_session "t:1")))
reduce-IsValid_example =
    reduce-IsValid 5 (run new seeded) (navigation_event (open_session "t:1"))
      (run-new-IsValid seeded)

apply_protocol_cursor_example :
    get "t:1" (apply_protocol 4 none (turn_completed completion) (run new seeded)).cursor
    ≡ some (record { stream = "main"; seq = 9 })
apply_protocol_cursor_example =
    apply_protocol_cursor 4 none (turn_completed completion) (run new seeded) "t:1"

live-run_example : live 1 (run new talk) ≡ live_after 1 (live 1 new) talk
live-run_example = live-run 1 new talk

-- A state that knows one turn, which is under way.
abbrev under_way : AppState
under_way = record (run new seeded) { turns = (1, started 1 "t:1" 100) ∷ [] }

abbrev over : AppState
over = record under_way { turns = (1, record (started 1 "t:1" 100) { status = interrupted }) ∷ [] }

run_ended_example : has_ended 1 (run over ((6, begin) ∷ talk)).turns ≡ true
unfolding get
run_ended_example = run_ended 1 over ((6, begin) ∷ talk) refl

end_of_turn_example :
    get 1 (apply_protocol 8 none (turn_error stop) under_way).turns
    ≡ some (record (started 1 "t:1" 100) {
      status = interrupted;
      error = some "user stopped";
      completed_at = some 8;
    })
unfolding get
end_of_turn_example = (end_of_turn 8 under_way (started 1 "t:1" 100) none).0 stop refl

apply_protocol-IsFlagged_example :
    IsFlagged "t:1" (apply_protocol 9 none (turn_completed completion) under_way)
apply_protocol-IsFlagged_example = (apply_protocol-IsFlagged 9 none under_way).1 completion

session_removed_lem_example :
    let st' = reduce 3 (run new seeded) (snapshot (session_removed "t:1")) in
    (get_session st'.sessions "t:1" ≡ (
      if ◌==◌ {A = String} "t:1" "t:1" then none else get_session (run new seeded).sessions "t:1"))
    × (get "t:1" st'.cursor
        ≡ (if ◌==◌ {A = String} "t:1" "t:1" then none else get "t:1" (run new seeded).cursor))
    × (st'.current_session ≢ some "t:1")
    × ((run new seeded).current_session ≡ some "t:1"
        → (st'.current_session ≡ none) × (st'.navigation ≡ home))
    × ((run new seeded).current_session ≢ some "t:1"
        → (st'.current_session ≡ (run new seeded).current_session)
          × (st'.navigation ≡ (run new seeded).navigation))
    × (st'.turns ≡ (run new seeded).turns)
    × (st'.tasks ≡ (run new seeded).tasks)
    × (st'.tool_calls ≡ (run new seeded).tool_calls)
    × (st'.approvals ≡ (run new seeded).approvals)
session_removed_lem_example = session_removed_lem 3 (run new seeded) "t:1" "t:1"
