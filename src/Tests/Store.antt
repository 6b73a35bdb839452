-- ===== src/Tests/Store.antt =====
-- The slices of app/crates/octos-app-store/src on concrete inputs, after the tests of those files.
use octos_one.Prelude.{◌≡◌, refl, [], ◌∷◌, arith, nat_eq, string_eq, List, String}
use octos_one.Store.Approvals.{
  ApprovalsSlice, ApprovalRequestedEvent, approve, deny, awaiting, decided_state, requested,
  decided, state_for, pending_count,
}
use octos_one.Store.Approvals
use octos_one.Store.Approvals.Invariant.{
  IsWellFormed, step-IsWellFormed, new-IsWellFormed, step, requests, decides,
}
use octos_one.Store.Sessions.{
  Session, SessionMap, new_session, insert_session, touch, sessions_for_sidebar, sidebar, without,
  len, get_session, remove_session,
}
use octos_one.Store.Sessions
use octos_one.Store.Sessions.Order.{IsIndexed, new-IsIndexed, insert_session-IsIndexed}
use octos_one.Store.Toasts.{Toast, info, default_queue}
use octos_one.Store.Toasts.Bounds.{IsBounded, push_all, newest, items-push_all}
use octos_one.Store.Files.{from_mime, image, markdown, other}

abbrev card : ApprovalRequestedEvent
card = record {
  session_id = "t:1";
  approval_id = 1;
  turn_id = 0;
  tool_name = "shell";
  title = "Run";
  body = "ls -la";
}

abbrev asked : ApprovalsSlice
asked = step Approvals.new (requests card)

asked-IsWellFormed : IsWellFormed asked
asked-IsWellFormed = step-IsWellFormed Approvals.new (requests card) new-IsWellFormed

step-IsWellFormed_example : IsWellFormed (step asked (decides 1 approve))
step-IsWellFormed_example = step-IsWellFormed asked (decides 1 approve) asked-IsWellFormed

abbrev two_sessions : SessionMap
two_sessions =
    insert_session (insert_session Sessions.new (new_session "a" "acme" "Session a" 100))
      (new_session "b" "acme" "Session b" 200)

two_sessions-IsIndexed : IsIndexed two_sessions
two_sessions-IsIndexed =
    insert_session-IsIndexed _ (new_session "b" "acme" "Session b" 200)
      (insert_session-IsIndexed _ (new_session "a" "acme" "Session a" 100) new-IsIndexed)

abbrev note : String → Toast
note message = record { kind = info; message = message }

default_queue-IsBounded : IsBounded default_queue
unfolding default_queue
default_queue-IsBounded = record { room = omega arith; within = omega arith }

abbrev four_notes : List Toast
four_notes = note "a" ∷ note "b" ∷ note "c" ∷ note "d" ∷ []

toast_queue_evicts_oldest_at_capacity : newest 3 four_notes ≡ note "b" ∷ note "c" ∷ note "d" ∷ []
unfolding newest
toast_queue_evicts_oldest_at_capacity = refl

items-push_all_example : (push_all default_queue four_notes).items ≡ newest 3 four_notes
unfolding default_queue
items-push_all_example = items-push_all default_queue four_notes default_queue-IsBounded

kind_falls_back_to_filename_for_markdown :
    (from_mime "text/plain" "NOTES.md" ≡ markdown)
    × (from_mime "text/plain" "x.txt" ≡ other)
    × (from_mime "image/png" "x.md" ≡ image)
unfolding from_mime
kind_falls_back_to_filename_for_markdown = (refl, refl, refl)
