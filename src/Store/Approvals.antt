-- ===== src/Store/Approvals.antt =====
-- app/crates/octos-app-store/src/approvals.rs: approval cards and their life cycle.
pub mod Invariant
pub mod Replay
use octos_one.Prelude.{
  String, Option, some, List, [], ◌∷◌, ◌++◌, not, ◌==◌, nat_eq, if◌then◌else◌, length, retain, ℕ,
}
use octos_one.Prelude.Map.{Map, get, insert, contains_key}
use octos_one.Prelude.Text.{concat}
use octos_one.Store.Ids.{SessionKey, TurnId, ApprovalId}

-- `ApprovalDecision` of octos-core, with the variants that the client matches on.
pub data ApprovalDecision : Type 0 where
  approve deny : ApprovalDecision
  unknown : String → ApprovalDecision

-- `ApprovalRequestedEvent` of octos-core, with the fields of its constructor `generic`.
pub record ApprovalRequestedEvent : Type 0 where
  pub session_id : SessionKey
  pub approval_id : ApprovalId
  pub turn_id : TurnId
  pub tool_name : String
  pub title : String
  pub body : String

pub data ApprovalState : Type 0 where
  awaiting : ApprovalState
  pending_response_state : ApprovalDecision → ApprovalState
  decided_state : ApprovalDecision → ApprovalState
  failed_state : String → ApprovalState

pub record ApprovalsSlice : Type 0 where
  pub by_id : Map ApprovalId ApprovalRequestedEvent
  pub state : Map ApprovalId ApprovalState
  pub pending_order : List ApprovalId

abbrev pub new : ApprovalsSlice
new = record { by_id = []; state = []; pending_order = [] }

abbrev pub drop_pending : ApprovalId → List ApprovalId → List ApprovalId
drop_pending id = retain (λ x. not (x == id))

unfoldable pub requested : ApprovalsSlice → ApprovalRequestedEvent → ApprovalsSlice
requested s ev =
    let id = ev.approval_id in
    let fresh = not (contains_key id s.by_id) in
    record {
      by_id = insert id ev s.by_id;
      state = if fresh then insert id awaiting s.state else s.state;
      pending_order = if fresh then s.pending_order ++ id ∷ [] else s.pending_order;
    }

unfoldable pub pending_response : ApprovalsSlice → ApprovalId → ApprovalDecision → ApprovalsSlice
pending_response s id decision =
    if contains_key id s.by_id
    then record s { state = insert id (pending_response_state decision) s.state }
    else s

unfoldable pub decided : ApprovalsSlice → ApprovalId → ApprovalDecision → ApprovalsSlice
decided s id decision =
    if contains_key id s.by_id
    then record s {
      state = insert id (decided_state decision) s.state;
      pending_order = drop_pending id s.pending_order;
    }
    else s

unfoldable pub failed : ApprovalsSlice → ApprovalId → String → ApprovalsSlice
failed s id error =
    if contains_key id s.by_id
    then record s { state = insert id (failed_state error) s.state }
    else s

unfoldable pub cancelled : ApprovalsSlice → ApprovalId → String → ApprovalsSlice
cancelled s id reason =
    if contains_key id s.by_id
    then record s {
      state = insert id (failed_state (concat ("cancelled: " ∷ reason ∷ []))) s.state;
      pending_order = drop_pending id s.pending_order;
    }
    else s

unfoldable pub pending_count : ApprovalsSlice → ℕ
pending_count s = length s.pending_order

unfoldable pub state_for : ApprovalsSlice → ApprovalId → Option ApprovalState
state_for s id = get id s.state
