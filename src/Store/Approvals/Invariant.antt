-- ===== src/Store/Approvals/Invariant.antt =====
-- What holds of the approvals slice (app/crates/octos-app-store/src/approvals.rs) at all times.
use octos_one.Prelude.{
  ◌≡◌, ◌≤◌, ◌<◌, ◌∷◌, [], String, some, true, arith, count, count-append, count-retain, nat_eq,
}
use octos_one.Prelude.Text.{concat}
use octos_one.Prelude.Map.{get, contains_key, get-insert}
use octos_one.Store.Ids.{ApprovalId}
use octos_one.Store.Approvals.{
  ApprovalsSlice, ApprovalDecision, ApprovalRequestedEvent, awaiting, decided_state,
  pending_response_state, failed_state, requested, pending_response, decided, failed, cancelled,
  new,
}

-- What the slice knows of one identifier.
pub record IsSound (s : ApprovalsSlice) (id : ApprovalId) : Type 0 where
  pub tracked : contains_key id s.by_id ≡ contains_key id s.state
  pub once : count id s.pending_order ≤ 1
  pub known : 0 < count id s.pending_order → contains_key id s.by_id ≡ true
  pub open_listed : get id s.state ≡ some awaiting → count id s.pending_order ≡ 1
  pub closed_unlisted :
      (d : ApprovalDecision)
      → get id s.state ≡ some (decided_state d)
      → count id s.pending_order ≡ 0

abbrev pub IsWellFormed : ApprovalsSlice → Type 0
IsWellFormed s = (id : ApprovalId) → IsSound s id

requested-IsSound :
    (s : ApprovalsSlice) (ev : ApprovalRequestedEvent) (id : ApprovalId)
    → IsSound s id
    → IsSound (requested s ev) id
unfolding requested count
requested-IsSound s ev id v = ground (
  arith,
  get-insert ev.approval_id id ev s.by_id,
  get-insert ev.approval_id id awaiting s.state,
  count-append id s.pending_order (ev.approval_id ∷ []),
)

module _ (s : ApprovalsSlice) (j : ApprovalId) where
  pending_response-IsSound :
      (d : ApprovalDecision) (id : ApprovalId) → IsSound s id → IsSound (pending_response s j d) id
  unfolding pending_response
  pending_response-IsSound d id v =
      ground (arith, get-insert j id (pending_response_state d) s.state)

  failed-IsSound : (e : String) (id : ApprovalId) → IsSound s id → IsSound (failed s j e) id
  unfolding failed
  failed-IsSound e id v = ground (arith, get-insert j id (failed_state e) s.state)

  decided-IsSound :
      (d : ApprovalDecision) (id : ApprovalId) → IsSound s id → IsSound (decided s j d) id
  unfolding decided
  decided-IsSound d id v =
      ground (arith, get-insert j id (decided_state d) s.state, count-retain j id s.pending_order)

  cancelled-IsSound : (r : String) (id : ApprovalId) → IsSound s id → IsSound (cancelled s j r) id
  unfolding cancelled
  cancelled-IsSound r id v = ground (
    arith,
    get-insert j id (failed_state (concat ("cancelled: " ∷ r ∷ []))) s.state,
    count-retain j id s.pending_order,
  )

-- The five calls by which the slice changes.
pub data Call : Type 0 where
  requests : ApprovalRequestedEvent → Call
  responds decides : ApprovalId → ApprovalDecision → Call
  fails cancels : ApprovalId → String → Call

unfoldable pub step : ApprovalsSlice → Call → ApprovalsSlice
step s (requests ev) = requested s ev
step s (responds id d) = pending_response s id d
step s (decides id d) = decided s id d
step s (fails id e) = failed s id e
step s (cancels id r) = cancelled s id r

-- Every call keeps the slice well formed: an approval has a payload exactly when it has a state,
-- it is queued at most once and only if its payload is known, an awaiting one is queued, and a
-- decided one is not.
pub step-IsWellFormed : (s : ApprovalsSlice) (c : Call) → IsWellFormed s → IsWellFormed (step s c)
unfolding step
step-IsWellFormed s (requests ev) v id = requested-IsSound s ev id (v id)
step-IsWellFormed s (responds j d) v id = pending_response-IsSound s j d id (v id)
step-IsWellFormed s (decides j d) v id = decided-IsSound s j d id (v id)
step-IsWellFormed s (fails j e) v id = failed-IsSound s j e id (v id)
step-IsWellFormed s (cancels j r) v id = cancelled-IsSound s j r id (v id)

pub new-IsWellFormed : IsWellFormed new
unfolding get count
new-IsWellFormed id = ground arith
