-- ===== src/Store/Approvals/Replay.antt =====
-- Approvals under replay: what a repeated or a late event does to a card
-- (app/crates/octos-app-store/src/approvals.rs).
use octos_one.Prelude.{
  ◌≡◌, some, true, false, arith, nat_eq, ◌==◌, if◌then◌else◌, count, count-retain, length-append,
  ◌&&◌, ◌∷◌, [], ◌+◌,
}
use octos_one.Prelude.Map.{contains_key, get-insert}
use octos_one.Store.Ids.{ApprovalId}
use octos_one.Store.Approvals.{
  ApprovalsSlice, ApprovalDecision, ApprovalRequestedEvent, awaiting, decided_state, requested,
  decided, state_for, pending_count,
}

-- A request that was seen before, in whatever state its card is now, changes neither a state nor
-- the queue.
pub requested_again :
    (s : ApprovalsSlice) (ev : ApprovalRequestedEvent)
    → contains_key ev.approval_id s.by_id ≡ true
    → ((requested s ev).state ≡ s.state) × ((requested s ev).pending_order ≡ s.pending_order)
unfolding requested
requested_again s ev h = ground arith

-- A first request makes the card awaiting and adds one entry to the queue; the cards of other
-- approvals keep their states.
pub requested_first :
    (s : ApprovalsSlice) (ev : ApprovalRequestedEvent)
    → contains_key ev.approval_id s.by_id ≡ false
    → (pending_count (requested s ev) ≡ pending_count s + 1)
      × ((id : ApprovalId)
          → state_for (requested s ev) id
            ≡ (if ev.approval_id == id then some awaiting else state_for s id))
unfolding requested pending_count state_for
requested_first s ev h = (
  ground (arith, length-append s.pending_order (ev.approval_id ∷ [])),
  λ id. ground (arith, get-insert ev.approval_id id awaiting s.state),
)

-- The server's decision settles a known card, takes it off the queue, and changes no other card; for
-- an unknown card it does nothing.
pub decided_lem :
    (s : ApprovalsSlice) (id : ApprovalId) (d : ApprovalDecision) (j : ApprovalId)
    → (state_for (decided s id d) j
        ≡ (if contains_key id s.by_id && (id == j) then some (decided_state d) else state_for s j))
      × (count j (decided s id d).pending_order
          ≡ (if contains_key id s.by_id && (id == j) then 0 else count j s.pending_order))
      × ((decided s id d).by_id ≡ s.by_id)
unfolding decided state_for
decided_lem s id d j =
    ground (arith, get-insert id j (decided_state d) s.state, count-retain id j s.pending_order)

-- In a well-formed slice, a request that is replayed after the decision leaves the card decided and off the queue.
pub requested-decided :
    (s : ApprovalsSlice) (id : ApprovalId) (d : ApprovalDecision) (ev : ApprovalRequestedEvent)
    → contains_key id s.by_id ≡ true
    → ev.approval_id ≡ id
    → (state_for (requested (decided s id d) ev) id ≡ some (decided_state d))
      × (count id (requested (decided s id d) ev).pending_order ≡ 0)
unfolding decided requested state_for
requested-decided s id d ev known e =
    ground (arith, get-insert id id (decided_state d) s.state, count-retain id id s.pending_order)
