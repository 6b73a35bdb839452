-- ===== src/Transport/Rpc/Ids.antt =====
-- The ids of requests (app/crates/octos-app-transport/src/jsonrpc/mod.rs).
use octos_one.Prelude.{ℕ, zero, suc, ◌+◌, ◌^◌, ◌<◌, ◌≡◌, ◌≢◌, none, some, arith, string_eq}
use octos_one.Prelude.Map.{insert, get-insert, get-remove}
use octos_one.Prelude.Text.Decimal.{show_injective}
use octos_one.Transport.Json.{Json}
use octos_one.Transport.Rpc.{JsonRpcId, RpcRegistry, Sender, Outcome, next_id, register, complete}

-- The registry after further ids were taken from it.
unfoldable pub after_ids : ℕ → RpcRegistry → RpcRegistry
after_ids zero r = r
after_ids (suc n) r = after_ids n (next_id r).1

counter-after_ids :
    (n : ℕ) (r : RpcRegistry) → r.counter + n < 2 ^ 64 → (after_ids n r).counter ≡ r.counter + n
unfolding after_ids next_id
counter-after_ids zero r h = omega arith
counter-after_ids (suc n) r h = ground (arith, counter-after_ids n (next_id r).1)

-- The ids that a registry gives, one after the other, differ as long as the counter has not wrapped.
pub next_id_fresh :
    (m n : ℕ) (r : RpcRegistry)
    → m < n
    → r.counter + n < 2 ^ 64
    → (next_id (after_ids m r)).0 ≢ (next_id (after_ids n r)).0
unfolding next_id
next_id_fresh m n r h bound e = ground (
  arith,
  show_injective (after_ids m r).counter (after_ids n r).counter e,
  counter-after_ids m r,
  counter-after_ids n r,
)

-- A request that was registered is answered once: the first completion of its id reaches the sender
-- that was registered, with the outcome given, and a second completion reaches nobody; a completion
-- of another id does not use it up.
pub complete-register :
    {E : Type 0} (id other : JsonRpcId) (tx : Sender) (o p : Outcome Json E) (r : RpcRegistry)
    → let answered = complete id o (register id tx r) in
      (answered.1 ≡ some (tx, o))
      × ((complete id p answered.0).1 ≡ none)
      × (other ≢ id → (complete id o (complete other p (register id tx r)).0).1 ≡ some (tx, o))
unfolding complete register
complete-register id other tx o p r = (
  ground (arith, string_eq.same_iff id id, get-insert id id tx r.pending),
  ground (
    arith,
    string_eq.same_iff id id,
    get-insert id id tx r.pending,
    get-remove id id (insert id tx r.pending),
  ),
  λ apart. ground (
    arith,
    string_eq.same_iff id id,
    get-insert id id tx r.pending,
    get-insert id other tx r.pending,
    get-remove other id (insert id tx r.pending),
    string_eq.same_iff other id,
  ),
)
