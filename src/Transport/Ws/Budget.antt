-- ===== src/Transport/Ws/Budget.antt =====
-- How long the WebSocket transport goes on reconnecting
-- (app/crates/octos-app-transport/src/ws/mod.rs).
use octos_one.Prelude.{
  ℕ, zero, suc, ◌+◌, ◌-◌, ◌%◌, ◌^◌, ◌≤◌, ◌<◌, ◌≡◌, refl, Bool, true, Option, none, some, List, [],
  ◌∷◌, ◌&&◌, arith, length, if◌then◌else◌, eqb,
}
use native.Mathlib.Nat.{mod-lt}
use octos_one.Transport.Ws.{
  Backoff, rested, min, pseudo_jitter_secs, next_backoff, run_reconnect, reconnect_delay_max,
  reconnect_budget,
}

-- The most that the backoff of an attempt can be.
abbrev pub cap : ℕ → ℕ
cap n = if eqb n 0 then 0 else min (2 ^ min (n - 1) 5 - 1) reconnect_delay_max

pseudo_jitter_secs_lem : (clock : Option ℕ) (m : ℕ) → 0 < m → pseudo_jitter_secs clock m < m
unfolding pseudo_jitter_secs
pseudo_jitter_secs_lem none m h = ground arith
pseudo_jitter_secs_lem (some ns) m h = ground (arith, mod-lt (ns % 2 ^ 64) h)

-- Whatever the clock, the backoff of an attempt is below the doubling bound, at most 30 seconds, and
-- none before the first attempt.
pub next_backoff-cap : (clock : Option ℕ) (n : ℕ) → next_backoff clock n ≤ cap n
unfolding next_backoff
next_backoff-cap clock zero = omega arith
next_backoff-cap clock (suc zero) = ground (arith, pseudo_jitter_secs_lem clock 1)
next_backoff-cap clock (suc (suc zero)) = ground (arith, pseudo_jitter_secs_lem clock 2)
next_backoff-cap clock (suc (suc (suc zero))) = ground (arith, pseudo_jitter_secs_lem clock 4)
next_backoff-cap clock (suc (suc (suc (suc zero)))) = ground (arith, pseudo_jitter_secs_lem clock 8)
next_backoff-cap clock (suc (suc (suc (suc (suc zero))))) =
    ground (arith, pseudo_jitter_secs_lem clock 16)
next_backoff-cap clock (suc (suc (suc (suc (suc (suc n)))))) =
    ground (arith, pseudo_jitter_secs_lem clock 32)

-- Whether every one of consecutive failures leads to another attempt.
abbrev pub all_retry : List (Option ℕ) → Backoff → Bool
all_retry [] b = true
all_retry (clock ∷ clocks) b =
    let (b', t, again) = run_reconnect clock b in again && all_retry clocks b'

-- The most that the first attempts wait together.
abbrev sum_caps : ℕ → ℕ
sum_caps zero = 0
sum_caps (suc n) = sum_caps n + cap (suc n)

within_budget : (n : ℕ) → n ≤ 14 → sum_caps n ≤ reconnect_budget
within_budget zero h = omega arith
within_budget (suc zero) h = omega arith
within_budget (suc (suc zero)) h = omega arith
within_budget (suc (suc (suc zero))) h = omega arith
within_budget (suc (suc (suc (suc zero)))) h = omega arith
within_budget (suc (suc (suc (suc (suc zero))))) h = omega arith
within_budget (suc (suc (suc (suc (suc (suc zero)))))) h = omega arith
within_budget (suc (suc (suc (suc (suc (suc (suc zero))))))) h = omega arith
within_budget (suc (suc (suc (suc (suc (suc (suc (suc zero)))))))) h = omega arith
within_budget (suc (suc (suc (suc (suc (suc (suc (suc (suc zero))))))))) h = omega arith
within_budget (suc (suc (suc (suc (suc (suc (suc (suc (suc (suc zero)))))))))) h = omega arith
within_budget (suc (suc (suc (suc (suc (suc (suc (suc (suc (suc (suc zero))))))))))) h = omega arith
within_budget (suc (suc (suc (suc (suc (suc (suc (suc (suc (suc (suc (suc zero)))))))))))) h =
    omega arith
within_budget (suc (suc (suc (suc (suc (suc (suc (suc (suc (suc (suc (suc (suc zero))))))))))))) h =
    omega arith
within_budget
      (suc (suc (suc (suc (suc (suc (suc (suc (suc (suc (suc (suc (suc (suc zero)))))))))))))) h =
    omega arith
within_budget
      (suc (suc (suc (suc (suc (suc (suc (suc (suc (suc (suc (suc (suc (suc (suc n)))))))))))))))
      h =
    omega arith

run_reconnect_lem :
    (clock : Option ℕ) (b : Backoff)
    → b.attempt < 14
    → b.total_wait ≤ sum_caps b.attempt
    → let (b', t, again) = run_reconnect clock b in
      (b'.attempt ≡ suc b.attempt) × (b'.total_wait ≤ sum_caps b'.attempt) × (again ≡ true)
unfolding run_reconnect
run_reconnect_lem clock b h k = (
  ground arith,
  ground (arith, next_backoff-cap clock (suc b.attempt)),
  ground (arith, next_backoff-cap clock (suc b.attempt), within_budget (suc b.attempt)),
)

all_retry_from :
    (clocks : List (Option ℕ)) (b : Backoff)
    → b.attempt + length clocks ≤ 14
    → b.total_wait ≤ sum_caps b.attempt
    → all_retry clocks b ≡ true
all_retry_from [] b h k = refl
all_retry_from (clock ∷ clocks) b h k =
    let (one, low, again) = run_reconnect_lem clock b (omega arith) k in
    rw again (all_retry_from clocks (run_reconnect clock b).0 (ground arith) low)

-- After a connection, fourteen consecutive failures all lead to another attempt, whatever the clock.
pub all_retry_lem : (clocks : List (Option ℕ)) → length clocks ≤ 14 → all_retry clocks rested ≡ true
all_retry_lem clocks h = all_retry_from clocks rested (omega arith) (omega arith)

-- A clock that stands before the epoch.
abbrev pub no_clock : ℕ → List (Option ℕ)
no_clock zero = []
no_clock (suc n) = none ∷ no_clock n

run_reconnect-no_clock :
    (b : Backoff)
    → b.total_wait ≤ reconnect_budget
    → let (b', t, again) = run_reconnect none b in (b'.total_wait ≡ b.total_wait) × (again ≡ true)
unfolding run_reconnect next_backoff pseudo_jitter_secs
run_reconnect-no_clock b h = (ground arith, ground arith)

-- With a clock before the epoch the jitter is zero, and no number of failures exhausts a budget
-- that is not exhausted yet.
pub all_retry-no_clock :
    (n : ℕ) (b : Backoff) → b.total_wait ≤ reconnect_budget → all_retry (no_clock n) b ≡ true
all_retry-no_clock zero b h = refl
all_retry-no_clock (suc n) b h =
    let (same, again) = run_reconnect-no_clock b h in
    rw again (all_retry-no_clock n (run_reconnect none b).0 (omega arith))
