-- ===== src/Outbox/Life.antt =====
-- The life of an outbox row under the operations of core/outbox.ts.
use openclaw_wave_runner.Prelude.{
  ℕ, ◌≤◌, ◌<◌, ◌≡◌, true, none, is_some, ok, err, arith, Text, WaveError, Result, List, [], ◌∷◌,
}
use openclaw_wave_runner.Domain.{LaunchOutbox, OutboxState}
use openclaw_wave_runner.Outbox.{
  claim_outbox, mark_launched, mark_reconciling, mark_settled, mark_failed,
}

-- One call on a row.
pub data Call : Type 0 where
  claim : Text → ℕ → Call
  launch : Text → ℕ → Call
  reconcile : ℕ → Call
  settle : ℕ → Call
  fail : Text → ℕ → Call

unfoldable pub apply : Call → LaunchOutbox → Result LaunchOutbox
unfolding claim_outbox mark_launched mark_reconciling mark_settled mark_failed
apply (claim claimant now) item = claim_outbox item claimant now
apply (launch receipt now) item = mark_launched item receipt now
apply (reconcile now) item = mark_reconciling item now
apply (settle now) item = mark_settled item now
apply (fail error now) item = mark_failed item error now

-- A call that throws leaves the row as it was stored.
abbrev kept : LaunchOutbox → Result LaunchOutbox → LaunchOutbox
kept item (ok row) = row
kept item (err e) = item

pub apply_all : List Call → LaunchOutbox → LaunchOutbox
apply_all [] item = item
apply_all (call ∷ calls) item = apply_all calls (kept item (apply call item))

-- how far a row has come
abbrev pub progress : OutboxState → ℕ
progress OutboxState.pending = 0
progress OutboxState.claimed = 1
progress OutboxState.launched = 2
progress OutboxState.reconciling = 2
progress OutboxState.settled = 3
progress OutboxState.failed = 3

progress-apply :
    (call : Call) (item : LaunchOutbox)
    → (progress item.state ≤ progress (kept item (apply call item)).state)
unfolding apply
progress-apply call item = ground arith

-- Whatever calls are made, in whatever order, a row never goes back: not from CLAIMED to PENDING,
-- nor from LAUNCHED or RECONCILING to CLAIMED or PENDING, nor from SETTLED or FAILED to any of
-- these.
progress-apply_all :
    (calls : List Call) (item : LaunchOutbox)
    → progress item.state ≤ progress (apply_all calls item).state
unfolding apply_all
progress-apply_all [] item = omega arith
progress-apply_all (call ∷ calls) item =
    omega (arith, progress-apply call item, progress-apply_all calls (kept item (apply call item)))

-- What a row tells of its past.
pub record IsConsistent (item : LaunchOutbox) : Type 0 where
  pub unclaimed : item.state ≡ OutboxState.pending → item.claimed_by ≡ none
  pub claimed : item.state ≡ OutboxState.claimed → is_some item.claimed_by ≡ true
  pub launched :
      item.state ≡ OutboxState.launched
      → (is_some item.claimed_by ≡ true) × (is_some item.receipt_json ≡ true)
  pub reconciled : item.state ≡ OutboxState.reconciling → is_some item.claimed_by ≡ true
  pub settled : item.state ≡ OutboxState.settled → is_some item.claimed_by ≡ true

apply-IsConsistent :
    (call : Call) (item : LaunchOutbox)
    → IsConsistent item
    → IsConsistent (kept item (apply call item))
unfolding apply
apply-IsConsistent call item h = ground arith

-- A consistent row stays consistent, whatever calls are made: if it is claimed, launched,
-- reconciling or settled it has a claimant, a launched row has its receipt, and a pending row has
-- no claimant.
pub apply_all-IsConsistent :
    (calls : List Call) (item : LaunchOutbox)
    → IsConsistent item
    → IsConsistent (apply_all calls item)
unfolding apply_all
apply_all-IsConsistent [] item h = h
apply_all-IsConsistent (call ∷ calls) item h =
    apply_all-IsConsistent calls (kept item (apply call item)) (apply-IsConsistent call item h)

-- Once a row is launched, reconciling, settled or failed, it cannot be claimed after whatever
-- further calls.
pub claim_once :
    (calls : List Call) (item : LaunchOutbox) (claimant : Text) (now : ℕ)
    → 1 < progress item.state
    → claim_outbox (apply_all calls item) claimant now ≡ err WaveError.illegal_outbox
unfolding claim_outbox
claim_once calls item claimant now h = let later = progress-apply_all calls item in ground arith
