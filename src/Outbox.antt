-- ===== src/Outbox.antt =====
-- core/outbox.ts: the launch outbox, one row for each stage attempt.
pub mod Life
use openclaw_wave_runner.Prelude.{
  ℕ, Bool, true, false, not, Option, none, some, List, [], ◌∷◌, if◌then◌else◌, any, Text, WaveError,
  Result, ok, err, ◌>>◌,
}
use openclaw_wave_runner.Domain.{LaunchOutbox, OutboxState, outbox_eq}

abbrev pub outbox_transitions : OutboxState → List OutboxState
outbox_transitions OutboxState.pending = OutboxState.claimed ∷ OutboxState.failed ∷ []
outbox_transitions OutboxState.claimed =
    OutboxState.launched ∷ OutboxState.reconciling ∷ OutboxState.failed ∷ []
outbox_transitions OutboxState.launched =
    OutboxState.settled ∷ OutboxState.reconciling ∷ OutboxState.failed ∷ []
outbox_transitions OutboxState.reconciling =
    OutboxState.launched ∷ OutboxState.settled ∷ OutboxState.failed ∷ []
outbox_transitions OutboxState.settled = []
outbox_transitions OutboxState.failed = []

unfoldable pub assert_outbox_transition : OutboxState → OutboxState → Result (Unit {0})
unfolding any
assert_outbox_transition from to =
    if outbox_eq from to
    then ok tt
    else if not (any (outbox_eq to) (outbox_transitions from))
    then err WaveError.illegal_outbox
    else ok tt

unfoldable pub claim_outbox : LaunchOutbox → Text → ℕ → Result LaunchOutbox
unfolding assert_outbox_transition
claim_outbox item claimant now = do
  assert_outbox_transition item.state OutboxState.claimed
  ok (record item {
    state = OutboxState.claimed;
    claimed_by = some claimant;
    claimed_at = some now;
    updated_at = now;
  })

unfoldable pub mark_launched : LaunchOutbox → Text → ℕ → Result LaunchOutbox
unfolding assert_outbox_transition
mark_launched item receipt_json now = do
  assert_outbox_transition item.state OutboxState.launched
  ok (record item {
    state = OutboxState.launched;
    receipt_json = some receipt_json;
    updated_at = now;
  })

unfoldable pub mark_reconciling : LaunchOutbox → ℕ → Result LaunchOutbox
unfolding assert_outbox_transition
mark_reconciling item now = do
  assert_outbox_transition item.state OutboxState.reconciling
  ok (record item { state = OutboxState.reconciling; updated_at = now })

unfoldable pub mark_settled : LaunchOutbox → ℕ → Result LaunchOutbox
unfolding assert_outbox_transition
mark_settled item now = do
  assert_outbox_transition item.state OutboxState.settled
  ok (record item { state = OutboxState.settled; updated_at = now })

unfoldable pub mark_failed : LaunchOutbox → Text → ℕ → Result LaunchOutbox
unfolding assert_outbox_transition
mark_failed item error now = do
  assert_outbox_transition item.state OutboxState.failed
  ok (record item { state = OutboxState.failed; error = some error; updated_at = now })
