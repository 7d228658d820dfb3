-- ===== src/Examples/Lifecycles.antt =====
-- Runs of the state machines (core/state-machine.ts, core/outbox.ts) and of one budget entry.
use openclaw_wave_runner.Prelude.{◌≡◌, some, List, [], ◌∷◌, text, err, WaveError, arith}
use openclaw_wave_runner.Domain.{LaunchOutbox, OutboxState}
use openclaw_wave_runner.Outbox.{claim_outbox}
use openclaw_wave_runner.Outbox.Life.{
  Call, apply_all, IsConsistent, apply_all-IsConsistent, claim_once,
}
use openclaw_wave_runner.Examples.Data.{pending_item}

-- a row is claimed, launched and settled
abbrev three_calls : List Call
three_calls = Call.claim (text "op") 20 ∷ Call.launch (text "{}") 21 ∷ Call.settle 30 ∷ []

pending-IsConsistent : IsConsistent pending_item
pending-IsConsistent = ground arith

apply_all-IsConsistent_example : IsConsistent (apply_all three_calls pending_item)
apply_all-IsConsistent_example =
    apply_all-IsConsistent three_calls pending_item pending-IsConsistent

abbrev launched_item : LaunchOutbox
launched_item = record pending_item {
  state = OutboxState.launched;
  claimed_by = some (text "op");
  receipt_json = some (text "{}");
}

claim_once_example :
    claim_outbox (apply_all (Call.reconcile 22 ∷ []) launched_item) (text "op") 23
    ≡ err WaveError.illegal_outbox
claim_once_example = claim_once (Call.reconcile 22 ∷ []) launched_item (text "op") 23 (omega arith)
