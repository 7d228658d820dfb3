-- ===== src/Controller/FailLaunch.antt =====
-- core/fail-launch.ts: a launch that gave no receipt. The row, the stage and the reservation are closed,
-- and the ticket is armed again or fails.
pub mod Endings
use openclaw_wave_runner.Prelude.{
  ℕ, Bool, true, false, ◌&&◌, not, Option, none, some, if◌then◌else◌, find?, List, ◌∷◌, Text,
  text_eq, Result, ok, err, WaveError,
}
use openclaw_wave_runner.Domain.{
  StageStatus, TicketStatus, OutboxState, outbox_eq, is_terminal_ticket, WaveRecord, TicketRun,
  StageRun, BudgetEntry, LaunchOutbox,
}
use openclaw_wave_runner.Domain.Worker.{LaunchReceipt, LaunchIntent, WorkerCall}
use openclaw_wave_runner.StateMachine.{assert_ticket_transition}
use openclaw_wave_runner.Budget.{mark_indeterminate}
use openclaw_wave_runner.Outbox.{mark_failed}
use openclaw_wave_runner.Store.{
  WaveDatabase, list_budgets, get_outbox_by_idempotency, get_stage_by_idempotency, put_ticket,
  put_stage, put_budget, put_outbox,
}
use openclaw_wave_runner.Controller.Exec.{
  Env, Controller, Exec, ◌>>=◌, ◌>>◌, pure, raise, lift, query, modify, try_modify, transaction,
}
use openclaw_wave_runner.Controller.Context.{require_wave, require_ticket, refresh_counters}
use openclaw_wave_runner.Controller.Reasons.{
  clip_reason, stage_death_no_retry, retries_remain, is_retried_stage, rearm_status, retry_reason,
  with_status,
}

-- `row.state === "SETTLED" || row.state === "FAILED"`
abbrev pub is_closed_outbox : OutboxState → Bool
is_closed_outbox OutboxState.settled = true
is_closed_outbox OutboxState.failed = true
is_closed_outbox _ = false

abbrev of_stage : Text → Option Text → Bool
of_stage stage_run_id none = false
of_stage stage_run_id (some id) = text_eq id stage_run_id

-- `listBudgets(waveId).find((b) => b.stageRunId === stage.stageRunId)`
unfoldable pub budget_of_stage : Text → Text → WaveDatabase → Option BudgetEntry
budget_of_stage wave_id stage_run_id db =
    find? (λ entry. of_stage stage_run_id entry.stage_run_id) (list_budgets wave_id db)

abbrev pub mark_budget : Env → Option BudgetEntry → Exec (Unit {0})
mark_budget env none = pure tt
mark_budget env (some entry) = modify (put_budget (mark_indeterminate entry env.now))

-- the stage, if it is there, and its reservation
unfoldable pub fail_stage : Env → Text → Option StageRun → Exec (Unit {0})
unfolding budget_of_stage
fail_stage env wave_id none = pure tt
fail_stage env wave_id (some stage) = do
  try_modify (put_stage (record stage { status = StageStatus.failed }))
  budget ← query (budget_of_stage wave_id stage.stage_run_id)
  mark_budget env budget

-- `stage?.attempt ?? item.attempt ?? 1`
abbrev pub attempt_of_stage : Option StageRun → LaunchOutbox → ℕ
attempt_of_stage none item = item.attempt
attempt_of_stage (some stage) item = stage.attempt

-- The ticket is armed again where a retry is left and the reason allows one; else it fails.
unfoldable pub rearm_or_fail : WaveRecord → TicketRun → LaunchOutbox → ℕ → Text → Exec (Unit {0})
unfolding stage_death_no_retry retry_reason
rearm_or_fail wave ticket item attempt reason =
    if retries_remain attempt wave.limits.max_retries_per_stage
      && (is_retried_stage item.stage
          && not (stage_death_no_retry none reason item.stage ticket.plan_worker))
    then (do
      lift (assert_ticket_transition ticket.status (rearm_status item.stage) false)
      modify (
          put_ticket
            (with_status (rearm_status item.stage) (some (retry_reason attempt reason)) ticket)))
    else modify (put_ticket (with_status TicketStatus.failed (some reason) ticket))

-- the ticket, unless it is terminal, and the counters
unfoldable pub fail_ticket : LaunchOutbox → ℕ → Text → Exec (Unit {0})
unfolding rearm_or_fail refresh_counters require_wave require_ticket
fail_ticket item attempt reason = do
  ticket ← require_ticket item.wave_id item.ticket_id
  wave ← require_wave item.wave_id
  if is_terminal_ticket ticket.status
      then pure tt
      else rearm_or_fail wave ticket item attempt reason
  refresh_counters item.wave_id

-- what follows the row
unfoldable pub fail_work : Env → LaunchOutbox → Text → Exec (Unit {0})
unfolding fail_stage fail_ticket
fail_work env item reason = do
  stage ← query (get_stage_by_idempotency item.idempotency_key)
  fail_stage env item.wave_id stage
  fail_ticket item (attempt_of_stage stage item) reason

abbrev fail_row : Env → LaunchOutbox → Text → Option LaunchOutbox → Exec (Unit {0})
fail_row env item reason none = pure tt
fail_row env item reason (some row) = if is_closed_outbox row.state then pure tt else do
  failed ← lift (mark_failed row reason env.now)
  try_modify (put_outbox failed)
  fail_work env item reason

unfoldable pub fail_launch_without_receipt : Env → LaunchOutbox → Text → Exec (Unit {0})
unfolding transaction clip_reason fail_work
fail_launch_without_receipt env item reason = transaction (do
  row ← query (get_outbox_by_idempotency item.idempotency_key)
  fail_row env item (clip_reason reason) row)

-- What `worker.launch` gives: a receipt, or an error and its message.
pub data LaunchAnswer : Type 0 where
  started : LaunchReceipt → LaunchAnswer
  threw : WaveError → Text → LaunchAnswer

abbrev pub is_safety_gate : WaveError → Bool
is_safety_gate WaveError.safety_gate = true
is_safety_gate _ = false

abbrev pub answered : Env → LaunchOutbox → LaunchAnswer → Exec (Option LaunchReceipt)
answered env claimed (started receipt) = pure (some receipt)
answered env claimed (threw e message) =
    if is_safety_gate e
    then raise e
    else (do fail_launch_without_receipt env claimed message; pure none)

-- a call of the worker, which may answer by all that it was asked before
unfoldable pub ask : {A : Type 0} → WorkerCall → (List WorkerCall → A) → Exec A
ask call answer c = (ok (answer c.calls), record c { calls = call ∷ c.calls })

-- The injected crashes are off.
unfoldable pub launch_claimed :
    Env
    → (List WorkerCall → LaunchIntent → LaunchAnswer)
    → LaunchOutbox
    → LaunchIntent
    → Exec (Option LaunchReceipt)
unfolding fail_launch_without_receipt ask
launch_claimed env launch claimed intent = do
  answer ← ask (WorkerCall.launched intent.idempotency_key) (λ calls. launch calls intent)
  answered env claimed answer
