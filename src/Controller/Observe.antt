-- ===== src/Controller/Observe.antt =====
-- core/launch.ts: the leases of this process are kept alive, rows that were left half way are recovered,
-- and workers that are done are settled. `{}` stands for a receipt that was never written.
use openclaw_wave_runner.Prelude.{
  ◌+◌, Bool, true, false, not, Option, none, some, get_or, if◌then◌else◌, filter, Text, text,
  starts_with, Result, ok,
}
use openclaw_wave_runner.Domain.{
  OutboxState, StageStatus, WaveRecord, TicketRun, StageRun, LeaseRecord, LaunchOutbox,
}
use openclaw_wave_runner.Domain.Worker.{LaunchReceipt, WorkerStatus, WorkerTruth, WorkerCall}
use openclaw_wave_runner.WriterScope.{writer_lease_key}
use openclaw_wave_runner.Outbox.{mark_launched, mark_reconciling}
use openclaw_wave_runner.Store.{
  WaveDatabase, get_wave, get_ticket, list_leases, put_lease, list_outbox,
  get_outbox_by_idempotency, put_outbox,
}
use openclaw_wave_runner.Controller.Exec.{
  Env, Exec, ◌>>=◌, ◌>>◌, pure, lift, query, modify, try_modify, for_each, transaction,
}
use openclaw_wave_runner.Controller.Leases.{
  truthy, is_impl_active, we_hold, ticket_scope, writer_request, authority_acquire,
}
use openclaw_wave_runner.Controller.Reasons.{failed, cancelled, lost_spawn_reason}
use openclaw_wave_runner.Controller.FailLaunch.{fail_launch_without_receipt, ask}
use openclaw_wave_runner.Controller.Adapters.{Adapters}
use openclaw_wave_runner.Controller.Dispatch.{intent_from_outbox, record_launch}
use openclaw_wave_runner.Controller.Workspace.{Workspace}
use openclaw_wave_runner.Controller.Reviews.{ReviewFiles}
use openclaw_wave_runner.Controller.StageChecks.{SettleStatus, succeeded, died, Settler}
use openclaw_wave_runner.Controller.Settlement.{settle_outbox}

abbrev extended : Env → LeaseRecord → LeaseRecord
extended env lease = record lease {
  expires_at = env.now + env.lease_ttl_ms;
  pid = env.process.pid;
  pid_start_time = env.process.pid_start_time;
}

abbrev lease_ticket : Text → Option Text → WaveDatabase → Option TicketRun
lease_ticket wave_id none db = none
lease_ticket wave_id (some ticket_id) db = get_ticket wave_id ticket_id db

-- the in-memory lock of a writer lease
abbrev relock : Env → Text → LeaseRecord → TicketRun → Option WaveRecord → Exec (Unit {0})
relock env wave_id lease ticket none = pure tt
relock env wave_id lease ticket (some wave) =
    if not (starts_with (text "writer:") lease.resource_key) then pure tt else (do
      _ ← authority_acquire env (
          writer_request env wave.repo_path (ticket_scope ticket)
            (writer_lease_key wave.repo_path (ticket_scope ticket)) wave_id ticket.ticket_id)
      pure tt)

abbrev refresh_for :
    Env → Text → Option WaveRecord → LeaseRecord → Option TicketRun → Exec (Unit {0})
refresh_for env wave_id wave lease none = pure tt
refresh_for env wave_id wave lease (some ticket) =
    if not (is_impl_active ticket.status)
    then pure tt
    else (do modify (put_lease (extended env lease)); relock env wave_id lease ticket wave)

abbrev pub refresh_lease : Env → Text → Option WaveRecord → LeaseRecord → Exec (Unit {0})
refresh_lease env wave_id wave lease = if not (we_hold env lease) then pure tt else do
  ticket ← query (lease_ticket wave_id (truthy lease.ticket_id))
  refresh_for env wave_id wave lease ticket

unfoldable pub refresh_held_leases : Env → Text → Exec (Unit {0})
unfolding authority_acquire starts_with
refresh_held_leases env wave_id = do
  wave ← query (get_wave wave_id)
  leases ← query (list_leases wave_id)
  for_each leases (refresh_lease env wave_id wave)

-- the statuses that end a worker; the others are waited for
abbrev ended : WorkerStatus → Option SettleStatus
ended WorkerStatus.succeeded = some succeeded
ended WorkerStatus.failed = some (died failed)
ended WorkerStatus.cancelled = some (died cancelled)
ended _ = none

-- the receipt of a row that has none
abbrev pub bare_receipt : Text → LaunchReceipt
bare_receipt key = record {
  idempotency_key = key;
  task_id = none;
  run_id = none;
  session_id = none;
  provider = none;
  model = none;
  output_dir = none;
  cwd = none;
}

module _ (env : Env) (ad : Adapters) (ws : Workspace) (files : ReviewFiles)
    (settler : Settler) where
  abbrev settle_truth : LaunchOutbox → LaunchReceipt → WorkerTruth → SettleStatus → Exec (Unit {0})
  settle_truth item receipt truth status =
      settle_outbox env ws files settler item receipt status truth.output_ref truth.summary
        truth.error

  unfoldable pub inspect_worker : LaunchReceipt → Exec WorkerTruth
  unfolding ask
  inspect_worker receipt = do
    answer ← ask (WorkerCall.inspected receipt.idempotency_key) (λ calls. ad.inspect calls receipt)
    lift answer

  abbrev is_open_row : OutboxState → Bool
  is_open_row OutboxState.claimed = true
  is_open_row OutboxState.launched = true
  is_open_row OutboxState.reconciling = true
  is_open_row _ = false

  abbrev pub is_unmarked : OutboxState → Bool
  is_unmarked OutboxState.claimed = true
  is_unmarked OutboxState.launched = true
  is_unmarked _ = false

  abbrev pub mark_row : Option LaunchOutbox → Exec (Unit {0})
  mark_row none = pure tt
  mark_row (some current) =
      if not (is_unmarked current.state)
      then pure tt
      else do marked ← lift (mark_reconciling current env.now); try_modify (put_outbox marked)

  -- a stage under the receipt of a worker that was found again
  abbrev pub recovered_stage : LaunchReceipt → StageRun → StageRun
  recovered_stage receipt stage = record stage {
    task_id = receipt.task_id;
    run_id = receipt.run_id;
    session_id = receipt.session_id;
    receipt_json = some (ad.to_json receipt);
    status = StageStatus.running;
  }

  abbrev pub recovered_row : LaunchOutbox → Option LaunchReceipt → Exec (Unit {0})
  recovered_row latest none = fail_launch_without_receipt env latest (lost_spawn_reason latest)
  recovered_row latest (some receipt) =
      record_launch env latest.idempotency_key (recovered_stage receipt) (ad.to_json receipt)

  -- the row of a launch that gave no receipt: its worker is looked for, and none is started
  unfoldable pub recover_row : LaunchOutbox → Exec (Unit {0})
  unfolding ask intent_from_outbox record_launch fail_launch_without_receipt lost_spawn_reason
  recover_row latest = do
    intent ← intent_from_outbox ad latest
    answer ← ask (WorkerCall.recovered intent.idempotency_key) (λ calls. ad.recover calls intent)
    receipt ← lift answer
    recovered_row latest receipt

  abbrev pub is_reconciling : OutboxState → Bool
  is_reconciling OutboxState.reconciling = true
  is_reconciling _ = false

  abbrev pub relaunch_row : Option LaunchOutbox → Exec (Unit {0})
  relaunch_row none = pure tt
  relaunch_row (some row) = if not (is_reconciling row.state) then pure tt else do
    launched ← lift (mark_launched row (get_or row.receipt_json (text "{}")) env.now)
    try_modify (put_outbox launched)

  abbrev pub settle_or_wait :
      LaunchOutbox → LaunchReceipt → WorkerTruth → Option SettleStatus → Exec (Unit {0})
  settle_or_wait latest receipt truth (some status) = settle_truth latest receipt truth status
  settle_or_wait latest receipt truth none =
      transaction
        (do row ← query (get_outbox_by_idempotency latest.idempotency_key); relaunch_row row)

  abbrev pub reconcile_receipt : LaunchOutbox → Option Text → Exec (Unit {0})
  reconcile_receipt latest none = recover_row latest
  reconcile_receipt latest (some json) = do
    receipt ← lift (ad.of_json json)
    truth ← inspect_worker receipt
    settle_or_wait latest receipt truth (ended truth.status)

  abbrev pub reconcile_latest : Option LaunchOutbox → Exec (Unit {0})
  reconcile_latest none = pure tt
  reconcile_latest (some latest) = reconcile_receipt latest (truthy latest.receipt_json)

  -- the body of the loop of `reconcile`
  unfoldable pub reconcile_one : LaunchOutbox → Exec (Unit {0})
  unfolding transaction recover_row inspect_worker settle_outbox
  reconcile_one item = do
    transaction
        (do current ← query (get_outbox_by_idempotency item.idempotency_key); mark_row current)
    latest ← query (get_outbox_by_idempotency item.idempotency_key)
    reconcile_latest latest

  unfoldable pub reconcile : Text → Exec (Unit {0})
  unfolding reconcile_one
  reconcile wave_id = do
    open_rows ←
        query
          (λ db. filter (λ (item : LaunchOutbox). is_open_row item.state) (list_outbox wave_id db))
    for_each open_rows reconcile_one

  abbrev receipt_of : LaunchOutbox → Option Text → Result LaunchReceipt
  receipt_of item none = ok (bare_receipt item.idempotency_key)
  receipt_of item (some json) = ad.of_json json

  abbrev pub settle_if_ended :
      LaunchOutbox → LaunchReceipt → WorkerTruth → Option SettleStatus → Exec (Unit {0})
  settle_if_ended item receipt truth none = pure tt
  settle_if_ended item receipt truth (some status) = settle_truth item receipt truth status

  -- the body of the loop of `observeLaunched`
  unfoldable pub observe_one : LaunchOutbox → Exec (Unit {0})
  unfolding inspect_worker settle_outbox
  observe_one item = do
    receipt ← lift (receipt_of item (truthy item.receipt_json))
    truth ← inspect_worker receipt
    settle_if_ended item receipt truth (ended truth.status)

  abbrev is_launched : OutboxState → Bool
  is_launched OutboxState.launched = true
  is_launched _ = false

  unfoldable pub observe_launched : Text → Exec (Unit {0})
  unfolding observe_one
  observe_launched wave_id = do
    launched ←
        query
          (λ db. filter (λ (item : LaunchOutbox). is_launched item.state) (list_outbox wave_id db))
    for_each launched observe_one
