-- ===== src/Controller/Settlement.antt =====
-- core/settlement.ts: the end of a stage. Its output is checked (`Controller.StageChecks`), then one
-- transaction settles the row, the stage, the reservation and the ticket; the work of an IMPL then lands.
-- The projections that follow, to the tracker, the host and the workflow, are left out: their errors are
-- swallowed and they do not write to the ledger.
pub mod Frames
pub mod Work
pub mod Once
use openclaw_wave_runner.Prelude.{
  ℕ, Bool, true, false, ◌&&◌, ◌||◌, not, Option, none, some, get_or, is_some, List, [], ◌∷◌, ◌++◌,
  if◌then◌else◌, Text, text, is_empty, WaveError, Result, ok, err,
}
use openclaw_wave_runner.Domain.{
  StageName, stage_eq, StageStatus, TicketStatus, ticket_eq, WaveStatus, OutboxState, outbox_eq,
  WaveRecord, TicketRun, StageRun, BudgetEntry, LaunchOutbox,
}
use openclaw_wave_runner.Domain.Worker.{LaunchReceipt, UsageResult, actual, unknown_usage}
use openclaw_wave_runner.StateMachine.{assert_ticket_transition}
use openclaw_wave_runner.Budget.{apply_settlement, mark_indeterminate}
use openclaw_wave_runner.Outbox.{mark_settled}
use openclaw_wave_runner.StagePaths.{is_plan_gate_stage}
use openclaw_wave_runner.Store.{
  WaveDatabase, get_ticket, get_outbox_by_idempotency, get_stage_by_idempotency, put_ticket,
  put_wave, put_stage, put_budget, put_outbox,
}
use openclaw_wave_runner.Controller.Exec.{
  Env, Exec, ◌>>=◌, ◌>>◌, pure, raise, lift, query, modify, try_modify, when, transaction,
}
use openclaw_wave_runner.Controller.Context.{require_wave, require_ticket, refresh_counters}
use openclaw_wave_runner.Controller.Leases.{truthy, release_writer_lease_if_held}
use openclaw_wave_runner.Controller.Reasons.{
  DeathStatus, failed, cancelled, trim, clip_reason, stage_death_reason, stage_death_no_retry,
  retries_remain, is_retried_stage, rearm_status, retry_reason, with_status,
}
use openclaw_wave_runner.Controller.FailLaunch.{attempt_of_stage, budget_of_stage}
use openclaw_wave_runner.Controller.Workspace.{Workspace}
use openclaw_wave_runner.Controller.ApplyCloseout.{wants_apply, put_proof, apply_on_exhausted_impl}
use openclaw_wave_runner.Controller.LandCloseout.{impl_fence_failure, finalize_impl_land}
use openclaw_wave_runner.Controller.Reviews.{ReviewFiles, is_gated, wave_with_status}
use openclaw_wave_runner.Controller.UxReviews.{admit_ux_review_ticket}
use openclaw_wave_runner.Controller.PlanReviews.{admit_plan_review_ticket}
use openclaw_wave_runner.Controller.PlanArtifact.{fallback_plan}
use openclaw_wave_runner.Controller.PlanSettle.{apply_plan_success}
use openclaw_wave_runner.Controller.StageChecks.{
  SettleStatus, succeeded, died, Settler, Checked, check_plan, check_impl, check_stage,
}

abbrev final_stage : SettleStatus → StageStatus
final_stage succeeded = StageStatus.succeeded
final_stage (died failed) = StageStatus.failed
final_stage (died cancelled) = StageStatus.cancelled

abbrev settled_budget : Env → UsageResult → BudgetEntry → BudgetEntry
settled_budget env (actual tokens cost_micros) budget =
    apply_settlement budget (some tokens) (some cost_micros) env.now
settled_budget env unknown_usage budget = mark_indeterminate budget env.now

abbrev settle_budget : Env → UsageResult → Option BudgetEntry → Exec (Unit {0})
settle_budget env usage none = pure tt
settle_budget env usage (some budget) = modify (put_budget (settled_budget env usage budget))

-- the stage, if it is there, and its reservation
unfoldable pub settle_stage :
    Env → Text → UsageResult → SettleStatus → Option Text → Option StageRun → Exec (Unit {0})
unfolding budget_of_stage
settle_stage env wave_id usage status output_ref none = pure tt
settle_stage env wave_id usage status output_ref (some stage) = do
  try_modify (put_stage (record stage { status = final_stage status; output_ref = output_ref }))
  budget ← query (budget_of_stage wave_id stage.stage_run_id)
  settle_budget env usage budget

-- `receiptSucceeded && !wave.cancelRequested`
abbrev pub death_reason : Bool → WaveRecord → Text → Text
death_reason receipt_succeeded wave reason =
    if receipt_succeeded && not wave.cancel_requested
    then clip_reason (text "controller failed (worker succeeded): " ++ reason)
    else reason

abbrev pub is_retried : WaveRecord → TicketRun → LaunchOutbox → Option Text → ℕ → Text → Bool
is_retried wave ticket item fail_snippet attempt reason =
    retries_remain attempt wave.limits.max_retries_per_stage
    && (is_retried_stage item.stage
        && not (stage_death_no_retry fail_snippet reason item.stage ticket.plan_worker))

-- the ticket after the death of its stage, if nothing is thrown
unfoldable pub dead_ticket :
    WaveRecord → TicketRun → LaunchOutbox → Option Text → ℕ → Text → TicketRun
unfolding stage_death_no_retry retry_reason
dead_ticket wave ticket item fail_snippet attempt reason =
    if wave.cancel_requested
    then with_status TicketStatus.cancelled
        (some (if is_empty reason then text "operator cancel" else reason)) ticket
    else if is_retried wave ticket item fail_snippet attempt reason
    then with_status (rearm_status item.stage) (some (retry_reason attempt reason)) ticket
    else with_status TicketStatus.failed (some reason) ticket

abbrev pub rearm : Env → WaveRecord → TicketRun → LaunchOutbox → TicketRun → Exec (Unit {0})
rearm env wave ticket item after = do
  lift (assert_ticket_transition ticket.status (rearm_status item.stage) false)
  modify (put_ticket after)
  when (is_gated wave.status) (modify (put_wave (wave_with_status WaveStatus.running env.now wave)))

-- the ticket, and the wave or the artifact that goes with it; the tests are `wave.cancelRequested` and
-- whether the stage is tried again
abbrev pub write_dead :
    Env
    → Workspace
    → WaveRecord
    → TicketRun
    → LaunchOutbox
    → Bool
    → TicketRun
    → Text
    → Bool
    → Bool
    → Exec (Unit {0})
write_dead env ws wave ticket item receipt_succeeded after reason true again =
    modify (put_ticket after)
write_dead env ws wave ticket item receipt_succeeded after reason false true =
    rearm env wave ticket item after
write_dead env ws wave ticket item receipt_succeeded after reason false false = do
  modify (put_ticket after)
  when receipt_succeeded (
      put_proof env ws item.wave_id item.ticket_id reason (text "settle-reason")
        (ws.hash_json reason))

unfoldable pub write_death :
    Env
    → Workspace
    → WaveRecord
    → TicketRun
    → LaunchOutbox
    → Bool
    → Option Text
    → ℕ
    → Text
    → Exec (Unit {0})
unfolding dead_ticket put_proof stage_death_no_retry
write_death env ws wave ticket item receipt_succeeded fail_snippet attempt reason =
    write_dead env ws wave ticket item receipt_succeeded
      (dead_ticket wave ticket item fail_snippet attempt reason) reason wave.cancel_requested
      (is_retried wave ticket item fail_snippet attempt reason)

unfoldable pub settle_death :
    Env
    → Workspace
    → WaveRecord
    → TicketRun
    → LaunchOutbox
    → Bool
    → Option Text
    → ℕ
    → Text
    → Exec (Unit {0})
unfolding write_death release_writer_lease_if_held
settle_death env ws wave ticket item receipt_succeeded fail_snippet attempt reason = do
  write_death env ws wave ticket item receipt_succeeded fail_snippet attempt reason
  when (stage_eq item.stage StageName.impl) (
      release_writer_lease_if_held env wave
        (dead_ticket wave ticket item fail_snippet attempt reason))

abbrev or_kept : Option Text → Option Text → Option Text
or_kept none kept = kept
or_kept (some sha) kept = some sha

abbrev pub settle_success :
    Env
    → ReviewFiles
    → WaveRecord
    → TicketRun
    → LaunchOutbox
    → Checked
    → StageName
    → Exec (Unit {0})
settle_success env files wave ticket item checked StageName.plan =
    apply_plan_success env files wave ticket checked.plan_path checked.summary
settle_success env files wave ticket item checked StageName.review = do
  _ ← admit_plan_review_ticket env files item.wave_id item.ticket_id
  pure tt
settle_success env files wave ticket item checked StageName.ux_review = do
  _ ← admit_ux_review_ticket env files item.wave_id item.ticket_id
  pure tt
settle_success env files wave ticket item checked StageName.impl = modify (
    put_ticket (
      with_status TicketStatus.verifying none (record ticket {
        verify_proof = checked.verify_proof;
        impl_sha = or_kept (truthy checked.impl_sha) ticket.impl_sha;
      })))
settle_success env files wave ticket item checked StageName.verify = pure tt

abbrev pub settle_ticket :
    Env
    → Workspace
    → ReviewFiles
    → WaveRecord
    → TicketRun
    → LaunchOutbox
    → Bool
    → Checked
    → Option Text
    → ℕ
    → SettleStatus
    → Exec (Unit {0})
settle_ticket env ws files wave ticket item receipt_succeeded checked error attempt succeeded =
    settle_success env files wave ticket item checked item.stage
settle_ticket env ws files wave ticket item receipt_succeeded checked error attempt (died how) =
    settle_death env ws wave ticket item receipt_succeeded checked.fail_snippet attempt (
      death_reason receipt_succeeded wave (
        stage_death_reason how (first_given checked.fail_snippet checked.summary) error item.stage
          attempt))
  where
    first_given : Option Text → Option Text → Option Text
    first_given (some snippet) summary = some snippet
    first_given none summary = summary

abbrev pub keep_path : Env → Workspace → LaunchOutbox → Text → Option Text → Exec (Unit {0})
keep_path env ws item kind none = pure tt
keep_path env ws item kind (some path) =
    put_proof env ws item.wave_id item.ticket_id path kind (ws.hash_json path)

-- what follows the row
unfoldable pub settle_work :
    Env
    → Workspace
    → ReviewFiles
    → LaunchOutbox
    → Bool
    → UsageResult
    → Checked
    → Option Text
    → Option Text
    → Exec (Unit {0})
unfolding require_wave require_ticket refresh_counters settle_stage settle_death put_proof
settle_work env ws files item receipt_succeeded usage checked output_ref error = do
  stage ← query (get_stage_by_idempotency item.idempotency_key)
  settle_stage env item.wave_id usage checked.status output_ref stage
  ticket ← require_ticket item.wave_id item.ticket_id
  wave ← require_wave item.wave_id
  settle_ticket env ws files wave ticket item receipt_succeeded checked error
      (attempt_of_stage stage item) checked.status
  keep_path env ws item (text "plan") (truthy checked.plan_path)
  keep_path env ws item (text "proof") (truthy checked.verify_proof)
  refresh_counters item.wave_id

abbrev pub settle_open : Exec (Unit {0}) → Result LaunchOutbox → Exec (Unit {0})
settle_open work (err e) = raise e
settle_open work (ok settled) = do try_modify (put_outbox settled); work

abbrev pub settle_row : Env → Exec (Unit {0}) → Option LaunchOutbox → Exec (Unit {0})
settle_row env work none = pure tt
settle_row env work (some row) =
    if outbox_eq row.state OutboxState.settled
    then pure tt
    else settle_open work (mark_settled row env.now)

-- the transaction, for the work that follows the row
unfoldable pub settle_rows : Env → LaunchOutbox → Exec (Unit {0}) → Exec (Unit {0})
unfolding transaction
settle_rows env item work =
    transaction
      (do row ← query (get_outbox_by_idempotency item.idempotency_key); settle_row env work row)

abbrev is_failed : Option TicketRun → Bool
is_failed none = false
is_failed (some ticket) = ticket_eq ticket.status TicketStatus.failed

abbrev pub close_impl : Env → Workspace → LaunchOutbox → SettleStatus → Exec (Unit {0})
close_impl env ws item succeeded = finalize_impl_land env ws item
close_impl env ws item (died how) = do
  ticket ← query (get_ticket item.wave_id item.ticket_id)
  when (is_failed ticket) (apply_on_exhausted_impl env ws item)

abbrev pub has_succeeded : SettleStatus → Bool
has_succeeded succeeded = true
has_succeeded (died how) = false

unfoldable pub settle_outbox :
    Env
    → Workspace
    → ReviewFiles
    → Settler
    → LaunchOutbox
    → LaunchReceipt
    → SettleStatus
    → Option Text
    → Option Text
    → Option Text
    → Exec (Unit {0})
unfolding settle_rows settle_work check_plan check_impl finalize_impl_land apply_on_exhausted_impl
    require_wave
settle_outbox env ws files settler item receipt status output_ref summary error = do
  usage ← lift (settler.settle_usage receipt)
  checked ← check_stage ws settler item receipt status output_ref summary
  settle_rows env item
      (settle_work env ws files item (has_succeeded status) usage checked output_ref error)
  when (stage_eq item.stage StageName.impl) (close_impl env ws item checked.status)
  _ ← require_wave item.wave_id
  pure tt
