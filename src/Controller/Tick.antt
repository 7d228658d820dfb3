-- ===== src/Controller/Tick.antt =====
-- core/tick.ts: the tickets that a round puts on the way, and the round itself. The view that `tickWave`
-- returns is left out; the injected crashes are off.
pub mod Deadline
pub mod Once
pub mod Serial
use openclaw_wave_runner.Prelude.{
  ℕ, ◌+◌, ◌==◌, Bool, true, false, ◌&&◌, ◌||◌, not, Option, none, some, List, [], ◌∷◌,
  if◌then◌else◌, filter, any, all, is_empty, is_some, Text, text, text_eq, WaveError, Result,
}
use openclaw_wave_runner.Domain.{
  StageName, stage_eq, WaveStatus, wave_eq, TicketStatus, ticket_eq, is_terminal_wave, WaveRecord,
  TicketRun, LaunchOutbox,
}
use openclaw_wave_runner.OperatorLoop.{is_idle_gate_status}
use openclaw_wave_runner.Store.{WaveDatabase, get_ticket, list_tickets, list_outbox}
use openclaw_wave_runner.Controller.Exec.{Env, Exec, ◌>>=◌, ◌>>◌, pure, lift, query, when}
use openclaw_wave_runner.Controller.Context.{require_wave}
use openclaw_wave_runner.Controller.Leases.{truthy, ticket_scope}
use openclaw_wave_runner.Controller.Recovery.{
  expire_stale_leases, fail_unlaunchable_approved, release_inactive_writer_leases,
  writer_lease_blocks_impl,
}
use openclaw_wave_runner.Controller.Commands.{stop_for_budget}
use openclaw_wave_runner.Controller.Completion.{
  deadline_exceeded, is_waiting, done_ids, maybe_complete_wave,
}
use openclaw_wave_runner.Controller.Hops.{
  QueueAdmitResult, queued, deferred, stopped, queue_stage_or_budget,
}
use openclaw_wave_runner.Controller.FailLaunch.{is_closed_outbox}
use openclaw_wave_runner.Controller.Adapters.{Adapters}
use openclaw_wave_runner.Controller.Workspace.{Workspace}
use openclaw_wave_runner.Controller.Reviews.{ReviewFiles}
use openclaw_wave_runner.Controller.PlanReviews.{queue_missing_plan_reviews, maybe_admit_plan_gate}
use openclaw_wave_runner.Controller.PendingCloseout.{advance_pending_closeouts}
use openclaw_wave_runner.Controller.StageChecks.{Settler}
use openclaw_wave_runner.Controller.Dispatch.{dispatch_pending}
use openclaw_wave_runner.Controller.Observe.{refresh_held_leases, reconcile, observe_launched}
use openclaw_wave_runner.Controller.Watchdog.{Watch, apply_stage_watchdog, apply_read_file_watchdog}
use openclaw_wave_runner.Controller.PrimaryDirty.{Primary, fail_closed_if_primary_dirty}
use openclaw_wave_runner.Controller.LaunchGate.{
  LaunchMode, SupervisedStartOptions, is_mock, assert_launch_allowed,
}

-- What a round works with.
pub record Surroundings : Type 0 where
  pub adapters : Adapters
  pub workspace : Workspace
  pub files : ReviewFiles
  pub settler : Settler
  pub watch : Watch
  pub primary : Primary
  pub wording : WaveError → Text  -- the message of an error
  pub mode : LaunchMode
  -- the flag `supervisedBoundedPilot` of a manifest
  pub frozen_pilot : Text → Result Bool

abbrev open_rows : Text → WaveDatabase → List LaunchOutbox
open_rows wave_id db =
    filter (λ (item : LaunchOutbox). not (is_closed_outbox item.state)) (list_outbox wave_id db)

abbrev scope_of : Option TicketRun → List Text → List Text
scope_of none scopes = scopes
scope_of (some ticket) scopes = ticket_scope ticket ∷ scopes

-- the scopes that an open IMPL has
abbrev pub busy_impl_scopes : Text → WaveDatabase → List LaunchOutbox → List Text
busy_impl_scopes wave_id db [] = []
busy_impl_scopes wave_id db (item ∷ items) =
    let scopes = busy_impl_scopes wave_id db items in
    if stage_eq item.stage StageName.impl
    then scope_of (get_ticket wave_id item.ticket_id db) scopes
    else scopes

-- The loops of `advanceReadyTickets`: each ticket that may go, by its test and the scopes that are busy,
-- is handed to `queueStageOrBudget`. The number of those that were queued is carried along; there is
-- none where the wave was stopped.
unfoldable pub queue_ready :
    (List Text → TicketRun → Exec Bool)
    → (Bool → TicketRun → Exec QueueAdmitResult)
    → Bool
    → List Text
    → ℕ
    → List TicketRun
    → Exec (Option ℕ)
queue_ready may admit no_open busy n [] = pure (some n)
queue_ready may admit no_open busy n (ticket ∷ tickets) = do
  ready ← may busy ticket
  if not ready then queue_ready may admit no_open busy n tickets else do
    admitted ← admit (n == 0 && no_open) ticket
    elim admitted [
      | queued ↦ queue_ready may admit no_open (ticket_scope ticket ∷ busy) (n + 1) tickets
      | deferred ↦ pure (some n)
      | stopped ↦ pure none
    ]

module _ (env : Env) (s : Surroundings) (wave_id : Text) where
  abbrev pub admit_at : StageName → Bool → TicketRun → Exec QueueAdmitResult
  admit_at stage idle ticket = do
    ids ← query s.files.fresh
    queue_stage_or_budget env s.wording ids wave_id ticket.ticket_id stage idle

  abbrev pub not_dirty : TicketRun → Exec Bool
  not_dirty ticket = do
    dirty ← fail_closed_if_primary_dirty s.workspace s.primary wave_id ticket.ticket_id
    pure (not dirty)

  abbrev pub may_implement : WaveRecord → List Text → TicketRun → Exec Bool
  may_implement wave busy ticket =
      if any (text_eq (ticket_scope ticket)) busy then pure false else do
        blocked ← writer_lease_blocks_impl env wave ticket
        if blocked then pure false else not_dirty ticket

  abbrev pub may_plan : List LaunchOutbox → List Text → TicketRun → Exec Bool
  may_plan open_items busy ticket =
      if any (λ (item : LaunchOutbox). text_eq item.ticket_id ticket.ticket_id) open_items
      then pure false
      else not_dirty ticket

  abbrev plan_candidates : WaveDatabase → List TicketRun
  plan_candidates db =
      let tickets = list_tickets wave_id db in
      filter
        (λ (ticket : TicketRun).
          is_waiting ticket.status
          && all (λ dep. any (text_eq dep) (done_ids tickets)) ticket.depends_on)
        tickets

  abbrev pub then_plan : List LaunchOutbox → Option ℕ → Exec (Unit {0})
  then_plan open_items none = pure tt
  then_plan open_items (some n) = do
    candidates ← query plan_candidates
    _ ←
        queue_ready (may_plan open_items) (admit_at StageName.plan) (is_empty open_items) [] n
          candidates
    pure tt

  unfoldable pub advance_ready_tickets : Exec (Unit {0})
  unfolding require_wave writer_lease_blocks_impl fail_closed_if_primary_dirty queue_ready
      queue_stage_or_budget
  advance_ready_tickets = do
    wave ← require_wave wave_id
    if wave.cancel_requested || (is_terminal_wave wave.status || is_idle_gate_status wave.status)
        then pure tt
        else do
          open_items ← query (open_rows wave_id)
          busy ← query (λ db. busy_impl_scopes wave_id db open_items)
          approved ← query (λ db.
              filter (λ (t : TicketRun). ticket_eq t.status TicketStatus.approved)
                (list_tickets wave_id db))
          n ←
              queue_ready (may_implement wave) (admit_at StageName.impl) (is_empty open_items) busy
                0 approved
          then_plan open_items n

  abbrev pub launch_gate : SupervisedStartOptions → Exec (Unit {0})
  launch_gate options = if is_mock s.mode then pure tt else do
    wave ← require_wave wave_id
    frozen ← lift (s.frozen_pilot wave.manifest_json)
    tickets ← query (list_tickets wave_id)
    lift (
        assert_launch_allowed s.mode (is_some (truthy s.adapters.worktree_root)) wave tickets frozen
          options)

  abbrev pub dispatch_and_observe : Exec (Unit {0})
  dispatch_and_observe = do
    dispatch_pending env s.adapters wave_id
    observe_launched env s.adapters s.workspace s.files s.settler wave_id

  abbrev pub plan_gate_or_ready : WaveStatus → Exec (Unit {0})
  plan_gate_or_ready WaveStatus.awaiting_plan_gate = do
    dispatch_and_observe
    maybe_admit_plan_gate env s.files wave_id
  plan_gate_or_ready WaveStatus.waiting_approval = pure tt
  plan_gate_or_ready _ = do advance_ready_tickets; fail_unlaunchable_approved env wave_id

  -- from the dispatch to the completion
  unfoldable pub tick_work : Exec (Unit {0})
  unfolding advance_ready_tickets dispatch_pending observe_launched apply_stage_watchdog
      apply_read_file_watchdog advance_pending_closeouts release_inactive_writer_leases
      queue_missing_plan_reviews maybe_admit_plan_gate fail_unlaunchable_approved
      maybe_complete_wave require_wave
  tick_work = do
    dispatch_and_observe
    apply_stage_watchdog env s.adapters s.workspace s.files s.settler s.watch wave_id
    apply_read_file_watchdog env s.adapters s.workspace s.files s.settler s.watch wave_id
    advance_pending_closeouts env s.workspace wave_id
    release_inactive_writer_leases env wave_id
    queue_missing_plan_reviews env s.wording s.files wave_id
    wave ← require_wave wave_id
    plan_gate_or_ready wave.status
    maybe_complete_wave env wave_id

  -- from the leases to the work, of a wave that is live and in time
  unfoldable pub tick_live : Exec (Unit {0})
  unfolding tick_work refresh_held_leases expire_stale_leases reconcile maybe_complete_wave
      require_wave
  tick_live = do
    refresh_held_leases env wave_id
    _ ← expire_stale_leases env
    reconcile env s.adapters s.workspace s.files s.settler wave_id
    wave ← require_wave wave_id
    if wave_eq wave.status WaveStatus.waiting_approval
        then maybe_complete_wave env wave_id
        else tick_work

  unfoldable pub tick_wave : SupervisedStartOptions → Exec (Unit {0})
  unfolding tick_live assert_launch_allowed stop_for_budget deadline_exceeded require_wave
  tick_wave options = do
    wave ← require_wave wave_id
    launch_gate options
    if is_terminal_wave wave.status || wave_eq wave.status WaveStatus.paused
        then pure tt
        else if deadline_exceeded env.now wave
        then stop_for_budget env wave_id (text "deadline")
        else tick_live
