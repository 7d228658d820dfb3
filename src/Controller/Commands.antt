-- ===== src/Controller/Commands.antt =====
-- core/wave-commands.ts and core/budget-stop.ts: the operator's commands and the stop for budget.
-- The calls of the workflow backend only project the state outside; they are left out.
use openclaw_wave_runner.Prelude.{
  ℕ, ◌+◌, Bool, true, false, not, Option, none, some, if◌then◌else◌, Text, text, WaveError, Result,
  ok, err,
}
use openclaw_wave_runner.Domain.{
  WaveStatus, TicketStatus, is_terminal_wave, is_terminal_ticket, WaveRecord, TicketRun,
  BudgetEntry, is_reserved,
}
use openclaw_wave_runner.StateMachine.{
  assert_wave_transition, assert_ticket_transition, assert_expected_revision, wave_owners,
  wave_next, ticket_owners, ticket_next,
}
use openclaw_wave_runner.Budget.{mark_indeterminate}
use openclaw_wave_runner.Store.{
  list_waves, list_tickets, list_budgets, put_wave, put_ticket, put_budget,
}
use openclaw_wave_runner.Controller.Exec.{
  Env, Exec, approval, revision, ◌>>=◌, ◌>>◌, pure, raise, lift, query, modify, for_each,
  transaction,
}
use openclaw_wave_runner.Controller.Context.{
  require_wave, require_ticket, record_or_throw, mutate_wave, refresh_counters,
}
use openclaw_wave_runner.Controller.Recovery.{release_inactive_writer_leases}

abbrev pub set_wave_status : WaveStatus → WaveRecord → WaveRecord
set_wave_status status wave = record wave {
  status = status;
  owner = wave_owners status;
  next_action = wave_next status;
}

abbrev pub after {ℓ} : {A : Type ℓ} → Result (Unit {0}) → A → Result A
after (ok _) a = ok a
after (err e) a = err e

-- `assertWaveTransition(wave.status, to, wave.cancelRequested)` and the new status
unfoldable pub move_wave : WaveStatus → WaveRecord → Result WaveRecord
move_wave to wave =
    after (assert_wave_transition wave.status to wave.cancel_requested) (set_wave_status to wave)

unfoldable pub freeze_wave : Env → Text → Text → Option ℕ → Exec (Unit {0})
freeze_wave env wave_id event_id expected =
    mutate_wave env wave_id event_id (text "freeze") expected (move_wave WaveStatus.frozen)

unfoldable pub pause_wave : Env → Text → Text → Option ℕ → Exec (Unit {0})
pause_wave env wave_id event_id expected =
    mutate_wave env wave_id event_id (text "pause") expected (move_wave WaveStatus.paused)

unfoldable pub resume_wave : Env → Text → Text → Option ℕ → Exec (Unit {0})
resume_wave env wave_id event_id expected =
    mutate_wave env wave_id event_id (text "resume") expected (move_wave WaveStatus.running)

unfoldable pub request_cancel : WaveRecord → Result WaveRecord
request_cancel wave =
    if is_terminal_wave wave.status
    then ok (record wave { cancel_requested = true })
    else after (assert_wave_transition wave.status WaveStatus.cancelled true)
        (set_wave_status WaveStatus.cancelled (record wave { cancel_requested = true }))

abbrev pub cancelled_ticket : TicketRun → TicketRun
cancelled_ticket ticket = record ticket {
  status = TicketStatus.cancelled;
  owner = ticket_owners TicketStatus.cancelled;
  next_action = ticket_next TicketStatus.cancelled;
  revision = ticket.revision + 1;
}

-- the bodies of the loops over tickets and over budgets
abbrev pub cancel_ticket : TicketRun → Exec (Unit {0})
cancel_ticket ticket =
    if not (is_terminal_ticket ticket.status)
    then modify (put_ticket (cancelled_ticket ticket))
    else pure tt

abbrev pub close_budget : Env → BudgetEntry → Exec (Unit {0})
close_budget env entry =
    if is_reserved entry.state
    then modify (put_budget (mark_indeterminate entry env.now))
    else pure tt

unfoldable pub cancel_children : Env → Text → Exec (Unit {0})
unfolding transaction
cancel_children env wave_id = transaction (do
  tickets ← query (list_tickets wave_id)
  for_each tickets cancel_ticket
  budgets ← query (list_budgets wave_id)
  for_each budgets (close_budget env)
  refresh_counters wave_id
  release_inactive_writer_leases env wave_id)

unfoldable pub cancel_wave : Env → Text → Text → Option ℕ → Exec (Unit {0})
unfolding cancel_children
cancel_wave env wave_id event_id expected = do
  mutate_wave env wave_id event_id (text "cancel") expected request_cancel
  cancel_children env wave_id

abbrev is_gate : WaveStatus → Bool
is_gate WaveStatus.waiting_approval = true
is_gate WaveStatus.awaiting_plan_gate = true
is_gate _ = false

abbrev pub moved_ticket : TicketStatus → TicketRun → TicketRun
moved_ticket status ticket = record ticket {
  status = status;
  owner = ticket_owners status;
  next_action = ticket_next status;
  revision = ticket.revision + 1;
}

-- a wave that waits at a gate runs again
unfoldable pub leave_gate : Env → WaveRecord → Exec (Unit {0})
leave_gate env wave = if not (is_gate wave.status) then pure tt else do
  changed ← lift (move_wave WaveStatus.running wave)
  modify (put_wave (record changed { revision = changed.revision + 1; updated_at = env.now }))

unfoldable pub approve_wave : Env → Text → Text → ℕ → Text → Exec (Unit {0})
unfolding require_wave require_ticket leave_gate record_or_throw transaction
approve_wave env wave_id ticket_id expected_ticket_revision event_id = do
  record_or_throw env event_id wave_id (text "approve")
      (approval ticket_id expected_ticket_revision)
  transaction (do
    wave ← require_wave wave_id
    if wave.cancel_requested then raise WaveError.cancelled else do
      ticket ← require_ticket wave_id ticket_id
      lift (assert_expected_revision ticket.revision (some expected_ticket_revision))
      lift (assert_ticket_transition ticket.status TicketStatus.approved wave.cancel_requested)
      modify (put_ticket (moved_ticket TicketStatus.approved ticket))
      leave_gate env wave)

unfoldable pub revise_wave : Env → Text → Text → Text → Exec (Unit {0})
unfolding require_wave require_ticket leave_gate record_or_throw transaction
revise_wave env wave_id ticket_id event_id = do
  record_or_throw env event_id wave_id (text "revise") (revision ticket_id)
  transaction (do
    wave ← require_wave wave_id
    ticket ← require_ticket wave_id ticket_id
    lift (assert_ticket_transition ticket.status TicketStatus.revising wave.cancel_requested)
    modify (put_ticket (moved_ticket TicketStatus.revising ticket))
    leave_gate env wave)

-- `nextEventId()` draws a fresh id for each wave: a parameter.
abbrev pub stop_one : Env → (Text → Text) → WaveRecord → Exec (Unit {0})
stop_one env fresh_event wave =
    if is_terminal_wave wave.status
    then pure tt
    else cancel_wave env wave.wave_id (fresh_event wave.wave_id) none

unfoldable pub emergency_stop : Env → (Text → Text) → Exec (Unit {0})
emergency_stop env fresh_event = do
  waves ← query list_waves
  for_each waves (stop_one env fresh_event)

abbrev pub budget_stopped_ticket : Text → TicketRun → TicketRun
budget_stopped_ticket reason ticket = record ticket {
  status = TicketStatus.budget_stopped;
  outcome = some reason;
  revision = ticket.revision + 1;
}

abbrev pub stop_ticket : Text → TicketRun → Exec (Unit {0})
stop_ticket reason ticket =
    if not (is_terminal_ticket ticket.status)
    then modify (put_ticket (budget_stopped_ticket reason ticket))
    else pure tt

abbrev pub budget_stopped_wave : Env → WaveRecord → WaveRecord
budget_stopped_wave env wave =
    let stopped = set_wave_status WaveStatus.budget_stopped wave in
    record stopped { revision = stopped.revision + 1; updated_at = env.now }

unfoldable pub stop_for_budget : Env → Text → Text → Exec (Unit {0})
unfolding require_wave transaction
stop_for_budget env wave_id reason = transaction (do
  wave ← require_wave wave_id
  if is_terminal_wave wave.status then pure tt else do
    modify (put_wave (budget_stopped_wave env wave))
    tickets ← query (list_tickets wave_id)
    for_each tickets (stop_ticket reason)
    budgets ← query (list_budgets wave_id)
    for_each budgets (close_budget env)
    refresh_counters wave_id
    release_inactive_writer_leases env wave_id)
