-- ===== src/Controller/Rows.antt =====
-- core/admission.ts: the rows that `queueStage` writes once a stage is admitted: the ticket, the
-- stage, the reservation, the outbox item and the wave's counters.
use openclaw_wave_runner.Prelude.{ℕ, ◌+◌, Option, none, some, get_or, if◌then◌else◌, Text, text}
use openclaw_wave_runner.Domain.{
  TicketStatus, StageName, StageStatus, OutboxState, ticket_eq, WaveRecord, WaveLimits, TicketRun,
  StageRun, BudgetEntry, LaunchOutbox, LeaseRecord, reserved,
}
use openclaw_wave_runner.StateMachine.{assert_ticket_transition, ticket_owners, ticket_next}
use openclaw_wave_runner.Budget.{reservation_ceiling}
use openclaw_wave_runner.WriterScope.{writer_lease_key}
use openclaw_wave_runner.StagePaths.{idempotency_key, is_plan_gate_stage}
use openclaw_wave_runner.Store.{put_wave, put_ticket, put_stage, put_budget, get_lease, put_outbox}
use openclaw_wave_runner.Controller.Exec.{
  Env, Exec, ◌>>=◌, ◌>>◌, pure, lift, query, modify, try_modify,
}
use openclaw_wave_runner.Controller.Context.{require_ticket, refresh_counters}
use openclaw_wave_runner.Controller.Leases.{ticket_scope}

-- what `randomUUID()` gives in one call, under the prefixes that the code puts before it
pub record FreshIds : Type 0 where
  pub stage_run_id : Text
  pub budget_id : Text
  pub outbox_id : Text

abbrev pub next_status : StageName → TicketStatus
next_status StageName.plan = TicketStatus.planning
next_status StageName.impl = TicketStatus.implementing
next_status StageName.review = TicketStatus.plan_review
next_status StageName.ux_review = TicketStatus.plan_review
next_status StageName.verify = TicketStatus.verifying

abbrev pub claimed_ticket : TicketRun → TicketRun
claimed_ticket ticket = record ticket {
  status = TicketStatus.claimed;
  revision = ticket.revision + 1;
}

abbrev pub staged_ticket : StageName → TicketRun → TicketRun
staged_ticket stage ticket = record ticket { stage = some stage; revision = ticket.revision + 1 }

abbrev pub status_ticket : TicketStatus → TicketRun → TicketRun
status_ticket status ticket = record ticket {
  status = status;
  owner = ticket_owners status;
  next_action = ticket_next status;
}

-- PENDING goes through CLAIMED; then, but for the two reviews, the status of the stage
unfoldable pub move_ticket : WaveRecord → Text → Text → StageName → Exec (Unit {0})
unfolding require_ticket
move_ticket live wave_id ticket_id stage = do
  first ← require_ticket wave_id ticket_id
  if ticket_eq first.status TicketStatus.pending
      then (do
        lift (assert_ticket_transition first.status TicketStatus.claimed live.cancel_requested)
        modify (put_ticket (claimed_ticket first)))
      else pure tt
  ticket ← require_ticket wave_id ticket_id
  if is_plan_gate_stage stage then modify (put_ticket (staged_ticket stage ticket)) else (do
    lift (assert_ticket_transition ticket.status (next_status stage) live.cancel_requested)
    modify (put_ticket (staged_ticket stage (status_ticket (next_status stage) ticket))))

abbrev pub stage_row : Env → FreshIds → Text → Text → TicketRun → StageName → ℕ → StageRun
stage_row env ids wave_id ticket_id ticket stage attempt = record {
  stage_run_id = ids.stage_run_id;
  wave_id = wave_id;
  ticket_id = ticket_id;
  stage = stage;
  attempt = attempt;
  idempotency_key = idempotency_key wave_id ticket_id stage attempt;
  model = ticket.model;
  provider = some (get_or ticket.provider (text "mock"));
  task_id = none;
  run_id = none;
  session_id = none;
  receipt_json = none;
  output_ref = none;
  status = StageStatus.pending;
  created_at = env.now;
}

abbrev pub budget_row : Env → FreshIds → Text → WaveLimits → BudgetEntry
budget_row env ids wave_id limits = record {
  budget_id = ids.budget_id;
  wave_id = wave_id;
  stage_run_id = some ids.stage_run_id;
  tokens_reserved = (reservation_ceiling limits).0;
  cost_reserved_micros = (reservation_ceiling limits).1;
  tokens_actual = none;
  cost_actual_micros = none;
  state = reserved;
  created_at = env.now;
  updated_at = env.now;
}

abbrev pub generation_or_one : Option LeaseRecord → ℕ
generation_or_one none = 1
generation_or_one (some lease) = lease.generation

abbrev pub outbox_row : Env → FreshIds → Text → Text → StageName → ℕ → ℕ → LaunchOutbox
outbox_row env ids wave_id ticket_id stage attempt generation = record {
  outbox_id = ids.outbox_id;
  wave_id = wave_id;
  ticket_id = ticket_id;
  stage = stage;
  attempt = attempt;
  idempotency_key = idempotency_key wave_id ticket_id stage attempt;
  state = OutboxState.pending;
  fencing_generation = generation;
  claimed_by = none;
  claimed_at = none;
  receipt_json = none;
  error = none;
  created_at = env.now;
  updated_at = env.now;
}

abbrev pub launched_wave : WaveRecord → WaveRecord
launched_wave live = record live {
  counters = record live.counters { launches = live.counters.launches + 1 };
}

-- the ticket, the stage, the reservation and the outbox item
unfoldable pub insert_rows :
    Env
    → FreshIds
    → WaveRecord
    → WaveLimits
    → TicketRun
    → Text
    → Text
    → StageName
    → ℕ
    → Exec (Unit {0})
unfolding move_ticket
insert_rows env ids live limits ticket wave_id ticket_id stage attempt = do
  move_ticket live wave_id ticket_id stage
  try_modify (put_stage (stage_row env ids wave_id ticket_id ticket stage attempt))
  modify (put_budget (budget_row env ids wave_id limits))
  lease ← query (get_lease (writer_lease_key live.repo_path (ticket_scope ticket)))
  try_modify
      (put_outbox (outbox_row env ids wave_id ticket_id stage attempt (generation_or_one lease)))

unfoldable pub count_launch : WaveRecord → Text → Exec (Unit {0})
unfolding refresh_counters
count_launch live wave_id = do modify (put_wave (launched_wave live)); refresh_counters wave_id

-- the writes after the lease
unfoldable pub write_rows :
    Env
    → FreshIds
    → WaveRecord
    → WaveLimits
    → TicketRun
    → Text
    → Text
    → StageName
    → ℕ
    → Exec (Unit {0})
unfolding insert_rows count_launch
write_rows env ids live limits ticket wave_id ticket_id stage attempt = do
  insert_rows env ids live limits ticket wave_id ticket_id stage attempt
  count_launch live wave_id
