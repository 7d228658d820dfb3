-- ===== src/Examples/Data.antt =====
-- One running wave with a ticket that waits, one under review and one that is done, and a controller
-- around it.
use openclaw_wave_runner.Prelude.{ℕ, false, none, some, [], ◌∷◌, Text, text}
use openclaw_wave_runner.Domain.{
  WaveStatus, TicketStatus, QuotaMode, WaveLimits, WaveCounters, WaveRecord, TicketRun, BudgetEntry,
  LaunchOutbox, OutboxState, StageName, LeaseRecord, reserved,
}
use openclaw_wave_runner.Lease.{ProcessIdentity, LeaseRequest, delivered}
use openclaw_wave_runner.Store.{WaveDatabase, empty_database}
use openclaw_wave_runner.Controller.Exec.{Env, Controller}
use openclaw_wave_runner.Controller.Rows.{FreshIds}

abbrev pub small_limits : WaveLimits
small_limits = record {
  max_tokens = 1000;
  max_cost_micros = 0;
  max_launches = 4;
  max_retries_per_stage = 2;
  max_wall_time_ms = 0;
  repo_concurrency = 1;
  per_provider_concurrency = 2;
  per_stage_reservation_tokens = 100;
  per_stage_reservation_cost_micros = 0;
}

abbrev pub one_launch : WaveCounters
one_launch = record {
  committed_tokens = 0;
  reserved_tokens = 100;
  indeterminate_tokens = 0;
  committed_cost_micros = 0;
  reserved_cost_micros = 0;
  indeterminate_cost_micros = 0;
  launches = 1;
  started_at = some 10;
}

abbrev pub running_wave : WaveRecord
running_wave = record {
  wave_id = text "w";
  manifest_json = text "{}";
  manifest_hash = text "h";
  repo_path = text "/repo";
  base_sha = text "base";
  status = WaveStatus.running;
  revision = 3;
  deadline_ms = none;
  stop_at = some 1000;
  limits = small_limits;
  counters = one_launch;
  flow_id = none;
  owner = text "controller";
  next_action = text "tick";
  created_at = 1;
  updated_at = 2;
  cancel_requested = false;
  quota_mode = QuotaMode.tokens;
}

abbrev pub ticket_at : Text → TicketStatus → TicketRun
ticket_at id status = record {
  wave_id = text "w";
  ticket_id = id;
  content_hash = text "c";
  title = text "t";
  depends_on = [];
  order = 0;
  source_path = text "issues/app/t.md";
  stage = none;
  status = status;
  revision = 5;
  owner = [];
  next_action = [];
  plan_class = none;
  plan_artifact = none;
  impl_worktree = none;
  impl_branch = none;
  impl_sha = none;
  verify_proof = none;
  verify_command = none;
  provider = none;
  model = none;
  human_hold = none;
  human_hold_reason = none;
  writer_scope = none;
  product = none;
  game = none;
  outcome = none;
  plan_review_skip = none;
  plan_review_revise_cap = none;
  needs_ux = none;
  ux_spec_path = none;
  ux_review_revise_cap = none;
  plan_worker = none;
}

abbrev pub reserved_entry : BudgetEntry
reserved_entry = record {
  budget_id = text "b0";
  wave_id = text "w";
  stage_run_id = none;
  tokens_reserved = 100;
  cost_reserved_micros = 7;
  tokens_actual = none;
  cost_actual_micros = none;
  state = reserved;
  created_at = 11;
  updated_at = 11;
}

abbrev pub small_ledger : WaveDatabase
small_ledger = record empty_database {
  waves = running_wave ∷ [];
  tickets =
      ticket_at (text "a") TicketStatus.pending
      ∷ ticket_at (text "b") TicketStatus.plan_review
      ∷ ticket_at (text "d") TicketStatus.done
      ∷ [];
  budgets = reserved_entry ∷ [];
}

abbrev pub our_process : ProcessIdentity
our_process = record {
  holder = text "op";
  process_identity = text "p1";
  pid = some 77;
  pid_start_time = none;
}

abbrev pub other_process : ProcessIdentity
other_process = record {
  holder = text "op";
  process_identity = text "p2";
  pid = some 78;
  pid_start_time = none;
}

abbrev pub test_env : Env
test_env = record {
  now = 50;
  process = our_process;
  lease_ttl_ms = 30;
  acp_slots_max = none;
  count_live_provider = none;
  kill = λ pid. delivered;
  stringify = λ payload. text "{}";
}

abbrev pub controller : Controller
controller = record { db = small_ledger; locks = []; watchdog_fires = 0; calls = [] }

abbrev pub new_ids : FreshIds
new_ids = record { stage_run_id = text "s1"; budget_id = text "b1"; outbox_id = text "o1" }

abbrev pub pending_item : LaunchOutbox
pending_item = record {
  outbox_id = text "o0";
  wave_id = text "w";
  ticket_id = text "a";
  stage = StageName.plan;
  attempt = 1;
  idempotency_key = text "w:a:PLAN:1";
  state = OutboxState.pending;
  fencing_generation = 1;
  claimed_by = none;
  claimed_at = none;
  receipt_json = none;
  error = none;
  created_at = 11;
  updated_at = 11;
}

-- a lease of the other process that runs out at 40
abbrev pub foreign_lease : LeaseRecord
foreign_lease = record {
  resource_key = text "writer:/repo:x";
  generation = 6;
  holder = text "op";
  wave_id = some (text "v");
  ticket_id = some (text "z");
  task_id = none;
  process_identity = text "p2";
  pid = some 78;
  pid_start_time = none;
  expires_at = 40;
  created_at = 4;
}

-- our request for it at a time
abbrev pub request_at : ℕ → LeaseRequest
request_at now = record {
  resource_key = text "writer:/repo:x";
  now = now;
  ttl_ms = 30;
  claimant = our_process;
  wave_id = some (text "w");
  ticket_id = some (text "a");
  task_id = none;
}
