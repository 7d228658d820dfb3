-- ===== src/Examples/Fakes.antt =====
-- Fake adapters: a worker that starts whatever it is given, a workspace that lands, reviews that pass.
use openclaw_wave_runner.Prelude.{true, false, none, some, [], ◌∷◌, Text, text, ok, err, WaveError}
use openclaw_wave_runner.Domain.{
  StageName, StageStatus, TicketStatus, OutboxState, WaveStatus, StageRun, LaunchOutbox,
  LeaseRecord, WaveRecord,
}
use openclaw_wave_runner.Domain.Worker.{LaunchReceipt, unknown_usage}
use openclaw_wave_runner.WriterScope.{land_lock_key}
use openclaw_wave_runner.Controller.Exec.{Env, Controller}
use openclaw_wave_runner.Controller.FailLaunch.{started}
use openclaw_wave_runner.Controller.Adapters.{Adapters, Verdict}
use openclaw_wave_runner.Controller.Workspace.{Workspace}
use openclaw_wave_runner.Controller.Reviews.{ReviewFiles}
use openclaw_wave_runner.Controller.StageChecks.{Checked, succeeded}
use openclaw_wave_runner.Examples.Data.{
  small_ledger, running_wave, ticket_at, pending_item, controller, test_env, new_ids, our_process,
}

abbrev pub receipt : Text → LaunchReceipt
receipt key = record {
  idempotency_key = key;
  task_id = some (text "t1");
  run_id = none;
  session_id = none;
  provider = none;
  model = none;
  output_dir = none;
  cwd = none;
}

abbrev pub adapters : Adapters
adapters = record {
  launch = λ calls intent. started (receipt intent.idempotency_key);
  recover = λ calls intent. ok none;
  inspect = λ calls r. err WaveError.not_found;
  to_json = λ r. text "{}";
  of_json = λ s. err WaveError.not_found;
  settle_usage = λ r. ok unknown_usage;
  create_worktree = λ wave ticket_id sha. ok (text "/tree", text "branch");
  link_stage_task = λ item r. ok tt;
  comes_before = λ a b. true;
  join = λ parts. text "/out";
  prompt = λ item ticket cwd. text "do";
  artifact_root = none;
  worktree_root = none;
  forge_of = λ repo. some (text "/forge");
  mona = none;
  contract_refusal = λ forge ticket_id output. none;
}

abbrev pub workspace : Workspace
workspace = record {
  land_to_main = some (λ wave ticket worktree. ok (record {
    succeeded = true;
    commit_sha = some (text "abc");
    proof = text "/LAND.json";
    proof_exists = true;
    error = none;
    recovery = none;
  }));
  apply_to_workdir = none;
  parse_manifest = λ s. none;
  wave_land_mode = none;
  join = λ parts. text "/out";
  artifact_root = none;
  read_durable_ok = λ moment path. false;
  proof_commit = λ moment path. none;
  hash_json = λ s. s;
  random_uuid = λ artifacts. text "u";
  message = λ e. text "error";
}

abbrev pub files : ReviewFiles
files = record {
  forge_of = λ repo. some (text "/forge");
  mona = none;
  check_plan_review = λ forge ticket_id. some Verdict.approve;
  check_ux_review = λ root ticket_id. none;
  contract_refusal = λ forge ticket_id. none;
  check_plan_stamp = λ path. false;
  existing_ux_spec = λ ticket repo. none;
  parse_manifest = λ s. none;
  parse_payload =
      λ s. some (record { ticket_id = some (text "b"); plan_attempt = some 1; revision = some 5 });
  fresh = λ db. new_ids;
}

-- the row of ticket a waits for its launch
abbrev pub waiting : Controller
waiting = record controller { db = record small_ledger { outbox = pending_item ∷ [] } }

-- the review of ticket a, claimed by another dispatch
abbrev pub claimed_review : LaunchOutbox
claimed_review = record pending_item {
  stage = StageName.review;
  state = OutboxState.claimed;
  claimed_by = some (text "other");
  claimed_at = some 12;
}

abbrev pub raced : Controller
raced = record controller { db = record small_ledger { outbox = claimed_review ∷ [] } }

-- ticket z holds the land lock of the repository until 90
abbrev pub land_lease : LeaseRecord
land_lease = record {
  resource_key = land_lock_key running_wave.repo_path;
  generation = 2;
  holder = our_process.holder;
  wave_id = some (text "w");
  ticket_id = some (text "z");
  task_id = none;
  process_identity = our_process.process_identity;
  pid = our_process.pid;
  pid_start_time = none;
  expires_at = 90;
  created_at = 4;
}

abbrev pub landing : Controller
landing = record controller { db = record small_ledger { leases = land_lease ∷ [] } }

-- the IMPL of ticket a is out
abbrev pub launched_impl : LaunchOutbox
launched_impl = record pending_item {
  stage = StageName.impl;
  state = OutboxState.launched;
  claimed_by = some (text "op");
}

abbrev pub implementing : Controller
implementing = record controller {
  db = record small_ledger {
    tickets = ticket_at (text "a") TicketStatus.implementing ∷ [];
    outbox = launched_impl ∷ [];
  };
}

abbrev pub checked_impl : Checked
checked_impl = record {
  status = succeeded;
  plan_path = none;
  summary = none;
  verify_proof = some (text "/proof");
  fail_snippet = none;
  impl_sha = some (text "abc");
}

-- the plan of ticket b is written, and no session of its provider is free
abbrev pub busy_env : Env
busy_env = record test_env { count_live_provider = some (λ provider. 9) }

abbrev plan_of_b : StageRun
plan_of_b = record {
  stage_run_id = text "s0";
  wave_id = text "w";
  ticket_id = text "b";
  stage = StageName.plan;
  attempt = 1;
  idempotency_key = text "w:b:PLAN:1";
  model = none;
  provider = none;
  task_id = none;
  run_id = none;
  session_id = none;
  receipt_json = none;
  output_ref = none;
  status = StageStatus.succeeded;
  created_at = 11;
}

abbrev pub gated_wave : WaveRecord
gated_wave = record running_wave { status = WaveStatus.awaiting_plan_gate }

abbrev pub planned : Controller
planned = record controller {
  db = record small_ledger { waves = gated_wave ∷ []; stages = plan_of_b ∷ [] };
}
