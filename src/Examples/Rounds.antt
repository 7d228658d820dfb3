-- ===== src/Examples/Rounds.antt =====
-- Runs of the tick and of the watchdog (core/tick.ts, core/stage-watchdog.ts).
use openclaw_wave_runner.Prelude.{
  inl, ◌*◌, ◌≤◌, ◌≡◌, refl, true, false, none, some, [], ◌∷◌, find?, filter, any, Text, text,
  text_eq, ok, err, WaveError, arith,
}
use openclaw_wave_runner.Domain.{StageName, TicketStatus, WaveRecord}
use openclaw_wave_runner.Domain.Worker.{unknown_usage}
use openclaw_wave_runner.Store.{get_wave, get_lease}
use openclaw_wave_runner.Store.Table.{get, key_eq}
use openclaw_wave_runner.Controller.Exec.{Controller, pure}
use openclaw_wave_runner.Authority.{held_by}
use openclaw_wave_runner.Controller.Recovery.{writer_lease_blocks_impl}
use openclaw_wave_runner.Controller.PrimaryDirty.{fail_closed_if_primary_dirty}
use openclaw_wave_runner.Controller.Closing.{IsKeyedLedger}
use openclaw_wave_runner.Controller.Cancellation.{IsBudgetStopped}
use openclaw_wave_runner.Controller.Leases.{ticket_scope}
use openclaw_wave_runner.Controller.Hops.{queued}
use openclaw_wave_runner.Controller.StageChecks.{Settler}
use openclaw_wave_runner.Controller.LaunchGate.{LaunchMode, SupervisedStartOptions}
use openclaw_wave_runner.Controller.Watchdog.{
  Watch, GrokSessionEvent, stage_wall_ms, acp_timeout_seconds, read_file_hung_at,
}
use openclaw_wave_runner.Controller.Watchdog.Hangs.{
  counts, read_file_hung_at-filter, acp_timeout_seconds_bounds,
}
use openclaw_wave_runner.Controller.Tick.{Surroundings, may_implement, queue_ready, tick_wave}
use openclaw_wave_runner.Controller.Tick.Deadline.{IsLate, tick_wave-IsBudgetStopped}
use openclaw_wave_runner.Controller.Tick.Serial.{is_free, queue_ready-filter}
use openclaw_wave_runner.Examples.Data.{controller, test_env, running_wave, ticket_at}
use openclaw_wave_runner.Examples.Fakes.{adapters, workspace, files}

abbrev pub settler : Settler
settler = record {
  settle_usage = λ receipt. ok unknown_usage;
  plan_file = λ cwd out. none;
  write_plan_artifact = λ wave ticket plan dir. ok (text "/PLAN.md");
  verify = λ worktree command. err WaveError.safety_gate;
  commit_verified = λ worktree wave ticket command. ok (text "abc");
  error_text = λ e. text "error";
}

-- walls are not set in the environment
abbrev pub watch : Watch
watch = record {
  number = λ raw. none;
  plan_wall = none;
  impl_wall = none;
  hang = none;
  grok_read_file_hung = none;
  cancel = λ calls receipt. ok tt;
}

abbrev pub surroundings : Surroundings
surroundings = record {
  adapters = adapters;
  workspace = workspace;
  files = files;
  settler = settler;
  watch = watch;
  primary = record { wave_primary_dirty = none; primary_dirty_overlap = none };
  wording = λ e. text "refused";
  mode = LaunchMode.mock;
  frozen_pilot = λ manifest. ok false;
}

abbrev pub no_options : SupervisedStartOptions
no_options = record {
  supervised_bounded_pilot = false;
  supervised_one_ticket = false;
  operator_action = false;
}

abbrev late_wave : WaveRecord
late_wave = record running_wave { stop_at = some 40 }

abbrev late : Controller
late = record controller { db = record controller.db { waves = late_wave ∷ [] } }

late-IsKeyed : IsKeyedLedger late.db
late-IsKeyed = ground arith

late_found : get_wave (text "w") late.db ≡ some late_wave
unfolding get_wave get find? key_eq text_eq
late_found = refl

is_late : IsLate test_env.now late_wave
is_late = inl (40, refl, omega arith)

tick_wave-IsBudgetStopped_example :
    let after = tick_wave test_env surroundings (text "w") no_options late in
    (after.0 ≡ ok tt)
    × IsBudgetStopped (text "w") after.1.db
    × ((tick_wave test_env surroundings (text "w") no_options after.1).1 ≡ after.1)
tick_wave-IsBudgetStopped_example =
    tick_wave-IsBudgetStopped test_env test_env surroundings surroundings (text "w") no_options
      no_options late late_wave late-IsKeyed late_found refl refl is_late refl

-- two tickets of one scope, of which the first is queued
ready :
    (may_implement test_env surroundings
      (text "w")
      running_wave
      []
      (ticket_at (text "a") TicketStatus.approved)
      controller)
    ≡ (ok true, controller)
unfolding get_wave get find? key_eq text_eq any writer_lease_blocks_impl get_lease held_by
    fail_closed_if_primary_dirty
ready = refl

queue_ready-filter_example :
    queue_ready
      (may_implement test_env surroundings (text "w") running_wave)
      (λ idle ticket. pure queued)
      true
      []
      0
      (ticket_at (text "a") TicketStatus.approved ∷ ticket_at (text "a") TicketStatus.approved ∷ [])
      controller
    ≡ queue_ready
        (may_implement test_env surroundings (text "w") running_wave)
        (λ idle ticket. pure queued)
        true
        (ticket_scope (ticket_at (text "a") TicketStatus.approved) ∷ [])
        1
        (filter
          (is_free (ticket_scope (ticket_at (text "a") TicketStatus.approved) ∷ []))
          (ticket_at (text "a") TicketStatus.approved ∷ []))
        controller
unfolding get_wave get find? key_eq text_eq any writer_lease_blocks_impl get_lease held_by
    fail_closed_if_primary_dirty
queue_ready-filter_example =
    queue_ready-filter test_env surroundings (text "w") running_wave (λ idle ticket. pure queued)
      true [] 0 (ticket_at (text "a") TicketStatus.approved)
      (ticket_at (text "a") TicketStatus.approved ∷ []) controller (λ i. (ready i).0) refl

abbrev event : Text → Text → GrokSessionEvent
event type tool = record { ts = text "t"; type = type; tool_name = some tool }

-- a read that started long ago, and a command
read_file_hung_at-filter_example :
    read_file_hung_at
      (λ ts. some 5)
      (filter counts (
        event (text "tool_started") (text "read_file")
        ∷ event (text "tool_started") (text "bash")
        ∷ []))
      90
      60
    ≡ read_file_hung_at
        (λ ts. some 5)
        (event (text "tool_started") (text "read_file")
          ∷ event (text "tool_started") (text "bash")
          ∷ [])
        90
        60
read_file_hung_at-filter_example =
    read_file_hung_at-filter (λ ts. some 5)
      (event (text "tool_started") (text "read_file")
        ∷ event (text "tool_started") (text "bash")
        ∷ [])
      90 60

acp_timeout_seconds_bounds_example :
    (1 ≤ acp_timeout_seconds watch StageName.impl)
    × (stage_wall_ms watch StageName.impl ≤ 1000 * acp_timeout_seconds watch StageName.impl)
acp_timeout_seconds_bounds_example = acp_timeout_seconds_bounds watch StageName.impl
