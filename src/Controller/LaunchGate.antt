-- ===== src/Controller/LaunchGate.antt =====
-- `assertLaunchAllowed` of core/wave-create.ts: the gate of a wave that real workers run.
use openclaw_wave_runner.Prelude.{
  Bool, true, false, ◌&&◌, not, some, map, if◌then◌else◌, List, WaveError, Result, ok, ◌>>◌,
  throw_if,
}
use openclaw_wave_runner.Domain.{WaveLimits, WaveRecord, TicketRun}
use openclaw_wave_runner.Safety.{
  safety, LaunchLimits, LaunchRequest, assert_supervised_bounded_launch,
}

pub data LaunchMode : Type 0 where
  mock supervised_bounded supervised_one_ticket : LaunchMode

-- a flag left out is falsy
pub record SupervisedStartOptions : Type 0 where
  pub supervised_bounded_pilot : Bool
  pub supervised_one_ticket : Bool
  pub operator_action : Bool

abbrev pub is_mock : LaunchMode → Bool
is_mock LaunchMode.mock = true
is_mock _ = false

abbrev limits_of : WaveLimits → LaunchLimits
limits_of limits = record {
  max_launches = limits.max_launches;
  max_tokens = limits.max_tokens;
  max_wall_time_ms = limits.max_wall_time_ms;
  repo_concurrency = limits.repo_concurrency;
}

abbrev launch_request : Bool → WaveRecord → List TicketRun → SupervisedStartOptions → LaunchRequest
launch_request isolated wave tickets options = record {
  ticket_ids = some (map (λ (t : TicketRun). t.ticket_id) tickets);
  operator_action = options.operator_action;
  isolated_worktree = isolated;
  deploy_push = false;
  gateway_mutate = false;
  limits = some (limits_of wave.limits);
}

abbrev supervised_gate :
    Bool → WaveRecord → List TicketRun → Bool → SupervisedStartOptions → Result (Unit {0})
supervised_gate isolated wave tickets frozen_pilot options = do
  throw_if (not options.supervised_bounded_pilot && not options.supervised_one_ticket)
      WaveError.safety_gate
  assert_supervised_bounded_launch (launch_request isolated wave tickets options)
  throw_if (not frozen_pilot) WaveError.safety_gate

-- Of the mode, whether there is a root of worktrees, the view's wave and tickets, and the manifest's
-- `supervisedBoundedPilot`. There is no mode but the three.
unfoldable pub assert_launch_allowed :
    LaunchMode
    → Bool
    → WaveRecord
    → List TicketRun
    → Bool
    → SupervisedStartOptions
    → Result (Unit {0})
unfolding assert_supervised_bounded_launch
assert_launch_allowed mode isolated wave tickets frozen_pilot options = do
  throw_if safety.production_drain_enabled WaveError.safety_gate
  if is_mock mode then ok tt else supervised_gate isolated wave tickets frozen_pilot options
