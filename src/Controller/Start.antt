-- ===== src/Controller/Start.antt =====
-- `startWave` of core/wave-commands.ts. What the workflow backend answers to `createWave`, the id of a
-- flow, is a parameter; the view that is returned is left out.
pub mod Refusals
use openclaw_wave_runner.Prelude.{
  ℕ, Bool, true, false, Option, none, some, is_some, if◌then◌else◌, Text, text, WaveError, Result,
}
use openclaw_wave_runner.Domain.{WaveStatus, wave_eq, is_terminal_wave, WaveRecord}
use openclaw_wave_runner.StateMachine.{assert_wave_transition, assert_expected_revision}
use openclaw_wave_runner.Store.{put_wave}
use openclaw_wave_runner.Controller.Exec.{
  Env, Exec, ◌>>=◌, ◌>>◌, pure, raise, lift, modify, when, transaction,
}
use openclaw_wave_runner.Controller.Context.{require_wave, mutate_wave}
use openclaw_wave_runner.Controller.Leases.{truthy}
use openclaw_wave_runner.Controller.Commands.{after, set_wave_status, freeze_wave}
use openclaw_wave_runner.Controller.LaunchGate.{SupervisedStartOptions}
use openclaw_wave_runner.Controller.Tick.{Surroundings, launch_gate, tick_wave}

-- `wave.counters.startedAt ?? ctrl.clock.now()`
abbrev first_start : Env → Option ℕ → Option ℕ
first_start env none = some env.now
first_start env (some at) = some at

abbrev pub started_wave : Env → WaveRecord → WaveRecord
started_wave env wave = record (set_wave_status WaveStatus.running wave) {
  counters = record wave.counters { started_at = first_start env wave.counters.started_at };
}

abbrev pub start_running : Env → WaveRecord → Result WaveRecord
start_running env wave =
    after (assert_wave_transition wave.status WaveStatus.running wave.cancel_requested)
      (started_wave env wave)

-- the wave of `inspect`, which reads its manifest too
abbrev pub inspected : Surroundings → Text → Exec WaveRecord
inspected s wave_id = do
  wave ← require_wave wave_id
  _ ← lift (s.frozen_pilot wave.manifest_json)
  pure wave

module _ (env : Env) (s : Surroundings) (create_flow : WaveRecord → Result Text)
    (wave_id : Text) where
  abbrev pub link_flow : WaveRecord → Exec (Unit {0})
  link_flow current = if is_some (truthy current.flow_id) then pure tt else do
    flow_id ← lift (create_flow current)
    transaction (do
      wave ← require_wave wave_id
      modify (put_wave (record wave { flow_id = some flow_id; updated_at = env.now })))

  -- from the freeze to the first round; `freeze_event` is the id that `nextEventId()` draws
  abbrev pub start_live : Text → Text → SupervisedStartOptions → WaveStatus → Exec (Unit {0})
  start_live freeze_event event_id options status = do
    when (wave_eq status WaveStatus.draft) (freeze_wave env wave_id freeze_event none)
    frozen ← inspected s wave_id
    when (wave_eq frozen.status WaveStatus.frozen)
        (mutate_wave env wave_id event_id (text "start") none (start_running env))
    current ← inspected s wave_id
    link_flow current
    tick_wave env s wave_id options

  unfoldable pub start_wave : Text → Text → Option ℕ → SupervisedStartOptions → Exec (Unit {0})
  unfolding require_wave freeze_wave mutate_wave transaction tick_wave
  start_wave freeze_event event_id expected options = do
    wave ← inspected s wave_id
    lift (assert_expected_revision wave.revision expected)
    launch_gate env s wave_id options
    if is_terminal_wave wave.status
        then raise WaveError.illegal_transition
        else if wave_eq wave.status WaveStatus.paused
        then raise WaveError.illegal_transition
        else start_live freeze_event event_id options wave.status
