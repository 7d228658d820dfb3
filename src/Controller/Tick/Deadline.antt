-- ===== src/Controller/Tick/Deadline.antt =====
-- The end of a wave by its deadline (core/tick.ts, core/budget-stop.ts).
use openclaw_wave_runner.Prelude.{
  ℕ, ◌+◌, ◌≤◌, ◌⊎◌, inl, inr, refl, arith, ◌≡◌, true, false, some, Text, text, ok,
}
use openclaw_wave_runner.Domain.{WaveStatus, wave_eq, is_terminal_wave, WaveRecord}
use openclaw_wave_runner.Store.{get_wave}
use openclaw_wave_runner.Controller.Exec.{Env, Controller}
use openclaw_wave_runner.Controller.Context.{require_wave}
use openclaw_wave_runner.Controller.Frames.{stay-bind}
use openclaw_wave_runner.Controller.Start.Refusals.{launch_gate_same}
use openclaw_wave_runner.Controller.Closing.{IsKeyedLedger}
use openclaw_wave_runner.Controller.Cancellation.{IsBudgetStopped, stop_for_budget-IsBudgetStopped}
use openclaw_wave_runner.Controller.Completion.{deadline_exceeded}
use openclaw_wave_runner.Controller.LaunchGate.{SupervisedStartOptions}
use openclaw_wave_runner.Controller.Tick.{Surroundings, launch_gate, tick_wave}

-- a tick that finds the deadline exceeded
late_tick :
    (env : Env) (s : Surroundings) (wave_id : Text) (options : SupervisedStartOptions)
    (c : Controller) (w : WaveRecord)
    → IsKeyedLedger c.db
    → get_wave wave_id c.db ≡ some w
    → is_terminal_wave w.status ≡ false
    → wave_eq w.status WaveStatus.paused ≡ false
    → deadline_exceeded env.now w ≡ true
    → launch_gate env s wave_id options c ≡ (ok tt, c)
    → ((tick_wave env s wave_id options c).0 ≡ ok tt)
      × IsBudgetStopped wave_id (tick_wave env s wave_id options c).1.db
unfolding tick_wave require_wave
late_tick env s wave_id options c w keyed there live running late gate = rw there (
    rw gate (
      rw live (
        rw running (
          rw late
            (stop_for_budget-IsBudgetStopped env wave_id (text "deadline") c w keyed there live)))))

-- the time is past `stopAt`, or `deadlineMs` (a positive number of milliseconds) after the wave's start
abbrev pub IsLate : ℕ → WaveRecord → Type 0
IsLate now w =
    ((stop_at : ℕ) × (w.stop_at ≡ some stop_at) × (stop_at ≤ now))
    ⊎ ((limit : ℕ) × (started : ℕ) × (w.deadline_ms ≡ some limit)
        × (w.counters.started_at ≡ some started)
        × (1 ≤ limit)
        × (started + limit ≤ now))

IsLate-deadline_exceeded :
    (now : ℕ) (w : WaveRecord) → IsLate now w → deadline_exceeded now w ≡ true
unfolding deadline_exceeded
IsLate-deadline_exceeded now w (inl (stop_at, given, past)) = ground arith
IsLate-deadline_exceeded now w (inr (limit, started, given, at_, positive, past)) = ground arith

-- A tick of a wave that is budget-stopped does nothing.
stopped_stays :
    (env : Env) (s : Surroundings) (wave_id : Text) (options : SupervisedStartOptions)
    (c : Controller)
    → IsBudgetStopped wave_id c.db
    → (tick_wave env s wave_id options c).1 ≡ c
unfolding tick_wave require_wave
stopped_stays env s wave_id options c stopped = rw stopped.stored (
    stay-bind (launch_gate env s wave_id options) _ c (launch_gate_same env s wave_id options c)
      (λ _. rw stopped.stopped refl))

-- Whatever workers and workspaces do, the first tick after the deadline of a wave ends it. If the wave is
-- live and not paused, the time is past its `stopAt` or its start plus a positive `deadlineMs`, the
-- ledger's tickets and budget entries have distinct keys, and the gate of the launch mode passes, then
-- the tick succeeds and leaves the wave budget-stopped with no ticket of it open and no reservation of it
-- held; and a later tick of the wave, at any time, in any surroundings and whatever its gate says, changes
-- nothing any more.
pub tick_wave-IsBudgetStopped :
    (env later_env : Env) (s later_s : Surroundings) (wave_id : Text)
    (options later_options : SupervisedStartOptions) (c : Controller) (w : WaveRecord)
    → IsKeyedLedger c.db
    → get_wave wave_id c.db ≡ some w
    → is_terminal_wave w.status ≡ false
    → wave_eq w.status WaveStatus.paused ≡ false
    → IsLate env.now w
    → launch_gate env s wave_id options c ≡ (ok tt, c)
    → let after = tick_wave env s wave_id options c in
      (after.0 ≡ ok tt)
      × IsBudgetStopped wave_id after.1.db
      × ((tick_wave later_env later_s wave_id later_options after.1).1 ≡ after.1)
tick_wave-IsBudgetStopped env later_env s later_s wave_id options later_options c w keyed there live
      running late gate =
    let (fine, stopped) =
      late_tick env s wave_id options c w keyed there live running
        (IsLate-deadline_exceeded env.now w late) gate in
    (
      fine,
      stopped,
      stopped_stays later_env later_s wave_id later_options (tick_wave env s wave_id options c).1
          stopped,
    )
