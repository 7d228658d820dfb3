-- ===== src/StateMachine/Waves.antt =====
-- What the wave transitions of core/state-machine.ts allow, over single changes and over runs.
use openclaw_wave_runner.Prelude.{Bool, true, false, ◌≡◌, refl, ◌⊎◌, ok, err, WaveError, arith}
use openclaw_wave_runner.Domain.{WaveStatus, is_terminal_wave}
use openclaw_wave_runner.StateMachine.{assert_wave_transition}

-- A run of accepted changes; the operator may ask for cancellation on the way, and never takes it back.
pub data WaveRun (from : WaveStatus) : WaveStatus → Bool → Type 0 where
  start : (c : Bool) → WaveRun from from c
  change :
      {s t : WaveStatus} {c : Bool}
      → WaveRun from s c
      → assert_wave_transition s t c ≡ ok tt
      → WaveRun from t c
  cancel : {s : WaveStatus} {c : Bool} → WaveRun from s c → WaveRun from s true

-- No change leads out of a terminal status, whatever the cancel flag says.
pub terminal_wave_is_final :
    (from to : WaveStatus) (cancel_requested : Bool)
    → is_terminal_wave from ≡ true
    → (from ≡ to)
      ⊎ (assert_wave_transition from to cancel_requested ≡ err WaveError.illegal_transition)
unfolding assert_wave_transition
terminal_wave_is_final from to cancel_requested h = ground arith

-- A requested cancellation is sticky: a live wave may only stay as it is or become cancelled.
cancel_is_sticky :
    (from to : WaveStatus)
    → is_terminal_wave from ≡ false
    → assert_wave_transition from to true ≡ ok tt
    → (from ≡ to) ⊎ (to ≡ WaveStatus.cancelled)
unfolding assert_wave_transition
cancel_is_sticky from to h accepted = ground arith

-- Every live wave can be cancelled, under either flag.
pub cancel_is_possible :
    (from : WaveStatus) (cancel_requested : Bool)
    → is_terminal_wave from ≡ false
    → assert_wave_transition from WaveStatus.cancelled cancel_requested ≡ ok tt
unfolding assert_wave_transition
cancel_is_possible from cancel_requested h = ground arith

change_of_terminal :
    (s t : WaveStatus) (c : Bool)
    → is_terminal_wave s ≡ true
    → assert_wave_transition s t c ≡ ok tt
    → t ≡ s
unfolding assert_wave_transition
change_of_terminal s t c h accepted = ground arith

-- A run from a terminal status stays there, however long it is.
WaveRun-terminal :
    {from to : WaveStatus} {c : Bool} → is_terminal_wave from ≡ true → WaveRun from to c → to ≡ from
WaveRun-terminal h (start c) = refl
WaveRun-terminal h (change {s} {t} {c} run accepted) =
    ground (arith, WaveRun-terminal h run, change_of_terminal s t c)
WaveRun-terminal h (cancel run) = WaveRun-terminal h run
