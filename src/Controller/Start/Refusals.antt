-- ===== src/Controller/Start/Refusals.antt =====
-- When `startWave` (core/wave-commands.ts) refuses.
use openclaw_wave_runner.Prelude.{
  ℕ, ◌≡◌, ◌≢◌, ◌⊎◌, inl, inr, refl, Bool, true, false, Option, some, if◌then◌else◌, Text, WaveError,
  Result, ok, Result-cases, arith,
}
use openclaw_wave_runner.Domain.{WaveStatus, wave_eq, is_terminal_wave, WaveRecord}
use openclaw_wave_runner.StateMachine.{assert_expected_revision}
use openclaw_wave_runner.Store.{get_wave}
use openclaw_wave_runner.Controller.Exec.{Env, Controller, Exec, ◌>>=◌, raise, lift}
use openclaw_wave_runner.Controller.Context.{require_wave}
use openclaw_wave_runner.Controller.LaunchGate.{SupervisedStartOptions}
use openclaw_wave_runner.Controller.Tick.{Surroundings, launch_gate}
use openclaw_wave_runner.Controller.Start.{start_wave, inspected}

record Refuses {A : Type 0} (m : Exec A) (c : Controller) : Type 0 where
  same : (m c).1 ≡ c
  threw : (a : A) → (m c).0 ≢ ok a

-- What is refused in the end is refused after steps that change nothing.
Refuses-bind :
    {A B : Type 0} (m : Exec A) (f : A → Exec B) (c : Controller)
    → (m c).1 ≡ c
    → ((a : A) → (m c).0 ≡ ok a → Refuses (f a) c)
    → Refuses (m >>= f) c
Refuses-bind m f c same next = elim (Result-cases (m c).0) [
  | inl (a, fine) ↦ record {
    same = rw fine (rw same (next a fine).same);
    threw = rw fine (rw same (next a fine).threw);
  }
  | inr (e, failed) ↦ record {
    same = rw failed same;
    threw = rw failed (λ b h. absurd (ground arith));
  }
]

pub launch_gate_same :
    (env : Env) (s : Surroundings) (wave_id : Text) (options : SupervisedStartOptions)
    (c : Controller)
    → (launch_gate env s wave_id options c).1 ≡ c
unfolding require_wave
launch_gate_same env s wave_id options c = ground arith

Refuses-raise : {A : Type 0} (e : WaveError) (c : Controller) → Refuses {A = A} (raise e) c
Refuses-raise e c = record { same = refl; threw = λ a h. absurd (ground arith) }

over_or_paused :
    (over paused : Bool) (live : Exec (Unit {0})) (c : Controller)
    → (over ≡ true) ⊎ (paused ≡ true)
    → Refuses
        (if over
          then raise WaveError.illegal_transition
          else if paused
          then raise WaveError.illegal_transition
          else live)
        c
over_or_paused true paused live c h = Refuses-raise WaveError.illegal_transition c
over_or_paused false true live c h = Refuses-raise WaveError.illegal_transition c
over_or_paused false false live c h = absurd (ground arith)

inspected_lem :
    (s : Surroundings) (wave_id : Text) (c : Controller) (wave : WaveRecord)
    → get_wave wave_id c.db ≡ some wave
    → ((inspected s wave_id c).1 ≡ c)
      × ((w : WaveRecord) → (inspected s wave_id c).0 ≡ ok w → w ≡ wave)
unfolding require_wave
inspected_lem s wave_id c wave there = rw there (ground arith, λ w h. ground arith)

-- A start that expects another revision of the wave than it has, a start of a wave that is over and one
-- of a paused wave throw in each launch mode, and nothing is changed: no wave is frozen, no round is run
-- and the worker is asked nothing.
pub start_wave_refused :
    (env : Env) (s : Surroundings) (create_flow : WaveRecord → Result Text)
    (wave_id freeze_event event_id : Text) (expected : Option ℕ) (options : SupervisedStartOptions)
    (c : Controller) (wave : WaveRecord)
    → get_wave wave_id c.db ≡ some wave
    → (assert_expected_revision wave.revision expected ≢ ok tt)
      ⊎ ((is_terminal_wave wave.status ≡ true) ⊎ (wave_eq wave.status WaveStatus.paused ≡ true))
    → ((start_wave env s create_flow wave_id freeze_event event_id expected options c).1 ≡ c)
      × ((start_wave env s create_flow wave_id freeze_event event_id expected options c).0 ≢ ok tt)
unfolding start_wave
start_wave_refused env s create_flow wave_id freeze_event event_id expected options c wave there
      why =
    let (read, is_wave) = inspected_lem s wave_id c wave there in
    let refused : Refuses
        (start_wave env s create_flow wave_id freeze_event event_id expected options) c =
      Refuses-bind (inspected s wave_id) _ c read (λ w fine. rw (is_wave w fine) (
        Refuses-bind (lift (assert_expected_revision wave.revision expected)) _ c refl (λ _ fresh.
          Refuses-bind (launch_gate env s wave_id options) _ c
            (launch_gate_same env s wave_id options c)
            (λ _ open_. elim why [
              | inl stale ↦ absurd (stale fresh)
              | inr closed ↦ over_or_paused _ _ _ c closed
            ])))) in
    (refused.same, refused.threw tt)
