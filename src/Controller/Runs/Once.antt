-- ===== src/Controller/Runs/Once.antt =====
-- Any run of the controller (core/controller.ts) hands each stage attempt to the worker once at most.
use openclaw_wave_runner.Prelude.{
  refl, ℕ, refl, Option, none, List, [], ◌∷◌, All, Text, WaveError, Result, arith,
}
use openclaw_wave_runner.Domain.{WaveStatus, WaveRecord}
use openclaw_wave_runner.Store.{WaveDatabase}
use openclaw_wave_runner.Controller.Exec.{Env, Controller, ◌>>=◌, pure}
use openclaw_wave_runner.Controller.LandCloseout.{retry_impl_land}
use openclaw_wave_runner.Controller.Recovery.{expire_stale_leases}
use openclaw_wave_runner.Controller.LaunchGate.{SupervisedStartOptions}
use openclaw_wave_runner.Controller.Reviews.{ReviewFiles}
use openclaw_wave_runner.Controller.PlanReviews.{needs_plan_review_launch}
use openclaw_wave_runner.Controller.Dispatch.Once.{IsSpawnedOnce, Advances}
use openclaw_wave_runner.Controller.Launcher.{KeysGrow-same, LogGrows-same}
use openclaw_wave_runner.Controller.Start.{inspected, link_flow, start_live, start_wave}
use openclaw_wave_runner.Controller.Tame.{
  IsTame, IsTame-leaves, IsTame-pure, IsTame-query, IsTame-lift, IsTame-raise, IsTame-when,
  tame_rules,
}
use openclaw_wave_runner.Controller.Tame.Rows.{IsNew}
use openclaw_wave_runner.Controller.Tame.Commands.{
  mutate_wave-IsTame, freeze_wave-IsTame, pause_wave-IsTame, resume_wave-IsTame, cancel_wave-IsTame,
  approve_wave-IsTame, revise_wave-IsTame, emergency_stop-IsTame, retry_impl_land-IsTame,
}
use openclaw_wave_runner.Controller.Tame.Waves.{expire_stale_leases-IsTame}
use openclaw_wave_runner.Controller.Tame.Workers.{reconcile-IsTame}
use openclaw_wave_runner.Controller.Tick.{Surroundings}
use openclaw_wave_runner.Controller.Tick.Once.{
  KeepsOnce, Advances-trans, Keeps-tame, Keeps-bind, Keeps-then, Keeps-if, tick_wave-KeepsOnce,
  launch_gate-IsTame,
}
use openclaw_wave_runner.Controller.Runs.{
  waits_for_review, run_step, run_until_idle, Command, reconstruct, call, run_all,
}

-- the ids that the process draws for the rows of the outbox are new
abbrev pub DrawsFrom : Surroundings → Type 0
DrawsFrom s = (db : WaveDatabase) → IsNew (s.files.fresh db).outbox_id db

abbrev pub DrawsNew : Command → Type 0
DrawsNew (Command.start s create_flow wave_id freeze_event event_id expected options) = DrawsFrom s
DrawsNew (Command.tick s wave_id options) = DrawsFrom s
DrawsNew (Command.run_to_idle s wave_id options envs) = DrawsFrom s
DrawsNew _ = Unit {0}

needs_review-IsTame :
    (files : ReviewFiles) (wave_id : Text) → IsTame (needs_plan_review_launch files wave_id)
unfolding needs_plan_review_launch openclaw_wave_runner.Controller.UxReviews.needs_ux_review_launch
    openclaw_wave_runner.Controller.Context.require_wave
needs_review-IsTame files wave_id = IsTame-leaves (record { at = λ c. ground arith })

module _ (s : Surroundings) (wave_id : Text) (new : DrawsFrom s) where
  inspected-IsTame : IsTame (inspected s wave_id)
  inspected-IsTame = search (tame_rules)

  waits-IsTame :
      (status : WaveStatus) (db : WaveDatabase) → IsTame (waits_for_review s wave_id status db)
  waits-IsTame status db = search (needs_review-IsTame, tame_rules)

  run_step-KeepsOnce :
      (options : SupervisedStartOptions) (env : Env) → KeepsOnce (run_step s wave_id options env)
  run_step-KeepsOnce options env = Keeps-bind _ _ (Keeps-tame _ inspected-IsTame) (λ before_wave.
      Keeps-bind _ _ (Keeps-tame _ (IsTame-query (λ db. db))) (λ before.
        Keeps-then _ _ (tick_wave-KeepsOnce env s wave_id new options)
          (Keeps-tame _ (search (inspected-IsTame, waits-IsTame, tame_rules) depth 16))))

  run_until_idle-KeepsOnce :
      (options : SupervisedStartOptions) (envs : List Env)
      → KeepsOnce (run_until_idle s wave_id options envs)
  unfolding run_until_idle
  run_until_idle-KeepsOnce options [] = Keeps-tame _ (IsTame-pure tt)
  run_until_idle-KeepsOnce options (env ∷ envs) =
      Keeps-bind _ _ (run_step-KeepsOnce options env) (λ stop.
        Keeps-if stop _ _ (Keeps-tame _ (IsTame-pure tt)) (run_until_idle-KeepsOnce options envs))

  module _ (env : Env) (create_flow : WaveRecord → Result Text) where
    link_flow-IsTame : (current : WaveRecord) → IsTame (link_flow env s create_flow wave_id current)
    link_flow-IsTame current = search (tame_rules) depth 16

    start_live-KeepsOnce :
        (freeze_event event_id : Text) (options : SupervisedStartOptions) (status : WaveStatus)
        → KeepsOnce (start_live env s create_flow wave_id freeze_event event_id options status)
    start_live-KeepsOnce freeze_event event_id options status =
        Keeps-then _ _
          (Keeps-tame _ (IsTame-when _ _ (freeze_wave-IsTame env wave_id freeze_event none)))
          (Keeps-bind _ _ (Keeps-tame _ inspected-IsTame) (λ frozen.
            Keeps-then _ _
              (Keeps-tame _ (IsTame-when _ _ (mutate_wave-IsTame env wave_id event_id _ none _)))
              (Keeps-bind _ _ (Keeps-tame _ inspected-IsTame) (λ current.
                Keeps-then _ _ (Keeps-tame _ (link_flow-IsTame current))
                  (tick_wave-KeepsOnce env s wave_id new options)))))

    start_wave-KeepsOnce :
        (freeze_event event_id : Text) (expected : Option ℕ) (options : SupervisedStartOptions)
        → KeepsOnce (start_wave env s create_flow wave_id freeze_event event_id expected options)
    unfolding start_wave
    start_wave-KeepsOnce freeze_event event_id expected options =
        Keeps-bind _ _ (Keeps-tame _ inspected-IsTame) (λ wave.
          Keeps-then _ _ (Keeps-tame _ (IsTame-lift _)) (
            Keeps-then _ _ (Keeps-tame _ (launch_gate-IsTame env s wave_id new options)) (
              Keeps-if _ _ _ (Keeps-tame _ (IsTame-raise WaveError.illegal_transition)) (
                Keeps-if _ _ _ (Keeps-tame _ (IsTame-raise WaveError.illegal_transition))
                  (start_live-KeepsOnce freeze_event event_id options wave.status)))))

expire-IsTame : (env : Env) → IsTame (expire_stale_leases env >>= λ _. pure tt)
expire-IsTame env = search (expire_stale_leases-IsTame, tame_rules)

retry-IsTame :
    (env : Env) (s : Surroundings) (wave_id ticket_id : Text)
    → IsTame (retry_impl_land env s.workspace wave_id ticket_id >>= λ _. pure tt)
retry-IsTame env s wave_id ticket_id = search (retry_impl_land-IsTame, tame_rules)

reconstruct-IsTame : IsTame reconstruct
reconstruct-IsTame = IsTame-leaves (record { at = λ c. refl })

call-KeepsOnce : (env : Env) (command : Command) → DrawsNew command → KeepsOnce (call env command)
unfolding call
call-KeepsOnce env (Command.freeze wave_id event_id expected) new =
    Keeps-tame _ (freeze_wave-IsTame env wave_id event_id expected)
call-KeepsOnce env (Command.pause wave_id event_id expected) new =
    Keeps-tame _ (pause_wave-IsTame env wave_id event_id expected)
call-KeepsOnce env (Command.resume wave_id event_id expected) new =
    Keeps-tame _ (resume_wave-IsTame env wave_id event_id expected)
call-KeepsOnce env (Command.cancel wave_id event_id expected) new =
    Keeps-tame _ (cancel_wave-IsTame env wave_id event_id expected)
call-KeepsOnce env (Command.approve wave_id ticket_id revision event_id) new =
    Keeps-tame _ (approve_wave-IsTame env wave_id event_id ticket_id revision)
call-KeepsOnce env (Command.revise wave_id ticket_id event_id) new =
    Keeps-tame _ (revise_wave-IsTame env wave_id event_id ticket_id)
call-KeepsOnce env (Command.start s create_flow wave_id freeze_event event_id expected options)
      new =
    start_wave-KeepsOnce s wave_id new env create_flow freeze_event event_id expected options
call-KeepsOnce env (Command.tick s wave_id options) new =
    tick_wave-KeepsOnce env s wave_id new options
call-KeepsOnce env (Command.run_to_idle s wave_id options envs) new =
    run_until_idle-KeepsOnce s wave_id new options envs
call-KeepsOnce env (Command.reconcile_launches s wave_id) new =
    Keeps-tame _ (reconcile-IsTame env s.adapters s.workspace s.files s.settler wave_id)
call-KeepsOnce env Command.expire_leases new = Keeps-tame _ (expire-IsTame env)
call-KeepsOnce env (Command.stop_all fresh_event) new =
    Keeps-tame _ (emergency_stop-IsTame env fresh_event)
call-KeepsOnce env (Command.retry_land s wave_id ticket_id) new =
    Keeps-tame _ (retry-IsTame env s wave_id ticket_id)
call-KeepsOnce env Command.restart new = Keeps-tame _ reconstruct-IsTame

pub run_all-Advances :
    (calls : List (Env × Command)) (c : Controller)
    → All (λ (each : Env × Command). DrawsNew each.1) calls
    → IsSpawnedOnce c
    → Advances c (run_all calls c)
unfolding run_all
run_all-Advances [] c new inv = record {
  once = inv;
  rows = KeysGrow-same refl;
  log = LogGrows-same refl;
}
run_all-Advances ((env, command) ∷ later) c new inv =
    let first = (call-KeepsOnce env command new.0).at c inv in
    Advances-trans first (run_all-Advances later (call env command c).1 new.1 first.once)

-- Any run of the controller, a sequence of whole commands one after the other, keeps the invariant,
-- whatever the workers, the workspace and the files answer, whatever is thrown and however often a
-- process is started anew over the ledger, if the processes draw new ids for the rows of the outbox: the
-- rows have distinct ids and keys, the worker was asked to launch each key at most once, and no key that
-- it was asked to launch is pending.
pub run_all-IsSpawnedOnce :
    (calls : List (Env × Command)) (c : Controller)
    → All (λ (each : Env × Command). DrawsNew each.1) calls
    → IsSpawnedOnce c
    → IsSpawnedOnce (run_all calls c)
run_all-IsSpawnedOnce calls c new inv = (run_all-Advances calls c new inv).once
