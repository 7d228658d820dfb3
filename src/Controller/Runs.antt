-- ===== src/Controller/Runs.antt =====
-- The methods of the controller that change its state (core/controller.ts) and the loop over rounds
-- (core/run-until-idle.ts). A run is a sequence of whole calls of these methods, one after the other, by
-- one process or by several that share the ledger; a call that throws does not end it. Views that are
-- returned are left out, and so are `create` and `enqueue`, which build on `createWave`, `tickLive`, the
-- loop over all live waves, and `backup`, which copies a file.
pub mod Once
pub mod Launcher
use openclaw_wave_runner.Prelude.{
  ℕ, ◌==◌, Bool, true, false, ◌&&◌, ◌||◌, not, Option, List, [], ◌∷◌, all, any, if◌then◌else◌, Text,
  Result, ok,
}
use openclaw_wave_runner.Domain.{
  WaveStatus, wave_eq, is_terminal_wave, WaveRecord, TicketRun, LaunchOutbox,
}
use openclaw_wave_runner.Store.{WaveDatabase, list_tickets, list_outbox}
use openclaw_wave_runner.Controller.Exec.{Env, Controller, Exec, ◌>>=◌, ◌>>◌, pure, query}
use openclaw_wave_runner.Controller.Commands.{
  freeze_wave, pause_wave, resume_wave, cancel_wave, approve_wave, revise_wave, emergency_stop,
}
use openclaw_wave_runner.Controller.FailLaunch.{is_closed_outbox}
use openclaw_wave_runner.Controller.LaunchGate.{SupervisedStartOptions}
use openclaw_wave_runner.Controller.LandCloseout.{retry_impl_land}
use openclaw_wave_runner.Controller.Observe.{reconcile}
use openclaw_wave_runner.Controller.PlanReviews.{needs_plan_review_launch}
use openclaw_wave_runner.Controller.Recovery.{expire_stale_leases}
use openclaw_wave_runner.Controller.Start.{inspected, start_wave}
use openclaw_wave_runner.Controller.Tick.{Surroundings, tick_wave}

abbrev all_closed : Text → WaveDatabase → Bool
all_closed wave_id db =
    all (λ (item : LaunchOutbox). is_closed_outbox item.state) (list_outbox wave_id db)

-- `after.tickets.every((t, idx) => t.revision === before.tickets[idx]?.revision)`
unfoldable pub same_revisions : List TicketRun → List TicketRun → Bool
same_revisions [] before = true
same_revisions (t ∷ after) [] = false
same_revisions (t ∷ after) (b ∷ before) = t.revision == b.revision && same_revisions after before

module _ (s : Surroundings) (wave_id : Text) where
  abbrev waits_for_review : WaveStatus → WaveDatabase → Exec Bool
  waits_for_review status db =
      if not (wave_eq status WaveStatus.awaiting_plan_gate && all_closed wave_id db)
      then pure false
      else do launch ← needs_plan_review_launch s.files wave_id; pure (not launch)

  abbrev nothing_moved : WaveRecord → WaveDatabase → WaveRecord → WaveDatabase → Bool
  nothing_moved before_wave before wave db =
      wave.revision == before_wave.revision
      && (same_revisions (list_tickets wave_id db) (list_tickets wave_id before)
          && all_closed wave_id db)

  -- one turn of the loop: whether it breaks
  abbrev pub run_step : SupervisedStartOptions → Env → Exec Bool
  run_step options env = do
    before_wave ← inspected s wave_id
    before ← query (λ db. db)
    tick_wave env s wave_id options
    wave ← inspected s wave_id
    db ← query (λ db. db)
    gated ← waits_for_review wave.status db
    pure (
        is_terminal_wave wave.status
        || (wave_eq wave.status WaveStatus.waiting_approval
            || (wave_eq wave.status WaveStatus.paused
                || (gated || nothing_moved before_wave before wave db))))

  -- the clock at each of the `maxSteps` steps
  unfoldable pub run_until_idle : SupervisedStartOptions → List Env → Exec (Unit {0})
  unfolding tick_wave needs_plan_review_launch same_revisions
  run_until_idle options [] = pure tt
  run_until_idle options (env ∷ envs) = do
    stop ← run_step options env
    let rest = run_until_idle options envs
    if stop then pure tt else rest

-- The methods, with what their process finds around it and the ids that `nextEventId()` draws.
pub data Command : Type 0 where
  freeze pause resume cancel : Text → Text → Option ℕ → Command
  approve : Text → Text → ℕ → Text → Command
  revise : Text → Text → Text → Command
  start :
      Surroundings
      → (WaveRecord → Result Text)
      → Text
      → Text
      → Text
      → Option ℕ
      → SupervisedStartOptions
      → Command
  tick : Surroundings → Text → SupervisedStartOptions → Command
  run_to_idle : Surroundings → Text → SupervisedStartOptions → List Env → Command
  reconcile_launches : Surroundings → Text → Command
  expire_leases : Command
  stop_all : (Text → Text) → Command
  retry_land : Surroundings → Text → Text → Command
  restart : Command

-- `new WaveController(...)` over the same ledger: the in-memory locks are gone
abbrev pub reconstruct : Exec (Unit {0})
reconstruct c = (ok tt, record c { locks = []; watchdog_fires = 0 })

unfoldable pub call : Env → Command → Exec (Unit {0})
unfolding freeze_wave pause_wave resume_wave cancel_wave approve_wave revise_wave start_wave
    tick_wave run_until_idle reconcile expire_stale_leases emergency_stop retry_impl_land
call env (Command.freeze wave_id event_id expected) = freeze_wave env wave_id event_id expected
call env (Command.pause wave_id event_id expected) = pause_wave env wave_id event_id expected
call env (Command.resume wave_id event_id expected) = resume_wave env wave_id event_id expected
call env (Command.cancel wave_id event_id expected) = cancel_wave env wave_id event_id expected
call env (Command.approve wave_id ticket_id revision event_id) =
    approve_wave env wave_id ticket_id revision event_id
call env (Command.revise wave_id ticket_id event_id) = revise_wave env wave_id ticket_id event_id
call env (Command.start s create_flow wave_id freeze_event event_id expected options) =
    start_wave env s create_flow wave_id freeze_event event_id expected options
call env (Command.tick s wave_id options) = tick_wave env s wave_id options
call env (Command.run_to_idle s wave_id options envs) = run_until_idle s wave_id options envs
call env (Command.reconcile_launches s wave_id) =
    reconcile env s.adapters s.workspace s.files s.settler wave_id
call env Command.expire_leases = do _ ← expire_stale_leases env; pure tt
call env (Command.stop_all fresh_event) = emergency_stop env fresh_event
call env (Command.retry_land s wave_id ticket_id) = do
  _ ← retry_impl_land env s.workspace wave_id ticket_id
  pure tt
call env Command.restart = reconstruct

-- a run, whatever each of its calls answers
unfoldable pub run_all : List (Env × Command) → Controller → Controller
unfolding call
run_all [] c = c
run_all ((env, command) ∷ later) c = run_all later (call env command c).1
