-- ===== src/Examples/Runs.antt =====
-- Runs of several processes over one ledger (core/controller.ts).
use openclaw_wave_runner.Prelude.{
  ℕ, ◌+◌, ◌<◌, ◌≡◌, ◌≢◌, ◌⊎◌, inl, inr, refl, ap, true, false, none, some, List, [], ◌∷◌, ◌++◌,
  length, length-append, Text, text, text_eq, text_eq_iff, Bool-cases, ok, WaveError, Result, arith,
}
use openclaw_wave_runner.Domain.{WaveStatus, WaveRecord, LaunchOutbox}
use openclaw_wave_runner.Outbox.{claim_outbox, mark_launched, mark_reconciling}
use openclaw_wave_runner.Prelude.Sorting.{order_by}
use openclaw_wave_runner.Store.{
  outbox_key, get_wave, get_ticket, put_ticket, list_leases, list_outbox, put_outbox,
  get_outbox_by_idempotency, get_stage_by_idempotency,
}
use openclaw_wave_runner.Store.Table.{get, put, key_eq}
use openclaw_wave_runner.Controller.Exec.{Env, Controller}
use openclaw_wave_runner.Controller.Dispatch.Once.{IsSpawnedOnce}
use openclaw_wave_runner.Controller.Start.{start_wave}
use openclaw_wave_runner.Controller.Start.Refusals.{start_wave_refused}
use openclaw_wave_runner.Controller.Tick.{Surroundings}
use openclaw_wave_runner.Controller.Runs.{Command, run_all}
use openclaw_wave_runner.Controller.Runs.Once.{DrawsFrom, run_all-IsSpawnedOnce}
use openclaw_wave_runner.Controller.Launcher.{Launcher, tasks}
use openclaw_wave_runner.Controller.Quiet.{launched_keys}
use openclaw_wave_runner.Controller.Runs.Launcher.{run_all-Launcher}
use openclaw_wave_runner.Examples.Data.{controller, test_env, running_wave, new_ids}
use openclaw_wave_runner.Examples.Fakes.{waiting}
use openclaw_wave_runner.Examples.Launches.{not_launched_yet}
use openclaw_wave_runner.Examples.Rounds.{surroundings, no_options}

-- an id that is longer than those of the rows together
abbrev longer : List LaunchOutbox → Text
longer [] = text "o"
longer (row ∷ rows) = row.outbox_id ++ longer rows

abbrev sum_lengths : List LaunchOutbox → ℕ
sum_lengths [] = 0
sum_lengths (row ∷ rows) = length row.outbox_id + sum_lengths rows

length-longer : (rows : List LaunchOutbox) → length (longer rows) ≡ sum_lengths rows + 1
length-longer [] = refl
length-longer (row ∷ rows) =
    omega (arith, length-append row.outbox_id (longer rows), length-longer rows)

long_is_new :
    (id : Text) (rows : List LaunchOutbox)
    → sum_lengths rows < length id
    → get outbox_key (id ∷ []) rows ≡ none
unfolding get openclaw_wave_runner.Prelude.find? key_eq
long_is_new id [] h = refl
long_is_new id (row ∷ rows) h = elim (Bool-cases (text_eq row.outbox_id id)) [
  | inl same ↦
      let e : length row.outbox_id ≡ length id =
        ap length ((text_eq_iff row.outbox_id id).0 same) in
      absurd (omega (arith, e, h))
  | inr other ↦ rw other (long_is_new id rows (omega (arith, h)))
]

-- the surroundings of a process that draws such ids
abbrev drawing : Surroundings
drawing = record surroundings {
  files = record surroundings.files {
    fresh = λ db. record new_ids { outbox_id = longer db.outbox };
  };
}

drawing-DrawsFrom : DrawsFrom drawing
drawing-DrawsFrom db =
    long_is_new (longer db.outbox) db.outbox (omega (arith, length-longer db.outbox))

-- Two rounds, between which the process is started anew.
abbrev two_rounds : List (Env × Command)
two_rounds =
    (test_env, Command.tick drawing (text "w") no_options)
    ∷ (test_env, Command.restart)
    ∷ (test_env, Command.tick drawing (text "w") no_options)
    ∷ []

run_all-IsSpawnedOnce_example : IsSpawnedOnce (run_all two_rounds waiting)
run_all-IsSpawnedOnce_example =
    run_all-IsSpawnedOnce two_rounds waiting (drawing-DrawsFrom, (tt, (drawing-DrawsFrom, tt)))
      not_launched_yet

run_all-Launcher_example : Launcher (tasks waiting) (tasks (run_all two_rounds waiting))
run_all-Launcher_example =
    run_all-Launcher two_rounds waiting (drawing-DrawsFrom, (tt, (drawing-DrawsFrom, tt)))
      not_launched_yet

abbrev paused_wave : WaveRecord
paused_wave = record running_wave { status = WaveStatus.paused }

abbrev paused : Controller
paused = record controller { db = record controller.db { waves = paused_wave ∷ [] } }

paused_found : get_wave (text "w") paused.db ≡ some paused_wave
unfolding get_wave get openclaw_wave_runner.Prelude.find? key_eq text_eq
paused_found = refl

start_wave_refused_example :
    ((start_wave test_env drawing
        (λ wave. ok (text "flow"))
        (text "w")
        (text "e1")
        (text "e2")
        none
        no_options
        paused).1
      ≡ paused)
    × ((start_wave test_env drawing
          (λ wave. ok (text "flow"))
          (text "w")
          (text "e1")
          (text "e2")
          none
          no_options
          paused).0
        ≢ ok tt)
start_wave_refused_example =
    start_wave_refused test_env drawing (λ wave. ok (text "flow")) (text "w") (text "e1")
      (text "e2") none no_options paused paused_wave paused_found (inr (inr refl))

-- the PLAN of ticket a is launched in the first round and in no other
two_rounds_launch : launched_keys (run_all two_rounds waiting).calls ≡ text "w:a:PLAN:1" ∷ []
unfolding launched_keys run_all get_wave get list_leases list_outbox order_by
    get_outbox_by_idempotency claim_outbox put_outbox put get_ticket put_ticket mark_launched
    get_stage_by_idempotency mark_reconciling
two_rounds_launch = refl
