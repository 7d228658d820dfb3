-- ===== src/Examples/Closeouts.antt =====
-- Runs of landings and settlements (core/land-lock.ts, core/land-closeout.ts, core/settlement.ts).
use openclaw_wave_runner.Prelude.{
  [], ◌∷◌, ◌≡◌, ◌≢◌, ◌⊎◌, ℕ, refl, some, text, text_eq, find?, ok, arith,
}
use openclaw_wave_runner.WriterScope.{land_lock_key}
use openclaw_wave_runner.Store.{get_wave, get_lease}
use openclaw_wave_runner.Store.Table.{get, key_eq}
use openclaw_wave_runner.Controller.LandLock.{taken, deferred, acquire_exclusive_land_lock}
use openclaw_wave_runner.Controller.LandLock.Exclusion.{
  IsHeld, land_lock_excludes, acquire_exclusive_land_lock-IsHeld,
}
use openclaw_wave_runner.Controller.LandCloseout.{finalize_impl_land}
use openclaw_wave_runner.Controller.LandCloseout.Locks.{KeepsLease}
use openclaw_wave_runner.Controller.LandCloseout.NoLeak.{finalize_impl_land-KeepsLease}
use openclaw_wave_runner.Domain.{LaunchOutbox, OutboxState, StageName, TicketStatus}
use openclaw_wave_runner.Controller.Exec.{Controller}
use openclaw_wave_runner.Examples.Data.{ticket_at, controller, test_env, running_wave}
use openclaw_wave_runner.Examples.Fakes.{
  workspace, land_lease, landing, launched_impl, implementing,
}

lock_found : get_lease (land_lock_key running_wave.repo_path) landing.db ≡ some land_lease
unfolding get_lease get find? key_eq text_eq land_lock_key
lock_found = refl

other : text "z" ≢ text "a"
other h = ground arith

land_lock_excludes_example :
    acquire_exclusive_land_lock test_env running_wave (text "a") landing ≡ (ok deferred, landing)
land_lock_excludes_example =
    land_lock_excludes test_env running_wave (text "a") (text "z") landing land_lease lock_found
      (omega arith) refl other

acquire_exclusive_land_lock-IsHeld_example :
    (acquire_exclusive_land_lock test_env running_wave (text "a") controller
      ≡ (ok deferred, controller))
    ⊎ ((generation : ℕ) × ((acquire_exclusive_land_lock test_env running_wave
            (text "a")
            controller).0
          ≡ ok (taken generation))
        × IsHeld test_env running_wave
            (text "a")
            generation
            (acquire_exclusive_land_lock test_env running_wave (text "a") controller).1)
acquire_exclusive_land_lock-IsHeld_example =
    acquire_exclusive_land_lock-IsHeld test_env running_wave (text "a") controller

wave_found : get_wave (text "w") implementing.db ≡ some running_wave
unfolding get_wave get find? key_eq text_eq
wave_found = refl

finalize_impl_land-KeepsLease_example :
    KeepsLease
      (land_lock_key running_wave.repo_path)
      implementing
      (finalize_impl_land test_env workspace launched_impl implementing).1
finalize_impl_land-KeepsLease_example =
    finalize_impl_land-KeepsLease test_env workspace launched_impl running_wave implementing
      wave_found

-- a PLAN that a worker was launched for
abbrev launched_plan : LaunchOutbox
launched_plan = record launched_impl { stage = StageName.plan }

abbrev planning : Controller
planning = record implementing {
  db = record implementing.db {
    tickets = ticket_at (text "a") TicketStatus.planning ∷ [];
    outbox = launched_plan ∷ [];
  };
}

-- the same, after its settlement
abbrev settled_plan : Controller
settled_plan = record planning {
  db = record planning.db { outbox = record launched_plan { state = OutboxState.settled } ∷ [] };
}
