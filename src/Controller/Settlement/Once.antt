-- ===== src/Controller/Settlement/Once.antt =====
-- A row of the outbox is settled once (core/settlement.ts).
use openclaw_wave_runner.Prelude.{◌≡◌, true, some, Text}
use openclaw_wave_runner.Domain.{OutboxState, outbox_eq, LaunchOutbox}
use openclaw_wave_runner.Store.{WaveDatabase, get_outbox_by_idempotency}
use openclaw_wave_runner.Controller.Exec.{Controller, Exec}
use openclaw_wave_runner.Controller.Workspace.{Workspace}

-- the key's row is there and settled
abbrev pub IsSettledAt : Text → WaveDatabase → Type 0
IsSettledAt k db =
    (row : LaunchOutbox) × (get_outbox_by_idempotency k db ≡ some row)
    × (outbox_eq row.state OutboxState.settled ≡ true)
