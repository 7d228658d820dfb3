-- ===== src/Controller/Context.antt =====
-- core/controller-context.ts: the lookups that must succeed, the recording of events, the frame of
-- every operator command, and the counters of a wave.
use openclaw_wave_runner.Prelude.{
  ℕ, ◌+◌, Bool, true, false, Option, none, some, Text, WaveError, Result, ok, err,
}
use openclaw_wave_runner.Domain.{WaveRecord, TicketRun, DomainEvent}
use openclaw_wave_runner.StateMachine.{assert_expected_revision}
use openclaw_wave_runner.Budget.{counters_from_budgets}
use openclaw_wave_runner.Store.{
  WaveDatabase, get_wave, get_ticket, put_wave, list_budgets, insert_event,
}
use openclaw_wave_runner.Controller.Exec.{
  Payload, nothing, Env, Exec, ◌>>=◌, ◌>>◌, lift, query, modify, transaction,
}

abbrev pub found : {A : Type 0} → Option A → Result A
found none = err WaveError.not_found
found (some a) = ok a

unfoldable pub require_wave : Text → Exec WaveRecord
require_wave wave_id c = (found (get_wave wave_id c.db), c)

unfoldable pub require_ticket : Text → Text → Exec TicketRun
require_ticket wave_id ticket_id c = (found (get_ticket wave_id ticket_id c.db), c)

abbrev pub event_row : Env → Text → Text → Text → Payload → DomainEvent
event_row env event_id wave_id type payload = record {
  event_id = event_id;
  wave_id = wave_id;
  type = type;
  payload_json = env.stringify payload;
  created_at = env.now;
  revision_applied = none;
}

abbrev recorded : Bool × WaveDatabase → Exec (Unit {0})
recorded (true, db) c = (ok tt, record c { db = db })
recorded (false, db) c = (err WaveError.duplicate_event, c)

unfoldable pub record_event : Env → Text → Text → Text → Payload → Exec (Unit {0})
record_event env event_id wave_id type payload c =
    recorded (insert_event (event_row env event_id wave_id type payload) c.db) c

unfoldable pub record_or_throw : Env → Text → Text → Text → Payload → Exec (Unit {0})
unfolding record_event
record_or_throw env event_id wave_id type payload =
    transaction (record_event env event_id wave_id type payload)

-- `mut` changes the wave that it is given; here it returns the changed one. The view that the code
-- returns is read from the ledger and is left out, here and in the commands.
unfoldable pub mutate_wave :
    Env → Text → Text → Text → Option ℕ → (WaveRecord → Result WaveRecord) → Exec (Unit {0})
unfolding record_event require_wave transaction
mutate_wave env wave_id event_id type expected_revision mut = transaction (do
  record_event env event_id wave_id type nothing
  wave ← require_wave wave_id
  lift (assert_expected_revision wave.revision expected_revision)
  changed ← lift (mut wave)
  modify (put_wave (record changed { revision = changed.revision + 1; updated_at = env.now })))

unfoldable pub refresh_counters : Text → Exec (Unit {0})
unfolding require_wave
refresh_counters wave_id = do
  wave ← require_wave wave_id
  entries ← query (list_budgets wave_id)
  modify (
      put_wave (record wave {
        counters = counters_from_budgets entries wave.counters.launches wave.counters.started_at;
      }))
