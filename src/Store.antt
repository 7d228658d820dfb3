-- ===== src/Store.antt =====
-- store/database.ts: the ledger. Each SQL table is a list of rows under its primary key; the merge
-- functions are the `DO UPDATE SET` clauses. Lists come in the order of their `ORDER BY` column,
-- rows that tie in the order of their insertion. The connection, the migrations and the JSON columns
-- are left out; a transaction is in `Controller.Exec`.
pub mod Table
pub mod Rows
pub mod Waves
pub mod Outbox
use openclaw_wave_runner.Prelude.{
  ℕ, Bool, true, false, ◌&&◌, not, Option, none, some, List, [], ◌∷◌, ◌++◌, if◌then◌else◌, filter,
  text, find?, any, Text, text_eq, is_some, WaveError, Result, ok, err,
}
use openclaw_wave_runner.Prelude.Sorting.{order_by}
use openclaw_wave_runner.Domain.{
  WaveRecord, TicketRun, StageRun, BudgetEntry, LaunchOutbox, LeaseRecord, DomainEvent,
  ArtifactRecord, OutboxState,
}
use Table.{Key, get, put, remove}

pub record WaveDatabase : Type 0 where
  pub waves : List WaveRecord
  pub tickets : List TicketRun
  pub stages : List StageRun
  pub budgets : List BudgetEntry
  pub outbox : List LaunchOutbox
  pub leases : List LeaseRecord
  pub events : List DomainEvent
  pub artifacts : List ArtifactRecord

abbrev pub empty_database : WaveDatabase
empty_database = record {
  waves = [];
  tickets = [];
  stages = [];
  budgets = [];
  outbox = [];
  leases = [];
  events = [];
  artifacts = [];
}

-- the primary keys of store/schema.ts
abbrev pub wave_key : WaveRecord → Key
wave_key wave = wave.wave_id ∷ []

abbrev pub ticket_key : TicketRun → Key
ticket_key ticket = ticket.wave_id ∷ ticket.ticket_id ∷ []

abbrev pub stage_key : StageRun → Key
stage_key stage = stage.stage_run_id ∷ []

abbrev pub budget_key : BudgetEntry → Key
budget_key entry = entry.budget_id ∷ []

abbrev pub outbox_key : LaunchOutbox → Key
outbox_key item = item.outbox_id ∷ []

abbrev pub lease_key : LeaseRecord → Key
lease_key lease = lease.resource_key ∷ []

abbrev pub event_key : DomainEvent → Key
event_key event = event.event_id ∷ []

abbrev pub merge_wave : WaveRecord → WaveRecord → WaveRecord
merge_wave old row = record row { wave_id = old.wave_id; created_at = old.created_at }

abbrev pub merge_ticket : TicketRun → TicketRun → TicketRun
merge_ticket old row = record row { wave_id = old.wave_id; ticket_id = old.ticket_id }

abbrev pub merge_stage : StageRun → StageRun → StageRun
merge_stage old row = record old {
  model = row.model;
  provider = row.provider;
  task_id = row.task_id;
  run_id = row.run_id;
  session_id = row.session_id;
  receipt_json = row.receipt_json;
  output_ref = row.output_ref;
  status = row.status;
}

abbrev pub merge_budget : BudgetEntry → BudgetEntry → BudgetEntry
merge_budget old row = record old {
  tokens_actual = row.tokens_actual;
  cost_actual_micros = row.cost_actual_micros;
  state = row.state;
  updated_at = row.updated_at;
}

abbrev pub merge_outbox : LaunchOutbox → LaunchOutbox → LaunchOutbox
merge_outbox old row = record old {
  state = row.state;
  fencing_generation = row.fencing_generation;
  claimed_by = row.claimed_by;
  claimed_at = row.claimed_at;
  receipt_json = row.receipt_json;
  error = row.error;
  updated_at = row.updated_at;
}

abbrev pub merge_lease : LeaseRecord → LeaseRecord → LeaseRecord
merge_lease old row = record row { resource_key = old.resource_key; created_at = old.created_at }

unfoldable pub get_wave : Text → WaveDatabase → Option WaveRecord
get_wave wave_id db = get wave_key (wave_id ∷ []) db.waves

unfoldable pub list_waves : WaveDatabase → List WaveRecord
list_waves db = order_by (λ wave. wave.created_at) db.waves

unfoldable pub put_wave : WaveRecord → WaveDatabase → WaveDatabase
put_wave wave db = record db { waves = put wave_key merge_wave wave db.waves }

unfoldable pub list_tickets : Text → WaveDatabase → List TicketRun
list_tickets wave_id db =
    order_by (λ ticket. ticket.order) (filter (λ ticket. text_eq ticket.wave_id wave_id) db.tickets)

unfoldable pub get_ticket : Text → Text → WaveDatabase → Option TicketRun
get_ticket wave_id ticket_id db = get ticket_key (wave_id ∷ ticket_id ∷ []) db.tickets

unfoldable pub put_ticket : TicketRun → WaveDatabase → WaveDatabase
put_ticket ticket db = record db { tickets = put ticket_key merge_ticket ticket db.tickets }

unfoldable pub list_stages : Text → WaveDatabase → List StageRun
list_stages wave_id db =
    order_by (λ stage. stage.created_at) (filter (λ stage. text_eq stage.wave_id wave_id) db.stages)

unfoldable pub get_stage_by_idempotency : Text → WaveDatabase → Option StageRun
get_stage_by_idempotency key db = find? (λ stage. text_eq stage.idempotency_key key) db.stages

-- `idempotency_key ... UNIQUE`: a new row must not bring a key that another row has. The uniqueness of
-- wave, ticket, stage and attempt together and the foreign keys are not modelled.
unfoldable pub put_stage : StageRun → WaveDatabase → Result WaveDatabase
put_stage stage db =
    if not (is_some (get stage_key (stage_key stage) db.stages))
      && is_some (get_stage_by_idempotency stage.idempotency_key db)
    then err WaveError.unique_violation
    else ok (record db { stages = put stage_key merge_stage stage db.stages })

unfoldable pub list_budgets : Text → WaveDatabase → List BudgetEntry
list_budgets wave_id db =
    order_by (λ entry. entry.created_at)
      (filter (λ entry. text_eq entry.wave_id wave_id) db.budgets)

unfoldable pub put_budget : BudgetEntry → WaveDatabase → WaveDatabase
put_budget entry db = record db { budgets = put budget_key merge_budget entry db.budgets }

unfoldable pub list_outbox : Text → WaveDatabase → List LaunchOutbox
list_outbox wave_id db =
    order_by (λ item. item.created_at) (filter (λ item. text_eq item.wave_id wave_id) db.outbox)

-- `state IN ('PENDING','CLAIMED','LAUNCHED','RECONCILING')`
abbrev pub is_open_outbox : OutboxState → Bool
is_open_outbox OutboxState.settled = false
is_open_outbox OutboxState.failed = false
is_open_outbox _ = true

unfoldable pub list_open_outbox : WaveDatabase → List LaunchOutbox
list_open_outbox db =
    order_by (λ item. item.created_at) (filter (λ item. is_open_outbox item.state) db.outbox)

unfoldable pub get_outbox_by_idempotency : Text → WaveDatabase → Option LaunchOutbox
get_outbox_by_idempotency key db = find? (λ item. text_eq item.idempotency_key key) db.outbox

unfoldable pub put_outbox : LaunchOutbox → WaveDatabase → Result WaveDatabase
put_outbox item db =
    if not (is_some (get outbox_key (outbox_key item) db.outbox))
      && is_some (get_outbox_by_idempotency item.idempotency_key db)
    then err WaveError.unique_violation
    else ok (record db { outbox = put outbox_key merge_outbox item db.outbox })

unfoldable pub get_lease : Text → WaveDatabase → Option LeaseRecord
get_lease resource_key db = get lease_key (resource_key ∷ []) db.leases

abbrev of_wave : Text → Option Text → Bool
of_wave wave_id none = false
of_wave wave_id (some other) = text_eq other wave_id

-- An empty id is no id, and asks for the leases of every wave.
unfoldable pub list_leases : Text → WaveDatabase → List LeaseRecord
list_leases wave_id db =
    if text_eq wave_id (text "")
    then db.leases
    else filter (λ lease. of_wave wave_id lease.wave_id) db.leases

-- `listLeases()` with no wave
abbrev pub all_leases : WaveDatabase → List LeaseRecord
all_leases db = db.leases

unfoldable pub put_lease : LeaseRecord → WaveDatabase → WaveDatabase
put_lease lease db = record db { leases = put lease_key merge_lease lease db.leases }

unfoldable pub delete_lease : Text → WaveDatabase → WaveDatabase
delete_lease resource_key db = record db { leases = remove lease_key (resource_key ∷ []) db.leases }

unfoldable pub get_event : Text → WaveDatabase → Option DomainEvent
get_event event_id db = get event_key (event_id ∷ []) db.events

-- `false` when the id is taken: the UNIQUE error of the insertion is caught.
unfoldable pub insert_event : DomainEvent → WaveDatabase → Bool × WaveDatabase
insert_event event db =
    if is_some (get_event event.event_id db)
    then (false, db)
    else (true, record db { events = db.events ++ event ∷ [] })

unfoldable pub list_events : Text → WaveDatabase → List DomainEvent
list_events wave_id db =
    order_by (λ event. event.created_at) (filter (λ event. text_eq event.wave_id wave_id) db.events)

abbrev pub artifact_key : ArtifactRecord → Key
artifact_key artifact = artifact.artifact_id ∷ []

abbrev pub merge_artifact : ArtifactRecord → ArtifactRecord → ArtifactRecord
merge_artifact old row = record old { path = row.path; hash = row.hash }

unfoldable pub put_artifact : ArtifactRecord → WaveDatabase → WaveDatabase
put_artifact artifact db = record db {
  artifacts = put artifact_key merge_artifact artifact db.artifacts;
}

unfoldable pub list_artifacts : Text → WaveDatabase → List ArtifactRecord
list_artifacts wave_id db =
    order_by (λ artifact. artifact.created_at)
      (filter (λ artifact. text_eq artifact.wave_id wave_id) db.artifacts)
