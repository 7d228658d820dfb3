-- ===== src/Controller/Watchdog.antt =====
-- core/stage-watchdog.ts: stages that run past their wall time, and workers that hang in a read of a file.
pub mod Hangs
use openclaw_wave_runner.Prelude.{
  ℕ, ◌+◌, ◌-◌, ◌/◌, Bool, true, false, ◌&&◌, ◌||◌, Option, none, some, get_or, List, [], ◌∷◌, ◌++◌,
  ltb, leb, ◌==◌, if◌then◌else◌, filter, is_empty, Text, text, text_eq, Result, ok, err,
}
use openclaw_wave_runner.Domain.{OutboxState, StageName, stage_eq, LaunchOutbox}
use openclaw_wave_runner.Domain.Worker.{LaunchReceipt, WorkerCall}
use openclaw_wave_runner.StagePaths.{is_plan_gate_stage, stage_text}
use openclaw_wave_runner.Store.{WaveDatabase, list_outbox}
use openclaw_wave_runner.Controller.Exec.{Env, Exec, ◌>>=◌, ◌>>◌, pure, query, for_each}
use openclaw_wave_runner.Controller.Leases.{truthy}
use openclaw_wave_runner.Controller.Reasons.{trim, failed}
use openclaw_wave_runner.Controller.FailLaunch.{ask}
use openclaw_wave_runner.Controller.Adapters.{Adapters}
use openclaw_wave_runner.Controller.Workspace.{Workspace}
use openclaw_wave_runner.Controller.Reviews.{ReviewFiles}
use openclaw_wave_runner.Controller.StageChecks.{died, Settler}
use openclaw_wave_runner.Controller.Settlement.{settle_outbox}
use openclaw_wave_runner.Controller.Observe.{bare_receipt}

-- What the watchdog reads of its surroundings.
pub record Watch : Type 0 where
  -- `Number` of a text where it is finite and not negative; a wall is a whole number of milliseconds
  pub number : Text → Option ℕ
  -- `WAVE_PLAN_WALL_MS`, `WAVE_IMPL_WALL_MS` and `WAVE_READ_FILE_HANG_MS`
  pub plan_wall : Option Text
  pub impl_wall : Option Text
  pub hang : Option Text
  -- `grokReadFileHung` of the context, and `WorkerAdapter.cancel`
  pub grok_read_file_hung : Option (LaunchReceipt → ℕ → ℕ → Result Bool)
  pub cancel : List WorkerCall → LaunchReceipt → Result (Unit {0})

abbrev pub default_plan_wall_ms : ℕ
default_plan_wall_ms = 2_700_000

abbrev pub default_impl_wall_ms : ℕ
default_impl_wall_ms = 5_400_000

abbrev pub default_read_file_hang_ms : ℕ
default_read_file_hang_ms = 60_000

unfoldable pub parse_wall_ms : (Text → Option ℕ) → Option Text → ℕ → ℕ
unfolding trim
parse_wall_ms number none fallback = fallback
parse_wall_ms number (some raw) fallback =
    if is_empty (trim raw) then fallback else get_or (number raw) fallback

unfoldable pub stage_wall_ms : Watch → StageName → ℕ
unfolding parse_wall_ms
stage_wall_ms watch stage =
    if stage_eq stage StageName.plan || is_plan_gate_stage stage
    then parse_wall_ms watch.number watch.plan_wall default_plan_wall_ms
    else parse_wall_ms watch.number watch.impl_wall default_impl_wall_ms

unfoldable pub read_file_hang_ms : Watch → ℕ
unfolding parse_wall_ms
read_file_hang_ms watch = parse_wall_ms watch.number watch.hang default_read_file_hang_ms

-- `WEEK_S`
abbrev week_s : ℕ
week_s = 604_800

-- `Math.max(1, Math.ceil(ms / 1000))`
abbrev at_least_one : ℕ → ℕ
at_least_one n = if ltb n 1 then 1 else n

unfoldable pub acp_timeout_seconds : Watch → StageName → ℕ
unfolding stage_wall_ms
acp_timeout_seconds watch stage =
    let ms = stage_wall_ms watch stage in
    if ms == 0 then week_s else at_least_one ((ms + 999) / 1000)

pub record GrokSessionEvent : Type 0 where
  pub ts : Text
  pub type : Text
  pub tool_name : Option Text

-- the reads that have started and not ended, and the start of the last one
pub record Reads : Type 0 where
  pub inflight : ℕ
  pub last_start : ℕ

abbrev pub no_reads : Reads
no_reads = record { inflight = 0; last_start = 0 }

abbrev pub is_read_file : Option Text → Bool
is_read_file none = false
is_read_file (some tool) = text_eq tool (text "read_file")

abbrev completed : Reads → Reads
completed reads = record {
  inflight = reads.inflight - 1;
  last_start = if reads.inflight - 1 == 0 then 0 else reads.last_start;
}

abbrev pub read_event : Text → Option ℕ → Reads → Reads
read_event type none reads = reads
read_event type (some ts) reads =
    if text_eq type (text "tool_started")
    then record { inflight = reads.inflight + 1; last_start = ts }
    else if text_eq type (text "tool_completed")
    then completed reads
    else reads

-- the body of the loop; `Date.parse` is a parameter, `none` where it is not finite
abbrev pub session_event : (Text → Option ℕ) → GrokSessionEvent → Reads → Reads
session_event date_parse event reads =
    if text_eq event.type (text "turn_ended")
    then no_reads
    else if is_read_file event.tool_name
    then read_event event.type (date_parse event.ts) reads
    else reads

unfoldable pub all_events : (Text → Option ℕ) → List GrokSessionEvent → Reads → Reads
all_events date_parse [] reads = reads
all_events date_parse (event ∷ events) reads =
    all_events date_parse events (session_event date_parse event reads)

unfoldable pub read_file_hung_at : (Text → Option ℕ) → List GrokSessionEvent → ℕ → ℕ → Bool
unfolding all_events
read_file_hung_at date_parse events now_ms hang_ms =
    let reads = all_events date_parse events no_reads in
    ltb 0 hang_ms
    && (ltb 0 reads.inflight && (ltb 0 reads.last_start && leb (reads.last_start + hang_ms) now_ms))

abbrev parsed : Text → Result LaunchReceipt → LaunchReceipt
parsed key (ok receipt) = receipt
parsed key (err e) = bare_receipt key

abbrev is_hangable : OutboxState → Bool
is_hangable OutboxState.launched = true
is_hangable OutboxState.reconciling = true
is_hangable _ = false

abbrev hangable_rows : Text → WaveDatabase → List LaunchOutbox
hangable_rows wave_id db =
    filter (λ (item : LaunchOutbox). is_hangable item.state) (list_outbox wave_id db)

abbrev is_true : Result Bool → Bool
is_true (ok b) = b
is_true (err e) = false

module _ (env : Env) (ad : Adapters) (ws : Workspace) (files : ReviewFiles) (settler : Settler)
    (watch : Watch) where
  abbrev hung_receipt : LaunchOutbox → LaunchReceipt
  hung_receipt item = elim (truthy item.receipt_json) [
    | none ↦ bare_receipt item.idempotency_key
    | some json ↦ parsed item.idempotency_key (ad.of_json json)
  ]

  -- the worker's answer to the cancellation is ignored
  unfoldable pub fail_hung_outbox : LaunchOutbox → Text → Exec (Unit {0})
  unfolding ask settle_outbox
  fail_hung_outbox item reason = do
    let receipt = hung_receipt item
    _ ← ask (WorkerCall.cancelled receipt.idempotency_key) (λ calls. watch.cancel calls receipt)
    settle_outbox env ws files settler item receipt (died failed) receipt.output_dir none
        (some reason)

  abbrev pub within_wall : LaunchOutbox → Bool
  within_wall item =
      let wall = stage_wall_ms watch item.stage in wall == 0 || leb env.now (item.created_at + wall)

  abbrev pub watch_stage : LaunchOutbox → Exec (Unit {0})
  watch_stage item =
      if within_wall item
      then pure tt
      else fail_hung_outbox item (text "stage_watchdog: " ++ stage_text item.stage ++ text " hung")

  unfoldable pub apply_stage_watchdog : Text → Exec (Unit {0})
  unfolding stage_wall_ms fail_hung_outbox
  apply_stage_watchdog wave_id = do
    open_rows ← query (hangable_rows wave_id)
    for_each open_rows watch_stage

  abbrev pub watch_read : (LaunchReceipt → ℕ → ℕ → Result Bool) → LaunchOutbox → Exec (Unit {0})
  watch_read probe item =
      if is_true (probe (hung_receipt item) env.now (read_file_hang_ms watch))
      then fail_hung_outbox item (text "stage_watchdog: read_file hung")
      else pure tt

  abbrev pub watch_reads : Option (LaunchReceipt → ℕ → ℕ → Result Bool) → Text → Exec (Unit {0})
  watch_reads none wave_id = pure tt
  watch_reads (some probe) wave_id = do
    open_rows ← query (hangable_rows wave_id)
    for_each open_rows (watch_read probe)

  unfoldable pub apply_read_file_watchdog : Text → Exec (Unit {0})
  unfolding read_file_hang_ms fail_hung_outbox
  apply_read_file_watchdog wave_id =
      if read_file_hang_ms watch == 0
      then pure tt
      else watch_reads watch.grok_read_file_hung wave_id
