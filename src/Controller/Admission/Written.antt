-- ===== src/Controller/Admission/Written.antt =====
-- The rows that `queueStage` (core/admission.ts) leaves behind: the outbox item, the stage, the
-- reservation, the ticket and the wave's launch counter.
use openclaw_wave_runner.Prelude.{
  ◌+◌, ◌≤◌, ◌≡◌, ◌⊎◌, inl, inr, refl, sym, ap, ◌∙◌, false, none, some, [], ◌∷◌, ◌++◌, get_or, Text,
  text, ok, Result,
}
use mathlib.Core.Path.{subst}
use mathlib.Core.Option.{some-injective}
use openclaw_wave_runner.Domain.{
  TicketRun, WaveRecord, StageName, StageRun, StageStatus, BudgetEntry, LaunchOutbox, OutboxState,
  reserved,
}
use openclaw_wave_runner.StagePaths.{idempotency_key}
use openclaw_wave_runner.Budget.{reservation_ceiling}
use openclaw_wave_runner.Store.{
  wave_key, WaveDatabase, get_wave, get_ticket, get_lease, outbox_key, stage_key, budget_key,
  ticket_key, get_outbox_by_idempotency, merge_outbox, merge_stage, merge_budget,
}
use openclaw_wave_runner.Store.Table.{get, put}
use openclaw_wave_runner.Store.Rows.{put_fresh}
use openclaw_wave_runner.Controller.Exec.{Env, Controller}
use openclaw_wave_runner.Controller.Leases.{ticket_scope}
use openclaw_wave_runner.WriterScope.{writer_lease_key}
use openclaw_wave_runner.Controller.Rows.{
  FreshIds, write_rows, outbox_row, stage_row, budget_row, generation_or_one, launched_wave,
}
use openclaw_wave_runner.Controller.Admission.{admit_stage, queue_stage, attempt_of, slots_taken}
use openclaw_wave_runner.Controller.Admission.Outcomes.{queue_stage-commits, IsQueued}
use openclaw_wave_runner.Controller.Admission.Steps.{
  admit_stage-IsAdmitted, write_rows-IsCounted, counted,
}
use openclaw_wave_runner.Controller.Admission.Tables.{
  IsMoved, move_ticket-IsMoved, write_rows-tables,
}

-- the ids that were drawn are new in their tables
pub record AreNew (ids : FreshIds) (db : WaveDatabase) : Type 0 where
  pub outbox : get outbox_key (ids.outbox_id ∷ []) db.outbox ≡ none
  pub stage : get stage_key (ids.stage_run_id ∷ []) db.stages ≡ none
  pub budget : get budget_key (ids.budget_id ∷ []) db.budgets ≡ none

module _ (env : Env) (wave_id ticket_id : Text) (stage : StageName)
    (before after : WaveDatabase) where
  -- A stage was admitted: what the guards saw in the ledger before, and what is in the ledger after.
  pub record IsWritten : Type 0 where
    pub wave : WaveRecord
    pub ticket : TicketRun
    pub wave_found : get_wave wave_id before ≡ some wave
    pub ticket_found : get_ticket wave_id ticket_id before ≡ some ticket
    pub not_cancelled : wave.cancel_requested ≡ false
    pub retries_left :
        attempt_of wave_id ticket_id stage before ≤ wave.limits.max_retries_per_stage + 1
    pub slot_free : slots_taken env wave (get_or ticket.provider (text "mock")) before ≡ false
    pub key_unused :
        get_outbox_by_idempotency
          (idempotency_key wave_id ticket_id stage (attempt_of wave_id ticket_id stage before))
          before
        ≡ none
    -- one pending item more in the outbox
    pub item : LaunchOutbox
    pub item_added : after.outbox ≡ before.outbox ++ item ∷ []
    pub item_pending : item.state ≡ OutboxState.pending
    pub item_stage : item.stage ≡ stage
    pub item_attempt : item.attempt ≡ attempt_of wave_id ticket_id stage before
    pub item_key :
        item.idempotency_key
        ≡ idempotency_key wave_id ticket_id stage (attempt_of wave_id ticket_id stage before)
    pub item_ticket : (item.wave_id ≡ wave_id) × (item.ticket_id ≡ ticket_id)
    -- one pending stage more, with the same key
    pub run : StageRun
    pub run_added : after.stages ≡ before.stages ++ run ∷ []
    pub run_pending : run.status ≡ StageStatus.pending
    pub run_stage : run.stage ≡ stage
    pub run_attempt : run.attempt ≡ item.attempt
    pub run_key : run.idempotency_key ≡ item.idempotency_key
    pub run_ticket : (run.wave_id ≡ wave_id) × (run.ticket_id ≡ ticket_id)
    -- one reservation more, of what the wave's limits hold back for a stage
    pub entry : BudgetEntry
    pub entry_added : after.budgets ≡ before.budgets ++ entry ∷ []
    pub entry_reserved : entry.state ≡ reserved
    pub entry_wave : entry.wave_id ≡ wave_id
    pub entry_stage : entry.stage_run_id ≡ some run.stage_run_id
    pub entry_tokens : entry.tokens_reserved ≡ wave.limits.per_stage_reservation_tokens
    pub entry_cost : entry.cost_reserved_micros ≡ wave.limits.per_stage_reservation_cost_micros
    -- the ticket is on the stage, and the wave has one launch more
    pub ticket_moved : IsMoved wave_id ticket_id stage after
    pub counted : WaveRecord
    pub counted_found : get_wave wave_id after ≡ some counted
    pub one_launch_more : counted.counters.launches ≡ wave.counters.launches + 1

module _ (env : Env) (ids : FreshIds) (wave_id ticket_id : Text) (stage : StageName)
    (c : Controller) where
  pub queued-IsWritten :
      AreNew ids c.db
      → (queued : IsQueued env ids wave_id ticket_id stage c)
      → let admitted = admit_stage env queued.wave.limits queued.ticket wave_id ticket_id stage c in
        IsWritten env wave_id ticket_id stage c.db
          (write_rows env ids queued.reserved.live queued.wave.limits queued.ticket wave_id
            ticket_id stage
            (attempt_of wave_id ticket_id stage c.db)
            admitted.1).1.db
  unfolding reservation_ceiling get_wave get_ticket
      openclaw_wave_runner.Budget.counters_from_budgets
  queued-IsWritten new queued =
      let attempt = attempt_of wave_id ticket_id stage c.db in
      let reserved = queued.reserved in
      let limits = queued.wave.limits in
      let first = admit_stage env limits queued.ticket wave_id ticket_id stage c in
      let last =
        write_rows env ids reserved.live limits queued.ticket wave_id ticket_id stage attempt
          first.1 in
      let admission =
        admit_stage-IsAdmitted env limits queued.ticket wave_id ticket_id stage c reserved.live
          reserved.auth reserved.admitted in
      let same = admission.same in
      let rows =
        write_rows-tables env ids reserved.live limits queued.ticket wave_id ticket_id stage attempt
          first.1 reserved.rows in
      let (budgets, counted_wave) =
        write_rows-IsCounted env ids reserved.live limits queued.ticket wave_id ticket_id stage
          attempt first.1 (sym (ap (get wave_key (wave_id ∷ [])) same.waves) ∙ admission.found_wave)
          reserved.rows in
      let own : reserved.live ≡ queued.wave =
        some-injective reserved.live queued.wave (sym admission.found_wave ∙ queued.wave_found) in
      let lease =
        get_lease (writer_lease_key reserved.live.repo_path (ticket_scope queued.ticket))
          first.1.db in
      let item = outbox_row env ids wave_id ticket_id stage attempt (generation_or_one lease) in
      let run = stage_row env ids wave_id ticket_id queued.ticket stage attempt in
      let entry = budget_row env ids wave_id limits in
      let moved = move_ticket-IsMoved reserved.live wave_id ticket_id stage first.1 rows.0 in
      record {
        wave = queued.wave;
        ticket = queued.ticket;
        wave_found = queued.wave_found;
        ticket_found = queued.ticket_found;
        not_cancelled = queued.not_cancelled;
        retries_left = queued.retries_left;
        slot_free = queued.slot_free;
        key_unused = queued.key_unused;
        item = item;
        item_added =
            rows.3
            ∙ ap (put outbox_key merge_outbox item) (sym same.outbox)
            ∙ put_fresh outbox_key merge_outbox (λ a b. refl) item c.db.outbox new.outbox;
        item_pending = refl;
        item_stage = refl;
        item_attempt = refl;
        item_key = refl;
        item_ticket = (refl, refl);
        run = run;
        run_added =
            rows.2
            ∙ ap (put stage_key merge_stage run) (sym same.stages)
            ∙ put_fresh stage_key merge_stage (λ a b. refl) run c.db.stages new.stage;
        run_pending = refl;
        run_stage = refl;
        run_attempt = refl;
        run_key = refl;
        run_ticket = (refl, refl);
        entry = entry;
        entry_added =
            budgets
            ∙ ap (put budget_key merge_budget entry) (sym same.budgets)
            ∙ put_fresh budget_key merge_budget (λ a b. refl) entry c.db.budgets new.budget;
        entry_reserved = refl;
        entry_wave = refl;
        entry_stage = refl;
        entry_tokens = refl;
        entry_cost = refl;
        ticket_moved = record {
          moved = moved.moved;
          found = ap (get ticket_key (wave_id ∷ ticket_id ∷ [])) rows.1 ∙ moved.found;
          staged = moved.staged;
          status = moved.status;
        };
        counted = counted wave_id last.1.db (launched_wave reserved.live);
        counted_found = counted_wave;
        one_launch_more = ap (λ (w : WaveRecord). w.counters.launches + 1) own;
      }

  -- If the ids that were drawn are new, `queueStage` either succeeds with a whole stage admitted, or
  -- leaves the ledger as it was. An admitted stage passed every guard (the wave is there and not
  -- cancelled, the ticket is there, the retries are not used up, a slot of the provider is free and the
  -- key is unused); one PENDING outbox item, one PENDING stage run under the same key and one reservation
  -- of what the wave's limits hold back for a stage are added to their tables, the ticket is on the stage
  -- (and in its status, unless the stage is a review), and the wave has one launch more.
  pub queue_stage-outcomes :
      AreNew ids c.db
      → let after = queue_stage env ids wave_id ticket_id stage c in
        ((after.0 ≡ ok tt) × IsWritten env wave_id ticket_id stage c.db after.1.db)
        ⊎ (after.1.db ≡ c.db)
  queue_stage-outcomes new = elim (queue_stage-commits env ids wave_id ticket_id stage c) [
    | inl queued ↦ inl (
        subst
          (λ (r : Result (Unit {0}) × Controller).
            (r.0 ≡ ok tt) × IsWritten env wave_id ticket_id stage c.db r.1.db)
          (sym (queued.result ∙ queued.reserved.committed)) (refl, queued-IsWritten new queued))
    | inr unchanged ↦ inr unchanged
  ]
