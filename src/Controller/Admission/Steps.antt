-- ===== src/Controller/Admission/Steps.antt =====
-- What the two parts of the transaction in `queueStage` (core/admission.ts) find and write.
use openclaw_wave_runner.Prelude.{
  ℕ, ◌≡◌, inl, inr, refl, ap, ◌∙◌, true, false, Option, some, [], ◌∷◌, Text, ok, arith,
  Result-cases,
}
use openclaw_wave_runner.Domain.{TicketRun, WaveRecord, WaveLimits, StageName}
use openclaw_wave_runner.Budget.{admit_reservation, reservation_ceiling}
use openclaw_wave_runner.Store.{
  WaveDatabase, get_wave, put_wave, put_ticket, put_stage, put_outbox, put_lease, put_budget,
  list_budgets, budget_key, merge_budget, wave_key,
}
use openclaw_wave_runner.Store.Table.{put, get}
use openclaw_wave_runner.Store.Waves.{get_wave-put_wave}
use openclaw_wave_runner.Controller.Context.{require_wave}
use openclaw_wave_runner.Controller.Exec.{Env, Controller}
use openclaw_wave_runner.Controller.Frames.{SameButLeases}
use openclaw_wave_runner.Budget.{counters_from_budgets}
use openclaw_wave_runner.Controller.Rows.{
  FreshIds, write_rows, insert_rows, count_launch, move_ticket, budget_row, launched_wave,
}
use openclaw_wave_runner.Controller.Admission.{admit_stage, take_writer}

-- The writer lease and lock touch the leases and the locks only.
take_writer-SameButLeases :
    (env : Env) (live : WaveRecord) (ticket : TicketRun) (wave_id ticket_id : Text) (c : Controller)
    → SameButLeases c.db (take_writer env live ticket wave_id ticket_id c).1.db
unfolding take_writer put_lease
take_writer-SameButLeases env live ticket wave_id ticket_id c = ground arith

-- What admission found in the ledger.
pub record IsAdmitted (env : Env) (limits : WaveLimits) (wave_id : Text)
    (before after : WaveDatabase) (live : WaveRecord) : Type 0 where
  pub found_wave : get_wave wave_id before ≡ some live
  pub not_cancelled : live.cancel_requested ≡ false
  pub admitted :
      admit_reservation live
        (list_budgets wave_id before)
        limits.per_stage_reservation_tokens
        limits.per_stage_reservation_cost_micros
        env.now
        true
      ≡ ok tt
  pub same : SameButLeases before after

pub admit_stage-IsAdmitted :
    (env : Env) (limits : WaveLimits) (ticket : TicketRun) (wave_id ticket_id : Text)
    (stage : StageName) (c : Controller) (live : WaveRecord) (auth : Option Text)
    → (admit_stage env limits ticket wave_id ticket_id stage c).0 ≡ ok (live, auth)
    → IsAdmitted env limits wave_id c.db
        (admit_stage env limits ticket wave_id ticket_id stage c).1.db
        live
unfolding admit_stage reservation_ceiling
admit_stage-IsAdmitted env limits ticket wave_id ticket_id stage c live auth h =
    ground (arith, take_writer-SameButLeases env live ticket wave_id ticket_id c)

-- Two ledgers differ in their tickets at most.
pub record SameButTickets (a b : WaveDatabase) : Type 0 where
  pub waves : a.waves ≡ b.waves
  pub stages : a.stages ≡ b.stages
  pub budgets : a.budgets ≡ b.budgets
  pub outbox : a.outbox ≡ b.outbox
  pub leases : a.leases ≡ b.leases

pub move_ticket-SameButTickets :
    (live : WaveRecord) (wave_id ticket_id : Text) (stage : StageName) (c : Controller)
    → SameButTickets c.db (move_ticket live wave_id ticket_id stage c).1.db
unfolding move_ticket put_ticket
move_ticket-SameButTickets live wave_id ticket_id stage c = ground arith

-- the wave with its counters drawn anew from the budgets under an id
abbrev pub counted : Text → WaveDatabase → WaveRecord → WaveRecord
counted wave_id db wave = record wave {
  counters =
      counters_from_budgets (list_budgets wave_id db) wave.counters.launches
        wave.counters.started_at;
}

-- The last two writes: one launch more, and the counters drawn anew.
pub launch_tail :
    (live : WaveRecord) (wave_id : Text) (c : Controller)
    → get_wave wave_id c.db ≡ some live
    → let r = count_launch live wave_id c in
      (r.0 ≡ ok tt)
      × (r.1.db.budgets ≡ c.db.budgets)
      × (get_wave wave_id r.1.db ≡ some (counted wave_id r.1.db (launched_wave live)))
unfolding count_launch require_wave list_budgets put_wave
launch_tail live wave_id c there =
    let first : get_wave wave_id (put_wave (launched_wave live) c.db) ≡ some (launched_wave live) =
      get_wave-put_wave wave_id live (launched_wave live) c.db there refl refl in
    let second =
      get_wave-put_wave wave_id (launched_wave live) (counted wave_id c.db (launched_wave live))
        (put_wave (launched_wave live) c.db) first refl refl in
    rw first (refl, refl, second)

module _ (env : Env) (ids : FreshIds) (live : WaveRecord) (limits : WaveLimits) (ticket : TicketRun)
    (wave_id ticket_id : Text) (stage : StageName) (attempt : ℕ) (c : Controller) where
  pub insert_rows-waves :
      (insert_rows env ids live limits ticket wave_id ticket_id stage attempt c).1.db.waves
      ≡ c.db.waves
  unfolding insert_rows put_stage put_outbox put_budget
  insert_rows-waves = ground (arith, move_ticket-SameButTickets live wave_id ticket_id stage c)

  insert_rows-budgets :
      (insert_rows env ids live limits ticket wave_id ticket_id stage attempt c).0 ≡ ok tt
      → (insert_rows env ids live limits ticket wave_id ticket_id stage attempt c).1.db.budgets
        ≡ put budget_key merge_budget (budget_row env ids wave_id limits) c.db.budgets
  unfolding insert_rows put_stage put_outbox put_budget
  insert_rows-budgets done =
      ground (arith, move_ticket-SameButTickets live wave_id ticket_id stage c)

  -- One reservation is written, and the wave has one launch more and its counters drawn anew.
  pub write_rows-IsCounted :
      get_wave wave_id c.db ≡ some live
      → (write_rows env ids live limits ticket wave_id ticket_id stage attempt c).0 ≡ ok tt
      → let after =
          (write_rows env ids live limits ticket wave_id ticket_id stage attempt c).1.db in
        (after.budgets
          ≡ put budget_key merge_budget (budget_row env ids wave_id limits) c.db.budgets)
        × (get_wave wave_id after ≡ some (counted wave_id after (launched_wave live)))
  unfolding write_rows get_wave
  write_rows-IsCounted there done =
      let head = insert_rows env ids live limits ticket wave_id ticket_id stage attempt c in
      elim (Result-cases head.0) [
        | inl (_, fine) ↦
            let same = ap (get wave_key (wave_id ∷ [])) insert_rows-waves in
            let tail = launch_tail live wave_id head.1 (same ∙ there) in
            rw fine (tail.1 ∙ insert_rows-budgets fine, tail.2)
        | inr (e, failed) ↦ absurd (ground arith)
      ]
