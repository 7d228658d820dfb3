-- ===== src/Controller/Tame/Admission.antt =====
-- The admission of a stage is tame if the id that is drawn for its row is new (core/admission.ts,
-- core/launch-hops.ts).
use openclaw_wave_runner.Prelude.{
  ℕ, refl, ap, ◌∙◌, inl, inr, Bool, Option, List, [], ◌∷◌, Text, Result, ok, err, WaveError,
  Result-cases, arith,
}
use openclaw_wave_runner.Domain.{
  StageName, WaveRecord, WaveLimits, TicketRun, StageRun, LaunchOutbox,
}
use openclaw_wave_runner.Domain.Worker.{WorkerCall}
use openclaw_wave_runner.Store.{
  WaveDatabase, outbox_key, put_ticket, put_stage, put_budget, put_lease, put_outbox,
}
use openclaw_wave_runner.Store.Table.{get}
use openclaw_wave_runner.Domain.{BudgetEntry, LeaseRecord}
use openclaw_wave_runner.Controller.Exec.{
  Env, Controller, Exec, ◌>>=◌, ◌>>◌, try_modify, modify, query,
}
use openclaw_wave_runner.Controller.Launcher.{KeysGrow-same}
use openclaw_wave_runner.Controller.Tame.Rows.{
  IsNew, IsTameWith, appended_row, With-bind, With-later, With-if, raise-IsTameWith,
  pure-IsTameWith,
}
use openclaw_wave_runner.Controller.Tame.Waves.{stop_for_budget-IsTame}
use openclaw_wave_runner.Controller.Tame.{
  LeavesWork, IsKeyedWork, TameStep, TameStep-trans, TameStep-continue, IsTame, IsTame-leaves,
  IsTame-pure, tame_rules,
}
use openclaw_wave_runner.Controller.Rows.{
  FreshIds, outbox_row, generation_or_one, move_ticket, insert_rows, count_launch, write_rows,
}
use openclaw_wave_runner.Controller.Admission.{
  admit_stage, take_writer, give_back, swallow_busy, require_live, reserve_stage, queue_stage,
}
use openclaw_wave_runner.Controller.Context.{require_wave, require_ticket}
use openclaw_wave_runner.Controller.Hops.{
  QueueAdmitResult, queued, caught, on_refusal, queue_stage_or_budget,
}
use openclaw_wave_runner.Controller.Leases.{authority_release}

require_wave-LeavesWork : (wave_id : Text) → LeavesWork (require_wave wave_id)
unfolding require_wave
require_wave-LeavesWork wave_id = record { at = λ c. refl }

require_ticket-LeavesWork :
    (wave_id ticket_id : Text) → LeavesWork (require_ticket wave_id ticket_id)
unfolding require_ticket
require_ticket-LeavesWork wave_id ticket_id = record { at = λ c. refl }

require_live-LeavesWork : (wave : WaveRecord) → LeavesWork (require_live wave)
require_live-LeavesWork wave = record { at = λ c. ground arith }

-- what is written before the row
module _ (env : Env) (wave_id ticket_id : Text) (stage : StageName) where
  admit_stage-LeavesWork :
      (limits : WaveLimits) (ticket : TicketRun)
      → LeavesWork (admit_stage env limits ticket wave_id ticket_id stage)
  unfolding admit_stage take_writer put_lease
  admit_stage-LeavesWork limits ticket = record { at = λ c. ground arith }

  move_ticket-LeavesWork :
      (live : WaveRecord) → LeavesWork (move_ticket live wave_id ticket_id stage)
  unfolding move_ticket put_ticket
  move_ticket-LeavesWork live = record { at = λ c. ground arith }

put_stage-LeavesWork : (row : StageRun) → LeavesWork (try_modify (put_stage row))
unfolding put_stage
put_stage-LeavesWork row = record { at = λ c. ground arith }

put_budget-LeavesWork : (entry : BudgetEntry) → LeavesWork (modify (put_budget entry))
unfolding put_budget
put_budget-LeavesWork entry = record { at = λ c. refl }

query-LeavesWork : {A : Type 0} (f : WaveDatabase → A) → LeavesWork (query f)
query-LeavesWork f = record { at = λ c. refl }

count_launch-IsTame : (live : WaveRecord) (wave_id : Text) → IsTame (count_launch live wave_id)
unfolding count_launch
count_launch-IsTame live wave_id = search tame_rules

give_back-LeavesWork :
    (auth : Option Text) (wave_id ticket_id : Text) (e : WaveError)
    → LeavesWork (give_back auth wave_id ticket_id >> swallow_busy e)
unfolding authority_release
give_back-LeavesWork auth wave_id ticket_id e = record { at = λ c. ground arith }

swallow_busy-LeavesWork : (e : WaveError) → LeavesWork (swallow_busy e)
swallow_busy-LeavesWork e = record { at = λ c. ground arith }

module _ (env : Env) (ids : FreshIds) (limits : WaveLimits) (ticket : TicketRun)
    (wave_id ticket_id : Text) (stage : StageName) (attempt : ℕ) where
  put_row-IsTameWith :
      (lease : Option LeaseRecord)
      → IsTameWith ids.outbox_id (
          try_modify (
            put_outbox
              (outbox_row env ids wave_id ticket_id stage attempt (generation_or_one lease))))
  put_row-IsTameWith lease = record {
    at =
        appended_row (outbox_row env ids wave_id ticket_id stage attempt (generation_or_one lease));
  }

  insert_rows-IsTameWith :
      (live : WaveRecord)
      → IsTameWith ids.outbox_id
          (insert_rows env ids live limits ticket wave_id ticket_id stage attempt)
  unfolding insert_rows
  insert_rows-IsTameWith live =
      search
        (
          With-later, move_ticket-LeavesWork, put_stage-LeavesWork, put_budget-LeavesWork,
          query-LeavesWork, put_row-IsTameWith,
        )
        depth 12

  write_rows-IsTameWith :
      (live : WaveRecord)
      → IsTameWith ids.outbox_id
          (write_rows env ids live limits ticket wave_id ticket_id stage attempt)
  unfolding write_rows
  write_rows-IsTameWith live =
      With-bind (insert_rows env ids live limits ticket wave_id ticket_id stage attempt) _
        (insert_rows-IsTameWith live) (λ _. count_launch-IsTame live wave_id)

  -- the ledger rolled back, the calls of the worker as they are
  rolled_step :
      {A : Type 0} {c c' : Controller} (m : Exec A)
      → IsKeyedWork c.db
      → TameStep c c'
      → LeavesWork m
      → TameStep c (m (record c' { db = c.db })).1
  rolled_step {c = c} {c' = c'} m keys step h =
      let back : TameStep c (record c' { db = c.db }) = record {
        keys = keys;
        launched = step.launched;
        rows = KeysGrow-same refl;
        same_log = step.same_log;
        mono = λ k. omega arith;
      } in
      TameStep-trans back ((IsTame-leaves h).at (record c' { db = c.db }) keys)

  reserve_stage-IsTameWith :
      IsTameWith ids.outbox_id (reserve_stage env ids limits ticket wave_id ticket_id stage attempt)
  unfolding reserve_stage
  reserve_stage-IsTameWith = record {
    at = λ c keys new.
        let leaves = admit_stage-LeavesWork env wave_id ticket_id stage limits ticket in
        let first = admit_stage env limits ticket wave_id ticket_id stage c in
        let step = (IsTame-leaves leaves).at c keys in
        elim (Result-cases first.0) [
          | inl ((live, auth), fine) ↦
              let rows =
                write_rows env ids live limits ticket wave_id ticket_id stage attempt first.1 in
              let new' : IsNew ids.outbox_id first.1.db =
                ap
                  (λ (w : List LaunchOutbox × List WorkerCall).
                    get outbox_key (ids.outbox_id ∷ []) w.0)
                  (leaves.at c)
                ∙ new in
              let both =
                TameStep-trans step ((write_rows-IsTameWith live).at first.1 step.keys new') in
              elim (Result-cases rows.0) [
                | inl (_, done) ↦ rw fine (rw done both)
                | inr (e, failed) ↦ rw fine (
                    rw failed
                      (rolled_step _ keys both (give_back-LeavesWork auth wave_id ticket_id e)))
              ]
          | inr (e, failed) ↦ rw failed (rolled_step _ keys step (swallow_busy-LeavesWork e))
        ];
  }

module _ (env : Env) (ids : FreshIds) (wave_id ticket_id : Text) (stage : StageName) where
  queue_stage-IsTameWith : IsTameWith ids.outbox_id (queue_stage env ids wave_id ticket_id stage)
  unfolding queue_stage
  queue_stage-IsTameWith =
      search
        (
          reserve_stage-IsTameWith, With-if, With-later, query-LeavesWork, require_wave-LeavesWork,
          require_ticket-LeavesWork, require_live-LeavesWork, raise-IsTameWith, pure-IsTameWith,
        )
        depth 16

on_refusal-IsTame :
    (env : Env) (wording : WaveError → Text) (wave_id : Text) (idle : Bool) (e : WaveError)
    → IsTame (on_refusal env wording wave_id idle e)
unfolding on_refusal
on_refusal-IsTame env wording wave_id idle e = search (tame_rules, stop_for_budget-IsTame) depth 12

-- the same with the catch around it, and with the ids drawn at the call
module _ (env : Env) (wording : WaveError → Text) (wave_id ticket_id : Text) (stage : StageName)
    (idle : Bool) where
  caught-IsTame : (r : Result (Unit {0})) → IsTame (caught env wording wave_id idle r)
  caught-IsTame (ok _) = IsTame-pure queued
  caught-IsTame (err e) = on_refusal-IsTame env wording wave_id idle e

  queue-IsTameWith :
      (ids : FreshIds)
      → IsTameWith ids.outbox_id
          (queue_stage_or_budget env wording ids wave_id ticket_id stage idle)
  unfolding queue_stage_or_budget
  queue-IsTameWith ids = record {
    at = λ c keys new.
        let first = queue_stage env ids wave_id ticket_id stage c in
        let step = (queue_stage-IsTameWith env ids wave_id ticket_id stage).at c keys new in
        TameStep-trans step ((caught-IsTame first.0).at first.1 step.keys);
  }

  -- `fresh` draws ids for rows that are new
  pub drawn-IsTame :
      (fresh : WaveDatabase → FreshIds)
      → ((db : WaveDatabase) → IsNew (fresh db).outbox_id db)
      → IsTame (
          query fresh >>= λ ids. queue_stage_or_budget env wording ids wave_id ticket_id stage idle)
  drawn-IsTame fresh new = record {
    at = λ c keys. (queue-IsTameWith (fresh c.db)).at c keys (new c.db);
  }

  pub drawn_then-IsTame :
      {A : Type 0} (fresh : WaveDatabase → FreshIds) (next : QueueAdmitResult → Exec A)
      → ((db : WaveDatabase) → IsNew (fresh db).outbox_id db)
      → ((r : QueueAdmitResult) → IsTame (next r))
      → IsTame (
          query fresh >>= λ ids.
          queue_stage_or_budget env wording ids wave_id ticket_id stage idle >>= next)
  drawn_then-IsTame fresh next new h = record {
    at = λ c keys.
        TameStep-continue
          (queue_stage_or_budget env wording (fresh c.db) wave_id ticket_id stage idle c).0 next
          ((queue-IsTameWith (fresh c.db)).at c keys (new c.db)) h;
  }
