-- ===== src/Controller/Admission/Tables.antt =====
-- What the transaction of `queueStage` (core/admission.ts) does to the tables of the tickets, the stages
-- and the outbox.
use openclaw_wave_runner.Prelude.{
  if◌then◌else◌, ℕ, ◌≡◌, ◌⊎◌, inl, inr, refl, ◌∙◌, true, some, [], ◌∷◌, Text, ok, arith,
  Result-cases, Bool-cases, Option-cases,
}
use openclaw_wave_runner.Domain.{
  TicketStatus, ticket_eq, TicketRun, WaveRecord, WaveLimits, StageName,
}
use openclaw_wave_runner.StagePaths.{is_plan_gate_stage}
use openclaw_wave_runner.Store.{
  WaveDatabase, get_ticket, put_ticket, put_stage, put_outbox, put_budget, put_wave, get_lease,
  outbox_key, stage_key, ticket_key, merge_ticket, merge_outbox, merge_stage,
}
use openclaw_wave_runner.Store.Table.{put, key_eq_refl}
use openclaw_wave_runner.Store.Rows.{get-put, get-some}
use openclaw_wave_runner.Controller.Exec.{Env, Controller, Exec, ◌>>=◌, ◌>>◌, pure, lift, modify}
use openclaw_wave_runner.Controller.Context.{require_ticket, require_wave}
use openclaw_wave_runner.Controller.Leases.{ticket_scope}
use openclaw_wave_runner.WriterScope.{writer_lease_key}
use openclaw_wave_runner.Controller.Frames.{bind-Leaves}
use openclaw_wave_runner.StateMachine.{assert_ticket_transition}
use openclaw_wave_runner.Controller.Rows.{
  FreshIds, write_rows, insert_rows, move_ticket, staged_ticket, status_ticket, claimed_ticket,
  next_status, outbox_row, stage_row, count_launch, generation_or_one,
}
use openclaw_wave_runner.Controller.Admission.Steps.{move_ticket-SameButTickets}

-- the ticket has the stage, and its status unless the stage is a review
pub record IsMoved (wave_id ticket_id : Text) (stage : StageName) (db : WaveDatabase) : Type 0 where
  pub moved : TicketRun
  pub found : get_ticket wave_id ticket_id db ≡ some moved
  pub staged : moved.stage ≡ some stage
  pub status : (is_plan_gate_stage stage ≡ true) ⊎ (moved.status ≡ next_status stage)

pub get_ticket-put_ticket :
    (wave_id ticket_id : Text) (old row : TicketRun) (db : WaveDatabase)
    → get_ticket wave_id ticket_id db ≡ some old
    → ticket_key row ≡ wave_id ∷ ticket_id ∷ []
    → get_ticket wave_id ticket_id (put_ticket row db) ≡ some (merge_ticket old row)
unfolding get_ticket put_ticket
get_ticket-put_ticket wave_id ticket_id old row db there key =
    get-put ticket_key merge_ticket (λ a b. refl) (wave_id ∷ ticket_id ∷ []) row db.tickets
    ∙ rw key (rw there (rw (key_eq_refl (wave_id ∷ ticket_id ∷ [])) refl))

IsMoved-put_ticket :
    (wave_id ticket_id : Text) (stage : StageName) (old row : TicketRun) (db : WaveDatabase)
    → get_ticket wave_id ticket_id db ≡ some old
    → ticket_key row ≡ ticket_key old
    → row.stage ≡ some stage
    → (is_plan_gate_stage stage ≡ true) ⊎ (row.status ≡ next_status stage)
    → IsMoved wave_id ticket_id stage (put_ticket row db)
unfolding get_ticket
IsMoved-put_ticket wave_id ticket_id stage old row db there key staged status = record {
  moved = merge_ticket old row;
  found =
      get_ticket-put_ticket wave_id ticket_id old row db there
        (key ∙ (get-some ticket_key db.tickets there).1);
  staged = staged;
  status = status;
}

-- the first half of the move
abbrev claim_move : WaveRecord → TicketRun → Exec (Unit {0})
claim_move live first =
    if ticket_eq first.status TicketStatus.pending
    then (do
      lift (assert_ticket_transition first.status TicketStatus.claimed live.cancel_requested)
      modify (put_ticket (claimed_ticket first)))
    else pure tt

-- the second half of the move, past CLAIMED
abbrev stage_move : WaveRecord → Text → Text → StageName → Exec (Unit {0})
stage_move live wave_id ticket_id stage = do
  ticket ← require_ticket wave_id ticket_id
  if is_plan_gate_stage stage then modify (put_ticket (staged_ticket stage ticket)) else (do
    lift (assert_ticket_transition ticket.status (next_status stage) live.cancel_requested)
    modify (put_ticket (staged_ticket stage (status_ticket (next_status stage) ticket))))

stage_move-IsMoved :
    (live : WaveRecord) (wave_id ticket_id : Text) (stage : StageName) (c : Controller)
    → (stage_move live wave_id ticket_id stage c).0 ≡ ok tt
    → IsMoved wave_id ticket_id stage (stage_move live wave_id ticket_id stage c).1.db
unfolding require_ticket
stage_move-IsMoved live wave_id ticket_id stage c done =
    elim (Option-cases (get_ticket wave_id ticket_id c.db)) [
      | inl missing ↦ absurd (ground (arith, done, missing))
      | inr (ticket, there) ↦ elim (Bool-cases (is_plan_gate_stage stage)) [
        | inl gate ↦ rw there (
            rw gate (
              IsMoved-put_ticket wave_id ticket_id stage ticket (staged_ticket stage ticket) c.db
                there refl refl (inl gate)))
        | inr other ↦ rw there (
            rw other (
              bind-Leaves (λ c'. IsMoved wave_id ticket_id stage c'.db)
                (lift (
                  assert_ticket_transition ticket.status (next_status stage) live.cancel_requested))
                (λ _.
                  modify
                    (put_ticket (staged_ticket stage (status_ticket (next_status stage) ticket))))
                c (rw other at (rw there at done))
                (λ _ _ _.
                  IsMoved-put_ticket wave_id ticket_id stage ticket
                    (staged_ticket stage (status_ticket (next_status stage) ticket)) c.db there refl
                    refl (inr refl))))
      ]
    ]

pub move_ticket-IsMoved :
    (live : WaveRecord) (wave_id ticket_id : Text) (stage : StageName) (c : Controller)
    → (move_ticket live wave_id ticket_id stage c).0 ≡ ok tt
    → IsMoved wave_id ticket_id stage (move_ticket live wave_id ticket_id stage c).1.db
unfolding move_ticket
move_ticket-IsMoved live wave_id ticket_id stage c done =
    bind-Leaves (λ c'. IsMoved wave_id ticket_id stage c'.db) (require_ticket wave_id ticket_id) _ c
      done
      (λ first there h.
        bind-Leaves (λ c'. IsMoved wave_id ticket_id stage c'.db) (claim_move live first) _
          (require_ticket wave_id ticket_id c).1 h
          (λ _ _ h'. stage_move-IsMoved live wave_id ticket_id stage _ h'))

module _ (env : Env) (ids : FreshIds) (live : WaveRecord) (limits : WaveLimits) (ticket : TicketRun)
    (wave_id ticket_id : Text) (stage : StageName) (attempt : ℕ) (c : Controller) where
  -- the tables after the rows are in, but for the reservation and the wave
  abbrev pub AddsRows : WaveDatabase → Type 0
  AddsRows after =
      let moved = move_ticket live wave_id ticket_id stage c in
      (moved.0 ≡ ok tt)
      × (after.tickets ≡ moved.1.db.tickets)
      × (after.stages
          ≡ put stage_key merge_stage (stage_row env ids wave_id ticket_id ticket stage attempt)
              c.db.stages)
      × (after.outbox
          ≡ put outbox_key merge_outbox
              (outbox_row env ids wave_id ticket_id stage attempt (
                generation_or_one
                  (get_lease (writer_lease_key live.repo_path (ticket_scope ticket)) c.db)))
              c.db.outbox)

  insert_rows-tables :
      (insert_rows env ids live limits ticket wave_id ticket_id stage attempt c).0 ≡ ok tt
      → AddsRows (insert_rows env ids live limits ticket wave_id ticket_id stage attempt c).1.db
  unfolding insert_rows put_stage put_outbox put_budget get_lease
  insert_rows-tables done =
      ground (arith, move_ticket-SameButTickets live wave_id ticket_id stage c)

  count_launch-tables :
      (c' : Controller)
      → let after = (count_launch live wave_id c').1.db in
        (after.tickets ≡ c'.db.tickets)
        × (after.stages ≡ c'.db.stages)
        × (after.outbox ≡ c'.db.outbox)
  unfolding count_launch require_wave put_wave
  count_launch-tables c' = ground arith

  pub write_rows-tables :
      (write_rows env ids live limits ticket wave_id ticket_id stage attempt c).0 ≡ ok tt
      → AddsRows (write_rows env ids live limits ticket wave_id ticket_id stage attempt c).1.db
  unfolding write_rows
  write_rows-tables done =
      let head = insert_rows env ids live limits ticket wave_id ticket_id stage attempt c in
      elim (Result-cases head.0) [
        | inl (_, fine) ↦
            let first = insert_rows-tables fine in
            let rest = count_launch-tables head.1 in
            rw fine (first.0, rest.0 ∙ first.1, rest.1 ∙ first.2, rest.2 ∙ first.3)
        | inr (e, failed) ↦ absurd (ground arith)
      ]
