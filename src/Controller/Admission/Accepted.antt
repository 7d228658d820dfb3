-- ===== src/Controller/Admission/Accepted.antt =====
-- When `queueStage` (core/admission.ts) admits a stage: the PLAN, VERIFY and review stages.
use openclaw_wave_runner.Prelude.{
  ◌⊎◌, inl, inr, if◌then◌else◌, ◌+◌, ◌≤◌, ◌≡◌, refl, ap, ◌∙◌, sym, Result, true, false, none, some,
  [], ◌∷◌, get_or, Text, text, ok, arith,
}
use mathlib.Core.Path.{subst}
use openclaw_wave_runner.Domain.{
  ticket_eq, TicketStatus, StageName, stage_eq, TicketRun, WaveRecord,
}
use openclaw_wave_runner.StateMachine.{assert_ticket_transition}
use openclaw_wave_runner.Budget.{admit_reservation, reservation_ceiling}
use openclaw_wave_runner.Budget.Admission.{IsAdmissible, admit_reservation_iff}
use openclaw_wave_runner.StagePaths.{is_plan_gate_stage, idempotency_key}
use openclaw_wave_runner.Store.{
  merge_ticket, get_wave, get_ticket, put_ticket, put_stage, put_outbox, put_budget, list_budgets,
  wave_key, get_outbox_by_idempotency, get_stage_by_idempotency, ticket_key,
}
use openclaw_wave_runner.Store.Table.{get}
use openclaw_wave_runner.Store.Rows.{get-some}
use openclaw_wave_runner.Controller.Exec.{Env, Controller}
use openclaw_wave_runner.Controller.Context.{require_ticket, require_wave}
use openclaw_wave_runner.Controller.Rows.{
  next_status, FreshIds, write_rows, insert_rows, move_ticket, claimed_ticket,
}
use openclaw_wave_runner.Controller.Admission.{
  admit_stage, reserve_stage, queue_stage, attempt_of, slots_taken,
}
use openclaw_wave_runner.Controller.Admission.Outcomes.{past_guards, IsQueued}
use openclaw_wave_runner.Controller.Admission.Steps.{
  launch_tail, insert_rows-waves, move_ticket-SameButTickets,
}
use openclaw_wave_runner.Controller.Admission.Tables.{get_ticket-put_ticket}
use openclaw_wave_runner.Controller.Admission.Written.{AreNew, IsWritten, queued-IsWritten}

-- the stages other than IMPL that a ticket can be put on
pub data CanQueue : StageName → TicketStatus → Type 0 where
  plan_pending : CanQueue StageName.plan TicketStatus.pending
  plan_claimed : CanQueue StageName.plan TicketStatus.claimed
  plan_planning : CanQueue StageName.plan TicketStatus.planning
  plan_revising : CanQueue StageName.plan TicketStatus.revising
  verify_implementing : CanQueue StageName.verify TicketStatus.implementing
  verify_verifying : CanQueue StageName.verify TicketStatus.verifying
  review_any : (s : TicketStatus) → CanQueue StageName.review s
  ux_review_any : (s : TicketStatus) → CanQueue StageName.ux_review s

CanQueue-other :
    {stage : StageName} {s : TicketStatus}
    → CanQueue stage s
    → stage_eq stage StageName.impl ≡ false
CanQueue-other plan_pending = refl
CanQueue-other plan_claimed = refl
CanQueue-other plan_planning = refl
CanQueue-other plan_revising = refl
CanQueue-other verify_implementing = refl
CanQueue-other verify_verifying = refl
CanQueue-other (review_any s) = refl
CanQueue-other (ux_review_any s) = refl

admit_stage_ok :
    (env : Env) (wave : WaveRecord) (ticket : TicketRun) (wave_id ticket_id : Text)
    (stage : StageName) (c : Controller)
    → stage_eq stage StageName.impl ≡ false
    → get_wave wave_id c.db ≡ some wave
    → wave.cancel_requested ≡ false
    → admit_reservation wave
        (list_budgets wave_id c.db)
        wave.limits.per_stage_reservation_tokens
        wave.limits.per_stage_reservation_cost_micros
        env.now
        true
      ≡ ok tt
    → admit_stage env wave.limits ticket wave_id ticket_id stage c ≡ (ok (wave, none), c)
unfolding admit_stage reservation_ceiling require_wave
admit_stage_ok env wave ticket wave_id ticket_id stage c other there live fits = ground arith

claimed_found :
    (wave_id ticket_id : Text) (c : Controller) (ticket : TicketRun)
    → get_ticket wave_id ticket_id c.db ≡ some ticket
    → get_ticket wave_id ticket_id (put_ticket (claimed_ticket ticket) c.db)
      ≡ some (merge_ticket ticket (claimed_ticket ticket))
unfolding get_ticket
claimed_found wave_id ticket_id c ticket there =
    get_ticket-put_ticket wave_id ticket_id ticket (claimed_ticket ticket) c.db there
      (get-some ticket_key c.db.tickets there).1

-- the status that the ticket has when the stage's status is asked for
abbrev arrived : TicketStatus → TicketStatus
arrived s = if ticket_eq s TicketStatus.pending then TicketStatus.claimed else s

CanQueue-accepts :
    {stage : StageName} {s : TicketStatus}
    → CanQueue stage s
    → (is_plan_gate_stage stage ≡ true)
      ⊎ ((is_plan_gate_stage stage ≡ false)
          × (assert_ticket_transition (arrived s) (next_status stage) false ≡ ok tt))
unfolding assert_ticket_transition
CanQueue-accepts plan_pending = inr (refl, refl)
CanQueue-accepts plan_claimed = inr (refl, refl)
CanQueue-accepts plan_planning = inr (refl, refl)
CanQueue-accepts plan_revising = inr (refl, refl)
CanQueue-accepts verify_implementing = inr (refl, refl)
CanQueue-accepts verify_verifying = inr (refl, refl)
CanQueue-accepts (review_any s) = inl refl
CanQueue-accepts (ux_review_any s) = inl refl

move_ticket_ok :
    (live : WaveRecord) (wave_id ticket_id : Text) (stage : StageName) (c : Controller)
    (ticket : TicketRun) {s : TicketStatus}
    → live.cancel_requested ≡ false
    → get_ticket wave_id ticket_id c.db ≡ some ticket
    → ticket.status ≡ s
    → CanQueue stage s
    → (move_ticket live wave_id ticket_id stage c).0 ≡ ok tt
unfolding move_ticket require_ticket assert_ticket_transition
move_ticket_ok live wave_id ticket_id stage c ticket calm there at_ can =
    ground (arith, claimed_found wave_id ticket_id c ticket there, CanQueue-accepts can)

module _ (env : Env) (ids : FreshIds) (wave_id ticket_id : Text) (stage : StageName)
    (c : Controller) (wave : WaveRecord) (ticket : TicketRun) (calm : wave.cancel_requested ≡ false)
    (there : get_wave wave_id c.db ≡ some wave)
    (here : get_ticket wave_id ticket_id c.db ≡ some ticket)
    (can : CanQueue stage ticket.status) where
  abbrev key : Text
  key = idempotency_key wave_id ticket_id stage (attempt_of wave_id ticket_id stage c.db)

  insert_rows_ok :
      get_outbox_by_idempotency key c.db ≡ none
      → get_stage_by_idempotency key c.db ≡ none
      → (insert_rows env ids wave wave.limits ticket wave_id ticket_id stage
          (attempt_of wave_id ticket_id stage c.db)
          c).0
        ≡ ok tt
  unfolding insert_rows put_stage put_outbox put_budget get_outbox_by_idempotency
      get_stage_by_idempotency
  insert_rows_ok unused new_key = ground (
    arith,
    move_ticket_ok wave wave_id ticket_id stage c ticket calm here refl can,
    move_ticket-SameButTickets wave wave_id ticket_id stage c,
  )

  write_rows_ok :
      get_outbox_by_idempotency key c.db ≡ none
      → get_stage_by_idempotency key c.db ≡ none
      → (write_rows env ids wave wave.limits ticket wave_id ticket_id stage
          (attempt_of wave_id ticket_id stage c.db)
          c).0
        ≡ ok tt
  unfolding write_rows get_wave
  write_rows_ok unused new_key =
      let head =
        insert_rows env ids wave wave.limits ticket wave_id ticket_id stage
          (attempt_of wave_id ticket_id stage c.db) c in
      rw (insert_rows_ok unused new_key)
        (launch_tail wave wave_id head.1 (
          ap (get wave_key (wave_id ∷ [])) (
            insert_rows-waves env ids wave wave.limits ticket wave_id ticket_id stage
              (attempt_of wave_id ticket_id stage c.db) c)
          ∙ there)).0

-- A stage other than IMPL that fits the status of its ticket is admitted, if the wave is there and not
-- cancelled, the ticket is there, retries and a slot of the provider are left, the reservation is
-- admissible (in time, a launch left, and the plain sums of tokens and cost under their ceilings), and
-- the drawn ids and the stage's key are new: `queueStage` succeeds, and the whole stage is written.
pub queue_stage-IsWritten :
    (env : Env) (ids : FreshIds) (wave_id ticket_id : Text) (stage : StageName) (c : Controller)
    (wave : WaveRecord) (ticket : TicketRun)
    → get_wave wave_id c.db ≡ some wave
    → get_ticket wave_id ticket_id c.db ≡ some ticket
    → CanQueue stage ticket.status
    → IsAdmissible wave
        (list_budgets wave_id c.db)
        wave.limits.per_stage_reservation_tokens
        wave.limits.per_stage_reservation_cost_micros
        env.now
        true
    → attempt_of wave_id ticket_id stage c.db ≤ wave.limits.max_retries_per_stage + 1
    → slots_taken env wave (get_or ticket.provider (text "mock")) c.db ≡ false
    → get_outbox_by_idempotency
        (idempotency_key wave_id ticket_id stage (attempt_of wave_id ticket_id stage c.db))
        c.db
      ≡ none
    → get_stage_by_idempotency
        (idempotency_key wave_id ticket_id stage (attempt_of wave_id ticket_id stage c.db))
        c.db
      ≡ none
    → AreNew ids c.db
    → let after = queue_stage env ids wave_id ticket_id stage c in
      (after.0 ≡ ok tt) × IsWritten env wave_id ticket_id stage c.db after.1.db
unfolding reserve_stage
queue_stage-IsWritten env ids wave_id ticket_id stage c wave ticket there here can fits retries slot
      unused new_key new =
    let attempt = attempt_of wave_id ticket_id stage c.db in
    let result =
      past_guards env ids wave_id ticket_id stage c wave ticket there here fits.live (ground arith)
        slot unused in
    let admitted =
      admit_stage_ok env wave ticket wave_id ticket_id stage c (CanQueue-other can) there fits.live
        ((admit_reservation_iff wave (list_budgets wave_id c.db)
            wave.limits.per_stage_reservation_tokens wave.limits.per_stage_reservation_cost_micros
            env.now true).1
          fits) in
    let written =
      write_rows_ok env ids wave_id ticket_id stage c wave ticket fits.live there here can unused
        new_key in
    let queued : IsQueued env ids wave_id ticket_id stage c = record {
      wave = wave;
      ticket = ticket;
      wave_found = there;
      ticket_found = here;
      not_cancelled = fits.live;
      retries_left = retries;
      slot_free = slot;
      key_unused = unused;
      reserved = record {
        live = wave;
        auth = none;
        admitted = rw admitted refl;
        rows = rw admitted written;
        committed = rw admitted (rw written refl);
      };
      result = result;
    } in
    subst
      (λ (r : Result (Unit {0}) × Controller).
        (r.0 ≡ ok tt) × IsWritten env wave_id ticket_id stage c.db r.1.db)
      (sym (queued.result ∙ queued.reserved.committed))
      (refl, queued-IsWritten env ids wave_id ticket_id stage c new queued)
