-- ===== src/Controller/Approval.antt =====
-- Approval of a ticket's plan (`approveWave` of core/wave-commands.ts), and the event that it
-- records.
use openclaw_wave_runner.Prelude.{
  ℕ, ◌≡◌, ◌≢◌, inl, inr, refl, true, false, none, some, is_some, [], ◌∷◌, Text, ok, err, arith,
  WaveError, Option-cases, text,
}
use openclaw_wave_runner.Domain.{TicketStatus, TicketRun, WaveRecord}
use openclaw_wave_runner.StateMachine.{assert_ticket_transition, assert_expected_revision}
use openclaw_wave_runner.Store.{
  WaveDatabase, get_wave, put_wave, get_ticket, put_ticket, get_event, insert_event, ticket_key,
  merge_ticket,
}
use openclaw_wave_runner.Store.Table.{key_eq_refl}
use openclaw_wave_runner.Store.Rows.{get-put, get-some}
use openclaw_wave_runner.Controller.Exec.{Env, Controller, approval}
use openclaw_wave_runner.Controller.Context.{event_row}
use openclaw_wave_runner.Controller.Mutation.{get_event-append}
use openclaw_wave_runner.Controller.Commands.{moved_ticket, approve_wave}

-- Waiting for review, at work, or approved already.
pub data CanBeApproved : TicketStatus → Type 0 where
  waiting : CanBeApproved TicketStatus.plan_review
  at_work : CanBeApproved TicketStatus.implementing
  again : CanBeApproved TicketStatus.approved

-- What a successful approval found and did.
pub record IsApproved (wave_id ticket_id : Text) (expected : ℕ) (event_id : Text)
    (before after : WaveDatabase) : Type 0 where
  pub wave : WaveRecord
  pub ticket : TicketRun
  pub wave_found : get_wave wave_id before ≡ some wave
  pub ticket_found : get_ticket wave_id ticket_id before ≡ some ticket
  pub not_cancelled : wave.cancel_requested ≡ false
  pub at_revision : ticket.revision ≡ expected
  pub may_approve : CanBeApproved ticket.status
  pub event_new : is_some (get_event event_id before) ≡ false
  pub event_kept : is_some (get_event event_id after) ≡ true
  pub approved :
      get_ticket wave_id ticket_id after ≡ some (moved_ticket TicketStatus.approved ticket)

-- an event id that is taken is refused
refused :
    (env : Env) (wave_id event_id ticket_id : Text) (expected : ℕ) (c : Controller)
    → is_some (get_event event_id c.db) ≡ true
    → approve_wave env wave_id ticket_id expected event_id c ≡ (err WaveError.duplicate_event, c)
unfolding approve_wave insert_event
refused env wave_id event_id ticket_id expected c taken = ground arith

module _ (env : Env) (wave_id ticket_id : Text) (expected : ℕ) (event_id : Text)
    (c : Controller) where
  no_wave :
      get_wave wave_id c.db ≡ none
      → (approve_wave env wave_id ticket_id expected event_id c).0 ≢ ok tt
  unfolding approve_wave insert_event get_event get_wave
  no_wave missing h = ground arith

  no_ticket :
      get_ticket wave_id ticket_id c.db ≡ none
      → (approve_wave env wave_id ticket_id expected event_id c).0 ≢ ok tt
  unfolding approve_wave insert_event get_event get_wave get_ticket
  no_ticket missing h = ground arith

  module _ (wave : WaveRecord) (ticket : TicketRun) (there : get_wave wave_id c.db ≡ some wave)
      (here : get_ticket wave_id ticket_id c.db ≡ some ticket)
      (h : (approve_wave env wave_id ticket_id expected event_id c).0 ≡ ok tt) where
    guards :
        (wave.cancel_requested ≡ false)
        × (ticket.revision ≡ expected)
        × (assert_ticket_transition ticket.status TicketStatus.approved wave.cancel_requested
            ≡ ok tt)
        × (is_some (get_event event_id c.db) ≡ false)
    unfolding approve_wave insert_event get_event get_wave get_ticket assert_expected_revision
    guards = ground arith

    writes :
        let after = (approve_wave env wave_id ticket_id expected event_id c).1.db in
        (get_ticket wave_id ticket_id after ≡ some (moved_ticket TicketStatus.approved ticket))
        × (is_some (get_event event_id after) ≡ true)
    unfolding approve_wave insert_event get_event get_wave get_ticket put_ticket put_wave
    writes = ground (
      arith,
      get-some ticket_key c.db.tickets here,
      get-put ticket_key merge_ticket (λ old row. refl) (wave_id ∷ ticket_id ∷ [])
          (moved_ticket TicketStatus.approved ticket) c.db.tickets,
      key_eq_refl (wave_id ∷ ticket_id ∷ []),
      get_event-append
          (event_row env event_id wave_id (text "approve") (approval ticket_id expected))
          c.db.events,
    )

  may_be_approved :
      (status : TicketStatus)
      → assert_ticket_transition status TicketStatus.approved false ≡ ok tt
      → CanBeApproved status
  unfolding assert_ticket_transition
  may_be_approved TicketStatus.plan_review h = CanBeApproved.waiting
  may_be_approved TicketStatus.implementing h = CanBeApproved.at_work
  may_be_approved TicketStatus.approved h = CanBeApproved.again
  may_be_approved _ h = ground arith

  -- An approval that succeeds found its wave uncancelled and its ticket at the expected revision and
  -- in a status from which it may become approved; its event was new and is recorded, and the ticket
  -- is stored as approved with the next revision.
  pub approve_wave-IsApproved :
      (approve_wave env wave_id ticket_id expected event_id c).0 ≡ ok tt
      → IsApproved wave_id ticket_id expected event_id c.db
          (approve_wave env wave_id ticket_id expected event_id c).1.db
  approve_wave-IsApproved h = elim (Option-cases (get_wave wave_id c.db)) [
    | inl missing ↦ absurd (no_wave missing h)
    | inr (wave, there) ↦ elim (Option-cases (get_ticket wave_id ticket_id c.db)) [
      | inl missing ↦ absurd (no_ticket missing h)
      | inr (ticket, here) ↦
          let (live, revision, moves, fresh) = guards wave ticket there here h in
          let (stored, kept) = writes wave ticket there here h in
          record {
            wave = wave;
            ticket = ticket;
            wave_found = there;
            ticket_found = here;
            not_cancelled = live;
            at_revision = revision;
            may_approve = may_be_approved ticket.status (rw live at moves);
            event_new = fresh;
            event_kept = kept;
            approved = stored;
          }
    ]
  ]

  event_kept_anyway :
      is_some (get_event event_id (approve_wave env wave_id ticket_id expected event_id c).1.db)
      ≡ true
  unfolding approve_wave insert_event get_event put_wave put_ticket
  event_kept_anyway = ground (
    arith,
    get_event-append (event_row env event_id wave_id (text "approve") (approval ticket_id expected))
        c.db.events,
  )

  -- Whatever comes of an approval, its event is recorded afterwards, and any further approval of
  -- the wave under that event id is refused as a duplicate and changes nothing.
  pub approve_wave_spends_event :
      let after = (approve_wave env wave_id ticket_id expected event_id c).1 in
      (is_some (get_event event_id after.db) ≡ true)
      × ((ticket_id' : Text) (expected' : ℕ)
          → approve_wave env wave_id ticket_id' expected' event_id after
            ≡ (err WaveError.duplicate_event, after))
  approve_wave_spends_event =
      let after = (approve_wave env wave_id ticket_id expected event_id c).1 in
      let kept = event_kept_anyway in
      (kept, λ ticket_id' expected'. refused env wave_id event_id ticket_id' expected' after kept)
