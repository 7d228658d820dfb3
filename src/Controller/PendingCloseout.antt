-- ===== src/Controller/PendingCloseout.antt =====
-- core/pending-closeout.ts: each tick tries again to land or apply what is still open.
use openclaw_wave_runner.Prelude.{
  Bool, ◌&&◌, ◌||◌, not, Option, none, some, get_or, is_some, List, [], ◌∷◌, ◌++◌, leb,
  if◌then◌else◌, filter, Text, text, text_eq, includes,
}
use openclaw_wave_runner.Domain.{
  StageName, stage_eq, TicketStatus, ticket_eq, OutboxState, outbox_eq, WaveRecord, TicketRun,
  LaunchOutbox,
}
use openclaw_wave_runner.Store.{WaveDatabase, list_tickets, list_outbox}
use openclaw_wave_runner.Controller.Exec.{Env, Exec, ◌>>=◌, pure, query, for_each}
use openclaw_wave_runner.Controller.Context.{require_wave}
use openclaw_wave_runner.Controller.Leases.{truthy}
use openclaw_wave_runner.Controller.Workspace.{Workspace}
use openclaw_wave_runner.Controller.ApplyCloseout.{wants_apply, apply_on_exhausted_impl}
use openclaw_wave_runner.Controller.LandCloseout.{finalize_impl_land}

abbrev is_settled_impl : Text → LaunchOutbox → Bool
is_settled_impl ticket_id item =
    text_eq item.ticket_id ticket_id
    && (stage_eq item.stage StageName.impl && outbox_eq item.state OutboxState.settled)

-- the head of the rows sorted by falling attempts, which a stable sort leaves before its equals
abbrev latest : List LaunchOutbox → Option LaunchOutbox
latest [] = none
latest (item ∷ items) = elim (latest items) [
  | none ↦ some item
  | some best ↦ if leb best.attempt item.attempt then some item else some best
]

unfoldable pub latest_settled_impl : Text → Text → WaveDatabase → Option LaunchOutbox
latest_settled_impl wave_id ticket_id db =
    latest (filter (is_settled_impl ticket_id) (list_outbox wave_id db))

unfoldable pub synthetic_outbox : TicketRun → Option LaunchOutbox → LaunchOutbox
synthetic_outbox ticket (some item) = item
synthetic_outbox ticket none = record {
  outbox_id = ticket.wave_id ++ (text ":obx:closeout:" ++ ticket.ticket_id);
  wave_id = ticket.wave_id;
  ticket_id = ticket.ticket_id;
  stage = StageName.impl;
  attempt = 1;
  idempotency_key = ticket.wave_id ++ (text ":" ++ (ticket.ticket_id ++ text ":CLOSEOUT:1"));
  state = OutboxState.settled;
  fencing_generation = 1;
  claimed_by = none;
  claimed_at = none;
  receipt_json = none;
  error = none;
  created_at = 0;
  updated_at = 0;
}

abbrev pub apply_settled : Env → Workspace → Option LaunchOutbox → Exec (Unit {0})
apply_settled env ws none = pure tt
apply_settled env ws (some settled) = apply_on_exhausted_impl env ws settled

-- what the loop does with a ticket of the list that was read before it
abbrev pub close_out : Env → Workspace → WaveRecord → Text → TicketRun → Exec (Unit {0})
close_out env ws wave wave_id ticket =
    if ticket_eq ticket.status TicketStatus.verifying
    then (do
      settled ← query (latest_settled_impl wave_id ticket.ticket_id)
      finalize_impl_land env ws (synthetic_outbox ticket settled))
    else if not
          (ticket_eq ticket.status TicketStatus.failed && is_some (truthy ticket.impl_worktree))
        || (includes (text "applied") (get_or ticket.outcome [])
            || not (wants_apply ws wave ticket))
    then pure tt
    else do
      settled ← query (latest_settled_impl wave_id ticket.ticket_id)
      apply_settled env ws settled

unfoldable pub advance_pending_closeouts : Env → Workspace → Text → Exec (Unit {0})
unfolding require_wave latest_settled_impl synthetic_outbox finalize_impl_land
    apply_on_exhausted_impl wants_apply includes
advance_pending_closeouts env ws wave_id = do
  wave ← require_wave wave_id
  tickets ← query (list_tickets wave_id)
  for_each tickets (close_out env ws wave wave_id)
