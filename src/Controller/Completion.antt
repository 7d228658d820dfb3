-- ===== src/Controller/Completion.antt =====
-- core/tick.ts: the deadline of a wave, the next ticket to run, the tickets that a dead dependency
-- takes down, and the completion of a wave. The tick itself is in Tick.
pub mod Search
pub mod Outcome
use openclaw_wave_runner.Prelude.{
  ℕ, zero, suc, ◌+◌, Bool, true, false, ◌&&◌, ◌||◌, not, Option, none, some, List, [], ◌∷◌, ◌++◌,
  length, if◌then◌else◌, filter, any, all, find?, map, is_empty, Text, text, text_eq, WaveError,
  Result, ok, err,
}
use openclaw_wave_runner.Domain.{
  WaveStatus, TicketStatus, ticket_eq, is_terminal_wave, is_terminal_ticket, WaveRecord, TicketRun,
}
use openclaw_wave_runner.StateMachine.{ticket_owners, ticket_next}
use openclaw_wave_runner.Budget.{stop_at_passed, deadline_passed, assert_budget_states_for_terminal}
use openclaw_wave_runner.Store.{WaveDatabase, list_tickets, list_budgets, put_wave, put_ticket}
use openclaw_wave_runner.Controller.Exec.{
  Env, Controller, Exec, ◌>>=◌, ◌>>◌, pure, lift, query, modify, for_each, transaction,
}
use openclaw_wave_runner.Controller.Context.{require_wave, refresh_counters}
use openclaw_wave_runner.Controller.Commands.{set_wave_status, close_budget}

-- `limits.maxWallTimeMs` plays no part.
unfoldable pub deadline_exceeded : ℕ → WaveRecord → Bool
deadline_exceeded now wave =
    stop_at_passed wave.stop_at now || deadline_passed wave.deadline_ms wave.counters.started_at now

abbrev pub is_waiting : TicketStatus → Bool
is_waiting TicketStatus.pending = true
is_waiting TicketStatus.revising = true
is_waiting _ = false

-- the set of the ids of the tickets that are DONE
abbrev pub done_ids : List TicketRun → List Text
done_ids tickets =
    map (λ (t : TicketRun). t.ticket_id)
      (filter (λ (t : TicketRun). ticket_eq t.status TicketStatus.done) tickets)

unfoldable pub next_eligible_ticket : Text → WaveDatabase → Option TicketRun
next_eligible_ticket wave_id db =
    let tickets = list_tickets wave_id db in
    find?
      (λ (ticket : TicketRun).
        is_waiting ticket.status
        && all (λ dep. any (text_eq dep) (done_ids tickets)) ticket.depends_on)
      tickets

abbrev pub is_dead : TicketStatus → Bool
is_dead TicketStatus.cancelled = true
is_dead TicketStatus.failed = true
is_dead _ = false

-- the result of a search and the ids that it has seen
abbrev pub Found : Type 0
Found = Option TicketRun × List Text

abbrev pub or_search : Found → (List Text → Found) → Found
or_search (some dead, seen) next = (some dead, seen)
or_search (none, seen) next = next seen

-- `byId.get(depId)`: the ids of a wave's tickets are distinct
abbrev pub by_id : List TicketRun → Text → Option TicketRun
by_id tickets id = find? (λ (t : TicketRun). text_eq t.ticket_id id) tickets

abbrev pub visit :
    (TicketRun → List Text → Found) → Option TicketRun → (List Text → Found) → List Text → Found
visit walk none next seen = next seen
visit walk (some dep) next seen =
    if is_dead dep.status then (some dep, seen) else or_search (walk dep seen) next

-- the loop over the dependencies
unfoldable pub search :
    (TicketRun → List Text → Found) → List TicketRun → List Text → List Text → Found
search walk tickets [] seen = (none, seen)
search walk tickets (dep ∷ deps) seen =
    visit walk (by_id tickets dep) (λ seen'. search walk tickets deps seen') seen

-- `nearestDeadAncestor` with the set that its calls share, on fuel: each call that goes on sees one
-- ticket more, so that a fuel of one more than the tickets is enough.
unfoldable pub walk : List TicketRun → ℕ → TicketRun → List Text → Found
unfolding search
walk tickets zero ticket seen = (none, seen)
walk tickets (suc fuel) ticket seen =
    if any (text_eq ticket.ticket_id) seen
    then (none, seen)
    else search (walk tickets fuel) tickets ticket.depends_on (ticket.ticket_id ∷ seen)

unfoldable pub nearest_dead_ancestor : List TicketRun → TicketRun → Option TicketRun
unfolding walk
nearest_dead_ancestor tickets ticket = (walk tickets (suc (length tickets)) ticket []).0

abbrev dependency_result : TicketRun → Text
dependency_result dead =
    text "dependency "
    ++ (dead.ticket_id
        ++ (if ticket_eq dead.status TicketStatus.cancelled
            then text " cancelled"
            else text " failed"))

abbrev pub failed_dependent : TicketRun → TicketRun → TicketRun
failed_dependent dead ticket = record ticket {
  status = TicketStatus.failed;
  outcome = some (dependency_result dead);
  owner = ticket_owners TicketStatus.failed;
  next_action = ticket_next TicketStatus.failed;
  revision = ticket.revision + 1;
}

abbrev fail_if_dead : Option TicketRun → TicketRun → Exec (Unit {0})
fail_if_dead none ticket = pure tt
fail_if_dead (some dead) ticket = modify (put_ticket (failed_dependent dead ticket))

-- A ticket's ancestors are looked up in the list that was read before the loop.
abbrev pub fail_dependent : List TicketRun → TicketRun → Exec (Unit {0})
fail_dependent tickets ticket =
    if is_terminal_ticket ticket.status
    then pure tt
    else fail_if_dead (nearest_dead_ancestor tickets ticket) ticket

unfoldable pub fail_dependents_of_dead_tickets : Text → Exec (Unit {0})
unfolding require_wave
fail_dependents_of_dead_tickets wave_id = do
  wave ← require_wave wave_id
  if wave.cancel_requested || is_terminal_wave wave.status
      then pure tt
      else do tickets ← query (list_tickets wave_id); for_each tickets (fail_dependent tickets)

abbrev is_bad_end : TicketStatus → Bool
is_bad_end TicketStatus.failed = true
is_bad_end TicketStatus.blocked = true
is_bad_end TicketStatus.budget_stopped = true
is_bad_end _ = false

abbrev pub final_status : List TicketRun → WaveStatus
final_status tickets =
    if all (λ (t : TicketRun). ticket_eq t.status TicketStatus.cancelled) tickets
    then WaveStatus.cancelled
    else if any (λ (t : TicketRun). is_bad_end t.status) tickets
    then WaveStatus.failed
    else WaveStatus.completed

abbrev pub completed_wave : Env → WaveStatus → WaveRecord → WaveRecord
completed_wave env status wave =
    let moved = set_wave_status status wave in
    record moved { revision = moved.revision + 1; updated_at = env.now }

-- The wave that is stored at the end is the one that was read at the start.
unfoldable pub complete_wave : Env → Text → WaveRecord → List TicketRun → Exec (Unit {0})
complete_wave env wave_id wave tickets = do
  budgets ← query (list_budgets wave_id)
  for_each budgets (close_budget env)
  refresh_counters wave_id
  closed ← query (list_budgets wave_id)
  lift (assert_budget_states_for_terminal closed)
  modify (put_wave (completed_wave env (final_status tickets) wave))

unfoldable pub maybe_complete_wave : Env → Text → Exec (Unit {0})
unfolding require_wave fail_dependents_of_dead_tickets complete_wave transaction
maybe_complete_wave env wave_id = transaction (do
  wave ← require_wave wave_id
  if is_terminal_wave wave.status then pure tt else do
    fail_dependents_of_dead_tickets wave_id
    tickets ← query (list_tickets wave_id)
    if is_empty tickets || not (all (λ (t : TicketRun). is_terminal_ticket t.status) tickets)
        then pure tt
        else complete_wave env wave_id wave tickets)
