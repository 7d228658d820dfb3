-- ===== src/StateMachine.antt =====
-- core/state-machine.ts: the transition tables of waves and tickets, who owns a status and what
-- comes next, and the assertions that every status change passes.
pub mod Waves
use openclaw_wave_runner.Prelude.{
  ℕ, Bool, true, false, ◌&&◌, not, Option, none, some, List, [], ◌∷◌, ◌==◌, if◌then◌else◌, any,
  Text, text, WaveError, Result, ok, err,
}
use openclaw_wave_runner.Domain.{
  WaveStatus, TicketStatus, wave_eq, ticket_eq, is_terminal_wave, is_terminal_ticket,
}

abbrev pub wave_transitions : WaveStatus → List WaveStatus
wave_transitions WaveStatus.draft = WaveStatus.frozen ∷ WaveStatus.cancelled ∷ []
wave_transitions WaveStatus.frozen = WaveStatus.running ∷ WaveStatus.cancelled ∷ []
wave_transitions WaveStatus.running =
    WaveStatus.awaiting_plan_gate ∷ WaveStatus.waiting_approval ∷ WaveStatus.paused
    ∷ WaveStatus.completed ∷ WaveStatus.blocked ∷ WaveStatus.failed ∷ WaveStatus.budget_stopped
    ∷ WaveStatus.cancelled ∷ []
wave_transitions WaveStatus.awaiting_plan_gate =
    WaveStatus.running ∷ WaveStatus.paused ∷ WaveStatus.cancelled ∷ WaveStatus.blocked
    ∷ WaveStatus.failed ∷ WaveStatus.budget_stopped ∷ []
wave_transitions WaveStatus.waiting_approval =
    WaveStatus.running ∷ WaveStatus.paused ∷ WaveStatus.cancelled ∷ WaveStatus.blocked
    ∷ WaveStatus.failed ∷ WaveStatus.budget_stopped ∷ []
wave_transitions WaveStatus.paused =
    WaveStatus.running ∷ WaveStatus.cancelled ∷ WaveStatus.budget_stopped ∷ []
wave_transitions _ = []

abbrev pub ticket_transitions : TicketStatus → List TicketStatus
ticket_transitions TicketStatus.pending =
    TicketStatus.claimed ∷ TicketStatus.failed ∷ TicketStatus.cancelled ∷ TicketStatus.blocked
    ∷ TicketStatus.budget_stopped ∷ []
ticket_transitions TicketStatus.claimed =
    TicketStatus.planning ∷ TicketStatus.failed ∷ TicketStatus.cancelled ∷ TicketStatus.blocked
    ∷ TicketStatus.budget_stopped ∷ []
ticket_transitions TicketStatus.planning =
    TicketStatus.plan_review ∷ TicketStatus.revising ∷ TicketStatus.failed ∷ TicketStatus.cancelled
    ∷ TicketStatus.budget_stopped ∷ TicketStatus.blocked ∷ []
ticket_transitions TicketStatus.plan_review =
    TicketStatus.approved ∷ TicketStatus.revising ∷ TicketStatus.failed ∷ TicketStatus.blocked
    ∷ TicketStatus.cancelled ∷ TicketStatus.budget_stopped ∷ []
ticket_transitions TicketStatus.approved =
    TicketStatus.implementing ∷ TicketStatus.failed ∷ TicketStatus.cancelled
    ∷ TicketStatus.budget_stopped ∷ TicketStatus.blocked ∷ []
ticket_transitions TicketStatus.revising =
    TicketStatus.planning ∷ TicketStatus.failed ∷ TicketStatus.cancelled ∷ TicketStatus.blocked
    ∷ TicketStatus.budget_stopped ∷ []
ticket_transitions TicketStatus.implementing =
    TicketStatus.verifying ∷ TicketStatus.approved ∷ TicketStatus.failed ∷ TicketStatus.cancelled
    ∷ TicketStatus.budget_stopped ∷ TicketStatus.blocked ∷ []
ticket_transitions TicketStatus.verifying =
    TicketStatus.done ∷ TicketStatus.failed ∷ TicketStatus.cancelled ∷ TicketStatus.budget_stopped
    ∷ TicketStatus.blocked ∷ []
ticket_transitions _ = []

abbrev pub wave_owners : WaveStatus → Text
wave_owners WaveStatus.draft = text "operator"
wave_owners WaveStatus.frozen = text "operator"
wave_owners WaveStatus.running = text "controller"
wave_owners WaveStatus.awaiting_plan_gate = text "plan-gate"
wave_owners WaveStatus.waiting_approval = text "operator"
wave_owners WaveStatus.paused = text "operator"
wave_owners WaveStatus.completed = text "none"
wave_owners WaveStatus.blocked = text "operator"
wave_owners WaveStatus.failed = text "operator"
wave_owners WaveStatus.budget_stopped = text "operator"
wave_owners WaveStatus.cancelled = text "none"

abbrev pub wave_next : WaveStatus → Text
wave_next WaveStatus.draft = text "freeze"
wave_next WaveStatus.frozen = text "start"
wave_next WaveStatus.running = text "tick"
wave_next WaveStatus.awaiting_plan_gate = text "wake-or-approve-or-revise"
wave_next WaveStatus.waiting_approval = text "approve-or-revise"
wave_next WaveStatus.paused = text "resume-or-cancel"
wave_next _ = text "inspect"

abbrev pub ticket_owners : TicketStatus → Text
ticket_owners TicketStatus.pending = text "controller"
ticket_owners TicketStatus.claimed = text "controller"
ticket_owners TicketStatus.planning = text "plan-worker"
ticket_owners TicketStatus.plan_review = text "operator"
ticket_owners TicketStatus.approved = text "controller"
ticket_owners TicketStatus.revising = text "plan-worker"
ticket_owners TicketStatus.implementing = text "impl-worker"
ticket_owners TicketStatus.verifying = text "verifier"
ticket_owners TicketStatus.done = text "none"
ticket_owners TicketStatus.blocked = text "operator"
ticket_owners TicketStatus.failed = text "operator"
ticket_owners TicketStatus.budget_stopped = text "operator"
ticket_owners TicketStatus.cancelled = text "none"

abbrev pub ticket_next : TicketStatus → Text
ticket_next TicketStatus.pending = text "claim"
ticket_next TicketStatus.claimed = text "launch-plan"
ticket_next TicketStatus.planning = text "wait-plan"
ticket_next TicketStatus.plan_review = text "approve-or-revise"
ticket_next TicketStatus.approved = text "launch-impl"
ticket_next TicketStatus.revising = text "wait-plan"
ticket_next TicketStatus.implementing = text "wait-impl"
ticket_next TicketStatus.verifying = text "wait-verify"
ticket_next _ = text "inspect"

unfoldable pub assert_wave_transition : WaveStatus → WaveStatus → Bool → Result (Unit {0})
unfolding any
assert_wave_transition from to cancel_requested =
    if wave_eq from to
    then ok tt
    else if cancel_requested
        && (not (wave_eq to WaveStatus.cancelled) && not (is_terminal_wave from))
    then err WaveError.cancelled
    else if not (any (wave_eq to) (wave_transitions from))
    then err WaveError.illegal_transition
    else ok tt

unfoldable pub assert_ticket_transition : TicketStatus → TicketStatus → Bool → Result (Unit {0})
unfolding any
assert_ticket_transition from to cancel_requested =
    if ticket_eq from to
    then ok tt
    else if cancel_requested
        && (not (ticket_eq to TicketStatus.cancelled) && not (is_terminal_ticket from))
    then err WaveError.cancelled
    else if not (any (ticket_eq to) (ticket_transitions from))
    then err WaveError.illegal_transition
    else ok tt

unfoldable pub assert_expected_revision : ℕ → Option ℕ → Result (Unit {0})
assert_expected_revision actual none = ok tt
assert_expected_revision actual (some expected) =
    if actual == expected then ok tt else err WaveError.stale_revision
