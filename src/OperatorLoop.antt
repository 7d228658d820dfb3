-- ===== src/OperatorLoop.antt =====
-- core/operator-loop.ts: what the operator's loop does next for a wave, and when it gives a wave up as
-- stuck. The fingerprint, a hash, is a text that the caller brings.
pub mod Stuck
use openclaw_wave_runner.Prelude.{
  ℕ, ◌+◌, Bool, true, false, ◌&&◌, ◌||◌, not, List, Option, any, leb, ltb, if◌then◌else◌, Text,
  text_eq,
}
use openclaw_wave_runner.Domain.{
  WaveStatus, TicketStatus, OutboxState, wave_eq, ticket_eq, outbox_eq,
}

pub data OperatorLoopDecision : Type 0 where
  tick wait_plan_gate stop_human stop_paused stop_terminal start : OperatorLoopDecision

unfoldable pub operator_loop_decision : WaveStatus → OperatorLoopDecision
operator_loop_decision WaveStatus.draft = OperatorLoopDecision.start
operator_loop_decision WaveStatus.frozen = OperatorLoopDecision.start
operator_loop_decision WaveStatus.running = OperatorLoopDecision.tick
operator_loop_decision WaveStatus.awaiting_plan_gate = OperatorLoopDecision.wait_plan_gate
operator_loop_decision WaveStatus.waiting_approval = OperatorLoopDecision.stop_human
operator_loop_decision WaveStatus.paused = OperatorLoopDecision.stop_paused
operator_loop_decision _ = OperatorLoopDecision.stop_terminal

unfoldable pub is_idle_gate_status : WaveStatus → Bool
is_idle_gate_status status =
    wave_eq status WaveStatus.awaiting_plan_gate || wave_eq status WaveStatus.waiting_approval

pub record ProgressTicket : Type 0 where
  pub ticket_id : Text
  pub status : TicketStatus
  pub revision : ℕ
  pub outcome : Option Text  -- `result`

pub record ProgressOutbox : Type 0 where
  pub outbox_id : Text
  pub state : OutboxState

pub record ProgressLease : Type 0 where
  pub resource_key : Text
  pub holder : Text
  pub ticket_id : Option Text

pub record ProgressView : Type 0 where
  pub status : WaveStatus  -- `wave.status`
  pub tickets : List ProgressTicket
  pub outbox : List ProgressOutbox
  pub leases : List ProgressLease

-- `LIVE_OUTBOX_STATES.includes(state)`
abbrev is_live : OutboxState → Bool
is_live state =
    outbox_eq state OutboxState.pending
    || (outbox_eq state OutboxState.claimed
        || (outbox_eq state OutboxState.launched || outbox_eq state OutboxState.reconciling))

unfoldable pub has_live_outbox : ProgressView → Bool
unfolding any
has_live_outbox view = any (λ (item : ProgressOutbox). is_live item.state) view.outbox

unfoldable pub has_pending_closeout : ProgressView → Bool
unfolding any
has_pending_closeout view =
    any (λ (ticket : ProgressTicket). ticket_eq ticket.status TicketStatus.verifying) view.tickets

unfoldable pub has_live_work : ProgressView → Bool
unfolding has_live_outbox has_pending_closeout
has_live_work view = has_live_outbox view || has_pending_closeout view

-- the new count, and whether the wave is stuck
unfoldable pub next_stuck_count : Text → Text → ℕ → ℕ → WaveStatus → Bool → ℕ × Bool
next_stuck_count prev next n threshold status live =
    if not (wave_eq status WaveStatus.running)
    then (0, false)
    else if live
    then (0, false)
    else if not (text_eq next prev)
    then (0, false)
    else (n + 1, ltb 0 threshold && leb threshold (n + 1))
