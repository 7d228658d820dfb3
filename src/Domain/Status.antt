-- ===== src/Domain/Status.antt =====
-- domain/types.ts: the string unions, and the sets of terminal statuses. An index of each union
-- stands for JavaScript's `===` on its strings.
use openclaw_wave_runner.Prelude.{ℕ, ◌≡◌, Bool, true, false, ◌↔◌, arith, ◌==◌}

pub data WaveStatus : Type 0 where
  draft frozen running awaiting_plan_gate waiting_approval paused : WaveStatus
  completed blocked failed budget_stopped cancelled : WaveStatus

pub data TicketStatus : Type 0 where
  pending claimed planning plan_review approved revising implementing verifying : TicketStatus
  done blocked failed budget_stopped cancelled : TicketStatus

pub data StageName : Type 0 where
  plan impl verify review ux_review : StageName

pub data StageStatus : Type 0 where
  pending running succeeded failed cancelled : StageStatus

pub data BudgetState : Type 0 where
  reserved committed indeterminate released : BudgetState

pub data OutboxState : Type 0 where
  pending claimed launched reconciling settled failed : OutboxState

pub data QuotaMode : Type 0 where
  tokens usd quota : QuotaMode

abbrev wave_index : WaveStatus → ℕ
wave_index WaveStatus.draft = 0
wave_index WaveStatus.frozen = 1
wave_index WaveStatus.running = 2
wave_index WaveStatus.awaiting_plan_gate = 3
wave_index WaveStatus.waiting_approval = 4
wave_index WaveStatus.paused = 5
wave_index WaveStatus.completed = 6
wave_index WaveStatus.blocked = 7
wave_index WaveStatus.failed = 8
wave_index WaveStatus.budget_stopped = 9
wave_index WaveStatus.cancelled = 10

abbrev ticket_index : TicketStatus → ℕ
ticket_index TicketStatus.pending = 0
ticket_index TicketStatus.claimed = 1
ticket_index TicketStatus.planning = 2
ticket_index TicketStatus.plan_review = 3
ticket_index TicketStatus.approved = 4
ticket_index TicketStatus.revising = 5
ticket_index TicketStatus.implementing = 6
ticket_index TicketStatus.verifying = 7
ticket_index TicketStatus.done = 8
ticket_index TicketStatus.blocked = 9
ticket_index TicketStatus.failed = 10
ticket_index TicketStatus.budget_stopped = 11
ticket_index TicketStatus.cancelled = 12

abbrev stage_index : StageName → ℕ
stage_index plan = 0
stage_index impl = 1
stage_index verify = 2
stage_index review = 3
stage_index ux_review = 4

abbrev outbox_index : OutboxState → ℕ
outbox_index OutboxState.pending = 0
outbox_index OutboxState.claimed = 1
outbox_index OutboxState.launched = 2
outbox_index OutboxState.reconciling = 3
outbox_index OutboxState.settled = 4
outbox_index OutboxState.failed = 5

abbrev pub wave_eq : WaveStatus → WaveStatus → Bool
wave_eq a b = wave_index a == wave_index b

abbrev pub ticket_eq : TicketStatus → TicketStatus → Bool
ticket_eq a b = ticket_index a == ticket_index b

abbrev pub stage_eq : StageName → StageName → Bool
stage_eq a b = stage_index a == stage_index b

abbrev pub outbox_eq : OutboxState → OutboxState → Bool
outbox_eq a b = outbox_index a == outbox_index b

abbrev pub is_reserved : BudgetState → Bool
is_reserved reserved = true
is_reserved _ = false

-- `TERMINAL_WAVE.has(status)`
abbrev pub is_terminal_wave : WaveStatus → Bool
is_terminal_wave WaveStatus.completed = true
is_terminal_wave WaveStatus.blocked = true
is_terminal_wave WaveStatus.failed = true
is_terminal_wave WaveStatus.budget_stopped = true
is_terminal_wave WaveStatus.cancelled = true
is_terminal_wave _ = false

-- `TERMINAL_TICKET.has(status)`
abbrev pub is_terminal_ticket : TicketStatus → Bool
is_terminal_ticket TicketStatus.done = true
is_terminal_ticket TicketStatus.blocked = true
is_terminal_ticket TicketStatus.failed = true
is_terminal_ticket TicketStatus.budget_stopped = true
is_terminal_ticket TicketStatus.cancelled = true
is_terminal_ticket _ = false

-- the indices tell the members apart
pub wave_eq_iff : (a b : WaveStatus) → (wave_eq a b ≡ true) ↔ (a ≡ b)
wave_eq_iff a b = ground arith

pub ticket_eq_iff : (a b : TicketStatus) → (ticket_eq a b ≡ true) ↔ (a ≡ b)
ticket_eq_iff a b = ground arith

pub stage_eq_iff : (a b : StageName) → (stage_eq a b ≡ true) ↔ (a ≡ b)
stage_eq_iff a b = ground arith
