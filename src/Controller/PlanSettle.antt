-- ===== src/Controller/PlanSettle.antt =====
-- core/plan-settle.ts: what a finished PLAN makes of its ticket and its wave.
use openclaw_wave_runner.Prelude.{
  Bool, true, false, ◌&&◌, ◌||◌, not, Option, none, some, get_or, is_some, List, [], ◌++◌, any,
  ◌==◌, find?, if◌then◌else◌, Text, text, text_eq,
}
use openclaw_wave_runner.Domain.{WaveStatus, TicketStatus, WaveRecord, TicketRun, DomainEvent}
use openclaw_wave_runner.Manifest.{FrozenTicket}
use openclaw_wave_runner.Store.{list_events, put_ticket, put_wave}
use openclaw_wave_runner.Controller.Exec.{
  Env, plan_gate_auto, Exec, ◌>>=◌, ◌>>◌, query, modify, when,
}
use openclaw_wave_runner.Controller.Hops.{is_set}
use openclaw_wave_runner.Controller.Reasons.{with_status}
use openclaw_wave_runner.Controller.PlanArtifact.{check_plan_artifact}
use openclaw_wave_runner.Controller.Reviews.{
  HopPayload, ReviewFiles, live_needs_ux, wave_with_status, hop_event_id, add_event,
}

abbrev frozen_hold : Option FrozenTicket → Bool
frozen_hold none = false
frozen_hold (some row) = is_set row.human_hold

abbrev held_in : Option (List FrozenTicket) → Text → Bool
held_in none ticket_id = false
held_in (some tickets) ticket_id =
    frozen_hold (find? (λ (x : FrozenTicket). text_eq x.ticket_id ticket_id) tickets)

unfoldable pub ticket_human_hold : ReviewFiles → WaveRecord → TicketRun → Bool
ticket_human_hold files wave ticket =
    is_set ticket.human_hold || held_in (files.parse_manifest wave.manifest_json) ticket.ticket_id

abbrev is_auto_of : TicketRun → Option HopPayload → Bool
is_auto_of ticket none = false
is_auto_of ticket (some p) =
    text_eq (get_or p.ticket_id []) ticket.ticket_id
    && (is_some p.ticket_id && (is_some p.revision && get_or p.revision 0 == ticket.revision))

abbrev auto_event : ReviewFiles → TicketRun → DomainEvent → Bool
auto_event files ticket ev =
    text_eq ev.type (text "plan_gate_auto")
    && is_auto_of ticket (files.parse_payload ev.payload_json)

-- `recordAuto`: once for a revision of the ticket
unfoldable pub record_auto : Env → ReviewFiles → WaveRecord → TicketRun → Text → Exec (Unit {0})
unfolding add_event
record_auto env files wave ticket reason = do
  already ← query (λ db. any (auto_event files ticket) (list_events wave.wave_id db))
  when (not already) (
      add_event env (hop_event_id wave.wave_id (text "plan-gate-auto") ticket) wave.wave_id
        (text "plan_gate_auto")
        (plan_gate_auto wave.wave_id ticket.ticket_id ticket.plan_artifact ticket.revision reason)
        (some wave.revision))

abbrev set_wave_status : Env → WaveRecord → WaveStatus → Exec (Unit {0})
set_wave_status env wave status = modify (put_wave (wave_with_status status env.now wave))

-- the ticket as `putTicketStatus(ctrl, ticket, "PLAN_REVIEW")` leaves it
abbrev pub planned_ticket : Option Text → TicketRun → TicketRun
planned_ticket plan_path ticket =
    with_status TicketStatus.plan_review none (record ticket { plan_artifact = plan_path })

-- `ticket.needsUx = true` on the object, which only a skipped review stores
abbrev pub with_ux : ReviewFiles → WaveRecord → TicketRun → TicketRun
with_ux files wave ticket =
    if live_needs_ux files ticket wave.manifest_json
    then record ticket { needs_ux = some true }
    else ticket

abbrev pub open_gate : Env → ReviewFiles → WaveRecord → TicketRun → Exec (Unit {0})
open_gate env files wave ticket =
    if is_set ticket.plan_review_skip && not (live_needs_ux files ticket wave.manifest_json)
    then (do
      modify (put_ticket (with_status TicketStatus.approved none ticket))
      record_auto env files wave (with_status TicketStatus.approved none ticket) (text "agent"))
    else set_wave_status env wave WaveStatus.awaiting_plan_gate

abbrev pub judge_plan : Env → ReviewFiles → WaveRecord → TicketRun → Option Text → Exec (Unit {0})
judge_plan env files wave ticket (some reason) =
    modify (
      put_ticket (with_status TicketStatus.failed (some (text "plan_artifact: " ++ reason)) ticket))
judge_plan env files wave ticket none =
    if ticket_human_hold files wave ticket
    then set_wave_status env wave WaveStatus.waiting_approval
    else open_gate env files wave (with_ux files wave ticket)

unfoldable pub apply_plan_success :
    Env → ReviewFiles → WaveRecord → TicketRun → Option Text → Option Text → Exec (Unit {0})
unfolding ticket_human_hold record_auto check_plan_artifact live_needs_ux
apply_plan_success env files wave ticket plan_path summary = do
  modify (put_ticket (planned_ticket plan_path ticket))
  judge_plan env files wave (planned_ticket plan_path ticket)
      (check_plan_artifact (get_or summary []) ticket.ticket_id ticket.verify_command)
