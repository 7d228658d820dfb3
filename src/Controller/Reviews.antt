-- ===== src/Controller/Reviews.antt =====
-- What the two reviews of a plan share (core/ux-review-settle.ts, core/plan-review-settle.ts,
-- core/ux-review-skip.ts): which plan is under review, whether its review was launched or is in flight,
-- and how a verdict moves the ticket and the wave. What files, `JSON.parse` and the environment answer is
-- a parameter.
use openclaw_wave_runner.Prelude.{
  ℕ, ◌+◌, Bool, true, false, ◌&&◌, ◌||◌, not, Option, none, some, List, [], ◌∷◌, ◌++◌, length, ltb,
  ◌==◌, if◌then◌else◌, filter, any, Text, text, text_eq, is_empty,
}
use openclaw_wave_runner.Prelude.Decimal.{decimal}
use openclaw_wave_runner.Domain.{
  StageName, stage_eq, StageStatus, WaveStatus, TicketStatus, WaveRecord, TicketRun, StageRun,
  LaunchOutbox, DomainEvent,
}
use openclaw_wave_runner.Manifest.{FrozenTicket}
use openclaw_wave_runner.StateMachine.{
  wave_owners, wave_next, assert_wave_transition, assert_ticket_transition,
}
use openclaw_wave_runner.Store.{
  WaveDatabase, list_stages, list_events, list_outbox, put_ticket, put_wave, insert_event,
}
use openclaw_wave_runner.Controller.Exec.{
  Payload, Env, Exec, ◌>>=◌, ◌>>◌, pure, lift, query, modify, when,
}
use openclaw_wave_runner.Controller.Context.{
  event_row, require_wave, require_ticket, refresh_counters,
}
use openclaw_wave_runner.Controller.Rows.{FreshIds}
use openclaw_wave_runner.Controller.Hops.{QueueAdmitResult, queued, deferred, stopped, is_set}
use openclaw_wave_runner.Controller.Adapters.{Verdict}
use openclaw_wave_runner.Controller.FailLaunch.{is_closed_outbox}
use openclaw_wave_runner.Controller.Reasons.{with_status}

-- what `JSON.parse` finds in the payload of an event
pub record HopPayload : Type 0 where
  pub ticket_id : Option Text
  pub plan_attempt : Option ℕ
  pub revision : Option ℕ

pub record ReviewFiles : Type 0 where
  -- `resolveCrawmakForge` of a repository, and `resolveMonaWorkspace`
  pub forge_of : Text → Option Text
  pub mona : Option Text
  -- `checkPlanReview` and `checkUxReview` of a root and a ticket, `none` where they are not ok
  pub check_plan_review : Option Text → Text → Option Verdict
  pub check_ux_review : Option Text → Text → Option Verdict
  -- why `extractImplContract` of the review refuses
  pub contract_refusal : Option Text → Text → Option Text
  -- `checkPlanStamp(planTextOf(ticket))`, and `resolveExistingUxSpec` for a ticket and its repository
  pub check_plan_stamp : Option Text → Bool
  pub existing_ux_spec : TicketRun → Text → Option Text
  -- `JSON.parse`
  pub parse_manifest : Text → Option (List FrozenTicket)
  pub parse_payload : Text → Option HopPayload
  -- the ids that `queueStage` draws
  pub fresh : WaveDatabase → FreshIds

abbrev is_for_ux : Text → FrozenTicket → Bool
is_for_ux ticket_id row = text_eq row.ticket_id ticket_id && is_set row.needs_ux

abbrev any_for_ux : Option (List FrozenTicket) → Text → Bool
any_for_ux none ticket_id = false
any_for_ux (some tickets) ticket_id = any (is_for_ux ticket_id) tickets

unfoldable pub live_needs_ux : ReviewFiles → TicketRun → Text → Bool
live_needs_ux files ticket manifest_json =
    is_set ticket.needs_ux
    || (not (is_empty manifest_json)
        && any_for_ux (files.parse_manifest manifest_json) ticket.ticket_id)

-- what the row lost comes back from the frozen manifest
abbrev pub mark_needs_ux : ReviewFiles → TicketRun → Text → Exec (Unit {0})
mark_needs_ux files ticket manifest_json =
    when (live_needs_ux files ticket manifest_json && not (is_set ticket.needs_ux))
      (modify (put_ticket (record ticket { needs_ux = some true })))

abbrev succeeded_plan : Text → StageRun → Bool
succeeded_plan ticket_id stage =
    text_eq stage.ticket_id ticket_id
    && (stage_eq stage.stage StageName.plan
        && elim stage.status [ StageStatus.succeeded ↦ true | _ ↦ false ])

-- `reduce((max, s) => Math.max(max, s.attempt), 0)`
unfoldable pub max_attempt : ℕ → List StageRun → ℕ
max_attempt max [] = max
max_attempt max (stage ∷ stages) =
    max_attempt (if ltb max stage.attempt then stage.attempt else max) stages

unfoldable pub latest_plan_attempt : Text → Text → WaveDatabase → ℕ
unfolding max_attempt
latest_plan_attempt wave_id ticket_id db =
    max_attempt 0 (filter (succeeded_plan ticket_id) (list_stages wave_id db))

abbrev same_text : Option Text → Text → Bool
same_text none t = false
same_text (some s) t = text_eq s t

abbrev same_number : Option ℕ → ℕ → Bool
same_number none n = false
same_number (some m) n = m == n

abbrev pub is_hop_of : Option HopPayload → Text → ℕ → Bool
is_hop_of none ticket_id plan_attempt = false
is_hop_of (some p) ticket_id plan_attempt =
    same_text p.ticket_id ticket_id && same_number p.plan_attempt plan_attempt

unfoldable pub has_hop_launch : ReviewFiles → Text → Text → Text → ℕ → WaveDatabase → Bool
has_hop_launch files wave_id ticket_id type plan_attempt db =
    any
      (λ (ev : DomainEvent).
        text_eq ev.type type
        && is_hop_of (files.parse_payload ev.payload_json) ticket_id plan_attempt)
      (list_events wave_id db)

abbrev is_about : Option HopPayload → Text → Bool
is_about none ticket_id = false
is_about (some p) ticket_id = same_text p.ticket_id ticket_id

abbrev pub events_of : ReviewFiles → Text → Text → DomainEvent → Bool
events_of files type ticket_id ev =
    text_eq ev.type type && is_about (files.parse_payload ev.payload_json) ticket_id

-- `reviseCount`, `uxReviseCount`
unfoldable pub revise_count : ReviewFiles → Text → Text → Text → WaveDatabase → ℕ
revise_count files type wave_id ticket_id db =
    length (filter (events_of files type ticket_id) (list_events wave_id db))

abbrev open_stage : Text → StageName → LaunchOutbox → Bool
open_stage ticket_id stage item =
    text_eq item.ticket_id ticket_id
    && (stage_eq item.stage stage && not (is_closed_outbox item.state))

unfoldable pub open_stage_outbox : Text → Text → StageName → WaveDatabase → Bool
open_stage_outbox wave_id ticket_id stage db =
    any (open_stage ticket_id stage) (list_outbox wave_id db)

abbrev busy_stage : Text → StageName → StageRun → Bool
busy_stage ticket_id stage run =
    text_eq run.ticket_id ticket_id
    && (stage_eq run.stage stage
        && elim run.status [ StageStatus.pending ↦ true | StageStatus.running ↦ true | _ ↦ false ])

unfoldable pub stage_busy : Text → Text → StageName → WaveDatabase → Bool
stage_busy wave_id ticket_id stage db = any (busy_stage ticket_id stage) (list_stages wave_id db)

-- `open.length === 0`
unfoldable pub none_open : Text → WaveDatabase → Bool
none_open wave_id db =
    not (any (λ (item : LaunchOutbox). not (is_closed_outbox item.state)) (list_outbox wave_id db))

-- `putTicketStatus`: of the row as it is now
unfoldable pub put_live_status : Text → Text → TicketStatus → Option Text → Exec (Unit {0})
unfolding require_ticket
put_live_status wave_id ticket_id status outcome = do
  live ← require_ticket wave_id ticket_id
  modify (put_ticket (with_status status outcome live))

-- `if (ticket.result !== result) putTicketStatus(...)`
abbrev pub put_result_once : Text → TicketRun → Text → Exec (Unit {0})
put_result_once wave_id ticket outcome =
    when (not (same_text ticket.outcome outcome))
      (put_live_status wave_id ticket.ticket_id TicketStatus.plan_review (some outcome))

-- a taken id is not an error
unfoldable pub add_event : Env → Text → Text → Text → Payload → Option ℕ → Exec (Unit {0})
add_event env event_id wave_id type payload revision_applied = modify (λ db.
    (insert_event
      (record (event_row env event_id wave_id type payload) { revision_applied = revision_applied })
      db).1)

-- `${waveId}:${kind}:${ticketId}:${revision}`
abbrev pub hop_event_id : Text → Text → TicketRun → Text
hop_event_id wave_id kind ticket =
    wave_id
    ++ (text ":"
        ++ (kind ++ (text ":" ++ (ticket.ticket_id ++ (text ":" ++ decimal ticket.revision)))))

abbrev pub wave_with_status : WaveStatus → ℕ → WaveRecord → WaveRecord
wave_with_status status now wave = record wave {
  status = status;
  owner = wave_owners status;
  next_action = wave_next status;
  revision = wave.revision + 1;
  updated_at = now;
}

abbrev pub is_gated : WaveStatus → Bool
is_gated WaveStatus.awaiting_plan_gate = true
is_gated WaveStatus.waiting_approval = true
is_gated _ = false

unfoldable pub set_wave_running : Env → Text → Exec (Unit {0})
unfolding require_wave
set_wave_running env wave_id = do
  wave ← require_wave wave_id
  when (is_gated wave.status) (modify (put_wave (wave_with_status WaveStatus.running env.now wave)))

abbrev resume_gated_wave : Env → WaveRecord → Exec (Unit {0})
resume_gated_wave env wave = when (is_gated wave.status) (do
  lift (assert_wave_transition wave.status WaveStatus.running wave.cancel_requested)
  modify (put_wave (wave_with_status WaveStatus.running env.now wave)))

-- a verdict "revise": the plan is written anew, unless that was asked for too often
unfoldable pub revise_plan :
    Env → ReviewFiles → Text → Text → TicketRun → ℕ → Text → Payload → Text → Exec Bool
unfolding require_wave require_ticket put_live_status refresh_counters add_event revise_count
revise_plan env files wave_id type ticket cap kind payload too_often = do
  count ← query (revise_count files type wave_id ticket.ticket_id)
  if not (ltb count cap)
      then (do
        put_live_status wave_id ticket.ticket_id TicketStatus.failed (some too_often)
        refresh_counters wave_id
        pure true)
      else (do
        add_event env (hop_event_id wave_id kind ticket) wave_id type payload none
        live ← require_ticket wave_id ticket.ticket_id
        wave ← require_wave wave_id
        lift (assert_ticket_transition live.status TicketStatus.revising wave.cancel_requested)
        modify (put_ticket (with_status TicketStatus.revising none live))
        resume_gated_wave env wave
        pure true)

-- a ticket approved by its review
unfoldable pub admit_ticket : Env → Text → TicketRun → Text → Text → Payload → Exec Bool
unfolding put_live_status set_wave_running add_event
admit_ticket env wave_id ticket event_id type payload = do
  put_live_status wave_id ticket.ticket_id TicketStatus.approved none
  set_wave_running env wave_id
  add_event env event_id wave_id type payload none
  pure true

-- The loop of `queueMissing…Reviews`. A ticket is skipped, or its stage is handed to
-- `queueStageOrBudget`; the number of those that were queued is carried along.
unfoldable pub queue_reviews :
    (Bool → TicketRun → Exec (Option QueueAdmitResult))
    → Bool
    → ℕ
    → List TicketRun
    → Exec QueueAdmitResult
queue_reviews body no_open n [] = pure queued
queue_reviews body no_open n (ticket ∷ tickets) = do
  admitted ← body (n == 0 && no_open) ticket
  elim admitted [
    | none ↦ queue_reviews body no_open n tickets
    | some result ↦ elim result [
      | queued ↦ queue_reviews body no_open (n + 1) tickets
      | deferred ↦ pure deferred
      | stopped ↦ pure stopped
    ]
  ]
