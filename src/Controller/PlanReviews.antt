-- ===== src/Controller/PlanReviews.antt =====
-- core/plan-review-settle.ts: the review of a plan by the forge.
pub mod Lost
use openclaw_wave_runner.Prelude.{
  ℕ, Bool, true, false, ◌&&◌, ◌||◌, not, Option, none, some, get_or, any, ltb, ◌++◌, if◌then◌else◌,
  List, [], ◌∷◌, Text, text, text_eq, WaveError,
}
use openclaw_wave_runner.Domain.{
  StageName, stage_eq, TicketStatus, ticket_eq, WaveStatus, wave_eq, WaveRecord, TicketRun,
  LaunchOutbox, DomainEvent,
}
use openclaw_wave_runner.Store.{WaveDatabase, list_tickets, list_outbox, list_events}
use openclaw_wave_runner.Controller.Exec.{
  Env, plan_review_launch, plan_review_revise, plan_review_admit, leftover_admit, Exec, ◌>>=◌, ◌>>◌,
  pure, query, for_each,
}
use openclaw_wave_runner.Controller.Context.{require_wave, require_ticket}
use openclaw_wave_runner.Controller.Hops.{
  QueueAdmitResult, queued, deferred, stopped, is_set, queue_stage_or_budget,
}
use openclaw_wave_runner.Controller.Adapters.{Verdict}
use openclaw_wave_runner.Controller.Reviews.{
  ReviewFiles, live_needs_ux, mark_needs_ux, latest_plan_attempt, has_hop_launch, events_of,
  open_stage_outbox, stage_busy, none_open, put_result_once, add_event, hop_event_id, revise_plan,
  admit_ticket, queue_reviews,
}
use openclaw_wave_runner.Controller.UxReviews.{
  queue_missing_ux_reviews, admit_ux_review_ticket, needs_ux_review_launch,
}

-- `forgeForWave`
unfoldable pub forge_for_wave : ReviewFiles → Text → Exec (Option Text)
unfolding require_wave
forge_for_wave files wave_id = do wave ← require_wave wave_id; pure (files.forge_of wave.repo_path)

-- `hasLaunch`, of any plan attempt
unfoldable pub has_launch : ReviewFiles → Text → Text → WaveDatabase → Bool
has_launch files wave_id ticket_id db =
    any (events_of files (text "plan_review_launch") ticket_id) (list_events wave_id db)

unfoldable pub plan_review_hop_ready : ReviewFiles → Text → Text → ℕ → WaveDatabase → Bool
unfolding has_hop_launch open_stage_outbox stage_busy
plan_review_hop_ready files wave_id ticket_id plan_attempt db =
    ltb 0 plan_attempt
    && (has_hop_launch files wave_id ticket_id (text "plan_review_launch") plan_attempt db
        && (not (open_stage_outbox wave_id ticket_id StageName.review db)
            && not (stage_busy wave_id ticket_id StageName.review db)))

-- the reasons to pass a ticket under review over
unfoldable pub review_skipped : ReviewFiles → Text → TicketRun → WaveDatabase → Bool
unfolding has_hop_launch open_stage_outbox stage_busy latest_plan_attempt
review_skipped files wave_id ticket db =
    let plan_attempt = latest_plan_attempt wave_id ticket.ticket_id db in
    is_set ticket.plan_review_skip
    || (open_stage_outbox wave_id ticket.ticket_id StageName.review db
        || (stage_busy wave_id ticket.ticket_id StageName.review db
            || (not (ltb 0 plan_attempt)
                || has_hop_launch files wave_id ticket.ticket_id (text "plan_review_launch")
                    plan_attempt db)))

abbrev pub review_launched :
    Env
    → WaveRecord
    → Text
    → TicketRun
    → ℕ
    → Text
    → QueueAdmitResult
    → Exec (Option QueueAdmitResult)
review_launched env wave wave_id ticket plan_attempt forge queued = do
  add_event env (hop_event_id wave_id (text "plan-review-launch") ticket) wave_id
      (text "plan_review_launch")
      (plan_review_launch ticket.ticket_id ticket.revision plan_attempt forge) (some wave.revision)
  pure (some queued)
review_launched env wave wave_id ticket plan_attempt forge result = pure (some result)

abbrev pub review_launch :
    Env
    → (WaveError → Text)
    → ReviewFiles
    → WaveRecord
    → Text
    → TicketRun
    → Bool
    → Option Text
    → Exec (Option QueueAdmitResult)
review_launch env wording files wave wave_id ticket idle none = do
  put_result_once wave_id ticket (text "missing_forge")
  pure none
review_launch env wording files wave wave_id ticket idle (some forge) = do
  plan_attempt ← query (latest_plan_attempt wave_id ticket.ticket_id)
  ids ← query files.fresh
  admitted ← queue_stage_or_budget env wording ids wave_id ticket.ticket_id StageName.review idle
  review_launched env wave wave_id ticket plan_attempt forge admitted

-- the body of the loop of `queueMissingPlanReviews`
unfoldable pub review_body :
    Env
    → (WaveError → Text)
    → ReviewFiles
    → WaveRecord
    → Text
    → Bool
    → TicketRun
    → Exec (Option QueueAdmitResult)
unfolding review_skipped add_event
review_body env wording files wave wave_id idle ticket =
    if not (ticket_eq ticket.status TicketStatus.plan_review) then pure none else do
      skipped ← query (review_skipped files wave_id ticket)
      if skipped
          then pure none
          else review_launch env wording files wave wave_id ticket idle
              (files.forge_of wave.repo_path)

abbrev pub then_ux :
    Env → (WaveError → Text) → ReviewFiles → Text → QueueAdmitResult → Exec (Unit {0})
then_ux env wording files wave_id stopped = pure tt
then_ux env wording files wave_id result = queue_missing_ux_reviews env wording files wave_id

unfoldable pub queue_missing_plan_reviews :
    Env → (WaveError → Text) → ReviewFiles → Text → Exec (Unit {0})
unfolding require_wave queue_reviews review_body
queue_missing_plan_reviews env wording files wave_id = do
  wave ← require_wave wave_id
  if not (wave_eq wave.status WaveStatus.awaiting_plan_gate) then pure tt else do
    no_open ← query (none_open wave_id)
    tickets ← query (list_tickets wave_id)
    result ← queue_reviews (review_body env wording files wave wave_id) no_open 0 tickets
    then_ux env wording files wave_id result

abbrev approve_plan : Env → ReviewFiles → Text → TicketRun → Exec Bool
approve_plan env files wave_id ticket =
    admit_ticket env wave_id ticket (hop_event_id wave_id (text "plan-review-admit") ticket)
      (text "plan_review_admit")
      (plan_review_admit ticket.ticket_id ticket.revision
        (files.check_plan_stamp ticket.plan_artifact))

abbrev approve_under_contract : Env → ReviewFiles → Text → TicketRun → Option Text → Exec Bool
approve_under_contract env files wave_id ticket none = approve_plan env files wave_id ticket
approve_under_contract env files wave_id ticket (some reason) = do
  put_result_once wave_id ticket reason
  pure false

-- no verdict: a plan that was stamped before it was ever sent to review
abbrev approve_leftover : Env → ReviewFiles → Text → TicketRun → Bool → Exec Bool
approve_leftover env files wave_id ticket wants_ux = do
  launched ← query (has_launch files wave_id ticket.ticket_id)
  if not launched && (files.check_plan_stamp ticket.plan_artifact && not wants_ux)
      then admit_ticket env wave_id ticket
          (hop_event_id wave_id (text "plan-review-admit") ticket ++ text ":leftover")
          (text "plan_review_admit") (leftover_admit ticket.ticket_id ticket.revision)
      else pure false

abbrev plan_verdict :
    Env → ReviewFiles → Text → TicketRun → ℕ → Option Text → Bool → Option Verdict → Exec Bool
plan_verdict env files wave_id ticket plan_attempt forge wants_ux none =
    approve_leftover env files wave_id ticket wants_ux
plan_verdict env files wave_id ticket plan_attempt forge wants_ux (some Verdict.revise) =
    revise_plan env files wave_id (text "plan_review_revise") ticket
      (get_or ticket.plan_review_revise_cap 1) (text "plan-review-revise")
      (plan_review_revise ticket.ticket_id plan_attempt) (text "plan_review_revise_cap")
plan_verdict env files wave_id ticket plan_attempt forge wants_ux (some Verdict.approve) =
    if wants_ux then pure false else approve_plan env files wave_id ticket
plan_verdict env files wave_id ticket plan_attempt forge wants_ux
      (some Verdict.approve_with_conditions) =
    if wants_ux
    then pure false
    else approve_under_contract env files wave_id ticket
        (files.contract_refusal forge ticket.ticket_id)

unfoldable pub admit_plan_review_ticket : Env → ReviewFiles → Text → Text → Exec Bool
unfolding require_wave require_ticket live_needs_ux plan_review_hop_ready has_launch revise_plan
    admit_ticket
admit_plan_review_ticket env files wave_id ticket_id = do
  ticket ← require_ticket wave_id ticket_id
  if not (ticket_eq ticket.status TicketStatus.plan_review) then pure false else do
    wave ← require_wave wave_id
    mark_needs_ux files ticket wave.manifest_json
    plan_attempt ← query (latest_plan_attempt wave_id ticket_id)
    ready ← query (plan_review_hop_ready files wave_id ticket_id plan_attempt)
    let forge = files.forge_of wave.repo_path
    plan_verdict env files wave_id ticket plan_attempt forge
        (live_needs_ux files ticket wave.manifest_json)
        (if ready then files.check_plan_review forge ticket_id else none)

abbrev pub admit_reviewed : Env → ReviewFiles → Text → TicketRun → Exec (Unit {0})
admit_reviewed env files wave_id ticket =
    if not (ticket_eq ticket.status TicketStatus.plan_review) then pure tt else do
      admitted ← admit_plan_review_ticket env files wave_id ticket.ticket_id
      if admitted
          then pure tt
          else do _ ← admit_ux_review_ticket env files wave_id ticket.ticket_id; pure tt

unfoldable pub maybe_admit_plan_gate : Env → ReviewFiles → Text → Exec (Unit {0})
unfolding require_wave admit_plan_review_ticket admit_ux_review_ticket
maybe_admit_plan_gate env files wave_id = do
  wave ← require_wave wave_id
  if not (wave_eq wave.status WaveStatus.awaiting_plan_gate) then pure tt else do
    tickets ← query (list_tickets wave_id)
    for_each tickets (admit_reviewed env files wave_id)

abbrev has_review_row : TicketRun → LaunchOutbox → Bool
has_review_row ticket item =
    text_eq item.ticket_id ticket.ticket_id && stage_eq item.stage StageName.review

abbrev review_waits : Text → WaveDatabase → TicketRun → Bool
review_waits wave_id db ticket =
    ticket_eq ticket.status TicketStatus.plan_review
    && (not (is_set ticket.plan_review_skip)
        && not (any (has_review_row ticket) (list_outbox wave_id db)))

unfoldable pub needs_plan_review_launch : ReviewFiles → Text → Exec Bool
unfolding needs_ux_review_launch
needs_plan_review_launch files wave_id = do
  ux ← needs_ux_review_launch files wave_id
  if ux then pure true else query (λ db. any (review_waits wave_id db) (list_tickets wave_id db))
