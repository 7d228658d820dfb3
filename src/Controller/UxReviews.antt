-- ===== src/Controller/UxReviews.antt =====
-- core/ux-review-settle.ts: the second review of a plan, for tickets that need one.
use openclaw_wave_runner.Prelude.{
  ℕ, Bool, true, false, ◌&&◌, ◌||◌, not, Option, none, some, get_or, is_some, [], any, ltb,
  if◌then◌else◌, Text, text, text_eq, WaveError,
}
use openclaw_wave_runner.Domain.{
  StageName, stage_eq, TicketStatus, ticket_eq, WaveStatus, wave_eq, WaveRecord, TicketRun,
  LaunchOutbox,
}
use openclaw_wave_runner.Store.{WaveDatabase, list_tickets, list_outbox, put_ticket}
use openclaw_wave_runner.Controller.Exec.{
  Env, ux_review_launch, ux_review_revise, ux_review_admit, Exec, ◌>>=◌, ◌>>◌, pure, query, modify,
}
use openclaw_wave_runner.Controller.Context.{require_wave, require_ticket}
use openclaw_wave_runner.Controller.Hops.{QueueAdmitResult, queued, is_set, queue_stage_or_budget}
use openclaw_wave_runner.Controller.Adapters.{Verdict}
use openclaw_wave_runner.Controller.Reviews.{
  ReviewFiles, live_needs_ux, mark_needs_ux, latest_plan_attempt, has_hop_launch, open_stage_outbox,
  stage_busy, none_open, put_result_once, add_event, hop_event_id, revise_plan, admit_ticket,
  queue_reviews,
}

abbrev pub is_approval : Option Verdict → Bool
is_approval (some Verdict.approve) = true
is_approval (some Verdict.approve_with_conditions) = true
is_approval _ = false

-- The plan was reviewed by the forge, as far as it must be; the wave is the ticket's.
unfoldable pub crawmak_satisfied_for_hop :
    ReviewFiles → WaveRecord → TicketRun → ℕ → WaveDatabase → Bool
unfolding has_hop_launch
crawmak_satisfied_for_hop files wave ticket plan_attempt db =
    is_set ticket.plan_review_skip
    || (ltb 0 plan_attempt
        && (has_hop_launch files ticket.wave_id ticket.ticket_id (text "plan_review_launch")
              plan_attempt db
            && is_approval
                (files.check_plan_review (files.forge_of wave.repo_path) ticket.ticket_id)))

abbrev keep_spec : Text → TicketRun → Option Text → Exec (Unit {0})
keep_spec wave_id ticket none = pure tt
keep_spec wave_id ticket (some resolved) =
    if text_eq resolved (get_or ticket.ux_spec_path []) then pure tt else (do
      live ← require_ticket wave_id ticket.ticket_id
      modify (put_ticket (record live { ux_spec_path = some resolved })))

unfoldable pub persist_spec : ReviewFiles → TicketRun → Exec Bool
unfolding require_wave require_ticket
persist_spec files ticket = do
  wave ← require_wave ticket.wave_id
  let resolved = files.existing_ux_spec ticket wave.repo_path
  keep_spec ticket.wave_id ticket resolved
  pure (is_some resolved)

-- `ticket.status !== "PLAN_REVIEW"`, or one of the reasons to pass a ticket over
abbrev ux_skipped : ReviewFiles → WaveRecord → TicketRun → WaveDatabase → Bool
ux_skipped files wave ticket db =
    let plan_attempt = latest_plan_attempt wave.wave_id ticket.ticket_id db in
    open_stage_outbox wave.wave_id ticket.ticket_id StageName.ux_review db
    || (stage_busy wave.wave_id ticket.ticket_id StageName.ux_review db
        || (not (ltb 0 plan_attempt)
            || (has_hop_launch files wave.wave_id ticket.ticket_id (text "ux_review_launch")
                  plan_attempt db
                || not (crawmak_satisfied_for_hop files wave ticket plan_attempt db))))

abbrev pub ux_launched :
    Env → WaveRecord → TicketRun → ℕ → Text → QueueAdmitResult → Exec (Option QueueAdmitResult)
ux_launched env wave ticket plan_attempt mona queued = do
  add_event env (hop_event_id wave.wave_id (text "ux-review-launch") ticket) wave.wave_id
      (text "ux_review_launch")
      (ux_review_launch ticket.ticket_id ticket.revision plan_attempt mona) (some wave.revision)
  pure (some queued)
ux_launched env wave ticket plan_attempt mona result = pure (some result)

abbrev pub ux_launch :
    Env
    → (WaveError → Text)
    → ReviewFiles
    → WaveRecord
    → TicketRun
    → Bool
    → Option Text
    → Exec (Option QueueAdmitResult)
ux_launch env wording files wave ticket idle none = do
  put_result_once wave.wave_id ticket (text "missing_mona")
  pure none
ux_launch env wording files wave ticket idle (some mona) = do
  there ← persist_spec files ticket
  if not there
      then (do put_result_once wave.wave_id ticket (text "missing_ux_spec"); pure none)
      else (do
        plan_attempt ← query (latest_plan_attempt wave.wave_id ticket.ticket_id)
        ids ← query files.fresh
        admitted ←
            queue_stage_or_budget env wording ids wave.wave_id ticket.ticket_id StageName.ux_review
              idle
        ux_launched env wave ticket plan_attempt mona admitted)

abbrev pub ux_body :
    Env
    → (WaveError → Text)
    → ReviewFiles
    → WaveRecord
    → Bool
    → TicketRun
    → Exec (Option QueueAdmitResult)
ux_body env wording files wave idle ticket =
    if not (ticket_eq ticket.status TicketStatus.plan_review)
      || not (live_needs_ux files ticket wave.manifest_json)
    then pure none
    else do
      mark_needs_ux files ticket wave.manifest_json
      skipped ← query (ux_skipped files wave ticket)
      if skipped then pure none else ux_launch env wording files wave ticket idle files.mona

unfoldable pub queue_missing_ux_reviews :
    Env → (WaveError → Text) → ReviewFiles → Text → Exec (Unit {0})
unfolding require_wave queue_reviews live_needs_ux crawmak_satisfied_for_hop persist_spec
queue_missing_ux_reviews env wording files wave_id = do
  wave ← require_wave wave_id
  if not (wave_eq wave.status WaveStatus.awaiting_plan_gate) then pure tt else do
    no_open ← query (none_open wave_id)
    tickets ← query (list_tickets wave_id)
    _ ← queue_reviews (ux_body env wording files wave) no_open 0 tickets
    pure tt

abbrev pub ux_approved : Env → ReviewFiles → Text → TicketRun → ℕ → Exec Bool
ux_approved env files wave_id ticket plan_attempt = do
  launched ←
      query (has_hop_launch files wave_id ticket.ticket_id (text "ux_review_launch") plan_attempt)
  if not launched
      then pure false
      else admit_ticket env wave_id ticket (hop_event_id wave_id (text "ux-review-admit") ticket)
          (text "ux_review_admit") (ux_review_admit ticket.ticket_id ticket.revision)

abbrev pub ux_verdict : Env → ReviewFiles → Text → TicketRun → ℕ → Option Verdict → Exec Bool
ux_verdict env files wave_id ticket plan_attempt none = pure false
ux_verdict env files wave_id ticket plan_attempt (some Verdict.revise) =
    revise_plan env files wave_id (text "ux_review_revise") ticket
      (get_or ticket.ux_review_revise_cap 1) (text "ux-review-revise")
      (ux_review_revise ticket.ticket_id) (text "ux_review_revise_cap")
ux_verdict env files wave_id ticket plan_attempt (some Verdict.approve) =
    ux_approved env files wave_id ticket plan_attempt
ux_verdict env files wave_id ticket plan_attempt (some Verdict.approve_with_conditions) =
    ux_approved env files wave_id ticket plan_attempt

-- the ticket must be under review, need this one and have passed the other
abbrev pub settle_ux : Env → ReviewFiles → Text → TicketRun → WaveRecord → Exec Bool
settle_ux env files wave_id ticket wave =
    if not (ticket_eq ticket.status TicketStatus.plan_review)
      || not (live_needs_ux files ticket wave.manifest_json)
    then pure false
    else do
      plan_attempt ← query (latest_plan_attempt wave_id ticket.ticket_id)
      satisfied ← query (crawmak_satisfied_for_hop files wave ticket plan_attempt)
      if not satisfied
          then pure false
          else ux_verdict env files wave_id ticket plan_attempt
              (files.check_ux_review files.mona ticket.ticket_id)

unfoldable pub admit_ux_review_ticket : Env → ReviewFiles → Text → Text → Exec Bool
unfolding require_wave require_ticket live_needs_ux crawmak_satisfied_for_hop revise_plan
    admit_ticket
admit_ux_review_ticket env files wave_id ticket_id = do
  ticket ← require_ticket wave_id ticket_id
  wave ← require_wave wave_id
  mark_needs_ux files ticket wave.manifest_json
  settle_ux env files wave_id ticket wave

abbrev has_ux_row : WaveDatabase → TicketRun → LaunchOutbox → Bool
has_ux_row db ticket item =
    text_eq item.ticket_id ticket.ticket_id && stage_eq item.stage StageName.ux_review

abbrev ux_waits : ReviewFiles → WaveRecord → WaveDatabase → TicketRun → Bool
ux_waits files wave db ticket =
    ticket_eq ticket.status TicketStatus.plan_review
    && (live_needs_ux files ticket wave.manifest_json
        && (crawmak_satisfied_for_hop files wave ticket
              (latest_plan_attempt wave.wave_id ticket.ticket_id db) db
            && not (any (has_ux_row db ticket) (list_outbox wave.wave_id db))))

unfoldable pub needs_ux_review_launch : ReviewFiles → Text → Exec Bool
unfolding require_wave live_needs_ux crawmak_satisfied_for_hop
needs_ux_review_launch files wave_id = do
  wave ← require_wave wave_id
  query (λ db. any (ux_waits files wave db) (list_tickets wave_id db))
