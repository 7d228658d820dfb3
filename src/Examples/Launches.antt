-- ===== src/Examples/Launches.antt =====
-- Runs of launches, reviews and landings (core/launch.ts, core/launch-hops.ts, core/land-lock.ts,
-- core/land-closeout.ts, core/plan-review-settle.ts, core/settlement.ts).
use openclaw_wave_runner.Prelude.{
  ◌+◌, ◌-◌, ltb, get_or, ◌≡◌, refl, true, false, none, some, text, text_eq, filter, find?, any, ok,
  arith,
}
use openclaw_wave_runner.Prelude.Sorting.{order_by}
use openclaw_wave_runner.Domain.{StageName, TicketStatus, TicketRun}
use openclaw_wave_runner.Store.{
  get_wave, get_ticket, get_event, get_outbox_by_idempotency, list_stages, list_events, list_outbox,
}
use openclaw_wave_runner.Store.Table.{get, key_eq}
use openclaw_wave_runner.AcpSlots.{acp_slot_cap}
use openclaw_wave_runner.Controller.Closing.{IsKeyedLedger}
use openclaw_wave_runner.Controller.Hops.{queued}
use openclaw_wave_runner.Controller.Hops.Outcomes.{Settles, queue_stage_or_budget-Settles}
use openclaw_wave_runner.Controller.Quiet.{launches}
use openclaw_wave_runner.Controller.Dispatch.{dispatch_one, dispatch_pending}
use openclaw_wave_runner.Controller.Dispatch.Once.{IsSpawnedOnce, dispatch_pending-IsSpawnedOnce}
use openclaw_wave_runner.Controller.Dispatch.Races.{dispatch_one_ignores_claim}
use openclaw_wave_runner.Controller.Admission.{attempt_of, slots_taken}
use openclaw_wave_runner.Controller.Reviews.{
  is_hop_of, latest_plan_attempt, has_hop_launch, open_stage_outbox, stage_busy,
}
use openclaw_wave_runner.Controller.PlanReviews.{review_body, review_skipped}
use openclaw_wave_runner.Controller.PlanReviews.Lost.{
  launch_event, recorded, review_body_loses_review,
}
use openclaw_wave_runner.Examples.Data.{
  controller, test_env, running_wave, ticket_at, pending_item, new_ids,
}
use openclaw_wave_runner.Examples.Fakes.{
  adapters, files, waiting, raced, claimed_review, busy_env, gated_wave, planned,
}
use openclaw_wave_runner.Examples.Admission.{new_ids-AreNew}

keyed : IsKeyedLedger controller.db
keyed = ground arith

wave_found : get_wave (text "w") controller.db ≡ some running_wave
unfolding get_wave get find? key_eq text_eq
wave_found = refl

queue_stage_or_budget-Settles_example :
    Settles test_env
      (λ e. text "budget")
      new_ids
      (text "w")
      (text "a")
      StageName.plan
      controller
      true
queue_stage_or_budget-Settles_example =
    queue_stage_or_budget-Settles test_env (λ e. text "budget") new_ids (text "w") (text "a")
      StageName.plan controller running_wave keyed wave_found refl new_ids-AreNew true

pub not_launched_yet : IsSpawnedOnce waiting
unfolding launches
not_launched_yet = record {
  keyed = ground arith;
  distinct = ground arith;
  once = λ k. ground arith;
}

dispatch_pending-IsSpawnedOnce_example :
    IsSpawnedOnce (dispatch_pending test_env adapters (text "w") waiting).1
dispatch_pending-IsSpawnedOnce_example =
    dispatch_pending-IsSpawnedOnce test_env adapters (text "w") waiting not_launched_yet

claimed_found :
    get_outbox_by_idempotency pending_item.idempotency_key raced.db ≡ some claimed_review
unfolding get_outbox_by_idempotency find? text_eq
claimed_found = refl

raced_wave : get_wave (text "w") raced.db ≡ some running_wave
unfolding get_wave get find? key_eq text_eq
raced_wave = refl

raced_ticket :
    get_ticket (text "w") (text "a") raced.db ≡ some (ticket_at (text "a") TicketStatus.pending)
unfolding get_ticket get find? key_eq text_eq
raced_ticket = refl

dispatch_one_ignores_claim_example :
    launches pending_item.idempotency_key
      (dispatch_one test_env adapters (text "w") pending_item raced).1.calls
    ≡ launches pending_item.idempotency_key raced.calls + 1
dispatch_one_ignores_claim_example =
    dispatch_one_ignores_claim test_env adapters (text "w") pending_item claimed_review raced
      running_wave running_wave (ticket_at (text "a") TicketStatus.pending) (ground arith)
      claimed_found refl refl raced_wave refl raced_wave raced_ticket

abbrev reviewed : TicketRun
reviewed = ticket_at (text "b") TicketStatus.plan_review

not_skipped : review_skipped files (text "w") reviewed planned.db ≡ false
unfolding review_skipped list_stages list_events list_outbox latest_plan_attempt has_hop_launch
    open_stage_outbox stage_busy filter any order_by text_eq
not_skipped = refl

gated_found : get_wave (text "w") planned.db ≡ some gated_wave
unfolding get_wave get find? key_eq text_eq
gated_found = refl

reviewed_found : get_ticket (text "w") (text "b") planned.db ≡ some reviewed
unfolding get_ticket get find? key_eq text_eq
reviewed_found = refl

tries_left :
    ltb gated_wave.limits.max_retries_per_stage
      (attempt_of (text "w") (text "b") StageName.review planned.db - 1)
    ≡ false
unfolding list_stages filter order_by text_eq
tries_left = refl

no_slot : slots_taken busy_env gated_wave (get_or reviewed.provider (text "mock")) planned.db ≡ true
unfolding acp_slot_cap
no_slot = refl

new_event :
    get_event
      (launch_event busy_env files gated_wave (text "w") reviewed (text "/forge") planned).event_id
      planned.db
    ≡ none
unfolding get_event get find?
new_event = refl

parsed :
    is_hop_of
      (files.parse_payload (text "{}"))
      (text "b")
      (latest_plan_attempt (text "w") (text "b") planned.db)
    ≡ true
unfolding latest_plan_attempt list_stages filter order_by text_eq
parsed = refl

review_body_loses_review_example :
    (review_body busy_env (λ e. text "budget") files gated_wave (text "w") true reviewed planned ≡ (
      ok (some queued),
      recorded busy_env files gated_wave (text "w") reviewed (text "/forge") planned,
    ))
    × (review_body busy_env
          (λ e. text "budget")
          files
          gated_wave
          (text "w")
          false
          reviewed
          (recorded busy_env files gated_wave (text "w") reviewed (text "/forge") planned)
        ≡ (ok none, recorded busy_env files gated_wave (text "w") reviewed (text "/forge") planned))
review_body_loses_review_example =
    review_body_loses_review busy_env files gated_wave (text "w") reviewed (text "/forge") planned
      (λ e. text "budget") gated_wave reviewed refl not_skipped refl gated_found refl reviewed_found
      tries_left no_slot new_event parsed true false
