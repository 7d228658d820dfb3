-- ===== src/Controller/PlanReviews/Lost.antt =====
-- A review of a plan that is recorded as launched and is not (core/plan-review-settle.ts).
use openclaw_wave_runner.Prelude.{
  ℕ, ◌-◌, ◌≡◌, refl, ◌∙◌, sym, ◌++◌, ◌||◌, not, any, any-false, filter-mem, inl, inr, Bool-cases,
  text_eq_refl, Bool, true, false, none, some, get_or, List, [], ◌∷◌, ltb, Text, text, WaveError,
  ok, arith,
}
use mathlib.Core.List.{Memᴰ}
use openclaw_wave_runner.Prelude.Sorting.{mem-order_by}
use openclaw_wave_runner.Domain.{
  DomainEvent, StageName, TicketStatus, ticket_eq, WaveRecord, TicketRun,
}
use openclaw_wave_runner.Store.{
  get_wave, get_ticket, get_event, list_events, list_stages, insert_event,
}
use openclaw_wave_runner.Controller.Exec.{Env, plan_review_launch, Controller}
use openclaw_wave_runner.Controller.Context.{event_row, require_wave, require_ticket}
use openclaw_wave_runner.Controller.Rows.{FreshIds}
use openclaw_wave_runner.Controller.Admission.{attempt_of, slots_taken, queue_stage}
use openclaw_wave_runner.Controller.Hops.{is_set, queued, queue_stage_or_budget}
use openclaw_wave_runner.Controller.Reviews.{
  ReviewFiles, add_event, open_stage_outbox, stage_busy, latest_plan_attempt, has_hop_launch,
  hop_event_id, is_hop_of,
}
use openclaw_wave_runner.Controller.PlanReviews.{review_skipped, review_body}

-- With no free slot of the provider `queueStage` returns and queues nothing.
queue_stage_full :
    (env : Env) (ids : FreshIds) (wave_id ticket_id : Text) (stage : StageName) (c : Controller)
    (w : WaveRecord) (t : TicketRun)
    → get_wave wave_id c.db ≡ some w
    → w.cancel_requested ≡ false
    → get_ticket wave_id ticket_id c.db ≡ some t
    → ltb w.limits.max_retries_per_stage (attempt_of wave_id ticket_id stage c.db - 1) ≡ false
    → slots_taken env w (get_or t.provider (text "mock")) c.db ≡ true
    → queue_stage env ids wave_id ticket_id stage c ≡ (ok tt, c)
unfolding queue_stage require_wave require_ticket
queue_stage_full env ids wave_id ticket_id stage c w t there live found tries full =
    rw there (rw live (rw found (rw tries (rw full refl))))

last_of : (a b x y : Bool) → a || (b || (x || (y || true))) ≡ true
last_of a b x y = ground arith

mem_last : {A : Type 0} (a : A) (xs : List A) → Memᴰ a (xs ++ a ∷ [])
mem_last a [] = Memᴰ.head refl
mem_last a (x ∷ xs) = Memᴰ.tail (mem_last a xs)

any-mem :
    {A : Type 0} (p : A → Bool) {a : A} (xs : List A) → Memᴰ a xs → p a ≡ true → any p xs ≡ true
any-mem p {a} xs m h = elim (Bool-cases (any p xs)) [
  | inl found ↦ found
  | inr none_ ↦ absurd (true_false (sym h ∙ any-false p {a = a} xs none_ m))
]
  where
    true_false : true ≡ false → ⊥
    true_false e = cc

module _ (env : Env) (files : ReviewFiles) (wave : WaveRecord) (wave_id : Text) (ticket : TicketRun)
    (forge : Text) (c : Controller) where
  abbrev plan_attempt : ℕ
  plan_attempt = latest_plan_attempt wave_id ticket.ticket_id c.db

  abbrev pub launch_event : DomainEvent
  launch_event =
      record (event_row env (hop_event_id wave_id (text "plan-review-launch") ticket) wave_id
        (text "plan_review_launch")
        (plan_review_launch ticket.ticket_id ticket.revision plan_attempt forge)) {
          revision_applied = some wave.revision;
        }

  -- the controller with one event more, and no row more in the outbox
  abbrev pub recorded : Controller
  recorded = record c { db = record c.db { events = c.db.events ++ launch_event ∷ [] } }

  hop_recorded :
      is_hop_of (files.parse_payload launch_event.payload_json) ticket.ticket_id plan_attempt ≡ true
      → has_hop_launch files wave_id ticket.ticket_id
          (text "plan_review_launch")
          plan_attempt
          recorded.db
        ≡ true
  unfolding has_hop_launch list_events
  hop_recorded parsed =
      any-mem _ {a = launch_event} _
        (mem-order_by _ _ (
          filter-mem _ {a = launch_event} _ (mem_last launch_event c.db.events)
            (text_eq_refl wave_id)))
        (rw (text_eq_refl (text "plan_review_launch")) parsed)

  same_attempt : latest_plan_attempt wave_id ticket.ticket_id recorded.db ≡ plan_attempt
  unfolding latest_plan_attempt list_stages
  same_attempt = refl

  skipped_after :
      is_hop_of (files.parse_payload launch_event.payload_json) ticket.ticket_id plan_attempt ≡ true
      → review_skipped files wave_id ticket recorded.db ≡ true
  unfolding review_skipped
  skipped_after parsed = rw same_attempt (
      rw (hop_recorded parsed) (
        last_of (is_set ticket.plan_review_skip)
          (open_stage_outbox wave_id ticket.ticket_id StageName.review recorded.db)
          (stage_busy wave_id ticket.ticket_id StageName.review recorded.db)
          (not (ltb 0 plan_attempt))))

  module _ (wording : WaveError → Text) (w : WaveRecord) (t : TicketRun)
      (reviewed : ticket_eq ticket.status TicketStatus.plan_review ≡ true)
      (unskipped : review_skipped files wave_id ticket c.db ≡ false)
      (at_forge : files.forge_of wave.repo_path ≡ some forge)
      (there : get_wave wave_id c.db ≡ some w) (live : w.cancel_requested ≡ false)
      (found : get_ticket wave_id ticket.ticket_id c.db ≡ some t)
      (tries : ltb w.limits.max_retries_per_stage
          (attempt_of wave_id ticket.ticket_id StageName.review c.db - 1)
        ≡ false)
      (full : slots_taken env w (get_or t.provider (text "mock")) c.db ≡ true)
      (new : get_event launch_event.event_id c.db ≡ none)
      (parsed : is_hop_of
          (files.parse_payload launch_event.payload_json)
          ticket.ticket_id
          plan_attempt
        ≡ true) where
    queued_nothing :
        (ids : FreshIds) (idle : Bool)
        → queue_stage_or_budget env wording ids wave_id ticket.ticket_id StageName.review idle c
          ≡ (ok queued, c)
    unfolding queue_stage_or_budget
    queued_nothing ids idle =
        rw
          (queue_stage_full env ids wave_id ticket.ticket_id StageName.review c w t there live found
            tries full)
          refl

    -- If no slot of the provider is free, a ticket that waits for the review of its plan is reported as
    -- queued, and a launch of the review is recorded, but no row of a stage is written; the next round
    -- then skips the ticket.
    pub review_body_loses_review :
        (idle later_idle : Bool)
        → (review_body env wording files wave wave_id idle ticket c ≡ (ok (some queued), recorded))
          × (review_body env wording files wave wave_id later_idle ticket recorded
              ≡ (ok none, recorded))
    unfolding review_body add_event insert_event
    review_body_loses_review idle later_idle = (
      rw reviewed
          (rw unskipped (rw at_forge (rw (queued_nothing (files.fresh c.db) idle) (rw new refl)))),
      rw reviewed (rw (skipped_after parsed) refl),
    )
