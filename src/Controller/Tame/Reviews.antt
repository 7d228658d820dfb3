-- ===== src/Controller/Tame/Reviews.antt =====
-- Sending plans to review and admitting what was reviewed is tame (core/plan-review-settle.ts,
-- core/ux-review-settle.ts).
use openclaw_wave_runner.Prelude.{
  ℕ, ◌+◌, Bool, Option, none, some, List, [], ◌∷◌, Text, WaveError, arith,
}
use openclaw_wave_runner.Domain.{TicketStatus, WaveRecord, TicketRun}
use openclaw_wave_runner.Store.{WaveDatabase, insert_event, put_ticket}
use openclaw_wave_runner.Controller.Exec.{Payload, Env, Exec}
use openclaw_wave_runner.Controller.Hops.{QueueAdmitResult, queued, deferred, stopped}
use openclaw_wave_runner.Controller.Reviews.{ReviewFiles, put_live_status, add_event, queue_reviews}
use openclaw_wave_runner.Controller.UxReviews.{
  persist_spec, ux_launched, ux_launch, ux_body, queue_missing_ux_reviews,
}
use openclaw_wave_runner.Controller.PlanReviews.{
  review_launched, review_launch, review_body, then_ux, queue_missing_plan_reviews,
  maybe_admit_plan_gate, admit_plan_review_ticket,
}
use openclaw_wave_runner.Controller.UxReviews.{admit_ux_review_ticket}
use openclaw_wave_runner.Controller.Settlement.Frames.{admit_plan-LeavesWork, admit_ux-LeavesWork}
use openclaw_wave_runner.Controller.Tame.Admission.{drawn_then-IsTame}
use openclaw_wave_runner.Controller.Tame.Rows.{IsNew}
use openclaw_wave_runner.Controller.Tame.{
  IsTame, IsTame-leaves, IsTame-pure, IsTame-bind, tame_rules,
}

put_live_status-IsTame :
    (wave_id ticket_id : Text) (status : TicketStatus) (outcome : Option Text)
    → IsTame (put_live_status wave_id ticket_id status outcome)
unfolding put_live_status
put_live_status-IsTame wave_id ticket_id status outcome = search (tame_rules)

add_event-IsTame :
    (env : Env) (event_id wave_id type : Text) (payload : Payload) (revision : Option ℕ)
    → IsTame (add_event env event_id wave_id type payload revision)
unfolding add_event insert_event
add_event-IsTame env event_id wave_id type payload revision =
    IsTame-leaves (record { at = λ c. ground arith })

persist_spec-IsTame :
    (files : ReviewFiles) (ticket : TicketRun) → IsTame (persist_spec files ticket)
unfolding persist_spec put_ticket
persist_spec-IsTame files ticket = IsTame-leaves (record { at = λ c. ground arith })

-- one action for each answer of the admission
pub IsTame-admitted :
    {A : Type 0} (r : QueueAdmitResult) (go wait stop : Exec A)
    → IsTame go
    → IsTame wait
    → IsTame stop
    → IsTame (elim r [ queued ↦ go | deferred ↦ wait | stopped ↦ stop ])
IsTame-admitted queued go wait stop g w t = g
IsTame-admitted deferred go wait stop g w t = w
IsTame-admitted stopped go wait stop g w t = t

IsTame-body :
    {A : Type 0} (o : Option QueueAdmitResult) (skip go wait stop : Exec A)
    → IsTame skip
    → IsTame go
    → IsTame wait
    → IsTame stop
    → IsTame (elim o [
      | none ↦ skip
      | some r ↦ elim r [ queued ↦ go | deferred ↦ wait | stopped ↦ stop ]
    ])
IsTame-body none skip go wait stop k g w t = k
IsTame-body (some r) skip go wait stop k g w t = IsTame-admitted r go wait stop g w t

-- a loop whose body is tame
queue_reviews-IsTame :
    (body : Bool → TicketRun → Exec (Option QueueAdmitResult)) (no_open : Bool) (n : ℕ)
    (tickets : List TicketRun)
    → ((idle : Bool) (ticket : TicketRun) → IsTame (body idle ticket))
    → IsTame (queue_reviews body no_open n tickets)
unfolding queue_reviews
queue_reviews-IsTame body no_open n [] h = IsTame-pure queued
queue_reviews-IsTame body no_open n (ticket ∷ tickets) h =
    IsTame-bind (body _ ticket) _ (h _ ticket) (λ admitted.
      IsTame-body admitted _ _ _ _ (queue_reviews-IsTame body no_open n tickets h)
        (queue_reviews-IsTame body no_open (n + 1) tickets h) (IsTame-pure deferred)
        (IsTame-pure stopped))

-- `files.fresh` draws ids for rows that are new
module _ (env : Env) (wording : WaveError → Text) (files : ReviewFiles)
    (new : (db : WaveDatabase) → IsNew (files.fresh db).outbox_id db) where
  ux_launched-IsTame :
      (wave : WaveRecord) (ticket : TicketRun) (plan_attempt : ℕ) (mona : Text)
      (result : QueueAdmitResult)
      → IsTame (ux_launched env wave ticket plan_attempt mona result)
  ux_launched-IsTame wave ticket plan_attempt mona queued = search (tame_rules, add_event-IsTame)
  ux_launched-IsTame wave ticket plan_attempt mona deferred = IsTame-pure (some deferred)
  ux_launched-IsTame wave ticket plan_attempt mona stopped = IsTame-pure (some stopped)

  ux_launch-IsTame :
      (wave : WaveRecord) (ticket : TicketRun) (idle : Bool) (mona : Option Text)
      → IsTame (ux_launch env wording files wave ticket idle mona)
  ux_launch-IsTame wave ticket idle none = search (tame_rules, put_live_status-IsTame)
  ux_launch-IsTame wave ticket idle (some mona) =
      search
        (
          drawn_then-IsTame, new, tame_rules, put_live_status-IsTame, persist_spec-IsTame,
          ux_launched-IsTame,
        )
        depth 16

  ux_body-IsTame :
      (wave : WaveRecord) (idle : Bool) (ticket : TicketRun)
      → IsTame (ux_body env wording files wave idle ticket)
  ux_body-IsTame wave idle ticket = search (tame_rules, ux_launch-IsTame) depth 12

  queue_missing_ux-IsTame :
      (wave_id : Text) → IsTame (queue_missing_ux_reviews env wording files wave_id)
  unfolding queue_missing_ux_reviews
  queue_missing_ux-IsTame wave_id =
      search (tame_rules, queue_reviews-IsTame, ux_body-IsTame) depth 16

  review_launched-IsTame :
      (wave : WaveRecord) (wave_id : Text) (ticket : TicketRun) (plan_attempt : ℕ) (forge : Text)
      (result : QueueAdmitResult)
      → IsTame (review_launched env wave wave_id ticket plan_attempt forge result)
  review_launched-IsTame wave wave_id ticket plan_attempt forge queued =
      search (tame_rules, add_event-IsTame)
  review_launched-IsTame wave wave_id ticket plan_attempt forge deferred =
      IsTame-pure (some deferred)
  review_launched-IsTame wave wave_id ticket plan_attempt forge stopped = IsTame-pure (some stopped)

  review_launch-IsTame :
      (wave : WaveRecord) (wave_id : Text) (ticket : TicketRun) (idle : Bool) (forge : Option Text)
      → IsTame (review_launch env wording files wave wave_id ticket idle forge)
  review_launch-IsTame wave wave_id ticket idle none = search (tame_rules, put_live_status-IsTame)
  review_launch-IsTame wave wave_id ticket idle (some forge) =
      search (drawn_then-IsTame, new, tame_rules, review_launched-IsTame) depth 16

  review_body-IsTame :
      (wave : WaveRecord) (wave_id : Text) (idle : Bool) (ticket : TicketRun)
      → IsTame (review_body env wording files wave wave_id idle ticket)
  unfolding review_body
  review_body-IsTame wave wave_id idle ticket = search (tame_rules, review_launch-IsTame) depth 12

  then_ux-IsTame :
      (wave_id : Text) (result : QueueAdmitResult)
      → IsTame (then_ux env wording files wave_id result)
  then_ux-IsTame wave_id queued = queue_missing_ux-IsTame wave_id
  then_ux-IsTame wave_id deferred = queue_missing_ux-IsTame wave_id
  then_ux-IsTame wave_id stopped = IsTame-pure tt

  pub queue_missing-IsTame :
      (wave_id : Text) → IsTame (queue_missing_plan_reviews env wording files wave_id)
  unfolding queue_missing_plan_reviews
  queue_missing-IsTame wave_id =
      search (tame_rules, queue_reviews-IsTame, review_body-IsTame, then_ux-IsTame) depth 16

admit_plan-IsTame :
    (env : Env) (files : ReviewFiles) (wave_id ticket_id : Text)
    → IsTame (admit_plan_review_ticket env files wave_id ticket_id)
admit_plan-IsTame env files wave_id ticket_id =
    IsTame-leaves (admit_plan-LeavesWork env files wave_id ticket_id)

admit_ux-IsTame :
    (env : Env) (files : ReviewFiles) (wave_id ticket_id : Text)
    → IsTame (admit_ux_review_ticket env files wave_id ticket_id)
admit_ux-IsTame env files wave_id ticket_id =
    IsTame-leaves (admit_ux-LeavesWork env files wave_id ticket_id)

pub maybe_admit-IsTame :
    (env : Env) (files : ReviewFiles) (wave_id : Text)
    → IsTame (maybe_admit_plan_gate env files wave_id)
unfolding maybe_admit_plan_gate
maybe_admit-IsTame env files wave_id =
    search (tame_rules, admit_plan-IsTame, admit_ux-IsTame) depth 24
