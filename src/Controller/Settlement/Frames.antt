-- ===== src/Controller/Settlement/Frames.antt =====
-- Writes of a stage, a proof, a plan and its reviews leave the outbox and the calls of
-- the worker alone (core/settlement.ts,
-- core/plan-settle.ts, core/plan-review-settle.ts, core/ux-review-settle.ts).
use openclaw_wave_runner.Prelude.{
  ℕ, ◌≡◌, inl, inr, refl, ◌∙◌, Option, none, some, Text, text, Bool-cases, Option-cases, not, ◌||◌,
  Result, ok, err, arith,
}
use openclaw_wave_runner.Domain.{TicketStatus, ticket_eq, WaveRecord, TicketRun, StageRun}
use openclaw_wave_runner.Domain.Worker.{UsageResult}
use openclaw_wave_runner.Store.{
  get_ticket, get_wave, put_ticket, put_wave, put_stage, put_budget, put_artifact, insert_event,
  delete_lease,
}
use openclaw_wave_runner.Controller.Exec.{Payload, Env, Controller, Exec, continue}
use openclaw_wave_runner.Controller.Tame.{work, LeavesWork}
use openclaw_wave_runner.Controller.Context.{require_wave, require_ticket}
use openclaw_wave_runner.Controller.Leases.{authority_release, release_writer_lease_if_held}
use openclaw_wave_runner.Controller.Adapters.{Verdict}
use openclaw_wave_runner.Controller.Workspace.{Workspace}
use openclaw_wave_runner.Controller.ApplyCloseout.{put_proof}
use openclaw_wave_runner.Controller.Reviews.{
  ReviewFiles, has_hop_launch, live_needs_ux, latest_plan_attempt, mark_needs_ux, add_event,
  revise_plan, admit_ticket,
}
use openclaw_wave_runner.Controller.UxReviews.{
  ux_approved, ux_verdict, settle_ux, crawmak_satisfied_for_hop, admit_ux_review_ticket,
}
use openclaw_wave_runner.Controller.PlanReviews.{admit_plan_review_ticket}
use openclaw_wave_runner.Controller.PlanSettle.{record_auto, apply_plan_success}
use openclaw_wave_runner.Controller.StageChecks.{SettleStatus}
use openclaw_wave_runner.Controller.Settlement.{settle_stage}

pub settle_stage-LeavesWork :
    (env : Env) (wave_id : Text) (usage : UsageResult) (status : SettleStatus)
    (output_ref : Option Text) (stage : Option StageRun)
    → LeavesWork (settle_stage env wave_id usage status output_ref stage)
unfolding settle_stage put_stage put_budget
settle_stage-LeavesWork env wave_id usage status output_ref none = record { at = λ c. refl }
settle_stage-LeavesWork env wave_id usage status output_ref (some stage) = record {
  at = λ c. ground arith;
}

pub put_proof-LeavesWork :
    (env : Env) (ws : Workspace) (wave_id ticket_id path kind hash : Text)
    → LeavesWork (put_proof env ws wave_id ticket_id path kind hash)
unfolding put_proof put_artifact
put_proof-LeavesWork env ws wave_id ticket_id path kind hash = record { at = λ c. refl }

add_event-LeavesWork :
    (env : Env) (event_id wave_id type : Text) (payload : Payload) (revision : Option ℕ)
    → LeavesWork (add_event env event_id wave_id type payload revision)
unfolding add_event insert_event
add_event-LeavesWork env event_id wave_id type payload revision = record { at = λ c. ground arith }

pub release-LeavesWork :
    (env : Env) (wave : WaveRecord) (ticket : TicketRun)
    → LeavesWork (release_writer_lease_if_held env wave ticket)
unfolding release_writer_lease_if_held delete_lease authority_release
release-LeavesWork env wave ticket = record { at = λ c. ground arith }

pub apply_plan-LeavesWork :
    (env : Env) (files : ReviewFiles) (wave : WaveRecord) (ticket : TicketRun)
    (path summary : Option Text)
    → LeavesWork (apply_plan_success env files wave ticket path summary)
unfolding apply_plan_success record_auto add_event insert_event put_ticket put_wave
apply_plan-LeavesWork env files wave ticket path summary = record { at = λ c. ground arith }

pub admit_plan-LeavesWork :
    (env : Env) (files : ReviewFiles) (wave_id ticket_id : Text)
    → LeavesWork (admit_plan_review_ticket env files wave_id ticket_id)
unfolding admit_plan_review_ticket revise_plan admit_ticket add_event insert_event put_ticket
    put_wave
admit_plan-LeavesWork env files wave_id ticket_id = record { at = λ c. ground arith }

revise_plan-LeavesWork :
    (env : Env) (files : ReviewFiles) (wave_id type : Text) (ticket : TicketRun) (cap : ℕ)
    (kind : Text) (payload : Payload) (too_often : Text)
    → LeavesWork (revise_plan env files wave_id type ticket cap kind payload too_often)
unfolding revise_plan add_event insert_event put_ticket put_wave
revise_plan-LeavesWork env files wave_id type ticket cap kind payload too_often = record {
  at = λ c. ground arith;
}

admit_ticket-LeavesWork :
    (env : Env) (wave_id : Text) (ticket : TicketRun) (event_id type : Text) (payload : Payload)
    → LeavesWork (admit_ticket env wave_id ticket event_id type payload)
unfolding admit_ticket add_event insert_event put_ticket put_wave
admit_ticket-LeavesWork env wave_id ticket event_id type payload = record { at = λ c. ground arith }

ux_approved-LeavesWork :
    (env : Env) (files : ReviewFiles) (wave_id : Text) (ticket : TicketRun) (plan_attempt : ℕ)
    → LeavesWork (ux_approved env files wave_id ticket plan_attempt)
ux_approved-LeavesWork env files wave_id ticket plan_attempt = record {
  at = λ c.
      elim (Bool-cases (
        has_hop_launch files wave_id ticket.ticket_id (text "ux_review_launch") plan_attempt
          c.db)) [
            | inl launched ↦ rw launched ((admit_ticket-LeavesWork env wave_id ticket _ _ _).at c)
            | inr new ↦ rw new refl
          ];
}

ux_verdict-LeavesWork :
    (env : Env) (files : ReviewFiles) (wave_id : Text) (ticket : TicketRun) (plan_attempt : ℕ)
    (verdict : Option Verdict)
    → LeavesWork (ux_verdict env files wave_id ticket plan_attempt verdict)
ux_verdict-LeavesWork env files wave_id ticket plan_attempt none = record { at = λ c. refl }
ux_verdict-LeavesWork env files wave_id ticket plan_attempt (some Verdict.revise) =
    revise_plan-LeavesWork env files wave_id _ ticket _ _ _ _
ux_verdict-LeavesWork env files wave_id ticket plan_attempt (some Verdict.approve) =
    ux_approved-LeavesWork env files wave_id ticket plan_attempt
ux_verdict-LeavesWork env files wave_id ticket plan_attempt (some Verdict.approve_with_conditions) =
    ux_approved-LeavesWork env files wave_id ticket plan_attempt

ux_verdict_frame :
    (env : Env) (files : ReviewFiles) (wave_id : Text) (ticket : TicketRun) (plan_attempt : ℕ)
    (verdict : Option Verdict) (c : Controller)
    → work (ux_verdict env files wave_id ticket plan_attempt verdict c).1 ≡ work c
ux_verdict_frame env files wave_id ticket plan_attempt verdict c =
    (ux_verdict-LeavesWork env files wave_id ticket plan_attempt verdict).at c

mark_frame :
    (files : ReviewFiles) (ticket : TicketRun) (manifest_json : Text) (c : Controller)
    → ((mark_needs_ux files ticket manifest_json c).0 ≡ ok tt)
      × (work (mark_needs_ux files ticket manifest_json c).1 ≡ work c)
unfolding put_ticket
mark_frame files ticket manifest_json c = ground arith

pub work-continue :
    {A B : Type 0} (r : Result A) (f : A → Exec B) (c c' : Controller)
    → work c' ≡ work c
    → ((a : A) → work (f a c').1 ≡ work c')
    → work (continue r f c').1 ≡ work c
work-continue (ok a) f c c' e next = next a ∙ e
work-continue (err x) f c c' e next = e

settle_ux-LeavesWork :
    (env : Env) (files : ReviewFiles) (wave_id : Text) (ticket : TicketRun) (wave : WaveRecord)
    → LeavesWork (settle_ux env files wave_id ticket wave)
settle_ux-LeavesWork env files wave_id ticket wave = record {
  at = λ c.
      let plan_attempt = latest_plan_attempt wave_id ticket.ticket_id c.db in
      elim (Bool-cases (
        not (ticket_eq ticket.status TicketStatus.plan_review)
        || not (live_needs_ux files ticket wave.manifest_json))) [
          | inl passed_over ↦ rw passed_over refl
          | inr reviewed ↦
              elim (Bool-cases (crawmak_satisfied_for_hop files wave ticket plan_attempt c.db)) [
                | inl satisfied ↦ rw reviewed (
                    rw satisfied (
                      ux_verdict_frame env files wave_id ticket plan_attempt
                        (files.check_ux_review files.mona ticket.ticket_id) c))
                | inr waits ↦ rw reviewed (rw waits refl)
              ]
        ];
}

pub admit_ux-LeavesWork :
    (env : Env) (files : ReviewFiles) (wave_id ticket_id : Text)
    → LeavesWork (admit_ux_review_ticket env files wave_id ticket_id)
unfolding admit_ux_review_ticket require_ticket require_wave
admit_ux-LeavesWork env files wave_id ticket_id = record {
  at = λ c. elim (Option-cases (get_ticket wave_id ticket_id c.db)) [
    | inl missing ↦ rw missing refl
    | inr (ticket, there) ↦ elim (Option-cases (get_wave wave_id c.db)) [
      | inl missing ↦ rw there (rw missing refl)
      | inr (wave, found) ↦
          let marked = mark_needs_ux files ticket wave.manifest_json c in
          rw there (
            rw found (
              work-continue marked.0 _ c marked.1 (mark_frame files ticket wave.manifest_json c).1
                (λ a. (settle_ux-LeavesWork env files wave_id ticket wave).at marked.1)))
    ]
  ];
}
