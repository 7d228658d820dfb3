-- ===== src/Controller/Settlement/Work.antt =====
-- The whole work of a settlement leaves the outbox and the calls of the worker alone (core/settlement.ts).
use openclaw_wave_runner.Prelude.{ℕ, refl, Bool, true, false, Option, none, some, Text, text, arith}
use openclaw_wave_runner.Domain.{StageName, LaunchOutbox, WaveRecord, TicketRun}
use openclaw_wave_runner.Domain.Worker.{UsageResult}
use openclaw_wave_runner.Store.{get_stage_by_idempotency, put_ticket, put_wave, put_artifact}
use openclaw_wave_runner.Controller.Exec.{Env, Exec, ◌>>=◌, ◌>>◌, query, when}
use openclaw_wave_runner.Controller.Tame.{LeavesWork}
use openclaw_wave_runner.Controller.Context.{require_wave, require_ticket, refresh_counters}
use openclaw_wave_runner.Controller.Leases.{truthy}
use openclaw_wave_runner.Controller.FailLaunch.{attempt_of_stage}
use openclaw_wave_runner.Controller.Workspace.{Workspace}
use openclaw_wave_runner.Controller.ApplyCloseout.{put_proof}
use openclaw_wave_runner.Controller.Reviews.{ReviewFiles}
use openclaw_wave_runner.Controller.UxReviews.{admit_ux_review_ticket}
use openclaw_wave_runner.Controller.PlanReviews.{admit_plan_review_ticket}
use openclaw_wave_runner.Controller.StageChecks.{SettleStatus, succeeded, died, Checked}
use openclaw_wave_runner.Controller.Settlement.{
  settle_stage, is_retried, rearm, write_dead, write_death, dead_ticket, settle_death,
  settle_success, settle_ticket, keep_path, settle_work,
}
use openclaw_wave_runner.Controller.Settlement.Frames.{
  settle_stage-LeavesWork, put_proof-LeavesWork, release-LeavesWork, apply_plan-LeavesWork,
  admit_plan-LeavesWork, work-continue, admit_ux-LeavesWork,
}

rearm-LeavesWork :
    (env : Env) (wave : WaveRecord) (ticket : TicketRun) (item : LaunchOutbox) (after : TicketRun)
    → LeavesWork (rearm env wave ticket item after)
unfolding put_ticket put_wave
rearm-LeavesWork env wave ticket item after = record { at = λ c. ground arith }

write_dead-LeavesWork :
    (env : Env) (ws : Workspace) (wave : WaveRecord) (ticket : TicketRun) (item : LaunchOutbox)
    (receipt_succeeded : Bool) (after : TicketRun) (reason : Text) (cancelled again : Bool)
    → LeavesWork (write_dead env ws wave ticket item receipt_succeeded after reason cancelled again)
unfolding put_proof put_artifact put_ticket
write_dead-LeavesWork env ws wave ticket item r after reason true again = record { at = λ c. refl }
write_dead-LeavesWork env ws wave ticket item r after reason false true =
    rearm-LeavesWork env wave ticket item after
write_dead-LeavesWork env ws wave ticket item true after reason false false = record {
  at = λ c. refl;
}
write_dead-LeavesWork env ws wave ticket item false after reason false false = record {
  at = λ c. refl;
}

LeavesWork-bind :
    {A B : Type 0} (m : Exec A) (f : A → Exec B)
    → LeavesWork m
    → ((a : A) → LeavesWork (f a))
    → LeavesWork (m >>= f)
LeavesWork-bind m f h k = record {
  at = λ c. work-continue (m c).0 f c (m c).1 (h.at c) (λ a. (k a).at (m c).1);
}

when-LeavesWork : (b : Bool) (m : Exec (Unit {0})) → LeavesWork m → LeavesWork (when b m)
when-LeavesWork true m h = h
when-LeavesWork false m h = record { at = λ c. refl }

settle_death-LeavesWork :
    (env : Env) (ws : Workspace) (wave : WaveRecord) (ticket : TicketRun) (item : LaunchOutbox)
    (receipt_succeeded : Bool) (snippet : Option Text) (attempt : ℕ) (reason : Text)
    → LeavesWork (settle_death env ws wave ticket item receipt_succeeded snippet attempt reason)
unfolding settle_death write_death
settle_death-LeavesWork env ws wave ticket item receipt_succeeded snippet attempt reason = record {
  at = λ c.
      let first = write_death env ws wave ticket item receipt_succeeded snippet attempt reason c in
      work-continue first.0 _ c first.1
        ((write_dead-LeavesWork env ws wave ticket item receipt_succeeded
            (dead_ticket wave ticket item snippet attempt reason) reason wave.cancel_requested
            (is_retried wave ticket item snippet attempt reason)).at
          c)
        (λ a.
          (when-LeavesWork _ _ (
              release-LeavesWork env wave (dead_ticket wave ticket item snippet attempt reason))).at
            first.1);
}

settle_success-LeavesWork :
    (env : Env) (files : ReviewFiles) (wave : WaveRecord) (ticket : TicketRun) (item : LaunchOutbox)
    (checked : Checked) (stage : StageName)
    → LeavesWork (settle_success env files wave ticket item checked stage)
unfolding put_ticket
settle_success-LeavesWork env files wave ticket item checked StageName.plan =
    apply_plan-LeavesWork env files wave ticket checked.plan_path checked.summary
settle_success-LeavesWork env files wave ticket item checked StageName.review = record {
  at = λ c.
      let admitted = admit_plan_review_ticket env files item.wave_id item.ticket_id c in
      work-continue admitted.0 _ c admitted.1
        ((admit_plan-LeavesWork env files item.wave_id item.ticket_id).at c) (λ a. refl);
}
settle_success-LeavesWork env files wave ticket item checked StageName.ux_review = record {
  at = λ c.
      let admitted = admit_ux_review_ticket env files item.wave_id item.ticket_id c in
      work-continue admitted.0 _ c admitted.1
        ((admit_ux-LeavesWork env files item.wave_id item.ticket_id).at c) (λ a. refl);
}
settle_success-LeavesWork env files wave ticket item checked StageName.impl = record {
  at = λ c. refl;
}
settle_success-LeavesWork env files wave ticket item checked StageName.verify = record {
  at = λ c. refl;
}

settle_ticket-LeavesWork :
    (env : Env) (ws : Workspace) (files : ReviewFiles) (wave : WaveRecord) (ticket : TicketRun)
    (item : LaunchOutbox) (receipt_succeeded : Bool) (checked : Checked) (error : Option Text)
    (attempt : ℕ) (status : SettleStatus)
    → LeavesWork
        (settle_ticket env ws files wave ticket item receipt_succeeded checked error attempt status)
settle_ticket-LeavesWork env ws files wave ticket item r checked error attempt succeeded =
    settle_success-LeavesWork env files wave ticket item checked item.stage
settle_ticket-LeavesWork env ws files wave ticket item r checked error attempt (died how) =
    settle_death-LeavesWork env ws wave ticket item r checked.fail_snippet attempt _

keep_path-LeavesWork :
    (env : Env) (ws : Workspace) (item : LaunchOutbox) (kind : Text) (path : Option Text)
    → LeavesWork (keep_path env ws item kind path)
keep_path-LeavesWork env ws item kind none = record { at = λ c. refl }
keep_path-LeavesWork env ws item kind (some path) =
    put_proof-LeavesWork env ws item.wave_id item.ticket_id path kind (ws.hash_json path)

refresh_counters-LeavesWork : (wave_id : Text) → LeavesWork (refresh_counters wave_id)
unfolding refresh_counters put_wave
refresh_counters-LeavesWork wave_id = record { at = λ c. ground arith }

-- what follows the stage
settled :
    (env : Env) (ws : Workspace) (files : ReviewFiles) (item : LaunchOutbox) (r : Bool)
    (checked : Checked) (error : Option Text) (attempt : ℕ) (wave : WaveRecord) (ticket : TicketRun)
    → LeavesWork (
        settle_ticket env ws files wave ticket item r checked error attempt checked.status
        >> (keep_path env ws item (text "plan") (truthy checked.plan_path)
            >> (keep_path env ws item (text "proof") (truthy checked.verify_proof)
                >> refresh_counters item.wave_id)))
settled env ws files item r checked error attempt wave ticket =
    LeavesWork-bind
      (settle_ticket env ws files wave ticket item r checked error attempt checked.status) _
      (settle_ticket-LeavesWork env ws files wave ticket item r checked error attempt
        checked.status)
      (λ _.
        LeavesWork-bind (keep_path env ws item (text "plan") (truthy checked.plan_path)) _
          (keep_path-LeavesWork env ws item (text "plan") (truthy checked.plan_path))
          (λ _.
            LeavesWork-bind (keep_path env ws item (text "proof") (truthy checked.verify_proof)) _
              (keep_path-LeavesWork env ws item (text "proof") (truthy checked.verify_proof))
              (λ _. refresh_counters-LeavesWork item.wave_id)))

-- The work of a settlement, whatever becomes of the stage, leaves the outbox and the calls of the worker
-- alone.
pub settle_work-LeavesWork :
    (env : Env) (ws : Workspace) (files : ReviewFiles) (item : LaunchOutbox)
    (receipt_succeeded : Bool) (usage : UsageResult) (checked : Checked)
    (output_ref error : Option Text)
    → LeavesWork (settle_work env ws files item receipt_succeeded usage checked output_ref error)
unfolding settle_work require_ticket require_wave
settle_work-LeavesWork env ws files item r usage checked output_ref error =
    LeavesWork-bind (query (get_stage_by_idempotency item.idempotency_key)) _
      (record { at = λ c. refl })
      (λ stage.
        LeavesWork-bind (settle_stage env item.wave_id usage checked.status output_ref stage) _
          (settle_stage-LeavesWork env item.wave_id usage checked.status output_ref stage)
          (λ _.
            LeavesWork-bind (require_ticket item.wave_id item.ticket_id) _
              (record { at = λ c. refl })
              (λ ticket.
                LeavesWork-bind (require_wave item.wave_id) _ (record { at = λ c. refl })
                  (λ wave.
                    settled env ws files item r checked error (attempt_of_stage stage item) wave
                      ticket))))
