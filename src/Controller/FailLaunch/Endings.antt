-- ===== src/Controller/FailLaunch/Endings.antt =====
-- What `failLaunchWithoutReceipt` (core/fail-launch.ts) leaves alone and what it leaves behind.
use openclaw_wave_runner.Prelude.{
  ℕ, ◌≡◌, inl, inr, refl, Option, none, some, Text, Bool-cases, ok, arith,
}
use openclaw_wave_runner.Domain.{StageRun, LaunchOutbox}
use openclaw_wave_runner.Outbox.{mark_failed}
use openclaw_wave_runner.Store.{
  get_stage_by_idempotency, put_outbox, put_ticket, put_stage, put_budget, put_wave,
}
use openclaw_wave_runner.Store.Outbox.{IsKeyedOutbox}
use openclaw_wave_runner.Controller.Exec.{Env, Controller, try_modify}
use openclaw_wave_runner.Controller.Context.{refresh_counters}
use openclaw_wave_runner.Controller.Quiet.{
  started_state, IsQuiet, IsQuiet-refl, IsQuiet-same, IsQuiet-continue, IsQuiet-write,
  IsQuiet-read_write,
}
use openclaw_wave_runner.Controller.FailLaunch.{
  is_closed_outbox, attempt_of_stage, fail_stage, fail_ticket, fail_work, rearm_or_fail, fail_row,
  fail_launch_without_receipt,
}
use openclaw_wave_runner.Controller.Reasons.{clip_reason}

marked_failed :
    (r r' : LaunchOutbox) (reason : Text) (now : ℕ)
    → mark_failed r reason now ≡ ok r'
    → (r'.outbox_id ≡ r.outbox_id) × (started_state (some r') ≡ 1)
unfolding mark_failed
marked_failed r r' reason now h = ground arith

fail_stage_frame :
    (env : Env) (wave_id : Text) (stage : Option StageRun) (c : Controller)
    → let c' = (fail_stage env wave_id stage c).1 in
      (c'.db.outbox ≡ c.db.outbox) × (c'.calls ≡ c.calls)
unfolding fail_stage put_stage put_budget
fail_stage_frame env wave_id none c = (refl, refl)
fail_stage_frame env wave_id (some stage) c = ground arith

pub refresh_counters_frame :
    (wave_id : Text) (c : Controller)
    → let c' = (refresh_counters wave_id c).1 in (c'.db.outbox ≡ c.db.outbox) × (c'.calls ≡ c.calls)
unfolding refresh_counters put_wave
refresh_counters_frame wave_id c = ground arith

fail_ticket_frame :
    (item : LaunchOutbox) (attempt : ℕ) (reason : Text) (c : Controller)
    → let c' = (fail_ticket item attempt reason c).1 in
      (c'.db.outbox ≡ c.db.outbox) × (c'.calls ≡ c.calls)
unfolding fail_ticket rearm_or_fail refresh_counters put_ticket put_wave
fail_ticket_frame item attempt reason c = ground arith

fail_work-IsQuiet :
    (env : Env) (item : LaunchOutbox) (reason : Text) (c : Controller)
    → IsKeyedOutbox c.db
    → IsQuiet c (fail_work env item reason c).1
unfolding fail_work
fail_work-IsQuiet env item reason c keyed =
    let stage = get_stage_by_idempotency item.idempotency_key c.db in
    let first = fail_stage_frame env item.wave_id stage c in
    let closed = IsQuiet-same c (fail_stage env item.wave_id stage c).1 keyed first.0 first.1 in
    IsQuiet-continue (fail_stage env item.wave_id stage c).0 _ closed (λ a done.
      let second =
        fail_ticket_frame item (attempt_of_stage stage item) reason
          (fail_stage env item.wave_id stage c).1 in
      IsQuiet-same _ _ closed.keyed second.0 second.1)

pub fail_launch-IsQuiet :
    (env : Env) (item : LaunchOutbox) (reason : Text) (c : Controller)
    → IsKeyedOutbox c.db
    → IsQuiet c (fail_launch_without_receipt env item reason c).1
unfolding fail_launch_without_receipt
fail_launch-IsQuiet env item reason c keyed =
    IsQuiet-read_write item.idempotency_key c keyed (fail_row env item (clip_reason reason))
      (λ r there. elim (Bool-cases (is_closed_outbox r.state)) [
        | inl closed ↦ rw closed (IsQuiet-refl c keyed)
        | inr live ↦ rw live (
            IsQuiet-continue (mark_failed r (clip_reason reason) env.now) _ (IsQuiet-refl c keyed)
              (λ r' fine.
                let (same_id, go) = marked_failed r r' (clip_reason reason) env.now fine in
                let written = IsQuiet-write item.idempotency_key c keyed r there r' same_id go in
                IsQuiet-continue (try_modify (put_outbox r') c).0 _ written
                  (λ a done. fail_work-IsQuiet env item (clip_reason reason) _ written.keyed)))
      ])
      refl
