-- ===== src/Controller/Tame/Settlements.antt =====
-- The settlement of a row (core/settlement.ts) is tame.
use openclaw_wave_runner.Prelude.{
  ℕ, ◌≡◌, inl, inr, refl, Option, some, Text, ok, Result-cases, Bool-cases, arith,
}
use openclaw_wave_runner.Domain.{OutboxState, outbox_eq, LaunchOutbox}
use openclaw_wave_runner.Domain.Worker.{LaunchReceipt}
use openclaw_wave_runner.Outbox.{mark_settled}
use openclaw_wave_runner.Store.{put_outbox}
use openclaw_wave_runner.Controller.Exec.{Env, Exec, try_modify}
use openclaw_wave_runner.Controller.Context.{require_wave, require_ticket}
use openclaw_wave_runner.Controller.Workspace.{Workspace}
use openclaw_wave_runner.Controller.Reviews.{ReviewFiles}
use openclaw_wave_runner.Controller.StageChecks.{
  SettleStatus, succeeded, died, Settler, check_plan, check_impl, check_stage,
}
use openclaw_wave_runner.Controller.Settlement.{settle_row, settle_rows, close_impl, settle_outbox}
use openclaw_wave_runner.Controller.Settlement.Work.{settle_work-LeavesWork}
use openclaw_wave_runner.Controller.Quiet.{
  started_state, IsQuiet-refl, IsQuiet-same, IsQuiet-continue, IsQuiet-write, IsQuiet-read_write,
}
use openclaw_wave_runner.Controller.Tame.Closeouts.{
  finalize_impl_land-IsTame, apply_on_exhausted-IsTame,
}
use openclaw_wave_runner.Controller.Tame.{
  LeavesWork, IsTame, IsTame-quiet, IsTame-leaves, tame_rules,
}

check_stage-IsTame :
    (ws : Workspace) (settler : Settler) (item : LaunchOutbox) (receipt : LaunchReceipt)
    (status : SettleStatus) (output_ref summary : Option Text)
    → IsTame (check_stage ws settler item receipt status output_ref summary)
unfolding check_plan check_impl require_ticket require_wave
check_stage-IsTame ws settler item receipt status output_ref summary =
    IsTame-leaves (record { at = λ c. ground arith })

settled_row :
    (row row' : LaunchOutbox) (now : ℕ)
    → mark_settled row now ≡ ok row'
    → (row'.outbox_id ≡ row.outbox_id) × (started_state (some row') ≡ 1)
unfolding mark_settled
settled_row row row' now h = ground arith

settle_rows-IsTame :
    (env : Env) (item : LaunchOutbox) (work : Exec (Unit {0}))
    → LeavesWork work
    → IsTame (settle_rows env item work)
unfolding settle_rows
settle_rows-IsTame env item work leaves = IsTame-quiet (λ c keyed.
    IsQuiet-read_write item.idempotency_key c keyed (settle_row env work)
      (λ r there. elim (Bool-cases (outbox_eq r.state OutboxState.settled)) [
        | inl done ↦ rw done (IsQuiet-refl c keyed)
        | inr live ↦ rw live (elim (Result-cases (mark_settled r env.now)) [
          | inr (e, refused) ↦ rw refused (IsQuiet-refl c keyed)
          | inl (r', fine) ↦ rw fine (
              let (same_id, go) = settled_row r r' env.now fine in
              let written = IsQuiet-write item.idempotency_key c keyed r there r' same_id go in
              let c' = (try_modify (put_outbox r') c).1 in
              IsQuiet-continue (try_modify (put_outbox r') c).0 _ written (λ a done.
                IsQuiet-same c' (work c').1 written.keyed (λ i. (leaves.at c' i).0)
                  (λ i. (leaves.at c' i).1)))
        ])
      ])
      refl)

-- The settlement of a row, with the closeout of an implementation that follows.
module _ (env : Env) (ws : Workspace) (files : ReviewFiles) (settler : Settler) where
  close_impl-IsTame :
      (item : LaunchOutbox) (status : SettleStatus) → IsTame (close_impl env ws item status)
  close_impl-IsTame item succeeded = finalize_impl_land-IsTame env ws item
  close_impl-IsTame item (died how) = search (tame_rules, apply_on_exhausted-IsTame)

  pub settle_outbox-IsTame :
      (item : LaunchOutbox) (receipt : LaunchReceipt) (status : SettleStatus)
      (output_ref summary error : Option Text)
      → IsTame (settle_outbox env ws files settler item receipt status output_ref summary error)
  unfolding settle_outbox
  settle_outbox-IsTame item receipt status output_ref summary error =
      search
        (
          check_stage-IsTame, settle_rows-IsTame, settle_work-LeavesWork, close_impl-IsTame,
          tame_rules,
        )
        depth 16
