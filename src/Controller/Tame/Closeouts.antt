-- ===== src/Controller/Tame/Closeouts.antt =====
-- The closeouts of an implementation are tame (core/land-closeout.ts, core/apply-closeout.ts,
-- core/land-lock.ts, core/pending-closeout.ts).
use openclaw_wave_runner.Prelude.{ℕ, Bool, true, Option, none, some, Text, Result, arith}
use openclaw_wave_runner.Domain.{WaveRecord, TicketRun, LaunchOutbox}
use openclaw_wave_runner.Store.{put_ticket, put_wave, put_artifact, put_lease, delete_lease}
use openclaw_wave_runner.Controller.Exec.{Env}
use openclaw_wave_runner.Controller.Workspace.{Workspace, LandResult, ApplyResult, Moment}
use openclaw_wave_runner.Controller.LandLock.{
  LandLockAcquire, taken, deferred, acquire_exclusive_land_lock, release_exclusive_land_lock,
}
use openclaw_wave_runner.Controller.ApplyCloseout.{
  fail_apply, record_apply_outcome, execute_apply_closeout, apply_on_exhausted_impl, apply_in,
  apply_worktree, apply_exhausted,
}
use openclaw_wave_runner.Controller.LandCloseout.{
  fail_land, release_writer_lease_after_land, record_commit_land, record_durable, finish_proven,
  finish_from_durable_proof, land_in, land_worktree, land_under_lock, release_if_settled,
  leave_lock, land_with, finalize_impl_land,
}
use openclaw_wave_runner.Controller.PendingCloseout.{
  close_out, advance_pending_closeouts, apply_settled,
}
use openclaw_wave_runner.Controller.Leases.{release_writer_lease_if_held}
use openclaw_wave_runner.Controller.Settlement.Frames.{release-LeavesWork}
use openclaw_wave_runner.Controller.Tame.{IsTame, IsTame-leaves, IsTame-pure, IsTame-if, tame_rules}

module _ (env : Env) (ws : Workspace) (item : LaunchOutbox) where
  fail_land-IsTame : (reason : Text) → IsTame (fail_land item.wave_id item.ticket_id reason)
  unfolding fail_land put_ticket put_wave
  fail_land-IsTame reason = IsTame-leaves (record { at = λ c. ground arith })

  fail_apply-IsTame : (reason : Text) → IsTame (fail_apply item.wave_id item.ticket_id reason)
  unfolding fail_apply put_ticket put_wave
  fail_apply-IsTame reason = IsTame-leaves (record { at = λ c. ground arith })

  record_commit_land-IsTame :
      (land : LandResult) → IsTame (record_commit_land env ws item.wave_id item.ticket_id land)
  unfolding record_commit_land put_ticket put_wave put_artifact
  record_commit_land-IsTame land = IsTame-leaves (record { at = λ c. ground arith })

  record_durable-IsTame : (proof outcome : Text) → IsTame (record_durable env ws item proof outcome)
  unfolding record_durable put_ticket put_wave put_artifact
  record_durable-IsTame proof outcome = IsTame-leaves (record { at = λ c. ground arith })

  record_apply_outcome-IsTame :
      (done_on_ok : Bool) (applied : ApplyResult)
      → IsTame (record_apply_outcome env ws item done_on_ok applied)
  unfolding record_apply_outcome put_ticket put_wave put_artifact
  record_apply_outcome-IsTame done_on_ok applied = IsTame-leaves (record { at = λ c. ground arith })

  release_held-IsTame :
      (wave : WaveRecord) (ticket : TicketRun)
      → IsTame (release_writer_lease_if_held env wave ticket)
  release_held-IsTame wave ticket = IsTame-leaves (release-LeavesWork env wave ticket)

  release_after-IsTame : IsTame (release_writer_lease_after_land env item)
  unfolding release_writer_lease_after_land
  release_after-IsTame = search (tame_rules, release_held-IsTame)

  finish_proven-IsTame : (proof outcome : Text) → IsTame (finish_proven env ws item proof outcome)
  finish_proven-IsTame proof outcome =
      search (tame_rules, record_durable-IsTame, release_after-IsTame)

  finish-IsTame :
      (moment : Moment) (wave : WaveRecord) (ticket : TicketRun)
      → IsTame (finish_from_durable_proof env ws moment item wave ticket)
  unfolding finish_from_durable_proof
  finish-IsTame moment wave ticket = search (tame_rules, finish_proven-IsTame)

  acquire-IsTame :
      (wave : WaveRecord) → IsTame (acquire_exclusive_land_lock env wave item.ticket_id)
  unfolding acquire_exclusive_land_lock put_lease
  acquire-IsTame wave = IsTame-leaves (record { at = λ c. ground arith })

  release-IsTame :
      (wave : WaveRecord) (generation : ℕ)
      → IsTame (release_exclusive_land_lock env wave item.ticket_id generation)
  unfolding release_exclusive_land_lock delete_lease
  release-IsTame wave generation = IsTame-leaves (record { at = λ c. ground arith })

  apply_in-IsTame :
      (wave : WaveRecord) (ticket : TicketRun) (done_on_ok : Bool) (worktree : Text)
      (apply : Option (WaveRecord → TicketRun → Text → Result ApplyResult))
      → IsTame (apply_in env ws item wave ticket done_on_ok worktree apply)
  apply_in-IsTame wave ticket done_on_ok worktree none = fail_apply-IsTame _
  apply_in-IsTame wave ticket done_on_ok worktree (some apply) =
      search (tame_rules, record_apply_outcome-IsTame)

  apply_worktree-IsTame :
      (wave : WaveRecord) (ticket : TicketRun) (done_on_ok : Bool) (worktree : Option Text)
      → IsTame (apply_worktree env ws item wave ticket done_on_ok worktree)
  apply_worktree-IsTame wave ticket done_on_ok none = fail_apply-IsTame _
  apply_worktree-IsTame wave ticket done_on_ok (some worktree) =
      apply_in-IsTame wave ticket done_on_ok worktree ws.apply_to_workdir

  execute-IsTame :
      (wave : WaveRecord) (ticket : TicketRun) (done_on_ok : Bool)
      → IsTame (execute_apply_closeout env ws item wave ticket done_on_ok)
  unfolding execute_apply_closeout
  execute-IsTame wave ticket done_on_ok =
      search (tame_rules, record_apply_outcome-IsTame, apply_worktree-IsTame)

  land_in-IsTame :
      (wave : WaveRecord) (live : TicketRun) (worktree : Text)
      (land : Option (WaveRecord → TicketRun → Text → Result LandResult))
      → IsTame (land_in env ws item wave live worktree land)
  land_in-IsTame wave live worktree none = fail_land-IsTame _
  land_in-IsTame wave live worktree (some land) = search (tame_rules, record_commit_land-IsTame)

  land_worktree-IsTame :
      (wave : WaveRecord) (live : TicketRun) (worktree : Option Text)
      → IsTame (land_worktree env ws item wave live worktree)
  land_worktree-IsTame wave live none = fail_land-IsTame _
  land_worktree-IsTame wave live (some worktree) =
      IsTame-if _ _ _ (execute-IsTame wave live true)
        (land_in-IsTame wave live worktree ws.land_to_main)

  land_under_lock-IsTame : (wave : WaveRecord) → IsTame (land_under_lock env ws item wave)
  unfolding land_under_lock
  land_under_lock-IsTame wave = search (tame_rules, finish-IsTame, land_worktree-IsTame)

  release_if_settled-IsTame :
      (after : Option TicketRun) → IsTame (release_if_settled env item after)
  release_if_settled-IsTame none = IsTame-pure tt
  release_if_settled-IsTame (some after) = search (tame_rules, release_after-IsTame)

  leave_lock-IsTame :
      (wave : WaveRecord) (generation : ℕ) → IsTame (leave_lock env item wave generation)
  unfolding leave_lock
  leave_lock-IsTame wave generation = search (tame_rules, release-IsTame, release_if_settled-IsTame)

  land_with-IsTame :
      (wave : WaveRecord) (got : LandLockAcquire) → IsTame (land_with env ws item wave got)
  land_with-IsTame wave deferred = IsTame-pure tt
  land_with-IsTame wave (taken generation) =
      search (tame_rules, land_under_lock-IsTame, leave_lock-IsTame)

  pub finalize_impl_land-IsTame : IsTame (finalize_impl_land env ws item)
  unfolding finalize_impl_land
  finalize_impl_land-IsTame =
      search (tame_rules, finish-IsTame, acquire-IsTame, land_with-IsTame) depth 12

  apply_exhausted-IsTame :
      (wave : WaveRecord) (got : LandLockAcquire) → IsTame (apply_exhausted env ws item wave got)
  apply_exhausted-IsTame wave deferred = IsTame-pure tt
  apply_exhausted-IsTame wave (taken generation) =
      search (tame_rules, execute-IsTame, release-IsTame)

  pub apply_on_exhausted-IsTame : IsTame (apply_on_exhausted_impl env ws item)
  unfolding apply_on_exhausted_impl
  apply_on_exhausted-IsTame = search (tame_rules, acquire-IsTame, apply_exhausted-IsTame) depth 12

module _ (env : Env) (ws : Workspace) (wave_id : Text) where
  apply_settled-IsTame : (settled : Option LaunchOutbox) → IsTame (apply_settled env ws settled)
  apply_settled-IsTame none = IsTame-pure tt
  apply_settled-IsTame (some settled) = apply_on_exhausted-IsTame env ws settled

  close_out-IsTame :
      (wave : WaveRecord) (ticket : TicketRun) → IsTame (close_out env ws wave wave_id ticket)
  close_out-IsTame wave ticket =
      search (tame_rules, finalize_impl_land-IsTame, apply_settled-IsTame)

  pub advance_pending_closeouts-IsTame : IsTame (advance_pending_closeouts env ws wave_id)
  unfolding advance_pending_closeouts
  advance_pending_closeouts-IsTame = search (tame_rules, close_out-IsTame)
