-- ===== src/Controller/StageChecks.antt =====
-- core/settlement.ts and core/impl-verify.ts: the output of a stage that succeeded is checked before it is
-- settled; a plan is kept as an artifact, an implementation is verified and committed.
use openclaw_wave_runner.Prelude.{
  Bool, not, Option, none, some, get_or, ◌++◌, if◌then◌else◌, Text, text, is_empty, WaveError,
  Result, ok, err,
}
use openclaw_wave_runner.Domain.{StageName, WaveRecord, TicketRun, LaunchOutbox}
use openclaw_wave_runner.Domain.Worker.{LaunchReceipt, UsageResult}
use openclaw_wave_runner.Controller.Exec.{Exec, ◌>>=◌, pure, lift, query}
use openclaw_wave_runner.Controller.Context.{require_wave, require_ticket}
use openclaw_wave_runner.Controller.Leases.{truthy}
use openclaw_wave_runner.Controller.Reasons.{DeathStatus, failed, trim, clip_reason}
use openclaw_wave_runner.Controller.Workspace.{Workspace}
use openclaw_wave_runner.Controller.ApplyCloseout.{wants_apply}
use openclaw_wave_runner.Controller.LandCloseout.{impl_fence_failure}
use openclaw_wave_runner.Controller.PlanArtifact.{fallback_plan}

pub data SettleStatus : Type 0 where
  succeeded : SettleStatus
  died : DeathStatus → SettleStatus

-- what `workspace.verify` answers
pub record VerifyResult : Type 0 where
  pub passed : Bool
  pub proof : Text
  pub classify : Option Text

-- The rest of what a settlement asks of its adapters; `plan_file` is the text that `readActualPlanText`
-- finds on disk, and `error_text` the message of an error.
pub record Settler : Type 0 where
  pub settle_usage : LaunchReceipt → Result UsageResult
  pub plan_file : Option Text → Option Text → Option Text
  pub write_plan_artifact : Text → Text → Text → Text → Result Text
  pub verify : Text → Text → Result VerifyResult
  pub commit_verified : Text → Text → Text → Text → Result Text
  pub error_text : WaveError → Text

-- what the stage left behind, and what became of it
pub record Checked : Type 0 where
  pub status : SettleStatus
  pub plan_path : Option Text
  pub summary : Option Text
  pub verify_proof : Option Text
  pub fail_snippet : Option Text
  pub impl_sha : Option Text

abbrev pub unchecked : SettleStatus → Option Text → Checked
unchecked status summary = record {
  status = status;
  plan_path = none;
  summary = summary;
  verify_proof = none;
  fail_snippet = none;
  impl_sha = none;
}

abbrev failed_by : Option Text → Text → Option Text → Checked
failed_by summary snippet proof = record (unchecked (died failed) summary) {
  fail_snippet = some snippet;
  verify_proof = proof;
}

-- the PLAN that succeeded: its text is kept as an artifact and takes the place of the summary
unfoldable pub check_plan :
    Settler → LaunchOutbox → LaunchReceipt → Option Text → Option Text → Exec Checked
unfolding require_ticket require_wave fallback_plan
check_plan settler item receipt output_ref summary = do
  ticket ← require_ticket item.wave_id item.ticket_id
  let plan_text =
      get_or (settler.plan_file receipt.output_dir output_ref)
        (fallback_plan item.ticket_id ticket.plan_class summary ticket.verify_command)
  wave ← require_wave item.wave_id
  path ← lift (settler.write_plan_artifact wave.repo_path item.wave_id item.ticket_id plan_text)
  pure (record (unchecked succeeded (some plan_text)) { plan_path = some path })

abbrev committed : Settler → Option Text → Text → Result Text → Checked
committed settler summary proof (err e) =
    failed_by summary (clip_reason (text "commit-on-verify: " ++ settler.error_text e)) (some proof)
committed settler summary proof (ok sha) =
    if is_empty (trim sha)
    then failed_by summary (clip_reason (text "commit-on-verify empty sha")) (some proof)
    else record (unchecked succeeded summary) { verify_proof = some proof; impl_sha = some sha }

abbrev verified :
    Settler → WaveRecord → TicketRun → Option Text → Text → Text → VerifyResult → Checked
verified settler wave ticket summary worktree command ran =
    if not ran.passed
    then failed_by summary
        (clip_reason (
          get_or ran.classify (text "product_verify")
          ++ (text ": verify failed: " ++ (command ++ (text " (" ++ (ran.proof ++ text ")"))))))
        (some ran.proof)
    else committed settler summary ran.proof
        (settler.commit_verified wave.repo_path worktree ticket.ticket_id wave.wave_id)

-- `runImplVerifyAndCommit`, where there is a worktree
abbrev verify_in :
    Settler → WaveRecord → TicketRun → Option Text → Text → Option Text → Exec Checked
verify_in settler wave ticket summary command none = pure (unchecked succeeded summary)
verify_in settler wave ticket summary command (some worktree) = do
  ran ← lift (settler.verify worktree command)
  pure (verified settler wave ticket summary worktree command ran)

abbrev verify_command_of :
    Settler → WaveRecord → TicketRun → Option Text → Option Text → Exec Checked
verify_command_of settler wave ticket summary none =
    pure (failed_by summary (text "missing_verify") none)
verify_command_of settler wave ticket summary (some command) =
    verify_in settler wave ticket summary command (truthy ticket.impl_worktree)

-- a stale fence fails the IMPL, but not in apply mode
abbrev fenced : Settler → WaveRecord → TicketRun → Option Text → Bool → Option Text → Exec Checked
fenced settler wave ticket summary applies none =
    verify_command_of settler wave ticket summary (truthy ticket.verify_command)
fenced settler wave ticket summary applies (some fence) =
    if applies
    then verify_command_of settler wave ticket summary (truthy ticket.verify_command)
    else pure (failed_by summary fence none)

unfoldable pub check_impl : Workspace → Settler → LaunchOutbox → Option Text → Exec Checked
unfolding require_ticket require_wave wants_apply impl_fence_failure clip_reason trim
check_impl ws settler item summary = do
  ticket ← require_ticket item.wave_id item.ticket_id
  wave ← require_wave item.wave_id
  fence ← query (impl_fence_failure item ticket wave)
  fenced settler wave ticket summary (wants_apply ws wave ticket) fence

abbrev pub check_stage :
    Workspace
    → Settler
    → LaunchOutbox
    → LaunchReceipt
    → SettleStatus
    → Option Text
    → Option Text
    → Exec Checked
check_stage ws settler item receipt (died how) output_ref summary =
    pure (unchecked (died how) summary)
check_stage ws settler item receipt succeeded output_ref summary = elim item.stage [
  | StageName.plan ↦ check_plan settler item receipt output_ref summary
  | StageName.impl ↦ check_impl ws settler item summary
  | _ ↦ pure (unchecked succeeded summary)
]
