-- ===== src/Controller/Adapters.antt =====
-- core/ports.ts: what the controller asks of workers, workspaces and files. An answer that the code
-- awaits may be an error. The worker may answer by what it was asked before; the others are functions
-- of their input.
use openclaw_wave_runner.Prelude.{Bool, Option, List, Text, Result}
use openclaw_wave_runner.Domain.{WaveRecord, TicketRun, LaunchOutbox}
use openclaw_wave_runner.Domain.Worker.{
  LaunchReceipt, WorkerTruth, UsageResult, LaunchIntent, WorkerCall,
}
use openclaw_wave_runner.Controller.FailLaunch.{LaunchAnswer}

-- the verdict of a review
pub data Verdict : Type 0 where
  approve approve_with_conditions revise : Verdict

pub record Adapters : Type 0 where
  -- `WorkerAdapter`
  pub launch : List WorkerCall → LaunchIntent → LaunchAnswer
  pub recover : List WorkerCall → LaunchIntent → Result (Option LaunchReceipt)
  pub inspect : List WorkerCall → LaunchReceipt → Result WorkerTruth
  -- `JSON.stringify` and `JSON.parse` of a receipt
  pub to_json : LaunchReceipt → Text
  pub of_json : Text → Result LaunchReceipt
  -- `UsageAdapter.settle`
  pub settle_usage : LaunchReceipt → Result UsageResult
  -- `WorkspaceAdapter.createImplWorktree`: the worktree and its branch
  pub create_worktree : WaveRecord → Text → Text → Result (Text × Text)
  -- `WorkflowBackend.linkStageTask`
  pub link_stage_task : LaunchOutbox → LaunchReceipt → Result (Unit {0})
  -- `localeCompare` of two ids is at most 0
  pub comes_before : Text → Text → Bool
  -- `node:path`'s `join`, the prompt, and the roots of the configuration
  pub join : List Text → Text
  pub prompt : LaunchOutbox → TicketRun → Option Text → Text
  pub artifact_root : Option Text
  pub worktree_root : Option Text
  -- `resolveCrawmakForge` of a repository and `resolveMonaWorkspace`
  pub forge_of : Text → Option Text
  pub mona : Option Text
  -- `prepareImplContract`: why the launch of an IMPL must not happen
  pub contract_refusal : Option Text → Text → Text → Option Text
