-- ===== src/Domain/Worker.antt =====
-- domain/types.ts and core/ports.ts: what passes between the controller and a worker. A status of a
-- worker that the code treats as "not finished" is one of the four unfinished ones.
use openclaw_wave_runner.Prelude.{ℕ, Option, Text}
use openclaw_wave_runner.Domain.Status.{StageName}

pub record LaunchReceipt : Type 0 where
  pub idempotency_key : Text
  pub task_id : Option Text
  pub run_id : Option Text
  pub session_id : Option Text
  pub provider : Option Text
  pub model : Option Text
  pub output_dir : Option Text
  pub cwd : Option Text

pub data WorkerStatus : Type 0 where
  queued running succeeded failed cancelled lost unknown : WorkerStatus

pub record WorkerTruth : Type 0 where
  pub status : WorkerStatus
  pub output_ref : Option Text
  pub summary : Option Text
  pub error : Option Text

pub data UsageResult : Type 0 where
  actual : ℕ → ℕ → UsageResult  -- tokens and cost in micros
  unknown_usage : UsageResult  -- "indeterminate"

pub data StageAgentId : Type 0 where
  grok mona codex : StageAgentId

pub record LaunchIntent : Type 0 where
  pub idempotency_key : Text
  pub wave_id : Text
  pub ticket_id : Text
  pub stage : StageName
  pub attempt : ℕ
  pub prompt : Text
  pub session_key : Text
  pub worktree : Option Text
  pub output_dir : Text
  pub approved_plan_path : Option Text
  pub provider : Option Text
  pub model : Option Text
  pub agent_id : StageAgentId
  pub ux_spec_path : Option Text

-- A call of `WorkerAdapter`, under the idempotency key that it is about.
pub data WorkerCall : Type 0 where
  launched recovered inspected cancelled : Text → WorkerCall
