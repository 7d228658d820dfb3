-- ===== src/Domain/Records.antt =====
-- domain/types.ts: the records. Numbers are natural numbers: timestamps, counts and token sums are
-- never negative. A field that may be `undefined` is an `Option`; a `boolean?` field too.
use openclaw_wave_runner.Prelude.{ℕ, Bool, Option, List, Text}
use openclaw_wave_runner.Domain.Status.{
  WaveStatus, TicketStatus, StageName, StageStatus, BudgetState, OutboxState, QuotaMode,
}

pub record WaveLimits : Type 0 where
  pub max_tokens : ℕ
  pub max_cost_micros : ℕ
  pub max_launches : ℕ
  pub max_retries_per_stage : ℕ
  pub max_wall_time_ms : ℕ
  pub repo_concurrency : ℕ
  pub per_provider_concurrency : ℕ
  pub per_stage_reservation_tokens : ℕ
  pub per_stage_reservation_cost_micros : ℕ

pub record WaveCounters : Type 0 where
  pub committed_tokens : ℕ
  pub reserved_tokens : ℕ
  pub indeterminate_tokens : ℕ
  pub committed_cost_micros : ℕ
  pub reserved_cost_micros : ℕ
  pub indeterminate_cost_micros : ℕ
  pub launches : ℕ
  pub started_at : Option ℕ

pub record WaveRecord : Type 0 where
  pub wave_id : Text
  pub manifest_json : Text
  pub manifest_hash : Text
  pub repo_path : Text
  pub base_sha : Text
  pub status : WaveStatus
  pub revision : ℕ
  pub deadline_ms : Option ℕ
  pub stop_at : Option ℕ
  pub limits : WaveLimits
  pub counters : WaveCounters
  pub flow_id : Option Text
  pub owner : Text
  pub next_action : Text
  pub created_at : ℕ
  pub updated_at : ℕ
  pub cancel_requested : Bool
  pub quota_mode : QuotaMode

-- `humanHoldReason`
pub data HumanHoldReason : Type 0 where
  needs_jason human_gated : HumanHoldReason

pub record TicketRun : Type 0 where
  pub wave_id : Text
  pub ticket_id : Text
  pub content_hash : Text
  pub title : Text
  pub depends_on : List Text
  pub order : ℕ
  pub source_path : Text
  pub stage : Option StageName  -- `none` is "NONE"
  pub status : TicketStatus
  pub revision : ℕ
  pub owner : Text
  pub next_action : Text
  pub plan_class : Option Text
  pub plan_artifact : Option Text
  pub impl_worktree : Option Text
  pub impl_branch : Option Text
  pub impl_sha : Option Text
  pub verify_proof : Option Text
  pub verify_command : Option Text
  pub provider : Option Text
  pub model : Option Text
  pub human_hold : Option Bool
  pub human_hold_reason : Option HumanHoldReason
  pub writer_scope : Option Text
  pub product : Option Text
  pub game : Option Text
  pub outcome : Option Text  -- `result`
  pub plan_review_skip : Option Bool
  pub plan_review_revise_cap : Option ℕ
  pub needs_ux : Option Bool
  pub ux_spec_path : Option Text
  pub ux_review_revise_cap : Option ℕ
  pub plan_worker : Option Text

pub record StageRun : Type 0 where
  pub stage_run_id : Text
  pub wave_id : Text
  pub ticket_id : Text
  pub stage : StageName
  pub attempt : ℕ
  pub idempotency_key : Text
  pub model : Option Text
  pub provider : Option Text
  pub task_id : Option Text
  pub run_id : Option Text
  pub session_id : Option Text
  pub receipt_json : Option Text
  pub output_ref : Option Text
  pub status : StageStatus
  pub created_at : ℕ

pub record BudgetEntry : Type 0 where
  pub budget_id : Text
  pub wave_id : Text
  pub stage_run_id : Option Text
  pub tokens_reserved : ℕ
  pub cost_reserved_micros : ℕ
  pub tokens_actual : Option ℕ
  pub cost_actual_micros : Option ℕ
  pub state : BudgetState
  pub created_at : ℕ
  pub updated_at : ℕ

pub record LaunchOutbox : Type 0 where
  pub outbox_id : Text
  pub wave_id : Text
  pub ticket_id : Text
  pub stage : StageName
  pub attempt : ℕ
  pub idempotency_key : Text
  pub state : OutboxState
  pub fencing_generation : ℕ
  pub claimed_by : Option Text
  pub claimed_at : Option ℕ
  pub receipt_json : Option Text
  pub error : Option Text
  pub created_at : ℕ
  pub updated_at : ℕ

pub record LeaseRecord : Type 0 where
  pub resource_key : Text
  pub generation : ℕ
  pub holder : Text
  pub wave_id : Option Text
  pub ticket_id : Option Text
  pub task_id : Option Text
  pub process_identity : Text
  pub pid : Option ℕ
  pub pid_start_time : Option Text
  pub expires_at : ℕ
  pub created_at : ℕ

pub record DomainEvent : Type 0 where
  pub event_id : Text
  pub wave_id : Text
  pub type : Text
  pub payload_json : Text
  pub created_at : ℕ
  pub revision_applied : Option ℕ

pub record ArtifactRecord : Type 0 where
  pub artifact_id : Text
  pub wave_id : Text
  pub ticket_id : Option Text
  pub kind : Text
  pub path : Text
  pub hash : Option Text
  pub created_at : ℕ
