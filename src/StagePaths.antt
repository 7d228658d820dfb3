-- ===== src/StagePaths.antt =====
-- core/stage-paths.ts and core/admission.ts: names of a stage and the key of one attempt at it.
pub mod Keys
use openclaw_wave_runner.Prelude.{ℕ, Bool, true, false, List, [], ◌∷◌, ◌++◌, Text, text}
use openclaw_wave_runner.Prelude.Decimal.{decimal}
use openclaw_wave_runner.Domain.{StageName}

-- `StageName` is a string.
abbrev pub stage_text : StageName → Text
stage_text StageName.plan = text "PLAN"
stage_text StageName.impl = text "IMPL"
stage_text StageName.verify = text "VERIFY"
stage_text StageName.review = text "REVIEW"
stage_text StageName.ux_review = text "UX_REVIEW"

abbrev pub is_plan_gate_stage : StageName → Bool
is_plan_gate_stage StageName.review = true
is_plan_gate_stage StageName.ux_review = true
is_plan_gate_stage _ = false

abbrev pub colon : ℕ
colon = 58

-- `${waveId}:${ticketId}:${stage}:${attempt}`
unfoldable pub idempotency_key : Text → Text → StageName → ℕ → Text
idempotency_key wave_id ticket_id stage attempt =
    wave_id ++ colon ∷ (ticket_id ++ colon ∷ (stage_text stage ++ colon ∷ decimal attempt))
