-- ===== src/Controller/Workspace.antt =====
-- What the closeout of a ticket asks of the workspace, of files and of the environment (core/ports.ts,
-- core/closeout-proof.ts). Files may change while the land lock is waited for, so a proof on disk is
-- read at a moment; what a call of the workspace leaves on disk is part of its answer.
use openclaw_wave_runner.Prelude.{
  Bool, Option, get_or, List, [], ◌∷◌, Text, text, WaveError, Result,
}
use openclaw_wave_runner.Domain.{WaveRecord, TicketRun, ArtifactRecord}
use openclaw_wave_runner.Manifest.{FrozenTicket}

-- `LandResult`: `recovery` is the hash of its receipt, `proof_exists` is `existsSync(proof)`
pub record LandResult : Type 0 where
  pub succeeded : Bool  -- `ok`
  pub commit_sha : Option Text
  pub proof : Text
  pub proof_exists : Bool
  pub error : Option Text
  pub recovery : Option Text

-- the part of `ApplyResult` that is read
pub record ApplyResult : Type 0 where
  pub succeeded : Bool
  pub proof : Text
  pub proof_exists : Bool
  pub error : Option Text
  pub commit_sha : Option Text

pub data Moment : Type 0 where
  before_lock under_lock : Moment

pub record Workspace : Type 0 where
  -- `landToMain` and `applyToWorkdir`, of a wave, a ticket and its worktree, where the workspace has them
  pub land_to_main : Option (WaveRecord → TicketRun → Text → Result LandResult)
  pub apply_to_workdir : Option (WaveRecord → TicketRun → Text → Result ApplyResult)
  -- `JSON.parse` of a manifest, and `WAVE_LAND_MODE`
  pub parse_manifest : Text → Option (List FrozenTicket)
  pub wave_land_mode : Option Text
  -- `node:path`'s `join`, and the root of the artifacts
  pub join : List Text → Text
  pub artifact_root : Option Text
  -- a file whose JSON says `ok: true`, and the `commitSha` in it
  pub read_durable_ok : Moment → Text → Bool
  pub proof_commit : Moment → Text → Option Text
  -- `hashJson` of a text, an id that no artifact has, and the message of an error
  pub hash_json : Text → Text
  pub random_uuid : List ArtifactRecord → Text
  pub message : WaveError → Text

unfoldable pub durable_ticket_proof_path : Workspace → WaveRecord → TicketRun → Text → Text
durable_ticket_proof_path ws wave ticket file = ws.join (
    get_or ws.artifact_root wave.repo_path
    ∷ text "tmp"
    ∷ text "wave-runner"
    ∷ wave.wave_id
    ∷ ticket.ticket_id
    ∷ file
    ∷ [])
