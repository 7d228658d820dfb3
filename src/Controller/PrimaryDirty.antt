-- ===== src/Controller/PrimaryDirty.antt =====
-- core/primary-dirty-gate.ts: a ticket fails before its launch where the primary checkout has changes in
-- the paths of its writer scope.
use openclaw_wave_runner.Prelude.{
  ◌+◌, Bool, true, false, Option, none, some, List, [], ◌∷◌, ◌++◌, if◌then◌else◌, is_empty, Text,
  text, text_eq, Result,
}
use openclaw_wave_runner.Domain.{TicketStatus, WaveRecord, TicketRun}
use openclaw_wave_runner.StateMachine.{ticket_owners, ticket_next}
use openclaw_wave_runner.ScopePaths.{scope_paths}
use openclaw_wave_runner.Store.{put_ticket}
use openclaw_wave_runner.Controller.Exec.{Exec, ◌>>=◌, ◌>>◌, pure, lift, modify}
use openclaw_wave_runner.Controller.Context.{require_wave, require_ticket, refresh_counters}
use openclaw_wave_runner.Controller.Leases.{ticket_scope}
use openclaw_wave_runner.Controller.Reasons.{clip_reason}
use openclaw_wave_runner.Controller.CloseoutMode.{closeout_mode_for_wave_ticket}
use openclaw_wave_runner.Controller.Workspace.{Workspace}
use openclaw_wave_runner.Controller.ApplyCloseout.{is_apply}

-- What the gate reads of its surroundings.
pub record Primary : Type 0 where
  -- `WAVE_PRIMARY_DIRTY`
  pub wave_primary_dirty : Option Text
  -- the overlap that `primaryDirtyOverlap` finds, of a repository and prefixes, where the workspace has it
  pub primary_dirty_overlap : Option (Text → List Text → Result (List Text))

unfoldable pub primary_dirty_allowed : Option Text → Bool
primary_dirty_allowed none = false
primary_dirty_allowed (some value) = text_eq value (text "allow")

-- `overlap.join(", ")`
abbrev commas : List Text → Text
commas [] = []
commas (path ∷ []) = path
commas (path ∷ next ∷ paths) = path ++ text ", " ++ commas (next ∷ paths)

abbrev pub dirty_ticket : List Text → TicketRun → TicketRun
dirty_ticket overlap ticket = record ticket {
  status = TicketStatus.failed;
  outcome = some (clip_reason (text "primary_dirty_overlap: " ++ commas overlap));
  owner = ticket_owners TicketStatus.failed;
  next_action = ticket_next TicketStatus.failed;
  revision = ticket.revision + 1;
}

abbrev fail_dirty : Text → TicketRun → List Text → Exec Bool
fail_dirty wave_id ticket overlap =
    if is_empty overlap
    then pure false
    else do modify (put_ticket (dirty_ticket overlap ticket)); refresh_counters wave_id; pure true

abbrev pub look_for_overlap :
    Option (Text → List Text → Result (List Text)) → WaveRecord → Text → Text → Exec Bool
look_for_overlap none wave wave_id ticket_id = pure false
look_for_overlap (some overlap_of) wave wave_id ticket_id = do
  ticket ← require_ticket wave_id ticket_id
  overlap ←
      lift (overlap_of wave.repo_path (scope_paths (ticket_scope ticket) (some ticket.source_path)))
  fail_dirty wave_id ticket overlap

unfoldable pub fail_closed_if_primary_dirty : Workspace → Primary → Text → Text → Exec Bool
unfolding primary_dirty_allowed require_wave require_ticket refresh_counters scope_paths clip_reason
    closeout_mode_for_wave_ticket
fail_closed_if_primary_dirty ws primary wave_id ticket_id =
    if primary_dirty_allowed primary.wave_primary_dirty then pure false else do
      wave ← require_wave wave_id
      if is_apply (
            closeout_mode_for_wave_ticket ws.parse_manifest ws.wave_land_mode wave.manifest_json
              ticket_id)
          then pure false
          else look_for_overlap primary.primary_dirty_overlap wave wave_id ticket_id
