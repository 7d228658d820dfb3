-- ===== src/Controller/LandCloseout.antt =====
-- core/land-closeout.ts and `closeoutDebtReason` of core/land-recovery.ts: the verified work of a ticket
-- lands on the repository, under the land lock.
pub mod Locks
pub mod NoLeak
use openclaw_wave_runner.Prelude.{
  ℕ, Bool, true, false, ◌&&◌, ◌||◌, not, Option, none, some, get_or, is_some, List, [], ◌∷◌, ◌++◌,
  ◌==◌, if◌then◌else◌, Text, text, is_empty, text_eq, WaveError, Result, ok, err,
}
use openclaw_wave_runner.Prelude.Decimal.{decimal}
use openclaw_wave_runner.Domain.{
  StageName, stage_eq, TicketStatus, ticket_eq, OutboxState, WaveRecord, TicketRun, LeaseRecord,
  LaunchOutbox,
}
use openclaw_wave_runner.WriterScope.{writer_lease_key}
use openclaw_wave_runner.Store.{WaveDatabase, get_ticket, get_lease}
use openclaw_wave_runner.Controller.Exec.{
  Env, Exec, ◌>>=◌, ◌>>◌, pure, lift, query, when, transaction, try_finally,
}
use openclaw_wave_runner.Controller.Context.{require_wave, require_ticket, refresh_counters}
use openclaw_wave_runner.Controller.Leases.{
  truthy, ticket_scope, reacquire_writer_lease, release_writer_lease_if_held,
}
use openclaw_wave_runner.Controller.Reasons.{clip_reason}
use openclaw_wave_runner.Controller.LandLock.{
  LandLockAcquire, taken, deferred, acquire_exclusive_land_lock, release_exclusive_land_lock,
}
use openclaw_wave_runner.Controller.Workspace.{
  Workspace, LandResult, Moment, before_lock, under_lock, durable_ticket_proof_path,
}
use openclaw_wave_runner.Controller.ApplyCloseout.{
  put_ticket_status, wants_apply, done_result, put_proof, execute_apply_closeout,
}

unfoldable pub closeout_debt_reason : Text → Option Text → Text
unfolding clip_reason
closeout_debt_reason error proof = clip_reason (text "CLOSEOUT_DEBT: " ++ body (truthy proof))
  where
    body : Option Text → Text
    body (some path) = text "land failed: " ++ (error ++ (text " (" ++ (path ++ text ")")))
    body none = text "land failed: " ++ error

abbrev stale_generation : ℕ → ℕ → Text
stale_generation expected generation =
    text "stale_fence: generation " ++ (decimal expected ++ (text " != " ++ decimal generation))

abbrev held_elsewhere : Option Text → Text → Option Text
held_elsewhere none ticket_id = none
held_elsewhere (some holder) ticket_id =
    if text_eq holder ticket_id then none else some (text "stale_fence: lease held by " ++ holder)

abbrev fence_of : LaunchOutbox → TicketRun → Option LeaseRecord → Option Text
fence_of item ticket none = some (text "stale_fence: writer lease missing")
fence_of item ticket (some lease) =
    if not (lease.generation == item.fencing_generation)
    then some (stale_generation item.fencing_generation lease.generation)
    else held_elsewhere (truthy lease.ticket_id) ticket.ticket_id

-- why an IMPL must not be settled or land: its writer lease is gone, is of another generation, or is
-- another ticket's
unfoldable pub impl_fence_failure :
    LaunchOutbox → TicketRun → WaveRecord → WaveDatabase → Option Text
unfolding decimal
impl_fence_failure item ticket wave db =
    if not (stage_eq item.stage StageName.impl)
    then none
    else fence_of item ticket (get_lease (writer_lease_key wave.repo_path (ticket_scope ticket)) db)

unfoldable pub fail_land : Text → Text → Text → Exec (Unit {0})
unfolding transaction require_ticket refresh_counters closeout_debt_reason
fail_land wave_id ticket_id reason = transaction (do
  ticket ← require_ticket wave_id ticket_id
  put_ticket_status ticket TicketStatus.failed (some (closeout_debt_reason reason none))
  refresh_counters wave_id)

unfoldable pub release_writer_lease_after_land : Env → LaunchOutbox → Exec (Unit {0})
unfolding require_wave require_ticket release_writer_lease_if_held
release_writer_lease_after_land env item = do
  ticket ← require_ticket item.wave_id item.ticket_id
  wave ← require_wave item.wave_id
  release_writer_lease_if_held env wave ticket

abbrev land_proof : Env → Workspace → Text → Text → LandResult → Exec (Unit {0})
land_proof env ws wave_id ticket_id land =
    put_proof env ws wave_id ticket_id land.proof (text "proof") (ws.hash_json land.proof)

abbrev recovery_proof : Env → Workspace → Text → Text → LandResult → Exec (Unit {0})
recovery_proof env ws wave_id ticket_id land = elim land.recovery [
  | none ↦ pure tt
  | some hash ↦ put_proof env ws wave_id ticket_id land.proof (text "land-recovery") hash
]

-- `land.ok && land.proof && existsSync(land.proof)`
abbrev pub has_landed : LandResult → Bool
has_landed land = land.succeeded && (not (is_empty land.proof) && land.proof_exists)

abbrev record_land : Env → Workspace → Text → Text → LandResult → TicketRun → Exec (Unit {0})
record_land env ws wave_id ticket_id land live =
    if has_landed land
    then (do
      put_ticket_status live TicketStatus.done
          (some (done_result (text "verified+landed") (truthy land.commit_sha)))
      land_proof env ws wave_id ticket_id land)
    else if land.succeeded
    then put_ticket_status live TicketStatus.failed
        (some (closeout_debt_reason (text "missing LAND.json") none))
    else (do
      put_ticket_status live TicketStatus.failed
          (some (closeout_debt_reason (get_or land.error (text "unknown")) (some land.proof)))
      recovery_proof env ws wave_id ticket_id land)

unfoldable pub record_commit_land : Env → Workspace → Text → Text → LandResult → Exec (Unit {0})
unfolding transaction require_ticket refresh_counters put_proof closeout_debt_reason
record_commit_land env ws wave_id ticket_id land = transaction (do
  live ← require_ticket wave_id ticket_id
  record_land env ws wave_id ticket_id land live
  refresh_counters wave_id)

-- what a durable proof on disk makes of the ticket
unfoldable pub record_durable : Env → Workspace → LaunchOutbox → Text → Text → Exec (Unit {0})
unfolding transaction require_ticket refresh_counters put_proof
record_durable env ws item proof outcome = transaction (do
  live ← require_ticket item.wave_id item.ticket_id
  if ticket_eq live.status TicketStatus.done then pure tt else do
    put_ticket_status live TicketStatus.done (some outcome)
    put_proof env ws item.wave_id item.ticket_id proof (text "proof") (ws.hash_json proof)
    refresh_counters item.wave_id)

abbrev pub finish_proven : Env → Workspace → LaunchOutbox → Text → Text → Exec Bool
finish_proven env ws item proof outcome = do
  record_durable env ws item proof outcome
  release_writer_lease_after_land env item
  pure true

unfoldable pub finish_from_durable_proof :
    Env → Workspace → Moment → LaunchOutbox → WaveRecord → TicketRun → Exec Bool
unfolding wants_apply durable_ticket_proof_path record_durable release_writer_lease_after_land
finish_from_durable_proof env ws moment item wave ticket =
    let apply_proof = durable_ticket_proof_path ws wave ticket (text "APPLY.json") in
    let land_proof = durable_ticket_proof_path ws wave ticket (text "LAND.json") in
    if wants_apply ws wave ticket
    then (if not (ws.read_durable_ok moment apply_proof)
        then pure false
        else finish_proven env ws item apply_proof (text "verified+applied"))
    else if not (ws.read_durable_ok moment land_proof)
    then pure false
    else finish_proven env ws item land_proof
        (done_result (text "verified+landed") (truthy (ws.proof_commit moment land_proof)))

abbrev pub land_in :
    Env
    → Workspace
    → LaunchOutbox
    → WaveRecord
    → TicketRun
    → Text
    → Option (WaveRecord → TicketRun → Text → Result LandResult)
    → Exec (Unit {0})
land_in env ws item wave live worktree none =
    fail_land item.wave_id item.ticket_id (text "landToMain missing")
land_in env ws item wave live worktree (some land_to_main) = do
  land ← lift (land_to_main wave live worktree)
  record_commit_land env ws item.wave_id item.ticket_id land

abbrev pub land_worktree :
    Env → Workspace → LaunchOutbox → WaveRecord → TicketRun → Option Text → Exec (Unit {0})
land_worktree env ws item wave live none =
    fail_land item.wave_id item.ticket_id (text "missing impl worktree")
land_worktree env ws item wave live (some worktree) =
    if wants_apply ws wave live
    then execute_apply_closeout env ws item wave live true
    else land_in env ws item wave live worktree ws.land_to_main

-- the body of the `try`, under the land lock
unfoldable pub land_under_lock : Env → Workspace → LaunchOutbox → WaveRecord → Exec (Unit {0})
unfolding require_ticket finish_from_durable_proof fail_land wants_apply execute_apply_closeout
    record_commit_land
land_under_lock env ws item wave = do
  live ← require_ticket item.wave_id item.ticket_id
  if ticket_eq live.status TicketStatus.done then pure tt else do
    finished ← finish_from_durable_proof env ws under_lock item wave live
    if finished then pure tt else land_worktree env ws item wave live (truthy live.impl_worktree)

abbrev pub release_if_settled : Env → LaunchOutbox → Option TicketRun → Exec (Unit {0})
release_if_settled env item none = pure tt
release_if_settled env item (some after) =
    when (not (ticket_eq after.status TicketStatus.verifying))
      (release_writer_lease_after_land env item)

-- the `finally`
unfoldable pub leave_lock : Env → LaunchOutbox → WaveRecord → ℕ → Exec (Unit {0})
unfolding release_writer_lease_after_land
leave_lock env item wave generation = do
  release_exclusive_land_lock env wave item.ticket_id generation
  after ← query (get_ticket item.wave_id item.ticket_id)
  release_if_settled env item after

abbrev pub land_with :
    Env → Workspace → LaunchOutbox → WaveRecord → LandLockAcquire → Exec (Unit {0})
land_with env ws item wave deferred = pure tt
land_with env ws item wave (taken generation) =
    try_finally (land_under_lock env ws item wave) (leave_lock env item wave generation)

unfoldable pub finalize_impl_land : Env → Workspace → LaunchOutbox → Exec (Unit {0})
unfolding require_wave require_ticket finish_from_durable_proof try_finally land_under_lock
    leave_lock
finalize_impl_land env ws item = do
  wave ← require_wave item.wave_id
  ticket ← require_ticket item.wave_id item.ticket_id
  if ticket_eq ticket.status TicketStatus.done then pure tt else do
    finished ← finish_from_durable_proof env ws before_lock item wave ticket
    if finished then pure tt else do
      got ← acquire_exclusive_land_lock env wave item.ticket_id
      land_with env ws item wave got

abbrev refused : Text → LandResult
refused error = record {
  succeeded = false;
  commit_sha = none;
  proof = [];
  proof_exists = false;
  error = some error;
  recovery = none;
}

abbrev retry_item : Env → Text → Text → ℕ → LaunchOutbox
retry_item env wave_id ticket_id fencing_generation = record {
  outbox_id = wave_id ++ (text ":obx:land-retry:" ++ ticket_id);
  wave_id = wave_id;
  ticket_id = ticket_id;
  stage = StageName.impl;
  attempt = 1;
  idempotency_key = wave_id ++ (text ":" ++ (ticket_id ++ text ":LAND_RETRY:1"));
  state = OutboxState.settled;
  fencing_generation = fencing_generation;
  claimed_by = none;
  claimed_at = none;
  receipt_json = none;
  error = none;
  created_at = env.now;
  updated_at = env.now;
}

-- the result is in the ticket; its proof is not looked for on disk
abbrev retry_result : TicketRun → LandResult
retry_result live =
    if ticket_eq live.status TicketStatus.done
    then record {
      succeeded = true;
      commit_sha = live.outcome;
      proof = get_or live.outcome [];
      proof_exists = false;
      error = none;
      recovery = none;
    }
    else refused (get_or live.outcome (text "land-retry failed"))

abbrev pub retry_with : Env → Workspace → Text → Text → Result ℕ → Exec LandResult
retry_with env ws wave_id ticket_id (err e) = pure (refused (ws.message e))
retry_with env ws wave_id ticket_id (ok generation) = do
  finalize_impl_land env ws (retry_item env wave_id ticket_id generation)
  live ← require_ticket wave_id ticket_id
  pure (retry_result live)

-- the error of an action as a value
abbrev pub caught : {A : Type 0} → Exec A → Exec (Result A)
caught m c = let (r, c') = m c in (ok r, c')

unfoldable pub retry_impl_land : Env → Workspace → Text → Text → Exec LandResult
unfolding require_ticket finalize_impl_land reacquire_writer_lease
retry_impl_land env ws wave_id ticket_id = do
  ticket ← require_ticket wave_id ticket_id
  if not (ticket_eq ticket.status TicketStatus.failed)
        || not (is_some (truthy ticket.impl_worktree) && is_some ws.land_to_main)
      then pure (refused (text "land-retry refused: ticket not FAILED with impl worktree"))
      else do
        generation ← caught (reacquire_writer_lease env wave_id ticket_id)
        retry_with env ws wave_id ticket_id generation
