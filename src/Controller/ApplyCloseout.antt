-- ===== src/Controller/ApplyCloseout.antt =====
-- core/apply-closeout.ts: the work of a ticket is copied into the primary checkout.
use openclaw_wave_runner.Prelude.{
  ℕ, Bool, true, false, ◌&&◌, ◌||◌, not, Option, none, some, get_or, is_some, [], ◌∷◌, ◌++◌, take,
  leb, ◌==◌, if◌then◌else◌, Text, text, is_empty, starts_with, Result,
}
use openclaw_wave_runner.Domain.{
  StageName, stage_eq, TicketStatus, ticket_eq, WaveRecord, TicketRun, LaunchOutbox,
}
use openclaw_wave_runner.Manifest.{LandMode, apply, commit}
use openclaw_wave_runner.Store.{put_ticket, put_artifact}
use openclaw_wave_runner.Controller.Exec.{
  Env, Exec, ◌>>=◌, ◌>>◌, pure, lift, query, modify, when, transaction, try_finally,
}
use openclaw_wave_runner.Controller.Context.{require_wave, require_ticket, refresh_counters}
use openclaw_wave_runner.Controller.Leases.{truthy}
use openclaw_wave_runner.Controller.Reasons.{clip_reason, with_status}
use openclaw_wave_runner.Controller.LandLock.{
  LandLockAcquire, taken, deferred, acquire_exclusive_land_lock, release_exclusive_land_lock,
}
use openclaw_wave_runner.Controller.CloseoutMode.{closeout_mode_for_wave_ticket}
use openclaw_wave_runner.Controller.Workspace.{
  Workspace, ApplyResult, under_lock, durable_ticket_proof_path,
}

abbrev pub put_ticket_status : TicketRun → TicketStatus → Option Text → Exec (Unit {0})
put_ticket_status ticket status outcome = modify (put_ticket (with_status status outcome ticket))

abbrev pub is_apply : LandMode → Bool
is_apply apply = true
is_apply commit = false

-- `closeoutModeForWaveTicket(wave.manifestJson, ticket.ticketId) === "apply"`
unfoldable pub wants_apply : Workspace → WaveRecord → TicketRun → Bool
unfolding closeout_mode_for_wave_ticket
wants_apply ws wave ticket = is_apply (
    closeout_mode_for_wave_ticket ws.parse_manifest ws.wave_land_mode wave.manifest_json
      ticket.ticket_id)

-- `commitSha ? `${done} ${commitSha.slice(0, 12)}` : done`
abbrev pub done_result : Text → Option Text → Text
done_result done none = done
done_result done (some sha) = done ++ (text " " ++ take 12 sha)

unfoldable pub label_apply_error : Option Text → Text
unfolding starts_with
label_apply_error error =
    let conflict = get_or error (text "APPLY_CONFLICT") in
    if starts_with (text "APPLY_BINARY_CONFLICT") conflict
      || starts_with (text "APPLY_CONFLICT") conflict
    then conflict
    else text "APPLY_CONFLICT: " ++ conflict

-- The rows of a proof differ in `kind` and in what is hashed.
unfoldable pub put_proof : Env → Workspace → Text → Text → Text → Text → Text → Exec (Unit {0})
put_proof env ws wave_id ticket_id path kind hash = do
  artifacts ← query (λ db. db.artifacts)
  modify (
      put_artifact (record {
        artifact_id = wave_id ++ (text ":art:" ++ ws.random_uuid artifacts);
        wave_id = wave_id;
        ticket_id = some ticket_id;
        kind = kind;
        path = path;
        hash = some hash;
        created_at = env.now;
      }))

unfoldable pub fail_apply : Text → Text → Text → Exec (Unit {0})
unfolding transaction require_ticket refresh_counters clip_reason
fail_apply wave_id ticket_id reason = transaction (do
  ticket ← require_ticket wave_id ticket_id
  put_ticket_status ticket TicketStatus.failed (some (clip_reason reason))
  refresh_counters wave_id)

abbrev apply_proof : Env → Workspace → LaunchOutbox → ApplyResult → Exec (Unit {0})
apply_proof env ws item applied =
    put_proof env ws item.wave_id item.ticket_id applied.proof (text "proof")
      (ws.hash_json applied.proof)

-- the status and the result that an outcome gives a ticket
unfoldable pub apply_outcome : Bool → TicketRun → ApplyResult → TicketStatus × Text
unfolding label_apply_error clip_reason
apply_outcome done_on_ok live applied =
    if applied.succeeded && (not (is_empty applied.proof) && applied.proof_exists)
    then (if done_on_ok
        then (TicketStatus.done, done_result (text "verified+applied") (truthy applied.commit_sha))
        else (
          TicketStatus.failed,
          clip_reason (get_or live.outcome (text "failed") ++ text " + applied"),
        ))
    else if applied.succeeded
    then (TicketStatus.failed, clip_reason (text "apply failed: missing APPLY.json"))
    else if done_on_ok
    then (TicketStatus.failed, clip_reason (label_apply_error applied.error))
    else (
      TicketStatus.failed,
      clip_reason (
          get_or live.outcome (text "failed")
          ++ (text " + " ++ get_or applied.error (label_apply_error applied.error))),
    )

-- a proof is kept for a success that left one, and for a failure that names one
abbrev pub keeps_apply_proof : ApplyResult → Bool
keeps_apply_proof applied =
    not (is_empty applied.proof) && (not applied.succeeded || applied.proof_exists)

unfoldable pub record_apply_outcome :
    Env → Workspace → LaunchOutbox → Bool → ApplyResult → Exec (Unit {0})
unfolding transaction require_ticket refresh_counters apply_outcome put_proof
record_apply_outcome env ws item done_on_ok applied = transaction (do
  live ← require_ticket item.wave_id item.ticket_id
  let after = apply_outcome done_on_ok live applied
  put_ticket_status live after.0 (some after.1)
  when (keeps_apply_proof applied) (apply_proof env ws item applied)
  refresh_counters item.wave_id)

-- `{ ok: true, proof: proofPath }`; the file has just been read
abbrev pub durable_apply : Text → ApplyResult
durable_apply path = record {
  succeeded = true;
  proof = path;
  proof_exists = true;
  error = none;
  commit_sha = none;
}

abbrev pub apply_in :
    Env
    → Workspace
    → LaunchOutbox
    → WaveRecord
    → TicketRun
    → Bool
    → Text
    → Option (WaveRecord → TicketRun → Text → Result ApplyResult)
    → Exec (Unit {0})
apply_in env ws item wave ticket done_on_ok worktree none =
    fail_apply item.wave_id item.ticket_id (text "apply failed: applyToWorkdir missing")
apply_in env ws item wave ticket done_on_ok worktree (some apply_to_workdir) = do
  applied ← lift (apply_to_workdir wave ticket worktree)
  record_apply_outcome env ws item done_on_ok applied

abbrev pub apply_worktree :
    Env → Workspace → LaunchOutbox → WaveRecord → TicketRun → Bool → Option Text → Exec (Unit {0})
apply_worktree env ws item wave ticket done_on_ok none =
    fail_apply item.wave_id item.ticket_id (text "apply failed: missing impl worktree")
apply_worktree env ws item wave ticket done_on_ok (some worktree) =
    apply_in env ws item wave ticket done_on_ok worktree ws.apply_to_workdir

unfoldable pub execute_apply_closeout :
    Env → Workspace → LaunchOutbox → WaveRecord → TicketRun → Bool → Exec (Unit {0})
unfolding fail_apply record_apply_outcome durable_ticket_proof_path
execute_apply_closeout env ws item wave ticket done_on_ok =
    let proof_path = durable_ticket_proof_path ws wave ticket (text "APPLY.json") in
    if ws.read_durable_ok under_lock proof_path
    then record_apply_outcome env ws item done_on_ok (durable_apply proof_path)
    else apply_worktree env ws item wave ticket done_on_ok (truthy ticket.impl_worktree)

-- `\w`
abbrev is_word : ℕ → Bool
is_word ch =
    (leb 48 ch && leb ch 57)
    || ((leb 65 ch && leb ch 90) || ((leb 97 ch && leb ch 122) || ch == 95))

-- Does the text begin with the word, and end there or go on with another character?
abbrev word_here : Text → Text → Bool
word_here [] [] = true
word_here [] (ch ∷ s) = not (is_word ch)
word_here (p ∷ ps) [] = false
word_here (p ∷ ps) (ch ∷ s) = p == ch && word_here ps s

-- `/\bword\b/.test(s)`; the first argument says that a character of a word stands before
unfoldable pub has_word : Bool → Text → Text → Bool
has_word inside word [] = not inside && word_here word []
has_word inside word (ch ∷ s) =
    (not inside && word_here word (ch ∷ s)) || has_word (is_word ch) word s

abbrev is_exhausted : TicketRun → Bool
is_exhausted ticket =
    ticket_eq ticket.status TicketStatus.failed && is_some (truthy ticket.impl_worktree)

abbrev pub apply_exhausted :
    Env → Workspace → LaunchOutbox → WaveRecord → LandLockAcquire → Exec (Unit {0})
apply_exhausted env ws item wave deferred = pure tt
apply_exhausted env ws item wave (taken generation) =
    try_finally
      (do
        live ← require_ticket item.wave_id item.ticket_id
        when (is_exhausted live) (execute_apply_closeout env ws item wave live false))
      (release_exclusive_land_lock env wave item.ticket_id generation)

unfoldable pub apply_on_exhausted_impl : Env → Workspace → LaunchOutbox → Exec (Unit {0})
unfolding require_wave require_ticket wants_apply has_word try_finally execute_apply_closeout
apply_on_exhausted_impl env ws item =
    if not (stage_eq item.stage StageName.impl) then pure tt else do
      wave ← require_wave item.wave_id
      ticket ← require_ticket item.wave_id item.ticket_id
      if not (is_exhausted ticket)
            || (has_word false (text "applied") (get_or ticket.outcome [])
                || not (wants_apply ws wave ticket))
          then pure tt
          else do
            got ← acquire_exclusive_land_lock env wave item.ticket_id
            apply_exhausted env ws item wave got
