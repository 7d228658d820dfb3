-- ===== src/Controller/LandLock.antt =====
-- core/land-lock.ts: one ticket at a time lands on a repository. The ledger's lease is the authority; the
-- in-memory lock beside it is taken and given back on the way, whatever it answers.
pub mod Exclusion
use openclaw_wave_runner.Prelude.{
  ℕ, Bool, true, false, ◌&&◌, not, Option, none, some, ◌==◌, if◌then◌else◌, Text, text_eq,
  WaveError, Result, ok, err,
}
use openclaw_wave_runner.Domain.{WaveRecord, LeaseRecord}
use openclaw_wave_runner.Lease.{
  Decision, acquire, hold, deny, can_acquire, acquire_lease, release_lease,
}
use openclaw_wave_runner.WriterScope.{land_lock_key}
use openclaw_wave_runner.Authority.{AuthorityAcquireInput, land}
use openclaw_wave_runner.Store.{WaveDatabase, get_lease, put_lease, delete_lease}
use openclaw_wave_runner.Controller.Exec.{
  Env, Controller, Exec, ◌>>=◌, ◌>>◌, pure, raise, query, modify, transaction,
}
use openclaw_wave_runner.Controller.Leases.{
  truthy, lease_request, authority_acquire, authority_release,
}

-- `{ ok: false, deferred: true }` is `deferred`.
pub data LandLockAcquire : Type 0 where
  taken : ℕ → LandLockAcquire
  deferred : LandLockAcquire

abbrev land_input : Env → WaveRecord → Text → AuthorityAcquireInput
land_input env wave ticket_id = record {
  repo_path = wave.repo_path;
  kind = land;
  scope = none;
  resource_key = land_lock_key wave.repo_path;
  wave_id = wave.wave_id;
  ticket_id = ticket_id;
  holder = env.process.holder;
  pid = env.process.pid;
  pid_start_time = env.process.pid_start_time;
  now = env.now;
  ttl_ms = env.lease_ttl_ms;
}

abbrev is_deny : Decision → Bool
is_deny deny = true
is_deny _ = false

abbrev is_hold : Decision → Bool
is_hold hold = true
is_hold _ = false

-- `current?.ticketId && current.ticketId !== ticketId`
abbrev names_other : Option LeaseRecord → Text → Bool
names_other none ticket_id = false
names_other (some lease) ticket_id = elim (truthy lease.ticket_id) [
  | none ↦ false
  | some holder ↦ not (text_eq holder ticket_id)
]

-- a denial of the lease is a deferral; any other error is thrown
abbrev store_lock : Env → WaveRecord → Text → Result LeaseRecord → Exec LandLockAcquire
store_lock env wave ticket_id (ok lock) = do
  modify (put_lease lock)
  _ ← authority_acquire env (land_input env wave ticket_id)
  pure (taken lock.generation)
store_lock env wave ticket_id (err (WaveError.admission_denied denial)) = pure deferred
store_lock env wave ticket_id (err e) = raise e

unfoldable pub acquire_exclusive_land_lock : Env → WaveRecord → Text → Exec LandLockAcquire
unfolding authority_acquire transaction
acquire_exclusive_land_lock env wave ticket_id = transaction (do
  let resource_key = land_lock_key wave.repo_path
  current ← query (get_lease resource_key)
  let decision = can_acquire current env.now env.process
  if is_deny decision
      then pure deferred
      else if is_hold decision && names_other current ticket_id
      then pure deferred
      else store_lock env wave ticket_id
          (acquire_lease current (lease_request env resource_key wave.wave_id ticket_id)))

-- the errors of the release are swallowed
abbrev delete_released : Result (Unit {0}) → Text → Exec (Unit {0})
delete_released (ok _) resource_key = modify (delete_lease resource_key)
delete_released (err e) resource_key = pure tt

abbrev release_held : Env → Text → ℕ → Option LeaseRecord → Exec (Unit {0})
release_held env resource_key generation none = pure tt
release_held env resource_key generation (some held) =
    if not (held.generation == generation)
    then pure tt
    else delete_released (release_lease held env.process generation) resource_key

unfoldable pub release_exclusive_land_lock : Env → WaveRecord → Text → ℕ → Exec (Unit {0})
unfolding authority_release
release_exclusive_land_lock env wave ticket_id generation = do
  authority_release (land_lock_key wave.repo_path) wave.wave_id ticket_id
  held ← query (get_lease (land_lock_key wave.repo_path))
  release_held env (land_lock_key wave.repo_path) generation held
