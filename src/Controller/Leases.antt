-- ===== src/Controller/Leases.antt =====
-- core/lease-release.ts: writer leases over the life of a ticket. `ctrl.authority` is the in-memory
-- authority, which reads neither the kind nor the scope of a release, so these are not passed.
use openclaw_wave_runner.Prelude.{
  ℕ, Bool, true, false, not, Option, none, some, get_or, [], ◌∷◌, if◌then◌else◌, Text, text_eq,
  WaveError, Denial, Result, ok, err,
}
use openclaw_wave_runner.Domain.{TicketStatus, WaveRecord, TicketRun, LeaseRecord}
use openclaw_wave_runner.Lease.{LeaseRequest, same_process, acquire_lease, release_lease}
use openclaw_wave_runner.WriterScope.{WriterScopeInput, derive_writer_scope, writer_lease_key}
use openclaw_wave_runner.Authority.{
  AuthorityAcquireInput, AuthorityAcquireResult, granted, held_by_ticket, writer, try_acquire,
  release,
}
use openclaw_wave_runner.Store.{
  WaveDatabase, get_wave, get_ticket, get_lease, put_lease, delete_lease,
}
use openclaw_wave_runner.Controller.Exec.{Env, Exec, ◌>>=◌, ◌>>◌, pure, raise, lift, query, modify}
use openclaw_wave_runner.Controller.Context.{require_wave, require_ticket}

abbrev pub is_impl_active : TicketStatus → Bool
is_impl_active TicketStatus.implementing = true
is_impl_active TicketStatus.verifying = true
is_impl_active TicketStatus.approved = true
is_impl_active _ = false

abbrev pub is_active_work : TicketStatus → Bool
is_active_work TicketStatus.pending = true
is_active_work TicketStatus.claimed = true
is_active_work TicketStatus.planning = true
is_active_work TicketStatus.implementing = true
is_active_work TicketStatus.verifying = true
is_active_work TicketStatus.revising = true
is_active_work TicketStatus.plan_review = true
is_active_work _ = false

-- a text that is neither missing nor empty
abbrev pub truthy : Option Text → Option Text
truthy none = none
truthy (some []) = none
truthy (some (ch ∷ s)) = some (ch ∷ s)

abbrev pub scope_input : TicketRun → WriterScopeInput
scope_input ticket = record {
  ticket_id = ticket.ticket_id;
  source_path = some ticket.source_path;
  product = ticket.product;
  game = ticket.game;
  writer_scope = ticket.writer_scope;
}

-- `ticket.writerScope || deriveWriterScope(ticket)`
abbrev pub ticket_scope : TicketRun → Text
ticket_scope ticket = get_or (truthy ticket.writer_scope) (derive_writer_scope (scope_input ticket))

abbrev pub writer_request : Env → Text → Text → Text → Text → Text → AuthorityAcquireInput
writer_request env repo_path scope resource_key wave_id ticket_id = record {
  repo_path = repo_path;
  kind = writer;
  scope = some scope;
  resource_key = resource_key;
  wave_id = wave_id;
  ticket_id = ticket_id;
  holder = env.process.holder;
  pid = env.process.pid;
  pid_start_time = env.process.pid_start_time;
  now = env.now;
  ttl_ms = env.lease_ttl_ms;
}

abbrev pub lease_request : Env → Text → Text → Text → LeaseRequest
lease_request env resource_key wave_id ticket_id = record {
  resource_key = resource_key;
  now = env.now;
  ttl_ms = env.lease_ttl_ms;
  claimant = env.process;
  wave_id = some wave_id;
  ticket_id = some ticket_id;
  task_id = none;
}

-- `ctrl.authority.tryAcquire(...)`
unfoldable pub authority_acquire : Env → AuthorityAcquireInput → Exec AuthorityAcquireResult
authority_acquire env input c =
    let (r, locks) = try_acquire env.kill input c.locks in (ok r, record c { locks = locks })

-- `ctrl.authority.release(...)`
unfoldable pub authority_release : Text → Text → Text → Exec (Unit {0})
authority_release resource_key wave_id ticket_id c =
    (ok tt, record c { locks = release resource_key wave_id ticket_id c.locks })

abbrev require_granted : AuthorityAcquireResult → WaveError → Exec (Unit {0})
require_granted (granted generation) e = pure tt
require_granted (held_by_ticket holder) e = raise e

unfoldable pub reacquire_writer_lease : Env → Text → Text → Exec ℕ
unfolding require_wave require_ticket authority_acquire
reacquire_writer_lease env wave_id ticket_id = do
  wave ← require_wave wave_id
  ticket ← require_ticket wave_id ticket_id
  let scope = ticket_scope ticket
  let resource_key = writer_lease_key wave.repo_path scope
  current ← query (get_lease resource_key)
  lease ← lift (acquire_lease current (lease_request env resource_key wave_id ticket_id))
  auth ←
      authority_acquire env (writer_request env wave.repo_path scope resource_key wave_id ticket_id)
  require_granted auth (WaveError.admission_denied Denial.lease_held)
  modify (put_lease lease)
  pure lease.generation

abbrev pub we_hold : Env → LeaseRecord → Bool
we_hold env lease = same_process lease env.process

-- `lease.waveId && lease.waveId !== waveId ? lease.waveId : waveId`
abbrev lease_wave : Option Text → Text → Text
lease_wave lease_wave_id wave_id = get_or (truthy lease_wave_id) wave_id

abbrev ticket_of : Option Text → Text → WaveDatabase → Option TicketRun
ticket_of none wave_id db = none
ticket_of (some ticket_id) wave_id db = get_ticket wave_id ticket_id db

unfoldable pub holder_ticket : LeaseRecord → Text → WaveDatabase → Option TicketRun
holder_ticket lease wave_id db =
    ticket_of (truthy lease.ticket_id) (lease_wave lease.wave_id wave_id) db

abbrev release_of : Option Text → Option Text → Text → Exec (Unit {0})
release_of (some wave_id) (some ticket_id) resource_key c = elim (get_wave wave_id c.db) [
  | none ↦ (ok tt, c)
  | some wave ↦ authority_release resource_key wave_id ticket_id c
]
release_of _ _ resource_key c = (ok tt, c)

unfoldable pub release_authority_for_lease : LeaseRecord → Exec (Unit {0})
unfolding authority_release
release_authority_for_lease lease =
    release_of (truthy lease.wave_id) (truthy lease.ticket_id) lease.resource_key

abbrev delete_if_ok : Result (Unit {0}) → Text → Exec Bool
delete_if_ok (ok _) resource_key c = (ok true, record c { db = delete_lease resource_key c.db })
delete_if_ok (err e) resource_key c = (ok false, c)

unfoldable pub try_release : Env → LeaseRecord → Exec Bool
unfolding release_authority_for_lease
try_release env lease = if not (we_hold env lease) then pure false else do
  release_authority_for_lease lease
  delete_if_ok (release_lease lease env.process lease.generation) lease.resource_key

abbrev pub other_ticket : Option Text → Text → Bool
other_ticket none ticket_id = false
other_ticket (some holder) ticket_id = not (text_eq holder ticket_id)

abbrev pub release_found : Env → TicketRun → Option LeaseRecord → Exec (Unit {0})
release_found env ticket none = pure tt
release_found env ticket (some lease) =
    if other_ticket (truthy lease.ticket_id) ticket.ticket_id
    then pure tt
    else (do _ ← try_release env lease; pure tt)

unfoldable pub release_writer_lease_if_held : Env → WaveRecord → TicketRun → Exec (Unit {0})
unfolding try_release
release_writer_lease_if_held env wave ticket = if is_impl_active ticket.status then pure tt else do
  lease ← query (get_lease (writer_lease_key wave.repo_path (ticket_scope ticket)))
  release_found env ticket lease
