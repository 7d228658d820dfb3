-- ===== src/Controller/Recovery.antt =====
-- core/lease-release.ts: stale and inactive leases, the leases that keep an IMPL from starting, and
-- approved tickets that cannot be launched.
use openclaw_wave_runner.Prelude.{
  ℕ, ◌+◌, Bool, true, false, ◌&&◌, ◌||◌, not, Option, none, some, get_or, is_some, List, [], ◌∷◌,
  ltb, if◌then◌else◌, filter, any, Text, text, text_eq, is_empty, ok,
}
use openclaw_wave_runner.Domain.{
  WaveStatus, TicketStatus, wave_eq, ticket_eq, is_terminal_ticket, WaveRecord, TicketRun,
  LeaseRecord,
}
use openclaw_wave_runner.StateMachine.{ticket_owners, ticket_next}
use openclaw_wave_runner.Lease.{is_lease_stale, pid_is_dead}
use openclaw_wave_runner.WriterScope.{writer_lease_key}
use openclaw_wave_runner.Authority.{AuthorityLockRecord, held_by}
use openclaw_wave_runner.Store.{
  WaveDatabase, put_ticket, list_tickets, list_outbox, get_lease, list_leases, all_leases,
  put_lease, delete_lease, is_open_outbox,
}
use openclaw_wave_runner.Controller.Exec.{
  Env, Exec, ◌>>=◌, ◌>>◌, pure, query, modify, when, for_each, transaction,
}
use openclaw_wave_runner.Controller.Context.{require_wave, refresh_counters}
use openclaw_wave_runner.Controller.Leases.{
  is_impl_active, is_active_work, truthy, ticket_scope, we_hold, holder_ticket,
  release_authority_for_lease, try_release,
}

abbrev is_active_holder : Option TicketRun → Bool
is_active_holder none = false
is_active_holder (some ticket) = is_impl_active ticket.status

abbrev refreshed_lease : Env → LeaseRecord → LeaseRecord
refreshed_lease env lease = record lease {
  pid = env.process.pid;
  pid_start_time = env.process.pid_start_time;
  expires_at = env.now + env.lease_ttl_ms;
}

-- one round of the loop: how many leases it has expired
unfoldable pub expire_lease : Env → LeaseRecord → Exec ℕ
unfolding release_authority_for_lease
expire_lease env lease =
    if not (is_lease_stale lease env.now) && not (pid_is_dead env.kill lease.pid)
    then pure 0
    else do
      ticket ← query (holder_ticket lease (get_or lease.wave_id []))
      if is_active_holder ticket && we_hold env lease
          then (do modify (put_lease (refreshed_lease env lease)); pure 0)
          else do
            release_authority_for_lease lease
            modify (delete_lease lease.resource_key)
            pure 1

unfoldable pub expire_each : Env → List LeaseRecord → ℕ → Exec ℕ
unfolding expire_lease
expire_each env [] expired = pure expired
expire_each env (lease ∷ leases) expired = do
  count ← expire_lease env lease
  expire_each env leases (expired + count)

unfoldable pub expire_stale_leases : Env → Exec ℕ
unfolding expire_each
expire_stale_leases env c =
    expire_each env (all_leases c.db) 0 (record c { watchdog_fires = c.watchdog_fires + 1 })

unfoldable pub release_inactive : Env → Text → LeaseRecord → Exec (Unit {0})
unfolding try_release
release_inactive env wave_id lease = if not (we_hold env lease) then pure tt else do
  ticket ← query (holder_ticket lease wave_id)
  if is_active_holder ticket then pure tt else (do _ ← try_release env lease; pure tt)

unfoldable pub release_inactive_writer_leases : Env → Text → Exec (Unit {0})
unfolding release_inactive
release_inactive_writer_leases env wave_id = do
  leases ← query (list_leases wave_id)
  for_each leases (release_inactive env wave_id)

abbrev is_terminal_or_gone : Option TicketRun → Bool
is_terminal_or_gone none = true
is_terminal_or_gone (some holder) = is_terminal_ticket holder.status

abbrev other_holder : WaveRecord → TicketRun → Option Text → Option Text → Bool
other_holder wave ticket none lease_wave_id = false
other_holder wave ticket (some holder) none = not (text_eq holder ticket.ticket_id)
other_holder wave ticket (some holder) (some lease_wave_id) =
    not (text_eq holder ticket.ticket_id && text_eq lease_wave_id wave.wave_id)

-- does the lease stand under another holder? A lease of ours whose holder is terminal or gone is
-- released on the way and does not block.
abbrev other_holder_blocks : Env → WaveRecord → TicketRun → Option LeaseRecord → Exec Bool
other_holder_blocks env wave ticket none = pure false
other_holder_blocks env wave ticket (some lease) =
    if not (other_holder wave ticket (truthy lease.ticket_id) (truthy lease.wave_id))
    then pure false
    else do
      holder ← query (holder_ticket lease wave.wave_id)
      if we_hold env lease && is_terminal_or_gone holder
          then (do _ ← try_release env lease; pure false)
          else pure true

-- the lock of another ticket that has not expired
abbrev lock_blocks : Env → WaveRecord → TicketRun → Option AuthorityLockRecord → Bool
lock_blocks env wave ticket none = false
lock_blocks env wave ticket (some held) =
    (not (text_eq held.ticket_id ticket.ticket_id) || not (text_eq held.wave_id wave.wave_id))
    && ltb env.now held.expires_at

unfoldable pub writer_lease_blocks_impl : Env → WaveRecord → TicketRun → Exec Bool
unfolding try_release
writer_lease_blocks_impl env wave ticket = do
  let resource_key = writer_lease_key wave.repo_path (ticket_scope ticket)
  lease ← query (get_lease resource_key)
  blocked ← other_holder_blocks env wave ticket lease
  if blocked then pure true else λ c.
      (ok (lock_blocks env wave ticket (held_by env.kill resource_key c.locks)), c)

abbrev differs : Option Text → Text → Bool
differs none wave_id = false
differs (some other) wave_id = not (text_eq other wave_id)

abbrev is_ticket : Option Text → Text → Bool
is_ticket none ticket_id = false
is_ticket (some other) ticket_id = text_eq other ticket_id

abbrev foreign_or_sibling :
    Env → WaveRecord → TicketRun → Option LeaseRecord → Option TicketRun → Bool
foreign_or_sibling env wave ticket none holder = false
foreign_or_sibling env wave ticket (some lease) holder =
    is_ticket lease.ticket_id ticket.ticket_id
    || (is_active_holder holder
        || (not (we_hold env lease)
            || (differs (truthy lease.wave_id) wave.wave_id
                && (not (is_some holder) || is_active_holder holder))))

abbrev holder_of : Option LeaseRecord → Text → WaveDatabase → Option TicketRun
holder_of none wave_id db = none
holder_of (some lease) wave_id db = holder_ticket lease wave_id db

unfoldable pub live_foreign_or_sibling_lease : Env → WaveRecord → TicketRun → WaveDatabase → Bool
live_foreign_or_sibling_lease env wave ticket db =
    let lease = get_lease (writer_lease_key wave.repo_path (ticket_scope ticket)) db in
    foreign_or_sibling env wave ticket lease (holder_of lease wave.wave_id db)

abbrev unlaunchable : TicketRun → TicketRun
unlaunchable ticket = record ticket {
  status = TicketStatus.failed;
  outcome = some (text "unlaunchable: no progress");
  owner = ticket_owners TicketStatus.failed;
  next_action = ticket_next TicketStatus.failed;
  revision = ticket.revision + 1;
}

unfoldable pub fail_each : Env → WaveRecord → List TicketRun → Bool → Exec Bool
fail_each env wave [] marked = pure marked
fail_each env wave (ticket ∷ tickets) marked = do
  live ← query (live_foreign_or_sibling_lease env wave ticket)
  if live then pure tt else modify (put_ticket (unlaunchable ticket))
  fail_each env wave tickets (not live || marked)

unfoldable pub fail_unlaunchable_approved : Env → Text → Exec (Unit {0})
unfolding require_wave refresh_counters fail_each transaction
fail_unlaunchable_approved env wave_id = transaction (do
  wave ← require_wave wave_id
  if not (wave_eq wave.status WaveStatus.running) then pure tt else do
    tickets ← query (list_tickets wave_id)
    if any (λ t. is_active_work t.status) tickets then pure tt else do
      open_items ← query (λ db. filter (λ item. is_open_outbox item.state) (list_outbox wave_id db))
      if not (is_empty open_items) then pure tt else do
        let approved = filter (λ (t : TicketRun). ticket_eq t.status TicketStatus.approved) tickets
        if is_empty approved then pure tt else do
          marked ← fail_each env wave approved false
          when marked (refresh_counters wave_id))
