-- ===== src/Controller/Admission.antt =====
-- core/admission.ts: `queueStage` admits one stage of one ticket, in one transaction: budget, writer
-- lease and lock, the ticket's status, the stage, the reservation, the outbox item, the counters.
-- The injected crashes (`crashAt`) are left out: `crashAt` is null.
pub mod Steps
pub mod Outcomes
pub mod Ceilings
pub mod Tables
pub mod Written
pub mod Accepted
use openclaw_wave_runner.Prelude.{
  ℕ, ◌+◌, ◌-◌, Bool, true, ◌&&◌, Option, none, some, get_or, is_some, length, leb, ltb,
  if◌then◌else◌, filter, Text, text, text_eq, WaveError, Result, ok, err,
}
use openclaw_wave_runner.Domain.{StageName, stage_eq, WaveRecord, WaveLimits, TicketRun, StageRun}
use openclaw_wave_runner.Budget.{admit_reservation, reservation_ceiling}
use openclaw_wave_runner.Lease.{acquire_lease}
use openclaw_wave_runner.WriterScope.{writer_lease_key}
use openclaw_wave_runner.Authority.{AuthorityAcquireResult, granted, held_by_ticket}
use openclaw_wave_runner.AcpSlots.{acp_slot_cap, count_open_provider, default_acp_slots}
use openclaw_wave_runner.StagePaths.{idempotency_key}
use openclaw_wave_runner.Store.{
  WaveDatabase, list_stages, list_budgets, get_lease, put_lease, get_outbox_by_idempotency,
}
use openclaw_wave_runner.Controller.Exec.{
  Env, Controller, Exec, ◌>>=◌, ◌>>◌, pure, raise, lift, query, modify,
}
use openclaw_wave_runner.Controller.Context.{require_wave, require_ticket}
use openclaw_wave_runner.Controller.Rows.{FreshIds, write_rows}
use openclaw_wave_runner.Controller.Leases.{
  ticket_scope, writer_request, lease_request, authority_acquire, authority_release,
}

-- `listStages(waveId).filter(...).length + 1`
abbrev pub attempt_of : Text → Text → StageName → WaveDatabase → ℕ
attempt_of wave_id ticket_id stage db =
    length (
      filter (λ (s : StageRun). text_eq s.ticket_id ticket_id && stage_eq s.stage stage)
        (list_stages wave_id db))
    + 1

abbrev live_provider : Option (Text → ℕ) → Text → WaveDatabase → ℕ
live_provider none provider db = count_open_provider db provider
live_provider (some count) provider db = count provider

abbrev pub slots_taken : Env → WaveRecord → Text → WaveDatabase → Bool
slots_taken env wave provider db =
    leb
      (acp_slot_cap wave.limits.per_provider_concurrency
        (get_or env.acp_slots_max default_acp_slots))
      (live_provider env.count_live_provider provider db)

abbrev require_grant : AuthorityAcquireResult → Exec (Unit {0})
require_grant (granted generation) = pure tt
require_grant (held_by_ticket holder) = raise WaveError.authority_busy

-- the writer lease and the writer lock of an IMPL; the result is the key of the lock that is taken
unfoldable pub take_writer : Env → WaveRecord → TicketRun → Text → Text → Exec (Option Text)
unfolding authority_acquire
take_writer env live ticket wave_id ticket_id = do
  let scope = ticket_scope ticket
  let resource_key = writer_lease_key live.repo_path scope
  current ← query (get_lease resource_key)
  lease ← lift (acquire_lease current (lease_request env resource_key wave_id ticket_id))
  auth ←
      authority_acquire env (writer_request env live.repo_path scope resource_key wave_id ticket_id)
  require_grant auth
  modify (put_lease lease)
  pure (some resource_key)

abbrev pub require_live : WaveRecord → Exec (Unit {0})
require_live wave = if wave.cancel_requested then raise WaveError.cancelled else pure tt

-- The first part of the transaction, up to the lease: what it returns is `writerAuth`.
unfoldable pub admit_stage :
    Env → WaveLimits → TicketRun → Text → Text → StageName → Exec (WaveRecord × Option Text)
unfolding require_wave take_writer
admit_stage env limits ticket wave_id ticket_id stage = do
  live ← require_wave wave_id
  require_live live
  entries ← query (list_budgets wave_id)
  lift (
      admit_reservation live entries (reservation_ceiling limits).0 (reservation_ceiling limits).1
        env.now true)
  writer_auth ←
      (if stage_eq stage StageName.impl
        then take_writer env live ticket wave_id ticket_id
        else pure none)
  pure (live, writer_auth)

-- `catch (err)`: the lock goes back if it was taken, and a busy authority is no error.
abbrev pub give_back : Option Text → Text → Text → Exec (Unit {0})
give_back none wave_id ticket_id = pure tt
give_back (some resource_key) wave_id ticket_id = authority_release resource_key wave_id ticket_id

abbrev pub swallow_busy : WaveError → Exec (Unit {0})
swallow_busy WaveError.authority_busy = pure tt
swallow_busy e = raise e

abbrev settle_rows :
    WaveDatabase
    → Option Text
    → Text
    → Text
    → Result (Unit {0})
    → Controller
    → Result (Unit {0}) × Controller
settle_rows before writer_auth wave_id ticket_id (ok _) c = (ok tt, c)
settle_rows before writer_auth wave_id ticket_id (err e) c =
    (give_back writer_auth wave_id ticket_id >> swallow_busy e) (record c { db = before })

-- the transaction with the `catch` around it: an error rolls the ledger back first
abbrev settle_admission :
    WaveDatabase
    → (WaveRecord → Exec (Unit {0}))
    → Text
    → Text
    → Result (WaveRecord × Option Text)
    → Controller
    → Result (Unit {0}) × Controller
settle_admission before rows wave_id ticket_id (ok (live, writer_auth)) c =
    let (r, c') = rows live c in settle_rows before writer_auth wave_id ticket_id r c'
settle_admission before rows wave_id ticket_id (err e) c = swallow_busy e (record c { db = before })

unfoldable pub reserve_stage :
    Env → FreshIds → WaveLimits → TicketRun → Text → Text → StageName → ℕ → Exec (Unit {0})
unfolding admit_stage write_rows authority_release
reserve_stage env ids limits ticket wave_id ticket_id stage attempt c =
    let (r, c') = admit_stage env limits ticket wave_id ticket_id stage c in
    settle_admission c.db
      (λ live. write_rows env ids live limits ticket wave_id ticket_id stage attempt) wave_id
      ticket_id r c'

unfoldable pub queue_stage : Env → FreshIds → Text → Text → StageName → Exec (Unit {0})
unfolding require_wave require_ticket reserve_stage
queue_stage env ids wave_id ticket_id stage = do
  wave ← require_wave wave_id
  require_live wave
  ticket ← require_ticket wave_id ticket_id
  attempt ← query (attempt_of wave_id ticket_id stage)
  if ltb wave.limits.max_retries_per_stage (attempt - 1)
      then raise WaveError.retries_exceeded
      else do
        taken ← query (slots_taken env wave (get_or ticket.provider (text "mock")))
        if taken then pure tt else do
          there ←
              query (get_outbox_by_idempotency (idempotency_key wave_id ticket_id stage attempt))
          if is_some there
              then pure tt
              else reserve_stage env ids wave.limits ticket wave_id ticket_id stage attempt
