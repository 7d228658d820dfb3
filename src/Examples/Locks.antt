-- ===== src/Examples/Locks.antt =====
-- Runs of the leases and locks (core/lease.ts, core/authority.ts).
use openclaw_wave_runner.Prelude.{
  ◌⊎◌, ◌+◌, ◌≤◌, ◌<◌, ◌≡◌, inl, inr, refl, false, none, some, [], ◌∷◌, text, text_eq, find?, ok,
  err, WaveError, Denial, arith,
}
use openclaw_wave_runner.Domain.{LeaseRecord}
use openclaw_wave_runner.Lease.{
  LeaseRequest, acquire_lease, release_lease, pid_is_dead, delivered, eperm,
}
use openclaw_wave_runner.Lease.Fencing.{
  IsOwner, Follows, granted_lease_excludes, acquire_lease-Follows, stale_release_refused,
}
use openclaw_wave_runner.Authority.{
  AuthorityAcquireInput, AuthorityLockRecord, AuthorityKind, held_by_ticket, granted, dead_holder,
  lock_key, try_acquire, release,
}
use openclaw_wave_runner.Authority.Exclusion.{
  IsHeldFor, granted_lock_excludes, granted_is_held, eperm_lock_is_taken,
}
use openclaw_wave_runner.Store.Table.{get, put, key_eq}
use openclaw_wave_runner.Examples.Data.{foreign_lease, request_at, our_process, other_process}

stranger : ¬ IsOwner foreign_lease our_process
stranger h = ground (arith, h)

-- at 40 the lease has run out: we take it over as generation 7
abbrev taken_over : LeaseRecord
taken_over = record foreign_lease {
  generation = 7;
  holder = our_process.holder;
  wave_id = some (text "w");
  ticket_id = some (text "a");
  process_identity = our_process.process_identity;
  pid = our_process.pid;
  expires_at = 70;
}

takeover : acquire_lease (some foreign_lease) (request_at 40) ≡ ok taken_over
unfolding acquire_lease text_eq
takeover = refl

-- the owner before asks again
abbrev asks_again : LeaseRequest
asks_again = record (request_at 60) { claimant = other_process }

granted_lease_excludes_example :
    ((60 < 40 + 30)
      × (acquire_lease (some taken_over) asks_again
          ≡ err (WaveError.admission_denied Denial.lease_held)))
    ⊎ ((40 + 30 ≤ 60)
        × (next : LeaseRecord) × (acquire_lease (some taken_over) asks_again ≡ ok next)
        × IsOwner next other_process
        × (next.generation ≡ 8))
granted_lease_excludes_example =
    granted_lease_excludes (some foreign_lease) (request_at 40) asks_again taken_over takeover
      (inr (ground arith))

acquire_lease-Follows_example :
    (taken_over.resource_key ≡ text "writer:/repo:x")
    × IsOwner taken_over our_process
    × (taken_over.expires_at ≡ 40 + 30)
    × Follows (some foreign_lease) (request_at 40) taken_over
acquire_lease-Follows_example =
    acquire_lease-Follows (some foreign_lease) (request_at 40) taken_over takeover

stale_release_refused_example : release_lease taken_over other_process 6 ≡ err WaveError.stale_lease
stale_release_refused_example =
    stale_release_refused foreign_lease (request_at 40) taken_over other_process takeover
      (refl, refl) stranger

abbrev lock_input : AuthorityAcquireInput
lock_input = record {
  repo_path = text "/repo";
  kind = AuthorityKind.writer;
  scope = none;
  resource_key = text "k";
  wave_id = text "w";
  ticket_id = text "a";
  holder = text "op";
  pid = some 77;
  pid_start_time = none;
  now = 39;
  ttl_ms = 30;
}

-- another ticket's lock, under a process that is told by its pid
abbrev foreign_lock : AuthorityLockRecord
foreign_lock = record {
  pid = some 78;
  pid_start_time = none;
  wave_id = text "v";
  ticket_id = text "z";
  resource_key = text "k";
  expires_at = 40;
  holder = text "op";
  generation = 3;
}

lock_found : get lock_key (lock_input.resource_key ∷ []) (foreign_lock ∷ []) ≡ some foreign_lock
unfolding get find? key_eq text_eq
lock_found = refl

eperm_lock_is_taken_example :
    (pid_is_dead (λ pid. eperm) (some 78) ≡ false)
    × ((try_acquire (λ pid. eperm) lock_input (foreign_lock ∷ [])).0 ≡ granted 4)
eperm_lock_is_taken_example =
    eperm_lock_is_taken (λ pid. eperm) lock_input (foreign_lock ∷ []) foreign_lock 77 refl refl
      lock_found

taken : (try_acquire (λ pid. eperm) lock_input (foreign_lock ∷ [])).0 ≡ granted 4
unfolding try_acquire dead_holder get put find? key_eq text_eq
taken = refl

-- another ticket asks for the same lock
abbrev other_input : AuthorityAcquireInput
other_input = record lock_input { ticket_id = text "b"; now = 60 }

granted_lock_excludes_example :
    let held = (try_acquire (λ pid. eperm) lock_input (foreign_lock ∷ [])).1 in
    (try_acquire (λ pid. delivered) other_input held ≡ (held_by_ticket (text "a"), held))
    × ((try_acquire
          (λ pid. delivered)
          other_input
          (release (text "k") (text "w") (text "a") held)).0
        ≡ granted 1)
granted_lock_excludes_example =
    granted_lock_excludes (λ pid. eperm) (λ pid. delivered) lock_input other_input
      (foreign_lock ∷ []) 4 77 taken refl refl (inl (ground arith)) refl (omega arith)

granted_is_held_example :
    IsHeldFor lock_input 4
      (get lock_key (text "k" ∷ []) (try_acquire (λ pid. eperm) lock_input (foreign_lock ∷ [])).1)
granted_is_held_example = granted_is_held (λ pid. eperm) lock_input (foreign_lock ∷ []) 4 taken
