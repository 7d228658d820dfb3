-- ===== src/Lease/Fencing.antt =====
-- Exclusion and fencing of the leases of core/lease.ts.
use openclaw_wave_runner.Prelude.{
  Bool-cases, ltb, ℕ, ◌+◌, ◌≤◌, ◌<◌, ◌≡◌, ◌⊎◌, ◌≢◌, inl, inr, sym, ◌∙◌, refl, false, Option, none,
  some, ok, err, arith, Text, text_eq_iff, text_eq_refl, WaveError, Denial,
}
use openclaw_wave_runner.Domain.{LeaseRecord}
use openclaw_wave_runner.Lease.{
  ProcessIdentity, LeaseRequest, acquire_lease, release_lease, granted, start_times_differ,
}

-- The process that a lease belongs to.
abbrev pub IsOwner : LeaseRecord → ProcessIdentity → Type 0
IsOwner lease claimant =
    (lease.holder ≡ claimant.holder) × (lease.process_identity ≡ claimant.process_identity)

-- the test of a live lease
live_lease_excludes :
    (lease : LeaseRecord) (input : LeaseRequest)
    → ¬ IsOwner lease input.claimant
    → input.now < lease.expires_at
    → acquire_lease (some lease) input ≡ err (WaveError.admission_denied Denial.lease_held)
unfolding acquire_lease
live_lease_excludes lease input stranger live = ground (
  arith,
  text_eq_iff lease.holder input.claimant.holder,
  text_eq_iff lease.process_identity input.claimant.process_identity,
)

-- How a granted lease follows on what was there: a fresh lease has generation 1; otherwise the
-- creation time is kept, and either the claimant's own lease keeps its generation, or the old lease
-- had expired and the next generation fences its owner.
abbrev pub Follows : Option LeaseRecord → LeaseRequest → LeaseRecord → Type 0
Follows none input lease = (lease.generation ≡ 1) × (lease.created_at ≡ input.now)
Follows (some old) input lease =
    (lease.created_at ≡ old.created_at)
    × ((IsOwner old input.claimant × (lease.generation ≡ old.generation))
        ⊎ ((old.expires_at ≤ input.now) × (lease.generation ≡ old.generation + 1)))

-- A granted lease is for the key that was asked for, belongs to its claimant, runs for the time to
-- live, and follows on what was there: a fresh lease has generation 1 and is created now; over a
-- lease that was there the creation time is kept, and either that lease was the claimant's own and
-- keeps its generation, or it had expired and the new one has the next generation.
pub acquire_lease-Follows :
    (current : Option LeaseRecord) (input : LeaseRequest) (lease : LeaseRecord)
    → acquire_lease current input ≡ ok lease
    → (lease.resource_key ≡ input.resource_key)
      × IsOwner lease input.claimant
      × (lease.expires_at ≡ input.now + input.ttl_ms)
      × Follows current input lease
unfolding acquire_lease
acquire_lease-Follows none input lease h = ground arith
acquire_lease-Follows (some old) input lease h = ground (
  arith,
  text_eq_iff old.holder input.claimant.holder,
  text_eq_iff old.process_identity input.claimant.process_identity,
)

taken_over :
    (lease : LeaseRecord) (input : LeaseRequest)
    → ¬ IsOwner lease input.claimant
    → lease.expires_at ≤ input.now
    → (next : LeaseRecord) × (acquire_lease (some lease) input ≡ ok next)
      × IsOwner next input.claimant
      × (next.generation ≡ lease.generation + 1)
unfolding acquire_lease
taken_over lease input stranger late = (
  granted (some lease) input (lease.generation + 1),
  ground (
    arith,
    text_eq_iff lease.holder input.claimant.holder,
    text_eq_iff lease.process_identity input.claimant.process_identity,
  ),
  (refl, refl),
  refl,
)

-- A lease that was granted, over whatever lease was there, excludes every other process for exactly its
-- time to live: a request of another process that comes before the grant's time to live is over is denied,
-- and one that comes later gets the lease, with the next generation.
pub granted_lease_excludes :
    (current : Option LeaseRecord) (first second : LeaseRequest) (lease : LeaseRecord)
    → acquire_lease current first ≡ ok lease
    → (first.claimant.holder ≢ second.claimant.holder)
      ⊎ (first.claimant.process_identity ≢ second.claimant.process_identity)
    → ((second.now < first.now + first.ttl_ms)
        × (acquire_lease (some lease) second ≡ err (WaveError.admission_denied Denial.lease_held)))
      ⊎ ((first.now + first.ttl_ms ≤ second.now)
          × (next : LeaseRecord) × (acquire_lease (some lease) second ≡ ok next)
          × IsOwner next second.claimant
          × (next.generation ≡ lease.generation + 1))
granted_lease_excludes current first second lease h differ =
    let (key, owner, ends, follows) = acquire_lease-Follows current first lease h in
    let stranger : ¬ IsOwner lease second.claimant = λ own. elim differ [
      | inl holders ↦ holders (sym owner.0 ∙ own.0)
      | inr identities ↦ identities (sym owner.1 ∙ own.1)
    ] in
    elim (Bool-cases (ltb second.now (first.now + first.ttl_ms))) [
      | inl before ↦
          let early : second.now < first.now + first.ttl_ms = ground arith in
          inl (early, live_lease_excludes lease second stranger (omega (arith, ends, early)))
      | inr after ↦
          let late : first.now + first.ttl_ms ≤ second.now = ground arith in
          let (next, grant, owner, bumped) =
            taken_over lease second stranger (omega (arith, ends, late)) in
          inr (late, next, grant, owner, bumped)
    ]

-- After another process has taken a lease over, the old owner's release under the old generation
-- is refused: it is stale.
pub stale_release_refused :
    (old : LeaseRecord) (input : LeaseRequest) (lease : LeaseRecord) (owner : ProcessIdentity)
    → acquire_lease (some old) input ≡ ok lease
    → IsOwner old owner
    → ¬ IsOwner old input.claimant
    → release_lease lease owner old.generation ≡ err WaveError.stale_lease
unfolding acquire_lease release_lease
stale_release_refused old input lease owner h owns stranger = ground (
  arith,
  text_eq_iff old.holder input.claimant.holder,
  text_eq_iff old.process_identity input.claimant.process_identity,
)

-- Only the process that holds a lease can give it back, and only under its current generation.
pub release_needs-IsOwner :
    (lease : LeaseRecord) (claimant : ProcessIdentity) (generation : ℕ)
    → release_lease lease claimant generation ≡ ok tt
    → IsOwner lease claimant × (lease.generation ≡ generation)
unfolding release_lease
release_needs-IsOwner lease claimant generation h = ground (
  arith,
  text_eq_iff lease.holder claimant.holder,
  text_eq_iff lease.process_identity claimant.process_identity,
)

start_time_self : (t : Option Text) → start_times_differ t t ≡ false
start_time_self none = refl
start_time_self (some t) = ground (arith, text_eq_refl t)

-- A lease that has just been granted can be given back by its claimant under its generation.
pub granted_can_release :
    (current : Option LeaseRecord) (input : LeaseRequest) (lease : LeaseRecord)
    → acquire_lease current input ≡ ok lease
    → release_lease lease input.claimant lease.generation ≡ ok tt
unfolding acquire_lease release_lease
granted_can_release none input lease h = ground (
  arith,
  text_eq_refl input.claimant.holder,
  text_eq_refl input.claimant.process_identity,
  start_time_self input.claimant.pid_start_time,
)
granted_can_release (some old) input lease h = ground (
  arith,
  text_eq_refl input.claimant.holder,
  text_eq_refl input.claimant.process_identity,
  start_time_self input.claimant.pid_start_time,
)
