-- ===== src/Controller/LandLock/Exclusion.antt =====
-- Only one ticket at a time holds the land lock of a repository (core/land-lock.ts).
use openclaw_wave_runner.Prelude.{
  ℕ, ◌+◌, ◌<◌, ◌≡◌, ◌≢◌, ◌⊎◌, ◌==◌, inl, inr, refl, ap, ◌∙◌, true, false, Option, none, some, [],
  ◌∷◌, leb, Text, text_eq_iff, text_eq_refl, WaveError, Denial, Result, ok, err, ◌&&◌, Bool-cases,
  arith,
}
use openclaw_wave_runner.Domain.{WaveRecord, LeaseRecord}
use openclaw_wave_runner.Lease.{
  acquire, hold, deny, LeaseRequest, granted, generation_of, same_process, can_acquire,
  acquire_lease, release_lease,
}
use openclaw_wave_runner.WriterScope.{land_lock_key}
use openclaw_wave_runner.Store.{lease_key, merge_lease, get_lease, put_lease, delete_lease}
use openclaw_wave_runner.Store.Table.{key_eq_refl, get, remove, merged}
use mathlib.Core.Path.{subst}
use openclaw_wave_runner.Lease.Fencing.{granted_can_release}
use openclaw_wave_runner.Store.Rows.{get-put, get-remove}
use openclaw_wave_runner.Controller.Exec.{Env, Controller, transaction}
use openclaw_wave_runner.Controller.Leases.{lease_request, truthy, authority_release}
use openclaw_wave_runner.Controller.LandLock.{
  is_deny, is_hold, names_other, LandLockAcquire, taken, deferred, acquire_exclusive_land_lock,
  release_exclusive_land_lock,
}

module _ (env : Env) (wave : WaveRecord) (ticket_id : Text) (c : Controller) where
  abbrev request : LeaseRequest
  request = lease_request env (land_lock_key wave.repo_path) wave.wave_id ticket_id

  abbrev current : Option LeaseRecord
  current = get_lease (land_lock_key wave.repo_path) c.db

  abbrev after : Result LandLockAcquire × Controller
  after = acquire_exclusive_land_lock env wave ticket_id c

  -- what an acquisition does that is not a deferral
  record IsTaken : Type 0 where
    lock : LeaseRecord
    acquired : acquire_lease current request ≡ ok lock
    result : after.0 ≡ ok (taken lock.generation)
    stored : after.1.db ≡ put_lease lock c.db

  not_denied :
      is_deny (can_acquire current env.now env.process) ≡ false
      → (lock : LeaseRecord) × (acquire_lease current request ≡ ok lock)
  unfolding acquire_lease
  not_denied h =
      elim (can_acquire current env.now env.process)
          as (λ d.
            is_deny d ≡ false
            → (lock : LeaseRecord) × ((elim d [
              | deny ↦ err (WaveError.admission_denied Denial.lease_held)
              | hold ↦ ok (granted current request (generation_of current))
              | acquire ↦ ok (granted current request (generation_of current + 1))
            ])
                ≡ ok lock)) [ deny ↦ λ q. cc | hold ↦ λ q. (_, refl) | acquire ↦ λ q. (_, refl) ]
        h

  acquire_cases : ((after.0 ≡ ok deferred) × (after.1 ≡ c)) ⊎ IsTaken
  unfolding acquire_exclusive_land_lock transaction
  acquire_cases = elim (Bool-cases (is_deny (can_acquire current env.now env.process))) [
    | inl denied ↦ inl (rw denied (refl, refl))
    | inr free ↦
        elim (Bool-cases
          (is_hold (can_acquire current env.now env.process) && names_other current ticket_id)) [
            | inl other ↦ inl (rw free (rw other (refl, refl)))
            | inr ours ↦
                let (lock, fine) = not_denied free in
                inr (record {
                  lock = lock;
                  acquired = fine;
                  result = rw free (rw ours (rw fine refl));
                  stored = rw free (rw ours (rw fine refl));
                })
          ]
  ]

-- While a ticket holds the land lock of a repository, no process takes it for another ticket: the
-- acquisition is deferred and changes nothing, neither the ledger nor the in-memory locks.
pub land_lock_excludes :
    (env : Env) (wave : WaveRecord) (ticket_id holder : Text) (c : Controller) (lease : LeaseRecord)
    → get_lease (land_lock_key wave.repo_path) c.db ≡ some lease
    → env.now < lease.expires_at
    → truthy lease.ticket_id ≡ some holder
    → holder ≢ ticket_id
    → acquire_exclusive_land_lock env wave ticket_id c ≡ (ok deferred, c)
unfolding acquire_exclusive_land_lock transaction can_acquire
land_lock_excludes env wave ticket_id holder c lease held live named other =
    rw held (elim (Bool-cases (same_process lease env.process)) [
      | inl ours ↦ rw ours (rw others refl)
      | inr theirs ↦ rw theirs (rw (unexpired live) refl)
    ])
  where
    unexpired : env.now < lease.expires_at → leb lease.expires_at env.now ≡ false
    unexpired h = ground arith

    others : names_other (some lease) ticket_id ≡ true
    others = rw (named, names_other) (ground (arith, other, text_eq_iff holder ticket_id))

abbrev lock_key : WaveRecord → Text
lock_key wave = land_lock_key wave.repo_path

module _ (env : Env) (wave : WaveRecord) (ticket_id : Text) where
  released :
      (lock : LeaseRecord) (d : Controller)
      → get_lease (lock_key wave) d.db ≡ some lock
      → release_lease lock env.process lock.generation ≡ ok tt
      → get_lease
          (lock_key wave)
          (release_exclusive_land_lock env wave ticket_id lock.generation d).1.db
        ≡ none
  unfolding release_exclusive_land_lock authority_release get_lease delete_lease
  released lock d held can = rw held (rw same_generation (rw can removed))
    where
      same_generation : (lock.generation == lock.generation) ≡ true
      same_generation = ground arith

      removed :
          get lease_key ((lock_key wave) ∷ []) (remove lease_key ((lock_key wave) ∷ []) d.db.leases)
          ≡ none
      removed = ground (
        arith,
        get-remove lease_key ((lock_key wave) ∷ []) ((lock_key wave) ∷ []) d.db.leases,
        key_eq_refl ((lock_key wave) ∷ []),
      )

  -- The lock is the ticket's under a generation, and giving it back under that generation removes it.
  pub record IsHeld (generation : ℕ) (d : Controller) : Type 0 where
    pub lease : LeaseRecord
    pub found : get_lease (land_lock_key wave.repo_path) d.db ≡ some lease
    pub ours : same_process lease env.process ≡ true
    pub for_ticket : lease.ticket_id ≡ some ticket_id
    pub fenced : lease.generation ≡ generation
    pub may_release : release_lease lease env.process lease.generation ≡ ok tt
    pub given_back :
        get_lease
          (land_lock_key wave.repo_path)
          (release_exclusive_land_lock env wave ticket_id generation d).1.db
        ≡ none

  -- also after other work, if that left the lease alone
  pub released_later :
      (generation : ℕ) (c' d : Controller)
      → IsHeld generation c'
      → get_lease (land_lock_key wave.repo_path) d.db
        ≡ get_lease (land_lock_key wave.repo_path) c'.db
      → get_lease
          (land_lock_key wave.repo_path)
          (release_exclusive_land_lock env wave ticket_id generation d).1.db
        ≡ none
  released_later generation c' d h same =
      subst
        (λ g.
          get_lease (lock_key wave) (release_exclusive_land_lock env wave ticket_id g d).1.db
          ≡ none)
        h.fenced (released h.lease d (same ∙ h.found) h.may_release)

  pub released_nothing :
      (generation : ℕ) (d : Controller)
      → get_lease (land_lock_key wave.repo_path) d.db ≡ none
      → get_lease
          (land_lock_key wave.repo_path)
          (release_exclusive_land_lock env wave ticket_id generation d).1.db
        ≡ none
  unfolding release_exclusive_land_lock authority_release
  released_nothing generation d free = rw free free

module _ (env : Env) (wave : WaveRecord) (ticket_id : Text) (c : Controller) where
  -- the row that an acquired lock has in the ledger
  abbrev row_of : LeaseRecord → LeaseRecord
  row_of lock = merged merge_lease (get_lease (lock_key wave) c.db) lock

  stored_row :
      (lock : LeaseRecord)
      → lock.resource_key ≡ (lock_key wave)
      → get_lease (lock_key wave) (put_lease lock c.db) ≡ some (row_of lock)
  unfolding get_lease put_lease
  stored_row lock named = ground (
    arith,
    get-put lease_key merge_lease (λ old row. refl) ((lock_key wave) ∷ []) lock c.db.leases,
    key_eq_refl ((lock_key wave) ∷ []),
  )

  same_row :
      (old : Option LeaseRecord) (lock : LeaseRecord) (generation : ℕ)
      → (merged merge_lease old lock).generation ≡ lock.generation
        × (release_lease (merged merge_lease old lock) env.process generation
            ≡ release_lease lock env.process generation)
  unfolding release_lease
  same_row none lock generation = (refl, refl)
  same_row (some old) lock generation = (refl, refl)

  row_facts :
      (old : Option LeaseRecord) (lock : LeaseRecord)
      → acquire_lease old (request env wave ticket_id c) ≡ ok lock
      → (lock.resource_key ≡ (lock_key wave))
        × (same_process (merged merge_lease old lock) env.process ≡ true)
        × ((merged merge_lease old lock).ticket_id ≡ some ticket_id)
  unfolding acquire_lease
  row_facts none lock h =
      ground (arith, text_eq_refl env.process.holder, text_eq_refl env.process.process_identity)
  row_facts (some old) lock h =
      ground (arith, text_eq_refl env.process.holder, text_eq_refl env.process.process_identity)

  taken-IsHeld :
      (t : IsTaken env wave ticket_id c)
      → IsHeld env wave ticket_id t.lock.generation (after env wave ticket_id c).1
  taken-IsHeld t = record {
    lease = row_of t.lock;
    found = found;
    ours = facts.1;
    for_ticket = facts.2;
    fenced = generations;
    may_release = can;
    given_back =
        subst
          (λ g.
            get_lease (lock_key wave)
              (release_exclusive_land_lock env wave ticket_id g (after env wave ticket_id c).1).1.db
            ≡ none)
          generations
          (released env wave ticket_id (row_of t.lock) (after env wave ticket_id c).1 found can);
  }
    where
      facts :
          (t.lock.resource_key ≡ (lock_key wave))
          × (same_process (row_of t.lock) env.process ≡ true)
          × ((row_of t.lock).ticket_id ≡ some ticket_id)
      facts = row_facts (get_lease (lock_key wave) c.db) t.lock t.acquired

      generations : (row_of t.lock).generation ≡ t.lock.generation
      generations = (same_row (get_lease (lock_key wave) c.db) t.lock 0).0

      found : get_lease (lock_key wave) (after env wave ticket_id c).1.db ≡ some (row_of t.lock)
      found = ap (get_lease (lock_key wave)) t.stored ∙ stored_row t.lock facts.0

      can : release_lease (row_of t.lock) env.process (row_of t.lock).generation ≡ ok tt
      can =
          (same_row (get_lease (lock_key wave) c.db) t.lock (row_of t.lock).generation).1
          ∙ ap (release_lease t.lock env.process) generations
          ∙ granted_can_release (get_lease (lock_key wave) c.db) (request env wave ticket_id c)
              t.lock t.acquired

  -- An acquisition of the land lock either is deferred and changes nothing, or answers a generation
  -- under which the lock is held: the ledger's lease is this process's, for the ticket, with that
  -- generation, and a release under it removes the lease.
  pub acquire_exclusive_land_lock-IsHeld :
      (acquire_exclusive_land_lock env wave ticket_id c ≡ (ok deferred, c))
      ⊎ ((generation : ℕ) × ((acquire_exclusive_land_lock env wave ticket_id c).0
            ≡ ok (taken generation))
          × IsHeld env wave ticket_id generation
              (acquire_exclusive_land_lock env wave ticket_id c).1)
  acquire_exclusive_land_lock-IsHeld = elim (acquire_cases env wave ticket_id c) [
    | inl (e, f) ↦ inl (λ i. (e i, f i))
    | inr t ↦ inr (t.lock.generation, t.result, taken-IsHeld t)
  ]
