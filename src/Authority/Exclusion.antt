-- ===== src/Authority/Exclusion.antt =====
-- Exclusion of the in-memory locks of core/authority.ts.
use openclaw_wave_runner.Prelude.{
  ℕ, suc, ◌+◌, ◌<◌, ◌≡◌, ◌≢◌, ◌⊎◌, refl, sym, ap, ◌∙◌, false, Option, none, some, List, [], ◌∷◌,
  arith, Text, text_eq, text_eq_iff, text_eq_refl, if◌then◌else◌, Option-cases, inl, inr,
}
use mathlib.Core.Path.{subst}
use openclaw_wave_runner.Lease.{Signal, delivered, eperm, pid_is_dead}
use openclaw_wave_runner.Store.Table.{get, key_eq, key_eq_refl}
use openclaw_wave_runner.Store.Rows.{get-put, get-remove, get-some}
use openclaw_wave_runner.Authority.{
  AuthorityAcquireInput, AuthorityLockRecord, granted, held_by_ticket, lock_key, replace,
  dead_holder, same_ticket, try_acquire, release, fresh_lock, refreshed,
}

key_eq_one : (s t : Text) → key_eq (s ∷ []) (t ∷ []) ≡ text_eq s t
unfolding key_eq
key_eq_one s t = ground arith

-- the test of a live lock
live_lock_excludes :
    (kill : ℕ → Signal) (input : AuthorityAcquireInput) (locks : List AuthorityLockRecord)
    (cur : AuthorityLockRecord)
    → get lock_key (input.resource_key ∷ []) locks ≡ some cur
    → dead_holder kill cur.pid ≡ false
    → input.now < cur.expires_at
    → (cur.ticket_id ≢ input.ticket_id) ⊎ (cur.wave_id ≢ input.wave_id)
    → try_acquire kill input locks ≡ (held_by_ticket cur.ticket_id, locks)
unfolding try_acquire
live_lock_excludes kill input locks cur there alive live other =
    ground (arith, text_eq_iff cur.ticket_id input.ticket_id, text_eq_iff cur.wave_id input.wave_id)

-- The lock that an attempt leaves under its key.
abbrev pub IsHeldFor : AuthorityAcquireInput → ℕ → Option AuthorityLockRecord → Type 0
IsHeldFor input generation none = ⊥
IsHeldFor input generation (some lock) =
    (lock.ticket_id ≡ input.ticket_id)
    × (lock.wave_id ≡ input.wave_id)
    × (lock.expires_at ≡ input.now + input.ttl_ms)
    × (lock.generation ≡ generation)

-- A granted lock is the ticket's: it is stored under its key with the generation that was reported,
-- for the time to live.
pub granted_is_held :
    (kill : ℕ → Signal) (input : AuthorityAcquireInput) (locks : List AuthorityLockRecord)
    (generation : ℕ)
    → (try_acquire kill input locks).0 ≡ granted generation
    → IsHeldFor input generation
        (get lock_key (input.resource_key ∷ []) (try_acquire kill input locks).1)
unfolding try_acquire
granted_is_held kill input locks generation h =
    elim (Option-cases (get lock_key (input.resource_key ∷ []) locks)) [
      | inl fresh ↦ ground (
        arith,
        get-put lock_key replace (λ old row. refl) (input.resource_key ∷ []) (fresh_lock input 1)
            locks,
        key_eq_refl (input.resource_key ∷ []),
      )
      | inr (cur, there) ↦
          let own : cur.resource_key ∷ [] ≡ input.resource_key ∷ [] =
            (get-some lock_key locks there).1 in
          ground (
            arith,
            own,
            get-put lock_key replace (λ old row. refl) (input.resource_key ∷ [])
                (refreshed input cur) locks,
            get-put lock_key replace (λ old row. refl) (input.resource_key ∷ [])
                (fresh_lock input (cur.generation + 1)) locks,
            key_eq_refl (input.resource_key ∷ []),
            text_eq_iff cur.ticket_id input.ticket_id,
            text_eq_iff cur.wave_id input.wave_id,
          )
    ]

-- the pid that a granted attempt leaves under its key
stored_pid :
    (kill : ℕ → Signal) (input : AuthorityAcquireInput) (locks : List AuthorityLockRecord)
    (generation pid : ℕ) (lock : AuthorityLockRecord)
    → input.pid ≡ some pid
    → (try_acquire kill input locks).0 ≡ granted generation
    → get lock_key (input.resource_key ∷ []) (try_acquire kill input locks).1 ≡ some lock
    → lock.pid ≡ some pid
unfolding try_acquire
stored_pid kill input locks generation pid lock own_pid h stored =
    elim (Option-cases (get lock_key (input.resource_key ∷ []) locks)) [
      | inl fresh ↦ ground (
        arith,
        own_pid,
        get-put lock_key replace (λ old row. refl) (input.resource_key ∷ []) (fresh_lock input 1)
            locks,
        key_eq_refl (input.resource_key ∷ []),
      )
      | inr (cur, there) ↦
          let own : cur.resource_key ∷ [] ≡ input.resource_key ∷ [] =
            (get-some lock_key locks there).1 in
          ground (
            arith,
            own,
            own_pid,
            get-put lock_key replace (λ old row. refl) (input.resource_key ∷ [])
                (refreshed input cur) locks,
            get-put lock_key replace (λ old row. refl) (input.resource_key ∷ [])
                (fresh_lock input (cur.generation + 1)) locks,
            key_eq_refl (input.resource_key ∷ []),
          )
    ]

-- what a granted attempt leaves under its key
stored_lock :
    (kill : ℕ → Signal) (input : AuthorityAcquireInput) (locks : List AuthorityLockRecord)
    (generation : ℕ)
    → (try_acquire kill input locks).0 ≡ granted generation
    → (lock : AuthorityLockRecord) × (get lock_key
          (input.resource_key ∷ [])
          (try_acquire kill input locks).1
        ≡ some lock)
      × IsHeldFor input generation (some lock)
stored_lock kill input locks generation h =
    let held = granted_is_held kill input locks generation h in
    elim (Option-cases (get lock_key (input.resource_key ∷ []) (try_acquire kill input locks).1)) [
      | inl missing ↦ absurd (subst (IsHeldFor input generation) missing held)
      | inr (lock, there) ↦ (lock, there, subst (IsHeldFor input generation) there held)
    ]

alive_holder :
    (kill : ℕ → Signal) (holder : Option ℕ) (pid : ℕ)
    → holder ≡ some pid
    → kill pid ≡ delivered
    → dead_holder kill holder ≡ false
unfolding dead_holder
alive_holder kill holder pid own alive = ground arith

fresh_grant :
    (kill : ℕ → Signal) (input : AuthorityAcquireInput) (locks : List AuthorityLockRecord)
    → get lock_key (input.resource_key ∷ []) locks ≡ none
    → (try_acquire kill input locks).0 ≡ granted 1
unfolding try_acquire
fresh_grant kill input locks missing = ground arith

-- Releasing under another ticket changes nothing; releasing under the ticket that holds the lock
-- removes it, and no other lock.
pub release_needs_ticket :
    (kill : ℕ → Signal) (wave_id ticket_id resource_key : Text) (locks : List AuthorityLockRecord)
    (cur : AuthorityLockRecord)
    → get lock_key (resource_key ∷ []) locks ≡ some cur
    → (same_ticket cur wave_id ticket_id ≡ false
        → release resource_key wave_id ticket_id locks ≡ locks)
      × ((cur.ticket_id ≡ ticket_id)
          → (cur.wave_id ≡ wave_id)
          → (other : Text)
          → get lock_key (other ∷ []) (release resource_key wave_id ticket_id locks)
            ≡ (if text_eq resource_key other then none else get lock_key (other ∷ []) locks))
unfolding release
release_needs_ticket kill wave_id ticket_id resource_key locks cur there = (
  λ other. ground arith,
  λ same same' other. ground (
    arith,
    text_eq_iff cur.ticket_id ticket_id,
    text_eq_iff cur.wave_id wave_id,
    get-remove lock_key (other ∷ []) (resource_key ∷ []) locks,
    key_eq_one resource_key other,
  ),
)

-- A lock that was granted, over whatever lock was there, to a process with a pid excludes other tickets:
-- while that process is alive and the grant's time to live is not over, an attempt for another ticket on
-- the same key is refused, names the first ticket, and changes no lock; when the first ticket has
-- released the lock, the same attempt is granted.
pub granted_lock_excludes :
    (kill later_kill : ℕ → Signal) (first second : AuthorityAcquireInput)
    (locks : List AuthorityLockRecord) (generation pid : ℕ)
    → (try_acquire kill first locks).0 ≡ granted generation
    → first.pid ≡ some pid
    → second.resource_key ≡ first.resource_key
    → (first.ticket_id ≢ second.ticket_id) ⊎ (first.wave_id ≢ second.wave_id)
    → later_kill pid ≡ delivered
    → second.now < first.now + first.ttl_ms
    → let held = (try_acquire kill first locks).1 in
      (try_acquire later_kill second held ≡ (held_by_ticket first.ticket_id, held))
      × ((try_acquire later_kill second
            (release first.resource_key first.wave_id first.ticket_id held)).0
          ≡ granted 1)
granted_lock_excludes kill later_kill first second locks generation pid h own_pid same other alive
      early =
    let held = (try_acquire kill first locks).1 in
    let (lock, there, (ticket, wave, ends, _)) = stored_lock kill first locks generation h in
    let found : get lock_key (second.resource_key ∷ []) held ≡ some lock =
      ap (λ k. get lock_key (k ∷ []) held) same ∙ there in
    let gone =
      (release_needs_ticket kill first.wave_id first.ticket_id first.resource_key held lock there).1
        ticket wave second.resource_key in
    let differ : (lock.ticket_id ≢ second.ticket_id) ⊎ (lock.wave_id ≢ second.wave_id) =
      elim other [
        | inl tickets ↦ inl (λ e. tickets (sym ticket ∙ e))
        | inr waves ↦ inr (λ e. waves (sym wave ∙ e))
      ] in
    (
      live_lock_excludes later_kill second held lock found
            (alive_holder later_kill lock.pid pid
              (stored_pid kill first locks generation pid lock own_pid h there) alive)
            (omega (arith, ends, early)) differ
          ∙ ap (λ t. (held_by_ticket t, held)) ticket,
      fresh_grant later_kill second (release first.resource_key first.wave_id first.ticket_id held)
          (gone ∙ rw same (rw (text_eq_refl first.resource_key) refl)),
    )

-- A positive pid that answers EPERM is alive for the leases (core/lease.ts) and dead for the
-- locks: any attempt on the lock of such a process is granted, with the next generation.
pub eperm_lock_is_taken :
    (kill : ℕ → Signal) (input : AuthorityAcquireInput) (locks : List AuthorityLockRecord)
    (cur : AuthorityLockRecord) (pid : ℕ)
    → kill (suc pid) ≡ eperm
    → cur.pid ≡ some (suc pid)
    → get lock_key (input.resource_key ∷ []) locks ≡ some cur
    → (pid_is_dead kill cur.pid ≡ false)
      × ((try_acquire kill input locks).0 ≡ granted (cur.generation + 1))
unfolding try_acquire pid_is_dead dead_holder
eperm_lock_is_taken kill input locks cur pid e p there = (ground arith, ground arith)
