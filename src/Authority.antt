-- ===== src/Authority.antt =====
-- core/authority.ts: `MemoryAuthority`, the in-memory locks beside the ledger. The `Map` is a list of
-- records under their resource key.
pub mod Exclusion
use openclaw_wave_runner.Prelude.{
  ℕ, ◌+◌, Bool, true, false, ◌&&◌, not, Option, none, some, List, [], ◌∷◌, ltb, if◌then◌else◌, Text,
  text_eq,
}
use openclaw_wave_runner.Lease.{Signal, delivered, ProcessIdentity}
use openclaw_wave_runner.Store.Table.{Key, get, put, remove}

pub data AuthorityKind : Type 0 where
  writer land : AuthorityKind

pub record AuthorityAcquireInput : Type 0 where
  pub repo_path : Text
  pub kind : AuthorityKind
  pub scope : Option Text
  pub resource_key : Text
  pub wave_id : Text
  pub ticket_id : Text
  pub holder : Text
  pub pid : Option ℕ
  pub pid_start_time : Option Text
  pub now : ℕ
  pub ttl_ms : ℕ

-- `{ ok: false, reason }` names the ticket that holds the lock.
pub data AuthorityAcquireResult : Type 0 where
  granted : ℕ → AuthorityAcquireResult
  held_by_ticket : Text → AuthorityAcquireResult

pub record AuthorityLockRecord : Type 0 where
  pub pid : Option ℕ
  pub pid_start_time : Option Text
  pub wave_id : Text
  pub ticket_id : Text
  pub resource_key : Text
  pub expires_at : ℕ
  pub holder : Text
  pub generation : ℕ

abbrev is_delivered : Signal → Bool
is_delivered delivered = true
is_delivered _ = false

-- any error of `process.kill` counts as not alive
unfoldable pub pid_alive : (ℕ → Signal) → Option ℕ → Bool
pid_alive kill none = false
pid_alive kill (some p) = is_delivered (kill p)

unfoldable pub dead_holder : (ℕ → Signal) → Option ℕ → Bool
unfolding pid_alive
dead_holder kill none = false
dead_holder kill (some p) = not (pid_alive kill (some p))

abbrev pub lock_key : AuthorityLockRecord → Key
lock_key lock = lock.resource_key ∷ []

-- `Map.set`
abbrev pub replace : AuthorityLockRecord → AuthorityLockRecord → AuthorityLockRecord
replace old lock = record lock { resource_key = old.resource_key }

abbrev or_keep : Option Text → Option Text → Option Text
or_keep none old = old
or_keep (some new) old = some new

abbrev or_keep_pid : Option ℕ → Option ℕ → Option ℕ
or_keep_pid none old = old
or_keep_pid (some new) old = some new

abbrev generation_before : Option AuthorityLockRecord → ℕ
generation_before none = 0
generation_before (some cur) = cur.generation

abbrev fresh_lock : AuthorityAcquireInput → ℕ → AuthorityLockRecord
fresh_lock input generation = record {
  pid = input.pid;
  pid_start_time = input.pid_start_time;
  wave_id = input.wave_id;
  ticket_id = input.ticket_id;
  resource_key = input.resource_key;
  expires_at = input.now + input.ttl_ms;
  holder = input.holder;
  generation = generation;
}

abbrev refreshed : AuthorityAcquireInput → AuthorityLockRecord → AuthorityLockRecord
refreshed input cur = record cur {
  expires_at = input.now + input.ttl_ms;
  holder = input.holder;
  pid = or_keep_pid input.pid cur.pid;
  pid_start_time = or_keep input.pid_start_time cur.pid_start_time;
}

-- `cur && !deadHolder(cur) && cur.expiresAt > input.now`
abbrev pub is_live_lock : (ℕ → Signal) → ℕ → AuthorityLockRecord → Bool
is_live_lock kill now cur = not (dead_holder kill cur.pid) && ltb now cur.expires_at

abbrev pub same_ticket : AuthorityLockRecord → Text → Text → Bool
same_ticket cur wave_id ticket_id = text_eq cur.ticket_id ticket_id && text_eq cur.wave_id wave_id

take_over :
    AuthorityAcquireInput
    → Option AuthorityLockRecord
    → List AuthorityLockRecord
    → AuthorityAcquireResult × List AuthorityLockRecord
take_over input cur locks =
    let generation = generation_before cur + 1 in
    (granted generation, put lock_key replace (fresh_lock input generation) locks)

try_acquire_from :
    (ℕ → Signal)
    → AuthorityAcquireInput
    → Option AuthorityLockRecord
    → List AuthorityLockRecord
    → AuthorityAcquireResult × List AuthorityLockRecord
unfolding dead_holder take_over
try_acquire_from kill input none locks = take_over input none locks
try_acquire_from kill input (some cur) locks =
    if is_live_lock kill input.now cur
    then if same_ticket cur input.wave_id input.ticket_id
      then (granted cur.generation, put lock_key replace (refreshed input cur) locks)
      else (held_by_ticket cur.ticket_id, locks)
    else take_over input (some cur) locks

unfoldable pub try_acquire :
    (ℕ → Signal)
    → AuthorityAcquireInput
    → List AuthorityLockRecord
    → AuthorityAcquireResult × List AuthorityLockRecord
unfolding try_acquire_from
try_acquire kill input locks =
    try_acquire_from kill input (get lock_key (input.resource_key ∷ []) locks) locks

release_from :
    Text
    → Text
    → Text
    → Option AuthorityLockRecord
    → List AuthorityLockRecord
    → List AuthorityLockRecord
release_from resource_key wave_id ticket_id none locks = locks
release_from resource_key wave_id ticket_id (some cur) locks =
    if not (same_ticket cur wave_id ticket_id)
    then locks
    else remove lock_key (resource_key ∷ []) locks

unfoldable pub release : Text → Text → Text → List AuthorityLockRecord → List AuthorityLockRecord
unfolding release_from
release resource_key wave_id ticket_id locks =
    release_from resource_key wave_id ticket_id (get lock_key (resource_key ∷ []) locks) locks

held_from : (ℕ → Signal) → Option AuthorityLockRecord → Option AuthorityLockRecord
unfolding dead_holder
held_from kill none = none
held_from kill (some cur) = if dead_holder kill cur.pid then none else some cur

-- the fields of `AuthorityHeld` are those of the lock
unfoldable pub held_by : (ℕ → Signal) → Text → List AuthorityLockRecord → Option AuthorityLockRecord
unfolding held_from
held_by kill resource_key locks = held_from kill (get lock_key (resource_key ∷ []) locks)
