-- ===== src/Lease.antt =====
-- core/lease.ts: who may take a lease, what taking it writes, and who may give it back.
pub mod Fencing
use openclaw_wave_runner.Prelude.{
  ℕ, zero, suc, ◌+◌, Bool, true, false, ◌&&◌, ◌||◌, not, Option, none, some, get_or, leb, ◌==◌,
  if◌then◌else◌, Text, text_eq, is_empty, WaveError, Denial, Result, ok, err, ◌>>◌, throw_if,
}
use openclaw_wave_runner.Domain.{LeaseRecord}

pub record ProcessIdentity : Type 0 where
  pub holder : Text
  pub process_identity : Text
  pub pid : Option ℕ
  pub pid_start_time : Option Text

pub data Decision : Type 0 where
  acquire hold deny : Decision

-- `current.holder === claimant.holder && current.processIdentity === claimant.processIdentity`
abbrev pub same_process : LeaseRecord → ProcessIdentity → Bool
same_process lease claimant =
    text_eq lease.holder claimant.holder && text_eq lease.process_identity claimant.process_identity

unfoldable pub can_acquire : Option LeaseRecord → ℕ → ProcessIdentity → Decision
can_acquire none now claimant = acquire
can_acquire (some current) now claimant =
    if same_process current claimant
    then hold
    else if leb current.expires_at now
    then acquire
    else deny

-- what the `input` of `acquireLease` holds beside the current lease
pub record LeaseRequest : Type 0 where
  pub resource_key : Text
  pub now : ℕ
  pub ttl_ms : ℕ
  pub claimant : ProcessIdentity
  pub wave_id : Option Text
  pub ticket_id : Option Text
  pub task_id : Option Text

abbrev pub generation_of : Option LeaseRecord → ℕ
generation_of none = 0
generation_of (some lease) = lease.generation

abbrev pub created_of : Option LeaseRecord → ℕ → ℕ
created_of none now = now
created_of (some lease) now = lease.created_at

abbrev pub granted : Option LeaseRecord → LeaseRequest → ℕ → LeaseRecord
granted current input generation = record {
  resource_key = input.resource_key;
  generation = generation;
  holder = input.claimant.holder;
  wave_id = input.wave_id;
  ticket_id = input.ticket_id;
  task_id = input.task_id;
  process_identity = input.claimant.process_identity;
  pid = input.claimant.pid;
  pid_start_time = input.claimant.pid_start_time;
  expires_at = input.now + input.ttl_ms;
  created_at = created_of current input.now;
}

unfoldable pub acquire_lease : Option LeaseRecord → LeaseRequest → Result LeaseRecord
unfolding can_acquire
acquire_lease current input = elim (can_acquire current input.now input.claimant) [
  | deny ↦ err (WaveError.admission_denied Denial.lease_held)
  | hold ↦ ok (granted current input (generation_of current))
  | acquire ↦ ok (granted current input (generation_of current + 1))
]

-- the start times are compared only if both are there and neither is empty
abbrev start_times_differ : Option Text → Option Text → Bool
start_times_differ (some s) (some t) = not (is_empty s) && (not (is_empty t) && not (text_eq s t))
start_times_differ _ _ = false

abbrev same_pid : Option ℕ → Option ℕ → Bool
same_pid (some p) (some q) = p == q
same_pid _ _ = false

unfoldable pub release_lease : LeaseRecord → ProcessIdentity → ℕ → Result (Unit {0})
release_lease current claimant expected_generation = do
  throw_if (not (current.generation == expected_generation)) WaveError.stale_lease
  throw_if (not (text_eq current.holder claimant.holder)) WaveError.lease_holder
  throw_if (not (text_eq current.process_identity claimant.process_identity))
      WaveError.lease_pid_reuse
  throw_if
      (same_pid current.pid claimant.pid
        && start_times_differ current.pid_start_time claimant.pid_start_time)
      WaveError.lease_pid_reuse

unfoldable pub is_lease_stale : LeaseRecord → ℕ → Bool
is_lease_stale lease now = leb lease.expires_at now

-- What `process.kill(pid, 0)` answers; the operating system is a parameter, a function from pids.
pub data Signal : Type 0 where
  delivered esrch eperm : Signal

abbrev pub is_esrch : Signal → Bool
is_esrch esrch = true
is_esrch _ = false

unfoldable pub pid_is_dead : (ℕ → Signal) → Option ℕ → Bool
pid_is_dead kill none = false
pid_is_dead kill (some zero) = false
pid_is_dead kill (some (suc p)) = is_esrch (kill (suc p))
