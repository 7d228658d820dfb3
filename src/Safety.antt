-- ===== src/Safety.antt =====
-- domain/safety.ts: the frozen safety flags, and the gates that every wave and every supervised
-- launch pass.
pub mod Gates
use openclaw_wave_runner.Prelude.{
  ℕ, Bool, true, false, ◌&&◌, ◌||◌, not, Option, none, some, List, [], ◌∷◌, length, any, ltb, ◌==◌,
  if◌then◌else◌, Text, text_eq, is_empty, WaveError, Result, ok, err, ◌>>◌, throw_if,
}

pub record SafetyFlags : Type 0 where
  pub production_drain_enabled : Bool
  pub overnight_enabled : Bool
  pub unrestricted_drain_enabled : Bool
  pub recurring_llm_polling_enabled : Bool
  pub autonomous_overnight_enabled : Bool
  pub deploy_push_enabled : Bool
  pub production_worker_launch_enabled : Bool
  pub allow_active_gateway_restart : Bool
  pub allow_active_gateway_config_mutation : Bool
  pub supervised_bounded_launch_allowed : Bool
  pub supervised_max_tickets : ℕ
  pub supervised_max_launches : ℕ
  pub supervised_max_tokens : ℕ
  pub supervised_max_wall_time_ms : ℕ
  pub supervised_one_ticket_launch_allowed : Bool
  pub supervised_lease_ttl_ms : ℕ
  pub supervised_acp_slots : ℕ

-- `SAFETY`
abbrev pub safety : SafetyFlags
safety = record {
  production_drain_enabled = false;
  overnight_enabled = false;
  unrestricted_drain_enabled = false;
  recurring_llm_polling_enabled = false;
  autonomous_overnight_enabled = false;
  deploy_push_enabled = false;
  production_worker_launch_enabled = false;
  allow_active_gateway_restart = false;
  allow_active_gateway_config_mutation = false;
  supervised_bounded_launch_allowed = true;
  supervised_max_tickets = 8;
  supervised_max_launches = 48;
  supervised_max_tokens = 500_000;
  supervised_max_wall_time_ms = 0;
  supervised_one_ticket_launch_allowed = true;
  supervised_lease_ttl_ms = 7_200_000;
  supervised_acp_slots = 4;
}

-- A flag left out of a request is falsy, so it is a plain Boolean; a ticket list may be missing.
pub record WaveRequest : Type 0 where
  pub drain_everything : Bool
  pub overnight : Bool
  pub recurring_llm_polling : Bool
  pub ticket_ids : Option (List Text)

abbrev pub ids_of : Option (List Text) → List Text
ids_of none = []
ids_of (some ids) = ids

unfoldable pub assert_bounded_wave_request : WaveRequest → Result (Unit {0})
assert_bounded_wave_request input = do
  throw_if (input.drain_everything || safety.unrestricted_drain_enabled) WaveError.safety_gate
  throw_if (input.overnight || (safety.overnight_enabled || safety.autonomous_overnight_enabled))
      WaveError.safety_gate
  throw_if (input.recurring_llm_polling || safety.recurring_llm_polling_enabled)
      WaveError.safety_gate
  throw_if safety.production_drain_enabled WaveError.safety_gate
  throw_if (is_empty (ids_of input.ticket_ids)) WaveError.safety_gate

-- The members of `new Set(ids)`; only its size is read, so the order of the members is left open.
unfoldable pub set_of : List Text → List Text
unfolding any
set_of [] = []
set_of (id ∷ ids) = let rest = set_of ids in if any (text_eq id) rest then rest else id ∷ rest

-- the limits that a launch request may carry; natural numbers, so `maxWallTimeMs < 0` never holds
pub record LaunchLimits : Type 0 where
  pub max_launches : ℕ
  pub max_tokens : ℕ
  pub max_wall_time_ms : ℕ
  pub repo_concurrency : ℕ

pub record LaunchRequest : Type 0 where
  pub ticket_ids : Option (List Text)
  pub operator_action : Bool
  pub isolated_worktree : Bool
  pub deploy_push : Bool
  pub gateway_mutate : Bool
  pub limits : Option LaunchLimits

unfoldable pub assert_launch_limits : Option LaunchLimits → Result (Unit {0})
assert_launch_limits none = ok tt
assert_launch_limits (some limits) = do
  throw_if (not (limits.repo_concurrency == 1)) WaveError.safety_gate
  throw_if (ltb limits.max_launches 1 || ltb safety.supervised_max_launches limits.max_launches)
      WaveError.safety_gate
  throw_if (ltb limits.max_tokens 1 || ltb safety.supervised_max_tokens limits.max_tokens)
      WaveError.safety_gate
  throw_if (ltb limits.max_wall_time_ms 0) WaveError.safety_gate

abbrev bounded_part : Option (List Text) → WaveRequest
bounded_part ids = record {
  drain_everything = false;
  overnight = false;
  recurring_llm_polling = false;
  ticket_ids = ids;
}

unfoldable pub assert_supervised_bounded_launch : LaunchRequest → Result (Unit {0})
unfolding assert_bounded_wave_request assert_launch_limits
assert_supervised_bounded_launch input = do
  assert_bounded_wave_request (bounded_part input.ticket_ids)
  throw_if (safety.production_worker_launch_enabled || safety.production_drain_enabled)
      WaveError.safety_gate
  throw_if (not safety.supervised_bounded_launch_allowed) WaveError.safety_gate
  throw_if (not input.operator_action) WaveError.safety_gate
  throw_if
      (ltb (length (ids_of input.ticket_ids)) 1
        || ltb safety.supervised_max_tickets (length (ids_of input.ticket_ids)))
      WaveError.safety_gate
  throw_if (not (length (set_of (ids_of input.ticket_ids)) == length (ids_of input.ticket_ids)))
      WaveError.safety_gate
  throw_if (not input.isolated_worktree) WaveError.safety_gate
  throw_if (input.deploy_push || safety.deploy_push_enabled) WaveError.safety_gate
  throw_if
      (input.gateway_mutate
        || (safety.allow_active_gateway_restart || safety.allow_active_gateway_config_mutation))
      WaveError.safety_gate
  assert_launch_limits input.limits

unfoldable pub assert_supervised_one_ticket_launch : LaunchRequest → Result (Unit {0})
unfolding assert_supervised_bounded_launch
assert_supervised_one_ticket_launch input = do
  assert_supervised_bounded_launch input
  throw_if (not (length (ids_of input.ticket_ids) == 1)) WaveError.safety_gate
