-- ===== src/Budget.antt =====
-- core/budget.ts: what a wave has spent and reserved, admission under its ceilings, and the life of
-- a reservation.
pub mod Sums
pub mod Admission
pub mod Entries
use openclaw_wave_runner.Prelude.{
  ℕ, ◌+◌, ◌-◌, Bool, true, false, ◌&&◌, ◌||◌, not, Option, none, some, get_or, List, [], ◌∷◌, leb,
  ltb, if◌then◌else◌, filter, is_empty, WaveError, Denial, Result, ok, err, ◌>>◌, throw_if,
}
use openclaw_wave_runner.Domain.{
  WaveLimits, WaveCounters, WaveRecord, BudgetEntry, BudgetState, QuotaMode, reserved, committed,
  indeterminate, released, is_reserved,
}

pub record BudgetSnapshot : Type 0 where
  pub committed_tokens : ℕ
  pub reserved_tokens : ℕ
  pub indeterminate_tokens : ℕ
  pub committed_cost_micros : ℕ
  pub reserved_cost_micros : ℕ
  pub indeterminate_cost_micros : ℕ

abbrev pub empty_snapshot : BudgetSnapshot
empty_snapshot = record {
  committed_tokens = 0;
  reserved_tokens = 0;
  indeterminate_tokens = 0;
  committed_cost_micros = 0;
  reserved_cost_micros = 0;
  indeterminate_cost_micros = 0;
}

-- the body of the loop, by the entry's state
abbrev pub add_entry : BudgetState → BudgetEntry → BudgetSnapshot → BudgetSnapshot
add_entry committed entry snap = record snap {
  committed_tokens = snap.committed_tokens + get_or entry.tokens_actual 0;
  committed_cost_micros = snap.committed_cost_micros + get_or entry.cost_actual_micros 0;
}
add_entry reserved entry snap = record snap {
  reserved_tokens = snap.reserved_tokens + entry.tokens_reserved;
  reserved_cost_micros = snap.reserved_cost_micros + entry.cost_reserved_micros;
}
add_entry indeterminate entry snap = record snap {
  indeterminate_tokens = snap.indeterminate_tokens + entry.tokens_reserved;
  indeterminate_cost_micros = snap.indeterminate_cost_micros + entry.cost_reserved_micros;
}
add_entry released entry snap = snap

unfoldable pub summarize_from : BudgetSnapshot → List BudgetEntry → BudgetSnapshot
summarize_from snap [] = snap
summarize_from snap (entry ∷ entries) = summarize_from (add_entry entry.state entry snap) entries

unfoldable pub summarize_budgets : List BudgetEntry → BudgetSnapshot
unfolding summarize_from
summarize_budgets entries = summarize_from empty_snapshot entries

unfoldable pub counters_from_budgets : List BudgetEntry → ℕ → Option ℕ → WaveCounters
counters_from_budgets entries launches started_at =
    let snap = summarize_budgets entries in
    record {
      committed_tokens = snap.committed_tokens;
      reserved_tokens = snap.reserved_tokens;
      indeterminate_tokens = snap.indeterminate_tokens;
      committed_cost_micros = snap.committed_cost_micros;
      reserved_cost_micros = snap.reserved_cost_micros;
      indeterminate_cost_micros = snap.indeterminate_cost_micros;
      launches = launches;
      started_at = started_at;
    }

-- `wave.stopAt !== undefined && now >= wave.stopAt`
abbrev pub stop_at_passed : Option ℕ → ℕ → Bool
stop_at_passed none now = false
stop_at_passed (some stop_at) now = leb stop_at now

-- The elapsed-time test. The code subtracts; a clock behind `startedAt` gives a negative number
-- there and 0 here, and neither reaches a deadline above 0.
abbrev pub deadline_passed : Option ℕ → Option ℕ → ℕ → Bool
deadline_passed (some deadline_ms) (some started_at) now =
    ltb 0 deadline_ms && leb deadline_ms (now - started_at)
deadline_passed _ _ now = false

abbrev pub is_usd : QuotaMode → Bool
is_usd QuotaMode.usd = true
is_usd _ = false

abbrev pub used_tokens : BudgetSnapshot → ℕ
used_tokens snap = snap.committed_tokens + snap.reserved_tokens + snap.indeterminate_tokens

abbrev pub used_cost : BudgetSnapshot → ℕ
used_cost snap =
    snap.committed_cost_micros + snap.reserved_cost_micros + snap.indeterminate_cost_micros

unfoldable pub admit_reservation :
    WaveRecord → List BudgetEntry → ℕ → ℕ → ℕ → Bool → Result (Unit {0})
admit_reservation wave entries candidate_tokens candidate_cost_micros now extra_launch = do
  throw_if wave.cancel_requested (WaveError.admission_denied Denial.sticky_cancellation)
  throw_if (stop_at_passed wave.stop_at now) (WaveError.admission_denied Denial.stop_at_passed)
  throw_if (deadline_passed wave.deadline_ms wave.counters.started_at now)
      (WaveError.admission_denied Denial.deadline_passed)
  throw_if (extra_launch && ltb wave.limits.max_launches (wave.counters.launches + 1))
      (WaveError.admission_denied Denial.launches_exceeded)
  throw_if (ltb wave.limits.max_tokens (used_tokens (summarize_budgets entries) + candidate_tokens))
      (WaveError.admission_denied Denial.tokens_exceeded)
  throw_if
      ((is_usd wave.quota_mode || ltb 0 wave.limits.max_cost_micros)
        && ltb wave.limits.max_cost_micros
            (used_cost (summarize_budgets entries) + candidate_cost_micros))
      (WaveError.admission_denied Denial.cost_exceeded)

unfoldable pub fail_closed_without_rates : QuotaMode → Bool → Result (Unit {0})
fail_closed_without_rates quota_mode has_rates =
    throw_if (is_usd quota_mode && not has_rates) WaveError.usage_indeterminate

abbrev settle_open : BudgetEntry → Option ℕ → Option ℕ → ℕ → BudgetEntry
settle_open entry none actual_cost now = record entry { state = indeterminate; updated_at = now }
settle_open entry (some tokens) actual_cost now = record entry {
  tokens_actual = some tokens;
  cost_actual_micros = some (get_or actual_cost 0);
  state = committed;
  updated_at = now;
}

abbrev is_open : BudgetState → Bool
is_open reserved = true
is_open indeterminate = true
is_open _ = false

unfoldable pub apply_settlement : BudgetEntry → Option ℕ → Option ℕ → ℕ → BudgetEntry
apply_settlement entry actual_tokens actual_cost_micros now =
    if not (is_open entry.state)
    then entry
    else settle_open entry actual_tokens actual_cost_micros now

unfoldable pub mark_indeterminate : BudgetEntry → ℕ → BudgetEntry
mark_indeterminate entry now =
    if not (is_open entry.state)
    then entry
    else record entry { state = indeterminate; updated_at = now }

unfoldable pub release_if_unused : BudgetEntry → ℕ → BudgetEntry
release_if_unused entry now = if not (is_reserved entry.state) then entry else record entry {
  state = released;
  tokens_actual = some 0;
  cost_actual_micros = some 0;
  updated_at = now;
}

unfoldable pub reservation_ceiling : WaveLimits → ℕ × ℕ
reservation_ceiling limits =
    (limits.per_stage_reservation_tokens, limits.per_stage_reservation_cost_micros)

unfoldable pub assert_budget_states_for_terminal : List BudgetEntry → Result (Unit {0})
assert_budget_states_for_terminal entries =
    throw_if (not (is_empty (filter (λ entry. is_reserved entry.state) entries)))
      WaveError.budget_open
