-- ===== src/Budget/Admission.antt =====
-- When core/budget.ts admits a reservation, against a description in terms of plain sums.
use openclaw_wave_runner.Prelude.{
  ℕ, ◌+◌, ◌≤◌, ◌<◌, ◌≡◌, ◌⊎◌, ◌↔◌, Bool, true, false, Option, none, some, List, ok, arith,
}
use openclaw_wave_runner.Prelude.Sorting.{sum_of}
use openclaw_wave_runner.Domain.{WaveRecord, BudgetEntry, QuotaMode}
use openclaw_wave_runner.Budget.{admit_reservation}
use openclaw_wave_runner.Budget.Sums.{
  tokens_held, cost_held, used_tokens-summarize, used_cost-summarize,
}

-- `t` is before the stop time, if the wave has one.
abbrev pub IsBefore : Option ℕ → ℕ → Type 0
IsBefore none t = Unit
IsBefore (some stop) t = t < stop

-- The deadline counts from the start and 0 stands for none.
abbrev pub IsWithin : Option ℕ → Option ℕ → ℕ → Type 0
IsWithin (some deadline) (some started) t = 0 < deadline → t < started + deadline
IsWithin _ _ t = Unit

-- The cost ceiling binds in `usd` mode, and in every mode once it is above 0.
abbrev pub CostBinds : WaveRecord → Type 0
CostBinds wave = (wave.quota_mode ≡ QuotaMode.usd) ⊎ (0 < wave.limits.max_cost_micros)

pub record IsAdmissible (wave : WaveRecord) (entries : List BudgetEntry) (tokens cost now : ℕ)
    (extra_launch : Bool) : Type 0 where
  pub live : wave.cancel_requested ≡ false
  pub in_time : IsBefore wave.stop_at now
  pub in_wall : IsWithin wave.deadline_ms wave.counters.started_at now
  pub launch_left : extra_launch ≡ true → wave.counters.launches < wave.limits.max_launches
  pub tokens_fit : sum_of tokens_held entries + tokens ≤ wave.limits.max_tokens
  pub cost_fits : CostBinds wave → sum_of cost_held entries + cost ≤ wave.limits.max_cost_micros

module _ (wave : WaveRecord) (entries : List BudgetEntry) (tokens cost now : ℕ)
    (extra_launch : Bool) where
  admitted :
      admit_reservation wave entries tokens cost now extra_launch ≡ ok tt
      → IsAdmissible wave entries tokens cost now extra_launch
  unfolding admit_reservation
  admitted h = ground (arith, used_tokens-summarize entries, used_cost-summarize entries)

  admits :
      IsAdmissible wave entries tokens cost now extra_launch
      → admit_reservation wave entries tokens cost now extra_launch ≡ ok tt
  unfolding admit_reservation
  admits h = ground (arith, used_tokens-summarize entries, used_cost-summarize entries)

  -- A reservation is admitted exactly when the wave is not cancelled, neither its stop time nor its
  -- deadline has passed, a launch is left (if one is asked for), and what its entries hold leaves
  -- room for the candidate under the token ceiling and, where it binds, under the cost ceiling.
  pub admit_reservation_iff :
      (admit_reservation wave entries tokens cost now extra_launch ≡ ok tt)
      ↔ IsAdmissible wave entries tokens cost now extra_launch
  admit_reservation_iff = (admitted, admits)
