-- ===== src/Budget/Sums.antt =====
-- The snapshot of core/budget.ts against plain sums: what each entry holds of the ceilings.
use openclaw_wave_runner.Prelude.{ℕ, ◌+◌, ◌≡◌, Option, get_or, List, [], ◌∷◌, arith}
use openclaw_wave_runner.Prelude.Sorting.{sum_of}
use openclaw_wave_runner.Domain.{
  BudgetEntry, BudgetState, reserved, committed, indeterminate, released,
}
use openclaw_wave_runner.Budget.{
  BudgetSnapshot, add_entry, summarize_from, summarize_budgets, used_tokens, used_cost,
}

-- What an entry holds of a ceiling: its actual use once committed, its reservation while that is
-- open or unknown, and nothing once released.
abbrev pub held : BudgetState → ℕ → Option ℕ → ℕ
held committed reservation actual = get_or actual 0
held reserved reservation actual = reservation
held indeterminate reservation actual = reservation
held released reservation actual = 0

abbrev pub tokens_held : BudgetEntry → ℕ
tokens_held entry = held entry.state entry.tokens_reserved entry.tokens_actual

abbrev pub cost_held : BudgetEntry → ℕ
cost_held entry = held entry.state entry.cost_reserved_micros entry.cost_actual_micros

used_tokens-summarize_from :
    (snap : BudgetSnapshot) (entries : List BudgetEntry)
    → used_tokens (summarize_from snap entries) ≡ used_tokens snap + sum_of tokens_held entries
unfolding summarize_from
used_tokens-summarize_from snap [] = omega arith
used_tokens-summarize_from snap (entry ∷ entries) =
    ground (arith, used_tokens-summarize_from (add_entry entry.state entry snap) entries)

-- The tokens that admission counts are the sum of what the entries hold.
pub used_tokens-summarize :
    (entries : List BudgetEntry)
    → used_tokens (summarize_budgets entries) ≡ sum_of tokens_held entries
unfolding summarize_budgets
used_tokens-summarize entries = omega (arith, used_tokens-summarize_from _ entries)

used_cost-summarize_from :
    (snap : BudgetSnapshot) (entries : List BudgetEntry)
    → used_cost (summarize_from snap entries) ≡ used_cost snap + sum_of cost_held entries
unfolding summarize_from
used_cost-summarize_from snap [] = omega arith
used_cost-summarize_from snap (entry ∷ entries) =
    ground (arith, used_cost-summarize_from (add_entry entry.state entry snap) entries)

-- So are the costs.
pub used_cost-summarize :
    (entries : List BudgetEntry) → used_cost (summarize_budgets entries) ≡ sum_of cost_held entries
unfolding summarize_budgets
used_cost-summarize entries = omega (arith, used_cost-summarize_from _ entries)
