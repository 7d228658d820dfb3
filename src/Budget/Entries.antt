-- ===== src/Budget/Entries.antt =====
-- The life of one budget entry (core/budget.ts): what settling, marking and releasing do to what it
-- holds, and the check of a terminal wave.
use openclaw_wave_runner.Prelude.{
  ℕ, ◌≡◌, ◌⊎◌, ◌↔◌, ◌≢◌, refl, false, Option, none, some, get_or, List, [], ◌∷◌, ok, arith, filter,
  All,
}
use openclaw_wave_runner.Domain.{
  BudgetEntry, reserved, committed, indeterminate, released, is_reserved,
}
use openclaw_wave_runner.Budget.{
  apply_settlement, mark_indeterminate, release_if_unused, assert_budget_states_for_terminal,
}
use openclaw_wave_runner.Budget.Sums.{tokens_held, cost_held}

-- A worker whose usage is missing keeps its reservation: marking an entry indeterminate, or settling
-- it without usage, changes nothing of what it holds, and leaves no entry reserved.
missing_usage_retains :
    (entry : BudgetEntry) (cost : Option ℕ) (now : ℕ)
    → (tokens_held (apply_settlement entry none cost now) ≡ tokens_held entry)
      × (cost_held (apply_settlement entry none cost now) ≡ cost_held entry)
      × (apply_settlement entry none cost now ≡ mark_indeterminate entry now)
      × (is_reserved (mark_indeterminate entry now).state ≡ false)
unfolding apply_settlement mark_indeterminate
missing_usage_retains entry cost now = ground arith

-- A committed or released entry is final: no operation changes it.
pub settled_is_final :
    (entry : BudgetEntry) (tokens cost : Option ℕ) (now : ℕ)
    → (entry.state ≡ committed) ⊎ (entry.state ≡ released)
    → (apply_settlement entry tokens cost now ≡ entry)
      × (mark_indeterminate entry now ≡ entry)
      × (release_if_unused entry now ≡ entry)
unfolding apply_settlement mark_indeterminate release_if_unused
settled_is_final entry tokens cost now h = ground arith

-- Settling with usage commits an open entry at exactly its actual tokens and cost, and settling it
-- once more changes nothing.
settlement_commits :
    (entry : BudgetEntry) (tokens : ℕ) (cost : Option ℕ) (now : ℕ)
    → (entry.state ≡ reserved) ⊎ (entry.state ≡ indeterminate)
    → let settled = apply_settlement entry (some tokens) cost now in
      (settled.state ≡ committed)
      × (tokens_held settled ≡ tokens)
      × (cost_held settled ≡ get_or cost 0)
      × ((again : Option ℕ) (later : ℕ) → apply_settlement settled again cost later ≡ settled)
unfolding apply_settlement
settlement_commits entry tokens cost now h =
    (ground arith, ground arith, ground arith, λ again later. ground arith)

-- The check of a terminal wave passes exactly when no entry is still reserved.
none_reserved :
    (entries : List BudgetEntry)
    → assert_budget_states_for_terminal entries ≡ ok tt
    → All (λ entry. entry.state ≢ reserved) entries
unfolding assert_budget_states_for_terminal filter
none_reserved [] h = tt
none_reserved (entry ∷ entries) h = ground (arith, none_reserved entries)

passes :
    (entries : List BudgetEntry)
    → All (λ entry. entry.state ≢ reserved) entries
    → assert_budget_states_for_terminal entries ≡ ok tt
unfolding assert_budget_states_for_terminal filter
passes [] h = refl
passes (entry ∷ entries) h = ground (arith, passes entries)

-- The check of a terminal wave passes exactly when no entry is still reserved.
pub assert_budget_states_iff :
    (entries : List BudgetEntry)
    → (assert_budget_states_for_terminal entries ≡ ok tt)
      ↔ All (λ entry. entry.state ≢ reserved) entries
assert_budget_states_iff entries = (none_reserved entries, passes entries)
