-- ===== src/Controller/Admission/Ceilings.antt =====
-- `queueStage` (core/admission.ts) keeps a wave within its ceilings.
use mathlib.Core.Option.{Option, none, some}
use mathlib.Core.Path.{subst}
use openclaw_wave_runner.Budget.{reservation_ceiling}
use openclaw_wave_runner.Prelude.{
  ℕ, ◌+◌, ◌≤◌, ◌≡◌, inl, inr, refl, sym, ap, ◌∙◌, true, none, some, List, [], ◌∷◌, ◌++◌, Text,
  filter, text_eq, text_eq_refl, Result, ok, arith,
}
use openclaw_wave_runner.Prelude.Sorting.{sum_of, sum_of-order_by}
use openclaw_wave_runner.Domain.{TicketRun, WaveRecord, StageName, BudgetEntry}
use openclaw_wave_runner.Budget.Sums.{tokens_held, cost_held}
use openclaw_wave_runner.Budget.Admission.{CostBinds, admit_reservation_iff}
use openclaw_wave_runner.Store.{
  WaveDatabase, get_wave, list_budgets, budget_key, merge_budget, wave_key,
}
use openclaw_wave_runner.Store.Table.{get, put}
use openclaw_wave_runner.Store.Rows.{put_fresh}
use openclaw_wave_runner.Controller.Exec.{Env, Controller}
use openclaw_wave_runner.Controller.Rows.{FreshIds, budget_row, write_rows}
use openclaw_wave_runner.Controller.Admission.{admit_stage, attempt_of, queue_stage}
use openclaw_wave_runner.Budget.{counters_from_budgets}
use openclaw_wave_runner.Controller.Admission.Outcomes.{queue_stage-commits}
use openclaw_wave_runner.Controller.Admission.Steps.{
  IsAdmitted, admit_stage-IsAdmitted, write_rows-IsCounted,
}

-- What the wave's budget entries hold, and the launches it has counted, are within its limits.
pub record IsWithinLimits (wave : WaveRecord) (entries : List BudgetEntry) : Type 0 where
  pub tokens : sum_of tokens_held entries ≤ wave.limits.max_tokens
  pub cost : CostBinds wave → sum_of cost_held entries ≤ wave.limits.max_cost_micros
  pub launches : wave.counters.launches ≤ wave.limits.max_launches

abbrev pub IsFundedBy : Option WaveRecord → List BudgetEntry → Type 0
IsFundedBy none entries = Unit
IsFundedBy (some wave) entries = IsWithinLimits wave entries

-- the wave under this id, if there is one, is within its limits
abbrev pub IsFunded : Text → WaveDatabase → Type 0
IsFunded wave_id db = IsFundedBy (get_wave wave_id db) (list_budgets wave_id db)

sum_of-filter-append :
    (f : BudgetEntry → ℕ) (wave_id : Text) (entry : BudgetEntry) (entries : List BudgetEntry)
    → entry.wave_id ≡ wave_id
    → sum_of f (filter (λ e. text_eq e.wave_id wave_id) (entries ++ entry ∷ []))
      ≡ sum_of f (filter (λ e. text_eq e.wave_id wave_id) entries) + f entry
unfolding filter
sum_of-filter-append f wave_id entry [] own = ground (arith, text_eq_refl wave_id)
sum_of-filter-append f wave_id entry (e ∷ entries) own =
    ground (arith, sum_of-filter-append f wave_id entry entries)

-- a fresh entry of the wave adds what it holds
sum_of-put :
    (f : BudgetEntry → ℕ) (wave_id : Text) (entry : BudgetEntry) (before after : WaveDatabase)
    → entry.wave_id ≡ wave_id
    → get budget_key (entry.budget_id ∷ []) before.budgets ≡ none
    → after.budgets ≡ put budget_key merge_budget entry before.budgets
    → sum_of f (list_budgets wave_id after) ≡ sum_of f (list_budgets wave_id before) + f entry
unfolding list_budgets
sum_of-put f wave_id entry before after own fresh written =
    let rows =
      written ∙ put_fresh budget_key merge_budget (λ old row. refl) entry before.budgets fresh in
    rw rows (
      omega (
        arith,
        sum_of-order_by (λ e. e.created_at) f
            (filter (λ e. text_eq e.wave_id wave_id) (before.budgets ++ entry ∷ [])),
        sum_of-order_by (λ e. e.created_at) f
            (filter (λ e. text_eq e.wave_id wave_id) before.budgets),
        sum_of-filter-append f wave_id entry before.budgets own,
      ))

module _ (env : Env) (ids : FreshIds) (ticket : TicketRun) (wave_id ticket_id : Text)
    (stage : StageName) (attempt : ℕ) (c : Controller) (wave : WaveRecord)
    (fresh : get budget_key (ids.budget_id ∷ []) c.db.budgets ≡ none) where
  -- the rows of an admitted stage
  write_rows-IsFunded :
      (live : WaveRecord) (c' : Controller)
      → IsAdmitted env wave.limits wave_id c.db c'.db live
      → (write_rows env ids live wave.limits ticket wave_id ticket_id stage attempt c').0 ≡ ok tt
      → IsFunded wave_id
          (write_rows env ids live wave.limits ticket wave_id ticket_id stage attempt c').1.db
  unfolding reservation_ceiling get_wave counters_from_budgets
  write_rows-IsFunded live c' admission done =
      let fits =
        (admit_reservation_iff live (list_budgets wave_id c.db)
            wave.limits.per_stage_reservation_tokens wave.limits.per_stage_reservation_cost_micros
            env.now true).0
          admission.admitted in
      let row = budget_row env ids wave_id wave.limits in
      let last =
        (write_rows env ids live wave.limits ticket wave_id ticket_id stage attempt c').1 in
      let (written, stored) =
        write_rows-IsCounted env ids live wave.limits ticket wave_id ticket_id stage attempt c'
          (sym (ap (get wave_key (wave_id ∷ [])) admission.same.waves) ∙ admission.found_wave)
          done in
      let rows = written ∙ sym (ap (put budget_key merge_budget row) admission.same.budgets) in
      let tokens = sum_of-put tokens_held wave_id row c.db last.db refl fresh rows in
      let cost = sum_of-put cost_held wave_id row c.db last.db refl fresh rows in
      subst (λ found. IsFundedBy found (list_budgets wave_id last.db)) (sym stored)
        (record {
          tokens = omega (arith, tokens, fits.tokens_fit);
          cost = λ binds. omega (arith, cost, fits.cost_fits binds);
          launches = omega (arith, fits.launch_left refl);
        })

-- Queueing a stage keeps a wave that is within its limits within them, whatever comes of it, if
-- the id that was drawn for the reservation is new: the tokens and (where that ceiling binds) the
-- cost that the wave's budget entries hold stay under the ceilings, and so does the number of
-- launches.
pub queue_stage-IsFunded :
    (env : Env) (ids : FreshIds) (wave_id ticket_id : Text) (stage : StageName) (c : Controller)
    → get budget_key (ids.budget_id ∷ []) c.db.budgets ≡ none
    → IsFunded wave_id c.db
    → IsFunded wave_id (queue_stage env ids wave_id ticket_id stage c).1.db
queue_stage-IsFunded env ids wave_id ticket_id stage c fresh before =
    elim (queue_stage-commits env ids wave_id ticket_id stage c) [
      | inl queued ↦
          let attempt = attempt_of wave_id ticket_id stage c.db in
          let reserved = queued.reserved in
          let admission =
            admit_stage-IsAdmitted env queued.wave.limits queued.ticket wave_id ticket_id stage c
              reserved.live reserved.auth reserved.admitted in
          let first = admit_stage env queued.wave.limits queued.ticket wave_id ticket_id stage c in
          subst (λ (r : Result (Unit {0}) × Controller). IsFunded wave_id r.1.db)
            (sym (queued.result ∙ reserved.committed))
            (write_rows-IsFunded env ids queued.ticket wave_id ticket_id stage attempt c queued.wave
              fresh reserved.live first.1 admission reserved.rows)
      | inr unchanged ↦ subst (IsFunded wave_id) (sym unchanged) before
    ]
