-- ===== src/Controller/Completion/Outcome.antt =====
-- What the completion of a wave (`maybeCompleteWave` of core/tick.ts) leaves in the ledger.
use mathlib.Core.Path.{subst}
use openclaw_wave_runner.Prelude.{
  ◌≡◌, ◌≢◌, ◌⊎◌, inl, inr, refl, sym, ap, ◌∙◌, Bool, true, false, not, all, some, List, [], ◌∷◌,
  Text, is_empty, ok, arith, All, All-of_mem, Bool-cases, ◌||◌,
}
use openclaw_wave_runner.Domain.{
  is_terminal_ticket, is_terminal_wave, TicketRun, WaveRecord, BudgetEntry, is_reserved, reserved,
}
use openclaw_wave_runner.Budget.{mark_indeterminate}
use openclaw_wave_runner.Budget.Entries.{assert_budget_states_iff}
use openclaw_wave_runner.Store.{
  WaveDatabase, get_wave, put_wave, put_ticket, list_tickets, list_budgets, wave_key, budget_key,
  merge_budget,
}
use openclaw_wave_runner.Store.Table.{get, IsKeyed}
use openclaw_wave_runner.Store.Rows.{IsKeyed-put_each, get_of_mem}
use openclaw_wave_runner.Store.Waves.{get_wave-put_wave}
use openclaw_wave_runner.Controller.Exec.{Env, Controller, for_each, transaction}
use openclaw_wave_runner.Controller.Context.{require_wave, refresh_counters}
use openclaw_wave_runner.Controller.Loops.{
  for_each-close_budget, with_budgets, closed_budgets, budgets_closed, mem-list_budgets,
}
use openclaw_wave_runner.Controller.Admission.Steps.{counted}
use openclaw_wave_runner.Controller.Completion.{
  fail_dependent, fail_dependents_of_dead_tickets, final_status, completed_wave, complete_wave,
  maybe_complete_wave,
}

-- After the loop over the budgets none of the wave is reserved.
none_reserved :
    (env : Env) (wave_id : Text) (db : WaveDatabase)
    → IsKeyed budget_key db.budgets
    → All
        (λ (entry : BudgetEntry). entry.state ≢ reserved)
        (list_budgets wave_id (record db { budgets = closed_budgets env wave_id db }))
none_reserved env wave_id db keyed =
    let keyed_after =
      IsKeyed-put_each budget_key merge_budget (λ old row. refl) (λ entry. is_reserved entry.state)
        (λ entry. mark_indeterminate entry env.now) (list_budgets wave_id db) db.budgets keyed in
    All-of_mem _ (list_budgets wave_id (record db { budgets = closed_budgets env wave_id db }))
      (λ entry m r.
        let (there, own) =
          mem-list_budgets wave_id (record db { budgets = closed_budgets env wave_id db }) m in
        let closed =
          budgets_closed env wave_id db keyed entry.budget_id entry
            (get_of_mem budget_key (closed_budgets env wave_id db) keyed_after there) own in
        ground (arith, closed, r))

-- The completed wave in the ledger.
pub record IsCompleted (env : Env) (wave_id : Text) (wave : WaveRecord) (tickets : List TicketRun)
    (db : WaveDatabase) : Type 0 where
  pub stored : get_wave wave_id db ≡ some (completed_wave env (final_status tickets) wave)
  pub none_open : All (λ (entry : BudgetEntry). entry.state ≢ reserved) (list_budgets wave_id db)

complete_wave_lem :
    (env : Env) (wave_id : Text) (wave : WaveRecord) (tickets : List TicketRun) (c : Controller)
    → IsKeyed budget_key c.db.budgets
    → get_wave wave_id c.db ≡ some wave
    → let r = complete_wave env wave_id wave tickets c in
      (r.0 ≡ ok tt) × (r.1.db.tickets ≡ c.db.tickets) × IsCompleted env wave_id wave tickets r.1.db
unfolding complete_wave refresh_counters require_wave put_wave list_budgets get_wave
complete_wave_lem env wave_id wave tickets c keyed there =
    let c1 = with_budgets c (closed_budgets env wave_id c.db) in
    let none = none_reserved env wave_id c.db keyed in
    let passes = (assert_budget_states_iff (list_budgets wave_id c1.db)).1 none in
    let first = get_wave-put_wave wave_id wave (counted wave_id c1.db wave) c1.db there refl refl in
    let final =
      get_wave-put_wave wave_id (counted wave_id c1.db wave)
        (completed_wave env (final_status tickets) wave)
        (put_wave (counted wave_id c1.db wave) c1.db) first refl refl in
    rw (for_each-close_budget env (list_budgets wave_id c.db) c)
      (rw there (rw passes (refl, refl, record { stored = final; none_open = none })))

fail_step :
    (all_tickets : List TicketRun) (t : TicketRun) (c : Controller)
    → let r = fail_dependent all_tickets t c in
      (r.0 ≡ ok tt) × (r.1.db.waves ≡ c.db.waves) × (r.1.db.budgets ≡ c.db.budgets)
unfolding put_ticket
fail_step all_tickets t c = ground arith

-- Failing dependents never throws and writes tickets only.
fail_loop :
    (all_tickets tickets : List TicketRun) (c : Controller)
    → let r = for_each tickets (fail_dependent all_tickets) c in
      (r.0 ≡ ok tt) × (r.1.db.waves ≡ c.db.waves) × (r.1.db.budgets ≡ c.db.budgets)
fail_loop all_tickets [] c = (refl, refl, refl)
fail_loop all_tickets (t ∷ tickets) c =
    let step = fail_step all_tickets t c in
    let rest = fail_loop all_tickets tickets (fail_dependent all_tickets t c).1 in
    rw step.0 (rest.0, rest.1 ∙ step.1, rest.2 ∙ step.2)

fail_frame :
    (wave_id : Text) (wave : WaveRecord) (c : Controller)
    → get_wave wave_id c.db ≡ some wave
    → let r = fail_dependents_of_dead_tickets wave_id c in
      (r.0 ≡ ok tt) × (r.1.db.waves ≡ c.db.waves) × (r.1.db.budgets ≡ c.db.budgets)
unfolding fail_dependents_of_dead_tickets require_wave
fail_frame wave_id wave c there =
    elim (Bool-cases (wave.cancel_requested || is_terminal_wave wave.status)) [
      | inl e ↦ rw there (rw e (refl, refl, refl))
      | inr e ↦
          rw there (rw e (fail_loop (list_tickets wave_id c.db) (list_tickets wave_id c.db) c))
    ]

list_tickets_of :
    (wave_id : Text) (a b : WaveDatabase)
    → a.tickets ≡ b.tickets
    → list_tickets wave_id a ≡ list_tickets wave_id b
unfolding list_tickets
list_tickets_of wave_id a b same = rw same refl

second_true : (a b : Bool) → (a || not b) ≡ false → b ≡ true
second_true a b h = ground arith

-- there is no ticket, or one that is not terminal
abbrev pub HasMore : List TicketRun → Type 0
HasMore tickets =
    (is_empty tickets || not (all (λ (t : TicketRun). is_terminal_ticket t.status) tickets)) ≡ true

-- In a ledger whose budget entries have distinct keys, completing a wave that is there and not
-- terminal never throws. Either the wave is as it was and has no ticket or one that is not
-- terminal, or every ticket of it is terminal, no budget entry of it is reserved, and what is
-- stored is the wave as it was read at the start, its counters included, under its final status
-- and the next revision.
pub maybe_complete_wave-IsCompleted :
    (env : Env) (wave_id : Text) (wave : WaveRecord) (c : Controller)
    → IsKeyed budget_key c.db.budgets
    → get_wave wave_id c.db ≡ some wave
    → is_terminal_wave wave.status ≡ false
    → let r = maybe_complete_wave env wave_id c in
      (r.0 ≡ ok tt)
      × (((get_wave wave_id r.1.db ≡ some wave) × HasMore (list_tickets wave_id r.1.db))
          ⊎ ((all (λ (t : TicketRun). is_terminal_ticket t.status) (list_tickets wave_id r.1.db)
                ≡ true)
              × IsCompleted env wave_id wave (list_tickets wave_id r.1.db) r.1.db))
unfolding maybe_complete_wave require_wave transaction get_wave
maybe_complete_wave-IsCompleted env wave_id wave c keyed there live =
    let first = fail_dependents_of_dead_tickets wave_id c in
    let frame = fail_frame wave_id wave c there in
    let still : get_wave wave_id first.1.db ≡ some wave =
      ap (get wave_key (wave_id ∷ [])) frame.1 ∙ there in
    let tickets = list_tickets wave_id first.1.db in
    elim (Bool-cases
      (is_empty tickets || not (all (λ (t : TicketRun). is_terminal_ticket t.status) tickets))) [
        | inl e ↦ rw there (rw live (rw frame.0 (rw e (refl, inl (still, e)))))
        | inr e ↦
            let (fine, same, done) =
              complete_wave_lem env wave_id wave tickets first.1
                (subst (IsKeyed budget_key) (sym frame.2) keyed) still in
            let after = (complete_wave env wave_id wave tickets first.1).1.db in
            let same_list = list_tickets_of wave_id after first.1.db same in
            rw there (
              rw live (
                rw frame.0 (
                  rw e (
                    rw fine (
                      refl,
                      inr (
                        ap (all (λ (t : TicketRun). is_terminal_ticket t.status)) same_list
                            ∙ second_true _ _ e,
                        subst (λ ts. IsCompleted env wave_id wave ts after) (sym same_list) done,
                      ),
                    )))))
      ]
