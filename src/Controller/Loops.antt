-- ===== src/Controller/Loops.antt =====
-- The loops over a wave's tickets and budgets in core/wave-commands.ts, core/budget-stop.ts and
-- core/tick.ts, as loops over one table: each row of a snapshot is written back if it is still open.
use mathlib.Core.List.{Memᴰ}
use openclaw_wave_runner.Prelude.{
  ◌≡◌, ◌⊎◌, inl, inr, refl, Bool, true, false, not, some, List, [], ◌∷◌, Text, text_eq, text_eq_iff,
  if◌then◌else◌, mem-filter, filter-mem, Bool-cases, ok, arith,
}
use openclaw_wave_runner.Prelude.Sorting.{mem-order_by, mem_of_order_by}
use openclaw_wave_runner.Domain.{is_terminal_ticket, TicketRun, BudgetEntry, is_reserved}
use openclaw_wave_runner.Budget.{mark_indeterminate}
use openclaw_wave_runner.Store.{
  WaveDatabase, ticket_key, merge_ticket, budget_key, merge_budget, put_ticket, put_budget,
  list_tickets, list_budgets,
}
use openclaw_wave_runner.Store.Table.{get, put, IsKeyed}
use openclaw_wave_runner.Store.Rows.{put_each, GoodAt-snapshot, get-some}
use openclaw_wave_runner.Controller.Exec.{Env, Controller, Exec, for_each, modify, pure}
use openclaw_wave_runner.Controller.Commands.{close_budget}

abbrev pub is_open_ticket : TicketRun → Bool
is_open_ticket ticket = not (is_terminal_ticket ticket.status)

-- the body of a loop that changes the open tickets
abbrev pub put_open : (TicketRun → TicketRun) → TicketRun → Exec (Unit {0})
put_open change ticket =
    if is_open_ticket ticket then modify (put_ticket (change ticket)) else pure tt

abbrev pub with_tickets : Controller → List TicketRun → Controller
with_tickets c tickets = record c { db = record c.db { tickets = tickets } }

abbrev pub with_budgets : Controller → List BudgetEntry → Controller
with_budgets c budgets = record c { db = record c.db { budgets = budgets } }

pub for_each-put_open :
    (change : TicketRun → TicketRun) (xs : List TicketRun) (c : Controller)
    → for_each xs (put_open change) c ≡ (
      ok tt,
      with_tickets c (put_each ticket_key merge_ticket is_open_ticket change xs c.db.tickets),
    )
unfolding put_each put_ticket
for_each-put_open change [] c = refl
for_each-put_open change (x ∷ xs) c = elim (Bool-cases (is_open_ticket x)) [
  | inl e ↦ rw e (
      for_each-put_open change xs
        (with_tickets c (put ticket_key merge_ticket (change x) c.db.tickets)))
  | inr e ↦ rw e (for_each-put_open change xs c)
]

pub for_each-close_budget :
    (env : Env) (xs : List BudgetEntry) (c : Controller)
    → for_each xs (close_budget env) c ≡ (
      ok tt,
      with_budgets c (
          put_each budget_key merge_budget
            (λ entry. is_reserved entry.state)
            (λ entry. mark_indeterminate entry env.now)
            xs
            c.db.budgets),
    )
unfolding put_each put_budget
for_each-close_budget env [] c = refl
for_each-close_budget env (x ∷ xs) c = elim (Bool-cases (is_reserved x.state)) [
  | inl e ↦ rw e (
      for_each-close_budget env xs
        (with_budgets c (put budget_key merge_budget (mark_indeterminate x env.now) c.db.budgets)))
  | inr e ↦ rw e (for_each-close_budget env xs c)
]

-- The tickets of a wave, as rows of the table.
mem-list_tickets :
    {ticket : TicketRun} (wave_id : Text) (db : WaveDatabase)
    → Memᴰ ticket (list_tickets wave_id db)
    → Memᴰ ticket db.tickets
unfolding list_tickets
mem-list_tickets wave_id db m = (mem-filter _ db.tickets (mem_of_order_by _ _ m)).0

mem_of_list_tickets :
    {ticket : TicketRun} (wave_id : Text) (db : WaveDatabase)
    → Memᴰ ticket db.tickets
    → ticket.wave_id ≡ wave_id
    → Memᴰ ticket (list_tickets wave_id db)
unfolding list_tickets
mem_of_list_tickets {ticket} wave_id db m e =
    mem-order_by _ _ (filter-mem _ db.tickets m ((text_eq_iff ticket.wave_id wave_id).1 e))

-- After the loop every ticket of the wave is terminal.
pub tickets_closed :
    (change : TicketRun → TicketRun)
    → ((ticket : TicketRun) → ticket_key (change ticket) ≡ ticket_key ticket)
    → ((ticket : TicketRun) → is_terminal_ticket (change ticket).status ≡ true)
    → (wave_id : Text) (db : WaveDatabase) → IsKeyed ticket_key db.tickets
    → (ticket_id : Text) (ticket : TicketRun)
    → get ticket_key (wave_id ∷ ticket_id ∷ []) (
        put_each ticket_key merge_ticket is_open_ticket change (list_tickets wave_id db) db.tickets)
      ≡ some ticket
    → is_terminal_ticket ticket.status ≡ true
tickets_closed change change_key closes wave_id db keyed ticket_id =
    GoodAt-snapshot ticket_key merge_ticket (λ old row. refl) is_open_ticket change change_key
      (λ ticket. is_terminal_ticket ticket.status ≡ true) (λ old x t. (closes x, closes x))
      (list_tickets wave_id db) db.tickets keyed
      (λ x m. (mem-list_tickets wave_id db m, λ f. ground arith)) (wave_id ∷ ticket_id ∷ [])
      (λ row e.
        let (there, own) = get-some ticket_key db.tickets e in
        inr (mem_of_list_tickets wave_id db there (ground (arith, own))))

pub mem-list_budgets :
    {entry : BudgetEntry} (wave_id : Text) (db : WaveDatabase)
    → Memᴰ entry (list_budgets wave_id db)
    → Memᴰ entry db.budgets × (entry.wave_id ≡ wave_id)
unfolding list_budgets
mem-list_budgets {entry} wave_id db m =
    let (there, own) = mem-filter _ db.budgets (mem_of_order_by _ _ m) in
    (there, (text_eq_iff entry.wave_id wave_id).0 own)

mem_of_list_budgets :
    {entry : BudgetEntry} (wave_id : Text) (db : WaveDatabase)
    → Memᴰ entry db.budgets
    → entry.wave_id ≡ wave_id
    → Memᴰ entry (list_budgets wave_id db)
unfolding list_budgets
mem_of_list_budgets {entry} wave_id db m e =
    mem-order_by _ _ (filter-mem _ db.budgets m ((text_eq_iff entry.wave_id wave_id).1 e))

module _ (env : Env) (wave_id : Text) (db : WaveDatabase) where
  abbrev pub closed_budgets : List BudgetEntry
  closed_budgets =
      put_each budget_key merge_budget (λ entry. is_reserved entry.state)
        (λ entry. mark_indeterminate entry env.now) (list_budgets wave_id db) db.budgets

  mark_key :
      (entry : BudgetEntry) → budget_key (mark_indeterminate entry env.now) ≡ budget_key entry
  unfolding mark_indeterminate
  mark_key entry = ground arith

  -- not reserved, if it is the wave's
  abbrev IsClosed : BudgetEntry → Type 0
  IsClosed entry = entry.wave_id ≡ wave_id → is_reserved entry.state ≡ false

  mark_closes :
      (old entry : BudgetEntry)
      → is_reserved entry.state ≡ true
      → IsClosed (mark_indeterminate entry env.now)
        × IsClosed (merge_budget old (mark_indeterminate entry env.now))
  unfolding mark_indeterminate
  mark_closes old entry h = ground arith

  IsClosed-or_listed :
      (row : BudgetEntry) → Memᴰ row db.budgets → IsClosed row ⊎ Memᴰ row (list_budgets wave_id db)
  IsClosed-or_listed row there = elim (Bool-cases (text_eq row.wave_id wave_id)) [
    | inl own ↦ inr (mem_of_list_budgets wave_id db there ((text_eq_iff row.wave_id wave_id).0 own))
    | inr other ↦ inl (λ own. absurd (ground (arith, text_eq_iff row.wave_id wave_id)))
  ]

  -- After the loop no budget entry of the wave is reserved.
  pub budgets_closed :
      IsKeyed budget_key db.budgets
      → (budget_id : Text) (entry : BudgetEntry)
      → get budget_key (budget_id ∷ []) closed_budgets ≡ some entry
      → entry.wave_id ≡ wave_id
      → is_reserved entry.state ≡ false
  budgets_closed keyed budget_id =
      GoodAt-snapshot budget_key merge_budget (λ old row. refl) (λ entry. is_reserved entry.state)
        (λ entry. mark_indeterminate entry env.now) mark_key IsClosed mark_closes
        (list_budgets wave_id db) db.budgets keyed
        (λ x m. ((mem-list_budgets wave_id db m).0, λ f own. f)) (budget_id ∷ [])
        (λ row e. IsClosed-or_listed row (get-some budget_key db.budgets e).0)
