-- ===== src/Controller/Closing.antt =====
-- The calls that cancellation (core/wave-commands.ts) and the stop for budget (core/budget-stop.ts)
-- share: every open ticket is closed, every reserved budget entry is marked, the counters are drawn
-- anew and the writer leases are swept.
use openclaw_wave_runner.Prelude.{
  ◌≡◌, refl, sym, ap, ◌∙◌, true, false, some, List, [], ◌∷◌, Text, ok, arith,
}
use openclaw_wave_runner.Domain.{
  is_terminal_ticket, TicketRun, BudgetEntry, WaveRecord, is_reserved,
}
use openclaw_wave_runner.Store.{
  WaveDatabase, ticket_key, merge_ticket, budget_key, get_wave, wave_key, merge_wave, list_tickets,
  list_budgets, put_wave,
}
use openclaw_wave_runner.Budget.{counters_from_budgets}
use openclaw_wave_runner.Store.Rows.{put_each, get-put, get-some}
use openclaw_wave_runner.Store.Table.{get, IsKeyed, key_eq_refl}
use openclaw_wave_runner.Controller.Exec.{Env, Controller, Exec, ◌>>=◌, ◌>>◌, query, for_each}
use openclaw_wave_runner.Controller.Context.{refresh_counters}
use openclaw_wave_runner.Controller.Commands.{close_budget}
use openclaw_wave_runner.Controller.Recovery.{release_inactive_writer_leases}
use openclaw_wave_runner.Controller.Frames.{release_inactive_writer_leases-TouchesLeases}
use openclaw_wave_runner.Controller.Loops.{
  for_each-put_open, for_each-close_budget, with_tickets, with_budgets, put_open, is_open_ticket,
  tickets_closed, budgets_closed, closed_budgets,
}

-- Nothing of the wave is open: every ticket is terminal, and no budget entry is reserved.
pub record HasNothingOpen (wave_id : Text) (db : WaveDatabase) : Type 0 where
  pub tickets_terminal :
      (ticket_id : Text) (ticket : TicketRun)
      → get ticket_key (wave_id ∷ ticket_id ∷ []) db.tickets ≡ some ticket
      → is_terminal_ticket ticket.status ≡ true
  pub budgets_closed :
      (budget_id : Text) (entry : BudgetEntry)
      → get budget_key (budget_id ∷ []) db.budgets ≡ some entry
      → entry.wave_id ≡ wave_id
      → is_reserved entry.state ≡ false

-- The primary keys of the two tables hold.
abbrev pub IsKeyedLedger : WaveDatabase → Type 0
IsKeyedLedger db = IsKeyed ticket_key db.tickets × IsKeyed budget_key db.budgets

-- the last two calls change waves, leases and locks only
tail_frame :
    (env : Env) (wave_id : Text) (c : Controller)
    → let c' = ((refresh_counters wave_id >> release_inactive_writer_leases env wave_id) c).1 in
      (c'.db.tickets ≡ c.db.tickets) × (c'.db.budgets ≡ c.db.budgets)
unfolding refresh_counters put_wave
tail_frame env wave_id c = ground (
  arith,
  (release_inactive_writer_leases-TouchesLeases env wave_id).at (refresh_counters wave_id c).1,
)

-- the calls that cancellation and the stop for budget share
abbrev pub close_all : Env → Text → (TicketRun → TicketRun) → Exec (Unit {0})
close_all env wave_id change = do
  tickets ← query (list_tickets wave_id)
  for_each tickets (put_open change)
  budgets ← query (list_budgets wave_id)
  for_each budgets (close_budget env)
  refresh_counters wave_id
  release_inactive_writer_leases env wave_id

abbrev changed_tickets : Text → (TicketRun → TicketRun) → WaveDatabase → List TicketRun
changed_tickets wave_id change db =
    put_each ticket_key merge_ticket is_open_ticket change (list_tickets wave_id db) db.tickets

close_all_lem :
    (env : Env) (wave_id : Text) (change : TicketRun → TicketRun) (c : Controller)
    → let c' = (close_all env wave_id change c).1 in
      (c'.db.tickets ≡ changed_tickets wave_id change c.db)
      × (c'.db.budgets ≡ closed_budgets env wave_id c.db)
unfolding list_budgets
close_all_lem env wave_id change c =
    let c1 = with_tickets c (changed_tickets wave_id change c.db) in
    rw (for_each-put_open change (list_tickets wave_id c.db) c) (
      rw (for_each-close_budget env (list_budgets wave_id c1.db) c1)
        (tail_frame env wave_id (with_budgets c1 (closed_budgets env wave_id c1.db))))

-- the wave with its counters drawn from the budgets anew
abbrev pub recounted : WaveDatabase → WaveRecord → WaveRecord
recounted db wave = record wave {
  counters =
      counters_from_budgets (list_budgets wave.wave_id db) wave.counters.launches
        wave.counters.started_at;
}

tail_wave :
    (env : Env) (wave_id : Text) (c : Controller) (w : WaveRecord)
    → get_wave wave_id c.db ≡ some w
    → let r = (refresh_counters wave_id >> release_inactive_writer_leases env wave_id) c in
      (r.0 ≡ ok tt) × (get_wave wave_id r.1.db ≡ some (recounted c.db w))
unfolding refresh_counters put_wave get_wave
tail_wave env wave_id c w there =
    let own : w.wave_id ∷ [] ≡ wave_id ∷ [] = (get-some wave_key c.db.waves there).1 in
    ground (
      arith,
      own,
      (release_inactive_writer_leases-TouchesLeases env wave_id).at (refresh_counters wave_id c).1,
      get-put wave_key merge_wave (λ old row. refl) (wave_id ∷ []) (recounted c.db w) c.db.waves,
      key_eq_refl (wave_id ∷ []),
    )

close_all_wave :
    (env : Env) (wave_id : Text) (change : TicketRun → TicketRun) (c : Controller) (w : WaveRecord)
    → get_wave wave_id c.db ≡ some w
    → let r = close_all env wave_id change c in
      (r.0 ≡ ok tt)
      × (get_wave wave_id r.1.db
          ≡ some (recounted (record c.db { budgets = closed_budgets env wave_id c.db }) w))
unfolding list_budgets get_wave
close_all_wave env wave_id change c w there =
    let c1 = with_tickets c (changed_tickets wave_id change c.db) in
    rw (for_each-put_open change (list_tickets wave_id c.db) c) (
      rw (for_each-close_budget env (list_budgets wave_id c1.db) c1)
        (tail_wave env wave_id (with_budgets c1 (closed_budgets env wave_id c1.db)) w there))

module _ (env : Env) (wave_id : Text) (change : TicketRun → TicketRun)
    (change_key : (ticket : TicketRun) → ticket_key (change ticket) ≡ ticket_key ticket)
    (closes : (ticket : TicketRun) → is_terminal_ticket (change ticket).status ≡ true)
    (c : Controller) where
  -- After these calls the wave has nothing open.
  pub close_all-HasNothingOpen :
      IsKeyedLedger c.db → HasNothingOpen wave_id (close_all env wave_id change c).1.db
  close_all-HasNothingOpen keyed =
      let same = close_all_lem env wave_id change c in
      record {
        tickets_terminal = λ ticket_id ticket e.
            tickets_closed change change_key closes wave_id c.db keyed.0 ticket_id ticket
              (sym (ap (get ticket_key (wave_id ∷ ticket_id ∷ [])) same.0) ∙ e);
        budgets_closed = λ budget_id entry e own.
            budgets_closed env wave_id c.db keyed.1 budget_id entry
              (sym (ap (get budget_key (budget_id ∷ [])) same.1) ∙ e) own;
      }

  -- They do not throw where the wave is there, and its counters agree with its budgets afterwards.
  pub close_all_recounts :
      (w : WaveRecord)
      → get_wave wave_id c.db ≡ some w
      → let r = close_all env wave_id change c in
        (r.0 ≡ ok tt) × (get_wave wave_id r.1.db ≡ some (recounted r.1.db w))
  unfolding list_budgets
  close_all_recounts w there =
      let same = close_all_lem env wave_id change c in
      let stored = close_all_wave env wave_id change c w there in
      (
        stored.0,
        stored.1
            ∙ ap (λ budgets. some (recounted (record c.db { budgets = budgets }) w)) (sym same.1),
      )
