-- ===== src/Examples/Endings.antt =====
-- Runs of the completion of a wave (core/tick.ts).
use mathlib.Core.List.{Memᴰ}
use openclaw_wave_runner.Prelude.{
  suc, ◌+◌, ◌≡◌, ◌⊎◌, refl, true, some, List, [], ◌∷◌, length, all, any, filter, find?, text_eq,
  Text, text, ok, arith,
}
use openclaw_wave_runner.Prelude.Sorting.{order_by}
use openclaw_wave_runner.Domain.{TicketRun, TicketStatus, WaveStatus, is_terminal_ticket}
use openclaw_wave_runner.Budget.{
  summarize_budgets, mark_indeterminate, assert_budget_states_for_terminal,
}
use openclaw_wave_runner.Controller.Context.{refresh_counters}
use openclaw_wave_runner.Store.{
  put_budget, put_wave, get_wave, list_tickets, list_budgets, budget_key,
}
use openclaw_wave_runner.Store.Table.{get, put, key_eq, IsKeyed}
use openclaw_wave_runner.Controller.Exec.{Controller}
use openclaw_wave_runner.Controller.Completion.{
  is_dead, walk, nearest_dead_ancestor, maybe_complete_wave,
}
use openclaw_wave_runner.Controller.Completion.Search.{
  IsAncestor, nearest_dead_ancestor-IsAncestor, nearest_dead_ancestor_terminates,
}
use openclaw_wave_runner.Controller.Completion.Outcome.{
  HasMore, IsCompleted, maybe_complete_wave-IsCompleted,
}
use openclaw_wave_runner.Examples.Data.{
  controller, small_ledger, running_wave, reserved_entry, ticket_at, test_env,
}

abbrev waits_for : TicketRun → Text → TicketRun
waits_for ticket id = record ticket { depends_on = id ∷ [] }

abbrev dead_root : TicketRun
dead_root = ticket_at (text "x") TicketStatus.cancelled

abbrev middle : TicketRun
middle = waits_for (ticket_at (text "y") TicketStatus.pending) (text "x")

abbrev leaf : TicketRun
leaf = waits_for (ticket_at (text "z") TicketStatus.pending) (text "y")

abbrev chain : List TicketRun
chain = leaf ∷ middle ∷ dead_root ∷ []

leaf_is_dead : nearest_dead_ancestor chain leaf ≡ some dead_root
unfolding nearest_dead_ancestor any find? text_eq
leaf_is_dead = refl

nearest_dead_ancestor-IsAncestor_example :
    (is_dead dead_root.status ≡ true) × IsAncestor chain dead_root leaf
nearest_dead_ancestor-IsAncestor_example =
    nearest_dead_ancestor-IsAncestor chain leaf dead_root leaf_is_dead

nearest_dead_ancestor_terminates_example :
    (walk chain (suc (length chain) + 5) leaf []).0 ≡ nearest_dead_ancestor chain leaf
nearest_dead_ancestor_terminates_example =
    nearest_dead_ancestor_terminates chain leaf 5 (Memᴰ.head refl)

-- the one ticket is done, and a reservation is left open
abbrev ending : Controller
ending = record controller {
  db = record small_ledger { tickets = ticket_at (text "d") TicketStatus.done ∷ [] };
}

ending-IsKeyed : IsKeyed budget_key ending.db.budgets
ending-IsKeyed = ground arith

ending_wave : get_wave (text "w") ending.db ≡ some running_wave
unfolding get_wave get find? key_eq text_eq
ending_wave = refl

maybe_complete_wave-IsCompleted_example :
    let r = maybe_complete_wave test_env (text "w") ending in
    (r.0 ≡ ok tt)
    × (((get_wave (text "w") r.1.db ≡ some running_wave) × HasMore (list_tickets (text "w") r.1.db))
        ⊎ ((all (λ (t : TicketRun). is_terminal_ticket t.status) (list_tickets (text "w") r.1.db)
              ≡ true)
            × IsCompleted test_env (text "w") running_wave (list_tickets (text "w") r.1.db) r.1.db))
maybe_complete_wave-IsCompleted_example =
    maybe_complete_wave-IsCompleted test_env (text "w") running_wave ending ending-IsKeyed
      ending_wave refl

-- The wave is stored as completed with the 100 reserved tokens that it had before, though the entry is
-- indeterminate by then and nothing of the wave is reserved.
test_stale_counters :
    (get_wave (text "w") (maybe_complete_wave test_env (text "w") ending).1.db
      ≡ some (record running_wave {
        status = WaveStatus.completed;
        owner = text "none";
        next_action = text "inspect";
        revision = 4;
        updated_at = 50;
      }))
    × ((maybe_complete_wave test_env (text "w") ending).1.db.budgets
        ≡ mark_indeterminate reserved_entry 50 ∷ [])
unfolding maybe_complete_wave get_wave list_tickets list_budgets get put find? filter all any
    order_by key_eq text_eq mark_indeterminate summarize_budgets refresh_counters put_budget
    put_wave assert_budget_states_for_terminal
test_stale_counters = (refl, refl)
