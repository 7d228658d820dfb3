-- ===== src/Controller/Cancellation.antt =====
-- Cancellation (`cancelWave` of core/wave-commands.ts) and the stop for budget (core/budget-stop.ts):
-- what the ledger is after them.
use openclaw_wave_runner.Prelude.{
  ℕ, ◌+◌, ◌≡◌, inl, inr, refl, sym, true, false, Option, some, Text, ok, arith, Result-cases, text,
}
use openclaw_wave_runner.Domain.{WaveStatus, is_terminal_wave, WaveRecord}
use openclaw_wave_runner.StateMachine.{assert_wave_transition}
use mathlib.Core.Path.{subst}
use openclaw_wave_runner.Budget.{counters_from_budgets}
use openclaw_wave_runner.Store.Table.{IsKeyed}
use openclaw_wave_runner.Store.{
  WaveDatabase, get_wave, put_wave, list_budgets, ticket_key, budget_key,
}
use openclaw_wave_runner.Store.Waves.{get_wave-put_wave}
use openclaw_wave_runner.Controller.Exec.{Env, Controller, transaction}
use openclaw_wave_runner.Controller.Context.{mutate_wave, require_wave}
use openclaw_wave_runner.Controller.Mutation.{mutate_wave_ok}
use openclaw_wave_runner.Controller.Commands.{
  budget_stopped_wave, cancelled_ticket, cancel_children, request_cancel, cancel_wave,
  stop_for_budget, budget_stopped_ticket,
}
use openclaw_wave_runner.Controller.Closing.{
  HasNothingOpen, IsKeyedLedger, recounted, close_all, close_all-HasNothingOpen, close_all_recounts,
}

-- The ledger of a cancelled wave.
pub record IsCancelled (wave_id : Text) (db : WaveDatabase) : Type 0 where
  pub wave : WaveRecord
  pub stored : get_wave wave_id db ≡ some wave
  pub requested : wave.cancel_requested ≡ true
  pub terminal : is_terminal_wave wave.status ≡ true
  pub counted :
      wave.counters
      ≡ counters_from_budgets
          (list_budgets wave.wave_id db)
          wave.counters.launches
          wave.counters.started_at
  pub nothing_open : HasNothingOpen wave_id db

cancel_children_lem :
    (env : Env) (wave_id : Text) (c : Controller) (w : WaveRecord)
    → IsKeyedLedger c.db
    → get_wave wave_id c.db ≡ some w
    → let c' = (cancel_children env wave_id c).1 in
      HasNothingOpen wave_id c'.db × (get_wave wave_id c'.db ≡ some (recounted c'.db w))
unfolding cancel_children
cancel_children_lem env wave_id c w keyed there =
    let counts =
      close_all_recounts env wave_id cancelled_ticket (λ t. refl) (λ t. refl) c w there in
    rw counts.0 (
      close_all-HasNothingOpen env wave_id cancelled_ticket (λ t. refl) (λ t. refl) c keyed,
      counts.1,
    )

pub request_keeps :
    (w w' : WaveRecord)
    → request_cancel w ≡ ok w'
    → (w'.wave_id ≡ w.wave_id) × (w'.created_at ≡ w.created_at)
unfolding request_cancel assert_wave_transition
request_keeps w w' h = ground arith

requested_cancel :
    (w w' : WaveRecord)
    → request_cancel w ≡ ok w'
    → (w'.cancel_requested ≡ true) × (is_terminal_wave w'.status ≡ true)
unfolding request_cancel assert_wave_transition
requested_cancel w w' h = ground arith

-- the second transaction, after the first one has stored the wave `w'`
from_request :
    (env : Env) (wave_id : Text) (c : Controller) (w w' : WaveRecord)
    → request_cancel w ≡ ok w'
    → IsKeyedLedger c.db
    → get_wave wave_id c.db ≡ some (record w' { revision = w'.revision + 1; updated_at = env.now })
    → IsCancelled wave_id (cancel_children env wave_id c).1.db
unfolding counters_from_budgets
from_request env wave_id c w w' accepted keyed there =
    let w'' = record w' { revision = w'.revision + 1; updated_at = env.now } in
    let (closed, stored) = cancel_children_lem env wave_id c w'' keyed there in
    let (requested, terminal) = requested_cancel w w' accepted in
    record {
      wave = recounted (cancel_children env wave_id c).1.db w'';
      stored = stored;
      requested = requested;
      terminal = terminal;
      counted = refl;
      nothing_open = closed;
    }

-- In a ledger whose tickets and budget entries have distinct keys, a cancellation that succeeds
-- leaves the wave terminal with the flag set, every ticket of the wave terminal, no budget entry
-- of the wave reserved, and the wave's counters in agreement with its budgets.
pub cancel_wave-IsCancelled :
    (env : Env) (wave_id event_id : Text) (expected : Option ℕ) (c : Controller)
    → IsKeyedLedger c.db
    → (cancel_wave env wave_id event_id expected c).0 ≡ ok tt
    → IsCancelled wave_id (cancel_wave env wave_id event_id expected c).1.db
unfolding cancel_wave
cancel_wave-IsCancelled env wave_id event_id expected c keyed h =
    let first = mutate_wave env wave_id event_id (text "cancel") expected request_cancel c in
    elim (Result-cases first.0) [
      | inl (_, done) ↦
          let (w, w', accepted, _, mutated) =
            mutate_wave_ok env wave_id event_id (text "cancel") expected request_cancel
              request_keeps c done in
          rw done (
            from_request env wave_id first.1 w w' accepted
              (
                subst (IsKeyed ticket_key) (sym mutated.same_tickets) keyed.0,
                subst (IsKeyed budget_key) (sym mutated.same_budgets) keyed.1,
              )
              mutated.found_after)
      | inr (e, failed) ↦ absurd (ground arith)
    ]

-- the ledger of a wave that was stopped for budget
pub record IsBudgetStopped (wave_id : Text) (db : WaveDatabase) : Type 0 where
  pub wave : WaveRecord
  pub stored : get_wave wave_id db ≡ some wave
  pub stopped : wave.status ≡ WaveStatus.budget_stopped
  pub counted :
      wave.counters
      ≡ counters_from_budgets
          (list_budgets wave.wave_id db)
          wave.counters.launches
          wave.counters.started_at
  pub nothing_open : HasNothingOpen wave_id db

-- In a ledger whose tickets and budget entries have distinct keys, a stop for budget of a wave
-- that is there and not terminal yet succeeds, and leaves the wave budget-stopped, every ticket
-- of the wave terminal, no budget entry of the wave reserved, and the wave's counters in
-- agreement with its budgets.
pub stop_for_budget-IsBudgetStopped :
    (env : Env) (wave_id reason : Text) (c : Controller) (w : WaveRecord)
    → IsKeyedLedger c.db
    → get_wave wave_id c.db ≡ some w
    → is_terminal_wave w.status ≡ false
    → ((stop_for_budget env wave_id reason c).0 ≡ ok tt)
      × IsBudgetStopped wave_id (stop_for_budget env wave_id reason c).1.db
unfolding stop_for_budget counters_from_budgets put_wave require_wave transaction
stop_for_budget-IsBudgetStopped env wave_id reason c w keyed there live =
    let w' = budget_stopped_wave env w in
    let c' : Controller = record c { db = put_wave w' c.db } in
    let closed =
      close_all-HasNothingOpen env wave_id (budget_stopped_ticket reason) (λ t. refl) (λ t. refl) c'
        keyed in
    let counts =
      close_all_recounts env wave_id (budget_stopped_ticket reason) (λ t. refl) (λ t. refl) c' w'
        (get_wave-put_wave wave_id w w' c.db there refl refl) in
    rw there (
      rw live (
        rw counts.0 (
          refl,
          record {
            wave = recounted (close_all env wave_id (budget_stopped_ticket reason) c').1.db w';
            stored = counts.1;
            stopped = refl;
            counted = refl;
            nothing_open = closed;
          },
        )))
