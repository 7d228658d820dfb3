-- ===== src/Examples/Commands.antt =====
-- Runs of the operator's commands (core/wave-commands.ts, core/budget-stop.ts).
use openclaw_wave_runner.Prelude.{
  ℕ, ◌≡◌, refl, true, some, is_some, Text, text, text_eq, filter, find?, any, ok, err, WaveError,
  arith,
}
use openclaw_wave_runner.Prelude.Sorting.{order_by}
use openclaw_wave_runner.Domain.{WaveRecord}
use openclaw_wave_runner.StateMachine.{
  assert_expected_revision, assert_wave_transition, assert_ticket_transition,
}
use openclaw_wave_runner.Store.{
  get_wave, get_event, get_ticket, insert_event, list_tickets, list_budgets, list_leases, put_wave,
  put_ticket, put_budget,
}
use openclaw_wave_runner.Store.Table.{get, put, key_eq}
use openclaw_wave_runner.Controller.Context.{mutate_wave, refresh_counters}
use openclaw_wave_runner.Controller.Recovery.{release_inactive_writer_leases}
use openclaw_wave_runner.Controller.Mutation.{IsMutated, mutate_wave_ok}
use openclaw_wave_runner.Controller.Commands.{
  cancel_wave, request_cancel, approve_wave, stop_for_budget,
}
use openclaw_wave_runner.Controller.Closing.{IsKeyedLedger}
use openclaw_wave_runner.Controller.Cancellation.{
  IsCancelled, IsBudgetStopped, cancel_wave-IsCancelled, stop_for_budget-IsBudgetStopped,
  request_keeps,
}
use openclaw_wave_runner.Controller.Approval.{
  IsApproved, approve_wave-IsApproved, approve_wave_spends_event,
}
use openclaw_wave_runner.Examples.Data.{controller, test_env, running_wave}

keyed : IsKeyedLedger controller.db
keyed = ground arith

cancel_succeeds : (cancel_wave test_env (text "w") (text "e1") (some 3) controller).0 ≡ ok tt
unfolding cancel_wave get_wave get_event insert_event list_tickets list_budgets list_leases put_wave
    put_ticket put_budget get put find? filter any order_by key_eq text_eq request_cancel
    assert_wave_transition assert_expected_revision mutate_wave refresh_counters
    release_inactive_writer_leases
cancel_succeeds = refl

cancel_wave-IsCancelled_example :
    IsCancelled (text "w") (cancel_wave test_env (text "w") (text "e1") (some 3) controller).1.db
cancel_wave-IsCancelled_example =
    cancel_wave-IsCancelled test_env (text "w") (text "e1") (some 3) controller keyed
      cancel_succeeds

wave_found : get_wave (text "w") controller.db ≡ some running_wave
unfolding get_wave get find? key_eq text_eq
wave_found = refl

stop_for_budget-IsBudgetStopped_example :
    ((stop_for_budget test_env (text "w") (text "deadline") controller).0 ≡ ok tt)
    × IsBudgetStopped
        (text "w")
        (stop_for_budget test_env (text "w") (text "deadline") controller).1.db
stop_for_budget-IsBudgetStopped_example =
    stop_for_budget-IsBudgetStopped test_env (text "w") (text "deadline") controller running_wave
      keyed wave_found refl

mutation_succeeds :
    (mutate_wave test_env
      (text "w")
      (text "e1")
      (text "cancel")
      (some 3)
      request_cancel
      controller).0
    ≡ ok tt
unfolding mutate_wave get_wave get_event insert_event put_wave get put find? any key_eq text_eq
    request_cancel assert_wave_transition assert_expected_revision
mutation_succeeds = refl

mutate_wave_ok_example :
    (w : WaveRecord) × (w' : WaveRecord) × (request_cancel w ≡ ok w')
    × (assert_expected_revision w.revision (some 3) ≡ ok tt)
    × IsMutated test_env
        (text "w")
        (text "e1")
        controller.db
        (mutate_wave test_env
          (text "w")
          (text "e1")
          (text "cancel")
          (some 3)
          request_cancel
          controller).1.db
        w
        w'
mutate_wave_ok_example =
    mutate_wave_ok test_env (text "w") (text "e1") (text "cancel") (some 3) request_cancel
      request_keeps controller mutation_succeeds

-- the wave is at revision 3
mutation_is_stale :
    (mutate_wave test_env
      (text "w")
      (text "e1")
      (text "cancel")
      (some 2)
      request_cancel
      controller).0
    ≡ err WaveError.stale_revision
unfolding mutate_wave get_wave get_event insert_event get find? key_eq text_eq
    assert_expected_revision
mutation_is_stale = refl

approval_succeeds : (approve_wave test_env (text "w") (text "b") 5 (text "e1") controller).0 ≡ ok tt
unfolding approve_wave get_wave get_ticket get_event insert_event put_ticket get put find? any
    key_eq text_eq assert_ticket_transition assert_expected_revision
approval_succeeds = refl

approve_wave-IsApproved_example :
    IsApproved
      (text "w")
      (text "b")
      5
      (text "e1")
      controller.db
      (approve_wave test_env (text "w") (text "b") 5 (text "e1") controller).1.db
approve_wave-IsApproved_example =
    approve_wave-IsApproved test_env (text "w") (text "b") 5 (text "e1") controller
      approval_succeeds

-- an approval at a stale revision fails, and the retry with the right one is refused
approve_wave_spends_event_example :
    let after = (approve_wave test_env (text "w") (text "b") 4 (text "e1") controller).1 in
    (is_some (get_event (text "e1") after.db) ≡ true)
    × ((ticket_id : Text) (expected : ℕ)
        → approve_wave test_env (text "w") ticket_id expected (text "e1") after
          ≡ (err WaveError.duplicate_event, after))
approve_wave_spends_event_example =
    approve_wave_spends_event test_env (text "w") (text "b") 4 (text "e1") controller
