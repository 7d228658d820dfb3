-- ===== src/Examples/Admission.antt =====
-- Runs of core/admission.ts and core/budget.ts.
use openclaw_wave_runner.Prelude.{
  get_or, ◌⊎◌, ◌↔◌, ◌≡◌, refl, true, false, none, some, [], ◌∷◌, text, text_eq, filter, find?, any,
  Result, ok, err, WaveError, Denial, arith,
}
use openclaw_wave_runner.Prelude.Sorting.{order_by}
use openclaw_wave_runner.Domain.{StageName, TicketStatus}
use openclaw_wave_runner.Budget.{admit_reservation, used_tokens, summarize_budgets}
use openclaw_wave_runner.Budget.Admission.{IsAdmissible, admit_reservation_iff}
use openclaw_wave_runner.Store.{
  get_stage_by_idempotency, get_outbox_by_idempotency, get_wave, get_ticket, list_budgets,
  budget_key,
}
use openclaw_wave_runner.Store.Table.{get, put, key_eq}
use openclaw_wave_runner.Controller.Admission.{queue_stage, attempt_of, slots_taken}
use openclaw_wave_runner.Controller.Admission.Accepted.{plan_pending, queue_stage-IsWritten}
use openclaw_wave_runner.StagePaths.{idempotency_key}
use openclaw_wave_runner.Controller.Admission.Ceilings.{IsFunded, queue_stage-IsFunded}
use openclaw_wave_runner.Controller.Admission.Outcomes.{queue_stage_atomic}
use openclaw_wave_runner.Controller.Admission.Written.{AreNew, IsWritten, queue_stage-outcomes}
use openclaw_wave_runner.Examples.Data.{
  ticket_at, controller, test_env, new_ids, running_wave, reserved_entry,
}

-- A PLAN is queued for the waiting ticket; an IMPL is not, since the ticket has no approval.
test_plan_queued :
    (queue_stage test_env new_ids (text "w") (text "a") StageName.plan controller).0 ≡ ok tt
unfolding queue_stage get put find? filter any order_by key_eq text_eq get_wave list_budgets
    openclaw_wave_runner.Store.get_ticket openclaw_wave_runner.Store.list_stages
    openclaw_wave_runner.AcpSlots.acp_slot_cap openclaw_wave_runner.AcpSlots.count_open_provider
    openclaw_wave_runner.Store.list_open_outbox openclaw_wave_runner.Store.get_outbox_by_idempotency
    admit_reservation openclaw_wave_runner.Budget.summarize_budgets
    openclaw_wave_runner.Budget.reservation_ceiling
    openclaw_wave_runner.StateMachine.assert_ticket_transition openclaw_wave_runner.Store.put_ticket
    openclaw_wave_runner.Store.put_stage openclaw_wave_runner.Store.get_stage_by_idempotency
    openclaw_wave_runner.Store.put_outbox openclaw_wave_runner.Store.put_budget
    openclaw_wave_runner.Store.put_wave openclaw_wave_runner.Store.get_lease
    openclaw_wave_runner.Prelude.Decimal.decimal openclaw_wave_runner.StagePaths.idempotency_key
    openclaw_wave_runner.Store.list_waves openclaw_wave_runner.AcpSlots.count_live_provider_sessions
    openclaw_wave_runner.Budget.counters_from_budgets
test_plan_queued = refl

fresh_id : get budget_key (new_ids.budget_id ∷ []) controller.db.budgets ≡ none
unfolding get find? key_eq text_eq
fresh_id = refl

controller-IsFunded : IsFunded (text "w") controller.db
unfolding get_wave list_budgets get find? filter order_by key_eq text_eq
controller-IsFunded = record {
  tokens = omega arith;
  cost = λ binds. ground arith;
  launches = omega arith;
}

queue_stage-IsFunded_example :
    IsFunded
      (text "w")
      (queue_stage test_env new_ids (text "w") (text "a") StageName.plan controller).1.db
queue_stage-IsFunded_example =
    queue_stage-IsFunded test_env new_ids (text "w") (text "a") StageName.plan controller fresh_id
      controller-IsFunded

pub new_ids-AreNew : AreNew new_ids controller.db
unfolding get find? key_eq text_eq
new_ids-AreNew = record { outbox = refl; stage = refl; budget = refl }

queue_stage-outcomes_example :
    let after = queue_stage test_env new_ids (text "w") (text "a") StageName.plan controller in
    ((after.0 ≡ ok tt)
      × IsWritten test_env (text "w") (text "a") StageName.plan controller.db after.1.db)
    ⊎ (after.1.db ≡ controller.db)
queue_stage-outcomes_example =
    queue_stage-outcomes test_env new_ids (text "w") (text "a") StageName.plan controller
      new_ids-AreNew

wave_there : get_wave (text "w") controller.db ≡ some running_wave
unfolding get_wave get find? key_eq text_eq
wave_there = refl

ticket_here :
    get_ticket (text "w") (text "a") controller.db
    ≡ some (ticket_at (text "a") TicketStatus.pending)
unfolding get_ticket get find? key_eq text_eq
ticket_here = refl

plan_fits :
    IsAdmissible running_wave
      (list_budgets (text "w") controller.db)
      running_wave.limits.per_stage_reservation_tokens
      running_wave.limits.per_stage_reservation_cost_micros
      test_env.now
      true
unfolding list_budgets filter order_by
plan_fits = ground arith

slot_left :
    slots_taken test_env running_wave
      (get_or (ticket_at (text "a") TicketStatus.pending).provider (text "mock"))
      controller.db
    ≡ false
unfolding filter text_eq any openclaw_wave_runner.AcpSlots.acp_slot_cap
    openclaw_wave_runner.AcpSlots.count_open_provider openclaw_wave_runner.Store.list_open_outbox
    openclaw_wave_runner.AcpSlots.count_live_provider_sessions order_by
slot_left = refl

first_attempt : attempt_of (text "w") (text "a") StageName.plan controller.db ≡ 1
unfolding filter text_eq order_by openclaw_wave_runner.Store.list_stages
first_attempt = refl

unused_outbox :
    get_outbox_by_idempotency
      (idempotency_key
        (text "w")
        (text "a")
        StageName.plan
        (attempt_of (text "w") (text "a") StageName.plan controller.db))
      controller.db
    ≡ none
unfolding get_outbox_by_idempotency find?
unused_outbox = refl

unused_stage :
    get_stage_by_idempotency
      (idempotency_key
        (text "w")
        (text "a")
        StageName.plan
        (attempt_of (text "w") (text "a") StageName.plan controller.db))
      controller.db
    ≡ none
unfolding get_stage_by_idempotency find?
unused_stage = refl

queue_stage-IsWritten_example :
    let after = queue_stage test_env new_ids (text "w") (text "a") StageName.plan controller in
    (after.0 ≡ ok tt)
    × IsWritten test_env (text "w") (text "a") StageName.plan controller.db after.1.db
queue_stage-IsWritten_example =
    queue_stage-IsWritten test_env new_ids (text "w") (text "a") StageName.plan controller
      running_wave (ticket_at (text "a") TicketStatus.pending) wave_there ticket_here plan_pending
      plan_fits (omega (arith, first_attempt)) slot_left unused_outbox unused_stage new_ids-AreNew

unknown_ticket :
    (queue_stage test_env new_ids (text "w") (text "q") StageName.plan controller).0
    ≡ err WaveError.not_found
unfolding queue_stage get_wave get_ticket get find? key_eq text_eq
unknown_ticket = refl

queue_stage_atomic_example :
    (queue_stage test_env new_ids (text "w") (text "q") StageName.plan controller).1.db
    ≡ controller.db
queue_stage_atomic_example =
    queue_stage_atomic test_env new_ids (text "w") (text "q") StageName.plan controller
      unknown_ticket

-- 100 tokens are held, and 900 more fit.
admit_reservation_iff_example :
    (admit_reservation running_wave (reserved_entry ∷ []) 900 0 50 true ≡ ok tt)
    ↔ IsAdmissible running_wave (reserved_entry ∷ []) 900 0 50 true
admit_reservation_iff_example =
    admit_reservation_iff running_wave (reserved_entry ∷ []) 900 0 50 true
