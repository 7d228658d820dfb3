-- ===== src/Controller/Hops/Outcomes.antt =====
-- What comes of `queueStageOrBudget` (core/launch-hops.ts): the stage is admitted, or the ledger is as it
-- was, or the wave is stopped for budget.
use openclaw_wave_runner.Prelude.{
  ◌≡◌, inl, inr, refl, sym, ap, ◌∙◌, Bool, true, false, some, Text, WaveError, Result, ok, err,
  Result-cases, Bool-cases, arith,
}
use mathlib.Core.Path.{subst}
use openclaw_wave_runner.Domain.{StageName, WaveRecord, is_terminal_wave}
use openclaw_wave_runner.Store.{get_wave}
use openclaw_wave_runner.Controller.Exec.{Env, Controller}
use openclaw_wave_runner.Controller.Rows.{FreshIds}
use openclaw_wave_runner.Controller.Admission.{queue_stage}
use openclaw_wave_runner.Controller.Admission.Outcomes.{queue_stage_atomic}
use openclaw_wave_runner.Controller.Admission.Written.{AreNew, IsWritten, queue_stage-outcomes}
use openclaw_wave_runner.Controller.Closing.{IsKeyedLedger}
use openclaw_wave_runner.Controller.Cancellation.{IsBudgetStopped, stop_for_budget-IsBudgetStopped}
use openclaw_wave_runner.Controller.Hops.{
  QueueAdmitResult, queued, deferred, stopped, is_hard_budget_admit, queue_stage_or_budget,
}

module _ (env : Env) (wording : WaveError → Text) (ids : FreshIds) (wave_id ticket_id : Text)
    (stage : StageName) (c : Controller) where
  abbrev after : Bool → Result QueueAdmitResult × Controller
  after idle = queue_stage_or_budget env wording ids wave_id ticket_id stage idle c

  abbrev admission : Result (Unit {0}) × Controller
  admission = queue_stage env ids wave_id ticket_id stage c

  -- What the result says of the admission and of the ledger.
  pub data Settles (idle : Bool) : Type 0 where
    is_queued :
        after idle ≡ (ok queued, admission.1)
        → IsWritten env wave_id ticket_id stage c.db (after idle).1.db
        → Settles idle
    is_silent :
        after idle ≡ (ok queued, admission.1)
        → admission.0 ≡ ok tt
        → (after idle).1.db ≡ c.db
        → Settles idle
    is_deferred :
        (e : WaveError)
        → idle ≡ false
        → admission.0 ≡ err e
        → (after idle).0 ≡ ok deferred
        → (after idle).1.db ≡ c.db
        → Settles idle
    is_stopped :
        (e : WaveError)
        → idle ≡ true
        → admission.0 ≡ err e
        → is_hard_budget_admit e ≡ true
        → (after idle).0 ≡ ok stopped
        → IsBudgetStopped wave_id (after idle).1.db
        → Settles idle
    is_thrown :
        (e : WaveError)
        → idle ≡ true
        → admission.0 ≡ err e
        → is_hard_budget_admit e ≡ false
        → (after idle).0 ≡ err e
        → (after idle).1.db ≡ c.db
        → Settles idle

  module _ (w : WaveRecord) (keyed : IsKeyedLedger c.db) (there : get_wave wave_id c.db ≡ some w)
      (live : is_terminal_wave w.status ≡ false) (new : AreNew ids c.db) where
    -- the wave is idle and the budget is spent
    stopping : (e : WaveError) → admission.0 ≡ err e → is_hard_budget_admit e ≡ true → Settles true
    unfolding queue_stage_or_budget
    stopping e refused hard =
        let same = queue_stage_atomic env ids wave_id ticket_id stage c refused in
        let stop =
          stop_for_budget-IsBudgetStopped env wave_id (wording e) admission.1 w
            (subst IsKeyedLedger (sym same) keyed) (ap (get_wave wave_id) same ∙ there) live in
        is_stopped e refl refused hard (rw refused (rw hard (rw stop.0)))
          (rw refused (rw hard (rw stop.0 stop.1)))

    refusing : (idle : Bool) (e : WaveError) → admission.0 ≡ err e → Settles idle
    unfolding queue_stage_or_budget openclaw_wave_runner.Controller.Hops.on_refusal
    refusing true e refused =
        let same = queue_stage_atomic env ids wave_id ticket_id stage c refused in
        elim (Bool-cases (is_hard_budget_admit e)) [
          | inl hard ↦ stopping e refused hard
          | inr soft ↦
              is_thrown e refl refused soft (rw refused (rw soft)) (rw refused (rw soft same))
        ]
    refusing false e refused =
        let same = queue_stage_atomic env ids wave_id ticket_id stage c refused in
        elim (Bool-cases (is_hard_budget_admit e)) [
          | inl hard ↦ is_deferred e refl refused (rw refused (rw hard)) (rw refused (rw hard same))
          | inr soft ↦ is_deferred e refl refused (rw refused (rw soft)) (rw refused (rw soft same))
        ]

    -- an admission that does not throw
    admitting : (idle : Bool) → admission.0 ≡ ok tt → Settles idle
    unfolding queue_stage_or_budget
    admitting idle fine = elim (queue_stage-outcomes env ids wave_id ticket_id stage c new) [
      | inl (_, written) ↦ is_queued (rw fine) (rw fine written)
      | inr same ↦ is_silent (rw fine) fine (rw fine same)
    ]

    -- In a ledger with distinct keys, with the wave there and not terminal and the drawn ids new, one of
    -- five things comes of it: the result is `queued` and the stage was admitted, with its outbox item, its
    -- stage run, its reservation, the ticket's move and the launch counted; the result is `queued` and the
    -- ledger is as it was, since `queueStage` returned in silence; `queueStage` threw while the wave was
    -- busy, and the ledger is as it was; it threw for a hard limit of the budget while the wave was idle,
    -- and the wave is stopped with nothing of it left open; or it threw another error while the wave was
    -- idle, which is thrown on with the ledger as it was.
    pub queue_stage_or_budget-Settles : (idle : Bool) → Settles idle
    unfolding queue_stage_or_budget
    queue_stage_or_budget-Settles idle = elim (Result-cases admission.0) [
      | inl (_, fine) ↦ admitting idle (ground arith)
      | inr (e, refused) ↦ refusing idle e refused
    ]
