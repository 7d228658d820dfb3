-- ===== src/Controller/Hops.antt =====
-- core/launch-hops.ts: how many launches a ticket needs, and `queueStageOrBudget`, which admits a stage
-- or turns a refused admission into a stop, a deferral or an error.
pub mod Outcomes
use openclaw_wave_runner.Prelude.{
  ℕ, ◌+◌, Bool, true, false, Option, none, some, get_or, List, [], ◌∷◌, map, leb, if◌then◌else◌,
  Text, text, WaveError, Denial, Result, ok, err,
}
use openclaw_wave_runner.Domain.{StageName}
use openclaw_wave_runner.Controller.Exec.{Env, Controller, Exec, ◌>>=◌, ◌>>◌, pure, raise}
use openclaw_wave_runner.Controller.Rows.{FreshIds}
use openclaw_wave_runner.Controller.Admission.{queue_stage}
use openclaw_wave_runner.Controller.Commands.{stop_for_budget}

pub record HopTicket : Type 0 where
  pub ticket_id : Option Text
  pub plan_review_skip : Option Bool
  pub needs_ux : Option Bool

-- `field === true`
abbrev pub is_set : Option Bool → Bool
is_set (some true) = true
is_set _ = false

-- PLAN, the two reviews where the ticket has them, IMPL
unfoldable pub hops_for_ticket : HopTicket → ℕ
hops_for_ticket ticket =
    1
    + (if is_set ticket.plan_review_skip then 0 else 1)
    + (if is_set ticket.needs_ux then 1 else 0)
    + 1

unfoldable pub required_launches : List HopTicket → ℕ
unfolding hops_for_ticket
required_launches [] = 0
required_launches (ticket ∷ tickets) = hops_for_ticket ticket + required_launches tickets

-- The code and the ticket of a blocker; its message is left out.
pub record AdmitBlocker : Type 0 where
  pub ticket_id : Text
  pub code : Text

abbrev hops_blocker : HopTicket → AdmitBlocker
hops_blocker ticket = record {
  ticket_id = get_or ticket.ticket_id (text "wave");
  code = text "hops_exceed_max_launches";
}

unfoldable pub hops_exceed_blockers : List HopTicket → ℕ → List AdmitBlocker
unfolding required_launches
hops_exceed_blockers tickets max_launches =
    if leb (required_launches tickets) max_launches then [] else map hops_blocker tickets

-- `HARD_BUDGET.test(err.message)`: the message of a sticky cancellation has none of its words, and that
-- of a held lease has one only if the lease's key has.
abbrev pub is_hard_denial : Denial → Bool
is_hard_denial Denial.sticky_cancellation = false
is_hard_denial Denial.lease_held = false
is_hard_denial _ = true

abbrev pub is_hard_budget_admit : WaveError → Bool
is_hard_budget_admit (WaveError.admission_denied denial) = is_hard_denial denial
is_hard_budget_admit _ = false

pub data QueueAdmitResult : Type 0 where
  queued deferred stopped : QueueAdmitResult

-- `catch (err)`; the wording of an error is a parameter
unfoldable pub on_refusal :
    Env → (WaveError → Text) → Text → Bool → WaveError → Exec QueueAdmitResult
on_refusal env wording wave_id idle e =
    if is_hard_budget_admit e
    then (if idle
        then (do stop_for_budget env wave_id (wording e); pure stopped)
        else pure deferred)
    else if idle
    then raise e
    else pure deferred

abbrev pub caught :
    Env → (WaveError → Text) → Text → Bool → Result (Unit {0}) → Exec QueueAdmitResult
caught env wording wave_id idle (ok _) = pure queued
caught env wording wave_id idle (err e) = on_refusal env wording wave_id idle e

unfoldable pub queue_stage_or_budget :
    Env → (WaveError → Text) → FreshIds → Text → Text → StageName → Bool → Exec QueueAdmitResult
unfolding on_refusal
queue_stage_or_budget env wording ids wave_id ticket_id stage idle c =
    let (r, c') = queue_stage env ids wave_id ticket_id stage c in
    caught env wording wave_id idle r c'
