-- ===== src/Controller/Tick/Once.antt =====
-- A whole round (core/tick.ts) keeps the invariant of the outbox and the calls of the worker.
use openclaw_wave_runner.Prelude.{
  ℕ, ◌+◌, Bool, true, false, not, Option, none, some, List, [], ◌∷◌, if◌then◌else◌, Text, Result,
  ok, err, arith,
}
use openclaw_wave_runner.Domain.{StageName, WaveStatus, WaveRecord, TicketRun, LaunchOutbox}
use openclaw_wave_runner.Store.{WaveDatabase}
use openclaw_wave_runner.Controller.Exec.{Controller, Env, Exec, continue, ◌>>=◌, ◌>>◌}
use openclaw_wave_runner.Controller.Leases.{ticket_scope}
use openclaw_wave_runner.Controller.Hops.{QueueAdmitResult}
use openclaw_wave_runner.Controller.LaunchGate.{SupervisedStartOptions}
use openclaw_wave_runner.Controller.Recovery.{fail_unlaunchable_approved}
use openclaw_wave_runner.Controller.Dispatch.{dispatch_pending}
use openclaw_wave_runner.Controller.Dispatch.Once.{
  IsSpawnedOnce, Advances, dispatch_pending-Advances,
}
use openclaw_wave_runner.Controller.Launcher.{KeysGrow-trans, LogGrows-same, LogGrows-trans}
use openclaw_wave_runner.Controller.Tame.{
  IsTame, IsTame-pure, IsTame-bind, IsTame-if, require_wave-IsTame, tame_rules,
}
use openclaw_wave_runner.Controller.Tame.Admission.{drawn-IsTame}
use openclaw_wave_runner.Controller.Tame.Rows.{IsNew}
use openclaw_wave_runner.Controller.Tame.Closeouts.{advance_pending_closeouts-IsTame}
use openclaw_wave_runner.Controller.Tame.Reviews.{
  IsTame-admitted, queue_missing-IsTame, maybe_admit-IsTame,
}
use openclaw_wave_runner.Controller.Tame.Waves.{
  sweep-IsTame, stop_for_budget-IsTame, refresh_held_leases-IsTame, expire_stale_leases-IsTame,
  maybe_complete_wave-IsTame, fail_unlaunchable-IsTame, writer_lease_blocks-IsTame,
  primary_dirty-IsTame,
}
use openclaw_wave_runner.Controller.Tame.Workers.{
  observe_launched-IsTame, reconcile-IsTame, stage_watchdog-IsTame, read_watchdog-IsTame,
}
use openclaw_wave_runner.Controller.Tick.{
  Surroundings, queue_ready, admit_at, not_dirty, may_implement, may_plan, then_plan,
  advance_ready_tickets, launch_gate, dispatch_and_observe, plan_gate_or_ready, tick_work,
  tick_live, tick_wave,
}

-- An action that keeps the invariant and only adds rows and launches, whether it throws or not.
pub record KeepsOnce {A : Type 0} (m : Exec A) : Type 0 where
  pub at : (c : Controller) → IsSpawnedOnce c → Advances c (m c).1

pub Keeps-tame : {A : Type 0} (m : Exec A) → IsTame m → KeepsOnce m
Keeps-tame m h = record {
  at = λ c inv.
      let step = h.at c (record { keyed = inv.keyed; distinct = inv.distinct }) in
      record {
        once = record {
          keyed = step.keys.keyed;
          distinct = step.keys.distinct;
          once = λ k. omega (arith, inv.once k, step.launched k, step.mono k);
        };
        rows = step.rows;
        log = LogGrows-same step.same_log;
      };
}

pub Advances-trans : {a b c : Controller} → Advances a b → Advances b c → Advances a c
Advances-trans p q = record {
  once = q.once;
  rows = KeysGrow-trans p.rows q.rows;
  log = LogGrows-trans p.log q.log;
}

Advances-continue :
    {A B : Type 0} {c c' : Controller} (r : Result A) (f : A → Exec B)
    → Advances c c'
    → ((a : A) → KeepsOnce (f a))
    → Advances c (continue r f c').1
Advances-continue {c' = c'} (ok a) f first next = Advances-trans first ((next a).at c' first.once)
Advances-continue (err e) f first next = first

pub Keeps-bind :
    {A B : Type 0} (m : Exec A) (f : A → Exec B)
    → KeepsOnce m
    → ((a : A) → KeepsOnce (f a))
    → KeepsOnce (m >>= f)
Keeps-bind m f h next = record { at = λ c inv. Advances-continue (m c).0 f (h.at c inv) next }

pub Keeps-then :
    {B : Type 0} (m : Exec (Unit {0})) (n : Exec B) → KeepsOnce m → KeepsOnce n → KeepsOnce (m >> n)
Keeps-then m n h next = Keeps-bind m (λ _. n) h (λ _. next)

pub Keeps-if :
    {A : Type 0} (b : Bool) (m n : Exec A)
    → KeepsOnce m
    → KeepsOnce n
    → KeepsOnce (if b then m else n)
Keeps-if true m n p q = p
Keeps-if false m n p q = q

-- the loop over the tickets that may go
queue_ready-IsTame :
    (may : List Text → TicketRun → Exec Bool) (admit : Bool → TicketRun → Exec QueueAdmitResult)
    (no_open : Bool) (busy : List Text) (n : ℕ) (tickets : List TicketRun)
    → ((b : List Text) (ticket : TicketRun) → IsTame (may b ticket))
    → ((idle : Bool) (ticket : TicketRun) → IsTame (admit idle ticket))
    → IsTame (queue_ready may admit no_open busy n tickets)
unfolding queue_ready
queue_ready-IsTame may admit no_open busy n [] h k = IsTame-pure (some n)
queue_ready-IsTame may admit no_open busy n (ticket ∷ tickets) h k =
    IsTame-bind (may busy ticket) _ (h busy ticket) (λ ready.
      IsTame-if (not ready) _ _ (queue_ready-IsTame may admit no_open busy n tickets h k) (
        IsTame-bind (admit _ ticket) _ (k _ ticket) (λ admitted.
          IsTame-admitted admitted _ _ _
            (queue_ready-IsTame may admit no_open (ticket_scope ticket ∷ busy) (n + 1) tickets h k)
            (IsTame-pure (some n)) (IsTame-pure none))))

module _ (env : Env) (s : Surroundings) (wave_id : Text)
    (new : (db : WaveDatabase) → IsNew (s.files.fresh db).outbox_id db) where
  not_dirty-IsTame : (ticket : TicketRun) → IsTame (not_dirty env s wave_id ticket)
  not_dirty-IsTame ticket = search (primary_dirty-IsTame, tame_rules)

  may_implement-IsTame :
      (wave : WaveRecord) (busy : List Text) (ticket : TicketRun)
      → IsTame (may_implement env s wave_id wave busy ticket)
  may_implement-IsTame wave busy ticket =
      search (writer_lease_blocks-IsTame, not_dirty-IsTame, tame_rules) depth 12

  may_plan-IsTame :
      (open_items : List LaunchOutbox) (busy : List Text) (ticket : TicketRun)
      → IsTame (may_plan env s wave_id open_items busy ticket)
  may_plan-IsTame open_items busy ticket = search (not_dirty-IsTame, tame_rules) depth 12

  admit_at-IsTame :
      (stage : StageName) (idle : Bool) (ticket : TicketRun)
      → IsTame (admit_at env s wave_id stage idle ticket)
  admit_at-IsTame stage idle ticket =
      drawn-IsTame env s.wording wave_id ticket.ticket_id stage idle s.files.fresh new

  then_plan-IsTame :
      (open_items : List LaunchOutbox) (n : Option ℕ)
      → IsTame (then_plan env s wave_id open_items n)
  then_plan-IsTame open_items none = IsTame-pure tt
  then_plan-IsTame open_items (some n) =
      search (queue_ready-IsTame, may_plan-IsTame, admit_at-IsTame, tame_rules) depth 12

  advance_ready-IsTame : IsTame (advance_ready_tickets env s wave_id)
  unfolding advance_ready_tickets
  advance_ready-IsTame =
      search
        (queue_ready-IsTame, may_implement-IsTame, admit_at-IsTame, then_plan-IsTame, tame_rules)
        depth 16

  pub launch_gate-IsTame :
      (options : SupervisedStartOptions) → IsTame (launch_gate env s wave_id options)
  launch_gate-IsTame options = search (tame_rules) depth 12

  dispatch-KeepsOnce : KeepsOnce (dispatch_pending env s.adapters wave_id)
  dispatch-KeepsOnce = record { at = dispatch_pending-Advances env s.adapters wave_id }

  dispatch_and_observe-KeepsOnce : KeepsOnce (dispatch_and_observe env s wave_id)
  dispatch_and_observe-KeepsOnce =
      Keeps-then _ _ dispatch-KeepsOnce (
        Keeps-tame _ (observe_launched-IsTame env s.adapters s.workspace s.files s.settler wave_id))

  ready_or_gate-IsTame :
      IsTame (advance_ready_tickets env s wave_id >> fail_unlaunchable_approved env wave_id)
  ready_or_gate-IsTame = search (advance_ready-IsTame, fail_unlaunchable-IsTame, tame_rules)

  plan_gate_or_ready-KeepsOnce :
      (status : WaveStatus) → KeepsOnce (plan_gate_or_ready env s wave_id status)
  plan_gate_or_ready-KeepsOnce WaveStatus.awaiting_plan_gate =
      Keeps-then _ _ dispatch_and_observe-KeepsOnce
        (Keeps-tame _ (maybe_admit-IsTame env s.files wave_id))
  plan_gate_or_ready-KeepsOnce WaveStatus.waiting_approval = Keeps-tame _ (IsTame-pure tt)
  plan_gate_or_ready-KeepsOnce _ = Keeps-tame _ ready_or_gate-IsTame

  tick_work-KeepsOnce : KeepsOnce (tick_work env s wave_id)
  unfolding tick_work
  tick_work-KeepsOnce =
      let ad = s.adapters in
      let watchdog = stage_watchdog-IsTame env ad s.workspace s.files s.settler s.watch wave_id in
      let reads = read_watchdog-IsTame env ad s.workspace s.files s.settler s.watch wave_id in
      let closeouts = advance_pending_closeouts-IsTame env s.workspace wave_id in
      let reviews = queue_missing-IsTame env s.wording s.files new wave_id in
      Keeps-then _ _ dispatch_and_observe-KeepsOnce (
        Keeps-then _ _ (Keeps-tame _ watchdog) (
          Keeps-then _ _ (Keeps-tame _ reads) (
            Keeps-then _ _ (Keeps-tame _ closeouts) (
              Keeps-then _ _ (Keeps-tame _ (sweep-IsTame env wave_id)) (
                Keeps-then _ _ (Keeps-tame _ reviews) (
                  Keeps-bind _ _ (Keeps-tame _ (require_wave-IsTame wave_id)) (λ wave.
                    Keeps-then _ _ (plan_gate_or_ready-KeepsOnce wave.status)
                      (Keeps-tame _ (maybe_complete_wave-IsTame env wave_id)))))))))

  tick_live-KeepsOnce : KeepsOnce (tick_live env s wave_id)
  unfolding tick_live
  tick_live-KeepsOnce =
      search
        (
          tick_work-KeepsOnce, refresh_held_leases-IsTame, expire_stale_leases-IsTame,
          reconcile-IsTame, maybe_complete_wave-IsTame, Keeps-then, Keeps-bind, Keeps-if,
          Keeps-tame, require_wave-IsTame,
        )
        depth 24

  pub tick_wave-KeepsOnce :
      (options : SupervisedStartOptions) → KeepsOnce (tick_wave env s wave_id options)
  unfolding tick_wave
  tick_wave-KeepsOnce options =
      search
        (
          tick_live-KeepsOnce, launch_gate-IsTame, stop_for_budget-IsTame, Keeps-then, Keeps-bind,
          Keeps-if, Keeps-tame, require_wave-IsTame, IsTame-pure,
        )
        depth 24
