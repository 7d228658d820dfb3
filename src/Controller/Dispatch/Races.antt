-- ===== src/Controller/Dispatch/Races.antt =====
-- A row that another dispatch has claimed between the listing and the claim (core/launch.ts): the claim is
-- skipped, and the launch is not.
use openclaw_wave_runner.Prelude.{
  ◌+◌, ◌≡◌, inl, inr, text_eq_iff, refl, ◌∙◌, false, Option, some, ◌∷◌, Text, ok, Bool-cases, arith,
}
use mathlib.Core.Path.{subst}
use openclaw_wave_runner.Domain.{WaveRecord, TicketRun, LaunchOutbox, StageName, stage_eq}
use openclaw_wave_runner.Domain.Worker.{LaunchIntent, WorkerCall}
use openclaw_wave_runner.Store.{get_wave, get_ticket, get_outbox_by_idempotency}
use openclaw_wave_runner.Store.Outbox.{IsKeyedOutbox, get_outbox_key}
use openclaw_wave_runner.Controller.Exec.{Env, Controller, transaction}
use openclaw_wave_runner.Controller.Context.{require_wave, require_ticket}
use openclaw_wave_runner.Controller.Adapters.{Adapters}
use openclaw_wave_runner.Controller.FailLaunch.{answered, launch_claimed, ask}
use openclaw_wave_runner.Controller.Quiet.{launches, IsQuiet-continue}
use openclaw_wave_runner.Controller.Dispatch.Spawning.{answered-IsQuiet, after_launch-IsQuiet}
use openclaw_wave_runner.Controller.Dispatch.{
  is_pending, needs_worktree, claim_pending, dispatch_one, launch_row_of, ensure_worktree,
  intent_from_outbox, launch_cwd, launch_intent, intent_of, fail_closed_impl_handoff, after_launch,
}

skipped_claim :
    (env : Env) (item row : LaunchOutbox) (c : Controller)
    → get_outbox_by_idempotency item.idempotency_key c.db ≡ some row
    → is_pending row.state ≡ false
    → claim_pending env item c ≡ (ok tt, c)
unfolding claim_pending transaction
skipped_claim env item row c there taken = rw there (rw taken refl)

no_worktree :
    (ad : Adapters) (wave_id : Text) (row : LaunchOutbox) (c : Controller)
    → needs_worktree row.stage ≡ false
    → ensure_worktree ad wave_id row c ≡ (ok tt, c)
unfolding ensure_worktree
no_worktree ad wave_id row c h = rw h refl

cwd_found :
    (ad : Adapters) (row : LaunchOutbox) (ticket : TicketRun) (c : Controller) (w : WaveRecord)
    → get_wave row.wave_id c.db ≡ some w
    → (cwd : Option Text) × (launch_cwd ad row ticket c ≡ (ok cwd, c))
unfolding launch_cwd require_wave
cwd_found ad row ticket c w found = elim (Bool-cases (stage_eq row.stage StageName.review)) [
  | inl review ↦ (ad.forge_of w.repo_path, rw review (rw found refl))
  | inr other ↦ elim (Bool-cases (stage_eq row.stage StageName.ux_review)) [
    | inl ux ↦ (ad.mona, rw other (rw ux refl))
    | inr plain ↦ (ticket.impl_worktree, rw other (rw plain refl))
  ]
]

intent_found :
    (ad : Adapters) (row : LaunchOutbox) (ticket : TicketRun) (c : Controller) (w : WaveRecord)
    → get_wave row.wave_id c.db ≡ some w
    → get_ticket row.wave_id row.ticket_id c.db ≡ some ticket
    → (intent : LaunchIntent) × (intent_from_outbox ad row c ≡ (ok intent, c))
      × (intent.idempotency_key ≡ row.idempotency_key)
unfolding intent_from_outbox require_ticket
intent_found ad row ticket c w found here =
    let (cwd, same) = cwd_found ad row ticket c w found in
    (intent_of ad row ticket cwd, rw here (rw same refl), refl)

-- the call and what follows it
launch_claimed_counts :
    (env : Env) (ad : Adapters) (wave_id : Text) (claimed : LaunchOutbox) (intent : LaunchIntent)
    (c : Controller)
    → intent.idempotency_key ≡ claimed.idempotency_key
    → stage_eq claimed.stage StageName.impl ≡ false
    → IsKeyedOutbox c.db
    → launches claimed.idempotency_key (launch_intent env ad wave_id claimed intent c).1.calls
      ≡ launches claimed.idempotency_key c.calls + 1
unfolding launch_intent fail_closed_impl_handoff launch_claimed ask launches
launch_claimed_counts env ad wave_id claimed intent c own not_impl keyed =
    let answer = ad.launch c.calls intent in
    let c1 : Controller = record c {
      calls = WorkerCall.launched intent.idempotency_key ∷ c.calls;
    } in
    let first = answered-IsQuiet env claimed answer c1 keyed in
    let whole =
      IsQuiet-continue (answered env claimed answer c1).0 (after_launch env ad wave_id claimed)
        first (λ receipt done. after_launch-IsQuiet env ad wave_id claimed receipt _ first.keyed) in
    rw not_impl (
      whole.launched claimed.idempotency_key
      ∙ ground (arith, text_eq_iff intent.idempotency_key claimed.idempotency_key))

-- Whatever the state of the row, and whoever has claimed or launched it: a dispatch that listed it as
-- pending asks the worker for one more launch of it, where the wave is not cancelled and the stage takes
-- no worktree.
pub dispatch_one_ignores_claim :
    (env : Env) (ad : Adapters) (wave_id : Text) (item row : LaunchOutbox) (c : Controller)
    (w w' : WaveRecord) (ticket : TicketRun)
    → IsKeyedOutbox c.db
    → get_outbox_by_idempotency item.idempotency_key c.db ≡ some row
    → is_pending row.state ≡ false
    → needs_worktree row.stage ≡ false
    → get_wave wave_id c.db ≡ some w
    → w.cancel_requested ≡ false
    → get_wave row.wave_id c.db ≡ some w'
    → get_ticket row.wave_id row.ticket_id c.db ≡ some ticket
    → launches item.idempotency_key (dispatch_one env ad wave_id item c).1.calls
      ≡ launches item.idempotency_key c.calls + 1
unfolding dispatch_one launch_row_of require_wave
dispatch_one_ignores_claim env ad wave_id item row c w w' ticket keyed there taken no_tree found
      live found' here =
    let (intent, made, intent_key) = intent_found ad row ticket c w' found' here in
    let not_impl : stage_eq row.stage StageName.impl ≡ false = ground (arith, no_tree) in
    let own = get_outbox_key item.idempotency_key c.db row there in
    rw (skipped_claim env item row c there taken) (
      rw there (
        rw found (
          rw live (
            rw (no_worktree ad wave_id row c no_tree) (
              rw made (
                subst
                  (λ k.
                    launches k (launch_intent env ad wave_id row intent c).1.calls
                    ≡ launches k c.calls + 1)
                  own
                  (launch_claimed_counts env ad wave_id row intent c intent_key not_impl
                    keyed)))))))
