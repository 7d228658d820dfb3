-- ===== src/Controller/Tame/Workers.antt =====
-- What a tick does with workers that run is tame: it observes, reconciles and cancels them, and
-- launches none (core/launch.ts, core/stage-watchdog.ts).
use openclaw_wave_runner.Prelude.{
  ℕ, ◌≡◌, inl, inr, refl, Bool, Option, none, some, List, ◌∷◌, Text, text, get_or, Result, ok,
  Bool-cases, arith,
}
use openclaw_wave_runner.Domain.{LaunchOutbox}
use openclaw_wave_runner.Domain.Worker.{LaunchReceipt, WorkerTruth, WorkerCall}
use openclaw_wave_runner.Outbox.{mark_reconciling, mark_launched}
use openclaw_wave_runner.Store.{get_outbox_by_idempotency, put_outbox}
use openclaw_wave_runner.Controller.Exec.{Env, ◌>>=◌, query, transaction, try_modify}
use openclaw_wave_runner.Controller.Adapters.{Adapters}
use openclaw_wave_runner.Controller.Workspace.{Workspace}
use openclaw_wave_runner.Controller.Reviews.{ReviewFiles}
use openclaw_wave_runner.Controller.StageChecks.{SettleStatus, Settler}
use openclaw_wave_runner.Controller.FailLaunch.{ask}
use openclaw_wave_runner.Controller.FailLaunch.Endings.{fail_launch-IsQuiet}
use openclaw_wave_runner.Controller.Dispatch.{intent_from_outbox}
use openclaw_wave_runner.Controller.Dispatch.Steps.{record_launch-IsQuiet}
use openclaw_wave_runner.Controller.Observe.{
  is_unmarked, is_reconciling, inspect_worker, mark_row, recovered_row, recovered_stage,
  recover_row, relaunch_row, settle_or_wait, reconcile_receipt, reconcile_latest, reconcile_one,
  reconcile, settle_if_ended, observe_one, observe_launched,
}
use openclaw_wave_runner.Controller.Watchdog.{
  Watch, fail_hung_outbox, watch_stage, apply_stage_watchdog, watch_reads, apply_read_file_watchdog,
}
use openclaw_wave_runner.Controller.Quiet.{
  launches, launched_keys, started_state, IsQuiet-refl, IsQuiet-continue, IsQuiet-write,
  IsQuiet-read_write,
}
use openclaw_wave_runner.Controller.Launcher.{KeysGrow-same}
use openclaw_wave_runner.Controller.Tame.Settlements.{settle_outbox-IsTame}
use openclaw_wave_runner.Controller.Tame.{
  IsTame, IsTame-quiet, IsTame-leaves, IsTame-pure, tame_rules,
}

-- a call of the worker that asks for no launch
ask-IsTame :
    {A : Type 0} (call : WorkerCall) (answer : List WorkerCall → A)
    → ((k : Text) (calls : List WorkerCall) → launches k (call ∷ calls) ≡ launches k calls)
    → ((calls : List WorkerCall) → launched_keys (call ∷ calls) ≡ launched_keys calls)
    → IsTame (ask call answer)
unfolding ask
ask-IsTame call answer h l = record {
  at = λ c keys. record {
    keys = keys;
    launched = λ k. h k c.calls;
    mono = λ k. omega arith;
    rows = KeysGrow-same refl;
    same_log = l c.calls;
  };
}

inspect-IsTame :
    {A : Type 0} (j : Text) (answer : List WorkerCall → A)
    → IsTame (ask (WorkerCall.inspected j) answer)
unfolding launches launched_keys
inspect-IsTame j answer =
    ask-IsTame (WorkerCall.inspected j) answer (λ k calls. refl) (λ calls. refl)

recover-IsTame :
    {A : Type 0} (j : Text) (answer : List WorkerCall → A)
    → IsTame (ask (WorkerCall.recovered j) answer)
unfolding launches launched_keys
recover-IsTame j answer =
    ask-IsTame (WorkerCall.recovered j) answer (λ k calls. refl) (λ calls. refl)

cancel-IsTame :
    {A : Type 0} (j : Text) (answer : List WorkerCall → A)
    → IsTame (ask (WorkerCall.cancelled j) answer)
unfolding launches launched_keys
cancel-IsTame j answer =
    ask-IsTame (WorkerCall.cancelled j) answer (λ k calls. refl) (λ calls. refl)

module _ (env : Env) (ad : Adapters) (ws : Workspace) (files : ReviewFiles)
    (settler : Settler) where
  inspect_worker-IsTame :
      (receipt : LaunchReceipt) → IsTame (inspect_worker env ad ws files settler receipt)
  unfolding inspect_worker
  inspect_worker-IsTame receipt = search (inspect-IsTame, tame_rules)

  settle_if_ended-IsTame :
      (item : LaunchOutbox) (receipt : LaunchReceipt) (truth : WorkerTruth)
      (status : Option SettleStatus)
      → IsTame (settle_if_ended env ad ws files settler item receipt truth status)
  settle_if_ended-IsTame item receipt truth none = IsTame-pure tt
  settle_if_ended-IsTame item receipt truth (some status) =
      settle_outbox-IsTame env ws files settler item receipt status _ _ _

  observe_one-IsTame : (item : LaunchOutbox) → IsTame (observe_one env ad ws files settler item)
  unfolding observe_one
  observe_one-IsTame item =
      search (inspect_worker-IsTame, settle_if_ended-IsTame, tame_rules) depth 12

  pub observe_launched-IsTame :
      (wave_id : Text) → IsTame (observe_launched env ad ws files settler wave_id)
  unfolding observe_launched
  observe_launched-IsTame wave_id = search (observe_one-IsTame, tame_rules) depth 12

  marked_row :
      (row row' : LaunchOutbox) (now : ℕ)
      → mark_reconciling row now ≡ ok row'
      → (row'.outbox_id ≡ row.outbox_id) × (started_state (some row') ≡ 1)
  unfolding mark_reconciling
  marked_row row row' now h = ground arith

  relaunched_row :
      (row row' : LaunchOutbox) (json : Text) (now : ℕ)
      → mark_launched row json now ≡ ok row'
      → (row'.outbox_id ≡ row.outbox_id) × (started_state (some row') ≡ 1)
  unfolding mark_launched
  relaunched_row row row' json now h = ground arith

  mark_row-IsTame :
      (item : LaunchOutbox)
      → IsTame (
          transaction (
            query (get_outbox_by_idempotency item.idempotency_key)
            >>= mark_row env ad ws files settler))
  mark_row-IsTame item = IsTame-quiet (λ c keyed.
      IsQuiet-read_write item.idempotency_key c keyed (mark_row env ad ws files settler)
        (λ r there. elim (Bool-cases (is_unmarked env ad ws files settler r.state)) [
          | inr marked ↦ rw marked (IsQuiet-refl c keyed)
          | inl unmarked ↦ rw unmarked (
              IsQuiet-continue (mark_reconciling r env.now)
                (λ marked. try_modify (put_outbox marked)) (IsQuiet-refl c keyed)
                (λ r' fine.
                  let (same_id, go) = marked_row r r' env.now fine in
                  IsQuiet-write item.idempotency_key c keyed r there r' same_id go))
        ])
        refl)

  relaunch_row-IsTame :
      (item : LaunchOutbox)
      → IsTame (
          transaction (
            query (get_outbox_by_idempotency item.idempotency_key)
            >>= relaunch_row env ad ws files settler))
  relaunch_row-IsTame item = IsTame-quiet (λ c keyed.
      IsQuiet-read_write item.idempotency_key c keyed (relaunch_row env ad ws files settler)
        (λ r there. elim (Bool-cases (is_reconciling env ad ws files settler r.state)) [
          | inr other ↦ rw other (IsQuiet-refl c keyed)
          | inl here ↦ rw here (
              IsQuiet-continue (mark_launched r (get_or r.receipt_json (text "{}")) env.now)
                (λ launched. try_modify (put_outbox launched)) (IsQuiet-refl c keyed)
                (λ r' fine.
                  let (same_id, go) = relaunched_row r r' _ env.now fine in
                  IsQuiet-write item.idempotency_key c keyed r there r' same_id go))
        ])
        refl)

  recovered_row-IsTame :
      (latest : LaunchOutbox) (receipt : Option LaunchReceipt)
      → IsTame (recovered_row env ad ws files settler latest receipt)
  recovered_row-IsTame latest none = IsTame-quiet (fail_launch-IsQuiet env latest _)
  recovered_row-IsTame latest (some receipt) = IsTame-quiet (
      record_launch-IsQuiet env latest.idempotency_key
        (recovered_stage env ad ws files settler receipt) (ad.to_json receipt))

  intent-IsTame : (item : LaunchOutbox) → IsTame (intent_from_outbox ad item)
  unfolding intent_from_outbox
  intent-IsTame item = IsTame-leaves (record { at = λ c. ground arith })

  recover_row-IsTame : (item : LaunchOutbox) → IsTame (recover_row env ad ws files settler item)
  unfolding recover_row
  recover_row-IsTame item =
      search (recover-IsTame, intent-IsTame, recovered_row-IsTame, tame_rules) depth 12

  settle_or_wait-IsTame :
      (latest : LaunchOutbox) (receipt : LaunchReceipt) (truth : WorkerTruth)
      (status : Option SettleStatus)
      → IsTame (settle_or_wait env ad ws files settler latest receipt truth status)
  settle_or_wait-IsTame latest receipt truth none = relaunch_row-IsTame latest
  settle_or_wait-IsTame latest receipt truth (some status) =
      settle_outbox-IsTame env ws files settler latest receipt status _ _ _

  reconcile_receipt-IsTame :
      (latest : LaunchOutbox) (json : Option Text)
      → IsTame (reconcile_receipt env ad ws files settler latest json)
  reconcile_receipt-IsTame latest none = recover_row-IsTame latest
  reconcile_receipt-IsTame latest (some json) =
      search (inspect_worker-IsTame, settle_or_wait-IsTame, tame_rules) depth 12

  reconcile_latest-IsTame :
      (latest : Option LaunchOutbox) → IsTame (reconcile_latest env ad ws files settler latest)
  reconcile_latest-IsTame none = IsTame-pure tt
  reconcile_latest-IsTame (some latest) = reconcile_receipt-IsTame latest _

  reconcile_one-IsTame : (item : LaunchOutbox) → IsTame (reconcile_one env ad ws files settler item)
  unfolding reconcile_one
  reconcile_one-IsTame item = search (mark_row-IsTame, reconcile_latest-IsTame, tame_rules) depth 12

  pub reconcile-IsTame : (wave_id : Text) → IsTame (reconcile env ad ws files settler wave_id)
  unfolding reconcile
  reconcile-IsTame wave_id = search (reconcile_one-IsTame, tame_rules) depth 12

module _ (env : Env) (ad : Adapters) (ws : Workspace) (files : ReviewFiles) (settler : Settler)
    (watch : Watch) where
  fail_hung-IsTame :
      (item : LaunchOutbox) (reason : Text)
      → IsTame (fail_hung_outbox env ad ws files settler watch item reason)
  unfolding fail_hung_outbox
  fail_hung-IsTame item reason = search (cancel-IsTame, settle_outbox-IsTame, tame_rules) depth 12

  watch_stage-IsTame :
      (item : LaunchOutbox) → IsTame (watch_stage env ad ws files settler watch item)
  watch_stage-IsTame item = search (fail_hung-IsTame, tame_rules)

  pub stage_watchdog-IsTame :
      (wave_id : Text) → IsTame (apply_stage_watchdog env ad ws files settler watch wave_id)
  unfolding apply_stage_watchdog
  stage_watchdog-IsTame wave_id = search (watch_stage-IsTame, tame_rules)

  watch_reads-IsTame :
      (probe : Option (LaunchReceipt → ℕ → ℕ → Result Bool)) (wave_id : Text)
      → IsTame (watch_reads env ad ws files settler watch probe wave_id)
  watch_reads-IsTame none wave_id = IsTame-pure tt
  watch_reads-IsTame (some probe) wave_id = search (fail_hung-IsTame, tame_rules) depth 12

  pub read_watchdog-IsTame :
      (wave_id : Text) → IsTame (apply_read_file_watchdog env ad ws files settler watch wave_id)
  unfolding apply_read_file_watchdog
  read_watchdog-IsTame wave_id = search (watch_reads-IsTame, tame_rules)
