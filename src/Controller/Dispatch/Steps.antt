-- ===== src/Controller/Dispatch/Steps.antt =====
-- The steps of a dispatch (core/launch.ts) that launch nothing are quiet, and a claimed row is started.
use openclaw_wave_runner.Prelude.{
  ℕ, ◌+◌, ◌≤◌, ◌≡◌, ◌⊎◌, inl, inr, refl, sym, ap, ◌∙◌, Bool, true, false, Option, none, some, List,
  [], ◌∷◌, if◌then◌else◌, Text, text_eq, Result, ok, err, WaveError, Option-cases, Result-cases,
  Bool-cases, arith,
}
use openclaw_wave_runner.Domain.{OutboxState, StageName, stage_eq, LaunchOutbox, StageRun}
use openclaw_wave_runner.Domain.Worker.{LaunchIntent}
use openclaw_wave_runner.Outbox.{claim_outbox, mark_failed, mark_launched, assert_outbox_transition}
use openclaw_wave_runner.Store.{get_outbox_by_idempotency, put_outbox, put_stage, put_ticket}
use openclaw_wave_runner.Store.Outbox.{IsKeyedOutbox, put_outbox_found}
use openclaw_wave_runner.Controller.Exec.{Env, Controller, transaction, try_modify}
use openclaw_wave_runner.Controller.Context.{require_wave}
use openclaw_wave_runner.Controller.Adapters.{Adapters}
use openclaw_wave_runner.Controller.Quiet.{
  started, started_state, IsQuiet, IsQuiet-refl, IsQuiet-same, IsQuiet-continue, IsQuiet-write,
  IsQuiet-moved_row, IsQuiet-read_write,
}
use openclaw_wave_runner.Controller.Dispatch.{
  is_pending, is_settled, claim_pending, fail_unsettled, fail_claimed, ensure_worktree,
  intent_from_outbox, fail_closed_impl_handoff, hand_off, launch_row, put_running, record_launch,
}

marked_failed :
    (r r' : LaunchOutbox) (reason : Text) (now : ℕ)
    → mark_failed r reason now ≡ ok r'
    → (r'.outbox_id ≡ r.outbox_id) × (started_state (some r') ≡ 1)
unfolding mark_failed
marked_failed r r' reason now h = ground arith

marked_launched :
    (r r' : LaunchOutbox) (json : Text) (now : ℕ)
    → mark_launched r json now ≡ ok r'
    → (r'.outbox_id ≡ r.outbox_id) × (started_state (some r') ≡ 1)
unfolding mark_launched
marked_launched r r' json now h = ground arith

pub fail_claimed-IsQuiet :
    (env : Env) (claimed : LaunchOutbox) (reason : Text) (c : Controller)
    → IsKeyedOutbox c.db
    → IsQuiet c (fail_claimed env claimed reason c).1
unfolding fail_claimed
fail_claimed-IsQuiet env claimed reason c keyed =
    IsQuiet-read_write claimed.idempotency_key c keyed (fail_unsettled env reason)
      (λ r there. elim (Bool-cases (is_settled r.state)) [
        | inl done ↦ rw done (IsQuiet-refl c keyed)
        | inr live ↦ rw live (
            IsQuiet-continue (mark_failed r reason env.now)
              (λ failed. try_modify (put_outbox failed)) (IsQuiet-refl c keyed)
              (λ r' fine.
                let (same_id, go) = marked_failed r r' reason env.now fine in
                IsQuiet-write claimed.idempotency_key c keyed r there r' same_id go))
      ])
      refl

claimed_row :
    (r : LaunchOutbox) (holder : Text) (now : ℕ)
    → is_pending r.state ≡ true
    → (r' : LaunchOutbox) × (claim_outbox r holder now ≡ ok r')
      × (r'.outbox_id ≡ r.outbox_id)
      × (started_state (some r') ≡ 1)
unfolding claim_outbox assert_outbox_transition openclaw_wave_runner.Prelude.any
claimed_row r holder now h = (
  record r {
    state = OutboxState.claimed;
    claimed_by = some holder;
    claimed_at = some now;
    updated_at = now;
  },
  ground arith,
  refl,
  refl,
)

-- After a claim the row, if it is there, is started.
pub record IsClaimed (k : Text) (c c' : Controller) : Type 0 where
  pub quiet : IsQuiet c c'
  pub started_now :
      (row : LaunchOutbox) → get_outbox_by_idempotency k c'.db ≡ some row → started k c'.db ≡ 1

pub claim_pending-IsClaimed :
    (env : Env) (item : LaunchOutbox) (c : Controller)
    → IsKeyedOutbox c.db
    → ((claim_pending env item c).0 ≡ ok tt)
      × IsClaimed item.idempotency_key c (claim_pending env item c).1
unfolding claim_pending transaction
claim_pending-IsClaimed env item c keyed =
    let k = item.idempotency_key in
    elim (Option-cases (get_outbox_by_idempotency k c.db)) [
      | inl missing ↦ rw missing (
        refl,
        record {
          quiet = IsQuiet-refl c keyed;
          started_now = λ row there. absurd (ground (arith, missing));
        },
      )
      | inr (r, there) ↦ elim (Bool-cases (is_pending r.state)) [
        | inl fresh ↦
            let (r', fine, same_id, go) = claimed_row r env.process.holder env.now fresh in
            let moved = IsQuiet-moved_row k c r r' keyed there same_id go in
            rw there (
              rw fresh (
                rw fine (
                  rw (put_outbox_found k c.db keyed r r' there same_id)
                    (refl, record { quiet = moved.0; started_now = λ row found. moved.1 }))))
        | inr taken ↦ rw there (
            rw taken (
              refl,
              record {
                quiet = IsQuiet-refl c keyed;
                started_now = λ row found. rw there (ground arith);
              },
            ))
      ]
    ]

pub ensure_worktree-IsQuiet :
    (ad : Adapters) (wave_id : Text) (claimed : LaunchOutbox) (c : Controller)
    → IsKeyedOutbox c.db
    → IsQuiet c (ensure_worktree ad wave_id claimed c).1
unfolding ensure_worktree put_ticket
ensure_worktree-IsQuiet ad wave_id claimed c keyed =
    IsQuiet-same c (ensure_worktree ad wave_id claimed c).1 keyed (ground arith) (ground arith)

-- The intent reads only, and is under the key of the row.
pub intent_from_outbox_lem :
    (ad : Adapters) (item : LaunchOutbox) (c : Controller)
    → ((intent_from_outbox ad item c).1 ≡ c)
      × ((intent : LaunchIntent)
          → (intent_from_outbox ad item c).0 ≡ ok intent
          → intent.idempotency_key ≡ item.idempotency_key)
unfolding intent_from_outbox
intent_from_outbox_lem ad item c = (ground arith, λ intent h. ground arith)

hand_off-IsQuiet :
    (env : Env) (claimed : LaunchOutbox) (reason : Option Text) (c : Controller)
    → IsKeyedOutbox c.db
    → IsQuiet c (hand_off env claimed reason c).1
hand_off-IsQuiet env claimed none c keyed = IsQuiet-refl c keyed
hand_off-IsQuiet env claimed (some reason) c keyed =
    IsQuiet-continue (fail_claimed env claimed reason c).0 _
      (fail_claimed-IsQuiet env claimed reason c keyed)
      (λ a fine. IsQuiet-refl _ (fail_claimed-IsQuiet env claimed reason c keyed).keyed)

pub fail_closed_impl_handoff-IsQuiet :
    (env : Env) (ad : Adapters) (wave_id : Text) (claimed : LaunchOutbox) (intent : LaunchIntent)
    (c : Controller)
    → IsKeyedOutbox c.db
    → IsQuiet c (fail_closed_impl_handoff env ad wave_id claimed intent c).1
unfolding fail_closed_impl_handoff require_wave
fail_closed_impl_handoff-IsQuiet env ad wave_id claimed intent c keyed =
    elim (Bool-cases (stage_eq claimed.stage StageName.impl)) [
      | inl impl ↦ rw impl (
          IsQuiet-continue (require_wave wave_id c).0 _ (IsQuiet-refl c keyed)
            (λ wave there. hand_off-IsQuiet env claimed _ c keyed))
      | inr other ↦ rw other (IsQuiet-refl c keyed)
    ]

put_running-IsQuiet :
    (change : StageRun → StageRun) (stage : Option StageRun) (c : Controller)
    → IsKeyedOutbox c.db
    → IsQuiet c (put_running change stage c).1
unfolding put_stage
put_running-IsQuiet change stage c keyed =
    IsQuiet-same c (put_running change stage c).1 keyed (ground arith) (ground arith)

pub record_launch-IsQuiet :
    (env : Env) (k : Text) (change : StageRun → StageRun) (json : Text) (c : Controller)
    → IsKeyedOutbox c.db
    → IsQuiet c (record_launch env k change json c).1
unfolding record_launch
record_launch-IsQuiet env k change json c keyed =
    IsQuiet-read_write k c keyed (launch_row env k change json)
      (λ r there.
        IsQuiet-continue (mark_launched r json env.now) _ (IsQuiet-refl c keyed) (λ r' fine.
          let (same_id, go) = marked_launched r r' json env.now fine in
          let written = IsQuiet-write k c keyed r there r' same_id go in
          IsQuiet-continue (try_modify (put_outbox r') c).0 _ written
            (λ a done. put_running-IsQuiet change _ _ written.keyed)))
      refl
