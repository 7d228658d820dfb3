-- ===== src/Controller/Dispatch/Spawning.antt =====
-- A dispatch (core/launch.ts) asks the worker for at most one launch of each pending row, and only after
-- the row was claimed.
use openclaw_wave_runner.Prelude.{
  ℕ, ◌+◌, ◌≤◌, ◌≡◌, ◌⊎◌, inl, inr, refl, sym, ap, ◌∙◌, Bool, true, false, Option, none, some, [],
  ◌∷◌, if◌then◌else◌, Text, text_eq, text_eq_iff, Result, ok, err, Option-cases, Bool-cases, arith,
}
use mathlib.Core.Path.{subst}
use openclaw_wave_runner.Domain.{LaunchOutbox}
use openclaw_wave_runner.Domain.Worker.{LaunchIntent, LaunchReceipt, WorkerCall}
use openclaw_wave_runner.Store.{get_outbox_by_idempotency}
use openclaw_wave_runner.Store.Outbox.{IsKeyedOutbox, outbox_keys, get_outbox_key}
use openclaw_wave_runner.Controller.Exec.{Env, Controller, Exec, continue}
use openclaw_wave_runner.Controller.Context.{require_wave}
use openclaw_wave_runner.Controller.Adapters.{Adapters}
use openclaw_wave_runner.Controller.FailLaunch.{
  LaunchAnswer, started, threw, answered, is_safety_gate, launch_claimed,
  fail_launch_without_receipt, ask,
}
use openclaw_wave_runner.Controller.FailLaunch.Endings.{fail_launch-IsQuiet}
use openclaw_wave_runner.Controller.Quiet as Quiet
use openclaw_wave_runner.Controller.Quiet.{
  launches, launched_keys, IsQuiet, IsQuiet-refl, IsQuiet-trans, IsQuiet-same, IsQuiet-continue,
}
use openclaw_wave_runner.Controller.Dispatch.{
  after_launch, launch_intent, link_result, running_stage, launch_row_of, dispatch_one,
  claim_pending, ensure_worktree, intent_from_outbox, fail_closed_impl_handoff,
}
use openclaw_wave_runner.Controller.Launcher.{LogGrows, LogGrows-same, LogGrows-trans}
use openclaw_wave_runner.Controller.Dispatch.Steps.{
  claim_pending-IsClaimed, ensure_worktree-IsQuiet, intent_from_outbox_lem,
  fail_closed_impl_handoff-IsQuiet, record_launch-IsQuiet, fail_claimed-IsQuiet,
}

abbrev pub one_if : Bool → ℕ
one_if b = if b then 1 else 0

-- From one controller to the other the worker was asked for at most one launch, of this key; no row went
-- back, and what was launched is started.
pub record Spawns (k : Text) (c c' : Controller) : Type 0 where
  pub keyed : IsKeyedOutbox c'.db
  pub launched : (j : Text) → launches j c'.calls ≤ launches j c.calls + one_if (text_eq k j)
  pub mono : (j : Text) → Quiet.started j c.db ≤ Quiet.started j c'.db
  pub same_keys : outbox_keys c'.db ≡ outbox_keys c.db
  pub log : LogGrows (launched_keys c.calls) (launched_keys c'.calls)
  pub safe : (j : Text) → (launches j c'.calls ≡ launches j c.calls) ⊎ (Quiet.started j c'.db ≡ 1)

quiet-Spawns : (k : Text) {c c' : Controller} → IsQuiet c c' → Spawns k c c'
quiet-Spawns k q = record {
  keyed = q.keyed;
  launched = λ j. omega (arith, q.launched j);
  mono = q.mono;
  same_keys = q.same_keys;
  log = LogGrows-same q.same_log;
  safe = λ j. inl (q.launched j);
}

Quiet-Spawns : {k : Text} {a b c : Controller} → IsQuiet a b → Spawns k b c → Spawns k a c
Quiet-Spawns q s = record {
  keyed = s.keyed;
  launched = λ j. omega (arith, q.launched j, s.launched j);
  mono = λ j. omega (arith, q.mono j, s.mono j);
  same_keys = s.same_keys ∙ q.same_keys;
  log = LogGrows-trans (LogGrows-same q.same_log) s.log;
  safe = λ j. ground (arith, q.launched j, s.safe j);
}

Spawns-Quiet : {k : Text} {a b c : Controller} → Spawns k a b → IsQuiet b c → Spawns k a c
Spawns-Quiet {k} {a} {b} {c} s q = record {
  keyed = q.keyed;
  launched = λ j. omega (arith, q.launched j, s.launched j);
  mono = λ j. omega (arith, q.mono j, s.mono j);
  same_keys = q.same_keys ∙ s.same_keys;
  log = LogGrows-trans s.log (LogGrows-same q.same_log);
  safe = λ j. ground (
    arith,
    q.launched j,
    s.safe j,
    q.mono j,
    Quiet.started_state_le (get_outbox_by_idempotency j c.db),
  );
}

Quiet-Spawns-continue :
    {A B : Type 0} {k : Text} {c c' : Controller} (r : Result A) (f : A → Exec B)
    → IsQuiet c c'
    → ((a : A) → r ≡ ok a → Spawns k c' (f a c').1)
    → Spawns k c (continue r f c').1
Quiet-Spawns-continue (ok a) f q next = Quiet-Spawns q (next a refl)
Quiet-Spawns-continue {k = k} (err e) f q next = quiet-Spawns k q

Spawns-Quiet-continue :
    {A B : Type 0} {k : Text} {c c' : Controller} (r : Result A) (f : A → Exec B)
    → Spawns k c c'
    → ((a : A) → r ≡ ok a → IsQuiet c' (f a c').1)
    → Spawns k c (continue r f c').1
Spawns-Quiet-continue (ok a) f s next = Spawns-Quiet s (next a refl)
Spawns-Quiet-continue (err e) f s next = s

-- the call itself
asked :
    (k : Text) (c : Controller)
    → IsKeyedOutbox c.db
    → Quiet.started k c.db ≡ 1
    → Spawns k c (record c { calls = WorkerCall.launched k ∷ c.calls })
unfolding launches launched_keys
asked k c keyed go = record {
  keyed = keyed;
  launched = λ j. omega arith;
  mono = λ j. omega arith;
  same_keys = refl;
  log = record { more = k ∷ []; grown = refl };
  safe = λ j. ground (arith, text_eq_iff k j);
}

pub answered-IsQuiet :
    (env : Env) (claimed : LaunchOutbox) (answer : LaunchAnswer) (c : Controller)
    → IsKeyedOutbox c.db
    → IsQuiet c (answered env claimed answer c).1
answered-IsQuiet env claimed (started receipt) c keyed = IsQuiet-refl c keyed
answered-IsQuiet env claimed (threw e message) c keyed = elim (Bool-cases (is_safety_gate e)) [
  | inl gate ↦ rw gate (IsQuiet-refl c keyed)
  | inr other ↦
      let failed = fail_launch-IsQuiet env claimed message c keyed in
      rw other (
        IsQuiet-continue (fail_launch_without_receipt env claimed message c).0 _ failed
          (λ a done. IsQuiet-refl _ failed.keyed))
]

launch_claimed-Spawns :
    (env : Env) (ad : Adapters) (claimed : LaunchOutbox) (intent : LaunchIntent) (k : Text)
    (c : Controller)
    → intent.idempotency_key ≡ k
    → IsKeyedOutbox c.db
    → Quiet.started k c.db ≡ 1
    → Spawns k c (launch_claimed env ad.launch claimed intent c).1
unfolding launch_claimed ask
launch_claimed-Spawns env ad claimed intent k c own keyed go =
    let key = intent.idempotency_key in
    let go' : Quiet.started key c.db ≡ 1 = ap (λ j. Quiet.started j c.db) own ∙ go in
    subst (λ j. Spawns j c (launch_claimed env ad.launch claimed intent c).1) own
      (Spawns-Quiet (asked key c keyed go') (
        answered-IsQuiet env claimed (ad.launch c.calls intent)
          (record c { calls = WorkerCall.launched key ∷ c.calls }) keyed))

pub after_launch-IsQuiet :
    (env : Env) (ad : Adapters) (wave_id : Text) (claimed : LaunchOutbox)
    (receipt : Option LaunchReceipt) (c : Controller)
    → IsKeyedOutbox c.db
    → IsQuiet c (after_launch env ad wave_id claimed receipt c).1
unfolding require_wave
after_launch-IsQuiet env ad wave_id claimed none c keyed = IsQuiet-refl c keyed
after_launch-IsQuiet env ad wave_id claimed (some receipt) c keyed =
    IsQuiet-continue (require_wave wave_id c).0 _ (IsQuiet-refl c keyed) (λ wave there.
      IsQuiet-continue (link_result ad wave claimed receipt) _ (IsQuiet-refl c keyed) (λ a fine.
        record_launch-IsQuiet env claimed.idempotency_key (running_stage ad receipt)
          (ad.to_json receipt) c keyed))

still_started :
    (k : Text) {c c' : Controller}
    → IsQuiet c c'
    → Quiet.started k c.db ≡ 1
    → Quiet.started k c'.db ≡ 1
still_started k {c' = c'} q go =
    omega (arith, q.mono k, Quiet.started_state_le (get_outbox_by_idempotency k c'.db))

launch_intent-Spawns :
    (env : Env) (ad : Adapters) (wave_id k : Text) (claimed : LaunchOutbox) (intent : LaunchIntent)
    (c : Controller)
    → intent.idempotency_key ≡ k
    → IsKeyedOutbox c.db
    → Quiet.started k c.db ≡ 1
    → Spawns k c (launch_intent env ad wave_id claimed intent c).1
unfolding launch_intent
launch_intent-Spawns env ad wave_id k claimed intent c own keyed go =
    let handed = fail_closed_impl_handoff-IsQuiet env ad wave_id claimed intent c keyed in
    let c1 = (fail_closed_impl_handoff env ad wave_id claimed intent c).1 in
    Quiet-Spawns-continue (fail_closed_impl_handoff env ad wave_id claimed intent c).0 _ handed
      (elim [
        | true ↦ λ fine. quiet-Spawns k (IsQuiet-refl c1 handed.keyed)
        | false ↦ λ fine.
            let spawned =
              launch_claimed-Spawns env ad claimed intent k c1 own handed.keyed
                (still_started k handed go) in
            Spawns-Quiet-continue (launch_claimed env ad.launch claimed intent c1).0 _ spawned
              (λ receipt done. after_launch-IsQuiet env ad wave_id claimed receipt _ spawned.keyed)
      ])

-- from the worktree on, for a row that is started
launch_row_of-Spawns :
    (env : Env) (ad : Adapters) (wave_id k : Text) (claimed : LaunchOutbox) (c : Controller)
    → claimed.idempotency_key ≡ k
    → IsKeyedOutbox c.db
    → Quiet.started k c.db ≡ 1
    → Spawns k c (launch_row_of env ad wave_id claimed c).1
unfolding launch_row_of
launch_row_of-Spawns env ad wave_id k claimed c own keyed go =
    let ensured = ensure_worktree-IsQuiet ad wave_id claimed c keyed in
    let c1 = (ensure_worktree ad wave_id claimed c).1 in
    Quiet-Spawns-continue (ensure_worktree ad wave_id claimed c).0 _ ensured (λ a fine.
      let (same, intent_key) = intent_from_outbox_lem ad claimed c1 in
      Quiet-Spawns-continue (intent_from_outbox ad claimed c1).0 _
        (subst (λ c'. IsQuiet c1 c') (sym same) (IsQuiet-refl c1 ensured.keyed))
        (λ intent made. rw same (
          launch_intent-Spawns env ad wave_id k claimed intent c1 (intent_key intent made ∙ own)
            ensured.keyed (still_started k ensured go))))

-- One round of the loop asks for at most one launch, of the row that it is about.
pub dispatch_one-Spawns :
    (env : Env) (ad : Adapters) (wave_id : Text) (item : LaunchOutbox) (c : Controller)
    → IsKeyedOutbox c.db
    → Spawns item.idempotency_key c (dispatch_one env ad wave_id item c).1
unfolding dispatch_one require_wave
dispatch_one-Spawns env ad wave_id item c keyed =
    let (_, claim) = claim_pending-IsClaimed env item c keyed in
    let c1 = (claim_pending env item c).1 in
    Quiet-Spawns-continue (claim_pending env item c).0 _ claim.quiet (λ a fine.
      elim (Option-cases (get_outbox_by_idempotency item.idempotency_key c1.db)) [
        | inl missing ↦ rw missing (quiet-Spawns _ (IsQuiet-refl c1 claim.quiet.keyed))
        | inr (row, there) ↦ rw there (
            Quiet-Spawns-continue (require_wave wave_id c1).0 _ (IsQuiet-refl c1 claim.quiet.keyed)
              (λ wave found. elim (Bool-cases wave.cancel_requested) [
                | inl stop ↦
                    rw stop (quiet-Spawns _ (fail_claimed-IsQuiet env row _ c1 claim.quiet.keyed))
                | inr live ↦ rw live (
                    launch_row_of-Spawns env ad wave_id item.idempotency_key row c1
                      (get_outbox_key item.idempotency_key c1.db row there) claim.quiet.keyed
                      (claim.started_now row there))
              ]))
      ])
