-- ===== src/Controller/Runs/Launcher.antt =====
-- A run of the controller (core/controller.ts) is a run of the abstract launcher.
use mathlib.Core.List.{Memᴰ}
use mathlib.Core.Path.{subst}
use openclaw_wave_runner.Prelude.{
  ℕ, ◌≡◌, ◌≢◌, ◌≤◌, inl, inr, map, find?, some, List, [], ◌∷◌, ◌++◌, All, Text, text_eq,
  text_eq_iff, text_eq_refl, Bool-cases, Option-cases, arith,
}
use openclaw_wave_runner.Domain.{LaunchOutbox}
use openclaw_wave_runner.Domain.Worker.{WorkerCall}
use openclaw_wave_runner.Store.{WaveDatabase, get_outbox_by_idempotency}
use openclaw_wave_runner.Store.Outbox.{outbox_keys}
use openclaw_wave_runner.Controller.Exec.{Env, Controller}
use openclaw_wave_runner.Controller.Quiet as Quiet
use openclaw_wave_runner.Controller.Quiet.{Distinct, launches, launched_keys, started_state_le}
use openclaw_wave_runner.Controller.Launcher.{Launcher, tasks, queue_all, launch_all}
use openclaw_wave_runner.Controller.Dispatch.Once.{IsSpawnedOnce, Advances}
use openclaw_wave_runner.Controller.Runs.{Command, run_all}
use openclaw_wave_runner.Controller.Runs.Once.{DrawsNew, run_all-Advances}

never_launched :
    (k : Text) (calls : List WorkerCall)
    → launches k calls ≡ 0
    → All (λ j. k ≢ j) (launched_keys calls)
unfolding launches launched_keys
never_launched k [] h = tt
never_launched k (WorkerCall.launched j ∷ calls) h = (
  λ same. absurd (ground (arith, h, same, text_eq_refl k)),
  never_launched k calls (ground (arith, h)),
)
never_launched k (WorkerCall.recovered j ∷ calls) h = never_launched k calls h
never_launched k (WorkerCall.inspected j ∷ calls) h = never_launched k calls h
never_launched k (WorkerCall.cancelled j ∷ calls) h = never_launched k calls h

key_there :
    (k : Text) (rows : List LaunchOutbox) {r : LaunchOutbox}
    → find? (λ (item : LaunchOutbox). text_eq item.idempotency_key k) rows ≡ some r
    → Memᴰ k (map (λ (item : LaunchOutbox). item.idempotency_key) rows)
unfolding find?
key_there k [] h = cc
key_there k (x ∷ rows) h = elim (Bool-cases (text_eq x.idempotency_key k)) [
  | inl own ↦ Memᴰ.head (ground (arith, own, text_eq_iff x.idempotency_key k))
  | inr other ↦ Memᴰ.tail (key_there k rows (rw other at h))
]

started_there : (k : Text) (db : WaveDatabase) → 1 ≤ Quiet.started k db → Memᴰ k (outbox_keys db)
unfolding get_outbox_by_idempotency
started_there k db h = elim (Option-cases (get_outbox_by_idempotency k db)) [
  | inl missing ↦ absurd (ground (arith, missing, h))
  | inr (r, there) ↦ key_there k db.outbox there
]

tail_le :
    (call : WorkerCall) (calls : List WorkerCall) (bound : Text → ℕ)
    → ((k : Text) → launches k (call ∷ calls) ≤ bound k)
    → (k : Text) → launches k calls ≤ bound k
unfolding launches
tail_le call calls bound h k = ground (arith, h k)

launched_there :
    (db : WaveDatabase) (calls : List WorkerCall)
    → ((k : Text) → launches k calls ≤ Quiet.started k db)
    → All (λ k. Memᴰ k (outbox_keys db)) (launched_keys calls)
unfolding launched_keys launches
launched_there db [] h = tt
launched_there db (WorkerCall.launched k ∷ calls) h = (
  started_there k db (ground (arith, h k, text_eq_refl k)),
  launched_there db calls (tail_le (WorkerCall.launched k) calls (λ j. Quiet.started j db) h),
)
launched_there db (WorkerCall.recovered k ∷ calls) h = launched_there db calls h
launched_there db (WorkerCall.inspected k ∷ calls) h = launched_there db calls h
launched_there db (WorkerCall.cancelled k ∷ calls) h = launched_there db calls h

Distinct-launched_keys :
    (calls : List WorkerCall) → ((k : Text) → launches k calls ≤ 1) → Distinct (launched_keys calls)
unfolding launched_keys launches
Distinct-launched_keys [] h = tt
Distinct-launched_keys (WorkerCall.launched k ∷ calls) h = (
  never_launched k calls (ground (arith, h k, text_eq_refl k)),
  Distinct-launched_keys calls (tail_le (WorkerCall.launched k) calls (λ j. 1) h),
)
Distinct-launched_keys (WorkerCall.recovered k ∷ calls) h = Distinct-launched_keys calls h
Distinct-launched_keys (WorkerCall.inspected k ∷ calls) h = Distinct-launched_keys calls h
Distinct-launched_keys (WorkerCall.cancelled k ∷ calls) h = Distinct-launched_keys calls h

All-front : (P : Text → Type 0) (xs ys : List Text) → All P (xs ++ ys) → All P xs
All-front P [] ys h = tt
All-front P (x ∷ xs) ys h = (h.0, All-front P xs ys h.1)

-- What was added to the rows was queued, and what was added to the log was launched.
Launcher-Advances : {c c' : Controller} → Advances c c' → Launcher (tasks c) (tasks c')
Launcher-Advances {c} {c'} step =
    let old = launched_keys c.calls in
    let log = step.log in
    let rows = step.rows in
    let inv = step.once in
    let distinct =
      Distinct-launched_keys c'.calls
        (λ k. omega (arith, inv.once k, started_state_le (get_outbox_by_idempotency k c'.db))) in
    let known = launched_there c'.db c'.calls inv.once in
    let queued : Launcher (tasks c) (record { queued = outbox_keys c'.db; log = old }) =
      rw rows.grown (
        queue_all (tasks c) (outbox_keys c.db) old rows.more
          (subst Distinct rows.grown inv.distinct) Launcher.idle) in
    rw log.grown (
      launch_all (tasks c) (outbox_keys c'.db) old log.more (subst Distinct log.grown distinct)
        (All-front _ log.more old (subst (All (λ k. Memᴰ k (outbox_keys c'.db))) log.grown known))
        queued)

-- A run, a sequence of whole commands one after the other, refines the abstract launcher: if it begins
-- with distinct ids and keys in the outbox and with no key launched twice or launched and pending, and
-- its processes draw new ids for the rows of the outbox, then whatever is answered and thrown, the
-- launcher gets from the rows and launches of the beginning to those of the end by its two steps. No row
-- is forgotten, nothing is launched that has no row, and no key is launched twice.
pub run_all-Launcher :
    (calls : List (Env × Command)) (c : Controller)
    → All (λ (each : Env × Command). DrawsNew each.1) calls
    → IsSpawnedOnce c
    → Launcher (tasks c) (tasks (run_all calls c))
run_all-Launcher calls c new inv = Launcher-Advances (run_all-Advances calls c new inv)
