-- ===== src/Controller/Dispatch/Once.antt =====
-- No stage attempt is handed to the worker twice: the invariant of the outbox and the calls of the
-- worker, and that a dispatch (core/launch.ts) keeps it.
use openclaw_wave_runner.Prelude.{
  ℕ, ◌+◌, ◌≤◌, ◌≡◌, ◌≢◌, ◌⊎◌, inl, inr, refl, sym, ◌∙◌, map, Bool, ◌&&◌, List, [], ◌∷◌, filter,
  find?, All, Text, text_eq, text_eq_iff, Result, ok, err, Bool-cases, arith,
}
use mathlib.Core.Path.{subst}
use openclaw_wave_runner.Prelude.Sorting.{sum_of, order_by, sum_of-order_by}
use openclaw_wave_runner.Domain.{LaunchOutbox}
use openclaw_wave_runner.Store.{WaveDatabase, get_outbox_by_idempotency, list_outbox}
use openclaw_wave_runner.Store.Outbox.{IsKeyedOutbox, outbox_keys}
use openclaw_wave_runner.Controller.Exec.{Env, Controller, for_each}
use openclaw_wave_runner.Controller.Adapters.{Adapters}
use openclaw_wave_runner.Controller.Quiet as Quiet
use openclaw_wave_runner.Controller.Quiet.{
  Distinct, launches, launched_keys, started_state, started_state_le,
}
use openclaw_wave_runner.Controller.Launcher.{
  LogGrows, LogGrows-same, LogGrows-trans, KeysGrow, KeysGrow-same,
}
use openclaw_wave_runner.Controller.Dispatch.{
  is_pending, pending_rows, dispatch_one, dispatch_pending,
}
use openclaw_wave_runner.Controller.Dispatch.Spawning.{Spawns, one_if, dispatch_one-Spawns}

abbrev has_key : Text → LaunchOutbox → ℕ
has_key j item = one_if (text_eq item.idempotency_key j)

-- The loop over a list of rows.
record SpawnsEach (items : List LaunchOutbox) (c c' : Controller) : Type 0 where
  keyed : IsKeyedOutbox c'.db
  launched : (j : Text) → launches j c'.calls ≤ launches j c.calls + sum_of (has_key j) items
  mono : (j : Text) → Quiet.started j c.db ≤ Quiet.started j c'.db
  same_keys : outbox_keys c'.db ≡ outbox_keys c.db
  log : LogGrows (launched_keys c.calls) (launched_keys c'.calls)
  safe : (j : Text) → (launches j c'.calls ≡ launches j c.calls) ⊎ (Quiet.started j c'.db ≡ 1)

first_round :
    (item : LaunchOutbox) (items : List LaunchOutbox) {a b : Controller}
    → Spawns item.idempotency_key a b
    → SpawnsEach (item ∷ items) a b
first_round item items s = record {
  keyed = s.keyed;
  launched = λ j. omega (arith, s.launched j);
  mono = s.mono;
  same_keys = s.same_keys;
  log = s.log;
  safe = s.safe;
}

rounds :
    (item : LaunchOutbox) (items : List LaunchOutbox) {a b c : Controller}
    → Spawns item.idempotency_key a b
    → SpawnsEach items b c
    → SpawnsEach (item ∷ items) a c
rounds item items {c = c} s t = record {
  keyed = t.keyed;
  launched = λ j. omega (arith, s.launched j, t.launched j);
  mono = λ j. omega (arith, s.mono j, t.mono j);
  same_keys = t.same_keys ∙ s.same_keys;
  log = LogGrows-trans s.log t.log;
  safe = λ j.
      ground
        (arith, s.safe j, t.safe j, t.mono j, started_state_le (get_outbox_by_idempotency j c.db));
}

module _ (env : Env) (ad : Adapters) (wave_id : Text) where
  dispatch_each :
      (items : List LaunchOutbox) (c : Controller)
      → IsKeyedOutbox c.db
      → SpawnsEach items c (for_each items (dispatch_one env ad wave_id) c).1
  dispatch_each [] c keyed = record {
    keyed = keyed;
    launched = λ j. omega arith;
    mono = λ j. omega arith;
    same_keys = refl;
    log = LogGrows-same refl;
    safe = λ j. inl refl;
  }
  dispatch_each (item ∷ items) c keyed =
      let s = dispatch_one-Spawns env ad wave_id item c keyed in
      let c1 = (dispatch_one env ad wave_id item c).1 in
      go (dispatch_one env ad wave_id item c).0 s (dispatch_each items c1 s.keyed)
    where
      go :
          (r : Result (Unit {0}))
          → Spawns item.idempotency_key c (dispatch_one env ad wave_id item c).1
          → SpawnsEach items
              (dispatch_one env ad wave_id item c).1
              (for_each items
                (dispatch_one env ad wave_id)
                (dispatch_one env ad wave_id item c).1).1
          → SpawnsEach
              (item ∷ items)
              c
              (openclaw_wave_runner.Controller.Exec.continue r
                (λ _. for_each items (dispatch_one env ad wave_id))
                (dispatch_one env ad wave_id item c).1).1
      go (ok a) s t = rounds item items s t
      go (err e) s t = first_round item items s

abbrev pending_with : Text → LaunchOutbox → ℕ
pending_with j item = one_if (text_eq item.idempotency_key j && is_pending item.state)

sum-filter_pending :
    (j : Text) (items : List LaunchOutbox)
    → sum_of (has_key j) (filter (λ (item : LaunchOutbox). is_pending item.state) items)
      ≡ sum_of (pending_with j) items
unfolding filter
sum-filter_pending j [] = refl
sum-filter_pending j (x ∷ xs) = ground (arith, sum-filter_pending j xs)

sum-filter-le :
    (f : LaunchOutbox → ℕ) (p : LaunchOutbox → Bool) (items : List LaunchOutbox)
    → sum_of f (filter p items) ≤ sum_of f items
unfolding filter
sum-filter-le f p [] = omega arith
sum-filter-le f p (x ∷ xs) = ground (arith, sum-filter-le f p xs)

abbrev keys_of : List LaunchOutbox → List Text
keys_of rows = map (λ (item : LaunchOutbox). item.idempotency_key) rows

none_pending :
    (j : Text) (rows : List LaunchOutbox)
    → All (λ k. j ≢ k) (keys_of rows)
    → sum_of (pending_with j) rows ≡ 0
none_pending j [] h = refl
none_pending j (x ∷ xs) h = ground (arith, none_pending j xs h.1, text_eq_iff x.idempotency_key j)

-- With distinct keys a key has one pending row at most, and none if what it finds is started.
one_pending :
    (j : Text) (rows : List LaunchOutbox)
    → Distinct (keys_of rows)
    → sum_of (pending_with j) rows
        + started_state (find? (λ (item : LaunchOutbox). text_eq item.idempotency_key j) rows)
      ≤ 1
unfolding find?
one_pending j [] distinct = omega arith
one_pending j (x ∷ xs) distinct = elim (Bool-cases (text_eq x.idempotency_key j)) [
  | inl own ↦
      let same : x.idempotency_key ≡ j = (text_eq_iff x.idempotency_key j).0 own in
      let rest = none_pending j xs (subst (λ k. All (λ i. k ≢ i) (keys_of xs)) same distinct.0) in
      ground (arith, rest, own)
  | inr other ↦ ground (arith, other, one_pending j xs distinct.1)
]

pending_le :
    (j wave_id : Text) (db : WaveDatabase)
    → Distinct (outbox_keys db)
    → sum_of (has_key j) (pending_rows wave_id db) + Quiet.started j db ≤ 1
unfolding list_outbox get_outbox_by_idempotency
pending_le j wave_id db distinct =
    let own = filter (λ (item : LaunchOutbox). text_eq item.wave_id wave_id) db.outbox in
    omega (
      arith,
      sum-filter_pending j (order_by (λ (item : LaunchOutbox). item.created_at) own),
      sum_of-order_by (λ (item : LaunchOutbox). item.created_at) (pending_with j) own,
      sum-filter-le (pending_with j) (λ (item : LaunchOutbox). text_eq item.wave_id wave_id)
          db.outbox,
      one_pending j db.outbox distinct,
    )

-- The rows have distinct ids and distinct keys, and the worker was asked to launch a key at most once,
-- and only if the key's row is no longer pending.
pub record IsSpawnedOnce (c : Controller) : Type 0 where
  pub keyed : IsKeyedOutbox c.db
  pub distinct : Distinct (outbox_keys c.db)
  pub once : (k : Text) → launches k c.calls ≤ Quiet.started k c.db

-- The invariant holds in the second controller; the outbox and the log of launches have only grown.
pub record Advances (c c' : Controller) : Type 0 where
  pub once : IsSpawnedOnce c'
  pub rows : KeysGrow (outbox_keys c.db) (outbox_keys c'.db)
  pub log : LogGrows (launched_keys c.calls) (launched_keys c'.calls)

pub dispatch_pending-Advances :
    (env : Env) (ad : Adapters) (wave_id : Text) (c : Controller)
    → IsSpawnedOnce c
    → Advances c (dispatch_pending env ad wave_id c).1
unfolding dispatch_pending
dispatch_pending-Advances env ad wave_id c inv =
    let each = dispatch_each env ad wave_id (pending_rows wave_id c.db) c inv.keyed in
    record {
      once = record {
        keyed = each.keyed;
        distinct = subst Distinct (sym each.same_keys) inv.distinct;
        once = λ k. ground (
          arith,
          inv.once k,
          each.launched k,
          each.mono k,
          each.safe k,
          pending_le k wave_id c.db inv.distinct,
        );
      };
      rows = KeysGrow-same each.same_keys;
      log = each.log;
    }

-- A dispatch keeps the invariant, whatever the worker and the workspace answer: the rows of the outbox
-- have distinct ids and keys, the worker was asked to launch each key at most once, and no key that it
-- was asked to launch is pending.
pub dispatch_pending-IsSpawnedOnce :
    (env : Env) (ad : Adapters) (wave_id : Text) (c : Controller)
    → IsSpawnedOnce c
    → IsSpawnedOnce (dispatch_pending env ad wave_id c).1
dispatch_pending-IsSpawnedOnce env ad wave_id c inv =
    (dispatch_pending-Advances env ad wave_id c inv).once
