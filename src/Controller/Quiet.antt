-- ===== src/Controller/Quiet.antt =====
-- Actions of core/launch.ts, core/fail-launch.ts and core/settlement.ts that do not hand a stage to the
-- worker and send no row of the outbox back to pending, and the rules to put them together.
use openclaw_wave_runner.Prelude.{
  ℕ, ◌+◌, ◌≤◌, ◌≡◌, ◌≢◌, All, inl, inr, refl, ap, map, ◌∙◌, Option, none, some, List, [], ◌∷◌,
  if◌then◌else◌, Text, text_eq, text_eq_refl, Result, ok, err, Option-cases, Result-cases, arith,
}
use openclaw_wave_runner.Domain.{OutboxState, LaunchOutbox}
use openclaw_wave_runner.Domain.Worker.{WorkerCall}
use openclaw_wave_runner.Store.{WaveDatabase, get_outbox_by_idempotency, put_outbox}
use openclaw_wave_runner.Store.Outbox.{
  IsKeyedOutbox, outbox_keys, outbox_keys-moved_row, moved_row, IsKeyedOutbox-moved_row,
  put_outbox_found, get_outbox-moved_row,
}
use openclaw_wave_runner.Controller.Exec.{Controller, Exec, continue, transaction, try_modify}

-- no two texts of the list are the same
abbrev pub Distinct : List Text → Type 0
Distinct [] = Unit
Distinct (k ∷ ks) = All (λ j. k ≢ j) ks × Distinct ks

-- How often the worker was asked to launch a key.
unfoldable pub launches : Text → List WorkerCall → ℕ
launches k [] = 0
launches k (WorkerCall.launched j ∷ calls) = (if text_eq j k then 1 else 0) + launches k calls
launches k (WorkerCall.recovered j ∷ calls) = launches k calls
launches k (WorkerCall.inspected j ∷ calls) = launches k calls
launches k (WorkerCall.cancelled j ∷ calls) = launches k calls

-- the keys that the worker was asked to launch, the last one first
unfoldable pub launched_keys : List WorkerCall → List Text
launched_keys [] = []
launched_keys (WorkerCall.launched k ∷ calls) = k ∷ launched_keys calls
launched_keys (WorkerCall.recovered k ∷ calls) = launched_keys calls
launched_keys (WorkerCall.inspected k ∷ calls) = launched_keys calls
launched_keys (WorkerCall.cancelled k ∷ calls) = launched_keys calls

abbrev pub started_state : Option LaunchOutbox → ℕ
started_state none = 0
started_state (some row) = elim row.state [ OutboxState.pending ↦ 0 | _ ↦ 1 ]

-- 1 if the key has a row that is no longer pending, else 0
abbrev pub started : Text → WaveDatabase → ℕ
started k db = started_state (get_outbox_by_idempotency k db)

pub started_state_le : (o : Option LaunchOutbox) → started_state o ≤ 1
started_state_le o = ground arith

-- An action went from one controller to the other without asking the worker for a launch, and no row
-- became pending or was lost.
pub record IsQuiet (c c' : Controller) : Type 0 where
  pub keyed : IsKeyedOutbox c'.db
  pub launched : (k : Text) → launches k c'.calls ≡ launches k c.calls
  pub mono : (k : Text) → started k c.db ≤ started k c'.db
  pub same_keys : outbox_keys c'.db ≡ outbox_keys c.db
  pub same_log : launched_keys c'.calls ≡ launched_keys c.calls

pub IsQuiet-refl : (c : Controller) → IsKeyedOutbox c.db → IsQuiet c c
IsQuiet-refl c keyed = record {
  keyed = keyed;
  launched = λ k. refl;
  mono = λ k. omega arith;
  same_keys = refl;
  same_log = refl;
}

pub IsQuiet-trans : {a b c : Controller} → IsQuiet a b → IsQuiet b c → IsQuiet a c
IsQuiet-trans p q = record {
  keyed = q.keyed;
  launched = λ k. q.launched k ∙ p.launched k;
  mono = λ k. omega (arith, p.mono k, q.mono k);
  same_keys = q.same_keys ∙ p.same_keys;
  same_log = q.same_log ∙ p.same_log;
}

-- the other tables and the locks play no part
pub IsQuiet-same :
    (c c' : Controller)
    → IsKeyedOutbox c.db
    → c'.db.outbox ≡ c.db.outbox
    → c'.calls ≡ c.calls
    → IsQuiet c c'
unfolding get_outbox_by_idempotency
IsQuiet-same c c' keyed rows calls = record {
  keyed = rw rows keyed;
  launched = λ k. ap (launches k) calls;
  mono = λ k. rw rows (omega arith);
  same_keys = ap (map (λ (item : LaunchOutbox). item.idempotency_key)) rows;
  same_log = ap launched_keys calls;
}

-- what follows an action runs only where it did not throw
pub IsQuiet-continue :
    {A B : Type 0} {c c' : Controller} (r : Result A) (f : A → Exec B)
    → IsQuiet c c'
    → ((a : A) → r ≡ ok a → IsQuiet c' (f a c').1)
    → IsQuiet c (continue r f c').1
IsQuiet-continue (ok a) f q next = IsQuiet-trans q (next a refl)
IsQuiet-continue (err e) f q next = q

pub IsQuiet-transaction :
    {A : Type 0} (m : Exec A) (c : Controller)
    → IsKeyedOutbox c.db
    → IsQuiet c (m c).1
    → IsQuiet c (transaction m c).1
unfolding transaction get_outbox_by_idempotency
IsQuiet-transaction m c keyed q = elim (Result-cases (m c).0) [
  | inl (a, fine) ↦ rw fine q
  | inr (e, failed) ↦ rw failed (record {
    keyed = keyed;
    launched = q.launched;
    mono = λ k. omega arith;
    same_keys = refl;
    same_log = q.same_log;
  })
]

-- A row that was read and is written back, no longer pending.
pub IsQuiet-moved_row :
    (k : Text) (c : Controller) (r r' : LaunchOutbox)
    → IsKeyedOutbox c.db
    → get_outbox_by_idempotency k c.db ≡ some r
    → r'.outbox_id ≡ r.outbox_id
    → started_state (some r') ≡ 1
    → IsQuiet c (record c { db = moved_row r' c.db }) × (started k (moved_row r' c.db) ≡ 1)
IsQuiet-moved_row k c r r' keyed there same_id go = (
  record {
    keyed = IsKeyedOutbox-moved_row r' c.db keyed;
    launched = λ j. refl;
    mono = λ j.
        rw (get_outbox-moved_row k c.db keyed r r' there same_id j)
          (ground (arith, started_state_le (get_outbox_by_idempotency j c.db)));
    same_keys = outbox_keys-moved_row k c.db keyed r r' there same_id;
    same_log = refl;
  },
  rw (get_outbox-moved_row k c.db keyed r r' there same_id k) (rw (text_eq_refl k) go),
)

module _ (k : Text) (c : Controller) (keyed : IsKeyedOutbox c.db) (r : LaunchOutbox)
    (there : get_outbox_by_idempotency k c.db ≡ some r) where
  pub IsQuiet-write :
      (r' : LaunchOutbox)
      → r'.outbox_id ≡ r.outbox_id
      → started_state (some r') ≡ 1
      → IsQuiet c (try_modify (put_outbox r') c).1
  IsQuiet-write r' same_id go =
      rw (put_outbox_found k c.db keyed r r' there same_id)
        (IsQuiet-moved_row k c r r' keyed there same_id go).0

-- The transaction of a status change of one row: it is read by its key, and what is done with it is quiet.
module _ (k : Text) (c : Controller) (keyed : IsKeyedOutbox c.db)
    (write : Option LaunchOutbox → Exec (Unit {0}))
    (quiet : (r : LaunchOutbox)
      → get_outbox_by_idempotency k c.db ≡ some r
      → IsQuiet c (write (some r) c).1)
    (nothing : write none c ≡ (ok tt, c)) where
  pub IsQuiet-read_write :
      IsQuiet c (transaction (λ c'. write (get_outbox_by_idempotency k c'.db) c') c).1
  IsQuiet-read_write =
      IsQuiet-transaction (λ c'. write (get_outbox_by_idempotency k c'.db) c') c keyed
        (elim (Option-cases (get_outbox_by_idempotency k c.db)) [
          | inl missing ↦ rw missing (rw nothing (IsQuiet-refl c keyed))
          | inr (r, there) ↦ rw there (quiet r there)
        ])
