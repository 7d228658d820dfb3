-- ===== src/Controller/Tame/Rows.antt =====
-- A row that is appended to the outbox (store/database.ts) under a new id and a new key, and the rules
-- for actions that append one.
use openclaw_wave_runner.Prelude.{
  Bool, true, false, if◌then◌else◌, Result, ok, err, WaveError, ap, ◌∙◌, ◌≡◌, ◌≢◌, ◌≤◌, refl, inl,
  inr, none, some, List, [], ◌∷◌, ◌++◌, map, Text, text_eq, text_eq_iff, All, find?, Bool-cases,
  Option-cases, arith,
}
use openclaw_wave_runner.Domain.{LaunchOutbox}
use openclaw_wave_runner.Store.{
  WaveDatabase, outbox_key, merge_outbox, get_outbox_by_idempotency, put_outbox,
}
use openclaw_wave_runner.Store.Table.{get, put}
use openclaw_wave_runner.Store.Rows.{IsKeyed-put, put_fresh}
use openclaw_wave_runner.Controller.Exec.{
  Controller, Exec, ◌>>=◌, continue, pure, raise, try_modify,
}
use openclaw_wave_runner.Domain.Worker.{WorkerCall}
use openclaw_wave_runner.Controller.Quiet.{Distinct, started}
use openclaw_wave_runner.Controller.Launcher.{KeysGrow}
use openclaw_wave_runner.Store.Outbox.{outbox_keys}
use openclaw_wave_runner.Controller.Tame.{
  IsKeyedWork, TameStep, TameStep-refl, TameStep-trans, TameStep-continue, LeavesWork, IsTame,
  IsTame-leaves, IsTame-pure, IsTame-raise,
}

-- no row of the outbox has the id
abbrev pub IsNew : Text → WaveDatabase → Type 0
IsNew id db = get outbox_key (id ∷ []) db.outbox ≡ none

found_later :
    (k : Text) (row : LaunchOutbox) (rows : List LaunchOutbox) {r : LaunchOutbox}
    → find? (λ (item : LaunchOutbox). text_eq item.idempotency_key k) rows ≡ some r
    → find? (λ (item : LaunchOutbox). text_eq item.idempotency_key k) (rows ++ row ∷ []) ≡ some r
unfolding find?
found_later k row [] h = cc
found_later k row (x ∷ xs) h = elim (Bool-cases (text_eq x.idempotency_key k)) [
  | inl hit ↦ rw hit (rw hit at h)
  | inr miss ↦ rw miss (found_later k row xs (rw miss at h))
]

abbrev keys_of : List LaunchOutbox → List Text
keys_of rows = map (λ (item : LaunchOutbox). item.idempotency_key) rows

others_differ :
    (key : Text) (row : LaunchOutbox) (rows : List LaunchOutbox)
    → key ≢ row.idempotency_key
    → All (λ j. key ≢ j) (keys_of rows)
    → All (λ j. key ≢ j) (keys_of (rows ++ row ∷ []))
others_differ key row [] ne h = (ne, tt)
others_differ key row (x ∷ xs) ne h = (h.0, others_differ key row xs ne h.1)

Distinct-append :
    (row : LaunchOutbox) (rows : List LaunchOutbox)
    → find? (λ (item : LaunchOutbox). text_eq item.idempotency_key row.idempotency_key) rows ≡ none
    → Distinct (keys_of rows)
    → Distinct (keys_of (rows ++ row ∷ []))
unfolding find?
Distinct-append row [] unused h = (tt, tt)
Distinct-append row (x ∷ xs) unused h =
    elim (Bool-cases (text_eq x.idempotency_key row.idempotency_key)) [
      | inl same ↦ absurd (ground (arith, same))
      | inr other ↦ (
        others_differ x.idempotency_key row xs
            (λ e. absurd (ground (arith, other, text_eq_iff x.idempotency_key row.idempotency_key)))
            h.0,
        Distinct-append row xs (ground (arith, other)) h.1,
      )
    ]

mono_later :
    (row : LaunchOutbox) (db : WaveDatabase) (k : Text)
    → started k db ≤ started k (record db { outbox = db.outbox ++ row ∷ [] })
unfolding get_outbox_by_idempotency
mono_later row db k = elim (Option-cases (get_outbox_by_idempotency k db)) [
  | inl missing ↦ rw missing (omega arith)
  | inr (r, there) ↦ rw there (rw (found_later k row db.outbox there) (omega arith))
]

unused_rows :
    (row : LaunchOutbox) (db : WaveDatabase)
    → get_outbox_by_idempotency row.idempotency_key db ≡ none
    → find? (λ (item : LaunchOutbox). text_eq item.idempotency_key row.idempotency_key) db.outbox
      ≡ none
unfolding get_outbox_by_idempotency
unused_rows row db h = h

appended_keys :
    (row : LaunchOutbox) (db : WaveDatabase)
    → IsNew row.outbox_id db
    → KeysGrow
        (outbox_keys db)
        (outbox_keys (record db { outbox = put outbox_key merge_outbox row db.outbox }))
appended_keys row db new = record {
  more = row.idempotency_key ∷ [];
  grown =
      ap (map (λ (item : LaunchOutbox). item.idempotency_key))
        (put_fresh outbox_key merge_outbox (λ old r. refl) row db.outbox new)
      ∙ map-append db.outbox;
}
  where
    map-append :
        (rows : List LaunchOutbox)
        → map (λ (item : LaunchOutbox). item.idempotency_key) (rows ++ row ∷ [])
          ≡ map (λ (item : LaunchOutbox). item.idempotency_key) rows ++ row.idempotency_key ∷ []
    map-append [] = refl
    map-append (x ∷ rows) = ap (λ l. x.idempotency_key ∷ l) (map-append rows)

-- A row under a new id is appended, and its key is new too, or the write is refused.
pub appended_row :
    (row : LaunchOutbox) (c : Controller)
    → IsKeyedWork c.db
    → IsNew row.outbox_id c.db
    → TameStep c (try_modify (put_outbox row) c).1
unfolding put_outbox
appended_row row c keys new =
    elim (Option-cases (get_outbox_by_idempotency row.idempotency_key c.db)) [
      | inr (r, used) ↦ rw new (rw used (TameStep-refl c keys))
      | inl unused ↦ rw new (
          rw unused (record {
            keys = record {
              keyed =
                  IsKeyed-put outbox_key merge_outbox (λ old r. refl) row c.db.outbox keys.keyed;
              distinct =
                  rw (put_fresh outbox_key merge_outbox (λ old r. refl) row c.db.outbox new)
                    (Distinct-append row c.db.outbox (unused_rows row c.db unused) keys.distinct);
            };
            launched = λ k. refl;
            rows = appended_keys row c.db new;
            same_log = refl;
            mono = λ k.
                rw (put_fresh outbox_key merge_outbox (λ old r. refl) row c.db.outbox new)
                  (mono_later row c.db k);
          }))
    ]

-- An action that is tame where the id is new.
pub record IsTameWith {A : Type 0} (id : Text) (m : Exec A) : Type 0 where
  pub at : (c : Controller) → IsKeyedWork c.db → IsNew id c.db → TameStep c (m c).1

-- the rules for actions that write one row under a new id
module _ {id : Text} where
  With-tame : {A : Type 0} (m : Exec A) → IsTame m → IsTameWith id m
  With-tame m h = record { at = λ c keys new. h.at c keys }

  pub With-bind :
      {A B : Type 0} (m : Exec A) (f : A → Exec B)
      → IsTameWith id m
      → ((a : A) → IsTame (f a))
      → IsTameWith id (m >>= f)
  With-bind m f h next = record {
    at = λ c keys new. TameStep-continue (m c).0 f (h.at c keys new) next;
  }

  later_step :
      {A B : Type 0} {c c' : Controller} (r : Result A) (f : A → Exec B)
      → TameStep c c'
      → IsNew id c'.db
      → ((a : A) → IsTameWith id (f a))
      → TameStep c (continue r f c').1
  later_step {c' = c'} (ok a) f first new next =
      TameStep-trans first ((next a).at c' first.keys new)
  later_step (err e) f first new next = first

  pub With-later :
      {A B : Type 0} (m : Exec A) (f : A → Exec B)
      → LeavesWork m
      → ((a : A) → IsTameWith id (f a))
      → IsTameWith id (m >>= f)
  With-later m f h next = record {
    at = λ c keys new.
        later_step (m c).0 f ((IsTame-leaves h).at c keys)
          (ap (λ (w : List LaunchOutbox × List WorkerCall). get outbox_key (id ∷ []) w.0) (h.at c)
            ∙ new)
          next;
  }

  pub With-if :
      {A : Type 0} (b : Bool) (m n : Exec A)
      → IsTameWith id m
      → IsTameWith id n
      → IsTameWith id (if b then m else n)
  With-if true m n p q = p
  With-if false m n p q = q

  pub raise-IsTameWith : {A : Type 0} (e : WaveError) → IsTameWith id (raise {A = A} e)
  raise-IsTameWith e = With-tame (raise e) (IsTame-raise e)

  pub pure-IsTameWith : {A : Type 0} (a : A) → IsTameWith id (pure a)
  pure-IsTameWith a = With-tame (pure a) (IsTame-pure a)
