-- ===== src/Controller/Tame.antt =====
-- Actions that ask the worker for no launch and send no row of the outbox back to pending, whatever else
-- they write: one rule for each way to build an action (core/*.ts).
pub mod Closeouts
pub mod Waves
pub mod Rows
pub mod Admission
pub mod Reviews
pub mod Settlements
pub mod Workers
pub mod Commands
use openclaw_wave_runner.Prelude.{
  ◌≡◌, ◌≤◌, refl, sym, ap, ◌∙◌, inl, inr, Bool, true, false, Option, none, some, List, [], ◌∷◌,
  if◌then◌else◌, Text, WaveError, Result, ok, err, Result-cases, arith,
}
use mathlib.Core.Path.{subst}
use openclaw_wave_runner.Domain.{WaveRecord, TicketRun, LaunchOutbox}
use openclaw_wave_runner.Domain.Worker.{WorkerCall}
use openclaw_wave_runner.Store.{WaveDatabase, get_outbox_by_idempotency, put_ticket, put_wave}
use openclaw_wave_runner.Store.Outbox.{IsKeyedOutbox, outbox_keys}
use openclaw_wave_runner.Controller.Exec.{
  Controller, Exec, continue, ◌>>=◌, ◌>>◌, pure, raise, lift, query, modify, when, transaction,
  for_each, try_finally,
}
use openclaw_wave_runner.Controller.Context.{require_wave, require_ticket, refresh_counters}
use openclaw_wave_runner.Controller.Quiet.{
  Distinct, launches, launched_keys, started, IsQuiet, IsQuiet-same,
}
use openclaw_wave_runner.Controller.Launcher.{KeysGrow, KeysGrow-same, KeysGrow-trans}

-- the part of a controller that these rules are about
abbrev pub work : Controller → List LaunchOutbox × List WorkerCall
work c = (c.db.outbox, c.calls)

-- An action that leaves the outbox and the calls of the worker alone, whether it throws or not.
pub record LeavesWork {A : Type 0} (m : Exec A) : Type 0 where
  pub at : (c : Controller) → work (m c).1 ≡ work c

-- The rows of the outbox have distinct ids and keys.
pub record IsKeyedWork (db : WaveDatabase) : Type 0 where
  pub keyed : IsKeyedOutbox db
  pub distinct : Distinct (outbox_keys db)

-- From one controller to the other no launch was asked for, no row went back to pending or was lost, and
-- rows were added under new ids and keys only.
pub record TameStep (c c' : Controller) : Type 0 where
  pub keys : IsKeyedWork c'.db
  pub launched : (k : Text) → launches k c'.calls ≡ launches k c.calls
  pub mono : (k : Text) → started k c.db ≤ started k c'.db
  pub rows : KeysGrow (outbox_keys c.db) (outbox_keys c'.db)
  pub same_log : launched_keys c'.calls ≡ launched_keys c.calls

-- An action that takes such a step, whether it throws or not.
pub record IsTame {A : Type 0} (m : Exec A) : Type 0 where
  pub at : (c : Controller) → IsKeyedWork c.db → TameStep c (m c).1

pub TameStep-refl : (c : Controller) → IsKeyedWork c.db → TameStep c c
TameStep-refl c keys = record {
  keys = keys;
  launched = λ k. refl;
  mono = λ k. omega arith;
  rows = KeysGrow-same refl;
  same_log = refl;
}

pub TameStep-trans : {a b c : Controller} → TameStep a b → TameStep b c → TameStep a c
TameStep-trans p q = record {
  keys = q.keys;
  launched = λ k. q.launched k ∙ p.launched k;
  mono = λ k. omega (arith, p.mono k, q.mono k);
  rows = KeysGrow-trans p.rows q.rows;
  same_log = q.same_log ∙ p.same_log;
}

pub IsQuiet-TameStep : {c c' : Controller} → IsKeyedWork c.db → IsQuiet c c' → TameStep c c'
IsQuiet-TameStep keys q = record {
  keys = record { keyed = q.keyed; distinct = subst Distinct (sym q.same_keys) keys.distinct };
  launched = q.launched;
  mono = q.mono;
  rows = KeysGrow-same q.same_keys;
  same_log = q.same_log;
}

pub IsTame-quiet :
    {A : Type 0} {m : Exec A}
    → ((c : Controller) → IsKeyedOutbox c.db → IsQuiet c (m c).1)
    → IsTame m
IsTame-quiet h = record { at = λ c keys. IsQuiet-TameStep keys (h c keys.keyed) }

pub IsTame-leaves : {A : Type 0} {m : Exec A} → LeavesWork m → IsTame m
IsTame-leaves {m = m} h =
    IsTame-quiet (λ c keyed. IsQuiet-same c (m c).1 keyed (λ i. (h.at c i).0) (λ i. (h.at c i).1))

module _ {A : Type 0} where
  pub IsTame-pure : (a : A) → IsTame (pure a)
  IsTame-pure a = record { at = λ c keys. TameStep-refl c keys }

  pub IsTame-raise : (e : WaveError) → IsTame (raise {A = A} e)
  IsTame-raise e = record { at = λ c keys. TameStep-refl c keys }

  pub IsTame-lift : (r : Result A) → IsTame (lift r)
  IsTame-lift r = record { at = λ c keys. TameStep-refl c keys }

  pub IsTame-query : (f : WaveDatabase → A) → IsTame (query f)
  IsTame-query f = record { at = λ c keys. TameStep-refl c keys }

  pub IsTame-if : (b : Bool) (m n : Exec A) → IsTame m → IsTame n → IsTame (if b then m else n)
  IsTame-if true m n p q = p
  IsTame-if false m n p q = q

  pub IsTame-transaction : (m : Exec A) → IsTame m → IsTame (transaction m)
  unfolding transaction
  IsTame-transaction m h = record {
    at = λ c keys. elim (Result-cases (m c).0) [
      | inl (a, fine) ↦ rw fine (h.at c keys)
      | inr (e, failed) ↦ rw failed (record {
        keys = keys;
        launched = (h.at c keys).launched;
        mono = λ k. omega arith;
        rows = KeysGrow-same refl;
        same_log = (h.at c keys).same_log;
      })
    ];
  }

pub TameStep-continue :
    {A B : Type 0} {c c' : Controller} (r : Result A) (f : A → Exec B)
    → TameStep c c'
    → ((a : A) → IsTame (f a))
    → TameStep c (continue r f c').1
TameStep-continue {c' = c'} (ok a) f first next = TameStep-trans first ((next a).at c' first.keys)
TameStep-continue (err e) f first next = first

pub IsTame-bind :
    {A B : Type 0} (m : Exec A) (f : A → Exec B)
    → IsTame m
    → ((a : A) → IsTame (f a))
    → IsTame (m >>= f)
IsTame-bind m f h next = record { at = λ c keys. TameStep-continue (m c).0 f (h.at c keys) next }

pub IsTame-then :
    {B : Type 0} (m : Exec (Unit {0})) (n : Exec B) → IsTame m → IsTame n → IsTame (m >> n)
IsTame-then m n h next = IsTame-bind m (λ _. n) h (λ _. next)

pub IsTame-when : (b : Bool) (m : Exec (Unit {0})) → IsTame m → IsTame (when b m)
IsTame-when true m h = h
IsTame-when false m h = IsTame-pure tt

pub IsTame-for_each :
    {A : Type 0} (xs : List A) (body : A → Exec (Unit {0}))
    → ((x : A) → IsTame (body x))
    → IsTame (for_each xs body)
IsTame-for_each [] body h = IsTame-pure tt
IsTame-for_each (x ∷ xs) body h =
    IsTame-then (body x) (for_each xs body) (h x) (IsTame-for_each xs body h)

pub IsTame-try_finally :
    {A : Type 0} (m : Exec A) (cleanup : Exec (Unit {0}))
    → IsTame m
    → IsTame cleanup
    → IsTame (try_finally m cleanup)
unfolding try_finally
IsTame-try_finally m cleanup h k = record {
  at = λ c keys.
      let first = h.at c keys in
      let last = TameStep-trans first (k.at (m c).1 first.keys) in
      elim (Result-cases (cleanup (m c).1).0) [
        | inl (a, fine) ↦ rw fine last
        | inr (e, failed) ↦ rw failed last
      ];
}

pub require_wave-IsTame : (wave_id : Text) → IsTame (require_wave wave_id)
unfolding require_wave
require_wave-IsTame wave_id = IsTame-leaves (record { at = λ c. refl })

pub require_ticket-IsTame : (wave_id ticket_id : Text) → IsTame (require_ticket wave_id ticket_id)
unfolding require_ticket
require_ticket-IsTame wave_id ticket_id = IsTame-leaves (record { at = λ c. refl })

pub refresh_counters-IsTame : (wave_id : Text) → IsTame (refresh_counters wave_id)
unfolding refresh_counters put_wave
refresh_counters-IsTame wave_id = IsTame-leaves (record { at = λ c. ground arith })

-- writes to tables other than the outbox
pub put_ticket-IsTame : (ticket : TicketRun) → IsTame (modify (put_ticket ticket))
unfolding put_ticket
put_ticket-IsTame ticket = IsTame-leaves (record { at = λ c. refl })

pub put_wave-IsTame : (wave : WaveRecord) → IsTame (modify (put_wave wave))
unfolding put_wave
put_wave-IsTame wave = IsTame-leaves (record { at = λ c. refl })

pub ruleset tame_rules = (
  IsTame-pure, IsTame-raise, IsTame-lift, IsTame-query, IsTame-if, IsTame-when, IsTame-transaction,
  IsTame-for_each, IsTame-try_finally, require_wave-IsTame, require_ticket-IsTame,
  refresh_counters-IsTame, put_ticket-IsTame, put_wave-IsTame, IsTame-then, IsTame-bind,
)
