-- ===== src/Controller/Exec.antt =====
-- The controller's state, and actions that may throw. What an action wrote before it threw stays
-- written, unless it ran in a transaction of the ledger (`transaction` of store/database.ts), which
-- rolls back the tables and nothing else. `calls` keeps the calls of the worker, which nothing takes back.
use openclaw_wave_runner.Prelude.{
  ℕ, Option, Bool, true, false, List, [], ◌∷◌, Text, WaveError, Result, ok, err,
}
use openclaw_wave_runner.Domain.Worker.{WorkerCall}
use openclaw_wave_runner.Lease.{Signal, ProcessIdentity}
use openclaw_wave_runner.Authority.{AuthorityLockRecord}
use openclaw_wave_runner.Store.{WaveDatabase}

-- What an event carries; `JSON.stringify` is the environment's.
pub data Payload : Type 0 where
  nothing : Payload
  approval : Text → ℕ → Payload
  revision : Text → Payload
  plan_review_launch : Text → ℕ → ℕ → Text → Payload  -- ticket, revision, plan attempt, forge
  ux_review_launch : Text → ℕ → ℕ → Text → Payload  -- ticket, revision, plan attempt, mona
  plan_review_revise : Text → ℕ → Payload
  ux_review_revise : Text → Payload
  plan_review_admit : Text → ℕ → Bool → Payload
  leftover_admit : Text → ℕ → Payload
  ux_review_admit : Text → ℕ → Payload
  plan_gate_auto : Text → Text → Option Text → ℕ → Text → Payload

-- The read-only part of `ControllerContext`. The clock stands still during one call.
pub record Env : Type 0 where
  pub now : ℕ
  pub process : ProcessIdentity
  pub lease_ttl_ms : ℕ
  pub acp_slots_max : Option ℕ
  pub count_live_provider : Option (Text → ℕ)
  pub kill : ℕ → Signal
  pub stringify : Payload → Text

pub record Controller : Type 0 where
  pub db : WaveDatabase
  pub locks : List AuthorityLockRecord
  pub watchdog_fires : ℕ
  pub calls : List WorkerCall  -- those of the worker so far, the last one first

abbrev pub Exec : Type 0 → Type 0
Exec A = Controller → Result A × Controller

abbrev pub continue : {A B : Type 0} → Result A → (A → Exec B) → Exec B
continue (ok a) f c = f a c
continue (err e) f c = (err e, c)

infixl 5 ◌>>=◌ ◌>>◌
abbrev pub ◌>>=◌ : {A B : Type 0} → Exec A → (A → Exec B) → Exec B
◌>>=◌ m f c = let (r, c') = m c in continue r f c'

abbrev pub ◌>>◌ : {B : Type 0} → Exec (Unit {0}) → Exec B → Exec B
m >> k = m >>= λ _. k

abbrev pub pure : {A : Type 0} → A → Exec A
pure a c = (ok a, c)

abbrev pub raise : {A : Type 0} → WaveError → Exec A
raise e c = (err e, c)

abbrev pub lift : {A : Type 0} → Result A → Exec A
lift r c = (r, c)

-- a read of the ledger
abbrev pub query : {A : Type 0} → (WaveDatabase → A) → Exec A
query f c = (ok (f c.db), c)

-- a write to the ledger
abbrev pub modify : (WaveDatabase → WaveDatabase) → Exec (Unit {0})
modify f c = (ok tt, record c { db = f c.db })

abbrev written : Controller → Result WaveDatabase → Result (Unit {0}) × Controller
written c (ok db) = (ok tt, record c { db = db })
written c (err e) = (err e, c)

-- a write to the ledger that a constraint may refuse
abbrev pub try_modify : (WaveDatabase → Result WaveDatabase) → Exec (Unit {0})
try_modify f c = written c (f c.db)

abbrev pub when : Bool → Exec (Unit {0}) → Exec (Unit {0})
when true m = m
when false m = pure tt

abbrev pub rolled_back : {A : Type 0} → WaveDatabase → Result A → Controller → Result A × Controller
rolled_back db (ok a) c = (ok a, c)
rolled_back db (err e) c = (err e, record c { db = db })

-- `WaveDatabase.transaction`: BEGIN IMMEDIATE, then COMMIT, or ROLLBACK and throw again
unfoldable pub transaction : {A : Type 0} → Exec A → Exec A
transaction m c = let (r, c') = m c in rolled_back c.db r c'

-- `for (const x of xs) body(x)`
abbrev pub for_each : {A : Type 0} → List A → (A → Exec (Unit {0})) → Exec (Unit {0})
for_each [] body = pure tt
for_each (x ∷ xs) body = body x >> for_each xs body

abbrev finally_with :
    {A : Type 0} → Result A → Result (Unit {0}) × Controller → Result A × Controller
finally_with r (ok _, c) = (r, c)
finally_with r (err e, c) = (err e, c)

-- `try { m } finally { cleanup }`: an error of the cleanup takes the place of the result
unfoldable pub try_finally : {A : Type 0} → Exec A → Exec (Unit {0}) → Exec A
try_finally m cleanup c = let (r, c') = m c in finally_with r (cleanup c')
