-- ===== src/Prelude/Outcome.antt =====
-- domain/errors.ts: the errors that the code throws, and computations that may throw. A message that
-- the code tests or that tells two denials apart is a constructor; other wording is left out.
use mathlib.Core.Path.{◌≡◌, refl}
use mathlib.Core.Bool.{Bool, true, false}
use mathlib.Core.Logic.{◌⊎◌, inl, inr}

-- The reasons of `AdmissionDeniedError`.
pub data Denial : Type 0 where
  sticky_cancellation stop_at_passed deadline_passed launches_exceeded : Denial
  tokens_exceeded cost_exceeded lease_held : Denial

-- The codes of `WaveError` and of its subclasses, and `AuthorityBusy` of core/admission.ts.
pub data WaveError : Type 0 where
  duplicate_event stale_revision safety_gate cancelled not_found illegal_transition : WaveError
  illegal_outbox usage_indeterminate budget_open stale_lease lease_holder lease_pid_reuse :
      WaveError
  retries_exceeded bad_manifest bad_limits bad_ticket missing_dependency : WaveError
  dependency_cycle unique_violation authority_busy : WaveError
  admission_denied : Denial → WaveError

-- What a call gives: a value, or the error that it throws.
pub data Result {ℓ} (A : Type ℓ) : Type ℓ where
  err : WaveError → Result A
  ok : A → Result A

-- `if (b) throw e;`
abbrev pub throw_if : Bool → WaveError → Result (Unit {0})
throw_if true e = err e
throw_if false e = ok tt

pub Result-cases {ℓ} :
    {A : Type ℓ} (r : Result A) → ((a : A) × (r ≡ ok a)) ⊎ ((e : WaveError) × (r ≡ err e))
Result-cases (ok a) = inl (a, refl)
Result-cases (err e) = inr (e, refl)

-- An error skips what follows.
infixl 5 ◌>>=◌
abbrev pub ◌>>=◌ {ℓ κ} : {A : Type ℓ} {B : Type κ} → Result A → (A → Result B) → Result B
err e >>= next = err e
ok a >>= next = next a

infixl 5 ◌>>◌
abbrev pub ◌>>◌ {ℓ} : {B : Type ℓ} → Result (Unit {0}) → Result B → Result B
check >> second = check >>= λ done. second
