-- ===== src/Controller/Frames.antt =====
-- What the lease actions of core/lease-release.ts leave alone: every table but the leases.
use openclaw_wave_runner.Prelude.{Result-cases, inl, inr, ◌≡◌, List, [], ◌∷◌, Text, ok, arith}
use openclaw_wave_runner.Domain.{LeaseRecord}
use openclaw_wave_runner.Store.{WaveDatabase, delete_lease}
use openclaw_wave_runner.Controller.Exec.{◌>>=◌, Env, Controller, Exec, for_each}
use openclaw_wave_runner.Controller.Recovery.{release_inactive, release_inactive_writer_leases}

-- Two ledgers differ in their leases at most.
pub record SameButLeases (a b : WaveDatabase) : Type 0 where
  pub waves : a.waves ≡ b.waves
  pub tickets : a.tickets ≡ b.tickets
  pub stages : a.stages ≡ b.stages
  pub budgets : a.budgets ≡ b.budgets
  pub outbox : a.outbox ≡ b.outbox
  pub events : a.events ≡ b.events

-- what a successful action leaves, by what its second part leaves
pub bind-Leaves :
    {A B : Type 0} (P : Controller → Type 0) (m : Exec A) (f : A → Exec B) (c : Controller) {b : B}
    → ((m >>= f) c).0 ≡ ok b
    → ((a : A) → (m c).0 ≡ ok a → (f a (m c).1).0 ≡ ok b → P (f a (m c).1).1)
    → P ((m >>= f) c).1
bind-Leaves P m f c h next = elim (Result-cases (m c).0) [
  | inl (a, fine) ↦ rw fine (next a fine (rw fine at h))
  | inr (e, failed) ↦ absurd (ground (arith, failed, h))
]

-- what follows an action that changes nothing
pub stay-bind :
    {A B : Type 0} (m : Exec A) (f : A → Exec B) (c : Controller)
    → (m c).1 ≡ c
    → ((a : A) → (f a c).1 ≡ c)
    → ((m >>= f) c).1 ≡ c
stay-bind m f c same next = elim (Result-cases (m c).0) [
  | inl (a, fine) ↦ rw fine (rw same (next a))
  | inr (e, failed) ↦ rw failed same
]

-- An action that never throws and writes to the leases and the locks only.
pub record TouchesLeases (m : Exec (Unit {0})) : Type 0 where
  pub at : (c : Controller) → ((m c).0 ≡ ok tt) × SameButLeases c.db (m c).1.db

release_inactive-TouchesLeases :
    (env : Env) (wave_id : Text) (lease : LeaseRecord)
    → TouchesLeases (release_inactive env wave_id lease)
unfolding release_inactive delete_lease
release_inactive-TouchesLeases env wave_id lease = record { at = λ c. ground arith }

for_each-TouchesLeases :
    (leases : List LeaseRecord) (body : LeaseRecord → Exec (Unit {0}))
    → ((lease : LeaseRecord) → TouchesLeases (body lease))
    → TouchesLeases (for_each leases body)
for_each-TouchesLeases [] body h = record { at = λ c. ground arith }
for_each-TouchesLeases (lease ∷ leases) body h = record {
  at = λ c.
      let first = (h lease).at c in
      let rest = (for_each-TouchesLeases leases body h).at (body lease c).1 in ground arith;
}

-- The sweep of inactive leases never throws, and changes no table but the leases.
pub release_inactive_writer_leases-TouchesLeases :
    (env : Env) (wave_id : Text) → TouchesLeases (release_inactive_writer_leases env wave_id)
unfolding release_inactive_writer_leases
release_inactive_writer_leases-TouchesLeases env wave_id = record {
  at = λ c.
      (for_each-TouchesLeases _ (release_inactive env wave_id)
          (release_inactive-TouchesLeases env wave_id)).at
        c;
}
