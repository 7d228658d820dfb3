-- ===== src/Controller/LandCloseout/Locks.antt =====
-- What the steps of a closeout do to the leases (core/land-closeout.ts, core/apply-closeout.ts): they
-- leave them alone, or delete one.
use openclaw_wave_runner.Prelude.{
  ◌≡◌, ◌⊎◌, inl, inr, refl, ◌∙◌, Bool, Option, none, some, [], ◌∷◌, Text, Bool-cases, Option-cases,
  Result-cases, Result, ok, err, arith,
}
use openclaw_wave_runner.Domain.{WaveRecord, TicketRun, LaunchOutbox, LeaseRecord}
use openclaw_wave_runner.Store.{
  lease_key, get_lease, delete_lease, get_ticket, get_wave, put_ticket, put_artifact, put_wave,
}
use openclaw_wave_runner.Lease.{release_lease}
use openclaw_wave_runner.WriterScope.{writer_lease_key}
use openclaw_wave_runner.Store.Table.{key_eq, remove}
use openclaw_wave_runner.Store.Rows.{get-remove}
use openclaw_wave_runner.Controller.Exec.{Env, Controller, Exec, continue}
use openclaw_wave_runner.Controller.Leases.{
  authority_release, release_authority_for_lease, we_hold, try_release, release_found,
  is_impl_active, other_ticket, truthy, ticket_scope, release_writer_lease_if_held,
}
use openclaw_wave_runner.Controller.Workspace.{Workspace, LandResult, ApplyResult}
use openclaw_wave_runner.Controller.ApplyCloseout.{fail_apply, record_apply_outcome}
use openclaw_wave_runner.Controller.LandCloseout.{
  fail_land, release_writer_lease_after_land, record_commit_land, record_durable,
}

-- The lease of a key is gone, or as it was.
pub record KeepsLease (k : Text) (c c' : Controller) : Type 0 where
  pub lease : (get_lease k c'.db ≡ none) ⊎ (get_lease k c'.db ≡ get_lease k c.db)

pub KeepsLease-refl : (k : Text) (c : Controller) → KeepsLease k c c
KeepsLease-refl k c = record { lease = inr refl }

gone_or_same :
    {A : Type 0} {x y z : Option A}
    → (y ≡ none) ⊎ (y ≡ x)
    → (z ≡ none) ⊎ (z ≡ y)
    → (z ≡ none) ⊎ (z ≡ x)
gone_or_same p (inl gone) = inl gone
gone_or_same (inl gone) (inr same) = inl (same ∙ gone)
gone_or_same (inr same') (inr same) = inr (same ∙ same')

pub KeepsLease-trans :
    (k : Text) (a b c : Controller) → KeepsLease k a b → KeepsLease k b c → KeepsLease k a c
KeepsLease-trans k a b c p q = record { lease = gone_or_same p.lease q.lease }

pub KeepsLease-same :
    (k : Text) (c c' : Controller) → c'.db.leases ≡ c.db.leases → KeepsLease k c c'
unfolding get_lease
KeepsLease-same k c c' e = record { lease = inr (rw e refl) }

pub KeepsLease-continue :
    {A B : Type 0} (k : Text) (c c' : Controller) (r : Result A) (f : A → Exec B)
    → KeepsLease k c c'
    → ((a : A) → r ≡ ok a → KeepsLease k c' (f a c').1)
    → KeepsLease k c (continue r f c').1
KeepsLease-continue k c c' (ok a) f q next = KeepsLease-trans k c c' (f a c').1 q (next a refl)
KeepsLease-continue k c c' (err e) f q next = q

module _ (env : Env) (ws : Workspace) (item : LaunchOutbox) (c : Controller) where
  pub fail_land_frame :
      (reason : Text) → (fail_land item.wave_id item.ticket_id reason c).1.db.leases ≡ c.db.leases
  unfolding fail_land put_ticket put_wave
  fail_land_frame reason = ground arith

  pub fail_apply_frame :
      (reason : Text) → (fail_apply item.wave_id item.ticket_id reason c).1.db.leases ≡ c.db.leases
  unfolding fail_apply put_ticket put_wave
  fail_apply_frame reason = ground arith

  pub record_commit_land_frame :
      (land : LandResult)
      → (record_commit_land env ws item.wave_id item.ticket_id land c).1.db.leases ≡ c.db.leases
  unfolding record_commit_land put_ticket put_wave put_artifact
  record_commit_land_frame land = ground arith

  pub record_durable_frame :
      (proof outcome : Text)
      → (record_durable env ws item proof outcome c).1.db.leases ≡ c.db.leases
  unfolding record_durable put_ticket put_wave put_artifact
  record_durable_frame proof outcome = ground arith

  pub record_apply_outcome_frame :
      (done_on_ok : Bool) (applied : ApplyResult)
      → (record_apply_outcome env ws item done_on_ok applied c).1.db.leases ≡ c.db.leases
  unfolding record_apply_outcome put_ticket put_wave put_artifact
  record_apply_outcome_frame done_on_ok applied = ground arith

-- The leases are as they were, or one of them is gone.
abbrev pub Deletes : Controller → Controller → Type 0
Deletes c c' =
    (c'.db.leases ≡ c.db.leases)
    ⊎ ((j : Text) × (c'.db.leases ≡ remove lease_key (j ∷ []) c.db.leases))

pub KeepsLease-Deletes : (k : Text) (c c' : Controller) → Deletes c c' → KeepsLease k c c'
unfolding get_lease
KeepsLease-Deletes k c c' (inl same) = record { lease = inr (rw same refl) }
KeepsLease-Deletes k c c' (inr (j, gone)) = elim (Bool-cases (key_eq (j ∷ []) (k ∷ []))) [
  | inl hit ↦ record {
    lease = inl (rw gone (rw (get-remove lease_key (k ∷ []) (j ∷ []) c.db.leases) (rw hit refl)));
  }
  | inr miss ↦ record {
    lease = inr (rw gone (rw (get-remove lease_key (k ∷ []) (j ∷ []) c.db.leases) (rw miss refl)));
  }
]

authority_frame :
    (lease : LeaseRecord) (c : Controller)
    → ((release_authority_for_lease lease c).0 ≡ ok tt)
      × ((release_authority_for_lease lease c).1.db ≡ c.db)
unfolding release_authority_for_lease authority_release
authority_frame lease c = ground arith

try_release-Deletes :
    (env : Env) (lease : LeaseRecord) (c : Controller) → Deletes c (try_release env lease c).1
unfolding try_release delete_lease
try_release-Deletes env lease c =
    let frame = authority_frame lease c in
    elim (Bool-cases (we_hold env lease)) [
      | inr theirs ↦ inl (rw theirs refl)
      | inl ours ↦ elim (Result-cases (release_lease lease env.process lease.generation)) [
        | inl (a, fine) ↦
            inr (lease.resource_key, rw ours (rw (frame.0) (rw fine (rw (frame.1) refl))))
        | inr (e, failed) ↦ inl (rw ours (rw (frame.0) (rw failed (rw (frame.1) refl))))
      ]
    ]

release_found-Deletes :
    (env : Env) (ticket : TicketRun) (lease : Option LeaseRecord) (c : Controller)
    → Deletes c (release_found env ticket lease c).1
release_found-Deletes env ticket none c = inl refl
release_found-Deletes env ticket (some lease) c =
    let tried = try_release-Deletes env lease c in
    elim (Bool-cases (other_ticket (truthy lease.ticket_id) ticket.ticket_id)) [
      | inl other ↦ inl (rw other refl)
      | inr ours ↦ elim (Result-cases (try_release env lease c).0) [
        | inl (a, fine) ↦ rw ours (rw fine tried)
        | inr (e, failed) ↦ rw ours (rw failed tried)
      ]
    ]

release_held-Deletes :
    (env : Env) (wave : WaveRecord) (ticket : TicketRun) (c : Controller)
    → Deletes c (release_writer_lease_if_held env wave ticket c).1
unfolding release_writer_lease_if_held
release_held-Deletes env wave ticket c = elim (Bool-cases (is_impl_active ticket.status)) [
  | inl active ↦ inl (rw active refl)
  | inr idle ↦ rw idle (
      release_found-Deletes env ticket
        (get_lease (writer_lease_key wave.repo_path (ticket_scope ticket)) c.db) c)
]

pub release_after-Deletes :
    (env : Env) (item : LaunchOutbox) (c : Controller)
    → Deletes c (release_writer_lease_after_land env item c).1
unfolding release_writer_lease_after_land
release_after-Deletes env item c =
    elim (Option-cases (get_ticket item.wave_id item.ticket_id c.db)) [
      | inl missing ↦ inl (rw missing refl)
      | inr (ticket, there) ↦ elim (Option-cases (get_wave item.wave_id c.db)) [
        | inl missing ↦ inl (rw there (rw missing refl))
        | inr (wave, found) ↦ rw there (rw found (release_held-Deletes env wave ticket c))
      ]
    ]
