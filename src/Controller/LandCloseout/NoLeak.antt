-- ===== src/Controller/LandCloseout/NoLeak.antt =====
-- The land lock is not leaked by `finalizeImplLand` (core/land-closeout.ts).
use openclaw_wave_runner.Prelude.{
  ℕ, ◌≡◌, inl, inr, refl, ◌∙◌, Bool, true, false, Option, none, some, if◌then◌else◌, Text, text,
  Bool-cases, Option-cases, Result-cases, Result, ok, err,
}
use openclaw_wave_runner.Domain.{TicketStatus, ticket_eq, WaveRecord, TicketRun, LaunchOutbox}
use openclaw_wave_runner.Store.{get_lease, get_ticket, get_wave}
use openclaw_wave_runner.WriterScope.{land_lock_key}
use openclaw_wave_runner.Controller.Exec.{Env, Controller, Exec, continue, try_finally}
use openclaw_wave_runner.Controller.Context.{require_wave, require_ticket}
use openclaw_wave_runner.Controller.Leases.{truthy}
use openclaw_wave_runner.Controller.Workspace.{
  Workspace, LandResult, Moment, before_lock, under_lock, ApplyResult, durable_ticket_proof_path,
}
use openclaw_wave_runner.Controller.ApplyCloseout.{
  wants_apply, durable_apply, apply_in, apply_worktree, execute_apply_closeout,
}
use openclaw_wave_runner.Controller.LandLock.{
  taken, acquire_exclusive_land_lock, release_exclusive_land_lock,
}
use openclaw_wave_runner.Controller.LandLock.Exclusion.{
  IsHeld, released_nothing, released_later, acquire_exclusive_land_lock-IsHeld,
}
use openclaw_wave_runner.Controller.LandCloseout.{
  release_writer_lease_after_land, record_durable, finish_proven, finish_from_durable_proof,
  land_in, land_worktree, land_under_lock, release_if_settled, leave_lock, land_with,
  finalize_impl_land,
}
use openclaw_wave_runner.Controller.LandCloseout.Locks.{
  KeepsLease, KeepsLease-refl, KeepsLease-trans, KeepsLease-same, KeepsLease-continue,
  KeepsLease-Deletes, release_after-Deletes, fail_land_frame, fail_apply_frame,
  record_commit_land_frame, record_durable_frame, record_apply_outcome_frame,
}

module _ (env : Env) (ws : Workspace) (item : LaunchOutbox) (k : Text) where
  release_after-KeepsLease :
      (c : Controller) → KeepsLease k c (release_writer_lease_after_land env item c).1
  release_after-KeepsLease c = KeepsLease-Deletes k c _ (release_after-Deletes env item c)

  finish_proven-KeepsLease :
      (proof outcome : Text) (c : Controller)
      → KeepsLease k c (finish_proven env ws item proof outcome c).1
  finish_proven-KeepsLease proof outcome c =
      KeepsLease-continue k c (record_durable env ws item proof outcome c).1
        (record_durable env ws item proof outcome c).0 _
        (KeepsLease-same k c _ (record_durable_frame env ws item c proof outcome))
        (λ a fine.
          KeepsLease-continue k (record_durable env ws item proof outcome c).1 _
            (release_writer_lease_after_land env item
              (record_durable env ws item proof outcome c).1).0
            _ (release_after-KeepsLease (record_durable env ws item proof outcome c).1)
            (λ b done. KeepsLease-refl k _))

  finish-KeepsLease :
      (moment : Moment) (wave : WaveRecord) (ticket : TicketRun) (c : Controller)
      → KeepsLease k c (finish_from_durable_proof env ws moment item wave ticket c).1
  unfolding finish_from_durable_proof
  finish-KeepsLease moment wave ticket c = elim (Bool-cases (wants_apply ws wave ticket)) [
    | inl applies ↦
        elim (Bool-cases (
          ws.read_durable_ok moment
            (durable_ticket_proof_path ws wave ticket (text "APPLY.json")))) [
              | inl proven ↦ rw applies (rw proven (finish_proven-KeepsLease _ _ c))
              | inr open_ ↦ rw applies (rw open_ (KeepsLease-refl k _))
            ]
    | inr lands ↦
        elim (Bool-cases (
          ws.read_durable_ok moment
            (durable_ticket_proof_path ws wave ticket (text "LAND.json")))) [
              | inl proven ↦ rw lands (rw proven (finish_proven-KeepsLease _ _ c))
              | inr open_ ↦ rw lands (rw open_ (KeepsLease-refl k _))
            ]
  ]

  apply_in-KeepsLease :
      (wave : WaveRecord) (live : TicketRun) (done_on_ok : Bool) (worktree : Text)
      (adapter : Option (WaveRecord → TicketRun → Text → Result ApplyResult)) (c : Controller)
      → KeepsLease k c (apply_in env ws item wave live done_on_ok worktree adapter c).1
  apply_in-KeepsLease wave live done_on_ok worktree none c =
      KeepsLease-same k c _ (fail_apply_frame env ws item c _)
  apply_in-KeepsLease wave live done_on_ok worktree (some adapter) c =
      elim (Result-cases (adapter wave live worktree)) [
        | inl (applied, answered) ↦
            rw answered
              (KeepsLease-same k c _ (record_apply_outcome_frame env ws item c done_on_ok applied))
        | inr (e, failed) ↦ rw failed (KeepsLease-refl k _)
      ]

  apply_worktree-KeepsLease :
      (wave : WaveRecord) (live : TicketRun) (done_on_ok : Bool) (worktree : Option Text)
      (c : Controller)
      → KeepsLease k c (apply_worktree env ws item wave live done_on_ok worktree c).1
  apply_worktree-KeepsLease wave live done_on_ok none c =
      KeepsLease-same k c _ (fail_apply_frame env ws item c _)
  apply_worktree-KeepsLease wave live done_on_ok (some worktree) c =
      apply_in-KeepsLease wave live done_on_ok worktree ws.apply_to_workdir c

  pub apply-KeepsLease :
      (wave : WaveRecord) (live : TicketRun) (done_on_ok : Bool) (c : Controller)
      → KeepsLease k c (execute_apply_closeout env ws item wave live done_on_ok c).1
  unfolding execute_apply_closeout
  apply-KeepsLease wave live done_on_ok c =
      let path = durable_ticket_proof_path ws wave live (text "APPLY.json") in
      elim (Bool-cases (ws.read_durable_ok under_lock path)) [
        | inl proven ↦ rw proven (
            KeepsLease-same k c _
              (record_apply_outcome_frame env ws item c done_on_ok (durable_apply path)))
        | inr new ↦
            rw new (apply_worktree-KeepsLease wave live done_on_ok (truthy live.impl_worktree) c)
      ]

  land_in-KeepsLease :
      (wave : WaveRecord) (live : TicketRun) (worktree : Text)
      (adapter : Option (WaveRecord → TicketRun → Text → Result LandResult)) (c : Controller)
      → KeepsLease k c (land_in env ws item wave live worktree adapter c).1
  land_in-KeepsLease wave live worktree none c =
      KeepsLease-same k c _ (fail_land_frame env ws item c _)
  land_in-KeepsLease wave live worktree (some adapter) c =
      elim (Result-cases (adapter wave live worktree)) [
        | inl (land, answered) ↦
            rw answered (KeepsLease-same k c _ (record_commit_land_frame env ws item c land))
        | inr (e, failed) ↦ rw failed (KeepsLease-refl k _)
      ]

  land_worktree-KeepsLease :
      (wave : WaveRecord) (live : TicketRun) (worktree : Option Text) (c : Controller)
      → KeepsLease k c (land_worktree env ws item wave live worktree c).1
  land_worktree-KeepsLease wave live none c =
      KeepsLease-same k c _ (fail_land_frame env ws item c _)
  land_worktree-KeepsLease wave live (some worktree) c =
      elim (Bool-cases (wants_apply ws wave live)) [
        | inl applies ↦ rw applies (apply-KeepsLease wave live true c)
        | inr lands ↦ rw lands (land_in-KeepsLease wave live worktree ws.land_to_main c)
      ]

  unless_finished :
      (r : Result Bool) (m : Exec (Unit {0})) (c c' : Controller)
      → KeepsLease k c c'
      → KeepsLease k c' (m c').1
      → KeepsLease k c (continue r (λ finished. if finished then (λ d. (ok tt, d)) else m) c').1
  unless_finished (ok true) m c c' p q = p
  unless_finished (ok false) m c c' p q = KeepsLease-trans k c c' _ p q
  unless_finished (err e) m c c' p q = p

  -- whatever the body does under the lock, it does not write the lock's lease
  land_under_lock-KeepsLease :
      (wave : WaveRecord) (c : Controller) → KeepsLease k c (land_under_lock env ws item wave c).1
  unfolding land_under_lock require_ticket
  land_under_lock-KeepsLease wave c =
      elim (Option-cases (get_ticket item.wave_id item.ticket_id c.db)) [
        | inl missing ↦ rw missing (KeepsLease-refl k c)
        | inr (live, there) ↦ elim (Bool-cases (ticket_eq live.status TicketStatus.done)) [
          | inl done ↦ rw there (rw done (KeepsLease-refl k c))
          | inr working ↦ rw there (
              rw working (
                unless_finished (finish_from_durable_proof env ws under_lock item wave live c).0 _ c
                  (finish_from_durable_proof env ws under_lock item wave live c).1
                  (finish-KeepsLease under_lock wave live c)
                  (land_worktree-KeepsLease wave live (truthy live.impl_worktree) _)))
        ]
      ]

  release_if_settled-KeepsLease :
      (after : Option TicketRun) (c : Controller)
      → KeepsLease k c (release_if_settled env item after c).1
  release_if_settled-KeepsLease none c = KeepsLease-refl k c
  release_if_settled-KeepsLease (some after) c =
      elim (Bool-cases (ticket_eq after.status TicketStatus.verifying)) [
        | inl verifying ↦ rw verifying (KeepsLease-refl k c)
        | inr settled ↦ rw settled (release_after-KeepsLease c)
      ]

-- where the action ends, whether it threw or not
finally_state :
    {A : Type 0} (m : Exec A) (cleanup : Exec (Unit {0})) (c : Controller)
    → (try_finally m cleanup c).1 ≡ (cleanup (m c).1).1
unfolding try_finally
finally_state m cleanup c = elim (Result-cases (cleanup (m c).1).0) [
  | inl (a, fine) ↦ rw fine refl
  | inr (e, failed) ↦ rw failed refl
]

module _ (env : Env) (ws : Workspace) (item : LaunchOutbox) (wave : WaveRecord) (generation : ℕ)
    (c : Controller) (held : IsHeld env wave item.ticket_id generation c) where
  abbrev key : Text
  key = land_lock_key wave.repo_path

  freed :
      (d : Controller)
      → KeepsLease key c d
      → get_lease key (release_exclusive_land_lock env wave item.ticket_id generation d).1.db ≡ none
  freed d kept = elim kept.lease [
    | inl gone ↦ released_nothing env wave item.ticket_id generation d gone
    | inr same ↦ released_later env wave item.ticket_id generation c d held same
  ]

  leave_lock-KeepsLease :
      (d : Controller)
      → KeepsLease key
          (release_exclusive_land_lock env wave item.ticket_id generation d).1
          (leave_lock env item wave generation d).1
  unfolding leave_lock
  leave_lock-KeepsLease d =
      KeepsLease-continue key (release_exclusive_land_lock env wave item.ticket_id generation d).1
        (release_exclusive_land_lock env wave item.ticket_id generation d).1
        (release_exclusive_land_lock env wave item.ticket_id generation d).0 _
        (KeepsLease-refl key _)
        (λ a done.
          release_if_settled-KeepsLease env ws item key
            (get_ticket item.wave_id item.ticket_id
              (release_exclusive_land_lock env wave item.ticket_id generation d).1.db)
            (release_exclusive_land_lock env wave item.ticket_id generation d).1)

  still_free :
      (d d' : Controller)
      → KeepsLease key d d'
      → get_lease key d.db ≡ none
      → get_lease key d'.db ≡ none
  still_free d d' kept free = elim kept.lease [ inl gone ↦ gone | inr same ↦ same ∙ free ]

  land_taken-free : get_lease key (land_with env ws item wave (taken generation) c).1.db ≡ none
  land_taken-free =
      rw (finally_state (land_under_lock env ws item wave) (leave_lock env item wave generation) c)
        (still_free (release_exclusive_land_lock env wave item.ticket_id generation body).1 _
          (leave_lock-KeepsLease body)
          (freed body (land_under_lock-KeepsLease env ws item key wave c)))
    where
      body : Controller
      body = (land_under_lock env ws item wave c).1

module _ (env : Env) (ws : Workspace) (item : LaunchOutbox) (wave : WaveRecord) where
  -- the acquisition and what follows it
  lock_and_land-KeepsLease :
      (c : Controller)
      → let got = acquire_exclusive_land_lock env wave item.ticket_id c in
        KeepsLease
          (land_lock_key wave.repo_path)
          c
          (continue got.0 (land_with env ws item wave) got.1).1
  lock_and_land-KeepsLease c = elim (acquire_exclusive_land_lock-IsHeld env wave item.ticket_id c) [
    | inl same ↦ rw same (KeepsLease-refl _ c)
    | inr (generation, answered, held) ↦
        rw answered (record { lease = inl (land_taken-free env ws item wave generation _ held) })
  ]

  -- Whether `finalizeImplLand` returns or throws, and whatever the workspace answers, it leaves no land
  -- lock of its own behind: the lease of the repository's land lock is gone, or is what it was before.
  pub finalize_impl_land-KeepsLease :
      (c : Controller)
      → get_wave item.wave_id c.db ≡ some wave
      → KeepsLease (land_lock_key wave.repo_path) c (finalize_impl_land env ws item c).1
  unfolding finalize_impl_land require_wave require_ticket
  finalize_impl_land-KeepsLease c there =
      rw there (elim (Option-cases (get_ticket item.wave_id item.ticket_id c.db)) [
        | inl missing ↦ rw missing (KeepsLease-refl _ c)
        | inr (ticket, found) ↦ elim (Bool-cases (ticket_eq ticket.status TicketStatus.done)) [
          | inl done ↦ rw found (rw done (KeepsLease-refl _ c))
          | inr working ↦ rw found (
              rw working (
                unless_finished env ws item (land_lock_key wave.repo_path)
                  (finish_from_durable_proof env ws before_lock item wave ticket c).0 _ c
                  (finish_from_durable_proof env ws before_lock item wave ticket c).1
                  (finish-KeepsLease env ws item (land_lock_key wave.repo_path) before_lock wave
                    ticket c)
                  (lock_and_land-KeepsLease _)))
        ]
      ])
