-- ===== src/Controller/Admission/Outcomes.antt =====
-- The outcomes of `queueStage` (core/admission.ts): its transaction is committed, or the ledger stays. What
-- the transaction writes is in Written.
use openclaw_wave_runner.Prelude.{
  ℕ, ◌+◌, ◌-◌, ◌≤◌, ◌≡◌, ◌⊎◌, inl, inr, refl, ap, ◌∙◌, true, false, Option, none, some, is_some,
  get_or, ltb, Text, Result, ok, err, arith, WaveError, Option-cases, Result-cases, Bool-cases,
  text,
}
use openclaw_wave_runner.Domain.{TicketRun, WaveRecord, WaveLimits, StageName}
use openclaw_wave_runner.StagePaths.{idempotency_key}
use openclaw_wave_runner.Store.{get_wave, get_ticket, get_outbox_by_idempotency}
use openclaw_wave_runner.Controller.Exec.{Env, Controller, ◌>>◌}
use openclaw_wave_runner.Controller.Leases.{authority_release}
use openclaw_wave_runner.Controller.Rows.{FreshIds, write_rows}
use openclaw_wave_runner.Controller.Admission.{
  admit_stage, reserve_stage, queue_stage, give_back, swallow_busy, attempt_of, slots_taken,
}

caught :
    (auth : Option Text) (wave_id ticket_id : Text) (e : WaveError) (c : Controller)
    → ((give_back auth wave_id ticket_id >> swallow_busy e) c).1.db ≡ c.db
unfolding authority_release
caught auth wave_id ticket_id e c = ground arith

swallowed : (e : WaveError) (c : Controller) → (swallow_busy e c).1.db ≡ c.db
swallowed e c = ground arith

module _ (env : Env) (ids : FreshIds) (limits : WaveLimits) (ticket : TicketRun)
    (wave_id ticket_id : Text) (stage : StageName) (attempt : ℕ) (c : Controller) where
  -- The transaction was committed: both of its parts went through.
  pub record IsReserved : Type 0 where
    pub live : WaveRecord
    pub auth : Option Text
    pub admitted : (admit_stage env limits ticket wave_id ticket_id stage c).0 ≡ ok (live, auth)
    pub rows :
        (write_rows env ids live limits ticket wave_id ticket_id stage attempt
          (admit_stage env limits ticket wave_id ticket_id stage c).1).0
        ≡ ok tt
    pub committed : reserve_stage env ids limits ticket wave_id ticket_id stage attempt c ≡ (
      ok tt,
      (write_rows env ids live limits ticket wave_id ticket_id stage attempt
          (admit_stage env limits ticket wave_id ticket_id stage c).1).1,
    )

  pub reserve_stage-outcomes :
      IsReserved
      ⊎ ((reserve_stage env ids limits ticket wave_id ticket_id stage attempt c).1.db ≡ c.db)
  unfolding reserve_stage
  reserve_stage-outcomes =
      let first = admit_stage env limits ticket wave_id ticket_id stage c in
      elim (Result-cases first.0) [
        | inl ((live, auth), fine) ↦
            let rows =
              write_rows env ids live limits ticket wave_id ticket_id stage attempt first.1 in
            elim (Result-cases rows.0) [
              | inl (_, done) ↦ inl (record {
                live = live;
                auth = auth;
                admitted = fine;
                rows = done;
                committed = rw fine (rw done refl);
              })
              | inr (e, failed) ↦ inr (
                  rw fine
                    (rw failed (caught auth wave_id ticket_id e (record rows.1 { db = c.db }))))
            ]
        | inr (e, failed) ↦ inr (rw failed (swallowed e (record first.1 { db = c.db })))
      ]

module _ (env : Env) (ids : FreshIds) (wave_id ticket_id : Text) (stage : StageName)
    (c : Controller) where
  -- A stage was queued: what the guards before the transaction saw, and the transaction.
  pub record IsQueued : Type 0 where
    pub wave : WaveRecord
    pub ticket : TicketRun
    pub wave_found : get_wave wave_id c.db ≡ some wave
    pub ticket_found : get_ticket wave_id ticket_id c.db ≡ some ticket
    pub not_cancelled : wave.cancel_requested ≡ false
    pub retries_left :
        attempt_of wave_id ticket_id stage c.db ≤ wave.limits.max_retries_per_stage + 1
    pub slot_free : slots_taken env wave (get_or ticket.provider (text "mock")) c.db ≡ false
    pub key_unused :
        get_outbox_by_idempotency
          (idempotency_key wave_id ticket_id stage (attempt_of wave_id ticket_id stage c.db))
          c.db
        ≡ none
    pub reserved :
        IsReserved env ids wave.limits ticket wave_id ticket_id stage
          (attempt_of wave_id ticket_id stage c.db)
          c
    pub result :
        queue_stage env ids wave_id ticket_id stage c
        ≡ reserve_stage env ids wave.limits ticket wave_id ticket_id stage
            (attempt_of wave_id ticket_id stage c.db)
            c

  -- past its guards `queueStage` is the transaction
  pub past_guards :
      (wave : WaveRecord) (ticket : TicketRun)
      → get_wave wave_id c.db ≡ some wave
      → get_ticket wave_id ticket_id c.db ≡ some ticket
      → wave.cancel_requested ≡ false
      → ltb wave.limits.max_retries_per_stage (attempt_of wave_id ticket_id stage c.db - 1) ≡ false
      → slots_taken env wave (get_or ticket.provider (text "mock")) c.db ≡ false
      → get_outbox_by_idempotency
          (idempotency_key wave_id ticket_id stage (attempt_of wave_id ticket_id stage c.db))
          c.db
        ≡ none
      → queue_stage env ids wave_id ticket_id stage c
        ≡ reserve_stage env ids wave.limits ticket wave_id ticket_id stage
            (attempt_of wave_id ticket_id stage c.db)
            c
  unfolding queue_stage
  past_guards wave ticket there here live retries slot unused = ground arith

  -- one of the guards after the lookups holds
  abbrev IsHeldBack : WaveRecord → TicketRun → Type 0
  IsHeldBack wave ticket =
      (ltb wave.limits.max_retries_per_stage (attempt_of wave_id ticket_id stage c.db - 1) ≡ true)
      ⊎ ((slots_taken env wave (get_or ticket.provider (text "mock")) c.db ≡ true)
          ⊎ (is_some (
                get_outbox_by_idempotency
                  (idempotency_key wave_id ticket_id stage
                    (attempt_of wave_id ticket_id stage c.db))
                  c.db)
              ≡ true))

  no_wave :
      get_wave wave_id c.db ≡ none → (queue_stage env ids wave_id ticket_id stage c).1.db ≡ c.db
  unfolding queue_stage
  no_wave h = ground arith

  no_ticket :
      get_ticket wave_id ticket_id c.db ≡ none
      → (queue_stage env ids wave_id ticket_id stage c).1.db ≡ c.db
  unfolding queue_stage
  no_ticket h = ground arith

  cancelled_wave :
      (wave : WaveRecord)
      → get_wave wave_id c.db ≡ some wave
      → wave.cancel_requested ≡ true
      → (queue_stage env ids wave_id ticket_id stage c).1.db ≡ c.db
  unfolding queue_stage
  cancelled_wave wave there h = ground arith

  -- a guard that holds leaves the ledger alone
  held_back :
      (wave : WaveRecord) (ticket : TicketRun)
      → get_wave wave_id c.db ≡ some wave
      → get_ticket wave_id ticket_id c.db ≡ some ticket
      → wave.cancel_requested ≡ false
      → IsHeldBack wave ticket
      → (queue_stage env ids wave_id ticket_id stage c).1.db ≡ c.db
  unfolding queue_stage
  held_back wave ticket there here live why = ground arith

  -- the guards passed: the transaction decides
  transacted :
      (wave : WaveRecord) (ticket : TicketRun)
      → get_wave wave_id c.db ≡ some wave
      → get_ticket wave_id ticket_id c.db ≡ some ticket
      → wave.cancel_requested ≡ false
      → ltb wave.limits.max_retries_per_stage (attempt_of wave_id ticket_id stage c.db - 1) ≡ false
      → slots_taken env wave (get_or ticket.provider (text "mock")) c.db ≡ false
      → get_outbox_by_idempotency
          (idempotency_key wave_id ticket_id stage (attempt_of wave_id ticket_id stage c.db))
          c.db
        ≡ none
      → IsQueued ⊎ ((queue_stage env ids wave_id ticket_id stage c).1.db ≡ c.db)
  transacted wave ticket there here live retries slot unused =
      let attempt = attempt_of wave_id ticket_id stage c.db in
      let same = past_guards wave ticket there here live retries slot unused in
      elim (reserve_stage-outcomes env ids wave.limits ticket wave_id ticket_id stage attempt c) [
        | inl reserved ↦ inl (record {
          wave = wave;
          ticket = ticket;
          wave_found = there;
          ticket_found = here;
          not_cancelled = live;
          retries_left = ground arith;
          slot_free = slot;
          key_unused = unused;
          reserved = reserved;
          result = same;
        })
        | inr unchanged ↦ inr (ap (λ (r : Result (Unit {0}) × Controller). r.1.db) same ∙ unchanged)
      ]

  -- the guards after the lookups
  by_guards :
      (wave : WaveRecord) (ticket : TicketRun)
      → get_wave wave_id c.db ≡ some wave
      → get_ticket wave_id ticket_id c.db ≡ some ticket
      → wave.cancel_requested ≡ false
      → IsQueued ⊎ ((queue_stage env ids wave_id ticket_id stage c).1.db ≡ c.db)
  by_guards wave ticket there here live =
      let attempt = attempt_of wave_id ticket_id stage c.db in
      let stop : IsHeldBack wave ticket
          → IsQueued ⊎ ((queue_stage env ids wave_id ticket_id stage c).1.db ≡ c.db) =
        λ why. inr (held_back wave ticket there here live why) in
      elim (Bool-cases (ltb wave.limits.max_retries_per_stage (attempt - 1))) [
        | inl spent ↦ stop (inl spent)
        | inr retries ↦
            elim (Bool-cases (slots_taken env wave (get_or ticket.provider (text "mock")) c.db)) [
              | inl taken ↦ stop (inr (inl taken))
              | inr slot ↦
                  elim (Option-cases (
                    get_outbox_by_idempotency (idempotency_key wave_id ticket_id stage attempt)
                      c.db)) [
                        | inl unused ↦ transacted wave ticket there here live retries slot unused
                        | inr (item, used) ↦ stop (inr (inr (ap is_some used)))
                      ]
            ]
      ]

  -- `queueStage` either commits its transaction past every guard, or leaves the ledger as it was.
  pub queue_stage-commits : IsQueued ⊎ ((queue_stage env ids wave_id ticket_id stage c).1.db ≡ c.db)
  queue_stage-commits = elim (Option-cases (get_wave wave_id c.db)) [
    | inl missing ↦ inr (no_wave missing)
    | inr (wave, there) ↦ elim (Bool-cases wave.cancel_requested) [
      | inl cancelled ↦ inr (cancelled_wave wave there cancelled)
      | inr live ↦ elim (Option-cases (get_ticket wave_id ticket_id c.db)) [
        | inl missing ↦ inr (no_ticket missing)
        | inr (ticket, here) ↦ by_guards wave ticket there here live
      ]
    ]
  ]

  -- An error of `queueStage` leaves the ledger as it was.
  pub queue_stage_atomic :
      {e : WaveError}
      → (queue_stage env ids wave_id ticket_id stage c).0 ≡ err e
      → (queue_stage env ids wave_id ticket_id stage c).1.db ≡ c.db
  queue_stage_atomic h = elim queue_stage-commits [
    | inl queued ↦ absurd (ground (arith, h, queued.result, queued.reserved.committed))
    | inr unchanged ↦ unchanged
  ]
