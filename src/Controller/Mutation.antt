-- ===== src/Controller/Mutation.antt =====
-- What the frame of an operator command does (`mutateWave` of core/controller-context.ts).
use openclaw_wave_runner.Prelude.{
  ℕ, ◌+◌, ◌≡◌, ◌≢◌, ◌⊎◌, inl, inr, Option-cases, Result-cases, List, [], ◌∷◌, ◌++◌, find?, refl,
  true, false, Option, none, some, is_some, Text, WaveError, Result, ok, err, arith,
}
use openclaw_wave_runner.Domain.{WaveRecord, DomainEvent}
use openclaw_wave_runner.StateMachine.{assert_expected_revision}
use openclaw_wave_runner.Store.{
  WaveDatabase, get_wave, put_wave, get_event, insert_event, wave_key, merge_wave, event_key,
}
use openclaw_wave_runner.Store.Table.{get, key_eq_refl}
use openclaw_wave_runner.Store.Rows.{get-put, get-some}
use openclaw_wave_runner.Controller.Exec.{Env, Controller, nothing}
use openclaw_wave_runner.Controller.Context.{mutate_wave, event_row}

module _ (env : Env) (wave_id event_id type : Text) (expected : Option ℕ)
    (mut : WaveRecord → Result WaveRecord) (c : Controller) where
  -- A command that throws leaves the controller as it was: the event is not recorded either.
  mutate_wave_atomic :
      {e : WaveError}
      → (mutate_wave env wave_id event_id type expected mut c).0 ≡ err e
      → (mutate_wave env wave_id event_id type expected mut c).1 ≡ c
  unfolding mutate_wave
  mutate_wave_atomic h = ground arith

  -- A repeated event id is refused before anything else is looked at.
  pub mutate_wave_duplicate :
      is_some (get_event event_id c.db) ≡ true
      → mutate_wave env wave_id event_id type expected mut c ≡ (err WaveError.duplicate_event, c)
  unfolding mutate_wave insert_event
  mutate_wave_duplicate h = ground arith

-- What a command that succeeded has done to the wave `w`, which became `w'`.
pub record IsMutated (env : Env) (wave_id event_id : Text) (before after : WaveDatabase)
    (w w' : WaveRecord) : Type 0 where
  pub found_before : get_wave wave_id before ≡ some w
  pub found_after :
      get_wave wave_id after ≡ some (record w' { revision = w'.revision + 1; updated_at = env.now })
  pub event_kept : is_some (get_event event_id after) ≡ true
  pub event_new : is_some (get_event event_id before) ≡ false
  pub same_tickets : after.tickets ≡ before.tickets
  pub same_budgets : after.budgets ≡ before.budgets
  pub same_outbox : after.outbox ≡ before.outbox

-- an appended event is found
pub get_event-append :
    (event : DomainEvent) (events : List DomainEvent)
    → is_some (get event_key (event.event_id ∷ []) (events ++ event ∷ [])) ≡ true
unfolding get find?
get_event-append event [] = ground (arith, key_eq_refl (event.event_id ∷ []))
get_event-append event (x ∷ events) = ground (arith, get_event-append event events)

module _ (env : Env) (wave_id event_id type : Text) (expected : Option ℕ)
    (mut : WaveRecord → Result WaveRecord)
    (keeps : (w w' : WaveRecord)
      → mut w ≡ ok w'
      → (w'.wave_id ≡ w.wave_id) × (w'.created_at ≡ w.created_at))
    (c : Controller) where
  -- the parts of `mutate_wave_ok`, for the wave and the changed wave
  parts :
      (w w' : WaveRecord)
      → get_wave wave_id c.db ≡ some w
      → mut w ≡ ok w'
      → (mutate_wave env wave_id event_id type expected mut c).0 ≡ ok tt
      → (assert_expected_revision w.revision expected ≡ ok tt)
        × IsMutated env wave_id event_id c.db
            (mutate_wave env wave_id event_id type expected mut c).1.db
            w
            w'
  unfolding mutate_wave insert_event get_event get_wave put_wave
  parts w w' there accepted h =
      let same = keeps w w' accepted in
      let own : w.wave_id ∷ [] ≡ wave_id ∷ [] = (get-some wave_key c.db.waves there).1 in
      ground (
        arith,
        own,
        get-put wave_key merge_wave (λ old row. refl) (wave_id ∷ [])
            (record w' { revision = w'.revision + 1; updated_at = env.now }) c.db.waves,
        key_eq_refl (wave_id ∷ []),
        get_event-append (event_row env event_id wave_id type nothing) c.db.events,
      )

  -- it fails without its wave, or with a change that is refused
  fails :
      (get_wave wave_id c.db ≡ none)
        ⊎ ((w : WaveRecord) × (get_wave wave_id c.db ≡ some w) × (e : WaveError) × (mut w ≡ err e))
      → (mutate_wave env wave_id event_id type expected mut c).0 ≢ ok tt
  unfolding mutate_wave insert_event get_event get_wave
  fails (inl missing) h = ground arith
  fails (inr (w, there, e, refused)) h = ground arith

  -- If `mut` keeps the id and the time of creation, a command that succeeds found its wave at the
  -- expected revision, if one was given, and its event id unused; `mut` accepted the wave; the
  -- changed wave is stored with the next revision and the event is recorded; tickets, budgets and
  -- outbox are as before.
  pub mutate_wave_ok :
      (mutate_wave env wave_id event_id type expected mut c).0 ≡ ok tt
      → (w : WaveRecord) × (w' : WaveRecord) × (mut w ≡ ok w')
        × (assert_expected_revision w.revision expected ≡ ok tt)
        × IsMutated env wave_id event_id c.db
            (mutate_wave env wave_id event_id type expected mut c).1.db
            w
            w'
  mutate_wave_ok h = elim (Option-cases (get_wave wave_id c.db)) [
    | inl missing ↦ absurd (fails (inl missing) h)
    | inr (w, there) ↦ elim (Result-cases (mut w)) [
      | inl (w', accepted) ↦
          let both = parts w w' there accepted h in (w, w', accepted, both.0, both.1)
      | inr (e, refused) ↦ absurd (fails (inr (w, there, e, refused)) h)
    ]
  ]
