-- ===== src/Controller/Tick/Serial.antt =====
-- One implementation at a time in a writer scope (`advanceReadyTickets` of core/tick.ts).
use openclaw_wave_runner.Prelude.{
  ℕ, ◌+◌, ◌==◌, ◌&&◌, ◌≡◌, refl, inl, inr, Bool, true, false, not, Option, none, some, List, [],
  ◌∷◌, if◌then◌else◌, any, filter, Bool-cases, Text, text_eq, Result, ok, err, arith,
}
use openclaw_wave_runner.Domain.{WaveRecord, TicketRun}
use openclaw_wave_runner.Controller.Exec.{Env, Controller, Exec, continue, ◌>>=◌, pure}
use openclaw_wave_runner.Controller.Leases.{ticket_scope}
use openclaw_wave_runner.Controller.Hops.{QueueAdmitResult, queued, deferred, stopped}
use openclaw_wave_runner.Controller.Tick.{Surroundings, may_implement, queue_ready}

-- the ticket's scope is none of these
abbrev pub is_free : List Text → TicketRun → Bool
is_free busy ticket = not (any (text_eq (ticket_scope ticket)) busy)

-- every scope of the first list is one of the second
abbrev Covers : List Text → List Text → Type 0
Covers few busy =
    (ticket : TicketRun)
    → any (text_eq (ticket_scope ticket)) few ≡ true
    → any (text_eq (ticket_scope ticket)) busy ≡ true

Covers-cons : (few busy : List Text) (scope : Text) → Covers few busy → Covers few (scope ∷ busy)
unfolding any
Covers-cons few busy scope covers ticket h = ground (arith, covers ticket h)

continue-cong :
    {A B : Type 0} (r : Result A) (f g : A → Exec B) (c : Controller)
    → ((a : A) → (c' : Controller) → f a c' ≡ g a c')
    → continue r f c ≡ continue r g c
continue-cong (ok a) f g c e = e a c
continue-cong (err x) f g c e = refl

module _ (env : Env) (s : Surroundings) (wave_id : Text) (wave : WaveRecord)
    (admit : Bool → TicketRun → Exec QueueAdmitResult) (no_open : Bool) where
  abbrev each : List Text → ℕ → List TicketRun → Exec (Option ℕ)
  each busy n tickets = queue_ready (may_implement env s wave_id wave) admit no_open busy n tickets

  abbrev after_admit :
      List Text → ℕ → TicketRun → List TicketRun → QueueAdmitResult → Exec (Option ℕ)
  after_admit busy n ticket tickets admitted = elim admitted [
    | queued ↦ each (ticket_scope ticket ∷ busy) (n + 1) tickets
    | deferred ↦ pure (some n)
    | stopped ↦ pure none
  ]

  abbrev after_ready : List Text → ℕ → TicketRun → List TicketRun → Bool → Exec (Option ℕ)
  after_ready busy n ticket tickets ready = if not ready then each busy n tickets else do
    admitted ← admit (n == 0 && no_open) ticket
    after_admit busy n ticket tickets admitted

  after_admit-cong :
      (busy : List Text) (n : ℕ) (ticket : TicketRun) (tickets some_of : List TicketRun)
      → ((m : ℕ) (c : Controller)
          → each (ticket_scope ticket ∷ busy) m tickets c
            ≡ each (ticket_scope ticket ∷ busy) m some_of c)
      → (admitted : QueueAdmitResult) (c : Controller)
      → after_admit busy n ticket tickets admitted c ≡ after_admit busy n ticket some_of admitted c
  after_admit-cong busy n ticket tickets some_of same queued c = same (n + 1) c
  after_admit-cong busy n ticket tickets some_of same deferred c = refl
  after_admit-cong busy n ticket tickets some_of same stopped c = refl

  after_ready-cong :
      (busy : List Text) (n : ℕ) (ticket : TicketRun) (tickets some_of : List TicketRun)
      → ((m : ℕ) (c : Controller) → each busy m tickets c ≡ each busy m some_of c)
      → ((m : ℕ) (c : Controller)
          → each (ticket_scope ticket ∷ busy) m tickets c
            ≡ each (ticket_scope ticket ∷ busy) m some_of c)
      → (ready : Bool) (c : Controller)
      → after_ready busy n ticket tickets ready c ≡ after_ready busy n ticket some_of ready c
  after_ready-cong busy n ticket tickets some_of skipped went false c = skipped n c
  after_ready-cong busy n ticket tickets some_of skipped went true c =
      continue-cong (admit (n == 0 && no_open) ticket c).0 (after_admit busy n ticket tickets)
        (after_admit busy n ticket some_of) (admit (n == 0 && no_open) ticket c).1
        (after_admit-cong busy n ticket tickets some_of went)

  passes_over :
      (few busy : List Text) (n : ℕ) (tickets : List TicketRun) (c : Controller)
      → Covers few busy
      → each busy n tickets c ≡ each busy n (filter (is_free few) tickets) c
  unfolding queue_ready filter
  passes_over few busy n [] c covers = refl
  passes_over few busy n (ticket ∷ tickets) c covers =
      elim (Bool-cases (any (text_eq (ticket_scope ticket)) few)) [
        | inl taken ↦ rw taken (rw (covers ticket taken) (passes_over few busy n tickets c covers))
        | inr free ↦ rw free (
            continue-cong (may_implement env s wave_id wave busy ticket c).0
              (after_ready busy n ticket tickets)
              (after_ready busy n ticket (filter (is_free few) tickets))
              (may_implement env s wave_id wave busy ticket c).1
              (after_ready-cong busy n ticket tickets (filter (is_free few) tickets)
                (λ m c'. passes_over few busy m tickets c' covers)
                (λ m c'.
                  passes_over few (ticket_scope ticket ∷ busy) m tickets c'
                    (Covers-cons few busy (ticket_scope ticket) covers))))
      ]

  -- As soon as an implementation is queued, its scope is busy: the queueing goes on as if the tickets of
  -- that scope, and of the scopes that were busy before, were not there.
  pub queue_ready-filter :
      (busy : List Text) (n : ℕ) (ticket : TicketRun) (tickets : List TicketRun) (c : Controller)
      → (may_implement env s wave_id wave busy ticket c).0 ≡ ok true
      → (admit (n == 0 && no_open) ticket (may_implement env s wave_id wave busy ticket c).1).0
        ≡ ok queued
      → let c' =
          (admit (n == 0 && no_open) ticket (may_implement env s wave_id wave busy ticket c).1).1 in
        let next = ticket_scope ticket ∷ busy in
        queue_ready (may_implement env s wave_id wave) admit no_open busy n (ticket ∷ tickets) c
        ≡ queue_ready
            (may_implement env s wave_id wave)
            admit
            no_open
            next
            (n + 1)
            (filter (is_free next) tickets)
            c'
  unfolding queue_ready
  queue_ready-filter busy n ticket tickets c ready admitted = rw ready (
      rw admitted (
        passes_over (ticket_scope ticket ∷ busy) (ticket_scope ticket ∷ busy) (n + 1) tickets _
          (λ other taken. taken)))
