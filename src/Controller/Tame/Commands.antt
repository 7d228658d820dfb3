-- ===== src/Controller/Tame/Commands.antt =====
-- The operator's commands are tame (core/wave-commands.ts, core/land-closeout.ts).
use openclaw_wave_runner.Prelude.{ℕ, Option, Text, Result, ok, err, arith}
use openclaw_wave_runner.Domain.{WaveRecord, TicketRun}
use openclaw_wave_runner.Store.{put_ticket, put_lease, insert_event}
use openclaw_wave_runner.Controller.Exec.{Payload, Env}
use openclaw_wave_runner.Controller.Context.{mutate_wave, record_event, record_or_throw}
use openclaw_wave_runner.Controller.Leases.{reacquire_writer_lease}
use openclaw_wave_runner.Controller.Commands.{
  freeze_wave, pause_wave, resume_wave, cancel_ticket, cancel_children, cancel_wave, leave_gate,
  approve_wave, revise_wave, stop_one, emergency_stop,
}
use openclaw_wave_runner.Controller.LandCloseout.{caught, retry_with, retry_impl_land}
use openclaw_wave_runner.Controller.Workspace.{Workspace}
use openclaw_wave_runner.Controller.Tame.Closeouts.{finalize_impl_land-IsTame}
use openclaw_wave_runner.Controller.Tame.Waves.{budget_stop-IsTame, sweep-IsTame}
use openclaw_wave_runner.Controller.Tame.{IsTame, IsTame-leaves, IsTame-pure, tame_rules}

record_event-IsTame :
    (env : Env) (event_id wave_id type : Text) (payload : Payload)
    → IsTame (record_event env event_id wave_id type payload)
unfolding record_event insert_event
record_event-IsTame env event_id wave_id type payload =
    IsTame-leaves (record { at = λ c. ground arith })

pub mutate_wave-IsTame :
    (env : Env) (wave_id event_id type : Text) (expected : Option ℕ)
    (mut : WaveRecord → Result WaveRecord)
    → IsTame (mutate_wave env wave_id event_id type expected mut)
unfolding mutate_wave
mutate_wave-IsTame env wave_id event_id type expected mut =
    search (record_event-IsTame, tame_rules) depth 16

record_or_throw-IsTame :
    (env : Env) (event_id wave_id type : Text) (payload : Payload)
    → IsTame (record_or_throw env event_id wave_id type payload)
unfolding record_or_throw
record_or_throw-IsTame env event_id wave_id type payload = search (record_event-IsTame, tame_rules)

module _ (env : Env) (wave_id event_id : Text) where
  pub freeze_wave-IsTame :
      (expected : Option ℕ) → IsTame (freeze_wave env wave_id event_id expected)
  unfolding freeze_wave
  freeze_wave-IsTame expected = mutate_wave-IsTame env wave_id event_id _ expected _

  pub pause_wave-IsTame : (expected : Option ℕ) → IsTame (pause_wave env wave_id event_id expected)
  unfolding pause_wave
  pause_wave-IsTame expected = mutate_wave-IsTame env wave_id event_id _ expected _

  pub resume_wave-IsTame :
      (expected : Option ℕ) → IsTame (resume_wave env wave_id event_id expected)
  unfolding resume_wave
  resume_wave-IsTame expected = mutate_wave-IsTame env wave_id event_id _ expected _

  cancel_ticket-IsTame : (ticket : TicketRun) → IsTame (cancel_ticket ticket)
  cancel_ticket-IsTame ticket = search (tame_rules)

  cancel_children-IsTame : IsTame (cancel_children env wave_id)
  unfolding cancel_children
  cancel_children-IsTame =
      search (cancel_ticket-IsTame, budget_stop-IsTame, sweep-IsTame, tame_rules) depth 16

  pub cancel_wave-IsTame :
      (expected : Option ℕ) → IsTame (cancel_wave env wave_id event_id expected)
  unfolding cancel_wave
  cancel_wave-IsTame expected = search (mutate_wave-IsTame, cancel_children-IsTame, tame_rules)

  leave_gate-IsTame : (wave : WaveRecord) → IsTame (leave_gate env wave)
  unfolding leave_gate
  leave_gate-IsTame wave = search (tame_rules) depth 12

  pub approve_wave-IsTame :
      (ticket_id : Text) (revision : ℕ)
      → IsTame (approve_wave env wave_id ticket_id revision event_id)
  unfolding approve_wave
  approve_wave-IsTame ticket_id revision =
      search (record_or_throw-IsTame, leave_gate-IsTame, tame_rules) depth 24

  pub revise_wave-IsTame : (ticket_id : Text) → IsTame (revise_wave env wave_id ticket_id event_id)
  unfolding revise_wave
  revise_wave-IsTame ticket_id =
      search (record_or_throw-IsTame, leave_gate-IsTame, tame_rules) depth 24

stop_one-IsTame :
    (env : Env) (fresh_event : Text → Text) (wave : WaveRecord)
    → IsTame (stop_one env fresh_event wave)
stop_one-IsTame env fresh_event wave = search (cancel_wave-IsTame, tame_rules)

pub emergency_stop-IsTame :
    (env : Env) (fresh_event : Text → Text) → IsTame (emergency_stop env fresh_event)
unfolding emergency_stop
emergency_stop-IsTame env fresh_event = search (stop_one-IsTame, tame_rules) depth 12

module _ (env : Env) (ws : Workspace) (wave_id ticket_id : Text) where
  reacquire-IsTame : IsTame (caught (reacquire_writer_lease env wave_id ticket_id))
  unfolding reacquire_writer_lease put_lease put_ticket
  reacquire-IsTame = IsTame-leaves (record { at = λ c. ground arith })

  retry_with-IsTame : (r : Result ℕ) → IsTame (retry_with env ws wave_id ticket_id r)
  retry_with-IsTame (err e) = IsTame-pure _
  retry_with-IsTame (ok generation) = search (finalize_impl_land-IsTame, tame_rules) depth 12

  pub retry_impl_land-IsTame : IsTame (retry_impl_land env ws wave_id ticket_id)
  unfolding retry_impl_land
  retry_impl_land-IsTame = search (reacquire-IsTame, retry_with-IsTame, tame_rules) depth 12
