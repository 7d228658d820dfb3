-- ===== src/Controller/Tame/Waves.antt =====
-- What a tick does with leases and with the end of a wave is tame (core/lease-release.ts, core/launch.ts,
-- core/budget-stop.ts, core/tick.ts, core/primary-dirty-gate.ts).
use openclaw_wave_runner.Prelude.{ℕ, ◌+◌, Bool, Option, List, [], ◌∷◌, Text, arith}
use openclaw_wave_runner.Domain.{WaveRecord, TicketRun, BudgetEntry, LeaseRecord}
use openclaw_wave_runner.Store.{
  put_ticket, put_wave, put_budget, put_lease, delete_lease, all_leases,
}
use openclaw_wave_runner.Controller.Exec.{Env, Controller}
use openclaw_wave_runner.Controller.Leases.{authority_acquire}
use openclaw_wave_runner.Controller.Recovery.{
  expire_lease, expire_each, expire_stale_leases, release_inactive, release_inactive_writer_leases,
  writer_lease_blocks_impl, fail_each, fail_unlaunchable_approved,
}
use openclaw_wave_runner.Controller.Commands.{close_budget, stop_ticket, stop_for_budget}
use openclaw_wave_runner.Controller.Completion.{
  fail_dependent, fail_dependents_of_dead_tickets, complete_wave, maybe_complete_wave,
}
use openclaw_wave_runner.Controller.Context.{refresh_counters}
use openclaw_wave_runner.Controller.Workspace.{Workspace}
use openclaw_wave_runner.Controller.PrimaryDirty.{Primary, fail_closed_if_primary_dirty}
use openclaw_wave_runner.Controller.Observe.{refresh_lease, refresh_held_leases}
use openclaw_wave_runner.Controller.Tame.{
  IsTame, IsTame-leaves, IsTame-pure, IsTame-bind, tame_rules,
}

pub budget_stop-IsTame : (env : Env) (entry : BudgetEntry) → IsTame (close_budget env entry)
unfolding put_budget
budget_stop-IsTame env entry = IsTame-leaves (record { at = λ c. ground arith })

stop_ticket-IsTame : (reason : Text) (ticket : TicketRun) → IsTame (stop_ticket reason ticket)
unfolding put_ticket
stop_ticket-IsTame reason ticket = IsTame-leaves (record { at = λ c. ground arith })

release_inactive-IsTame :
    (env : Env) (wave_id : Text) (lease : LeaseRecord) → IsTame (release_inactive env wave_id lease)
unfolding release_inactive delete_lease
release_inactive-IsTame env wave_id lease = IsTame-leaves (record { at = λ c. ground arith })

pub sweep-IsTame :
    (env : Env) (wave_id : Text) → IsTame (release_inactive_writer_leases env wave_id)
unfolding release_inactive_writer_leases
sweep-IsTame env wave_id = search (tame_rules, release_inactive-IsTame)

pub stop_for_budget-IsTame :
    (env : Env) (wave_id reason : Text) → IsTame (stop_for_budget env wave_id reason)
unfolding stop_for_budget
stop_for_budget-IsTame env wave_id reason =
    search (tame_rules, stop_ticket-IsTame, budget_stop-IsTame, sweep-IsTame) depth 16

refresh_lease-IsTame :
    (env : Env) (wave_id : Text) (wave : Option WaveRecord) (lease : LeaseRecord)
    → IsTame (refresh_lease env wave_id wave lease)
unfolding put_lease authority_acquire
refresh_lease-IsTame env wave_id wave lease = IsTame-leaves (record { at = λ c. ground arith })

pub refresh_held_leases-IsTame :
    (env : Env) (wave_id : Text) → IsTame (refresh_held_leases env wave_id)
unfolding refresh_held_leases
refresh_held_leases-IsTame env wave_id = search (tame_rules, refresh_lease-IsTame)

expire_lease-IsTame : (env : Env) (lease : LeaseRecord) → IsTame (expire_lease env lease)
unfolding expire_lease put_lease delete_lease
expire_lease-IsTame env lease = IsTame-leaves (record { at = λ c. ground arith })

expire_each-IsTame :
    (env : Env) (leases : List LeaseRecord) (n : ℕ) → IsTame (expire_each env leases n)
unfolding expire_each
expire_each-IsTame env [] n = IsTame-pure n
expire_each-IsTame env (lease ∷ leases) n =
    IsTame-bind (expire_lease env lease) _ (expire_lease-IsTame env lease)
      (λ count. expire_each-IsTame env leases (n + count))

pub expire_stale_leases-IsTame : (env : Env) → IsTame (expire_stale_leases env)
unfolding expire_stale_leases
expire_stale_leases-IsTame env = record {
  at = λ c keys.
      let c' : Controller = record c { watchdog_fires = c.watchdog_fires + 1 } in
      let step = (expire_each-IsTame env (all_leases c.db) 0).at c' keys in
      record {
        keys = step.keys;
        launched = step.launched;
        mono = step.mono;
        rows = step.rows;
        same_log = step.same_log;
      };
}

fail_dependent-IsTame :
    (tickets : List TicketRun) (ticket : TicketRun) → IsTame (fail_dependent tickets ticket)
unfolding put_ticket
fail_dependent-IsTame tickets ticket = IsTame-leaves (record { at = λ c. ground arith })

fail_dependents-IsTame : (wave_id : Text) → IsTame (fail_dependents_of_dead_tickets wave_id)
unfolding fail_dependents_of_dead_tickets
fail_dependents-IsTame wave_id = search (tame_rules, fail_dependent-IsTame) depth 12

complete_wave-IsTame :
    (env : Env) (wave_id : Text) (wave : WaveRecord) (tickets : List TicketRun)
    → IsTame (complete_wave env wave_id wave tickets)
unfolding complete_wave
complete_wave-IsTame env wave_id wave tickets = search (tame_rules, budget_stop-IsTame) depth 16

pub maybe_complete_wave-IsTame :
    (env : Env) (wave_id : Text) → IsTame (maybe_complete_wave env wave_id)
unfolding maybe_complete_wave
maybe_complete_wave-IsTame env wave_id =
    search (tame_rules, fail_dependents-IsTame, complete_wave-IsTame) depth 16

fail_each-IsTame :
    (env : Env) (wave : WaveRecord) (tickets : List TicketRun) (marked : Bool)
    → IsTame (fail_each env wave tickets marked)
unfolding fail_each
fail_each-IsTame env wave [] marked = IsTame-pure marked
fail_each-IsTame env wave (ticket ∷ tickets) marked =
    search (tame_rules, fail_each-IsTame env wave tickets) depth 12

pub fail_unlaunchable-IsTame :
    (env : Env) (wave_id : Text) → IsTame (fail_unlaunchable_approved env wave_id)
unfolding fail_unlaunchable_approved
fail_unlaunchable-IsTame env wave_id = search (tame_rules, fail_each-IsTame) depth 24

pub writer_lease_blocks-IsTame :
    (env : Env) (wave : WaveRecord) (ticket : TicketRun)
    → IsTame (writer_lease_blocks_impl env wave ticket)
unfolding writer_lease_blocks_impl delete_lease
writer_lease_blocks-IsTame env wave ticket = IsTame-leaves (record { at = λ c. ground arith })

pub primary_dirty-IsTame :
    (ws : Workspace) (primary : Primary) (wave_id ticket_id : Text)
    → IsTame (fail_closed_if_primary_dirty ws primary wave_id ticket_id)
unfolding fail_closed_if_primary_dirty refresh_counters put_ticket put_wave
primary_dirty-IsTame ws primary wave_id ticket_id =
    IsTame-leaves (record { at = λ c. ground arith })
