-- ===== src/Controller/Dispatch.antt =====
-- core/launch.ts, core/chain-worktree.ts and core/impl-handoff.ts: pending rows of the outbox are claimed
-- and handed to the worker, one after another.
pub mod Steps
pub mod Spawning
pub mod Once
pub mod Races
use openclaw_wave_runner.Prelude.{
  ℕ, Bool, true, false, ◌&&◌, ◌||◌, Option, none, some, get_or, is_some, List, [], ◌∷◌, ◌++◌, ltb,
  ◌==◌, if◌then◌else◌, filter, any, Text, text, text_eq, Result, ok, err,
}
use openclaw_wave_runner.Prelude.Decimal.{decimal}
use openclaw_wave_runner.Domain.{
  StageName, StageStatus, TicketStatus, OutboxState, stage_eq, ticket_eq, outbox_eq, WaveRecord,
  TicketRun, StageRun, LaunchOutbox,
}
use openclaw_wave_runner.Domain.Worker.{LaunchReceipt, LaunchIntent, StageAgentId}
use openclaw_wave_runner.Outbox.{claim_outbox, mark_launched, mark_failed}
use openclaw_wave_runner.StagePaths.{stage_text, is_plan_gate_stage}
use openclaw_wave_runner.Store.{
  WaveDatabase, list_tickets, list_outbox, get_outbox_by_idempotency, get_stage_by_idempotency,
  put_ticket, put_stage, put_outbox,
}
use openclaw_wave_runner.Controller.Exec.{
  Env, Controller, Exec, ◌>>=◌, ◌>>◌, pure, lift, query, modify, try_modify, for_each, transaction,
}
use openclaw_wave_runner.Controller.Context.{require_wave, require_ticket}
use openclaw_wave_runner.Controller.Leases.{truthy}
use openclaw_wave_runner.Controller.Adapters.{Adapters}
use openclaw_wave_runner.Controller.FailLaunch.{launch_claimed}

-- `predecessorImplSha`: of the dependencies that are DONE with a commit, the one that sorts first
abbrev pub is_predecessor : TicketRun → TicketRun → Bool
is_predecessor ticket peer =
    any (text_eq peer.ticket_id) ticket.depends_on
    && (ticket_eq peer.status TicketStatus.done && is_some (truthy peer.impl_sha))

-- `b.order - a.order || a.ticketId.localeCompare(b.ticketId)` is at most 0
abbrev pub sorts_first : (Text → Text → Bool) → TicketRun → TicketRun → Bool
sorts_first comes_before a b =
    ltb b.order a.order || (a.order == b.order && comes_before a.ticket_id b.ticket_id)

unfoldable pub first_peer : (Text → Text → Bool) → TicketRun → List TicketRun → TicketRun
first_peer comes_before t [] = t
first_peer comes_before t (u ∷ peers) =
    let first = first_peer comes_before u peers in
    if sorts_first comes_before t first then t else first

abbrev sha_of_first : (Text → Text → Bool) → List TicketRun → Option Text
sha_of_first comes_before [] = none
sha_of_first comes_before (t ∷ peers) = (first_peer comes_before t peers).impl_sha

unfoldable pub predecessor_impl_sha :
    (Text → Text → Bool) → TicketRun → List TicketRun → Option Text
unfolding first_peer filter
predecessor_impl_sha comes_before ticket peers =
    sha_of_first comes_before (filter (is_predecessor ticket) peers)

abbrev pub stage_agent_id : StageName → TicketRun → StageAgentId
stage_agent_id StageName.ux_review ticket = StageAgentId.mona
stage_agent_id StageName.plan ticket =
    if text_eq (get_or ticket.plan_worker []) (text "codex")
    then StageAgentId.codex
    else StageAgentId.grok
stage_agent_id _ ticket = StageAgentId.grok

unfoldable pub stage_session_key : Text → Text → StageName → ℕ → Text
unfolding decimal
stage_session_key wave_id ticket_id stage attempt =
    text "agent:main:acp:wave-runner-"
    ++ (wave_id
        ++ (text "-"
            ++ (ticket_id ++ (text "-" ++ (stage_text stage ++ (text "-" ++ decimal attempt))))))

unfoldable pub stage_attempt_dir : (List Text → Text) → Text → LaunchOutbox → Text
stage_attempt_dir join root item = join (
    root
    ∷ text "tmp"
    ∷ text "wave-runs"
    ∷ item.wave_id
    ∷ item.ticket_id
    ∷ stage_text item.stage
    ∷ decimal item.attempt
    ∷ [])

-- `launchCwd`
unfoldable pub launch_cwd : Adapters → LaunchOutbox → TicketRun → Exec (Option Text)
unfolding require_wave
launch_cwd ad item ticket =
    if stage_eq item.stage StageName.review
    then (do wave ← require_wave item.wave_id; pure (ad.forge_of wave.repo_path))
    else if stage_eq item.stage StageName.ux_review
    then pure ad.mona
    else pure ticket.impl_worktree

-- `a ?? b`
abbrev pub or_else : Option Text → Option Text → Option Text
or_else none b = b
or_else (some a) b = some a

abbrev root_of : Adapters → StageName → Option Text → Text
root_of ad stage cwd =
    let roots = or_else ad.artifact_root ad.worktree_root in
    get_or (if is_plan_gate_stage stage then roots else or_else cwd roots) (text ".")

abbrev approved_plan : StageName → TicketRun → Option Text
approved_plan StageName.plan ticket = none
approved_plan _ ticket = ticket.plan_artifact

unfoldable pub intent_of : Adapters → LaunchOutbox → TicketRun → Option Text → LaunchIntent
unfolding stage_attempt_dir stage_session_key
intent_of ad item ticket cwd = record {
  idempotency_key = item.idempotency_key;
  wave_id = item.wave_id;
  ticket_id = item.ticket_id;
  stage = item.stage;
  attempt = item.attempt;
  prompt = ad.prompt item ticket cwd;
  session_key = stage_session_key item.wave_id item.ticket_id item.stage item.attempt;
  worktree = cwd;
  output_dir = stage_attempt_dir ad.join (root_of ad item.stage cwd) item;
  approved_plan_path = approved_plan item.stage ticket;
  provider = ticket.provider;
  model = ticket.model;
  agent_id = stage_agent_id item.stage ticket;
  ux_spec_path = ticket.ux_spec_path;
}

-- The files that are copied for an IMPL are left out.
unfoldable pub intent_from_outbox : Adapters → LaunchOutbox → Exec LaunchIntent
unfolding launch_cwd require_ticket intent_of
intent_from_outbox ad item = do
  ticket ← require_ticket item.wave_id item.ticket_id
  cwd ← launch_cwd ad item ticket
  pure (intent_of ad item ticket cwd)

abbrev is_pending : OutboxState → Bool
is_pending OutboxState.pending = true
is_pending _ = false

abbrev claim_current : Env → Option LaunchOutbox → Exec (Unit {0})
claim_current env none = pure tt
claim_current env (some current) =
    if is_pending current.state
    then (do
      claimed ← lift (claim_outbox current env.process.holder env.now)
      try_modify (put_outbox claimed))
    else pure tt

unfoldable pub claim_pending : Env → LaunchOutbox → Exec (Unit {0})
unfolding transaction
claim_pending env item =
    transaction (do
      current ← query (get_outbox_by_idempotency item.idempotency_key)
      claim_current env current)

abbrev is_settled : OutboxState → Bool
is_settled OutboxState.settled = true
is_settled _ = false

abbrev fail_unsettled : Env → Text → Option LaunchOutbox → Exec (Unit {0})
fail_unsettled env reason none = pure tt
fail_unsettled env reason (some row) =
    if is_settled row.state
    then pure tt
    else do failed ← lift (mark_failed row reason env.now); try_modify (put_outbox failed)

-- a claimed row that is not launched after all
unfoldable pub fail_claimed : Env → LaunchOutbox → Text → Exec (Unit {0})
unfolding transaction
fail_claimed env claimed reason = transaction (do
  row ← query (get_outbox_by_idempotency claimed.idempotency_key)
  fail_unsettled env reason row)

abbrev needs_worktree : StageName → Bool
needs_worktree StageName.plan = true
needs_worktree StageName.impl = true
needs_worktree _ = false

abbrev with_worktree : Text × Text → TicketRun → TicketRun
with_worktree (worktree, branch) ticket = record ticket {
  impl_worktree = some worktree;
  impl_branch = some branch;
}

-- the worktree of a PLAN or an IMPL that has none yet
unfoldable pub ensure_worktree : Adapters → Text → LaunchOutbox → Exec (Unit {0})
unfolding require_wave require_ticket predecessor_impl_sha transaction
ensure_worktree ad wave_id claimed =
    if needs_worktree claimed.stage
    then (do
      ticket ← require_ticket wave_id claimed.ticket_id
      if is_some (truthy ticket.impl_worktree) then pure tt else do
        wave ← require_wave wave_id
        peers ← query (list_tickets wave_id)
        created ← lift (
            ad.create_worktree wave claimed.ticket_id
              (get_or (predecessor_impl_sha ad.comes_before ticket peers) wave.base_sha))
        transaction (do
          t ← require_ticket wave_id claimed.ticket_id
          modify (put_ticket (with_worktree created t))))
    else pure tt

abbrev hand_off : Env → LaunchOutbox → Option Text → Exec Bool
hand_off env claimed none = pure false
hand_off env claimed (some reason) = do fail_claimed env claimed reason; pure true

unfoldable pub fail_closed_impl_handoff :
    Env → Adapters → Text → LaunchOutbox → LaunchIntent → Exec Bool
unfolding require_wave fail_claimed
fail_closed_impl_handoff env ad wave_id claimed intent =
    if stage_eq claimed.stage StageName.impl
    then (do
      wave ← require_wave wave_id
      hand_off env claimed
          (ad.contract_refusal (ad.forge_of wave.repo_path) claimed.ticket_id intent.output_dir))
    else pure false

-- `a ?? b` of an optional field
abbrev running_stage : Adapters → LaunchReceipt → StageRun → StageRun
running_stage ad receipt stage = record stage {
  status = StageStatus.running;
  task_id = receipt.task_id;
  run_id = receipt.run_id;
  session_id = receipt.session_id;
  provider = or_else receipt.provider stage.provider;
  model = or_else receipt.model stage.model;
  receipt_json = some (ad.to_json receipt);
}

abbrev pub put_running : (StageRun → StageRun) → Option StageRun → Exec (Unit {0})
put_running change none = pure tt
put_running change (some stage) = try_modify (put_stage (change stage))

abbrev pub launch_row :
    Env → Text → (StageRun → StageRun) → Text → Option LaunchOutbox → Exec (Unit {0})
launch_row env key change json none = pure tt
launch_row env key change json (some row) = do
  launched ← lift (mark_launched row json env.now)
  try_modify (put_outbox launched)
  stage ← query (get_stage_by_idempotency key)
  put_running change stage

-- the row and its stage under a receipt
unfoldable pub record_launch : Env → Text → (StageRun → StageRun) → Text → Exec (Unit {0})
unfolding transaction
record_launch env key change json =
    transaction (do row ← query (get_outbox_by_idempotency key); launch_row env key change json row)

-- the workflow backend is told where the wave has a flow
abbrev link_result : Adapters → WaveRecord → LaunchOutbox → LaunchReceipt → Result (Unit {0})
link_result ad wave claimed receipt =
    if is_some (truthy wave.flow_id) then ad.link_stage_task claimed receipt else ok tt

abbrev after_launch : Env → Adapters → Text → LaunchOutbox → Option LaunchReceipt → Exec (Unit {0})
after_launch env ad wave_id claimed none = pure tt
after_launch env ad wave_id claimed (some receipt) = do
  wave ← require_wave wave_id
  lift (link_result ad wave claimed receipt)
  record_launch env claimed.idempotency_key (running_stage ad receipt) (ad.to_json receipt)

-- from the intent to the launched row
unfoldable pub launch_intent : Env → Adapters → Text → LaunchOutbox → LaunchIntent → Exec (Unit {0})
unfolding fail_closed_impl_handoff launch_claimed record_launch require_wave
launch_intent env ad wave_id claimed intent = do
  refused ← fail_closed_impl_handoff env ad wave_id claimed intent
  if refused then pure tt else do
    receipt ← launch_claimed env ad.launch claimed intent
    after_launch env ad wave_id claimed receipt

unfoldable pub launch_row_of : Env → Adapters → Text → LaunchOutbox → Exec (Unit {0})
unfolding ensure_worktree intent_from_outbox launch_intent
launch_row_of env ad wave_id claimed = do
  ensure_worktree ad wave_id claimed
  intent ← intent_from_outbox ad claimed
  launch_intent env ad wave_id claimed intent

abbrev dispatch_claimed : Env → Adapters → Text → Option LaunchOutbox → Exec (Unit {0})
dispatch_claimed env ad wave_id none = pure tt
dispatch_claimed env ad wave_id (some claimed) = do
  wave ← require_wave wave_id
  if wave.cancel_requested
      then fail_claimed env claimed (text "cancelled before launch")
      else launch_row_of env ad wave_id claimed

-- the body of the loop
unfoldable pub dispatch_one : Env → Adapters → Text → LaunchOutbox → Exec (Unit {0})
unfolding claim_pending launch_row_of require_wave
dispatch_one env ad wave_id item = do
  claim_pending env item
  claimed ← query (get_outbox_by_idempotency item.idempotency_key)
  dispatch_claimed env ad wave_id claimed

abbrev pub pending_rows : Text → WaveDatabase → List LaunchOutbox
pending_rows wave_id db =
    filter (λ (item : LaunchOutbox). is_pending item.state) (list_outbox wave_id db)

unfoldable pub dispatch_pending : Env → Adapters → Text → Exec (Unit {0})
unfolding dispatch_one
dispatch_pending env ad wave_id = do
  pending ← query (pending_rows wave_id)
  for_each pending (dispatch_one env ad wave_id)
