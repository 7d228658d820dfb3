-- ===== src/Lib.antt =====
-- The wave runner: a controller that takes a frozen set of tickets (a wave) through planning, review,
-- implementation and landing, by launching workers under a budget, and keeps everything that it does in
-- a ledger. This library models the controller's own logic and proves what keeps it correct. Paths are
-- from the repository's root.
--
-- The parts and the files that model them.
-- Domain (src/domain/types.ts): the rows of the ledger and their statuses; Domain/Worker is what the
-- controller sends to a worker and hears from it.
-- StateMachine (src/core/state-machine.ts): the tables of wave and ticket statuses and the assertions
-- for a status change; runs of accepted changes of a wave are a data type in StateMachine/Waves. Some
-- writes of a ticket's status do not go through the assertion, and are modelled so.
-- Budget (src/core/budget.ts): what a wave has spent and reserved, `admitReservation`, and the life of
-- one reservation.
-- Lease (src/core/lease.ts) and Authority (src/core/authority.ts): the writer leases of the ledger, with
-- their fencing generations, and the in-memory locks beside it. `process.kill(pid, 0)` is a function
-- from pids to a signal's fate.
-- Outbox (src/core/outbox.ts): one row for each launch.
-- Safety (src/domain/safety.ts): the gates of a supervised launch.
-- WriterScope (src/domain/writer-scope.ts) and StagePaths (src/core/stage-paths.ts, the keys of
-- src/core/admission.ts): the names that leases and attempts go by. Regular expressions are functions on
-- code units.
-- Store (src/store/database.ts): the tables as lists of rows under their primary keys, with upserts,
-- unique idempotency keys and ordered listings; Store/Table has the operations on one table and
-- Store/Rows and Store/Outbox their laws.
-- Manifest (src/core/manifest.ts): the order of the tickets. OperatorLoop (src/core/operator-loop.ts):
-- what the operator's loop does next. AcpSlots (src/core/acp-slots.ts): the cap on sessions.
-- Controller: actions on the ledger, the locks and a counter, that may throw (Controller/Exec). A
-- transaction rolls back the ledger and nothing else, as in the code. Context is
-- src/core/controller-context.ts, Commands src/core/wave-commands.ts and src/core/budget-stop.ts, Leases
-- and Recovery src/core/lease-release.ts, Rows and Admission src/core/admission.ts, Completion
-- src/core/tick.ts. Mutation, Approval, Closing, Cancellation and the children of Admission and
-- Completion hold the proofs; Frames and Loops what they share.
-- The controller's dealings with workers and workspaces. A worker and a workspace are functions in a
-- record (Controller/Adapters, Controller/Workspace): they may answer anything, and the worker's answers
-- may depend on the calls made so far, which the controller keeps as a list, newest first.
-- Hops is src/core/launch-hops.ts. Reasons is the wording of src/core/settlement.ts and
-- src/core/fail-launch.ts, FailLaunch the rest of the latter. Dispatch and Observe are src/core/launch.ts:
-- Dispatch takes the pending rows to the worker, Observe reconciles and observes the launched ones; Quiet
-- has the actions that ask for no launch, Dispatch/Spawning and Dispatch/Once count the launches of a
-- key, and Dispatch/Races is about two processes.
-- LandLock is src/core/land-lock.ts and LandCloseout src/core/land-closeout.ts; `try`/`finally` is
-- `try_finally` of Exec. CloseoutMode is src/domain/closeout-mode.ts, ApplyCloseout
-- src/core/apply-closeout.ts, PendingCloseout src/core/pending-closeout.ts.
-- Reviews has what src/core/ux-review-settle.ts and src/core/plan-review-settle.ts share, UxReviews and
-- PlanReviews the rest of them; what a review's file says, and what the payload of an event parses to, are
-- functions in a record, `ReviewFiles`. PlanArtifact is src/core/plan-artifact.ts, PlanSettle
-- src/core/plan-settle.ts. StageChecks and Settlement are src/core/settlement.ts: first the checks of a
-- plan's text and of an implementation, then the transaction and the closeout.
-- Watchdog is src/core/stage-watchdog.ts, PrimaryDirty src/core/primary-dirty-gate.ts with ScopePaths
-- (src/domain/scope-paths.ts), LaunchGate `assertLaunchAllowed` of src/core/wave-create.ts. Tick is the
-- rest of src/core/tick.ts: the tickets that a round puts on the way, and the round itself, which calls
-- everything above in the code's order. Start is `startWave` of src/core/wave-commands.ts. Runs has the
-- methods of src/core/controller.ts as commands, the loop of src/core/run-until-idle.ts, and runs:
-- sequences of commands, given by one process or by several over one ledger, between which a process may
-- be started anew.
-- Tame has the actions that ask the worker for no launch, a rule for each way to build an action, and one
-- child for each part of the controller; Tick/Once and Runs/Once add the dispatch. Launcher is an abstract
-- launcher of tasks, which queues a new task or launches a queued one that was never launched; the keys of
-- the outbox and the calls of the worker are its state, and Runs/Launcher compares a run with it.
-- Prelude has the shared names; Examples has test data and the theorems at concrete inputs.
--
-- Numbers are natural numbers: timestamps, counts and token sums. JavaScript's numbers are exact below
-- 2^53, and no bound is checked in the code. An `undefined` field is an option. The clock stands still
-- during one command, and in `run_until_idle` during one step; random ids are arguments, and the ids that
-- a theorem needs to be new say so.
-- Three functions run on fuel: `order_loop` takes as many rounds as there are tickets, each of which
-- takes one away; `digits` of n takes n, each of which divides by ten; and the search for a dead ancestor
-- takes one more than the tickets, each call but the last seeing a new one.
--
-- Not modelled: what stands behind the adapters to workers, git, files and the network, the texts of
-- prompts, reviews and reports and their parsing, the command line, the projection to the workflow backend
-- and crash injection, all of which is input and output; and, of the controller, the creation of a wave,
-- the loop over all live waves and the admission checks on overlapping scopes and holds. A process that
-- dies within a command is not modelled, nor are commands of two processes that overlap: a run has whole
-- commands, one after the other. What an overlap can do to a dispatch is in Dispatch/Races.
pub mod Prelude
pub mod Domain
pub mod StateMachine
pub mod Budget
pub mod Lease
pub mod Outbox
pub mod Safety
pub mod WriterScope
pub mod Authority
pub mod Store
pub mod AcpSlots
pub mod StagePaths
pub mod Manifest
pub mod OperatorLoop
pub mod Controller
pub mod Examples
pub mod ScopePaths
