-- ===== src/Controller.antt =====
-- The controller (core/*.ts): actions on the ledger and on the in-memory locks.
pub mod Exec
pub mod Context
pub mod Mutation
pub mod Leases
pub mod Recovery
pub mod Frames
pub mod Loops
pub mod Closing
pub mod Cancellation
pub mod Approval
pub mod Rows
pub mod Admission
pub mod Commands
pub mod Completion
pub mod Hops
pub mod Reasons
pub mod FailLaunch
pub mod Adapters
pub mod Quiet
pub mod Launcher
pub mod Tame
pub mod Dispatch
pub mod LandLock
pub mod CloseoutMode
pub mod Workspace
pub mod ApplyCloseout
pub mod LandCloseout
pub mod PendingCloseout
pub mod Reviews
pub mod UxReviews
pub mod PlanReviews
pub mod PlanArtifact
pub mod PlanSettle
pub mod StageChecks
pub mod Settlement
pub mod Observe
pub mod Watchdog
pub mod PrimaryDirty
pub mod LaunchGate
pub mod Tick
pub mod Start
pub mod Runs
