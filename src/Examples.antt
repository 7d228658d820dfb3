-- ===== src/Examples.antt =====
-- Concrete runs: test data, and the theorems applied to it.
pub mod Data
pub mod Admission
pub mod Commands
pub mod Lifecycles
pub mod Locks
pub mod Plans
pub mod Endings
pub mod Fakes
pub mod Launches
pub mod Closeouts
pub mod Rounds
pub mod Runs
