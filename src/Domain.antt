-- ===== src/Domain.antt =====
-- domain/types.ts: the statuses and the records that the controller keeps.
mod Status
mod Records
pub mod Worker
pub use Status.*
pub use Records.*
