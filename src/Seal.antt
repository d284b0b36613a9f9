-- ===== src/Seal.antt =====
-- services/sealing.ts: the seal job of a closed case, with the statements of db/repository.ts on
-- `seal_jobs` and on the case, and the routes of main.ts that drive it.
pub mod Types
pub mod Jobs
pub mod Worker
pub mod Routes
pub mod Claims
pub mod Results
pub mod Reaches
pub mod Receipts
