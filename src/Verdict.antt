-- ===== src/Verdict.antt =====
-- server/services/verdict.ts: the tally of the ballots of a case and the verdict computed from it.
-- Hashes and reasons are texts. The hash of the bundle is a parameter of its users.
pub mod Tally
pub mod Remedies
pub mod Compute
