-- ===== src/Tests.antt =====
-- The theorems at concrete inputs.
pub mod Agreements
pub mod Courts
pub mod Verdicts
pub mod Seals
pub mod Closings
pub mod Encodings
pub mod Ballots
pub mod Filings
pub mod Urls
pub mod Messages
pub mod Juries
pub mod Sessions
pub mod Panels
pub mod Mutations
