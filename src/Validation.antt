-- ===== src/Validation.antt =====
-- server/services/validation.ts: the principles that a text cites, and the hosts that a URL may not
-- name.
pub mod Principles
pub mod Hosts
pub mod Urls
