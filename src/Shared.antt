-- ===== src/Shared.antt =====
-- shared/: encodings that the server and its clients have in common.
pub mod Base58
pub mod Hex
pub mod CanonicalJson
