-- ===== src/Requests.antt =====
-- What every signed request passes through: the signature, and the idempotency key.
pub mod Json
pub mod Idempotency
pub mod Signed
