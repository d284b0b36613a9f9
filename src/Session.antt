-- ===== src/Session.antt =====
-- server/services/sessionEngine.ts and the rows of server/db/repository.ts that it reads and writes:
-- the session of one case, from its screening to the vote. Times are milliseconds since the epoch, of
-- which the program's ISO texts are a printed form. Of a transcript event the number, actor, type and
-- stage are kept; the messages and payloads that it prints are not.
pub mod Types
pub mod Store
pub mod Panel
pub mod Stage
pub mod Ticks
pub mod Judging
pub mod Engine
