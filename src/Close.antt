-- ===== src/Close.antt =====
-- `closeCasePipeline` of main.ts: the vote of a case is over, the verdict is computed from its rows,
-- with the judge's rulings on ties, and stored or the case made void, and a stored verdict is sent
-- to be sealed. The rows of reputations and of the learning export are left out.
pub mod Vote
pub mod Pipeline
pub mod Ties
pub mod Sealing
pub mod Decides
