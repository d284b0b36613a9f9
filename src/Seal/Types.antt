-- ===== src/Seal/Types.antt =====
-- The row of `seal_jobs` of one case, what the mint worker is asked and what it answers, with the
-- types of shared/contracts.ts.
use open_cawt.Base.{ℕ, String, Bool, Option}
use open_cawt.Session.Types.{CaseDb, Outcome}

pub data JobStatus : Type 0 where
  queued minting minted failed dead_letter : JobStatus

pub data ErrorStage : Type 0 where
  enqueue_dispatch retry_dispatch worker_result : ErrorStage

pub record SealError : Type 0 where
  pub code : String
  pub message : String
  pub stage : ErrorStage
  pub retryable : Bool

-- `WorkerSealRequest`; the image in its metadata is always the same.
pub record SealRequest : Type 0 where
  pub job_id : String
  pub case_id : String
  pub verdict_hash : String
  pub transcript_root_hash : String
  pub jury_selection_proof_hash : String
  pub ruleset_version : String
  pub drand_round : ℕ
  pub drand_randomness : String
  pub juror_pool_snapshot_hash : String
  pub outcome : Outcome
  pub decided_at : ℕ
  pub external_url : String
  pub verdict_uri : String
  pub metadata_uri : Option String
  pub case_summary : String

pub record Minted : Type 0 where
  pub job_id : String
  pub case_id : String
  pub asset_id : String
  pub tx_sig : String
  pub sealed_uri : String
  pub metadata_uri : String
  pub sealed_at : Option ℕ

pub record Refused : Type 0 where
  pub job_id : String
  pub case_id : String
  pub metadata_uri : Option String
  pub error_code : Option String
  pub error_message : Option String

-- `WorkerSealResponse`. An answer that mints without a time has none for `sealed_at`.
pub data SealResponse : Type 0 where
  minted : Minted → SealResponse
  failed : Refused → SealResponse

pub record SealJob : Type 0 where
  pub job_id : String
  pub case_id : String
  pub status : JobStatus
  pub attempts : ℕ
  pub last_error : Option SealError
  pub claimed_at : Option ℕ
  pub completed_at : Option ℕ
  pub payload_hash : String
  pub metadata_uri : Option String
  pub request : SealRequest
  pub response : Option SealResponse
  pub created_at : ℕ

-- The row of `verdicts`, without the bundle.
pub record VerdictRow : Type 0 where
  pub verdict_hash : String
  pub created_at : ℕ
  pub asset_id : Option String
  pub tx_sig : Option String
  pub sealed_uri : Option String

-- A case with its seal job, of which there is one at most (`case_id` is unique in `seal_jobs`), and
-- its row of `verdicts`.
pub record Docket : Type 0 where
  pub db : CaseDb
  pub job : Option SealJob
  pub verdict : Option VerdictRow
