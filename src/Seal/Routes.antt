-- ===== src/Seal/Routes.antt =====
-- main.ts: the routes under /api/internal that retry, redrive and settle a seal job. The tokens of
-- the requests have been checked.
use open_cawt.Base.{
  ℕ, String, Bool, true, false, not, ◌||◌, Option, none, some, str_eq, or_else, is_some,
  if◌then◌else◌,
}
use open_cawt.Base.Errors.{
  ApiError, Result, ok, err, bad_request, not_found, conflict, require, ◌>>◌,
}
use open_cawt.Session.Types.{CaseStatus, CaseRow}
use open_cawt.Seal.Types.{JobStatus, SealRequest, SealResponse, SealJob, Docket}
use open_cawt.Seal.Jobs.{get_seal_job_by_job_id, requeue_seal_job_for_redrive}
use open_cawt.Seal.Worker.{SealEnv, Mode, Answer, apply_seal_result, retry_seal_job}

abbrev pub job_of : SealResponse → String
job_of (SealResponse.minted m) = m.job_id
job_of (SealResponse.failed f) = f.job_id

abbrev pub case_of : SealResponse → String
case_of (SealResponse.minted m) = m.case_id
case_of (SealResponse.failed f) = f.case_id

-- A job that waits for a result.
abbrev pub is_pending : JobStatus → Bool
is_pending JobStatus.queued = true
is_pending JobStatus.minting = true
is_pending _ = false

abbrev pub is_sealable : CaseStatus → Bool
is_sealable CaseStatus.closed = true
is_sealable CaseStatus.sealed = true
is_sealable _ = false

-- What the route of the results has done.
pub data Settled : Type 0 where
  replayed applied : Settled

-- What the route of redrives sends: the status of a job that is left as it is, or the response.
pub data Redriven : Type 0 where
  left : JobStatus → Redriven
  redriven : SealResponse → Redriven

module _ (env : SealEnv) where
  abbrev pub lacks_receipt : SealResponse → Bool
  lacks_receipt (SealResponse.failed f) = false
  lacks_receipt (SealResponse.minted m) =
      env.is_blank m.asset_id
      || env.is_blank m.tx_sig
      || env.is_blank m.sealed_uri
      || env.is_blank m.metadata_uri
      || not (is_some m.sealed_at)

  -- A hash that is the same as that of the result on record; where there is none, `{}` is hashed,
  -- which is no result.
  abbrev pub is_recorded : SealResponse → Option SealResponse → Bool
  is_recorded body none = false
  is_recorded body (some r) = str_eq (env.response_hash r) (env.response_hash body)

  abbrev pub replay_or_conflict : SealJob → SealResponse → Result Settled
  replay_or_conflict job body =
      if is_recorded body job.response
      then ok replayed
      else err (conflict "SEAL_JOB_ALREADY_FINALISED")

  -- The checks of a result for a job that waits.
  abbrev pub admit : SealJob → SealResponse → CaseRow → Result Settled
  admit job body rec =
      require (is_sealable rec.status) (conflict "CASE_NOT_CLOSABLE_FOR_SEAL")
      >> require (str_eq job.request.verdict_hash (or_else rec.verdict_hash ""))
          (bad_request "SEAL_VERDICT_HASH_MISMATCH")
      >> require (not (lacks_receipt body)) (bad_request "SEAL_RESULT_INVALID")
      >> ok applied

  abbrev pub settle_found : Option SealJob → SealResponse → CaseRow → Result Settled
  settle_found none body rec = err (not_found "SEAL_JOB_NOT_FOUND")
  settle_found (some job) body rec =
      require (str_eq job.case_id (case_of body)) (conflict "SEAL_JOB_CASE_MISMATCH")
      >> (if is_pending job.status then admit job body rec else replay_or_conflict job body)

  abbrev pub settle : SealResponse → ℕ → Docket → Result Settled → Docket × Result Settled
  unfolding apply_seal_result
  settle body now d (err e) = (d, err e)
  settle body now d (ok replayed) = (d, ok replayed)
  settle body now d (ok applied) = (apply_seal_result body none now d, ok applied)

  abbrev pub names_job : SealResponse → Bool
  names_job body = not (str_eq (job_of body) "" || str_eq (case_of body) "")

  -- `POST /api/internal/seal-result`
  unfoldable pub seal_result : SealResponse → ℕ → Docket → Docket × Result Settled
  unfolding get_seal_job_by_job_id
  seal_result body now d = settle body now d (
      require (names_job body) (bad_request "SEAL_RESULT_INVALID")
      >> settle_found (get_seal_job_by_job_id (job_of body) d) body d.db.row)

  abbrev pub sends : Docket × Result SealResponse → Docket × Result Redriven
  sends (d, err e) = (d, err e)
  sends (d, ok r) = (d, ok (redriven r))

  module _ (worker : Mode → SealRequest → Answer) where
    abbrev pub redrive_requeued : String → ℕ → Docket × Bool → Docket × Result Redriven
    unfolding retry_seal_job
    redrive_requeued job_id now (d, false) = (d, err (conflict "SEAL_JOB_NOT_REDRIVABLE"))
    redrive_requeued job_id now (d, true) = sends (retry_seal_job env worker job_id now d)

    -- Only a job that failed is redriven.
    abbrev pub redrive_status : JobStatus → String → ℕ → Docket → Docket × Result Redriven
    unfolding requeue_seal_job_for_redrive
    redrive_status JobStatus.minted job_id now d = (d, ok (left JobStatus.minted))
    redrive_status JobStatus.minting job_id now d = (d, ok (left JobStatus.minting))
    redrive_status JobStatus.queued job_id now d = (d, ok (left JobStatus.queued))
    redrive_status _ job_id now d =
        redrive_requeued job_id now (requeue_seal_job_for_redrive job_id d)

    abbrev pub redrive_found : Option SealJob → String → ℕ → Docket → Docket × Result Redriven
    redrive_found none job_id now d = (d, err (not_found "SEAL_JOB_NOT_FOUND"))
    redrive_found (some job) job_id now d = redrive_status job.status job_id now d

    -- `POST /api/internal/seal-jobs/:id/redrive`
    unfoldable pub redrive : String → ℕ → Docket → Docket × Result Redriven
    unfolding get_seal_job_by_job_id
    redrive job_id now d = redrive_found (get_seal_job_by_job_id job_id d) job_id now d

    -- The two errors of `retrySealJob` that have a status of their own.
    abbrev pub retry_error : ApiError → ApiError
    retry_error e =
        if str_eq e.code "SEAL_JOB_NOT_FOUND"
        then not_found "SEAL_JOB_NOT_FOUND"
        else if str_eq e.code "SEAL_JOB_NOT_QUEUED"
        then conflict "SEAL_JOB_NOT_QUEUED"
        else e

    abbrev pub retried : Docket × Result SealResponse → Docket × Result SealResponse
    retried (d, ok r) = (d, ok r)
    retried (d, err e) = (d, err (retry_error e))

    abbrev pub revive_status : JobStatus → String → Docket → Docket
    unfolding requeue_seal_job_for_redrive
    revive_status JobStatus.dead_letter job_id d = (requeue_seal_job_for_redrive job_id d).0
    revive_status _ job_id d = d

    abbrev pub revive : Option SealJob → String → Docket → Docket
    revive none job_id d = d
    revive (some job) job_id d = revive_status job.status job_id d

    -- `POST /api/internal/seal-jobs/:id/retry`
    unfoldable pub retry_route : String → ℕ → Docket → Docket × Result SealResponse
    unfolding get_seal_job_by_job_id retry_seal_job
    retry_route job_id now d =
        retried
          (retry_seal_job env worker job_id now (revive (get_seal_job_by_job_id job_id d) job_id d))
