-- ===== src/Seal/Worker.antt =====
-- services/sealing.ts: a seal job is made, claimed, sent to the worker and settled by its answer.
use open_cawt.Base.{
  ℕ, String, Bool, true, false, Option, none, some, str_eq, ◌==◌, or_else, if◌then◌else◌,
}
use open_cawt.Base.Errors.{ApiError, Result, ok, err, bad_request, ◌>>=◌}
use open_cawt.Session.Types.{SessionStage, SealStatus, ActorRole, EventType, CaseRow}
use open_cawt.Session.Store.{append_transcript_event}
use open_cawt.Seal.Types.{
  JobStatus, ErrorStage, SealRequest, SealResponse, Refused, SealJob, Docket,
}
use open_cawt.Seal.Jobs.{
  get_seal_job_by_job_id, on_case, set_case_seal_state, CreatedJob, create_seal_job_if_missing,
  claim_seal_job, mark_seal_job_result, mark_seal_job_failed, mark_case_sealed, coalesce,
}

-- `config`, and what the platform computes: the URL of a decision, and SHA-256 of the canonical
-- JSON of a value.
pub record SealEnv : Type 0 where
  pub decision_url : String → String
  pub request_hash : SealRequest → String
  pub response_hash : SealResponse → String
  pub is_blank : String → Bool
  pub seal_job_max_attempts : ℕ

-- An `Error` that is no ApiError: it has its message for a code, and the status that `toApiError`
-- gives it.
abbrev pub plain_error : String → ApiError
plain_error message = record { status = 500; code = message }

-- `if (!value) throw`, for a text: the empty text is thrown out.
abbrev pub text_or : Option String → String → Result String
text_or none message = err (plain_error message)
text_or (some s) message = if str_eq s "" then err (plain_error message) else ok s

abbrev pub value_or {ℓ} : {A : Type ℓ} → Option A → String → Result A
value_or none message = err (plain_error message)
value_or (some a) message = ok a

-- The number 0 is thrown out as well.
abbrev pub number_or : Option ℕ → String → Result ℕ
number_or none message = err (plain_error message)
number_or (some n) message = if n == 0 then err (plain_error message) else ok n

unfoldable pub build_worker_seal_request : SealEnv → String → CaseRow → Result SealRequest
build_worker_seal_request env job_id rec =
    text_or rec.verdict_hash "SEAL_VERDICT_HASH_MISSING" >>= λ verdict_hash.
    text_or rec.transcript_root_hash "SEAL_TRANSCRIPT_HASH_MISSING" >>= λ transcript_root_hash.
    text_or rec.jury_selection_proof_hash "SEAL_JURY_PROOF_HASH_MISSING" >>= λ proof_hash.
    number_or rec.drand_round "SEAL_DRAND_METADATA_MISSING" >>= λ drand_round.
    text_or rec.drand_randomness "SEAL_DRAND_METADATA_MISSING" >>= λ drand_randomness.
    text_or rec.pool_snapshot_hash "SEAL_DRAND_METADATA_MISSING" >>= λ pool_snapshot_hash.
    value_or rec.decided_at "SEAL_DECIDED_AT_MISSING" >>= λ decided_at.
    value_or rec.outcome "SEAL_OUTCOME_MISSING" >>= λ outcome. ok (record {
      job_id = job_id;
      case_id = rec.case_id;
      verdict_hash = verdict_hash;
      transcript_root_hash = transcript_root_hash;
      jury_selection_proof_hash = proof_hash;
      ruleset_version = rec.ruleset_version;
      drand_round = drand_round;
      drand_randomness = drand_randomness;
      juror_pool_snapshot_hash = pool_snapshot_hash;
      outcome = outcome;
      decided_at = decided_at;
      external_url = env.decision_url rec.case_id;
      verdict_uri = env.decision_url rec.case_id;
      metadata_uri = none;
      case_summary = rec.summary;
    })

-- A failure leaves the case closed, with a notice.
unfoldable pub update_case_for_seal_failure : Refused → Docket → Docket
unfolding set_case_seal_state append_transcript_event
update_case_for_seal_failure f d = record d {
  db =
      on_case f.case_id
        (λ db. append_transcript_event ActorRole.court EventType.notice (some SessionStage.closed) (
          set_case_seal_state SealStatus.failed
            (some (or_else f.error_message (or_else f.error_code "Seal worker failed."))) db))
        d.db;
}

-- The parameter is `options?.metadataUri`.
unfoldable pub apply_seal_result : SealResponse → Option String → ℕ → Docket → Docket
unfolding mark_seal_job_result mark_case_sealed update_case_for_seal_failure append_transcript_event
apply_seal_result (SealResponse.minted m) metadata_uri now d =
    let d' = mark_case_sealed m now (
      mark_seal_job_result (SealResponse.minted m) (some (or_else metadata_uri m.metadata_uri)) now
        d) in
    record d' {
      db =
          on_case m.case_id
            (append_transcript_event ActorRole.court EventType.case_sealed
              (some SessionStage.sealed))
            d'.db;
    }
apply_seal_result (SealResponse.failed f) metadata_uri now d =
    update_case_for_seal_failure f
      (mark_seal_job_result (SealResponse.failed f) (coalesce metadata_uri f.metadata_uri) now d)

pub data Mode : Type 0 where
  enqueue retry : Mode

-- What the call of the worker comes to: a response, or an error with its message.
pub data Answer : Type 0 where
  response : SealResponse → Answer
  error : String → Answer

-- The first half of `runSealJob`, up to the call of the worker: nothing is left to do, or the
-- worker is sent a request.
pub data Started : Type 0 where
  done : Started
  sent : SealRequest → Started

-- `job.metadataUri ? { ...request, metadataUri } : request`
abbrev pub with_metadata_uri : Option String → SealRequest → SealRequest
with_metadata_uri none request = request
with_metadata_uri (some uri) request =
    if str_eq uri "" then request else record request { metadata_uri = some uri }

abbrev pub claim_status : JobStatus → JobStatus
claim_status JobStatus.failed = JobStatus.failed
claim_status _ = JobStatus.queued

abbrev pub is_minted : JobStatus → Bool
is_minted JobStatus.minted = true
is_minted _ = false

abbrev pub sent_if : SealJob → Docket × Bool → Docket × Result Started
unfolding set_case_seal_state
sent_if job (d, false) = (d, err (plain_error "SEAL_JOB_NOT_QUEUED"))
sent_if job (d, true) = (
  record d { db = on_case job.request.case_id (set_case_seal_state SealStatus.minting none) d.db },
  ok (sent (with_metadata_uri job.metadata_uri job.request)),
)

abbrev pub start_found : Option SealJob → String → ℕ → Docket → Docket × Result Started
unfolding claim_seal_job
start_found none job_id now d = (d, err (plain_error "SEAL_JOB_NOT_FOUND"))
start_found (some job) job_id now d =
    if is_minted job.status
    then (d, ok done)
    else sent_if job (claim_seal_job job_id (claim_status job.status) now d)

-- One run posts its request to the worker through `fetchJsonWithRetry`, which may post it several times.
unfoldable pub start_seal_job : String → ℕ → Docket → Docket × Result Started
unfolding get_seal_job_by_job_id
start_seal_job job_id now d = start_found (get_seal_job_by_job_id job_id d) job_id now d

abbrev pub dispatch_stage : Mode → ErrorStage
dispatch_stage Mode.enqueue = ErrorStage.enqueue_dispatch
dispatch_stage Mode.retry = ErrorStage.retry_dispatch

-- The second half: the answer of the worker to the request is recorded.
unfoldable pub finish_seal_job :
    SealEnv → Mode → String → SealRequest → Answer → ℕ → Docket → Docket × Result (Unit {0})
unfolding apply_seal_result mark_seal_job_failed set_case_seal_state
finish_seal_job env mode job_id request (response r) now d = (apply_seal_result r none now d, ok tt)
finish_seal_job env mode job_id request (error message) now d =
    let d' =
      mark_seal_job_failed job_id
        (record {
          code = "SEAL_WORKER_ERROR";
          message = message;
          stage = dispatch_stage mode;
          retryable = true;
        })
        (SealResponse.failed (record {
          job_id = job_id;
          case_id = request.case_id;
          metadata_uri = none;
          error_code = some "SEAL_WORKER_ERROR";
          error_message = some message;
        }))
        env.seal_job_max_attempts now d in
    (
      record d' {
        db = on_case request.case_id (set_case_seal_state SealStatus.failed (some message)) d'.db;
      },
      err (bad_request "SEAL_WORKER_ERROR"),
    )

abbrev pub finished :
    SealEnv
    → (Mode → SealRequest → Answer)
    → Mode
    → String
    → ℕ
    → Docket × Result Started
    → Docket × Result (Unit {0})
unfolding finish_seal_job
finished env worker mode job_id now (d, err e) = (d, err e)
finished env worker mode job_id now (d, ok done) = (d, ok tt)
finished env worker mode job_id now (d, ok (sent request)) =
    finish_seal_job env mode job_id request (worker mode request) now d

-- The whole of `runSealJob`, when nothing happens to the case while the worker works.
unfoldable pub run_seal_job :
    SealEnv
    → (Mode → SealRequest → Answer)
    → Mode
    → String
    → ℕ
    → Docket
    → Docket × Result (Unit {0})
unfolding start_seal_job
run_seal_job env worker mode job_id now d =
    finished env worker mode job_id now (start_seal_job job_id now d)

abbrev pub latest_status : Option SealJob → JobStatus
latest_status none = JobStatus.queued
latest_status (some job) = job.status

abbrev pub is_settled : JobStatus → Bool
is_settled JobStatus.minted = true
is_settled JobStatus.minting = true
is_settled _ = false

abbrev pub enqueue_result : CreatedJob → Docket × Result (Unit {0}) → Docket × Result CreatedJob
unfolding get_seal_job_by_job_id
enqueue_result c (d, err e) = (d, err e)
enqueue_result c (d, ok _) =
    (d, ok (record c { status = latest_status (get_seal_job_by_job_id c.job_id d) }))

abbrev pub then_run :
    SealEnv → (Mode → SealRequest → Answer) → ℕ → Docket × CreatedJob → Docket × Result CreatedJob
unfolding run_seal_job
then_run env worker now (d, c) =
    if is_settled c.status
    then (d, ok (record c { created = false }))
    else enqueue_result c (run_seal_job env worker Mode.enqueue c.job_id now d)

abbrev pub enqueue_request :
    SealEnv
    → (Mode → SealRequest → Answer)
    → String
    → ℕ
    → Result SealRequest
    → Docket
    → Docket × Result CreatedJob
unfolding create_seal_job_if_missing
enqueue_request env worker case_id now (err e) d = (d, err e)
enqueue_request env worker case_id now (ok request) d =
    then_run env worker now
      (create_seal_job_if_missing case_id request (env.request_hash request) now d)

-- `new_id` is the id that `createId` makes.
unfoldable pub enqueue_seal_job :
    SealEnv
    → (Mode → SealRequest → Answer)
    → String
    → ℕ
    → CaseRow
    → Docket
    → Docket × Result CreatedJob
unfolding build_worker_seal_request
enqueue_seal_job env worker new_id now rec d =
    enqueue_request env worker rec.case_id now (build_worker_seal_request env new_id rec) d

abbrev pub retry_result : String → Docket × Result (Unit {0}) → Docket × Result SealResponse
unfolding get_seal_job_by_job_id
retry_result job_id (d, err e) = (d, err e)
retry_result job_id (d, ok _) = (
  d,
  value_or (elim (get_seal_job_by_job_id job_id d) [ none ↦ none | some job ↦ job.response ])
      "SEAL_JOB_RESULT_MISSING",
)

unfoldable pub retry_seal_job :
    SealEnv → (Mode → SealRequest → Answer) → String → ℕ → Docket → Docket × Result SealResponse
unfolding run_seal_job
retry_seal_job env worker job_id now d =
    retry_result job_id (run_seal_job env worker Mode.retry job_id now d)
