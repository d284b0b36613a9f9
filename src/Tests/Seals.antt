-- ===== src/Tests/Seals.antt =====
-- The seal of a closed case.
use open_cawt.Base.{ℕ, String, none, some, List, [], ◌∷◌, ◌≡◌, refl, sym, ap, str_eq, if◌then◌else◌}
use open_cawt.Base.Errors.{ok, err, conflict}
use open_cawt.Verdict.Compute.{CaseOutcome}
use open_cawt.Session.Types.{CaseStatus, SessionStage, Outcome, CaseDb}
use open_cawt.Seal.Types.{JobStatus, SealRequest, SealResponse, Minted, Refused, SealJob, Docket}
use open_cawt.Seal.Jobs.{get_seal_job_by_job_id, claim_seal_job, set_case_seal_state}
use open_cawt.Seal.Worker.{Mode, Answer, start_seal_job, apply_seal_result}
use open_cawt.Seal.Routes.{replayed, seal_result, job_of, case_of}
use open_cawt.Seal.Claims.{docket}
use open_cawt.Seal.Results.{after_results, seal_result-Decides}
use open_cawt.Seal.Reaches.{Act, start, finish, result, acts, Later, acts-Later, start-excludes}
use open_cawt.Seal.Receipts.{IsHonest, IsConsistent}
use open_cawt.Seal.Receipts.Served.{enqueue_call, retry_call, serves, serves-IsConsistent}
use open_cawt.Tests.Courts.{case_in, seal_env}

abbrev request : SealRequest
request = record {
  job_id = "j";
  case_id = "c";
  verdict_hash = "v";
  transcript_root_hash = "t";
  jury_selection_proof_hash = "p";
  ruleset_version = "v1";
  drand_round = 7;
  drand_randomness = "r";
  juror_pool_snapshot_hash = "h";
  outcome = Outcome.decided CaseOutcome.for_prosecution;
  decided_at = 4;
  external_url = "u";
  verdict_uri = "u";
  metadata_uri = none;
  case_summary = "s";
}

abbrev job : SealJob
job = record {
  job_id = "j";
  case_id = "c";
  status = JobStatus.queued;
  attempts = 0;
  last_error = none;
  claimed_at = none;
  completed_at = none;
  payload_hash = "x";
  metadata_uri = none;
  request = request;
  response = none;
  created_at = 4;
}

abbrev closed_case : CaseDb
closed_case =
    let db = case_in SessionStage.closed CaseStatus.closed in
    record db {
      row = record (db.row) {
        verdict_hash = some "v";
        transcript_root_hash = some "t";
        jury_selection_proof_hash = some "p";
        decided_at = some 4;
        outcome = some (Outcome.decided CaseOutcome.for_prosecution);
      };
    }

abbrev waiting : Docket
waiting = docket closed_case (some job) none

abbrev minted : Minted
minted = record {
  job_id = "j";
  case_id = "c";
  asset_id = "a";
  tx_sig = "x";
  sealed_uri = "u";
  metadata_uri = "m";
  sealed_at = some 9;
}

abbrev refused : Refused
refused = record {
  job_id = "j";
  case_id = "c";
  metadata_uri = none;
  error_code = none;
  error_message = some "no";
}

abbrev started : Docket
started = (start_seal_job "j" 5 waiting).0

-- Two more starts.
start-excludes_example : acts seal_env ((6, start "j") ∷ (7, start "j") ∷ []) started ≡ (started, 0)
unfolding start_seal_job get_seal_job_by_job_id claim_seal_job set_case_seal_state
start-excludes_example =
    start-excludes seal_env "j" 5 waiting started request ((6, start "j") ∷ (7, start "j") ∷ [])
      refl refl

abbrev settled : Docket
settled = (seal_result seal_env (SealResponse.minted minted) 9 waiting).0

abbrev failure : SealResponse
failure = SealResponse.failed refused

-- A later failure of the same job, twice.
seal_result_example :
    seal_result seal_env failure 11 (after_results seal_env ((10, failure) ∷ []) settled) ≡ (
      settled,
      if str_eq
            (seal_env.response_hash (SealResponse.minted minted))
            (seal_env.response_hash failure)
          then ok replayed
          else err (conflict "SEAL_JOB_ALREADY_FINALISED"),
    )
unfolding seal_result get_seal_job_by_job_id apply_seal_result
seal_result_example =
    seal_result-Decides seal_env (SealResponse.minted minted) failure 9 11 waiting settled
      ((10, failure) ∷ []) refl ((refl, refl), tt) refl refl

abbrev happenings : List (ℕ × Act)
happenings =
    (5, start "j")
    ∷ (6, result (SealResponse.minted minted))
    ∷ (7, finish Mode.enqueue "j" request (Answer.error "timeout"))
    ∷ []

acts_example :
    Later (acts seal_env happenings waiting).1 job (acts seal_env happenings waiting).0.job
acts_example = acts-Later seal_env happenings waiting job refl

-- A worker that mints every request.
abbrev worker : Mode → SealRequest → Answer
worker mode r =
    Answer.response (SealResponse.minted (record minted { job_id = r.job_id; case_id = r.case_id }))

abbrev answer_job : Answer → String
answer_job (Answer.response r) = job_of r
answer_job (Answer.error message) = ""

abbrev answer_case : Answer → String
answer_case (Answer.response r) = case_of r
answer_case (Answer.error message) = ""

worker-IsHonest : IsHonest worker
worker-IsHonest mode r body e =
    (ap (λ (a : Answer). answer_job a) (sym e), ap (λ (a : Answer). answer_case a) (sym e))

serves_example : IsConsistent (
    serves seal_env worker
      ((5, enqueue_call "j") ∷ (6, retry_call "j") ∷ [])
      (docket closed_case none none))
serves_example =
    serves-IsConsistent seal_env worker worker-IsHonest
      ((5, enqueue_call "j") ∷ (6, retry_call "j") ∷ []) (docket closed_case none none) refl
