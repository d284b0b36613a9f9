-- ===== src/Seal/Jobs.antt =====
-- db/repository.ts: the statements that write a seal job, and the marks of a seal on its case.
use open_cawt.Base.{
  ℕ, ◌+◌, max, String, Bool, true, false, Option, none, some, leb, str_eq, or_else, if◌then◌else◌,
}
use open_cawt.Session.Types.{CaseStatus, SessionStage, SealStatus, CaseDb}
use open_cawt.Session.Store.{upsert_case_runtime, of_runtime}
use open_cawt.Seal.Types.{
  JobStatus, ErrorStage, SealError, SealRequest, SealResponse, Minted, Refused, SealJob, VerdictRow,
  Docket,
}

-- `UPDATE seal_jobs SET … WHERE job_id = ?`
abbrev pub update_job : String → (SealJob → SealJob) → Option SealJob → Option SealJob
update_job job_id f none = none
update_job job_id f (some job) = if str_eq job.job_id job_id then some (f job) else some job

-- `… WHERE job_id = ?`
abbrev pub with_id : String → Option SealJob → Option SealJob
with_id job_id none = none
with_id job_id (some job) = if str_eq job.job_id job_id then some job else none

unfoldable pub get_seal_job_by_job_id : String → Docket → Option SealJob
get_seal_job_by_job_id job_id d = with_id job_id d.job

-- A statement on the case with an id.
abbrev pub on_case : String → (CaseDb → CaseDb) → CaseDb → CaseDb
on_case case_id f db = if str_eq db.row.case_id case_id then f db else db

unfoldable pub update_case_runtime_stage : SessionStage → ℕ → Option ℕ → CaseDb → CaseDb
unfolding upsert_case_runtime
update_case_runtime_stage stage at deadline db =
    upsert_case_runtime
      (record {
        current_stage = stage;
        stage_started_at = at;
        stage_deadline_at = deadline;
        scheduled_session_start_at = of_runtime (λ r. r.scheduled_session_start_at) db.runtime;
        voting_hard_deadline_at = of_runtime (λ r. r.voting_hard_deadline_at) db.runtime;
        void_reason = elim db.runtime [ none ↦ none | some r ↦ r.void_reason ];
        voided_at = of_runtime (λ r. r.voided_at) db.runtime;
      })
      db

unfoldable pub set_case_seal_state : SealStatus → Option String → CaseDb → CaseDb
set_case_seal_state seal_status error db = record db {
  row = record (db.row) { seal_status = seal_status; seal_error = error };
}

-- `INSERT OR REPLACE`: the row with this id or for this case goes.
unfoldable pub create_seal_job : String → SealRequest → String → ℕ → Docket → Docket
create_seal_job case_id request payload_hash now d = record d {
  job = some (record {
    job_id = request.job_id;
    case_id = case_id;
    status = JobStatus.queued;
    attempts = 0;
    last_error = none;
    claimed_at = none;
    completed_at = none;
    payload_hash = payload_hash;
    metadata_uri = none;
    request = request;
    response = none;
    created_at = now;
  });
}

pub record CreatedJob : Type 0 where
  pub job_id : String
  pub created : Bool
  pub status : JobStatus

abbrev pub created_or_found :
    Option SealJob → String → SealRequest → String → ℕ → Docket → Docket × CreatedJob
unfolding create_seal_job set_case_seal_state
created_or_found (some job) case_id request payload_hash now d =
    (d, record { job_id = job.job_id; created = false; status = job.status })
created_or_found none case_id request payload_hash now d =
    let d' = create_seal_job case_id request payload_hash now d in
    (
      record d' { db = on_case case_id (set_case_seal_state SealStatus.pending none) d'.db },
      record { job_id = request.job_id; created = true; status = JobStatus.queued },
    )

unfoldable pub create_seal_job_if_missing :
    String → SealRequest → String → ℕ → Docket → Docket × CreatedJob
create_seal_job_if_missing case_id request payload_hash now d =
    created_or_found d.job case_id request payload_hash now d

abbrev pub same_status : JobStatus → JobStatus → Bool
same_status JobStatus.queued JobStatus.queued = true
same_status JobStatus.minting JobStatus.minting = true
same_status JobStatus.minted JobStatus.minted = true
same_status JobStatus.failed JobStatus.failed = true
same_status JobStatus.dead_letter JobStatus.dead_letter = true
same_status _ _ = false

abbrev pub claimed : ℕ → SealJob → SealJob
claimed now job = record job {
  status = JobStatus.minting;
  attempts = job.attempts + 1;
  last_error = none;
  claimed_at = some now;
}

abbrev pub claim_found : Option SealJob → JobStatus → ℕ → Docket → Docket × Bool
claim_found none expected now d = (d, false)
claim_found (some job) expected now d =
    if same_status job.status expected
    then (record d { job = some (claimed now job) }, true)
    else (d, false)

-- `UPDATE … WHERE job_id = ? AND status = ?`
unfoldable pub claim_seal_job : String → JobStatus → ℕ → Docket → Docket × Bool
claim_seal_job job_id expected now d = claim_found (with_id job_id d.job) expected now d

-- `a ?? b`, where both may be missing.
abbrev pub coalesce {ℓ} : {A : Type ℓ} → Option A → Option A → Option A
coalesce none other = other
coalesce (some a) other = some a

abbrev pub is_quota : Option String → Bool
is_quota none = false
is_quota (some code) = str_eq code "PINATA_QUOTA_EXCEEDED"

abbrev pub mint_recorded : Minted → Option String → SealJob → SealJob
mint_recorded m metadata_uri job = record job {
  status = JobStatus.minted;
  response = some (SealResponse.minted m);
  metadata_uri = some (or_else metadata_uri m.metadata_uri);
  completed_at = m.sealed_at;
  last_error = none;
}

abbrev pub refusal_recorded : Refused → Option String → ℕ → SealJob → SealJob
refusal_recorded f metadata_uri now job = record job {
  status = if is_quota f.error_code then JobStatus.dead_letter else JobStatus.failed;
  response = some (SealResponse.failed f);
  metadata_uri = coalesce (coalesce metadata_uri f.metadata_uri) job.metadata_uri;
  last_error = some (record {
    code = or_else f.error_code "MINT_FAILED";
    message = or_else f.error_message "Mint worker returned failure.";
    stage = ErrorStage.worker_result;
    retryable = if is_quota f.error_code then false else true;
  });
  completed_at = some now;
}

unfoldable pub mark_seal_job_result : SealResponse → Option String → ℕ → Docket → Docket
mark_seal_job_result (SealResponse.minted m) metadata_uri now d = record d {
  job = update_job m.job_id (mint_recorded m metadata_uri) d.job;
}
mark_seal_job_result (SealResponse.failed f) metadata_uri now d = record d {
  job = update_job f.job_id (refusal_recorded f metadata_uri now) d.job;
}

-- The status after an error: no state of the job is asked for.
abbrev pub status_after_error : ℕ → ℕ → JobStatus
status_after_error attempts max_attempts =
    if leb (max 1 max_attempts) attempts then JobStatus.dead_letter else JobStatus.failed

unfoldable pub mark_seal_job_failed : String → SealError → SealResponse → ℕ → ℕ → Docket → Docket
mark_seal_job_failed job_id error response max_attempts now d = record d {
  job =
      update_job job_id
        (λ job. record job {
          status = status_after_error job.attempts max_attempts;
          last_error = some error;
          response = some response;
          completed_at = some now;
        })
        d.job;
}

abbrev pub is_redrivable : JobStatus → Bool
is_redrivable JobStatus.failed = true
is_redrivable JobStatus.dead_letter = true
is_redrivable _ = false

abbrev pub requeued : SealJob → SealJob
requeued job = record job {
  status = JobStatus.queued;
  last_error = none;
  claimed_at = none;
  completed_at = none;
}

abbrev pub requeue_found : Option SealJob → Docket → Docket × Bool
requeue_found none d = (d, false)
requeue_found (some job) d =
    if is_redrivable job.status then (record d { job = some (requeued job) }, true) else (d, false)

unfoldable pub requeue_seal_job_for_redrive : String → Docket → Docket × Bool
requeue_seal_job_for_redrive job_id d = requeue_found (with_id job_id d.job) d

-- The marks of a seal on the row of the verdict; a row that is missing is made, without a hash.
abbrev pub verdict_sealed : Minted → ℕ → Option VerdictRow → VerdictRow
verdict_sealed m at none = record {
  verdict_hash = "";
  created_at = at;
  asset_id = some m.asset_id;
  tx_sig = some m.tx_sig;
  sealed_uri = some m.sealed_uri;
}
verdict_sealed m at (some v) = record v {
  asset_id = some m.asset_id;
  tx_sig = some m.tx_sig;
  sealed_uri = some m.sealed_uri;
}

abbrev pub case_sealed : Minted → ℕ → CaseDb → CaseDb
case_sealed m at db = record db {
  row = record (db.row) {
    status = CaseStatus.sealed;
    session_stage = SessionStage.sealed;
    sealed_at = some at;
    seal_asset_id = some m.asset_id;
    seal_tx_sig = some m.tx_sig;
    seal_uri = some m.sealed_uri;
    metadata_uri = some m.metadata_uri;
    seal_status = SealStatus.sealed;
    seal_error = none;
  };
}

-- The case that the answer names.
unfoldable pub mark_case_sealed : Minted → ℕ → Docket → Docket
unfolding update_case_runtime_stage
mark_case_sealed m now d =
    let at = or_else m.sealed_at now in
    if str_eq d.db.row.case_id m.case_id
    then record d {
      db = update_case_runtime_stage SessionStage.sealed at none (case_sealed m at d.db);
      verdict = some (verdict_sealed m at d.verdict);
    }
    else d
