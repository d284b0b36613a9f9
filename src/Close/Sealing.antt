-- ===== src/Close/Sealing.antt =====
-- What the seal of a case leaves as it is: a property that the writes of a seal keep is kept by the
-- whole of it.
use open_cawt.Base.{ℕ, String, Option, none, some, str_eq, if_elim}
use open_cawt.Base.Errors.{Result, ok, err}
use open_cawt.Session.Types.{SealStatus, SessionStage, ActorRole, EventType, CaseDb}
use open_cawt.Session.Store.{append_transcript_event}
use open_cawt.Seal.Types.{SealRequest, SealResponse, Minted, SealJob, Docket}
use open_cawt.Seal.Jobs.{
  CreatedJob, set_case_seal_state, case_sealed, update_case_runtime_stage, mark_seal_job_result,
  mark_seal_job_failed, mark_case_sealed, created_or_found, create_seal_job,
  create_seal_job_if_missing, get_seal_job_by_job_id,
}
use open_cawt.Seal.Worker.{
  SealEnv, Mode, Answer, response, error, Started, with_metadata_uri, apply_seal_result,
  update_case_for_seal_failure, finish_seal_job, finished, run_seal_job, enqueue_result, is_settled,
  enqueue_request, enqueue_seal_job, build_worker_seal_request,
}
use open_cawt.Seal.Claims.{Starts, absent, over, busy, sends, dispatched, start-Starts}
use open_cawt.Close.Vote.{CloseEnv}
use open_cawt.Close.Pipeline.{seal_or_skip, job_or_none}

-- A property of a case that the writes of a seal keep.
pub record Keeps (P : CaseDb → Type 0) : Type 0 where
  pub state :
      (s : SealStatus) (e : Option String) (db : CaseDb) → P db → P (set_case_seal_state s e db)
  pub event :
      (r : ActorRole) (t : EventType) (s : Option SessionStage) (db : CaseDb)
      → P db
      → P (append_transcript_event r t s db)
  pub seal :
      (m : Minted) (at : ℕ) (db : CaseDb)
      → P db
      → P (update_case_runtime_stage SessionStage.sealed at none (case_sealed m at db))

module _ (P : CaseDb → Type 0) (k : Keeps P) where
  sealed-keeps : (m : Minted) (now : ℕ) (d : Docket) → P d.db → P (mark_case_sealed m now d).db
  unfolding mark_case_sealed
  sealed-keeps m now d p =
      if_elim (λ (e : Docket). P e.db) (str_eq d.db.row.case_id m.case_id) (λ _. k.seal m _ d.db p)
        (λ _. p)

  apply-keeps :
      (r : SealResponse) (now : ℕ) (d : Docket) → P d.db → P (apply_seal_result r none now d).db
  unfolding apply_seal_result mark_seal_job_result update_case_for_seal_failure
  apply-keeps (SealResponse.minted m) now d p =
      let marked = mark_seal_job_result (SealResponse.minted m) (some m.metadata_uri) now d in
      let q = sealed-keeps m now marked p in
      if_elim P (str_eq (mark_case_sealed m now marked).db.row.case_id m.case_id)
        (λ _. k.event _ _ _ _ q) (λ _. q)
  apply-keeps (SealResponse.failed f) now d p =
      if_elim P (str_eq d.db.row.case_id f.case_id) (λ _. k.event _ _ _ _ (k.state _ _ d.db p))
        (λ _. p)

  finish-keeps :
      (env : SealEnv) (mode : Mode) (job_id : String) (request : SealRequest) (a : Answer) (now : ℕ)
      (d : Docket)
      → P d.db
      → P (finish_seal_job env mode job_id request a now d).0.db
  unfolding finish_seal_job mark_seal_job_failed
  finish-keeps env mode job_id request (response r) now d p = apply-keeps r now d p
  finish-keeps env mode job_id request (error message) now d p =
      if_elim P (str_eq d.db.row.case_id request.case_id) (λ _. k.state _ _ d.db p) (λ _. p)

  starts-keeps :
      (env : SealEnv) (worker : Mode → SealRequest → Answer) (mode : Mode) (job_id : String)
      (now : ℕ) (d : Docket) (o : Option SealJob) (r : Docket × Result Started)
      → Starts job_id now d.db d.verdict o r
      → P d.db
      → P (finished env worker mode job_id now r).0.db
  unfolding finish_seal_job
  starts-keeps env worker mode job_id now d o r (absent h) p = p
  starts-keeps env worker mode job_id now d o r (over h m) p = p
  starts-keeps env worker mode job_id now d o r (busy h m) p = p
  starts-keeps env worker mode job_id now d o r (sends {j} h m) p =
      finish-keeps env mode job_id (with_metadata_uri j.metadata_uri j.request)
        (worker mode (with_metadata_uri j.metadata_uri j.request)) now
        (dispatched now d.db j d.verdict)
        (if_elim P (str_eq d.db.row.case_id j.request.case_id) (λ _. k.state _ _ d.db p) (λ _. p))

  run-keeps :
      (env : SealEnv) (worker : Mode → SealRequest → Answer) (mode : Mode) (job_id : String)
      (now : ℕ) (d : Docket)
      → P d.db
      → P (run_seal_job env worker mode job_id now d).0.db
  unfolding run_seal_job finish_seal_job
  run-keeps env worker mode job_id now d p =
      starts-keeps env worker mode job_id now d d.job _
        (start-Starts job_id now d.db d.verdict d.job) p

  result-keeps :
      (c : CreatedJob) (r : Docket × Result (Unit {0})) → P r.0.db → P (enqueue_result c r).0.db
  unfolding get_seal_job_by_job_id
  result-keeps c (d, ok u) p = p
  result-keeps c (d, err e) p = p

  created-keeps :
      (o : Option SealJob) (id : String) (request : SealRequest) (hash : String) (now : ℕ)
      (d : Docket)
      → P d.db
      → P (created_or_found o id request hash now d).0.db
  unfolding create_seal_job set_case_seal_state
  created-keeps (some j) id request hash now d p = p
  created-keeps none id request hash now d p =
      if_elim P (str_eq d.db.row.case_id id) (λ _. k.state _ _ d.db p) (λ _. p)

  enqueue_request-keeps :
      (env : SealEnv) (worker : Mode → SealRequest → Answer) (id : String) (now : ℕ)
      (r : Result SealRequest) (d : Docket)
      → P d.db
      → P (enqueue_request env worker id now r d).0.db
  unfolding create_seal_job_if_missing run_seal_job get_seal_job_by_job_id
  enqueue_request-keeps env worker id now (err e) d p = p
  enqueue_request-keeps env worker id now (ok request) d p =
      let made = created_or_found d.job id request (env.request_hash request) now d in
      let q = created-keeps d.job id request (env.request_hash request) now d p in
      if_elim (λ (r : Docket × Result CreatedJob). P r.0.db) (is_settled made.1.status) (λ _. q)
        (λ _.
          result-keeps made.1 (run_seal_job env worker Mode.enqueue made.1.job_id now made.0)
            (run-keeps env worker Mode.enqueue made.1.job_id now made.0 q))

  job-keeps : (r : Docket × Result CreatedJob) → P r.0.db → P (job_or_none r).0.db
  job-keeps (d, ok job) p = p
  job-keeps (d, err e) p = p

  -- So it is kept by the seal that follows a close, or by what is written in its place.
  pub seal_or_skip-keeps :
      (env : CloseEnv) (new_id : String) (now : ℕ) (d : Docket)
      → P d.db
      → P (seal_or_skip env new_id now d).0.db
  unfolding seal_or_skip enqueue_seal_job
  seal_or_skip-keeps env new_id now d p =
      if_elim (λ (r : Docket × Option CreatedJob). P r.0.db) d.db.row.sealed_disabled
        (λ _. k.event _ _ _ _ (k.state _ _ d.db p))
        (λ _. job-keeps _ (
          enqueue_request-keeps env.seal env.worker d.db.row.case_id now
            (build_worker_seal_request env.seal new_id d.db.row) d p))
