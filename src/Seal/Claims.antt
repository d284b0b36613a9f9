-- ===== src/Seal/Claims.antt =====
-- The start of a run by its cases, and one run of a job at a time.
use open_cawt.Base.{
  ℕ, String, Bool, true, false, Option, none, some, ◌≡◌, refl, ap, subst, str_eq, Bool-cases, inl,
  inr,
}
use open_cawt.Base.Errors.{Result, ok, err}
use open_cawt.Session.Types.{SealStatus, CaseDb}
use open_cawt.Seal.Types.{JobStatus, SealRequest, SealJob, VerdictRow, Docket}
use open_cawt.Seal.Jobs.{
  with_id, get_seal_job_by_job_id, claim_seal_job, claimed, on_case, set_case_seal_state,
}
use open_cawt.Seal.Worker.{Started, done, sent, start_seal_job, with_metadata_uri, plain_error}

-- A docket by its parts.
abbrev pub docket : CaseDb → Option SealJob → Option VerdictRow → Docket
docket db job verdict = record { db = db; job = job; verdict = verdict }

abbrev pub is_claimable : JobStatus → Bool
is_claimable JobStatus.queued = true
is_claimable JobStatus.failed = true
is_claimable _ = false

abbrev pub is_held : JobStatus → Bool
is_held JobStatus.minting = true
is_held JobStatus.dead_letter = true
is_held _ = false

-- The docket after a claim.
abbrev pub dispatched : ℕ → CaseDb → SealJob → Option VerdictRow → Docket
dispatched now db j v =
    docket (on_case j.request.case_id (set_case_seal_state SealStatus.minting none) db)
      (some (claimed now j)) v

module _ (job_id : String) (now : ℕ) (db : CaseDb) (v : Option VerdictRow) where
  -- What the start of a run comes to.
  pub data Starts : Option SealJob → Docket × Result Started → Type 0 where
    absent :
        {o : Option SealJob}
        → with_id job_id o ≡ none
        → Starts o (docket db o v, err (plain_error "SEAL_JOB_NOT_FOUND"))
    over :
        {j : SealJob}
        → str_eq j.job_id job_id ≡ true
        → j.status ≡ JobStatus.minted
        → Starts (some j) (docket db (some j) v, ok done)
    busy :
        {j : SealJob}
        → str_eq j.job_id job_id ≡ true
        → is_held j.status ≡ true
        → Starts (some j) (docket db (some j) v, err (plain_error "SEAL_JOB_NOT_QUEUED"))
    sends :
        {j : SealJob}
        → str_eq j.job_id job_id ≡ true
        → is_claimable j.status ≡ true
        → Starts
            (some j)
            (dispatched now db j v, ok (sent (with_metadata_uri j.metadata_uri j.request)))

  by_status :
      (j : SealJob) (s : JobStatus)
      → str_eq j.job_id job_id ≡ true
      → j.status ≡ s
      → Starts (some j) (start_seal_job job_id now (docket db (some j) v))
  unfolding start_seal_job get_seal_job_by_job_id claim_seal_job set_case_seal_state
  by_status j JobStatus.queued e h = simp (e, h) (sends e (rw h refl))
  by_status j JobStatus.minting e h = simp (e, h) (busy e (rw h refl))
  by_status j JobStatus.minted e h = simp (e, h) (over e h)
  by_status j JobStatus.failed e h = simp (e, h) (sends e (rw h refl))
  by_status j JobStatus.dead_letter e h = simp (e, h) (busy e (rw h refl))

  -- Every start is one of these.
  pub start-Starts : (o : Option SealJob) → Starts o (start_seal_job job_id now (docket db o v))
  unfolding start_seal_job get_seal_job_by_job_id claim_seal_job set_case_seal_state
  start-Starts none = absent refl
  start-Starts (some j) = elim (Bool-cases (str_eq j.job_id job_id)) [
    | inl e ↦ by_status j j.status e refl
    | inr e ↦ simp e (absent (rw e refl))
  ]

-- After a start that is sent, the job is with the worker.
pub record IsMinting (job_id : String) (d : Docket) : Type 0 where
  pub job : SealJob
  pub on_file : d.job ≡ some job
  pub same_job : str_eq job.job_id job_id ≡ true
  pub minting : job.status ≡ JobStatus.minting

pub sent-IsMinting :
    (job_id : String) (now : ℕ) (d d1 : Docket) (request : SealRequest)
    → start_seal_job job_id now d ≡ (d1, ok (sent request))
    → IsMinting job_id d1
sent-IsMinting job_id now d d1 request h =
    subst (λ (r : Docket × Result Started). IsMinting job_id r.0) h
      (by_case d.job (start_seal_job job_id now d) (start-Starts job_id now d.db d.verdict d.job)
        (ap (λ r. r.1) h))
  where
    by_case :
        (o : Option SealJob) (r : Docket × Result Started)
        → Starts job_id now d.db d.verdict o r
        → r.1 ≡ ok (sent request)
        → IsMinting job_id r.0
    by_case o r (absent e) k = cc
    by_case o r (over e m) k = cc
    by_case o r (busy e m) k = cc
    by_case o r (sends e m) k = record { job = _; on_file = refl; same_job = e; minting = refl }
