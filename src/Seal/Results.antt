-- ===== src/Seal/Results.antt =====
-- The route of the worker's results, by its cases: a result is applied once.
use open_cawt.Base.{
  List, [], ◌∷◌, All, ℕ, true, false, Option, none, some, ◌≡◌, ◌∙◌, refl, sym, ap, subst, str_eq,
  if_elim, if◌then◌else◌, Bool-cases, inl, inr,
}
use open_cawt.Base.Errors.{
  ApiError, Result, ok, err, bad_request, not_found, conflict, require, require-true, both_ok, ◌>>◌,
}
use open_cawt.Session.Types.{CaseDb}
use open_cawt.Seal.Types.{JobStatus, SealResponse, SealJob, VerdictRow, Docket}
use open_cawt.Seal.Jobs.{
  get_seal_job_by_job_id, update_job, mark_seal_job_result, mark_case_sealed, mint_recorded,
  refusal_recorded, coalesce, with_id, is_quota,
}
use open_cawt.Seal.Worker.{SealEnv, apply_seal_result, update_case_for_seal_failure}
use open_cawt.Seal.Routes.{
  Settled, applied, replayed, seal_result, settle, settle_found, job_of, case_of, names_job,
  is_pending, is_sealable, is_recorded, replay_or_conflict, admit,
}
use open_cawt.Seal.Claims.{docket}

-- The job as a result leaves it.
abbrev pub with_result : SealResponse → ℕ → SealJob → SealJob
with_result (SealResponse.minted m) now job = mint_recorded m (some m.metadata_uri) job
with_result (SealResponse.failed f) now job =
    refusal_recorded f (coalesce none f.metadata_uri) now job

pub apply-job :
    (body : SealResponse) (now : ℕ) (d : Docket)
    → (apply_seal_result body none now d).job
      ≡ update_job (job_of body) (with_result body now) d.job
unfolding apply_seal_result mark_seal_job_result mark_case_sealed update_case_for_seal_failure
apply-job (SealResponse.minted m) now d =
    if_elim
      (λ (e : Docket). e.job ≡ update_job m.job_id (with_result (SealResponse.minted m) now) d.job)
      (str_eq d.db.row.case_id m.case_id) (λ _. refl) (λ _. refl)
apply-job (SealResponse.failed f) now d = refl

module _ (env : SealEnv) (body : SealResponse) (now : ℕ) (db : CaseDb) (v : Option VerdictRow) where
  -- A job that the result is for.
  pub record IsFor (j : SealJob) : Type 0 where
    pub names : names_job env body ≡ true
    pub same_job : str_eq j.job_id (job_of body) ≡ true
    pub same_case : str_eq j.case_id (case_of body) ≡ true

  pub data Settles : Option SealJob → Docket × Result Settled → Type 0 where
    refused : {o : Option SealJob} {e : ApiError} → Settles o (docket db o v, err e)
    repeats :
        {j : SealJob}
        → IsFor j
        → is_pending j.status ≡ false
        → is_recorded env body j.response ≡ true
        → Settles (some j) (docket db (some j) v, ok replayed)
    applies :
        {j : SealJob}
        → IsFor j
        → is_pending j.status ≡ true
        → is_sealable db.row.status ≡ true
        → Settles (some j) (apply_seal_result body none now (docket db (some j) v), ok applied)

  abbrev outcome : Option SealJob → Result Settled → Docket × Result Settled
  outcome o r = settle env body now (docket db o v) r

  after :
      (o : Option SealJob) (r : Result (Unit {0})) (rest : Result Settled)
      → (r ≡ ok tt → Settles o (outcome o rest))
      → Settles o (outcome o (r >> rest))
  unfolding apply_seal_result
  after o (ok u) rest h = h refl
  after o (err e) rest h = refused

  admits :
      (j : SealJob)
      → IsFor j
      → is_pending j.status ≡ true
      → Settles (some j) (outcome (some j) (admit env j body db.row))
  unfolding apply_seal_result
  admits j f p = after (some j) _ (ok applied) (λ h.
      applies f p
        (require-true (is_sealable db.row.status) _ (both_ok _ _ _ (both_ok _ _ _ h).0).0))

  compares :
      (j : SealJob)
      → IsFor j
      → is_pending j.status ≡ false
      → Settles (some j) (outcome (some j) (replay_or_conflict env j body))
  unfolding apply_seal_result
  compares j f p = elim (Bool-cases (is_recorded env body j.response)) [
    | inl e ↦ rw e (repeats f p e)
    | inr e ↦ rw e refused
  ]

  settles_found :
      (j : SealJob)
      → names_job env body ≡ true
      → str_eq j.job_id (job_of body) ≡ true
      → Settles (some j) (outcome (some j) (settle_found env (some j) body db.row))
  settles_found j n e = after (some j) _ _ (λ h.
      if_elim (λ (r : Result Settled). Settles (some j) (outcome (some j) r)) (is_pending j.status)
        (admits j (record { names = n; same_job = e; same_case = require-true _ _ h }))
        (compares j (record { names = n; same_job = e; same_case = require-true _ _ h })))

  looks :
      (j : SealJob)
      → names_job env body ≡ true
      → Settles
          (some j)
          (outcome (some j) (settle_found env (with_id (job_of body) (some j)) body db.row))
  unfolding apply_seal_result
  looks j n = elim (Bool-cases (str_eq j.job_id (job_of body))) [
    | inl e ↦ simp e (settles_found j n e)
    | inr e ↦ simp e refused
  ]

  -- Every result is settled in one of these ways.
  pub seal_result-Settles :
      (o : Option SealJob) → Settles o (seal_result env body now (docket db o v))
  unfolding seal_result get_seal_job_by_job_id apply_seal_result
  seal_result-Settles none =
      after none (require (names_job env body) (bad_request "SEAL_RESULT_INVALID"))
        (err (not_found "SEAL_JOB_NOT_FOUND")) (λ h. refused)
  seal_result-Settles (some j) = after (some j) _ _ (λ h. looks j (require-true _ _ h))

-- A job that holds a result.
record Holds (body : SealResponse) (o : Option SealJob) : Type 0 where
  job : SealJob
  found : o ≡ some job
  same_job : str_eq job.job_id (job_of body) ≡ true
  same_case : str_eq job.case_id (case_of body) ≡ true
  over : is_pending job.status ≡ false
  held : job.response ≡ some body

with_result-Holds :
    (body : SealResponse) (now : ℕ) (j : SealJob)
    → str_eq j.job_id (job_of body) ≡ true
    → str_eq j.case_id (case_of body) ≡ true
    → Holds body (some (with_result body now j))
with_result-Holds (SealResponse.minted m) now j e f = record {
  job = _;
  found = refl;
  same_job = e;
  same_case = f;
  over = refl;
  held = refl;
}
with_result-Holds (SealResponse.failed r) now j e f = record {
  job = _;
  found = refl;
  same_job = e;
  same_case = f;
  over =
      if_elim (λ (s : JobStatus). is_pending s ≡ false) (is_quota r.error_code) (λ _. refl)
        (λ _. refl);
  held = refl;
}

module _ (env : SealEnv) (body : SealResponse) (now : ℕ) where
  applied-Holds :
      (db : CaseDb) (v : Option VerdictRow) (o : Option SealJob) (r : Docket × Result Settled)
      → Settles env body now db v o r
      → r.1 ≡ ok applied
      → Holds body r.0.job × (names_job env body ≡ true)
  applied-Holds db v o r refused h = cc
  applied-Holds db v o r (repeats f p e) h = cc
  applied-Holds db v o r (applies {j} f p s) h = (
    subst (Holds body) (sym (apply-job body now (docket db (some j) v) ∙ rw f.same_job refl))
        (with_result-Holds body now j f.same_job f.same_case),
    f.names,
  )

  held-answers :
      (other : SealResponse) (later : ℕ) (d : Docket)
      → Holds body d.job
      → names_job env body ≡ true
      → job_of other ≡ job_of body
      → case_of other ≡ case_of body
      → seal_result env other later d ≡ (
        d,
        if str_eq (env.response_hash body) (env.response_hash other)
            then ok replayed
            else err (conflict "SEAL_JOB_ALREADY_FINALISED"),
      )
  unfolding seal_result get_seal_job_by_job_id apply_seal_result
  held-answers other later d h n e f =
      elim (Bool-cases (str_eq (env.response_hash body) (env.response_hash other))) [
        | inl k ↦ simp (h.found, e, f, n, h.same_job, h.same_case, h.over, h.held, k)
        | inr k ↦ simp (h.found, e, f, n, h.same_job, h.same_case, h.over, h.held, k)
      ]

-- The docket after results of the worker.
unfoldable pub after_results : SealEnv → List (ℕ × SealResponse) → Docket → Docket
unfolding seal_result
after_results env [] d = d
after_results env ((now, body) ∷ rest) d = after_results env rest (seal_result env body now d).0

abbrev pub IsForSame : SealResponse → ℕ × SealResponse → Type 0
IsForSame body (now, other) = (job_of other ≡ job_of body) × (case_of other ≡ case_of body)

held-results :
    (env : SealEnv) (body : SealResponse) (l : List (ℕ × SealResponse)) (d : Docket)
    → Holds body d.job
    → names_job env body ≡ true
    → All (IsForSame body) l
    → after_results env l d ≡ d
unfolding after_results
held-results env body [] d h n a = refl
held-results env body ((now, other) ∷ l) d h n ((e, f), a) =
    ap (λ (r : Docket × Result Settled). after_results env l r.0)
      (held-answers env body now other now d h n e f)
    ∙ held-results env body l d h n a

-- After a result has been applied, as long as nothing but results comes for the job, so that it is not
-- put back or started again, a result for the job and the case changes nothing: it is told that it is a
-- replay where its hash is that of the first result, and is refused as a conflict where it is not.
pub seal_result-Decides :
    (env : SealEnv) (body other : SealResponse) (now later : ℕ) (d d1 : Docket)
    (between : List (ℕ × SealResponse))
    → seal_result env body now d ≡ (d1, ok applied)
    → All (IsForSame body) between
    → job_of other ≡ job_of body
    → case_of other ≡ case_of body
    → seal_result env other later (after_results env between d1) ≡ (
      d1,
      if str_eq (env.response_hash body) (env.response_hash other)
          then ok replayed
          else err (conflict "SEAL_JOB_ALREADY_FINALISED"),
    )
seal_result-Decides env body other now later d d1 between h a e f =
    let (held, n) =
      applied-Holds env body now d.db d.verdict d.job (seal_result env body now d)
        (seal_result-Settles env body now d.db d.verdict d.job) (ap (λ r. r.1) h) in
    let holds = subst (λ (r : Docket × Result Settled). Holds body r.0.job) h held in
    ap (seal_result env other later) (held-results env body between d1 holds n a)
    ∙ held-answers env body now other later d1 holds n e f
