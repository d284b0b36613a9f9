-- ===== src/Seal/Receipts/Served.antt =====
-- The requests that a case gets about its seal, one after another.
use open_cawt.Base.{
  ℕ, String, Bool, true, false, Option, none, some, List, [], ◌∷◌, ◌≡◌, ◌∙◌, refl, sym, str_eq,
  if_elim, eq_iff,
}
use open_cawt.Base.Errors.{Result, ok, err}
use open_cawt.Session.Types.{CaseDb}
use open_cawt.Seal.Types.{JobStatus, SealRequest, SealResponse, SealJob, VerdictRow, Docket}
use open_cawt.Seal.Jobs.{
  CreatedJob, create_seal_job_if_missing, create_seal_job, created_or_found, set_case_seal_state,
  requeue_seal_job_for_redrive, requeue_found, is_redrivable, get_seal_job_by_job_id, with_id,
}
use open_cawt.Seal.Worker.{
  SealEnv, Mode, Answer, enqueue_seal_job, enqueue_request, then_run, enqueue_result, is_settled,
  run_seal_job, retry_seal_job, retry_result, is_minted,
}
use open_cawt.Seal.Routes.{
  Settled, seal_result, redrive, redrive_found, redrive_requeued, retry_route, revive,
  redrive_status, revive_status, is_pending, sends, retried, job_of, case_of,
}
use open_cawt.Seal.Claims.{docket}
use open_cawt.Seal.Results.{Settles, refused, repeats, applies, seal_result-Settles}
use open_cawt.Seal.Receipts.{open_case, Agrees, IsConsistent, IsHonest}
use open_cawt.Seal.Receipts.Applied.{apply-IsConsistent, run-IsConsistent, open-unsealed, str_eq_of}
use open_cawt.Seal.Receipts.Built.{IsBuilt, broken, built, build-IsBuilt}

pub data Call : Type 0 where
  enqueue_call : String → Call
  retry_call redrive_call : String → Call
  result_call : SealResponse → Call

module _ (env : SealEnv) (worker : Mode → SealRequest → Answer) where
  unfoldable pub serve : ℕ → Call → Docket → Docket
  unfolding enqueue_seal_job retry_route redrive seal_result
  serve now (enqueue_call new_id) d = (enqueue_seal_job env worker new_id now d.db.row d).0
  serve now (retry_call job_id) d = (retry_route env worker job_id now d).0
  serve now (redrive_call job_id) d = (redrive env worker job_id now d).0
  serve now (result_call body) d = (seal_result env body now d).0

  unfoldable pub serves : List (ℕ × Call) → Docket → Docket
  unfolding serve
  serves [] d = d
  serves ((now, call) ∷ calls) d = serves calls (serve now call d)

pending_not_minted : (s : JobStatus) → is_pending s ≡ true → is_minted s ≡ false
pending_not_minted JobStatus.queued h = refl
pending_not_minted JobStatus.minting h = refl
pending_not_minted JobStatus.failed h = cc
pending_not_minted JobStatus.dead_letter h = cc
pending_not_minted JobStatus.minted h = cc

settled-IsConsistent :
    (env : SealEnv) (body : SealResponse) (now : ℕ) (db : CaseDb) (v : Option VerdictRow)
    (o : Option SealJob) (r : Docket × Result Settled)
    → Settles env body now db v o r
    → Agrees o db
    → IsConsistent r.0
settled-IsConsistent env body now db v o r refused c = c
settled-IsConsistent env body now db v o r (repeats f p h) c = c
settled-IsConsistent env body now db v o r (applies {j} f q h) (n, p) =
    apply-IsConsistent body now db j v n (open-unsealed j db p (pending_not_minted j.status q))
      (sym ((eq_iff j.job_id (job_of body)).0 f.same_job))
      (sym ((eq_iff j.case_id (case_of body)).0 f.same_case) ∙ n.of_case)

redrivable_not_minted : (s : JobStatus) → is_redrivable s ≡ true → is_minted s ≡ false
redrivable_not_minted JobStatus.queued h = refl
redrivable_not_minted JobStatus.minting h = refl
redrivable_not_minted JobStatus.failed h = refl
redrivable_not_minted JobStatus.dead_letter h = refl
redrivable_not_minted JobStatus.minted h = cc

requeue-found :
    (db : CaseDb) (v : Option VerdictRow) (j : SealJob)
    → Agrees (some j) db
    → IsConsistent (requeue_found (some j) (docket db (some j) v)).0
requeue-found db v j (n, p) =
    if_elim (λ (r : Docket × Bool). IsConsistent r.0) (is_redrivable j.status)
      (λ h. (
        record { of_case = n.of_case; asks_case = n.asks_case; asks_job = n.asks_job },
        open_case refl (open-unsealed j db p (redrivable_not_minted j.status h)),
      ))
      (λ _. (n, p))

-- A job that is put back in the queue.
requeue-IsConsistent :
    (job_id : String) (db : CaseDb) (v : Option VerdictRow) (o : Option SealJob)
    → Agrees o db
    → IsConsistent (requeue_seal_job_for_redrive job_id (docket db o v)).0
unfolding requeue_seal_job_for_redrive
requeue-IsConsistent job_id db v none c = c
requeue-IsConsistent job_id db v (some j) c =
    if_elim (λ (o : Option SealJob). IsConsistent (requeue_found o (docket db (some j) v)).0)
      (str_eq j.job_id job_id) (λ _. requeue-found db v j c) (λ _. c)

enqueue_result-IsConsistent :
    (c : CreatedJob) (p : Docket × Result (Unit {0}))
    → IsConsistent p.0
    → IsConsistent (enqueue_result c p).0
unfolding get_seal_job_by_job_id
enqueue_result-IsConsistent c (d, ok u) h = h
enqueue_result-IsConsistent c (d, err e) h = h

retry_result-IsConsistent :
    (job_id : String) (p : Docket × Result (Unit {0}))
    → IsConsistent p.0
    → IsConsistent (retry_result job_id p).0
unfolding get_seal_job_by_job_id
retry_result-IsConsistent job_id (d, ok u) h = h
retry_result-IsConsistent job_id (d, err e) h = h

sends-IsConsistent :
    (env : SealEnv) (p : Docket × Result SealResponse)
    → IsConsistent p.0
    → IsConsistent (sends env p).0
sends-IsConsistent env (d, ok r) h = h
sends-IsConsistent env (d, err e) h = h

retried-IsConsistent :
    (env : SealEnv) (worker : Mode → SealRequest → Answer) (p : Docket × Result SealResponse)
    → IsConsistent p.0
    → IsConsistent (retried env worker p).0
retried-IsConsistent env worker (d, ok r) h = h
retried-IsConsistent env worker (d, err e) h = h

created-IsConsistent :
    (now : ℕ) (hash : String) (request : SealRequest) (db : CaseDb) (v : Option VerdictRow)
    (o : Option SealJob)
    → request.case_id ≡ db.row.case_id
    → Agrees o db
    → IsConsistent (created_or_found o db.row.case_id request hash now (docket db o v)).0
unfolding create_seal_job set_case_seal_state
created-IsConsistent now hash request db v (some j) e c = c
created-IsConsistent now hash request db v none e c =
    simp (str_eq_of db.row.case_id db.row.case_id refl)
      (record { of_case = refl; asks_case = e; asks_job = refl }, open_case refl c)

module _ (env : SealEnv) (worker : Mode → SealRequest → Answer) (honest : IsHonest worker) where
  then_run-IsConsistent :
      (now : ℕ) (d : Docket) (c : CreatedJob)
      → IsConsistent d
      → IsConsistent (then_run env worker now (d, c)).0
  unfolding run_seal_job get_seal_job_by_job_id
  then_run-IsConsistent now d c h =
      if_elim (λ (r : Docket × Result CreatedJob). IsConsistent r.0) (is_settled c.status) (λ _. h)
        (λ _.
          enqueue_result-IsConsistent c (run_seal_job env worker Mode.enqueue c.job_id now d)
            (run-IsConsistent env worker honest Mode.enqueue c.job_id now d h))

  retry-IsConsistent :
      (job_id : String) (now : ℕ) (d : Docket)
      → IsConsistent d
      → IsConsistent (retry_seal_job env worker job_id now d).0
  unfolding retry_seal_job
  retry-IsConsistent job_id now d h =
      retry_result-IsConsistent job_id (run_seal_job env worker Mode.retry job_id now d)
        (run-IsConsistent env worker honest Mode.retry job_id now d h)

  enqueue_request-IsConsistent :
      (new_id : String) (now : ℕ) (d : Docket) (r : Result SealRequest)
      → IsBuilt new_id d.db.row r
      → IsConsistent d
      → IsConsistent (enqueue_request env worker d.db.row.case_id now r d).0
  unfolding create_seal_job_if_missing
  enqueue_request-IsConsistent new_id now d r broken h = h
  enqueue_request-IsConsistent new_id now d r (built {request} a b) h =
      let made = created_or_found d.job d.db.row.case_id request (env.request_hash request) now d in
      then_run-IsConsistent now made.0 made.1
        (created-IsConsistent now (env.request_hash request) request d.db d.verdict d.job b h)

  revive_status-IsConsistent :
      (s : JobStatus) (job_id : String) (d : Docket)
      → IsConsistent d
      → IsConsistent (revive_status env worker s job_id d)
  unfolding requeue_seal_job_for_redrive
  revive_status-IsConsistent JobStatus.dead_letter job_id d h =
      requeue-IsConsistent job_id d.db d.verdict d.job h
  revive_status-IsConsistent JobStatus.queued job_id d h = h
  revive_status-IsConsistent JobStatus.minting job_id d h = h
  revive_status-IsConsistent JobStatus.minted job_id d h = h
  revive_status-IsConsistent JobStatus.failed job_id d h = h

  revive-IsConsistent :
      (o : Option SealJob) (job_id : String) (d : Docket)
      → IsConsistent d
      → IsConsistent (revive env worker o job_id d)
  revive-IsConsistent none job_id d h = h
  revive-IsConsistent (some j) job_id d h = revive_status-IsConsistent j.status job_id d h

  requeued-IsConsistent :
      (job_id : String) (now : ℕ) (p : Docket × Bool)
      → IsConsistent p.0
      → IsConsistent (redrive_requeued env worker job_id now p).0
  unfolding retry_seal_job
  requeued-IsConsistent job_id now (d, false) h = h
  requeued-IsConsistent job_id now (d, true) h =
      sends-IsConsistent env (retry_seal_job env worker job_id now d)
        (retry-IsConsistent job_id now d h)

  redrive_status-IsConsistent :
      (s : JobStatus) (job_id : String) (now : ℕ) (d : Docket)
      → IsConsistent d
      → IsConsistent (redrive_status env worker s job_id now d).0
  unfolding requeue_seal_job_for_redrive retry_seal_job
  redrive_status-IsConsistent JobStatus.minted job_id now d h = h
  redrive_status-IsConsistent JobStatus.minting job_id now d h = h
  redrive_status-IsConsistent JobStatus.queued job_id now d h = h
  redrive_status-IsConsistent JobStatus.failed job_id now d h =
      requeued-IsConsistent job_id now (requeue_seal_job_for_redrive job_id d)
        (requeue-IsConsistent job_id d.db d.verdict d.job h)
  redrive_status-IsConsistent JobStatus.dead_letter job_id now d h =
      requeued-IsConsistent job_id now (requeue_seal_job_for_redrive job_id d)
        (requeue-IsConsistent job_id d.db d.verdict d.job h)

  redrive-IsConsistent :
      (o : Option SealJob) (job_id : String) (now : ℕ) (d : Docket)
      → IsConsistent d
      → IsConsistent (redrive_found env worker o job_id now d).0
  redrive-IsConsistent none job_id now d h = h
  redrive-IsConsistent (some j) job_id now d h = redrive_status-IsConsistent j.status job_id now d h

  serve-IsConsistent :
      (now : ℕ) (call : Call) (d : Docket)
      → IsConsistent d
      → IsConsistent (serve env worker now call d)
  unfolding serve enqueue_seal_job retry_route redrive get_seal_job_by_job_id
  serve-IsConsistent now (enqueue_call new_id) d h =
      enqueue_request-IsConsistent new_id now d _ (build-IsBuilt env new_id d.db.row) h
  serve-IsConsistent now (retry_call job_id) d h = retried-IsConsistent env worker _ (
      retry-IsConsistent job_id now (revive env worker (with_id job_id d.job) job_id d)
        (revive-IsConsistent (with_id job_id d.job) job_id d h))
  serve-IsConsistent now (redrive_call job_id) d h =
      redrive-IsConsistent (with_id job_id d.job) job_id now d h
  serve-IsConsistent now (result_call body) d h =
      settled-IsConsistent env body now d.db d.verdict d.job _
        (seal_result-Settles env body now d.db d.verdict d.job) h

  -- Over any requests about a seal, one after another, to a worker that answers for what it is
  -- asked, the case and its job stay in agreement: the case is sealed exactly when the job is minted,
  -- and then the asset, the transaction and the address on the case are those of the worker's
  -- response.
  pub serves-IsConsistent :
      (calls : List (ℕ × Call)) (d : Docket)
      → IsConsistent d
      → IsConsistent (serves env worker calls d)
  unfolding serves
  serves-IsConsistent [] d h = h
  serves-IsConsistent ((now, call) ∷ calls) d h =
      serves-IsConsistent calls (serve env worker now call d) (serve-IsConsistent now call d h)
