-- ===== src/Seal/Receipts/Applied.antt =====
-- A run of a job keeps the case and the job in agreement.
use open_cawt.Base.{
  ℕ, String, true, false, Option, none, some, ◌≡◌, ◌∙◌, refl, sym, eq_iff, str_eq, if_elim, leb,
  max,
}
use open_cawt.Base.Errors.{Result, ok}
use open_cawt.Session.Types.{CaseDb, SealStatus}
use open_cawt.Session.Store.{append_transcript_event, upsert_case_runtime}
use open_cawt.Seal.Types.{JobStatus, SealRequest, SealResponse, SealJob, VerdictRow, Docket}
use open_cawt.Seal.Jobs.{
  mark_seal_job_result, mark_case_sealed, mark_seal_job_failed, set_case_seal_state, is_quota,
  update_case_runtime_stage, claimed,
}
use open_cawt.Seal.Worker.{
  SealEnv, Mode, Answer, response, error, Started, sent, apply_seal_result,
  update_case_for_seal_failure, finish_seal_job, finished, run_seal_job, with_metadata_uri,
  is_minted,
}
use open_cawt.Seal.Routes.{job_of, case_of}
use open_cawt.Seal.Claims.{
  docket, Starts, absent, over, busy, sends, start-Starts, dispatched, is_claimable,
}
use open_cawt.Seal.Receipts.{
  is_sealed, Receipt, open_case, sealed_case, Names, Agrees, IsConsistent, IsHonest,
}

pub str_eq_of : (a b : String) → a ≡ b → str_eq a b ≡ true
str_eq_of a b h = (eq_iff a b).1 h

-- The result of a job that its case waits for.
pub apply-IsConsistent :
    (body : SealResponse) (now : ℕ) (db : CaseDb) (j : SealJob) (v : Option VerdictRow)
    → Names j db.row
    → is_sealed db.row.status ≡ false
    → job_of body ≡ j.job_id
    → case_of body ≡ db.row.case_id
    → IsConsistent (apply_seal_result body none now (docket db (some j) v))
unfolding apply_seal_result mark_seal_job_result mark_case_sealed update_case_for_seal_failure
    update_case_runtime_stage upsert_case_runtime append_transcript_event set_case_seal_state
apply-IsConsistent (SealResponse.minted m) now db j v n s e f =
    simp (str_eq_of j.job_id m.job_id (sym e), str_eq_of db.row.case_id m.case_id (sym f))
      (
        record { of_case = n.of_case; asks_case = n.asks_case; asks_job = n.asks_job },
        sealed_case m refl refl refl refl refl refl refl,
      )
apply-IsConsistent (SealResponse.failed r) now db j v n s e f =
    simp (str_eq_of j.job_id r.job_id (sym e), str_eq_of db.row.case_id r.case_id (sym f))
      (
        record { of_case = n.of_case; asks_case = n.asks_case; asks_job = n.asks_job },
        open_case
            (if_elim (λ (t : JobStatus). is_minted t ≡ false) (is_quota r.error_code) (λ _. refl)
              (λ _. refl))
            s,
      )

not_minted : (s : JobStatus) → is_claimable s ≡ true → is_minted s ≡ false
not_minted JobStatus.queued h = refl
not_minted JobStatus.failed h = refl
not_minted JobStatus.minting h = refl
not_minted JobStatus.dead_letter h = refl
not_minted JobStatus.minted h = cc

pub open-unsealed :
    (j : SealJob) (db : CaseDb)
    → Receipt j db.row
    → is_minted j.status ≡ false
    → is_sealed db.row.status ≡ false
open-unsealed j db (open_case h s) k = s
open-unsealed j db (sealed_case m h _ _ _ _ _ _) k = cc

module _ (env : SealEnv) (worker : Mode → SealRequest → Answer) (honest : IsHonest worker) where
  answered :
      (mode : Mode) (job_id : String) (now : ℕ) (request : SealRequest) (a : Answer) (db : CaseDb)
      (j : SealJob) (v : Option VerdictRow)
      → worker mode request ≡ a
      → Names j db.row
      → is_sealed db.row.status ≡ false
      → j.job_id ≡ job_id
      → request.job_id ≡ j.job_id
      → request.case_id ≡ db.row.case_id
      → IsConsistent (finish_seal_job env mode job_id request a now (docket db (some j) v)).0
  unfolding finish_seal_job mark_seal_job_failed set_case_seal_state apply_seal_result
  answered mode job_id now request (response r) db j v w n s e f g =
      let (h, k) = honest mode request r w in apply-IsConsistent r now db j v n s (h ∙ f) (k ∙ g)
  answered mode job_id now request (error message) db j v w n s e f g =
      simp (str_eq_of j.job_id job_id e, str_eq_of db.row.case_id request.case_id (sym g))
        (
          record { of_case = n.of_case; asks_case = n.asks_case; asks_job = n.asks_job },
          open_case
              (if_elim (λ (t : JobStatus). is_minted t ≡ false)
                (leb (max 1 env.seal_job_max_attempts) j.attempts) (λ _. refl) (λ _. refl))
              s,
        )

  asks :
      (o : Option String) (request : SealRequest)
      → ((with_metadata_uri o request).job_id ≡ request.job_id)
        × ((with_metadata_uri o request).case_id ≡ request.case_id)
  asks none request = (refl, refl)
  asks (some uri) request =
      if_elim (λ (r : SealRequest). (r.job_id ≡ request.job_id) × (r.case_id ≡ request.case_id))
        (str_eq uri "") (λ _. (refl, refl)) (λ _. (refl, refl))

  run-dispatched :
      (mode : Mode) (job_id : String) (now : ℕ) (db : CaseDb) (v : Option VerdictRow) (j : SealJob)
      → Names j db.row
      → is_sealed db.row.status ≡ false
      → str_eq j.job_id job_id ≡ true
      → IsConsistent
          (finished env worker mode job_id now
            (dispatched now db j v, ok (sent (with_metadata_uri j.metadata_uri j.request)))).0
  unfolding finish_seal_job set_case_seal_state
  run-dispatched mode job_id now db v j n s e =
      let (a, b) = asks j.metadata_uri j.request in
      simp (str_eq_of db.row.case_id j.request.case_id (sym n.asks_case)) (
        answered mode job_id now (with_metadata_uri j.metadata_uri j.request) _
          (set_case_seal_state SealStatus.minting none db) (claimed now j) v refl
          (record { of_case = n.of_case; asks_case = n.asks_case; asks_job = n.asks_job }) s
          ((eq_iff j.job_id job_id).0 e) (a ∙ n.asks_job) (b ∙ n.asks_case))

  run-Starts :
      (mode : Mode) (job_id : String) (now : ℕ) (db : CaseDb) (v : Option VerdictRow)
      (o : Option SealJob) (r : Docket × Result Started)
      → Starts job_id now db v o r
      → Agrees o db
      → IsConsistent (finished env worker mode job_id now r).0
  unfolding finish_seal_job
  run-Starts mode job_id now db v o r (absent h) c = c
  run-Starts mode job_id now db v o r (over h m) c = c
  run-Starts mode job_id now db v o r (busy h m) c = c
  run-Starts mode job_id now db v o r (sends {j} e k) (n, p) =
      run-dispatched mode job_id now db v j n (open-unsealed j db p (not_minted j.status k)) e

  -- A run of a seal job leaves the case and the job in agreement.
  pub run-IsConsistent :
      (mode : Mode) (job_id : String) (now : ℕ) (d : Docket)
      → IsConsistent d
      → IsConsistent (run_seal_job env worker mode job_id now d).0
  unfolding run_seal_job finish_seal_job
  run-IsConsistent mode job_id now d c =
      run-Starts mode job_id now d.db d.verdict d.job _
        (start-Starts job_id now d.db d.verdict d.job) c
