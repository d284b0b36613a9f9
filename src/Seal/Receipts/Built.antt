-- ===== src/Seal/Receipts/Built.antt =====
-- The request that is built for the worker names the case and the new job.
use open_cawt.Base.{String, ◌≡◌, refl}
use open_cawt.Base.Errors.{ApiError, Result, ok, err, ◌>>=◌}
use open_cawt.Session.Types.{CaseRow}
use open_cawt.Seal.Types.{SealRequest}
use open_cawt.Seal.Worker.{SealEnv, build_worker_seal_request, text_or, number_or, value_or}

-- A request is built for the case, under the new id.
pub data IsBuilt (new_id : String) (rec : CaseRow) : Result SealRequest → Type 0 where
  broken : {e : ApiError} → IsBuilt new_id rec (err e)
  built :
      {request : SealRequest}
      → request.job_id ≡ new_id
      → request.case_id ≡ rec.case_id
      → IsBuilt new_id rec (ok request)

bind-IsBuilt {κ} :
    {A : Type κ} {new_id : String} {rec : CaseRow} (r : Result A) (f : A → Result SealRequest)
    → ((a : A) → IsBuilt new_id rec (f a))
    → IsBuilt new_id rec (r >>= f)
bind-IsBuilt (ok a) f h = h a
bind-IsBuilt (err e) f h = broken

pub build-IsBuilt :
    (env : SealEnv) (new_id : String) (rec : CaseRow)
    → IsBuilt new_id rec (build_worker_seal_request env new_id rec)
unfolding build_worker_seal_request
build-IsBuilt env new_id rec =
    bind-IsBuilt (text_or rec.verdict_hash "SEAL_VERDICT_HASH_MISSING") _ (λ a.
      bind-IsBuilt (text_or rec.transcript_root_hash "SEAL_TRANSCRIPT_HASH_MISSING") _ (λ b.
        bind-IsBuilt (text_or rec.jury_selection_proof_hash "SEAL_JURY_PROOF_HASH_MISSING") _ (λ c.
          bind-IsBuilt (number_or rec.drand_round "SEAL_DRAND_METADATA_MISSING") _ (λ d.
            bind-IsBuilt (text_or rec.drand_randomness "SEAL_DRAND_METADATA_MISSING") _ (λ e.
              bind-IsBuilt (text_or rec.pool_snapshot_hash "SEAL_DRAND_METADATA_MISSING") _ (λ f.
                bind-IsBuilt (value_or rec.decided_at "SEAL_DECIDED_AT_MISSING") _ (λ g.
                  bind-IsBuilt (value_or rec.outcome "SEAL_OUTCOME_MISSING") _
                    (λ h. built refl refl))))))))
