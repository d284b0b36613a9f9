-- ===== src/Close/Pipeline.antt =====
-- What `closeCasePipeline` writes: the verdict stored or the case made void, and the seal that
-- follows; with `storeVerdict`, `setCaseSealHashes` and `setCaseRemedyRecommendation` of
-- db/repository.ts, and `computeCaseSealHashes` of services/sealHashes.ts.
use open_cawt.Base.{
  ℕ, zero, suc, String, Bool, true, false, not, ◌&&◌, ◌||◌, Option, none, some, List, [], ◌∷◌, map,
  or_else, is_some, str_eq, if◌then◌else◌,
}
use open_cawt.Base.Errors.{Result, ok, err, conflict}
use open_cawt.Verdict.Tally.{Finding}
use open_cawt.Verdict.Compute
use open_cawt.Verdict.Compute.{
  CaseOutcome, for_prosecution, Tiebreak, ClaimLike, VerdictInput, Bundle, ClaimVerdict,
  compute_deterministic_verdict,
}
use open_cawt.Session.Types.{
  CaseStatus, SessionStage, VoidReason, SealStatus, ClaimOutcome, Outcome, ActorRole, EventType,
  ClaimRow, Runtime, CaseDb,
}
use open_cawt.Session.Store.{append_transcript_event, mark_case_void}
use open_cawt.Seal.Types.{VerdictRow, Docket}
use open_cawt.Seal.Jobs.{CreatedJob, set_case_seal_state, update_case_runtime_stage}
use open_cawt.Seal.Worker.{text_or, enqueue_seal_job}
use open_cawt.Close.Vote.{case_verdict, is_judge, CloseEnv}

-- `text.slice(0, n)`
abbrev str_take : ℕ → String → String
str_take zero s = ""
str_take (suc n) String.[] = ""
str_take (suc n) (String.◌∷◌ c s) = String.◌∷◌ c (str_take n s)

unfoldable pub set_case_remedy_recommendation : String → CaseDb → CaseDb
set_case_remedy_recommendation recommendation db = record db {
  row = record (db.row) { judge_remedy_recommendation = some (str_take 1000 recommendation) };
}

abbrev pub recommended : Option String → CaseDb → CaseDb
unfolding set_case_remedy_recommendation
recommended none db = db
recommended (some text) db = if str_eq text "" then db else set_case_remedy_recommendation text db

abbrev pub for_the_prosecution : Option CaseOutcome → Bool
for_the_prosecution (some for_prosecution) = true
for_the_prosecution _ = false

-- The recommendation of the judge, for a prosecution that has won.
abbrev pub with_remedy : CloseEnv → Option CaseOutcome → CaseDb → CaseDb
unfolding set_case_remedy_recommendation
with_remedy env outcome db =
    if is_judge db.row.court_mode && for_the_prosecution outcome
    then recommended env.recommend_remedy db
    else db

abbrev pub claim_outcome : Finding → ClaimOutcome
claim_outcome Finding.proven = ClaimOutcome.for_prosecution
claim_outcome Finding.not_proven = ClaimOutcome.for_defence
claim_outcome Finding.insufficient = ClaimOutcome.undecided

abbrev pub set_claim_outcome : ClaimVerdict → List ClaimRow → List ClaimRow
set_claim_outcome v claims =
    map
      (λ (c : ClaimRow).
        if str_eq c.claim_id v.claim_id
        then record c { claim_outcome = claim_outcome v.finding }
        else c)
      claims

-- One UPDATE for each claim of the verdict.
abbrev pub set_claim_outcomes : List ClaimVerdict → List ClaimRow → List ClaimRow
set_claim_outcomes [] claims = claims
set_claim_outcomes (v ∷ vs) claims = set_claim_outcomes vs (set_claim_outcome v claims)

abbrev pub verdict_row : String → ℕ → Option VerdictRow → VerdictRow
verdict_row hash now none = record {
  verdict_hash = hash;
  created_at = now;
  asset_id = none;
  tx_sig = none;
  sealed_uri = none;
}
verdict_row hash now (some v) = record v { verdict_hash = hash; created_at = now }

abbrev pub outcome_of : Option CaseOutcome → Outcome
outcome_of none = Outcome.void
outcome_of (some outcome) = Outcome.decided outcome

unfoldable pub store_verdict : Compute.Verdict → ℕ → Docket → Docket
unfolding update_case_runtime_stage
store_verdict v now d = record d {
  db = update_case_runtime_stage SessionStage.closed now none (record (d.db) {
    row = record (d.db.row) {
      status = CaseStatus.closed;
      session_stage = SessionStage.closed;
      closed_at = some now;
      decided_at = some now;
      verdict_hash = some v.verdict_hash;
      outcome = some (outcome_of v.bundle.outcome);
      seal_status = SealStatus.pending;
      seal_error = none;
      void_reason_group = none;
    };
    claims = set_claim_outcomes v.bundle.claims d.db.claims;
  });
  verdict = some (verdict_row v.verdict_hash now d.verdict);
}

unfoldable pub set_case_seal_hashes : String → String → String → CaseDb → CaseDb
set_case_seal_hashes transcript_root_hash proof_hash ruleset_version db = record db {
  row = record (db.row) {
    transcript_root_hash = some transcript_root_hash;
    jury_selection_proof_hash = some proof_hash;
    ruleset_version = ruleset_version;
  };
}

pub record Closed : Type 0 where
  pub verdict_hash : String
  pub seal_job : Option CreatedJob

abbrev pub seal_skipped : CaseDb → CaseDb
unfolding set_case_seal_state append_transcript_event
seal_skipped db =
    append_transcript_event ActorRole.court EventType.notice (some SessionStage.closed) (
      set_case_seal_state SealStatus.pending
        (some (
          if db.row.alpha_cohort
          then "Public alpha: minting disabled by policy."
          else "Simulation mode: seal mint intentionally skipped."))
        db)

-- An error of the seal is logged, and the case stays closed.
abbrev pub job_or_none : Docket × Result CreatedJob → Docket × Option CreatedJob
job_or_none (d, ok job) = (d, some job)
job_or_none (d, err e) = (d, none)

unfoldable pub seal_or_skip : CloseEnv → String → ℕ → Docket → Docket × Option CreatedJob
unfolding set_case_seal_state append_transcript_event enqueue_seal_job
seal_or_skip env new_id now d =
    if d.db.row.sealed_disabled
    then (record d { db = seal_skipped d.db }, none)
    else job_or_none (enqueue_seal_job env.seal env.worker new_id now d.db.row d)

abbrev pub close_result : String → Docket × Option CreatedJob → Docket × Result Closed
close_result hash (d, job) = (d, ok (record { verdict_hash = hash; seal_job = job }))

abbrev pub with_seal_hashes : CloseEnv → Docket → Docket
unfolding set_case_seal_hashes
with_seal_hashes env d = record d {
  db =
      set_case_seal_hashes (env.transcript_hash d.db.events)
        (env.proof_hash d.db.row.selection_proof) "agentic-code-v1.0.0" d.db;
}

-- The hashes of a seal want the hash of a verdict.
abbrev pub seal_hashed :
    CloseEnv → String → ℕ → String → Docket → Result String → Docket × Result Closed
unfolding set_case_seal_hashes seal_or_skip
seal_hashed env new_id now hash d (err e) = (d, err e)
seal_hashed env new_id now hash d (ok present) =
    close_result hash (seal_or_skip env new_id now (with_seal_hashes env d))

abbrev pub verdict_noted : Compute.Verdict → ℕ → Docket → Docket
unfolding store_verdict append_transcript_event
verdict_noted v now d =
    let d' = store_verdict v now d in
    record d' {
      db =
          append_transcript_event ActorRole.court EventType.case_closed (some SessionStage.closed)
            d'.db;
    }

unfoldable pub close_decided :
    CloseEnv → String → ℕ → Compute.Verdict → Docket → Docket × Result Closed
unfolding store_verdict append_transcript_event set_case_seal_hashes seal_or_skip
close_decided env new_id now v d =
    let noted = verdict_noted v now d in
    seal_hashed env new_id now v.verdict_hash noted
      (text_or noted.db.row.verdict_hash "CASE_VERDICT_HASH_MISSING")

unfoldable pub close_void : ℕ → Compute.Verdict → Docket → Docket × Result Closed
unfolding mark_case_void append_transcript_event
close_void close_time v d = (
  record d {
    db =
        append_transcript_event ActorRole.court EventType.case_voided (some SessionStage.void)
          (mark_case_void VoidReason.inconclusive_verdict close_time d.db);
  },
  ok (record { verdict_hash = v.verdict_hash; seal_job = none }),
)

abbrev pub is_voting : CaseStatus → Bool
is_voting CaseStatus.voting = true
is_voting _ = false

abbrev pub is_voting_stage : SessionStage → Bool
is_voting_stage SessionStage.voting = true
is_voting_stage _ = false

abbrev pub in_voting_stage : Option Runtime → Bool
in_voting_stage none = false
in_voting_stage (some runtime) = is_voting_stage runtime.current_stage

abbrev pub close_with :
    CloseEnv → String → ℕ → ℕ → Compute.Verdict → Docket → Docket × Result Closed
unfolding close_decided close_void set_case_remedy_recommendation
close_with env new_id close_time now v d =
    let d' = record d { db = with_remedy env v.overall_outcome d.db } in
    if v.inconclusive || not (is_some v.overall_outcome)
    then close_void close_time v d'
    else close_decided env new_id now v d'

-- `closing` tells whether the case is in `closingCases`. `closeTime` is read before the judge's
-- remedy, and `now` when the verdict is stored.
unfoldable pub close_case_pipeline :
    CloseEnv → Bool → String → ℕ → ℕ → Docket → Docket × Result Closed
unfolding case_verdict close_decided close_void set_case_remedy_recommendation
close_case_pipeline env closing new_id close_time now d =
    if closing
    then (
      d,
      ok (record { verdict_hash = or_else d.db.row.verdict_hash "pending"; seal_job = none }),
    )
    else if not (is_voting d.db.row.status && in_voting_stage d.db.runtime)
    then (d, err (conflict "CASE_NOT_VOTING"))
    else close_with env new_id close_time now (case_verdict env close_time d.db) d
