-- ===== src/Tests/Sessions.antt =====
-- The session engine on one case.
use open_cawt.Base.{ℕ, ◌<◌, true, false, none, some, [], ◌∷◌, ◌≡◌, ◌⊎◌, ◌↔◌, refl}
use open_cawt.Session.Types.{CaseStatus, SessionStage, Phase, CaseDb, CourtMode, CaseRow}
use open_cawt.Session.Stage.{stage_to_phase, next_submission_stage}
use open_cawt.Session.Engine.{both_filed, process_case}
use open_cawt.Session.Ticks.{unavailable, due}
use open_cawt.Session.Engine.Moves.{IsSound}
use open_cawt.Session.Engine.Deadlines.{stage_in, Ends}
use open_cawt.Session.Engine.Filings.{process_case-filings_iff, process_case-Ends}
use open_cawt.Session.Engine.Transcript.{Continues}
use open_cawt.Session.Engine.Runs.{Input, run, rank, run-Goes, run-Continues}
use open_cawt.Tests.Courts.{env, row, runtime, case_in}

abbrev filing : CaseDb
filing = case_in SessionStage.evidence CaseStatus.jury_selected

abbrev polling : CaseDb
polling = case_in SessionStage.voting CaseStatus.voting

filing-IsSound : IsSound filing
filing-IsSound = record {
  runtime = runtime SessionStage.evidence;
  running = refl;
  same_stage = refl;
  status_fits = refl;
  has_end = refl;
}

abbrev tick : ℕ → Input
tick now = record {
  env = env;
  now = now;
  rec = row SessionStage.evidence CaseStatus.jury_selected;
  retry = none;
  answer = unavailable;
}

run-Goes_example :
    (v : IsSound (run (tick 5 ∷ tick 6 ∷ []) filing)) × ((filing-IsSound.runtime.current_stage
        ≡ v.runtime.current_stage)
      ⊎ (rank filing-IsSound.runtime.current_stage < rank v.runtime.current_stage))
run-Goes_example = run-Goes (tick 5 ∷ tick 6 ∷ []) filing filing-IsSound

run-Continues_example : Continues filing (run (tick 5 ∷ tick 6 ∷ []) filing)
run-Continues_example = run-Continues (tick 5 ∷ tick 6 ∷ []) filing

process_case-filings_example :
    ((stage_in
          (process_case env 5
            (row SessionStage.evidence CaseStatus.jury_selected)
            none
            unavailable
            filing).db
        ≡ next_submission_stage SessionStage.evidence)
      ↔ (both_filed Phase.evidence filing ≡ true))
    × ((stage_in
            (process_case env 5
              (row SessionStage.evidence CaseStatus.jury_selected)
              none
              unavailable
              filing).db
          ≡ some SessionStage.void)
        ↔ ((both_filed Phase.evidence filing ≡ false) × (due (some 100) 5 ≡ true)))
unfolding stage_to_phase
process_case-filings_example =
    process_case-filings_iff env 5 (row SessionStage.evidence CaseStatus.jury_selected) none
      unavailable filing (runtime SessionStage.evidence) Phase.evidence refl refl refl

process_case-Ends_example :
    Ends SessionStage.voting
      (process_case env 100 (row SessionStage.voting CaseStatus.voting) none unavailable polling)
process_case-Ends_example =
    process_case-Ends env 100 (row SessionStage.voting CaseStatus.voting) none unavailable polling
      (runtime SessionStage.voting) (λ id. refl) refl refl refl refl

abbrev screened : CaseRow
screened = record (row SessionStage.judge_screening CaseStatus.filed) {
  court_mode = CourtMode.judge;
}
