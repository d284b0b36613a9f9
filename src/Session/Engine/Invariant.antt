-- ===== src/Session/Engine/Invariant.antt =====
-- A whole step of `processCase`: from any state that is sound to one that is.
use open_cawt.Base.{ℕ, true, Option, some, ◌≡◌, ◌∙◌, refl, sym, ap, subst, if_elim}
use open_cawt.Session.Types.{SessionStage, CaseRow, Runtime, CaseDb, Phase}
use open_cawt.Session.Panel.{Env}
use open_cawt.Session.Stage.{stage_to_phase}
use open_cawt.Session.Engine.{
  in_stage, process_case, is_void_status, with_runtime, submission_or_nothing,
}
use open_cawt.Session.Ticks.{Retry, Screening}
use open_cawt.Session.Engine.Moves.{IsSound, Goes, stays, stays_at}
use open_cawt.Session.Engine.Progress.{
  StepsFrom, steps, screening-Goes, pre_session-Goes, readiness-Goes, voting-Goes,
}
use open_cawt.Session.Engine.Submission.{submission-Goes, is_submission}

module _ (env : Env) (now : ℕ) (rec : CaseRow) (retry : Option Retry) (answer : Screening) where
  filing-Goes :
      (runtime : Runtime) (stage : SessionStage) (phase : Phase) (db : CaseDb) (v : IsSound db)
      → v.runtime.current_stage ≡ runtime.current_stage
      → runtime.current_stage ≡ stage
      → is_submission stage ≡ true
      → StepsFrom stage (submission_or_nothing env now rec runtime (some phase) db)
  filing-Goes runtime stage phase db v at here h =
      subst (λ s. StepsFrom s (submission_or_nothing env now rec runtime (some phase) db)) here
        (submission-Goes env now rec runtime phase db v at (ap is_submission here ∙ h))

  stage-Goes :
      (runtime : Runtime) (stage : SessionStage) (db : CaseDb) (v : IsSound db)
      → v.runtime.current_stage ≡ stage
      → runtime.current_stage ≡ stage
      → StepsFrom stage (in_stage env now rec retry answer runtime stage db)
  unfolding in_stage stage_to_phase
  stage-Goes runtime SessionStage.judge_screening db v at here =
      screening-Goes env now rec retry answer db v at
  stage-Goes runtime SessionStage.pre_session db v at here =
      pre_session-Goes env now rec runtime db v at
  stage-Goes runtime SessionStage.jury_readiness db v at here =
      readiness-Goes env now rec runtime db v at
  stage-Goes runtime SessionStage.voting db v at here = voting-Goes env now rec runtime db v at
  stage-Goes runtime SessionStage.void db v at here = steps (stays_at v at)
  stage-Goes runtime SessionStage.closed db v at here = steps (stays_at v at)
  stage-Goes runtime SessionStage.sealed db v at here = steps (stays_at v at)
  stage-Goes runtime SessionStage.opening_addresses db v at here =
      filing-Goes runtime _ Phase.opening db v (at ∙ sym here) here refl
  stage-Goes runtime SessionStage.evidence db v at here =
      filing-Goes runtime _ Phase.evidence db v (at ∙ sym here) here refl
  stage-Goes runtime SessionStage.closing_addresses db v at here =
      filing-Goes runtime _ Phase.closing db v (at ∙ sym here) here refl
  stage-Goes runtime SessionStage.summing_up db v at here =
      filing-Goes runtime _ Phase.summing_up db v (at ∙ sym here) here refl

  -- From a sound state, a step of the engine ends in a sound state, and the stage of the session has
  -- stayed or made one of the moves of `Moves`.
  pub process_case-Goes :
      (db : CaseDb) (v : IsSound db)
      → Goes v.runtime.current_stage (process_case env now rec retry answer db).db
  unfolding process_case
  process_case-Goes db v =
      subst (λ o. Goes v.runtime.current_stage (with_runtime env now rec retry answer o db).db)
        (sym v.running)
        (if_elim (StepsFrom v.runtime.current_stage) (is_void_status rec.status)
          (λ _. steps (stays v))
          (λ _. stage-Goes v.runtime v.runtime.current_stage db v refl refl)).goes
