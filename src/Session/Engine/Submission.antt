-- ===== src/Session/Engine/Submission.antt =====
-- The submission stages of `processCase`: where the filings and the deadline take a case.
use open_cawt.Base.{ℕ, Bool, true, false, some, ◌≡◌, refl, if_elim, ◌≢◌}
use open_cawt.Session.Types.{
  SessionStage, VoidReason, CaseRow, Runtime, CaseDb, Phase, ActorRole, EventType,
}
use open_cawt.Session.Store.{append_transcript_event, set_voting_deadlines_for_active_jurors}
use open_cawt.Session.Panel.{Env, add_seconds}
use open_cawt.Session.Stage.{next_submission_stage, set_stage, void_case, missing_reason_for_stage}
use open_cawt.Session.Engine.{in_submission, both_filed, advance}
use open_cawt.Session.Ticks.{due}
use open_cawt.Session.Engine.Moves.{
  next, IsSound, Goes, stays_at, void_case-Goes, Goes-same, set_stage-Goes,
}
use open_cawt.Session.Engine.Progress.{StepsFrom, steps}

-- A stage in which both sides file.
abbrev pub is_submission : SessionStage → Bool
is_submission SessionStage.opening_addresses = true
is_submission SessionStage.evidence = true
is_submission SessionStage.closing_addresses = true
is_submission SessionStage.summing_up = true
is_submission _ = false

differs : (s t : SessionStage) → is_submission s ≡ true → is_submission t ≡ false → s ≢ t
differs s t h k e = cc

module _ (env : Env) (now : ℕ) (rec : CaseRow) where
  advance-Goes :
      (s : SessionStage) (db : CaseDb)
      → is_submission s ≡ true
      → Goes s (advance env now rec (next_submission_stage s) db)
  unfolding advance next_submission_stage set_voting_deadlines_for_active_jurors
  advance-Goes SessionStage.opening_addresses db h =
      set_stage-Goes _ SessionStage.evidence env rec now _ db refl (next refl)
  advance-Goes SessionStage.evidence db h =
      set_stage-Goes _ SessionStage.closing_addresses env rec now _ db refl (next refl)
  advance-Goes SessionStage.closing_addresses db h =
      set_stage-Goes _ SessionStage.summing_up env rec now _ db refl (next refl)
  advance-Goes SessionStage.summing_up db h =
      Goes-same
        {db = set_stage env rec SessionStage.voting now
          (some (add_seconds now env.voting_hard_timeout_seconds)) db}
        (refl, refl, refl) (set_stage-Goes _ SessionStage.voting env rec now _ db refl (next refl))
  advance-Goes _ db h = cc

  missing-Goes :
      (s : SessionStage) (reason : VoidReason) (db : CaseDb)
      → is_submission s ≡ true
      → Goes s (void_case reason now db)
  missing-Goes s reason db h =
      void_case-Goes s reason now db (differs s SessionStage.void h refl)
        (differs s SessionStage.closed h refl) (differs s SessionStage.sealed h refl)

  pub submission-Goes :
      (runtime : Runtime) (phase : Phase) (db : CaseDb) (v : IsSound db)
      → v.runtime.current_stage ≡ runtime.current_stage
      → is_submission runtime.current_stage ≡ true
      → StepsFrom runtime.current_stage (in_submission env now rec runtime phase db)
  unfolding in_submission
  submission-Goes runtime phase db v at h =
      let P = StepsFrom runtime.current_stage in
      if_elim P (both_filed phase db)
        (λ _. steps (
          advance-Goes runtime.current_stage
            (append_transcript_event ActorRole.court EventType.stage_completed
              (some runtime.current_stage) db)
            h))
        (λ _.
          if_elim P (due runtime.stage_deadline_at now)
            (λ _. steps (missing-Goes _ (missing_reason_for_stage runtime.current_stage) db h))
            (λ _. steps (stays_at v at)))
