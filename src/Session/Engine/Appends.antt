-- ===== src/Session/Engine/Appends.antt =====
-- What each step of `processCase` adds to the transcript.
use open_cawt.Base.{ℕ, ◌+◌, Option, none, some, List, refl, if_elim, not, ◌&&◌, is_some}
use open_cawt.Session.Types.{SessionStage, CaseRow, Runtime, CaseDb, Phase}
use open_cawt.Session.Store.{
  set_case_judge_screening_result, mark_session_started, set_jury_readiness_deadlines,
  set_voting_deadlines_for_active_jurors,
}
use open_cawt.Session.Panel.{Env, readiness, voting}
use open_cawt.Session.Stage.{stage_to_phase}
use open_cawt.Session.Engine.{
  loop_throws, in_stage, process_case, with_runtime, is_void_status, submission_or_nothing,
  start_readiness, at_session_start, in_pre_session, invites, lacks_defence, session_start,
  replace_late, settle_readiness, in_readiness, enough_ready, gives_up, advance, in_submission,
  both_filed, all_voted, in_voting,
}
use open_cawt.Session.Ticks.{Tick, Retry, Screening, admitted, declined, unavailable, Callback, due}
use open_cawt.Session.Judging.{
  screen, in_screening, is_judge, has_failed, is_waiting_retry, exhausts, attempts_of,
}
use open_cawt.Session.Engine.Transcript.{
  Continues, same, then_also, append-Continues, set_stage-Continues, void_case-Continues,
  replace_late-Continues,
}

module _ (env : Env) (now : ℕ) (rec : CaseRow) (db : CaseDb) where
  -- What a tick does, as one predicate.
  abbrev Adds : Tick → Type 0
  Adds t = Continues db t.db

  screen-Continues :
      (retry : Option Retry) (answer : Screening) → Adds (screen env now rec retry answer db)
  unfolding screen set_case_judge_screening_result
  screen-Continues retry (admitted title) =
      then_also (then_also (same refl refl) (append-Continues _ _ _ _))
        (set_stage-Continues env rec _ now none _)
  screen-Continues retry (declined title) =
      then_also (then_also (same refl refl) (append-Continues _ _ _ _))
        (void_case-Continues _ now _)
  screen-Continues retry unavailable =
      if_elim Adds (exhausts (attempts_of retry + 1))
        (λ _.
          then_also (then_also (same refl refl) (append-Continues _ _ _ _))
            (void_case-Continues _ now _))
        (λ _. then_also (same refl refl) (append-Continues _ _ _ _))

  in_screening-Continues :
      (retry : Option Retry) (answer : Screening) → Adds (in_screening env now rec retry answer db)
  unfolding in_screening
  in_screening-Continues retry answer =
      if_elim Adds (not (is_judge rec.court_mode)) (λ _. set_stage-Continues env rec _ now none db)
        (λ _.
          if_elim Adds (has_failed rec.judge_screening_status) (λ _. same refl refl)
            (λ _.
              if_elim Adds (is_waiting_retry retry now) (λ _. same refl refl)
                (λ _. screen-Continues retry answer)))

  start_readiness-Continues : (calls : List Callback) → Adds (start_readiness env now rec calls db)
  unfolding start_readiness mark_session_started set_jury_readiness_deadlines
  start_readiness-Continues calls =
      then_also
        (then_also (same refl refl)
          (set_stage-Continues env rec _ now _ (mark_session_started now db)))
        (then_also (same refl refl) (append-Continues _ _ _ _))

  in_pre_session-Continues : (runtime : Runtime) → Adds (in_pre_session env now rec runtime db)
  unfolding in_pre_session at_session_start
  in_pre_session-Continues runtime =
      if_elim Adds (rec.showcase_sample && lacks_defence rec) (λ _. same refl refl)
        (λ _.
          if_elim Adds (lacks_defence rec && due rec.defence_window_deadline now)
            (λ _. void_case-Continues _ now db)
            (λ _.
              if_elim Adds (due (session_start rec runtime) now)
                (λ _.
                  if_elim Adds (is_some db.row.defence_agent_id)
                    (λ _. start_readiness-Continues (invites rec))
                    (λ _. void_case-Continues _ now db))
                (λ _. same refl refl)))

  in_readiness-Continues : (runtime : Runtime) → Adds (in_readiness env now rec runtime db)
  unfolding in_readiness settle_readiness
  in_readiness-Continues runtime =
      let db' = replace_late env now rec readiness db.panel db in
      let loop = replace_late-Continues env now rec readiness db.panel db in
      if_elim Adds (loop_throws env now rec readiness db.panel db) (λ _. loop)
        (λ _. then_also loop (
          if_elim (λ (t : Tick). Continues db' t.db) (enough_ready env rec db')
            (λ _. set_stage-Continues env rec _ now _ db')
            (λ _.
              if_elim (λ (t : Tick). Continues db' t.db) (gives_up env now rec runtime db')
                (λ _. void_case-Continues _ now db') (λ _. same refl refl))))

  advance-Continues : (stage : Option SessionStage) → Continues db (advance env now rec stage db)
  unfolding advance set_voting_deadlines_for_active_jurors
  advance-Continues none = same refl refl
  advance-Continues (some SessionStage.voting) =
      then_also (set_stage-Continues env rec SessionStage.voting now _ db) (same refl refl)
  advance-Continues (some _) = set_stage-Continues env rec _ now _ db

module _ (env : Env) (now : ℕ) (rec : CaseRow) (db : CaseDb) where
  in_submission-Continues :
      (runtime : Runtime) (phase : Phase)
      → Adds env now rec db (in_submission env now rec runtime phase db)
  unfolding in_submission
  in_submission-Continues runtime phase =
      if_elim (Adds env now rec db) (both_filed phase db)
        (λ _. then_also (append-Continues _ _ _ db) (advance-Continues env now rec _ _))
        (λ _.
          if_elim (Adds env now rec db) (due runtime.stage_deadline_at now)
            (λ _. void_case-Continues _ now db) (λ _. same refl refl))

  in_voting-Continues : (runtime : Runtime) → Adds env now rec db (in_voting env now rec runtime db)
  unfolding in_voting
  in_voting-Continues runtime =
      if_elim (Adds env now rec db) (all_voted env rec db) (λ _. same refl refl)
        (λ _.
          if_elim (Adds env now rec db) (due runtime.voting_hard_deadline_at now)
            (λ _. void_case-Continues _ now db)
            (λ _. replace_late-Continues env now rec voting db.panel db))

  filing-Continues :
      (runtime : Runtime) (phase : Option Phase)
      → Adds env now rec db (submission_or_nothing env now rec runtime phase db)
  filing-Continues runtime none = same refl refl
  filing-Continues runtime (some phase) = in_submission-Continues runtime phase

  in_stage-Continues :
      (retry : Option Retry) (answer : Screening) (runtime : Runtime) (stage : SessionStage)
      → Adds env now rec db (in_stage env now rec retry answer runtime stage db)
  unfolding in_stage
  in_stage-Continues retry answer runtime SessionStage.judge_screening =
      in_screening-Continues env now rec db retry answer
  in_stage-Continues retry answer runtime SessionStage.pre_session =
      in_pre_session-Continues env now rec db runtime
  in_stage-Continues retry answer runtime SessionStage.jury_readiness =
      in_readiness-Continues env now rec db runtime
  in_stage-Continues retry answer runtime SessionStage.voting = in_voting-Continues runtime
  in_stage-Continues retry answer runtime SessionStage.void = same refl refl
  in_stage-Continues retry answer runtime stage = filing-Continues runtime (stage_to_phase stage)

  with_runtime-Continues :
      (retry : Option Retry) (answer : Screening) (runtime : Option Runtime)
      → Adds env now rec db (with_runtime env now rec retry answer runtime db)
  with_runtime-Continues retry answer none = same refl refl
  with_runtime-Continues retry answer (some runtime) =
      if_elim (Adds env now rec db) (is_void_status rec.status) (λ _. same refl refl)
        (λ _. in_stage-Continues retry answer runtime runtime.current_stage)

  -- From any state, a step of the engine keeps the transcript it found and adds at its end events
  -- that carry the numbers after the last one given, without a gap; the counter of the case is the
  -- number of the last event.
  pub process_case-Continues :
      (retry : Option Retry) (answer : Screening)
      → Continues db (process_case env now rec retry answer db).db
  unfolding process_case
  process_case-Continues retry answer = with_runtime-Continues retry answer db.runtime
