-- ===== src/Session/Engine/Progress.antt =====
-- Where a step of the engine takes a case.
use open_cawt.Base.{
  ℕ, Option, none, some, List, [], ◌∷◌, ◌≡◌, inl, inr, refl, ◌∙◌, String, arith, is_some, if_elim,
  not, ◌&&◌, ◌+◌, ◌*◌, Bool-cases,
}
use open_cawt.Session.Types.{SessionStage, VoidReason, CaseRow, Runtime, Member, CaseDb}
use open_cawt.Session.Store.{
  append_transcript_event, set_case_judge_screening_result, mark_session_started,
  set_jury_readiness_deadlines,
}
use open_cawt.Session.Panel.{replacement_throws, Env, Mode, replace_juror, add_seconds}
use open_cawt.Session.Stage.{set_stage}
use open_cawt.Session.Engine.{
  late_throws, loop_throws, invites, jury_readiness_max_windows, in_pre_session, replace_late,
  replace_if_late, in_readiness, in_voting, is_late, lacks_defence, session_start, enough_ready,
  gives_up, all_voted, settle_readiness, at_session_start, start_readiness, void_after,
}
use open_cawt.Session.Ticks.{Retry, Screening, admitted, declined, unavailable, Tick, Callback, due}
use open_cawt.Session.Judging.{
  in_screening, is_judge, has_failed, is_waiting_retry, exhausts, attempts_of, screen,
}
use open_cawt.Session.Engine.Moves.{
  admit, begin, open_case, IsSound, Goes, stays_at, void_case-Goes, Agree, Goes-same,
  set_stage-Goes,
}

replace_juror-Agree :
    (env : Env) (rec : CaseRow) (id : String) (mode : Mode) (now : ℕ) (db : CaseDb)
    → Agree db (replace_juror env rec id mode now db)
unfolding replace_juror append_transcript_event
replace_juror-Agree env rec id mode now db =
    if_elim (Agree db) (replacement_throws env rec id db) (λ _. (refl, refl, refl))
      (λ _. ground arith)

replace_if_late-Agree :
    (env : Env) (now : ℕ) (rec : CaseRow) (mode : Mode) (m : Member) (db : CaseDb)
    → Agree db (replace_if_late env now rec mode m db)
replace_if_late-Agree env now rec mode m db = elim (Bool-cases (is_late mode now m)) [
  | inl e ↦ rw e (replace_juror-Agree env rec m.juror_id mode now db)
  | inr e ↦ rw e (refl, refl, refl)
]

replace_late-Agree :
    (env : Env) (now : ℕ) (rec : CaseRow) (mode : Mode) (ms : List Member) (db : CaseDb)
    → Agree db (replace_late env now rec mode ms db)
unfolding replace_late
replace_late-Agree env now rec mode [] db = (refl, refl, refl)
replace_late-Agree env now rec mode (m ∷ ms) db =
    let (a, b, c) =
      replace_late-Agree env now rec mode ms (replace_if_late env now rec mode m db) in
    let (d, e, f) = replace_if_late-Agree env now rec mode m db in
    if_elim (Agree db) (late_throws env now rec mode m db) (λ _. (d, e, f))
      (λ _. (a ∙ d, b ∙ e, c ∙ f))

-- A step that takes a case in stage `s` along one of the moves, and keeps it sound.
pub record StepsFrom (s : SessionStage) (t : Tick) : Type 0 where
  pub goes : Goes s t.db

pub steps : {s : SessionStage} {t : Tick} → Goes s t.db → StepsFrom s t
steps g = record { goes = g }

module _ (env : Env) (now : ℕ) (rec : CaseRow) where
  screen-Goes :
      (retry : Option Retry) (answer : Screening) (db : CaseDb) (v : IsSound db)
      → v.runtime.current_stage ≡ SessionStage.judge_screening
      → StepsFrom SessionStage.judge_screening (screen env now rec retry answer db)
  unfolding screen append_transcript_event set_case_judge_screening_result
  screen-Goes retry (admitted title) db v at =
      steps (set_stage-Goes _ SessionStage.pre_session env rec now none _ refl admit)
  screen-Goes retry (declined title) db v at =
      steps
        (void_case-Goes _ VoidReason.judge_screening_rejected now _ (λ e. cc) (λ e. cc) (λ e. cc))
  screen-Goes retry unavailable db v at =
      if_elim (StepsFrom SessionStage.judge_screening) (exhausts (attempts_of retry + 1))
        (λ _.
          steps (
            void_case-Goes _ VoidReason.judge_screening_failed now _ (λ e. cc) (λ e. cc) (λ e. cc)))
        (λ _. steps (Goes-same (refl, refl, refl) (stays_at v at)))

  pub screening-Goes :
      (retry : Option Retry) (answer : Screening) (db : CaseDb) (v : IsSound db)
      → v.runtime.current_stage ≡ SessionStage.judge_screening
      → StepsFrom SessionStage.judge_screening (in_screening env now rec retry answer db)
  unfolding in_screening
  screening-Goes retry answer db v at =
      let P = StepsFrom SessionStage.judge_screening in
      if_elim P (not (is_judge rec.court_mode))
        (λ _. steps (set_stage-Goes _ SessionStage.pre_session env rec now none db refl admit))
        (λ _.
          if_elim P (has_failed rec.judge_screening_status) (λ _. steps (stays_at v at))
            (λ _.
              if_elim P (is_waiting_retry retry now) (λ _. steps (stays_at v at))
                (λ _. screen-Goes retry answer db v at)))

  starts-Goes :
      (calls : List Callback) (db : CaseDb)
      → StepsFrom SessionStage.pre_session (start_readiness env now rec calls db)
  unfolding start_readiness append_transcript_event set_jury_readiness_deadlines
      mark_session_started
  starts-Goes calls db = steps (
      Goes-same
        {db = set_stage env rec SessionStage.jury_readiness now
          (some (add_seconds now (env.juror_readiness_seconds * jury_readiness_max_windows)))
          (mark_session_started now db)}
        (refl, refl, refl)
        (set_stage-Goes _ SessionStage.jury_readiness env rec now _ (mark_session_started now db)
          refl begin))

  abandons-Goes :
      (calls : List Callback) (db : CaseDb)
      → StepsFrom SessionStage.pre_session
          (void_after calls VoidReason.missing_defence_assignment now db)
  abandons-Goes calls db =
      steps (
        void_case-Goes _ VoidReason.missing_defence_assignment now db (λ e. cc) (λ e. cc) (λ e. cc))

  pub pre_session-Goes :
      (runtime : Runtime) (db : CaseDb) (v : IsSound db)
      → v.runtime.current_stage ≡ SessionStage.pre_session
      → StepsFrom SessionStage.pre_session (in_pre_session env now rec runtime db)
  unfolding in_pre_session at_session_start
  pre_session-Goes runtime db v at =
      let P = StepsFrom SessionStage.pre_session in
      if_elim P (rec.showcase_sample && lacks_defence rec) (λ _. steps (stays_at v at))
        (λ _.
          if_elim P (lacks_defence rec && due rec.defence_window_deadline now)
            (λ _. abandons-Goes (invites rec) db)
            (λ _.
              if_elim P (due (session_start rec runtime) now)
                (λ _.
                  if_elim P (is_some db.row.defence_agent_id) (λ _. starts-Goes (invites rec) db)
                    (λ _. abandons-Goes (invites rec) db))
                (λ _. steps (stays_at v at))))

  settle-Goes :
      (runtime : Runtime) (db : CaseDb)
      → Goes SessionStage.jury_readiness db
      → StepsFrom SessionStage.jury_readiness (settle_readiness env now rec runtime db)
  unfolding settle_readiness
  settle-Goes runtime db g =
      let P = StepsFrom SessionStage.jury_readiness in
      if_elim P (enough_ready env rec db)
        (λ _.
          steps (set_stage-Goes _ SessionStage.opening_addresses env rec now _ db refl open_case))
        (λ _.
          if_elim P (gives_up env now rec runtime db)
            (λ _. steps (
              void_case-Goes _ VoidReason.jury_readiness_timeout now db (λ e. cc) (λ e. cc)
                (λ e. cc)))
            (λ _. steps g))

  pub readiness-Goes :
      (runtime : Runtime) (db : CaseDb) (v : IsSound db)
      → v.runtime.current_stage ≡ SessionStage.jury_readiness
      → StepsFrom SessionStage.jury_readiness (in_readiness env now rec runtime db)
  unfolding in_readiness
  readiness-Goes runtime db v at =
      let same =
        Goes-same (replace_late-Agree env now rec Mode.readiness db.panel db) (stays_at v at) in
      if_elim (StepsFrom SessionStage.jury_readiness)
        (loop_throws env now rec Mode.readiness db.panel db) (λ _. steps same)
        (λ _. settle-Goes runtime (replace_late env now rec Mode.readiness db.panel db) same)

  pub voting-Goes :
      (runtime : Runtime) (db : CaseDb) (v : IsSound db)
      → v.runtime.current_stage ≡ SessionStage.voting
      → StepsFrom SessionStage.voting (in_voting env now rec runtime db)
  unfolding in_voting
  voting-Goes runtime db v at =
      let P = StepsFrom SessionStage.voting in
      if_elim P (all_voted env rec db) (λ _. steps (stays_at v at))
        (λ _.
          if_elim P (due runtime.voting_hard_deadline_at now)
            (λ _.
              steps
                (void_case-Goes _ VoidReason.voting_timeout now db (λ e. cc) (λ e. cc) (λ e. cc)))
            (λ _.
              steps (
                Goes-same (replace_late-Agree env now rec Mode.voting db.panel db)
                  (stays_at v at))))
