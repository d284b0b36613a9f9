-- ===== src/Session/Engine/Deadlines.antt =====
-- Where the deadlines of a stage, and the filings of the sides, take a case.
use open_cawt.Base.{
  String, List, ℕ, Bool, true, false, Option, none, some, [], ◌∷◌, ◌≡◌, ◌≢◌, ◌||◌, ◌⊎◌, inl, inr,
  refl, sym, ◌∙◌, arith, if_elim,
}
use open_cawt.Session.Types.{
  Member, SessionStage, VoidReason, ActorRole, EventType, CaseRow, Runtime, CaseDb, Phase,
}
use open_cawt.Session.Store.{
  append_transcript_event, upsert_case_runtime, mark_case_void,
  set_voting_deadlines_for_active_jurors,
}
use open_cawt.Session.Panel.{replacement_throws, Mode, Env, readiness}
use open_cawt.Session.Stage.{
  set_stage, void_case, stage_to_phase, next_submission_stage, vote_notice, deadline_notice,
}
use open_cawt.Session.Engine.{
  loop_throws, replace_if_late, replace_late, settle_readiness, in_readiness, enough_ready,
  gives_up, advance, in_submission, both_filed, all_voted, in_voting,
}
use open_cawt.Session.Ticks.{Tick, Callback, due}
use open_cawt.Session.Engine.Submission.{is_submission}

-- The stage in the runtime row.
abbrev pub stage_of : Option Runtime → Option SessionStage
stage_of none = none
stage_of (some runtime) = some runtime.current_stage

abbrev pub stage_in : CaseDb → Option SessionStage
stage_in db = stage_of db.runtime

append-stage :
    (role : ActorRole) (kind : EventType) (s : Option SessionStage) (db : CaseDb)
    → stage_in (append_transcript_event role kind s db) ≡ stage_in db
unfolding append_transcript_event
append-stage role kind s db = refl

deadline-stage :
    (s : SessionStage) (d : Option ℕ) (db : CaseDb)
    → stage_in (deadline_notice s d db) ≡ stage_in db
deadline-stage s none db = refl
deadline-stage s (some d) db = append-stage _ _ _ db

vote-stage : (s : SessionStage) (db : CaseDb) → stage_in (vote_notice s db) ≡ stage_in db
vote-stage SessionStage.voting db = append-stage _ _ _ db
vote-stage _ db = refl

set_stage-stage :
    (env : Env) (rec : CaseRow) (s : SessionStage) (now : ℕ) (d : Option ℕ) (db : CaseDb)
    → stage_in (set_stage env rec s now d db) ≡ some s
unfolding set_stage upsert_case_runtime
set_stage-stage env rec s now d db = deadline-stage s d _ ∙ vote-stage s _ ∙ append-stage _ _ _ _

void_case-stage :
    (reason : VoidReason) (now : ℕ) (db : CaseDb)
    → stage_in (void_case reason now db) ≡ some SessionStage.void
unfolding void_case mark_case_void upsert_case_runtime
void_case-stage reason now db = append-stage _ _ _ _

advance-stage :
    (env : Env) (now : ℕ) (rec : CaseRow) (s t : SessionStage) (db : CaseDb)
    → next_submission_stage s ≡ some t
    → stage_in (advance env now rec (some t) db) ≡ some t
unfolding advance set_voting_deadlines_for_active_jurors
advance-stage env now rec s SessionStage.voting db h =
    set_stage-stage env rec SessionStage.voting now _ db
advance-stage env now rec s t db h = set_stage-stage env rec t now _ db

-- The stages that a deadline ends.
abbrev pub is_timed : SessionStage → Bool
is_timed SessionStage.jury_readiness = true
is_timed SessionStage.voting = true
is_timed s = is_submission s

-- The case leaves the stage `s`, or is handed over to be closed.
abbrev pub Ends : SessionStage → Tick → Type 0
Ends s t = (stage_in t.db ≢ some s) ⊎ (t.calls ≡ Callback.case_ready_to_close ∷ [])

pub leaves : {s t : SessionStage} {o : Option SessionStage} → o ≡ some t → s ≢ t → o ≢ some s
leaves h k e = k (some-inj (sym e ∙ h))
  where
    some-inj : {a b : SessionStage} → some a ≡ some b → a ≡ b
    some-inj e = cc

pub true-ne-false : true ≢ false
true-ne-false e = cc

due_or : (a b : Bool) → b ≡ true → (a || b) ≡ true
due_or a b h = ground arith

module _ (env : Env) (now : ℕ) (rec : CaseRow) where
  -- No replacement throws where the beacon answers.
  loop_throws-false :
      (mode : Mode)
      → ((id : String) → env.beacon_fails id ≡ false)
      → (ms : List Member) (db : CaseDb) → loop_throws env now rec mode ms db ≡ false
  unfolding loop_throws replacement_throws
  loop_throws-false mode up [] db = refl
  loop_throws-false mode up (m ∷ ms) db =
      ground
        (arith, up m.juror_id, loop_throws-false mode up ms (replace_if_late env now rec mode m db))

  pub in_readiness-Ends :
      (runtime : Runtime) (db : CaseDb)
      → ((id : String) → env.beacon_fails id ≡ false)
      → due runtime.stage_deadline_at now ≡ true
      → Ends SessionStage.jury_readiness (in_readiness env now rec runtime db)
  unfolding in_readiness settle_readiness
  in_readiness-Ends runtime db up h =
      let db' = replace_late env now rec readiness db.panel db in
      rw (loop_throws-false readiness up db.panel db) (
        if_elim (Ends SessionStage.jury_readiness) (enough_ready env rec db')
          (λ _. inl (leaves (set_stage-stage env rec _ now _ db') (λ e. cc)))
          (λ _.
            if_elim (Ends SessionStage.jury_readiness) (gives_up env now rec runtime db')
              (λ _. inl (leaves (void_case-stage _ now db') (λ e. cc)))
              (λ k. absurd (true-ne-false (sym (due_or _ _ h) ∙ k)))))

  pub in_voting-Ends :
      (runtime : Runtime) (db : CaseDb)
      → due runtime.voting_hard_deadline_at now ≡ true
      → Ends SessionStage.voting (in_voting env now rec runtime db)
  unfolding in_voting
  in_voting-Ends runtime db h =
      if_elim (Ends SessionStage.voting) (all_voted env rec db) (λ _. inr refl)
        (λ _.
          if_elim (Ends SessionStage.voting) (due runtime.voting_hard_deadline_at now)
            (λ _. inl (leaves (void_case-stage _ now db) (λ e. cc)))
            (λ k. absurd (true-ne-false (sym h ∙ k))))

  pub submission-filed :
      (runtime : Runtime) (s t : SessionStage) (phase : Phase) (db : CaseDb)
      → runtime.current_stage ≡ s
      → next_submission_stage s ≡ some t
      → both_filed phase db ≡ true
      → stage_in (in_submission env now rec runtime phase db).db ≡ some t
  unfolding in_submission
  submission-filed runtime s t phase db at k h = rw (h, at, k) (advance-stage env now rec s t _ k)

  pub submission-missing :
      (runtime : Runtime) (phase : Phase) (db : CaseDb)
      → both_filed phase db ≡ false
      → due runtime.stage_deadline_at now ≡ true
      → stage_in (in_submission env now rec runtime phase db).db ≡ some SessionStage.void
  unfolding in_submission
  submission-missing runtime phase db h k = rw (h, k) (void_case-stage _ now db)

  pub submission-waits :
      (runtime : Runtime) (phase : Phase) (db : CaseDb)
      → both_filed phase db ≡ false
      → due runtime.stage_deadline_at now ≡ false
      → (in_submission env now rec runtime phase db).db ≡ db
  unfolding in_submission
  submission-waits runtime phase db h k = rw (h, k) refl

-- What follows a submission stage.
pub record Follows (s t : SessionStage) : Type 0 where
  pub is_next : next_submission_stage s ≡ some t
  pub here_not_next : s ≢ t
  pub here_not_void : s ≢ SessionStage.void
  pub next_not_void : t ≢ SessionStage.void

pub follows :
    (s : SessionStage) (phase : Phase)
    → stage_to_phase s ≡ some phase
    → (t : SessionStage) × Follows s t
unfolding stage_to_phase next_submission_stage
follows SessionStage.opening_addresses phase h = (
  _,
  record {
    is_next = refl;
    here_not_next = λ e. cc;
    here_not_void = λ e. cc;
    next_not_void = λ e. cc;
  },
)
follows SessionStage.evidence phase h = (
  _,
  record {
    is_next = refl;
    here_not_next = λ e. cc;
    here_not_void = λ e. cc;
    next_not_void = λ e. cc;
  },
)
follows SessionStage.closing_addresses phase h = (
  _,
  record {
    is_next = refl;
    here_not_next = λ e. cc;
    here_not_void = λ e. cc;
    next_not_void = λ e. cc;
  },
)
follows SessionStage.summing_up phase h = (
  _,
  record {
    is_next = refl;
    here_not_next = λ e. cc;
    here_not_void = λ e. cc;
    next_not_void = λ e. cc;
  },
)
follows _ phase h = cc
