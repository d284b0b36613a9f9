-- ===== src/Session/Engine.antt =====
-- `processCase` of sessionEngine.ts. `rec` is the record that the tick listed, which may be older
-- than the rows; `now` is read once. The work between two awaits of one case is one step.
pub mod Submission
pub mod Moves
pub mod Progress
pub mod Invariant
pub mod Transcript
pub mod Deadlines
pub mod Filings
pub mod Runs
pub mod Appends
use open_cawt.Base.{
  ℕ, ◌+◌, ◌*◌, Bool, true, false, Option, none, some, List, [], ◌∷◌, ◌++◌, leb, if◌then◌else◌,
  length, count_if, is_some, not, ◌&&◌, ◌||◌,
}
use open_cawt.Session.Types.{
  CaseStatus, SessionStage, VoidReason, MemberStatus, ActorRole, EventType, Side, Phase, Member,
  CaseRow, Runtime, CaseDb,
}
use open_cawt.Session.Store.{
  submitted, is_pending_ready, is_active_voting, append_transcript_event, mark_session_started,
  set_jury_readiness_deadlines, set_voting_deadlines_for_active_jurors,
}
use open_cawt.Session.Panel.{
  Env, Mode, readiness, voting, add_seconds, replace_juror, replacement_throws,
}
use open_cawt.Session.Stage.{
  stage_to_phase, next_submission_stage, missing_reason_for_stage, first_of, set_stage, void_case,
}
use open_cawt.Session.Ticks.{Retry, Callback, Screening, Tick, due, unchanged, voided, notice}
use open_cawt.Session.Judging.{is_judge, in_screening}

abbrev pub jury_readiness_max_windows : ℕ
jury_readiness_max_windows = 3

abbrev pub jury_readiness_max_replacements_per_seat : ℕ
jury_readiness_max_replacements_per_seat = 3

start_readiness : Env → ℕ → CaseRow → List Callback → CaseDb → Tick
start_readiness env now rec calls db =
    let hard_deadline =
      add_seconds now (env.juror_readiness_seconds * jury_readiness_max_windows) in
    record {
      db = notice SessionStage.jury_readiness (
          set_jury_readiness_deadlines (add_seconds now env.juror_readiness_seconds) (
            set_stage env rec SessionStage.jury_readiness now (some hard_deadline)
              (mark_session_started now db)));
      retry = none;
      calls = calls;
    }

abbrev void_after : List Callback → VoidReason → ℕ → CaseDb → Tick
void_after calls reason now db = record {
  db = void_case reason now db;
  retry = none;
  calls = calls ++ Callback.case_voided ∷ [];
}

-- The session is due: the row is read afresh for the defence.
at_session_start : Env → ℕ → CaseRow → List Callback → CaseDb → Tick
unfolding start_readiness
at_session_start env now rec calls db =
    if is_some db.row.defence_agent_id
    then start_readiness env now rec calls db
    else void_after calls VoidReason.missing_defence_assignment now db

abbrev pub lacks_defence : CaseRow → Bool
lacks_defence rec = not (is_some rec.defence_agent_id)

abbrev pub session_start : CaseRow → Runtime → Option ℕ
session_start rec runtime = first_of runtime.scheduled_session_start_at rec.scheduled_for

abbrev pub invites : CaseRow → List Callback
invites rec =
    if lacks_defence rec && is_some rec.defendant_agent_id
    then Callback.defence_invite_tick ∷ []
    else []

unfoldable pub in_pre_session : Env → ℕ → CaseRow → Runtime → CaseDb → Tick
unfolding at_session_start
in_pre_session env now rec runtime db =
    if rec.showcase_sample && lacks_defence rec
    then unchanged none db
    else if lacks_defence rec && due rec.defence_window_deadline now
    then void_after (invites rec) VoidReason.missing_defence_assignment now db
    else if due (session_start rec runtime) now
    then at_session_start env now rec (invites rec) db
    else record { db = db; retry = none; calls = invites rec }

abbrev pub is_late_ready : ℕ → Member → Bool
is_late_ready now m = is_pending_ready m.member_status && due m.ready_deadline_at now

abbrev pub is_late_vote : ℕ → Member → Bool
is_late_vote now m = is_active_voting m.member_status && due m.voting_deadline_at now

abbrev pub is_late : Mode → ℕ → Member → Bool
is_late readiness now m = is_late_ready now m
is_late voting now m = is_late_vote now m

abbrev pub replace_if_late : Env → ℕ → CaseRow → Mode → Member → CaseDb → CaseDb
replace_if_late env now rec mode m db =
    if is_late mode now m then replace_juror env rec m.juror_id mode now db else db

abbrev pub late_throws : Env → ℕ → CaseRow → Mode → Member → CaseDb → Bool
unfolding replacement_throws
late_throws env now rec mode m db = is_late mode now m && replacement_throws env rec m.juror_id db

-- The rows after the loop over the members listed at its start. An error ends it, and the replacements
-- before it stay.
unfoldable pub replace_late : Env → ℕ → CaseRow → Mode → List Member → CaseDb → CaseDb
unfolding replace_juror replacement_throws
replace_late env now rec mode [] db = db
replace_late env now rec mode (m ∷ ms) db =
    let rest = replace_late env now rec mode ms (replace_if_late env now rec mode m db) in
    if late_throws env now rec mode m db then replace_if_late env now rec mode m db else rest

-- Whether an error ends the loop.
unfoldable pub loop_throws : Env → ℕ → CaseRow → Mode → List Member → CaseDb → Bool
unfolding replacement_throws replace_juror
loop_throws env now rec mode [] db = false
loop_throws env now rec mode (m ∷ ms) db =
    late_throws env now rec mode m db
    || loop_throws env now rec mode ms (replace_if_late env now rec mode m db)

abbrev pub required_jurors : Env → CaseRow → ℕ
required_jurors env rec = if is_judge rec.court_mode then 12 else env.juror_panel_size

abbrev pub is_ready : MemberStatus → Bool
is_ready MemberStatus.ready = true
is_ready _ = false

abbrev pub enough_ready : Env → CaseRow → CaseDb → Bool
enough_ready env rec db =
    leb (required_jurors env rec) (count_if (λ m. is_ready m.member_status) db.panel)

-- Too many replacements, or past the deadline of the stage.
abbrev pub gives_up : Env → ℕ → CaseRow → Runtime → CaseDb → Bool
gives_up env now rec runtime db =
    leb (required_jurors env rec * jury_readiness_max_replacements_per_seat)
      (count_if (λ m. is_some m.replacement_of_juror_id) db.panel)
    || due runtime.stage_deadline_at now

-- The decision after the replacements.
settle_readiness : Env → ℕ → CaseRow → Runtime → CaseDb → Tick
settle_readiness env now rec runtime db =
    if enough_ready env rec db
    then unchanged none (
        set_stage env rec SessionStage.opening_addresses now
          (some (add_seconds now env.stage_submission_seconds)) db)
    else if gives_up env now rec runtime db
    then voided VoidReason.jury_readiness_timeout now db
    else unchanged none db

-- An error of the loop ends the step before the decision.
unfoldable pub in_readiness : Env → ℕ → CaseRow → Runtime → CaseDb → Tick
unfolding settle_readiness replace_late loop_throws
in_readiness env now rec runtime db =
    let db' = replace_late env now rec readiness db.panel db in
    if loop_throws env now rec readiness db.panel db
    then unchanged none db'
    else settle_readiness env now rec runtime db'

-- Both sides have filed: on to the next stage.
advance : Env → ℕ → CaseRow → Option SessionStage → CaseDb → CaseDb
advance env now rec none db = db
advance env now rec (some SessionStage.voting) db =
    set_voting_deadlines_for_active_jurors (add_seconds now env.juror_vote_seconds) (
      set_stage env rec SessionStage.voting now
        (some (add_seconds now env.voting_hard_timeout_seconds)) db)
advance env now rec (some next) db =
    set_stage env rec next now (some (add_seconds now env.stage_submission_seconds)) db

abbrev pub both_filed : Phase → CaseDb → Bool
both_filed phase db = submitted db Side.prosecution phase && submitted db Side.defence phase

unfoldable pub in_submission : Env → ℕ → CaseRow → Runtime → Phase → CaseDb → Tick
unfolding advance
in_submission env now rec runtime phase db =
    let stage = runtime.current_stage in
    if both_filed phase db
    then unchanged none (
        advance env now rec (next_submission_stage stage)
          (append_transcript_event ActorRole.court EventType.stage_completed (some stage) db))
    else if due runtime.stage_deadline_at now
    then voided (missing_reason_for_stage stage) now db
    else unchanged none db

abbrev pub all_voted : Env → CaseRow → CaseDb → Bool
all_voted env rec db = leb (required_jurors env rec) (length db.ballots)

-- Closing is the callback's; the ballots are counted before the hard deadline is looked at.
unfoldable pub in_voting : Env → ℕ → CaseRow → Runtime → CaseDb → Tick
in_voting env now rec runtime db =
    if all_voted env rec db
    then record { db = db; retry = none; calls = Callback.case_ready_to_close ∷ [] }
    else if due runtime.voting_hard_deadline_at now
    then voided VoidReason.voting_timeout now db
    else unchanged none (replace_late env now rec voting db.panel db)

abbrev pub submission_or_nothing : Env → ℕ → CaseRow → Runtime → Option Phase → CaseDb → Tick
submission_or_nothing env now rec runtime none db = unchanged none db
submission_or_nothing env now rec runtime (some phase) db =
    in_submission env now rec runtime phase db

in_stage : Env → ℕ → CaseRow → Option Retry → Screening → Runtime → SessionStage → CaseDb → Tick
unfolding stage_to_phase
in_stage env now rec retry answer runtime SessionStage.judge_screening db =
    in_screening env now rec retry answer db
in_stage env now rec retry answer runtime SessionStage.pre_session db =
    in_pre_session env now rec runtime db
in_stage env now rec retry answer runtime SessionStage.jury_readiness db =
    in_readiness env now rec runtime db
in_stage env now rec retry answer runtime SessionStage.voting db = in_voting env now rec runtime db
in_stage env now rec retry answer runtime SessionStage.void db = unchanged none db
in_stage env now rec retry answer runtime stage db =
    submission_or_nothing env now rec runtime (stage_to_phase stage) db

abbrev pub is_void_status : CaseStatus → Bool
is_void_status CaseStatus.void = true
is_void_status _ = false

abbrev with_runtime : Env → ℕ → CaseRow → Option Retry → Screening → Option Runtime → CaseDb → Tick
with_runtime env now rec retry answer none db = unchanged retry db
with_runtime env now rec retry answer (some runtime) db =
    if is_void_status rec.status
    then unchanged none db
    else in_stage env now rec retry answer runtime runtime.current_stage db

unfoldable pub process_case : Env → ℕ → CaseRow → Option Retry → Screening → CaseDb → Tick
unfolding in_stage
process_case env now rec retry answer db = with_runtime env now rec retry answer db.runtime db
