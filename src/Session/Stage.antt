-- ===== src/Session/Stage.antt =====
-- The stages of a session: `setStage`, `voidCase` and the tables of stages of sessionEngine.ts.
use open_cawt.Base.{ℕ, Option, none, some}
use open_cawt.Session.Types.{
  CaseStatus, SessionStage, VoidReason, ActorRole, EventType, Phase, CaseRow, Runtime, CaseDb,
}
use open_cawt.Session.Store.{
  append_transcript_event, mark_case_session_stage, upsert_case_runtime, mark_case_void,
}
use open_cawt.Session.Panel.{Env, add_seconds}

unfoldable pub stage_to_phase : SessionStage → Option Phase
stage_to_phase SessionStage.opening_addresses = some Phase.opening
stage_to_phase SessionStage.evidence = some Phase.evidence
stage_to_phase SessionStage.closing_addresses = some Phase.closing
stage_to_phase SessionStage.summing_up = some Phase.summing_up
stage_to_phase _ = none

unfoldable pub next_submission_stage : SessionStage → Option SessionStage
next_submission_stage SessionStage.opening_addresses = some SessionStage.evidence
next_submission_stage SessionStage.evidence = some SessionStage.closing_addresses
next_submission_stage SessionStage.closing_addresses = some SessionStage.summing_up
next_submission_stage SessionStage.summing_up = some SessionStage.voting
next_submission_stage _ = none

unfoldable pub missing_reason_for_stage : SessionStage → VoidReason
missing_reason_for_stage SessionStage.opening_addresses = VoidReason.missing_opening_submission
missing_reason_for_stage SessionStage.evidence = VoidReason.missing_evidence_submission
missing_reason_for_stage SessionStage.closing_addresses = VoidReason.missing_closing_submission
missing_reason_for_stage _ = VoidReason.missing_summing_submission

abbrev pub status_for_stage : SessionStage → CaseStatus
status_for_stage SessionStage.voting = CaseStatus.voting
status_for_stage SessionStage.closed = CaseStatus.closed
status_for_stage SessionStage.judge_screening = CaseStatus.filed
status_for_stage SessionStage.pre_session = CaseStatus.filed
status_for_stage _ = CaseStatus.jury_selected

abbrev pub first_of : Option ℕ → Option ℕ → Option ℕ
first_of (some a) b = some a
first_of none b = b

abbrev scheduled_in : Option Runtime → Option ℕ → Option ℕ
scheduled_in none scheduled_for = scheduled_for
scheduled_in (some runtime) scheduled_for =
    first_of runtime.scheduled_session_start_at scheduled_for

abbrev hard_deadline_in : SessionStage → ℕ → Option Runtime → Option ℕ
hard_deadline_in SessionStage.voting deadline runtime = some deadline
hard_deadline_in stage deadline none = none
hard_deadline_in stage deadline (some runtime) = runtime.voting_hard_deadline_at

abbrev reason_in : Option Runtime → Option VoidReason
reason_in none = none
reason_in (some runtime) = runtime.void_reason

abbrev voided_in : Option Runtime → Option ℕ
voided_in none = none
voided_in (some runtime) = runtime.voided_at

-- The prompt of the vote, and the notice of a deadline.
abbrev pub vote_notice : SessionStage → CaseDb → CaseDb
vote_notice SessionStage.voting db =
    append_transcript_event ActorRole.court EventType.notice (some SessionStage.voting) db
vote_notice stage db = db

abbrev pub deadline_notice : SessionStage → Option ℕ → CaseDb → CaseDb
deadline_notice stage none db = db
deadline_notice stage (some deadline) db =
    append_transcript_event ActorRole.court EventType.stage_deadline (some stage) db

unfoldable pub set_stage : Env → CaseRow → SessionStage → ℕ → Option ℕ → CaseDb → CaseDb
unfolding mark_case_session_stage upsert_case_runtime
set_stage env rec stage now deadline db =
    let db1 = mark_case_session_stage stage (status_for_stage stage) now db in
    let db2 =
      upsert_case_runtime
        (record {
          current_stage = stage;
          stage_started_at = now;
          stage_deadline_at = deadline;
          scheduled_session_start_at = scheduled_in db1.runtime rec.scheduled_for;
          voting_hard_deadline_at =
              hard_deadline_in stage (add_seconds now env.voting_hard_timeout_seconds) db1.runtime;
          void_reason = reason_in db1.runtime;
          voided_at = voided_in db1.runtime;
        })
        db1 in
    let db3 = append_transcript_event ActorRole.court EventType.stage_started (some stage) db2 in
    deadline_notice stage deadline (vote_notice stage db3)

-- The callback that follows is among the engine's calls.
unfoldable pub void_case : VoidReason → ℕ → CaseDb → CaseDb
unfolding mark_case_void
void_case reason now db =
    append_transcript_event ActorRole.court EventType.case_voided (some SessionStage.void)
      (mark_case_void reason now db)
