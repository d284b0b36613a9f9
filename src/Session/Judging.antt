-- ===== src/Session/Judging.antt =====
-- The screening of a case by the judge, in `processCase` of sessionEngine.ts.
pub mod Bound
use open_cawt.Base.{ℕ, ◌+◌, Bool, true, false, Option, none, some, [], ltb, leb, if◌then◌else◌, not}
use open_cawt.Session.Types.{SessionStage, CourtMode, VoidReason, ScreeningStatus, CaseRow, CaseDb}
use open_cawt.Session.Store.{set_case_judge_screening_result}
use open_cawt.Session.Panel.{Env}
use open_cawt.Session.Stage.{set_stage}
use open_cawt.Session.Ticks.{
  judge_screening_retry_delay_ms, judge_screening_max_retries, Retry, Screening, admitted, declined,
  unavailable, Tick, unchanged, voided, notice,
}

abbrev pub attempts_of : Option Retry → ℕ
attempts_of none = 0
attempts_of (some retry) = retry.attempts

abbrev pub is_waiting_retry : Option Retry → ℕ → Bool
is_waiting_retry none now = false
is_waiting_retry (some retry) now = ltb now retry.next_attempt_at

-- The handler of a failed screening.
abbrev pub exhausts : ℕ → Bool
exhausts attempts = leb judge_screening_max_retries attempts

abbrev pub screening_failed : ℕ → ℕ → CaseDb → Tick
screening_failed now attempts db =
    if exhausts attempts
    then voided VoidReason.judge_screening_failed now (
        notice SessionStage.judge_screening
          (set_case_judge_screening_result ScreeningStatus.failed none db))
    else record {
      db =
          notice SessionStage.judge_screening
            (set_case_judge_screening_result ScreeningStatus.pending_retry none db);
      retry =
          some (record {
            attempts = attempts;
            next_attempt_at = now + judge_screening_retry_delay_ms;
          });
      calls = [];
    }

unfoldable pub screen : Env → ℕ → CaseRow → Option Retry → Screening → CaseDb → Tick
screen env now rec retry (admitted title) db = unchanged none (
    set_stage env rec SessionStage.pre_session now none (
      notice SessionStage.judge_screening
        (set_case_judge_screening_result ScreeningStatus.approved (some title) db)))
screen env now rec retry (declined title) db = voided VoidReason.judge_screening_rejected now (
    notice SessionStage.judge_screening
      (set_case_judge_screening_result ScreeningStatus.rejected (some title) db))
screen env now rec retry unavailable db = screening_failed now (attempts_of retry + 1) db

abbrev pub is_judge : CourtMode → Bool
is_judge CourtMode.judge = true
is_judge CourtMode.eleven_juror = false

abbrev pub has_failed : Option ScreeningStatus → Bool
has_failed (some ScreeningStatus.failed) = true
has_failed _ = false

unfoldable pub in_screening : Env → ℕ → CaseRow → Option Retry → Screening → CaseDb → Tick
unfolding screen
in_screening env now rec retry answer db =
    if not (is_judge rec.court_mode)
    then unchanged retry (set_stage env rec SessionStage.pre_session now none db)
    else if has_failed rec.judge_screening_status
    then unchanged retry db
    else if is_waiting_retry retry now
    then unchanged retry db
    else screen env now rec retry answer db
