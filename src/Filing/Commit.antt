-- ===== src/Filing/Commit.antt =====
-- The transaction of handlePostCaseFile of server/main.ts, with persistInitialJurySelection and the
-- statements of server/db/repository.ts that it runs. An error rolls it back.
use open_cawt.Base.{
  ℕ, String, Bool, false, not, ◌&&◌, ◌||◌, Option, none, some, List, [], ◌∷◌, ◌++◌, map, keep, any,
  str_eq, if◌then◌else◌, or_else,
}
use open_cawt.Base.Errors.{Result, ok, err, conflict, internal_error, require, ◌>>◌, ◌>>=◌}
use open_cawt.Base.Sets.{has}
use open_cawt.Jury.{DrandRoundData, Candidate, JurySelectionResult}
use open_cawt.Session.Types.{
  CaseStatus, SessionStage, CourtMode, ScreeningStatus, MemberStatus, ActorRole, EventType, Member,
  Runtime, CaseDb,
}
use open_cawt.Session.Store.{
  append_transcript_event, upsert_case_runtime, create_jury_selection_run,
}
use open_cawt.Session.Panel.{add_seconds}
use open_cawt.Filing.{
  UsedTx, Registry, FilingConfig, Prepared, has_id, ensure_case_exists, is_treasury_tx_used,
  is_draft, is_judge, filing_fee_bypass,
}

-- `scheduleAt`: a case with a named defendant waits for the answer.
abbrev pub schedule_at : FilingConfig → ℕ → Prepared → Option ℕ
schedule_at config now p =
    if p.named_defendant then none else some (add_seconds now config.session_starts_after_seconds)

abbrev pub defence_deadline : FilingConfig → ℕ → Prepared → ℕ
defence_deadline config now p = add_seconds now (
    if p.named_defendant
    then config.named_defendant_response_seconds
    else config.defence_assignment_cutoff_seconds)

abbrev pub first_runtime : FilingConfig → ℕ → Prepared → Runtime
first_runtime config now p =
    let at = schedule_at config now p in
    record {
      current_stage = SessionStage.pre_session;
      stage_started_at = now;
      stage_deadline_at = some (or_else at (defence_deadline config now p));
      scheduled_session_start_at = at;
      voting_hard_deadline_at = none;
      void_reason = none;
      voided_at = none;
    }

unfoldable pub set_case_filed : FilingConfig → ℕ → Prepared → CaseDb → CaseDb
unfolding upsert_case_runtime
set_case_filed config now p db =
    let at = schedule_at config now p in
    upsert_case_runtime (first_runtime config now p) (record db {
      row = record (db.row) {
        status = CaseStatus.filed;
        session_stage = SessionStage.pre_session;
        treasury_tx_sig = some p.tx_sig;
        filed_at = some now;
        filing_warning = p.warning;
        scheduled_for = at;
        countdown_end_at = at;
        defence_window_deadline = some (defence_deadline config now p);
        decided_at = none;
        outcome = none;
        void_reason_group = none;
        replacement_count_ready = 0;
        replacement_count_vote = 0;
      };
    })

abbrev pub in_screening_stage : Option Runtime → Option Runtime
in_screening_stage none = none
in_screening_stage (some r) = some (record r { current_stage = SessionStage.judge_screening })

-- The court mode of the server is written to the case, where it is the judge's.
unfoldable pub apply_court_mode : FilingConfig → CaseDb → CaseDb
apply_court_mode config db =
    if is_judge config.court_mode
    then record db {
      row = record (db.row) {
        court_mode = CourtMode.judge;
        judge_screening_status = some ScreeningStatus.pending;
      };
      runtime = in_screening_stage db.runtime;
    }
    else db

unfoldable pub set_case_jury_selected : ℕ → DrandRoundData → JurySelectionResult → CaseDb → CaseDb
set_case_jury_selected now drand jury db = record db {
  row = record (db.row) {
    status = CaseStatus.jury_selected;
    session_stage = SessionStage.pre_session;
    jury_selected_at = some now;
    drand_round = some drand.round;
    drand_randomness = some drand.randomness;
    pool_snapshot_hash = some jury.pool_snapshot_hash;
    selection_proof = some jury.proof;
  };
}

abbrev pub new_member : Candidate → Member
new_member c = record {
  juror_id = c.agent_id;
  score_hash = c.score_hash;
  member_status = MemberStatus.pending_ready;
  ready_deadline_at = none;
  ready_confirmed_at = none;
  voting_deadline_at = none;
  replacement_of_juror_id = none;
  replaced_by_juror_id = none;
}

unfoldable pub replace_jury_members : List Candidate → CaseDb → CaseDb
replace_jury_members chosen db = record db { panel = map new_member chosen }

abbrev pub chosen : JurySelectionResult → List Candidate
chosen jury = keep (λ (c : Candidate). has jury.selected_jurors c.agent_id) jury.scored_candidates

unfoldable pub persist_initial_jury_selection :
    ℕ → DrandRoundData → JurySelectionResult → CaseDb → CaseDb
unfolding create_jury_selection_run set_case_jury_selected replace_jury_members
persist_initial_jury_selection now drand jury db =
    replace_jury_members (chosen jury)
      (set_case_jury_selected now drand jury (create_jury_selection_run drand db))

abbrev pub filing_stage : FilingConfig → SessionStage
filing_stage config =
    if is_judge config.court_mode then SessionStage.judge_screening else SessionStage.pre_session

abbrev pub court_event : EventType → SessionStage → CaseDb → CaseDb
unfolding append_transcript_event
court_event event_type stage db = append_transcript_event ActorRole.court event_type (some stage) db

-- The events, the note on a bypass only where there is one.
unfoldable pub filing_events : FilingConfig → Prepared → CaseDb → CaseDb
unfolding append_transcript_event
filing_events config p db =
    let paid = court_event EventType.payment_verified (filing_stage config) db in
    let noted =
      if filing_fee_bypass p
      then court_event EventType.notice SessionStage.pre_session paid
      else paid in
    let drawn = court_event EventType.jury_selected SessionStage.pre_session noted in
    let scheduled = court_event EventType.notice SessionStage.pre_session drawn in
    court_event EventType.notice SessionStage.pre_session scheduled

-- The rows of the case after the transaction.
unfoldable pub filed_rows : FilingConfig → ℕ → Prepared → CaseDb → CaseDb
unfolding set_case_filed apply_court_mode persist_initial_jury_selection filing_events
filed_rows config now p db = filing_events config p (
    persist_initial_jury_selection now p.drand p.jury
      (apply_court_mode config (set_case_filed config now p db)))

abbrev pub paid_by : Option String → String → Bool
paid_by none tx_sig = false
paid_by (some s) tx_sig = str_eq s tx_sig

-- `treasury_tx_sig TEXT UNIQUE` of the cases, but for the case that is written.
abbrev pub is_sig_of_other : String → String → Registry → Bool
is_sig_of_other case_id tx_sig reg =
    any (λ (db : CaseDb). not (has_id case_id db) && paid_by db.row.treasury_tx_sig tx_sig)
      reg.cases

abbrev pub used_tx : Prepared → UsedTx
used_tx p = record {
  tx_sig = p.tx_sig;
  case_id = p.case_id;
  agent_id = p.agent_id;
  amount_lamports = p.payment.amount_lamports;
}

abbrev pub put_case : String → CaseDb → List CaseDb → List CaseDb
put_case case_id db cases = map (λ (d : CaseDb). if has_id case_id d then db else d) cases

-- `saveUsedTreasuryTx` fails on a signature that is there: it is the primary key.
unfoldable pub commit_filing : FilingConfig → ℕ → Prepared → Registry → Result Registry
unfolding filed_rows
commit_filing config now p reg = ensure_case_exists p.case_id reg >>= λ db.
    require (is_draft db.row.status) (conflict "CASE_NOT_DRAFT")
    >> (require (filing_fee_bypass p || not (is_treasury_tx_used p.tx_sig reg))
          (conflict "TREASURY_TX_REPLAY")
        >> (require (not (is_sig_of_other p.case_id p.tx_sig reg)) internal_error
            >> (require (not (is_treasury_tx_used p.tx_sig reg)) internal_error
                >> ok (record {
                  cases = put_case p.case_id (filed_rows config now p db) reg.cases;
                  used_treasury_txs = reg.used_treasury_txs ++ used_tx p ∷ [];
                }))))

-- The registry after the transaction, be it committed or rolled back.
abbrev pub after_commit : Registry → Result Registry → Registry
after_commit reg (err e) = reg
after_commit reg (ok reg') = reg'
