-- ===== src/Session/Types.antt =====
-- The rows of one case: `cases`, `case_runtime`, `jury_panel_members`, `submissions`, `ballots`,
-- `claims` and the transcript, with the types of shared/contracts.ts.
use open_cawt.Base.{ℕ, String, Bool, Option, List}
use open_cawt.Jury.{JurySelectionProof, DrandRoundData}
use open_cawt.Verdict.Tally.{Remedy, VoteEntry}
use open_cawt.Verdict.Compute.{CaseOutcome}

pub data CaseStatus : Type 0 where
  draft filed jury_selected voting closed sealed void : CaseStatus

pub data SessionStage : Type 0 where
  pre_session judge_screening jury_readiness opening_addresses evidence closing_addresses
        summing_up :
      SessionStage
  voting closed sealed void : SessionStage

pub data CourtMode : Type 0 where
  eleven_juror judge : CourtMode

pub data VoidReason : Type 0 where
  missing_defence_assignment jury_readiness_timeout missing_opening_submission : VoidReason
  missing_evidence_submission missing_closing_submission missing_summing_submission : VoidReason
  voting_timeout inconclusive_verdict manual_void judge_screening_rejected judge_screening_failed :
      VoidReason

pub data VoidReasonGroup : Type 0 where
  no_defence prosecution_timeout defence_timeout admin_void other_timeout other : VoidReasonGroup

pub data ScreeningStatus : Type 0 where
  pending pending_retry approved rejected failed : ScreeningStatus

pub data SealStatus : Type 0 where
  pending minting sealed failed : SealStatus

pub data MemberStatus : Type 0 where
  pending_ready ready timed_out replaced active_voting voted : MemberStatus

-- The columns of a submission take any text, which the handler of messages does not test.
pub data Side : Type 0 where
  prosecution defence : Side
  other_side : String → Side

pub data Phase : Type 0 where
  opening evidence closing summing_up : Phase
  other_phase : SessionStage → Phase

pub data ClaimOutcome : Type 0 where
  for_prosecution for_defence undecided : ClaimOutcome

-- `CaseOutcome | "void"`
pub data Outcome : Type 0 where
  decided : CaseOutcome → Outcome
  void : Outcome

pub data DefenceState : Type 0 where
  none accepted volunteered : DefenceState

pub data ActorRole : Type 0 where
  court prosecution defence juror system : ActorRole
  other_role : String → ActorRole

pub data EventType : Type 0 where
  stage_started stage_deadline stage_completed stage_submission jury_selected : EventType
  juror_ready juror_replaced ballot_submitted case_voided case_closed : EventType
  case_sealed payment_verified notice : EventType

-- What the warning of a filing says.
pub data FilingNote : Type 0 where
  soft_cap_exceeded : ℕ → FilingNote
  simulation_bypass alpha_mode : FilingNote

pub record Member : Type 0 where
  pub juror_id : String
  pub score_hash : String
  pub member_status : MemberStatus
  pub ready_deadline_at : Option ℕ
  pub ready_confirmed_at : Option ℕ
  pub voting_deadline_at : Option ℕ
  pub replacement_of_juror_id : Option String
  pub replaced_by_juror_id : Option String

pub record CaseRow : Type 0 where
  pub case_id : String
  pub status : CaseStatus
  pub session_stage : SessionStage
  pub session_started_at : Option ℕ
  pub court_mode : CourtMode
  pub prosecution_agent_id : String
  pub defence_agent_id : Option String
  pub defendant_agent_id : Option String
  pub defence_window_deadline : Option ℕ
  pub scheduled_for : Option ℕ
  pub showcase_sample : Bool
  pub selection_proof : Option JurySelectionProof
  pub judge_screening_status : Option ScreeningStatus
  pub case_title : Option String
  pub void_reason : Option VoidReason
  pub void_reason_group : Option VoidReasonGroup
  pub voided_at : Option ℕ
  pub decided_at : Option ℕ
  pub outcome : Option Outcome
  pub verdict_hash : Option String
  pub transcript_root_hash : Option String
  pub jury_selection_proof_hash : Option String
  pub drand_round : Option ℕ
  pub drand_randomness : Option String
  pub pool_snapshot_hash : Option String
  pub judge_remedy_recommendation : Option String
  pub treasury_tx_sig : Option String
  pub filing_warning : List FilingNote
  pub jury_selected_at : Option ℕ
  pub created_at : ℕ
  pub filed_at : Option ℕ
  pub closed_at : Option ℕ
  pub sealed_at : Option ℕ
  pub seal_status : SealStatus
  pub seal_error : Option String
  pub seal_asset_id : Option String
  pub seal_tx_sig : Option String
  pub seal_uri : Option String
  pub metadata_uri : Option String
  pub ruleset_version : String
  pub summary : String
  pub sealed_disabled : Bool
  pub alpha_cohort : Bool
  pub open_defence : Bool
  pub defence_state : DefenceState
  pub defence_assigned_at : Option ℕ
  pub countdown_end_at : Option ℕ
  pub replacement_count_ready : ℕ
  pub replacement_count_vote : ℕ
  pub last_event_seq_no : ℕ

pub record Runtime : Type 0 where
  pub current_stage : SessionStage
  pub stage_started_at : ℕ
  pub stage_deadline_at : Option ℕ
  pub scheduled_session_start_at : Option ℕ
  pub voting_hard_deadline_at : Option ℕ
  pub void_reason : Option VoidReason
  pub voided_at : Option ℕ

pub record Event : Type 0 where
  pub seq_no : ℕ
  pub actor_role : ActorRole
  pub event_type : EventType
  pub stage : Option SessionStage

pub record Submission : Type 0 where
  pub side : Side
  pub phase : Phase
  pub content_hash : String

pub record ClaimRow : Type 0 where
  pub claim_id : String
  pub requested_remedy : Remedy
  pub claim_outcome : ClaimOutcome

pub record Ballot : Type 0 where
  pub juror_id : String
  pub votes : List VoteEntry
  pub ballot_hash : String

-- The rows that belong to one case. A panel row has the key (case_id, juror_id) and the rows stand
-- in the order of `created_at`. Of a piece of evidence the hash is kept.
pub record CaseDb : Type 0 where
  pub row : CaseRow
  pub runtime : Option Runtime
  pub panel : List Member
  pub submissions : List Submission
  pub evidence_hashes : List String
  pub ballots : List Ballot
  pub claims : List ClaimRow
  pub events : List Event
  pub selection_runs : List DrandRoundData
