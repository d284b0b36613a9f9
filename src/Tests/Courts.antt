-- ===== src/Tests/Courts.antt =====
-- Data that the tests share: two judged claims, a pool of jurors, and a case in its stages.
use open_cawt.Base.{
  String, true, false, none, some, [], ◌∷◌, str_eq, str_le, str_le_total, str_le_trans,
}
use open_cawt.Base.Sorting.{IsPreorder}
use open_cawt.Jury.{Platform, DrandRoundData, JurySelectionInput, Candidate, JurySelectionProof}
use open_cawt.Session.Types.{
  CaseStatus, SessionStage, CourtMode, SealStatus, MemberStatus, Member, CaseRow, Runtime, CaseDb,
  DefenceState, Side, Phase,
}
use open_cawt.Session.Panel.{Env}
use open_cawt.Seal.Types.{SealResponse}
use open_cawt.Seal.Worker.{SealEnv}

-- A platform whose hash is the text itself.
abbrev pub plain : Platform
plain = record { sha256_hex = λ s. s; json_string = λ s. s; locale_le = str_le }

pub plain-IsPreorder : IsPreorder str_le
plain-IsPreorder = record { total = str_le_total; trans = str_le_trans }

abbrev pub beacon : DrandRoundData
beacon = record {
  chain_info = record {
    public_key = none;
    period_seconds = some 30;
    genesis_time = none;
    hash = none;
  };
  round = 7;
  randomness = "r";
}

abbrev pub pool : JurySelectionInput
pool = record {
  case_id = "c";
  eligible_juror_ids = "bo" ∷ "al" ∷ "bo" ∷ "cy" ∷ [];
  drand = beacon;
  jury_size = 2;
}

abbrev pub candidate : String → Candidate
candidate id = record { agent_id = id; score_hash = id }

abbrev pub proof : JurySelectionProof
proof = record {
  chain_info = beacon.chain_info;
  round = 7;
  randomness = "r";
  pool_snapshot_hash = "h";
  seed = "s";
  domain = "OpenCawtJuryV1";
  candidate_scores = candidate "al" ∷ candidate "bo" ∷ candidate "cy" ∷ [];
  selected_jurors = "al" ∷ [];
  replacement_jurors = none;
}

abbrev pub env : Env
env = record {
  juror_panel_size = 1;
  juror_readiness_seconds = 60;
  juror_vote_seconds = 900;
  stage_submission_seconds = 1800;
  voting_hard_timeout_seconds = 7200;
  available_jurors = "al" ∷ "bo" ∷ [];
  allowlist = none;
  drand = beacon;
  beacon_fails = λ id. false;
  platform = plain;
}

abbrev pub seated : String → MemberStatus → Member
seated id status = record {
  juror_id = id;
  score_hash = id;
  member_status = status;
  ready_deadline_at = some 10;
  ready_confirmed_at = none;
  voting_deadline_at = some 10;
  replacement_of_juror_id = none;
  replaced_by_juror_id = none;
}

abbrev pub row : SessionStage → CaseStatus → CaseRow
row stage status = record {
  case_id = "c";
  status = status;
  session_stage = stage;
  session_started_at = some 0;
  court_mode = CourtMode.eleven_juror;
  prosecution_agent_id = "pro";
  defence_agent_id = some "def";
  defendant_agent_id = none;
  defence_window_deadline = none;
  scheduled_for = none;
  showcase_sample = false;
  selection_proof = some proof;
  judge_screening_status = none;
  case_title = none;
  void_reason = none;
  void_reason_group = none;
  voided_at = none;
  decided_at = none;
  outcome = none;
  verdict_hash = none;
  transcript_root_hash = none;
  jury_selection_proof_hash = none;
  drand_round = some 7;
  drand_randomness = some "r";
  pool_snapshot_hash = some "h";
  judge_remedy_recommendation = none;
  treasury_tx_sig = none;
  filing_warning = [];
  jury_selected_at = none;
  created_at = 0;
  filed_at = none;
  closed_at = none;
  sealed_at = none;
  seal_status = SealStatus.pending;
  seal_error = none;
  seal_asset_id = none;
  seal_tx_sig = none;
  seal_uri = none;
  metadata_uri = none;
  ruleset_version = "v1";
  summary = "s";
  sealed_disabled = false;
  alpha_cohort = false;
  open_defence = true;
  defence_state = DefenceState.accepted;
  defence_assigned_at = none;
  countdown_end_at = none;
  replacement_count_ready = 0;
  replacement_count_vote = 0;
  last_event_seq_no = 0;
}

abbrev pub runtime : SessionStage → Runtime
runtime stage = record {
  current_stage = stage;
  stage_started_at = 0;
  stage_deadline_at = some 100;
  scheduled_session_start_at = none;
  voting_hard_deadline_at = some 100;
  void_reason = none;
  voided_at = none;
}

-- A case in which both sides have filed their evidence, and one juror sits.
abbrev pub case_in : SessionStage → CaseStatus → CaseDb
case_in stage status = record {
  row = row stage status;
  runtime = some (runtime stage);
  panel = seated "al" MemberStatus.active_voting ∷ [];
  submissions =
      record { side = Side.prosecution; phase = Phase.evidence; content_hash = "p" }
      ∷ record { side = Side.defence; phase = Phase.evidence; content_hash = "d" }
      ∷ [];
  evidence_hashes = [];
  ballots = [];
  claims = [];
  events = [];
  selection_runs = [];
}

-- A platform for seals, whose hashes are ids.
abbrev pub seal_env : SealEnv
seal_env = record {
  decision_url = λ id. id;
  request_hash = λ r. r.job_id;
  response_hash = λ r. elim r [ SealResponse.minted m ↦ m.asset_id | SealResponse.failed f ↦ "" ];
  is_blank = λ s. str_eq s "";
  seal_job_max_attempts = 3;
}
