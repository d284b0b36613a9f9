-- ===== src/Defence.antt =====
-- db/repository.ts `claimDefenceAssignment`, and the route of main.ts that volunteers for a defence:
-- who may take the defence of a case, on the rows of the case. The claim is one transaction. The
-- route has checked the body and the agent.
pub mod Claimable
pub mod Assigned
use open_cawt.Base.{
  ℕ, ◌+◌, ◌*◌, String, Bool, true, false, not, ◌&&◌, ◌||◌, Option, none, some, any, leb, ltb,
  or_else, is_some, str_eq, if◌then◌else◌,
}
use open_cawt.Base.Errors.{ApiError, Result, ok, err, bad_request, conflict}
use open_cawt.Session.Types.{
  CaseStatus, SessionStage, MemberStatus, DefenceState, ActorRole, EventType, Member, CaseRow,
  Runtime, CaseDb,
}
use open_cawt.Session.Store.{upsert_case_runtime, append_transcript_event}

pub data ClaimStatus : Type 0 where
  not_open defence_cannot_be_prosecution already_taken window_closed : ClaimStatus
  reserved_for_named_defendant assigned_accepted assigned_volunteered : ClaimStatus

pub record ClaimInput : Type 0 where
  pub agent_id : String
  pub now : ℕ
  pub named_exclusive_sec : ℕ
  pub schedule_delay_sec : ℕ

-- `Boolean(id)`: the empty text is no id.
abbrev pub given : Option String → Bool
given none = false
given (some id) = not (str_eq id "")

abbrev pub is_this : String → Option String → Bool
is_this id none = false
is_this id (some other) = str_eq other id

abbrev pub can_be_claimed : CaseStatus → Bool
can_be_claimed CaseStatus.draft = true
can_be_claimed CaseStatus.filed = true
can_be_claimed CaseStatus.jury_selected = true
can_be_claimed CaseStatus.voting = true
can_be_claimed _ = false

abbrev pub sits : MemberStatus → Bool
sits MemberStatus.pending_ready = true
sits MemberStatus.ready = true
sits MemberStatus.active_voting = true
sits MemberStatus.voted = true
sits _ = false

abbrev pub is_juror : String → CaseDb → Bool
is_juror agent_id db =
    any (λ (m : Member). str_eq m.juror_id agent_id && sits m.member_status) db.panel

abbrev pub is_over : Option ℕ → ℕ → Bool
is_over none now = false
is_over (some deadline) now = leb deadline now

abbrev pub exclusive_end : ClaimInput → CaseRow → ℕ
exclusive_end input row = or_else row.filed_at row.created_at + input.named_exclusive_sec * 1000

abbrev pub is_reserved : ClaimInput → CaseRow → Bool
is_reserved input row =
    given row.defendant_agent_id
    && not (is_this input.agent_id row.defendant_agent_id)
    && ltb input.now (exclusive_end input row)

abbrev pub is_named : ClaimInput → CaseRow → Bool
is_named input row = given row.defendant_agent_id && is_this input.agent_id row.defendant_agent_id

-- The early returns, in their order.
unfoldable pub refusal : ClaimInput → CaseDb → Option ClaimStatus
refusal input db =
    let row = db.row in
    if not (can_be_claimed row.status)
    then some ClaimStatus.not_open
    else if str_eq input.agent_id row.prosecution_agent_id
    then some ClaimStatus.defence_cannot_be_prosecution
    else if is_juror input.agent_id db
    then some ClaimStatus.not_open
    else if not (given row.defendant_agent_id) && not row.open_defence
    then some ClaimStatus.not_open
    else if given row.defence_agent_id
    then some ClaimStatus.already_taken
    else if is_over row.defence_window_deadline input.now
    then some ClaimStatus.window_closed
    else if is_reserved input row
    then some ClaimStatus.reserved_for_named_defendant
    else none

abbrev pub is_waiting_for_session : CaseStatus → Bool
is_waiting_for_session CaseStatus.filed = true
is_waiting_for_session CaseStatus.jury_selected = true
is_waiting_for_session _ = false

abbrev pub is_pre_session : SessionStage → Bool
is_pre_session SessionStage.pre_session = true
is_pre_session _ = false

-- Before a session, its runtime gets the time of the session.
abbrev pub schedule_runtime : Option Runtime → ℕ → CaseDb → CaseDb
unfolding upsert_case_runtime
schedule_runtime none at db = db
schedule_runtime (some runtime) at db =
    if is_pre_session runtime.current_stage
    then upsert_case_runtime
        (record runtime { stage_deadline_at = some at; scheduled_session_start_at = some at }) db
    else db

unfoldable pub schedule : ClaimInput → CaseDb → CaseDb
unfolding upsert_case_runtime
schedule input db =
    let at = input.now + input.schedule_delay_sec * 1000 in
    schedule_runtime db.runtime at
      (record db { row = record (db.row) { scheduled_for = some at; countdown_end_at = some at } })

abbrev pub assigned : ClaimInput → CaseDb → CaseDb
assigned input db = record db {
  row = record (db.row) {
    defence_agent_id = some input.agent_id;
    defence_state =
        if is_named input db.row then DefenceState.accepted else DefenceState.volunteered;
    defence_assigned_at = some input.now;
  };
}

-- `UPDATE … WHERE defence_agent_id IS NULL`, and the schedule where there is none.
abbrev pub assign : ClaimInput → CaseDb → CaseDb × ClaimStatus
unfolding schedule
assign input db = if is_some db.row.defence_agent_id then (db, ClaimStatus.already_taken) else (
  if not (is_some db.row.scheduled_for) && is_waiting_for_session db.row.status
      then schedule input (assigned input db)
      else assigned input db,
  if is_named input db.row then ClaimStatus.assigned_accepted else ClaimStatus.assigned_volunteered,
)

abbrev pub unless_refused : Option ClaimStatus → ClaimInput → CaseDb → CaseDb × ClaimStatus
unfolding schedule
unless_refused (some status) input db = (db, status)
unless_refused none input db = assign input db

unfoldable pub claim_defence_assignment : ClaimInput → CaseDb → CaseDb × ClaimStatus
unfolding refusal schedule
claim_defence_assignment input db = unless_refused (refusal input db) input db

-- The response of the route: the state of the defence, or the error of a refusal.
abbrev pub claim_response : ClaimStatus → Result DefenceState
claim_response ClaimStatus.already_taken = err (conflict "DEFENCE_ALREADY_TAKEN")
claim_response ClaimStatus.defence_cannot_be_prosecution =
    err (bad_request "DEFENCE_CANNOT_BE_PROSECUTION")
claim_response ClaimStatus.not_open = err (conflict "CASE_NOT_OPEN_FOR_DEFENCE")
claim_response ClaimStatus.reserved_for_named_defendant =
    err (conflict "DEFENCE_RESERVED_FOR_NAMED_DEFENDANT")
claim_response ClaimStatus.window_closed = err (conflict "DEFENCE_WINDOW_CLOSED")
claim_response ClaimStatus.assigned_accepted = ok DefenceState.accepted
claim_response ClaimStatus.assigned_volunteered = ok DefenceState.volunteered

abbrev pub noted : CaseDb → Result DefenceState → CaseDb × Result DefenceState
unfolding append_transcript_event
noted db (err e) = (db, err e)
noted db (ok state) = (
  append_transcript_event ActorRole.court EventType.notice (some SessionStage.pre_session) db,
  ok state,
)

unfoldable pub volunteer_defence : ClaimInput → CaseDb → CaseDb × Result DefenceState
unfolding claim_defence_assignment append_transcript_event
volunteer_defence input db =
    let (db', status) = claim_defence_assignment input db in noted db' (claim_response status)
