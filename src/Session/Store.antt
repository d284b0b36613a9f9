-- ===== src/Session/Store.antt =====
-- server/db/repository.ts: the writes to the rows of a case.
use Prim.Native.String
use open_cawt.Base.{
  ◌==◌, ◌≡◌, ◌↔◌, refl, sym, ◌∙◌, ap, subst, arith, ℕ, ◌+◌, String, Bool, true, false, Option, none,
  some, List, [], ◌∷◌, ◌++◌, map, keep, or_else, str_eq, if◌then◌else◌, any, ◌&&◌,
}
use open_cawt.Jury.{DrandRoundData}
use open_cawt.Session.Types.{
  CaseStatus, SessionStage, VoidReason, VoidReasonGroup, ScreeningStatus, SealStatus, MemberStatus,
  ClaimOutcome, ActorRole, EventType, Member, Runtime, CaseDb, Outcome, ClaimRow, Side, Phase,
  Submission,
}

-- `appendTranscriptEvent`: in one transaction, the next number and the event that has it.
unfoldable pub append_transcript_event :
    ActorRole → EventType → Option SessionStage → CaseDb → CaseDb
append_transcript_event actor_role event_type stage db =
    let seq_no = db.row.last_event_seq_no + 1 in
    record db {
      row = record (db.row) { last_event_seq_no = seq_no };
      events =
          db.events
          ++ record {
            seq_no = seq_no;
            actor_role = actor_role;
            event_type = event_type;
            stage = stage;
          }
            ∷ [];
    }

-- `session_started_at` is written once.
unfoldable pub mark_case_session_stage : SessionStage → CaseStatus → ℕ → CaseDb → CaseDb
mark_case_session_stage stage status started db = record db {
  row = record (db.row) {
    session_stage = stage;
    status = status;
    session_started_at = some (or_else db.row.session_started_at started);
  };
}

unfoldable pub mark_session_started : ℕ → CaseDb → CaseDb
mark_session_started at db = record db {
  row = record (db.row) {
    session_started_at = some at;
    session_stage = SessionStage.jury_readiness;
  };
}

unfoldable pub upsert_case_runtime : Runtime → CaseDb → CaseDb
upsert_case_runtime runtime db = record db { runtime = some runtime }

unfoldable pub to_learning_void_reason_group : VoidReason → VoidReasonGroup
to_learning_void_reason_group VoidReason.missing_defence_assignment = VoidReasonGroup.no_defence
to_learning_void_reason_group VoidReason.jury_readiness_timeout = VoidReasonGroup.other_timeout
to_learning_void_reason_group VoidReason.missing_opening_submission = VoidReasonGroup.other_timeout
to_learning_void_reason_group VoidReason.missing_evidence_submission = VoidReasonGroup.other_timeout
to_learning_void_reason_group VoidReason.missing_closing_submission = VoidReasonGroup.other_timeout
to_learning_void_reason_group VoidReason.missing_summing_submission = VoidReasonGroup.other_timeout
to_learning_void_reason_group VoidReason.manual_void = VoidReasonGroup.admin_void
to_learning_void_reason_group VoidReason.judge_screening_failed = VoidReasonGroup.admin_void
to_learning_void_reason_group VoidReason.judge_screening_rejected = VoidReasonGroup.admin_void
to_learning_void_reason_group VoidReason.voting_timeout = VoidReasonGroup.other_timeout
to_learning_void_reason_group VoidReason.inconclusive_verdict = VoidReasonGroup.other

-- The words of `CaseVoidReason`.
abbrev pub void_reason_text : VoidReason → String
void_reason_text VoidReason.missing_defence_assignment = "missing_defence_assignment"
void_reason_text VoidReason.jury_readiness_timeout = "jury_readiness_timeout"
void_reason_text VoidReason.missing_opening_submission = "missing_opening_submission"
void_reason_text VoidReason.missing_evidence_submission = "missing_evidence_submission"
void_reason_text VoidReason.missing_closing_submission = "missing_closing_submission"
void_reason_text VoidReason.missing_summing_submission = "missing_summing_submission"
void_reason_text VoidReason.voting_timeout = "voting_timeout"
void_reason_text VoidReason.inconclusive_verdict = "inconclusive_verdict"
void_reason_text VoidReason.manual_void = "manual_void"
void_reason_text VoidReason.judge_screening_rejected = "judge_screening_rejected"
void_reason_text VoidReason.judge_screening_failed = "judge_screening_failed"

-- `existing?.x ?? null`
abbrev pub of_runtime : (Runtime → Option ℕ) → Option Runtime → Option ℕ
of_runtime field none = none
of_runtime field (some runtime) = field runtime

unfoldable pub mark_case_void : VoidReason → ℕ → CaseDb → CaseDb
unfolding to_learning_void_reason_group upsert_case_runtime
mark_case_void reason at db =
    let db' = record db {
      row = record (db.row) {
        status = CaseStatus.void;
        session_stage = SessionStage.void;
        void_reason = some reason;
        void_reason_group = some (to_learning_void_reason_group reason);
        voided_at = some at;
        decided_at = some at;
        outcome = some Outcome.void;
        seal_status = SealStatus.failed;
        seal_error = some (String.◌++◌ "Case voided: " (void_reason_text reason));
        sealed_disabled = true;
      };
      claims =
          map (λ (c : ClaimRow). record c { claim_outcome = ClaimOutcome.undecided }) db.claims;
    } in
    upsert_case_runtime
      (record {
        current_stage = SessionStage.void;
        stage_started_at = at;
        stage_deadline_at = none;
        scheduled_session_start_at = of_runtime (λ r. r.scheduled_session_start_at) db.runtime;
        voting_hard_deadline_at = of_runtime (λ r. r.voting_hard_deadline_at) db.runtime;
        void_reason = some reason;
        voided_at = some at;
      })
      db'

-- A title that is not given is written as NULL.
unfoldable pub set_case_judge_screening_result : ScreeningStatus → Option String → CaseDb → CaseDb
set_case_judge_screening_result status case_title db = record db {
  row = record (db.row) { judge_screening_status = some status; case_title = case_title };
}

-- `UPDATE jury_panel_members SET … WHERE juror_id = ?`
abbrev pub update_member : String → (Member → Member) → List Member → List Member
update_member juror_id f panel = map (λ m. if str_eq m.juror_id juror_id then f m else m) panel

abbrev pub is_waiting : MemberStatus → Bool
is_waiting MemberStatus.pending_ready = true
is_waiting MemberStatus.active_voting = true
is_waiting _ = false

abbrev pub timed_out : Member → Member
timed_out m =
    if is_waiting m.member_status then record m { member_status = MemberStatus.timed_out } else m

unfoldable pub mark_juror_timed_out : String → CaseDb → CaseDb
mark_juror_timed_out juror_id db = record db { panel = update_member juror_id timed_out db.panel }

abbrev pub replaced_by : String → Member → Member
replaced_by replacement_juror_id m = record m {
  member_status = MemberStatus.replaced;
  replaced_by_juror_id = some replacement_juror_id;
}

unfoldable pub mark_juror_replaced : String → String → CaseDb → CaseDb
mark_juror_replaced juror_id replacement_juror_id db = record db {
  panel = update_member juror_id (replaced_by replacement_juror_id) db.panel;
}

abbrev pub without_member : String → List Member → List Member
without_member juror_id [] = []
without_member juror_id (m ∷ ms) =
    if str_eq m.juror_id juror_id
    then without_member juror_id ms
    else m ∷ without_member juror_id ms

-- `INSERT OR REPLACE`: a row with the key goes, and the new row is the last.
unfoldable pub add_replacement_juror : Member → CaseDb → CaseDb
add_replacement_juror member db = record db {
  panel = without_member member.juror_id db.panel ++ member ∷ [];
}

abbrev is_seated_for_readiness : MemberStatus → Bool
is_seated_for_readiness MemberStatus.pending_ready = true
is_seated_for_readiness MemberStatus.ready = true
is_seated_for_readiness MemberStatus.active_voting = true
is_seated_for_readiness _ = false

unfoldable pub set_jury_readiness_deadlines : ℕ → CaseDb → CaseDb
set_jury_readiness_deadlines deadline db = record db {
  panel =
      map
        (λ m.
          if is_seated_for_readiness m.member_status
          then record m {
            member_status = MemberStatus.pending_ready;
            ready_deadline_at = some deadline;
            ready_confirmed_at = none;
          }
          else m)
        db.panel;
}

-- A juror who has voted keeps status and deadline.
unfoldable pub set_voting_deadlines_for_active_jurors : ℕ → CaseDb → CaseDb
set_voting_deadlines_for_active_jurors deadline db = record db {
  panel =
      map
        (λ m.
          if is_seated_for_readiness m.member_status
          then record m {
            member_status = MemberStatus.active_voting;
            voting_deadline_at = some deadline;
          }
          else m)
        db.panel;
}

-- The number of rows updated is positive where a row was pending.
abbrev pub is_pending_ready : MemberStatus → Bool
is_pending_ready MemberStatus.pending_ready = true
is_pending_ready _ = false

abbrev pub is_active_voting : MemberStatus → Bool
is_active_voting MemberStatus.active_voting = true
is_active_voting _ = false

unfoldable pub confirm_juror_ready : String → ℕ → CaseDb → CaseDb × Bool
confirm_juror_ready juror_id at db =
    let is_pending =
      λ (m : Member). str_eq m.juror_id juror_id && is_pending_ready m.member_status in
    (
      record db {
        panel =
            map
              (λ m.
                if is_pending m
                then record m { member_status = MemberStatus.ready; ready_confirmed_at = some at }
                else m)
              db.panel;
      },
      any is_pending db.panel,
    )

unfoldable pub mark_juror_voted : String → CaseDb → CaseDb
mark_juror_voted juror_id db = record db {
  panel = update_member juror_id (λ m. record m { member_status = MemberStatus.voted }) db.panel;
}

unfoldable pub increment_replacement_count_ready : CaseDb → CaseDb
increment_replacement_count_ready db = record db {
  row = record (db.row) { replacement_count_ready = db.row.replacement_count_ready + 1 };
}

unfoldable pub increment_replacement_count_vote : CaseDb → CaseDb
increment_replacement_count_vote db = record db {
  row = record (db.row) { replacement_count_vote = db.row.replacement_count_vote + 1 };
}

unfoldable pub create_jury_selection_run : DrandRoundData → CaseDb → CaseDb
create_jury_selection_run run db = record db { selection_runs = db.selection_runs ++ run ∷ [] }

abbrev stage_code : SessionStage → ℕ
stage_code SessionStage.pre_session = 0
stage_code SessionStage.judge_screening = 1
stage_code SessionStage.jury_readiness = 2
stage_code SessionStage.opening_addresses = 3
stage_code SessionStage.evidence = 4
stage_code SessionStage.closing_addresses = 5
stage_code SessionStage.summing_up = 6
stage_code SessionStage.voting = 7
stage_code SessionStage.closed = 8
stage_code SessionStage.sealed = 9
stage_code SessionStage.void = 10

abbrev pub is_same_stage : SessionStage → SessionStage → Bool
is_same_stage a b = stage_code a == stage_code b

of_code : ℕ → SessionStage
of_code n =
    if n == 0
    then SessionStage.pre_session
    else if n == 1
    then SessionStage.judge_screening
    else if n == 2
    then SessionStage.jury_readiness
    else if n == 3
    then SessionStage.opening_addresses
    else if n == 4
    then SessionStage.evidence
    else if n == 5
    then SessionStage.closing_addresses
    else if n == 6
    then SessionStage.summing_up
    else if n == 7
    then SessionStage.voting
    else if n == 8
    then SessionStage.closed
    else if n == 9
    then SessionStage.sealed
    else SessionStage.void

of_code-stage_code : (a : SessionStage) → of_code (stage_code a) ≡ a
unfolding of_code
of_code-stage_code SessionStage.pre_session = refl
of_code-stage_code SessionStage.judge_screening = refl
of_code-stage_code SessionStage.jury_readiness = refl
of_code-stage_code SessionStage.opening_addresses = refl
of_code-stage_code SessionStage.evidence = refl
of_code-stage_code SessionStage.closing_addresses = refl
of_code-stage_code SessionStage.summing_up = refl
of_code-stage_code SessionStage.voting = refl
of_code-stage_code SessionStage.closed = refl
of_code-stage_code SessionStage.sealed = refl
of_code-stage_code SessionStage.void = refl

pub is_same_stage_iff : (a b : SessionStage) → (is_same_stage a b ≡ true) ↔ (a ≡ b)
is_same_stage_iff a b = (
  λ h.
      let same : stage_code a ≡ stage_code b = ground arith in
      sym (of_code-stage_code a) ∙ ap of_code same ∙ of_code-stage_code b,
  λ e. subst (λ c. is_same_stage a c ≡ true) e (ground arith),
)

abbrev pub same_side : Side → Side → Bool
same_side Side.prosecution Side.prosecution = true
same_side Side.defence Side.defence = true
same_side (Side.other_side a) (Side.other_side b) = str_eq a b
same_side _ _ = false

abbrev pub same_phase : Phase → Phase → Bool
same_phase Phase.opening Phase.opening = true
same_phase Phase.evidence Phase.evidence = true
same_phase Phase.closing Phase.closing = true
same_phase Phase.summing_up Phase.summing_up = true
same_phase (Phase.other_phase a) (Phase.other_phase b) = is_same_stage a b
same_phase _ _ = false

-- `Boolean(getSubmissionBySidePhase(…))`
abbrev pub submitted : CaseDb → Side → Phase → Bool
submitted db side phase =
    any (λ (s : Submission). same_side s.side side && same_phase s.phase phase) db.submissions

abbrev pub is_seated : MemberStatus → Bool
is_seated MemberStatus.replaced = false
is_seated MemberStatus.timed_out = false
is_seated _ = true

-- The ids of the panel, without those that were replaced or timed out; the order, by the hash of
-- the score, is left out.
abbrev pub list_jury_members : CaseDb → List String
list_jury_members db =
    map (λ (m : Member). m.juror_id) (keep (λ (m : Member). is_seated m.member_status) db.panel)
