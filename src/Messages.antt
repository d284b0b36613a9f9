-- ===== src/Messages.antt =====
-- processStageMessageAction of server/main.ts, with `upsertSubmission` of db/repository.ts.
pub mod Posted
pub mod Advance
use open_cawt.Base.{
  ℕ, String, Bool, true, false, not, ◌&&◌, ◌||◌, Option, none, some, List, [], ◌∷◌, ◌++◌, map, keep,
  all, leb, str_eq, if◌then◌else◌,
}
use open_cawt.Base.Errors.{
  ApiError, Result, ok, err, bad_request, forbidden, conflict, require, ◌>>◌, ◌>>=◌,
}
use open_cawt.Base.Sets.{has}
use open_cawt.Session.Types.{
  CaseStatus, SessionStage, Side, Phase, ActorRole, EventType, Runtime, Submission, ClaimRow,
  CaseRow, CaseDb,
}
use open_cawt.Session.Store.{append_transcript_event, same_side, same_phase, is_same_stage}
use open_cawt.Ballots.{Logged, ActionType, RateLimits, enforce_action_rate_limit, is_overdue}
use open_cawt.Filing.{is_draft}
use open_cawt.Validation.Principles.{RawId, Texts, Options, normalise_principle_ids}

-- A body of the route `/stage-messages` gives any stage, and so the phase may be that of a stage in which
-- no side writes.
unfoldable pub to_submission_phase : SessionStage → Phase
to_submission_phase SessionStage.opening_addresses = Phase.opening
to_submission_phase SessionStage.closing_addresses = Phase.closing
to_submission_phase SessionStage.evidence = Phase.evidence
to_submission_phase SessionStage.summing_up = Phase.summing_up
to_submission_phase stage = Phase.other_phase stage

-- The route `/submissions` gives a phase in place of the stage.
unfoldable pub to_submission_stage : Phase → SessionStage
to_submission_stage Phase.opening = SessionStage.opening_addresses
to_submission_stage Phase.closing = SessionStage.closing_addresses
to_submission_stage Phase.evidence = SessionStage.evidence
to_submission_stage Phase.summing_up = SessionStage.summing_up
to_submission_stage (Phase.other_phase stage) = stage

-- The side is any text; a stage that is none of the session's is no current stage, and is left out. Of
-- the text its length is kept. Citations are none where they are no array, and those of claims
-- where they are not given.
pub record MessageBody : Type 0 where
  pub side : Side
  pub stage : SessionStage
  pub text_length : ℕ
  pub principle_citations : Option (List RawId)
  pub claim_principle_citations : List (String × Option (List RawId))
  pub content_hash : String

pub record MessageEnv : Type 0 where
  pub js : Texts
  pub max_submission_chars_per_phase : ℕ
  pub log : List Logged
  pub limits : RateLimits
  pub simulation_bypass_enabled : Bool

abbrev pub is_prosecution : Side → Bool
is_prosecution Side.prosecution = true
is_prosecution _ = false

abbrev pub is_opening : SessionStage → Bool
is_opening SessionStage.opening_addresses = true
is_opening _ = false

-- The prosecution may write its opening while the case is a draft.
abbrev pub is_draft_pre_submission : MessageBody → CaseRow → Bool
is_draft_pre_submission body row =
    is_draft row.status && is_prosecution body.side && is_opening body.stage

abbrev pub check_stage : SessionStage → ℕ → Option Runtime → Result (Unit {0})
check_stage stage now none = err (conflict "SESSION_NOT_INITIALISED")
check_stage stage now (some runtime) =
    require (is_same_stage runtime.current_stage stage) (conflict "STAGE_MISMATCH")
    >> require (not (is_overdue runtime.stage_deadline_at now)) (conflict "STAGE_DEADLINE_PASSED")

abbrev pub free : Options
free = record { required = false; min = none; max = none }

abbrev pub or_empty : Option (List RawId) → Option (List RawId)
or_empty none = some []
or_empty (some ids) = some ids

-- The citations of each claim, one after another.
unfoldable pub check_citations : Texts → List (String × Option (List RawId)) → Result (Unit {0})
unfolding normalise_principle_ids
check_citations js [] = ok tt
check_citations js ((claim_id, values) ∷ rest) =
    normalise_principle_ids js free values >>= λ ids. check_citations js rest

abbrev pub knows_claims : List String → List (String × Option (List RawId)) → Bool
knows_claims claim_ids citations =
    all (λ (c : String × Option (List RawId)). has claim_ids c.0) citations

abbrev pub is_defence_of : String → Option String → Bool
is_defence_of agent_id none = false
is_defence_of agent_id (some id) = str_eq id agent_id

-- Who writes for a side. Any agent writes for a side that is neither.
abbrev pub check_side : Side → String → CaseRow → Result (Unit {0})
check_side Side.prosecution agent_id row =
    require (str_eq agent_id row.prosecution_agent_id) (forbidden "NOT_PROSECUTION")
check_side Side.defence agent_id row =
    require (is_defence_of agent_id row.defence_agent_id) (forbidden "NOT_DEFENCE")
check_side (Side.other_side name) agent_id row = ok tt

abbrev pub within_rate : MessageEnv → String → ℕ → CaseRow → Result (Unit {0})
unfolding enforce_action_rate_limit
within_rate env agent_id now row =
    if env.simulation_bypass_enabled && row.sealed_disabled
    then ok tt
    else enforce_action_rate_limit env.limits agent_id ActionType.submission now env.log

abbrev pub claim_ids : CaseDb → List String
claim_ids db = map (λ (c : ClaimRow). c.claim_id) db.claims

unfoldable pub check_message : MessageEnv → MessageBody → String → ℕ → CaseDb → Result (Unit {0})
unfolding check_citations normalise_principle_ids enforce_action_rate_limit
check_message env body agent_id now db =
    (if is_draft_pre_submission body db.row then ok tt else check_stage body.stage now db.runtime)
    >> (require (leb body.text_length env.max_submission_chars_per_phase)
          (bad_request "SUBMISSION_TOO_LONG")
        >> (normalise_principle_ids env.js free (or_empty body.principle_citations) >>= λ ids.
            check_citations env.js body.claim_principle_citations
            >> (require (knows_claims (claim_ids db) body.claim_principle_citations)
                  (bad_request "UNKNOWN_CLAIM")
                >> (check_side body.side agent_id db.row >> within_rate env agent_id now db.row))))

abbrev pub is_of : Side → Phase → Submission → Bool
is_of side phase s = same_side s.side side && same_phase s.phase phase

-- The key is (case_id, side, phase); the row that is written has the latest `created_at`, by which
-- the rows are listed.
unfoldable pub upsert_submission : Submission → CaseDb → CaseDb
upsert_submission s db = record db {
  submissions = keep (λ (t : Submission). not (is_of s.side s.phase t)) db.submissions ++ s ∷ [];
}

abbrev pub role_of : Side → ActorRole
role_of Side.prosecution = ActorRole.prosecution
role_of Side.defence = ActorRole.defence
role_of (Side.other_side name) = ActorRole.other_role name

abbrev pub submission_of : MessageBody → Submission
unfolding to_submission_phase
submission_of body = record {
  side = body.side;
  phase = to_submission_phase body.stage;
  content_hash = body.content_hash;
}

unfoldable pub posted : MessageBody → CaseDb → CaseDb
unfolding append_transcript_event upsert_submission to_submission_phase
posted body db =
    append_transcript_event (role_of body.side) EventType.stage_submission (some body.stage)
      (upsert_submission (submission_of body) db)

unfoldable pub process_stage_message_action :
    MessageEnv → MessageBody → String → ℕ → CaseDb → Result CaseDb
unfolding check_message posted
process_stage_message_action env body agent_id now db =
    check_message env body agent_id now db >> ok (posted body db)
