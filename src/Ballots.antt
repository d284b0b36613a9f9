-- ===== src/Ballots.antt =====
-- The route of main.ts that takes the ballot of a juror, with `addBallot` and `countActionInWindow`
-- of db/repository.ts and `enforceActionRateLimit` of services/rateLimit.ts.
pub mod Recorded
use open_cawt.Base.{
  ℕ, ◌-◌, ◌*◌, String, Bool, true, false, not, ◌&&◌, ◌||◌, Option, none, some, List, [], ◌∷◌, ◌++◌,
  map, any, find, leb, ltb, length, ◌==◌, count_if, str_eq, if◌then◌else◌,
}
use open_cawt.Base.Errors.{
  ApiError, Result, ok, err, bad_request, forbidden, conflict, rate_limited, require, ◌>>◌, ◌>>=◌,
}
use open_cawt.Base.Sets.{has}
use open_cawt.Verdict.Tally.{Finding, Remedy, VoteEntry}
use open_cawt.Session.Types.{
  SessionStage, MemberStatus, ActorRole, EventType, Member, ClaimRow, Ballot, CaseDb,
}
use open_cawt.Session.Store.{append_transcript_event, mark_juror_voted, list_jury_members}
use open_cawt.Close.Pipeline.{is_voting, in_voting_stage}

pub data ActionType : Type 0 where
  evidence submission ballot : ActionType

abbrev pub same_action : ActionType → ActionType → Bool
same_action ActionType.evidence ActionType.evidence = true
same_action ActionType.submission ActionType.submission = true
same_action ActionType.ballot ActionType.ballot = true
same_action _ _ = false

-- A row of `agent_action_log`.
pub record Logged : Type 0 where
  pub agent_id : String
  pub action_type : ActionType
  pub created_at : ℕ

unfoldable pub count_action_in_window : String → ActionType → ℕ → ℕ → List Logged → ℕ
count_action_in_window agent_id action_type window_seconds now log =
    count_if
      (λ (l : Logged).
        str_eq l.agent_id agent_id
        && same_action l.action_type action_type
        && leb (now - window_seconds * 1000) l.created_at)
      log

-- `config.rateLimits`, per hour.
pub record RateLimits : Type 0 where
  pub evidence_per_hour : ℕ
  pub submissions_per_hour : ℕ
  pub ballots_per_hour : ℕ

abbrev pub limit_of : RateLimits → ActionType → ℕ
limit_of limits ActionType.evidence = limits.evidence_per_hour
limit_of limits ActionType.submission = limits.submissions_per_hour
limit_of limits ActionType.ballot = limits.ballots_per_hour

unfoldable pub enforce_action_rate_limit :
    RateLimits → String → ActionType → ℕ → List Logged → Result (Unit {0})
unfolding count_action_in_window
enforce_action_rate_limit limits agent_id action_type now log =
    require
      (not (
        leb (limit_of limits action_type)
          (count_action_in_window agent_id action_type 3600 now log)))
      rate_limited

-- What a route has at hand beside the case: the agents that may not sit on a jury, the log of
-- actions, the limits, and whether a simulation may pass them.
pub record BallotEnv : Type 0 where
  pub banned_from_jury : String → Bool
  pub log : List Logged
  pub limits : RateLimits
  pub simulation_bypass_enabled : Bool

-- A vote of the body: none stands for a word that is no finding or no remedy, and for a severity
-- that is no whole number.
pub record VoteInput : Type 0 where
  pub claim_id : String
  pub finding : Option Finding
  pub severity : Option ℕ
  pub recommended_remedy : Option Remedy
  pub rationale : String
  pub citations : List String

-- The body: `fields` and `ml_signals` are what validation.ts makes of the reasoning, the
-- principles, the confidence and the label, and of the signals for learning.
pub record BallotBody : Type 0 where
  pub votes : List VoteInput
  pub fields : Result (Unit {0})
  pub ml_signals : Result (Unit {0})
  pub ballot_hash : String

abbrev pub finding_or : Option Finding → Result Finding
finding_or none = err (bad_request "INVALID_FINDING")
finding_or (some f) = ok f

abbrev pub severity_or : Option ℕ → Result ℕ
severity_or none = err (bad_request "INVALID_SEVERITY")
severity_or (some n) = if ltb n 1 || ltb 3 n then err (bad_request "INVALID_SEVERITY") else ok n

abbrev pub remedy_or : Option Remedy → Result Remedy
remedy_or none = err (bad_request "INVALID_RECOMMENDED_REMEDY")
remedy_or (some r) = ok r

unfoldable pub check_vote : List String → VoteInput → Result VoteEntry
check_vote claim_ids vote =
    require (has claim_ids vote.claim_id) (bad_request "UNKNOWN_CLAIM")
    >> (finding_or vote.finding >>= λ finding. severity_or vote.severity >>= λ severity.
        remedy_or vote.recommended_remedy >>= λ remedy. ok (record {
          claim_id = vote.claim_id;
          finding = finding;
          severity = severity;
          recommended_remedy = some remedy;
          rationale = vote.rationale;
          citations = vote.citations;
        }))

-- The first vote that is not valid throws.
unfoldable pub check_votes : List String → List VoteInput → Result (List VoteEntry)
unfolding check_vote
check_votes claim_ids [] = ok []
check_votes claim_ids (vote ∷ votes) = check_vote claim_ids vote >>= λ entry.
    check_votes claim_ids votes >>= λ entries. ok (entry ∷ entries)

abbrev pub may_vote : MemberStatus → Bool
may_vote MemberStatus.active_voting = true
may_vote MemberStatus.ready = true
may_vote _ = false

abbrev pub is_empty : List VoteInput → Bool
is_empty [] = true
is_empty (v ∷ vs) = false

abbrev pub is_overdue : Option ℕ → ℕ → Bool
is_overdue none now = false
is_overdue (some deadline) now = ltb deadline now

-- `listJuryPanelMembers(…).find(…)`
abbrev pub member_of : String → CaseDb → Option Member
member_of juror_id db = find (λ (m : Member). str_eq m.juror_id juror_id) db.panel

abbrev pub member_may_vote : Option Member → Bool
member_may_vote none = false
member_may_vote (some m) = may_vote m.member_status

abbrev pub member_is_late : Option Member → ℕ → Bool
member_is_late none now = false
member_is_late (some m) now = is_overdue m.voting_deadline_at now

abbrev pub within_limits : BallotEnv → String → ℕ → CaseDb → Result (Unit {0})
unfolding enforce_action_rate_limit
within_limits env juror_id now db =
    if env.simulation_bypass_enabled && db.row.sealed_disabled
    then ok tt
    else enforce_action_rate_limit env.limits juror_id ActionType.ballot now env.log

-- Who may vote now.
unfoldable pub check_juror : BallotEnv → String → ℕ → CaseDb → Result (Unit {0})
unfolding enforce_action_rate_limit
check_juror env juror_id now db =
    require (is_voting db.row.status && in_voting_stage db.runtime) (conflict "CASE_NOT_VOTING")
    >> (require (has (list_jury_members db) juror_id) (forbidden "NOT_JUROR")
        >> (require (member_may_vote (member_of juror_id db)) (conflict "JUROR_NOT_ACTIVE")
            >> (require (not (env.banned_from_jury juror_id)) (forbidden "AGENT_BANNED_FROM_JURY")
                >> (require (not (member_is_late (member_of juror_id db) now))
                      (conflict "BALLOT_DEADLINE_PASSED")
                    >> within_limits env juror_id now db))))

abbrev pub has_ballot : String → List Ballot → Bool
has_ballot juror_id ballots = any (λ (b : Ballot). str_eq b.juror_id juror_id) ballots

-- What a body says, once it is valid.
unfoldable pub check_body : BallotBody → CaseDb → Result (List VoteEntry)
unfolding check_votes
check_body body db =
    body.fields
    >> (require (not (is_empty body.votes)) (bad_request "BALLOT_VOTES_REQUIRED")
        >> (check_votes (map (λ (c : ClaimRow). c.claim_id) db.claims) body.votes >>= λ entries.
            body.ml_signals >> ok entries))

-- `addBallot`, and its error where the juror has a ballot: (case_id, juror_id) is unique.
unfoldable pub add_ballot : Ballot → CaseDb → Result CaseDb
add_ballot b db =
    require (not (has_ballot b.juror_id db.ballots)) (conflict "BALLOT_ALREADY_SUBMITTED")
    >> ok (record db { ballots = db.ballots ++ b ∷ [] })

abbrev pub ballot_of : String → BallotBody → List VoteEntry → Ballot
ballot_of juror_id body entries = record {
  juror_id = juror_id;
  votes = entries;
  ballot_hash = body.ballot_hash;
}

abbrev pub cast : String → CaseDb → CaseDb
unfolding mark_juror_voted append_transcript_event
cast juror_id db =
    append_transcript_event ActorRole.juror EventType.ballot_submitted (some SessionStage.voting)
      (mark_juror_voted juror_id db)

abbrev pub or_unchanged : CaseDb → Result (CaseDb × Ballot) → CaseDb × Result Ballot
or_unchanged db (err e) = (db, err e)
or_unchanged db (ok (db', b)) = (db', ok b)

unfoldable pub cast_ballot : BallotEnv → String → BallotBody → ℕ → CaseDb → Result (CaseDb × Ballot)
unfolding check_juror check_body add_ballot mark_juror_voted append_transcript_event
cast_ballot env juror_id body now db =
    check_juror env juror_id now db
    >> (check_body body db >>= λ entries. add_ballot (ballot_of juror_id body entries) db >>= λ db'.
        ok (cast juror_id db', ballot_of juror_id body entries))

-- `POST /api/cases/:id/ballots`, after the signature.
unfoldable pub submit_ballot : BallotEnv → String → BallotBody → ℕ → CaseDb → CaseDb × Result Ballot
unfolding cast_ballot
submit_ballot env juror_id body now db = or_unchanged db (cast_ballot env juror_id body now db)
