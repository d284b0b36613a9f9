-- ===== src/Tests/Ballots.antt =====
-- The readiness and the ballot of a juror.
use open_cawt.Base.{◌↔◌, false, some, [], ◌∷◌, ◌≡◌, refl}
use open_cawt.Base.Errors.{ApiError, ok, err}
use open_cawt.Verdict.Tally.{Finding, Remedy}
use open_cawt.Session.Types.{MemberStatus, CaseStatus, SessionStage, ClaimOutcome, Ballot, CaseDb}
use open_cawt.Ballots.{
  BallotEnv, BallotBody, submit_ballot, cast_ballot, check_juror, check_body, check_votes,
  check_vote, add_ballot, enforce_action_rate_limit, count_action_in_window,
}
use open_cawt.Ballots.Recorded.{IsCast, submit_ballot-IsCast, submit_ballot-once}
use open_cawt.Readiness.{juror_ready}
use open_cawt.Readiness.Confirmed.{IsConfirmed, MayConfirm, juror_ready-ok_iff}
use open_cawt.Tests.Courts.{seated, case_in}

abbrev ballot_env : BallotEnv
ballot_env = record {
  banned_from_jury = λ id. false;
  log = [];
  limits = record { evidence_per_hour = 1; submissions_per_hour = 1; ballots_per_hour = 1 };
  simulation_bypass_enabled = false;
}

abbrev body : BallotBody
body = record {
  votes =
      record {
        claim_id = "k";
        finding = some Finding.proven;
        severity = some 3;
        recommended_remedy = some Remedy.warn;
        rationale = "";
        citations = [];
      }
      ∷ [];
  fields = ok tt;
  ml_signals = ok tt;
  ballot_hash = "b";
}

-- A case with one claim, in its vote.
abbrev in_vote : CaseDb
in_vote =
    let db = case_in SessionStage.voting CaseStatus.voting in
    record db {
      claims =
          record {
            claim_id = "k";
            requested_remedy = Remedy.warn;
            claim_outcome = ClaimOutcome.undecided;
          }
          ∷ [];
    }

abbrev after : CaseDb
unfolding submit_ballot cast_ballot check_juror check_body check_votes check_vote add_ballot
    enforce_action_rate_limit count_action_in_window
after = (submit_ballot ballot_env "al" body 5 in_vote).0

abbrev taken : Ballot
taken = record {
  juror_id = "al";
  votes =
      record {
        claim_id = "k";
        finding = Finding.proven;
        severity = 3;
        recommended_remedy = some Remedy.warn;
        rationale = "";
        citations = [];
      }
      ∷ [];
  ballot_hash = "b";
}

is_taken : submit_ballot ballot_env "al" body 5 in_vote ≡ (after, ok taken)
unfolding submit_ballot cast_ballot check_juror check_body check_votes check_vote add_ballot
    enforce_action_rate_limit count_action_in_window
is_taken = refl

submit_ballot_example : IsCast "al" 5 in_vote after taken
submit_ballot_example = submit_ballot-IsCast ballot_env "al" body 5 in_vote after taken is_taken

once_example : (e : ApiError) × (submit_ballot ballot_env "al" body 6 after ≡ (after, err e))
once_example =
    submit_ballot-once ballot_env "al" body 5 in_vote after taken is_taken ballot_env body 6

-- A case in which the seat of "al" waits for its readiness.
abbrev awaiting : CaseDb
awaiting =
    let db = case_in SessionStage.jury_readiness CaseStatus.jury_selected in
    record db { panel = seated "al" MemberStatus.pending_ready ∷ [] }

juror_ready_example :
    (((db' : CaseDb) × (juror_ready (λ id. false) "al" 5 awaiting ≡ ok db'))
      ↔ MayConfirm (λ id. false) "al" 5 awaiting)
    × ((db' : CaseDb)
        → juror_ready (λ id. false) "al" 5 awaiting ≡ ok db'
        → IsConfirmed "al" 5 awaiting db')
juror_ready_example = juror_ready-ok_iff (λ id. false) "al" 5 awaiting
