-- ===== src/Tests/Verdicts.antt =====
-- Verdicts on two ballots.
use open_cawt.Base.{none, some, [], ◌∷◌, ◌≡◌, ◌≢◌, ◌↔◌}
use open_cawt.Verdict.Tally.{Finding, proven, warn, ban, VoteEntry, BallotLike}
use open_cawt.Verdict.Compute.{
  for_prosecution, eleven_juror, ClaimLike, VerdictInput, compute_deterministic_verdict,
}
use open_cawt.Verdict.Compute.Outcome.{AllCarried, verdict-outcome_iff}
use open_cawt.Verdict.Compute.Ballots.{verdict-eq_of_perm}
use mathlib.Core.List.Perm

abbrev vote : Finding → VoteEntry
vote finding = record {
  claim_id = "k";
  finding = finding;
  severity = 1;
  recommended_remedy = some warn;
  rationale = "";
  citations = [];
}

abbrev yes_ballot : BallotLike
yes_ballot = record { votes = vote proven ∷ []; ballot_hash = "b1" }

abbrev empty_ballot : BallotLike
empty_ballot = record { votes = []; ballot_hash = "b2" }

abbrev claim : ClaimLike
claim = record { claim_id = "k"; requested_remedy = ban }

abbrev input : VerdictInput
input = record {
  case_id = "c";
  prosecution_agent_id = "pro";
  defence_agent_id = some "def";
  closed_at_iso = "t";
  jury_size = 2;
  claims = claim ∷ [];
  ballots = yes_ballot ∷ empty_ballot ∷ [];
  evidence_hashes = "e" ∷ [];
  submission_hashes = [];
  drand_round = some 7;
  drand_randomness = some "r";
  pool_snapshot_hash = none;
  court_mode = eleven_juror;
  judge_tiebreak = λ id. none;
  judge_remedy_recommendation = none;
}

outcome_example :
    ((compute_deterministic_verdict (λ bundle. bundle.case_id) input).overall_outcome
      ≡ some for_prosecution)
    ↔ ((input.claims ≢ []) × AllCarried input for_prosecution input.claims)
outcome_example = verdict-outcome_iff input (λ bundle. bundle.case_id) for_prosecution

swapped_example :
    compute_deterministic_verdict (λ bundle. bundle.case_id) input
    ≡ compute_deterministic_verdict
        (λ bundle. bundle.case_id)
        (record input { ballots = empty_ballot ∷ yes_ballot ∷ [] })
swapped_example =
    verdict-eq_of_perm input (Perm.swap empty_ballot yes_ballot []) (λ bundle. bundle.case_id)
