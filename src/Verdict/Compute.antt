-- ===== src/Verdict/Compute.antt =====
-- `deriveOverallOutcome` and `computeDeterministicVerdict`. The hash of the bundle, SHA-256 of its
-- canonical JSON, is a parameter; times are texts; the summary is kept as the values it prints.
pub mod Findings
pub mod Outcome
pub mod Ballots
pub mod Rulings
use open_cawt.Base.{
  ℕ, String, Option, none, some, List, [], ◌∷◌, Bool, true, false, ◌&&◌, map, ltb, ◌==◌,
  if◌then◌else◌, length, count_if,
}
use open_cawt.Base.Sets.{unique_sorted}
use open_cawt.Verdict.Tally.{
  Finding, proven, not_proven, insufficient, is_finding, Remedy, other, no_remedy, BallotLike,
  tally_claim_votes, Majority, found, tied, majority_finding,
}
use open_cawt.Verdict.Remedies.{majority_remedy}

pub data CaseOutcome : Type 0 where
  for_prosecution for_defence : CaseOutcome

pub data CourtMode : Type 0 where
  eleven_juror judge : CourtMode

unfoldable pub derive_overall_outcome : List Finding → Option CaseOutcome
derive_overall_outcome findings =
    let total = length findings in
    if count_if (is_finding proven) findings == total && ltb 0 total
    then some for_prosecution
    else if count_if (is_finding not_proven) findings == total && ltb 0 total
    then some for_defence
    else none

-- `finding: "proven" | "not_proven"` of a tie-break.
pub data Ruling : Type 0 where
  ruled_proven ruled_not_proven : Ruling

pub record Tiebreak : Type 0 where
  pub finding : Ruling
  pub reasoning : String

pub record ClaimLike : Type 0 where
  pub claim_id : String
  pub requested_remedy : Remedy

pub record VerdictInput : Type 0 where
  pub case_id : String
  pub prosecution_agent_id : String
  pub defence_agent_id : Option String
  pub closed_at_iso : String
  pub jury_size : ℕ
  pub claims : List ClaimLike
  pub ballots : List BallotLike
  pub evidence_hashes : List String
  pub submission_hashes : List String
  pub drand_round : Option ℕ
  pub drand_randomness : Option String
  pub pool_snapshot_hash : Option String
  pub court_mode : CourtMode
  pub judge_tiebreak : String → Option Tiebreak
  pub judge_remedy_recommendation : Option String

pub record ClaimVerdict : Type 0 where
  pub claim_id : String
  pub finding : Finding
  pub votes_proven : ℕ
  pub votes_not_proven : ℕ
  pub votes_insufficient : ℕ
  pub majority_remedy : Remedy
  pub judge_tiebreak : Option Tiebreak

abbrev pub finding_of : Ruling → Finding
finding_of ruled_proven = proven
finding_of ruled_not_proven = not_proven

-- The tie-break counts in judge mode alone.
abbrev pub ruling_for : CourtMode → Option Tiebreak → Option Tiebreak
ruling_for judge ruling = ruling
ruling_for eleven_juror ruling = none

-- A tie without a ruling is insufficient.
settle : Majority → Option Tiebreak → Finding × Option Tiebreak
settle (found finding) ruling = (finding, none)
settle tied (some ruling) = (finding_of ruling.finding, some ruling)
settle tied none = (insufficient, none)

unfoldable pub claim_verdict : VerdictInput → ClaimLike → ClaimVerdict
unfolding settle
claim_verdict input claim =
    let tally = tally_claim_votes claim.claim_id input.ballots in
    let settled =
      settle (majority_finding tally)
        (ruling_for input.court_mode (input.judge_tiebreak claim.claim_id)) in
    record {
      claim_id = claim.claim_id;
      finding = settled.0;
      votes_proven = tally.proven;
      votes_not_proven = tally.not_proven;
      votes_insufficient = tally.insufficient;
      majority_remedy = majority_remedy tally.remedies claim.requested_remedy;
      judge_tiebreak = settled.1;
    }

-- The ids pushed to `tiebrokenClaimIds`.
abbrev if_broken : Option Tiebreak → String → List String → List String
if_broken none id ids = ids
if_broken (some ruling) id ids = id ∷ ids

tiebroken : List ClaimVerdict → List String
tiebroken [] = []
tiebroken (c ∷ cs) = if_broken c.judge_tiebreak c.claim_id (tiebroken cs)

-- The first remedy that is neither "none" nor "other".
abbrev acting : Remedy → Remedy → Remedy
acting no_remedy later = later
acting other later = later
acting r later = r

overall_remedy : List ClaimVerdict → Remedy
overall_remedy [] = no_remedy
overall_remedy (c ∷ cs) = acting c.majority_remedy (overall_remedy cs)

pub record Bundle : Type 0 where
  pub case_id : String
  pub created_at_iso : String
  pub closed_at_iso : String
  pub prosecution : String
  pub defence : Option String
  pub claims : List ClaimVerdict
  pub jury_size : ℕ
  pub votes_received : ℕ
  pub outcome : Option CaseOutcome
  pub inconclusive : Bool
  pub remedy : Remedy
  pub claims_broken : List String
  pub judge_remedy_recommendation : Option String
  pub drand_round : Option ℕ
  pub drand_randomness : Option String
  pub pool_snapshot_hash : Option String
  pub submission_hashes : List String
  pub evidence_hashes : List String
  pub ballot_hashes : List String

pub record Verdict : Type 0 where
  pub bundle : Bundle
  pub verdict_hash : String
  pub summary : Option CaseOutcome × ℕ × ℕ  -- the outcome printed, the ballots, the jury size
  pub overall_outcome : Option CaseOutcome
  pub inconclusive : Bool

abbrev is_null : Option CaseOutcome → Bool
is_null none = true
is_null (some outcome) = false

unfoldable pub verdict_bundle : VerdictInput → Bundle
unfolding claim_verdict tiebroken overall_remedy
verdict_bundle input =
    let claims = map (claim_verdict input) input.claims in
    let outcome = derive_overall_outcome (map (λ item. item.finding) claims) in
    record {
      case_id = input.case_id;
      created_at_iso = input.closed_at_iso;
      closed_at_iso = input.closed_at_iso;
      prosecution = input.prosecution_agent_id;
      defence = input.defence_agent_id;
      claims = claims;
      jury_size = input.jury_size;
      votes_received = length input.ballots;
      outcome = outcome;
      inconclusive = is_null outcome;
      remedy = overall_remedy claims;
      claims_broken = tiebroken claims;
      judge_remedy_recommendation = input.judge_remedy_recommendation;
      drand_round = input.drand_round;
      drand_randomness = input.drand_randomness;
      pool_snapshot_hash = input.pool_snapshot_hash;
      submission_hashes = unique_sorted input.submission_hashes;
      evidence_hashes = unique_sorted input.evidence_hashes;
      ballot_hashes = unique_sorted (map (λ item. item.ballot_hash) input.ballots);
    }

unfoldable pub compute_deterministic_verdict : (Bundle → String) → VerdictInput → Verdict
unfolding verdict_bundle derive_overall_outcome
compute_deterministic_verdict canonical_hash_hex input =
    let bundle = verdict_bundle input in
    record {
      bundle = bundle;
      verdict_hash = canonical_hash_hex bundle;
      summary = (bundle.outcome, length input.ballots, input.jury_size);
      overall_outcome = bundle.outcome;
      inconclusive = bundle.inconclusive;
    }
