-- ===== src/Verdict/Compute/Findings.antt =====
-- When a claim is found proven, not proven or insufficient, in terms of the ballots.
use open_cawt.Base.{ℕ, ◌+◌, ◌<◌, some, ◌≡◌, ◌↔◌, ◌⊎◌, arith, count_if}
use open_cawt.Verdict.Tally.{Finding, proven, not_proven, insufficient, majority_finding}
use open_cawt.Verdict.Tally.Laws.{casts, abstains, tally_claim_votes-IsTally}
use open_cawt.Verdict.Compute.{VerdictInput, ClaimLike, Tiebreak, judge, claim_verdict, finding_of}

-- The number of ballots for a finding; a ballot that is silent on the claim is insufficient.
abbrev pub votes_for : VerdictInput → ClaimLike → Finding → ℕ
votes_for input claim proven = count_if (casts claim.claim_id proven) input.ballots
votes_for input claim not_proven = count_if (casts claim.claim_id not_proven) input.ballots
votes_for input claim insufficient =
    count_if (casts claim.claim_id insufficient) input.ballots
    + count_if (abstains claim.claim_id) input.ballots

-- `f` outvotes `g` and the insufficient ballots, or the judge rules an exact tie of the two for `f`.
abbrev pub Carries : VerdictInput → ClaimLike → Finding → Finding → Type 0
Carries input claim f g =
    ((votes_for input claim g < votes_for input claim f)
      × (votes_for input claim insufficient < votes_for input claim f))
    ⊎ ((votes_for input claim g ≡ votes_for input claim f)
        × (votes_for input claim insufficient < votes_for input claim f)
        × (input.court_mode ≡ judge)
        × ((ruling : Tiebreak) × (input.judge_tiebreak claim.claim_id ≡ some ruling)
            × (finding_of ruling.finding ≡ f)))

-- A claim is proven exactly when the votes for it, or the judge's ruling on a tie, carry it.
pub claim_verdict-proven_iff :
    (input : VerdictInput) (claim : ClaimLike)
    → ((claim_verdict input claim).finding ≡ proven) ↔ Carries input claim proven not_proven
unfolding claim_verdict majority_finding
claim_verdict-proven_iff input claim =
    let t = tally_claim_votes-IsTally claim.claim_id input.ballots in
    (
      λ h. ground (arith, t.proven_votes, t.not_proven_votes, t.insufficient_votes),
      λ h. ground (arith, t.proven_votes, t.not_proven_votes, t.insufficient_votes),
    )

pub claim_verdict-not_proven_iff :
    (input : VerdictInput) (claim : ClaimLike)
    → ((claim_verdict input claim).finding ≡ not_proven) ↔ Carries input claim not_proven proven
unfolding claim_verdict majority_finding
claim_verdict-not_proven_iff input claim =
    let t = tally_claim_votes-IsTally claim.claim_id input.ballots in
    (
      λ h. ground (arith, t.proven_votes, t.not_proven_votes, t.insufficient_votes),
      λ h. ground (arith, t.proven_votes, t.not_proven_votes, t.insufficient_votes),
    )
