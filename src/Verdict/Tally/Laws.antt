-- ===== src/Verdict/Tally/Laws.antt =====
-- The tally counts the ballots, each once.
use open_cawt.Base.{
  ◌+◌, String, Option, none, some, List, [], ◌∷◌, Bool, true, false, ◌≡◌, arith, length, count_if,
  or_else, if◌then◌else◌, count_if-append,
}
use open_cawt.Verdict.Tally.{
  Finding, proven, not_proven, insufficient, is_finding, Remedy, no_remedy, is_remedy, VoteEntry,
  BallotLike, Tally, vote_on, empty_tally, add_vote, tally_from, tally_claim_votes,
}

abbrev casts_in : Finding → Option VoteEntry → Bool
casts_in f none = false
casts_in f (some vote) = is_finding f vote.finding

abbrev asks_in : Remedy → Option VoteEntry → Bool
asks_in r none = false
asks_in r (some vote) = is_remedy r (or_else vote.recommended_remedy no_remedy)

abbrev abstains_in : Option VoteEntry → Bool
abstains_in none = true
abstains_in (some vote) = false

-- What one ballot says of a claim.
abbrev pub casts : String → Finding → BallotLike → Bool
casts claim_id f ballot = casts_in f (vote_on claim_id ballot)

abbrev pub asks : String → Remedy → BallotLike → Bool
asks claim_id r ballot = asks_in r (vote_on claim_id ballot)

abbrev pub abstains : String → BallotLike → Bool
abstains claim_id ballot = abstains_in (vote_on claim_id ballot)

-- `t'` is `t` with each ballot counted once.
record Counted (claim_id : String) (ballots : List BallotLike) (t t' : Tally) : Type 0 where
  proven_votes : t'.proven ≡ t.proven + count_if (casts claim_id proven) ballots
  not_proven_votes : t'.not_proven ≡ t.not_proven + count_if (casts claim_id not_proven) ballots
  insufficient_votes :
      t'.insufficient
      ≡ t.insufficient
        + count_if (casts claim_id insufficient) ballots
        + count_if (abstains claim_id) ballots
  asked :
      (r : Remedy)
      → count_if (is_remedy r) t'.remedies
        ≡ count_if (is_remedy r) t.remedies + count_if (asks claim_id r) ballots
  all_counted :
      t'.proven + t'.not_proven + t'.insufficient
      ≡ t.proven + t.not_proven + t.insufficient + length ballots

asked_step :
    (r : Remedy) (o : Option VoteEntry) (t : Tally)
    → count_if (is_remedy r) (add_vote t o).remedies
      ≡ count_if (is_remedy r) t.remedies + (if asks_in r o then 1 else 0)
unfolding add_vote
asked_step r none t = ground arith
asked_step r (some vote) t = ground (
  arith,
  count_if-append (is_remedy r) t.remedies (or_else vote.recommended_remedy no_remedy ∷ []),
)

tally_from-Counted :
    (claim_id : String) (t : Tally) (ballots : List BallotLike)
    → Counted claim_id ballots t (tally_from claim_id t ballots)
unfolding tally_from
tally_from-Counted claim_id t [] = record {
  proven_votes = omega arith;
  not_proven_votes = omega arith;
  insufficient_votes = omega arith;
  asked = λ r. omega arith;
  all_counted = omega arith;
}
tally_from-Counted claim_id t (b ∷ bs) =
    let ih = tally_from-Counted claim_id (add_vote t (vote_on claim_id b)) bs in
    record {
      proven_votes = ground (arith, ih.proven_votes);
      not_proven_votes = ground (arith, ih.not_proven_votes);
      insufficient_votes = ground (arith, ih.insufficient_votes);
      asked = λ r. ground (arith, ih.asked r, asked_step r (vote_on claim_id b) t);
      all_counted = ground (arith, ih.all_counted);
    }

-- A tally holds the number of the ballots that vote each way on the claim, where a ballot with no
-- vote on it is insufficient, and its remedies are those asked for, as often.
pub record IsTally (claim_id : String) (ballots : List BallotLike) (t : Tally) : Type 0 where
  pub proven_votes : t.proven ≡ count_if (casts claim_id proven) ballots
  pub not_proven_votes : t.not_proven ≡ count_if (casts claim_id not_proven) ballots
  pub insufficient_votes :
      t.insufficient
      ≡ count_if (casts claim_id insufficient) ballots + count_if (abstains claim_id) ballots
  pub asked : (r : Remedy) → count_if (is_remedy r) t.remedies ≡ count_if (asks claim_id r) ballots
  pub all_counted : t.proven + t.not_proven + t.insufficient ≡ length ballots

-- The tally of a claim counts every ballot exactly once, by the finding of its vote on the claim or
-- as insufficient where it has none, and collects each remedy as often as the ballots ask for it.
pub tally_claim_votes-IsTally :
    (claim_id : String) (ballots : List BallotLike)
    → IsTally claim_id ballots (tally_claim_votes claim_id ballots)
unfolding tally_claim_votes
tally_claim_votes-IsTally claim_id ballots =
    let c = tally_from-Counted claim_id empty_tally ballots in
    record {
      proven_votes = omega (arith, c.proven_votes);
      not_proven_votes = omega (arith, c.not_proven_votes);
      insufficient_votes = omega (arith, c.insufficient_votes);
      asked = λ r. omega (arith, c.asked r);
      all_counted = omega (arith, c.all_counted);
    }
