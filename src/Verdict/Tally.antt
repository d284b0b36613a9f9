-- ===== src/Verdict/Tally.antt =====
-- `tallyClaimVotes` and `majorityFinding`, with the types of votes in shared/contracts.ts.
pub mod Laws
use open_cawt.Base.{
  ℕ, ◌+◌, String, Bool, true, false, Option, none, some, List, [], ◌∷◌, ◌++◌, ◌&&◌, ltb, ◌==◌,
  if◌then◌else◌, find, or_else, str_eq,
}

pub data Finding : Type 0 where
  proven not_proven insufficient : Finding

-- `===` of two findings.
abbrev pub is_finding : Finding → Finding → Bool
is_finding proven proven = true
is_finding not_proven not_proven = true
is_finding insufficient insufficient = true
is_finding _ _ = false

-- The source's "none" is `no_remedy`.
pub data Remedy : Type 0 where
  warn delist ban restitution other no_remedy : Remedy

-- The place of a remedy in the alphabet. The six words are lower-case ASCII, which every locale
-- compares in this order.
unfoldable pub alphabetical : Remedy → ℕ
alphabetical ban = 0
alphabetical delist = 1
alphabetical no_remedy = 2
alphabetical other = 3
alphabetical restitution = 4
alphabetical warn = 5

-- `===` of two remedies.
abbrev pub is_remedy : Remedy → Remedy → Bool
is_remedy a b = alphabetical a == alphabetical b

pub record VoteEntry : Type 0 where
  pub claim_id : String
  pub finding : Finding
  pub severity : ℕ
  pub recommended_remedy : Option Remedy  -- read by `?? "none"`
  pub rationale : String
  pub citations : List String

pub record BallotLike : Type 0 where
  pub votes : List VoteEntry
  pub ballot_hash : String

pub record Tally : Type 0 where
  pub proven : ℕ
  pub not_proven : ℕ
  pub insufficient : ℕ
  pub remedies : List Remedy

pub empty_tally : Tally
empty_tally = record { proven = 0; not_proven = 0; insufficient = 0; remedies = [] }

pub add_finding : Finding → Tally → Tally
add_finding proven t = record t { proven = t.proven + 1 }
add_finding not_proven t = record t { not_proven = t.not_proven + 1 }
add_finding insufficient t = record t { insufficient = t.insufficient + 1 }

-- The body of the loop, after `find`: a ballot without a vote on the claim adds no remedy.
pub add_vote : Tally → Option VoteEntry → Tally
unfolding add_finding
add_vote t none = record t { insufficient = t.insufficient + 1 }
add_vote t (some vote) =
    let t' = add_finding vote.finding t in
    record t' { remedies = t'.remedies ++ or_else vote.recommended_remedy no_remedy ∷ [] }

unfoldable pub vote_on : String → BallotLike → Option VoteEntry
vote_on claim_id ballot = find (λ item. str_eq item.claim_id claim_id) ballot.votes

-- The loop over the ballots, from the tally so far.
pub tally_from : String → Tally → List BallotLike → Tally
unfolding add_vote
tally_from claim_id t [] = t
tally_from claim_id t (ballot ∷ rest) =
    tally_from claim_id (add_vote t (vote_on claim_id ballot)) rest

unfoldable pub tally_claim_votes : String → List BallotLike → Tally
unfolding empty_tally tally_from vote_on
tally_claim_votes claim_id ballots = tally_from claim_id empty_tally ballots

-- The finding of a majority, or an exact tie of the two that decide.
pub data Majority : Type 0 where
  found : Finding → Majority
  tied : Majority

unfoldable pub majority_finding : Tally → Majority
majority_finding t =
    if ltb t.not_proven t.proven && ltb t.insufficient t.proven
    then found proven
    else if ltb t.proven t.not_proven && ltb t.insufficient t.not_proven
    then found not_proven
    else if t.proven == t.not_proven && ltb t.insufficient t.proven
    then tied
    else found insufficient
