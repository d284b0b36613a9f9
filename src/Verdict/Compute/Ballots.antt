-- ===== src/Verdict/Compute/Ballots.antt =====
-- The verdict is a function of the multiset of the ballots and of the sets of the hashes.
use open_cawt.Base.{String, List, [], ◌∷◌, ◌≡◌, refl, arith, map, sym, ◌∙◌, count_if}
use mathlib.Core.List.{Perm}
use mathlib.Core.List.Perm
use open_cawt.Base.Perms.{count_if-perm, length-perm}
use open_cawt.Base.Sets.{unique_sorted-perm}
use open_cawt.Verdict.Tally.{
  proven, not_proven, insufficient, Remedy, is_remedy, BallotLike, Tally, tally_claim_votes,
  majority_finding,
}
use open_cawt.Verdict.Tally.Laws.{casts, asks, abstains, tally_claim_votes-IsTally}
use open_cawt.Verdict.Remedies.{majority_remedy}
use open_cawt.Verdict.Remedies.Laws.{majority_remedy-IsMost, IsMost-eq}
use open_cawt.Verdict.Compute.{
  VerdictInput, ClaimLike, Bundle, claim_verdict, compute_deterministic_verdict, verdict_bundle,
}

module _ (claim_id : String) {bs cs : List BallotLike} (p : Perm bs cs) where
  same_tally :
      ((tally_claim_votes claim_id bs).proven ≡ (tally_claim_votes claim_id cs).proven)
      × ((tally_claim_votes claim_id bs).not_proven ≡ (tally_claim_votes claim_id cs).not_proven)
      × ((tally_claim_votes claim_id bs).insufficient
          ≡ (tally_claim_votes claim_id cs).insufficient)
  same_tally =
      let t = tally_claim_votes-IsTally claim_id bs in
      let u = tally_claim_votes-IsTally claim_id cs in
      (
        t.proven_votes ∙ count_if-perm (casts claim_id proven) p ∙ sym u.proven_votes,
        t.not_proven_votes ∙ count_if-perm (casts claim_id not_proven) p ∙ sym u.not_proven_votes,
        omega (
          arith,
          t.insufficient_votes,
          u.insufficient_votes,
          count_if-perm (casts claim_id insufficient) p,
          count_if-perm (abstains claim_id) p,
        ),
      )

  same_asked :
      (r : Remedy)
      → count_if (is_remedy r) (tally_claim_votes claim_id bs).remedies
        ≡ count_if (is_remedy r) (tally_claim_votes claim_id cs).remedies
  same_asked r =
      (tally_claim_votes-IsTally claim_id bs).asked r
      ∙ count_if-perm (asks claim_id r) p
      ∙ sym ((tally_claim_votes-IsTally claim_id cs).asked r)

-- Lists of remedies that ask for each as often have one majority remedy.
same_majority :
    (rs ss : List Remedy) (fallback : Remedy)
    → ((r : Remedy) → count_if (is_remedy r) rs ≡ count_if (is_remedy r) ss)
    → majority_remedy rs fallback ≡ majority_remedy ss fallback
same_majority [] [] fallback same = refl
same_majority [] (s ∷ ss) fallback same = absurd (
    omega (
      arith,
      majority_remedy-IsMost (s ∷ ss) fallback (λ e. cc),
      same (majority_remedy (s ∷ ss) fallback),
    ))
same_majority (r ∷ rs) [] fallback same = absurd (
    omega (
      arith,
      majority_remedy-IsMost (r ∷ rs) fallback (λ e. cc),
      same (majority_remedy (r ∷ rs) fallback),
    ))
same_majority (r ∷ rs) (s ∷ ss) fallback same =
    IsMost-eq _ _ same (majority_remedy-IsMost (r ∷ rs) fallback (λ e. cc))
      (majority_remedy-IsMost (s ∷ ss) fallback (λ e. cc))

same_finding :
    (t u : Tally)
    → t.proven ≡ u.proven
    → t.not_proven ≡ u.not_proven
    → t.insufficient ≡ u.insufficient
    → majority_finding t ≡ majority_finding u
unfolding majority_finding
same_finding t u p n i = rw (p, n, i)

module _ (input : VerdictInput) {bs : List BallotLike} (p : Perm input.ballots bs) where
  same_claim :
      (claim : ClaimLike)
      → claim_verdict input claim ≡ claim_verdict (record input { ballots = bs }) claim
  unfolding claim_verdict
  same_claim claim =
      let (y, n, i) = same_tally claim.claim_id p in
      cc (
        same_finding (tally_claim_votes claim.claim_id input.ballots)
            (tally_claim_votes claim.claim_id bs) y n i,
        y,
        n,
        i,
        same_majority _ _ claim.requested_remedy (same_asked claim.claim_id p),
      )

  same_claims :
      (claims : List ClaimLike)
      → map (claim_verdict input) claims
        ≡ map (claim_verdict (record input { ballots = bs })) claims
  same_claims [] = refl
  same_claims (c ∷ cs) = cc (same_claim c, same_claims cs)

  -- The verdict, its hash included, does not depend on the order of the ballots.
  pub verdict-eq_of_perm :
      (canonical_hash_hex : Bundle → String)
      → compute_deterministic_verdict canonical_hash_hex input
        ≡ compute_deterministic_verdict canonical_hash_hex (record input { ballots = bs })
  unfolding compute_deterministic_verdict verdict_bundle
  verdict-eq_of_perm canonical_hash_hex = rw (
    same_claims input.claims,
    length-perm p,
    unique_sorted-perm (Perm.map (λ item. item.ballot_hash) p),
  )
