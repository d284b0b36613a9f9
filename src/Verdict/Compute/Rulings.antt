-- ===== src/Verdict/Compute/Rulings.antt =====
-- A ruling of the judge counts on a tie alone.
use open_cawt.Base.{
  not, is_some, String, Option, none, some, List, [], ◌∷◌, map, ◌≡◌, refl, ap, ap₂, All,
}
use open_cawt.Verdict.Tally.{Majority, found, tied, tally_claim_votes, majority_finding}
use open_cawt.Verdict.Compute.{
  CaseOutcome, is_null, Tiebreak, ClaimLike, VerdictInput, Bundle, ruling_for, settle,
  claim_verdict, verdict_bundle, compute_deterministic_verdict,
}

settle-eq : (m : Majority) (r r' : Option Tiebreak) → (m ≡ tied → r ≡ r') → settle m r ≡ settle m r'
unfolding settle
settle-eq (found f) r r' h = refl
settle-eq tied r r' h = ap (settle tied) (h refl)

module _ (input : VerdictInput) (rulings : String → Option Tiebreak) where
  -- The same case, with other rulings.
  abbrev pub with_rulings : VerdictInput
  with_rulings = record input { judge_tiebreak = rulings }

  -- The rulings agree on a claim, if it is tied and the mode of the court lets the judge rule.
  abbrev pub AgreeOn : ClaimLike → Type 0
  AgreeOn claim =
      majority_finding (tally_claim_votes claim.claim_id input.ballots) ≡ tied
      → ruling_for input.court_mode (input.judge_tiebreak claim.claim_id)
        ≡ ruling_for input.court_mode (rulings claim.claim_id)

  claim_verdict-eq :
      (claim : ClaimLike)
      → AgreeOn claim
      → claim_verdict input claim ≡ claim_verdict with_rulings claim
  unfolding claim_verdict
  claim_verdict-eq claim h = rw (settle-eq _ _ _ h) refl

  claims-eq :
      (claims : List ClaimLike)
      → All AgreeOn claims
      → map (claim_verdict input) claims ≡ map (claim_verdict with_rulings) claims
  claims-eq [] a = refl
  claims-eq (c ∷ cs) (h, a) = ap₂ (◌∷◌) (claim_verdict-eq c h) (claims-eq cs a)

  pub verdict-eq_of_rulings :
      (hash : Bundle → String)
      → All AgreeOn input.claims
      → compute_deterministic_verdict hash input ≡ compute_deterministic_verdict hash with_rulings
  unfolding compute_deterministic_verdict verdict_bundle
  verdict-eq_of_rulings hash a = rw (claims-eq input.claims a) refl

null-not_some : (o : Option CaseOutcome) → is_null o ≡ not (is_some o)
null-not_some none = refl
null-not_some (some o) = refl

-- A verdict is inconclusive when it has no outcome.
pub verdict-inconclusive :
    (hash : Bundle → String) (input : VerdictInput)
    → (compute_deterministic_verdict hash input).inconclusive
      ≡ not (is_some (compute_deterministic_verdict hash input).overall_outcome)
unfolding compute_deterministic_verdict verdict_bundle
verdict-inconclusive hash input = null-not_some (verdict_bundle input).outcome
