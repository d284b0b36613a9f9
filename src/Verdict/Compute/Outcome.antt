-- ===== src/Verdict/Compute/Outcome.antt =====
-- The outcome of a case: unanimous over its claims, or none.
use open_cawt.Base.{
  String, some, List, [], ◌∷◌, true, ◌≡◌, ◌≢◌, ◌↔◌, refl, arith, map, count_if, length, All,
  count_if-le-length,
}
use open_cawt.Verdict.Tally.{Finding, proven, not_proven, is_finding}
use open_cawt.Verdict.Compute.{
  CaseOutcome, for_prosecution, for_defence, derive_overall_outcome, VerdictInput, ClaimLike,
  Bundle, claim_verdict, compute_deterministic_verdict, verdict_bundle,
}
use open_cawt.Verdict.Compute.Findings.{
  Carries, claim_verdict-proven_iff, claim_verdict-not_proven_iff,
}

abbrev pub favours : CaseOutcome → Finding
favours for_prosecution = proven
favours for_defence = not_proven

is_finding_iff : (f g : Finding) → (is_finding f g ≡ true) ↔ (g ≡ f)
is_finding_iff f g = (λ h. ground arith, λ h. ground arith)

each_counted :
    (f : Finding) (fs : List Finding) → count_if (is_finding f) fs ≡ length fs → All (λ g. g ≡ f) fs
each_counted f [] h = tt
each_counted f (g ∷ fs) h =
    ground (arith, count_if-le-length (is_finding f) fs, each_counted f fs, is_finding_iff f g)

count_each :
    (f : Finding) (fs : List Finding) → All (λ g. g ≡ f) fs → count_if (is_finding f) fs ≡ length fs
count_each f [] h = refl
count_each f (g ∷ fs) h = ground (arith, count_each f fs, is_finding_iff f g)

-- The outcome is for a side exactly when there is a claim and every finding favours that side.
derive-eq_iff :
    (o : CaseOutcome) (fs : List Finding)
    → (derive_overall_outcome fs ≡ some o) ↔ ((fs ≢ []) × All (λ g. g ≡ favours o) fs)
unfolding derive_overall_outcome
derive-eq_iff o [] = (λ h. ground arith, λ h. absurd (h.0 refl))
derive-eq_iff for_prosecution (f ∷ fs) = (
  λ h. ground (arith, each_counted proven (f ∷ fs)),
  λ h. ground (arith, count_each proven (f ∷ fs)),
)
derive-eq_iff for_defence (f ∷ fs) = (
  λ h. ground (arith, each_counted not_proven (f ∷ fs)),
  λ h. ground (arith, count_each not_proven (f ∷ fs), count_if-le-length (is_finding proven) fs),
)

module _ (input : VerdictInput) where
  abbrev findings : List ClaimLike → List Finding
  findings claims = map (λ item. item.finding) (map (claim_verdict input) claims)

  -- Every claim is carried for the side.
  abbrev pub AllCarried : CaseOutcome → List ClaimLike → Type 0
  AllCarried for_prosecution = All (λ claim. Carries input claim proven not_proven)
  AllCarried for_defence = All (λ claim. Carries input claim not_proven proven)

  AllCarried-iff :
      (o : CaseOutcome) (claims : List ClaimLike)
      → All (λ g. g ≡ favours o) (findings claims) ↔ AllCarried o claims
  AllCarried-iff for_prosecution [] = (λ h. h, λ h. h)
  AllCarried-iff for_defence [] = (λ h. h, λ h. h)
  AllCarried-iff for_prosecution (c ∷ cs) =
      let ih = AllCarried-iff for_prosecution cs in
      let here = claim_verdict-proven_iff input c in
      (λ h. (here.0 h.0, ih.0 h.1), λ h. (here.1 h.0, ih.1 h.1))
  AllCarried-iff for_defence (c ∷ cs) =
      let ih = AllCarried-iff for_defence cs in
      let here = claim_verdict-not_proven_iff input c in
      (λ h. (here.0 h.0, ih.0 h.1), λ h. (here.1 h.0, ih.1 h.1))

  findings-ne-nil_iff : (claims : List ClaimLike) → (findings claims ≢ []) ↔ (claims ≢ [])
  findings-ne-nil_iff [] = (λ h e. h refl, λ h e. h refl)
  findings-ne-nil_iff (c ∷ cs) = (λ h. cc, λ h. cc)

  -- The verdict is for a side exactly when the case has a claim and every claim is carried for that
  -- side by the ballots, or by the judge's ruling on a tie in judge mode.
  pub verdict-outcome_iff :
      (canonical_hash_hex : Bundle → String) (o : CaseOutcome)
      → ((compute_deterministic_verdict canonical_hash_hex input).overall_outcome ≡ some o)
        ↔ ((input.claims ≢ []) × AllCarried o input.claims)
  unfolding compute_deterministic_verdict verdict_bundle
  verdict-outcome_iff canonical_hash_hex o =
      let derive = derive-eq_iff o (findings input.claims) in
      let carried = AllCarried-iff o input.claims in
      let ne = findings-ne-nil_iff input.claims in
      (
        λ h. let (a, b) = derive.0 h in (ne.0 a, carried.0 b),
        λ h. derive.1 (ne.1 h.0, carried.1 h.1),
      )
