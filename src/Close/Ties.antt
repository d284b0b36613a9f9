-- ===== src/Close/Ties.antt =====
-- The judge is asked about the ties, and about nothing else that the verdict rests on.
use open_cawt.Base.{
  ℕ, String, true, Option, none, some, List, [], ◌∷◌, map, ◌≡◌, ◌∙◌, refl, sym, ap, arith, eq_iff,
  str_eq, Option-cases, inl, inr, All, All-mono, if_elim, if◌then◌else◌,
}
use open_cawt.Verdict.Tally.{BallotLike, Tally, tied, majority_finding, tally_claim_votes}
use open_cawt.Verdict.Compute.{Tiebreak, ClaimLike, ruling_for, compute_deterministic_verdict}
use open_cawt.Verdict.Compute.Rulings.{AgreeOn, verdict-eq_of_rulings}
use open_cawt.Session.Types.{CourtMode, ClaimRow, CaseDb}
use open_cawt.Close.Vote.{
  CloseEnv, is_tie, with_ruling, judge_tiebreaks, ruling_on, ballot_like, claim_like, verdict_mode,
  is_judge, verdict_input, rulings_for, case_verdict,
}

tie_of : (t : Tally) → majority_finding t ≡ tied → is_tie t ≡ true
unfolding majority_finding is_tie
tie_of t h = ground arith

module _ (ask : String → Option Tiebreak) (ballots : List BallotLike) where
  one_more :
      (o : Option Tiebreak) (head id : String) (rest : List (String × Tiebreak))
      → ask head ≡ o
      → ruling_on rest id ≡ ask id
      → ruling_on (with_ruling o head rest) id ≡ ask id
  unfolding ruling_on
  one_more none head id rest e h = h
  one_more (some r) head id rest e h =
      if_elim (λ (x : Option Tiebreak). x ≡ ask id) (str_eq head id)
        (λ k. sym e ∙ ap ask ((eq_iff head id).0 k)) (λ _. h)

  -- One more claim takes no ruling away.
  ruling-cons :
      (c : ClaimRow) (claims : List ClaimRow) (id : String)
      → ruling_on (judge_tiebreaks ask ballots claims) id ≡ ask id
      → ruling_on (judge_tiebreaks ask ballots (c ∷ claims)) id ≡ ask id
  unfolding judge_tiebreaks
  ruling-cons c claims id h =
      if_elim (λ (l : List (String × Tiebreak)). ruling_on l id ≡ ask id)
        (is_tie (tally_claim_votes c.claim_id ballots))
        (λ _. one_more (ask c.claim_id) c.claim_id id (judge_tiebreaks ask ballots claims) refl h)
        (λ _. h)

  -- Where the judge has no answer, there is no ruling.
  from_judge :
      (claims : List ClaimRow) (id : String)
      → ask id ≡ none
      → ruling_on (judge_tiebreaks ask ballots claims) id ≡ none
  unfolding judge_tiebreaks ruling_on
  from_judge [] id h = refl
  from_judge (c ∷ claims) id h = ruling-cons c claims id (from_judge claims id h ∙ sym h) ∙ h

  ruling-head :
      (c : ClaimRow) (claims : List ClaimRow)
      → is_tie (tally_claim_votes c.claim_id ballots) ≡ true
      → ruling_on (judge_tiebreaks ask ballots (c ∷ claims)) c.claim_id ≡ ask c.claim_id
  unfolding judge_tiebreaks ruling_on
  ruling-head c claims t = elim (Option-cases (ask c.claim_id)) [
    | inl e ↦ simp (t, e, from_judge claims c.claim_id e)
    | inr (r, e) ↦ simp (t, e, (eq_iff c.claim_id c.claim_id).1 refl)
  ]

  Ruled : List ClaimRow → ClaimLike → Type 0
  Ruled claims c =
      is_tie (tally_claim_votes c.claim_id ballots) ≡ true
      → ruling_on (judge_tiebreaks ask ballots claims) c.claim_id ≡ ask c.claim_id

  -- Every tied claim has the ruling of the judge.
  ties-Ruled : (claims : List ClaimRow) → All (Ruled claims) (map claim_like claims)
  unfolding Ruled
  ties-Ruled [] = tt
  ties-Ruled (c ∷ claims) = (
    λ t. ruling-head c claims t,
    All-mono (λ x h t. ruling-cons c claims x.claim_id (h t)) (map claim_like claims)
        (ties-Ruled claims),
  )

same_ruling :
    (m : CourtMode) (r r' : Option Tiebreak)
    → r ≡ r'
    → ruling_for (verdict_mode m) (if is_judge m then r else none) ≡ ruling_for (verdict_mode m) r'
same_ruling CourtMode.judge r r' h = h
same_ruling CourtMode.eleven_juror r r' h = refl

-- The verdict is the one that would be given if the judge were asked about every claim: asking
-- about the ties alone loses nothing, and in a court of eleven jurors no answer of the judge counts.
pub case_verdict-eq_of_asking_all :
    (env : CloseEnv) (close_time : ℕ) (db : CaseDb)
    → case_verdict env close_time db
      ≡ compute_deterministic_verdict env.bundle_hash
          (verdict_input env close_time env.break_tiebreak db)
unfolding case_verdict judge_tiebreaks ruling_on Ruled
case_verdict-eq_of_asking_all env close_time db =
    let ballots = map ballot_like db.ballots in
    let input = verdict_input env close_time (rulings_for env db) db in
    verdict-eq_of_rulings input env.break_tiebreak env.bundle_hash (
      All-mono {P = Ruled env.break_tiebreak ballots db.claims}
        {Q = AgreeOn input env.break_tiebreak}
        (λ c h k.
          same_ruling db.row.court_mode _ (env.break_tiebreak c.claim_id)
            (h (tie_of (tally_claim_votes c.claim_id ballots) k)))
        (map claim_like db.claims) (ties-Ruled env.break_tiebreak ballots db.claims))
