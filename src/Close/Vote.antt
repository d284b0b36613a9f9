-- ===== src/Close/Vote.antt =====
-- The verdict on the rows of a case, with the judge's rulings on ties, in `closeCasePipeline`.
use open_cawt.Base.{
  ℕ, String, Bool, true, false, ◌&&◌, Option, none, some, List, [], ◌∷◌, map, length, ltb, ◌==◌,
  str_eq, if◌then◌else◌,
}
use open_cawt.Jury.{JurySelectionProof}
use open_cawt.Verdict.Tally.{BallotLike, Tally, tally_claim_votes}
use open_cawt.Verdict.Compute
use open_cawt.Verdict.Compute.{
  CaseOutcome, for_prosecution, Tiebreak, ClaimLike, VerdictInput, Bundle, ClaimVerdict,
  compute_deterministic_verdict,
}
use open_cawt.Session.Types.{CourtMode, Submission, ClaimRow, Ballot, Event, CaseDb}
use open_cawt.Session.Store.{list_jury_members}
use open_cawt.Seal.Types.{SealRequest}
use open_cawt.Seal.Worker.{SealEnv, Mode, Answer}

-- What the pipeline asks of others: the hashes (SHA-256 of canonical JSON), the text of a time, the
-- judge, whose rulings and recommendation may not come in time, and the mint worker.
pub record CloseEnv : Type 0 where
  pub seal : SealEnv
  pub worker : Mode → SealRequest → Answer
  pub iso : ℕ → String
  pub bundle_hash : Bundle → String
  pub transcript_hash : List Event → String
  pub proof_hash : Option JurySelectionProof → String
  pub break_tiebreak : String → Option Tiebreak
  pub recommend_remedy : Option String
  pub juror_panel_size : ℕ

abbrev pub ballot_like : Ballot → BallotLike
ballot_like b = record { votes = b.votes; ballot_hash = b.ballot_hash }

abbrev pub claim_like : ClaimRow → ClaimLike
claim_like c = record { claim_id = c.claim_id; requested_remedy = c.requested_remedy }

-- An exact tie of the jurors on a claim.
unfoldable pub is_tie : Tally → Bool
is_tie t = t.proven == t.not_proven && ltb t.insufficient t.proven

abbrev pub with_ruling :
    Option Tiebreak → String → List (String × Tiebreak) → List (String × Tiebreak)
with_ruling none claim_id rulings = rulings
with_ruling (some ruling) claim_id rulings = (claim_id, ruling) ∷ rulings

-- `judgeTiebreaks`: the judge is asked about the claims that are tied.
unfoldable pub judge_tiebreaks :
    (String → Option Tiebreak) → List BallotLike → List ClaimRow → List (String × Tiebreak)
unfolding is_tie
judge_tiebreaks ask ballots [] = []
judge_tiebreaks ask ballots (claim ∷ claims) =
    let rest = judge_tiebreaks ask ballots claims in
    if is_tie (tally_claim_votes claim.claim_id ballots)
    then with_ruling (ask claim.claim_id) claim.claim_id rest
    else rest

-- `judgeTiebreaks[claimId]`
unfoldable pub ruling_on : List (String × Tiebreak) → String → Option Tiebreak
ruling_on [] claim_id = none
ruling_on ((id, ruling) ∷ rulings) claim_id =
    if str_eq id claim_id then some ruling else ruling_on rulings claim_id

abbrev pub verdict_mode : CourtMode → Compute.CourtMode
verdict_mode CourtMode.eleven_juror = Compute.CourtMode.eleven_juror
verdict_mode CourtMode.judge = Compute.CourtMode.judge

abbrev pub is_judge : CourtMode → Bool
is_judge CourtMode.judge = true
is_judge CourtMode.eleven_juror = false

-- `juryMembers.length || (courtMode === "judge" ? 12 : jurorPanelSize)`
abbrev pub jury_size : CloseEnv → CaseDb → ℕ
jury_size env db =
    if length (list_jury_members db) == 0
    then if is_judge db.row.court_mode then 12 else env.juror_panel_size
    else length (list_jury_members db)

-- The input of the verdict, with what rules on the ties.
abbrev pub verdict_input : CloseEnv → ℕ → (String → Option Tiebreak) → CaseDb → VerdictInput
verdict_input env close_time rulings db = record {
  case_id = db.row.case_id;
  prosecution_agent_id = db.row.prosecution_agent_id;
  defence_agent_id = db.row.defence_agent_id;
  closed_at_iso = env.iso close_time;
  jury_size = jury_size env db;
  claims = map claim_like db.claims;
  ballots = map ballot_like db.ballots;
  evidence_hashes = db.evidence_hashes;
  submission_hashes = map (λ (s : Submission). s.content_hash) db.submissions;
  drand_round = db.row.drand_round;
  drand_randomness = db.row.drand_randomness;
  pool_snapshot_hash = db.row.pool_snapshot_hash;
  court_mode = verdict_mode db.row.court_mode;
  judge_tiebreak = rulings;
  judge_remedy_recommendation = none;
}

abbrev pub rulings_for : CloseEnv → CaseDb → String → Option Tiebreak
unfolding judge_tiebreaks ruling_on
rulings_for env db claim_id =
    if is_judge db.row.court_mode
    then ruling_on (judge_tiebreaks env.break_tiebreak (map ballot_like db.ballots) db.claims)
        claim_id
    else none

unfoldable pub case_verdict : CloseEnv → ℕ → CaseDb → Compute.Verdict
unfolding compute_deterministic_verdict judge_tiebreaks ruling_on
case_verdict env close_time db =
    compute_deterministic_verdict env.bundle_hash
      (verdict_input env close_time (rulings_for env db) db)
