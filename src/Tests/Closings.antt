-- ===== src/Tests/Closings.antt =====
-- The defence of a case, and its close.
use open_cawt.Base.{String, true, false, none, some, [], ◌∷◌, ◌≡◌, ◌↔◌, refl}
use open_cawt.Verdict.Tally.{Finding, Remedy}
use open_cawt.Verdict.Compute.{Ruling, compute_deterministic_verdict}
use open_cawt.Session.Types.{CaseStatus, SessionStage, CourtMode, ClaimOutcome, Ballot, CaseDb}
use open_cawt.Session.Engine.Moves.{IsSound}
use open_cawt.Seal.Worker.{Answer}
use open_cawt.Seal.Claims.{docket}
use open_cawt.Defence.{ClaimInput, claim_defence_assignment, refusal, schedule}
use open_cawt.Defence.Claimable.{is_assigned, MayDefend, claim-Assigned_iff}
use open_cawt.Defence.Assigned.{first-claim_wins}
use open_cawt.Close.Vote.{CloseEnv, case_verdict, verdict_input}
use open_cawt.Close.Pipeline.{close_case_pipeline}
use open_cawt.Close.Ties.{case_verdict-eq_of_asking_all}
use open_cawt.Close.Decides.{Closes, close-Closes}
use open_cawt.Tests.Courts.{case_in, runtime, seal_env}

-- A filed case that waits for a defence.
abbrev undefended : CaseDb
undefended =
    let db = case_in SessionStage.pre_session CaseStatus.filed in
    record db { row = record (db.row) { defence_agent_id = none } }

abbrev claims_as : String → ClaimInput
claims_as id = record { agent_id = id; now = 50; named_exclusive_sec = 1; schedule_delay_sec = 60 }

claim-Assigned_example :
    (is_assigned (claim_defence_assignment (claims_as "dee") undefended).1 ≡ true)
    ↔ MayDefend (claims_as "dee") undefended
claim-Assigned_example = claim-Assigned_iff (claims_as "dee") undefended

first-claim_example :
    ((claim_defence_assignment (claims_as "dee") undefended).0.row.defence_agent_id ≡ some "dee")
    × (((claim_defence_assignment
            (claims_as "eve")
            (claim_defence_assignment (claims_as "dee") undefended).0).0
          ≡ (claim_defence_assignment (claims_as "dee") undefended).0)
        × (is_assigned
              (claim_defence_assignment
                (claims_as "eve")
                (claim_defence_assignment (claims_as "dee") undefended).0).1
            ≡ false))
unfolding claim_defence_assignment refusal schedule
first-claim_example = first-claim_wins (claims_as "dee") (claims_as "eve") undefended refl

undefended-IsSound : IsSound undefended
undefended-IsSound = record {
  runtime = runtime SessionStage.pre_session;
  running = refl;
  same_stage = refl;
  status_fits = refl;
  has_end = refl;
}

abbrev close_env : CloseEnv
close_env = record {
  seal = seal_env;
  worker = λ mode r. Answer.error "timeout";
  iso = λ n. "t";
  bundle_hash = λ b. "v";
  transcript_hash = λ l. "t";
  proof_hash = λ p. "p";
  break_tiebreak = λ id. some (record { finding = Ruling.ruled_proven; reasoning = "so" });
  recommend_remedy = some "warn";
  juror_panel_size = 11;
}

abbrev ballot : String → Finding → Ballot
ballot id finding = record {
  juror_id = id;
  votes =
      record {
        claim_id = "k";
        finding = finding;
        severity = 1;
        recommended_remedy = none;
        rationale = "";
        citations = [];
      }
      ∷ [];
  ballot_hash = id;
}

-- A case before a judge, with a tie.
abbrev tied_case : CaseDb
tied_case =
    let db = case_in SessionStage.voting CaseStatus.voting in
    record db {
      row = record (db.row) { court_mode = CourtMode.judge };
      claims =
          record {
            claim_id = "k";
            requested_remedy = Remedy.warn;
            claim_outcome = ClaimOutcome.undecided;
          }
          ∷ [];
      ballots = ballot "al" Finding.proven ∷ ballot "bo" Finding.not_proven ∷ [];
    }

asking_all_example :
    case_verdict close_env 90 tied_case
    ≡ compute_deterministic_verdict close_env.bundle_hash
        (verdict_input close_env 90 close_env.break_tiebreak tied_case)
asking_all_example = case_verdict-eq_of_asking_all close_env 90 tied_case

abbrev tied_case-IsSound : IsSound tied_case
tied_case-IsSound = record {
  runtime = runtime SessionStage.voting;
  running = refl;
  same_stage = refl;
  status_fits = refl;
  has_end = refl;
}

close-Closes_example :
    Closes
      (case_verdict close_env 90 tied_case)
      (close_case_pipeline close_env false "j" 90 91 (docket tied_case none none))
unfolding case_verdict compute_deterministic_verdict
close-Closes_example =
    close-Closes close_env "j" 90 91 (docket tied_case none none) tied_case-IsSound refl refl
