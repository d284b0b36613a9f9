-- ===== src/Tests/Filings.antt =====
-- The filing of a case.
use open_cawt.Base.{String, true, false, none, some, [], ◌∷◌, ◌≡◌, refl}
use open_cawt.Base.Errors.{ok}
use open_cawt.Base.Sets.{unique_sorted}
use open_cawt.Base.Sorting.{sort}
use open_cawt.Jury.{Candidate, JurySelectionResult, select_jury_deterministically}
use open_cawt.Session.Types.{CaseStatus, SessionStage, CourtMode, CaseDb}
use open_cawt.Session.Store.{
  append_transcript_event, upsert_case_runtime, create_jury_selection_run,
}
use open_cawt.Filing.{Registry, FilingConfig, FileBody, Prepared, prepare_filing}
use open_cawt.Filing.Commit.{commit_filing, filed_rows}
use open_cawt.Filing.Opened.{Opens, filing-Opens}
use open_cawt.Filing.Paid.{IsPaid, payee, run_commits, filings-IsPaid}
use open_cawt.Tests.Courts.{env, case_in, beacon}

abbrev config : FilingConfig
config = record {
  simulation_bypass_enabled = false;
  filing_fee_lamports = 5;
  filing_per24h = 1;
  soft_daily_case_cap = 10;
  soft_cap_enforced = true;
  session_starts_after_seconds = 3600;
  named_defendant_response_seconds = 86400;
  defence_assignment_cutoff_seconds = 2700;
  court_mode = CourtMode.eleven_juror;
  banned_from_filing = λ id. false;
  verify_filing_fee_tx =
      λ sig payer. ok (record { finalised = true; amount_lamports = 5; payer_wallet = none });
}

abbrev a_draft : CaseDb
a_draft = case_in SessionStage.pre_session CaseStatus.draft

abbrev one_draft : Registry
one_draft = record { cases = a_draft ∷ []; used_treasury_txs = [] }

abbrev paying : FileBody
paying = record { treasury_tx_sig = some "t1"; payer_wallet = none }

abbrev scored : String → String → Candidate
scored agent_id score_hash = record { agent_id = agent_id; score_hash = score_hash }

abbrev jury : JurySelectionResult
jury =
    let scores = scored "al" "r|c|OpenCawtJuryV1|al" ∷ scored "bo" "r|c|OpenCawtJuryV1|bo" ∷ [] in
    record {
      selected_jurors = "al" ∷ [];
      scored_candidates = scores;
      pool_snapshot_hash = "[al,bo]";
      seed = "r|c|OpenCawtJuryV1";
      proof = record {
        chain_info = beacon.chain_info;
        round = 7;
        randomness = "r";
        pool_snapshot_hash = "[al,bo]";
        seed = "r|c|OpenCawtJuryV1";
        domain = "OpenCawtJuryV1";
        candidate_scores = scores;
        selected_jurors = "al" ∷ [];
        replacement_jurors = none;
      };
    }

abbrev prepared : Prepared
prepared = record {
  case_id = "c";
  agent_id = "pro";
  simulation_bypass = false;
  alpha_bypass = false;
  named_defendant = false;
  tx_sig = "t1";
  payment = record { finalised = true; amount_lamports = 5; payer_wallet = none };
  drand = beacon;
  jury = jury;
  warning = [];
}

is_prepared : prepare_filing config env "c" "pro" paying 5 one_draft ≡ ok prepared
unfolding prepare_filing select_jury_deterministically unique_sorted sort
is_prepared = refl

abbrev filed : Registry
unfolding filed_rows append_transcript_event upsert_case_runtime create_jury_selection_run
filed = record {
  cases = filed_rows config 9 prepared a_draft ∷ [];
  used_treasury_txs =
      record { tx_sig = "t1"; case_id = "c"; agent_id = "pro"; amount_lamports = 5 } ∷ [];
}

is_committed : commit_filing config 9 prepared one_draft ≡ ok filed
unfolding commit_filing
is_committed = refl

filing-Opens_example : Opens config "pro" "c" prepared one_draft filed
filing-Opens_example =
    filing-Opens config env "c" "pro" paying 5 9 one_draft one_draft filed prepared is_prepared
      is_committed

filings-IsPaid_example :
    IsPaid (run_commits config ((9, prepared) ∷ (10, prepared) ∷ []) one_draft)
    × ((s c : String)
        → payee s one_draft.used_treasury_txs ≡ some c
        → payee s
            (run_commits config ((9, prepared) ∷ (10, prepared) ∷ []) one_draft).used_treasury_txs
          ≡ some c)
filings-IsPaid_example =
    filings-IsPaid config ((9, prepared) ∷ (10, prepared) ∷ []) one_draft (λ s e. cc, tt)
