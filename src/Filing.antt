-- ===== src/Filing.antt =====
-- handlePostCaseFile of server/main.ts up to its transaction, with the statements of
-- server/db/repository.ts that it reads by, computeInitialJurySelection and `enforceFilingLimit` of
-- services/rateLimit.ts.
pub mod Commit
pub mod Wallet
pub mod Paid
pub mod Filed
pub mod Opened
use Prim.Native.String
use Prim.Native.Nat.{◌/◌}
use open_cawt.Base.{
  ℕ, ◌+◌, ◌-◌, ◌*◌, String, Bool, true, false, not, ◌&&◌, ◌||◌, Option, none, some, List, [], ◌∷◌,
  ◌++◌, find, any, leb, ltb, count_if, str_eq, ◌==◌, if◌then◌else◌, is_some, or_else,
}
use open_cawt.Base.Errors.{
  internal_error, ApiError, Result, ok, err, bad_request, forbidden, not_found, conflict,
  rate_limited, require, ◌>>◌, ◌>>=◌,
}
use open_cawt.Jury.{
  DrandRoundData, JurySelectionInput, JurySelectionResult, select_jury_deterministically,
}
use open_cawt.Session.Types.{CaseStatus, CourtMode, FilingNote, CaseRow, CaseDb}
use open_cawt.Session.Panel.{Env, list_eligible_jurors}
use open_cawt.Filing.Wallet.{is_payer_wallet, wallet_fits}

-- A row of `used_treasury_txs`.
pub record UsedTx : Type 0 where
  pub tx_sig : String
  pub case_id : String
  pub agent_id : String
  pub amount_lamports : ℕ

-- What filings share: the cases and the payments that were taken.
pub record Registry : Type 0 where
  pub cases : List CaseDb
  pub used_treasury_txs : List UsedTx

abbrev pub has_id : String → CaseDb → Bool
has_id case_id db = str_eq db.row.case_id case_id

-- `ensureCaseExists`
abbrev pub or_not_found : Option CaseDb → Result CaseDb
or_not_found none = err (not_found "CASE_NOT_FOUND")
or_not_found (some db) = ok db

abbrev pub ensure_case_exists : String → Registry → Result CaseDb
ensure_case_exists case_id reg = or_not_found (find (has_id case_id) reg.cases)

abbrev pub has_sig : String → UsedTx → Bool
has_sig tx_sig used = str_eq used.tx_sig tx_sig

abbrev pub is_treasury_tx_used : String → Registry → Bool
is_treasury_tx_used tx_sig reg = any (has_sig tx_sig) reg.used_treasury_txs

-- What the treasury's RPC node says of a transaction.
pub record Payment : Type 0 where
  pub finalised : Bool
  pub amount_lamports : ℕ
  pub payer_wallet : Option String

pub record FilingConfig : Type 0 where
  pub simulation_bypass_enabled : Bool
  pub filing_fee_lamports : ℕ
  pub filing_per24h : ℕ
  pub soft_daily_case_cap : ℕ
  pub soft_cap_enforced : Bool
  pub session_starts_after_seconds : ℕ
  pub named_defendant_response_seconds : ℕ
  pub defence_assignment_cutoff_seconds : ℕ
  pub court_mode : CourtMode
  pub banned_from_filing : String → Bool
  pub verify_filing_fee_tx : String → Option String → Result Payment

-- The body, its texts trimmed; none stands for a blank one.
pub record FileBody : Type 0 where
  pub treasury_tx_sig : Option String
  pub payer_wallet : Option String

abbrev pub filed_since : ℕ → Option ℕ → Bool
filed_since from none = false
filed_since from (some at) = leb from at

unfoldable pub count_agent_filed_in_last24h : String → ℕ → Registry → ℕ
count_agent_filed_in_last24h agent_id now reg =
    count_if
      (λ (db : CaseDb).
        str_eq db.row.prosecution_agent_id agent_id
        && filed_since (now - 24 * 60 * 60 * 1000) db.row.filed_at)
      reg.cases

unfoldable pub enforce_filing_limit : FilingConfig → String → ℕ → Registry → Result (Unit {0})
unfolding count_agent_filed_in_last24h
enforce_filing_limit config agent_id now reg =
    require (not (leb config.filing_per24h (count_agent_filed_in_last24h agent_id now reg)))
      rate_limited

abbrev pub day_of : ℕ → ℕ
day_of at = at / 86400000

abbrev pub filed_on : ℕ → Option ℕ → Bool
filed_on day none = false
filed_on day (some at) = day_of at == day

-- Of two times the ISO texts share their first ten characters when they are on one day.
unfoldable pub count_filed_cases_today : ℕ → Registry → ℕ
count_filed_cases_today now reg =
    count_if (λ (db : CaseDb). filed_on (day_of now) db.row.filed_at) reg.cases

abbrev pub is_draft : CaseStatus → Bool
is_draft CaseStatus.draft = true
is_draft _ = false

abbrev pub is_judge : CourtMode → Bool
is_judge CourtMode.judge = true
is_judge CourtMode.eleven_juror = false

abbrev pub if_any : Option String → List String
if_any none = []
if_any (some id) = id ∷ []

-- The parties of a case, who may not sit on its jury.
abbrev pub parties : CaseRow → List String
parties row = row.prosecution_agent_id ∷ if_any row.defence_agent_id

abbrev pub initial_jury_size : FilingConfig → Env → ℕ
initial_jury_size config env = if is_judge config.court_mode then 12 else env.juror_panel_size

abbrev pub jury_input : FilingConfig → Env → CaseRow → JurySelectionInput
unfolding list_eligible_jurors
jury_input config env row = record {
  case_id = row.case_id;
  eligible_juror_ids = list_eligible_jurors env (parties row);
  drand = env.drand;
  jury_size = initial_jury_size config env;
}

unfoldable pub compute_initial_jury_selection :
    FilingConfig → Env → CaseRow → Result JurySelectionResult
unfolding list_eligible_jurors select_jury_deterministically
compute_initial_jury_selection config env row =
    require (not (env.beacon_fails row.case_id)) internal_error
    >> select_jury_deterministically env.platform (jury_input config env row)

-- What stands ready for the transaction.
pub record Prepared : Type 0 where
  pub case_id : String
  pub agent_id : String
  pub simulation_bypass : Bool
  pub alpha_bypass : Bool
  pub named_defendant : Bool
  pub tx_sig : String
  pub payment : Payment
  pub drand : DrandRoundData
  pub jury : JurySelectionResult
  pub warning : List FilingNote

abbrev pub filing_fee_bypass : Prepared → Bool
filing_fee_bypass p = p.simulation_bypass || p.alpha_bypass

abbrev pub is_simulated : FilingConfig → CaseRow → Bool
is_simulated config row = config.simulation_bypass_enabled && row.sealed_disabled

-- `treasuryTxSig`, where a signature is given or not asked for.
abbrev pub signature_of : FilingConfig → CaseRow → Option String → String
signature_of config row provided =
    if is_simulated config row
    then String.◌++◌ "simulation-bypass-" row.case_id
    else if row.alpha_cohort
    then String.◌++◌ "alpha-free-" row.case_id
    else or_else provided ""

abbrev pub payment_of : FilingConfig → CaseRow → FileBody → Result Payment
payment_of config row body =
    if is_simulated config row
    then ok (record {
      finalised = true;
      amount_lamports = config.filing_fee_lamports;
      payer_wallet = body.payer_wallet;
    })
    else if row.alpha_cohort
    then ok (record { finalised = true; amount_lamports = 0; payer_wallet = none })
    else config.verify_filing_fee_tx (or_else body.treasury_tx_sig "") body.payer_wallet

abbrev pub cap_notes : FilingConfig → ℕ → Result (List FilingNote)
cap_notes config today =
    if leb config.soft_daily_case_cap today
    then if config.soft_cap_enforced
      then err (conflict "SOFT_CAP_EXCEEDED")
      else ok (FilingNote.soft_cap_exceeded (today + 1) ∷ [])
    else ok []

abbrev pub bypass_notes : FilingConfig → CaseRow → List FilingNote
bypass_notes config row =
    if is_simulated config row
    then FilingNote.simulation_bypass ∷ []
    else if row.alpha_cohort
    then FilingNote.alpha_mode ∷ []
    else []

abbrev pub is_waived : FilingConfig → CaseRow → Bool
is_waived config row = is_simulated config row || row.alpha_cohort

-- Who may file, and with what.
unfoldable pub check_filing :
    FilingConfig → String → FileBody → ℕ → CaseRow → Registry → Result (Unit {0})
unfolding enforce_filing_limit is_payer_wallet
check_filing config agent_id body now row reg =
    require (is_draft row.status) (conflict "CASE_NOT_DRAFT")
    >> (require (str_eq agent_id row.prosecution_agent_id) (forbidden "NOT_PROSECUTION")
        >> (require (not (config.banned_from_filing agent_id))
              (forbidden "AGENT_BANNED_FROM_FILING")
            >> (require (is_waived config row || is_some body.treasury_tx_sig)
                  (bad_request "TREASURY_TX_REQUIRED")
                >> (require (wallet_fits body.payer_wallet) (bad_request "PAYER_WALLET_INVALID")
                    >> ((if is_simulated config row
                          then ok tt
                          else enforce_filing_limit config agent_id now reg)
                        >> require
                            (is_waived config row
                              || not (
                                  is_treasury_tx_used (signature_of config row body.treasury_tx_sig)
                                    reg))
                            (conflict "TREASURY_TX_REPLAY"))))))

-- The payment, the jury and the daily cap.
unfoldable pub gather :
    FilingConfig → Env → String → FileBody → ℕ → CaseRow → Registry → Result Prepared
unfolding compute_initial_jury_selection count_filed_cases_today
gather config env agent_id body now row reg = payment_of config row body >>= λ payment.
    require (is_waived config row || payment.finalised) (bad_request "TREASURY_TX_NOT_FINALISED")
    >> (compute_initial_jury_selection config env row >>= λ jury.
        cap_notes config (count_filed_cases_today now reg) >>= λ notes. ok (record {
          case_id = row.case_id;
          agent_id = agent_id;
          simulation_bypass = is_simulated config row;
          alpha_bypass = row.alpha_cohort;
          named_defendant = is_some row.defendant_agent_id;
          tx_sig = signature_of config row body.treasury_tx_sig;
          payment = payment;
          drand = env.drand;
          jury = jury;
          warning = notes ++ bypass_notes config row;
        }))

-- The handler up to its transaction.
unfoldable pub prepare_filing :
    FilingConfig → Env → String → String → FileBody → ℕ → Registry → Result Prepared
unfolding check_filing gather
prepare_filing config env case_id agent_id body now reg = ensure_case_exists case_id reg >>= λ db.
    check_filing config agent_id body now db.row reg
    >> gather config env agent_id body now db.row reg
