-- ===== src/Filing/Paid.antt =====
-- What a payment pays for, over any filings.
use open_cawt.Base.{
  ℕ, String, Bool, true, false, not, ◌||◌, Option, none, some, List, [], ◌∷◌, ◌++◌, find, any, All,
  ◌≡◌, ◌∙◌, refl, sym, ap, subst, arith, eq_iff, if_elim,
}
use open_cawt.Base.Errors.{
  Result, ok, err, conflict, internal_error, require, both_ok, bind_ok, ok-inj, require-true,
}
use open_cawt.Session.Types.{CaseDb}
use open_cawt.Filing.{
  UsedTx, Registry, FilingConfig, Prepared, has_id, has_sig, or_not_found, ensure_case_exists,
  is_treasury_tx_used, is_draft, filing_fee_bypass,
}
use open_cawt.Filing.Commit.{
  filed_rows, is_sig_of_other, used_tx, put_case, commit_filing, after_commit,
}
use open_cawt.Filing.Filed.{filed_rows-case_id, filed_rows-tx_sig}

abbrev pub case_of : Option UsedTx → Option String
case_of none = none
case_of (some used) = some used.case_id

-- The case that a payment was taken for.
abbrev pub payee : String → List UsedTx → Option String
payee tx_sig used = case_of (find (has_sig tx_sig) used)

-- The payment that a case names was taken for that case.
abbrev pub Pays : List UsedTx → CaseDb → Type 0
Pays used db =
    (tx_sig : String)
    → db.row.treasury_tx_sig ≡ some tx_sig
    → payee tx_sig used ≡ some db.row.case_id

abbrev pub IsPaid : Registry → Type 0
IsPaid reg = All (Pays reg.used_treasury_txs) reg.cases

payee-snoc :
    (s c : String) (u : UsedTx) (used : List UsedTx)
    → payee s used ≡ some c
    → payee s (used ++ u ∷ []) ≡ some c
payee-snoc s c u [] h = cc
payee-snoc s c u (v ∷ used) h = ground (arith, payee-snoc s c u used)

pub payee-new :
    (u : UsedTx) (used : List UsedTx)
    → any (has_sig u.tx_sig) used ≡ false
    → payee u.tx_sig (used ++ u ∷ []) ≡ some u.case_id
payee-new u [] h = ground (arith, eq_iff u.tx_sig u.tx_sig)
payee-new u (v ∷ used) h = ground (arith, payee-new u used)

some-inj : {a b : String} → some a ≡ some b → a ≡ b
some-inj h = cc

-- What a commit that is not rolled back does.
pub record Commits (config : FilingConfig) (now : ℕ) (p : Prepared) (reg reg' : Registry)
    : Type 0 where
  pub old : CaseDb
  pub is_there : find (has_id p.case_id) reg.cases ≡ some old
  pub draft : is_draft old.row.status ≡ true
  pub unused : any (has_sig p.tx_sig) reg.used_treasury_txs ≡ false
  pub same_cases : reg'.cases ≡ put_case p.case_id (filed_rows config now p old) reg.cases
  pub one_more : reg'.used_treasury_txs ≡ reg.used_treasury_txs ++ used_tx p ∷ []

pub or_not_found_ok : (o : Option CaseDb) (db : CaseDb) → or_not_found o ≡ ok db → o ≡ some db
or_not_found_ok none db h = cc
or_not_found_ok (some d) db h = ap some (ok-inj d db h)

not-true : (b : Bool) → not b ≡ true → b ≡ false
not-true true h = cc
not-true false h = refl

pub commit-Commits :
    (config : FilingConfig) (now : ℕ) (p : Prepared) (reg reg' : Registry)
    → commit_filing config now p reg ≡ ok reg'
    → Commits config now p reg reg'
unfolding commit_filing
commit-Commits config now p reg reg' h =
    let (db, (there, h1)) = bind_ok (ensure_case_exists p.case_id reg) _ reg' h in
    let (draft, h2) =
      both_ok (require (is_draft db.row.status) (conflict "CASE_NOT_DRAFT")) _ reg' h1 in
    let (fresh, h3) =
      both_ok
        (require (filing_fee_bypass p || not (is_treasury_tx_used p.tx_sig reg))
          (conflict "TREASURY_TX_REPLAY"))
        _ reg' h2 in
    let (own, h4) =
      both_ok (require (not (is_sig_of_other p.case_id p.tx_sig reg)) internal_error) _ reg' h3 in
    let (unused, h5) =
      both_ok (require (not (is_treasury_tx_used p.tx_sig reg)) internal_error) _ reg' h4 in
    let same = ok-inj _ reg' h5 in
    record {
      old = db;
      is_there = or_not_found_ok _ db there;
      draft = require-true _ _ draft;
      unused = not-true _ (require-true _ _ unused);
      same_cases = ap (λ (r : Registry). r.cases) (sym same);
      one_more = ap (λ (r : Registry). r.used_treasury_txs) (sym same);
    }

pub or_not_found-has_id :
    (case_id : String) (cases : List CaseDb) (db : CaseDb)
    → find (has_id case_id) cases ≡ some db
    → db.row.case_id ≡ case_id
or_not_found-has_id case_id [] db h = cc
or_not_found-has_id case_id (d ∷ cases) db h =
    ground (arith, eq_iff d.row.case_id case_id, or_not_found-has_id case_id cases db)

put_case-Pays :
    (case_id : String) (db : CaseDb) (u : UsedTx) (used : List UsedTx) (cases : List CaseDb)
    → Pays (used ++ u ∷ []) db
    → All (Pays used) cases
    → All (Pays (used ++ u ∷ [])) (put_case case_id db cases)
put_case-Pays case_id db u used [] h ps = tt
put_case-Pays case_id db u used (d ∷ cases) h (p, ps) = (
  if_elim (Pays (used ++ u ∷ [])) (has_id case_id d) (λ _. h)
      (λ _ s e. payee-snoc s d.row.case_id u used (p s e)),
  put_case-Pays case_id db u used cases h ps,
)

-- The registry keeps what its cases have paid, and every payment that was taken.
record Keeps (reg reg' : Registry) : Type 0 where
  paid : IsPaid reg'
  stands :
      (s c : String)
      → payee s reg.used_treasury_txs ≡ some c
      → payee s reg'.used_treasury_txs ≡ some c

Commits-Keeps :
    (config : FilingConfig) (now : ℕ) (p : Prepared) (reg reg' : Registry)
    → Commits config now p reg reg'
    → IsPaid reg
    → Keeps reg reg'
Commits-Keeps config now p reg reg' c paid =
    let used = reg.used_treasury_txs in
    let filed = filed_rows config now p c.old in
    let its_id : filed.row.case_id ≡ p.case_id =
      filed_rows-case_id config now p c.old
      ∙ or_not_found-has_id p.case_id reg.cases c.old c.is_there in
    let pays : Pays (used ++ used_tx p ∷ []) filed = λ s e.
      let same : p.tx_sig ≡ s = some-inj (sym (filed_rows-tx_sig config now p c.old) ∙ e) in
      subst (λ x. payee x (used ++ used_tx p ∷ []) ≡ some filed.row.case_id) same
        (payee-new (used_tx p) used c.unused ∙ ap some (sym its_id)) in
    record {
      paid =
          subst (λ (l : List UsedTx). All (Pays l) reg'.cases) (sym c.one_more)
            (subst (All (Pays (used ++ used_tx p ∷ []))) (sym c.same_cases)
              (put_case-Pays p.case_id filed (used_tx p) used reg.cases pays paid));
      stands = λ s x h. ap (payee s) c.one_more ∙ payee-snoc s x (used_tx p) used h;
    }

after_commit-Keeps :
    (config : FilingConfig) (now : ℕ) (p : Prepared) (reg : Registry) (r : Result Registry)
    → commit_filing config now p reg ≡ r
    → IsPaid reg
    → Keeps reg (after_commit reg r)
after_commit-Keeps config now p reg (err e) h paid = record { paid = paid; stands = λ s c k. k }
after_commit-Keeps config now p reg (ok reg') h paid =
    Commits-Keeps config now p reg reg' (commit-Commits config now p reg reg' h) paid

-- Transactions of filings one after another, each with what its handler has prepared, whenever
-- that was.
unfoldable pub run_commits : FilingConfig → List (ℕ × Prepared) → Registry → Registry
run_commits config [] reg = reg
run_commits config ((now, p) ∷ rest) reg =
    run_commits config rest (after_commit reg (commit_filing config now p reg))

-- Over any filings, whatever their handlers found before their transactions, where each case that
-- names a payment is the case the payment was taken for, it is so afterwards, also for the cases
-- filed since, and a payment that was taken for a case stays taken for it. So no payment opens two
-- cases.
pub filings-IsPaid :
    (config : FilingConfig) (filings : List (ℕ × Prepared)) (reg : Registry)
    → IsPaid reg
    → IsPaid (run_commits config filings reg)
      × ((s c : String)
          → payee s reg.used_treasury_txs ≡ some c
          → payee s (run_commits config filings reg).used_treasury_txs ≡ some c)
unfolding run_commits
filings-IsPaid config [] reg paid = (paid, λ s c h. h)
filings-IsPaid config ((now, p) ∷ rest) reg paid =
    let one = after_commit-Keeps config now p reg (commit_filing config now p reg) refl paid in
    let (all_paid, stand) =
      filings-IsPaid config rest (after_commit reg (commit_filing config now p reg)) one.paid in
    (all_paid, λ s c h. stand s c (one.stands s c h))
