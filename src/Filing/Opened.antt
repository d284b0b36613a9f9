-- ===== src/Filing/Opened.antt =====
-- What a filing that succeeds leaves behind.
use open_cawt.Base.{
  ℕ, String, true, false, not, ◌&&◌, ◌||◌, some, List, [], ◌∷◌, find, map, keep, ◌≡◌, ◌∙◌, refl,
  sym, ap, subst, arith, str_eq, eq_iff,
}
use open_cawt.Base.Errors.{
  internal_error, ok, bad_request, forbidden, conflict, require, both_ok, bind_ok, ok-inj,
  require-true,
}
use open_cawt.Base.Sets.{has, has-keep}
use open_cawt.Jury.{Candidate, JurySelectionResult}
use open_cawt.Jury.Panel.{select_jury-eligible, select_jury-scored}
use open_cawt.Session.Types.{CaseStatus, Member, CaseRow, CaseDb}
use open_cawt.Session.Panel.{Env, allowed, list_eligible_jurors}
use open_cawt.Session.Engine.Moves.{IsSound}
use open_cawt.Session.Engine.Deadlines.{stage_of, stage_in}
use open_cawt.Filing.{
  Registry, FilingConfig, FileBody, Prepared, has_id, ensure_case_exists, is_draft, is_judge,
  is_waived, parties, check_filing, gather, prepare_filing, payment_of,
  compute_initial_jury_selection, cap_notes, count_filed_cases_today, jury_input,
}
use open_cawt.Filing.Commit.{
  filed_rows, put_case, used_tx, new_member, chosen, filing_stage, commit_filing,
}
use open_cawt.Filing.Filed.{
  filed_rows-case_id, filed_rows-tx_sig, filed_rows-panel, filed_rows-status, filed_rows-runtime,
  filed_rows-IsSound,
}
use open_cawt.Filing.Paid.{payee, payee-new, commit-Commits, or_not_found_ok, or_not_found-has_id}

abbrev pub ids_of : List Member → List String
ids_of panel = map (λ (m : Member). m.juror_id) panel

-- What the handler has found before its transaction.
pub record IsPrepared (config : FilingConfig) (env : Env) (agent_id : String) (row : CaseRow)
    (p : Prepared) : Type 0 where
  pub draft : is_draft row.status ≡ true
  pub by_prosecution : agent_id ≡ row.prosecution_agent_id
  pub paid : (is_waived config row || p.payment.finalised) ≡ true
  pub same_id : p.case_id ≡ row.case_id
  pub jury_drawn : compute_initial_jury_selection config env row ≡ ok p.jury

check_filing-passes :
    (config : FilingConfig) (agent_id : String) (body : FileBody) (now : ℕ) (row : CaseRow)
    (reg : Registry)
    → check_filing config agent_id body now row reg ≡ ok tt
    → (is_draft row.status ≡ true) × (agent_id ≡ row.prosecution_agent_id)
unfolding check_filing
check_filing-passes config agent_id body now row reg h =
    let (draft, h1) = both_ok (require (is_draft row.status) (conflict "CASE_NOT_DRAFT")) _ tt h in
    let (own, h2) =
      both_ok (require (str_eq agent_id row.prosecution_agent_id) (forbidden "NOT_PROSECUTION")) _
        tt h1 in
    (require-true _ _ draft, (eq_iff agent_id row.prosecution_agent_id).0 (require-true _ _ own))

gather-IsPrepared :
    (config : FilingConfig) (env : Env) (agent_id : String) (body : FileBody) (now : ℕ)
    (row : CaseRow) (reg : Registry) (p : Prepared)
    → gather config env agent_id body now row reg ≡ ok p
    → is_draft row.status ≡ true
    → agent_id ≡ row.prosecution_agent_id
    → IsPrepared config env agent_id row p
unfolding gather
gather-IsPrepared config env agent_id body now row reg p h draft own =
    let (payment, (hp, h1)) = bind_ok (payment_of config row body) _ p h in
    let (final, h2) =
      both_ok
        (require (is_waived config row || payment.finalised)
          (bad_request "TREASURY_TX_NOT_FINALISED"))
        _ p h1 in
    let (jury, (hj, h3)) = bind_ok (compute_initial_jury_selection config env row) _ p h2 in
    let (notes, (hn, h4)) = bind_ok (cap_notes config (count_filed_cases_today now reg)) _ p h3 in
    subst (IsPrepared config env agent_id row) (ok-inj _ p h4) (record {
      draft = draft;
      by_prosecution = own;
      paid = require-true _ _ final;
      same_id = refl;
      jury_drawn = hj;
    })

prepare-IsPrepared :
    (config : FilingConfig) (env : Env) (case_id agent_id : String) (body : FileBody) (now : ℕ)
    (reg : Registry) (p : Prepared)
    → prepare_filing config env case_id agent_id body now reg ≡ ok p
    → (db : CaseDb) × (find (has_id case_id) reg.cases ≡ some db)
      × IsPrepared config env agent_id db.row p
unfolding prepare_filing
prepare-IsPrepared config env case_id agent_id body now reg p h =
    let (db, (there, h1)) = bind_ok (ensure_case_exists case_id reg) _ p h in
    let (checks, h2) = both_ok (check_filing config agent_id body now db.row reg) _ p h1 in
    let (draft, own) = check_filing-passes config agent_id body now db.row reg checks in
    (
      db,
      or_not_found_ok _ db there,
      gather-IsPrepared config env agent_id body now db.row reg p h2 draft own,
    )

-- The panel has the drawn jurors.
ids_of-new :
    (cs : List Candidate) → ids_of (map new_member cs) ≡ map (λ (c : Candidate). c.agent_id) cs
ids_of-new [] = refl
ids_of-new (c ∷ cs) = ap (◌∷◌ c.agent_id) (ids_of-new cs)

has-chosen :
    (selected : List String) (cs : List Candidate) (a : String)
    → has
        (map (λ (c : Candidate). c.agent_id) (keep (λ (c : Candidate). has selected c.agent_id) cs))
        a
      ≡ (has selected a && has (map (λ (c : Candidate). c.agent_id) cs) a)
has-chosen selected [] a = ground arith
has-chosen selected (c ∷ cs) a = ground (arith, eq_iff c.agent_id a, has-chosen selected cs a)

drawn_panel :
    (config : FilingConfig) (env : Env) (row : CaseRow) (jury : JurySelectionResult) (a : String)
    → compute_initial_jury_selection config env row ≡ ok jury
    → has (ids_of (map new_member (chosen jury))) a ≡ has jury.selected_jurors a
unfolding compute_initial_jury_selection
drawn_panel config env row jury a h =
    let drawn =
      (both_ok (require (not (env.beacon_fails row.case_id)) internal_error) _ jury h).1 in
    let scored = select_jury-scored env.platform (jury_input config env row) drawn a in
    ap (λ (l : List String). has l a) (ids_of-new (chosen jury))
    ∙ has-chosen jury.selected_jurors jury.scored_candidates a
    ∙ ground arith

-- No party of the case is drawn.
jury_drawn-no_party :
    (config : FilingConfig) (env : Env) (row : CaseRow) (jury : JurySelectionResult) (a : String)
    → compute_initial_jury_selection config env row ≡ ok jury
    → has jury.selected_jurors a ≡ true
    → has (parties row) a ≡ false
unfolding compute_initial_jury_selection list_eligible_jurors
jury_drawn-no_party config env row jury a h k =
    let drawn =
      (both_ok (require (not (env.beacon_fails row.case_id)) internal_error) _ jury h).1 in
    let free =
      has-keep (λ x. allowed env.allowlist x && not (has (parties row) x)) env.available_jurors a
        (select_jury-eligible env.platform (jury_input config env row) drawn a k) in
    ground arith

find-put_case :
    (case_id : String) (db old : CaseDb) (cases : List CaseDb)
    → db.row.case_id ≡ case_id
    → find (has_id case_id) cases ≡ some old
    → find (has_id case_id) (put_case case_id db cases) ≡ some db
find-put_case case_id db old [] same h = cc
find-put_case case_id db old (d ∷ cases) same h =
    ground (arith, eq_iff db.row.case_id case_id, find-put_case case_id db old cases same)

-- What holds when a filing has gone through: of the case `was` as the handler read it, and of
-- the case `after` its transaction.
pub record Opens (config : FilingConfig) (agent_id case_id : String) (p : Prepared)
    (reg reg' : Registry) : Type 0 where
  pub was : CaseDb
  pub read : find (has_id case_id) reg.cases ≡ some was
  pub draft : is_draft was.row.status ≡ true
  pub by_prosecution : agent_id ≡ was.row.prosecution_agent_id
  pub paid : (is_waived config was.row || p.payment.finalised) ≡ true
  pub after : CaseDb
  pub filed : find (has_id case_id) reg'.cases ≡ some after
  pub named : after.row.treasury_tx_sig ≡ some p.tx_sig
  pub charged : payee p.tx_sig reg'.used_treasury_txs ≡ some case_id
  pub seated : (a : String) → has (ids_of after.panel) a ≡ has p.jury.selected_jurors a
  pub no_party : (a : String) → has (ids_of after.panel) a ≡ true → has (parties was.row) a ≡ false
  pub status : after.row.status ≡ CaseStatus.jury_selected
  pub stage : stage_in after ≡ some (filing_stage config)
  pub sound : is_judge config.court_mode ≡ false → IsSound after

-- A filing that is prepared and then committed was of a draft, by its prosecution, and paid unless
-- the fee is waived. Afterwards the case names its payment, which was taken for it; it has the drawn
-- jurors, none of them a party of the case as it was read before the draw; it is selected and in the
-- first stage of its court mode; and in the mode of a jury of eleven its rows agree, as the session
-- needs them.
pub filing-Opens :
    (config : FilingConfig) (env : Env) (case_id agent_id : String) (body : FileBody)
    (now later : ℕ) (reg0 reg reg' : Registry) (p : Prepared)
    → prepare_filing config env case_id agent_id body now reg0 ≡ ok p
    → commit_filing config later p reg ≡ ok reg'
    → Opens config agent_id case_id p reg0 reg'
filing-Opens config env case_id agent_id body now later reg0 reg reg' p h k =
    let (was, there, q) = prepare-IsPrepared config env case_id agent_id body now reg0 p h in
    let c = commit-Commits config later p reg reg' k in
    let same : p.case_id ≡ case_id = q.same_id ∙ or_not_found-has_id case_id reg0.cases was there in
    let after = filed_rows config later p c.old in
    let its_id : after.row.case_id ≡ p.case_id =
      filed_rows-case_id config later p c.old
      ∙ or_not_found-has_id p.case_id reg.cases c.old c.is_there in
    let seats : (a : String) → has (ids_of after.panel) a ≡ has p.jury.selected_jurors a = λ a.
      ap (λ (l : List Member). has (ids_of l) a) (filed_rows-panel config later p c.old)
      ∙ drawn_panel config env was.row p.jury a q.jury_drawn in
    record {
      was = was;
      read = there;
      draft = q.draft;
      by_prosecution = q.by_prosecution;
      paid = q.paid;
      after = after;
      filed =
          subst (λ (i : String). find (has_id i) reg'.cases ≡ some after) same
            (ap (find (has_id p.case_id)) c.same_cases
              ∙ find-put_case p.case_id after c.old reg.cases its_id c.is_there);
      named = filed_rows-tx_sig config later p c.old;
      charged =
          ap (payee p.tx_sig) c.one_more
          ∙ payee-new (used_tx p) reg.used_treasury_txs c.unused
          ∙ ap some same;
      seated = seats;
      no_party =
          λ a s. jury_drawn-no_party config env was.row p.jury a q.jury_drawn (sym (seats a) ∙ s);
      status = filed_rows-status config later p c.old;
      stage = ap stage_of (filed_rows-runtime config later p c.old);
      sound = filed_rows-IsSound config later p c.old;
    }
