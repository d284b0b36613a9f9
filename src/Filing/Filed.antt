-- ===== src/Filing/Filed.antt =====
-- The rows of a case that has been filed.
use open_cawt.Base.{ℕ, false, some, map, ◌≡◌, ◌∙◌, refl, ap, arith}
use open_cawt.Session.Types.{CaseStatus, SessionStage, CaseDb}
use open_cawt.Session.Store.{
  append_transcript_event, upsert_case_runtime, create_jury_selection_run,
}
use open_cawt.Session.Engine.Moves.{IsSound, fits}
use open_cawt.Filing.{FilingConfig, Prepared, is_judge}
use open_cawt.Filing.Commit.{filed_rows, chosen, new_member, filing_stage, first_runtime}

module _ (config : FilingConfig) (now : ℕ) (p : Prepared) (db : CaseDb) where
  pub filed_rows-case_id : (filed_rows config now p db).row.case_id ≡ db.row.case_id
  unfolding filed_rows append_transcript_event upsert_case_runtime create_jury_selection_run
  filed_rows-case_id = ground arith

  pub filed_rows-tx_sig : (filed_rows config now p db).row.treasury_tx_sig ≡ some p.tx_sig
  unfolding filed_rows append_transcript_event upsert_case_runtime create_jury_selection_run
  filed_rows-tx_sig = ground arith

  pub filed_rows-panel : (filed_rows config now p db).panel ≡ map new_member (chosen p.jury)
  unfolding filed_rows append_transcript_event upsert_case_runtime create_jury_selection_run
  filed_rows-panel = ground arith

  pub filed_rows-status : (filed_rows config now p db).row.status ≡ CaseStatus.jury_selected
  unfolding filed_rows append_transcript_event upsert_case_runtime create_jury_selection_run
  filed_rows-status = ground arith

  pub filed_rows-stage : (filed_rows config now p db).row.session_stage ≡ SessionStage.pre_session
  unfolding filed_rows append_transcript_event upsert_case_runtime create_jury_selection_run
  filed_rows-stage = ground arith

  -- The runtime is in the stage that the court mode asks for.
  pub filed_rows-runtime :
      (filed_rows config now p db).runtime
      ≡ some (record (first_runtime config now p) { current_stage = filing_stage config })
  unfolding filed_rows append_transcript_event upsert_case_runtime create_jury_selection_run
  filed_rows-runtime = ground arith

  pub filed_rows-IsSound : is_judge config.court_mode ≡ false → IsSound (filed_rows config now p db)
  filed_rows-IsSound eleven =
      let stage : filing_stage config ≡ SessionStage.pre_session = ground arith in
      record {
        runtime = first_runtime config now p;
        running =
            filed_rows-runtime
            ∙ ap
                (λ (s : SessionStage).
                  some (record (first_runtime config now p) { current_stage = s }))
                stage;
        same_stage = filed_rows-stage;
        status_fits = ap (fits SessionStage.pre_session) filed_rows-status;
        has_end = refl;
      }
