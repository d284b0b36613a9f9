-- ===== src/Session/Judging/Bound.antt =====
-- The retries of the screening, in `processCase` of sessionEngine.ts.
use open_cawt.Base.{
  ℕ, ◌+◌, ◌<◌, false, Option, none, some, ◌≡◌, ◌⊎◌, inl, inr, refl, arith, if_elim,
}
use open_cawt.Session.Types.{VoidReason, CaseRow, CaseDb, CourtMode, CaseStatus}
use open_cawt.Session.Store.{mark_case_void, append_transcript_event}
use open_cawt.Session.Stage.{void_case}
use open_cawt.Session.Panel.{Env}
use open_cawt.Session.Ticks.{Retry, unavailable, Tick, judge_screening_max_retries}
use open_cawt.Session.Judging.{
  attempts_of, is_waiting_retry, exhausts, screen, screening_failed, has_failed, in_screening,
}

-- One more attempt is on record, or the case is void and its record is gone.
pub record Fails (before : Option Retry) (t : Tick) : Type 0 where
  pub one_more :
      (attempts_of t.retry ≡ attempts_of before + 1)
      ⊎ ((t.retry ≡ none)
          × (t.db.row.status ≡ CaseStatus.void)
          × (t.db.row.void_reason ≡ some VoidReason.judge_screening_failed))
  pub bounded : attempts_of t.retry < judge_screening_max_retries

failed-Fails :
    (now : ℕ) (retry : Option Retry) (db : CaseDb)
    → Fails retry (screening_failed now (attempts_of retry + 1) db)
unfolding void_case mark_case_void append_transcript_event
failed-Fails now retry db =
    if_elim (Fails retry) (exhausts (attempts_of retry + 1))
      (λ _. record { one_more = inr (refl, refl, refl); bounded = omega arith })
      (λ e. record { one_more = inl refl; bounded = ground arith })

-- Where a case in judge mode has not failed its screening and no retry is pending, an answer that
-- fails adds one attempt to the record, which stays below the limit, or makes the case void.
pub in_screening-Fails :
    (env : Env) (now : ℕ) (rec : CaseRow) (retry : Option Retry) (db : CaseDb)
    → rec.court_mode ≡ CourtMode.judge
    → has_failed rec.judge_screening_status ≡ false
    → is_waiting_retry retry now ≡ false
    → Fails retry (in_screening env now rec retry unavailable db)
unfolding in_screening screen
in_screening-Fails env now rec retry db a b c = rw (a, b, c) (failed-Fails now retry db)
