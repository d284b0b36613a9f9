-- ===== src/Session/Engine/Filings.antt =====
-- The filings and the deadlines through a whole step of `processCase`.
use open_cawt.Base.{
  String, ℕ, Bool, true, false, Option, some, ◌≡◌, ◌≢◌, ◌↔◌, inl, inr, refl, sym, ap, ◌∙◌, subst,
  Bool-cases,
}
use open_cawt.Session.Types.{SessionStage, CaseRow, Runtime, CaseDb, Phase}
use open_cawt.Session.Panel.{Env}
use open_cawt.Session.Stage.{stage_to_phase, next_submission_stage}
use open_cawt.Session.Engine.{
  in_stage, process_case, with_runtime, is_void_status, submission_or_nothing, in_submission,
  both_filed,
}
use open_cawt.Session.Ticks.{Tick, Retry, Screening, due}
use open_cawt.Session.Engine.Moves.{ends_at}
use open_cawt.Session.Engine.Deadlines.{
  stage_of, stage_in, is_timed, Ends, leaves, true-ne-false, in_readiness-Ends, in_voting-Ends,
  submission-filed, submission-missing, submission-waits, follows,
}

module _ (env : Env) (now : ℕ) (rec : CaseRow) (retry : Option Retry) (answer : Screening) where
  process_case-in_stage :
      (db : CaseDb) (runtime : Runtime)
      → db.runtime ≡ some runtime
      → is_void_status rec.status ≡ false
      → process_case env now rec retry answer db
        ≡ in_stage env now rec retry answer runtime runtime.current_stage db
  unfolding process_case
  process_case-in_stage db runtime h k =
      ap (λ o. with_runtime env now rec retry answer o db) h ∙ rw k refl

  in_stage-filing :
      (runtime : Runtime) (stage : SessionStage) (phase : Phase) (db : CaseDb)
      → stage_to_phase stage ≡ some phase
      → in_stage env now rec retry answer runtime stage db
        ≡ in_submission env now rec runtime phase db
  unfolding in_stage stage_to_phase
  in_stage-filing runtime SessionStage.opening_addresses phase db h =
      ap (λ p. submission_or_nothing env now rec runtime p db) h
  in_stage-filing runtime SessionStage.evidence phase db h =
      ap (λ p. submission_or_nothing env now rec runtime p db) h
  in_stage-filing runtime SessionStage.closing_addresses phase db h =
      ap (λ p. submission_or_nothing env now rec runtime p db) h
  in_stage-filing runtime SessionStage.summing_up phase db h =
      ap (λ p. submission_or_nothing env now rec runtime p db) h
  in_stage-filing runtime _ phase db h = cc

clash : {a b : SessionStage} {x : Option SessionStage} → x ≡ some a → a ≢ b → x ≢ some b
clash p q = leaves p (λ e. q (sym e))

-- The two ways out of a stage `s`, told apart by where the case is found.
ways_out :
    {s t v : SessionStage} {x n : Option SessionStage} (filed late : Bool)
    → n ≡ some t
    → s ≢ t
    → s ≢ v
    → t ≢ v
    → (filed ≡ true → x ≡ some t)
    → (filed ≡ false → late ≡ true → x ≡ some v)
    → (filed ≡ false → late ≡ false → x ≡ some s)
    → ((x ≡ n) ↔ (filed ≡ true)) × ((x ≡ some v) ↔ ((filed ≡ false) × (late ≡ true)))
ways_out true late n a b c f m w = (
  (λ _. refl, λ _. f refl ∙ sym n),
  (λ e. absurd (clash (f refl) c e), λ p. absurd (true-ne-false p.0)),
)
ways_out false true n a b c f m w = (
  (λ e. absurd (clash (e ∙ n) c (m refl refl)), λ e. absurd (true-ne-false (sym e))),
  (λ _. (refl, refl), λ _. m refl refl),
)
ways_out false false n a b c f m w = (
  (λ e. absurd (clash (w refl refl) a (e ∙ n)), λ e. absurd (true-ne-false (sym e))),
  (λ e. absurd (clash (w refl refl) b e), λ p. absurd (true-ne-false (sym p.1))),
)

module _ (env : Env) (now : ℕ) (rec : CaseRow) (retry : Option Retry) (answer : Screening) where
  process_case-filing :
      (db : CaseDb) (runtime : Runtime) (phase : Phase)
      → db.runtime ≡ some runtime
      → is_void_status rec.status ≡ false
      → stage_to_phase runtime.current_stage ≡ some phase
      → process_case env now rec retry answer db ≡ in_submission env now rec runtime phase db
  process_case-filing db runtime phase running alive h =
      process_case-in_stage env now rec retry answer db runtime running alive
      ∙ in_stage-filing env now rec retry answer runtime _ phase db h

  -- In a stage in which both sides file, where the listed record is not void, a step takes the case to
  -- the stage that follows exactly when both sides have filed, be the deadline over or not, and to the
  -- void stage exactly when a side has not and the deadline is over.
  pub process_case-filings_iff :
      (db : CaseDb) (runtime : Runtime) (phase : Phase)
      → db.runtime ≡ some runtime
      → is_void_status rec.status ≡ false
      → stage_to_phase runtime.current_stage ≡ some phase
      → ((stage_in (process_case env now rec retry answer db).db
            ≡ next_submission_stage runtime.current_stage)
          ↔ (both_filed phase db ≡ true))
        × ((stage_in (process_case env now rec retry answer db).db ≡ some SessionStage.void)
            ↔ ((both_filed phase db ≡ false) × (due runtime.stage_deadline_at now ≡ true)))
  process_case-filings_iff db runtime phase running alive h =
      let (t, f) = follows runtime.current_stage phase h in
      let step =
        ap (λ (tick : Tick). stage_in tick.db)
          (process_case-filing db runtime phase running alive h) in
      ways_out (both_filed phase db) (due runtime.stage_deadline_at now) f.is_next f.here_not_next
        f.here_not_void f.next_not_void
        (λ e. step ∙ submission-filed env now rec runtime _ t phase db refl f.is_next e)
        (λ e d. step ∙ submission-missing env now rec runtime phase db e d)
        (λ e d.
          step
          ∙ ap stage_in (submission-waits env now rec runtime phase db e d)
          ∙ ap stage_of running)

  in_submission-Ends :
      (runtime : Runtime) (stage : SessionStage) (phase : Phase) (db : CaseDb)
      → runtime.current_stage ≡ stage
      → stage_to_phase stage ≡ some phase
      → due runtime.stage_deadline_at now ≡ true
      → Ends stage (in_submission env now rec runtime phase db)
  in_submission-Ends runtime stage phase db at h d =
      let (t, f) = follows stage phase h in
      inl (elim (Bool-cases (both_filed phase db)) [
        | inl e ↦
            leaves (submission-filed env now rec runtime stage t phase db at f.is_next e)
              f.here_not_next
        | inr e ↦ leaves (submission-missing env now rec runtime phase db e d) f.here_not_void
      ])

  in_stage-Ends :
      (runtime : Runtime) (stage : SessionStage) (db : CaseDb)
      → ((id : String) → env.beacon_fails id ≡ false)
      → runtime.current_stage ≡ stage
      → is_timed stage ≡ true
      → due (ends_at stage runtime) now ≡ true
      → Ends stage (in_stage env now rec retry answer runtime stage db)
  unfolding in_stage stage_to_phase
  in_stage-Ends runtime SessionStage.jury_readiness db up at h d =
      in_readiness-Ends env now rec runtime db up d
  in_stage-Ends runtime SessionStage.voting db up at h d = in_voting-Ends env now rec runtime db d
  in_stage-Ends runtime SessionStage.opening_addresses db up at h d =
      in_submission-Ends runtime _ Phase.opening db at refl d
  in_stage-Ends runtime SessionStage.evidence db up at h d =
      in_submission-Ends runtime _ Phase.evidence db at refl d
  in_stage-Ends runtime SessionStage.closing_addresses db up at h d =
      in_submission-Ends runtime _ Phase.closing db at refl d
  in_stage-Ends runtime SessionStage.summing_up db up at h d =
      in_submission-Ends runtime _ Phase.summing_up db at refl d
  in_stage-Ends runtime _ db up at h d = cc

  -- Where the listed record is not void and no call of the beacon throws, a step at or after the
  -- deadline of a stage that has one takes the case out of the stage, or asks for it to be closed.
  pub process_case-Ends :
      (db : CaseDb) (runtime : Runtime)
      → ((id : String) → env.beacon_fails id ≡ false)
      → db.runtime ≡ some runtime
      → is_void_status rec.status ≡ false
      → is_timed runtime.current_stage ≡ true
      → due (ends_at runtime.current_stage runtime) now ≡ true
      → Ends runtime.current_stage (process_case env now rec retry answer db)
  process_case-Ends db runtime up running alive h d =
      subst (Ends runtime.current_stage)
        (sym (process_case-in_stage env now rec retry answer db runtime running alive))
        (in_stage-Ends runtime _ db up refl h d)
