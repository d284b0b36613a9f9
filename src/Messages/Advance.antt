-- ===== src/Messages/Advance.antt =====
-- From the messages of both sides to the stage that follows: the route and the engine together.
use open_cawt.Base.{
  sym, eq_iff, ℕ, String, Bool, true, false, ◌&&◌, Option, some, List, [], ◌∷◌, find, any, ◌≡◌, ◌∙◌,
  refl, ap, subst, arith,
}
use open_cawt.Base.Errors.{ok}
use open_cawt.Session.Types.{SessionStage, Side, Phase, Submission, CaseRow, CaseDb}
use open_cawt.Session.Store.{append_transcript_event, same_side, same_phase, submitted}
use open_cawt.Session.Panel.{Env}
use open_cawt.Session.Ticks.{Retry, Screening}
use open_cawt.Session.Stage.{stage_to_phase, next_submission_stage}
use open_cawt.Session.Engine.{process_case, is_void_status, both_filed}
use open_cawt.Session.Engine.Deadlines.{stage_in}
use open_cawt.Session.Engine.Filings.{process_case-filings_iff}
use open_cawt.Filing.{is_draft}
use open_cawt.Messages.{
  MessageBody, MessageEnv, to_submission_phase, is_of, submission_of, posted, upsert_submission,
  process_stage_message_action,
}
use open_cawt.Messages.Posted.{is_litigant, message-IsPosted}

any_of_find {ℓ} :
    {A : Type ℓ} (p : A → Bool) (l : List A) (x : A) → find p l ≡ some x → any p l ≡ true
any_of_find p [] x h = cc
any_of_find p (y ∷ l) x h = ground (arith, any_of_find p l x)

both :
    (a b : Side) (phase : Phase) (db : CaseDb)
    → is_litigant a ≡ true
    → is_litigant b ≡ true
    → same_side a b ≡ false
    → submitted db a phase ≡ true
    → submitted db b phase ≡ true
    → both_filed phase db ≡ true
both Side.prosecution Side.defence phase db p q d h k = ground arith
both Side.defence Side.prosecution phase db p q d h k = ground arith
both a b phase db p q d h k = cc

phase_of_stage :
    (s : SessionStage) (phase : Phase)
    → stage_to_phase s ≡ some phase
    → some (to_submission_phase s) ≡ some phase
unfolding stage_to_phase to_submission_phase
phase_of_stage SessionStage.opening_addresses phase h = h
phase_of_stage SessionStage.evidence phase h = h
phase_of_stage SessionStage.closing_addresses phase h = h
phase_of_stage SessionStage.summing_up phase h = h
phase_of_stage s phase h = cc

-- A message leaves the runtime and the status alone.
posted-runtime : (body : MessageBody) (db : CaseDb) → (posted body db).runtime ≡ db.runtime
unfolding posted append_transcript_event upsert_submission
posted-runtime body db = refl

posted-status : (body : MessageBody) (db : CaseDb) → (posted body db).row.status ≡ db.row.status
unfolding posted append_transcript_event upsert_submission
posted-status body db = refl

not_of_side :
    (a : Side) (phase : Phase) (s : Submission)
    → same_side a s.side ≡ false
    → is_of a phase s ≡ false
not_of_side a phase s h = flip a s.side h
  where
    flip :
        (a b : Side) → same_side a b ≡ false → (same_side b a && same_phase s.phase phase) ≡ false
    flip (Side.other_side x) (Side.other_side y) k = ground (arith, eq_iff x y, eq_iff y x)
    flip a b k = ground arith

-- After a message of the prosecution and one of the defence have been taken, in one writing stage of a
-- case that is filed, the next step of the engine takes the case to the stage that follows, be the
-- deadline over or not.
pub messages-advance :
    (env env' : MessageEnv) (first second : MessageBody) (agent other_agent : String) (at later : ℕ)
    (db db1 db2 : CaseDb) (engine : Env) (now : ℕ) (rec : CaseRow) (retry : Option Retry)
    (answer : Screening) (phase : Phase)
    → process_stage_message_action env first agent at db ≡ ok db1
    → process_stage_message_action env' second other_agent later db1 ≡ ok db2
    → is_litigant first.side ≡ true
    → is_litigant second.side ≡ true
    → same_side first.side second.side ≡ false
    → stage_to_phase second.stage ≡ some phase
    → first.stage ≡ second.stage
    → is_draft db.row.status ≡ false
    → is_void_status rec.status ≡ false
    → stage_in (process_case engine now rec retry answer db2).db
      ≡ next_submission_stage second.stage
unfolding submission_of
messages-advance env env' first second agent other_agent at later db db1 db2 engine now rec retry
      answer writing h k side_a side_b apart is_writing same filed alive =
    let p = message-IsPosted env first agent at db db1 h in
    let q = message-IsPosted env' second other_agent later db1 db2 k in
    let phase = to_submission_phase second.stage in
    let status : is_draft db1.row.status ≡ false =
      ap (λ (d : CaseDb). is_draft d.row.status) p.result
      ∙ ap is_draft (posted-status first db)
      ∙ filed in
    let opened = q.may_post.opened (ground arith) in
    let running : db2.runtime ≡ some opened.current =
      ap (λ (d : CaseDb). d.runtime) q.result ∙ posted-runtime second db1 ∙ opened.running in
    let first_there : find (is_of first.side phase) db1.submissions ≡ some (submission_of first) =
      subst
        (λ (m : SessionStage).
          find (is_of first.side (to_submission_phase m)) db1.submissions
          ≡ some (submission_of first))
        same p.own in
    let first_stays : find (is_of first.side phase) db2.submissions ≡ some (submission_of first) =
      q.others first.side phase (not_of_side first.side phase (submission_of second) apart)
      ∙ first_there in
    let filed_both : both_filed phase db2 ≡ true =
      both first.side second.side phase db2 side_a side_b apart
        (any_of_find (is_of first.side phase) db2.submissions (submission_of first) first_stays)
        (any_of_find (is_of second.side phase) db2.submissions (submission_of second) q.own) in
    let at_phase : stage_to_phase opened.current.current_stage ≡ some phase =
      ap stage_to_phase opened.on_stage
      ∙ is_writing
      ∙ sym (phase_of_stage second.stage writing is_writing) in
    (process_case-filings_iff engine now rec retry answer db2 opened.current phase running alive
        at_phase).0.1
      filed_both
    ∙ ap next_submission_stage opened.on_stage
