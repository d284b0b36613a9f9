-- ===== src/Messages/Posted.antt =====
-- What a stage message that is taken leaves behind.
use open_cawt.Base.{
  ℕ, ◌≤◌, String, Bool, true, false, not, ◌&&◌, Option, none, some, List, [], ◌∷◌, ◌++◌, find, keep,
  leb, ◌≡◌, ◌∙◌, refl, sym, ap, subst, arith, eq_iff, if◌then◌else◌, Bool-cases, inl, inr,
}
use open_cawt.Base.Errors.{Result, ok, bad_request, require, both_ok, bind_ok, ok-inj, require-true}
use open_cawt.Session.Types.{SessionStage, Side, Phase, Runtime, Submission, CaseRow, CaseDb}
use open_cawt.Session.Store.{append_transcript_event, same_side, same_phase, is_same_stage_iff}
use open_cawt.Ballots.{is_overdue}
use open_cawt.Validation.Principles.{normalise_principle_ids}
use open_cawt.Messages.{
  MessageBody, MessageEnv, is_draft_pre_submission, check_stage, free, or_empty, check_citations,
  knows_claims, is_defence_of, check_side, within_rate, claim_ids, check_message, is_of,
  upsert_submission, submission_of, posted, process_stage_message_action, to_submission_phase,
}

-- Who a side is.
abbrev pub speaks_for : Side → CaseRow → Option String
speaks_for Side.prosecution row = some row.prosecution_agent_id
speaks_for Side.defence row = row.defence_agent_id
speaks_for (Side.other_side name) row = none

-- One of the two sides of a case.
abbrev pub is_litigant : Side → Bool
is_litigant Side.prosecution = true
is_litigant Side.defence = true
is_litigant (Side.other_side name) = false

-- The stage of a message is open.
pub record IsOpen (stage : SessionStage) (now : ℕ) (runtime : Option Runtime) : Type 0 where
  pub current : Runtime
  pub running : runtime ≡ some current
  pub on_stage : current.current_stage ≡ stage
  pub in_time : is_overdue current.stage_deadline_at now ≡ false

not-true : (b : Bool) → not b ≡ true → b ≡ false
not-true true h = cc
not-true false h = refl

check_stage-IsOpen :
    (stage : SessionStage) (now : ℕ) (runtime : Option Runtime)
    → check_stage stage now runtime ≡ ok tt
    → IsOpen stage now runtime
check_stage-IsOpen stage now none h = cc
check_stage-IsOpen stage now (some r) h =
    let (same, late) = both_ok _ _ tt h in
    record {
      current = r;
      running = refl;
      on_stage = (is_same_stage_iff r.current_stage stage).0 (require-true _ _ same);
      in_time = not-true _ (require-true _ _ late);
    }

check_side-speaks :
    (side : Side) (agent_id : String) (row : CaseRow)
    → check_side side agent_id row ≡ ok tt
    → is_litigant side ≡ true
    → speaks_for side row ≡ some agent_id
check_side-speaks (Side.other_side name) agent_id row h k = cc
check_side-speaks Side.prosecution agent_id row h k =
    ap some (sym ((eq_iff agent_id row.prosecution_agent_id).0 (require-true _ _ h)))
check_side-speaks Side.defence agent_id row h k = defends row.defence_agent_id (require-true _ _ h)
  where
    defends : (o : Option String) → is_defence_of agent_id o ≡ true → o ≡ some agent_id
    defends none k = cc
    defends (some id) k = ap some ((eq_iff id agent_id).0 k)

-- What a writer may post, on which stage of the case.
pub record MayPost (env : MessageEnv) (body : MessageBody) (agent_id : String) (now : ℕ)
    (db : CaseDb) : Type 0 where
  pub opened : is_draft_pre_submission body db.row ≡ false → IsOpen body.stage now db.runtime
  pub short : body.text_length ≤ env.max_submission_chars_per_phase
  pub on_claims : knows_claims (claim_ids db) body.claim_principle_citations ≡ true
  pub own_side : is_litigant body.side ≡ true → speaks_for body.side db.row ≡ some agent_id

check_message-MayPost :
    (env : MessageEnv) (body : MessageBody) (agent_id : String) (now : ℕ) (db : CaseDb)
    → check_message env body agent_id now db ≡ ok tt
    → MayPost env body agent_id now db
unfolding check_message
check_message-MayPost env body agent_id now db h =
    let (stage, h1) =
      both_ok
        (if is_draft_pre_submission body db.row
          then ok tt
          else check_stage body.stage now db.runtime)
        _ tt h in
    let (short, h2) =
      both_ok
        (require (leb body.text_length env.max_submission_chars_per_phase)
          (bad_request "SUBMISSION_TOO_LONG"))
        _ tt h1 in
    let (ids, (hi, h3)) =
      bind_ok (normalise_principle_ids env.js free (or_empty body.principle_citations)) _ tt h2 in
    let (cited, h4) = both_ok (check_citations env.js body.claim_principle_citations) _ tt h3 in
    let (known, h5) =
      both_ok
        (require (knows_claims (claim_ids db) body.claim_principle_citations)
          (bad_request "UNKNOWN_CLAIM"))
        _ tt h4 in
    let (side, h6) =
      both_ok (check_side body.side agent_id db.row) (within_rate env agent_id now db.row) tt h5 in
    let within = require-true _ _ short in
    record {
      opened = λ e.
          check_stage-IsOpen body.stage now db.runtime
            (opened_by (is_draft_pre_submission body db.row) _ e stage);
      short = ground arith;
      on_claims = require-true _ _ known;
      own_side = check_side-speaks body.side agent_id db.row side;
    }
  where
    opened_by :
        (b : Bool) (r : Result (Unit {0}))
        → b ≡ false
        → (if b then ok tt else r) ≡ ok tt
        → r ≡ ok tt
    opened_by true r e k = cc
    opened_by false r e k = k

same_side-eq : (a b : Side) → same_side a b ≡ true → a ≡ b
same_side-eq Side.prosecution Side.prosecution h = refl
same_side-eq Side.defence Side.defence h = refl
same_side-eq (Side.other_side a) (Side.other_side b) h = ap Side.other_side ((eq_iff a b).0 h)
same_side-eq a b h = ground arith

same_phase-eq : (a b : Phase) → same_phase a b ≡ true → a ≡ b
same_phase-eq Phase.opening Phase.opening h = refl
same_phase-eq Phase.evidence Phase.evidence h = refl
same_phase-eq Phase.closing Phase.closing h = refl
same_phase-eq Phase.summing_up Phase.summing_up h = refl
same_phase-eq (Phase.other_phase a) (Phase.other_phase b) h =
    ap Phase.other_phase ((is_same_stage_iff a b).0 h)
same_phase-eq a b h = ground arith

same_side_refl : (a : Side) → same_side a a ≡ true
same_side_refl Side.prosecution = refl
same_side_refl Side.defence = refl
same_side_refl (Side.other_side a) = (eq_iff a a).1 refl

same_phase_refl : (a : Phase) → same_phase a a ≡ true
same_phase_refl Phase.opening = refl
same_phase_refl Phase.evidence = refl
same_phase_refl Phase.closing = refl
same_phase_refl Phase.summing_up = refl
same_phase_refl (Phase.other_phase a) = (is_same_stage_iff a a).1 refl

-- A row is of one side and phase alone.
is_of-other :
    (side : Side) (phase : Phase) (s t : Submission)
    → is_of side phase s ≡ false
    → is_of s.side s.phase t ≡ true
    → is_of side phase t ≡ false
is_of-other side phase s t h k =
    let a = same_side-eq t.side s.side (ground arith) in
    let b = same_phase-eq t.phase s.phase (ground arith) in
    ap (λ x. same_side x side && same_phase t.phase phase) a
    ∙ ap (λ x. same_side s.side side && same_phase x phase) b
    ∙ h

module _ {ℓ} {A : Type ℓ} (p q : A → Bool) (s : A) where
  -- A row that is dropped, or added, without `p` does not change what is found by `p`.
  find-keep :
      (l : List A)
      → ((t : A) → q t ≡ true → p t ≡ false)
      → p s ≡ false
      → find p (keep (λ (t : A). not (q t)) l ++ s ∷ []) ≡ find p l
  find-keep [] apart h = ground arith
  find-keep (t ∷ l) apart h = elim (Bool-cases (q t)) [
    | inl e ↦ rw (e, apart t e) (find-keep l apart h)
    | inr e ↦ rw e (ap (λ x. if p t then some t else x) (find-keep l apart h))
  ]

find-snoc_other :
    (side : Side) (phase : Phase) (s : Submission) (l : List Submission)
    → is_of side phase s ≡ false
    → find (is_of side phase) (keep (λ (t : Submission). not (is_of s.side s.phase t)) l ++ s ∷ [])
      ≡ find (is_of side phase) l
find-snoc_other side phase s l h =
    find-keep (is_of side phase) (is_of s.side s.phase) s l (λ t. is_of-other side phase s t h) h

find-own {ℓ} :
    {A : Type ℓ} (p : A → Bool) (s : A) (l : List A)
    → p s ≡ true
    → find p (keep (λ (t : A). not (p t)) l ++ s ∷ []) ≡ some s
find-own p s [] h = rw h refl
find-own p s (t ∷ l) h = ground (arith, find-own p s l h)

is_of-own : (s : Submission) → is_of s.side s.phase s ≡ true
is_of-own s = rw (same_side_refl s.side) (same_phase_refl s.phase)

find-snoc_own :
    (s : Submission) (l : List Submission)
    → find
        (is_of s.side s.phase)
        (keep (λ (t : Submission). not (is_of s.side s.phase t)) l ++ s ∷ [])
      ≡ some s
find-snoc_own s l = find-own (is_of s.side s.phase) s l (is_of-own s)

-- What holds of a message that is taken: who posts it and when, and of the case after it. The
-- submission of its side and phase is the new one, each other is as it was, and there is one more
-- event.
pub record IsPosted (env : MessageEnv) (body : MessageBody) (agent_id : String) (now : ℕ)
    (db db' : CaseDb) : Type 0 where
  pub may_post : MayPost env body agent_id now db
  pub result : db' ≡ posted body db
  pub own :
      find (is_of body.side (to_submission_phase body.stage)) db'.submissions
      ≡ some (submission_of body)
  pub others :
      (side : Side) (phase : Phase)
      → is_of side phase (submission_of body) ≡ false
      → find (is_of side phase) db'.submissions ≡ find (is_of side phase) db.submissions

-- A stage message that is taken is within its length and on claims of the case, in the stage that is
-- current and before its deadline, but for the opening of the prosecution on a draft. Where its side is
-- the prosecution or the defence, it is posted by the agent of that side. It replaces the submission of that side and phase, and no other.
pub message-IsPosted :
    (env : MessageEnv) (body : MessageBody) (agent_id : String) (now : ℕ) (db db' : CaseDb)
    → process_stage_message_action env body agent_id now db ≡ ok db'
    → IsPosted env body agent_id now db db'
unfolding process_stage_message_action posted append_transcript_event upsert_submission
    to_submission_phase
message-IsPosted env body agent_id now db db' h =
    let (checked, h1) =
      both_ok (check_message env body agent_id now db) (ok (posted body db)) db' h in
    subst (IsPosted env body agent_id now db) (ok-inj (posted body db) db' h1) (record {
      may_post = check_message-MayPost env body agent_id now db checked;
      result = refl;
      own = find-snoc_own (submission_of body) db.submissions;
      others = λ side phase e. find-snoc_other side phase (submission_of body) db.submissions e;
    })
