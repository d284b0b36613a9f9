-- ===== src/Close/Decides.antt =====
-- The close of a case that has voted ends it as the verdict says.
use open_cawt.Base.{
  ℕ, String, Bool, true, false, not, ◌||◌, ◌&&◌, if◌then◌else◌, arith, Option, none, some, ◌≡◌, ◌∙◌,
  refl, sym, ap, subst, str_eq, is_some, Option-cases, inl, inr,
}
use open_cawt.Base.Errors.{Result, ok, err, conflict}
use open_cawt.Verdict.Compute.{CaseOutcome, Verdict, compute_deterministic_verdict}
use open_cawt.Verdict.Compute.Rulings.{verdict-inconclusive}
use open_cawt.Session.Types.{CaseStatus, SessionStage, CaseDb}
use open_cawt.Session.Store.{append_transcript_event, upsert_case_runtime, mark_case_void}
use open_cawt.Session.Engine.Moves.{IsSound, fits}
use open_cawt.Seal.Types.{Docket}
use open_cawt.Seal.Jobs.{CreatedJob, set_case_seal_state, update_case_runtime_stage}
use open_cawt.Seal.Worker.{text_or}
use open_cawt.Close.Vote.{CloseEnv, case_verdict, verdict_input, rulings_for}
use open_cawt.Close.Pipeline.{
  Closed, outcome_of, store_verdict, set_case_seal_hashes, seal_or_skip, close_result, seal_hashed,
  close_decided, with_seal_hashes, verdict_noted, close_void, close_with, close_case_pipeline,
  with_remedy, set_case_remedy_recommendation, is_voting, in_voting_stage,
}
use open_cawt.Close.Sealing.{Keeps, seal_or_skip-keeps}

-- The stages in which a case ends: it is void without an outcome, and closed, or already sealed,
-- with one.
abbrev pub ends : Option CaseOutcome → SessionStage → Bool
ends none SessionStage.void = true
ends (some o) SessionStage.closed = true
ends (some o) SessionStage.sealed = true
ends _ _ = false

pub record IsDecided (o : Option CaseOutcome) (db : CaseDb) : Type 0 where
  pub sound : IsSound db
  pub outcome : db.row.outcome ≡ some (outcome_of o)
  pub ended : ends o sound.runtime.current_stage ≡ true

IsDecided-Keeps : (o : CaseOutcome) → Keeps (IsDecided (some o))
unfolding set_case_seal_state append_transcript_event update_case_runtime_stage upsert_case_runtime
IsDecided-Keeps o = record {
  state = λ s e db p. record {
    sound = record {
      runtime = p.sound.runtime;
      running = p.sound.running;
      same_stage = p.sound.same_stage;
      status_fits = p.sound.status_fits;
      has_end = p.sound.has_end;
    };
    outcome = p.outcome;
    ended = p.ended;
  };
  event = λ r t s db p. record {
    sound = record {
      runtime = p.sound.runtime;
      running = p.sound.running;
      same_stage = p.sound.same_stage;
      status_fits = p.sound.status_fits;
      has_end = p.sound.has_end;
    };
    outcome = p.outcome;
    ended = p.ended;
  };
  seal = λ m at db p. record {
    sound = record {
      runtime = _;
      running = refl;
      same_stage = refl;
      status_fits = refl;
      has_end = refl;
    };
    outcome = p.outcome;
    ended = refl;
  };
}

-- What the close of a case comes to: the hash of the verdict, and a case that ended with it.
pub record Closes (v : Verdict) (r : Docket × Result Closed) : Type 0 where
  pub closed : Closed
  pub answers : r.1 ≡ ok closed
  pub same_hash : closed.verdict_hash ≡ v.verdict_hash
  pub decided : IsDecided v.overall_outcome r.0.db

void-Closes :
    (close_time : ℕ) (v : Verdict) (d : Docket)
    → v.overall_outcome ≡ none
    → Closes v (close_void close_time v d)
unfolding close_void mark_case_void append_transcript_event upsert_case_runtime
void-Closes close_time v d e = record {
  closed = _;
  answers = refl;
  same_hash = refl;
  decided =
      subst (λ o. IsDecided o (close_void close_time v d).0.db) (sym e)
        (record {
          sound = record {
            runtime = _;
            running = refl;
            same_stage = refl;
            status_fits = refl;
            has_end = refl;
          };
          outcome = refl;
          ended = refl;
        });
}

result-Closes :
    (v : Verdict) (o : CaseOutcome) (r : Docket × Option CreatedJob)
    → v.overall_outcome ≡ some o
    → IsDecided (some o) r.0.db
    → Closes v (close_result v.verdict_hash r)
result-Closes v o (d, job) e p = record {
  closed = _;
  answers = refl;
  same_hash = refl;
  decided = subst (λ o. IsDecided o d.db) (sym e) p;
}

stored-IsDecided :
    (env : CloseEnv) (now : ℕ) (v : Verdict) (o : CaseOutcome) (d : Docket)
    → v.bundle.outcome ≡ some o
    → IsDecided (some o) (with_seal_hashes env (verdict_noted v now d)).db
unfolding store_verdict append_transcript_event set_case_seal_hashes update_case_runtime_stage
    upsert_case_runtime
stored-IsDecided env now v o d e = record {
  sound = record {
    runtime = _;
    running = refl;
    same_stage = refl;
    status_fits = refl;
    has_end = refl;
  };
  outcome = ap (λ x. some (outcome_of x)) e;
  ended = refl;
}

present : (s : String) → str_eq s "" ≡ false → text_or (some s) "CASE_VERDICT_HASH_MISSING" ≡ ok s
present s h = simp h

decided-Closes :
    (env : CloseEnv) (new_id : String) (now : ℕ) (v : Verdict) (o : CaseOutcome) (d : Docket)
    → v.overall_outcome ≡ some o
    → v.bundle.outcome ≡ v.overall_outcome
    → str_eq v.verdict_hash "" ≡ false
    → Closes v (close_decided env new_id now v d)
unfolding close_decided store_verdict append_transcript_event set_case_seal_hashes
    update_case_runtime_stage upsert_case_runtime seal_or_skip
decided-Closes env new_id now v o d e f h =
    let ready = with_seal_hashes env (verdict_noted v now d) in
    subst (λ r. Closes v (seal_hashed env new_id now v.verdict_hash (verdict_noted v now d) r))
      (sym (present v.verdict_hash h))
      (result-Closes v o (seal_or_skip env new_id now ready) e (
        seal_or_skip-keeps (IsDecided (some o)) (IsDecided-Keeps o) env new_id now ready
          (stored-IsDecided env now v o d (f ∙ e))))

left_open :
    (b : Bool) (o : Option CaseOutcome)
    → b ≡ not (is_some o)
    → o ≡ none
    → (b || not (is_some o)) ≡ true
left_open b o i e = rw (i, e) refl

settled :
    (b : Bool) (o : Option CaseOutcome) (x : CaseOutcome)
    → b ≡ not (is_some o)
    → o ≡ some x
    → (b || not (is_some o)) ≡ false
settled b o x i e = rw (i, e) refl

votes_in : (s : CaseStatus) → fits SessionStage.voting s ≡ true → is_voting s ≡ true
votes_in CaseStatus.voting h = refl
votes_in s h = ground arith

votes :
    (db : CaseDb) (v : IsSound db)
    → v.runtime.current_stage ≡ SessionStage.voting
    → (is_voting db.row.status && in_voting_stage db.runtime) ≡ true
votes db v at = simp (
  v.running,
  at,
  votes_in db.row.status (subst (λ s. fits s db.row.status ≡ true) at v.status_fits),
)

case_verdict-inconclusive :
    (env : CloseEnv) (close_time : ℕ) (db : CaseDb)
    → (case_verdict env close_time db).inconclusive
      ≡ not (is_some (case_verdict env close_time db).overall_outcome)
unfolding case_verdict
case_verdict-inconclusive env close_time db =
    verdict-inconclusive env.bundle_hash (verdict_input env close_time (rulings_for env db) db)

case_verdict-outcome :
    (env : CloseEnv) (close_time : ℕ) (db : CaseDb)
    → (case_verdict env close_time db).bundle.outcome
      ≡ (case_verdict env close_time db).overall_outcome
unfolding case_verdict compute_deterministic_verdict
case_verdict-outcome env close_time db = refl

conclude :
    (env : CloseEnv) (new_id : String) (close_time now : ℕ) (v : Verdict) (d : Docket)
    → v.inconclusive ≡ not (is_some v.overall_outcome)
    → v.bundle.outcome ≡ v.overall_outcome
    → str_eq v.verdict_hash "" ≡ false
    → Closes v (close_with env new_id close_time now v d)
unfolding close_decided close_void set_case_remedy_recommendation
conclude env new_id close_time now v d i f h =
    let d' = record d { db = with_remedy env v.overall_outcome d.db } in
    let branch =
      λ (b : Bool). if b then close_void close_time v d' else close_decided env new_id now v d' in
    elim (Option-cases v.overall_outcome) [
      | inl e ↦
          subst (λ b. Closes v (branch b)) (sym (left_open v.inconclusive v.overall_outcome i e))
            (void-Closes close_time v d' e)
      | inr (o, e) ↦
          subst (λ b. Closes v (branch b)) (sym (settled v.inconclusive v.overall_outcome o i e))
            (decided-Closes env new_id now v o d' e f h)
    ]

-- The close of a case that has voted, sound and in the stage of the vote, ends it as the verdict
-- says: without an outcome it is void, and with one it is closed, or sealed where the worker has
-- answered at once, with that outcome on the case; the rows agree, and the answer has the hash of
-- the verdict. A hash is not the empty text.
pub close-Closes :
    (env : CloseEnv) (new_id : String) (close_time now : ℕ) (d : Docket) (v : IsSound d.db)
    → v.runtime.current_stage ≡ SessionStage.voting
    → str_eq (case_verdict env close_time d.db).verdict_hash "" ≡ false
    → Closes
        (case_verdict env close_time d.db)
        (close_case_pipeline env false new_id close_time now d)
unfolding close_case_pipeline close_decided close_void set_case_remedy_recommendation
close-Closes env new_id close_time now d v at h =
    subst
      (λ b. Closes (case_verdict env close_time d.db) (
        if not b
        then (d, err (conflict "CASE_NOT_VOTING"))
        else close_with env new_id close_time now (case_verdict env close_time d.db) d))
      (sym (votes d.db v at))
      (conclude env new_id close_time now (case_verdict env close_time d.db) d
        (case_verdict-inconclusive env close_time d.db) (case_verdict-outcome env close_time d.db)
        h)
