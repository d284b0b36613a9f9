-- ===== src/Defence/Assigned.antt =====
-- What a claim of the defence leaves behind.
use open_cawt.Base.{
  ℕ, ◌+◌, ◌*◌, String, true, false, not, ◌&&◌, Option, none, some, ◌≡◌, refl, sym, subst, arith,
  is_some, if_elim, Bool-cases, inl, inr,
}
use open_cawt.Session.Types.{SessionStage, Runtime, CaseDb}
use open_cawt.Session.Store.{upsert_case_runtime}
use open_cawt.Session.Engine.Moves.{IsSound, ends_at}
use open_cawt.Defence.{
  ClaimStatus, ClaimInput, refusal, assign, assigned, schedule, schedule_runtime, unless_refused,
  claim_defence_assignment, is_pre_session, is_waiting_for_session,
}
use open_cawt.Defence.Claimable.{
  is_assigned, lets, taken-refused, refusal-none, lets-refusal, assigned-MayDefend,
}

-- The defence is taken by the agent.
IsTakenBy : String → CaseDb → Type 0
IsTakenBy id db = db.row.defence_agent_id ≡ some id

schedule-row :
    (o : Option Runtime) (at : ℕ) (id : String) (db : CaseDb)
    → IsTakenBy id db
    → IsTakenBy id (schedule_runtime o at db)
unfolding upsert_case_runtime IsTakenBy
schedule-row none at id db e = e
schedule-row (some r) at id db e =
    if_elim (IsTakenBy id) (is_pre_session r.current_stage) (λ _. e) (λ _. e)

assign-IsTakenBy :
    (input : ClaimInput) (db : CaseDb)
    → db.row.defence_agent_id ≡ none
    → IsTakenBy input.agent_id (assign input db).0
unfolding schedule IsTakenBy upsert_case_runtime
assign-IsTakenBy input db e = simp e (
    if_elim (IsTakenBy input.agent_id)
      (not (is_some db.row.scheduled_for) && is_waiting_for_session db.row.status)
      (λ _.
        schedule-row db.runtime (input.now + input.schedule_delay_sec * 1000) input.agent_id _ refl)
      (λ _. refl))

-- A claim on a defence that is taken.
record IsLost (db : CaseDb) (r : CaseDb × ClaimStatus) : Type 0 where
  pub unchanged : r.0 ≡ db
  pub refused : is_assigned r.1 ≡ false

taken-IsLost :
    (o : Option ClaimStatus) (later : ClaimInput) (id : String) (db : CaseDb)
    → (lets o ≡ true → o ≡ none)
    → IsTakenBy id db
    → IsLost db (unless_refused o later db)
unfolding schedule IsTakenBy
taken-IsLost none later id db n e = record {
  unchanged = simp e;
  refused = taken-refused later db id e;
}
taken-IsLost (some status) later id db n e = elim (Bool-cases (is_assigned status)) [
  | inl h ↦ cc (n h)
  | inr h ↦ record { unchanged = refl; refused = h }
]

claim-IsTakenBy :
    (input : ClaimInput) (db : CaseDb)
    → is_assigned (claim_defence_assignment input db).1 ≡ true
    → IsTakenBy input.agent_id (claim_defence_assignment input db).0
unfolding claim_defence_assignment
claim-IsTakenBy input db h =
    subst (λ o. IsTakenBy input.agent_id (unless_refused o input db).0)
      (sym (refusal-none input db h))
      (assign-IsTakenBy input db (assigned-MayDefend input db h).free)

-- The first agent to get the defence keeps it: the case has that agent, and any later claim, by
-- anyone at any time, is refused and changes nothing.
pub first-claim_wins :
    (input later : ClaimInput) (db : CaseDb)
    → is_assigned (claim_defence_assignment input db).1 ≡ true
    → ((claim_defence_assignment input db).0.row.defence_agent_id ≡ some input.agent_id)
      × (((claim_defence_assignment later (claim_defence_assignment input db).0).0
            ≡ (claim_defence_assignment input db).0)
          × (is_assigned (claim_defence_assignment later (claim_defence_assignment input db).0).1
              ≡ false))
unfolding IsTakenBy claim_defence_assignment
first-claim_wins input later db h =
    let db' = (claim_defence_assignment input db).0 in
    let taken = claim-IsTakenBy input db h in
    let lost =
      taken-IsLost (refusal later db') later input.agent_id db' (lets-refusal later db') taken in
    (taken, (lost.unchanged, lost.refused))

-- A sound case, in the stage `s`.
abbrev IsIn : SessionStage → CaseDb → Type 0
IsIn s db = (v : IsSound db) × (v.runtime.current_stage ≡ s)

pre_session-has_end :
    (s : SessionStage) (r : Runtime) → is_pre_session s ≡ true → is_some (ends_at s r) ≡ true
pre_session-has_end SessionStage.pre_session r h = refl
pre_session-has_end s r h = ground arith

schedule-IsIn :
    (input : ClaimInput) (db : CaseDb) (v : IsSound db)
    → IsIn v.runtime.current_stage (schedule input db)
unfolding schedule upsert_case_runtime
schedule-IsIn input db v = simp v.running (
    if_elim (IsIn v.runtime.current_stage) (is_pre_session v.runtime.current_stage)
      (λ h. (
        record {
          runtime = _;
          running = refl;
          same_stage = v.same_stage;
          status_fits = v.status_fits;
          has_end = pre_session-has_end v.runtime.current_stage _ h;
        },
        refl,
      ))
      (λ _. (
        record {
          runtime = v.runtime;
          running = refl;
          same_stage = v.same_stage;
          status_fits = v.status_fits;
          has_end = v.has_end;
        },
        refl,
      )))

abbrev assigned-IsSound :
    (input : ClaimInput) (db : CaseDb) → IsSound db → IsSound (assigned input db)
assigned-IsSound input db v = record {
  runtime = v.runtime;
  running = v.running;
  same_stage = v.same_stage;
  status_fits = v.status_fits;
  has_end = v.has_end;
}

assign-IsIn :
    (input : ClaimInput) (db : CaseDb) (v : IsSound db)
    → IsIn v.runtime.current_stage (assign input db).0
unfolding schedule
assign-IsIn input db v =
    if_elim (λ (r : CaseDb × ClaimStatus). IsIn v.runtime.current_stage r.0)
      (is_some db.row.defence_agent_id) (λ _. (v, refl))
      (λ _.
        if_elim (IsIn v.runtime.current_stage)
          (not (is_some db.row.scheduled_for) && is_waiting_for_session db.row.status)
          (λ _. schedule-IsIn input (assigned input db) (assigned-IsSound input db v))
          (λ _. (assigned-IsSound input db v, refl)))

let-IsIn :
    (o : Option ClaimStatus) (input : ClaimInput) (db : CaseDb) (v : IsSound db)
    → IsIn v.runtime.current_stage (unless_refused o input db).0
unfolding schedule
let-IsIn none input db v = assign-IsIn input db v
let-IsIn (some status) input db v = (v, refl)

-- A claim, whether it gets the defence or not, leaves the rows of a case in agreement and the
-- session in its stage.
pub claim-IsSound :
    (input : ClaimInput) (db : CaseDb) (v : IsSound db)
    → (v' : IsSound (claim_defence_assignment input db).0) × (v'.runtime.current_stage
        ≡ v.runtime.current_stage)
unfolding claim_defence_assignment
claim-IsSound input db v = let-IsIn (refusal input db) input db v
