-- ===== src/Session/Engine/Moves.antt =====
-- The moves of a session between stages, and what holds of a case between two steps.
use open_cawt.Base.{ℕ, Bool, true, false, Option, none, some, ◌≡◌, ◌≢◌, refl, subst, ◌∙◌, is_some}
use open_cawt.Session.Types.{CaseStatus, SessionStage, VoidReason, CaseRow, Runtime, CaseDb}
use open_cawt.Session.Store.{append_transcript_event}
use open_cawt.Session.Panel.{Env}
use open_cawt.Session.Stage.{next_submission_stage, set_stage, void_case}

-- The moves of a session.
pub data Moves : SessionStage → SessionStage → Type 0 where
  stay : {s : SessionStage} → Moves s s
  admit : Moves SessionStage.judge_screening SessionStage.pre_session
  begin : Moves SessionStage.pre_session SessionStage.jury_readiness
  open_case : Moves SessionStage.jury_readiness SessionStage.opening_addresses
  next : {s t : SessionStage} → next_submission_stage s ≡ some t → Moves s t
  abandon :
      {s : SessionStage}
      → s ≢ SessionStage.void
      → s ≢ SessionStage.closed
      → s ≢ SessionStage.sealed
      → Moves s SessionStage.void

-- The statuses that a case can have in a stage.
abbrev pub fits : SessionStage → CaseStatus → Bool
fits SessionStage.judge_screening CaseStatus.filed = true
fits SessionStage.judge_screening CaseStatus.jury_selected = true
fits SessionStage.pre_session CaseStatus.filed = true
fits SessionStage.pre_session CaseStatus.jury_selected = true
fits SessionStage.jury_readiness CaseStatus.jury_selected = true
fits SessionStage.opening_addresses CaseStatus.jury_selected = true
fits SessionStage.evidence CaseStatus.jury_selected = true
fits SessionStage.closing_addresses CaseStatus.jury_selected = true
fits SessionStage.summing_up CaseStatus.jury_selected = true
fits SessionStage.voting CaseStatus.voting = true
fits SessionStage.closed CaseStatus.closed = true
fits SessionStage.sealed CaseStatus.sealed = true
fits SessionStage.void CaseStatus.void = true
fits _ _ = false

-- The deadline that ends a stage.
abbrev pub ends_at : SessionStage → Runtime → Option ℕ
ends_at SessionStage.jury_readiness r = r.stage_deadline_at
ends_at SessionStage.opening_addresses r = r.stage_deadline_at
ends_at SessionStage.evidence r = r.stage_deadline_at
ends_at SessionStage.closing_addresses r = r.stage_deadline_at
ends_at SessionStage.summing_up r = r.stage_deadline_at
ends_at SessionStage.voting r = r.voting_hard_deadline_at
ends_at _ r = some 0

-- The stage of the case row is that of the runtime row, the status fits it, and a stage that must
-- end has its deadline.
pub record IsSound (db : CaseDb) : Type 0 where
  pub runtime : Runtime
  pub running : db.runtime ≡ some runtime
  pub same_stage : db.row.session_stage ≡ runtime.current_stage
  pub status_fits : fits runtime.current_stage db.row.status ≡ true
  pub has_end : is_some (ends_at runtime.current_stage runtime) ≡ true

-- What a handler does to a case in stage `s`.
pub record Goes (s : SessionStage) (db : CaseDb) : Type 0 where
  pub sound : IsSound db
  pub moved : Moves s sound.runtime.current_stage

pub stays : {db : CaseDb} (v : IsSound db) → Goes v.runtime.current_stage db
stays v = record { sound = v; moved = stay }

pub void_case-Goes :
    (s : SessionStage) (reason : VoidReason) (now : ℕ) (db : CaseDb)
    → s ≢ SessionStage.void
    → s ≢ SessionStage.closed
    → s ≢ SessionStage.sealed
    → Goes s (void_case reason now db)
unfolding void_case append_transcript_event
void_case-Goes s reason now db a b c = record {
  sound = record {
    runtime = _;
    running = refl;
    same_stage = refl;
    status_fits = refl;
    has_end = refl;
  };
  moved = abandon a b c;
}

-- Two states that agree on the stage and the status.
abbrev pub Agree : CaseDb → CaseDb → Type 0
Agree db db' =
    (db'.runtime ≡ db.runtime)
    × (db'.row.session_stage ≡ db.row.session_stage)
    × (db'.row.status ≡ db.row.status)

pub Goes-same : {s : SessionStage} {db db' : CaseDb} → Agree db db' → Goes s db → Goes s db'
Goes-same (a, b, c) g = record {
  sound = record {
    runtime = g.sound.runtime;
    running = a ∙ g.sound.running;
    same_stage = b ∙ g.sound.same_stage;
    status_fits = rw c g.sound.status_fits;
    has_end = g.sound.has_end;
  };
  moved = g.moved;
}

-- A stage entered with the deadline that it needs.
abbrev pub enters : SessionStage → Option ℕ → Bool
enters SessionStage.pre_session d = true
enters SessionStage.jury_readiness d = is_some d
enters SessionStage.opening_addresses d = is_some d
enters SessionStage.evidence d = is_some d
enters SessionStage.closing_addresses d = is_some d
enters SessionStage.summing_up d = is_some d
enters SessionStage.voting d = is_some d
enters _ d = false

pub set_stage-Goes :
    (s t : SessionStage) (env : Env) (rec : CaseRow) (now : ℕ) (d : Option ℕ) (db : CaseDb)
    → enters t d ≡ true
    → Moves s t
    → Goes s (set_stage env rec t now d db)
unfolding set_stage append_transcript_event
set_stage-Goes s SessionStage.pre_session env rec now none db h m = record {
  sound = record {
    runtime = _;
    running = refl;
    same_stage = refl;
    status_fits = refl;
    has_end = refl;
  };
  moved = m;
}
set_stage-Goes s SessionStage.pre_session env rec now (some d) db h m = record {
  sound = record {
    runtime = _;
    running = refl;
    same_stage = refl;
    status_fits = refl;
    has_end = refl;
  };
  moved = m;
}
set_stage-Goes s t env rec now none db h m = cc
set_stage-Goes s SessionStage.judge_screening env rec now (some d) db h m = cc
set_stage-Goes s SessionStage.closed env rec now (some d) db h m = cc
set_stage-Goes s SessionStage.sealed env rec now (some d) db h m = cc
set_stage-Goes s SessionStage.void env rec now (some d) db h m = cc
set_stage-Goes s t env rec now (some d) db h m = record {
  sound = record {
    runtime = _;
    running = refl;
    same_stage = refl;
    status_fits = refl;
    has_end = refl;
  };
  moved = m;
}

pub stays_at :
    {s : SessionStage} {db : CaseDb} (v : IsSound db) → v.runtime.current_stage ≡ s → Goes s db
stays_at {s} {db} v at = subst (λ t. Goes t db) at (stays v)
