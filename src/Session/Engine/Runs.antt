-- ===== src/Session/Engine/Runs.antt =====
-- Runs of the engine on one case.
use open_cawt.Base.{ℕ, ◌<◌, Option, some, List, [], ◌∷◌, ◌≡◌, ◌≢◌, ◌⊎◌, inl, inr, refl, arith}
use open_cawt.Session.Types.{SessionStage, CaseRow, CaseDb}
use open_cawt.Session.Panel.{Env}
use open_cawt.Session.Stage.{next_submission_stage}
use open_cawt.Session.Engine.{process_case}
use open_cawt.Session.Ticks.{Retry, Screening}
use open_cawt.Session.Engine.Moves.{Moves, stay, admit, begin, open_case, next, abandon, IsSound}
use open_cawt.Session.Engine.Invariant.{process_case-Goes}
use open_cawt.Session.Engine.Transcript.{Continues, same, then_also}
use open_cawt.Session.Engine.Appends.{process_case-Continues}

-- What a tick brings to the case.
pub record Input : Type 0 where
  pub env : Env
  pub now : ℕ
  pub rec : CaseRow
  pub retry : Option Retry
  pub answer : Screening

unfoldable pub run : List Input → CaseDb → CaseDb
run [] db = db
run (i ∷ is) db = run is (process_case i.env i.now i.rec i.retry i.answer db).db

-- How far a session has come.
abbrev pub rank : SessionStage → ℕ
rank SessionStage.judge_screening = 0
rank SessionStage.pre_session = 1
rank SessionStage.jury_readiness = 2
rank SessionStage.opening_addresses = 3
rank SessionStage.evidence = 4
rank SessionStage.closing_addresses = 5
rank SessionStage.summing_up = 6
rank SessionStage.voting = 7
rank SessionStage.closed = 8
rank SessionStage.sealed = 9
rank SessionStage.void = 10

next-rank : (s t : SessionStage) → next_submission_stage s ≡ some t → rank s < rank t
unfolding next_submission_stage
next-rank s t h = ground arith

void-rank :
    (s : SessionStage)
    → s ≢ SessionStage.void
    → s ≢ SessionStage.closed
    → s ≢ SessionStage.sealed
    → rank s < 10
void-rank SessionStage.void a b c = absurd (a refl)
void-rank _ a b c = omega arith

Moves-rank : {s t : SessionStage} → Moves s t → (s ≡ t) ⊎ (rank s < rank t)
Moves-rank stay = inl refl
Moves-rank admit = inr (omega arith)
Moves-rank begin = inr (omega arith)
Moves-rank open_case = inr (omega arith)
Moves-rank (next {s} {t} h) = inr (next-rank s t h)
Moves-rank (abandon {s} a b c) = inr (void-rank s a b c)

further :
    {s t u : SessionStage}
    → (s ≡ t) ⊎ (rank s < rank t)
    → (t ≡ u) ⊎ (rank t < rank u)
    → (s ≡ u) ⊎ (rank s < rank u)
further p q = grind arith

-- After any run from a sound state, the state is sound, and the session is where it was or further
-- on: a stage that has been left is not entered again.
pub run-Goes :
    (is : List Input) (db : CaseDb) (v : IsSound db)
    → (v' : IsSound (run is db)) × ((v.runtime.current_stage ≡ v'.runtime.current_stage)
        ⊎ (rank v.runtime.current_stage < rank v'.runtime.current_stage))
unfolding run
run-Goes [] db v = (v, inl refl)
run-Goes (i ∷ is) db v =
    let g = process_case-Goes i.env i.now i.rec i.retry i.answer db v in
    let (v', m) = run-Goes is (process_case i.env i.now i.rec i.retry i.answer db).db g.sound in
    (v', further (Moves-rank g.moved) m)

-- Over any run, the transcript only grows at its end, and the events that it gains carry
-- consecutive numbers.
pub run-Continues : (is : List Input) (db : CaseDb) → Continues db (run is db)
unfolding run
run-Continues [] db = same refl refl
run-Continues (i ∷ is) db =
    then_also (process_case-Continues i.env i.now i.rec db i.retry i.answer) (run-Continues is _)
