-- ===== src/Session/Ticks.antt =====
-- What a tick of sessionEngine.ts brings to a case and takes from it: the retries of the screening,
-- the answer of the judge, and the callbacks.
use open_cawt.Base.{ℕ, String, Bool, false, Option, none, some, List, [], ◌∷◌, leb}
use open_cawt.Session.Types.{SessionStage, VoidReason, ActorRole, EventType, CaseDb}
use open_cawt.Session.Store.{append_transcript_event}
use open_cawt.Session.Stage.{void_case}

abbrev pub judge_screening_retry_delay_ms : ℕ
judge_screening_retry_delay_ms = 30000

abbrev pub judge_screening_max_retries : ℕ
judge_screening_max_retries = 5

-- An entry of `judgeRetryState`.
pub record Retry : Type 0 where
  pub attempts : ℕ
  pub next_attempt_at : ℕ

-- The callbacks that a step makes.
pub data Callback : Type 0 where
  case_ready_to_close case_voided defence_invite_tick : Callback

-- The judge's answer within the time limit: a verdict with the shortened title, or an error.
pub data Screening : Type 0 where
  admitted declined : String → Screening
  unavailable : Screening

pub record Tick : Type 0 where
  pub db : CaseDb
  pub retry : Option Retry
  pub calls : List Callback

abbrev pub due : Option ℕ → ℕ → Bool
due none now = false
due (some deadline) now = leb deadline now

abbrev pub unchanged : Option Retry → CaseDb → Tick
unchanged retry db = record { db = db; retry = retry; calls = [] }

abbrev pub voided : VoidReason → ℕ → CaseDb → Tick
voided reason now db = record {
  db = void_case reason now db;
  retry = none;
  calls = Callback.case_voided ∷ [];
}

abbrev pub notice : SessionStage → CaseDb → CaseDb
notice stage db = append_transcript_event ActorRole.court EventType.notice (some stage) db
