-- ===== src/Readiness.antt =====
-- The route of main.ts by which a juror confirms readiness.
pub mod Confirmed
use open_cawt.Base.{ℕ, String, Bool, true, false, not, Option, none, some}
use open_cawt.Base.Errors.{ApiError, Result, ok, err, forbidden, conflict, require, ◌>>◌, ◌>>=◌}
use open_cawt.Session.Types.{SessionStage, ActorRole, EventType, Member, Runtime, CaseDb}
use open_cawt.Session.Store.{append_transcript_event, confirm_juror_ready, is_pending_ready}
use open_cawt.Ballots.{member_of, is_overdue}

abbrev pub is_readiness_stage : SessionStage → Bool
is_readiness_stage SessionStage.jury_readiness = true
is_readiness_stage _ = false

abbrev pub is_open : Option Runtime → Bool
is_open none = false
is_open (some runtime) = is_readiness_stage runtime.current_stage

abbrev pub is_pending : Option Member → Bool
is_pending none = false
is_pending (some m) = is_pending_ready m.member_status

abbrev pub misses_readiness : Option Member → ℕ → Bool
misses_readiness none now = false
misses_readiness (some m) now = is_overdue m.ready_deadline_at now

abbrev pub with_event : CaseDb → CaseDb
unfolding append_transcript_event
with_event db =
    append_transcript_event ActorRole.juror EventType.juror_ready (some SessionStage.jury_readiness)
      db

abbrev pub recorded : CaseDb × Bool → Result CaseDb
unfolding append_transcript_event
recorded (db, was_pending) =
    require was_pending (conflict "READINESS_ALREADY_RECORDED") >> ok (with_event db)

-- `POST /api/cases/:id/juror-ready`, after the signature; an error leaves the case as it was.
unfoldable pub juror_ready : (String → Bool) → String → ℕ → CaseDb → Result CaseDb
unfolding append_transcript_event confirm_juror_ready
juror_ready banned_from_jury juror_id now db =
    require (is_open db.runtime) (conflict "READINESS_NOT_OPEN")
    >> (require (is_pending (member_of juror_id db)) (forbidden "NOT_PENDING_JUROR")
        >> (require (not (banned_from_jury juror_id)) (forbidden "AGENT_BANNED_FROM_JURY")
            >> (require (not (misses_readiness (member_of juror_id db) now))
                  (conflict "READINESS_DEADLINE_PASSED")
                >> recorded (confirm_juror_ready juror_id now db))))
