-- ===== src/Session/Engine/Transcript.antt =====
-- The transcript of a case through a step of `processCase`.
use open_cawt.Base.{
  ℕ, ◌+◌, String, Bool, true, false, Option, none, some, List, [], ◌∷◌, ◌++◌, ◌≡◌, ◌∙◌, refl, sym,
  ap, arith, if_elim, length, length-append, subst,
}
use mathlib.Core.List.{append-nil, append_assoc}
use open_cawt.Session.Types.{
  SessionStage, VoidReason, ActorRole, EventType, Event, CaseRow, Member, CaseDb,
}
use open_cawt.Session.Store.{
  append_transcript_event, mark_case_session_stage, upsert_case_runtime, mark_case_void,
  mark_juror_timed_out, mark_juror_replaced, add_replacement_juror,
  increment_replacement_count_ready, increment_replacement_count_vote, create_jury_selection_run,
}
use open_cawt.Jury.{Candidate}
use open_cawt.Session.Panel.{
  replacement_throws, Env, Mode, readiness, voting, seat_replacement, replace_juror, seat_if_found,
}
use open_cawt.Session.Stage.{set_stage, void_case, vote_notice, deadline_notice}
use open_cawt.Session.Engine.{late_throws, replace_if_late, replace_late, is_late}

-- The events have the numbers that follow `n`, in order.
abbrev pub IsNumbered : ℕ → List Event → Type 0
IsNumbered n [] = Unit
IsNumbered n (e ∷ es) = (e.seq_no ≡ n + 1) × IsNumbered (n + 1) es

-- The transcript of `db'` is that of `db` with further events, which carry the numbers that follow
-- the last one of `db`.
pub record Continues (db db' : CaseDb) : Type 0 where
  pub more : List Event
  pub appended : db'.events ≡ db.events ++ more
  pub numbered : IsNumbered db.row.last_event_seq_no more
  pub counted : db'.row.last_event_seq_no ≡ db.row.last_event_seq_no + length more

IsNumbered-append :
    (n : ℕ) (es fs : List Event)
    → IsNumbered n es
    → IsNumbered (n + length es) fs
    → IsNumbered n (es ++ fs)
IsNumbered-append n [] fs a b = subst (λ k. IsNumbered k fs) (omega arith) b
IsNumbered-append n (e ∷ es) fs (h, a) b =
    (h, IsNumbered-append (n + 1) es fs a (subst (λ k. IsNumbered k fs) (omega arith) b))

pub same :
    {db db' : CaseDb}
    → db'.events ≡ db.events
    → db'.row.last_event_seq_no ≡ db.row.last_event_seq_no
    → Continues db db'
same {db} {db'} h k = record {
  more = [];
  appended = h ∙ sym (append-nil db.events);
  numbered = tt;
  counted = omega (arith, k);
}

pub then_also : {a b c : CaseDb} → Continues a b → Continues b c → Continues a c
then_also {a} {b} {c} p q = record {
  more = p.more ++ q.more;
  appended = q.appended ∙ ap (λ es. es ++ q.more) p.appended ∙ append_assoc a.events p.more q.more;
  numbered =
      IsNumbered-append _ p.more q.more p.numbered
        (subst (λ k. IsNumbered k q.more) p.counted q.numbered);
  counted = omega (arith, length-append p.more q.more, p.counted, q.counted);
}

pub append-Continues :
    (role : ActorRole) (kind : EventType) (stage : Option SessionStage) (db : CaseDb)
    → Continues db (append_transcript_event role kind stage db)
unfolding append_transcript_event
append-Continues role kind stage db = record {
  more = _;
  appended = refl;
  numbered = (refl, tt);
  counted = refl;
}

deadline_notice-Continues :
    (stage : SessionStage) (deadline : Option ℕ) (db : CaseDb)
    → Continues db (deadline_notice stage deadline db)
deadline_notice-Continues stage none db = same refl refl
deadline_notice-Continues stage (some d) db = append-Continues _ _ _ db

vote_notice-Continues : (stage : SessionStage) (db : CaseDb) → Continues db (vote_notice stage db)
vote_notice-Continues SessionStage.voting db = append-Continues _ _ _ db
vote_notice-Continues _ db = same refl refl

pub set_stage-Continues :
    (env : Env) (rec : CaseRow) (stage : SessionStage) (now : ℕ) (deadline : Option ℕ) (db : CaseDb)
    → Continues db (set_stage env rec stage now deadline db)
unfolding set_stage mark_case_session_stage upsert_case_runtime
set_stage-Continues env rec stage now deadline db =
    then_also (then_also (same refl refl) (append-Continues _ _ _ _))
      (then_also (vote_notice-Continues stage _) (deadline_notice-Continues stage deadline _))

pub void_case-Continues :
    (reason : VoidReason) (now : ℕ) (db : CaseDb) → Continues db (void_case reason now db)
unfolding void_case mark_case_void upsert_case_runtime
void_case-Continues reason now db = then_also (same refl refl) (append-Continues _ _ _ _)

seat-Continues :
    (env : Env) (id : String) (mode : Mode) (now : ℕ) (found : Option (Candidate × Bool))
    (db : CaseDb)
    → Continues db (seat_if_found env id mode now found db)
unfolding seat_replacement mark_juror_timed_out mark_juror_replaced add_replacement_juror
    increment_replacement_count_ready increment_replacement_count_vote create_jury_selection_run
seat-Continues env id mode now none db = same refl refl
seat-Continues env id readiness now (some (c, true)) db =
    then_also (same refl refl) (append-Continues _ _ _ _)
seat-Continues env id readiness now (some (c, false)) db =
    then_also (same refl refl) (append-Continues _ _ _ _)
seat-Continues env id voting now (some (c, true)) db =
    then_also (same refl refl) (append-Continues _ _ _ _)
seat-Continues env id voting now (some (c, false)) db =
    then_also (same refl refl) (append-Continues _ _ _ _)

pub replace_late-Continues :
    (env : Env) (now : ℕ) (rec : CaseRow) (mode : Mode) (ms : List Member) (db : CaseDb)
    → Continues db (replace_late env now rec mode ms db)
unfolding replace_late replace_juror
replace_late-Continues env now rec mode [] db = same refl refl
replace_late-Continues env now rec mode (m ∷ ms) db =
    let here : Continues db (replace_if_late env now rec mode m db) =
      if_elim (Continues db) (is_late mode now m)
        (λ _.
          if_elim (Continues db) (replacement_throws env rec m.juror_id db) (λ _. same refl refl)
            (λ _. seat-Continues env m.juror_id mode now _ db))
        (λ _. same refl refl) in
    if_elim (Continues db) (late_throws env now rec mode m db) (λ _. here)
      (λ _. then_also here (replace_late-Continues env now rec mode ms _))
