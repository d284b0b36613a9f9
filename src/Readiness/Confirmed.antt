-- ===== src/Readiness/Confirmed.antt =====
-- When a juror's readiness is recorded.
use open_cawt.Base.{
  false, some, map, Bool-cases, inl, inr, ◌++◌, ◌+◌, eq_iff, if◌then◌else◌, subst, ℕ, String, Bool,
  true, not, ◌&&◌, List, [], ◌∷◌, any, find, ◌≡◌, ◌↔◌, ◌∙◌, refl, sym, ap, str_eq, arith,
}
use open_cawt.Base.Errors.{ok, ok-inj, forbidden, conflict, require, require-true, both_ok}
use open_cawt.Session.Types.{MemberStatus, SessionStage, ActorRole, EventType, Member, CaseDb}
use open_cawt.Session.Store.{append_transcript_event, confirm_juror_ready, is_pending_ready}
use open_cawt.Ballots.{member_of}
use open_cawt.Readiness.{is_open, is_pending, misses_readiness, with_event, recorded, juror_ready}

pub record MayConfirm (banned_from_jury : String → Bool) (juror_id : String) (now : ℕ) (db : CaseDb)
    : Type 0 where
  pub opened : is_open db.runtime ≡ true
  pub pending : is_pending (member_of juror_id db) ≡ true
  pub unbanned : not (banned_from_jury juror_id) ≡ true
  pub in_time : not (misses_readiness (member_of juror_id db) now) ≡ true

-- Where the first row of the juror is pending, a row is updated.
any-pending :
    (juror_id : String) (panel : List Member)
    → is_pending (find (λ (m : Member). str_eq m.juror_id juror_id) panel) ≡ true
    → any (λ (m : Member). str_eq m.juror_id juror_id && is_pending_ready m.member_status) panel
      ≡ true
any-pending juror_id [] h = h
any-pending juror_id (m ∷ panel) h = ground (arith, any-pending juror_id panel)

confirm-true :
    (juror_id : String) (now : ℕ) (db : CaseDb)
    → is_pending (member_of juror_id db) ≡ true
    → (confirm_juror_ready juror_id now db).1 ≡ true
unfolding confirm_juror_ready
confirm-true juror_id now db h = any-pending juror_id db.panel h

recorded-ok : (p : CaseDb × Bool) → p.1 ≡ true → recorded p ≡ ok (with_event p.0)
unfolding append_transcript_event
recorded-ok (db, was_pending) h = rw h refl

find-pending :
    (juror_id : String) (now : ℕ) (m : Member) (panel : List Member)
    → find (λ (x : Member). str_eq x.juror_id juror_id) panel ≡ some m
    → is_pending_ready m.member_status ≡ true
    → find
        (λ (x : Member). str_eq x.juror_id juror_id)
        (map
          (λ (x : Member).
            if str_eq x.juror_id juror_id && is_pending_ready x.member_status
            then record x { member_status = MemberStatus.ready; ready_confirmed_at = some now }
            else x)
          panel)
      ≡ some (record m { member_status = MemberStatus.ready; ready_confirmed_at = some now })
find-pending juror_id now m [] h p = cc
find-pending juror_id now m (x ∷ panel) h p = elim (Bool-cases (str_eq x.juror_id juror_id)) [
  | inl e ↦
      let first : x ≡ m = cc_some (rw e at h) in
      let is_row : is_pending_ready x.member_status ≡ true =
        ap (λ (y : Member). is_pending_ready y.member_status) first ∙ p in
      rw (e, is_row, e)
        (ap
          (λ (y : Member).
            some (record y { member_status = MemberStatus.ready; ready_confirmed_at = some now }))
          first)
  | inr e ↦ rw (e, e) (find-pending juror_id now m panel (rw e at h) p)
]
  where
    cc_some : {a b : Member} → some a ≡ some b → a ≡ b
    cc_some e = cc

find-pending_other :
    (juror_id other : String) (now : ℕ) (panel : List Member)
    → str_eq juror_id other ≡ false
    → find
        (λ (x : Member). str_eq x.juror_id other)
        (map
          (λ (x : Member).
            if str_eq x.juror_id juror_id && is_pending_ready x.member_status
            then record x { member_status = MemberStatus.ready; ready_confirmed_at = some now }
            else x)
          panel)
      ≡ find (λ (x : Member). str_eq x.juror_id other) panel
find-pending_other juror_id other now [] h = refl
find-pending_other juror_id other now (x ∷ panel) h =
    ground (arith, eq_iff x.juror_id juror_id, find-pending_other juror_id other now panel)

-- The case after a juror's readiness: the row of the juror is ready, no other row has changed, and there
-- is one more event.
pub record IsConfirmed (juror_id : String) (now : ℕ) (db db' : CaseDb) : Type 0 where
  pub ready :
      (m : Member)
      → member_of juror_id db ≡ some m
      → member_of juror_id db'
        ≡ some (record m { member_status = MemberStatus.ready; ready_confirmed_at = some now })
  pub others : (id : String) → str_eq juror_id id ≡ false → member_of id db' ≡ member_of id db
  pub logged :
      db'.events
      ≡ db.events
        ++ record {
          seq_no = db.row.last_event_seq_no + 1;
          actor_role = ActorRole.juror;
          event_type = EventType.juror_ready;
          stage = some SessionStage.jury_readiness;
        }
          ∷ []
  pub counted : db'.row ≡ record (db.row) { last_event_seq_no = db.row.last_event_seq_no + 1 }
  pub same_runtime : db'.runtime ≡ db.runtime

with_event-IsConfirmed :
    (juror_id : String) (now : ℕ) (db : CaseDb)
    → is_pending (member_of juror_id db) ≡ true
    → IsConfirmed juror_id now db (with_event (confirm_juror_ready juror_id now db).0)
unfolding confirm_juror_ready append_transcript_event
with_event-IsConfirmed juror_id now db h = record {
  ready = λ m e. find-pending juror_id now m db.panel e (sym (ap is_pending e) ∙ h);
  others = λ id e. find-pending_other juror_id id now db.panel e;
  logged = refl;
  counted = refl;
  same_runtime = refl;
}

ready-ok_iff :
    (banned_from_jury : String → Bool) (juror_id : String) (now : ℕ) (db db' : CaseDb)
    → (juror_ready banned_from_jury juror_id now db ≡ ok db') ↔ (
        MayConfirm banned_from_jury juror_id now db
        × (with_event (confirm_juror_ready juror_id now db).0 ≡ db'))
unfolding juror_ready
ready-ok_iff banned_from_jury juror_id now db db' = (
  λ h.
      let (opened, h1) =
        both_ok (require (is_open db.runtime) (conflict "READINESS_NOT_OPEN")) _ db' h in
      let (pending, h2) =
        both_ok (require (is_pending (member_of juror_id db)) (forbidden "NOT_PENDING_JUROR")) _ db'
          h1 in
      let (unbanned, h3) =
        both_ok (require (not (banned_from_jury juror_id)) (forbidden "AGENT_BANNED_FROM_JURY")) _
          db' h2 in
      let (in_time, h4) =
        both_ok
          (require (not (misses_readiness (member_of juror_id db) now))
            (conflict "READINESS_DEADLINE_PASSED"))
          _ db' h3 in
      let is_row = require-true _ _ pending in
      let after = with_event (confirm_juror_ready juror_id now db).0 in
      let done : recorded (confirm_juror_ready juror_id now db) ≡ ok after =
        recorded-ok (confirm_juror_ready juror_id now db) (confirm-true juror_id now db is_row) in
      (
        record {
          opened = require-true _ _ opened;
          pending = is_row;
          unbanned = require-true _ _ unbanned;
          in_time = require-true _ _ in_time;
        },
        ok-inj after db' (sym done ∙ h4),
      ),
  λ (m, e).
      let done =
        recorded-ok (confirm_juror_ready juror_id now db)
          (confirm-true juror_id now db m.pending) in
      rw (m.opened, m.pending, m.unbanned, m.in_time, done) (ap ok e),
)

-- The readiness of a juror is recorded exactly when the session waits for it, the juror's row is
-- pending, the agent is not banned and the deadline is not over: the answer READINESS_ALREADY_RECORDED
-- is never given. Then the row of the juror is ready from now on, no other row has changed, and the
-- case has one more event.
pub juror_ready-ok_iff :
    (banned_from_jury : String → Bool) (juror_id : String) (now : ℕ) (db : CaseDb)
    → (((db' : CaseDb) × (juror_ready banned_from_jury juror_id now db ≡ ok db'))
        ↔ MayConfirm banned_from_jury juror_id now db)
      × ((db' : CaseDb)
          → juror_ready banned_from_jury juror_id now db ≡ ok db'
          → IsConfirmed juror_id now db db')
juror_ready-ok_iff banned_from_jury juror_id now db = (
  (
    λ (db', h). ((ready-ok_iff banned_from_jury juror_id now db db').0 h).0,
    λ m. (_, (ready-ok_iff banned_from_jury juror_id now db _).1 (m, refl)),
  ),
  λ db' h.
      let (m, e) = (ready-ok_iff banned_from_jury juror_id now db db').0 h in
      subst (IsConfirmed juror_id now db) e (with_event-IsConfirmed juror_id now db m.pending),
)
