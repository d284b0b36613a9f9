-- ===== src/Session/Panel/Turnover.antt =====
-- `replaceJuror` and the loops that call it, as what they do to the seats of the panel.
use open_cawt.Base.{
  if◌then◌else◌, ℕ, String, Bool, true, false, Option, none, some, List, [], ◌∷◌, ◌++◌, ◌≡◌, ◌∙◌,
  refl, sym, arith, eq_iff, str_eq, subst, count_if-append, if_elim,
}
use open_cawt.Base.Sets.{has, has-append}
use open_cawt.Jury.{Candidate}
use open_cawt.Session.Types.{CaseRow, Member, CaseDb}
use open_cawt.Session.Store.{
  append_transcript_event, mark_juror_timed_out, mark_juror_replaced, add_replacement_juror,
  increment_replacement_count_ready, increment_replacement_count_vote, create_jury_selection_run,
  without_member,
}
use open_cawt.Session.Panel.{
  replacement_throws, Env, Mode, readiness, voting, is_active, active_ids, active_set,
  seat_replacement, seat_of, deadline_of, seat_if_found, replace_juror, choose_replacement,
}
use open_cawt.Session.Engine.{late_throws, is_late, replace_late}
use open_cawt.Session.Panel.Choice.{choose_replacement-IsFree}
use open_cawt.Session.Panel.Seats.{
  keys, IsKeyed, active_seats, retired, IsKeyed-retired, IsKeyed-without, IsKeyed-snoc, has-without,
  seats-retired, inactive-retired, seats-without, active-retired, active-without, active-snoc,
}

-- The panel `after` has one row for each juror and as many active seats as `before`, and whoever was
-- active but `id` is so still.
pub record KeepsSeats (id : String) (before after : List Member) : Type 0 where
  pub keyed : IsKeyed after
  pub same_seats : active_seats after ≡ active_seats before
  pub others_stay :
      (a : String)
      → str_eq id a ≡ false
      → has (active_ids before) a ≡ true
      → has (active_ids after) a ≡ true

seat-panel :
    (env : Env) (id : String) (mode : Mode) (now : ℕ) (c : Candidate) (is_drawn : Bool)
    (db : CaseDb)
    → (seat_replacement env id mode now (c, is_drawn) db).panel
      ≡ without_member c.agent_id (retired id c.agent_id db.panel)
        ++ seat_of mode (deadline_of env mode now) id c ∷ []
unfolding seat_replacement append_transcript_event mark_juror_timed_out mark_juror_replaced
    add_replacement_juror increment_replacement_count_ready increment_replacement_count_vote
    create_jury_selection_run
seat-panel env id readiness now c true db = refl
seat-panel env id readiness now c false db = refl
seat-panel env id voting now c true db = refl
seat-panel env id voting now c false db = refl

has-left : (xs ys : List String) (a : String) → has (xs ++ ys) a ≡ false → has xs a ≡ false
has-left xs ys a h = ground (arith, has-append xs ys a)

not_active :
    (rec : CaseRow) (panel : List Member) (id : String)
    → has (active_set rec panel) id ≡ false
    → has (active_ids panel) id ≡ false
unfolding active_set
not_active rec panel id h = has-left (active_ids panel) _ id h

-- A row for a juror who is not active takes the seat of one who is.
swapped :
    (id : String) (ms : List Member) (new : Member)
    → IsKeyed ms
    → has (active_ids ms) id ≡ true
    → has (active_ids ms) new.juror_id ≡ false
    → is_active new.member_status ≡ true
    → KeepsSeats id ms (without_member new.juror_id (retired id new.juror_id ms) ++ new ∷ [])
swapped id ms new k seated free active =
    let c = new.juror_id in
    let rest = without_member c (retired id c ms) in
    record {
      keyed =
          IsKeyed-snoc rest new (IsKeyed-without c (retired id c ms) (IsKeyed-retired id c ms k))
            (ground (arith, has-without c (retired id c ms) c, eq_iff c c));
      same_seats =
          count_if-append (λ (m : Member). is_active m.member_status) rest (new ∷ [])
          ∙ rw active (
              omega (
                arith,
                seats-without c (retired id c ms) (inactive-retired id c ms c free),
                seats-retired id c ms k seated,
              ));
      others_stay = λ a d h. active-snoc rest new a (
          active-without c (retired id c ms) a (ground (arith, eq_iff c a))
            (active-retired id c ms a d h));
    }

seat-KeepsSeats :
    (env : Env) (rec : CaseRow) (id : String) (mode : Mode) (now : ℕ) (db : CaseDb)
    (found : Option (Candidate × Bool))
    → choose_replacement env rec db.panel ≡ found
    → IsKeyed db.panel
    → has (active_ids db.panel) id ≡ true
    → KeepsSeats id db.panel (seat_if_found env id mode now found db).panel
seat-KeepsSeats env rec id mode now db none h k seated = record {
  keyed = k;
  same_seats = refl;
  others_stay = λ a d i. i;
}
seat-KeepsSeats env rec id readiness now db (some (c, is_drawn)) h k seated =
    subst (KeepsSeats id db.panel) (sym (seat-panel env id readiness now c is_drawn db)) (
      swapped id db.panel (seat_of readiness (deadline_of env readiness now) id c) k seated
        (not_active rec db.panel c.agent_id
          (choose_replacement-IsFree env rec db.panel c is_drawn h).not_taken)
        refl)
seat-KeepsSeats env rec id voting now db (some (c, is_drawn)) h k seated =
    subst (KeepsSeats id db.panel) (sym (seat-panel env id voting now c is_drawn db)) (
      swapped id db.panel (seat_of voting (deadline_of env voting now) id c) k seated
        (not_active rec db.panel c.agent_id
          (choose_replacement-IsFree env rec db.panel c is_drawn h).not_taken)
        refl)

-- In a panel with one row for each juror, replacing an active juror keeps one row for each juror and
-- the number of active seats, and leaves every other active juror active, whether a replacement is
-- found or not.
pub replace_juror-KeepsSeats :
    (env : Env) (rec : CaseRow) (id : String) (mode : Mode) (now : ℕ) (db : CaseDb)
    → IsKeyed db.panel
    → has (active_ids db.panel) id ≡ true
    → KeepsSeats id db.panel (replace_juror env rec id mode now db).panel
unfolding replace_juror
replace_juror-KeepsSeats env rec id mode now db k seated =
    if_elim (λ (db' : CaseDb). KeepsSeats id db.panel db'.panel) (replacement_throws env rec id db)
      (λ _. record { keyed = k; same_seats = refl; others_stay = λ a apart h. h })
      (λ _. seat-KeepsSeats env rec id mode now db _ refl k seated)

-- The members to be replaced are active, and each is listed once.
abbrev AllSeated : Env → ℕ → Mode → List Member → List Member → Type 0
AllSeated env now mode panel [] = Unit
AllSeated env now mode panel (m ∷ ms) =
    (is_late mode now m ≡ true → has (active_ids panel) m.juror_id ≡ true)
    × AllSeated env now mode panel ms

active-there :
    (m : Member) (ms : List Member) (a : String)
    → has (active_ids ms) a ≡ true
    → has (active_ids (m ∷ ms)) a ≡ true
unfolding active_ids
active-there m ms a h = ground arith

active-here :
    (m : Member) (ms : List Member)
    → is_active m.member_status ≡ true
    → has (active_ids (m ∷ ms)) m.juror_id ≡ true
unfolding active_ids
active-here m ms h = ground (arith, eq_iff m.juror_id m.juror_id)

late-active :
    (mode : Mode) (now : ℕ) (m : Member)
    → is_late mode now m ≡ true
    → is_active m.member_status ≡ true
late-active readiness now m h = ground arith
late-active voting now m h = ground arith

-- The panel after a loop of replacements.
pub record KeepsPanel (before after : List Member) : Type 0 where
  pub keyed : IsKeyed after
  pub same_seats : active_seats after ≡ active_seats before

module _ (env : Env) (now : ℕ) (rec : CaseRow) (mode : Mode) where
  AllSeated-after :
      (id : String) (before after : List Member) (ms : List Member)
      → KeepsSeats id before after
      → has (keys ms) id ≡ false
      → AllSeated env now mode before ms
      → AllSeated env now mode after ms
  AllSeated-after id before after [] keeps d s = tt
  AllSeated-after id before after (m ∷ ms) keeps d (h, s) = (
    λ e.
        keeps.others_stay m.juror_id (ground (arith, eq_iff id m.juror_id, eq_iff m.juror_id id))
          (h e),
    AllSeated-after id before after ms keeps (ground arith) s,
  )

  loop-KeepsPanel :
      (ms : List Member) (db : CaseDb)
      → IsKeyed db.panel
      → IsKeyed ms
      → AllSeated env now mode db.panel ms
      → KeepsPanel db.panel (replace_late env now rec mode ms db).panel
  unfolding replace_late
  loop-KeepsPanel [] db k d s = record { keyed = k; same_seats = refl }
  loop-KeepsPanel (m ∷ ms) db k (d, ds) (h, s) =
      if_elim
        (λ (db' : CaseDb).
          KeepsPanel db.panel
            (if late_throws env now rec mode m db
              then db'
              else replace_late env now rec mode ms db').panel)
        (is_late mode now m)
        (λ e.
          let keeps = replace_juror-KeepsSeats env rec m.juror_id mode now db k (h e) in
          if_elim (λ (db' : CaseDb). KeepsPanel db.panel db'.panel)
            (late_throws env now rec mode m db)
            (λ _. record { keyed = keeps.keyed; same_seats = keeps.same_seats })
            (λ _.
              let rest =
                loop-KeepsPanel ms (replace_juror env rec m.juror_id mode now db) keeps.keyed ds
                  (AllSeated-after m.juror_id db.panel _ ms keeps d s) in
              record { keyed = rest.keyed; same_seats = rest.same_seats ∙ keeps.same_seats }))
        (λ _.
          if_elim (λ (db' : CaseDb). KeepsPanel db.panel db'.panel)
            (late_throws env now rec mode m db) (λ _. record { keyed = k; same_seats = refl })
            (λ _. loop-KeepsPanel ms db k ds s))

  seated-cons :
      (x : Member) (panel ms : List Member)
      → AllSeated env now mode panel ms
      → AllSeated env now mode (x ∷ panel) ms
  seated-cons x panel [] s = tt
  seated-cons x panel (y ∷ ms) (h, s) =
      (λ e. active-there x panel y.juror_id (h e), seated-cons x panel ms s)

  all_seated : (ms : List Member) → AllSeated env now mode ms ms
  all_seated [] = tt
  all_seated (m ∷ ms) =
      (λ e. active-here m ms (late-active mode now m e), seated-cons m ms ms (all_seated ms))

  -- In a panel with one row for each juror, the loop that replaces the late jurors keeps one row for
  -- each juror and the number of active seats.
  pub replace_late-KeepsPanel :
      (db : CaseDb)
      → IsKeyed db.panel
      → KeepsPanel db.panel (replace_late env now rec mode db.panel db).panel
  replace_late-KeepsPanel db k = loop-KeepsPanel db.panel db k k (all_seated db.panel)
