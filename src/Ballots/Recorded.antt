-- ===== src/Ballots/Recorded.antt =====
-- What a ballot that is taken leaves behind.
use open_cawt.Base.{
  find, ◌+◌, false, if◌then◌else◌, ℕ, ◌≤◌, String, Bool, true, not, ◌&&◌, ◌||◌, Option, none, some,
  List, [], ◌∷◌, ◌++◌, map, ◌≡◌, ◌∙◌, refl, sym, ap, subst, arith, All, str_eq, Bool-cases, inl,
  inr, ◌⊎◌, ltb, eq_iff,
}
use open_cawt.Base.Errors.{
  ApiError, Result, ok, err, ok-inj, bad_request, forbidden, conflict, require, require-true,
  both_ok, bind_ok,
}
use open_cawt.Base.Sets.{has}
use open_cawt.Verdict.Tally.{VoteEntry}
use open_cawt.Session.Types.{
  Member, MemberStatus, SessionStage, ActorRole, EventType, ClaimRow, Ballot, CaseDb,
}
use open_cawt.Session.Store.{
  update_member, append_transcript_event, mark_juror_voted, list_jury_members,
}
use open_cawt.Close.Pipeline.{is_voting, in_voting_stage}
use open_cawt.Ballots.{
  BallotEnv, VoteInput, BallotBody, check_vote, check_votes, check_juror, check_body, add_ballot,
  ballot_of, cast, or_unchanged, cast_ballot, submit_ballot, member_of, member_may_vote,
  member_is_late, has_ballot, is_empty, severity_or, finding_or, remedy_or,
}

-- A vote on a claim of the case, with a severity from 1 to 3.
pub record IsVote (claim_ids : List String) (v : VoteEntry) : Type 0 where
  pub on_claim : has claim_ids v.claim_id ≡ true
  pub severe : (1 ≤ v.severity) × (v.severity ≤ 3)

severity_in : (o : Option ℕ) (n : ℕ) → severity_or o ≡ ok n → (1 ≤ n) × (n ≤ 3)
severity_in none n h = cc
severity_in (some m) n h = elim (Bool-cases (ltb m 1 || ltb 3 m)) [
  | inl e ↦ let thrown : severity_or (some m) ≡ err (bad_request "INVALID_SEVERITY") = simp e in cc
  | inr e ↦
      let kept : severity_or (some m) ≡ ok m = simp e in
      let same : m ≡ n = ok-inj m n (sym kept ∙ h) in (ground arith, ground arith)
]

check_vote-IsVote :
    (ids : List String) (v : VoteInput) (e : VoteEntry) → check_vote ids v ≡ ok e → IsVote ids e
unfolding check_vote
check_vote-IsVote ids v e h =
    let (on, rest) = both_ok (require (has ids v.claim_id) (bad_request "UNKNOWN_CLAIM")) _ e h in
    let (f, (hf, h2)) = bind_ok (finding_or v.finding) _ e rest in
    let (n, (hn, h3)) = bind_ok (severity_or v.severity) _ e h2 in
    let (r, (hr, h4)) = bind_ok (remedy_or v.recommended_remedy) _ e h3 in
    subst (IsVote ids) (ok-inj _ e h4)
      (record { on_claim = require-true _ _ on; severe = severity_in v.severity n hn })

check_votes-AreVotes :
    (ids : List String) (votes : List VoteInput) (entries : List VoteEntry)
    → check_votes ids votes ≡ ok entries
    → All (IsVote ids) entries
unfolding check_votes
check_votes-AreVotes ids [] entries h = subst (All (IsVote ids)) (ok-inj [] entries h) tt
check_votes-AreVotes ids (v ∷ votes) entries h =
    let (e, (he, h2)) = bind_ok (check_vote ids v) _ entries h in
    let (es, (hes, h3)) = bind_ok (check_votes ids votes) _ entries h2 in
    subst (All (IsVote ids)) (ok-inj (e ∷ es) entries h3)
      (check_vote-IsVote ids v e he, check_votes-AreVotes ids votes es hes)

-- What holds of the juror when a ballot is taken.
pub record IsAdmitted (juror_id : String) (now : ℕ) (db : CaseDb) : Type 0 where
  pub voting : (is_voting db.row.status && in_voting_stage db.runtime) ≡ true
  pub seated : has (list_jury_members db) juror_id ≡ true
  pub active : member_may_vote (member_of juror_id db) ≡ true
  pub in_time : not (member_is_late (member_of juror_id db) now) ≡ true

module _ (f : Member → Member) (same : (m : Member) → (f m).juror_id ≡ m.juror_id) where
  find-updated :
      (id : String) (m : Member) (panel : List Member)
      → find (λ (x : Member). str_eq x.juror_id id) panel ≡ some m
      → find (λ (x : Member). str_eq x.juror_id id) (update_member id f panel) ≡ some (f m)
  find-updated id m [] h = cc
  find-updated id m (x ∷ panel) h = elim (Bool-cases (str_eq x.juror_id id)) [
    | inl e ↦
        let first : x ≡ m = cc_some (rw e at h) in
        let hit : str_eq (f x).juror_id id ≡ true = ap (λ i. str_eq i id) (same x) ∙ e in
        rw (e, hit) (ap (λ y. some (f y)) first)
    | inr e ↦ rw (e, e) (find-updated id m panel (rw e at h))
  ]
    where
      cc_some : {a b : Member} → some a ≡ some b → a ≡ b
      cc_some e = cc

  find-updated_other :
      (id other : String) (panel : List Member)
      → str_eq id other ≡ false
      → find (λ (x : Member). str_eq x.juror_id other) (update_member id f panel)
        ≡ find (λ (x : Member). str_eq x.juror_id other) panel
  find-updated_other id other [] h = refl
  find-updated_other id other (x ∷ panel) h = elim (Bool-cases (str_eq x.juror_id id)) [
    | inl e ↦ ground (arith, same x, eq_iff x.juror_id id, find-updated_other id other panel)
    | inr e ↦ rw e (
        ap (λ r. if str_eq x.juror_id other then some x else r)
          (find-updated_other id other panel h))
  ]

-- What holds of a ballot that is taken, of the case before it and of the case after it.
pub record IsCast (juror_id : String) (now : ℕ) (db db' : CaseDb) (b : Ballot) : Type 0 where
  pub admitted : IsAdmitted juror_id now db
  pub first : not (has_ballot juror_id db.ballots) ≡ true
  pub by_juror : b.juror_id ≡ juror_id
  pub valid : All (IsVote (map (λ (c : ClaimRow). c.claim_id) db.claims)) b.votes
  pub added : db' ≡ cast juror_id (record db { ballots = db.ballots ++ b ∷ [] })
  pub stored : db'.ballots ≡ db.ballots ++ b ∷ []
  pub voted :
      (m : Member)
      → member_of juror_id db ≡ some m
      → member_of juror_id db' ≡ some (record m { member_status = MemberStatus.voted })
  pub others : (id : String) → str_eq juror_id id ≡ false → member_of id db' ≡ member_of id db
  pub logged :
      db'.events
      ≡ db.events
        ++ record {
          seq_no = db.row.last_event_seq_no + 1;
          actor_role = ActorRole.juror;
          event_type = EventType.ballot_submitted;
          stage = some SessionStage.voting;
        }
          ∷ []
  pub counted : db'.row ≡ record (db.row) { last_event_seq_no = db.row.last_event_seq_no + 1 }
  pub same_runtime : db'.runtime ≡ db.runtime

check_juror-passes :
    (env : BallotEnv) (juror_id : String) (now : ℕ) (db : CaseDb)
    → check_juror env juror_id now db ≡ ok tt
    → IsAdmitted juror_id now db
unfolding check_juror
check_juror-passes env juror_id now db h =
    let (voting, j1) =
      both_ok
        (require (is_voting db.row.status && in_voting_stage db.runtime)
          (conflict "CASE_NOT_VOTING"))
        _ tt h in
    let (seated, j2) =
      both_ok (require (has (list_jury_members db) juror_id) (forbidden "NOT_JUROR")) _ tt j1 in
    let (active, j3) =
      both_ok (require (member_may_vote (member_of juror_id db)) (conflict "JUROR_NOT_ACTIVE")) _ tt
        j2 in
    let (unbanned, j4) =
      both_ok (require (not (env.banned_from_jury juror_id)) (forbidden "AGENT_BANNED_FROM_JURY")) _
        tt j3 in
    let (in_time, limits) =
      both_ok
        (require (not (member_is_late (member_of juror_id db) now))
          (conflict "BALLOT_DEADLINE_PASSED"))
        _ tt j4 in
    record {
      voting = require-true _ _ voting;
      seated = require-true _ _ seated;
      active = require-true _ _ active;
      in_time = require-true _ _ in_time;
    }

check_body-AreVotes :
    (body : BallotBody) (db : CaseDb) (entries : List VoteEntry)
    → check_body body db ≡ ok entries
    → All (IsVote (map (λ (c : ClaimRow). c.claim_id) db.claims)) entries
unfolding check_body
check_body-AreVotes body db entries h =
    let ids = map (λ (c : ClaimRow). c.claim_id) db.claims in
    let (fields, b1) = both_ok body.fields _ entries h in
    let (some_vote, b2) =
      both_ok (require (not (is_empty body.votes)) (bad_request "BALLOT_VOTES_REQUIRED")) _ entries
        b1 in
    let (es, (hes, b3)) = bind_ok (check_votes ids body.votes) _ entries b2 in
    let (signals, b4) = both_ok body.ml_signals (ok es) entries b3 in
    subst (All (IsVote ids)) (ok-inj es entries b4) (check_votes-AreVotes ids body.votes es hes)

cast_ballot-IsCast :
    (env : BallotEnv) (juror_id : String) (body : BallotBody) (now : ℕ) (db db' : CaseDb)
    (b : Ballot)
    → cast_ballot env juror_id body now db ≡ ok (db', b)
    → IsCast juror_id now db db' b
unfolding cast_ballot add_ballot mark_juror_voted append_transcript_event
cast_ballot-IsCast env juror_id body now db db' b h =
    let (juror, h1) = both_ok (check_juror env juror_id now db) _ (db', b) h in
    let (entries, (hb, h2)) = bind_ok (check_body body db) _ (db', b) h1 in
    let mine = ballot_of juror_id body entries in
    let (db1, (ha, h3)) = bind_ok (add_ballot mine db) _ (db', b) h2 in
    let (first, h4) =
      both_ok (require (not (has_ballot juror_id db.ballots)) (conflict "BALLOT_ALREADY_SUBMITTED"))
        _ db1 ha in
    let stored = ok-inj (record db { ballots = db.ballots ++ mine ∷ [] }) db1 h4 in
    let taken = ok-inj (cast juror_id db1, mine) (db', b) h3 in
    subst (λ (p : CaseDb × Ballot). IsCast juror_id now db p.0 p.1) taken
      (subst (λ (d : CaseDb). IsCast juror_id now db (cast juror_id d) mine) stored
        (record {
          admitted = check_juror-passes env juror_id now db juror;
          first = require-true _ _ first;
          by_juror = refl;
          valid = check_body-AreVotes body db entries hb;
          added = refl;
          stored = refl;
          voted = λ m e. find-updated _ (λ x. refl) juror_id m db.panel e;
          others = λ id e. find-updated_other _ (λ x. refl) juror_id id db.panel e;
          logged = refl;
          counted = refl;
          same_runtime = refl;
        }))

Result-cases {ℓ} :
    {A : Type ℓ} (r : Result A) → ((e : ApiError) × (r ≡ err e)) ⊎ ((a : A) × (r ≡ ok a))
Result-cases (err e) = inl (e, refl)
Result-cases (ok a) = inr (a, refl)

-- The first of two tests does not matter where the second holds.
or_true : (a b : Bool) → b ≡ true → (a || b) ≡ true
or_true true b h = refl
or_true false b h = h

or_unchanged-ok :
    (db : CaseDb) (r : Result (CaseDb × Ballot)) (db' : CaseDb) (b : Ballot)
    → or_unchanged db r ≡ (db', ok b)
    → r ≡ ok (db', b)
or_unchanged-ok db (err e) db' b h = cc
or_unchanged-ok db (ok (db1, b1)) db' b h = cc

-- A ballot that the route takes is one of a seated juror who may vote, in a case that votes and
-- before the deadline of the juror, with no ballot there before; each of its votes is on a claim
-- of the case with a severity from 1 to 3. The case after it is the case before it with the
-- ballot stored last, the juror's row at `voted` and no other row changed, and one more event.
pub submit_ballot-IsCast :
    (env : BallotEnv) (juror_id : String) (body : BallotBody) (now : ℕ) (db db' : CaseDb)
    (b : Ballot)
    → submit_ballot env juror_id body now db ≡ (db', ok b)
    → IsCast juror_id now db db' b
unfolding submit_ballot
submit_ballot-IsCast env juror_id body now db db' b h =
    cast_ballot-IsCast env juror_id body now db db' b
      (or_unchanged-ok db (cast_ballot env juror_id body now db) db' b h)

-- The ballot that is stored last is found.
has_ballot-append :
    (juror_id : String) (ballots : List Ballot) (b : Ballot)
    → b.juror_id ≡ juror_id
    → has_ballot juror_id (ballots ++ b ∷ []) ≡ true
has_ballot-append juror_id [] b same = ap (λ x. x || false) ((eq_iff b.juror_id juror_id).1 same)
has_ballot-append juror_id (c ∷ ballots) b same =
    or_true (str_eq c.juror_id juror_id) _ (has_ballot-append juror_id ballots b same)

IsCast-has_ballot :
    (juror_id : String) (now : ℕ) (db db' : CaseDb) (b : Ballot)
    → IsCast juror_id now db db' b
    → has_ballot juror_id db'.ballots ≡ true
IsCast-has_ballot juror_id now db db' b c =
    ap (has_ballot juror_id) c.stored ∙ has_ballot-append juror_id db.ballots b c.by_juror

-- After a ballot of a juror is taken, whatever the juror sends next is refused with an error,
-- and leaves the case as it was.
pub submit_ballot-once :
    (env : BallotEnv) (juror_id : String) (body : BallotBody) (now : ℕ) (db db' : CaseDb)
    (b : Ballot)
    → submit_ballot env juror_id body now db ≡ (db', ok b)
    → (env' : BallotEnv) (body' : BallotBody) (later : ℕ)
    → (e : ApiError) × (submit_ballot env' juror_id body' later db' ≡ (db', err e))
unfolding submit_ballot
submit_ballot-once env juror_id body now db db' b h env' body' later =
    let cast_before = submit_ballot-IsCast env juror_id body now db db' b h in
    let has = IsCast-has_ballot juror_id now db db' b cast_before in
    elim (Result-cases (cast_ballot env' juror_id body' later db')) [
      | inl (e, he) ↦ (e, ap (or_unchanged db') he)
      | inr ((db2, b2), hok) ↦
          let again = (cast_ballot-IsCast env' juror_id body' later db' db2 b2 hok).first in cc
    ]
