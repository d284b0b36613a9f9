-- ===== src/Session/Panel.antt =====
-- `replaceJuror` of sessionEngine.ts, with `listEligibleJurors` of repository.ts.
pub mod Seats
pub mod Turnover
pub mod Choice
use open_cawt.Base.{
  ℕ, ◌+◌, ◌*◌, String, Bool, true, false, Option, none, some, List, [], ◌∷◌, ◌++◌, map, keep, not,
  is_some, ◌&&◌, if◌then◌else◌,
}
use open_cawt.Base.Errors.{Result, ok, err}
use open_cawt.Base.Sets.{has}
use open_cawt.Jury.{
  Platform, DrandRoundData, Candidate, JurySelectionProof, JurySelectionResult,
  pick_replacement_from_proof, select_jury_deterministically,
}
use open_cawt.Session.Types.{
  MemberStatus, EventType, ActorRole, SessionStage, Member, CaseRow, CaseDb,
}
use open_cawt.Session.Store.{
  append_transcript_event, mark_juror_timed_out, mark_juror_replaced, add_replacement_juror,
  increment_replacement_count_ready, increment_replacement_count_vote, create_jury_selection_run,
}

-- `config.rules`, in seconds, and what the engine asks of its collaborators during a tick: the ids
-- that the juror query returns within the weekly limit, the allowlist of the runtime configuration,
-- and the drand round. `beacon_fails` tells of a juror whether the call of the beacon throws when the
-- seat of that juror is to be filled by a new draw, and of a case when its jury is to be drawn.
pub record Env : Type 0 where
  pub juror_panel_size : ℕ
  pub juror_readiness_seconds : ℕ
  pub juror_vote_seconds : ℕ
  pub stage_submission_seconds : ℕ
  pub voting_hard_timeout_seconds : ℕ
  pub available_jurors : List String
  pub allowlist : Option (List String)
  pub drand : DrandRoundData
  pub beacon_fails : String → Bool
  pub platform : Platform

abbrev pub add_seconds : ℕ → ℕ → ℕ
add_seconds at seconds = at + seconds * 1000

pub data Mode : Type 0 where
  readiness voting : Mode

-- `!["replaced", "timed_out"].includes(status)`
abbrev pub is_active : MemberStatus → Bool
is_active MemberStatus.replaced = false
is_active MemberStatus.timed_out = false
is_active _ = true

unfoldable pub active_ids : List Member → List String
active_ids panel = map (λ m. m.juror_id) (keep (λ m. is_active m.member_status) panel)

abbrev if_any : Option String → List String
if_any none = []
if_any (some id) = id ∷ []

-- The ids that no replacement may have: the active jurors and the parties.
unfoldable pub active_set : CaseRow → List Member → List String
unfolding active_ids
active_set rec panel = active_ids panel ++ (rec.prosecution_agent_id ∷ if_any rec.defence_agent_id)

abbrev pub allowed : Option (List String) → String → Bool
allowed none id = true
allowed (some allowlist) id = has allowlist id

unfoldable pub list_eligible_jurors : Env → List String → List String
list_eligible_jurors env excluded =
    keep (λ id. allowed env.allowlist id && not (has excluded id)) env.available_jurors

abbrev pub if_allowed : Option (List String) → Option Candidate → Option Candidate
if_allowed allowlist none = none
if_allowed allowlist (some c) = if allowed allowlist c.agent_id then some c else none

unfoldable pub from_proof : Env → Option JurySelectionProof → List String → Option Candidate
from_proof env none excluded = none
from_proof env (some proof) excluded =
    if_allowed env.allowlist (pick_replacement_from_proof proof excluded)

-- `{ agentId: selectedJurors[0], scoreHash: scoredCandidates[0].scoreHash }`. A draw of one juror
-- from a pool that is not empty does not fail.
abbrev pub head_candidate : List String → List Candidate → Option Candidate
head_candidate (agent_id ∷ _) (c ∷ _) =
    some (record { agent_id = agent_id; score_hash = c.score_hash })
head_candidate _ _ = none

abbrev pub first_drawn : Result JurySelectionResult → Option Candidate
first_drawn (ok r) = head_candidate r.selected_jurors r.scored_candidates
first_drawn (err e) = none

unfoldable pub drawn : Env → CaseRow → List String → Option Candidate
drawn env rec [] = none
drawn env rec (id ∷ ids) = first_drawn (
    select_jury_deterministically env.platform (record {
      case_id = rec.case_id;
      eligible_juror_ids = id ∷ ids;
      drand = env.drand;
      jury_size = 1;
    }))

-- The candidate, and whether a new draw was made for it.
abbrev pub or_drawn : Option Candidate → Option Candidate → Option (Candidate × Bool)
or_drawn (some c) later = some (c, false)
or_drawn none (some c) = some (c, true)
or_drawn none none = none

unfoldable pub choose_replacement : Env → CaseRow → List Member → Option (Candidate × Bool)
unfolding from_proof drawn list_eligible_jurors active_set
choose_replacement env rec panel =
    let excluded = active_set rec panel in
    or_drawn (from_proof env rec.selection_proof excluded)
      (drawn env rec (list_eligible_jurors env excluded))

abbrev is_exhausted : List String → Bool
is_exhausted [] = true
is_exhausted (id ∷ ids) = false

-- No candidate of the proof is left, and the query has some: the beacon is called.
unfoldable pub needs_draw : Env → CaseRow → List Member → Bool
unfolding from_proof list_eligible_jurors active_set
needs_draw env rec panel =
    let excluded = active_set rec panel in
    not (is_some (from_proof env rec.selection_proof excluded))
    && not (is_exhausted (list_eligible_jurors env excluded))

-- `replaceJuror` throws.
unfoldable pub replacement_throws : Env → CaseRow → String → CaseDb → Bool
unfolding needs_draw
replacement_throws env rec juror_id db = env.beacon_fails juror_id && needs_draw env rec db.panel

abbrev pub seat_of : Mode → ℕ → String → Candidate → Member
seat_of readiness deadline juror_id c = record {
  juror_id = c.agent_id;
  score_hash = c.score_hash;
  member_status = MemberStatus.pending_ready;
  ready_deadline_at = some deadline;
  ready_confirmed_at = none;
  voting_deadline_at = none;
  replacement_of_juror_id = some juror_id;
  replaced_by_juror_id = none;
}
seat_of voting deadline juror_id c = record {
  juror_id = c.agent_id;
  score_hash = c.score_hash;
  member_status = MemberStatus.active_voting;
  ready_deadline_at = none;
  ready_confirmed_at = none;
  voting_deadline_at = some deadline;
  replacement_of_juror_id = some juror_id;
  replaced_by_juror_id = none;
}

abbrev pub deadline_of : Env → Mode → ℕ → ℕ
deadline_of env readiness now = add_seconds now env.juror_readiness_seconds
deadline_of env voting now = add_seconds now env.juror_vote_seconds

abbrev count_replacement : Mode → CaseDb → CaseDb
count_replacement readiness db = increment_replacement_count_ready db
count_replacement voting db = increment_replacement_count_vote db

abbrev stage_of_mode : Mode → SessionStage
stage_of_mode readiness = SessionStage.jury_readiness
stage_of_mode voting = SessionStage.voting

-- The writes once a candidate is found, in the order of the source.
unfoldable pub seat_replacement : Env → String → Mode → ℕ → Candidate × Bool → CaseDb → CaseDb
unfolding mark_juror_timed_out mark_juror_replaced add_replacement_juror
    increment_replacement_count_ready increment_replacement_count_vote create_jury_selection_run
seat_replacement env juror_id mode now (c, is_drawn) db =
    let db1 = if is_drawn then create_jury_selection_run env.drand db else db in
    let db2 = mark_juror_timed_out juror_id db1 in
    let db3 = mark_juror_replaced juror_id c.agent_id db2 in
    let db4 = add_replacement_juror (seat_of mode (deadline_of env mode now) juror_id c) db3 in
    let db5 = count_replacement mode db4 in
    append_transcript_event ActorRole.court EventType.juror_replaced (some (stage_of_mode mode)) db5

abbrev pub seat_if_found : Env → String → Mode → ℕ → Option (Candidate × Bool) → CaseDb → CaseDb
seat_if_found env juror_id mode now none db = db
seat_if_found env juror_id mode now (some found) db =
    seat_replacement env juror_id mode now found db

-- The rows after it; where the beacon throws, nothing has been written yet.
unfoldable pub replace_juror : Env → CaseRow → String → Mode → ℕ → CaseDb → CaseDb
unfolding seat_replacement replacement_throws
replace_juror env rec juror_id mode now db =
    if replacement_throws env rec juror_id db
    then db
    else seat_if_found env juror_id mode now (choose_replacement env rec db.panel) db
