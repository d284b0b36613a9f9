-- ===== src/Defence/Claimable.antt =====
-- Who gets the defence of a case.
use open_cawt.Base.{
  String, Bool, true, false, not, ◌&&◌, ◌||◌, Option, none, some, ◌≡◌, ◌↔◌, refl, arith, str_eq,
  if◌then◌else◌, if_elim, Option-cases, subst, inl, inr,
}
use open_cawt.Session.Types.{CaseDb}
use open_cawt.Defence.{
  ClaimStatus, ClaimInput, given, can_be_claimed, is_juror, is_over, is_reserved, refusal, assign,
  schedule, unless_refused, claim_defence_assignment, is_named,
}

abbrev pub is_assigned : ClaimStatus → Bool
is_assigned ClaimStatus.assigned_accepted = true
is_assigned ClaimStatus.assigned_volunteered = true
is_assigned _ = false

-- The conditions under which an agent gets the defence.
pub record MayDefend (input : ClaimInput) (db : CaseDb) : Type 0 where
  pub open_status : can_be_claimed db.row.status ≡ true
  pub not_prosecution : str_eq input.agent_id db.row.prosecution_agent_id ≡ false
  pub not_juror : is_juror input.agent_id db ≡ false
  pub wanted : (given db.row.defendant_agent_id || db.row.open_defence) ≡ true
  pub free : db.row.defence_agent_id ≡ none
  pub in_time : is_over db.row.defence_window_deadline input.now ≡ false
  pub not_reserved : is_reserved input db.row ≡ false

-- A refusal is no assignment.
abbrev pub lets : Option ClaimStatus → Bool
lets none = true
lets (some status) = is_assigned status

-- The tests of `refusal`, in their order.
abbrev chain : Bool → Bool → Bool → Bool → Bool → Bool → Bool → Option ClaimStatus
chain open_status prosecution juror wanted taken over reserved =
    if not open_status
    then some ClaimStatus.not_open
    else if prosecution
    then some ClaimStatus.defence_cannot_be_prosecution
    else if juror
    then some ClaimStatus.not_open
    else if wanted
    then some ClaimStatus.not_open
    else if taken
    then some ClaimStatus.already_taken
    else if over
    then some ClaimStatus.window_closed
    else if reserved
    then some ClaimStatus.reserved_for_named_defendant
    else none

record Passes (a b c d e f g : Bool) : Type 0 where
  p1 : a ≡ true
  p2 : b ≡ false
  p3 : c ≡ false
  p4 : d ≡ false
  p5 : e ≡ false
  p6 : f ≡ false
  p7 : g ≡ false

passes : (a b c d e f g : Bool) → lets (chain a b c d e f g) ≡ true → Passes a b c d e f g
passes a b c d e f g h = record {
  p1 = ground arith;
  p2 = ground arith;
  p3 = ground arith;
  p4 = ground arith;
  p5 = ground arith;
  p6 = ground arith;
  p7 = ground arith;
}

chain-none : (a b c d e f g : Bool) → lets (chain a b c d e f g) ≡ true → chain a b c d e f g ≡ none
chain-none a b c d e f g h = ground arith

lets_by :
    (o : Option ClaimStatus) (input : ClaimInput) (db : CaseDb)
    → is_assigned (unless_refused o input db).1 ≡ true
    → lets o ≡ true
unfolding schedule
lets_by none input db h = refl
lets_by (some status) input db h = h

pub taken-refused :
    (input : ClaimInput) (db : CaseDb) (id : String)
    → db.row.defence_agent_id ≡ some id
    → is_assigned (assign input db).1 ≡ false
unfolding schedule
taken-refused input db id e = simp e

free_by :
    (input : ClaimInput) (db : CaseDb)
    → is_assigned (assign input db).1 ≡ true
    → db.row.defence_agent_id ≡ none
unfolding schedule
free_by input db h = elim (Option-cases db.row.defence_agent_id) [
  | inl e ↦ e
  | inr (id, e) ↦ cc (taken-refused input db id e)
]

wanted_by : (a b : Bool) → (not a && not b) ≡ false → (a || b) ≡ true
wanted_by a b h = ground arith

pub lets-refusal :
    (input : ClaimInput) (db : CaseDb) → lets (refusal input db) ≡ true → refusal input db ≡ none
unfolding refusal
lets-refusal input db l =
    chain-none (can_be_claimed db.row.status) (str_eq input.agent_id db.row.prosecution_agent_id)
      (is_juror input.agent_id db)
      (not (given db.row.defendant_agent_id) && not db.row.open_defence)
      (given db.row.defence_agent_id) (is_over db.row.defence_window_deadline input.now)
      (is_reserved input db.row) l

-- A claim that is assigned was not refused.
pub refusal-none :
    (input : ClaimInput) (db : CaseDb)
    → is_assigned (claim_defence_assignment input db).1 ≡ true
    → refusal input db ≡ none
unfolding claim_defence_assignment schedule
refusal-none input db h = lets-refusal input db (lets_by (refusal input db) input db h)

pub assigned-MayDefend :
    (input : ClaimInput) (db : CaseDb)
    → is_assigned (claim_defence_assignment input db).1 ≡ true
    → MayDefend input db
unfolding claim_defence_assignment refusal schedule
assigned-MayDefend input db h =
    let l = lets_by (refusal input db) input db h in
    let p =
      passes (can_be_claimed db.row.status) (str_eq input.agent_id db.row.prosecution_agent_id)
        (is_juror input.agent_id db)
        (not (given db.row.defendant_agent_id) && not db.row.open_defence)
        (given db.row.defence_agent_id) (is_over db.row.defence_window_deadline input.now)
        (is_reserved input db.row) l in
    record {
      open_status = p.p1;
      not_prosecution = p.p2;
      not_juror = p.p3;
      wanted = wanted_by (given db.row.defendant_agent_id) db.row.open_defence p.p4;
      free = free_by input db (
          subst (λ o. is_assigned (unless_refused o input db).1 ≡ true) (refusal-none input db h)
            h);
      in_time = p.p6;
      not_reserved = p.p7;
    }

unwanted_by : (a b : Bool) → (a || b) ≡ true → (not a && not b) ≡ false
unwanted_by a b h = ground arith

MayDefend-assigned :
    (input : ClaimInput) (db : CaseDb)
    → MayDefend input db
    → is_assigned (claim_defence_assignment input db).1 ≡ true
unfolding claim_defence_assignment refusal schedule
MayDefend-assigned input db m =
    simp
      (
        m.open_status,
        m.not_prosecution,
        m.not_juror,
        m.free,
        m.in_time,
        m.not_reserved,
        unwanted_by (given db.row.defendant_agent_id) db.row.open_defence m.wanted,
      )
      (if_elim (λ (s : ClaimStatus). is_assigned s ≡ true) (is_named input db.row) (λ _. refl)
        (λ _. refl))

-- An agent gets the defence of a case exactly when the case can still be claimed, the agent is
-- neither its prosecution nor one of its jurors, the defence is open or meant for a named
-- defendant, nobody has it, its window is not over, and it is not reserved for another agent.
pub claim-Assigned_iff :
    (input : ClaimInput) (db : CaseDb)
    → (is_assigned (claim_defence_assignment input db).1 ≡ true) ↔ MayDefend input db
claim-Assigned_iff input db = (assigned-MayDefend input db, MayDefend-assigned input db)
