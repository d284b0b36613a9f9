-- ===== src/Session/Panel/Choice.antt =====
-- Who may replace a juror.
use open_cawt.Base.{
  String, Bool, true, false, Option, none, some, List, [], ◌∷◌, ◌≡◌, refl, arith, Bool-cases, inl,
  inr, ◌⊎◌, not, ◌&&◌, eq_iff, subst,
}
use open_cawt.Base.Errors.{Result, ok, err}
use open_cawt.Base.Sets.{has, has-keep}
use open_cawt.Jury.{Candidate, JurySelectionProof, JurySelectionResult, pick_replacement_from_proof}
use open_cawt.Jury.Replacement.{IsFirstFree, here, later, pick_replacement_iff}
use open_cawt.Jury.Panel.{select_jury-eligible}
use open_cawt.Session.Types.{CaseRow, Member}
use open_cawt.Session.Panel.{
  Env, active_set, allowed, list_eligible_jurors, from_proof, head_candidate, first_drawn, drawn,
  or_drawn, choose_replacement, if_allowed,
}

-- A juror who is free to be seated: neither active on the panel nor a party, and on the allowlist
-- where there is one.
pub record IsFree (env : Env) (rec : CaseRow) (panel : List Member) (id : String) : Type 0 where
  pub not_taken : has (active_set rec panel) id ≡ false
  pub on_allowlist : allowed env.allowlist id ≡ true

IsFirstFree-free :
    {excluded : List String} {c : Candidate} {cs : List Candidate}
    → IsFirstFree excluded c cs
    → has excluded c.agent_id ≡ false
IsFirstFree-free (here h) = h
IsFirstFree-free (later h f) = IsFirstFree-free f

if_allowed-free :
    (allowlist : Option (List String)) (o : Option Candidate) (excluded : List String)
    {c : Candidate}
    → ((d : Candidate) → o ≡ some d → has excluded d.agent_id ≡ false)
    → if_allowed allowlist o ≡ some c
    → (has excluded c.agent_id ≡ false) × (allowed allowlist c.agent_id ≡ true)
if_allowed-free allowlist none excluded free h = cc
if_allowed-free allowlist (some d) excluded {c} free h =
    let k = free d refl in
    elim (Bool-cases (allowed allowlist d.agent_id)) [
      | inl e ↦
          let same : d ≡ c = ground arith in
          subst
            (λ (x : Candidate).
              (has excluded x.agent_id ≡ false) × (allowed allowlist x.agent_id ≡ true))
            same (k, e)
      | inr e ↦ ground arith
    ]

from_proof-free :
    (env : Env) (proof : Option JurySelectionProof) (excluded : List String) {c : Candidate}
    → from_proof env proof excluded ≡ some c
    → (has excluded c.agent_id ≡ false) × (allowed env.allowlist c.agent_id ≡ true)
unfolding from_proof
from_proof-free env none excluded h = cc
from_proof-free env (some proof) excluded h =
    if_allowed-free env.allowlist (pick_replacement_from_proof proof excluded) excluded
      (λ d e. IsFirstFree-free ((pick_replacement_iff proof excluded d).0.0 e)) h

first_drawn-selected :
    (o : Result JurySelectionResult) {c : Candidate}
    → first_drawn o ≡ some c
    → (r : JurySelectionResult) × ((o ≡ ok r) × (has r.selected_jurors c.agent_id ≡ true))
first_drawn-selected (err e) h = cc
first_drawn-selected (ok r) {c} h = (r, (refl, head r.selected_jurors r.scored_candidates h))
  where
    head :
        (ids : List String) (cs : List Candidate)
        → head_candidate ids cs ≡ some c
        → has ids c.agent_id ≡ true
    head [] cs h = cc
    head (x ∷ xs) [] h = cc
    head (x ∷ xs) (d ∷ cs) h =
        let same : x ≡ c.agent_id = ground arith in ground (arith, eq_iff x c.agent_id)

drawn-eligible :
    (env : Env) (rec : CaseRow) (ids : List String) {c : Candidate}
    → drawn env rec ids ≡ some c
    → has ids c.agent_id ≡ true
unfolding drawn
drawn-eligible env rec [] h = cc
drawn-eligible env rec (x ∷ xs) {c} h =
    let (r, (e, k)) = first_drawn-selected _ h in select_jury-eligible env.platform _ e c.agent_id k

list_eligible-IsFree :
    (env : Env) (rec : CaseRow) (panel : List Member) (id : String)
    → has (list_eligible_jurors env (active_set rec panel)) id ≡ true
    → IsFree env rec panel id
unfolding list_eligible_jurors
list_eligible-IsFree env rec panel id h =
    let k =
      has-keep (λ x. allowed env.allowlist x && not (has (active_set rec panel) x))
        env.available_jurors id h in
    record { not_taken = ground arith; on_allowlist = ground arith }

or_drawn-cases :
    (a b : Option Candidate) {c : Candidate} {is_drawn : Bool}
    → or_drawn a b ≡ some (c, is_drawn)
    → (a ≡ some c) ⊎ (b ≡ some c)
or_drawn-cases (some d) b h = inl (ground arith)
or_drawn-cases none (some d) h = inr (ground arith)
or_drawn-cases none none h = cc

-- A replacement that is found is free to be seated, whether it comes from the proof or from a new
-- draw.
pub choose_replacement-IsFree :
    (env : Env) (rec : CaseRow) (panel : List Member) (c : Candidate) (is_drawn : Bool)
    → choose_replacement env rec panel ≡ some (c, is_drawn)
    → IsFree env rec panel c.agent_id
unfolding choose_replacement
choose_replacement-IsFree env rec panel c is_drawn h = elim (or_drawn-cases _ _ h) [
  | inl e ↦
      let (a, b) = from_proof-free env rec.selection_proof _ e in
      record { not_taken = a; on_allowlist = b }
  | inr e ↦ list_eligible-IsFree env rec panel c.agent_id (drawn-eligible env rec _ e)
]
