-- ===== src/Jury/Replacement.antt =====
-- Replacements drawn from the proof: the best score that is not excluded.
use open_cawt.Base.{
  String, none, some, List, [], ◌∷◌, true, false, ◌≡◌, ◌↔◌, arith, All, or_else, eq_iff, str_eq,
  ◌||◌, subst, Bool-cases, inl, inr,
}
use open_cawt.Base.Sets.{has, has-append}
use open_cawt.Jury.{
  Candidate, JurySelectionProof, pick_first, pick_replacement_from_proof, with_replacement_in_proof,
}

-- `c` is in the list, not excluded, and all before it are.
pub data IsFirstFree (excluded : List String) (c : Candidate) : List Candidate → Type 0 where
  here :
      {rest : List Candidate} → has excluded c.agent_id ≡ false → IsFirstFree excluded c (c ∷ rest)
  later :
      {d : Candidate} {rest : List Candidate}
      → has excluded d.agent_id ≡ true
      → IsFirstFree excluded c rest
      → IsFirstFree excluded c (d ∷ rest)

pick_first_sound :
    (cs : List Candidate) (excluded : List String) {c : Candidate}
    → pick_first cs excluded ≡ some c
    → IsFirstFree excluded c cs
unfolding pick_first
pick_first_sound [] excluded h = cc
pick_first_sound (d ∷ cs) excluded {c} h = elim (Bool-cases (has excluded d.agent_id)) [
  | inl e ↦ later e (pick_first_sound cs excluded (ground arith))
  | inr e ↦
      let same : d ≡ c = ground arith in subst (λ x. IsFirstFree excluded x (d ∷ cs)) same (here e)
]

pick_first_complete :
    (cs : List Candidate) (excluded : List String) {c : Candidate}
    → IsFirstFree excluded c cs
    → pick_first cs excluded ≡ some c
unfolding pick_first
pick_first_complete [] excluded f = elim f [ ]
pick_first_complete (d ∷ cs) excluded (here e) = rw e
pick_first_complete (d ∷ cs) excluded (later e f) = rw e (pick_first_complete cs excluded f)

pick_first-none :
    (cs : List Candidate) (excluded : List String)
    → (pick_first cs excluded ≡ none) ↔ All (λ c. has excluded c.agent_id ≡ true) cs
unfolding pick_first
pick_first-none [] excluded = (λ h. tt, λ h. ground arith)
pick_first-none (d ∷ cs) excluded =
    let ih = pick_first-none cs excluded in (λ h. ground (arith, ih.0), λ h. ground (arith, ih.1))

-- The replacement is the first candidate of the proof that is not excluded, and there is none
-- exactly when every candidate is excluded.
pub pick_replacement_iff :
    (proof : JurySelectionProof) (excluded : List String) (c : Candidate)
    → ((pick_replacement_from_proof proof excluded ≡ some c)
        ↔ IsFirstFree excluded c proof.candidate_scores)
      × ((pick_replacement_from_proof proof excluded ≡ none)
          ↔ All (λ d. has excluded d.agent_id ≡ true) proof.candidate_scores)
unfolding pick_replacement_from_proof
pick_replacement_iff proof excluded c = (
  (
    pick_first_sound proof.candidate_scores excluded,
    pick_first_complete proof.candidate_scores excluded,
  ),
  pick_first-none proof.candidate_scores excluded,
)

-- Recording a replacement adds its id to those recorded and removes none, and recording it a second
-- time changes nothing.
pub with_replacement_lem :
    (proof : JurySelectionProof) (id a : String)
    → (has (or_else (with_replacement_in_proof proof id).replacement_jurors []) a
        ≡ (has (or_else proof.replacement_jurors []) a || str_eq id a))
      × (with_replacement_in_proof (with_replacement_in_proof proof id) id
          ≡ with_replacement_in_proof proof id)
unfolding with_replacement_in_proof
with_replacement_lem proof id a = (
  ground (arith, has-append (or_else proof.replacement_jurors []) (id ∷ []) a, eq_iff id a),
  ground (arith, has-append (or_else proof.replacement_jurors []) (id ∷ []) id, eq_iff id id),
)
