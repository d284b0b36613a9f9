-- ===== src/Jury/Panel.antt =====
-- What the draw seats: distinct eligible jurors, as many as asked for, with the lowest scores.
use open_cawt.Base.{
  ℕ, zero, suc, ◌≤◌, String, List, [], ◌∷◌, Bool, true, ◌≡◌, refl, sym, ◌∙◌, ap, subst, arith, map,
  Nodup, All, All-mono, length, take, drop, map-take, length-map, length-take, str_le, str_le_refl,
  str_le_total, str_le_trans, str_le_antisymm, eq_iff,
}
use open_cawt.Base.Errors.{ok}
use open_cawt.Base.Perms.{length-perm}
use open_cawt.Base.Sets.{
  has, unique_sorted, has-take, take-Nodup, has-perm, has-unique_sorted, unique_sorted-Nodup,
}
use open_cawt.Base.Sorting.{sort, sort-perm, sort-IsSorted, IsPreorder, IsSorted}
use mathlib.Core.List.{Perm}
use mathlib.Core.List.Perm
use open_cawt.Jury.{
  Platform, Candidate, JurySelectionInput, JurySelectionResult, ahead, score, seed_of, select_from,
  select_jury_deterministically,
}

-- The first `n` of a sorted list are at most the others.
sorted_split {ℓ} :
    {A : Type ℓ} (le : A → A → Bool) (n : ℕ) (l : List A)
    → IsSorted le l
    → All (λ x. All (λ y. le x y ≡ true) (drop n l)) (take n l)
sorted_split le zero l s = tt
sorted_split le (suc n) [] s = tt
sorted_split le (suc n) (x ∷ xs) (a, s) = (later n xs a, sorted_split le n xs s)
  where
    later : (k : ℕ) (l : List _) → All (λ y. le x y ≡ true) l → All (λ y. le x y ≡ true) (drop k l)
    later zero l a = a
    later (suc k) [] a = tt
    later (suc k) (y ∷ l) (p, a) = later k l a

-- A panel of the right size whose members are distinct and eligible; the candidates are the
-- eligible ids with their scores, and no candidate left out has a lower score than one seated.
pub record IsPanel (p : Platform) (input : JurySelectionInput) (r : JurySelectionResult)
    : Type 0 where
  pub size : length r.selected_jurors ≡ input.jury_size
  pub distinct : Nodup r.selected_jurors
  pub eligible :
      (a : String) → has r.selected_jurors a ≡ true → has input.eligible_juror_ids a ≡ true
  pub candidates :
      Perm r.scored_candidates
        (map (score p (seed_of p input)) (unique_sorted input.eligible_juror_ids))
  pub lowest :
      All
        (λ c.
          All
            (λ d. str_le c.score_hash d.score_hash ≡ true)
            (drop input.jury_size r.scored_candidates))
        (take input.jury_size r.scored_candidates)

module _ (p : Platform) where
  score_le_of_ahead :
      (c d : Candidate) → ahead p c d ≡ true → str_le c.score_hash d.score_hash ≡ true
  unfolding ahead
  score_le_of_ahead c d h =
      ground (arith, eq_iff c.score_hash d.score_hash, str_le_refl c.score_hash)

  ids-score :
      (seed : String) (ids : List String) → map (λ c. c.agent_id) (map (score p seed) ids) ≡ ids
  unfolding score
  ids-score seed [] = refl
  ids-score seed (x ∷ xs) = ap (◌∷◌ x) (ids-score seed xs)

  ahead-IsPreorder : IsPreorder p.locale_le → IsPreorder (ahead p)
  unfolding ahead
  ahead-IsPreorder collation = record {
    total = λ a b h. ground (
      arith,
      str_le_total a.score_hash b.score_hash,
      collation.total a.agent_id b.agent_id,
      eq_iff a.score_hash b.score_hash,
      eq_iff b.score_hash a.score_hash,
    );
    trans = λ a b c h k. ground (
      arith,
      str_le_trans a.score_hash b.score_hash c.score_hash,
      str_le_antisymm a.score_hash b.score_hash,
      collation.trans a.agent_id b.agent_id c.agent_id,
      eq_iff a.score_hash b.score_hash,
      eq_iff b.score_hash c.score_hash,
      eq_iff a.score_hash c.score_hash,
    );
  }

module _ (p : Platform) (input : JurySelectionInput) where
  ids : List String
  ids = unique_sorted input.eligible_juror_ids

  scored : List Candidate
  scored = sort (ahead p) (map (score p (seed_of p input)) ids)

  ranked : List String
  ranked = map (λ c. c.agent_id) scored

  ranked-perm : Perm ranked ids
  unfolding ranked scored ids
  ranked-perm = subst (Perm ranked) (ids-score p (seed_of p input) ids) (
      Perm.map (λ (c : Candidate). c.agent_id)
        (sort-perm (ahead p) (map (score p (seed_of p input)) ids)))

  selected-eligible :
      (a : String)
      → has (select_from p input ids).selected_jurors a ≡ true
      → has input.eligible_juror_ids a ≡ true
  unfolding select_from ids scored ranked
  selected-eligible a h =
      sym (has-unique_sorted input.eligible_juror_ids a)
      ∙ sym (has-perm ranked-perm a)
      ∙ has-take input.jury_size ranked a
          (rw (map-take (λ (c : Candidate). c.agent_id) input.jury_size scored) at h)

  panel :
      IsPreorder p.locale_le
      → input.jury_size ≤ length ids
      → IsPanel p input (select_from p input ids)
  unfolding select_from ids scored ranked
  panel collation enough = record {
    size =
        length-map (λ (c : Candidate). c.agent_id) (take input.jury_size scored)
        ∙ length-take input.jury_size scored
        ∙ omega (
          arith,
          length-perm (sort-perm (ahead p) (map (score p (seed_of p input)) ids)),
          length-map (score p (seed_of p input)) ids,
        );
    distinct = subst Nodup (sym (map-take (λ (c : Candidate). c.agent_id) input.jury_size scored)) (
        take-Nodup input.jury_size
          (Perm.nodup (Perm.symm ranked-perm) (unique_sorted-Nodup input.eligible_juror_ids)));
    eligible = selected-eligible;
    candidates = sort-perm (ahead p) (map (score p (seed_of p input)) ids);
    lowest =
        All-mono (λ c. All-mono (score_le_of_ahead p c) (drop input.jury_size scored))
          (take input.jury_size scored)
          (sorted_split (ahead p) input.jury_size scored (
            sort-IsSorted (ahead p) (ahead-IsPreorder p collation)
              (map (score p (seed_of p input)) ids)));
  }

  -- Where the order of the locale is a preorder and there are enough distinct eligible ids, the draw
  -- returns a panel of the right size of distinct eligible jurors; the scored candidates are the
  -- distinct eligible ids, and none that is left out has a lower score than one that is seated.
  pub select_jury-IsPanel :
      IsPreorder p.locale_le
      → input.jury_size ≤ length (unique_sorted input.eligible_juror_ids)
      → (r : JurySelectionResult) × ((select_jury_deterministically p input ≡ ok r)
          × IsPanel p input r)
  unfolding select_jury_deterministically ids
  select_jury-IsPanel collation enough = (
    select_from p input (unique_sorted input.eligible_juror_ids),
    (ground arith, panel collation enough),
  )

  pub select_jury-eligible :
      {r : JurySelectionResult}
      → select_jury_deterministically p input ≡ ok r
      → (a : String) → has r.selected_jurors a ≡ true
      → has input.eligible_juror_ids a ≡ true
  unfolding select_jury_deterministically ids
  select_jury-eligible {r} h a k =
      let same : select_from p input (unique_sorted input.eligible_juror_ids) ≡ r = ground arith in
      selected-eligible a
        (subst (λ (q : JurySelectionResult). has q.selected_jurors a ≡ true) (sym same) k)

  -- A juror who is drawn is one of the scored candidates.
  pub select_jury-scored :
      {r : JurySelectionResult}
      → select_jury_deterministically p input ≡ ok r
      → (a : String) → has r.selected_jurors a ≡ true
      → has (map (λ (c : Candidate). c.agent_id) r.scored_candidates) a ≡ true
  unfolding select_jury_deterministically select_from ids scored ranked
  select_jury-scored {r} h a k =
      let same : select_from p input (unique_sorted input.eligible_juror_ids) ≡ r = ground arith in
      let k' = subst (λ (q : JurySelectionResult). has q.selected_jurors a ≡ true) (sym same) k in
      subst
        (λ (q : JurySelectionResult).
          has (map (λ (c : Candidate). c.agent_id) q.scored_candidates) a ≡ true)
        same
        (has-take input.jury_size ranked a
          (rw (map-take (λ (c : Candidate). c.agent_id) input.jury_size scored) at k'))
