-- ===== src/Verdict/Remedies/Laws.antt =====
-- The majority remedy is the one asked for most often, and the first of those by the alphabet.
use open_cawt.Base.{
  ℕ, ◌+◌, ◌≤◌, ◌<◌, List, [], ◌∷◌, true, ◌≡◌, ◌≢◌, refl, ap, arith, if◌then◌else◌, count_if, All,
}
use open_cawt.Base.Sorting.{sort, IsPreorder, IsSorted, sort-IsSorted, sort-ne-nil, All-sort_iff}
use open_cawt.Verdict.Tally.{Remedy, is_remedy, alphabetical}
use open_cawt.Verdict.Remedies.{bump, count_from, before, first_key, majority_remedy}

pub alphabetical_injective : (a b : Remedy) → alphabetical a ≡ alphabetical b → a ≡ b
unfolding alphabetical
alphabetical_injective a b h = ground arith

before-IsPreorder : IsPreorder before
unfolding before
before-IsPreorder = record { total = λ a b h. ground arith; trans = λ a b c h k. ground arith }

held : Remedy → List (Remedy × ℕ) → ℕ
held r [] = 0
held r ((k, n) ∷ counts) = if is_remedy k r then n else held r counts

-- No key occurs twice, and each has a count.
IsFresh : List (Remedy × ℕ) → Type 0
IsFresh [] = Unit
IsFresh ((k, n) ∷ counts) = (held k counts ≡ 0) × (0 < n) × IsFresh counts

held-bump :
    (r s : Remedy) (counts : List (Remedy × ℕ))
    → held s (bump r counts) ≡ held s counts + (if is_remedy s r then 1 else 0)
unfolding held bump
held-bump r s [] = ground arith
held-bump r s ((k, n) ∷ counts) = ground (arith, held-bump r s counts)

bump-IsFresh : (r : Remedy) (counts : List (Remedy × ℕ)) → IsFresh counts → IsFresh (bump r counts)
unfolding held bump IsFresh
bump-IsFresh r [] h = ground arith
bump-IsFresh r ((k, n) ∷ counts) h = ground (arith, bump-IsFresh r counts, held-bump r k counts)

single-IsFresh : (r : Remedy) → IsFresh ((r, 1) ∷ [])
unfolding IsFresh held
single-IsFresh r = ground arith

count_from-IsFresh :
    (counts : List (Remedy × ℕ)) (rs : List Remedy)
    → IsFresh counts
    → IsFresh (count_from counts rs)
unfolding count_from
count_from-IsFresh counts [] h = h
count_from-IsFresh counts (r ∷ rs) h =
    count_from-IsFresh (bump r counts) rs (bump-IsFresh r counts h)

held-count_from :
    (s : Remedy) (counts : List (Remedy × ℕ)) (rs : List Remedy)
    → held s (count_from counts rs) ≡ held s counts + count_if (is_remedy s) rs
unfolding count_from
held-count_from s counts [] = omega arith
held-count_from s counts (r ∷ rs) =
    ground (arith, held-count_from s (bump r counts) rs, held-bump r s counts)

-- `r` is asked for most often, and comes first in the alphabet of those that are.
pub record IsMost (rs : List Remedy) (r : Remedy) : Type 0 where
  pub asked : 0 < count_if (is_remedy r) rs
  pub most : (s : Remedy) → count_if (is_remedy s) rs ≤ count_if (is_remedy r) rs
  pub first_of_ties :
      (s : Remedy)
      → count_if (is_remedy s) rs ≡ count_if (is_remedy r) rs
      → alphabetical r ≤ alphabetical s

abbrev Leads : Remedy × ℕ → List (Remedy × ℕ) → Type 0
Leads e counts = All (λ e'. before e e' ≡ true) counts

-- The entry of a key is its count.
abbrev Agrees : List (Remedy × ℕ) → Remedy × ℕ → Type 0
Agrees counts e = (held e.0 counts ≡ e.1) × (0 < e.1)

held-Agrees : (counts : List (Remedy × ℕ)) → IsFresh counts → All (Agrees counts) counts
unfolding held IsFresh
held-Agrees [] h = tt
held-Agrees ((k, n) ∷ counts) (absent, pos, h) =
    (ground arith, weaken counts (held-Agrees counts h))
  where
    weaken : (es : List (Remedy × ℕ)) → All (Agrees counts) es → All (Agrees ((k, n) ∷ counts)) es
    weaken [] a = tt
    weaken ((j, m) ∷ es) (a, as_rest) =
        (ground (arith, alphabetical_injective k j), weaken es as_rest)

held_of_Leads :
    (k : Remedy) (n : ℕ) (s : Remedy) (counts : List (Remedy × ℕ))
    → Leads (k, n) counts
    → (held s counts ≤ n) × (held s counts ≡ n → 0 < n → alphabetical k ≤ alphabetical s)
unfolding held before
held_of_Leads k n s [] h = ground arith
held_of_Leads k n s ((j, m) ∷ counts) h = ground (arith, held_of_Leads k n s counts)

before_refl : (e : Remedy × ℕ) → before e e ≡ true
unfolding before
before_refl e = ground arith

-- The key that is chosen has an entry that leads.
Chosen : List (Remedy × ℕ) → Remedy → Type 0
Chosen counts r = (n : ℕ) × Agrees counts (r, n) × Leads (r, n) counts

first_key-Chosen :
    (fallback : Remedy) (counts l : List (Remedy × ℕ))
    → IsSorted before l
    → All (Agrees counts) l
    → ((x : Remedy × ℕ) → Leads x l → Leads x counts)
    → l ≢ []
    → Chosen counts (first_key fallback l)
unfolding Chosen
first_key-Chosen fallback counts [] s a back ne = absurd (ne refl)
first_key-Chosen fallback counts ((k, n) ∷ l) (lead, s) (agree, a) back ne =
    (n, agree, back (k, n) (before_refl (k, n), lead))

sort-Chosen :
    (fallback : Remedy) (counts : List (Remedy × ℕ))
    → IsFresh counts
    → counts ≢ []
    → Chosen counts (first_key fallback (sort before counts))
sort-Chosen fallback counts fresh ne =
    first_key-Chosen fallback counts (sort before counts)
      (sort-IsSorted before before-IsPreorder counts)
      ((All-sort_iff before (Agrees counts) counts).1 (held-Agrees counts fresh))
      (λ x. (All-sort_iff before (λ y. before x y ≡ true) counts).0) (sort-ne-nil before counts ne)

Chosen-IsMost :
    (rs : List Remedy) (counts : List (Remedy × ℕ)) (k : Remedy)
    → ((s : Remedy) → held s counts ≡ count_if (is_remedy s) rs)
    → Chosen counts k
    → IsMost rs k
unfolding Chosen
Chosen-IsMost rs counts k same (n, (agree, pos), lead) = record {
  asked = omega (arith, same k);
  most = λ s. omega (arith, same k, same s, held_of_Leads k n s counts lead);
  first_of_ties = λ s tie. (held_of_Leads k n s counts lead).1 (omega (arith, same k, same s)) pos;
}

held_all :
    (r : Remedy) (rs : List Remedy) (s : Remedy)
    → held s (count_from ((r, 1) ∷ []) rs) ≡ count_if (is_remedy s) (r ∷ rs)
unfolding held
held_all r rs s = ground (arith, held-count_from s ((r, 1) ∷ []) rs)

count_from-ne-nil : (r : Remedy) (rs : List Remedy) → count_from ((r, 1) ∷ []) rs ≢ []
unfolding held
count_from-ne-nil r rs e = ground (arith, held-count_from r ((r, 1) ∷ []) rs, ap (held r) e)

-- The remedy chosen from the remedies collected, where there is one, is one that is asked for most
-- often, and the first of those in the alphabet, whatever the fallback.
pub majority_remedy-IsMost :
    (rs : List Remedy) (fallback : Remedy) → rs ≢ [] → IsMost rs (majority_remedy rs fallback)
unfolding majority_remedy
majority_remedy-IsMost [] fallback ne = absurd (ne refl)
majority_remedy-IsMost (r ∷ rs) fallback ne =
    Chosen-IsMost (r ∷ rs) (count_from ((r, 1) ∷ []) rs) _ (held_all r rs) (
      sort-Chosen fallback (count_from ((r, 1) ∷ []) rs)
        (count_from-IsFresh ((r, 1) ∷ []) rs (single-IsFresh r)) (count_from-ne-nil r rs))

-- Two lists that ask for each remedy as often have one majority remedy.
pub IsMost-eq :
    {rs ss : List Remedy} (a b : Remedy)
    → ((r : Remedy) → count_if (is_remedy r) rs ≡ count_if (is_remedy r) ss)
    → IsMost rs a
    → IsMost ss b
    → a ≡ b
IsMost-eq a b same m n =
    alphabetical_injective a b
      (omega (arith, same a, same b, m.most b, n.most a, m.first_of_ties b, n.first_of_ties a))
