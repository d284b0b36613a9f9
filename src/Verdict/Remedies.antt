-- ===== src/Verdict/Remedies.antt =====
-- `majorityRemedy`.
pub mod Laws
use open_cawt.Base.{ℕ, ◌+◌, List, [], ◌∷◌, Bool, leb, ltb, ◌==◌, if◌then◌else◌}
use open_cawt.Base.Sorting.{sort}
use open_cawt.Verdict.Tally.{Remedy, is_remedy, alphabetical}

-- `counts.set(remedy, (counts.get(remedy) ?? 0) + 1)`: a new key comes last.
pub bump : Remedy → List (Remedy × ℕ) → List (Remedy × ℕ)
bump remedy [] = (remedy, 1) ∷ []
bump remedy ((k, n) ∷ counts) =
    if is_remedy k remedy then (k, n + 1) ∷ counts else (k, n) ∷ bump remedy counts

pub count_from : List (Remedy × ℕ) → List Remedy → List (Remedy × ℕ)
count_from counts [] = counts
count_from counts (remedy ∷ rest) = count_from (bump remedy counts) rest

-- The comparator of the sort: more votes first, then by the alphabet.
pub before : Remedy × ℕ → Remedy × ℕ → Bool
before (a, n) (b, m) = if n == m then leb (alphabetical a) (alphabetical b) else ltb m n

-- The key of the first entry. There is one whenever a remedy was counted.
abbrev pub first_key : Remedy → List (Remedy × ℕ) → Remedy
first_key fallback [] = fallback
first_key fallback ((k, n) ∷ rest) = k

unfoldable pub majority_remedy : List Remedy → Remedy → Remedy
unfolding bump count_from before sort alphabetical
majority_remedy [] fallback = fallback
majority_remedy (r ∷ rs) fallback = first_key fallback (sort before (count_from [] (r ∷ rs)))
