-- ===== src/Shared/Base58/Fold.antt =====
-- Digits read from the highest, and folded in one by one.
use open_cawt.Base.{ℕ, ◌+◌, ◌*◌, ◌<◌, List, [], ◌∷◌, ◌++◌, ◌≡◌, ◌∙◌, refl, ap}
use open_cawt.Shared.Base58.{shift_in, fold_in, reverse}
use open_cawt.Shared.Base58.Digits.{
  value, AreDigits, IsTrimmed, value-shift_in, shift_in-AreDigits, shift_in-IsTrimmed,
}

-- The value of digits that are read from the highest, after those that have the value `v`.
abbrev pub horner : ℕ → ℕ → List ℕ → ℕ
horner mult v [] = v
horner mult v (x ∷ xs) = horner mult (x + mult * v) xs

horner-snoc :
    (mult v : ℕ) (xs : List ℕ) (x : ℕ) → horner mult v (xs ++ x ∷ []) ≡ x + mult * horner mult v xs
horner-snoc mult v [] x = refl
horner-snoc mult v (y ∷ xs) x = horner-snoc mult (y + mult * v) xs x

pub horner-reverse : (base : ℕ) (ds : List ℕ) → horner base 0 (reverse ds) ≡ value base ds
horner-reverse base [] = refl
horner-reverse base (d ∷ ds) =
    horner-snoc base 0 (reverse ds) d ∙ ap (λ v. d + base * v) (horner-reverse base ds)

reverse-snoc : (xs : List ℕ) (x : ℕ) → reverse (xs ++ x ∷ []) ≡ x ∷ reverse xs
reverse-snoc [] x = refl
reverse-snoc (y ∷ xs) x = ap (λ l. l ++ y ∷ []) (reverse-snoc xs x)

pub reverse-reverse : (xs : List ℕ) → reverse (reverse xs) ≡ xs
reverse-reverse [] = refl
reverse-reverse (x ∷ xs) = reverse-snoc (reverse xs) x ∙ ap (◌∷◌ x) (reverse-reverse xs)

module _ (base : ℕ) (big : 1 < base) (mult : ℕ) (p : 0 < mult) where
  pub value-fold_in :
      (acc xs : List ℕ) → value base (fold_in mult base acc xs) ≡ horner mult (value base acc) xs
  unfolding fold_in
  value-fold_in acc [] = refl
  value-fold_in acc (x ∷ xs) =
      value-fold_in (shift_in mult base x acc) xs
      ∙ ap (λ v. horner mult v xs) (value-shift_in base big mult x acc)

  pub fold_in-AreDigits :
      (acc xs : List ℕ) → AreDigits base acc → AreDigits base (fold_in mult base acc xs)
  unfolding fold_in
  fold_in-AreDigits acc [] a = a
  fold_in-AreDigits acc (x ∷ xs) a =
      fold_in-AreDigits (shift_in mult base x acc) xs (shift_in-AreDigits base big mult x acc)

  pub fold_in-IsTrimmed :
      (acc xs : List ℕ) → IsTrimmed base acc → IsTrimmed base (fold_in mult base acc xs)
  unfolding fold_in
  fold_in-IsTrimmed acc [] t = t
  fold_in-IsTrimmed acc (x ∷ xs) t =
      fold_in-IsTrimmed (shift_in mult base x acc) xs (shift_in-IsTrimmed base big mult x acc p t)
