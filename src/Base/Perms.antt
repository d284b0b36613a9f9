-- ===== src/Base/Perms.antt =====
-- What a reordering of a list keeps.
use mathlib.Core.Path.{◌≡◌, refl, sym, ◌∙◌, ap}
use mathlib.Core.Bool.{Bool}
use mathlib.Core.List.{List, [], ◌∷◌, foldr, Perm}
use mathlib.Core.List.Perm
use Prim.Native.Nat.{ℕ, suc}
use native.Mathlib.Nat.{ℕ_set}
use native.Mathlib.Omega.{arith}
use open_cawt.Base.Tests.{if◌then◌else◌}
use open_cawt.Base.Lists.{length, count_if}

module _ {ℓ} {A : Type ℓ} where
  abbrev step : (A → Bool) → A → ℕ → ℕ
  step p x n = if p x then suc n else n

  count_if-foldr : (p : A → Bool) (l : List A) → count_if p l ≡ foldr (step p) 0 l
  count_if-foldr p [] = refl
  count_if-foldr p (x ∷ l) = ap (step p x) (count_if-foldr p l)

  step_comm : (p : A → Bool) (x y : A) (n : ℕ) → step p x (step p y n) ≡ step p y (step p x n)
  step_comm p x y n = ground arith

  pub count_if-perm : (p : A → Bool) {l m : List A} → Perm l m → count_if p l ≡ count_if p m
  count_if-perm p {l} {m} h =
      count_if-foldr p l ∙ Perm.foldr-eq ℕ_set (step p) (step_comm p) h 0 ∙ sym (count_if-foldr p m)

  length-foldr : (l : List A) → length l ≡ foldr (λ x. suc) 0 l
  length-foldr [] = refl
  length-foldr (x ∷ l) = ap suc (length-foldr l)

  pub length-perm : {l m : List A} → Perm l m → length l ≡ length m
  length-perm {l} {m} h =
      length-foldr l ∙ Perm.foldr-eq ℕ_set (λ x. suc) (λ x y n. refl) h 0 ∙ sym (length-foldr m)
