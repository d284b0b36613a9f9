-- ===== src/Base/Sorting.antt =====
-- `Array.prototype.sort`, which is stable: for a comparator that is a total order its result is
-- that of insertion. `le a b` stands for `cmp(a, b) <= 0`.
use mathlib.Core.List.{foldr, Perm}
use mathlib.Core.List.Perm
use mathlib.Core.Path.{◌≡◌}
use mathlib.Core.Logic.{◌≢◌, ◌↔◌, inl, inr}
use mathlib.Core.Bool.{Bool, true, false}
use mathlib.Core.List.{List, [], ◌∷◌}
use native.Mathlib.Omega.{arith}
use open_cawt.Base.Tests.{if◌then◌else◌, Bool-cases}
use open_cawt.Base.Lists.{All}

module _ {ℓ} {A : Type ℓ} where
  unfoldable pub insert : (A → A → Bool) → A → List A → List A
  insert le x [] = x ∷ []
  insert le x (y ∷ ys) = if le x y then x ∷ y ∷ ys else y ∷ insert le x ys

  unfoldable pub sort : (A → A → Bool) → List A → List A
  unfolding insert
  sort le l = foldr (insert le) [] l

-- A comparator that is consistent, as `sort` asks for.
pub record IsPreorder {ℓ} {A : Type ℓ} (le : A → A → Bool) : Type ℓ where
  pub total : (a b : A) → le a b ≡ false → le b a ≡ true
  pub trans : (a b c : A) → le a b ≡ true → le b c ≡ true → le a c ≡ true

-- One that also tells its values apart.
pub record IsTotal {ℓ} {A : Type ℓ} (le : A → A → Bool) : Type ℓ where
  pub total : (a b : A) → le a b ≡ false → le b a ≡ true
  pub trans : (a b c : A) → le a b ≡ true → le b c ≡ true → le a c ≡ true
  pub antisymm : (a b : A) → le a b ≡ true → le b a ≡ true → a ≡ b

module _ {ℓ} {A : Type ℓ} (le : A → A → Bool) where
  -- Every value is at most each later one.
  abbrev pub IsSorted : List A → Type ℓ
  IsSorted [] = Unit
  IsSorted (x ∷ xs) = All (λ y. le x y ≡ true) xs × IsSorted xs

  insert-perm : (x : A) (l : List A) → Perm (insert le x l) (x ∷ l)
  unfolding insert
  insert-perm x [] = Perm.refl _
  insert-perm x (y ∷ ys) = elim (Bool-cases (le x y)) [
    | inl e ↦ rw e (Perm.refl _)
    | inr e ↦ rw e (Perm.trans (Perm.cons y (insert-perm x ys)) (Perm.swap x y ys))
  ]

  pub sort-perm : (l : List A) → Perm (sort le l) l
  unfolding sort
  sort-perm [] = Perm.refl _
  sort-perm (x ∷ xs) = Perm.trans (insert-perm x (sort le xs)) (Perm.cons x (sort-perm xs))

  module _ (t : IsTotal le) where
    insert_comm : (x y : A) (l : List A) → insert le x (insert le y l) ≡ insert le y (insert le x l)
    unfolding insert
    insert_comm x y [] = ground (arith, t.total x y, t.antisymm x y)
    insert_comm x y (z ∷ l) =
        ground (arith, insert_comm x y l, t.total x y, t.antisymm x y, t.trans x y z, t.trans y x z)

    -- The result does not depend on the order of the input.
    pub sort-eq_of_perm : IsSet (List A) → {l m : List A} → Perm l m → sort le l ≡ sort le m
    unfolding sort
    sort-eq_of_perm is_set p = Perm.foldr-eq is_set (insert le) insert_comm p []

  module _ (t : IsPreorder le) where
    All-trans :
        (x y : A) (l : List A)
        → le x y ≡ true
        → All (λ z. le y z ≡ true) l
        → All (λ z. le x z ≡ true) l
    All-trans x y [] h a = tt
    All-trans x y (z ∷ l) h (p, a) = (t.trans x y z h p, All-trans x y l h a)

    All-insert :
        (x y : A) (l : List A)
        → le y x ≡ true
        → All (λ z. le y z ≡ true) l
        → All (λ z. le y z ≡ true) (insert le x l)
    unfolding insert
    All-insert x y [] h a = (h, tt)
    All-insert x y (z ∷ l) h (p, a) = elim (Bool-cases (le x z)) [
      | inl e ↦ rw e (h, (p, a))
      | inr e ↦ rw e (p, All-insert x y l h a)
    ]

    insert-IsSorted : (x : A) (l : List A) → IsSorted l → IsSorted (insert le x l)
    unfolding insert
    insert-IsSorted x [] s = (tt, tt)
    insert-IsSorted x (z ∷ l) (a, s) = elim (Bool-cases (le x z)) [
      | inl e ↦ rw e ((e, All-trans x z l e a), (a, s))
      | inr e ↦ rw e (All-insert x z l (t.total x z e) a, insert-IsSorted x l s)
    ]

    pub sort-IsSorted : (l : List A) → IsSorted (sort le l)
    unfolding sort
    sort-IsSorted [] = tt
    sort-IsSorted (x ∷ xs) = insert-IsSorted x (sort le xs) (sort-IsSorted xs)

module _ {ℓ κ} {A : Type ℓ} (le : A → A → Bool) (P : A → Type κ) where
  All-insert_iff : (x : A) (l : List A) → All P (insert le x l) ↔ (P x × All P l)
  unfolding insert
  All-insert_iff x [] = (λ h. h, λ h. h)
  All-insert_iff x (y ∷ l) = elim (Bool-cases (le x y)) [
    | inl e ↦ rw e (λ h. h, λ h. h)
    | inr e ↦
        let ih = All-insert_iff x l in
        rw e (λ h. ((ih.0 h.1).0, (h.0, (ih.0 h.1).1)), λ h. (h.1.0, ih.1 (h.0, h.1.1)))
  ]

  pub All-sort_iff : (l : List A) → All P (sort le l) ↔ All P l
  unfolding sort
  All-sort_iff [] = (λ h. h, λ h. h)
  All-sort_iff (x ∷ l) =
      let ih = All-sort_iff l in
      let step = All-insert_iff x (sort le l) in
      (λ h. ((step.0 h).0, ih.0 (step.0 h).1), λ h. step.1 (h.0, ih.1 h.1))

module _ {ℓ} {A : Type ℓ} (le : A → A → Bool) where
  insert-ne-nil : (x : A) (l : List A) → insert le x l ≢ []
  unfolding insert
  insert-ne-nil x [] h = cc
  insert-ne-nil x (y ∷ l) h = ground arith

  pub sort-ne-nil : (l : List A) → l ≢ [] → sort le l ≢ []
  unfolding sort
  sort-ne-nil [] h = h
  sort-ne-nil (x ∷ l) h = insert-ne-nil x (sort le l)
