-- ===== src/Ocp/Views.antt =====
-- What a row that is looked up shows, after a statement on its table.
use open_cawt.Base.{
  Bool, true, false, Option, none, some, List, [], ◌∷◌, ◌++◌, map, find, any, ◌≡◌, refl, arith,
  if◌then◌else◌, Bool-cases, ◌⊎◌, inl, inr,
}

pub find-holds {ℓ} :
    {A : Type ℓ} (p : A → Bool) (l : List A) (a : A) → find p l ≡ some a → p a ≡ true
find-holds p [] a h = cc
find-holds p (x ∷ l) a h = elim (Bool-cases (p x)) [
  | inl e ↦ (let same : x ≡ a = taken e h in rw (← same) e)
  | inr e ↦ find-holds p l a (rw e at h)
]
  where
    taken : p x ≡ true → find p (x ∷ l) ≡ some a → x ≡ a
    taken e h = ground arith

module _ {ℓ κ} {A : Type ℓ} {B : Type κ} (p : A → Bool) (v : A → B) where
  -- The view of the first row that `p` takes.
  abbrev pub look : List A → Option B
  look [] = none
  look (x ∷ l) = if p x then some (v x) else look l

  pub look-find : (l : List A) (a : A) → find p l ≡ some a → look l ≡ some (v a)
  look-find [] a h = cc
  look-find (x ∷ l) a h = ground (arith, look-find l a)

  pub look-snoc : (x : A) (l : List A) (b : B) → look l ≡ some b → look (l ++ x ∷ []) ≡ some b
  look-snoc x [] b h = cc
  look-snoc x (y ∷ l) b h = ground (arith, look-snoc x l b)

  -- A row that is added is seen where no other is.
  pub look-snoc_cases :
      (x : A) (l : List A) (b : B)
      → look (l ++ x ∷ []) ≡ some b
      → (look l ≡ some b) ⊎ ((p x ≡ true) × (v x ≡ b))
  look-snoc_cases x [] b h = by_test (p x) refl h
    where
      by_test :
          (c : Bool)
          → p x ≡ c
          → (if c then some (v x) else none) ≡ some b
          → (◌≡◌ {A = Option B} none (some b)) ⊎ ((p x ≡ true) × (v x ≡ b))
      by_test true e k = inr (e, cc)
      by_test false e k = cc
  look-snoc_cases x (y ∷ l) b h = elim (Bool-cases (p y)) [
    | inl e ↦ inl (rw e (rw e at h))
    | inr e ↦ rw e (look-snoc_cases x l b (rw e at h))
  ]

  pub look-any : (l : List A) → any p l ≡ true → (b : B) × (look l ≡ some b)
  look-any [] h = cc
  look-any (x ∷ l) h = elim (Bool-cases (p x)) [
    | inl e ↦ (v x, rw e refl)
    | inr e ↦ rw e (look-any l (rw e at h))
  ]

  pub look-snoc_new :
      (x : A) (l : List A) → any p l ≡ false → p x ≡ true → look (l ++ x ∷ []) ≡ some (v x)
  look-snoc_new x [] h e = ground arith
  look-snoc_new x (y ∷ l) h e = ground (arith, look-snoc_new x l)

  -- An update that keeps what `p` and `v` read is not seen.
  pub look-map :
      (f : A → A)
      → ((x : A) → p (f x) ≡ p x)
      → ((x : A) → v (f x) ≡ v x)
      → (l : List A) → look (map f l) ≡ look l
  look-map f same seen [] = refl
  look-map f same seen (x ∷ l) = rw (same x, seen x, look-map f same seen l) refl

  -- An update of the rows that `p` takes is seen.
  pub look-map_all :
      (f : A → A) (c : B)
      → ((x : A) → p (f x) ≡ p x)
      → ((x : A) → v (f x) ≡ c)
      → (l : List A) → any p l ≡ true
      → look (map (λ (x : A). if p x then f x else x) l) ≡ some c
  look-map_all f c same seen [] h = cc
  look-map_all f c same seen (x ∷ l) h =
      ground (arith, same x, seen x, look-map_all f c same seen l)

pub any-map {ℓ} :
    {A : Type ℓ} (p : A → Bool) (f : A → A)
    → ((x : A) → p (f x) ≡ p x)
    → (l : List A) → any p (map (λ (x : A). if p x then f x else x) l) ≡ any p l
any-map p f same [] = refl
any-map p f same (x ∷ l) = ground (arith, same x, any-map p f same l)

module _ {ℓ} {A : Type ℓ} (p : A → Bool) (v : A → Bool) where
  -- An update that makes nothing true leaves what was not true.
  pub look-map-true :
      (f : A → A)
      → ((x : A) → p (f x) ≡ p x)
      → ((x : A) → p x ≡ true → v (f x) ≡ true → v x ≡ true)
      → (l : List A) → look p v (map f l) ≡ some true
      → look p v l ≡ some true
  look-map-true f same back [] h = cc
  look-map-true f same back (x ∷ l) h = ground (arith, same x, back x, look-map-true f same back l)
