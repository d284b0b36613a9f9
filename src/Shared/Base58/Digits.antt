-- ===== src/Shared/Base58/Digits.antt =====
-- Digits to a base, from the lowest: their value, and that it decides them.
use Prim.Native.Nat.{◌/◌, ◌%◌}
use native.Mathlib.Nat.{div-add-mod, mod-lt, div-lt_self, add-mul-div_left, div-eq_of_lt}
use open_cawt.Base.{
  ℕ, zero, suc, ◌+◌, ◌*◌, ◌≤◌, ◌<◌, List, [], ◌∷◌, ◌≡◌, ◌∙◌, refl, sym, ap, ap₂, arith, All, ◌==◌,
  if_elim,
}
use open_cawt.Shared.Base58.{spill, shift_in}

abbrev pub value : ℕ → List ℕ → ℕ
value base [] = 0
value base (d ∷ ds) = d + base * value base ds

-- Every digit is one of the base.
abbrev pub AreDigits : ℕ → List ℕ → Type 0
AreDigits base ds = All (λ d. d < base) ds

-- The highest digit, where there is one, is not 0.
abbrev pub IsTrimmed : ℕ → List ℕ → Type 0
IsTrimmed base [] = Unit
IsTrimmed base (d ∷ ds) = IsTrimmed base ds × (0 < value base (d ∷ ds))

regroup :
    (base mult carry d v : ℕ)
    → (carry + d * mult) % base + base * ((carry + d * mult) / base + mult * v)
      ≡ carry + mult * (d + base * v)
regroup base mult carry d v = grind (arith, div-add-mod (carry + d * mult) base)

module _ (base : ℕ) (big : 1 < base) where
  high_part : (x v : ℕ) → x < base → (x + base * v) / base ≡ v
  high_part x v h = grind (arith, add-mul-div_left x v {y = base} (omega arith), div-eq_of_lt h)

  pub value-spill : (fuel carry : ℕ) → carry ≤ fuel → value base (spill base fuel carry) ≡ carry
  unfolding spill
  value-spill zero carry h = omega arith
  value-spill (suc fuel) carry h =
      if_elim (λ (l : List ℕ). value base l ≡ carry) (carry == 0) (λ e. ground arith)
        (λ e.
          let some_left : 0 < carry = ground arith in
          let smaller : carry / base < carry = div-lt_self some_left big in
          rw (value-spill fuel (carry / base) (omega arith))
            (grind (arith, div-add-mod carry base)))

  pub value-shift_in :
      (mult carry : ℕ) (ds : List ℕ)
      → value base (shift_in mult base carry ds) ≡ carry + mult * value base ds
  unfolding shift_in
  value-shift_in mult carry [] = rw (value-spill carry carry (omega arith)) (grind arith)
  value-shift_in mult carry (d ∷ ds) =
      let sum = carry + d * mult in
      rw (value-shift_in mult (sum / base) ds) (regroup base mult carry d (value base ds))

  pub value-inj :
      (ds es : List ℕ)
      → AreDigits base ds
      → AreDigits base es
      → IsTrimmed base ds
      → IsTrimmed base es
      → value base ds ≡ value base es
      → ds ≡ es
  value-inj [] [] a b c d h = refl
  value-inj [] (e ∷ es) a b c d h = absurd (omega (arith, d.1))
  value-inj (x ∷ ds) [] a b c d h = absurd (omega (arith, c.1))
  value-inj (x ∷ ds) (y ∷ es) a b c d h =
      let high : value base ds ≡ value base es =
        sym (high_part x (value base ds) a.0)
        ∙ ap (λ n. n / base) h
        ∙ high_part y (value base es) b.0 in
      let low : x ≡ y = grind arith in ap₂ (◌∷◌) low (value-inj ds es a.1 b.1 c.0 d.0 high)

  value_of : (n : ℕ) → n % base + base * (n / base) ≡ n
  value_of n = omega (arith, div-add-mod n base)

  positive : (mult carry v : ℕ) → 0 < mult → 0 < v → 0 < carry + mult * v
  positive mult carry v p h = grind arith

  digit : (n : ℕ) → n % base < base
  digit n = mod-lt n (omega arith)

  pub spill-AreDigits : (fuel carry : ℕ) → AreDigits base (spill base fuel carry)
  unfolding spill
  spill-AreDigits zero carry = tt
  spill-AreDigits (suc fuel) carry =
      if_elim (AreDigits base) (carry == 0) (λ _. tt)
        (λ _. (digit carry, spill-AreDigits fuel (carry / base)))

  pub shift_in-AreDigits :
      (mult carry : ℕ) (ds : List ℕ) → AreDigits base (shift_in mult base carry ds)
  unfolding shift_in
  shift_in-AreDigits mult carry [] = spill-AreDigits carry carry
  shift_in-AreDigits mult carry (d ∷ ds) =
      (digit (carry + d * mult), shift_in-AreDigits mult ((carry + d * mult) / base) ds)

  pub spill-IsTrimmed : (fuel carry : ℕ) → carry ≤ fuel → IsTrimmed base (spill base fuel carry)
  unfolding spill
  spill-IsTrimmed zero carry h = tt
  spill-IsTrimmed (suc fuel) carry h =
      if_elim (IsTrimmed base) (carry == 0) (λ _. tt)
        (λ e.
          let some_left : 0 < carry = ground arith in
          let smaller : carry / base < carry = div-lt_self some_left big in
          let low : carry / base ≤ fuel = omega arith in
          (
            spill-IsTrimmed fuel (carry / base) low,
            rw (value-spill fuel (carry / base) low) (rw (value_of carry) some_left),
          ))

  pub shift_in-IsTrimmed :
      (mult carry : ℕ) (ds : List ℕ)
      → 0 < mult
      → IsTrimmed base ds
      → IsTrimmed base (shift_in mult base carry ds)
  unfolding shift_in
  shift_in-IsTrimmed mult carry [] p t = spill-IsTrimmed carry carry (omega arith)
  shift_in-IsTrimmed mult carry (d ∷ ds) p (t, h) = (
    shift_in-IsTrimmed mult ((carry + d * mult) / base) ds p t,
    rw (value-shift_in mult carry (d ∷ ds)) (positive mult carry (value base (d ∷ ds)) p h),
  )

  -- The loop that spills a carry ends after as many rounds as the carry at most, to any base above
  -- 1: with more rounds at hand it gives the same digits, and their value is the carry.
  pub spill-terminates :
      (fuel carry : ℕ)
      → carry ≤ fuel
      → (spill base fuel carry ≡ spill base carry carry)
        × (value base (spill base fuel carry) ≡ carry)
  spill-terminates fuel carry h =
      let least : carry ≤ carry = omega arith in
      (
        value-inj (spill base fuel carry) (spill base carry carry) (spill-AreDigits fuel carry)
            (spill-AreDigits carry carry) (spill-IsTrimmed fuel carry h)
            (spill-IsTrimmed carry carry least)
            (value-spill fuel carry h ∙ sym (value-spill carry carry least)),
        value-spill fuel carry h,
      )
