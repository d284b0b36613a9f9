-- ===== src/Shared/Base58/Chars.antt =====
-- The alphabet: a digit is found again at its character.
use open_cawt.Base.{
  ℕ, zero, suc, ◌<◌, Bool, true, false, ◌&&◌, Option, none, some, List, [], ◌∷◌, map, ◌≡◌, ◌≢◌,
  refl, arith, ◌==◌, Bool-cases, inl, inr,
}
use open_cawt.Shared.Base58.{digit_of, char_of, shift_in, fold_in, decode_loop}
use open_cawt.Shared.Base58.Digits.{AreDigits}

abbrev has_digit : ℕ → Option ℕ → Bool
has_digit n none = false
has_digit n (some m) = n == m

-- Every digit below the bound is the digit of its character.
abbrev round_trips : ℕ → Bool
round_trips zero = true
round_trips (suc n) = has_digit n (digit_of (char_of n)) && round_trips n

alphabet-round_trips : round_trips 58 ≡ true
unfolding digit_of char_of
alphabet-round_trips = refl

has_digit-eq : (n : ℕ) (o : Option ℕ) → has_digit n o ≡ true → o ≡ some n
has_digit-eq n none h = cc
has_digit-eq n (some m) h = ground arith

both : (a b : Bool) → (a && b) ≡ true → (a ≡ true) × (b ≡ true)
both true b h = (refl, h)
both false b h = cc

below : (bound n : ℕ) → round_trips bound ≡ true → n < bound → digit_of (char_of n) ≡ some n
below zero n h l = absurd (omega arith)
below (suc bound) n h l =
    let (here, rest) = both (has_digit bound (digit_of (char_of bound))) (round_trips bound) h in
    elim (Bool-cases (n == bound)) [
      | inl e ↦
          let same : n ≡ bound = ground arith in
          rw same (has_digit-eq bound (digit_of (char_of bound)) here)
      | inr e ↦ let other : n ≢ bound = ground arith in below bound n rest (omega arith)
    ]

pub digit_of-char_of : (n : ℕ) → n < 58 → digit_of (char_of n) ≡ some n
digit_of-char_of n l = below 58 n alphabet-round_trips l

pub decode-chars :
    (acc ds : List ℕ)
    → AreDigits 58 ds
    → decode_loop acc (map char_of ds) ≡ some (fold_in 58 256 acc ds)
unfolding decode_loop fold_in
decode-chars acc [] a = refl
decode-chars acc (d ∷ ds) (l, a) =
    rw (digit_of-char_of d l, decode_loop) (decode-chars (shift_in 58 256 d acc) ds a)
