-- ===== src/Shared/Base58/RoundTrip.antt =====
-- What is encoded is decoded to itself.
use open_cawt.Base.{
  ℕ, zero, suc, ◌<◌, false, Option, some, List, [], ◌∷◌, ◌++◌, map, ◌≡◌, ◌∙◌, refl, sym, ap, ap₂,
  arith, ◌==◌, Bool-cases, inl, inr,
}
use open_cawt.Shared.Base58.{
  fold_in, shift_in, spill, leading, after_leading, repeat, reverse, one_char, char_of,
  encode_base58, decode_base58, decode_loop, digit_of, padded,
}
use open_cawt.Shared.Base58.Digits.{value, AreDigits, IsTrimmed, value-inj}
use open_cawt.Shared.Base58.Fold.{
  horner, horner-reverse, reverse-reverse, value-fold_in, fold_in-AreDigits, fold_in-IsTrimmed,
}
use open_cawt.Shared.Base58.Chars.{digit_of-char_of, decode-chars}

leading-split : (xs : List ℕ) → repeat (leading 0 xs) 0 ++ after_leading 0 xs ≡ xs
unfolding leading after_leading repeat
leading-split [] = refl
leading-split (x ∷ xs) = elim (Bool-cases (x == 0)) [
  | inl e ↦ let nil : 0 ≡ x = ground arith in simp e (ap₂ (◌∷◌) nil (leading-split xs))
  | inr e ↦ simp e
]

after_leading-AreDigits :
    (base : ℕ) (xs : List ℕ) → AreDigits base xs → AreDigits base (after_leading 0 xs)
unfolding after_leading
after_leading-AreDigits base [] a = tt
after_leading-AreDigits base (x ∷ xs) (h, a) = elim (Bool-cases (x == 0)) [
  | inl e ↦ simp e (after_leading-AreDigits base xs a)
  | inr e ↦ simp e (h, a)
]

snoc-AreDigits :
    (base : ℕ) (xs : List ℕ) (x : ℕ) → AreDigits base xs → x < base → AreDigits base (xs ++ x ∷ [])
snoc-AreDigits base [] x a h = (h, tt)
snoc-AreDigits base (y ∷ xs) x (k, a) h = (k, snoc-AreDigits base xs x a h)

reverse-AreDigits : (base : ℕ) (xs : List ℕ) → AreDigits base xs → AreDigits base (reverse xs)
reverse-AreDigits base [] a = tt
reverse-AreDigits base (x ∷ xs) (h, a) =
    snoc-AreDigits base (reverse xs) x (reverse-AreDigits base xs a) h

value-snoc_pos : (base : ℕ) (ds : List ℕ) (x : ℕ) → 0 < base → 0 < x → 0 < value base (ds ++ x ∷ [])
value-snoc_pos base [] x b h = omega arith
value-snoc_pos base (d ∷ ds) x b h = grind (arith, value-snoc_pos base ds x b h)

snoc-IsTrimmed : (base : ℕ) (ds : List ℕ) (x : ℕ) → 0 < base → 0 < x → IsTrimmed base (ds ++ x ∷ [])
snoc-IsTrimmed base [] x b h = (tt, value-snoc_pos base [] x b h)
snoc-IsTrimmed base (d ∷ ds) x b h =
    (snoc-IsTrimmed base ds x b h, value-snoc_pos base (d ∷ ds) x b h)

after_leading-IsTrimmed :
    (base : ℕ) (xs : List ℕ) → 0 < base → IsTrimmed base (reverse (after_leading 0 xs))
unfolding after_leading
after_leading-IsTrimmed base [] b = tt
after_leading-IsTrimmed base (x ∷ xs) b = elim (Bool-cases (x == 0)) [
  | inl e ↦ simp e (after_leading-IsTrimmed base xs b)
  | inr e ↦ let h : 0 < x = ground arith in simp e (snoc-IsTrimmed base (reverse xs) x b h)
]

-- The highest digit.
data Highest (base : ℕ) (ds : List ℕ) : Type 0 where
  nothing : ds ≡ [] → Highest base ds
  first : (y : ℕ) (ys : List ℕ) → reverse ds ≡ y ∷ ys → 0 < y → y < base → Highest base ds

only_digit : (base d : ℕ) (ds : List ℕ) → ds ≡ [] → 0 < value base (d ∷ ds) → 0 < d
only_digit base d [] e p = grind arith
only_digit base d (x ∷ ds) e p = cc

highest : (base : ℕ) (ds : List ℕ) → IsTrimmed base ds → AreDigits base ds → Highest base ds
highest base [] t a = nothing refl
highest base (d ∷ ds) (t, p) (h, a) = elim (highest base ds t a) [
  | nothing e ↦
      let some_left : 0 < d = only_digit base d ds e p in
      first d [] (ap (λ l. reverse l ++ d ∷ []) e) some_left h
  | first y ys e k l ↦ first y (ys ++ d ∷ []) (ap (λ l. l ++ d ∷ []) e) k l
]

zero_digit : digit_of one_char ≡ some 0
unfolding digit_of
zero_digit = refl

-- The character of a digit that is not 0 is not that of 0.
char_of-other : (d : ℕ) → 0 < d → d < 58 → (char_of d == one_char) ≡ false
char_of-other d p h = elim (Bool-cases (char_of d == one_char)) [
  | inl e ↦
      let same : char_of d ≡ one_char = ground arith in
      let found : ◌≡◌ {A = Option ℕ} (some d) (some 0) =
        sym (digit_of-char_of d h) ∙ ap digit_of same ∙ zero_digit in
      absurd (ground arith)
  | inr e ↦ e
]

leading-highest :
    (ds : List ℕ)
    → IsTrimmed 58 ds
    → AreDigits 58 ds
    → leading one_char (map char_of (reverse ds)) ≡ 0
unfolding leading
leading-highest ds t a = elim (highest 58 ds t a) [
  | nothing e ↦ rw e refl
  | first y ys e p h ↦ simp (e, char_of-other y p h)
]

leading-repeat :
    (n : ℕ) (l : List ℕ) → leading one_char l ≡ 0 → leading one_char (repeat n one_char ++ l) ≡ n
unfolding leading repeat
leading-repeat zero l h = h
leading-repeat (suc n) l h = ap suc (leading-repeat n l h)

decode-repeat : (n : ℕ) (l : List ℕ) → decode_loop [] (repeat n one_char ++ l) ≡ decode_loop [] l
unfolding decode_loop repeat digit_of shift_in spill
decode-repeat zero l = refl
decode-repeat (suc n) l = decode-repeat n l

encode-as :
    (bs : List ℕ)
    → encode_base58 bs
      ≡ repeat (leading 0 bs) one_char
        ++ map char_of (reverse (fold_in 256 58 [] (after_leading 0 bs)))
unfolding encode_base58 leading after_leading repeat fold_in
encode-as [] = refl
encode-as (b ∷ bs) = refl

decode-as : (cs : List ℕ) → decode_base58 cs ≡ padded (leading one_char cs) (decode_loop [] cs)
unfolding decode_base58 leading decode_loop repeat
decode-as [] = refl
decode-as (c ∷ cs) = refl

decoded-value :
    (xs : List ℕ)
    → AreDigits 256 xs
    → IsTrimmed 256 (reverse xs)
    → fold_in 58 256 [] (reverse (fold_in 256 58 [] xs)) ≡ reverse xs
decoded-value xs a t =
    let encoded = fold_in 256 58 [] xs in
    let same : value 256 (fold_in 58 256 [] (reverse encoded)) ≡ value 256 (reverse xs) =
      value-fold_in 256 (omega arith) 58 (omega arith) [] (reverse encoded)
      ∙ horner-reverse 58 encoded
      ∙ value-fold_in 58 (omega arith) 256 (omega arith) [] xs
      ∙ ap (horner 256 0) (sym (reverse-reverse xs))
      ∙ horner-reverse 256 (reverse xs) in
    value-inj 256 (omega arith) (fold_in 58 256 [] (reverse encoded)) (reverse xs)
      (fold_in-AreDigits 256 (omega arith) 58 (omega arith) [] (reverse encoded) tt)
      (reverse-AreDigits 256 xs a)
      (fold_in-IsTrimmed 256 (omega arith) 58 (omega arith) [] (reverse encoded) tt) t same

-- Bytes that are encoded to base 58 are decoded to the same bytes, with the zeros at their head.
pub decode-encode : (bs : List ℕ) → AreDigits 256 bs → decode_base58 (encode_base58 bs) ≡ some bs
decode-encode bs a =
    let xs = after_leading 0 bs in
    let encoded = fold_in 256 58 [] xs in
    let count = leading 0 bs in
    let digits = fold_in-AreDigits 58 (omega arith) 256 (omega arith) [] xs tt in
    let trimmed = fold_in-IsTrimmed 58 (omega arith) 256 (omega arith) [] xs tt in
    ap decode_base58 (encode-as bs)
    ∙ decode-as (repeat count one_char ++ map char_of (reverse encoded))
    ∙ ap₂ padded
        (leading-repeat count (map char_of (reverse encoded))
          (leading-highest encoded trimmed digits))
        (decode-repeat count (map char_of (reverse encoded))
          ∙ decode-chars [] (reverse encoded) (reverse-AreDigits 58 encoded digits)
          ∙ ap some (
              decoded-value xs (after_leading-AreDigits 256 bs a)
                (after_leading-IsTrimmed 256 bs (omega arith))))
    ∙ ap (λ l. some (repeat count 0 ++ l)) (reverse-reverse xs)
    ∙ ap some (leading-split bs)
