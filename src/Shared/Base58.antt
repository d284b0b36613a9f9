-- ===== src/Shared/Base58.antt =====
-- shared/base58.ts. A text is the list of its character codes, a `Uint8Array` a list of numbers
-- below 256. The arrays `encoded` and `bytes` of the source, which grow in front, are kept from
-- their last entry to their first. A carry stays below 256 * 58, so the bitwise operations of the
-- source (`| 0`, `& 0xff`, `>> 8`) are division and remainder.
pub mod Digits
pub mod Fold
pub mod Chars
pub mod RoundTrip
use Prim.Native.Char.{code}
use Prim.Native.String.{String}
use Prim.Native.Nat.{◌/◌, ◌%◌}
use open_cawt.Base.{
  ℕ, zero, suc, ◌+◌, ◌*◌, Bool, Option, none, some, List, [], ◌∷◌, ◌++◌, map, ◌==◌, if◌then◌else◌,
}

abbrev codes : String → List ℕ
codes String.[] = []
codes (String.◌∷◌ c s) = code c ∷ codes s

abbrev pub alphabet : List ℕ
alphabet = codes "123456789ABCDEFGHJKLMNPQRSTUVWXYZabcdefghijkmnopqrstuvwxyz"

-- `alphabetMap.get(char)`
abbrev index_from : ℕ → ℕ → List ℕ → Option ℕ
index_from k char [] = none
index_from k char (c ∷ cs) = if c == char then some k else index_from (k + 1) char cs

unfoldable pub digit_of : ℕ → Option ℕ
digit_of char = index_from 0 char alphabet

-- `alphabet[digit]`; the codes of the alphabet are not 0.
abbrev nth : ℕ → List ℕ → ℕ
nth n [] = 0
nth zero (c ∷ cs) = c
nth (suc n) (c ∷ cs) = nth n cs

unfoldable pub char_of : ℕ → ℕ
char_of digit = nth digit alphabet

-- `while (carry > 0)`: a carry is divided each time, so as many rounds as itself are enough.
unfoldable pub spill : ℕ → ℕ → ℕ → List ℕ
spill base zero carry = []
spill base (suc fuel) carry =
    let rest = spill base fuel (carry / base) in if carry == 0 then [] else carry % base ∷ rest

-- The digits times `mult`, plus the carry.
unfoldable pub shift_in : ℕ → ℕ → ℕ → List ℕ → List ℕ
unfolding spill
shift_in mult base carry [] = spill base carry carry
shift_in mult base carry (d ∷ ds) =
    let sum = carry + d * mult in sum % base ∷ shift_in mult base (sum / base) ds

unfoldable pub fold_in : ℕ → ℕ → List ℕ → List ℕ → List ℕ
unfolding shift_in
fold_in mult base digits [] = digits
fold_in mult base digits (x ∷ xs) = fold_in mult base (shift_in mult base x digits) xs

-- `while (zeros < n && a[zeros] === zero)`
unfoldable pub leading : ℕ → List ℕ → ℕ
leading z [] = 0
leading z (x ∷ xs) = if x == z then suc (leading z xs) else 0

-- The rest after the leading ones.
unfoldable pub after_leading : ℕ → List ℕ → List ℕ
after_leading z [] = []
after_leading z (x ∷ xs) = if x == z then after_leading z xs else x ∷ xs

unfoldable pub repeat : ℕ → ℕ → List ℕ
repeat zero x = []
repeat (suc n) x = x ∷ repeat n x

abbrev pub reverse : List ℕ → List ℕ
reverse [] = []
reverse (x ∷ xs) = reverse xs ++ x ∷ []

-- The code of the character 1, whose digit is 0.
abbrev pub one_char : ℕ
one_char = 49

unfoldable pub encode_base58 : List ℕ → List ℕ
unfolding char_of fold_in leading after_leading repeat
encode_base58 [] = []
encode_base58 (b ∷ bs) =
    let encoded = fold_in 256 58 [] (after_leading 0 (b ∷ bs)) in
    repeat (leading 0 (b ∷ bs)) one_char ++ map char_of (reverse encoded)

-- The loop over the characters, which throws at one that is not in the alphabet.
unfoldable pub decode_loop : List ℕ → List ℕ → Option (List ℕ)
unfolding digit_of shift_in
decode_loop bytes [] = some bytes
decode_loop bytes (char ∷ chars) = elim (digit_of char) [
  | none ↦ none
  | some digit ↦ decode_loop (shift_in 58 256 digit bytes) chars
]

abbrev pub padded : ℕ → Option (List ℕ) → Option (List ℕ)
padded count none = none
padded count (some bytes) = some (repeat count 0 ++ reverse bytes)

-- None where the source throws "Invalid base58 character."
unfoldable pub decode_base58 : List ℕ → Option (List ℕ)
unfolding decode_loop leading repeat
decode_base58 [] = some []
decode_base58 (c ∷ cs) = padded (leading one_char (c ∷ cs)) (decode_loop [] (c ∷ cs))
