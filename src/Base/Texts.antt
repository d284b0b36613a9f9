-- ===== src/Base/Texts.antt =====
-- The order in which JavaScript sorts texts, `a <= b`, by code points: for the ASCII texts that
-- the program sorts (ids, hexadecimal hashes) this is the order by UTF-16 units.
use Prim.Native.Char.{code}
use Prim.Native.String.{String, [], ◌∷◌}
use mathlib.Core.Path.{◌≡◌, refl}
use mathlib.Core.Logic.{inl, inr}
use mathlib.Core.Bool.{Bool, true, false}
use native.Mathlib.Omega.{arith}
use text.Mathlib.TextEquality.{Char-path, eq_iff}
use text.Mathlib.Text.{◌==◌ as str_eq}
use open_cawt.Base.Tests.{ltb, ◌==◌, if◌then◌else◌, Bool-cases}

unfoldable pub str_le : String → String → Bool
str_le [] t = true
str_le (c ∷ s) [] = false
str_le (c ∷ s) (d ∷ t) =
    if ltb (code c) (code d) then true else if code c == code d then str_le s t else false

pub str_le_refl : (s : String) → str_le s s ≡ true
unfolding str_le
str_le_refl [] = refl
str_le_refl (c ∷ s) = ground (arith, str_le_refl s)

pub str_le_total : (s t : String) → str_le s t ≡ false → str_le t s ≡ true
unfolding str_le
str_le_total [] [] h = refl
str_le_total [] (d ∷ t) h = ground arith
str_le_total (c ∷ s) [] h = refl
str_le_total (c ∷ s) (d ∷ t) h = ground (arith, str_le_total s t)

pub str_le_trans : (s t u : String) → str_le s t ≡ true → str_le t u ≡ true → str_le s u ≡ true
unfolding str_le
str_le_trans [] t u h k = refl
str_le_trans (c ∷ s) [] u h k = ground arith
str_le_trans (c ∷ s) (d ∷ t) [] h k = ground arith
str_le_trans (c ∷ s) (d ∷ t) (e ∷ u) h k = ground (arith, str_le_trans s t u)

pub str_le_antisymm : (s t : String) → str_le s t ≡ true → str_le t s ≡ true → s ≡ t
unfolding str_le
str_le_antisymm [] [] h k = refl
str_le_antisymm [] (d ∷ t) h k = ground arith
str_le_antisymm (c ∷ s) [] h k = ground arith
str_le_antisymm (c ∷ s) (d ∷ t) h k = ground (arith, Char-path c d, str_le_antisymm s t)

pub String-discrete : Discrete String
String-discrete s t = elim (Bool-cases (str_eq s t)) [
  | inl e ↦ yes ((eq_iff s t).0 e)
  | inr e ↦ no (λ p. ground (arith, eq_iff s t))
]
