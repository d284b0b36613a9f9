-- ===== src/Filing/Wallet.antt =====
-- The test of a payer wallet: /^[1-9A-HJ-NP-Za-km-z]{32,44}$/.
use Prim.Native.Char.{code}
use Prim.Native.String.{String}
use open_cawt.Base.{ℕ, Bool, true, ◌&&◌, ◌||◌, Option, none, some, List, [], ◌∷◌, all, length, leb}

abbrev codes : String → List ℕ
codes String.[] = []
codes (String.◌∷◌ c s) = code c ∷ codes s

abbrev between : ℕ → ℕ → ℕ → Bool
between lo hi c = leb lo c && leb c hi

unfoldable pub is_base58_char : ℕ → Bool
is_base58_char c =
    between b'1' b'9' c
    || between b'A' b'H' c
    || between b'J' b'N' c
    || between b'P' b'Z' c
    || between b'a' b'k' c
    || between b'm' b'z' c

unfoldable pub is_payer_wallet : String → Bool
unfolding is_base58_char
is_payer_wallet s = between 32 44 (length (codes s)) && all is_base58_char (codes s)

abbrev pub wallet_fits : Option String → Bool
wallet_fits none = true
wallet_fits (some s) = is_payer_wallet s
