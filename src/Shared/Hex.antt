-- ===== src/Shared/Hex.antt =====
-- bytesToHex and hexToBytes of shared/hash.ts. A text is the list of its character codes, a
-- `Uint8Array` a list of numbers below 256.
pub mod RoundTrip
use Prim.Native.Nat.{◌/◌, ◌%◌, ◌-◌}
use open_cawt.Base.{
  ℕ, ◌+◌, ◌*◌, Bool, true, false, ◌&&◌, ◌||◌, Option, none, some, List, [], ◌∷◌, ◌++◌, Option, leb,
  ltb, length, ◌==◌, if◌then◌else◌,
}
use open_cawt.Validation.Hosts.{is_space}

-- A digit of `toString(16)`.
abbrev pub hex_char : ℕ → ℕ
hex_char d = if ltb d 10 then d + b'0' else d + 87

-- `part.toString(16).padStart(2, "0")` of a byte.
abbrev pub hex_of_byte : ℕ → List ℕ
hex_of_byte byte =
    if ltb byte 16
    then b'0' ∷ hex_char byte ∷ []
    else hex_char (byte / 16) ∷ hex_char (byte % 16) ∷ []

unfoldable pub bytes_to_hex : List ℕ → List ℕ
bytes_to_hex [] = []
bytes_to_hex (byte ∷ bytes) = hex_of_byte byte ++ bytes_to_hex bytes

abbrev pub hex_value : ℕ → Option ℕ
hex_value c =
    if leb b'0' c && leb c b'9'
    then some (c - b'0')
    else if leb b'a' c && leb c b'f'
    then some (c - 87)
    else if leb b'A' c && leb c b'F'
    then some (c - 55)
    else none

abbrev pub or_zero : Option ℕ → ℕ
or_zero none = 0
or_zero (some n) = n

-- `Number.parseInt` of two characters to base 16, as a byte: after white space or a sign one digit
-- may follow; a text that has no number is NaN, which a byte keeps as 0, and so is "0x".
abbrev pub after_first : ℕ → ℕ → Option ℕ → Option ℕ → ℕ
unfolding is_space
after_first c d (some m) (some n) = 16 * m + n
after_first c d (some m) none = if c == b'0' && (d == b'x' || d == b'X') then 0 else m
after_first c d none second =
    if is_space c || c == b'+'
    then or_zero second
    else if c == b'-'
    then (256 - or_zero second) % 256
    else 0

unfoldable pub byte_of : ℕ → ℕ → ℕ
unfolding is_space
byte_of c d = after_first c d (hex_value c) (hex_value d)

-- None stands for the error on a text of odd length.
abbrev pub and_byte : ℕ → Option (List ℕ) → Option (List ℕ)
and_byte byte none = none
and_byte byte (some bytes) = some (byte ∷ bytes)

unfoldable pub hex_to_bytes : List ℕ → Option (List ℕ)
unfolding byte_of
hex_to_bytes [] = some []
hex_to_bytes (c ∷ []) = none
hex_to_bytes (c ∷ d ∷ hex) = and_byte (byte_of c d) (hex_to_bytes hex)
