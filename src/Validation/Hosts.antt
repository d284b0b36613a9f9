-- ===== src/Validation/Hosts.antt =====
-- The hosts that server/services/validation.ts refuses: parseIpv4Octets, normaliseHost,
-- isBlockedIpv4, isBlockedIpv6, isBlockedHostLiteral, isBlockedResolvedIp. A text is the list of its
-- character codes; the host of a URL and the addresses of a resolver are ASCII.
pub mod Brackets
use Prim.Native.Char.{code}
use Prim.Native.String.{String}
use Prim.Native.Nat.{◌-◌, ◌/◌, ◌^◌}
use open_cawt.Base.{
  ℕ, zero, suc, ◌+◌, ◌*◌, Bool, true, false, not, ◌&&◌, ◌||◌, Option, none, some, List, [], ◌∷◌,
  ◌++◌, map, any, all, leb, ltb, length, ◌==◌, if◌then◌else◌,
}

abbrev pub codes : String → List ℕ
codes String.[] = []
codes (String.◌∷◌ c s) = code c ∷ codes s

abbrev pub same : List ℕ → List ℕ → Bool
same [] [] = true
same (c ∷ cs) (d ∷ ds) = c == d && same cs ds
same _ _ = false

abbrev pub is_nil : List ℕ → Bool
is_nil [] = true
is_nil (c ∷ cs) = false

abbrev pub between : ℕ → ℕ → ℕ → Bool
between lo hi c = leb lo c && leb c hi

-- The white space of `trim`.
unfoldable pub is_space : ℕ → Bool
is_space c =
    between 9 13 c
    || c == 32
    || c == 160
    || c == 0x1680
    || between 0x2000 0x200a c
    || between 0x2028 0x2029 c
    || c == 0x202f
    || c == 0x205f
    || c == 0x3000
    || c == 0xfeff

-- The text without its last characters that pass the test.
abbrev pub drop_end : (ℕ → Bool) → List ℕ → List ℕ
drop_end p [] = []
drop_end p (c ∷ cs) = let rest = drop_end p cs in if p c && is_nil rest then [] else c ∷ rest

abbrev pub drop_start : (ℕ → Bool) → List ℕ → List ℕ
drop_start p [] = []
drop_start p (c ∷ cs) = if p c then drop_start p cs else c ∷ cs

unfoldable pub lower : ℕ → ℕ
lower c = if between b'A' b'Z' c then c + 32 else c

abbrev pub is_dot : ℕ → Bool
is_dot c = c == b'.'

unfoldable pub trim : List ℕ → List ℕ
unfolding is_space
trim cs = drop_end is_space (drop_start is_space cs)

unfoldable pub normalise_host : List ℕ → List ℕ
unfolding trim lower
normalise_host host = drop_end is_dot (map lower (trim host))

-- `split(".")`
abbrev pub onto_first : ℕ → List (List ℕ) → List (List ℕ)
onto_first c [] = (c ∷ []) ∷ []
onto_first c (part ∷ parts) = (c ∷ part) ∷ parts

abbrev pub split_dots : List ℕ → List (List ℕ)
split_dots [] = [] ∷ []
split_dots (c ∷ cs) = let rest = split_dots cs in if is_dot c then [] ∷ rest else onto_first c rest

abbrev pub is_digit : ℕ → Bool
is_digit c = between b'0' b'9' c

abbrev number_from : ℕ → List ℕ → ℕ
number_from n [] = n
number_from n (c ∷ cs) = number_from (10 * n + (c - b'0')) cs

-- /^\d{1,3}$/ and a value up to 255.
unfoldable pub octet : List ℕ → Option ℕ
octet part =
    if between 1 3 (length part) && all is_digit part
    then if leb (number_from 0 part) 255 then some (number_from 0 part) else none
    else none

pub record Octets : Type 0 where
  pub first : ℕ
  pub second : ℕ
  pub third : ℕ
  pub fourth : ℕ

abbrev pub four : Option ℕ → Option ℕ → Option ℕ → Option ℕ → Option Octets
four (some a) (some b) (some c) (some d) =
    some (record { first = a; second = b; third = c; fourth = d })
four _ _ _ _ = none

abbrev pub octets_of : List (List ℕ) → Option Octets
unfolding octet
octets_of (a ∷ b ∷ c ∷ d ∷ []) = four (octet a) (octet b) (octet c) (octet d)
octets_of _ = none

unfoldable pub parse_ipv4_octets : List ℕ → Option Octets
unfolding octet
parse_ipv4_octets host = octets_of (split_dots host)

unfoldable pub is_blocked_ipv4 : Octets → Bool
is_blocked_ipv4 o =
    o.first == 10
    || o.first == 127
    || (o.first == 192 && o.second == 168)
    || (o.first == 172 && between 16 31 o.second)
    || (o.first == 169 && o.second == 254)
    || between 224 239 o.first
    || o.first == 0

-- /^::ffff:(\d+\.\d+\.\d+\.\d+)$/
abbrev pub is_run : List ℕ → Bool
is_run part = not (is_nil part) && all is_digit part

abbrev pub is_dotted : List (List ℕ) → Bool
is_dotted (a ∷ b ∷ c ∷ d ∷ []) = is_run a && is_run b && is_run c && is_run d
is_dotted _ = false

abbrev pub after_prefix : List ℕ → List ℕ → Option (List ℕ)
after_prefix [] cs = some cs
after_prefix (p ∷ ps) [] = none
after_prefix (p ∷ ps) (c ∷ cs) = if p == c then after_prefix ps cs else none

abbrev pub if_dotted : Option (List ℕ) → Option (List ℕ)
if_dotted none = none
if_dotted (some rest) = if is_dotted (split_dots rest) then some rest else none

unfoldable pub mapped_ipv4 : List ℕ → Option (List ℕ)
mapped_ipv4 value = if_dotted (after_prefix (codes "::ffff:") value)

-- /^([0-9a-f]{1,4})/i and its value.
abbrev hex_digit : ℕ → Option ℕ
hex_digit c =
    if is_digit c
    then some (c - b'0')
    else if between b'a' b'f' c
    then some (c - 87)
    else if between b'A' b'F' c
    then some (c - 55)
    else none

abbrev hex_from : ℕ → ℕ → List ℕ → ℕ
hex_from zero n cs = n
hex_from (suc left) n [] = n
hex_from (suc left) n (c ∷ cs) = elim (hex_digit c) [
  | none ↦ n
  | some d ↦ hex_from left (16 * n + d) cs
]

unfoldable pub first_hextet : List ℕ → Option ℕ
first_hextet [] = none
first_hextet (c ∷ cs) = elim (hex_digit c) [ none ↦ none | some d ↦ some (hex_from 3 d cs) ]

-- `x & mask`, where the mask has the bits of a hextet from `k` up.
abbrev pub from_bit : ℕ → ℕ → ℕ
from_bit k x = x / 2 ^ k * 2 ^ k

abbrev pub is_blocked_hextet : Option ℕ → Bool
is_blocked_hextet none = false
is_blocked_hextet (some x) =
    from_bit 9 x == 0xfc00 || from_bit 6 x == 0xfe80 || from_bit 8 x == 0xff00

abbrev pub is_blocked_octets : Option Octets → Bool
unfolding is_blocked_ipv4
is_blocked_octets none = false
is_blocked_octets (some o) = is_blocked_ipv4 o

abbrev pub is_blocked_mapped : Option (List ℕ) → List ℕ → Bool
unfolding is_blocked_ipv4 parse_ipv4_octets first_hextet
is_blocked_mapped none value = is_blocked_hextet (first_hextet value)
is_blocked_mapped (some rest) value = is_blocked_octets (parse_ipv4_octets rest)

unfoldable pub is_blocked_ipv6 : List ℕ → Bool
unfolding normalise_host is_blocked_ipv4 parse_ipv4_octets first_hextet mapped_ipv4
is_blocked_ipv6 host =
    let value = normalise_host host in
    same value (codes "::1")
    || same value (codes "::")
    || is_blocked_mapped (mapped_ipv4 value) value

abbrev pub ends_with : List ℕ → List ℕ → Bool
ends_with suffix [] = is_nil suffix
ends_with suffix (c ∷ cs) = same suffix (c ∷ cs) || ends_with suffix cs

abbrev pub has_colon : List ℕ → Bool
has_colon host = any (λ c. c == b':') host

-- An address by its form.
abbrev pub is_blocked_address : Option Octets → List ℕ → Bool
unfolding is_blocked_ipv4 is_blocked_ipv6
is_blocked_address (some o) value = is_blocked_ipv4 o
is_blocked_address none value = has_colon value && is_blocked_ipv6 value

abbrev pub is_blocked_value : List ℕ → Bool
unfolding is_blocked_ipv4 is_blocked_ipv6 parse_ipv4_octets
is_blocked_value value =
    is_nil value
    || same value (codes "localhost")
    || ends_with (codes ".localhost") value
    || same value (codes "::1")
    || is_blocked_address (parse_ipv4_octets value) value

unfoldable pub is_blocked_host_literal : List ℕ → Bool
unfolding normalise_host is_blocked_ipv4 is_blocked_ipv6 parse_ipv4_octets
is_blocked_host_literal host = is_blocked_value (normalise_host host)

unfoldable pub is_blocked_resolved_ip : List ℕ → Bool
unfolding normalise_host is_blocked_ipv4 is_blocked_ipv6 parse_ipv4_octets
is_blocked_resolved_ip address =
    let value = normalise_host address in is_blocked_address (parse_ipv4_octets value) value
