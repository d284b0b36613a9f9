-- ===== src/Validation/Principles.antt =====
-- parsePrincipleId and normalisePrincipleIds of server/services/validation.ts.
pub mod Laws
use Prim.Native.Char.{code}
use Prim.Native.String.{String}
use Prim.Native.Nat.{◌-◌}
use open_cawt.Base.{
  ℕ, ◌+◌, Bool, true, false, not, ◌&&◌, ◌||◌, Option, none, some, List, [], ◌∷◌, ◌++◌, any, leb,
  ltb, length, ◌==◌, if◌then◌else◌,
}
use open_cawt.Base.Errors.{Result, ok, err, bad_request, require, ◌>>◌, ◌>>=◌}
use open_cawt.Base.Sorting.{sort}

-- A value of the array: a number, none where it is no whole number from 0 up, a text, or another.
pub data RawId : Type 0 where
  number : Option ℕ → RawId
  text : String → RawId
  other : RawId

-- `s.trim()`, and `Number(s)` where it is a whole number from 0 up.
pub record Texts : Type 0 where
  pub trim : String → String
  pub number_of : String → Option ℕ

abbrev codes : String → List ℕ
codes String.[] = []
codes (String.◌∷◌ c s) = code c ∷ codes s

abbrev pub in_range : ℕ → Bool
in_range n = leb 1 n && leb n 12

abbrev pub if_in_range : Option ℕ → Option ℕ
if_in_range none = none
if_in_range (some n) = if in_range n then some n else none

abbrev one_digit : ℕ → Option ℕ
one_digit d = if leb b'1' d && leb d b'9' then some (d - b'0') else none

abbrev two_digits : ℕ → ℕ → Option ℕ
two_digits d e = if d == b'1' && (leb b'0' e && leb e b'2') then some (10 + (e - b'0')) else none

-- /^P([1-9]|1[0-2])$/i on the codes of a text.
unfoldable pub from_tag : List ℕ → Option ℕ
from_tag (p ∷ d ∷ []) = if p == b'P' || p == b'p' then one_digit d else none
from_tag (p ∷ d ∷ e ∷ []) = if p == b'P' || p == b'p' then two_digits d e else none
from_tag _ = none

abbrev pub or_number : Option ℕ → Option ℕ → Option ℕ
or_number (some n) other_value = some n
or_number none other_value = if_in_range other_value

unfoldable pub parse_principle_id : Texts → RawId → Option ℕ
unfolding from_tag
parse_principle_id js (number n) = if_in_range n
parse_principle_id js (text s) = or_number (from_tag (codes (js.trim s))) (js.number_of (js.trim s))
parse_principle_id js other = none

abbrev pub includes : List ℕ → ℕ → Bool
includes out id = any (λ n. n == id) out

abbrev pub id_or : Option ℕ → Result ℕ
id_or none = err (bad_request "PRINCIPLE_ID_INVALID")
id_or (some id) = ok id

abbrev pub push_new : List ℕ → ℕ → List ℕ
push_new out id = if includes out id then out else out ++ id ∷ []

unfoldable pub collect_ids : Texts → List RawId → List ℕ → Result (List ℕ)
unfolding parse_principle_id
collect_ids js [] out = ok out
collect_ids js (value ∷ values) out =
    id_or (parse_principle_id js value) >>= λ id. collect_ids js values (push_new out id)

pub record Options : Type 0 where
  pub required : Bool
  pub min : Option ℕ
  pub max : Option ℕ

abbrev pub reaches : Option ℕ → ℕ → Bool
reaches none n = true
reaches (some min) n = leb min n

abbrev pub keeps_within : Option ℕ → ℕ → Bool
keeps_within none n = true
keeps_within (some max) n = leb n max

abbrev pub within_count : Options → List ℕ → Result (List ℕ)
within_count options out =
    require (reaches options.min (length out)) (bad_request "PRINCIPLES_COUNT_INVALID")
    >> (require (keeps_within options.max (length out)) (bad_request "PRINCIPLES_COUNT_INVALID")
        >> ok (sort leb out))

-- `input` is none where it is no array.
unfoldable pub normalise_principle_ids : Texts → Options → Option (List RawId) → Result (List ℕ)
unfolding collect_ids sort
normalise_principle_ids js options none =
    if options.required then err (bad_request "PRINCIPLES_REQUIRED") else ok []
normalise_principle_ids js options (some values) = collect_ids js values [] >>= within_count options
