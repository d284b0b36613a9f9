-- ===== src/Base/Errors.antt =====
-- server/services/errors.ts: what a handler throws, and results that may be one. Of an error its
-- HTTP status and code are kept; the text and the details that it prints are not.
use Prim.Native.Nat.{ℕ}
use Prim.Native.String.{String}
use mathlib.Core.Path.{◌≡◌, refl}
use mathlib.Core.Bool.{Bool, true, false}

pub record ApiError : Type 0 where
  pub status : ℕ
  pub code : String

abbrev pub bad_request : String → ApiError
bad_request code = record { status = 400; code = code }

abbrev pub unauthorised : String → ApiError
unauthorised code = record { status = 401; code = code }

abbrev pub forbidden : String → ApiError
forbidden code = record { status = 403; code = code }

abbrev pub not_found : String → ApiError
not_found code = record { status = 404; code = code }

abbrev pub conflict : String → ApiError
conflict code = record { status = 409; code = code }

abbrev pub rate_limited : ApiError
rate_limited = record { status = 429; code = "RATE_LIMITED" }

-- What `safeError` makes of an error that is no `ApiError`.
abbrev pub internal_error : ApiError
internal_error = record { status = 500; code = "INTERNAL_ERROR" }

-- What a call that may throw returns.
pub data Result {ℓ} (A : Type ℓ) : Type ℓ where
  err : ApiError → Result A
  ok : A → Result A

-- `if (!test) throw thrown`
abbrev pub require : Bool → ApiError → Result (Unit {0})
require true thrown = ok tt
require false thrown = err thrown

infixl 5 ◌>>◌ ◌>>=◌
-- A check before what comes next.
abbrev pub ◌>>◌ {ℓ} : {B : Type ℓ} → Result (Unit {0}) → Result B → Result B
err thrown >> next = err thrown
ok passed >> next = next

-- A value that what comes next uses.
abbrev pub ◌>>=◌ {ℓ κ} : {A : Type ℓ} {B : Type κ} → Result A → (A → Result B) → Result B
err thrown >>= next = err thrown
ok value >>= next = next value

pub require-true : (b : Bool) (e : ApiError) → require b e ≡ ok tt → b ≡ true
require-true true e h = refl
require-true false e h = cc

pub both_ok {ℓ} :
    {A : Type ℓ} (a : Result (Unit {0})) (b : Result A) (x : A)
    → (a >> b) ≡ ok x
    → (a ≡ ok tt) × (b ≡ ok x)
both_ok (ok u) b x h = (refl, h)
both_ok (err e) b x h = cc

pub bind_ok {ℓ κ} :
    {A : Type ℓ} {B : Type κ} (r : Result A) (f : A → Result B) (x : B)
    → (r >>= f) ≡ ok x
    → (a : A) × ((r ≡ ok a) × (f a ≡ ok x))
bind_ok (ok a) f x h = (a, (refl, h))
bind_ok (err e) f x h = cc

pub ok-inj {ℓ} : {A : Type ℓ} (a b : A) → ◌≡◌ {A = Result A} (ok a) (ok b) → a ≡ b
ok-inj a b h = cc
