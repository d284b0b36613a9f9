-- ===== src/Requests/Json.antt =====
-- `normaliseIdempotencyPayload` of idempotency.ts. A value of JavaScript is told apart as that
-- function does; `rest` is any other value, with its `String(value)`.
pub mod Plain
use open_cawt.Base.{ℕ, String, Bool}

mutual
  pub data Js : Type 0 where
    undefined null not_finite : Js
    number : ℕ → Js
    boolean : Bool → Js
    text bigint date rest : String → Js
    array : Items → Js
    object : Fields → Js

  pub data Items : Type 0 where
    no_items : Items
    item : Js → Items → Items

  pub data Fields : Type 0 where
    no_fields : Fields
    field : String → Js → Fields → Fields

unfoldable mutual
  pub normalise : Js → Js
  normalise undefined = null
  normalise null = null
  normalise not_finite = null
  normalise (number n) = number n
  normalise (boolean b) = boolean b
  normalise (text s) = text s
  normalise (bigint s) = text s
  normalise (date s) = text s
  normalise (rest s) = text s
  normalise (array is) = array (normalise_items is)
  normalise (object fs) = object (normalise_fields fs)

  pub normalise_items : Items → Items
  normalise_items no_items = no_items
  normalise_items (item x xs) = item (normalise x) (normalise_items xs)

  -- A field that is undefined is left out.
  pub normalise_fields : Fields → Fields
  normalise_fields no_fields = no_fields
  normalise_fields (field key undefined fs) = normalise_fields fs
  normalise_fields (field key x fs) = field key (normalise x) (normalise_fields fs)
