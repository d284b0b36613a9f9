-- ===== src/Requests/Json/Plain.antt =====
-- What `normaliseIdempotencyPayload` leaves.
use open_cawt.Base.{◌≡◌, refl, ap}
use open_cawt.Requests.Json.{
  Js, Items, Fields, undefined, null, not_finite, number, boolean, text, bigint, date, rest, array,
  object, no_items, item, no_fields, field, normalise, normalise_items, normalise_fields,
}

mutual
  unfolding normalise

  normalise_again : (v : Js) → normalise (normalise v) ≡ normalise v
  normalise_again undefined = refl
  normalise_again null = refl
  normalise_again not_finite = refl
  normalise_again (number n) = refl
  normalise_again (boolean b) = refl
  normalise_again (text s) = refl
  normalise_again (bigint s) = refl
  normalise_again (date s) = refl
  normalise_again (rest s) = refl
  normalise_again (array is) = ap array (normalise_items_again is)
  normalise_again (object fs) = ap object (normalise_fields_again fs)

  normalise_items_again : (is : Items) → normalise_items (normalise_items is) ≡ normalise_items is
  normalise_items_again no_items = refl
  normalise_items_again (item x xs) = cc (normalise_again x, normalise_items_again xs)

  normalise_fields_again :
      (fs : Fields) → normalise_fields (normalise_fields fs) ≡ normalise_fields fs
  normalise_fields_again no_fields = refl
  normalise_fields_again (field key undefined fs) = normalise_fields_again fs
  normalise_fields_again (field key null fs) = ap (field key null) (normalise_fields_again fs)
  normalise_fields_again (field key not_finite fs) = ap (field key null) (normalise_fields_again fs)
  normalise_fields_again (field key (number n) fs) =
      ap (field key (number n)) (normalise_fields_again fs)
  normalise_fields_again (field key (boolean b) fs) =
      ap (field key (boolean b)) (normalise_fields_again fs)
  normalise_fields_again (field key (text s) fs) =
      ap (field key (text s)) (normalise_fields_again fs)
  normalise_fields_again (field key (bigint s) fs) =
      ap (field key (text s)) (normalise_fields_again fs)
  normalise_fields_again (field key (date s) fs) =
      ap (field key (text s)) (normalise_fields_again fs)
  normalise_fields_again (field key (rest s) fs) =
      ap (field key (text s)) (normalise_fields_again fs)
  normalise_fields_again (field key (array is) fs) =
      cc (normalise_items_again is, normalise_fields_again fs)
  normalise_fields_again (field key (object gs) fs) =
      cc (normalise_fields_again gs, normalise_fields_again fs)

-- A payload that has been normalised is normalised to itself.
pub normalise-normalise : (v : Js) → normalise (normalise v) ≡ normalise v
normalise-normalise v = normalise_again v
