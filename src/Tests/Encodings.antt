-- ===== src/Tests/Encodings.antt =====
-- Encodings.
use open_cawt.Base.{String, eq_iff, true, some, ◌≢◌, [], ◌∷◌, ◌≡◌, arith}
use open_cawt.Shared.CanonicalJson.{Value, null, boolean, object, field, no_fields, canonical_json}
use open_cawt.Shared.CanonicalJson.Order.{
  objects, both_fields, no_more_fields, swap, canonical_json-eq_of_same,
}
use open_cawt.Shared.Base58.{spill, encode_base58, decode_base58}
use open_cawt.Shared.Base58.Digits.{value, spill-terminates}
use open_cawt.Shared.Base58.RoundTrip.{decode-encode}

decode-encode_example :
    decode_base58 (encode_base58 (0 ∷ 0 ∷ 255 ∷ 7 ∷ [])) ≡ some (0 ∷ 0 ∷ 255 ∷ 7 ∷ [])
decode-encode_example =
    decode-encode (0 ∷ 0 ∷ 255 ∷ 7 ∷ [])
      (omega arith, (omega arith, (omega arith, (omega arith, tt))))

spill-terminates_example :
    (spill 58 300 255 ≡ spill 58 255 255) × (value 58 (spill 58 300 255) ≡ 255)
spill-terminates_example = spill-terminates 58 (omega arith) 300 255 (omega arith)

-- Two objects, one in the other, with two fields each.
abbrev inner : Value
inner = object (field "a" null (field "b" (boolean true) no_fields))

abbrev inner_swapped : Value
inner_swapped = object (field "b" (boolean true) (field "a" null no_fields))

a-ne-b : ◌≢◌ {A = String} "a" "b"
a-ne-b h = let e = (eq_iff "a" "b").1 h in cc

canonical_example :
    canonical_json (λ s. s) (object (field "x" inner no_fields))
    ≡ canonical_json (λ s. s) (object (field "x" inner_swapped no_fields))
canonical_example =
    canonical_json-eq_of_same (λ s. s)
      (objects (both_fields (objects (swap a-ne-b)) no_more_fields))
