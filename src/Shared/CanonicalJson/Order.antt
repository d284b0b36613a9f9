-- ===== src/Shared/CanonicalJson/Order.antt =====
-- The canonical text does not depend on the order in which the fields of an object stand.
use open_cawt.Base.{
  String, List, [], ◌∷◌, str_le_total, str_le_trans, str_le_antisymm, ◌≡◌, ◌≢◌, ◌∙◌, refl, ap, ap₂,
  arith,
}
use open_cawt.Base.Sorting.{insert, sort}
use open_cawt.Shared.CanonicalJson.{
  Value, Values, Members, object, array, no_items, item, no_fields, field, Pair, key_le,
  sorted_pairs, pairs, items, canonical_json, item_texts, field_texts,
}

-- Two values that differ by the order of fields with different keys, at any depth.
mutual
  pub data SameValue : Value → Value → Type 0 where
    same : {x : Value} → SameValue x x
    arrays : {xs ys : Values} → SameValues xs ys → SameValue (array xs) (array ys)
    objects : {fs gs : Members} → SameMembers fs gs → SameValue (object fs) (object gs)

  pub data SameValues : Values → Values → Type 0 where
    no_more_items : SameValues no_items no_items
    both_items :
        {x y : Value} {xs ys : Values}
        → SameValue x y
        → SameValues xs ys
        → SameValues (item x xs) (item y ys)

  pub data SameMembers : Members → Members → Type 0 where
    no_more_fields : SameMembers no_fields no_fields
    both_fields :
        {key : String} {x y : Value} {fs gs : Members}
        → SameValue x y
        → SameMembers fs gs
        → SameMembers (field key x fs) (field key y gs)
    swap :
        {key other : String} {x y : Value} {fs : Members}
        → key ≢ other
        → SameMembers (field key x (field other y fs)) (field other y (field key x fs))
    trans : {fs gs hs : Members} → SameMembers fs gs → SameMembers gs hs → SameMembers fs hs

insert_comm :
    (p q : Pair) (l : List Pair)
    → p.0 ≢ q.0
    → insert key_le p (insert key_le q l) ≡ insert key_le q (insert key_le p l)
unfolding insert
insert_comm p q [] d = ground (arith, str_le_total p.0 q.0, str_le_antisymm p.0 q.0)
insert_comm p q (r ∷ l) d = ground (
  arith,
  insert_comm p q l,
  str_le_total p.0 q.0,
  str_le_antisymm p.0 q.0,
  str_le_trans p.0 q.0 r.0,
  str_le_trans q.0 p.0 r.0,
)

module _ (json_string : String → String) where
  mutual
    unfolding canonical_json pairs items sort

    canonical-same :
        {x y : Value} → SameValue x y → canonical_json json_string x ≡ canonical_json json_string y
    canonical-same same = refl
    canonical-same (arrays h) = ap items (item_texts-same h)
    canonical-same (objects h) = ap (sorted_pairs json_string) (sorted-same h)

    item_texts-same :
        {xs ys : Values} → SameValues xs ys → item_texts json_string xs ≡ item_texts json_string ys
    item_texts-same no_more_items = refl
    item_texts-same (both_items h k) = ap₂ ◌∷◌ (canonical-same h) (item_texts-same k)

    sorted-same :
        {fs gs : Members}
        → SameMembers fs gs
        → sort key_le (field_texts json_string fs) ≡ sort key_le (field_texts json_string gs)
    sorted-same no_more_fields = refl
    sorted-same (both_fields {key} h k) =
        ap₂ (λ t l. insert key_le (key, t) l) (canonical-same h) (sorted-same k)
    sorted-same (swap {key} {other} {x} {y} {fs} d) =
        insert_comm (key, canonical_json json_string x) (other, canonical_json json_string y)
          (sort key_le (field_texts json_string fs)) d
    sorted-same (trans h k) = sorted-same h ∙ sorted-same k

  -- Values that differ by the order of the fields of their objects, at any depth, have one
  -- canonical text, or none of them has one; and so what is hashed or signed is the same.
  pub canonical_json-eq_of_same :
      {x y : Value} → SameValue x y → canonical_json json_string x ≡ canonical_json json_string y
  canonical_json-eq_of_same h = canonical-same h
