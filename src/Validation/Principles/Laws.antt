-- ===== src/Validation/Principles/Laws.antt =====
-- What normalisePrincipleIds returns.
use open_cawt.Base.{
  ℕ, ◌≤◌, ◌<◌, Bool, true, false, ◌||◌, Option, none, some, List, [], ◌∷◌, ◌++◌, any, leb, length,
  ◌==◌, All, ◌≡◌, ◌∙◌, refl, sym, ap, subst, arith, if_elim, is_some,
}
use open_cawt.Base.Errors.{ok, bad_request, require, require-true, both_ok, bind_ok, ok-inj}
use open_cawt.Base.Sorting.{
  insert, sort, IsPreorder, IsSorted, sort-IsSorted, sort-perm, All-sort_iff,
}
use open_cawt.Base.Perms.{length-perm}
use open_cawt.Validation.Principles.{
  RawId, number, text, other, Texts, codes, if_in_range, from_tag, or_number, parse_principle_id,
  includes, id_or, push_new, collect_ids, Options, reaches, keeps_within, within_count,
  normalise_principle_ids,
}

abbrev Distinct : List ℕ → Type 0
Distinct [] = Unit
Distinct (x ∷ xs) = (includes xs x ≡ false) × Distinct xs

abbrev pub IsAscending : List ℕ → Type 0
IsAscending [] = Unit
IsAscending (x ∷ xs) = All (λ y. x < y) xs × IsAscending xs

abbrev pub IsInRange : ℕ → Type 0
IsInRange n = (1 ≤ n) × (n ≤ 12)

-- A value of the array that stands for `n`.
abbrev pub is_id : ℕ → Option ℕ → Bool
is_id n none = false
is_id n (some m) = m == n

abbrev pub stands_for : Texts → ℕ → RawId → Bool
unfolding parse_principle_id
stands_for js n value = is_id n (parse_principle_id js value)

leb-IsPreorder : IsPreorder leb
leb-IsPreorder = record { total = λ a b h. ground arith; trans = λ a b c h k. ground arith }

includes-append :
    (xs ys : List ℕ) (n : ℕ) → includes (xs ++ ys) n ≡ (includes xs n || includes ys n)
includes-append [] ys n = refl
includes-append (x ∷ xs) ys n = ground (arith, includes-append xs ys n)

Distinct-snoc :
    (xs : List ℕ) (n : ℕ) → Distinct xs → includes xs n ≡ false → Distinct (xs ++ n ∷ [])
Distinct-snoc [] n d h = (refl, tt)
Distinct-snoc (x ∷ xs) n (f, d) h =
    (ground (arith, includes-append xs (n ∷ []) x), Distinct-snoc xs n d (ground arith))

includes-insert :
    (x : ℕ) (l : List ℕ) (n : ℕ) → includes (insert leb x l) n ≡ (x == n || includes l n)
unfolding insert
includes-insert x [] n = refl
includes-insert x (y ∷ l) n = ground (arith, includes-insert x l n)

insert-Distinct :
    (x : ℕ) (l : List ℕ) → includes l x ≡ false → Distinct l → Distinct (insert leb x l)
unfolding insert
insert-Distinct x [] h d = (refl, tt)
insert-Distinct x (y ∷ l) h (f, d) =
    if_elim Distinct (leb x y) (λ _. (h, (f, d)))
      (λ _. (ground (arith, includes-insert x l y), insert-Distinct x l (ground arith) d))

includes-sort : (l : List ℕ) (n : ℕ) → includes (sort leb l) n ≡ includes l n
unfolding sort
includes-sort [] n = refl
includes-sort (x ∷ l) n = ground (arith, includes-insert x (sort leb l) n, includes-sort l n)

sort-Distinct : (l : List ℕ) → Distinct l → Distinct (sort leb l)
unfolding sort
sort-Distinct [] d = tt
sort-Distinct (x ∷ l) (f, d) =
    insert-Distinct x (sort leb l) (includes-sort l x ∙ f) (sort-Distinct l d)

above :
    (x : ℕ) (l : List ℕ) → All (λ y. leb x y ≡ true) l → includes l x ≡ false → All (λ y. x < y) l
above x [] s f = tt
above x (y ∷ l) (p, s) f = (ground arith, above x l s (ground arith))

ascending : (l : List ℕ) → IsSorted leb l → Distinct l → IsAscending l
ascending [] s d = tt
ascending (x ∷ l) (p, s) (f, d) = (above x l p f, ascending l s d)

All-snoc : (xs : List ℕ) (n : ℕ) → All IsInRange xs → IsInRange n → All IsInRange (xs ++ n ∷ [])
All-snoc [] n a h = (h, tt)
All-snoc (x ∷ xs) n (p, a) h = (p, All-snoc xs n a h)

tag-IsInRange : (cs : List ℕ) (n : ℕ) → from_tag cs ≡ some n → IsInRange n
unfolding from_tag
tag-IsInRange [] n h = cc
tag-IsInRange (p ∷ []) n h = cc
tag-IsInRange (p ∷ d ∷ []) n h = (ground arith, ground arith)
tag-IsInRange (p ∷ d ∷ e ∷ []) n h = (ground arith, ground arith)
tag-IsInRange (p ∷ d ∷ e ∷ f ∷ cs) n h = cc

range_of : (o : Option ℕ) (n : ℕ) → if_in_range o ≡ some n → IsInRange n
range_of none n h = cc
range_of (some m) n h = (ground arith, ground arith)

or_number-IsInRange :
    (a b : Option ℕ) (n : ℕ)
    → ((m : ℕ) → a ≡ some m → IsInRange m)
    → or_number a b ≡ some n
    → IsInRange n
or_number-IsInRange none b n k h = range_of b n h
or_number-IsInRange (some m) b n k h = k n h

parse-IsInRange :
    (js : Texts) (value : RawId) (n : ℕ) → parse_principle_id js value ≡ some n → IsInRange n
unfolding parse_principle_id
parse-IsInRange js (number m) n h = range_of m n h
parse-IsInRange js (text s) n h =
    or_number-IsInRange _ (js.number_of (js.trim s)) n (tag-IsInRange (codes (js.trim s))) h
parse-IsInRange js other n h = cc

id_or-ok : (o : Option ℕ) (n : ℕ) → id_or o ≡ ok n → o ≡ some n
id_or-ok none n h = cc
id_or-ok (some m) n h = ap some (ok-inj m n h)

or_assoc : (a b c : Bool) → ((a || b) || c) ≡ (a || (b || c))
or_assoc a b c = ground arith

-- What the loop keeps: the ids it has, and those of the values that are left.
record Collects (js : Texts) (values : List RawId) (out r : List ℕ) : Type 0 where
  distinct : Distinct r
  in_range : All IsInRange r
  members : (n : ℕ) → includes r n ≡ (includes out n || any (stands_for js n) values)
  all_ids : All (λ v. is_some (parse_principle_id js v) ≡ true) values

push_new-Distinct : (out : List ℕ) (n : ℕ) → Distinct out → Distinct (push_new out n)
push_new-Distinct out n d =
    if_elim Distinct (includes out n) (λ _. d) (λ h. Distinct-snoc out n d h)

push_new-IsInRange :
    (out : List ℕ) (n : ℕ) → All IsInRange out → IsInRange n → All IsInRange (push_new out n)
push_new-IsInRange out n a h =
    if_elim (All IsInRange) (includes out n) (λ _. a) (λ _. All-snoc out n a h)

includes-push_new :
    (out : List ℕ) (n m : ℕ) → includes (push_new out n) m ≡ (includes out m || n == m)
includes-push_new out n m = ground (arith, includes-append out (n ∷ []) m)

collect_ids-Collects :
    (js : Texts) (values : List RawId) (out r : List ℕ)
    → collect_ids js values out ≡ ok r
    → Distinct out
    → All IsInRange out
    → Collects js values out r
unfolding collect_ids
collect_ids-Collects js [] out r h d a =
    let same = ok-inj out r h in
    subst (Collects js [] out) same
      (record { distinct = d; in_range = a; members = λ n. ground arith; all_ids = tt })
collect_ids-Collects js (v ∷ values) out r h d a =
    let (n, (hn, h1)) = bind_ok (id_or (parse_principle_id js v)) _ r h in
    let it = id_or-ok (parse_principle_id js v) n hn in
    let c =
      collect_ids-Collects js values (push_new out n) r h1 (push_new-Distinct out n d)
        (push_new-IsInRange out n a (parse-IsInRange js v n it)) in
    record {
      distinct = c.distinct;
      in_range = c.in_range;
      members = λ m.
          c.members m
          ∙ ap (λ b. b || any (stands_for js m) values) (includes-push_new out n m)
          ∙ or_assoc (includes out m) (n == m) (any (stands_for js m) values)
          ∙ ap (λ o. includes out m || (is_id m o || any (stands_for js m) values)) (sym it);
      all_ids = (ap is_some it, c.all_ids);
    }

-- What holds of the ids that are returned for an array.
pub record AreIds (js : Texts) (options : Options) (values : List RawId) (r : List ℕ) : Type 0 where
  pub ascending : IsAscending r
  pub in_range : All IsInRange r
  pub members : (n : ℕ) → includes r n ≡ any (stands_for js n) values
  pub all_ids : All (λ v. is_some (parse_principle_id js v) ≡ true) values
  pub enough : reaches options.min (length r) ≡ true
  pub within : keeps_within options.max (length r) ≡ true

-- The ids that are returned for an array ascend, are from 1 to 12, are those that a value of the
-- array stands for, and are as many as the options ask for; and every value of the array stands for
-- an id.
pub normalise-AreIds :
    (js : Texts) (options : Options) (values : List RawId) (r : List ℕ)
    → normalise_principle_ids js options (some values) ≡ ok r
    → AreIds js options values r
unfolding normalise_principle_ids
normalise-AreIds js options values r h =
    let (out, (ho, h1)) = bind_ok (collect_ids js values []) (within_count options) r h in
    let (least, h2) =
      both_ok (require (reaches options.min (length out)) (bad_request "PRINCIPLES_COUNT_INVALID"))
        _ r h1 in
    let (most, h3) =
      both_ok
        (require (keeps_within options.max (length out)) (bad_request "PRINCIPLES_COUNT_INVALID")) _
        r h2 in
    let c = collect_ids-Collects js values [] out ho tt tt in
    let size : length out ≡ length (sort leb out) = sym (length-perm (sort-perm leb out)) in
    subst (AreIds js options values) (ok-inj (sort leb out) r h3) (record {
      ascending =
          ascending (sort leb out) (sort-IsSorted leb leb-IsPreorder out)
            (sort-Distinct out c.distinct);
      in_range = (All-sort_iff leb IsInRange out).1 c.in_range;
      members = λ n. includes-sort out n ∙ c.members n;
      all_ids = c.all_ids;
      enough = ap (reaches options.min) (sym size) ∙ require-true _ _ least;
      within = ap (keeps_within options.max) (sym size) ∙ require-true _ _ most;
    })
