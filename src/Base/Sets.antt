-- ===== src/Base/Sets.antt =====
-- `[...new Set(xs)]`: the values in the order of their first occurrence; and that array sorted.
use mathlib.Core.Path.{◌≡◌, refl, sym, ◌∙◌, subst}
use mathlib.Core.Logic.{◌↔◌, inl, inr}
use mathlib.Core.Logic.Or
use mathlib.Core.Bool.{Bool, true, false, ◌||◌, false≢true}
use mathlib.Core.List.{
  List, [], ◌∷◌, ◌++◌, Mem, Nodup, Perm, mem-cons, not-mem-nil, Nodup-nil, Nodup-append, Nodup-cons,
  perm_ext_iff_of_Nodup,
}
use mathlib.Core.List.Perm
use mathlib.Core.HLevel.{hedberg}
use mathlib.Core.List.{List-discrete}
use Prim.Native.String.{String}
use Prim.Native.Nat.{ℕ, zero, suc}
use mathlib.Core.List.Nodup
use open_cawt.Base.Lists.{take, drop, keep, take-append-drop}
use native.Mathlib.Omega.{arith}
use text.Mathlib.Text.{◌==◌ as str_eq}
use text.Mathlib.TextEquality.{eq_iff}
use open_cawt.Base.Tests.{if◌then◌else◌, Bool-cases}
use open_cawt.Base.Texts.{str_le, str_le_total, str_le_trans, str_le_antisymm, String-discrete}
use open_cawt.Base.Sorting.{sort, sort-perm, sort-eq_of_perm, IsTotal}

-- `xs.includes(a)`, or `set.has(a)`.
abbrev pub has : List String → String → Bool
has [] a = false
has (x ∷ xs) a = str_eq x a || has xs a

abbrev add_new : List String → String → List String
add_new seen x = if has seen x then seen else seen ++ x ∷ []

collect : List String → List String → List String
collect seen [] = seen
collect seen (x ∷ xs) = collect (add_new seen x) xs

unfoldable pub unique : List String → List String
unfolding collect
unique xs = collect [] xs

-- `[...new Set(xs)].sort()`
unfoldable pub unique_sorted : List String → List String
unfolding unique sort str_le
unique_sorted xs = sort str_le (unique xs)

pub str_le-IsTotal : IsTotal str_le
str_le-IsTotal = record { total = str_le_total; trans = str_le_trans; antisymm = str_le_antisymm }

pub has-append : (xs ys : List String) (a : String) → has (xs ++ ys) a ≡ (has xs a || has ys a)
has-append [] ys a = refl
has-append (x ∷ xs) ys a = ground (arith, has-append xs ys a)

has-add_new :
    (seen : List String) (x a : String) → has (add_new seen x) a ≡ (has seen a || str_eq x a)
has-add_new seen x a = ground (arith, has-append seen (x ∷ []) a, eq_iff x a)

has-collect :
    (seen xs : List String) (a : String) → has (collect seen xs) a ≡ (has seen a || has xs a)
unfolding collect
has-collect seen [] a = ground arith
has-collect seen (x ∷ xs) a =
    ground (arith, has-collect (add_new seen x) xs a, has-add_new seen x a)

has→Mem : (xs : List String) (a : String) → has xs a ≡ true → Mem a xs
has→Mem [] a h = absurd (false≢true h)
has→Mem (x ∷ xs) a h = elim (Bool-cases (str_eq x a)) [
  | inl e ↦ mem-cons.1 (Or.inl (sym ((eq_iff x a).0 e)))
  | inr e ↦ mem-cons.1 (Or.inr (has→Mem xs a (rw e at h)))
]

Mem→has : (xs : List String) (a : String) → Mem a xs → has xs a ≡ true
Mem→has [] a m = absurd (not-mem-nil m)
Mem→has (x ∷ xs) a m =
    Or.elim (hlevel) (mem-cons.0 m) (λ e. ground (arith, eq_iff x a))
      (λ m'. ground (arith, Mem→has xs a m'))

pub has-iff-Mem : (xs : List String) (a : String) → (has xs a ≡ true) ↔ Mem a xs
has-iff-Mem xs a = (has→Mem xs a, Mem→has xs a)

pub has-unique : (xs : List String) (a : String) → has (unique xs) a ≡ has xs a
unfolding unique
has-unique xs a = has-collect [] xs a

add_new-Nodup : (seen : List String) (x : String) → Nodup seen → Nodup (add_new seen x)
add_new-Nodup seen x n = elim (Bool-cases (has seen x)) [
  | inl e ↦ rw e n
  | inr e ↦ rw e (Nodup-append.1 (n, Nodup-cons.1 (not-mem-nil, Nodup-nil), apart e))
]
  where
    apart : has seen x ≡ false → (a : String) → Mem a seen → Mem a (x ∷ []) → ⊥
    apart e a m k = ground (arith, eq_iff x a, Mem→has (x ∷ []) a k, Mem→has seen a m)

collect-Nodup : (seen xs : List String) → Nodup seen → Nodup (collect seen xs)
unfolding collect
collect-Nodup seen [] n = n
collect-Nodup seen (x ∷ xs) n = collect-Nodup (add_new seen x) xs (add_new-Nodup seen x n)

pub unique-Nodup : (xs : List String) → Nodup (unique xs)
unfolding unique
unique-Nodup xs = collect-Nodup [] xs Nodup-nil

pub String-lists-set : IsSet (List String)
String-lists-set = hedberg (List-discrete String-discrete)

-- The array depends only on which values it has.
pub unique_sorted-eq :
    (xs ys : List String)
    → ((a : String) → has xs a ≡ has ys a)
    → unique_sorted xs ≡ unique_sorted ys
unfolding unique_sorted
unique_sorted-eq xs ys same = sort-eq_of_perm str_le str_le-IsTotal String-lists-set (
    (perm_ext_iff_of_Nodup (unique-Nodup xs) (unique-Nodup ys)).1
      (λ a. (member xs ys a (same a), member ys xs a (sym (same a)))))
  where
    member :
        (l m : List String) (a : String) → has l a ≡ has m a → Mem a (unique l) → Mem a (unique m)
    member l m a e k =
        has→Mem (unique m) a
          (has-unique m a ∙ sym e ∙ sym (has-unique l a) ∙ Mem→has (unique l) a k)

iff→eq : (a b : Bool) → (a ≡ true → b ≡ true) → (b ≡ true → a ≡ true) → a ≡ b
iff→eq a b to from = ground arith

pub has-perm : {xs ys : List String} → Perm xs ys → (a : String) → has xs a ≡ has ys a
has-perm {xs} {ys} p a =
    let to = has-iff-Mem xs a in
    let back = has-iff-Mem ys a in
    let mem = Perm.mem_iff p in
    iff→eq _ _ (λ h. back.1 (mem.0 (to.0 h))) (λ h. to.1 (mem.1 (back.0 h)))

pub unique_sorted-perm : {xs ys : List String} → Perm xs ys → unique_sorted xs ≡ unique_sorted ys
unique_sorted-perm p = unique_sorted-eq _ _ (has-perm p)

pub has-unique_sorted : (xs : List String) (a : String) → has (unique_sorted xs) a ≡ has xs a
unfolding unique_sorted
has-unique_sorted xs a = has-perm (sort-perm str_le (unique xs)) a ∙ has-unique xs a

pub unique_sorted-Nodup : (xs : List String) → Nodup (unique_sorted xs)
unfolding unique_sorted
unique_sorted-Nodup xs = Perm.nodup (Perm.symm (sort-perm str_le (unique xs))) (unique-Nodup xs)

pub has-take : (n : ℕ) (xs : List String) (a : String) → has (take n xs) a ≡ true → has xs a ≡ true
has-take zero xs a h = cc
has-take (suc n) [] a h = h
has-take (suc n) (x ∷ xs) a h = ground (arith, has-take n xs a)

pub take-Nodup : (n : ℕ) {xs : List String} → Nodup xs → Nodup (take n xs)
take-Nodup n {xs} h = Nodup.of_append_left (drop n xs) (subst Nodup (sym (take-append-drop n xs)) h)

pub has-keep :
    (f : String → Bool) (ids : List String) (a : String) → has (keep f ids) a ≡ true → f a ≡ true
has-keep f [] a h = cc
has-keep f (x ∷ xs) a h = ground (arith, has-keep f xs a, eq_iff x a)
