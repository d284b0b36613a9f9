-- ===== src/Session/Panel/Seats.antt =====
-- The seats of the panel through a replacement.
use open_cawt.Base.{
  ℕ, ◌+◌, String, true, false, List, [], ◌∷◌, ◌++◌, ◌≡◌, refl, sym, arith, Bool-cases, inl, inr,
  not, ◌&&◌, ◌||◌, map, eq_iff, str_eq, subst, count_if,
}
use open_cawt.Base.Sets.{has}
use open_cawt.Session.Types.{Member}
use open_cawt.Session.Store.{update_member, timed_out, replaced_by, without_member}
use open_cawt.Session.Panel.{is_active, active_ids}

abbrev pub keys : List Member → List String
keys panel = map (λ (m : Member). m.juror_id) panel

-- No two rows have the same juror.
abbrev pub IsKeyed : List Member → Type 0
IsKeyed [] = Unit
IsKeyed (m ∷ ms) = (has (keys ms) m.juror_id ≡ false) × IsKeyed ms

abbrev pub active_seats : List Member → ℕ
active_seats panel = count_if (λ (m : Member). is_active m.member_status) panel

-- The rows once `id` has been retired for `c`.
abbrev pub retired : String → String → List Member → List Member
retired id c ms = update_member id (replaced_by c) (update_member id timed_out ms)

pub keys-retired : (id c : String) (ms : List Member) → keys (retired id c ms) ≡ keys ms
keys-retired id c [] = refl
keys-retired id c (m ∷ ms) = ground (arith, keys-retired id c ms)

pub IsKeyed-retired : (id c : String) (ms : List Member) → IsKeyed ms → IsKeyed (retired id c ms)
IsKeyed-retired id c [] k = tt
IsKeyed-retired id c (m ∷ ms) (h, k) =
    (rw (keys-retired id c ms) (ground arith), IsKeyed-retired id c ms k)

pub has-without :
    (c : String) (ms : List Member) (a : String)
    → has (keys (without_member c ms)) a ≡ (has (keys ms) a && not (str_eq c a))
has-without c [] a = refl
has-without c (m ∷ ms) a =
    ground (arith, has-without c ms a, eq_iff m.juror_id c, eq_iff m.juror_id a, eq_iff c a)

pub IsKeyed-without : (c : String) (ms : List Member) → IsKeyed ms → IsKeyed (without_member c ms)
IsKeyed-without c [] k = tt
IsKeyed-without c (m ∷ ms) (h, k) = elim (Bool-cases (str_eq m.juror_id c)) [
  | inl e ↦ rw e (IsKeyed-without c ms k)
  | inr e ↦ rw e (ground (arith, has-without c ms m.juror_id), IsKeyed-without c ms k)
]

keys-snoc :
    (ms : List Member) (m : Member) (a : String)
    → has (keys (ms ++ m ∷ [])) a ≡ (has (keys ms) a || str_eq m.juror_id a)
keys-snoc [] m a = ground arith
keys-snoc (x ∷ xs) m a = ground (arith, keys-snoc xs m a)

pub IsKeyed-snoc :
    (ms : List Member) (m : Member)
    → IsKeyed ms
    → has (keys ms) m.juror_id ≡ false
    → IsKeyed (ms ++ m ∷ [])
IsKeyed-snoc [] m k h = (refl, tt)
IsKeyed-snoc (x ∷ xs) m (a, k) h = (
  ground (
    arith,
    keys-snoc xs m x.juror_id,
    eq_iff m.juror_id x.juror_id,
    eq_iff x.juror_id m.juror_id,
  ),
  IsKeyed-snoc xs m k (ground arith),
)

-- Seats.
unseated : (id c : String) (ms : List Member) → has (keys ms) id ≡ false → retired id c ms ≡ ms
unseated id c [] h = refl
unseated id c (m ∷ ms) h = ground (arith, unseated id c ms)

active-keyed :
    (ms : List Member) (a : String) → has (active_ids ms) a ≡ true → has (keys ms) a ≡ true
unfolding active_ids
active-keyed [] a h = h
active-keyed (m ∷ ms) a h = ground (arith, active-keyed ms a)

pub seats-retired :
    (id c : String) (ms : List Member)
    → IsKeyed ms
    → has (active_ids ms) id ≡ true
    → active_seats (retired id c ms) + 1 ≡ active_seats ms
unfolding active_ids
seats-retired id c [] k h = cc
seats-retired id c (m ∷ ms) (a, k) h =
    ground
      (arith, seats-retired id c ms k, active-keyed ms id, unseated id c ms, eq_iff m.juror_id id)

pub inactive-retired :
    (id c : String) (ms : List Member) (a : String)
    → has (active_ids ms) a ≡ false
    → has (active_ids (retired id c ms)) a ≡ false
unfolding active_ids
inactive-retired id c [] a h = h
inactive-retired id c (m ∷ ms) a h = ground (arith, inactive-retired id c ms a)

pub seats-without :
    (c : String) (ms : List Member)
    → has (active_ids ms) c ≡ false
    → active_seats (without_member c ms) ≡ active_seats ms
unfolding active_ids
seats-without c [] h = refl
seats-without c (m ∷ ms) h = ground (arith, seats-without c ms, eq_iff m.juror_id c)

active-cons :
    (m : Member) (xs ys : List Member) (a : String)
    → (has (active_ids xs) a ≡ true → has (active_ids ys) a ≡ true)
    → has (active_ids (m ∷ xs)) a ≡ true
    → has (active_ids (m ∷ ys)) a ≡ true
unfolding active_ids
active-cons m xs ys a f h = ground arith

active-skip :
    (m : Member) (ms : List Member) (a : String)
    → str_eq m.juror_id a ≡ false
    → has (active_ids (m ∷ ms)) a ≡ true
    → has (active_ids ms) a ≡ true
unfolding active_ids
active-skip m ms a d h = ground arith

retired-same :
    (id c : String) (m : Member) (ms : List Member)
    → str_eq m.juror_id id ≡ false
    → retired id c (m ∷ ms) ≡ m ∷ retired id c ms
retired-same id c m ms e = ground arith

retired-head :
    (id c : String) (m : Member) (ms : List Member)
    → str_eq m.juror_id id ≡ true
    → active_ids (retired id c (m ∷ ms)) ≡ active_ids (retired id c ms)
unfolding active_ids
retired-head id c m ms e = ground arith

pub active-retired :
    (id c : String) (ms : List Member) (a : String)
    → str_eq id a ≡ false
    → has (active_ids ms) a ≡ true
    → has (active_ids (retired id c ms)) a ≡ true
active-retired id c [] a d h = h
active-retired id c (m ∷ ms) a d h = elim (Bool-cases (str_eq m.juror_id id)) [
  | inl e ↦
      subst (λ ids. has ids a ≡ true) (sym (retired-head id c m ms e))
        (active-retired id c ms a d (active-skip m ms a (ground (arith, eq_iff m.juror_id id)) h))
  | inr e ↦
      subst (λ l. has (active_ids l) a ≡ true) (sym (retired-same id c m ms e))
        (active-cons m ms (retired id c ms) a (active-retired id c ms a d) h)
]

pub active-without :
    (c : String) (ms : List Member) (a : String)
    → str_eq c a ≡ false
    → has (active_ids ms) a ≡ true
    → has (active_ids (without_member c ms)) a ≡ true
unfolding active_ids
active-without c [] a d h = h
active-without c (m ∷ ms) a d h =
    ground (arith, active-without c ms a, eq_iff m.juror_id c, eq_iff m.juror_id a, eq_iff c a)

pub active-snoc :
    (ms : List Member) (m : Member) (a : String)
    → has (active_ids ms) a ≡ true
    → has (active_ids (ms ++ m ∷ [])) a ≡ true
unfolding active_ids
active-snoc [] m a h = cc
active-snoc (x ∷ xs) m a h = ground (arith, active-snoc xs m a)
