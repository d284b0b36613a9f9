-- ===== src/Requests/Idempotency/Table.antt =====
-- The table as a map from keys to rows, what each statement does to the map, and what is found in
-- the rows after it.
use open_cawt.Base.{
  ℕ, true, false, Option, none, some, List, [], ◌∷◌, ◌≡◌, ◌∙◌, refl, sym, ap, arith, if◌then◌else◌,
  Bool-cases, inl, inr, eq_iff,
}
use open_cawt.Requests.Idempotency.{
  Key, Row, Response, Clock, ClaimInput, same_key, is_open, find, is_live,
  purge_expired_idempotency, new_row, try_claim_idempotency, insert_or_look, completed,
  complete_rows, release_idempotency_claim,
}
use open_cawt.Requests.Idempotency.Rows.{same_key_trans, find-snoc, find-snoc_other}

-- A table, as what is found under each key.
abbrev pub Table : Type 0
Table = Key → Option Row

pub data Statement : Type 0 where
  purge : ℕ → Statement
  claim : ℕ → Clock → ClaimInput → Statement
  complete : Key → Response → Statement
  release : Key → Statement

unfoldable pub on_rows : Statement → List Row → List Row
on_rows (purge now) rows = purge_expired_idempotency now rows
on_rows (claim ttl_sec clock input) rows = (try_claim_idempotency ttl_sec clock input rows).0
on_rows (complete key response) rows = complete_rows key response rows
on_rows (release key) rows = release_idempotency_claim key rows

abbrev pub if_live : ℕ → Option Row → Option Row
if_live now none = none
if_live now (some row) = if is_live now row then some row else none

abbrev pub if_free : Row → Option Row → Option Row
if_free row none = some row
if_free row (some other) = some other

abbrev pub if_open : Response → Option Row → Option Row
if_open response none = none
if_open response (some row) = if is_open row.status then some (completed response row) else some row

abbrev pub unless_open : Option Row → Option Row
unless_open none = none
unless_open (some row) = if is_open row.status then none else some row

-- One entry changes, or, at a purge, those that have expired go.
abbrev pub on_table : Statement → Table → Table
on_table (purge now) table = λ k. if_live now (table k)
on_table (claim ttl_sec clock input) table = λ k.
    if same_key input.key k
    then if_free (new_row input ttl_sec clock.creating) (if_live clock.purging (table k))
    else if_live clock.purging (table k)
on_table (complete key response) table =
    λ k. if same_key key k then if_open response (table k) else table k
on_table (release key) table = λ k. if same_key key k then unless_open (table k) else table k

-- No key stands twice.
abbrev pub IsUnique : List Row → Type 0
IsUnique [] = Unit
IsUnique (row ∷ rows) = (find row.key rows ≡ none) × IsUnique rows

pub same_key-eq : (a b : Key) → same_key a b ≡ true → a ≡ b
same_key-eq a b h =
    let p : a.agent_id ≡ b.agent_id = ground (arith, eq_iff a.agent_id b.agent_id) in
    let q : a.method ≡ b.method = ground (arith, eq_iff a.method b.method) in
    let r : a.path ≡ b.path = ground (arith, eq_iff a.path b.path) in
    let s : a.idempotency_key ≡ b.idempotency_key =
      ground (arith, eq_iff a.idempotency_key b.idempotency_key) in
    λ i. record { agent_id = p i; method = q i; path = r i; idempotency_key = s i }

-- Under a key that is not in the rest, nothing is found in the rest.
absent_same :
    (row : Row) (rows : List Row) (k : Key)
    → find row.key rows ≡ none
    → same_key row.key k ≡ true
    → find k rows ≡ none
absent_same row rows k h e = ap (λ x. find x rows) (sym (same_key-eq row.key k e)) ∙ h

pub find-purge_is :
    (now : ℕ) (k : Key) (rows : List Row)
    → IsUnique rows
    → find k (purge_expired_idempotency now rows) ≡ if_live now (find k rows)
unfolding find purge_expired_idempotency
find-purge_is now k [] u = refl
find-purge_is now k (r ∷ rows) (h, u) =
    ground (arith, find-purge_is now k rows u, absent_same r rows k h)

-- The rows under other keys stay.
find-complete_other :
    (key : Key) (response : Response) (k : Key) (rows : List Row)
    → same_key key k ≡ false
    → find k (complete_rows key response rows) ≡ find k rows
unfolding find complete_rows
find-complete_other key response k [] n = refl
find-complete_other key response k (r ∷ rows) n =
    ground (arith, find-complete_other key response k rows n, same_key_trans r.key key k)

find-complete_same :
    (response : Response) (k : Key) (rows : List Row)
    → IsUnique rows
    → find k (complete_rows k response rows) ≡ if_open response (find k rows)
unfolding find complete_rows
find-complete_same response k [] u = refl
find-complete_same response k (r ∷ rows) (h, u) =
    ground (arith, find-complete_same response k rows u)

find-release_other :
    (key : Key) (k : Key) (rows : List Row)
    → same_key key k ≡ false
    → find k (release_idempotency_claim key rows) ≡ find k rows
unfolding find release_idempotency_claim
find-release_other key k [] n = refl
find-release_other key k (r ∷ rows) n =
    ground (arith, find-release_other key k rows n, same_key_trans r.key key k)

find-release_same :
    (k : Key) (rows : List Row)
    → IsUnique rows
    → find k (release_idempotency_claim k rows) ≡ unless_open (find k rows)
unfolding find release_idempotency_claim
find-release_same k [] u = refl
find-release_same k (r ∷ rows) (h, u) =
    ground (arith, find-release_same k rows u, absent_same r rows k h)

at_key :
    (f : Key → Option Row) (key k : Key) (g : Option Row → Option Row) (x : Option Row)
    → (same_key key k ≡ false → f key ≡ x)
    → (key ≡ k → f key ≡ g x)
    → f key ≡ (if same_key key k then g x else x)
at_key f key k g x other same = elim (Bool-cases (same_key key k)) [
  | inl e ↦ same (same_key-eq key k e) ∙ simp e
  | inr e ↦ other e ∙ simp e
]

pub find-complete_is :
    (key : Key) (response : Response) (k : Key) (rows : List Row)
    → IsUnique rows
    → find k (complete_rows key response rows)
      ≡ (if same_key key k then if_open response (find k rows) else find k rows)
find-complete_is key response k rows u =
    at_key (λ x. find k (complete_rows x response rows)) key k (if_open response) (find k rows)
      (find-complete_other key response k rows)
      (λ e.
        ap (λ x. find k (complete_rows x response rows)) e ∙ find-complete_same response k rows u)

pub find-release_is :
    (key : Key) (k : Key) (rows : List Row)
    → IsUnique rows
    → find k (release_idempotency_claim key rows)
      ≡ (if same_key key k then unless_open (find k rows) else find k rows)
find-release_is key k rows u =
    at_key (λ x. find k (release_idempotency_claim x rows)) key k unless_open (find k rows)
      (find-release_other key k rows)
      (λ e. ap (λ x. find k (release_idempotency_claim x rows)) e ∙ find-release_same k rows u)

looked_is :
    (ttl_sec : ℕ) (clock : Clock) (input : ClaimInput) (k : Key) (o : Option Row) (live : List Row)
    → find input.key live ≡ o
    → find k (insert_or_look o ttl_sec clock input live).0 ≡ (
        if same_key input.key k
        then if_free (new_row input ttl_sec clock.creating) (find k live)
        else find k live)
looked_is ttl_sec clock input k none live e =
    let row = new_row input ttl_sec clock.creating in
    elim (Bool-cases (same_key input.key k)) [
      | inl c ↦
          let gone : find k live ≡ none =
            ap (λ x. find x live) (sym (same_key-eq input.key k c)) ∙ e in
          find-snoc k live row gone c ∙ simp (c, gone)
      | inr c ↦ find-snoc_other k live row c ∙ simp c
    ]
looked_is ttl_sec clock input k (some row) live e = elim (Bool-cases (same_key input.key k)) [
  | inl c ↦
      let there : find k live ≡ some row =
        ap (λ x. find x live) (sym (same_key-eq input.key k c)) ∙ e in
      simp (c, there)
  | inr c ↦ simp c
]

-- Each statement does to the table what it does to the map.
pub on_rows-on_table :
    (s : Statement) (rows : List Row) (k : Key)
    → IsUnique rows
    → find k (on_rows s rows) ≡ on_table s (λ x. find x rows) k
unfolding on_rows try_claim_idempotency
on_rows-on_table (purge now) rows k u = find-purge_is now k rows u
on_rows-on_table (complete key response) rows k u = find-complete_is key response k rows u
on_rows-on_table (release key) rows k u = find-release_is key k rows u
on_rows-on_table (claim ttl_sec clock input) rows k u =
    let live = purge_expired_idempotency clock.purging rows in
    looked_is ttl_sec clock input k (find input.key live) live refl
    ∙ ap (λ o. if same_key input.key k then if_free (new_row input ttl_sec clock.creating) o else o)
        (find-purge_is clock.purging k rows u)
