-- ===== src/Requests/Idempotency/Refines.antt =====
-- The statements one after another: the rows, in which a key stands once, refine the map.
use open_cawt.Base.{
  ℕ, Bool, true, false, ◌&&◌, Option, none, some, List, [], ◌∷◌, ◌++◌, ◌≡◌, ◌∙◌, refl, ap,
  if◌then◌else◌, if_elim, Bool-cases, inl, inr,
}
use open_cawt.Requests.Idempotency.{
  Key, Row, Response, Clock, ClaimInput, same_key, is_open, find, is_live,
  purge_expired_idempotency, new_row, try_claim_idempotency, insert_or_look, complete_rows,
  release_idempotency_claim,
}
use open_cawt.Requests.Idempotency.Rows.{same_key_refl, find-snoc_other}
use open_cawt.Requests.Idempotency.Table.{
  Table, Statement, purge, claim, complete, release, on_rows, if_live, if_open, unless_open,
  on_table, IsUnique, same_key-eq, find-purge_is, find-complete_is, find-release_is,
  on_rows-on_table,
}

none_if : (b : Bool) (o o' : Option Row) → o ≡ none → o' ≡ none → (if b then o else o') ≡ none
none_if true o o' h k = h
none_if false o o' h k = k

purge-IsUnique :
    (now : ℕ) (rows : List Row) → IsUnique rows → IsUnique (purge_expired_idempotency now rows)
unfolding purge_expired_idempotency
purge-IsUnique now [] u = tt
purge-IsUnique now (r ∷ rows) (h, u) =
    if_elim IsUnique (is_live now r)
      (λ _. (find-purge_is now r.key rows u ∙ ap (if_live now) h, purge-IsUnique now rows u))
      (λ _. purge-IsUnique now rows u)

complete-IsUnique :
    (key : Key) (response : Response) (rows : List Row)
    → IsUnique rows
    → IsUnique (complete_rows key response rows)
unfolding complete_rows
complete-IsUnique key response [] u = tt
complete-IsUnique key response (r ∷ rows) (h, u) =
    let gone : find r.key (complete_rows key response rows) ≡ none =
      find-complete_is key response r.key rows u
      ∙ none_if (same_key key r.key) (if_open response (find r.key rows)) (find r.key rows)
          (ap (if_open response) h) h in
    let rest = complete-IsUnique key response rows u in
    if_elim IsUnique (same_key r.key key && is_open r.status) (λ _. (gone, rest))
      (λ _. (gone, rest))

release-IsUnique :
    (key : Key) (rows : List Row) → IsUnique rows → IsUnique (release_idempotency_claim key rows)
unfolding release_idempotency_claim
release-IsUnique key [] u = tt
release-IsUnique key (r ∷ rows) (h, u) =
    let gone : find r.key (release_idempotency_claim key rows) ≡ none =
      find-release_is key r.key rows u
      ∙ none_if (same_key key r.key) (unless_open (find r.key rows)) (find r.key rows)
          (ap unless_open h) h in
    let rest = release-IsUnique key rows u in
    if_elim IsUnique (same_key r.key key && is_open r.status) (λ _. rest) (λ _. (gone, rest))

if_none :
    (b : Bool) (r : Row) (o : Option Row)
    → (if b then some r else o) ≡ none
    → (b ≡ false) × (o ≡ none)
if_none true r o h = cc
if_none false r o h = (refl, h)

apart :
    (row r : Row) (rows : List Row)
    → find row.key (r ∷ rows) ≡ none
    → (same_key row.key r.key ≡ false) × (find row.key rows ≡ none)
unfolding find
apart row r rows h =
    let (n, gone) = if_none (same_key r.key row.key) r (find row.key rows) h in
    (
      elim (Bool-cases (same_key row.key r.key)) [
        | inl e ↦
            let back : same_key r.key row.key ≡ true =
              ap (same_key r.key) (same_key-eq row.key r.key e) ∙ same_key_refl r.key in
            cc (back, n)
        | inr e ↦ e
      ],
      gone,
    )

snoc-IsUnique :
    (rows : List Row) (row : Row)
    → IsUnique rows
    → find row.key rows ≡ none
    → IsUnique (rows ++ row ∷ [])
unfolding find
snoc-IsUnique [] row u h = (refl, tt)
snoc-IsUnique (r ∷ rows) row (g, u) h =
    let (other, gone) = apart row r rows h in
    (find-snoc_other r.key rows row other ∙ g, snoc-IsUnique rows row u gone)

looked-IsUnique :
    (ttl_sec : ℕ) (clock : Clock) (input : ClaimInput) (o : Option Row) (live : List Row)
    → find input.key live ≡ o
    → IsUnique live
    → IsUnique (insert_or_look o ttl_sec clock input live).0
looked-IsUnique ttl_sec clock input none live e u =
    snoc-IsUnique live (new_row input ttl_sec clock.creating) u e
looked-IsUnique ttl_sec clock input (some row) live e u = u

on_rows-IsUnique : (s : Statement) (rows : List Row) → IsUnique rows → IsUnique (on_rows s rows)
unfolding on_rows try_claim_idempotency
on_rows-IsUnique (purge now) rows u = purge-IsUnique now rows u
on_rows-IsUnique (complete key response) rows u = complete-IsUnique key response rows u
on_rows-IsUnique (release key) rows u = release-IsUnique key rows u
on_rows-IsUnique (claim ttl_sec clock input) rows u =
    looked-IsUnique ttl_sec clock input _ (purge_expired_idempotency clock.purging rows) refl
      (purge-IsUnique clock.purging rows u)

-- The statements one after another, on the rows and on the map.
unfoldable pub run_rows : List Statement → List Row → List Row
run_rows [] rows = rows
run_rows (s ∷ ss) rows = run_rows ss (on_rows s rows)

unfoldable pub run_table : List Statement → Table → Table
run_table [] table = table
run_table (s ∷ ss) table = run_table ss (on_table s table)

-- Whatever statements run, from a table in which no key stands twice, no key stands twice
-- afterwards, and under every key stands what the map, run by the same statements, has there: a
-- purge takes what has expired, a claim fills a key that is free, a completion and a release touch
-- the row of their key alone, and only while it is in progress.
pub run_rows-Refines :
    (ss : List Statement) (rows : List Row) (k : Key)
    → IsUnique rows
    → IsUnique (run_rows ss rows) × (find k (run_rows ss rows) ≡ run_table ss (λ x. find x rows) k)
unfolding run_rows run_table
run_rows-Refines [] rows k u = (u, refl)
run_rows-Refines (s ∷ ss) rows k u =
    let (v, e) = run_rows-Refines ss (on_rows s rows) k (on_rows-IsUnique s rows u) in
    (v, e ∙ ap (λ (t : Table). run_table ss t k) (λ i x. on_rows-on_table s rows x u i))
