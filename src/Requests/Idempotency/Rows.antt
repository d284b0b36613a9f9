-- ===== src/Requests/Idempotency/Rows.antt =====
-- The statements on the table, by the row that a key finds.
use open_cawt.Base.{ℕ, true, false, none, some, List, [], ◌∷◌, ◌++◌, ◌≡◌, refl, arith, eq_iff}
use open_cawt.Requests.Idempotency.{
  Key, Row, Response, same_key, is_open, find, is_live, purge_expired_idempotency, completed,
  complete_rows, release_idempotency_claim,
}

pub same_key_refl : (k : Key) → same_key k k ≡ true
same_key_refl k = ground (
  arith,
  eq_iff k.agent_id k.agent_id,
  eq_iff k.method k.method,
  eq_iff k.path k.path,
  eq_iff k.idempotency_key k.idempotency_key,
)

pub same_key_trans : (a b c : Key) → same_key a b ≡ true → same_key a c ≡ same_key b c
same_key_trans a b c h = ground (
  arith,
  eq_iff a.agent_id b.agent_id,
  eq_iff a.method b.method,
  eq_iff a.path b.path,
  eq_iff a.idempotency_key b.idempotency_key,
)

pub find-snoc :
    (k : Key) (rows : List Row) (row : Row)
    → find k rows ≡ none
    → same_key row.key k ≡ true
    → find k (rows ++ row ∷ []) ≡ some row
unfolding find
find-snoc k [] row h e = rw e refl
find-snoc k (r ∷ rows) row h e = ground (arith, find-snoc k rows row)

pub find-snoc_other :
    (k : Key) (rows : List Row) (row : Row)
    → same_key row.key k ≡ false
    → find k (rows ++ row ∷ []) ≡ find k rows
unfolding find
find-snoc_other k [] row e = rw e refl
find-snoc_other k (r ∷ rows) row e = ground (arith, find-snoc_other k rows row)

pub find-purge :
    (k : Key) (now : ℕ) (rows : List Row) (row : Row)
    → find k rows ≡ some row
    → is_live now row ≡ true
    → find k (purge_expired_idempotency now rows) ≡ some row
unfolding find purge_expired_idempotency
find-purge k now [] row h l = cc
find-purge k now (r ∷ rows) row h l = ground (arith, find-purge k now rows row)

pub find-complete_rows :
    (k : Key) (response : Response) (rows : List Row) (row : Row)
    → find k rows ≡ some row
    → is_open row.status ≡ true
    → find k (complete_rows k response rows) ≡ some (completed response row)
unfolding find complete_rows
find-complete_rows k response [] row h o = cc
find-complete_rows k response (r ∷ rows) row h o =
    ground (arith, find-complete_rows k response rows row)

pub release-fresh :
    (k : Key) (rows : List Row) (row : Row)
    → find k rows ≡ none
    → same_key row.key k ≡ true
    → is_open row.status ≡ true
    → release_idempotency_claim k (rows ++ row ∷ []) ≡ rows
unfolding find release_idempotency_claim
release-fresh k [] row h e o = ground arith
release-fresh k (r ∷ rows) row h e o = ground (arith, release-fresh k rows row)
