-- ===== src/Requests/Idempotency/Claims.antt =====
-- What a claim holds against.
use open_cawt.Base.{
  All, ℕ, Option, none, some, List, [], ◌∷◌, ◌++◌, ◌+◌, ◌*◌, ◌<◌, ◌≡◌, ◌∙◌, refl, ap, arith,
  if◌then◌else◌, str_eq,
}
use open_cawt.Base.Errors.{Result, ok, err, conflict}
use open_cawt.Requests.Idempotency.{
  Key, Row, Clock, Claim, claimed, ClaimInput, find, purge_expired_idempotency, claim_found,
  try_claim_idempotency, insert_or_look, new_row,
}
use open_cawt.Requests.Idempotency.Rows.{same_key_refl, find-snoc, find-purge}

module _ (ttl_sec : ℕ) (clock : Clock) (input : ClaimInput) where
  granted-free :
      (o : Option Row) (rows : List Row)
      → (insert_or_look o ttl_sec clock input rows).1 ≡ ok claimed
      → o ≡ none
  granted-free none rows h = refl
  granted-free (some row) rows h = ground arith

  pub granted :
      (rows : List Row)
      → find input.key (purge_expired_idempotency clock.purging rows) ≡ none
      → try_claim_idempotency ttl_sec clock input rows ≡ (
        purge_expired_idempotency clock.purging rows ++ new_row input ttl_sec clock.creating ∷ [],
        ok claimed,
      )
  unfolding try_claim_idempotency
  granted rows free = rw free refl

  pub claim-free :
      (rows : List Row)
      → (try_claim_idempotency ttl_sec clock input rows).1 ≡ ok claimed
      → find input.key (purge_expired_idempotency clock.purging rows) ≡ none
  unfolding try_claim_idempotency
  claim-free rows h = granted-free _ _ h

  pub new_row-found :
      (rows : List Row)
      → find input.key rows ≡ none
      → find input.key (rows ++ new_row input ttl_sec clock.creating ∷ [])
        ≡ some (new_row input ttl_sec clock.creating)
  new_row-found rows free = find-snoc input.key rows _ free (same_key_refl input.key)

  -- What a claim meets where its key finds a row that has not expired.
  pub claim-met :
      (rows : List Row) (row : Row)
      → find input.key rows ≡ some row
      → clock.purging < row.expires_at
      → (try_claim_idempotency ttl_sec clock input rows) ≡ (
        purge_expired_idempotency clock.purging rows,
        claim_found (some row) input.request_hash clock.reading,
      )
  unfolding try_claim_idempotency
  claim-met rows row h p = rw (find-purge input.key clock.purging rows row h (ground arith)) refl

find-append :
    (k : Key) (rows : List Row) (row r : Row)
    → find k rows ≡ some row
    → find k (rows ++ r ∷ []) ≡ some row
unfolding find
find-append k [] row r h = cc
find-append k (x ∷ rows) row r h = ground (arith, find-append k rows row r)

looked-stays :
    (k : Key) (o : Option Row) (ttl_sec : ℕ) (clock : Clock) (other : ClaimInput) (rows : List Row)
    (row : Row)
    → find k rows ≡ some row
    → find k (insert_or_look o ttl_sec clock other rows).0 ≡ some row
looked-stays k none ttl_sec clock other rows row h = find-append k rows row _ h
looked-stays k (some r) ttl_sec clock other rows row h = h

-- The rows after claims of other requests.
unfoldable pub claims : ℕ → List (Clock × ClaimInput) → List Row → List Row
unfolding try_claim_idempotency
claims ttl_sec [] rows = rows
claims ttl_sec ((clock, input) ∷ rest) rows =
    claims ttl_sec rest (try_claim_idempotency ttl_sec clock input rows).0

claims-stay :
    (k : Key) (ttl_sec : ℕ) (l : List (Clock × ClaimInput)) (rows : List Row) (row : Row)
    → find k rows ≡ some row
    → All (λ (c : Clock × ClaimInput). c.0.purging < row.expires_at) l
    → find k (claims ttl_sec l rows) ≡ some row
unfolding claims try_claim_idempotency
claims-stay k ttl_sec [] rows row h a = h
claims-stay k ttl_sec ((clock, input) ∷ l) rows row h (p, a) =
    claims-stay k ttl_sec l _ row
      (looked-stays k _ ttl_sec clock input _ row
        (find-purge k clock.purging rows row h (ground arith)))
      a

-- After a claim was granted, as long as there are only claims of other requests, whatever their keys,
-- and the time to live is not over, a claim with the same key is refused: as in progress where the
-- payload is the same, and as a reuse where it is not.
pub claim-excludes :
    (ttl_sec : ℕ) (clock later : Clock) (input other : ClaimInput) (rows : List Row)
    (between : List (Clock × ClaimInput))
    → (try_claim_idempotency ttl_sec clock input rows).1 ≡ ok claimed
    → All (λ (c : Clock × ClaimInput). c.0.purging < clock.creating + ttl_sec * 1000) between
    → other.key ≡ input.key
    → later.purging < clock.creating + ttl_sec * 1000
    → later.reading < clock.creating + ttl_sec * 1000
    → (try_claim_idempotency ttl_sec later other
        (claims ttl_sec between (try_claim_idempotency ttl_sec clock input rows).0)).1
      ≡ err (
          conflict (
            if str_eq input.request_hash other.request_hash
            then "IDEMPOTENCY_IN_PROGRESS"
            else "IDEMPOTENCY_KEY_REUSED_WITH_DIFFERENT_PAYLOAD"))
claim-excludes ttl_sec clock later input other rows between h a k p r =
    let free = claim-free ttl_sec clock input rows h in
    let row = new_row input ttl_sec clock.creating in
    let rows1 = (try_claim_idempotency ttl_sec clock input rows).0 in
    let found =
      ap (λ (q : List Row × Result Claim). find input.key q.0)
        (granted ttl_sec clock input rows free)
      ∙ new_row-found ttl_sec clock input _ free in
    let met =
      claim-met ttl_sec later other (claims ttl_sec between rows1) row
        (ap (λ key. find key (claims ttl_sec between rows1)) k
          ∙ claims-stay input.key ttl_sec between rows1 row found a)
        p in
    ap (λ (q : List Row × Result Claim). q.1) met ∙ ground arith
