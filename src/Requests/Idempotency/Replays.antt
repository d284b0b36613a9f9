-- ===== src/Requests/Idempotency/Replays.antt =====
-- A request with an idempotency key, handled once or again.
use open_cawt.Base.{
  ℕ, ◌+◌, ◌*◌, ◌<◌, none, some, List, [], ◌∷◌, ◌++◌, ◌≡◌, ◌∙◌, refl, ap, arith, eq_iff,
}
use open_cawt.Base.Errors.{ApiError, Result, ok, err}
use open_cawt.Requests.Json.{normalise}
use open_cawt.Requests.Idempotency.{
  Row, Response, Clock, Claim, replay, claim_found, ClaimInput, find, purge_expired_idempotency,
  completed, complete_rows, complete_idempotency, new_row, Route, World, perform, under_claim,
  finish, handle_with_idempotency,
}
use open_cawt.Requests.Idempotency.Rows.{same_key_refl, find-complete_rows, release-fresh}
use open_cawt.Requests.Idempotency.Claims.{granted, new_row-found, claim-met}

-- What the row of a finished request answers.
replayed :
    (row : Row) (response : Response) (clock : Clock)
    → clock.reading < row.expires_at
    → claim_found (some (completed response row)) row.request_hash clock.reading
      ≡ ok (
          replay
            (record { status_code = response.status_code; payload = normalise response.payload }))
replayed row response clock r = ground (arith, eq_iff row.request_hash row.request_hash)

module _ {S : Type 0} (route : Route S) (ttl_sec : ℕ) (clock : Clock) (input : ClaimInput)
    (w : World S) where
  -- The table while the handler runs.
  abbrev held : List Row
  held = purge_expired_idempotency clock.purging w.rows ++ new_row input ttl_sec clock.creating ∷ []

  runs :
      find input.key (purge_expired_idempotency clock.purging w.rows) ≡ none
      → handle_with_idempotency route ttl_sec clock (some input) w
        ≡ finish route input.key held (perform route w.state)
  unfolding handle_with_idempotency
  runs free = ap (under_claim route input.key w.state) (granted ttl_sec clock input w.rows free)

  completes :
      (response : Response)
      → find input.key (purge_expired_idempotency clock.purging w.rows) ≡ none
      → complete_idempotency input.key response held
        ≡ (complete_rows input.key response held, ok tt)
  unfolding complete_idempotency
  completes response free = rw (new_row-found ttl_sec clock input _ free) refl

  succeeds :
      (response : Response) (s : S)
      → find input.key (purge_expired_idempotency clock.purging w.rows) ≡ none
      → perform route w.state ≡ (s, ok response)
      → handle_with_idempotency route ttl_sec clock (some input) w
        ≡ (record { state = s; rows = complete_rows input.key response held }, ok response)
  succeeds response s free h = runs free ∙ rw (h, completes response free) refl

  -- A request under a key that is free, whose handler fails, gives up its claim: the error is
  -- returned, and the table is what it was but for the rows that have expired.
  pub handle-releases :
      (e : ApiError) (s : S)
      → find input.key (purge_expired_idempotency clock.purging w.rows) ≡ none
      → perform route w.state ≡ (s, err e)
      → handle_with_idempotency route ttl_sec clock (some input) w
        ≡ (record { state = s; rows = purge_expired_idempotency clock.purging w.rows }, err e)
  handle-releases e s free h =
      runs free
      ∙ rw
          (
            h,
            release-fresh input.key (purge_expired_idempotency clock.purging w.rows)
                (new_row input ttl_sec clock.creating) free (same_key_refl input.key) refl,
          )
          refl

  -- A request under a key that is free, whose handler succeeds, is handled once: until the row
  -- expires, the same request again gets the same status and the same payload, normalised, and
  -- leaves the rest of the database as the first one left it.
  pub handle-replays :
      (response : Response) (s : S) (later : Clock)
      → find input.key (purge_expired_idempotency clock.purging w.rows) ≡ none
      → perform route w.state ≡ (s, ok response)
      → later.purging < clock.creating + ttl_sec * 1000
      → later.reading < clock.creating + ttl_sec * 1000
      → (first : World S) × ((handle_with_idempotency route ttl_sec clock (some input) w
            ≡ (first, ok response))
          × (handle_with_idempotency route ttl_sec later (some input) first ≡ (
            record {
              state = first.state;
              rows = purge_expired_idempotency later.purging first.rows;
            },
            ok (record {
              status_code = response.status_code;
              payload = normalise response.payload;
            }),
          )))
  unfolding handle_with_idempotency
  handle-replays response s later free h p r =
      let row = new_row input ttl_sec clock.creating in
      let found =
        find-complete_rows input.key response held row (new_row-found ttl_sec clock input _ free)
          refl in
      let met =
        claim-met ttl_sec later input (complete_rows input.key response held)
          (completed response row) found p in
      (
        record { state = s; rows = complete_rows input.key response held },
        (
          succeeds response s free h,
          ap (under_claim route input.key s) met
              ∙ ap
                  (λ (c : Result Claim). under_claim route input.key s (
                    purge_expired_idempotency later.purging (complete_rows input.key response held),
                    c,
                  ))
                  (replayed row response later r),
        ),
      )
