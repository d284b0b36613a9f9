-- ===== src/Requests/Idempotency.antt =====
-- services/idempotency.ts, with the statements of repository.ts on the table `idempotency_records`,
-- and `handleSignedMutationWithIdempotency` of main.ts. The primary key of the table is (agent,
-- method, path, idempotency key). A request reads the clock three times, and holds what it awaits
-- as one step.
pub mod Rows
pub mod Claims
pub mod Replays
pub mod Table
pub mod Refines
use open_cawt.Base.{
  ℕ, ◌+◌, ◌*◌, String, Bool, true, false, Option, none, some, List, [], ◌∷◌, ◌++◌, leb, str_eq,
  ◌&&◌, not, if◌then◌else◌,
}
use open_cawt.Base.Errors.{ApiError, Result, ok, err, conflict}
use open_cawt.Requests.Json.{Js, Fields, normalise}

pub record Key : Type 0 where
  pub agent_id : String
  pub method : String
  pub path : String
  pub idempotency_key : String

pub data RowStatus : Type 0 where
  in_progress complete : RowStatus

-- A row of `idempotency_records`; `response_json` stands for the value that its text parses to.
pub record Row : Type 0 where
  pub key : Key
  pub request_hash : String
  pub response_status : ℕ
  pub response_json : Js
  pub status : RowStatus
  pub created_at : ℕ
  pub expires_at : ℕ

pub record Response : Type 0 where
  pub status_code : ℕ
  pub payload : Js

abbrev pub same_key : Key → Key → Bool
same_key a b =
    str_eq a.agent_id b.agent_id
    && str_eq a.method b.method
    && str_eq a.path b.path
    && str_eq a.idempotency_key b.idempotency_key

abbrev pub is_open : RowStatus → Bool
is_open RowStatus.in_progress = true
is_open RowStatus.complete = false

-- The row with a key: the key is unique.
unfoldable pub find : Key → List Row → Option Row
find key [] = none
find key (row ∷ rows) = if same_key row.key key then some row else find key rows

abbrev pub is_live : ℕ → Row → Bool
is_live now row = not (leb row.expires_at now)

unfoldable pub purge_expired_idempotency : ℕ → List Row → List Row
purge_expired_idempotency now [] = []
purge_expired_idempotency now (row ∷ rows) =
    let rest = purge_expired_idempotency now rows in if is_live now row then row ∷ rest else rest

-- What a claim returns: `{ claimed: true }`, or the response to replay.
pub data Claim : Type 0 where
  claimed : Claim
  replay : Response → Claim

pub record ClaimInput : Type 0 where
  pub key : Key
  pub request_hash : String

-- The three readings of the clock: for the purge, for the new row, and for the row that is in the way.
pub record Clock : Type 0 where
  pub purging : ℕ
  pub creating : ℕ
  pub reading : ℕ

abbrev pub not_found_after_conflict : ApiError
not_found_after_conflict = record { status = 500; code = "INTERNAL_ERROR" }

abbrev pub claim_found : Option Row → String → ℕ → Result Claim
claim_found none request_hash now = err not_found_after_conflict
claim_found (some row) request_hash now =
    if not (is_live now row)
    then err not_found_after_conflict
    else if not (str_eq row.request_hash request_hash)
    then err (conflict "IDEMPOTENCY_KEY_REUSED_WITH_DIFFERENT_PAYLOAD")
    else if is_open row.status
    then err (conflict "IDEMPOTENCY_IN_PROGRESS")
    else ok (replay (record { status_code = row.response_status; payload = row.response_json }))

abbrev pub new_row : ClaimInput → ℕ → ℕ → Row
new_row input ttl_sec now = record {
  key = input.key;
  request_hash = input.request_hash;
  response_status = 0;
  response_json = Js.object Fields.no_fields;
  status = RowStatus.in_progress;
  created_at = now;
  expires_at = now + ttl_sec * 1000;
}

-- The INSERT, which fails on a key that is there, and the look at the row with that key.
abbrev pub insert_or_look : Option Row → ℕ → Clock → ClaimInput → List Row → List Row × Result Claim
insert_or_look none ttl_sec clock input rows =
    (rows ++ new_row input ttl_sec clock.creating ∷ [], ok claimed)
insert_or_look (some row) ttl_sec clock input rows =
    (rows, claim_found (some row) input.request_hash clock.reading)

unfoldable pub try_claim_idempotency : ℕ → Clock → ClaimInput → List Row → List Row × Result Claim
unfolding purge_expired_idempotency find
try_claim_idempotency ttl_sec clock input rows =
    let live = purge_expired_idempotency clock.purging rows in
    insert_or_look (find input.key live) ttl_sec clock input live

abbrev pub completed : Response → Row → Row
completed response row = record row {
  status = RowStatus.complete;
  response_status = response.status_code;
  response_json = normalise response.payload;
}

-- `UPDATE … WHERE … AND status = 'in_progress'`
unfoldable pub complete_rows : Key → Response → List Row → List Row
complete_rows key response [] = []
complete_rows key response (row ∷ rows) =
    let rest = complete_rows key response rows in
    if same_key row.key key && is_open row.status then completed response row ∷ rest else row ∷ rest

-- No row is updated.
abbrev pub lacks_open : Option Row → Bool
lacks_open none = true
lacks_open (some row) = not (is_open row.status)

unfoldable pub complete_idempotency : Key → Response → List Row → List Row × Result (Unit {0})
unfolding complete_rows find
complete_idempotency key response rows =
    if lacks_open (find key rows)
    then (rows, err not_found_after_conflict)
    else (complete_rows key response rows, ok tt)

-- `DELETE … AND status = 'in_progress'`
unfoldable pub release_idempotency_claim : Key → List Row → List Row
release_idempotency_claim key [] = []
release_idempotency_claim key (row ∷ rows) =
    let rest = release_idempotency_claim key rows in
    if same_key row.key key && is_open row.status then rest else row ∷ rest

-- The handler of a route and the log of signed actions, each on the rest of the database `S`.
pub record Route (S : Type 0) : Type 0 where
  pub handler : S → S × Result Response
  pub record_mutation : S → S × Result (Unit {0})

pub record World (S : Type 0) : Type 0 where
  pub state : S
  pub rows : List Row

module _ {S : Type 0} (route : Route S) where
  -- The handler, then the log.
  abbrev pub logged : Response → S × Result (Unit {0}) → S × Result Response
  logged response (s, ok _) = (s, ok response)
  logged response (s, err e) = (s, err e)

  abbrev pub then_log : S × Result Response → S × Result Response
  then_log (s, ok response) = logged response (route.record_mutation s)
  then_log (s, err e) = (s, err e)

  unfoldable pub perform : S → S × Result Response
  perform s = then_log (route.handler s)

  abbrev pub released : Key → S → List Row → ApiError → World S × Result Response
  released key s rows e = (record { state = s; rows = release_idempotency_claim key rows }, err e)

  abbrev pub closed : Key → S → Response → List Row × Result (Unit {0}) → World S × Result Response
  closed key s response (rows, ok _) = (record { state = s; rows = rows }, ok response)
  closed key s response (rows, err e) = released key s rows e

  abbrev pub finish : Key → List Row → S × Result Response → World S × Result Response
  finish key rows (s, ok response) = closed key s response (complete_idempotency key response rows)
  finish key rows (s, err e) = released key s rows e

  abbrev pub under_claim : Key → S → List Row × Result Claim → World S × Result Response
  under_claim key s (rows, err e) = (record { state = s; rows = rows }, err e)
  under_claim key s (rows, ok (replay response)) = (record { state = s; rows = rows }, ok response)
  under_claim key s (rows, ok claimed) = finish key rows (perform s)

  abbrev pub without_key : List Row → S × Result Response → World S × Result Response
  without_key rows (s, r) = (record { state = s; rows = rows }, r)

  -- After the signature has been verified.
  unfoldable pub handle_with_idempotency :
      ℕ → Clock → Option ClaimInput → World S → World S × Result Response
  unfolding perform try_claim_idempotency complete_idempotency release_idempotency_claim
  handle_with_idempotency ttl_sec clock none w = without_key w.rows (perform w.state)
  handle_with_idempotency ttl_sec clock (some input) w =
      under_claim input.key w.state (try_claim_idempotency ttl_sec clock input w.rows)
