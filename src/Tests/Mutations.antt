-- ===== src/Tests/Mutations.antt =====
-- Signed requests, with an idempotency key.
use open_cawt.Base.{
  ℕ, ◌+◌, String, true, false, none, some, List, [], ◌∷◌, ◌≡◌, ◌≢◌, refl, arith, if◌then◌else◌,
  str_eq,
}
use open_cawt.Base.Errors.{ok, err, bad_request, conflict}
use open_cawt.Requests.Json.{Js, undefined, text, object, field, no_fields, normalise}
use open_cawt.Requests.Idempotency.{
  Key, Clock, ClaimInput, Route, World, find, purge_expired_idempotency, try_claim_idempotency,
  handle_with_idempotency, perform,
}
use open_cawt.Requests.Idempotency.Claims.{claims, claim-excludes}
use open_cawt.Requests.Idempotency.Replays.{handle-replays, handle-releases}
use open_cawt.Requests.Idempotency.Table.{Statement, IsUnique}
use open_cawt.Requests.Idempotency.Refines.{run_rows, run_table, run_rows-Refines}
use open_cawt.Requests.Signed.{
  pos, Headers, Crypto, AuthDb, AuthConfig, VerifiedSignature, check_signed, verify_signed_mutation,
  has_signed_action,
}
use open_cawt.Requests.Signed.Checks.{IsAccepted, verify-IsAccepted, recorded_then, replay-refused}

abbrev payload : Js
payload = object (field "a" undefined (field "b" (text "x") no_fields))

abbrev key : Key
key = record { agent_id = "ag"; method = "POST"; path = "/api/cases"; idempotency_key = "k1" }

abbrev input : ClaimInput
input = record { key = key; request_hash = "h1" }

abbrev other : ClaimInput
other = record { key = key; request_hash = "h2" }

abbrev at : ℕ → Clock
at now = record { purging = now; creating = now; reading = now }

claim_example :
    (try_claim_idempotency 60
      (at 9)
      other
      (claims 60 ((at 7, other) ∷ []) (try_claim_idempotency 60 (at 5) input []).0)).1
    ≡ err (
        conflict (
          if str_eq "h1" "h2"
          then "IDEMPOTENCY_IN_PROGRESS"
          else "IDEMPOTENCY_KEY_REUSED_WITH_DIFFERENT_PAYLOAD"))
unfolding try_claim_idempotency purge_expired_idempotency find claims
claim_example =
    claim-excludes 60 (at 5) (at 9) input other [] ((at 7, other) ∷ []) refl (omega arith, tt) refl
      (omega arith) (omega arith)

-- The state counts the handler's runs.
abbrev counting : Route ℕ
counting = record {
  handler = λ n. (n + 1, ok (record { status_code = 201; payload = payload }));
  record_mutation = λ n. (n, ok tt);
}

abbrev failing : Route ℕ
failing = record {
  handler = λ n. (n + 1, err (bad_request "NO"));
  record_mutation = λ n. (n, ok tt);
}

abbrev fresh : World ℕ
fresh = record { state = 0; rows = [] }

replays_example :
    (first : World ℕ) × ((handle_with_idempotency counting 60 (at 5) (some input) fresh
        ≡ (first, ok (record { status_code = 201; payload = payload })))
      × (handle_with_idempotency counting 60 (at 9) (some input) first ≡ (
        record { state = first.state; rows = purge_expired_idempotency 9 first.rows },
        ok (record { status_code = 201; payload = normalise payload }),
      )))
unfolding purge_expired_idempotency find perform
replays_example =
    handle-replays counting 60 (at 5) input fresh (record { status_code = 201; payload = payload })
      1 (at 9) refl refl (omega arith) (omega arith)

releases_example :
    handle_with_idempotency failing 60 (at 5) (some input) fresh
    ≡ (record { state = 1; rows = purge_expired_idempotency 5 [] }, err (bad_request "NO"))
unfolding purge_expired_idempotency find perform
releases_example = handle-releases failing 60 (at 5) input fresh (bad_request "NO") 1 refl refl

abbrev crypto : Crypto String
crypto = record {
  parse_int = λ s. some (pos 100);
  trim = λ s. s;
  sha256_hex = λ s. s;
  canonical_hash_hex = λ body. body;
  verify_signed_payload = λ s. true;
}

abbrev config : AuthConfig
config = record { signature_skew_sec = 300; capability_keys_enabled = false }

abbrev headers : Headers
headers = record {
  x_agent_id = some "ag";
  x_timestamp = some "100";
  x_payload_hash = some "body";
  x_signature = some "sig";
  x_agent_capability = none;
}

abbrev auth_db : AuthDb
auth_db = record { actions = []; banned = λ id. false; capabilities = [] }

abbrev verified : VerifiedSignature
verified = record {
  agent_id = "ag";
  timestamp_sec = pos 100;
  signature = "sig";
  payload_hash = "body";
}

verify_example : IsAccepted crypto config auth_db "body" "POST" "/api/cases" none 100500 verified
unfolding verify_signed_mutation check_signed has_signed_action
verify_example =
    verify-IsAccepted crypto config auth_db headers "body" "POST" "/api/cases" none 100500 100500
      verified refl

replay_example :
    verify_signed_mutation crypto config
      (recorded_then verified [] auth_db)
      headers
      "body"
      "POST"
      "/api/cases"
      none
      100500
      100500
    ≢ ok verified
replay_example =
    replay-refused crypto config verified verified [] auth_db headers "body" "POST" "/api/cases"
      none 100500 100500 refl refl refl

-- A key that is claimed and given up.
abbrev claimed_and_released : List Statement
claimed_and_released = Statement.claim 60 (at 5) input ∷ Statement.release key ∷ []

run_rows_example :
    IsUnique (run_rows claimed_and_released [])
    × (find key (run_rows claimed_and_released [])
        ≡ run_table claimed_and_released (λ x. find x []) key)
unfolding find
run_rows_example = run_rows-Refines claimed_and_released [] key tt
