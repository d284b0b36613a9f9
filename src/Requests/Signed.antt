-- ===== src/Requests/Signed.antt =====
-- services/auth.ts: `verifySignedMutation` and `recordSignedMutation`, with the rows of repository.ts
-- that they read and write.
pub mod Checks
use Prim.Native.Nat.{◌/◌}
use open_cawt.Base.{
  ℕ, ◌+◌, ◌-◌, String, Bool, false, Option, none, some, List, [], ◌∷◌, ◌++◌, leb, ◌==◌, str_eq,
  ◌&&◌, ◌||◌, not, if◌then◌else◌,
}
use open_cawt.Base.Errors.{
  Result, ok, err, bad_request, unauthorised, forbidden, ◌>>=◌, ◌>>◌, require,
}

-- An integer, as `Number.parseInt` returns one.
pub data Seconds : Type 0 where
  pos negsuc : ℕ → Seconds

-- `Math.abs(nowSec - timestampSec)`
abbrev pub distance : ℕ → Seconds → ℕ
distance now (pos n) = (now - n) + (n - now)
distance now (negsuc n) = now + n + 1

abbrev pub same_seconds : Seconds → Seconds → Bool
same_seconds (pos a) (pos b) = a == b
same_seconds (negsuc a) (negsuc b) = a == b
same_seconds _ _ = false

-- The headers, absent or with their text.
pub record Headers : Type 0 where
  pub x_agent_id : Option String
  pub x_timestamp : Option String
  pub x_payload_hash : Option String
  pub x_signature : Option String
  pub x_agent_capability : Option String

pub record Signed : Type 0 where
  pub method : String
  pub path : String
  pub case_id : Option String
  pub agent_id : String
  pub timestamp : Seconds
  pub payload_hash : String
  pub signature : String

-- What the platform and the libraries provide: `parseInt`, `trim`, SHA-256 of a token in
-- hexadecimal, the hash of the body in canonical form, and the check of an Ed25519 signature.
pub record Crypto (Body : Type 0) : Type 0 where
  pub parse_int : String → Option Seconds
  pub trim : String → String
  pub sha256_hex : String → String
  pub canonical_hash_hex : Body → String
  pub verify_signed_payload : Signed → Bool

-- A row of `agent_action_log`, as `hasSignedAction` reads it.
pub record Action : Type 0 where
  pub agent_id : String
  pub signature : String
  pub timestamp_sec : Seconds

-- A row of `agent_capabilities`; an expiry that is no date is none.
pub record Capability : Type 0 where
  pub token_hash : String
  pub agent_id : String
  pub is_revoked : Bool
  pub expires_at : Option ℕ

pub record AuthDb : Type 0 where
  pub actions : List Action
  pub banned : String → Bool
  pub capabilities : List Capability

pub record AuthConfig : Type 0 where
  pub signature_skew_sec : ℕ
  pub capability_keys_enabled : Bool

pub record VerifiedSignature : Type 0 where
  pub agent_id : String
  pub timestamp_sec : Seconds
  pub signature : String
  pub payload_hash : String

abbrev read_header : Option String → Result String
read_header none = err (bad_request "MISSING_HEADER")
read_header (some value) = if str_eq value "" then err (bad_request "MISSING_HEADER") else ok value

abbrev read_optional_header : (String → String) → Option String → Option String
read_optional_header trim none = none
read_optional_header trim (some value) =
    let text = trim value in if str_eq text "" then none else some text

abbrev pub is_action : String → String → Seconds → Action → Bool
is_action agent_id signature at action =
    str_eq action.agent_id agent_id
    && str_eq action.signature signature
    && same_seconds action.timestamp_sec at

unfoldable pub has_signed_action : List Action → String → String → Seconds → Bool
has_signed_action [] agent_id signature at = false
has_signed_action (action ∷ actions) agent_id signature at =
    is_action agent_id signature at action || has_signed_action actions agent_id signature at

unfoldable pub get_agent_capability_by_hash : List Capability → String → Option Capability
get_agent_capability_by_hash [] token_hash = none
get_agent_capability_by_hash (c ∷ cs) token_hash =
    if str_eq c.token_hash token_hash then some c else get_agent_capability_by_hash cs token_hash

abbrev is_past : Option ℕ → ℕ → Bool
is_past none now_ms = false
is_past (some at) now_ms = leb at now_ms

abbrev check_capability : Option Capability → String → ℕ → Result (Unit {0})
check_capability none agent_id now_ms = err (unauthorised "CAPABILITY_INVALID")
check_capability (some c) agent_id now_ms =
    require (str_eq c.agent_id agent_id) (forbidden "CAPABILITY_AGENT_MISMATCH")
    >> require (not c.is_revoked) (unauthorised "CAPABILITY_REVOKED")
    >> require (not (is_past c.expires_at now_ms)) (unauthorised "CAPABILITY_EXPIRED")

abbrev parsed : Option Seconds → Result Seconds
parsed none = err (bad_request "INVALID_TIMESTAMP")
parsed (some n) = ok n

module _ {Body : Type 0} (crypto : Crypto Body) (config : AuthConfig) where
  abbrev check_token : AuthDb → Option String → String → ℕ → Result (Unit {0})
  check_token db none agent_id now_ms = err (unauthorised "CAPABILITY_REQUIRED")
  check_token db (some token) agent_id now_ms =
      check_capability (get_agent_capability_by_hash db.capabilities (crypto.sha256_hex token))
        agent_id now_ms

  abbrev check_enabled : AuthDb → Headers → String → ℕ → Result (Unit {0})
  check_enabled db headers agent_id now_ms =
      if config.capability_keys_enabled
      then check_token db (read_optional_header crypto.trim headers.x_agent_capability) agent_id
          now_ms
      else ok tt

  -- The clock is read for the timestamp, and again for the expiry of the capability.
  -- The checks once the headers have been read.
  unfoldable pub check_signed : AuthDb → Headers → Body → ℕ → ℕ → Signed → Result VerifiedSignature
  unfolding has_signed_action get_agent_capability_by_hash
  check_signed db headers body now_ms later_ms s =
      require (leb (distance (now_ms / 1000) s.timestamp) config.signature_skew_sec)
        (unauthorised "STALE_SIGNATURE")
      >> require (str_eq (crypto.canonical_hash_hex body) s.payload_hash)
          (unauthorised "PAYLOAD_HASH_MISMATCH")
      >> require (crypto.verify_signed_payload s) (unauthorised "SIGNATURE_INVALID")
      >> require (not (has_signed_action db.actions s.agent_id s.signature s.timestamp))
          (unauthorised "SIGNATURE_REPLAYED")
      >> require (not (db.banned s.agent_id)) (forbidden "AGENT_BANNED")
      >> check_enabled db headers s.agent_id later_ms
      >> ok (record {
        agent_id = s.agent_id;
        timestamp_sec = s.timestamp;
        signature = s.signature;
        payload_hash = s.payload_hash;
      })

  unfoldable pub verify_signed_mutation :
      AuthDb → Headers → Body → String → String → Option String → ℕ → ℕ → Result VerifiedSignature
  unfolding check_signed
  verify_signed_mutation db headers body method path case_id now_ms later_ms =
      read_header headers.x_agent_id >>= λ agent_id.
      read_header headers.x_timestamp >>= λ timestamp_raw.
      read_header headers.x_payload_hash >>= λ payload_hash.
      read_header headers.x_signature >>= λ signature.
      parsed (crypto.parse_int timestamp_raw) >>= λ timestamp.
      check_signed db headers body now_ms later_ms (record {
        method = method;
        path = path;
        case_id = case_id;
        agent_id = agent_id;
        timestamp = timestamp;
        payload_hash = payload_hash;
        signature = signature;
      })

unfoldable pub record_signed_mutation : VerifiedSignature → AuthDb → AuthDb
record_signed_mutation v db = record db {
  actions =
      db.actions
      ++ record { agent_id = v.agent_id; signature = v.signature; timestamp_sec = v.timestamp_sec }
        ∷ [];
}
