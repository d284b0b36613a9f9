-- ===== src/Requests/Signed/Checks.antt =====
-- What an accepted request has shown, and that it is not accepted twice.
use Prim.Native.Nat.{◌/◌}
use open_cawt.Base.{
  ℕ, ◌≤◌, String, Bool, true, false, Option, List, [], ◌∷◌, ◌++◌, ◌≡◌, ◌≢◌, ◌∙◌, refl, sym, subst,
  arith, not, leb, eq_iff, ◌||◌,
}
use open_cawt.Base.Errors.{ApiError, Result, ok, err, ◌>>=◌, ◌>>◌, require}
use open_cawt.Requests.Signed.{
  Seconds, pos, negsuc, distance, same_seconds, Headers, Signed, Crypto, Action, AuthDb, AuthConfig,
  VerifiedSignature, is_action, has_signed_action, read_header, parsed, check_signed,
  verify_signed_mutation, record_signed_mutation,
}

-- The request `v` has a timestamp in the window, the hash of the body, a valid signature that has not
-- been used, and an agent that is not banned.
pub record IsAccepted {Body : Type 0} (crypto : Crypto Body) (config : AuthConfig) (db : AuthDb)
    (body : Body) (method path : String) (case_id : Option String) (now_ms : ℕ)
    (v : VerifiedSignature) : Type 0 where
  pub in_window : distance (now_ms / 1000) v.timestamp_sec ≤ config.signature_skew_sec
  pub hash_of_body : crypto.canonical_hash_hex body ≡ v.payload_hash
  pub signed :
      crypto.verify_signed_payload (record {
        method = method;
        path = path;
        case_id = case_id;
        agent_id = v.agent_id;
        timestamp = v.timestamp_sec;
        payload_hash = v.payload_hash;
        signature = v.signature;
      })
      ≡ true
  pub unused : has_signed_action db.actions v.agent_id v.signature v.timestamp_sec ≡ false
  pub not_banned : db.banned v.agent_id ≡ false

then-ok {ℓ} :
    {B : Type ℓ} (check : Result (Unit {0})) (next : Result B) {v : B}
    → (check >> next) ≡ ok v
    → (check ≡ ok tt) × (next ≡ ok v)
then-ok (err thrown) next h = cc
then-ok (ok tt) next h = (refl, h)

bind-ok {ℓ κ} :
    {A : Type ℓ} {B : Type κ} (first : Result A) (next : A → Result B) {v : B}
    → (first >>= next) ≡ ok v
    → (x : A) × ((first ≡ ok x) × (next x ≡ ok v))
bind-ok (err thrown) next h = cc
bind-ok (ok x) next h = (x, (refl, h))

require-ok : (b : Bool) (e : ApiError) → require b e ≡ ok tt → b ≡ true
require-ok true e h = refl
require-ok false e h = cc

le_of_leb : (m n : ℕ) → leb m n ≡ true → m ≤ n
le_of_leb m n h = ground arith

of_not : (b : Bool) → not b ≡ true → b ≡ false
of_not b h = ground arith

ok-inj {ℓ} : {A : Type ℓ} {a b : A} → ok a ≡ ok b → a ≡ b
ok-inj h = cc

module _ {Body : Type 0} (crypto : Crypto Body) (config : AuthConfig) where
  check_signed-IsAccepted :
      (db : AuthDb) (headers : Headers) (body : Body) (now_ms later_ms : ℕ) (s : Signed)
      {v : VerifiedSignature}
      → check_signed crypto config db headers body now_ms later_ms s ≡ ok v
      → IsAccepted crypto config db body s.method s.path s.case_id now_ms v
  unfolding check_signed
  check_signed-IsAccepted db headers body now_ms later_ms s h =
      let (h6, e) = then-ok _ _ h in
      let (h5, _) = then-ok _ _ h6 in
      let (h4, b) = then-ok _ _ h5 in
      let (h3, u) = then-ok _ _ h4 in
      let (h2, g) = then-ok _ _ h3 in
      let (t, p) = then-ok _ _ h2 in
      let t' = require-ok _ _ t in
      let p' = require-ok _ _ p in
      let g' = require-ok _ _ g in
      let u' = require-ok _ _ u in
      let b' = require-ok _ _ b in
      subst (IsAccepted crypto config db body s.method s.path s.case_id now_ms) (ok-inj e) (record {
        in_window = le_of_leb _ _ t';
        hash_of_body = (eq_iff _ _).0 p';
        signed = g';
        unused = of_not _ u';
        not_banned = of_not _ b';
      })

  -- A request that is accepted has a timestamp within the window around the clock, the hash of the
  -- body that came with it, a signature over that hash, the route, the agent and the timestamp that
  -- verifies and has not been recorded, and an agent that is not banned.
  pub verify-IsAccepted :
      (db : AuthDb) (headers : Headers) (body : Body) (method path : String)
      (case_id : Option String) (now_ms later_ms : ℕ) (v : VerifiedSignature)
      → verify_signed_mutation crypto config db headers body method path case_id now_ms later_ms
        ≡ ok v
      → IsAccepted crypto config db body method path case_id now_ms v
  unfolding verify_signed_mutation
  verify-IsAccepted db headers body method path case_id now_ms later_ms v h =
      let (agent_id, (_, h1)) = bind-ok (read_header headers.x_agent_id) _ h in
      let (timestamp_raw, (_, h2)) = bind-ok (read_header headers.x_timestamp) _ h1 in
      let (payload_hash, (_, h3)) = bind-ok (read_header headers.x_payload_hash) _ h2 in
      let (signature, (_, h4)) = bind-ok (read_header headers.x_signature) _ h3 in
      let (timestamp, (_, h5)) = bind-ok (parsed (crypto.parse_int timestamp_raw)) _ h4 in
      check_signed-IsAccepted db headers body now_ms later_ms
        (record {
          method = method;
          path = path;
          case_id = case_id;
          agent_id = agent_id;
          timestamp = timestamp;
          payload_hash = payload_hash;
          signature = signature;
        })
        h5

same_seconds_refl : (t : Seconds) → same_seconds t t ≡ true
same_seconds_refl (pos n) = ground arith
same_seconds_refl (negsuc n) = ground arith

is_action_refl : (it : Action) → is_action it.agent_id it.signature it.timestamp_sec it ≡ true
is_action_refl it = ground (
  arith,
  eq_iff it.agent_id it.agent_id,
  eq_iff it.signature it.signature,
  same_seconds_refl it.timestamp_sec,
)

has_signed_action-append :
    (xs ys : List Action) (a s : String) (t : Seconds)
    → has_signed_action (xs ++ ys) a s t
      ≡ (has_signed_action xs a s t || has_signed_action ys a s t)
unfolding has_signed_action
has_signed_action-append [] ys a s t = refl
has_signed_action-append (x ∷ xs) ys a s t = ground (arith, has_signed_action-append xs ys a s t)

-- The log after `v` has been recorded, and whatever after it.
abbrev pub recorded_then : VerifiedSignature → List Action → AuthDb → AuthDb
recorded_then v more db = record (record_signed_mutation v db) {
  actions = (record_signed_mutation v db).actions ++ more;
}

recorded-signed :
    (v : VerifiedSignature) (more : List Action) (db : AuthDb)
    → has_signed_action (recorded_then v more db).actions v.agent_id v.signature v.timestamp_sec
      ≡ true
unfolding record_signed_mutation has_signed_action
recorded-signed v more db =
    let it : Action = record {
      agent_id = v.agent_id;
      signature = v.signature;
      timestamp_sec = v.timestamp_sec;
    } in
    let here = is_action_refl it in
    ground (
      arith,
      here,
      has_signed_action-append (db.actions ++ it ∷ []) more v.agent_id v.signature v.timestamp_sec,
      has_signed_action-append db.actions (it ∷ []) v.agent_id v.signature v.timestamp_sec,
    )

-- Once a signature of an agent with a timestamp has been recorded, no request with the three is
-- accepted, whatever has been recorded since and whatever the clock.
pub replay-refused :
    {Body : Type 0} (crypto : Crypto Body) (config : AuthConfig) (v again : VerifiedSignature)
    (more : List Action) (db : AuthDb) (headers : Headers) (body : Body) (method path : String)
    (case_id : Option String) (now_ms later_ms : ℕ)
    → again.agent_id ≡ v.agent_id
    → again.signature ≡ v.signature
    → again.timestamp_sec ≡ v.timestamp_sec
    → verify_signed_mutation crypto config
        (recorded_then v more db)
        headers
        body
        method
        path
        case_id
        now_ms
        later_ms
      ≢ ok again
replay-refused crypto config v again more db headers body method path case_id now_ms later_ms a s t
      h =
    let unused =
      (verify-IsAccepted crypto config (recorded_then v more db) headers body method path case_id
        now_ms later_ms again h).unused in
    true-ne-false (sym (recorded-signed v more db) ∙ sym (rw (a, s, t) refl) ∙ unused)
  where
    true-ne-false : true ≢ false
    true-ne-false e = cc
