-- ===== src/Ocp/Handlers.antt =====
-- The handlers of OCP/server/main.ts that change agreements. A handler runs in one piece up to an
-- `await` of something outside the process, and other requests run in between.
mod Types
pub use Types.*
use open_cawt.Base.{
  ℕ, zero, suc, ◌+◌, ◌*◌, String, Bool, true, false, not, ◌&&◌, Option, none, some, ltb, str_eq,
  if◌then◌else◌,
}
use Prim.Native.Nat.{min}
use open_cawt.Base.Errors.{
  ApiError, Result, ok, err, bad_request, unauthorised, forbidden, not_found, conflict, require,
  ◌>>◌, ◌>>=◌,
}
use open_cawt.Ocp.{
  Party, AgreementStatus, AgentStatus, OcpMintStatus, OcpAgent, Attestation, Agreement,
  PartySignature, AgreementReceipt, OcpDb, get_ocp_agent, upsert_ocp_agent, suspend_ocp_agent,
  get_agreement, create_agreement, mark_agreement_accepted, mark_agreement_sealed,
  mark_agreement_expired, is_still_pending, cancel_agreement, is_terms_hash_duplicate,
  get_signature, store_signature, get_receipt, new_receipt, create_receipt, update_receipt_mint,
}
use open_cawt.Ocp.Mints.{MintAnswer, stub_mint, mint_of_answer}

abbrev pub is_agent_active : AgentStatus → Bool
is_agent_active AgentStatus.active = true
is_agent_active AgentStatus.suspended = false

abbrev pub check_agent : String → String → Option OcpAgent → Result (Unit {0})
check_agent missing inactive none = err (not_found missing)
check_agent missing inactive (some a) = require (is_agent_active a.status) (forbidden inactive)

abbrev pub ttl_hours : ℕ → Option ℕ → ℕ
ttl_hours limit none = limit
ttl_hours limit (some zero) = limit
ttl_hours limit (some (suc h)) = min (suc h) limit

abbrev pub canonicalised : Option (String × String) → Result (String × String)
canonicalised none = err (bad_request "CANONICALISE_FAILED")
canonicalised (some c) = ok c

-- A proposal up to the check of its signature.
unfoldable pub begin_propose :
    OcpEnv → String → String → ProposeBody → ℕ → OcpDb → Result Attestation
unfolding is_terms_hash_duplicate
begin_propose env party_a proposal_id body now db =
    require (not (str_eq party_a body.party_b_agent_id)) (bad_request "PARTY_B_SAME_AS_PARTY_A")
    >> (check_agent "PARTY_A_NOT_REGISTERED" "PARTY_A_SUSPENDED" (get_ocp_agent party_a db)
        >> (check_agent "PARTY_B_NOT_REGISTERED" "PARTY_B_SUSPENDED"
              (get_ocp_agent body.party_b_agent_id db)
            >> (canonicalised body.canonical >>= λ c.
                let t : Attestation = record {
                  proposal_id = proposal_id;
                  terms_hash = c.0;
                  agreement_code = c.1;
                  party_a_agent_id = party_a;
                  party_b_agent_id = body.party_b_agent_id;
                  expires_at =
                      now + ttl_hours env.proposal_ttl_hours body.expires_in_hours * 3600000;
                } in
                require (not (is_terms_hash_duplicate t db)) (conflict "DUPLICATE_AGREEMENT")
                >> ok t)))

abbrev pub signed_by : Attestation → Party → String → PartySignature
signed_by t Party.party_a sig = record {
  proposal_id = t.proposal_id;
  party = Party.party_a;
  agent_id = t.party_a_agent_id;
  sig = sig;
}
signed_by t Party.party_b sig = record {
  proposal_id = t.proposal_id;
  party = Party.party_b;
  agent_id = t.party_b_agent_id;
  sig = sig;
}

-- A statement that throws leaves what the ones before it wrote.
abbrev pub or_thrown : OcpDb → Result OcpDb → (OcpDb → OcpDb × OcpOutcome) → OcpDb × OcpOutcome
or_thrown db (err e) next = (db, fails e)
or_thrown db (ok db') next = next db'

unfoldable pub finish_propose : OcpEnv → Attestation → Bool → String → OcpDb → OcpDb × OcpOutcome
unfolding create_agreement store_signature
finish_propose env t is_public sig_a db =
    if env.verify_sig t.party_a_agent_id t sig_a
    then or_thrown db (create_agreement t is_public db) (λ db1.
      or_thrown db1 (store_signature (signed_by t Party.party_a sig_a) db1)
        (λ db2. (db2, replies (proposed t))))
    else (db, fails (unauthorised "SIG_A_INVALID"))

abbrev pub is_accepted_or_sealed : AgreementStatus → Bool
is_accepted_or_sealed AgreementStatus.accepted = true
is_accepted_or_sealed AgreementStatus.sealed = true
is_accepted_or_sealed _ = false

abbrev pub check_acceptable : String → Agreement → Result (Unit {0})
check_acceptable caller a =
    require (str_eq caller a.attested.party_b_agent_id) (forbidden "NOT_PARTY_B")
    >> (require (not (is_accepted_or_sealed a.status)) (conflict "ALREADY_ACCEPTED")
        >> require (is_still_pending a.status) (conflict "PROPOSAL_NOT_PENDING"))

abbrev pub accept_pending :
    Result (Unit {0}) → Attestation → String → ℕ → OcpDb → OcpDb × OcpOutcome
accept_pending (err e) t sig_b now db = (db, fails e)
accept_pending (ok u) t sig_b now db =
    if ltb t.expires_at now
    then (mark_agreement_expired t.proposal_id db, fails (conflict "PROPOSAL_EXPIRED"))
    else (db, waits (verifying_b t sig_b))

abbrev pub accept_found : Option Agreement → String → String → ℕ → OcpDb → OcpDb × OcpOutcome
accept_found none caller sig_b now db = (db, fails (not_found "PROPOSAL_NOT_FOUND"))
accept_found (some a) caller sig_b now db =
    accept_pending (check_acceptable caller a) a.attested sig_b now db

abbrev pub with_sig_a : Option PartySignature → Attestation → String → OcpOutcome
with_sig_a none t sig_b = fails (record { status = 500; code = "MISSING_SIG_A" })
with_sig_a (some s) t sig_b = waits (verifying_both t s.sig sig_b)

unfoldable pub verify_b : OcpEnv → Attestation → String → OcpDb → OcpDb × OcpOutcome
verify_b env t sig_b db =
    if env.verify_sig t.party_b_agent_id t sig_b
    then (db, with_sig_a (get_signature t.proposal_id Party.party_a db) t sig_b)
    else (db, fails (unauthorised "SIG_B_INVALID"))

-- Its reason goes to the message of the error alone.
abbrev pub verify_both_attestations : OcpEnv → Attestation → String → String → Bool
verify_both_attestations env t sig_a sig_b =
    env.verify_sig t.party_a_agent_id t sig_a && env.verify_sig t.party_b_agent_id t sig_b

-- The stub writes at once; the worker answers later.
unfoldable pub mint_agreement_receipt : OcpEnv → Attestation → OcpDb → OcpDb × OcpOutcome
unfolding stub_mint
mint_agreement_receipt env t db =
    if env.is_stub
    then (let db' = update_receipt_mint t.proposal_id (stub_mint env.public_base_url t) db in
        (db', replies (sealed t (get_receipt t.proposal_id db'))))
    else (db, waits (minting t))

abbrev pub initial_mint : OcpEnv → OcpMintStatus
initial_mint env = if env.is_stub then OcpMintStatus.stub else OcpMintStatus.minting

unfoldable pub seal_agreement : OcpEnv → Attestation → ℕ → OcpDb → OcpDb × OcpOutcome
unfolding create_receipt mint_agreement_receipt
seal_agreement env t now db =
    let db1 = mark_agreement_sealed t.proposal_id now db in
    or_thrown db1 (create_receipt (new_receipt t now (initial_mint env)) db1)
      (mint_agreement_receipt env t)

abbrev pub with_agents :
    OcpEnv → Attestation → ℕ → Option OcpAgent → Option OcpAgent → OcpDb → OcpDb × OcpOutcome
unfolding seal_agreement
with_agents env t now (some a) (some b) db = seal_agreement env t now db
with_agents env t now _ _ db = (db, fails (record { status = 500; code = "AGENT_LOOKUP_FAILED" }))

unfoldable pub accept_signed : OcpEnv → Attestation → ℕ → OcpDb → OcpDb × OcpOutcome
unfolding seal_agreement
accept_signed env t now db =
    let db1 = mark_agreement_accepted t.proposal_id now db in
    with_agents env t now (get_ocp_agent t.party_a_agent_id db1)
      (get_ocp_agent t.party_b_agent_id db1) db1

unfoldable pub finish_accept :
    OcpEnv → Attestation → String → String → ℕ → OcpDb → OcpDb × OcpOutcome
unfolding store_signature accept_signed
finish_accept env t sig_a sig_b now db =
    if verify_both_attestations env t sig_a sig_b
    then or_thrown db (store_signature (signed_by t Party.party_b sig_b) db)
        (accept_signed env t now)
    else (db, fails (unauthorised "ATTESTATION_INVALID"))

abbrev pub cancel_found : String → Option Agreement → OcpDb → OcpDb × OcpOutcome
cancel_found id none db = (db, fails (not_found "NOT_FOUND"))
cancel_found id (some a) db =
    if is_still_pending a.status
    then (cancel_agreement id db, replies (cancelled id))
    else (db, fails (conflict "NOT_CANCELLABLE"))

abbrev pub suspend_found : String → Option OcpAgent → OcpDb → OcpDb × OcpOutcome
unfolding suspend_ocp_agent
suspend_found id none db = (db, fails (not_found "NOT_FOUND"))
suspend_found id (some a) db = (suspend_ocp_agent id db, replies (suspended id))

abbrev pub propose_checked : Bool → String → Result Attestation → OcpOutcome
propose_checked is_public sig_a (err e) = fails e
propose_checked is_public sig_a (ok t) = waits (proposing t is_public sig_a)

-- A request from its arrival to its first wait.
unfoldable pub begin_request : OcpEnv → ℕ → OcpRequest → OcpDb → OcpDb × OcpOutcome
unfolding upsert_ocp_agent begin_propose suspend_ocp_agent
begin_request env now (register id url) db =
    let db' = upsert_ocp_agent id url db in (db', replies (registered (get_ocp_agent id db')))
begin_request env now (propose caller id body) db =
    (db, propose_checked body.is_public body.sig_a (begin_propose env caller id body now db))
begin_request env now (accept id caller sig_b) db =
    accept_found (get_agreement id db) caller sig_b now db
begin_request env now (suspend id) db = suspend_found id (get_ocp_agent id db) db
begin_request env now (cancel id) db = cancel_found id (get_agreement id db) db

-- A request that goes on, to its next wait. `answer` is the worker's.
unfoldable pub resume_request : OcpEnv → ℕ → MintAnswer → Waiting → OcpDb → OcpDb × OcpOutcome
unfolding finish_propose verify_b finish_accept mint_of_answer
resume_request env now answer (proposing t is_public sig_a) db =
    finish_propose env t is_public sig_a db
resume_request env now answer (verifying_b t sig_b) db = verify_b env t sig_b db
resume_request env now answer (verifying_both t sig_a sig_b) db =
    finish_accept env t sig_a sig_b now db
resume_request env now answer (minting t) db =
    let db' = update_receipt_mint t.proposal_id (mint_of_answer answer) db in
    (db', replies (sealed t (get_receipt t.proposal_id db')))
