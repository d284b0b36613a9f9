-- ===== src/Ocp.antt =====
-- The agreements of OCP/server: the tables and statements of OCP/server/db/repository.ts, for
-- agents, agreements, signatures and receipts. Times are in milliseconds.
pub mod Mints
pub mod Handlers
pub mod Views
pub mod Sound
pub mod Runs
pub mod Again
use open_cawt.Base.{
  ℕ, String, Bool, true, false, not, ◌&&◌, ◌||◌, Option, none, some, List, [], ◌∷◌, ◌++◌, map, find,
  any, str_eq, if◌then◌else◌,
}
use open_cawt.Base.Errors.{Result, ok, err, internal_error}

pub data Party : Type 0 where
  party_a party_b : Party

pub data AgreementStatus : Type 0 where
  pending accepted sealed expired cancelled : AgreementStatus

pub data AgentStatus : Type 0 where
  active suspended : AgentStatus

pub data OcpMintStatus : Type 0 where
  stub minting minted failed : OcpMintStatus

pub record OcpAgent : Type 0 where
  pub agent_id : String
  pub notify_url : String
  pub status : AgentStatus

-- What both parties sign. They are columns of an agreement that no statement updates.
pub record Attestation : Type 0 where
  pub proposal_id : String
  pub terms_hash : String
  pub agreement_code : String
  pub party_a_agent_id : String
  pub party_b_agent_id : String
  pub expires_at : ℕ

pub record Agreement : Type 0 where
  pub attested : Attestation
  pub is_public : Bool
  pub accepted_at : Option ℕ
  pub sealed_at : Option ℕ
  pub status : AgreementStatus

pub record PartySignature : Type 0 where
  pub proposal_id : String
  pub party : Party
  pub agent_id : String
  pub sig : String

pub record Mint : Type 0 where
  pub mint_address : Option String
  pub tx_sig : Option String
  pub metadata_uri : Option String
  pub mint_status : OcpMintStatus
  pub mint_error : Option String

pub record AgreementReceipt : Type 0 where
  pub proposal_id : String
  pub agreement_code : String
  pub terms_hash : String
  pub sealed_at : ℕ
  pub mint : Mint

pub record OcpDb : Type 0 where
  pub agents : List OcpAgent
  pub agreements : List Agreement
  pub signatures : List PartySignature
  pub receipts : List AgreementReceipt

abbrev pub is_agent : String → OcpAgent → Bool
is_agent id a = str_eq a.agent_id id

abbrev pub is_proposal : String → Agreement → Bool
is_proposal id a = str_eq a.attested.proposal_id id

abbrev pub same_party : Party → Party → Bool
same_party Party.party_a Party.party_a = true
same_party Party.party_b Party.party_b = true
same_party _ _ = false

abbrev pub is_signature : String → Party → PartySignature → Bool
is_signature id party s = str_eq s.proposal_id id && same_party s.party party

abbrev pub is_receipt : String → AgreementReceipt → Bool
is_receipt id r = str_eq r.proposal_id id

abbrev pub get_ocp_agent : String → OcpDb → Option OcpAgent
get_ocp_agent id db = find (is_agent id) db.agents

abbrev pub set_agent : String → (OcpAgent → OcpAgent) → OcpDb → OcpDb
set_agent id f db = record db {
  agents = map (λ (a : OcpAgent). if is_agent id a then f a else a) db.agents;
}

-- A new agent is active; one that is known keeps its status.
unfoldable pub upsert_ocp_agent : String → String → OcpDb → OcpDb
upsert_ocp_agent id notify_url db =
    if any (is_agent id) db.agents
    then set_agent id (λ a. record a { notify_url = notify_url }) db
    else record db {
      agents =
          db.agents
          ++ record { agent_id = id; notify_url = notify_url; status = AgentStatus.active } ∷ [];
    }

unfoldable pub suspend_ocp_agent : String → OcpDb → OcpDb
suspend_ocp_agent id db = set_agent id (λ a. record a { status = AgentStatus.suspended }) db

abbrev pub get_agreement : String → OcpDb → Option Agreement
get_agreement id db = find (is_proposal id) db.agreements

-- The keys of the table: the id, the code, and the parties with the hash of the terms.
abbrev pub takes_key : Attestation → Agreement → Bool
takes_key t a =
    str_eq a.attested.proposal_id t.proposal_id
    || str_eq a.attested.agreement_code t.agreement_code
    || (str_eq a.attested.party_a_agent_id t.party_a_agent_id
        && str_eq a.attested.party_b_agent_id t.party_b_agent_id
        && str_eq a.attested.terms_hash t.terms_hash)

abbrev pub new_agreement : Attestation → Bool → Agreement
new_agreement t is_public = record {
  attested = t;
  is_public = is_public;
  accepted_at = none;
  sealed_at = none;
  status = AgreementStatus.pending;
}

-- The insert throws where a key is taken. The agents that it refers to are in their table, from
-- which nothing is deleted.
unfoldable pub create_agreement : Attestation → Bool → OcpDb → Result OcpDb
create_agreement t is_public db =
    if any (takes_key t) db.agreements
    then err internal_error
    else ok (record db { agreements = db.agreements ++ new_agreement t is_public ∷ [] })

abbrev pub set_agreement : String → (Agreement → Agreement) → OcpDb → OcpDb
set_agreement id f db = record db {
  agreements = map (λ (a : Agreement). if is_proposal id a then f a else a) db.agreements;
}

abbrev pub mark_agreement_accepted : String → ℕ → OcpDb → OcpDb
mark_agreement_accepted id now db =
    set_agreement id (λ a. record a { status = AgreementStatus.accepted; accepted_at = some now })
      db

abbrev pub mark_agreement_sealed : String → ℕ → OcpDb → OcpDb
mark_agreement_sealed id now db =
    set_agreement id (λ a. record a { status = AgreementStatus.sealed; sealed_at = some now }) db

abbrev pub mark_agreement_expired : String → OcpDb → OcpDb
mark_agreement_expired id db =
    set_agreement id (λ a. record a { status = AgreementStatus.expired }) db

abbrev pub is_still_pending : AgreementStatus → Bool
is_still_pending AgreementStatus.pending = true
is_still_pending _ = false

abbrev pub cancelled_if_pending : Agreement → Agreement
cancelled_if_pending a =
    if is_still_pending a.status then record a { status = AgreementStatus.cancelled } else a

abbrev pub cancel_agreement : String → OcpDb → OcpDb
cancel_agreement id db = set_agreement id cancelled_if_pending db

abbrev pub is_ended : AgreementStatus → Bool
is_ended AgreementStatus.expired = true
is_ended AgreementStatus.cancelled = true
is_ended _ = false

abbrev pub is_live_copy : Attestation → Agreement → Bool
is_live_copy t a =
    str_eq a.attested.party_a_agent_id t.party_a_agent_id
    && str_eq a.attested.party_b_agent_id t.party_b_agent_id
    && str_eq a.attested.terms_hash t.terms_hash
    && not (is_ended a.status)

unfoldable pub is_terms_hash_duplicate : Attestation → OcpDb → Bool
is_terms_hash_duplicate t db = any (is_live_copy t) db.agreements

abbrev pub get_signature : String → Party → OcpDb → Option PartySignature
get_signature id party db = find (is_signature id party) db.signatures

-- The insert throws where the party has signed.
unfoldable pub store_signature : PartySignature → OcpDb → Result OcpDb
store_signature s db =
    if any (is_signature s.proposal_id s.party) db.signatures
    then err internal_error
    else ok (record db { signatures = db.signatures ++ s ∷ [] })

abbrev pub get_receipt : String → OcpDb → Option AgreementReceipt
get_receipt id db = find (is_receipt id) db.receipts

abbrev pub no_mint : OcpMintStatus → Mint
no_mint status = record {
  mint_address = none;
  tx_sig = none;
  metadata_uri = none;
  mint_status = status;
  mint_error = none;
}

abbrev pub new_receipt : Attestation → ℕ → OcpMintStatus → AgreementReceipt
new_receipt t now status = record {
  proposal_id = t.proposal_id;
  agreement_code = t.agreement_code;
  terms_hash = t.terms_hash;
  sealed_at = now;
  mint = no_mint status;
}

-- The insert throws where the proposal has a receipt.
unfoldable pub create_receipt : AgreementReceipt → OcpDb → Result OcpDb
create_receipt r db =
    if any (is_receipt r.proposal_id) db.receipts
    then err internal_error
    else ok (record db { receipts = db.receipts ++ r ∷ [] })

abbrev pub update_receipt_mint : String → Mint → OcpDb → OcpDb
update_receipt_mint id m db = record db {
  receipts =
      map (λ (r : AgreementReceipt). if is_receipt id r then record r { mint = m } else r)
        db.receipts;
}
