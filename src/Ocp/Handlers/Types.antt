-- ===== src/Ocp/Handlers/Types.antt =====
-- The requests to OCP/server/main.ts on agreements, their replies, and what they wait for.
use open_cawt.Base.{ℕ, String, Bool, Option}
use open_cawt.Base.Errors.{ApiError}
use open_cawt.Ocp.{OcpAgent, Attestation, AgreementReceipt}

-- What is outside: whether a signature of an agent is one of the attestation (WebCrypto's Ed25519
-- on its text), and the settings.
pub record OcpEnv : Type 0 where
  pub verify_sig : String → Attestation → String → Bool
  pub public_base_url : String
  pub is_stub : Bool
  pub proposal_ttl_hours : ℕ

-- The body of a proposal after the types of its fields are checked. The canonical form of the terms
-- is none where it cannot be built; of it the hash and the code are kept. Hours are whole.
pub record ProposeBody : Type 0 where
  pub party_b_agent_id : String
  pub is_public : Bool
  pub canonical : Option (String × String)
  pub expires_in_hours : Option ℕ
  pub sig_a : String

-- The sender is authenticated, and the URL of a registration has passed its checks. A proposal comes
-- with the id that is made for it.
pub data OcpRequest : Type 0 where
  register : String → String → OcpRequest
  propose : String → String → ProposeBody → OcpRequest
  accept : String → String → String → OcpRequest
  suspend : String → OcpRequest
  cancel : String → OcpRequest

-- A request that waits, with what it has read.
pub data Waiting : Type 0 where
  proposing : Attestation → Bool → String → Waiting
  verifying_b : Attestation → String → Waiting
  verifying_both : Attestation → String → String → Waiting
  minting : Attestation → Waiting

pub data OcpReply : Type 0 where
  registered : Option OcpAgent → OcpReply
  proposed : Attestation → OcpReply
  sealed : Attestation → Option AgreementReceipt → OcpReply
  suspended : String → OcpReply
  cancelled : String → OcpReply

pub data OcpOutcome : Type 0 where
  waits : Waiting → OcpOutcome
  replies : OcpReply → OcpOutcome
  fails : ApiError → OcpOutcome
