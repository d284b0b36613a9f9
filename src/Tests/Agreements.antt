-- ===== src/Tests/Agreements.antt =====
-- Agreements between two agents.
use open_cawt.Base.{ℕ, String, true, false, none, some, List, [], ◌∷◌, ◌≡◌, refl, str_eq}
use open_cawt.Base.Errors.{internal_error}
use open_cawt.Ocp.{
  AgentStatus, OcpAgent, Attestation, OcpDb, new_agreement, cancel_agreement,
  is_terms_hash_duplicate,
}
use open_cawt.Ocp.Handlers.{OcpEnv, ProposeBody, OcpRequest, finish_propose, finish_accept, fails}
use open_cawt.Ocp.Mints.{MintAnswer}
use open_cawt.Ocp.Sound.{IsSound, sealed_of}
use open_cawt.Ocp.Runs.{ServiceEvent, run, no_agreements, run-IsSound}
use open_cawt.Ocp.Again.{HasSeal, finish_accept-HasSeal, propose_again-fails}

-- An agent signs by its id.
abbrev ocp_env : OcpEnv
ocp_env = record {
  verify_sig = λ agent t sig. str_eq sig agent;
  public_base_url = "https://c";
  is_stub = true;
  proposal_ttl_hours = 72;
}

abbrev offer : ProposeBody
offer = record {
  party_b_agent_id = "bob";
  is_public = true;
  canonical = some ("hash", "code");
  expires_in_hours = none;
  sig_a = "ann";
}

abbrev arrive : ℕ → OcpRequest → ServiceEvent
arrive = ServiceEvent.arrives

abbrev next : ℕ → ServiceEvent
next now = ServiceEvent.goes_on now (MintAnswer.unreachable "down") 0

-- It is cancelled while the signatures of its acceptance are verified.
abbrev cancelled_between : List ServiceEvent
cancelled_between =
    arrive 1 (OcpRequest.register "ann" "https://a")
    ∷ arrive 2 (OcpRequest.register "bob" "https://b")
    ∷ arrive 3 (OcpRequest.propose "ann" "p" offer)
    ∷ next 4
    ∷ arrive 5 (OcpRequest.accept "p" "bob" "bob")
    ∷ next 6
    ∷ arrive 7 (OcpRequest.cancel "p")
    ∷ next 8
    ∷ []

is_sealed_after : sealed_of "p" (run ocp_env cancelled_between no_agreements).db ≡ some true
unfolding run
is_sealed_after = refl

run-IsSound_example : IsSound ocp_env (run ocp_env cancelled_between no_agreements).db
run-IsSound_example = run-IsSound ocp_env cancelled_between

abbrev agreed : Attestation
agreed = record {
  proposal_id = "p";
  terms_hash = "hash";
  agreement_code = "code";
  party_a_agent_id = "ann";
  party_b_agent_id = "bob";
  expires_at = 9;
}

abbrev agent : String → OcpAgent
agent id = record { agent_id = id; notify_url = "https://a"; status = AgentStatus.active }

abbrev after_cancel : OcpDb
after_cancel = cancel_agreement "p" (record {
  agents = agent "ann" ∷ agent "bob" ∷ [];
  agreements = new_agreement agreed true ∷ [];
  signatures = [];
  receipts = [];
})

finish_accept-HasSeal_example :
    HasSeal agreed (finish_accept ocp_env agreed "ann" "bob" 5 after_cancel).0
finish_accept-HasSeal_example =
    finish_accept-HasSeal ocp_env agreed "ann" "bob" 5 after_cancel (agent "ann") (agent "bob") refl
      refl refl refl refl refl refl

abbrev agreed_again : Attestation
agreed_again = record agreed { proposal_id = "q" }

propose_again-fails_example :
    (is_terms_hash_duplicate agreed_again after_cancel ≡ false)
    × (finish_propose ocp_env agreed_again true "ann" after_cancel
        ≡ (after_cancel, fails internal_error))
propose_again-fails_example =
    propose_again-fails ocp_env agreed_again true "ann" after_cancel refl refl refl
