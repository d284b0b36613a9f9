-- ===== src/Ocp/Again.antt =====
-- What the keys of the tables make of an agreement that is proposed again, and of one that is sealed
-- while it is cancelled.
use open_cawt.Base.{
  ℕ, String, Bool, true, false, ◌&&◌, ◌||◌, not, some, List, [], ◌∷◌, any, all, ◌≡◌, ◌∙◌, refl,
  arith, str_eq, eq_iff, if_elim,
}
use open_cawt.Base.Errors.{internal_error}
use open_cawt.Ocp.{
  Party, Attestation, Agreement, OcpAgent, OcpDb, is_ended, is_proposal, is_signature, is_receipt,
  takes_key, is_live_copy, is_terms_hash_duplicate, create_agreement, store_signature,
  create_receipt, get_ocp_agent, new_receipt,
}
use open_cawt.Ocp.Handlers.{
  OcpEnv, OcpOutcome, finish_propose, finish_accept, accept_signed, seal_agreement,
  mint_agreement_receipt, initial_mint, fails,
}
use open_cawt.Ocp.Views.{look-map_all, look-snoc_new, any-map}
use open_cawt.Ocp.Mints.{stub_mint}
use open_cawt.Ocp.Sound.{is_sealed, sealed_of, seal_of}
use open_cawt.Ocp.Sound.Statements.{update_receipt_mint-seal}

-- An agreement of the same parties and terms.
abbrev pub is_copy : Attestation → Agreement → Bool
is_copy t a =
    str_eq a.attested.party_a_agent_id t.party_a_agent_id
    && str_eq a.attested.party_b_agent_id t.party_b_agent_id
    && str_eq a.attested.terms_hash t.terms_hash

abbrev pub is_copy_over : Attestation → Agreement → Bool
is_copy_over t a = not (is_copy t a) || is_ended a.status

copies_over :
    (t : Attestation) (l : List Agreement)
    → all (is_copy_over t) l ≡ true
    → any (is_live_copy t) l ≡ false
copies_over t [] h = refl
copies_over t (a ∷ l) h = ground (arith, copies_over t l)

copy_taken :
    (t : Attestation) (l : List Agreement) → any (is_copy t) l ≡ true → any (takes_key t) l ≡ true
copy_taken t [] h = cc
copy_taken t (a ∷ l) h = ground (arith, copy_taken t l)

-- Where two parties have agreements of the same terms, all expired or cancelled, a proposal of these
-- terms is no duplicate to the check, and yet it ends in an internal error, and nothing is written:
-- the keys of the table hold for those agreements too.
pub propose_again-fails :
    (env : OcpEnv) (t : Attestation) (is_public : Bool) (sig_a : String) (db : OcpDb)
    → any (is_copy t) db.agreements ≡ true
    → all (is_copy_over t) db.agreements ≡ true
    → env.verify_sig t.party_a_agent_id t sig_a ≡ true
    → (is_terms_hash_duplicate t db ≡ false)
      × (finish_propose env t is_public sig_a db ≡ (db, fails internal_error))
unfolding is_terms_hash_duplicate finish_propose create_agreement
propose_again-fails env t is_public sig_a db h over ok_a =
    (copies_over t db.agreements over, rw (ok_a, copy_taken t db.agreements h) refl)

-- The agreement is sealed, and has a receipt of its code and hash.
pub record HasSeal (t : Attestation) (db : OcpDb) : Type 0 where
  pub sealed : sealed_of t.proposal_id db ≡ some true
  pub receipt : seal_of t.proposal_id db ≡ some (t.agreement_code, t.terms_hash)

module _ (env : OcpEnv) (t : Attestation) (now : ℕ) where
  mint-HasSeal : (db : OcpDb) → HasSeal t db → HasSeal t (mint_agreement_receipt env t db).0
  unfolding mint_agreement_receipt
  mint-HasSeal db h =
      if_elim (λ (r : OcpDb × OcpOutcome). HasSeal t r.0) env.is_stub
        (λ e. record {
          sealed = h.sealed;
          receipt =
              update_receipt_mint-seal t.proposal_id (stub_mint env.public_base_url t) db
                t.proposal_id
              ∙ h.receipt;
        })
        (λ e. h)

  seal_agreement-HasSeal :
      (db : OcpDb)
      → any (is_proposal t.proposal_id) db.agreements ≡ true
      → any (is_receipt t.proposal_id) db.receipts ≡ false
      → HasSeal t (seal_agreement env t now db).0
  unfolding seal_agreement create_receipt
  seal_agreement-HasSeal db there fresh = rw fresh (
      mint-HasSeal _ (record {
        sealed =
            look-map_all (is_proposal t.proposal_id) (λ a. is_sealed a.status) _ true (λ a. refl)
              (λ a. refl) db.agreements there;
        receipt =
            look-snoc_new (is_receipt t.proposal_id) (λ r. (r.agreement_code, r.terms_hash))
              (new_receipt t now (initial_mint env)) db.receipts fresh
              (ground (arith, eq_iff t.proposal_id t.proposal_id));
      }))

-- An acceptance that waits seals its agreement where it has both signatures, whatever the status of
-- the agreement has become: party B has not signed before, there is no receipt yet, and the parties
-- are registered.
pub finish_accept-HasSeal :
    (env : OcpEnv) (t : Attestation) (sig_a sig_b : String) (now : ℕ) (db : OcpDb) (a b : OcpAgent)
    → any (is_proposal t.proposal_id) db.agreements ≡ true
    → any (is_signature t.proposal_id Party.party_b) db.signatures ≡ false
    → any (is_receipt t.proposal_id) db.receipts ≡ false
    → get_ocp_agent t.party_a_agent_id db ≡ some a
    → get_ocp_agent t.party_b_agent_id db ≡ some b
    → env.verify_sig t.party_a_agent_id t sig_a ≡ true
    → env.verify_sig t.party_b_agent_id t sig_b ≡ true
    → HasSeal t (finish_accept env t sig_a sig_b now db).0
unfolding finish_accept store_signature accept_signed
finish_accept-HasSeal env t sig_a sig_b now db a b there unsigned fresh ra rb ok_a ok_b =
    rw (ok_a, ok_b, unsigned, ra, rb)
      (seal_agreement-HasSeal env t now _
        (any-map (is_proposal t.proposal_id) _ (λ x. refl) db.agreements ∙ there) fresh)
