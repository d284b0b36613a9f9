-- ===== src/Ocp/Sound/Requests.antt =====
-- Each request to OCP/server/main.ts, at its arrival and when it goes on, keeps the tables sound.
use open_cawt.Base.{
  ℕ, String, Bool, Option, none, some, List, any, ltb, ◌≡◌, refl, arith, eq_iff, sym, subst,
  Bool-cases, if_elim, inl, inr,
}
use open_cawt.Base.Errors.{Result, ok, err}
use open_cawt.Ocp.{
  Party, Attestation, Agreement, OcpAgent, OcpDb, is_agent, is_proposal, is_signature,
  cancelled_if_pending, get_agreement, get_ocp_agent, store_signature, upsert_ocp_agent,
  suspend_ocp_agent, is_still_pending,
}
use open_cawt.Ocp.Handlers.{
  OcpEnv, OcpRequest, Waiting, OcpOutcome, begin_request, resume_request, propose_checked,
  begin_propose, accept_found, accept_pending, check_acceptable, finish_accept, signed_by,
  cancel_found, suspend_found, register, propose, accept, suspend, cancel, proposing, verifying_b,
  verifying_both, minting, verify_both_attestations,
}
use open_cawt.Ocp.Views.{find-holds, look-find, look-snoc_new}
use open_cawt.Ocp.Mints.{MintAnswer, mint_of_answer}
use open_cawt.Ocp.Sound.{attested_of, sig_of, IsSound}
use open_cawt.Ocp.Sound.Statements.{
  set_agreement-Grows, set_agreement-IsSound, with_signature-Grows, with_signature-IsSound,
  update_receipt_mint-Grows, update_receipt_mint-IsSound,
}
use open_cawt.Ocp.Sound.Segments.{
  Knows, KnowsAfter, Keeps, Keeps-after, stays, moves, finish_propose-Keeps, verify_b-Keeps,
  accept_signed-Keeps,
}

module _ {env : OcpEnv} where
  finish_accept-Keeps :
      (t : Attestation) (sig_a sig_b : String) (now : ℕ) (db : OcpDb)
      → IsSound env db
      → attested_of t.proposal_id db ≡ some t
      → sig_of t.proposal_id Party.party_a db ≡ some sig_a
      → Keeps env db (finish_accept env t sig_a sig_b now db)
  unfolding finish_accept store_signature
  finish_accept-Keeps t sig_a sig_b now db s k k' =
      let x = signed_by t Party.party_b sig_b in
      elim (Bool-cases (verify_both_attestations env t sig_a sig_b)) [
        | inr e ↦ rw e (stays s tt)
        | inl e ↦
            rw e (elim (Bool-cases (any (is_signature t.proposal_id Party.party_b) db.signatures)) [
              | inl f ↦ rw f (stays s tt)
              | inr f ↦ rw f (
                  Keeps-after (with_signature-Grows x db) (
                    accept_signed-Keeps t now _ (with_signature-IsSound x db s) (record {
                      on_file = k;
                      sig_a = sig_a;
                      sig_b = sig_b;
                      stored_a =
                          (with_signature-Grows x db).signatures t.proposal_id Party.party_a sig_a
                            k';
                      stored_b =
                          look-snoc_new (is_signature t.proposal_id Party.party_b) (λ y. y.sig) x
                            db.signatures f (ground (arith, eq_iff t.proposal_id t.proposal_id));
                      by_a = ground arith;
                      by_b = ground arith;
                    })))
            ])
      ]

  pub resume_request-Keeps :
      (now : ℕ) (answer : MintAnswer) (w : Waiting) (db : OcpDb)
      → IsSound env db
      → Knows db w
      → Keeps env db (resume_request env now answer w db)
  unfolding resume_request
  resume_request-Keeps now answer (proposing t is_public sig_a) db s k =
      finish_propose-Keeps t is_public sig_a db s
  resume_request-Keeps now answer (verifying_b t sig_b) db s k = verify_b-Keeps t sig_b db s k
  resume_request-Keeps now answer (verifying_both t sig_a sig_b) db s (k, k') =
      finish_accept-Keeps t sig_a sig_b now db s k k'
  resume_request-Keeps now answer (minting t) db s k =
      moves (update_receipt_mint-Grows t.proposal_id (mint_of_answer answer) db)
        (update_receipt_mint-IsSound t.proposal_id (mint_of_answer answer) db s) tt

  -- Only the agents change.
  with_agents-Keeps :
      (agents : List OcpAgent) (db : OcpDb) {o : OcpOutcome}
      → IsSound env db
      → KnowsAfter (record db { agents = agents }) o
      → Keeps env db (record db { agents = agents }, o)
  with_agents-Keeps agents db s k = record {
    grows = record { attested = λ i t h. h; signatures = λ i party x h. h };
    sound = record {
      signed = λ i c h.
          let x = s.signed i c h in
          record {
            attested = x.attested;
            on_file = x.on_file;
            same = x.same;
            sig_a = x.sig_a;
            sig_b = x.sig_b;
            stored_a = x.stored_a;
            stored_b = x.stored_b;
            by_a = x.by_a;
            by_b = x.by_b;
          };
      receipted = s.receipted;
    };
    knows = k;
  }

  accept-Keeps :
      (o : Option Agreement) (id caller sig_b : String) (now : ℕ) (db : OcpDb)
      → IsSound env db
      → get_agreement id db ≡ o
      → Keeps env db (accept_found o caller sig_b now db)
  accept-Keeps none id caller sig_b now db s e = stays s tt
  accept-Keeps (some a) id caller sig_b now db s e = checked (check_acceptable caller a)
    where
      on_file : attested_of a.attested.proposal_id db ≡ some a.attested
      on_file =
          subst (λ i. attested_of i db ≡ some a.attested)
            (sym (
              (eq_iff a.attested.proposal_id id).0 (find-holds (is_proposal id) db.agreements a e)))
            (look-find (is_proposal id) (λ x. x.attested) db.agreements a e)

      checked : (r : Result (Unit {0})) → Keeps env db (accept_pending r a.attested sig_b now db)
      checked (err x) = stays s tt
      checked (ok u) =
          if_elim (Keeps env db) (ltb a.attested.expires_at now)
            (λ h.
              moves (set_agreement-Grows a.attested.proposal_id _ (λ x. refl) db)
                (set_agreement-IsSound a.attested.proposal_id _ (λ x. refl) (λ x k. cc) db s) tt)
            (λ h. stays s on_file)

  cancel-Keeps :
      (o : Option Agreement) (id : String) (db : OcpDb)
      → IsSound env db
      → Keeps env db (cancel_found id o db)
  cancel-Keeps none id db s = stays s tt
  cancel-Keeps (some a) id db s =
      if_elim (Keeps env db) (is_still_pending a.status)
        (λ h.
          moves (set_agreement-Grows id cancelled_if_pending (λ x. ground arith) db)
            (set_agreement-IsSound id cancelled_if_pending (λ x. ground arith) (λ x k. ground arith)
              db s)
            tt)
        (λ h. stays s tt)

  suspend-Keeps :
      (o : Option OcpAgent) (id : String) (db : OcpDb)
      → IsSound env db
      → Keeps env db (suspend_found id o db)
  unfolding suspend_ocp_agent
  suspend-Keeps none id db s = stays s tt
  suspend-Keeps (some a) id db s = with_agents-Keeps _ db s tt

  propose-Keeps :
      (r : Result Attestation) (is_public : Bool) (sig_a : String) (db : OcpDb)
      → IsSound env db
      → Keeps env db (db, propose_checked is_public sig_a r)
  propose-Keeps (err e) is_public sig_a db s = stays s tt
  propose-Keeps (ok t) is_public sig_a db s = stays s tt

  pub begin_request-Keeps :
      (now : ℕ) (request : OcpRequest) (db : OcpDb)
      → IsSound env db
      → Keeps env db (begin_request env now request db)
  unfolding begin_request upsert_ocp_agent
  begin_request-Keeps now (register id url) db s = elim (Bool-cases (any (is_agent id) db.agents)) [
    | inl e ↦ rw e (with_agents-Keeps _ db s tt)
    | inr e ↦ rw e (with_agents-Keeps _ db s tt)
  ]
  begin_request-Keeps now (propose caller id body) db s =
      propose-Keeps (begin_propose env caller id body now db) body.is_public body.sig_a db s
  begin_request-Keeps now (accept id caller sig_b) db s =
      accept-Keeps (get_agreement id db) id caller sig_b now db s refl
  begin_request-Keeps now (suspend id) db s = suspend-Keeps (get_ocp_agent id db) id db s
  begin_request-Keeps now (cancel id) db s = cancel-Keeps (get_agreement id db) id db s
