-- ===== src/Ocp/Sound/Sealing.antt =====
-- The two statements of a seal: between them an agreement is sealed that has no receipt.
use open_cawt.Base.{
  ℕ, String, true, false, some, [], ◌∷◌, ◌++◌, any, ◌≡◌, refl, subst, str_eq, eq_iff, Bool-cases,
  inl, inr,
}
use open_cawt.Ocp.{
  Party, Attestation, OcpDb, OcpMintStatus, is_receipt, new_receipt, mark_agreement_sealed,
  AgreementReceipt,
}
use open_cawt.Ocp.Handlers.{OcpEnv}
use open_cawt.Ocp.Views.{look-snoc_cases, look-snoc, look-snoc_new, look-any}
use open_cawt.Ocp.Sound.{
  attested_of, sealed_of, sig_of, seal_of, IsSigned, IsSound, Grows, IsSigned-Grows,
}
use open_cawt.Ocp.Sound.Statements.{set_agreement-Grows, sealed_of-other}

-- An attestation on file that both have signed.
pub record IsAttested (env : OcpEnv) (t : Attestation) (db : OcpDb) : Type 0 where
  pub on_file : attested_of t.proposal_id db ≡ some t
  pub sig_a : String
  pub sig_b : String
  pub stored_a : sig_of t.proposal_id Party.party_a db ≡ some sig_a
  pub stored_b : sig_of t.proposal_id Party.party_b db ≡ some sig_b
  pub by_a : env.verify_sig t.party_a_agent_id t sig_a ≡ true
  pub by_b : env.verify_sig t.party_b_agent_id t sig_b ≡ true

pub IsAttested-Grows :
    {env : OcpEnv} {t : Attestation} {db db' : OcpDb}
    → Grows db db'
    → IsAttested env t db
    → IsAttested env t db'
IsAttested-Grows {t = t} g i = record {
  on_file = g.attested t.proposal_id t i.on_file;
  sig_a = i.sig_a;
  sig_b = i.sig_b;
  stored_a = g.signatures t.proposal_id Party.party_a i.sig_a i.stored_a;
  stored_b = g.signatures t.proposal_id Party.party_b i.sig_b i.stored_b;
  by_a = i.by_a;
  by_b = i.by_b;
}

-- The tables are sound but for the agreement `own`, which may have no receipt.
pub record IsSoundBut (env : OcpEnv) (own : String) (db : OcpDb) : Type 0 where
  pub signed : (id : String) (c : String × String) → seal_of id db ≡ some c → IsSigned env id c db
  pub receipted :
      (id : String)
      → str_eq own id ≡ false
      → sealed_of id db ≡ some true
      → (c : String × String) × (seal_of id db ≡ some c)

pub mark_agreement_sealed-Grows :
    (id : String) (now : ℕ) (db : OcpDb) → Grows db (mark_agreement_sealed id now db)
mark_agreement_sealed-Grows id now db = set_agreement-Grows id _ (λ a. refl) db

pub mark_agreement_sealed-IsSoundBut :
    {env : OcpEnv} (id : String) (now : ℕ) (db : OcpDb)
    → IsSound env db
    → IsSoundBut env id (mark_agreement_sealed id now db)
mark_agreement_sealed-IsSoundBut id now db s = record {
  signed = λ i c h. IsSigned-Grows (mark_agreement_sealed-Grows id now db) (s.signed i c h);
  receipted = λ i apart h. s.receipted i (sealed_of-other id _ (λ a. refl) db i apart h);
}

-- Where the receipt is there already, the tables are sound.
pub receipt_there-IsSound :
    {env : OcpEnv} (id : String) (db : OcpDb)
    → any (is_receipt id) db.receipts ≡ true
    → IsSoundBut env id db
    → IsSound env db
receipt_there-IsSound id db there s = record {
  signed = s.signed;
  receipted = λ i h. elim (Bool-cases (str_eq id i)) [
    | inl e ↦
        subst (λ j. (c : String × String) × (seal_of j db ≡ some c)) ((eq_iff id i).0 e)
          (look-any (is_receipt id) (λ r. (r.agreement_code, r.terms_hash)) db.receipts there)
    | inr e ↦ s.receipted i e h
  ];
}

abbrev with_receipt : AgreementReceipt → OcpDb → OcpDb
with_receipt r db = record db { receipts = db.receipts ++ r ∷ [] }

module _ {env : OcpEnv} (t : Attestation) (now : ℕ) (status : OcpMintStatus) (db : OcpDb)
    (s : IsSoundBut env t.proposal_id db) (a : IsAttested env t db) where
  abbrev db' : OcpDb
  db' = with_receipt (new_receipt t now status) db

  abbrev code_hash : AgreementReceipt → String × String
  code_hash r = (r.agreement_code, r.terms_hash)

  own-IsSigned : IsSigned env t.proposal_id (t.agreement_code, t.terms_hash) db'
  own-IsSigned = record {
    attested = t;
    on_file = a.on_file;
    same = refl;
    sig_a = a.sig_a;
    sig_b = a.sig_b;
    stored_a = a.stored_a;
    stored_b = a.stored_b;
    by_a = a.by_a;
    by_b = a.by_b;
  }

  each-IsSigned : (i : String) (c : String × String) → seal_of i db' ≡ some c → IsSigned env i c db'
  each-IsSigned i c h =
      elim (look-snoc_cases (is_receipt i) code_hash (new_receipt t now status) db.receipts c h) [
        | inl e ↦
            IsSigned-Grows (record { attested = λ j u k. k; signatures = λ j party x k. k })
              (s.signed i c e)
        | inr (own, e) ↦
            subst (λ j. IsSigned env j c db') ((eq_iff t.proposal_id i).0 own)
              (subst (λ d. IsSigned env t.proposal_id d db') e own-IsSigned)
      ]

  pub new_receipt-IsSound : any (is_receipt t.proposal_id) db.receipts ≡ false → IsSound env db'
  new_receipt-IsSound fresh = record {
    signed = each-IsSigned;
    receipted = λ i h. elim (Bool-cases (str_eq t.proposal_id i)) [
      | inl e ↦ (
        (t.agreement_code, t.terms_hash),
        look-snoc_new (is_receipt i) code_hash (new_receipt t now status) db.receipts
            (subst (λ j. any (is_receipt j) db.receipts ≡ false) ((eq_iff t.proposal_id i).0 e)
              fresh)
            e,
      )
      | inr e ↦
          (let (c, k) = s.receipted i e h in
            (c, look-snoc (is_receipt i) code_hash (new_receipt t now status) db.receipts c k))
    ];
  }
