-- ===== src/Ocp/Sound.antt =====
-- What the tables of agreements say to one another, and that each statement keeps it.
pub mod Statements
pub mod Sealing
pub mod Segments
pub mod Requests
use open_cawt.Base.{
  ℕ, String, Bool, true, false, Option, none, some, List, [], ◌∷◌, ◌++◌, find, any, ◌≡◌, ◌∙◌, refl,
  sym, ap, subst, arith, str_eq, eq_iff, if◌then◌else◌, Bool-cases, ◌⊎◌, inl, inr,
}
use open_cawt.Base.Errors.{Result, ok, err}
use open_cawt.Ocp.{
  Party, AgreementStatus, Attestation, Agreement, PartySignature, Mint, AgreementReceipt, OcpDb,
  is_proposal, same_party, is_signature, is_receipt, takes_key, new_agreement, create_agreement,
  set_agreement, store_signature, create_receipt, update_receipt_mint,
}
use open_cawt.Ocp.Handlers.{OcpEnv}
use open_cawt.Ocp.Views.{look, look-snoc, look-snoc_cases, look-snoc_new, look-map, look-map-true}

abbrev pub is_sealed : AgreementStatus → Bool
is_sealed AgreementStatus.sealed = true
is_sealed _ = false

abbrev pub attested_of : String → OcpDb → Option Attestation
attested_of id db = look (is_proposal id) (λ a. a.attested) db.agreements

abbrev pub sealed_of : String → OcpDb → Option Bool
sealed_of id db = look (is_proposal id) (λ a. is_sealed a.status) db.agreements

abbrev pub sig_of : String → Party → OcpDb → Option String
sig_of id party db = look (is_signature id party) (λ s. s.sig) db.signatures

-- The code and the hash of a receipt.
abbrev pub seal_of : String → OcpDb → Option (String × String)
seal_of id db = look (is_receipt id) (λ r. (r.agreement_code, r.terms_hash)) db.receipts

-- The receipt of a proposal is of what the two parties signed.
pub record IsSigned (env : OcpEnv) (id : String) (code_hash : String × String) (db : OcpDb)
    : Type 0 where
  pub attested : Attestation
  pub on_file : attested_of id db ≡ some attested
  pub same : code_hash ≡ (attested.agreement_code, attested.terms_hash)
  pub sig_a : String
  pub sig_b : String
  pub stored_a : sig_of id Party.party_a db ≡ some sig_a
  pub stored_b : sig_of id Party.party_b db ≡ some sig_b
  pub by_a : env.verify_sig attested.party_a_agent_id attested sig_a ≡ true
  pub by_b : env.verify_sig attested.party_b_agent_id attested sig_b ≡ true

-- Each receipt is signed by both, and each agreement that is sealed has a receipt.
pub record IsSound (env : OcpEnv) (db : OcpDb) : Type 0 where
  pub signed : (id : String) (c : String × String) → seal_of id db ≡ some c → IsSigned env id c db
  pub receipted :
      (id : String) → sealed_of id db ≡ some true → (c : String × String) × (seal_of id db ≡ some c)

-- What was attested and signed stays so.
pub record Grows (db db' : OcpDb) : Type 0 where
  pub attested :
      (id : String) (t : Attestation) → attested_of id db ≡ some t → attested_of id db' ≡ some t
  pub signatures :
      (id : String) (party : Party) (s : String)
      → sig_of id party db ≡ some s
      → sig_of id party db' ≡ some s

pub Grows-refl : (db : OcpDb) → Grows db db
Grows-refl db = record { attested = λ id t h. h; signatures = λ id party s h. h }

pub Grows-trans : {a b c : OcpDb} → Grows a b → Grows b c → Grows a c
Grows-trans g k = record {
  attested = λ id t h. k.attested id t (g.attested id t h);
  signatures = λ id party s h. k.signatures id party s (g.signatures id party s h);
}

pub IsSigned-Grows :
    {env : OcpEnv} {id : String} {c : String × String} {db db' : OcpDb}
    → Grows db db'
    → IsSigned env id c db
    → IsSigned env id c db'
IsSigned-Grows {env} {id} g i = record {
  attested = i.attested;
  on_file = g.attested id i.attested i.on_file;
  same = i.same;
  sig_a = i.sig_a;
  sig_b = i.sig_b;
  stored_a = g.signatures id Party.party_a i.sig_a i.stored_a;
  stored_b = g.signatures id Party.party_b i.sig_b i.stored_b;
  by_a = i.by_a;
  by_b = i.by_b;
}

-- A statement that adds to what is attested or signed, writes no receipt and seals nothing.
pub IsSound-Grows :
    {env : OcpEnv} {db db' : OcpDb}
    → Grows db db'
    → ((id : String) → seal_of id db' ≡ seal_of id db)
    → ((id : String) → sealed_of id db' ≡ some true → sealed_of id db ≡ some true)
    → IsSound env db
    → IsSound env db'
IsSound-Grows g same back s = record {
  signed = λ id c h. IsSigned-Grows g (s.signed id c (sym (same id) ∙ h));
  receipted = λ id h. let (c, e) = s.receipted id (back id h) in (c, same id ∙ e);
}
