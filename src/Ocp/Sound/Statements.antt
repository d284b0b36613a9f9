-- ===== src/Ocp/Sound/Statements.antt =====
-- Each statement on the tables of agreements keeps what is attested, signed and receipted.
use open_cawt.Base.{
  String, true, false, some, [], ◌∷◌, ◌++◌, ◌≡◌, ◌∙◌, refl, ap, arith, str_eq, eq_iff,
  if◌then◌else◌, Bool-cases, inl, inr,
}
use open_cawt.Ocp.{
  Attestation, Agreement, PartySignature, Mint, AgreementReceipt, OcpDb, is_proposal, is_signature,
  is_receipt, set_agreement, update_receipt_mint,
}
use open_cawt.Ocp.Handlers.{OcpEnv}
use open_cawt.Ocp.Views.{look-snoc, look-snoc_cases, look-map, look-map-true}
use open_cawt.Ocp.Sound.{is_sealed, sealed_of, seal_of, IsSound, Grows, IsSound-Grows}

module _ (id : String) (f : Agreement → Agreement)
    (same : (a : Agreement) → (f a).attested ≡ a.attested) where
  abbrev updated : Agreement → Agreement
  updated a = if is_proposal id a then f a else a

  updated-attested : (a : Agreement) → (updated a).attested ≡ a.attested
  updated-attested a = elim (Bool-cases (is_proposal id a)) [
    | inl e ↦ rw e (same a)
    | inr e ↦ rw e refl
  ]

  updated-id : (i : String) (a : Agreement) → is_proposal i (updated a) ≡ is_proposal i a
  updated-id i a = ap (λ (x : Attestation). str_eq x.proposal_id i) (updated-attested a)

  pub set_agreement-Grows : (db : OcpDb) → Grows db (set_agreement id f db)
  set_agreement-Grows db = record {
    attested = λ i t h.
        look-map (is_proposal i) (λ a. a.attested) updated (updated-id i) updated-attested
          db.agreements
        ∙ h;
    signatures = λ i party s h. h;
  }

  -- One that seals at most the agreement `id`.
  pub sealed_of-other :
      (db : OcpDb) (i : String)
      → str_eq id i ≡ false
      → sealed_of i (set_agreement id f db) ≡ some true
      → sealed_of i db ≡ some true
  sealed_of-other db i apart =
      look-map-true (is_proposal i) (λ a. is_sealed a.status) updated (updated-id i) back
        db.agreements
    where
      back :
          (a : Agreement)
          → is_proposal i a ≡ true
          → is_sealed (updated a).status ≡ true
          → is_sealed a.status ≡ true
      back a h k =
          ground
            (arith, eq_iff a.attested.proposal_id i, eq_iff a.attested.proposal_id id, eq_iff id i)

  module _
      (keeps : (a : Agreement) → is_sealed (f a).status ≡ true → is_sealed a.status ≡ true) where
    -- One that does not seal.
    sealed_of-back :
        (db : OcpDb) (i : String)
        → sealed_of i (set_agreement id f db) ≡ some true
        → sealed_of i db ≡ some true
    sealed_of-back db i =
        look-map-true (is_proposal i) (λ a. is_sealed a.status) updated (updated-id i)
          (λ a h k. ground (arith, keeps a)) db.agreements

    pub set_agreement-IsSound :
        {env : OcpEnv} (db : OcpDb) → IsSound env db → IsSound env (set_agreement id f db)
    set_agreement-IsSound db s =
        IsSound-Grows (set_agreement-Grows db) (λ i. refl) (sealed_of-back db) s

-- What `create_agreement` writes.
pub with_agreement-Grows :
    (a : Agreement) (db : OcpDb) → Grows db (record db { agreements = db.agreements ++ a ∷ [] })
with_agreement-Grows a db = record {
  attested = λ i t h. look-snoc (is_proposal i) (λ x. x.attested) a db.agreements t h;
  signatures = λ i party s h. h;
}

pub with_agreement-IsSound :
    {env : OcpEnv} (a : Agreement) (db : OcpDb)
    → is_sealed a.status ≡ false
    → IsSound env db
    → IsSound env (record db { agreements = db.agreements ++ a ∷ [] })
with_agreement-IsSound a db h s = IsSound-Grows (with_agreement-Grows a db) (λ i. refl) back s
  where
    back :
        (i : String)
        → sealed_of i (record db { agreements = db.agreements ++ a ∷ [] }) ≡ some true
        → sealed_of i db ≡ some true
    back i k =
        elim (look-snoc_cases (is_proposal i) (λ x. is_sealed x.status) a db.agreements true k) [
          | inl e ↦ e
          | inr (e, e') ↦ cc
        ]

-- What `store_signature` writes.
pub with_signature-Grows :
    (x : PartySignature) (db : OcpDb)
    → Grows db (record db { signatures = db.signatures ++ x ∷ [] })
with_signature-Grows x db = record {
  attested = λ i t h. h;
  signatures = λ i party s h. look-snoc (is_signature i party) (λ y. y.sig) x db.signatures s h;
}

pub with_signature-IsSound :
    {env : OcpEnv} (x : PartySignature) (db : OcpDb)
    → IsSound env db
    → IsSound env (record db { signatures = db.signatures ++ x ∷ [] })
with_signature-IsSound x db s = IsSound-Grows (with_signature-Grows x db) (λ i. refl) (λ i h. h) s

pub update_receipt_mint-Grows :
    (id : String) (m : Mint) (db : OcpDb) → Grows db (update_receipt_mint id m db)
update_receipt_mint-Grows id m db = record { attested = λ i t h. h; signatures = λ i party s h. h }

pub update_receipt_mint-seal :
    (id : String) (m : Mint) (db : OcpDb) (i : String)
    → seal_of i (update_receipt_mint id m db) ≡ seal_of i db
update_receipt_mint-seal id m db i =
    look-map (is_receipt i) (λ r. (r.agreement_code, r.terms_hash))
      (λ (r : AgreementReceipt). if is_receipt id r then record r { mint = m } else r)
      (λ r. ground arith) (λ r. ground arith) db.receipts

pub update_receipt_mint-IsSound :
    {env : OcpEnv} (id : String) (m : Mint) (db : OcpDb)
    → IsSound env db
    → IsSound env (update_receipt_mint id m db)
update_receipt_mint-IsSound id m db s =
    IsSound-Grows (update_receipt_mint-Grows id m db) (update_receipt_mint-seal id m db) (λ i h. h)
      s
