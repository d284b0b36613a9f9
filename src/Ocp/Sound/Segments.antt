-- ===== src/Ocp/Sound/Segments.antt =====
-- Each piece of a handler of OCP/server/main.ts keeps the tables sound.
use open_cawt.Base.{
  ℕ, String, Bool, Option, none, some, [], ◌∷◌, ◌++◌, any, ◌≡◌, refl, Bool-cases, if_elim, inl, inr,
}
use open_cawt.Ocp.{
  Party, Attestation, PartySignature, OcpAgent, OcpDb, is_signature, is_receipt, takes_key,
  new_agreement, create_agreement, mark_agreement_accepted, mark_agreement_sealed, get_signature,
  store_signature, create_receipt,
}
use open_cawt.Ocp.Handlers.{
  OcpEnv, Waiting, OcpOutcome, finish_propose, with_sig_a, verify_b, mint_agreement_receipt,
  seal_agreement, with_agents, accept_signed, signed_by, initial_mint, waits, replies, fails,
  proposing, verifying_b, verifying_both, minting,
}
use open_cawt.Ocp.Views.{look-find}
use open_cawt.Ocp.Mints.{stub_mint}
use open_cawt.Ocp.Sound.{attested_of, sig_of, IsSound, Grows, Grows-refl, Grows-trans}
use open_cawt.Ocp.Sound.Statements.{
  set_agreement-Grows, set_agreement-IsSound, with_agreement-Grows, with_agreement-IsSound,
  with_signature-Grows, with_signature-IsSound, update_receipt_mint-Grows,
  update_receipt_mint-IsSound,
}
use open_cawt.Ocp.Sound.Sealing.{
  IsAttested, IsAttested-Grows, mark_agreement_sealed-Grows, mark_agreement_sealed-IsSoundBut,
  receipt_there-IsSound, new_receipt-IsSound,
}

-- What a request that waits knows is still so.
abbrev pub Knows : OcpDb → Waiting → Type 0
Knows db (proposing t is_public sig_a) = Unit
Knows db (verifying_b t sig_b) = attested_of t.proposal_id db ≡ some t
Knows db (verifying_both t sig_a sig_b) =
    (attested_of t.proposal_id db ≡ some t) × (sig_of t.proposal_id Party.party_a db ≡ some sig_a)
Knows db (minting t) = Unit

abbrev pub KnowsAfter : OcpDb → OcpOutcome → Type 0
KnowsAfter db (waits w) = Knows db w
KnowsAfter db (replies r) = Unit
KnowsAfter db (fails e) = Unit

pub Knows-Grows : {db db' : OcpDb} → Grows db db' → (w : Waiting) → Knows db w → Knows db' w
Knows-Grows g (proposing t is_public sig_a) k = tt
Knows-Grows g (verifying_b t sig_b) k = g.attested t.proposal_id t k
Knows-Grows g (verifying_both t sig_a sig_b) (k, k') =
    (g.attested t.proposal_id t k, g.signatures t.proposal_id Party.party_a sig_a k')
Knows-Grows g (minting t) k = tt

pub record Keeps (env : OcpEnv) (db : OcpDb) (r : OcpDb × OcpOutcome) : Type 0 where
  pub grows : Grows db r.0
  pub sound : IsSound env r.0
  pub knows : KnowsAfter r.0 r.1

module _ {env : OcpEnv} where
  pub stays :
      {db : OcpDb} {o : OcpOutcome} → IsSound env db → KnowsAfter db o → Keeps env db (db, o)
  stays {db} s k = record { grows = Grows-refl db; sound = s; knows = k }

  pub Keeps-after :
      {a b : OcpDb} {r : OcpDb × OcpOutcome} → Grows a b → Keeps env b r → Keeps env a r
  Keeps-after g k = record { grows = Grows-trans g k.grows; sound = k.sound; knows = k.knows }

  pub moves :
      {db db' : OcpDb} {o : OcpOutcome}
      → Grows db db'
      → IsSound env db'
      → KnowsAfter db' o
      → Keeps env db (db', o)
  moves g s k = record { grows = g; sound = s; knows = k }

  pub finish_propose-Keeps :
      (t : Attestation) (is_public : Bool) (sig_a : String) (db : OcpDb)
      → IsSound env db
      → Keeps env db (finish_propose env t is_public sig_a db)
  unfolding finish_propose create_agreement store_signature
  finish_propose-Keeps t is_public sig_a db s =
      elim (Bool-cases (env.verify_sig t.party_a_agent_id t sig_a)) [
        | inr e ↦ rw e (stays s tt)
        | inl e ↦ rw e (elim (Bool-cases (any (takes_key t) db.agreements)) [
          | inl f ↦ rw f (stays s tt)
          | inr f ↦ rw f (
              let a = new_agreement t is_public in
              let x = signed_by t Party.party_a sig_a in
              let db1 : OcpDb = record db { agreements = db.agreements ++ a ∷ [] } in
              let s1 = with_agreement-IsSound a db refl s in
              elim (Bool-cases (any (is_signature t.proposal_id Party.party_a) db.signatures)) [
                | inl h ↦ rw h (moves (with_agreement-Grows a db) s1 tt)
                | inr h ↦ rw h (
                    moves (Grows-trans (with_agreement-Grows a db) (with_signature-Grows x db1))
                      (with_signature-IsSound x db1 s1) tt)
              ])
        ])
      ]

  pub verify_b-Keeps :
      (t : Attestation) (sig_b : String) (db : OcpDb)
      → IsSound env db
      → attested_of t.proposal_id db ≡ some t
      → Keeps env db (verify_b env t sig_b db)
  unfolding verify_b
  verify_b-Keeps t sig_b db s k = elim (Bool-cases (env.verify_sig t.party_b_agent_id t sig_b)) [
    | inr e ↦ rw e (stays s tt)
    | inl e ↦ rw e (read (get_signature t.proposal_id Party.party_a db) refl)
  ]
    where
      read :
          (o : Option PartySignature)
          → get_signature t.proposal_id Party.party_a db ≡ o
          → Keeps env db (db, with_sig_a o t sig_b)
      read none e = stays s tt
      read (some x) e =
          stays s
            (k, look-find (is_signature t.proposal_id Party.party_a) (λ y. y.sig) db.signatures x e)

  mint-Keeps :
      (t : Attestation) (db : OcpDb)
      → IsSound env db
      → Keeps env db (mint_agreement_receipt env t db)
  unfolding mint_agreement_receipt
  mint-Keeps t db s =
      if_elim (Keeps env db) env.is_stub
        (λ e.
          moves (update_receipt_mint-Grows t.proposal_id (stub_mint env.public_base_url t) db)
            (update_receipt_mint-IsSound t.proposal_id (stub_mint env.public_base_url t) db s) tt)
        (λ e. stays s tt)

  seal_agreement-Keeps :
      (t : Attestation) (now : ℕ) (db : OcpDb)
      → IsSound env db
      → IsAttested env t db
      → Keeps env db (seal_agreement env t now db)
  unfolding seal_agreement create_receipt
  seal_agreement-Keeps t now db s a =
      let db1 = mark_agreement_sealed t.proposal_id now db in
      let g = mark_agreement_sealed-Grows t.proposal_id now db in
      let b = mark_agreement_sealed-IsSoundBut t.proposal_id now db s in
      elim (Bool-cases (any (is_receipt t.proposal_id) db.receipts)) [
        | inl e ↦ rw e (moves g (receipt_there-IsSound t.proposal_id db1 e b) tt)
        | inr e ↦ rw e (
            Keeps-after g (
              Keeps-after (record { attested = λ i u h. h; signatures = λ i party x h. h })
                (mint-Keeps t _
                  (new_receipt-IsSound t now (initial_mint env) db1 b (IsAttested-Grows g a) e))))
      ]

  pub accept_signed-Keeps :
      (t : Attestation) (now : ℕ) (db : OcpDb)
      → IsSound env db
      → IsAttested env t db
      → Keeps env db (accept_signed env t now db)
  unfolding accept_signed
  accept_signed-Keeps t now db s a =
      let db1 = mark_agreement_accepted t.proposal_id now db in
      let g : Grows db db1 = set_agreement-Grows t.proposal_id _ (λ x. refl) db in
      let s1 : IsSound env db1 =
        set_agreement-IsSound t.proposal_id _ (λ x. refl) (λ x h. cc) db s in
      Keeps-after g (both _ _ db1 s1 (IsAttested-Grows g a))
    where
      both :
          (o o' : Option OcpAgent) (d : OcpDb)
          → IsSound env d
          → IsAttested env t d
          → Keeps env d (with_agents env t now o o' d)
      both none o' d s1 a1 = stays s1 tt
      both (some x) none d s1 a1 = stays s1 tt
      both (some x) (some y) d s1 a1 = seal_agreement-Keeps t now d s1 a1
