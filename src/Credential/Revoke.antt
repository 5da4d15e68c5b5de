-- ===== src/Credential/Revoke.antt =====
-- Who revokes a credential, how often, and that a revoked credential does not verify.
use Prim.Native.String.{◌++◌}
use stprivy.Common.{ℕ, ◌≡◌, ◌≢◌, ap, ◌∙◌, String, some, ◌∷◌, arith, eq_iff, eq_refl, inl, inr}
use stprivy.Common.Tests.{Option-cases}
use stprivy.Common.Exec.{ok, err}
use stprivy.Common.Js.{Js}
use stprivy.Domain.{Credential, CredentialStatus, Issuer}
use stprivy.Domain.Db.{Prisma, Db}
use stprivy.Credential.Texts.{remove_first, remove_first-append}
use stprivy.Credential.{
  Vc, Verdict, Crypto, Relations, Ledger, verify_credential, revoke_credential, mark_revoked,
  already_revoked,
}

module _ (p : Prisma) (js : Js) (crypto : Crypto) (relations : Relations p) where
  -- The row that is revoked: it is stored, its issuer asks for it, and it was not revoked before.
  pub record MayRevoke (id issuer_did : String) (l : Ledger p js crypto relations) (r : Credential)
      : Type 0 where
    pub issuer : Issuer
    pub stored : p.credentials.find id l.db.credentials ≡ some r
    pub linked : relations.issuer_of r.issuer_id l.db.issuers ≡ some issuer
    pub asks : issuer.did ≡ issuer_did
    pub open_still : r.status ≢ CredentialStatus.revoked

  -- A revocation succeeds only for a stored credential that was not revoked before, at the request
  -- of its issuer; it marks the row, and calls the registry on the chain once, with its hash.
  pub revoke_needs :
      (now : ℕ) (id issuer_did : String) (l : Ledger p js crypto relations) (row : Credential)
      → (revoke_credential p js crypto relations now id issuer_did l).0 ≡ ok row
      → (r : Credential) × MayRevoke id issuer_did l r
        × (row ≡ mark_revoked p js crypto relations r)
        × (p.credentials.find id
              (revoke_credential p js crypto relations now id issuer_did l).1.db.credentials
            ≡ some row)
        × ((revoke_credential p js crypto relations now id issuer_did l).1.submitted
            ≡ r.credential_hash ∷ l.submitted)
  unfolding revoke_credential
  revoke_needs now id issuer_did l row h =
      elim (Option-cases (p.credentials.find id l.db.credentials)) [
        | inl e ↦ absurd (ground (arith, e, h))
        | inr (r, e) ↦ elim (Option-cases (relations.issuer_of r.issuer_id l.db.issuers)) [
          | inl f ↦ absurd (ground (arith, e, f, h))
          | inr (issuer, f) ↦
              let change =
                p.credentials.update_lem id (mark_revoked p js crypto relations) l.db.credentials in
              let stored =
                p.credentials.find-put id id (mark_revoked p js crypto relations r)
                  l.db.credentials in
              (
                r,
                ground (arith, e, f, h, eq_iff issuer.did issuer_did),
                ground (arith, e, f, h, change),
                ground (arith, e, f, h, change, stored, eq_refl id),
                ground (arith, e, f, h, change),
              )
        ]
      ]

  -- A credential whose row is revoked never verifies as valid, whoever presents it.
  revoked_verdict :
      (now : ℕ) (vc : Vc) (s : Db p) (r : Credential)
      → p.credentials.find (remove_first "urn:uuid:" vc.body.id) s.credentials ≡ some r
      → r.status ≡ CredentialStatus.revoked
      → verify_credential p js crypto relations now vc s ≢ Verdict.valid
  unfolding verify_credential
  revoked_verdict now vc s r e h v = ground (arith, e, h, v)

  revoke-issuers :
      (now : ℕ) (id issuer_did : String) (l : Ledger p js crypto relations)
      → (revoke_credential p js crypto relations now id issuer_did l).1.db.issuers ≡ l.db.issuers
  unfolding revoke_credential
  revoke-issuers now id issuer_did l =
      elim (Option-cases (p.credentials.find id l.db.credentials)) [
        | inl e ↦ ground (arith, e)
        | inr (r, e) ↦ ground (
          arith,
          e,
          p.credentials.update_lem id (mark_revoked p js crypto relations) l.db.credentials,
        )
      ]

  revoked_refused :
      (now : ℕ) (id issuer_did : String) (l : Ledger p js crypto relations) (r : Credential)
      (issuer : Issuer)
      → p.credentials.find id l.db.credentials ≡ some r
      → relations.issuer_of r.issuer_id l.db.issuers ≡ some issuer
      → issuer.did ≡ issuer_did
      → r.status ≡ CredentialStatus.revoked
      → revoke_credential p js crypto relations now id issuer_did l ≡ (err already_revoked, l)
  unfolding revoke_credential
  revoked_refused now id issuer_did l r issuer e f g h =
      ground (arith, e, f, g, h, eq_iff issuer.did issuer_did)

  -- After a revocation that succeeded, nothing that carries the credential's id verifies as valid,
  -- at any time, and a second revocation by the same issuer is refused without a trace.
  pub revoke_lasts :
      (now now' : ℕ) (id issuer_did : String) (l : Ledger p js crypto relations) (row : Credential)
      (vc : Vc)
      → (revoke_credential p js crypto relations now id issuer_did l).0 ≡ ok row
      → vc.body.id ≡ "urn:uuid:" ++ id
      → let l' = (revoke_credential p js crypto relations now id issuer_did l).1 in
        (verify_credential p js crypto relations now' vc l'.db ≢ Verdict.valid)
        × (revoke_credential p js crypto relations now' id issuer_did l'
            ≡ (err already_revoked, l'))
  revoke_lasts now now' id issuer_did l row vc h named =
      let (r, may, same, found, sent) = revoke_needs now id issuer_did l row h in
      let marked : row.status ≡ CredentialStatus.revoked = ap (λ (c : Credential). c.status) same in
      let its_id : remove_first "urn:uuid:" vc.body.id ≡ id =
        ap (remove_first "urn:uuid:") named ∙ remove_first-append "u" "rn:uuid:" id in
      let l' = (revoke_credential p js crypto relations now id issuer_did l).1 in
      (
        revoked_verdict now' vc l'.db row
            (ap (λ (k : String). p.credentials.find k l'.db.credentials) its_id ∙ found) marked,
        revoked_refused now' id issuer_did l' row may.issuer found
            (ap (λ (c : Credential). relations.issuer_of c.issuer_id l'.db.issuers) same
              ∙ ap (relations.issuer_of r.issuer_id) (revoke-issuers now id issuer_did l)
              ∙ may.linked)
            may.asks marked,
      )
