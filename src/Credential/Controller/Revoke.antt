-- ===== src/Credential/Controller/Revoke.antt =====
-- The answers of the route that revokes a credential, and what a deactivated issuer cannot do.
use Prim.Native.String.{◌++◌}
use text.Mathlib.TextLemmas.{cons-append, nil-append}
use stprivy.Common.{
  ℕ, ◌≡◌, ◌≢◌, refl, ap, String, true, Option, none, some, ◌∷◌, ◌==◌, ◌⊎◌, inl, inr, arith, eq_iff,
  eq_refl,
}
use stprivy.Common.Tests.{Option-cases, Bool-cases}
use stprivy.Common.Exec.{Error, ok, err, bad_request, throws}
use stprivy.Common.Js.{Js}
use stprivy.Domain.{KycClaims, Issuer, Credential, CredentialStatus}
use stprivy.Domain.Db.{Prisma}
use stprivy.Did.{did_of}
use stprivy.Registry.Issuers.{IssuerIndex, Office, deactivate, deactivated}
use stprivy.Credential.{
  Crypto, Relations, Ledger, with_issuer, no_such_credential, not_the_issuer, already_revoked,
  mark_revoked, issue_credential, inactive_issuer, revoke_credential,
}
use stprivy.Credential.Texts.{after_prefix, includes}
use stprivy.Credential.Controller.{mapped, revoke}

includes-append :
    (pattern x text : String) → includes pattern text ≡ true → includes pattern (x ++ text) ≡ true
unfolding includes
includes-append pattern String.[] text h = rw nil-append h
includes-append pattern (String.◌∷◌ c x) text h =
    rw cons-append (ground (arith, includes-append pattern x text h))

missing_includes : (id : String) → includes "not found" (no_such_credential id).message ≡ true
missing_includes id =
    includes-append "not found" "Credential " (id ++ " not found")
      (includes-append "not found" id " not found" (unfold includes after_prefix in refl))

-- the answer of the route, where the credential was not revoked
abbrev pub bad_already : Error
bad_already = throws bad_request "Credential is already revoked"

module _ (p : Prisma) (js : Js) (crypto : Crypto) (relations : Relations p) where
  mapped_missing :
      (id : String) → mapped p js crypto relations (no_such_credential id) ≡ no_such_credential id
  mapped_missing id = rw (missing_includes id) refl

  mapped_foreign : mapped p js crypto relations not_the_issuer ≡ not_the_issuer
  mapped_foreign = unfold includes after_prefix in refl

  mapped_already : mapped p js crypto relations already_revoked ≡ bad_already
  mapped_already = unfold includes after_prefix in refl

  abbrev joined_with : Credential → Option Issuer → Option (Credential × Issuer)
  joined_with r none = none
  joined_with r (some i) = some (r, i)

  -- A revocation that is refused is refused for one of three reasons, and never as a failure of the
  -- server: there is no such credential, which is not found; the caller is not its issuer, which is
  -- forbidden; or it is revoked already, which is a bad request.
  pub revoke-refused :
      (now : ℕ) (id address : String) (l : Ledger p js crypto relations) (e : Error)
      → (revoke p js crypto relations now id address l).0 ≡ err e
      → ((with_issuer p js crypto relations id l.db ≡ none) × (e ≡ no_such_credential id))
        ⊎ ((r : Credential) × (i : Issuer) × (with_issuer p js crypto relations id l.db
              ≡ some (r, i))
            × (((i.did ≢ did_of address) × (e ≡ not_the_issuer))
                ⊎ ((i.did ≡ did_of address)
                    × (r.status ≡ CredentialStatus.revoked)
                    × (e ≡ bad_already))))
  unfolding revoke revoke_credential
  revoke-refused now id address l e h =
      elim (Option-cases (p.credentials.find id l.db.credentials)) [
        | inl a ↦ inl (rw a refl, ground (arith, a, h, mapped_missing id))
        | inr (r, a) ↦ elim (Option-cases (relations.issuer_of r.issuer_id l.db.issuers)) [
          | inl b ↦ inl (rw a (ap (joined_with r) b), ground (arith, a, b, h, mapped_missing id))
          | inr (i, b) ↦ inr (
            r,
            i,
            rw a (ap (joined_with r) b),
            elim (Bool-cases (i.did == did_of address)) [
              | inr other ↦ inl (
                ground (arith, other, eq_iff i.did (did_of address)),
                ground (arith, a, b, h, other, mapped_foreign),
              )
              | inl same ↦ inr (
                (eq_iff i.did (did_of address)).0 same,
                ground (
                  arith,
                  a,
                  b,
                  h,
                  same,
                  p.credentials.update_lem id (mark_revoked p js crypto relations) l.db.credentials,
                ),
                ground (
                  arith,
                  a,
                  b,
                  h,
                  same,
                  mapped_already,
                  p.credentials.update_lem id (mark_revoked p js crypto relations) l.db.credentials,
                ),
              )
            ],
          )
        ]
      ]

module _ (p : Prisma) (js : Js) (crypto : Crypto) (issuers : IssuerIndex p) where
  deactivate_lem :
      (id : String) (o : Office p issuers) (issuer old : Issuer)
      → issuers.by_id id o.db.issuers ≡ some issuer
      → p.issuers.find issuer.did o.db.issuers ≡ some old
      → deactivate p issuers id o ≡ (
        ok (deactivated old),
        record {
          db = record (o.db) { issuers = p.issuers.put issuer.did (deactivated old) o.db.issuers };
          removed = issuer.stellar_address ∷ o.removed;
        },
      )
  unfolding deactivate
  deactivate_lem id o issuer old found e = rw (found, p.issuers.update_lem, e) refl

  -- Once an issuer is deactivated, at anyone's request, the service issues no credential in the name
  -- of its DID, and the removal of its address from the chain's registry has been started.
  pub deactivate-issue_credential :
      (id : String) (o : Office p issuers) (row issuer : Issuer) (key : crypto.Key) (uuid : String)
      (now : ℕ) (subject_did : String) (claims : KycClaims) (expires_at : Option ℕ)
      → issuers.by_id id o.db.issuers ≡ some issuer
      → (deactivate p issuers id o).0 ≡ ok row
      → let o' = (deactivate p issuers id o).1 in
        (issue_credential p js crypto key uuid now issuer.did subject_did claims expires_at o'.db
          ≡ (err inactive_issuer, o'.db))
        × (o'.removed ≡ issuer.stellar_address ∷ o.removed)
  unfolding deactivate issue_credential
  deactivate-issue_credential id o row issuer key uuid now subject_did claims expires_at found
        done =
      elim (Option-cases (p.issuers.find issuer.did o.db.issuers)) [
        | inl e ↦ absurd (
            ground
              (arith, found, e, done, p.issuers.update_lem issuer.did deactivated o.db.issuers))
        | inr (old, e) ↦
            rw (deactivate_lem id o issuer old found e)
              (rw (p.issuers.find-put, eq_refl issuer.did) refl, refl)
      ]
