-- ===== src/Credential/Lists.antt =====
-- The lists that credential.controller.ts answers with, of credential.service.ts's queries.
use mathlib.Core.List.{Memᴰ}
use stprivy.Common.{◌≡◌, ◌↔◌, String, Option, none, some, List, [], ◌==◌, eq_iff}
use stprivy.Domain.{Did, Issuer, Credential}
use stprivy.Domain.Db.{Prisma, Db}
use stprivy.Domain.Queries.{Queries}
use stprivy.Did.{did_of}
use stprivy.Proof.Lists.{rows_for, rows_for-Memᴰ}

module _ (p : Prisma) (q : Queries p) where
  -- `listBySubject` and `listByIssuer` of the service
  abbrev pub list_by_subject : (subject_did : String) → Db p → List Credential
  list_by_subject subject_did s =
      q.credentials.find_many (λ c. c.subject_did == subject_did) s.credentials

  abbrev by_issuer : Option Issuer → Db p → List Credential
  by_issuer none s = []
  by_issuer (some issuer) s = q.credentials.find_many (λ c. c.issuer_id == issuer.id) s.credentials

  unfoldable pub list_by_issuer : (issuer_did : String) → Db p → List Credential
  list_by_issuer issuer_did s = by_issuer (p.issuers.find issuer_did s.issuers) s

  -- `myCredentials` and `issuedCredentials`
  unfoldable pub my_credentials : (user_id : String) → Db p → List Credential
  my_credentials user_id s = rows_for (λ did. list_by_subject did.id s) (p.dids.find user_id s.dids)

  unfoldable pub issued_credentials : (address : String) → Db p → List Credential
  issued_credentials address s = list_by_issuer (did_of address) s

  -- a listed credential is of the user's DID, and stored
  pub my_credentials-Memᴰ :
      (user_id : String) (c : Credential) (s : Db p)
      → Memᴰ c (my_credentials user_id s) ↔ (
          (did : Did) × (p.dids.find user_id s.dids ≡ some did)
          × (c.subject_did ≡ did.id)
          × ((k : String) × (p.credentials.find k s.credentials ≡ some c)))
  unfolding my_credentials
  my_credentials-Memᴰ user_id c s =
      let mine = rows_for-Memᴰ (λ did. list_by_subject did.id s) (p.dids.find user_id s.dids) c in
      (
        λ m.
            let (did, e, n) = mine.0 m in
            let (there, same) =
              (q.credentials.find_many-Memᴰ (λ x. x.subject_did == did.id) c s.credentials).0 n in
            (did, e, (eq_iff c.subject_did did.id).0 same, there),
        λ (did, e, same, there). mine.1 (
          did,
          e,
          (q.credentials.find_many-Memᴰ (λ x. x.subject_did == did.id) c s.credentials).1
              (there, (eq_iff c.subject_did did.id).1 same),
        ),
      )
