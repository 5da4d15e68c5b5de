-- ===== src/Credential.antt =====
-- apps/server/src/modules/credentials/credential.service.ts: verifiable credentials are issued,
-- fetched, verified and revoked. Keys, signatures, SHA-256, `JSON.stringify` and the registries
-- on the chain are parameters.
pub mod Lists
pub mod Dto
pub mod Texts
pub mod Issue
pub mod Revoke
pub mod Controller
use Prim.Native.String.{◌++◌}
use stprivy.Common.{
  ℕ, String, Bool, true, false, not, ◌||◌, Option, none, some, List, [], ◌∷◌, ◌==◌, ◌≡◌,
}
use stprivy.Common.Tests.{ltb, if◌then◌else◌}
use stprivy.Common.Exec.{
  Exec, Error, Result, ok, err, forbidden, not_found, failure, throws, require, throw_if, gets,
  modify, pure, ◌>>=◌, ◌>>◌,
}
use stprivy.Common.Js.{Js}
use stprivy.Domain.{KycClaims, VcProof, Credential, CredentialStatus, Issuer, EventName}
use stprivy.Domain.Db.{Prisma, Db, create_credential, update_credential, emit}
use stprivy.Credential.Texts.{remove_first, before_hash, HasNoHash}

-- a `VerifiableCredential` without its proof; the claims stand beside the subject's id
pub record VcBody : Type 0 where
  pub context : List String
  pub id : String
  pub type : List String
  pub issuer : String
  pub issuance_date : String
  pub expiration_date : Option String
  pub subject : String
  pub claims : KycClaims

pub record Vc : Type 0 where
  pub body : VcBody
  pub proof : VcProof

-- `VerificationResult`
pub data Verdict : Type 0 where
  valid invalid_signature revoked expired : Verdict

-- Stellar's keys and signatures as texts. `verify` is false also where a key is malformed. An
-- address is base32 text, which has no `#`, and the empty text is no address.
pub record Crypto : Type 1 where
  pub Key : Type 0
  pub public_key : Key → String
  pub sign : Key → (message : String) → String
  pub verify : (public_key message signature : String) → Bool
  pub sha256 : String → String
  pub stringify : VcBody → String
  -- the payload of the hash: the claims in the order of their names
  pub stringify_hashed :
      (accredited : Bool) (age : ℕ) (country issued_at issuer_did subject_did : String) → String
  pub verify-sign : (k : Key) (m : String) → verify (public_key k) m (sign k m) ≡ true
  pub public_key-HasNoHash : (k : Key) → HasNoHash (public_key k)

abbrev pub is_revoked_status : CredentialStatus → Bool
is_revoked_status CredentialStatus.revoked = true
is_revoked_status _ = false

abbrev pub inactive_issuer : Error
inactive_issuer = throws forbidden "Issuer is not registered or inactive"

abbrev pub no_such_credential : String → Error
no_such_credential id = throws not_found ("Credential " ++ id ++ " not found")

abbrev pub access_denied : Error
access_denied = throws forbidden "Access denied"

abbrev pub not_the_issuer : Error
not_the_issuer = throws forbidden "Only the issuer can revoke this credential"

abbrev pub already_revoked : Error
already_revoked = throws failure "Credential is already revoked"

abbrev pub vc_context : List String
vc_context =
    "https://www.w3.org/2018/credentials/v1" ∷ "https://w3id.org/security/suites/ed25519-2020/v1"
    ∷ []

-- the issuer's row, unless `!issuerRecord || !issuerRecord.active`
abbrev pub active_only : Option Issuer → Option Issuer
active_only none = none
active_only (some r) = if r.active then some r else none

module _ (js : Js) where
  unfoldable pub build_vc_body :
      (id issuer_did subject_did : String) → KycClaims → (issued_at : ℕ) → Option ℕ → VcBody
  build_vc_body id issuer_did subject_did claims issued_at expires_at = record {
    context = vc_context;
    id = id;
    type = "VerifiableCredential" ∷ "KYCCredential" ∷ [];
    issuer = issuer_did;
    issuance_date = js.iso issued_at;
    expiration_date = elim expires_at [ none ↦ none | some t ↦ some (js.iso t) ];
    subject = subject_did;
    claims = claims;
  }

  -- `recordToVC`, of a row and its issuer
  unfoldable pub record_to_vc : Credential × Issuer → Vc
  record_to_vc (r, issuer) = record {
    body = record {
      context = vc_context;
      id = "urn:uuid:" ++ r.id;
      type = r.type;
      issuer = issuer.did;
      issuance_date = js.iso r.issued_at;
      expiration_date = elim r.expires_at [ none ↦ none | some t ↦ some (js.iso t) ];
      subject = r.subject_did;
      claims = r.claims;
    };
    proof = r.proof;
  }

  module _ (crypto : Crypto) where
    unfoldable pub compute_credential_hash :
        KycClaims → (issuer_did subject_did : String) → (issued_at : ℕ) → String
    compute_credential_hash claims issuer_did subject_did issued_at = crypto.sha256 (
        crypto.stringify_hashed claims.accredited claims.age claims.country (js.iso issued_at)
          issuer_did subject_did)

    unfoldable pub sign_vc : VcBody → crypto.Key → (created : ℕ) → VcProof
    sign_vc body key created = record {
      type = "Ed25519Signature2020";
      created = js.iso created;
      verification_method = body.issuer ++ "#key-1";
      proof_purpose = "assertionMethod";
      proof_value = crypto.sign key (crypto.stringify body);
    }

-- `verifyVCSignature`
unfoldable pub verify_vc_signature : Crypto → Vc → Bool
verify_vc_signature crypto vc =
    crypto.verify (remove_first "did:stellar:" (before_hash vc.proof.verification_method))
      (crypto.stringify vc.body) vc.proof.proof_value

-- `issuer_of` is the relation that `include: { issuer: true }` follows; a row's issuer is never
-- missing in the database. `has_revocation` says whether the relation `revocation` has a row, and
-- `on_chain` is what the revocation registry answers for a hash, false where the call throws.
pub record Relations (p : Prisma) : Type 0 where
  pub issuer_of : (issuer_id : String) → p.issuers.Rows → Option Issuer
  pub has_revocation : (credential_id : String) → Db p → Bool
  pub on_chain : (credential_hash : String) → Bool

module _ (p : Prisma) (js : Js) (crypto : Crypto) where
  -- `issueCredential`; `key` is the server's key pair, `uuid` the new id and `now` the time. The
  -- on-chain check of the issuer is only logged.
  unfoldable pub issue_credential :
      (key : crypto.Key) (uuid : String) (now : ℕ) (issuer_did subject_did : String)
      → KycClaims
      → (expires_at : Option ℕ) → Exec (Db p) Vc
  issue_credential key uuid now issuer_did subject_did claims expires_at = do
    found ← gets (λ s. p.issuers.find issuer_did s.issuers)
    issuer ← require inactive_issuer (active_only found)
    let body = build_vc_body js ("urn:uuid:" ++ uuid) issuer_did subject_did claims now expires_at
    let proof = sign_vc js crypto body key now
    row ← create_credential p (remove_first "urn:uuid:" body.id) (record {
      id = remove_first "urn:uuid:" body.id;
      issuer_id = issuer.id;
      subject_did = subject_did;
      type = body.type;
      claims = claims;
      proof = proof;
      credential_hash = compute_credential_hash js crypto claims issuer_did subject_did now;
      issued_at = now;
      expires_at = expires_at;
      status = CredentialStatus.active;
      on_chain_tx_hash = none;
    })
    emit p (record {
      name = EventName.credential_issued;
      actor_did = issuer_did;
      subject_did = some subject_did;
      resource_id = row.id;
      timestamp = now;
    })
    pure (record { body = body; proof = proof })

  module _ (relations : Relations p) where
    -- the row with its issuer
    abbrev pub joined : Option Credential → Db p → Option (Credential × Issuer)
    joined none s = none
    joined (some r) s = elim (relations.issuer_of r.issuer_id s.issuers) [
      | none ↦ none
      | some issuer ↦ some (r, issuer)
    ]

    abbrev pub with_issuer : (id : String) → Db p → Option (Credential × Issuer)
    with_issuer id s = joined (p.credentials.find id s.credentials) s

    -- `getCredential`
    unfoldable pub get_credential : (id requester_did : String) → Exec (Db p) Vc
    get_credential id requester_did = do
      found ← gets (with_issuer id)
      row ← require (no_such_credential id) found
      throw_if (not (row.0.subject_did == requester_did || row.1.did == requester_did))
          access_denied
      pure (record_to_vc js row)

    -- the test of the expiration date; an invalid date is before no other
    abbrev pub is_past : (now : ℕ) → Option String → Bool
    is_past now none = false
    is_past now (some date) =
        if date == ""
        then false
        else elim (js.parse_date date) [ none ↦ false | some t ↦ ltb t now ]

    -- steps 3 and 4 of `verifyCredential`
    abbrev pub revocation_verdict : Option Credential → Bool → Verdict
    revocation_verdict none revocation = valid
    revocation_verdict (some r) revocation =
        if is_revoked_status r.status || revocation
        then revoked
        else if r.credential_hash == ""
        then valid
        else if relations.on_chain r.credential_hash
        then revoked
        else valid

    -- `verifyCredential`
    unfoldable pub verify_credential : (now : ℕ) → Vc → Db p → Verdict
    verify_credential now vc s =
        if is_past now vc.body.expiration_date
        then expired
        else if verify_vc_signature crypto vc
        then (let id = remove_first "urn:uuid:" vc.body.id in
            revocation_verdict (p.credentials.find id s.credentials)
              (relations.has_revocation id s))
        else invalid_signature

    -- The database, and the hashes for which `revoke_credential` of the registry was called, the
    -- latest first. Whether that call succeeds is only logged.
    pub record Ledger : Type 0 where
      pub db : Db p
      pub submitted : List String

    module _ {A : Type 0} where
      abbrev on_db : Exec (Db p) A → Exec Ledger A
      on_db m l = let (r, s) = m l.db in (r, record l { db = s })

    abbrev pub mark_revoked : Credential → Credential
    mark_revoked r = record r { status = CredentialStatus.revoked }

    -- `revokeCredential`
    unfoldable pub revoke_credential : (now : ℕ) (id issuer_did : String) → Exec Ledger Credential
    revoke_credential now id issuer_did = do
      found ← gets (λ l. with_issuer id l.db)
      row ← require (no_such_credential id) found
      throw_if (not (row.1.did == issuer_did)) not_the_issuer
      throw_if (is_revoked_status row.0.status) already_revoked
      updated ← on_db (update_credential p id mark_revoked)
      modify (λ l. record l { submitted = row.0.credential_hash ∷ l.submitted })
      on_db (
          emit p (record {
            name = EventName.credential_revoked;
            actor_did = issuer_did;
            subject_did = none;
            resource_id = id;
            timestamp = now;
          }))
      pure updated
