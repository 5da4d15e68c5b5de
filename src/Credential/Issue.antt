-- ===== src/Credential/Issue.antt =====
-- What a credential that has been issued is good for: its subject gets it back as it was issued,
-- and it verifies.
use Prim.Native.String.{◌++◌}
use stprivy.Common.{
  ℕ, ◌≤◌, ◌≡◌, refl, ap, ◌∙◌, String, true, false, Option, none, some, ◌∷◌, arith, eq_refl, inl,
  inr,
}
use stprivy.Common.Tests.{Option-cases, if◌then◌else◌}
use stprivy.Common.Exec.{ok, err}
use stprivy.Common.Table.{unique_violation}
use stprivy.Common.Js.{Js}
use stprivy.Domain.{KycClaims, Credential, CredentialStatus, Issuer, DomainEvent, EventName}
use stprivy.Domain.Db.{Prisma, Db}
use stprivy.Credential.Texts.{address_of_key, remove_first, remove_first-append, HasNoHash}
use stprivy.Credential.{
  Vc, Verdict, Crypto, Relations, build_vc_body, sign_vc, record_to_vc, compute_credential_hash,
  verify_vc_signature, issue_credential, get_credential, verify_credential, is_past,
}

module _ (p : Prisma) (js : Js) (crypto : Crypto) (key : crypto.Key) (uuid : String) (now : ℕ)
    (issuer_did subject_did : String) (claims : KycClaims) (expires_at : Option ℕ) (s : Db p) where
  abbrev pub issued_vc : Vc
  issued_vc =
      let body =
        build_vc_body js ("urn:uuid:" ++ uuid) issuer_did subject_did claims now expires_at in
      record { body = body; proof = sign_vc js crypto body key now }

  abbrev pub issued_row : Issuer → Credential
  issued_row issuer = record {
    id = uuid;
    issuer_id = issuer.id;
    subject_did = subject_did;
    type = issued_vc.body.type;
    claims = claims;
    proof = issued_vc.proof;
    credential_hash = compute_credential_hash js crypto claims issuer_did subject_did now;
    issued_at = now;
    expires_at = expires_at;
    status = CredentialStatus.active;
    on_chain_tx_hash = none;
  }

  abbrev issued_event : DomainEvent
  issued_event = record {
    name = EventName.credential_issued;
    actor_did = issuer_did;
    subject_did = some subject_did;
    resource_id = uuid;
    timestamp = now;
  }

  pub record MayIssue (issuer : Issuer) : Type 0 where
    pub registered : p.issuers.find issuer_did s.issuers ≡ some issuer
    pub active : issuer.active ≡ true
    pub fresh : p.credentials.find uuid s.credentials ≡ none
    pub unique :
        p.credential_by_hash
          (compute_credential_hash js crypto claims issuer_did subject_did now)
          s.credentials
        ≡ none

  abbrev pub issued_db : Issuer → Db p
  issued_db issuer = record s {
    credentials = p.credentials.put uuid (issued_row issuer) s.credentials;
    events = issued_event ∷ s.events;
  }

  pub issue_lem :
      (issuer : Issuer)
      → MayIssue issuer
      → issue_credential p js crypto key uuid now issuer_did subject_did claims expires_at s
        ≡ (ok issued_vc, issued_db issuer)
  unfolding issue_credential build_vc_body sign_vc compute_credential_hash
  issue_lem issuer m =
      rw (remove_first-append, m.registered, m.active, m.unique, p.credentials.create_lem, m.fresh)
        refl

  -- A credential is issued only for an issuer whose row is in the database and active, under an id
  -- that is free, where no credential has its hash.
  pub issue_needs :
      (vc : Vc)
      → (issue_credential p js crypto key uuid now issuer_did subject_did claims expires_at s).0
        ≡ ok vc
      → (issuer : Issuer) × MayIssue issuer
  unfolding issue_credential build_vc_body sign_vc compute_credential_hash
  issue_needs vc h = elim (Option-cases (p.issuers.find issuer_did s.issuers)) [
    | inl e ↦ ground (arith, e, h)
    | inr (issuer, e) ↦ (
      issuer,
      ground (
        arith,
        e,
        h,
        p.credentials.create_lem uuid (issued_row issuer) s.credentials,
        remove_first-append "u" "rn:uuid:" uuid,
      ),
    )
  ]

  -- Where a credential has the hash already, the same claims for the same subject at the same time,
  -- an issuance fails and writes nothing.
  pub issue_taken :
      (issuer : Issuer) (old : Credential)
      → p.issuers.find issuer_did s.issuers ≡ some issuer
      → issuer.active ≡ true
      → p.credential_by_hash
          (compute_credential_hash js crypto claims issuer_did subject_did now)
          s.credentials
        ≡ some old
      → issue_credential p js crypto key uuid now issuer_did subject_did claims expires_at s
        ≡ (err unique_violation, s)
  unfolding issue_credential build_vc_body sign_vc compute_credential_hash
  issue_taken issuer old registered active taken = rw (registered, active, taken) refl

  module _ (relations : Relations p) (issuer : Issuer) (m : MayIssue issuer) where
    -- The subject who fetches a credential that has just been issued gets it exactly as it was
    -- issued, proof included, where its issuer's row is found under its id and has the issuer's DID.
    pub issue_get :
        relations.issuer_of issuer.id s.issuers ≡ some issuer
        → issuer.did ≡ issuer_did
        → let (r, s') =
            issue_credential p js crypto key uuid now issuer_did subject_did claims expires_at s in
          get_credential p js crypto relations uuid subject_did s' ≡ (r, s')
    unfolding get_credential record_to_vc build_vc_body
    issue_get linked same =
        rw
          (
            issue_lem issuer m,
            p.credentials.find-put,
            eq_refl uuid,
            linked,
            eq_refl subject_did,
            same,
          )
          refl

    issued_id : remove_first "urn:uuid:" issued_vc.body.id ≡ uuid
    unfolding build_vc_body
    issued_id = remove_first-append "u" "rn:uuid:" uuid

    issued_signature :
        (address : String)
        → issuer_did ≡ "did:stellar:" ++ address
        → HasNoHash address
        → verify_vc_signature crypto issued_vc
          ≡ crypto.verify address
              (crypto.stringify issued_vc.body)
              (crypto.sign key (crypto.stringify issued_vc.body))
    unfolding verify_vc_signature sign_vc
    issued_signature address named plain =
        ap
          (λ a.
            crypto.verify a (crypto.stringify issued_vc.body)
              (crypto.sign key (crypto.stringify issued_vc.body)))
          (unfold build_vc_body in (rw named (address_of_key address plain)))

    not_past :
        (now' : ℕ)
        → ((t : ℕ) → expires_at ≡ some t → now' ≤ t)
        → is_past p js crypto relations now' issued_vc.body.expiration_date ≡ false
    unfolding build_vc_body
    not_past now' in_time = elim (Option-cases expires_at) [
      | inl e ↦ rw e refl
      | inr (t, e) ↦ rw (e, js.parse_date-iso t) (ground (arith, in_time t e))
    ]

    issue_verdict :
        (now' : ℕ) (address : String)
        → issuer_did ≡ "did:stellar:" ++ address
        → HasNoHash address
        → ((t : ℕ) → expires_at ≡ some t → now' ≤ t)
        → relations.has_revocation uuid (issued_db issuer) ≡ false
        → relations.on_chain (issued_row issuer).credential_hash ≡ false
        → verify_credential p js crypto relations now' issued_vc (issued_db issuer) ≡ (
            if crypto.verify address
              (crypto.stringify issued_vc.body)
              (crypto.sign key (crypto.stringify issued_vc.body))
            then Verdict.valid
            else Verdict.invalid_signature)
    unfolding verify_credential
    issue_verdict now' address named plain in_time kept free =
        rw (not_past now' in_time, issued_signature address named plain)
          (rw (issued_id, p.credentials.find-put, eq_refl uuid, kept, free) (ground arith))

    -- A credential that the server has just issued in the name of its own key verifies as valid,
    -- until it expires, where no revocation of it is on record.
    pub issue_verifies :
        (now' : ℕ)
        → issuer_did ≡ "did:stellar:" ++ crypto.public_key key
        → ((t : ℕ) → expires_at ≡ some t → now' ≤ t)
        → relations.has_revocation uuid (issued_db issuer) ≡ false
        → relations.on_chain (issued_row issuer).credential_hash ≡ false
        → verify_credential p js crypto relations now' issued_vc
            (issue_credential p js crypto key uuid now issuer_did subject_did claims expires_at s).1
          ≡ Verdict.valid
    issue_verifies now' named in_time kept free = rw (issue_lem issuer m) (
        issue_verdict now' (crypto.public_key key) named (crypto.public_key-HasNoHash key) in_time
          kept free
        ∙ rw (crypto.verify-sign key (crypto.stringify issued_vc.body)) refl)

    -- A credential that has just been issued in the name of another address, whose key does not
    -- accept the server's signature, is rejected for its signature before it expires.
    pub foreign_issuer_invalid :
        (now' : ℕ) (address : String)
        → issuer_did ≡ "did:stellar:" ++ address
        → HasNoHash address
        → crypto.verify address
            (crypto.stringify issued_vc.body)
            (crypto.sign key (crypto.stringify issued_vc.body))
          ≡ false
        → ((t : ℕ) → expires_at ≡ some t → now' ≤ t)
        → verify_credential p js crypto relations now' issued_vc
            (issue_credential p js crypto key uuid now issuer_did subject_did claims expires_at s).1
          ≡ Verdict.invalid_signature
    unfolding verify_credential
    foreign_issuer_invalid now' address named plain other in_time =
        rw (issue_lem issuer m, not_past now' in_time, issued_signature address named plain, other)
          refl
