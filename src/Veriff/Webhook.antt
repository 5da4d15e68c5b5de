-- ===== src/Veriff/Webhook.antt =====
-- What Veriff's webhook changes.
use Prim.Native.String.{◌++◌}
use stprivy.Common.{
  ℕ, ◌≡◌, ◌≢◌, refl, ap, String, Option, none, some, ◌==◌, arith, eq_refl, inl, inr, ◌⊎◌,
}
use stprivy.Common.Texts.{text-neq}
use stprivy.Common.Tests.{Option-cases}
use stprivy.Common.Exec.{ok, err}
use stprivy.Common.Js.{Js}
use stprivy.Domain.{KycClaims, Did, Issuer, Credential, VeriffSession}
use stprivy.Domain.Db.{Prisma, Db}
use stprivy.Did.{did_of}
use stprivy.Registry.Issuers.{IssuerIndex, Indexed, upserted, upserted-active, upsert_issuer_lem}
use stprivy.Credential.{Crypto, build_vc_body, compute_credential_hash}
use stprivy.Credential.Texts.{remove_first, remove_first-append}
use stprivy.Credential.Issue.{MayIssue, issued_row, issued_db, issue_lem}
use stprivy.Veriff.{
  check_signature, Config, Day, WebhookPayload, status_of, claims_of, attach, mark,
  invalid_signature, issue_credential_from_veriff, handle_webhook,
}

credential_id :
    (js : Js) (uuid issuer_did subject_did : String) (claims : KycClaims) (now : ℕ)
    (expires_at : Option ℕ)
    → remove_first "urn:uuid:"
        (build_vc_body js ("urn:uuid:" ++ uuid) issuer_did subject_did claims now expires_at).id
      ≡ uuid
unfolding build_vc_body
credential_id js uuid issuer_did subject_did claims now expires_at =
    remove_first-append "u" "rn:uuid:" uuid

module _ (p : Prisma) (js : Js) (crypto : Crypto) (issuers : IssuerIndex p) (config : Config crypto)
    (uuid issuer_id : String) (now : ℕ) (today : Day) (payload : WebhookPayload)
    (signature raw_body : String) (s : Db p) where
  abbrev Signed : Type 0
  Signed = (config.api_secret ≡ "") ⊎ (signature ≡ config.hmac config.api_secret raw_body)

  signed_passes :
      Signed → check_signature p js crypto issuers config signature raw_body s ≡ (ok tt, s)
  signed_passes (inl e) = rw e refl
  signed_passes (inr e) = rw (e, eq_refl (config.hmac config.api_secret raw_body)) (ground arith)

  -- A call that is not signed with the configured secret is refused and changes nothing.
  pub handle_webhook-forged :
      config.api_secret ≢ ""
      → signature ≢ config.hmac config.api_secret raw_body
      → handle_webhook p js crypto issuers config uuid issuer_id now today payload signature
          raw_body s
        ≡ (err invalid_signature, s)
  unfolding handle_webhook
  handle_webhook-forged secret forged = rw (text-neq _ _ secret, text-neq _ _ forged) refl

  -- A decision other than an approval changes the status of its session, and nothing else; one
  -- about an unknown session changes nothing.
  pub handle_webhook-other :
      Signed
      → status_of payload ≢ "approved"
      → handle_webhook p js crypto issuers config uuid issuer_id now today payload signature
          raw_body s
        ≡ (
          ok tt,
          elim (p.sessions.find payload.id s.sessions) [
            | none ↦ s
            | some r ↦ record s {
              sessions =
                  p.sessions.put payload.id
                    (mark p js crypto issuers config (status_of payload) r)
                    s.sessions;
            }
          ],
        )
  unfolding handle_webhook
  handle_webhook-other signed other =
      rw (signed_passes signed) (elim (Option-cases (p.sessions.find payload.id s.sessions)) [
        | inl e ↦ rw e refl
        | inr (r, e) ↦ rw (e, p.sessions.update_lem, e, text-neq _ _ other) refl
      ])

  abbrev marked : VeriffSession → Db p
  marked r = record s {
    sessions =
        p.sessions.put payload.id (mark p js crypto issuers config (status_of payload) r)
          s.sessions;
  }

  abbrev pub prepared : VeriffSession → Db p
  prepared r =
      let a = crypto.public_key config.key in
      record (marked r) {
        issuers =
            p.issuers.put (did_of a) (upserted issuer_id a (p.issuers.find (did_of a) s.issuers))
              s.issuers;
      }

  abbrev pub issuer : Issuer
  issuer =
      let a = crypto.public_key config.key in
      upserted issuer_id a (p.issuers.find (did_of a) s.issuers)

  abbrev pub credential : VeriffSession → Did → Credential
  credential r did =
      issued_row p js crypto config.key uuid now (did_of (crypto.public_key config.key)) did.id
        (claims_of config payload today) none (prepared r) issuer

  abbrev pub after_approval : VeriffSession → Did → Db p
  after_approval r did =
      record (issued_db p js crypto config.key uuid now (did_of (crypto.public_key config.key))
        did.id (claims_of config payload today) none (prepared r) issuer) {
          sessions =
              p.sessions.put payload.id
                (attach p js crypto issuers config uuid
                  (mark p js crypto issuers config (status_of payload) r))
                (marked r).sessions;
        }

  -- the hash of the approval's credential
  abbrev pub hash_for : Did → String
  hash_for did =
      compute_credential_hash js crypto (claims_of config payload today)
        (did_of (crypto.public_key config.key)) did.id now

  may_issue :
      (r : VeriffSession) (did : Did)
      → p.credentials.find uuid s.credentials ≡ none
      → p.credential_by_hash (hash_for did) s.credentials ≡ none
      → MayIssue p js crypto config.key uuid now
          (did_of (crypto.public_key config.key))
          did.id
          (claims_of config payload today)
          none
          (prepared r)
          issuer
  may_issue r did fresh unique =
      let a = crypto.public_key config.key in
      record {
        registered = rw (p.issuers.find-put, eq_refl (did_of a)) refl;
        active = upserted-active issuer_id a (p.issuers.find (did_of a) s.issuers);
        fresh = fresh;
        unique = unique;
      }

  issue_from_veriff_lem :
      (r : VeriffSession) (did : Did)
      → p.dids.find r.user_id s.dids ≡ some did
      → Indexed p issuers s.issuers
      → p.credentials.find uuid s.credentials ≡ none
      → p.credential_by_hash (hash_for did) s.credentials ≡ none
      → issue_credential_from_veriff p js crypto issuers config uuid issuer_id now today r.user_id
          payload.id payload
          (marked r)
        ≡ (ok tt, after_approval r did)
  unfolding issue_credential_from_veriff
  issue_from_veriff_lem r did identity good fresh unique =
      rw
        (
          identity,
          upsert_issuer_lem p issuers issuer_id (crypto.public_key config.key) (marked r) good,
        )
        (rw
          (issue_lem p js crypto config.key uuid now _ did.id (claims_of config payload today) none
            (prepared r) issuer (may_issue r did fresh unique))
          (rw
            (
              credential_id js uuid _ did.id _ now none,
              p.sessions.update_lem,
              p.sessions.find-put,
              eq_refl payload.id,
            )
            refl))

  -- A signed approval of a session whose user has a DID, with a free id and a hash that no
  -- credential has, issues the claims as a credential in the name of the platform's DID, whose row is made or set active, and links it to
  -- the session, whose status is the payload's; nothing else is written but the event.
  pub handle_webhook-approved :
      (r : VeriffSession) (did : Did)
      → Signed
      → status_of payload ≡ "approved"
      → p.sessions.find payload.id s.sessions ≡ some r
      → p.dids.find r.user_id s.dids ≡ some did
      → Indexed p issuers s.issuers
      → p.credentials.find uuid s.credentials ≡ none
      → p.credential_by_hash (hash_for did) s.credentials ≡ none
      → handle_webhook p js crypto issuers config uuid issuer_id now today payload signature
          raw_body s
        ≡ (ok tt, after_approval r did)
  unfolding handle_webhook
  handle_webhook-approved r did signed approved asked identity good fresh unique =
      rw (signed_passes signed, asked, p.sessions.update_lem, asked)
        (rw (ap (λ t. t == "approved") approved)
          (rw (issue_from_veriff_lem r did identity good fresh unique) refl))
