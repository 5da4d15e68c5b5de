-- ===== src/Veriff/Repeated.antt =====
-- What a decision of Veriff does that is delivered more than once.
use stprivy.Common.{ℕ, ◌≡◌, ◌≢◌, refl, sym, String, false, none, some, ◌==◌, eq_refl, ◌⊎◌}
use stprivy.Common.Texts.{text-neq}
use stprivy.Common.Js.{Js}
use stprivy.Domain.{CredentialStatus, Did, Credential, VeriffSession}
use stprivy.Domain.Db.{Prisma, Db}
use stprivy.Did.{did_of}
use stprivy.Registry.Issuers.{IssuerIndex, Indexed, upserted, upserted-named, put-Indexed}
use stprivy.Credential.{Crypto}
use stprivy.Veriff.{Config, Day, WebhookPayload, status_of, claims_of, attach, mark, handle_webhook}
use stprivy.Veriff.Webhook.{after_approval, credential, hash_for, handle_webhook-approved}

module _ (p : Prisma) (js : Js) (crypto : Crypto) (issuers : IssuerIndex p) (config : Config crypto)
    (payload : WebhookPayload) (signature raw_body : String) (s : Db p) where
  prepared-Indexed :
      (issuer_id : String)
      → Indexed p issuers s.issuers
      → let a = crypto.public_key config.key in
        Indexed p issuers (
          p.issuers.put
            (did_of a)
            (upserted issuer_id a (p.issuers.find (did_of a) s.issuers))
            s.issuers)
  prepared-Indexed issuer_id good =
      let a = crypto.public_key config.key in
      let (named, at) = upserted-named p issuers issuer_id a s.issuers good in
      put-Indexed p issuers a _ s.issuers named at good

  -- The same signed approval, delivered a second time, issues the same claims to the same subject
  -- once more, under a second id, where both hashes are free and differ, as they do for deliveries
  -- at two times unless SHA-256 collides. The first credential stays as it was stored.
  pub handle_webhook-repeated :
      (uuid issuer_id : String) (now : ℕ) (today : Day) (uuid' issuer_id' : String) (now' : ℕ)
      (today' : Day) (r : VeriffSession) (did : Did)
      → (config.api_secret ≡ "") ⊎ (signature ≡ config.hmac config.api_secret raw_body)
      → status_of payload ≡ "approved"
      → p.sessions.find payload.id s.sessions ≡ some r
      → p.dids.find r.user_id s.dids ≡ some did
      → Indexed p issuers s.issuers
      → p.credentials.find uuid s.credentials ≡ none
      → p.credentials.find uuid' s.credentials ≡ none
      → uuid ≢ uuid'
      → let hash =
          hash_for p js crypto issuers config uuid issuer_id now today payload signature raw_body s
            did in
        let hash' =
          hash_for p js crypto issuers config uuid' issuer_id' now' today' payload signature
            raw_body s did in
        (p.credential_by_hash hash s.credentials ≡ none)
          × (p.credential_by_hash hash' s.credentials ≡ none)
          × (hash ≢ hash')
        → let s' =
            (handle_webhook p js crypto issuers config uuid issuer_id now today payload signature
              raw_body s).1 in
          let s'' =
            (handle_webhook p js crypto issuers config uuid' issuer_id' now' today' payload
              signature raw_body s').1 in
          (first : Credential) × (second : Credential) × (p.credentials.find uuid s'.credentials
            ≡ some first)
          × (p.credentials.find uuid s''.credentials ≡ some first)
          × (p.credentials.find uuid' s''.credentials ≡ some second)
          × (first.subject_did ≡ second.subject_did)
          × (first.claims ≡ claims_of config payload today)
          × (second.claims ≡ claims_of config payload today')
          × (first.status ≡ CredentialStatus.active)
          × (second.status ≡ CredentialStatus.active)
  handle_webhook-repeated uuid issuer_id now today uuid' issuer_id' now' today' r did signed
        approved asked identity good fresh fresh' differ (unique, unique', apart) =
      let other : (uuid == uuid') ≡ false = text-neq uuid uuid' differ in
      let back : (uuid' == uuid) ≡ false = text-neq uuid' uuid (λ e. differ (sym e)) in
      let s' =
        after_approval p js crypto issuers config uuid issuer_id now today payload signature
          raw_body s r did in
      let again =
        attach p js crypto issuers config uuid
          (mark p js crypto issuers config (status_of payload) r) in
      let first =
        credential p js crypto issuers config uuid issuer_id now today payload signature raw_body s
          r did in
      let second =
        credential p js crypto issuers config uuid' issuer_id' now' today' payload signature
          raw_body s' again did in
      rw
        (handle_webhook-approved p js crypto issuers config uuid issuer_id now today payload
          signature raw_body s r did signed approved asked identity good fresh unique)
        (rw
          (handle_webhook-approved p js crypto issuers config uuid' issuer_id' now' today' payload
            signature raw_body s' again did signed approved
            (rw (p.sessions.find-put, eq_refl payload.id) refl) identity
            (prepared-Indexed issuer_id good) (rw (p.credentials.find-put, other) fresh')
            (rw
              (
                p.credential_by_hash-put uuid _ first s.credentials fresh,
                text-neq first.credential_hash second.credential_hash apart,
              )
              unique'))
          (
            first,
            second,
            rw (p.credentials.find-put, eq_refl uuid) refl,
            rw (p.credentials.find-put, back, p.credentials.find-put, eq_refl uuid) refl,
            rw (p.credentials.find-put, eq_refl uuid') refl,
            refl,
            refl,
            refl,
            refl,
            refl,
          ))
