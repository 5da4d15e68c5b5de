-- ===== src/Web/Issue/Claims.antt =====
-- What becomes of the forms' values on the server.
use stprivy.Common.{
  ℕ, ◌≡◌, refl, ap, sym, subst, String, true, false, Option, none, some, ◌==◌, arith, eq_iff, inl,
  inr,
}
use stprivy.Common.Tests.{Bool-cases, leb}
use stprivy.Common.Exec.{ok}
use stprivy.Common.Js.{Js}
use stprivy.Domain.Db.{Prisma, Db}
use stprivy.Did.{DidIndex, did_of}
use stprivy.Registry.Issuers.{IssuerIndex, Indexed}
use stprivy.Credential.{Crypto, Vc, build_vc_body}
use stprivy.Credential.Issue.{issued_vc}
use stprivy.Credential.Controller.{Env, issuer_address, expiry}
use stprivy.Credential.Controller.SelfIssue.{
  HasIdentity, Unhashed, identity, prepared, self_issue-issues,
}
use stprivy.Credential.Dto.{
  Decorators, SelfIssueBody, body_claims, date_or_none, valid_issue, issue_route,
}
use stprivy.Web.CreateRequest.{or_undefined}
use stprivy.Web.Issue.{
  Texts, KycForm, IssueForm, kyc_schema, submit_kyc, issue_schema, submit_issue, or_else,
}

module _ (p : Prisma) (js : Js) (crypto : Crypto) (dids : DidIndex p) (issuers : IssuerIndex p)
    (multibase : String → Option String) (env : Env p js crypto) (v : Decorators) (z : Texts)
    (uuid issuer_id : String) (now : ℕ) (user_id address : String) (expires_at : Option ℕ)
    (s : Db p) (h : HasIdentity p js crypto dids issuers multibase env user_id address s)
    (good : Indexed p issuers s.issuers)
    (fresh : p.credentials.find uuid s.credentials ≡ none) where
  -- no credential has the hash of the body's claims for the caller at this time
  abbrev pub UnhashedBody : SelfIssueBody → Type 0
  UnhashedBody body =
      Unhashed p js crypto dids issuers multibase env uuid issuer_id now user_id address
        (body_claims body) body.expires_at expires_at s h

  -- the credential of a body, for the caller's DID and by the platform
  abbrev pub credential_of : SelfIssueBody → Vc
  credential_of body =
      issued_vc p js crypto env.key uuid now (did_of (issuer_address p js crypto env))
        (identity p js crypto dids issuers multibase env h).id (body_claims body) expires_at
        (prepared p js crypto dids issuers multibase env issuer_id h)

  issue_route_lem :
      (body : SelfIssueBody)
      → valid_issue v body ≡ true
      → expiry js body.expires_at ≡ ok expires_at
      → UnhashedBody body
      → (issue_route v p js crypto dids issuers multibase env uuid issuer_id now user_id address
          body s).0
        ≡ ok (credential_of body)
  unfolding issue_route
  issue_route_lem body valid date unique = rw valid (
      ap (λ r. r.0)
        (self_issue-issues p js crypto dids issuers multibase env uuid issuer_id now user_id address
          (body_claims body) body.expires_at expires_at s h good date fresh unique))

  valid_country : (country : String) → v.length_two country ≡ true → (country == "") ≡ false
  valid_country country h = elim (Bool-cases (country == "")) [
    | inl hit ↦
        let same : v.length_two country ≡ v.length_two "" =
          ap v.length_two ((eq_iff country "").0 hit) in
        absurd (ground (arith, same, h, v.length_two-empty))
    | inr miss ↦ miss
  ]

  valid_body :
      (body : SelfIssueBody)
      → v.length_two body.country ≡ true
      → leb body.age 150 ≡ true
      → date_or_none v body.expires_at ≡ true
      → valid_issue v body ≡ true
  unfolding valid_issue
  valid_body body country age date =
      rw (valid_country body.country country, country, age, date) refl

  -- A submission of the KYC form that passes its schema, under a free id and where no credential
  -- has the hash of its claims, is answered with a credential of exactly
  -- the values that were entered, the country in capitals, for the DID of whoever submits it, when
  -- the country in capitals has two characters for the server too and the date is one or is left
  -- out: nothing of the claims is compared with a document or a provider.
  pub submit_kyc-issues :
      (values : KycForm) (body : SelfIssueBody)
      → submit_kyc z values ≡ some body
      → v.length_two (z.to_upper_case values.country) ≡ true
      → date_or_none v (or_undefined values.expires_at) ≡ true
      → expiry js (or_undefined values.expires_at) ≡ ok expires_at
      → UnhashedBody body
      → ((issue_route v p js crypto dids issuers multibase env uuid issuer_id now user_id address
            body s).0
          ≡ ok (credential_of body))
        × ((credential_of body).body.claims ≡ record {
          country = z.to_upper_case values.country;
          age = values.age;
          accredited = values.accredited;
        })
  unfolding submit_kyc kyc_schema build_vc_body
  submit_kyc-issues values body sent country valid date unique =
      elim (Bool-cases (kyc_schema z values)) [
        | inl hit ↦
            let same : record {
              country = z.to_upper_case values.country;
              age = values.age;
              accredited = values.accredited;
              expires_at = or_undefined values.expires_at;
            }
                ≡ body =
              ground (arith, hit, sent) in
            let age : leb values.age 150 ≡ true = ground (arith, hit) in
            rw (sym same) (
              issue_route_lem _ (valid_body _ country age valid) date
                  (subst UnhashedBody (sym same) unique),
              refl,
            )
        | inr miss ↦ absurd (ground (arith, miss, sent))
      ]

  -- Whatever DID and type of credential an issuer enters on the page that issues credentials, a
  -- submission that the server's validation accepts, under a free id and where no credential has
  -- the hash of its claims, is answered with a credential whose subject is
  -- the caller's own DID; its claims are the ones entered, with US, 0 and false for what is left
  -- out.
  pub submit_issue-own :
      (values : IssueForm) (body : SelfIssueBody)
      → submit_issue z values ≡ some body
      → valid_issue v body ≡ true
      → expiry js body.expires_at ≡ ok expires_at
      → UnhashedBody body
      → (vc : Vc) × ((issue_route v p js crypto dids issuers multibase env uuid issuer_id now
            user_id address body s).0
          ≡ ok vc)
        × (vc.body.subject ≡ (identity p js crypto dids issuers multibase env h).id)
        × (vc.body.claims ≡ record {
          country = or_else (or_undefined values.country) "US";
          age = or_else values.age 0;
          accredited = or_else values.accredited false;
        })
  unfolding submit_issue issue_schema build_vc_body
  submit_issue-own values body sent valid date unique = elim (Bool-cases (issue_schema z values)) [
    | inl hit ↦
        let same : record {
          country = or_else (or_undefined values.country) "US";
          age = or_else values.age 0;
          accredited = or_else values.accredited false;
          expires_at = or_undefined values.expires_at;
        }
            ≡ body =
          ground (arith, hit, sent) in
        (
          credential_of body,
          issue_route_lem body valid date unique,
          refl,
          ap body_claims (sym same),
        )
    | inr miss ↦ absurd (ground (arith, miss, sent))
  ]
