-- ===== src/Credential/Controller.antt =====
-- apps/server/src/modules/credentials/credential.controller.ts: a user has a credential issued for
-- themself, and an issuer revokes one. A `DidService` and the issuers' table do the work.
pub mod SelfIssue
pub mod Revoke
use Prim.Native.String.{◌++◌}
use stprivy.Common.{ℕ, String, Bool, true, false, Option, none, some, ◌==◌}
use stprivy.Common.Tests.{if◌then◌else◌}
use stprivy.Common.Exec.{
  Exec, Error, Result, ok, err, bad_request, forbidden, not_found, failure, throws, require, raise,
  gets, pure, try, ◌>>=◌, ◌>>◌,
}
use stprivy.Common.Js.{Js}
use stprivy.Domain.{KycClaims, Did, Credential}
use stprivy.Domain.Db.{Prisma, Db}
use stprivy.Did.{DidIndex, did_of, create_did_of}
use stprivy.Registry.Issuers.{IssuerIndex, upsert_issuer}
use stprivy.Credential.{Vc, Crypto, Relations, Ledger, issue_credential, revoke_credential}
use stprivy.Credential.Texts.{includes}

abbrev pub no_did_made : Error
no_did_made = throws bad_request "Failed to create DID"

abbrev pub invalid_time : Error
invalid_time = throws failure "Invalid time value"

-- `a ?? b`
abbrev or_else : Option String → String → String
or_else none b = b
or_else (some a) b = a

-- `dto.expiresAt ? new Date(dto.expiresAt) : undefined`; an invalid date throws when the
-- credential's body is built, which is before anything is written for it
abbrev pub expiry : Js → Option String → Result (Option ℕ)
expiry js none = ok none
expiry js (some text) =
    if text == ""
    then ok none
    else elim (js.parse_date text) [ some t ↦ ok (some t) | none ↦ err invalid_time ]

abbrev pub raised : {S A : Type 0} → Result A → Exec S A
raised r s = (r, s)

module _ (p : Prisma) (js : Js) (crypto : Crypto) where
  -- The environment: the variables `ISSUER_PUBLIC_KEY` and `STELLAR_SERVER_PUBLIC`, and the key of
  -- `STELLAR_SERVER_SECRET`, which is required.
  pub record Env : Type 0 where
    pub issuer_public_key : Option String
    pub server_public : Option String
    pub key : crypto.Key

  unfoldable pub issuer_address : Env → String
  issuer_address env =
      or_else env.issuer_public_key (or_else env.server_public (crypto.public_key env.key))

  module _ (dids : DidIndex p) (issuers : IssuerIndex p) (multibase : String → Option String)
      (env : Env) where
    -- the user's DID, made where there is none
    abbrev ensure : (user_id address : String) → Option Did → Exec (Db p) (Option Did)
    ensure user_id address (some did) = pure (some did)
    ensure user_id address none = do
      create_did_of p dids multibase user_id address
      gets (λ s. p.dids.find user_id s.dids)

    unfoldable pub ensure_did : (user_id address : String) → Exec (Db p) Did
    ensure_did user_id address = do
      found ← gets (λ s. p.dids.find user_id s.dids)
      made ← ensure user_id address found
      require no_did_made made

    -- `selfIssue`; `uuid` and `issuer_id` are the ids of new rows
    unfoldable pub self_issue :
        (uuid issuer_id : String) (now : ℕ) (user_id address : String)
        → KycClaims
        → (expires_at : Option String) → Exec (Db p) Vc
    self_issue uuid issuer_id now user_id address claims expires_at = do
      did ← ensure_did user_id address
      issuer ← upsert_issuer p issuers issuer_id (issuer_address env)
      expires ← raised (expiry js expires_at)
      issue_credential p js crypto env.key uuid now (did_of (issuer_address env)) did.id claims
          expires

  module _ (relations : Relations p) where
    -- the exception of the `catch` block, by the error's message
    abbrev pub mapped : Error → Error
    mapped e =
        if includes "not found" e.message
        then throws not_found e.message
        else if includes "Only the issuer" e.message
        then throws forbidden e.message
        else if includes "already revoked" e.message
        then throws bad_request e.message
        else e

    -- `revoke`
    unfoldable pub revoke :
        (now : ℕ) (id address : String) → Exec (Ledger p js crypto relations) Credential
    revoke now id address =
        try (revoke_credential p js crypto relations now id (did_of address))
          (λ e. raise (mapped e))
