-- ===== src/Credential/Controller/SelfIssue.antt =====
-- What a user who has a credential issued for themself can count on, and the life of the issuer.
use stprivy.Common.{ℕ, ◌≡◌, refl, String, Option, none, some, arith, eq_refl}
use stprivy.Common.Exec.{ok}
use stprivy.Common.Js.{Js}
use stprivy.Domain.{KycClaims, Did, Issuer}
use stprivy.Domain.Db.{Prisma, Db}
use stprivy.Did.{DidIndex, did_of, create_did_of, build_did_document}
use stprivy.Registry.Issuers.{IssuerIndex, Indexed, upserted, upserted-active, upsert_issuer_lem}
use stprivy.Credential.{Crypto, compute_credential_hash}
use stprivy.Credential.Issue.{MayIssue, issued_vc, issued_db, issue_lem}
use stprivy.Credential.Controller.{Env, issuer_address, ensure_did, expiry, self_issue}

module _ (p : Prisma) (js : Js) (crypto : Crypto) (dids : DidIndex p) (issuers : IssuerIndex p)
    (multibase : String → Option String) (env : Env p js crypto) where
  -- The user has a DID, or their address has a key and nobody has its DID.
  pub data HasIdentity (user_id address : String) (s : Db p) : Type 0 where
    known : (did : Did) → p.dids.find user_id s.dids ≡ some did → HasIdentity user_id address s
    new :
        (key : String)
        → p.dids.find user_id s.dids ≡ none
        → multibase address ≡ some key
        → dids.by_id (did_of address) s.dids ≡ none
        → HasIdentity user_id address s

  -- the user's row after the call
  abbrev pub did_row : (user_id address key : String) → Did
  did_row user_id address key = record {
    id = did_of address;
    user_id = user_id;
    document = build_did_document (did_of address) key;
  }

  abbrev pub identity : {user_id address : String} {s : Db p} → HasIdentity user_id address s → Did
  identity (known did e) = did
  identity {user_id} {address} (new key e f g) = did_row user_id address key

  abbrev pub dids_with :
      {user_id address : String} {s : Db p} → HasIdentity user_id address s → p.dids.Rows
  dids_with {s = s} (known did e) = s.dids
  dids_with {user_id} {address} {s} (new key e f g) =
      p.dids.put user_id (did_row user_id address key) s.dids

  abbrev pub with_identity :
      {user_id address : String} {s : Db p} → HasIdentity user_id address s → Db p
  with_identity {s = s} h = record s { dids = dids_with h }

  ensure_did_lem :
      (user_id address : String) (s : Db p) (h : HasIdentity user_id address s)
      → ensure_did p js crypto dids issuers multibase env user_id address s
        ≡ (ok (identity h), with_identity h)
  unfolding ensure_did create_did_of
  ensure_did_lem user_id address s (known did e) = rw e refl
  ensure_did_lem user_id address s (new key e f g) =
      let made = p.dids.create_lem user_id (did_row user_id address key) s.dids in
      let stored = p.dids.find-put user_id user_id (did_row user_id address key) s.dids in
      ground (arith, e, f, g, made, stored, eq_refl user_id)

  pub identity_stored :
      (user_id address : String) (s : Db p) (h : HasIdentity user_id address s)
      → p.dids.find user_id (dids_with h) ≡ some (identity h)
  identity_stored user_id address s (known did e) = e
  identity_stored user_id address s (new key e f g) = rw (p.dids.find-put, eq_refl user_id) refl

  -- the state in which the credential is issued
  abbrev pub prepared :
      (issuer_id : String) {user_id address : String} {s : Db p}
      → HasIdentity user_id address s
      → Db p
  prepared issuer_id {s = s} h =
      let a = issuer_address p js crypto env in
      record (with_identity h) {
        issuers =
            p.issuers.put (did_of a) (upserted issuer_id a (p.issuers.find (did_of a) s.issuers))
              s.issuers;
      }

  module _ (uuid issuer_id : String) (now : ℕ) (user_id address : String) (claims : KycClaims)
      (text : Option String) (expires_at : Option ℕ) (s : Db p)
      (h : HasIdentity user_id address s) where
    abbrev pub subject : String
    subject = (identity h).id

    abbrev pub platform : Issuer
    platform =
        let a = issuer_address p js crypto env in
        upserted issuer_id a (p.issuers.find (did_of a) s.issuers)

    abbrev pub after_issue : Db p
    after_issue =
        issued_db p js crypto env.key uuid now (did_of (issuer_address p js crypto env)) subject
          claims expires_at (prepared issuer_id h) platform

    -- No credential has the hash of these claims for this subject at this time.
    abbrev pub Unhashed : Type 0
    Unhashed =
        p.credential_by_hash
          (compute_credential_hash js crypto claims (did_of (issuer_address p js crypto env))
            subject now)
          s.credentials
        ≡ none

    may_issue :
        p.credentials.find uuid s.credentials ≡ none
        → Unhashed
        → MayIssue p js crypto env.key uuid now
            (did_of (issuer_address p js crypto env))
            subject
            claims
            expires_at
            (prepared issuer_id h)
            platform
    may_issue fresh unique =
        let a = issuer_address p js crypto env in
        record {
          registered = rw (p.issuers.find-put, eq_refl (did_of a)) refl;
          active = upserted-active issuer_id a (p.issuers.find (did_of a) s.issuers);
          fresh = fresh;
          unique = unique;
        }

    -- A user who has a DID, or whose address can have one, gets a credential of the claims that they
    -- send, under a free id and where no credential has its hash, whatever became of the platform's
    -- issuer before: a missing issuer is made and one that was deactivated is active again. The DID, the issuer's row, the credential and its
    -- event are all that is written.
    pub self_issue-issues :
        Indexed p issuers s.issuers
        → expiry js text ≡ ok expires_at
        → p.credentials.find uuid s.credentials ≡ none
        → Unhashed
        → self_issue p js crypto dids issuers multibase env uuid issuer_id now user_id address
            claims text s
          ≡ (
            ok (
                issued_vc p js crypto env.key uuid now
                  (did_of (issuer_address p js crypto env))
                  subject
                  claims
                  expires_at
                  (prepared issuer_id h)),
            after_issue,
          )
    unfolding self_issue
    self_issue-issues good date fresh unique =
        rw
          (
            ensure_did_lem user_id address s h,
            upsert_issuer_lem p issuers issuer_id (issuer_address p js crypto env) (with_identity h)
                good,
            date,
          )
          (issue_lem p js crypto env.key uuid now _ _ claims expires_at (prepared issuer_id h)
            platform (may_issue fresh unique))
