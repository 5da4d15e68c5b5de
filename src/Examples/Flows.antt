-- ===== src/Examples/Flows.antt =====
-- A user without a DID who is issued a credential, proves it and has a request approved, and the
-- requests of a verifier over a few calls.
use stprivy.Common.{
  ◌≡◌, ◌≢◌, refl, String, true, Option, none, some, List, [], ◌∷◌, ◌==◌, ◌⊎◌, arith,
}
use stprivy.Common.Tests.{if◌then◌else◌}
use stprivy.Common.Exec.{ok, err}
use stprivy.Domain.{Proof, RequestStatus, Issuer, Credential, CredentialStatus}
use stprivy.Domain.Db.{Db, assoc_db, empty_db}
use stprivy.Request.{create, approve, reject, respond}
use stprivy.Request.Lifecycle.{
  call, Call, creates, responds, generates, calls, Reaches, calls-Reaches,
}
use stprivy.Request.Justified.{Justified, calls-Justified}
use stprivy.Registry.Issuers.{IssuerIndex, Indexed, Office, deactivate, deactivated}
use stprivy.Credential.{
  Ledger, Vc, revoke_credential, with_issuer, no_such_credential, not_the_issuer,
}
use stprivy.Credential.Texts.{includes, after_prefix}
use stprivy.Credential.Issue.{issued_vc}
use stprivy.Credential.Controller.{Env, issuer_address, self_issue, revoke}
use stprivy.Credential.Controller.SelfIssue.{
  HasIdentity, new, after_issue, prepared, self_issue-issues,
}
use stprivy.Credential.Controller.Revoke.{revoke-refused, bad_already}
use stprivy.Proof.Controller.{generate}
use stprivy.Proof.Service.{generate_proof}
use stprivy.Flow.{self_issue-approval}
use stprivy.Examples.Data.{unary_js}
use stprivy.Examples.Requests
use stprivy.Examples.Credentials.{crypto, claims, relations}
use stprivy.Examples.Accounts.{index, multibase}

abbrev body_calls : List Call
body_calls =
    creates "r2" 1 "u1"
      (record { circuit_id = "age-proof"; purpose = ""; callback_url = none; expires_at = 9 })
    ∷ responds 5 "r1" "u1" "p1" approve
    ∷ generates "p2" 6 "u1" "c1" "age-proof"
    ∷ responds 10 "r2" "u1" "p1" reject
    ∷ []

calls-Reaches_example : Reaches none (some RequestStatus.expired)
unfolding calls call respond generate create generate_proof
calls-Reaches_example = calls-Reaches assoc_db unary_js body_calls "r2" Requests.db

none_approved : Justified assoc_db Requests.db
none_approved j row found closed = absurd (ground (arith, found, closed))

calls-Justified_example : Justified assoc_db (calls assoc_db unary_js body_calls Requests.db)
calls-Justified_example = calls-Justified assoc_db unary_js body_calls Requests.db none_approved

-- the table of issuers with its other columns
abbrev with_address : String → List (String × Issuer) → Option Issuer
with_address address [] = none
with_address address ((did, r) ∷ rest) =
    if r.stellar_address == address then some r else with_address address rest

abbrev with_id : String → List (String × Issuer) → Option Issuer
with_id id [] = none
with_id id ((did, r) ∷ rest) = if r.id == id then some r else with_id id rest

abbrev pub issuers : IssuerIndex assoc_db
issuers = record {
  by_address = with_address;
  by_id = with_id;
  by_address-put = λ did a r t h. refl;
}

pub no_issuers : Indexed assoc_db issuers []
no_issuers = record { same = λ a. refl; named = λ a r e. ground (arith, e) }

abbrev pub env : Env assoc_db unary_js crypto
env = record { issuer_public_key = none; server_public = none; key = tt }

abbrev pub start : Db assoc_db
start = record empty_db { requests = Requests.db.requests }

abbrev pub newcomer :
    HasIdentity assoc_db unary_js crypto index issuers multibase env "u1" "GU" start
newcomer = new "u" refl refl refl

abbrev first_vc : Vc
first_vc =
    issued_vc assoc_db unary_js crypto tt "c1" 5 "did:stellar:GA" "did:stellar:GU" claims none
      (prepared assoc_db unary_js crypto index issuers multibase env "i1" newcomer)

self_issue-issues_example :
    self_issue assoc_db unary_js crypto index issuers multibase env "c1" "i1" 5 "u1" "GU" claims
      none start
    ≡ (
      ok first_vc,
      after_issue assoc_db unary_js crypto index issuers multibase env "c1" "i1" 5 "u1" "GU" claims
          none none start newcomer,
    )
unfolding issuer_address
self_issue-issues_example =
    self_issue-issues assoc_db unary_js crypto index issuers multibase env "c1" "i1" 5 "u1" "GU"
      claims none none start newcomer no_issuers refl refl refl

self_issue-approval_example :
    let s =
      (self_issue assoc_db unary_js crypto index issuers multibase env "c1" "i1" 5 "u1" "GU" claims
        none start).1 in
    let (answer, s') = generate assoc_db unary_js "p1" 6 "u1" "c1" "age-proof" s in
    let (closed, s'') = respond assoc_db 7 "r1" "u1" "p1" approve s' in
    ((proof : Proof) × (answer ≡ ok proof)
      × (proof.subject_did ≡ "did:stellar:GU")
      × (assoc_db.proofs.find "p1" s''.proofs ≡ some proof))
    × (closed
        ≡ ok (record Requests.request {
          status = RequestStatus.approved;
          proof_id = some "p1";
          subject_did = some "did:stellar:GU";
        }))
self_issue-approval_example =
    self_issue-approval assoc_db unary_js crypto index issuers multibase env "c1" "i1" 5 "u1" "GU"
      claims none none start newcomer no_issuers refl refl refl "p1" "age-proof" 6 "r1" 7
      Requests.request refl refl refl refl (omega arith)

abbrev ledger : Ledger assoc_db unary_js crypto relations
ledger = record { db = empty_db; submitted = [] }

nothing_there :
    (revoke assoc_db unary_js crypto relations 5 "c9" "GA" ledger).0 ≡ err (no_such_credential "c9")
unfolding revoke revoke_credential includes after_prefix
nothing_there = refl

revoke-refused_example :
    ((with_issuer assoc_db unary_js crypto relations "c9" empty_db ≡ none)
      × (no_such_credential "c9" ≡ no_such_credential "c9"))
    ⊎ ((r : Credential) × (i : Issuer) × (with_issuer assoc_db unary_js crypto relations "c9"
            empty_db
          ≡ some (r, i))
        × (((i.did ≢ "did:stellar:GA") × (no_such_credential "c9" ≡ not_the_issuer))
            ⊎ ((i.did ≡ "did:stellar:GA")
                × (r.status ≡ CredentialStatus.revoked)
                × (no_such_credential "c9" ≡ bad_already))))
revoke-refused_example =
    revoke-refused assoc_db unary_js crypto relations 5 "c9" "GA" ledger (no_such_credential "c9")
      nothing_there

abbrev bank : Issuer
bank = record {
  id = "i1";
  did = "did:stellar:GA";
  stellar_address = "GA";
  name = "Bank";
  active = true;
}

abbrev office : Office assoc_db issuers
office = record { db = record empty_db { issuers = ("did:stellar:GA", bank) ∷ [] }; removed = [] }

switched_off : (deactivate assoc_db issuers "i1" office).0 ≡ ok (deactivated bank)
unfolding deactivate
switched_off = refl
