-- ===== src/Flow.antt =====
-- A user's way through the services of apps/server/src/modules: a credential from
-- credentials/credential.controller.ts, a proof of it and an answer to a request from
-- proofs/proof.controller.ts, one call after the other on the same database.
use stprivy.Common.{ℕ, ◌≤◌, ◌≡◌, refl, ap, sym, ◌∷◌, String, Option, none, some, eq_refl}
use stprivy.Common.Exec.{ok}
use stprivy.Common.Js.{Js}
use stprivy.Domain.{KycClaims, Credential, Proof, ProofRequest, RequestStatus}
use stprivy.Domain.Db.{Prisma, Db}
use stprivy.Did.{DidIndex, did_of}
use stprivy.Registry.Issuers.{IssuerIndex, Indexed}
use stprivy.Credential.{Crypto}
use stprivy.Credential.Issue.{issued_row}
use stprivy.Credential.Controller.{Env, issuer_address, expiry, self_issue}
use stprivy.Credential.Controller.SelfIssue.{
  HasIdentity, Unhashed, identity, identity_stored, prepared, platform, after_issue,
  self_issue-issues,
}
use stprivy.Proof.Service.Generate.{generated_row, generated_event, generate_proof_allowed}
use stprivy.Proof.Controller.{generate}
use stprivy.Request.{approve, respond}
use stprivy.Request.Respond.{MayApprove, approve_allowed}

module _ (p : Prisma) (js : Js) (crypto : Crypto) (dids : DidIndex p) (issuers : IssuerIndex p)
    (multibase : String → Option String) (env : Env p js crypto) (uuid issuer_id : String) (now : ℕ)
    (user_id address : String) (claims : KycClaims) (text : Option String) (expires_at : Option ℕ)
    (s : Db p) (h : HasIdentity p js crypto dids issuers multibase env user_id address s)
    (good : Indexed p issuers s.issuers) (date : expiry js text ≡ ok expires_at)
    (fresh : p.credentials.find uuid s.credentials ≡ none)
    (unique : Unhashed p js crypto dids issuers multibase env uuid issuer_id now user_id address
      claims text expires_at s h) where
  abbrev issued : Db p
  issued =
      (self_issue p js crypto dids issuers multibase env uuid issuer_id now user_id address claims
        text s).1

  abbrev holder : String
  holder = (identity p js crypto dids issuers multibase env h).id

  abbrev before : Db p
  before =
      after_issue p js crypto dids issuers multibase env uuid issuer_id now user_id address claims
        text expires_at s h

  abbrev credential : Credential
  credential =
      issued_row p js crypto env.key uuid now (did_of (issuer_address p js crypto env)) holder
        claims expires_at (prepared p js crypto dids issuers multibase env issuer_id h)
        (platform p js crypto dids issuers multibase env uuid issuer_id now user_id address claims
          text expires_at s h)

  issued_lem : issued ≡ before
  issued_lem =
      ap (λ r. r.1)
        (self_issue-issues p js crypto dids issuers multibase env uuid issuer_id now user_id address
          claims text expires_at s h good date fresh unique)

  module _ (proof_id circuit_id : String) (now' : ℕ)
      (free : p.proofs.find proof_id s.proofs ≡ none) where
    abbrev proof : Proof
    proof = generated_row p js proof_id now' holder uuid circuit_id before credential

    abbrev proved : Db p
    proved = record before {
      proofs = p.proofs.put proof_id proof s.proofs;
      events = generated_event p js proof_id now' holder uuid circuit_id before ∷ before.events;
    }

    generate_lem : generate p js proof_id now' user_id uuid circuit_id before ≡ (ok proof, proved)
    unfolding generate
    generate_lem = rw (identity_stored p js crypto dids issuers multibase env user_id address s h) (
        generate_proof_allowed p js proof_id now' holder uuid circuit_id before credential (record {
          stored = rw (p.credentials.find-put, eq_refl uuid) refl;
          owner = refl;
          active = refl;
          fresh = free;
        }))

  -- A user who has just been issued a credential, under a free id and with a hash that no other
  -- credential has, can make a proof of it, for any circuit, under a
  -- free id; with this proof the user can then have any open request for this circuit approved
  -- that is still in time.
  pub self_issue-approval :
      (proof_id circuit_id : String) (now' : ℕ) (request_id : String) (now'' : ℕ)
      (req : ProofRequest)
      → p.proofs.find proof_id s.proofs ≡ none
      → p.requests.find request_id s.requests ≡ some req
      → req.status ≡ RequestStatus.pending
      → req.circuit_id ≡ circuit_id
      → now'' ≤ req.expires_at
      → let (answer, s') = generate p js proof_id now' user_id uuid circuit_id issued in
        let (closed, s'') = respond p now'' request_id user_id proof_id approve s' in
        ((proof : Proof) × (answer ≡ ok proof)
          × (proof.subject_did ≡ holder)
          × (p.proofs.find proof_id s''.proofs ≡ some proof))
        × (closed
            ≡ ok (record req {
              status = RequestStatus.approved;
              proof_id = some proof_id;
              subject_did = some holder;
            }))
  self_issue-approval proof_id circuit_id now' request_id now'' req free asked open_still circuit
        in_time =
      rw (issued_lem, generate_lem proof_id circuit_id now' free)
        (let may : MayApprove p now'' request_id user_id proof_id
              (proved proof_id circuit_id now' free) req (proof proof_id circuit_id now' free)
              (identity p js crypto dids issuers multibase env h) =
            record {
              asked = asked;
              open_still = open_still;
              in_time = in_time;
              given = rw (p.proofs.find-put, eq_refl proof_id) refl;
              identity = identity_stored p js crypto dids issuers multibase env user_id address s h;
              owner = refl;
              completed = refl;
              circuit = sym circuit;
            } in
          rw
            (approve_allowed p now'' request_id user_id proof_id
              (proved proof_id circuit_id now' free) req (proof proof_id circuit_id now' free)
              (identity p js crypto dids issuers multibase env h) may)
            (
              (
                proof proof_id circuit_id now' free,
                refl,
                refl,
                rw (p.proofs.find-put, eq_refl proof_id) refl,
              ),
              refl,
            ))
