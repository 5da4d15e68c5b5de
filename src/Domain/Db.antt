-- ===== src/Domain/Db.antt =====
-- The tables that the services share, the server's state over them, and the database calls as
-- steps of a handler.
use stprivy.Common.{String, List, [], ◌∷◌, Option, none, some, ◌==◌, ◌≡◌, refl}
use stprivy.Common.Tests.{if◌then◌else◌}
use stprivy.Common.Table.{Table, unless_taken, assoc_table}
use stprivy.Common.Exec.{Exec, Result, ok, err}
use stprivy.Domain.{
  User, Did, Issuer, Credential, Proof, ProofVerification, ProofRequest, VeriffSession, DomainEvent,
}

-- The Prisma client: one table for each model. `dids` is kept under the user's id, `sessions`
-- under the Veriff session's id, `issuers` under the DID and `users` under the row's id. The
-- column `credentialHash` of the credentials is unique too: `credential_by_hash` is `findUnique` by
-- it, for rows that are written under a new key.
pub record Prisma : Type 1 where
  pub users : Table User
  pub dids : Table Did
  pub issuers : Table Issuer
  pub credentials : Table Credential
  pub credential_by_hash : (credential_hash : String) → credentials.Rows → Option Credential
  pub credential_by_hash-put :
      (k hash : String) (r : Credential) (t : credentials.Rows)
      → credentials.find k t ≡ none
      → credential_by_hash hash (credentials.put k r t)
        ≡ (if r.credential_hash == hash then some r else credential_by_hash hash t)
  pub proofs : Table Proof
  pub verifications : Table ProofVerification
  pub requests : Table ProofRequest
  pub sessions : Table VeriffSession

pub record Db (p : Prisma) : Type 0 where
  pub users : p.users.Rows
  pub dids : p.dids.Rows
  pub issuers : p.issuers.Rows
  pub credentials : p.credentials.Rows
  pub proofs : p.proofs.Rows
  pub verifications : p.verifications.Rows
  pub requests : p.requests.Rows
  pub sessions : p.sessions.Rows
  pub events : List DomainEvent

-- What a write makes of the state: on an error nothing is written.
module _ {Row Rows S : Type 0} where
  abbrev pub written : Result (Row × Rows) → (Rows → S) → S → Result Row × S
  written (ok (r, t)) store s = (ok r, store t)
  written (err e) store s = (err e, s)

module _ (p : Prisma) where
  abbrev pub create_did : String → Did → Exec (Db p) Did
  create_did key row s = written (p.dids.create key row s.dids) (λ t. record s { dids = t }) s

  abbrev pub update_issuer : String → (Issuer → Issuer) → Exec (Db p) Issuer
  update_issuer key change s =
      written (p.issuers.update key change s.issuers) (λ t. record s { issuers = t }) s

  abbrev pub create_issuer : String → Issuer → Exec (Db p) Issuer
  create_issuer key row s =
      written (p.issuers.create key row s.issuers) (λ t. record s { issuers = t }) s

  abbrev pub update_credential : String → (Credential → Credential) → Exec (Db p) Credential
  update_credential key change s =
      written (p.credentials.update key change s.credentials) (λ t. record s { credentials = t }) s

  abbrev pub create_credential : String → Credential → Exec (Db p) Credential
  create_credential key row s =
      written
        (unless_taken (p.credential_by_hash row.credential_hash s.credentials)
          (p.credentials.create key row s.credentials))
        (λ t. record s { credentials = t }) s

  abbrev pub update_proof : String → (Proof → Proof) → Exec (Db p) Proof
  update_proof key change s =
      written (p.proofs.update key change s.proofs) (λ t. record s { proofs = t }) s

  abbrev pub create_proof : String → Proof → Exec (Db p) Proof
  create_proof key row s =
      written (p.proofs.create key row s.proofs) (λ t. record s { proofs = t }) s

  abbrev pub update_request : String → (ProofRequest → ProofRequest) → Exec (Db p) ProofRequest
  update_request key change s =
      written (p.requests.update key change s.requests) (λ t. record s { requests = t }) s

  abbrev pub create_request : String → ProofRequest → Exec (Db p) ProofRequest
  create_request key row s =
      written (p.requests.create key row s.requests) (λ t. record s { requests = t }) s

  abbrev pub update_session : String → (VeriffSession → VeriffSession) → Exec (Db p) VeriffSession
  update_session key change s =
      written (p.sessions.update key change s.sessions) (λ t. record s { sessions = t }) s

  abbrev pub create_session : String → VeriffSession → Exec (Db p) VeriffSession
  create_session key row s =
      written (p.sessions.create key row s.sessions) (λ t. record s { sessions = t }) s

  abbrev pub create_verification : String → ProofVerification → Exec (Db p) ProofVerification
  create_verification key row s =
      written (p.verifications.create key row s.verifications) (λ t. record s { verifications = t })
        s

  -- `eventEmitter.emit`: the events in the order in which they were emitted, the latest first
  abbrev pub emit : DomainEvent → Exec (Db p) (Unit {0})
  emit e s = (ok tt, record s { events = e ∷ s.events })

-- Association lists serve as a database.
abbrev with_hash : String → List (String × Credential) → Option Credential
with_hash hash [] = none
with_hash hash ((k, r) ∷ t) = if r.credential_hash == hash then some r else with_hash hash t

abbrev pub assoc_db : Prisma
assoc_db = record {
  users = assoc_table User;
  dids = assoc_table Did;
  issuers = assoc_table Issuer;
  credentials = assoc_table Credential;
  credential_by_hash = with_hash;
  credential_by_hash-put = λ k hash r t fresh. refl;
  proofs = assoc_table Proof;
  verifications = assoc_table ProofVerification;
  requests = assoc_table ProofRequest;
  sessions = assoc_table VeriffSession;
}

abbrev pub empty_db : Db assoc_db
empty_db = record {
  users = [];
  dids = [];
  issuers = [];
  credentials = [];
  proofs = [];
  verifications = [];
  requests = [];
  sessions = [];
  events = [];
}
