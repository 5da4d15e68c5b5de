-- ===== src/Domain.antt =====
-- The database of apps/server/prisma/schema.prisma: rows, enumerations and the tables, with the
-- domain events of events/domain-events.ts. Times are milliseconds, as `Date` counts them.
pub mod Db
pub mod Queries
use stprivy.Common.{ℕ, String, Bool, Option, List}

pub data Role : Type 0 where
  subject issuer admin : Role

pub data CredentialStatus : Type 0 where
  active revoked expired : CredentialStatus

pub data ProofStatus : Type 0 where
  pending generating completed failed : ProofStatus

pub data RequestStatus : Type 0 where
  pending approved rejected expired : RequestStatus

pub record User : Type 0 where
  pub id : String
  pub stellar_address : String
  pub role : Role
  pub created_at : ℕ

pub record Issuer : Type 0 where
  pub id : String
  pub did : String
  pub stellar_address : String
  pub name : String
  pub active : Bool

-- did.service.ts
pub record VerificationMethod : Type 0 where
  pub id : String
  pub type : String
  pub controller : String
  pub public_key_multibase : String

pub record DidDocument : Type 0 where
  pub context : List String
  pub id : String
  pub verification_method : List VerificationMethod
  pub authentication : List String
  pub assertion_method : List String

pub record Did : Type 0 where
  pub id : String
  pub user_id : String
  pub document : DidDocument

-- credential.types.ts
pub record KycClaims : Type 0 where
  pub country : String
  pub age : ℕ
  pub accredited : Bool

pub record VcProof : Type 0 where
  pub type : String
  pub created : String
  pub verification_method : String
  pub proof_purpose : String
  pub proof_value : String

pub record Credential : Type 0 where
  pub id : String
  pub issuer_id : String
  pub subject_did : String
  pub type : List String
  pub claims : KycClaims
  pub proof : VcProof
  pub credential_hash : String
  pub issued_at : ℕ
  pub expires_at : Option ℕ
  pub status : CredentialStatus
  pub on_chain_tx_hash : Option String

-- `artifact.proof`: the mock is a text, the worker's is an object of points
pub data ProofBody : Type 0 where
  mock : String → ProofBody
  points : (pi_a : List String) → (pi_b : List (List String)) → (pi_c : List String) → ProofBody

pub record Artifact : Type 0 where
  pub proof : ProofBody
  pub public_inputs : List String
  -- `circuit` of the mock, `circuitId` of the worker
  pub circuit : String
  -- the mock's time stamp
  pub generated_at : Option String

pub record Proof : Type 0 where
  pub id : String
  pub subject_did : String
  pub credential_id : String
  pub circuit_id : String
  pub artifact : Option Artifact
  pub generated_at : Option ℕ
  pub status : ProofStatus

pub record ProofVerification : Type 0 where
  pub id : String
  pub proof_id : String
  pub verifier_did : String
  pub result : Bool
  pub on_chain_tx_hash : Option String
  pub metadata : Option Artifact

pub record ProofRequest : Type 0 where
  pub id : String
  pub verifier_did : String
  pub subject_did : Option String
  pub circuit_id : String
  pub purpose : String
  pub callback_url : Option String
  pub expires_at : ℕ
  pub status : RequestStatus
  pub proof_id : Option String
  pub created_at : ℕ

pub record VeriffSession : Type 0 where
  pub user_id : String
  pub session_id : String
  pub session_url : String
  pub status : String
  pub credential_id : Option String

pub data EventName : Type 0 where
  credential_issued credential_revoked proof_generated proof_verified verification_completed
        job_failed :
      EventName

pub record DomainEvent : Type 0 where
  pub name : EventName
  pub actor_did : String
  pub subject_did : Option String
  pub resource_id : String
  pub timestamp : ℕ
