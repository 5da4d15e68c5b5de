-- ===== src/Proof/Service.antt =====
-- `generateProof` and `verifyProof` of proof.service.ts.
pub mod Generate
pub mod Verify
use Prim.Native.String.{◌++◌}
use stprivy.Common.{ℕ, String, Bool, true, false, not, Option, none, some, List, [], ◌∷◌, ◌==◌}
use stprivy.Common.Tests.{leb, if◌then◌else◌}
use stprivy.Common.Exec.{
  Exec, Error, Result, ok, err, bad_request, forbidden, not_found, throws, require, throw_if, gets,
  pure, ◌>>=◌, ◌>>◌,
}
use stprivy.Common.Js.{Js}
use stprivy.Domain.{
  KycClaims, Credential, CredentialStatus, Artifact, mock, Proof, ProofStatus, ProofVerification,
  EventName,
}
use stprivy.Domain.Db.{Prisma, Db, create_proof, create_verification, emit}
use stprivy.Proof.Encode.{encode_public_inputs, encode_groth16_proof}

abbrev pub is_active : CredentialStatus → Bool
is_active CredentialStatus.active = true
is_active _ = false

abbrev pub is_ready : ProofStatus → Bool
is_ready ProofStatus.completed = true
is_ready _ = false

abbrev pub status_name : ProofStatus → String
status_name ProofStatus.pending = "PENDING"
status_name ProofStatus.generating = "GENERATING"
status_name ProofStatus.completed = "COMPLETED"
status_name ProofStatus.failed = "FAILED"

abbrev pub no_credential : Error
no_credential = throws not_found "Credential not found"

abbrev pub foreign_credential : Error
foreign_credential = throws forbidden "Credential does not belong to you"

abbrev pub inactive_credential : Error
inactive_credential = throws bad_request "Credential is not active"

abbrev pub no_proof : Error
no_proof = throws not_found "Proof not found"

abbrev pub not_ready : ProofStatus → Error
not_ready status = throws bad_request ("Proof not ready (status: " ++ status_name status ++ ")")

-- '0x' and 64 times 'ab'
abbrev pub mock_proof : String
mock_proof =
    "0xabababababababababababababababababababababababababababababababababababababababababababababababababababababababababababababababab"

-- `String(age >= 18 ? 1 : 0)` for the age circuit, '1' for the others
abbrev pub verdict : Js → (circuit_id : String) → KycClaims → String
verdict js circuit_id claims =
    if circuit_id == "age-proof" then js.of_number (if leb 18 claims.age then 1 else 0) else "1"

-- `mockArtifact`
unfoldable pub mock_artifact : Js → (now : ℕ) → (circuit_id : String) → KycClaims → Artifact
mock_artifact js now circuit_id claims = record {
  proof = mock mock_proof;
  public_inputs = verdict js circuit_id claims ∷ js.of_number claims.age ∷ claims.country ∷ [];
  circuit = circuit_id;
  generated_at = some (js.iso now);
}

-- What the contract answers to `invokeContract('kyc-registry', 'verify_proof', …)`: the
-- transaction's hash, or the error that is thrown after the retries.
abbrev pub Contract : Type 0
Contract =
    (circuit_id : String) → (proof : List ℕ) → (public_inputs : List (List ℕ)) → Result String

-- a text is truthy unless it is empty; an object and an array are truthy
abbrev pub has_proof : Option Artifact → Bool
has_proof none = false
has_proof (some a) = elim a.proof [ mock text ↦ not (text == "") | _ ↦ true ]

module _ (p : Prisma) (js : Js) where
  -- `generateProof`; `id` and `now` are the new row's id and the time
  unfoldable pub generate_proof :
      (id : String) (now : ℕ) (subject_did credential_id circuit_id : String) → Exec (Db p) Proof
  generate_proof id now subject_did credential_id circuit_id = do
    found ← gets (λ s. p.credentials.find credential_id s.credentials)
    credential ← require no_credential found
    throw_if (not (credential.subject_did == subject_did)) foreign_credential
    throw_if (not (is_active credential.status)) inactive_credential
    proof ← create_proof p id (record {
      id = id;
      subject_did = subject_did;
      credential_id = credential_id;
      circuit_id = circuit_id;
      artifact = some (mock_artifact js now circuit_id credential.claims);
      generated_at = some now;
      status = ProofStatus.completed;
    })
    emit p (record {
      name = EventName.proof_generated;
      actor_did = subject_did;
      subject_did = none;
      resource_id = proof.id;
      timestamp = now;
    })
    pure proof

  submit :
      Contract → (circuit_id : String) → Option (List ℕ) → Option (List (List ℕ)) → Option String
  submit contract circuit_id (some proof) (some inputs) = elim (contract circuit_id proof inputs) [
    | ok hash ↦ some hash
    | err e ↦ none
  ]
  submit contract circuit_id _ _ = none

  -- the `try` block: the transaction's hash, or `null` after any throw
  pub anchor : Contract → (circuit_id : String) → Option Artifact → Option String
  unfolding submit
  anchor contract circuit_id none = none
  anchor contract circuit_id (some a) =
      if has_proof (some a)
      then submit contract circuit_id (encode_groth16_proof js a.proof)
          (encode_public_inputs js a.public_inputs)
      else none

  -- `verifyProof`
  unfoldable pub verify_proof :
      Contract
      → (id : String) (now : ℕ) (proof_id verifier_did : String) → Exec (Db p) ProofVerification
  unfolding anchor
  verify_proof contract id now proof_id verifier_did = do
    found ← gets (λ s. p.proofs.find proof_id s.proofs)
    proof ← require no_proof found
    throw_if (not (is_ready proof.status)) (not_ready proof.status)
    verification ← create_verification p id (record {
      id = id;
      proof_id = proof_id;
      verifier_did = verifier_did;
      result = has_proof proof.artifact;
      on_chain_tx_hash = anchor contract proof.circuit_id proof.artifact;
      metadata = proof.artifact;
    })
    emit p (record {
      name = EventName.proof_verified;
      actor_did = verifier_did;
      subject_did = some proof.subject_did;
      resource_id = proof_id;
      timestamp = now;
    })
    pure verification
